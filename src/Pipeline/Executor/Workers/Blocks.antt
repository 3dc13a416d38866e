-- ===== src/Pipeline/Executor/Workers/Blocks.antt =====
-- What the workers of src/pipeline/pipeline_executor.cpp count and check for a block.
use io_uring_async_load_proc.Prelude.{ℕ, ◌-◌, ◌^◌, not, Option, none, some, List, length, ltb, ◌==◌}
use io_uring_async_load_proc.Exception.{
  Result, ok, throw, throw_if, ◌>>=◌, ◌>>◌, invalid_argument, overflow_error, runtime_error,
  system_error,
}
use io_uring_async_load_proc.Config.{PipelineConfig}
use io_uring_async_load_proc.Metrics.Counter.{increment}
use io_uring_async_load_proc.Util.FileIo.{WriteAtResult}
use io_uring_async_load_proc.Pipeline.Output.{PipelineRunResult, checked_add}
use io_uring_async_load_proc.Pipeline.Executor.Workers.State.{Item, RunCounters}

unfoldable pub count_read : ℕ → Option RunCounters → Option RunCounters
count_read n none = none
count_read n (some m) =
    some
      (record m { read_blocks = increment m.read_blocks 1; read_bytes = increment m.read_bytes n })

unfoldable pub count_processed : ℕ → Option RunCounters → Option RunCounters
count_processed n none = none
count_processed n (some m) = some (record m {
  processed_blocks = increment m.processed_blocks 1;
  processed_bytes = increment m.processed_bytes n;
})

unfoldable pub count_written : ℕ → Option RunCounters → Option RunCounters
count_written n none = none
count_written n (some m) = some (record m {
  written_blocks = increment m.written_blocks 1;
  written_bytes = increment m.written_bytes n;
})

-- What the reader checks of a block that was read, the constructor of its item included.
unfoldable pub check_block : PipelineConfig → ℕ → ℕ → ℕ → Result (Unit {0})
unfolding checked_add
check_block c block_index file_offset bytes_read = do
  next ← checked_add file_offset bytes_read
  throw_if (block_index == 2 ^ 64 - 1) overflow_error
  throw_if (ltb c.block_size bytes_read) invalid_argument

-- The writer's two sums; the first stays when the second throws.
unfoldable pub add_written : PipelineRunResult → ℕ → Result (Unit {0}) × PipelineRunResult
unfolding checked_add
add_written r size = elim (checked_add r.bytes_written size) [
  | throw x ↦ (throw x, r)
  | ok bytes ↦ elim (checked_add r.blocks_written 1) [
    | throw x ↦ (throw x, record r { bytes_written = bytes })
    | ok blocks_now ↦ (ok tt, record { blocks_written = blocks_now; bytes_written = bytes })
  ]
]

unfoldable pub check_write : WriteAtResult → ℕ → Result (Unit {0})
check_write w size = do
  throw_if (not (w.error_number == 0)) (system_error w.error_number)
  throw_if (not (w.bytes_written == size)) runtime_error

-- The item that the reader makes of a block.
abbrev pub new_block : ℕ → ℕ → List ℕ → Item
new_block i o bytes = record {
  block_index = i;
  file_offset = o;
  valid_bytes = length bytes;
  block = bytes;
}
