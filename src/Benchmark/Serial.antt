-- ===== src/Benchmark/Serial.antt =====
-- `run_serial_pipeline_reference` of src/benchmark/end_to_end_baseline.cpp: read, process and write a
-- block, one block after the other. The reads, the processing and the writes are those of an
-- environment, and a call that never returns gives `none`.
pub mod Points
pub mod Whole
pub mod InStep
pub mod Keep
pub mod Equivalence
pub mod Content
use io_uring_async_load_proc.Prelude.{
  ℕ, zero, suc, ◌+◌, ◌-◌, ◌*◌, ◌^◌, ◌≤◌, ◌<◌, ◌≡◌, ◌≢◌, refl, sym, ap, subst, ◌∙◌, ◌⊎◌, inl, inr,
  Bool, true, false, not, ◌&&◌, ◌||◌, Option, none, some, List, [], ◌∷◌, ◌++◌, length, ltb, ◌==◌,
  if◌then◌else◌, arith, Bool-cases, Option-cases, length-append, lt→ltb, ltb→lt, le→not-ltb,
}
use io_uring_async_load_proc.Exception.{
  Exception, Result, ok, throw, throw_if, ◌>>=◌, ◌>>◌, Outcome, blocks, returns, throws, faults,
  invalid_argument, logic_error, overflow_error, runtime_error, system_error, Result-cases,
  >>=-eq-ok,
}
use io_uring_async_load_proc.Config.{PipelineConfig, validate}
use io_uring_async_load_proc.Buffer.Aligned.{Allocation, new_aligned_buffer}
use io_uring_async_load_proc.Metrics.Counter.{Counter, increment}
use io_uring_async_load_proc.Util.FileIo.{WriteAtResult}
use io_uring_async_load_proc.Pipeline.Output.{PipelineRunResult, checked_add}
use io_uring_async_load_proc.Pipeline.Executor.{canonical_failure, fail_queue, finish_run}
use io_uring_async_load_proc.Pipeline.SpscQueue
use io_uring_async_load_proc.Pipeline.SpscQueue.{SpscQueue}
use io_uring_async_load_proc.Pipeline.Channel.{
  Channel, Status, send, receive, take_first, finish, abort,
}
use io_uring_async_load_proc.Pipeline.Channel.Answers.{
  IsFull, IsIdle, HasRoom, added, Sends, room, full, shut, shut_by, send-Sends, Receives, first,
  empty, last, broken, receive-Receives,
}
use io_uring_async_load_proc.Pipeline.Executor.Workers.State.{
  Item, Environment, QueueCalls, Worker, active, raised, fails_first, fails_second, failed,
  returned, ReaderState, acquires, reads, leaves, ProcessorState, closes, processes, WriterState,
  writes, Thread, reader_thread, processor_thread, writer_thread, RunCounters, System,
}

pub record SerialPipelineResult : Type 0 where
  pub blocks_written : ℕ
  pub bytes_written : ℕ

-- The tests before the block is allocated. A negative descriptor is `none`.
unfoldable pub check_serial : PipelineConfig → Option ℕ → Option ℕ → ℕ → Result (Unit {0})
check_serial c (some input_fd) (some output_fd) stage_count = do
  validate c
  throw_if (input_fd == output_fd) invalid_argument
  throw_if (stage_count == 0) invalid_argument
check_serial c _ _ stage_count = do validate c; throw invalid_argument

-- The part of the loop behind `write_all_at`: the result and the offset of the next block.
unfoldable pub settle :
    SerialPipelineResult → ℕ → ℕ → WriteAtResult → Result (SerialPipelineResult × ℕ)
unfolding checked_add
settle result file_offset size w = do
  throw_if (not (w.error_number == 0)) (system_error w.error_number)
  throw_if (not (w.bytes_written == size)) runtime_error
  bytes ← checked_add result.bytes_written size
  count ← checked_add result.blocks_written 1
  next ← checked_add file_offset size
  let after : SerialPipelineResult = record { blocks_written = count; bytes_written = bytes }
  ok (after, next)

module _ (e : Environment) where
  open e use {Stages, File, read, process, write}

  -- How the loop ends, with the stages and the output file.
  abbrev pub Ending : Type 0
  Ending = Option (Result SerialPipelineResult × Stages × File)

  abbrev pub Round : Type 0
  Round = Option (Result (SerialPipelineResult × ℕ) × Stages × File)

  unfoldable pub after_write :
      SerialPipelineResult → ℕ → ℕ → Stages → Option (WriteAtResult × File) → Round
  unfolding settle
  after_write result file_offset size stages none = none
  after_write result file_offset size stages (some (w, output)) =
      some (settle result file_offset size w, stages, output)

  unfoldable pub after_process :
      ℕ → File → SerialPipelineResult → ℕ → ℕ → Stages → List ℕ → Result (Unit {0}) → Round
  unfolding after_write
  after_process i output result file_offset size stages block (throw x) =
      some (throw x, stages, output)
  after_process i output result file_offset size stages block (ok _) =
      after_write result file_offset size stages (write i output block file_offset)

  -- The rest of a round whose read gave bytes.
  unfoldable pub round : ℕ → Stages → File → SerialPipelineResult → ℕ → List ℕ → Round
  unfolding after_process
  round i stages output result file_offset bytes =
      let (stages', block, done) = process stages bytes in
      after_process i output result file_offset (length bytes) stages' block done

  unfoldable pub after_round : (Stages → File → SerialPipelineResult → ℕ → Ending) → Round → Ending
  after_round later none = none
  after_round later (some (throw x, stages, output)) = some (throw x, stages, output)
  after_round later (some (ok (result, file_offset), stages, output)) =
      later stages output result file_offset

  unfoldable pub after_read :
      (Stages → File → SerialPipelineResult → ℕ → Ending)
      → ℕ
      → Stages
      → File
      → SerialPipelineResult
      → ℕ
      → Option (Result (List ℕ))
      → Ending
  unfolding after_round round
  after_read later i stages output result file_offset none = none
  after_read later i stages output result file_offset (some (throw x)) =
      some (throw x, stages, output)
  after_read later i stages output result file_offset (some (ok [])) =
      some (ok result, stages, output)
  after_read later i stages output result file_offset (some (ok (b ∷ bs))) =
      after_round later (round i stages output result file_offset (b ∷ bs))

  -- The loop, with the number of rounds that may still come.
  unfoldable pub serial_loop : ℕ → ℕ → Stages → File → SerialPipelineResult → ℕ → Ending
  unfolding after_read
  serial_loop zero i stages output result file_offset = none
  serial_loop (suc fuel) i stages output result file_offset =
      after_read (serial_loop fuel (i + 1)) i stages output result file_offset (read i file_offset)

  -- The function, with the answer to the allocation of its block.
  unfoldable pub run_serial_pipeline_reference :
      ℕ → PipelineConfig → Allocation → Option ℕ → Option ℕ → ℕ → Stages → File → Ending
  unfolding check_serial serial_loop
  run_serial_pipeline_reference fuel c memory input_fd output_fd stage_count stages output =
      let block =
        check_serial c input_fd output_fd stage_count
        >> new_aligned_buffer c.block_size c.buffer_alignment memory in
      elim block [
        | throw x ↦ some (throw x, stages, output)
        | ok _ ↦
            serial_loop fuel 0 stages output (record { blocks_written = 0; bytes_written = 0 }) 0
      ]
