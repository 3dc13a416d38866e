-- ===== src/Benchmark/Increment/Total.antt =====
-- The pipeline of src/benchmark/end_to_end_baseline.cpp increments a file, if no call of the operating
-- system fails.
use io_uring_async_load_proc.Prelude.{
  ℕ, ◌+◌, ◌^◌, ◌≤◌, ◌<◌, ◌≡◌, true, false, Option, none, some, List, length, map, arith,
}
use io_uring_async_load_proc.Exception.{ok}
use io_uring_async_load_proc.Config.{PipelineConfig}
use io_uring_async_load_proc.Util.FileIo.{FileSystem, Answer}
use io_uring_async_load_proc.Util.FileIo.Calm.{Calm}
use io_uring_async_load_proc.Pipeline.Executor.{admit}
use io_uring_async_load_proc.Pipeline.SpscQueue.{SpscQueue}
use io_uring_async_load_proc.Pipeline.Stages.{increment_byte}
use io_uring_async_load_proc.Metrics.Gauge.{value_max}
use io_uring_async_load_proc.Buffer.Aligned.{Allocation}
use io_uring_async_load_proc.Pipeline.Executor.Workers.State.{Item, Thread, RunCounters}
use io_uring_async_load_proc.Pipeline.Executor.Workers.Loops.{step, run_workers, start_workers}
use io_uring_async_load_proc.Pipeline.Executor.Workers.Queues.{spsc_calls}
use io_uring_async_load_proc.Pipeline.Executor.Workers.Same.{QueueRun}
use io_uring_async_load_proc.Pipeline.Executor.Run.{RunGauges, make_queues, run}
use io_uring_async_load_proc.Benchmark.Increment.Correct.{
  increments, Serves, OneStage, run-increments,
}
use io_uring_async_load_proc.Benchmark.Increment.Finish.{serial_loop-Ends}

module _ (fs : FileSystem) (c : PipelineConfig) (times : ℕ → ℕ × ℕ) (preads : ℕ → List Answer)
    (pwrites : ℕ → ℕ → List Answer) (input : fs.File) (contents : List ℕ) where
  -- On an input of fewer than 2 ^ 64 bytes, `PipelineExecutor::run` on the synchronous
  -- backend, with the one stage that
  -- increments bytes writes every byte of the input, incremented and in its place, into the output,
  -- and returns their number, in whatever order its threads take their steps until none can take
  -- one. The run must be admitted, with its pool and queues made and a depth below 2 ^ 63. A call of
  -- the operating system may transfer less than it was asked for, or be interrupted, but not for
  -- ever, and it must not fail otherwise.
  pub run-increments_all :
      (memory : ℕ → Allocation) (gauges : RunGauges) (counters : Option RunCounters)
      (input_fd output_fd : Option ℕ) (q q' : SpscQueue Item)
      (stages : (increments fs c times preads pwrites input contents).Stages) (output : fs.File)
      (ts : List Thread) (s : QueueRun c (increments fs c times preads pwrites input contents))
      → Serves fs c times preads pwrites input contents
      → ((i : ℕ) → Calm (preads i))
      → ((i size : ℕ) → Calm (pwrites i size))
      → length contents < 2 ^ 64
      → admit input_fd output_fd 1 false ≡ ok true
      → 0 < c.block_size
      → make_queues memory c gauges ≡ ok (q, q')
      → c.queue_depth ≤ value_max
      → OneStage fs c times preads pwrites input contents stages
      → run_workers spsc_calls c (increments fs c times preads pwrites input contents) ts (
          start_workers spsc_calls c
            (increments fs c times preads pwrites input contents)
            q
            q'
            stages
            output
            counters)
        ≡ some s
      → ((t : Thread)
          → step spsc_calls c (increments fs c times preads pwrites input contents) t s ≡ none)
      → (blocks : ℕ) × (stages' : (increments fs c times preads pwrites input contents).Stages)
        × (run c
              (increments fs c times preads pwrites input contents)
              memory
              gauges
              counters
              ts
              input_fd
              output_fd
              1
              false
              stages
              output
            ≡ some (
              ok (record { blocks_written = blocks; bytes_written = length contents }),
              stages',
              fs.store output 0 (map increment_byte contents),
            ))
  run-increments_all memory gauges counters input_fd output_fd q q' stages output ts s serves
        calm_reads calm_writes small admitted some_size made depth one ran stuck =
      let (result, stages', output', serial) =
        serial_loop-Ends fs c times preads pwrites input contents serves some_size small calm_reads
          calm_writes (length contents + 1) 0 0 0 stages output one (omega arith) (omega arith)
          (omega arith) in
      (
        result.blocks_written,
        stages',
        run-increments fs c times preads pwrites input contents serves some_size memory gauges
            counters input_fd output_fd (length contents + 1) q q' stages stages' output output'
            result ts s admitted made depth one serial ran stuck,
      )
