-- ===== src/Benchmark/Serial/Equivalence.antt =====
-- The pipeline of src/pipeline/pipeline_executor.cpp writes what the serial loop of
-- src/benchmark/end_to_end_baseline.cpp writes.
use io_uring_async_load_proc.Prelude.{
  ℕ, ◌≤◌, ◌<◌, ◌≡◌, sym, ◌∙◌, true, false, Option, none, some, List, arith,
}
use io_uring_async_load_proc.Exception.{ok}
use io_uring_async_load_proc.Config.{PipelineConfig}
use io_uring_async_load_proc.Pipeline.Executor.{finish_run, admit}
use io_uring_async_load_proc.Pipeline.SpscQueue.{SpscQueue}
use io_uring_async_load_proc.Pipeline.Executor.Workers.State.{
  Item, Environment, Thread, RunCounters,
}
use io_uring_async_load_proc.Pipeline.Executor.Workers.Loops.{step, run_workers, start_workers}
use io_uring_async_load_proc.Pipeline.Executor.Workers.Queues.{spsc_calls, join_workers}
use io_uring_async_load_proc.Pipeline.Executor.Workers.Same.{QueueRun, with_queues}
use io_uring_async_load_proc.Pipeline.Executor.Workers.Waits.{Responds}
use io_uring_async_load_proc.Benchmark.Serial.Whole.{serial_loop-IsWhole}
use io_uring_async_load_proc.Benchmark.Serial.Points.{point}
use io_uring_async_load_proc.Benchmark.Serial.{SerialPipelineResult, serial_loop}
use io_uring_async_load_proc.Benchmark.Serial.InStep.{FitsBuffer, SomeStep}
use io_uring_async_load_proc.Benchmark.Serial.Keep.{run_workers-Step, over-written}
use io_uring_async_load_proc.Pipeline.Executor.Workers.Termination.{
  Started, channel_start, channel_start-IsSound, reached, stuck-over, stuck-Joined,
}
use io_uring_async_load_proc.Metrics.Gauge.{value_max}
use io_uring_async_load_proc.Buffer.Aligned.{Allocation}
use io_uring_async_load_proc.Pipeline.Executor.Run.{
  RunGauges, make_queues, run, run_with, ending, make_queues-Started,
}

module _ (c : PipelineConfig) (e : Environment) (stages : e.Stages) (output : e.File)
    (q q' : SpscQueue Item) (counters : Option RunCounters) where
  start-Step :
      (n : ℕ) (started : Started c q q')
      → SomeStep c e stages output n (channel_start c e q q' stages output counters started)
  unfolding start_workers point
  start-Step n started = (0, 0, 0, 0, 0, ground arith)

  -- If the serial loop ends well, then the three threads, started on the same input, output and
  -- stages with fresh queues and at least one buffer, do as it does, in whatever order they take
  -- their steps: when no thread can take a step any more, `run` returns the same numbers of blocks
  -- and bytes, the output file is the same, and so are the stages. The calls of the operating system
  -- must return, and a read must not give more bytes than fit into a buffer.
  pub run_workers-serial :
      (fuel : ℕ) (result : SerialPipelineResult) (stages' : e.Stages) (output' : e.File)
      (ts : List Thread) (s : QueueRun c e)
      → Started c q q'
      → Responds e
      → FitsBuffer c e
      → serial_loop e fuel 0 stages output (record { blocks_written = 0; bytes_written = 0 }) 0
        ≡ some (ok result, stages', output')
      → run_workers spsc_calls c e ts (start_workers spsc_calls c e q q' stages output counters)
        ≡ some s
      → ((t : Thread) → step spsc_calls c e t s ≡ none)
      → (join_workers s
          ≡ some (
              ok (record {
                blocks_written = result.blocks_written;
                bytes_written = result.bytes_written;
              })))
        × (s.output ≡ output')
        × (s.stages ≡ stages')
  unfolding finish_run point
  run_workers-serial fuel result stages' output' ts s started responds fits serial ran stuck =
      let whole = serial_loop-IsWhole e stages output result stages' output' fuel 0 serial in
      let good = λ (i : ℕ) (below : i < whole.blocks). whole.good i (omega arith) below in
      let n = whole.blocks in
      let (k, k', r, r', over_channels) =
        reached c e q q' stages output counters started ts s ran in
      let at =
        run_workers-Step c e stages output n good whole.at_end fits ts _ _
          (channel_start-IsSound c e q q' stages output counters started) (start-Step n started)
          over_channels in
      let over = stuck-over c e q q' stages output counters started ts s responds ran stuck in
      let (written, left, summed, fine) =
        over-written c e stages output n good whole.at_end fits (with_queues c e s k k') at over in
      let joined = stuck-Joined c e q q' stages output counters started ts s responds ran stuck in
      (
        ground (arith, joined.0, whole.same_result),
        written ∙ sym whole.same_output,
        left ∙ sym whole.same_stages,
      )

  module _ (memory : ℕ → Allocation) (gauges : RunGauges) (input_fd output_fd : Option ℕ)
      (stage_count : ℕ) where
    -- If the serial loop ends well, then `PipelineExecutor::run`, on the same input, output and
    -- stages, does as it does, in whatever order its three threads take their steps, with metrics or
    -- without: when no thread can take a step any more, it returns the same numbers of blocks and
    -- bytes, the output file is the same, and so are the stages. The run must be admitted, its pool
    -- and its queues must be made with a depth below 2 ^ 63, the calls of the operating system must
    -- return, and a read must not give more bytes than fit into a buffer.
    pub run-serial :
        (fuel : ℕ) (result : SerialPipelineResult) (stages' : e.Stages) (output' : e.File)
        (ts : List Thread) (s : QueueRun c e)
        → admit input_fd output_fd stage_count false ≡ ok true
        → make_queues memory c gauges ≡ ok (q, q')
        → c.queue_depth ≤ value_max
        → Responds e
        → FitsBuffer c e
        → serial_loop e fuel 0 stages output (record { blocks_written = 0; bytes_written = 0 }) 0
          ≡ some (ok result, stages', output')
        → run_workers spsc_calls c e ts (start_workers spsc_calls c e q q' stages output counters)
          ≡ some s
        → ((t : Thread) → step spsc_calls c e t s ≡ none)
        → run c e memory gauges counters ts input_fd output_fd stage_count false stages output
          ≡ some (
            ok (record {
              blocks_written = result.blocks_written;
              bytes_written = result.bytes_written;
            }),
            stages',
            output',
          )
    unfolding run run_with ending
    run-serial fuel result stages' output' ts s admitted made small responds fits serial ran stuck =
        let started = make_queues-Started memory c gauges q q' small made in
        let (joined, written, left) =
          run_workers-serial fuel result stages' output' ts s started responds fits serial ran
            stuck in
        ground arith
