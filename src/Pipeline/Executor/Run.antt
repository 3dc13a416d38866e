-- ===== src/Pipeline/Executor/Run.antt =====
-- `PipelineExecutor::run` of src/pipeline/pipeline_executor.cpp, whose threads take their steps in a
-- given order. Each of the pool and the queues reports to a gauge if the executor has metrics.
use io_uring_async_load_proc.Prelude.{
  ℕ, ◌≤◌, ◌<◌, ◌≡◌, subst, Bool, Option, none, some, List, [], arith,
}
use io_uring_async_load_proc.Exception.{Result, ok, throw, ◌>>=◌, >>=-eq-ok}
use io_uring_async_load_proc.Config.{PipelineConfig, validate}
use io_uring_async_load_proc.Pipeline.Output.{PipelineRunResult}
use io_uring_async_load_proc.Pipeline.Executor.{admit}
use io_uring_async_load_proc.Pipeline.SpscQueue.{SpscQueue, new_queue, new_observed_queue}
use io_uring_async_load_proc.Pipeline.Channel.{Status}
use io_uring_async_load_proc.Pipeline.Executor.Workers.State.{
  Item, Environment, Thread, RunCounters, System,
}
use io_uring_async_load_proc.Pipeline.Executor.Workers.Loops.{run_workers, start_workers}
use io_uring_async_load_proc.Pipeline.Executor.Workers.Queues.{spsc_calls, join_workers}
use io_uring_async_load_proc.Metrics.Gauge.{Gauge, value_max}
use io_uring_async_load_proc.Buffer.Aligned.{Allocation}
use io_uring_async_load_proc.Buffer.Pool.{AlignedBufferPool, new_pool, new_observed_pool}
use io_uring_async_load_proc.Pipeline.SpscQueue.Runs.{
  new_observed_queue-Represents, new_queue-Represents,
}
use io_uring_async_load_proc.Pipeline.Executor.Workers.Termination.{Started, new_channel}
use io_uring_async_load_proc.Pipeline.SpscQueue.View.{Represents}

module _ {A : Type 0} where
  unfoldable pub make_queue : ℕ → Option Gauge → Result (SpscQueue A)
  make_queue queue_depth none = new_queue queue_depth
  make_queue queue_depth (some depth) = new_observed_queue queue_depth depth

-- What a run starts with: the pool, and the two queues.
unfoldable pub make_pool :
    (ℕ → Allocation) → PipelineConfig → Option Gauge → Result AlignedBufferPool
make_pool memory c none = new_pool memory c
make_pool memory c (some inflight) = new_observed_pool memory c inflight

pub record RunGauges : Type 0 where
  pub inflight_buffers : Option Gauge
  pub read_process_queue_depth : Option Gauge
  pub process_write_queue_depth : Option Gauge

unfoldable pub make_queues :
    (ℕ → Allocation) → PipelineConfig → RunGauges → Result (SpscQueue Item × SpscQueue Item)
unfolding make_pool make_queue
make_queues memory c gauges = do
  pool ← make_pool memory c gauges.inflight_buffers
  read_to_process ← make_queue c.queue_depth gauges.read_process_queue_depth
  process_to_write ← make_queue c.queue_depth gauges.process_write_queue_depth
  ok (read_to_process, process_to_write)

module _ (c : PipelineConfig) (e : Environment) where
  abbrev pub Ending : Type 0
  Ending = Option (Result PipelineRunResult × e.Stages × e.File)

  unfoldable pub ending : Option (System (SpscQueue Item) e.Stages e.File) → Ending
  unfolding join_workers
  ending none = none
  ending (some s) = elim (join_workers s) [
    | none ↦ none
    | some result ↦ some (result, s.stages, s.output)
  ]

  unfoldable pub run_with :
      List Thread
      → Option RunCounters
      → e.Stages
      → e.File
      → Result (SpscQueue Item × SpscQueue Item)
      → Ending
  unfolding ending run_workers start_workers
  run_with ts counters stages output (throw x) = some (throw x, stages, output)
  run_with ts counters stages output (ok (q, q')) =
      ending
        (run_workers spsc_calls c e ts (start_workers spsc_calls c e q q' stages output counters))

  -- A negative descriptor is `none`. `stage_count` is that of the stages.
  unfoldable pub run :
      (ℕ → Allocation)
      → RunGauges
      → Option RunCounters
      → List Thread
      → Option ℕ
      → Option ℕ
      → ℕ
      → Bool
      → e.Stages
      → e.File
      → Ending
  unfolding run_with make_queues admit
  run memory gauges counters ts input_fd output_fd stage_count started stages output =
      elim (admit input_fd output_fd stage_count started) [
        | throw x ↦ some (throw x, stages, output)
        | ok _ ↦ run_with ts counters stages output (make_queues memory c gauges)
      ]

make_queue-Represents :
    (capacity : ℕ) (depth : Option Gauge) (q : SpscQueue Item)
    → capacity ≤ value_max
    → make_queue capacity depth ≡ ok q
    → Represents q (record { items = []; status = Status.opened; limit = capacity })
unfolding make_queue
make_queue-Represents capacity none q small h = new_queue-Represents capacity small h
make_queue-Represents capacity (some depth) q small h =
    new_observed_queue-Represents capacity depth small h

new_pool-validates :
    (memory : ℕ → Allocation) (c : PipelineConfig) (p : AlignedBufferPool)
    → new_pool memory c ≡ ok p
    → validate c ≡ ok tt
unfolding new_pool
new_pool-validates memory c p h = (>>=-eq-ok (validate c) _ h).1

make_pool-validates :
    (memory : ℕ → Allocation) (c : PipelineConfig) (gauge : Option Gauge) (p : AlignedBufferPool)
    → make_pool memory c gauge ≡ ok p
    → validate c ≡ ok tt
unfolding make_pool new_observed_pool
make_pool-validates memory c none p h = new_pool-validates memory c p h
make_pool-validates memory c (some g) p h =
    let (p', made, _) = >>=-eq-ok (new_pool memory c) _ h in new_pool-validates memory c p' made

validate-some :
    (c : PipelineConfig) → validate c ≡ ok tt → (0 < c.max_inflight_buffers) × (0 < c.queue_depth)
unfolding validate
validate-some c h = ground arith

-- Queues that could be made are fresh, and there is a buffer.
pub make_queues-Started :
    (memory : ℕ → Allocation) (c : PipelineConfig) (gauges : RunGauges) (q q' : SpscQueue Item)
    → c.queue_depth ≤ value_max
    → make_queues memory c gauges ≡ ok (q, q')
    → Started c q q'
unfolding make_queues
make_queues-Started memory c gauges q q' small h =
    let (pool, made, h₁) = >>=-eq-ok (make_pool memory c gauges.inflight_buffers) _ h in
    let (q₁, made₁, h₂) =
      >>=-eq-ok (make_queue c.queue_depth gauges.read_process_queue_depth) _ h₁ in
    let (q₂, made₂, h₃) =
      >>=-eq-ok (make_queue c.queue_depth gauges.process_write_queue_depth) _ h₂ in
    let first : q₁ ≡ q = cc in
    let second : q₂ ≡ q' = cc in
    let (buffers, depth) =
      validate-some c (make_pool-validates memory c gauges.inflight_buffers pool made) in
    record {
      some_buffers = buffers;
      some_depth = depth;
      read_queue =
          subst (λ t. Represents t (new_channel c)) first
            (make_queue-Represents c.queue_depth gauges.read_process_queue_depth q₁ small made₁);
      write_queue =
          subst (λ t. Represents t (new_channel c)) second
            (make_queue-Represents c.queue_depth gauges.process_write_queue_depth q₂ small made₂);
    }
