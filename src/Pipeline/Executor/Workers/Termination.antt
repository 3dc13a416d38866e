-- ===== src/Pipeline/Executor/Workers/Termination.antt =====
-- Every run of src/pipeline/pipeline_executor.cpp whose threads were started comes to an end.
use io_uring_async_load_proc.Prelude.{
  ℕ, ◌+◌, ◌*◌, ◌≤◌, ◌<◌, ◌≡◌, refl, subst, inl, inr, true, ◌&&◌, Option, none, some, List, [], ◌∷◌,
  length, arith, Option-cases,
}
use io_uring_async_load_proc.Config.{PipelineConfig}
use io_uring_async_load_proc.Pipeline.Executor.{finish_run}
use io_uring_async_load_proc.Pipeline.SpscQueue.{SpscQueue}
use io_uring_async_load_proc.Pipeline.Channel.{Channel, Status}
use io_uring_async_load_proc.Pipeline.Executor.Workers.State.{
  Item, Environment, Thread, RunCounters,
}
use io_uring_async_load_proc.Pipeline.Executor.Workers.Loops.{step, run_workers, start_workers}
use io_uring_async_load_proc.Pipeline.Executor.Workers.Queues.{
  channel_calls, spsc_calls, join_workers, is_over,
}
use io_uring_async_load_proc.Pipeline.Executor.Workers.Moves.{ChannelRun}
use io_uring_async_load_proc.Pipeline.Executor.Workers.Steps.{step-Moves}
use io_uring_async_load_proc.Pipeline.Executor.Workers.Invariant.{IsSound, Moves-IsSound}
use io_uring_async_load_proc.Pipeline.Executor.Workers.Refine.{
  SameStep, waits, steps, step-Same, run_workers-Same,
}
use io_uring_async_load_proc.Pipeline.Executor.Workers.Same.{QueueRun, with_queues}
use io_uring_async_load_proc.Pipeline.Executor.Workers.Measure.{
  EndsAt, steps_left, run_workers-steps_left,
}
use io_uring_async_load_proc.Pipeline.Executor.Workers.Progress.{Stuck-over}
use io_uring_async_load_proc.Pipeline.Executor.Workers.Waits.{Responds}
use io_uring_async_load_proc.Pipeline.SpscQueue.View.{Represents}

abbrev pub new_channel : PipelineConfig → Channel Item
new_channel c = record { items = []; status = Status.opened; limit = c.queue_depth }

-- The queues as the constructor makes them, with a depth gauge or without.
pub record Started (c : PipelineConfig) (q q' : SpscQueue Item) : Type 0 where
  pub some_buffers : 0 < c.max_inflight_buffers
  pub some_depth : 0 < c.queue_depth
  pub read_queue : Represents q (new_channel c)
  pub write_queue : Represents q' (new_channel c)

module _ (c : PipelineConfig) (e : Environment) where
  start-IsSound :
      (q q' : Channel Item) (stages : e.Stages) (output : e.File) (counters : Option RunCounters)
      → q ≡ new_channel c
      → q' ≡ new_channel c
      → IsSound c e (start_workers channel_calls c e q q' stages output counters)
  unfolding start_workers
  start-IsSound q q' stages output counters p p' = ground arith

  pub run_workers-IsSound :
      (ts : List Thread) (s s' : ChannelRun c e)
      → IsSound c e s
      → run_workers channel_calls c e ts s ≡ some s'
      → IsSound c e s'
  unfolding run_workers
  run_workers-IsSound [] s s' v h = let same : s ≡ s' = cc in subst (IsSound c e) same v
  run_workers-IsSound (t ∷ ts) s s' v h = elim (Option-cases (step channel_calls c e t s)) [
    | inl stuck ↦ absurd (ground arith)
    | inr (s₁, stepped) ↦
        run_workers-IsSound ts s₁ s' (Moves-IsSound c e (step-Moves c e s t s₁ stepped) v)
          (ground arith)
  ]

  module _ (q q' : SpscQueue Item) (stages : e.Stages) (output : e.File)
      (counters : Option RunCounters) (started : Started c q q') where
    abbrev pub channel_start : ChannelRun c e
    channel_start =
        with_queues c e (start_workers spsc_calls c e q q' stages output counters) (new_channel c)
          (new_channel c)

    run-Same :
        (ts : List Thread)
        → SameStep c e
            (run_workers spsc_calls c e ts
              (start_workers spsc_calls c e q q' stages output counters))
            (run_workers channel_calls c e ts channel_start)
    unfolding start_workers
    run-Same ts = run_workers-Same c e ts _ _ _ started.read_queue started.write_queue

    pub channel_start-IsSound : IsSound c e channel_start
    unfolding start_workers
    channel_start-IsSound = start-IsSound _ _ stages output counters refl refl

    -- The threads over the channels, in the place of those over the buffers.
    pub reached :
        (ts : List Thread) (s : QueueRun c e)
        → run_workers spsc_calls c e ts (start_workers spsc_calls c e q q' stages output counters)
          ≡ some s
        → (k k' : Channel Item) × Represents s.read_to_process k
          × Represents s.process_to_write k'
          × (run_workers channel_calls c e ts channel_start ≡ some (with_queues c e s k k'))
    reached ts s h = same _ _ (run-Same ts) h
      where
        same :
            (n : Option (QueueRun c e)) (m : Option (ChannelRun c e))
            → SameStep c e n m
            → n ≡ some s
            → (k k' : Channel Item) × Represents s.read_to_process k
              × Represents s.process_to_write k'
              × (m ≡ some (with_queues c e s k k'))
        same _ _ waits h = cc
        same _ _ (steps s₁ k k' r r') h =
            let eq : s₁ ≡ s = cc in
            subst
              (λ t.
                (l l' : Channel Item) × Represents t.read_to_process l
                × Represents t.process_to_write l'
                × (some (with_queues c e s₁ k k') ≡ some (with_queues c e t l l')))
              eq (k, k', r, r', refl)

    stuck-Same :
        (s : QueueRun c e) (k k' : Channel Item) (t : Thread)
        → Represents s.read_to_process k
        → Represents s.process_to_write k'
        → step spsc_calls c e t s ≡ none
        → step channel_calls c e t (with_queues c e s k k') ≡ none
    stuck-Same s k k' t r r' h = same _ _ (step-Same c e t s k k' r r') h
      where
        same :
            (n : Option (QueueRun c e)) (m : Option (ChannelRun c e))
            → SameStep c e n m
            → n ≡ none
            → m ≡ none
        same _ _ waits h = refl
        same _ _ (steps s₁ k k' r r') h = cc

    over-returned :
        (s : ChannelRun c e)
        → IsSound c e s
        → is_over s.reader && (is_over s.processor && is_over s.writer) ≡ true
        → (s.available ≡ c.max_inflight_buffers)
          × (length s.read_to_process.items ≡ 0)
          × (length s.process_to_write.items ≡ 0)
    over-returned s v over = ground arith

    -- When no thread can take a step, all are over.
    pub stuck-over :
        (ts : List Thread) (s : QueueRun c e)
        → Responds e
        → run_workers spsc_calls c e ts (start_workers spsc_calls c e q q' stages output counters)
          ≡ some s
        → ((t : Thread) → step spsc_calls c e t s ≡ none)
        → is_over s.reader && (is_over s.processor && is_over s.writer) ≡ true
    stuck-over ts s responds h stuck =
        let (k, k', r, r', ran) = reached ts s h in
        let v = run_workers-IsSound ts channel_start _ channel_start-IsSound ran in
        Stuck-over c e responds (with_queues c e s k k') v started.some_buffers started.some_depth
          (λ t. stuck-Same s k k' t r r' (stuck t))

    -- Start the three threads on fresh queues, with at least one buffer, and let them take steps in
    -- any order. If the reads and writes of the operating system return, whether well or with an
    -- error, then a state in which no thread can take a step is one in which all three are over, so
    -- that `run` joins them: it returns the result, or throws the first failure if there was one.
    -- Every buffer is then back in the pool, and both queues are empty.
    pub stuck-Joined :
        (ts : List Thread) (s : QueueRun c e)
        → Responds e
        → run_workers spsc_calls c e ts (start_workers spsc_calls c e q q' stages output counters)
          ≡ some s
        → ((t : Thread) → step spsc_calls c e t s ≡ none)
        → (join_workers s ≡ some (finish_run s.first_failure s.result))
          × (s.available ≡ c.max_inflight_buffers)
          × (s.read_to_process.size ≡ 0)
          × (s.process_to_write.size ≡ 0)
    unfolding join_workers
    stuck-Joined ts s responds h stuck =
        let (k, k', r, r', ran) = reached ts s h in
        let v = run_workers-IsSound ts channel_start _ channel_start-IsSound ran in
        let over = stuck-over ts s responds h stuck in
        let (free, no_reads, no_writes) = over-returned (with_queues c e s k k') v over in
        (
          ground arith,
          free,
          omega (arith, r.same_size, no_reads),
          omega (arith, r'.same_size, no_writes),
        )

    -- If no read gives bytes from behind the end of an input of `size` bytes, the three threads take
    -- at most ten steps for each byte of the input and 21 more, in whatever order and whatever fails.
    pub run_workers-bounded :
        (size : ℕ) (ts : List Thread) (s : QueueRun c e)
        → EndsAt e size
        → run_workers spsc_calls c e ts (start_workers spsc_calls c e q q' stages output counters)
          ≡ some s
        → length ts ≤ 10 * size + 21
    unfolding start_workers steps_left
    run_workers-bounded size ts s ends h =
        let (k, k', r, r', ran) = reached ts s h in
        omega (arith, run_workers-steps_left c e size ts channel_start _ ends ran)
