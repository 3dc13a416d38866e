-- ===== src/Pipeline/Executor/Workers/Completion.antt =====
-- Every run of src/pipeline/pipeline_executor.cpp can be completed.
use io_uring_async_load_proc.Prelude.{
  ℕ, zero, suc, ◌+◌, ◌*◌, ◌<◌, ◌≡◌, inl, inr, Option, none, some, List, [], ◌∷◌, ◌++◌, length,
  arith, Option-cases, length-append, append-nil, append_assoc, ap, ◌∙◌, sym, ◌⊎◌,
}
use io_uring_async_load_proc.Config.{PipelineConfig}
use io_uring_async_load_proc.Pipeline.SpscQueue.{SpscQueue}
use io_uring_async_load_proc.Pipeline.Executor.Workers.State.{
  Item, Environment, Thread, reader_thread, processor_thread, writer_thread, RunCounters,
}
use io_uring_async_load_proc.Pipeline.Executor.Workers.Loops.{step, run_workers, start_workers}
use io_uring_async_load_proc.Pipeline.Executor.Workers.Queues.{spsc_calls, join_workers}
use io_uring_async_load_proc.Pipeline.Executor.Workers.Same.{QueueRun}
use io_uring_async_load_proc.Pipeline.Executor.Workers.Measure.{EndsAt}
use io_uring_async_load_proc.Pipeline.Executor.Workers.Termination.{
  Started, run_workers-bounded, stuck-Joined,
}
use io_uring_async_load_proc.Pipeline.Executor.Workers.Waits.{Responds}
use io_uring_async_load_proc.Pipeline.Executor.{finish_run}

module _ (c : PipelineConfig) (e : Environment) where
  run_workers-append :
      (ts us : List Thread) (s s' : QueueRun c e)
      → run_workers spsc_calls c e ts s ≡ some s'
      → run_workers spsc_calls c e (ts ++ us) s ≡ run_workers spsc_calls c e us s'
  unfolding run_workers
  run_workers-append [] us s s' h =
      let same : s ≡ s' = cc in ap (run_workers spsc_calls c e us) same
  run_workers-append (t ∷ ts) us s s' h = elim (Option-cases (step spsc_calls c e t s)) [
    | inl stuck ↦ absurd (ground arith)
    | inr (s₁, stepped) ↦
        let again : run_workers spsc_calls c e (ts ++ us) s₁ ≡ run_workers spsc_calls c e us s' =
          run_workers-append ts us s₁ s' (ground arith) in
        ground arith
  ]

  run_workers_one :
      (t : Thread) (s s' : QueueRun c e)
      → step spsc_calls c e t s ≡ some s'
      → run_workers spsc_calls c e (t ∷ []) s ≡ some s'
  unfolding run_workers
  run_workers_one t s s' h = ground arith

  -- A thread that can take a step, or none can.
  next_thread :
      (s : QueueRun c e)
      → ((t : Thread) × (s' : QueueRun c e) × (step spsc_calls c e t s ≡ some s'))
        ⊎ ((t : Thread) → step spsc_calls c e t s ≡ none)
  next_thread s = elim (Option-cases (step spsc_calls c e reader_thread s)) [
    | inr (s', h) ↦ inl (reader_thread, s', h)
    | inl h ↦ elim (Option-cases (step spsc_calls c e processor_thread s)) [
      | inr (s', h') ↦ inl (processor_thread, s', h')
      | inl h' ↦ elim (Option-cases (step spsc_calls c e writer_thread s)) [
        | inr (s', h'') ↦ inl (writer_thread, s', h'')
        | inl h'' ↦ inr (λ t. elim t as (λ t'. step spsc_calls c e t' s ≡ none) [
          | reader_thread ↦ h
          | processor_thread ↦ h'
          | writer_thread ↦ h''
        ])
      ]
    ]
  ]

  module _ (q q' : SpscQueue Item) (stages : e.Stages) (output : e.File)
      (counters : Option RunCounters) (started : Started c q q') where
    abbrev begin : QueueRun c e
    begin = start_workers spsc_calls c e q q' stages output counters

    abbrev Completes : List Thread → Type 0
    Completes ts =
        (us : List Thread) × (s' : QueueRun c e) × (run_workers spsc_calls c e (ts ++ us) begin
          ≡ some s')
        × ((t : Thread) → step spsc_calls c e t s' ≡ none)

    completes :
        (fuel size : ℕ) (ts : List Thread) (s : QueueRun c e)
        → EndsAt e size
        → run_workers spsc_calls c e ts begin ≡ some s
        → 10 * size + 21 < length ts + fuel
        → Completes ts
    completes zero size ts s ends h enough =
        let few = run_workers-bounded c e q q' stages output counters started size ts s ends h in
        absurd (omega arith)
    completes (suc fuel) size ts s ends h enough = elim (next_thread s) [
      | inr stuck ↦ ([], s, ap (λ l. run_workers spsc_calls c e l begin) (append-nil ts) ∙ h, stuck)
      | inl (t, s₁, stepped) ↦
          let goes = run_workers-append ts (t ∷ []) begin s h ∙ run_workers_one t s s₁ stepped in
          let longer = length-append ts (t ∷ []) in
          let (us, s', ran, stuck) =
            completes fuel size (ts ++ (t ∷ [])) s₁ ends goes (omega arith) in
          (
            t ∷ us,
            s',
            ap (λ l. run_workers spsc_calls c e l begin) (sym (append_assoc ts (t ∷ []) us)) ∙ ran,
            stuck,
          )
    ]

    -- Three threads are started on fresh queues with at least one buffer.
    -- If the reads and writes of the operating system return, whether well or with an error, and no
    -- read gives bytes from behind the end of an input of `size` bytes, then the three threads,
    -- wherever a run has come to, can go on to a state in which all are over: `run` joins them
    -- and returns the result, or throws the first failure if there was one. Every buffer is
    -- then back in the pool, and both queues are empty.
    pub run_workers_complete :
        (size : ℕ) (ts : List Thread) (s : QueueRun c e)
        → Responds e
        → EndsAt e size
        → run_workers spsc_calls c e ts (start_workers spsc_calls c e q q' stages output counters)
          ≡ some s
        → (us : List Thread) × (s' : QueueRun c e) × (run_workers spsc_calls c e
              (ts ++ us)
              (start_workers spsc_calls c e q q' stages output counters)
            ≡ some s')
          × (join_workers s' ≡ some (finish_run s'.first_failure s'.result))
          × (s'.available ≡ c.max_inflight_buffers)
          × (s'.read_to_process.size ≡ 0)
          × (s'.process_to_write.size ≡ 0)
    run_workers_complete size ts s responds ends h =
        let (us, s', ran, stuck) = completes (10 * size + 22) size ts s ends h (omega arith) in
        let joined =
          stuck-Joined c e q q' stages output counters started (ts ++ us) s' responds ran stuck in
        (us, s', ran, joined.0, joined.1, joined.2, joined.3)
