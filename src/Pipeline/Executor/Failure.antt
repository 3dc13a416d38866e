-- ===== src/Pipeline/Executor/Failure.antt =====
-- The first failure of a run of src/pipeline/pipeline_executor.cpp wins.
use io_uring_async_load_proc.Prelude.{◌≡◌, ◌≢◌, refl, sym, subst, none, some, List, [], ◌∷◌, arith}
use io_uring_async_load_proc.Exception.{Exception, throw, throws}
use io_uring_async_load_proc.Pipeline.SpscQueue
use io_uring_async_load_proc.Pipeline.SpscQueue.{SpscQueue, State, push, pop, discard_queued_values}
use io_uring_async_load_proc.Pipeline.Executor.{Shared, fail_queue, fail_all, finish_run}

module _ {ℓ} {A : Type ℓ} where
  abbrev pub fail_each : Shared A → List Exception → Shared A
  fail_each s [] = s
  fail_each s (e ∷ es) = fail_each (fail_all s e) es

  -- A queue that failed with an exception.
  abbrev pub FailedWith : SpscQueue A → Exception → Type 0
  FailedWith q e = (q.state ≡ State.failed) × (q.failure ≡ some e)

  fail_queue-FailedWith :
      (q : SpscQueue A) (e : Exception) → q.state ≢ State.failed → FailedWith (fail_queue q e) e
  unfolding fail_queue SpscQueue.fail discard_queued_values
  fail_queue-FailedWith q e alive = of_state q.state refl alive
    where
      of_state : (s : State) → q.state ≡ s → q.state ≢ State.failed → FailedWith (fail_queue q e) e
      of_state State.opened h a = (ground arith, ground arith)
      of_state State.closed h a = (ground arith, ground arith)
      of_state State.failed h a = absurd (a h)

  fail_queue_again :
      (q : SpscQueue A) (d e : Exception) → FailedWith q d → FailedWith (fail_queue q e) d
  unfolding fail_queue SpscQueue.fail
  fail_queue_again q d e f = (ground arith, ground arith)

  Failed-fail_each :
      (s : Shared A) (first : Exception) (es : List Exception)
      → s.first_failure ≡ some first
      → FailedWith s.read_to_process first
      → FailedWith s.process_to_write first
      → let s' = fail_each s es in
        (s'.first_failure ≡ some first)
        × FailedWith s'.read_to_process first
        × FailedWith s'.process_to_write first
  unfolding fail_all
  Failed-fail_each s first [] f r p = (f, r, p)
  Failed-fail_each s first (e ∷ es) f r p =
      Failed-fail_each (fail_all s e) first es (ground arith)
        (fail_queue_again s.read_to_process first _ r)
        (fail_queue_again s.process_to_write first _ p)

  rethrows :
      (q : SpscQueue A) (e : Exception) (v : A)
      → FailedWith q e
      → (push q v ≡ (throws e, q)) × (pop q ≡ (throws e, q))
  unfolding push pop
  rethrows q e v f = (ground arith, ground arith)

  -- However many workers fail, and in whatever order: a run whose queues had not failed is
  -- rethrown with the first exception that was reported, and from then on every `push` and `pop` on
  -- either queue throws that exception, so that no worker waits there.
  pub fail_each-first :
      (s : Shared A) (first : Exception) (es : List Exception) (v : A) {R : Type 0} (result : R)
      → s.first_failure ≡ none
      → s.read_to_process.state ≢ State.failed
      → s.process_to_write.state ≢ State.failed
      → let s' = fail_each s (first ∷ es) in
        (finish_run s'.first_failure result ≡ throw first)
        × (push s'.read_to_process v ≡ (throws first, s'.read_to_process))
        × (pop s'.read_to_process ≡ (throws first, s'.read_to_process))
        × (push s'.process_to_write v ≡ (throws first, s'.process_to_write))
        × (pop s'.process_to_write ≡ (throws first, s'.process_to_write))
  unfolding fail_all finish_run
  fail_each-first s first es v result none_yet read write =
      let s₁ = fail_all s first in
      let start : s₁ ≡ record {
        first_failure = some first;
        read_to_process = fail_queue s.read_to_process first;
        process_to_write = fail_queue s.process_to_write first;
      } =
        ground arith in
      let (f, r, p) =
        Failed-fail_each s₁ first es (ground arith)
          (subst (λ t. FailedWith t.read_to_process first) (sym start)
            (fail_queue-FailedWith s.read_to_process first read))
          (subst (λ t. FailedWith t.process_to_write first) (sym start)
            (fail_queue-FailedWith s.process_to_write first write)) in
      let ended = fail_each s₁ es in
      let reads = rethrows ended.read_to_process first v r in
      let writes = rethrows ended.process_to_write first v p in
      (ground (arith, f), reads.0, reads.1, writes.0, writes.1)
