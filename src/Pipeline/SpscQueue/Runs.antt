-- ===== src/Pipeline/SpscQueue/Runs.antt =====
-- A queue from its construction on, under any sequence of calls of its two workers.
use io_uring_async_load_proc.Prelude.{
  ℕ, zero, suc, ◌+◌, ◌-◌, ◌%◌, ◌≤◌, ◌<◌, ◌≡◌, ◌≢◌, refl, ap, ap₂, subst, Option, none, some, List,
  [], ◌∷◌, ◌++◌, map, arith, length, replicate, length-replicate, get_or-replicate,
}
use io_uring_async_load_proc.Exception.{Exception, ok, throw}
use io_uring_async_load_proc.Metrics.Gauge.{Observed, Observed-reset, Gauge, value_max}
use io_uring_async_load_proc.Pipeline.Channel.{Channel, Status, abort}
use io_uring_async_load_proc.Pipeline.Channel.Fifo.{
  Call, pushes, pops, closes, fails, Reply, pushed, popped, quiet, sent, received, NotFailed,
  limit-run, run-balance,
}
use io_uring_async_load_proc.Pipeline.Channel.Fifo
use io_uring_async_load_proc.Pipeline.SpscQueue.{
  new_observed_queue, SpscQueue, State, new_queue, push, pop, close, fail, discard_queued_values,
}
use io_uring_async_load_proc.Pipeline.SpscQueue.Ring.{window}
use io_uring_async_load_proc.Pipeline.SpscQueue.View.{
  Represents, SameStatus, is_failed, is_opened, is_closed,
}
use io_uring_async_load_proc.Pipeline.SpscQueue.Refine.{push_refines, pop_refines, close_refines}

NotFailed-status :
    {s : State} {f : Option Exception} (st : Status)
    → SameStatus s f st
    → s ≢ State.failed
    → NotFailed st
NotFailed-status Status.opened same ne = tt
NotFailed-status Status.closed same ne = tt
NotFailed-status (Status.failed e) same ne = absurd (ne (is_failed e same).0)

module _ {ℓ} {A : Type ℓ} where
  window-replicate :
      (cap m n h : ℕ) → window {A = Option A} none cap (replicate m none) h n ≡ replicate n none
  window-replicate cap m zero h = refl
  window-replicate cap m (suc n) h =
      ap₂ ◌∷◌ (get_or-replicate m h none) (window-replicate cap m n ((h + 1) % cap))

  map-none : (xs : List (Option A)) → map {B = Option A} (λ _. none) xs ≡ replicate (length xs) none
  map-none [] = refl
  map-none (x ∷ xs) = ap (λ t. none ∷ t) (map-none xs)

  abbrev cleared : ℕ → State → Option Exception → Option Gauge → SpscQueue A
  cleared n s f g = record {
    slots = replicate n none;
    head = 0;
    tail = 0;
    size = 0;
    state = s;
    failure = f;
    depth_metric = g;
  }

  cleared-Represents :
      (n : ℕ) (s : State) (f : Option Exception) (g : Option Gauge) (st : Status)
      → 0 < n
      → n ≤ value_max
      → SameStatus s f st
      → Observed g 0 n
      → Represents (cleared n s f g) (record { items = []; status = st; limit = n })
  cleared-Represents n s f g st pos small same o =
      let len = length-replicate {A = Option A} n none in
      record {
        capacity_pos = rw len pos;
        capacity_small = rw len small;
        head_in = rw len pos;
        size_in = omega arith;
        tail_at = rw len (omega arith);
        occupied = refl;
        vacant = rw len (window-replicate n n (n - 0) 0);
        same_size = refl;
        same_limit = len;
        same_status = same;
        observed = rw len o;
      }

  -- A queue that the constructor accepts is empty and open.
  pub new_queue-Represents :
      (capacity : ℕ) {q : SpscQueue A}
      → capacity ≤ value_max
      → new_queue capacity ≡ ok q
      → Represents q (record { items = []; status = Status.opened; limit = capacity })
  unfolding new_queue
  new_queue-Represents zero {q} small e = cc
  new_queue-Represents (suc n) {q} small e =
      let same : cleared (suc n) State.opened none none ≡ q = ground arith in
      subst (λ q. Represents q (record { items = []; status = Status.opened; limit = suc n })) same
        (cleared-Represents (suc n) State.opened none none Status.opened (omega arith) small
          (SameStatus.opened refl) tt)

  -- The same with a fresh depth gauge.
  pub new_observed_queue-Represents :
      (capacity : ℕ) (depth : Gauge) {q : SpscQueue A}
      → capacity ≤ value_max
      → new_observed_queue capacity depth ≡ ok q
      → Represents q (record { items = []; status = Status.opened; limit = capacity })
  unfolding new_observed_queue new_queue
  new_observed_queue-Represents zero depth {q} small e = absurd (ground arith)
  new_observed_queue-Represents (suc n) depth {q} small e =
      let fresh : (depth.current ≡ 0) × (depth.high_watermark ≡ 0) = ground arith in
      let same : cleared (suc n) State.opened none (some depth) ≡ q = ground arith in
      subst (λ q. Represents q (record { items = []; status = Status.opened; limit = suc n })) same
        (cleared-Represents (suc n) State.opened none (some depth) Status.opened (omega arith) small
          (SameStatus.opened refl) (ground arith))

  fail-live :
      (q : SpscQueue A) (e : Exception)
      → q.state ≢ State.failed
      → fail q (some e)
        ≡ ok (discard_queued_values (record q { state = State.failed; failure = some e }))
  unfolding fail
  fail-live q e ne = ground arith

  fail-again : (q : SpscQueue A) (e : Exception) → q.state ≡ State.failed → fail q (some e) ≡ ok q
  unfolding fail
  fail-again q e h = ground arith

  discard-Represents :
      {q : SpscQueue A} {c : Channel A} (e : Exception)
      → Represents q c
      → Represents
          (discard_queued_values (record q { state = State.failed; failure = some e }))
          (record { items = []; status = Status.failed e; limit = c.limit })
  unfolding discard_queued_values
  discard-Represents {q} {c} e r =
      rw (map-none q.slots, ← r.same_limit)
        (cleared-Represents (length q.slots) State.failed (some e) _ (Status.failed e)
          r.capacity_pos r.capacity_small (SameStatus.failed e refl refl)
          (Observed-reset q.depth_metric q.size (length q.slots) r.observed))

  -- `fail` with an exception discards what is queued; the first exception stays.
  fail_status :
      {q : SpscQueue A} (items : List A) (limit : ℕ) (s : Status) (e : Exception)
      → Represents q (record { items = items; status = s; limit = limit })
      → (q' : SpscQueue A) × (fail q (some e) ≡ ok q')
        × Represents q' (abort (record { items = items; status = s; limit = limit }) e)
  unfolding abort
  fail_status {q} items limit Status.opened e r =
      (_, fail-live q e (λ h. cc (is_opened r.same_status)), discard-Represents e r)
  fail_status {q} items limit Status.closed e r =
      (_, fail-live q e (λ h. cc (is_closed r.same_status)), discard-Represents e r)
  fail_status {q} items limit (Status.failed d) e r =
      (q, fail-again q e (is_failed d r.same_status).0, r)

  -- A call of a worker. The exception handed to `fail` is never null.
  unfoldable pub step : SpscQueue A → Call A → Reply A × SpscQueue A
  step q (pushes v) = let (o, q') = push q v in (pushed v o, q')
  step q pops = let (o, q') = pop q in (popped o, q')
  step q closes = (quiet, close q)
  step q (fails e) = (quiet, elim (fail q (some e)) [ ok q' ↦ q' | throw _ ↦ q ])

  unfoldable pub run : SpscQueue A → List (Call A) → List (Reply A) × SpscQueue A
  run q [] = ([], q)
  run q (call ∷ calls) =
      let (reply, q') = step q call in let (replies, q'') = run q' calls in (reply ∷ replies, q'')

  pub step_refines :
      (call : Call A) {q : SpscQueue A} {c : Channel A}
      → Represents q c
      → ((step q call).0 ≡ (Fifo.step c call).0) × Represents (step q call).1 (Fifo.step c call).1
  unfolding step Fifo.step
  step_refines (pushes v) r = let (e, r') = push_refines v r in (ap (pushed v) e, r')
  step_refines pops r = let (e, r') = pop_refines r in (ap popped e, r')
  step_refines closes r = (refl, close_refines r)
  step_refines (fails e) {q} {c} r =
      let (q', h, r') = fail_status c.items c.limit c.status e r in (refl, rw (h, step) r')

  -- No sequence of calls tells a queue from the channel that it represents.
  pub run_refines :
      (calls : List (Call A)) {q : SpscQueue A} {c : Channel A}
      → Represents q c
      → ((run q calls).0 ≡ (Fifo.run c calls).0) × Represents (run q calls).1 (Fifo.run c calls).1
  unfolding run Fifo.run
  run_refines [] r = (refl, r)
  run_refines (call ∷ calls) r =
      let (e, r') = step_refines call r in
      let (es, r'') = run_refines calls r' in (ap₂ ◌∷◌ e es, r'')

  -- Take a queue that the constructor accepts for a capacity below 2 ^ 63, and make any calls on it.
  -- If no failure was reported, the values that `push` put in are, in order, those that `pop` gave
  -- out followed by those still queued, of which there are as many as the size says and no more
  -- than the capacity.
  pub run-fifo :
      (capacity : ℕ) (calls : List (Call A)) {q : SpscQueue A}
      → capacity ≤ value_max
      → new_queue capacity ≡ ok q
      → (run q calls).1.state ≢ State.failed
      → (queued : List A) × (sent (run q calls).0 ≡ received (run q calls).0 ++ queued)
        × ((run q calls).1.size ≡ length queued)
        × (length queued ≤ capacity)
  run-fifo capacity calls {q} small e alive =
      let c : Channel A = record { items = []; status = Status.opened; limit = capacity } in
      let (same, r) = run_refines calls {q = q} {c = c} (new_queue-Represents capacity small e) in
      let (_, balance) =
        run-balance calls c (NotFailed-status (Fifo.run c calls).1.status r.same_status alive) in
      (
        (Fifo.run c calls).1.items,
        rw same balance,
        r.same_size,
        omega (arith, r.same_size, r.size_in, r.same_limit, limit-run calls c),
      )
