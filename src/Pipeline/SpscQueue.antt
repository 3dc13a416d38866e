-- ===== src/Pipeline/SpscQueue.antt =====
-- include/pipeline/spsc_queue.h: a circular buffer under a mutex. Each function is one critical
-- section; a wait whose predicate is false gives `blocks`, and a failed assertion gives `faults`.
-- The borrowed depth gauge must be dedicated to its queue, so it is part of the queue's state.
pub mod Ring
pub mod View
pub mod Refine
pub mod Runs
use io_uring_async_load_proc.Prelude.{
  ℕ, ◌+◌, ◌-◌, ◌%◌, ◌^◌, Bool, true, false, not, ◌&&◌, ◌||◌, Option, none, some, List, [], ◌∷◌, map,
  ltb, ◌==◌, if◌then◌else◌, length, get_elem?, set, replicate,
}
use io_uring_async_load_proc.Exception.{
  Exception, Result, ok, throw, throw_if, ◌>>=◌, ◌>>◌, invalid_argument,
}
use io_uring_async_load_proc.Metrics.Gauge
use io_uring_async_load_proc.Metrics.Gauge.{Gauge, on_metric}
use io_uring_async_load_proc.Exception.{Outcome, blocks, returns, throws, faults}
use mathlib.Core.Option

-- `enum class State`.
pub data State : Type 0 where
  opened closed failed : State

pub record SpscQueue {ℓ} (A : Type ℓ) : Type ℓ where
  pub slots : List (Option A)
  pub head : ℕ
  pub tail : ℕ
  pub size : ℕ
  pub state : State
  pub failure : Option Exception
  pub depth_metric : Option Gauge

abbrev is_open : State → Bool
is_open opened = true
is_open _ = false

-- `std::rethrow_exception` of a null pointer is undefined.
abbrev pub rethrow {ℓ} : {B : Type ℓ} → Option Exception → Outcome B
rethrow none = faults
rethrow (some e) = throws e

module _ {ℓ} {A : Type ℓ} where
  unfoldable pub new_queue : ℕ → Result (SpscQueue A)
  new_queue capacity = do
    throw_if (capacity == 0) invalid_argument
    ok (record {
      slots = replicate capacity none;
      head = 0;
      tail = 0;
      size = 0;
      state = opened;
      failure = none;
      depth_metric = none;
    })

  unfoldable pub new_observed_queue : ℕ → Gauge → Result (SpscQueue A)
  unfolding new_queue
  new_observed_queue capacity depth = do
    q ← new_queue capacity
    throw_if (not (depth.current == 0) || not (depth.high_watermark == 0)) invalid_argument
    ok (record q { depth_metric = some depth })

  unfoldable pub next_index : SpscQueue A → ℕ → ℕ
  next_index q index = ((index + 1) % 2 ^ 64) % length q.slots

  unfoldable pub discard_queued_values : SpscQueue A → SpscQueue A
  discard_queued_values q = record q {
    slots = map (λ _. none) q.slots;
    head = 0;
    tail = 0;
    size = 0;
    depth_metric = on_metric (λ g. Gauge.set_value g 0) q.depth_metric;
  }

  -- The part of `push` below the tests of the state.
  pub store : SpscQueue A → A → SpscQueue A
  unfolding next_index
  store q value = record q {
    slots = set q.slots q.tail (some value);
    tail = next_index q q.tail;
    size = (q.size + 1) % 2 ^ 64;
    depth_metric = on_metric Gauge.increment q.depth_metric;
  }

  enqueue : SpscQueue A → A → Outcome Bool × SpscQueue A
  unfolding store
  enqueue q value = elim (get_elem? q.slots q.tail) [
    | none ↦ (faults, q)
    | some (some _) ↦ (faults, q)
    | some none ↦ (returns true, store q value)
  ]

  unfoldable pub push : SpscQueue A → A → Outcome Bool × SpscQueue A
  unfolding enqueue
  push q value =
      if not (is_open q.state) || ltb q.size (length q.slots)
      then elim q.state [
        | failed ↦ (rethrow q.failure, q)
        | closed ↦ (returns false, q)
        | opened ↦ enqueue q value
      ]
      else (blocks, q)

  -- The part of `pop` below the tests of the state and the size.
  pub take_head : SpscQueue A → SpscQueue A
  unfolding next_index
  take_head q = record q {
    slots = set q.slots q.head none;
    head = next_index q q.head;
    size = q.size - 1;
    depth_metric = on_metric Gauge.decrement q.depth_metric;
  }

  dequeue : SpscQueue A → Outcome (Option A) × SpscQueue A
  unfolding take_head
  dequeue q = elim (get_elem? q.slots q.head) [
    | none ↦ (faults, q)
    | some none ↦ (faults, q)
    | some (some value) ↦ (returns (some value), take_head q)
  ]

  -- The test for an empty queue comes after that for a failed one; it asserts a closed state.
  drain : SpscQueue A → State → Outcome (Option A)
  drain q closed = returns none
  drain q _ = faults

  unfoldable pub pop : SpscQueue A → Outcome (Option A) × SpscQueue A
  unfolding dequeue drain
  pop q =
      if not (is_open q.state) || ltb 0 q.size
      then elim q.state [
        | failed ↦ (rethrow q.failure, q)
        | other ↦ (if q.size == 0 then (drain q other, q) else dequeue q)
      ]
      else (blocks, q)

  unfoldable pub close : SpscQueue A → SpscQueue A
  close q = elim q.state [ opened ↦ record q { state = closed } | _ ↦ q ]

  unfoldable pub fail : SpscQueue A → Option Exception → Result (SpscQueue A)
  unfolding discard_queued_values
  fail q none = throw invalid_argument
  fail q (some e) = elim q.state [
    | failed ↦ ok q
    | _ ↦ ok (discard_queued_values (record q { state = failed; failure = some e }))
  ]

  -- The destructor resets the depth that an observed queue reports.
  unfoldable pub destroy : SpscQueue A → Option Gauge
  destroy q = on_metric (λ g. Gauge.set_value g 0) q.depth_metric

  abbrev pub capacity : SpscQueue A → ℕ
  capacity q = length q.slots

  abbrev pub is_closed : SpscQueue A → Bool
  is_closed q = not (is_open q.state)

  abbrev pub is_failed : SpscQueue A → Bool
  is_failed q = elim q.state [ failed ↦ true | _ ↦ false ]
