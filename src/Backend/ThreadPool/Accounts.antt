-- ===== src/Backend/ThreadPool/Accounts.antt =====
-- Every request that a pool of src/backend/thread_pool_backend.cpp took is in one place.
use io_uring_async_load_proc.Prelude.{
  ℕ, zero, suc, ◌+◌, ◌≡◌, ◌≤◌, ◌<◌, ◌⊎◌, inl, inr, refl, true, false, none, some, List, [], ◌∷◌,
  if◌then◌else◌, ◌==◌, ltb, get_elem?, length, subst, sym, arith,
}
use io_uring_async_load_proc.Exception.{ok, >>=-eq-ok}
use io_uring_async_load_proc.Coroutine.CompletionRequest.{Completion}
use io_uring_async_load_proc.Backend.Factory.{check_thread_pool}
use io_uring_async_load_proc.Backend.ThreadPool.{ThreadPoolBackend, new_thread_pool, stop}
use io_uring_async_load_proc.Backend.ThreadPool.Steps.{
  World, Event, submits, takes, waits, stops, finishes, remove_at, notify_one, notify_all, act, run,
  start,
}
use io_uring_async_load_proc.Backend.ThreadPool.Cases.{
  submitted, taken, left, slept, nothing, leaves, sleeps, takes_one, waits_on, gets, finished,
  given, submit-cases, take-cases, finish-cases, wait-cases,
}

-- How often a request is in a list.
unfoldable pub occurs : ℕ → List ℕ → ℕ
occurs i [] = 0
occurs i (x ∷ xs) = (if x == i then 1 else 0) + occurs i xs

unfoldable pub occurs_in : ℕ → List (ℕ × Completion) → ℕ
occurs_in i [] = 0
occurs_in i (c ∷ cs) = (if c.0 == i then 1 else 0) + occurs_in i cs

occurs-remove_at :
    (i : ℕ) (xs : List ℕ) (k x : ℕ)
    → get_elem? xs k ≡ some x
    → (occurs i xs ≡ (if x == i then 1 else 0) + occurs i (remove_at xs k))
      × (length xs ≡ length (remove_at xs k) + 1)
unfolding occurs
occurs-remove_at i [] k x h = absurd (ground arith)
occurs-remove_at i (y ∷ xs) zero x h = (ground arith, ground arith)
occurs-remove_at i (y ∷ xs) (suc k) x h =
    let rest = occurs-remove_at i xs k x h in (ground (arith, rest.0), ground (arith, rest.1))

pub record Accounts (worker_count : ℕ) (w : World) : Type 0 where
  pub once :
      (i : ℕ)
      → occurs i w.pool.work_queue
          + occurs i w.reading
          + occurs_in i w.pool.completion_queue
          + occurs_in i w.delivered
        ≡ (if ltb i w.accepted then 1 else 0)
  pub inflight :
      w.pool.inflight_count
      ≡ length w.pool.work_queue + length w.reading + length w.pool.completion_queue
  pub room : w.pool.inflight_count ≤ w.pool.max_inflight
  pub crew : w.idle + w.asleep + length w.reading + w.ended ≡ worker_count
  pub ending : (w.ended ≡ 0) ⊎ ((w.pool.stopping ≡ true) × (w.pool.work_queue ≡ []))
  pub awake : (w.asleep ≡ 0) ⊎ ((length w.pool.work_queue ≤ w.idle) × (w.pool.stopping ≡ false))
  pub owner : w.owner_waits ≡ true → w.pool.completion_queue ≡ []

module _ {worker_count : ℕ} {w : World} (a : Accounts worker_count w) where
  submitted-Accounts :
      w.pool.stopping ≡ false
      → w.pool.inflight_count < w.pool.max_inflight
      → Accounts worker_count (submitted w)
  unfolding occurs notify_one
  submitted-Accounts runs room = record {
    once = λ i. ground (arith, a.once i);
    inflight = ground (arith, a.inflight);
    room = ground (arith, room);
    crew = ground (arith, a.crew);
    ending = ground (arith, a.ending);
    awake = ground (arith, a.awake);
    owner = λ h. ground (arith, a.owner);
  }

  taken-Accounts :
      (idle request : ℕ) (rest : List ℕ)
      → w.idle ≡ suc idle
      → w.pool.work_queue ≡ request ∷ rest
      → Accounts worker_count (taken w request rest idle)
  unfolding occurs
  taken-Accounts idle request rest some_idle queue = record {
    once = λ i. ground (arith, a.once i);
    inflight = ground (arith, a.inflight);
    room = a.room;
    crew = ground (arith, a.crew);
    ending = ground (arith, a.ending);
    awake = ground (arith, a.awake);
    owner = a.owner;
  }

  slept-Accounts :
      (idle : ℕ)
      → w.idle ≡ suc idle
      → w.pool.work_queue ≡ []
      → w.pool.stopping ≡ false
      → Accounts worker_count (slept w idle)
  slept-Accounts idle some_idle queue runs = record {
    once = a.once;
    inflight = a.inflight;
    room = a.room;
    crew = omega (arith, a.crew);
    ending = a.ending;
    awake = inr (ground arith, runs);
    owner = a.owner;
  }

  waiting-Accounts :
      w.pool.completion_queue ≡ [] → Accounts worker_count (record w { owner_waits = true })
  waiting-Accounts queue = record {
    once = a.once;
    inflight = a.inflight;
    room = a.room;
    crew = a.crew;
    ending = a.ending;
    awake = a.awake;
    owner = λ h. queue;
  }

  left-Accounts :
      (idle : ℕ)
      → w.idle ≡ suc idle
      → w.pool.work_queue ≡ []
      → w.pool.stopping ≡ true
      → Accounts worker_count (left w idle)
  left-Accounts idle some_idle queue stopping = record {
    once = a.once;
    inflight = a.inflight;
    room = a.room;
    crew = omega (arith, a.crew);
    ending = inr (stopping, queue);
    awake = ground (arith, a.awake);
    owner = a.owner;
  }

  finished-Accounts :
      (i request : ℕ) (result : Completion)
      → get_elem? w.reading i ≡ some request
      → Accounts worker_count (finished w i request result)
  unfolding occurs_in
  finished-Accounts i request result found = record {
    once = λ j. ground (arith, a.once j, occurs-remove_at j w.reading i request found);
    inflight = ground (arith, a.inflight, occurs-remove_at 0 w.reading i request found);
    room = a.room;
    crew = ground (arith, a.crew, occurs-remove_at 0 w.reading i request found);
    ending = a.ending;
    awake = ground (arith, a.awake);
    owner = λ h. absurd (ground arith);
  }

  given-Accounts :
      (c : ℕ × Completion) (rest : List (ℕ × Completion))
      → w.pool.completion_queue ≡ c ∷ rest
      → Accounts worker_count (given w c rest)
  unfolding occurs_in
  given-Accounts c rest queue = record {
    once = λ i. ground (arith, a.once i);
    inflight = ground (arith, a.inflight);
    room = omega (arith, a.room);
    crew = a.crew;
    ending = a.ending;
    awake = a.awake;
    owner = λ h. absurd (ground (arith, a.owner h));
  }

  stopped-Accounts : Accounts worker_count (notify_all (record w { pool = stop w.pool }))
  unfolding stop notify_all
  stopped-Accounts = record {
    once = a.once;
    inflight = a.inflight;
    room = a.room;
    crew = omega (arith, a.crew);
    ending = ground (arith, a.ending);
    awake = inl refl;
    owner = a.owner;
  }

new-Accounts :
    (worker_count max_inflight : ℕ) (p : ThreadPoolBackend)
    → new_thread_pool worker_count max_inflight none none ≡ ok p
    → Accounts worker_count (start p worker_count)
unfolding new_thread_pool occurs occurs_in
new-Accounts worker_count max_inflight p made =
    let (_, _, last) = >>=-eq-ok (check_thread_pool worker_count max_inflight none none) _ made in
    let empty : (p.work_queue ≡ []) × (p.completion_queue ≡ []) × (p.inflight_count ≡ 0) =
      ground (arith, last) in
    record {
      once = λ i. ground arith;
      inflight = ground arith;
      room = omega arith;
      crew = omega arith;
      ending = inl refl;
      awake = inl refl;
      owner = λ h. absurd (ground arith);
    }

unchanged :
    {worker_count : ℕ} {w w' : World} → Accounts worker_count w → w' ≡ w → Accounts worker_count w'
unchanged {worker_count} a e = subst (Accounts worker_count) (sym e) a

act-Accounts :
    {worker_count : ℕ} (w : World) (e : Event)
    → Accounts worker_count w
    → Accounts worker_count (act w e)
unfolding act
act-Accounts w submits a = elim (submit-cases w) [
  | inl same ↦ unchanged a same
  | inr (runs, room, e) ↦ unchanged (submitted-Accounts a runs room) e
]
act-Accounts w takes a = elim (take-cases w) [
  | nothing same ↦ unchanged a same
  | leaves idle some_idle queue stopping e ↦
      unchanged (left-Accounts a idle some_idle queue stopping) e
  | sleeps idle some_idle queue runs e ↦ unchanged (slept-Accounts a idle some_idle queue runs) e
  | takes_one idle request rest some_idle queue e ↦
      unchanged (taken-Accounts a idle request rest some_idle queue) e
]
act-Accounts w (finishes i result) a = elim (finish-cases w i result) [
  | inl same ↦ unchanged a same
  | inr (request, found, e) ↦ unchanged (finished-Accounts a i request result found) e
]
act-Accounts w waits a = elim (wait-cases w) [
  | nothing same ↦ unchanged a same
  | waits_on queue e ↦ unchanged (waiting-Accounts a queue) e
  | gets c rest queue e ↦ unchanged (given-Accounts a c rest queue) e
]
act-Accounts w stops a = stopped-Accounts a

pub run-from :
    {worker_count : ℕ} (w : World) (events : List Event)
    → Accounts worker_count w
    → Accounts worker_count (run w events)
unfolding run
run-from w [] a = a
run-from w (e ∷ events) a = run-from (act w e) events (act-Accounts w e a)

-- Whatever the owner and the workers of a new pool do, in any order: every request that was taken is
-- in exactly one place, waiting, being read, read, or given out; the count of requests in flight is
-- right and at most `max_inflight`; every worker is about to look for work, sleeps, reads or has
-- ended; workers end only in a pool that stops, with no request waiting; while a worker sleeps, the
-- pool does not stop, and at least as many workers are about to look for work as there are requests
-- that wait; and the owner sleeps only while no completion is there.
pub run-Accounts :
    (worker_count max_inflight : ℕ) (p : ThreadPoolBackend) (events : List Event)
    → new_thread_pool worker_count max_inflight none none ≡ ok p
    → Accounts worker_count (run (start p worker_count) events)
run-Accounts worker_count max_inflight p events made =
    run-from (start p worker_count) events (new-Accounts worker_count max_inflight p made)
