-- ===== src/Backend/ThreadPool/Progress.antt =====
-- A `wait_one` of src/backend/thread_pool_backend.cpp that waits is woken by the workers.
use io_uring_async_load_proc.Prelude.{
  ℕ, zero, suc, ◌≡◌, ◌≢◌, ◌≤◌, ◌<◌, refl, ap, inl, inr, false, List, [], ◌∷◌, length, arith, All,
  Bool-cases,
}
use io_uring_async_load_proc.Exception.{returns}
use io_uring_async_load_proc.Coroutine.CompletionRequest.{Completion}
use io_uring_async_load_proc.Backend.ThreadPool.{take_completion, take_work, finish_work}
use io_uring_async_load_proc.Backend.ThreadPool.Steps.{
  World, Event, submits, takes, waits, stops, finishes, take, finish, act, run,
}
use io_uring_async_load_proc.Backend.ThreadPool.Cases.{
  nothing, leaves, sleeps, takes_one, take-cases, finish-cases,
}
use io_uring_async_load_proc.Backend.ThreadPool.Accounts.{Accounts, run-from}

-- The steps of workers.
abbrev pub OfWorker : Event → Type 0
OfWorker takes = Unit
OfWorker (finishes i result) = Unit
OfWorker _ = ⊥

-- Each of the steps does something.
abbrev pub EachActs : World → List Event → Type 0
EachActs w [] = Unit
EachActs w (e ∷ events) = (act w e ≢ w) × EachActs (act w e) events

-- How the workers serve an owner that waits.
pub record Served (w : World) : Type 0 where
  pub can_step : w.pool.completion_queue ≡ [] → (e : Event) × OfWorker e × (act w e ≢ w)
  pub woken :
      (events : List Event)
      → All OfWorker events
      → EachActs w events
      → w.idle < length events
      → (completion : ℕ × Completion) × ((take_completion (run w events).pool).0
          ≡ returns completion)
        × ((run w events).owner_waits ≡ false)

-- A step of a worker keeps the completions that are there, and otherwise one worker less is about to
-- look for work, or a completion is there.
step-completes :
    (w : World) (e : Event)
    → OfWorker e
    → act w e ≢ w
    → ((act w e).pool.completion_queue ≡ [])
    → (w.pool.completion_queue ≡ []) × (w.idle ≡ suc (act w e).idle)
unfolding act
step-completes w takes o acts none_yet = elim (take-cases w) [
  | nothing same ↦ absurd (acts same)
  | leaves idle some_idle queue stopping e ↦ (ground arith, ground arith)
  | sleeps idle some_idle queue runs e ↦ (ground arith, ground arith)
  | takes_one idle request rest some_idle queue e ↦ (ground arith, ground arith)
]
step-completes w (finishes i result) o acts none_yet = elim (finish-cases w i result) [
  | inl same ↦ absurd (acts same)
  | inr (request, found, e) ↦ absurd (ground arith)
]
step-completes w submits o acts none_yet = absurd o
step-completes w waits o acts none_yet = absurd o
step-completes w stops o acts none_yet = absurd o

run-completes :
    (w : World) (events : List Event)
    → All OfWorker events
    → EachActs w events
    → (run w events).pool.completion_queue ≡ []
    → (w.pool.completion_queue ≡ []) × (length events ≤ w.idle)
unfolding run
run-completes w [] o acts none_yet = (none_yet, omega arith)
run-completes w (e ∷ events) o acts none_yet =
    let (later, few) = run-completes (act w e) events o.1 acts.1 none_yet in
    let (now, less) = step-completes w e o.0 acts.0 later in (now, omega arith)

-- A worker can take a step while a request is in flight and no completion is there.
some_step :
    (worker_count : ℕ) (w : World) (result : Completion)
    → Accounts worker_count w
    → 0 < worker_count
    → w.pool.inflight_count ≢ 0
    → w.pool.completion_queue ≡ []
    → (e : Event) × OfWorker e × (act w e ≢ w)
unfolding act take take_work finish finish_work
some_step worker_count w result a workers busy none_yet =
    of_lists w.reading w.pool.work_queue w.idle refl refl refl
  where
    of_lists :
        (reading work : List ℕ) (idle : ℕ)
        → w.reading ≡ reading
        → w.pool.work_queue ≡ work
        → w.idle ≡ idle
        → (e : Event) × OfWorker e × (act w e ≢ w)
    of_lists (request ∷ rest) work idle r k i = (
      finishes 0 result,
      tt,
      λ same. absurd (ground (arith, ap (λ v. v.pool.completion_queue) same)),
    )
    of_lists [] (request ∷ rest) (suc idle) r k i =
        (takes, tt, λ same. absurd (ground (arith, ap (λ v. v.idle) same)))
    of_lists [] (request ∷ rest) zero r k i = absurd (ground (arith, a.crew, a.ending, a.awake))
    of_lists [] [] idle r k i = absurd (busy (ground (arith, a.inflight)))

-- While a request is in flight in a pool with workers whose accounts are right, as `run-Accounts`
-- shows of every state that a new pool reaches, the owner does not wait for ever, also when the pool
-- is being stopped. If no completion is there, some worker can take a step that does something; and
-- whatever the steps of the workers are, once there were more of them than workers that were
-- about to look for work, a completion is there for `wait_one` and the owner has been notified.
pub wait_one-Served :
    (worker_count : ℕ) (w : World) (result : Completion)
    → Accounts worker_count w
    → 0 < worker_count
    → w.pool.inflight_count ≢ 0
    → Served w
unfolding take_completion
wait_one-Served worker_count w result a workers busy = record {
  can_step = some_step worker_count w result a workers busy;
  woken = λ events o acts many.
      let later = run-from w events a in
      of_queue events (run w events).pool.completion_queue refl later (λ none_yet.
        let (now, few) = run-completes w events o acts none_yet in omega (arith, few, many));
}
  where
    of_queue :
        (events : List Event) (queue : List (ℕ × Completion))
        → (run w events).pool.completion_queue ≡ queue
        → Accounts worker_count (run w events)
        → ((run w events).pool.completion_queue ≢ [])
        → (completion : ℕ × Completion) × ((take_completion (run w events).pool).0
            ≡ returns completion)
          × ((run w events).owner_waits ≡ false)
    of_queue events [] q later some_there = absurd (some_there q)
    of_queue events (c ∷ rest) q later some_there =
        let awake : (run w events).owner_waits ≡ false =
          elim (Bool-cases (run w events).owner_waits) [
            | inl waiting ↦ absurd (some_there (later.owner waiting))
            | inr awake ↦ awake
          ] in
        (c, ground (arith, later.inflight), awake)
