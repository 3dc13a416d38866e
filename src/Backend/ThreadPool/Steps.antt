-- ===== src/Backend/ThreadPool/Steps.antt =====
-- The threads that share a pool of src/backend/thread_pool_backend.cpp, and their steps in any
-- order.
use io_uring_async_load_proc.Prelude.{
  ℕ, zero, suc, ◌+◌, Bool, true, false, if◌then◌else◌, none, some, List, [], ◌∷◌, get_elem?,
}
use io_uring_async_load_proc.Exception.{blocks, returns, throws, faults}
use io_uring_async_load_proc.Coroutine.CompletionRequest.{Completion}
use io_uring_async_load_proc.Backend.ThreadPool.{
  ThreadPoolBackend, try_submit, take_work, finish_work, take_completion, stop,
}

-- The pool; the workers that will test the predicate of `work_available_`, those that sleep on that
-- condition variable until they are notified, and those that have ended; the requests that the others
-- are reading; the number of requests that were taken so far, which number them; the completions
-- that were given out; and whether the owner sleeps on `completion_available_`.
pub record World : Type 0 where
  pub pool : ThreadPoolBackend
  pub idle : ℕ
  pub asleep : ℕ
  pub ended : ℕ
  pub reading : List ℕ
  pub accepted : ℕ
  pub delivered : List (ℕ × Completion)
  pub owner_waits : Bool

pub data Event : Type 0 where
  submits takes waits stops : Event
  finishes : ℕ → Completion → Event

abbrev pub remove_at : List ℕ → ℕ → List ℕ
remove_at [] i = []
remove_at (x ∷ xs) zero = xs
remove_at (x ∷ xs) (suc i) = x ∷ remove_at xs i

-- `work_available_.notify_one()`.
unfoldable pub notify_one : World → World
notify_one w = elim w.asleep [
  | zero ↦ w
  | suc asleep ↦ record w { idle = w.idle + 1; asleep = asleep }
]

-- `work_available_.notify_all()`.
unfoldable pub notify_all : World → World
notify_all w = record w { idle = w.idle + w.asleep; asleep = 0 }

-- A new request is submitted, and a worker is notified.
unfoldable pub submit : World → World
unfolding try_submit notify_one
submit w =
    let (refused, p) = try_submit w.pool w.accepted in
    elim refused [
      | some e ↦ w
      | none ↦ notify_one (record w { pool = p; accepted = w.accepted + 1 })
    ]

-- A worker that tests the predicate takes a request, or ends, or sleeps.
unfoldable pub take : World → World
unfolding take_work
take w = elim w.idle [
  | zero ↦ w
  | suc idle ↦
      let (o, p) = take_work w.pool in
      elim o [
        | returns (some request) ↦ record w { pool = p; idle = idle; reading = request ∷ w.reading }
        | returns none ↦ record w { pool = p; idle = idle; ended = w.ended + 1 }
        | blocks ↦ record w { idle = idle; asleep = w.asleep + 1 }
        | throws e ↦ w
        | faults ↦ w
      ]
]

-- The worker with the `i`th request that is being read is done with it, notifies the owner, and
-- tests the predicate again.
unfoldable pub finish : World → ℕ → Completion → World
unfolding finish_work
finish w i result = elim (get_elem? w.reading i) [
  | none ↦ w
  | some request ↦ record w {
    pool = finish_work w.pool request result;
    idle = w.idle + 1;
    reading = remove_at w.reading i;
    owner_waits = false;
  }
]

-- The owner, unless it sleeps, calls `wait_one` or tests its predicate again.
unfoldable pub wait : World → World
unfolding take_completion
wait w =
    let (o, p) = take_completion w.pool in
    let waited : World = elim o [
      | returns c ↦ record w { pool = p; delivered = c ∷ w.delivered }
      | blocks ↦ record w { owner_waits = true }
      | throws e ↦ w
      | faults ↦ w
    ] in
    if w.owner_waits then w else waited

unfoldable pub act : World → Event → World
unfolding submit take finish wait stop notify_all
act w submits = submit w
act w takes = take w
act w (finishes i result) = finish w i result
act w waits = wait w
act w stops = notify_all (record w { pool = stop w.pool })

unfoldable pub run : World → List Event → World
unfolding act
run w [] = w
run w (e ∷ events) = run (act w e) events

-- A pool as its constructor leaves it, with its workers.
abbrev pub start : ThreadPoolBackend → ℕ → World
start p worker_count = record {
  pool = p;
  idle = worker_count;
  asleep = 0;
  ended = 0;
  reading = [];
  accepted = 0;
  delivered = [];
  owner_waits = false;
}
