-- ===== src/Backend/ThreadPool/Cases.antt =====
-- Each step of the threads of src/backend/thread_pool_backend.cpp does nothing, or one thing.
use io_uring_async_load_proc.Prelude.{
  ℕ, zero, suc, ◌+◌, ◌-◌, ◌≡◌, ◌≢◌, ◌<◌, ◌⊎◌, inl, inr, refl, true, false, Bool-cases, Option-cases,
  some, List, [], ◌∷◌, get_elem?, arith, dec_le, ℕ_discrete,
}
use io_uring_async_load_proc.Coroutine.CompletionRequest.{Completion}
use io_uring_async_load_proc.Backend.ThreadPool.{
  try_submit, take_work, finish_work, take_completion,
}
use io_uring_async_load_proc.Backend.ThreadPool.Steps.{
  World, remove_at, notify_one, submit, take, finish, wait,
}

-- What each step makes of a world when it does something.
abbrev pub submitted : World → World
submitted w = notify_one (record w {
  pool = record (w.pool) {
    work_queue = w.accepted ∷ w.pool.work_queue;
    inflight_count = w.pool.inflight_count + 1;
  };
  accepted = w.accepted + 1;
})

pub submit-cases :
    (w : World)
    → (submit w ≡ w)
      ⊎ ((w.pool.stopping ≡ false)
          × (w.pool.inflight_count < w.pool.max_inflight)
          × (submit w ≡ submitted w))
unfolding submit try_submit
submit-cases w = elim (Bool-cases w.pool.stopping) [
  | inl stopping ↦ inl (ground arith)
  | inr runs ↦ elim (dec_le w.pool.max_inflight w.pool.inflight_count) [
    | yes full ↦ inl (ground arith)
    | no room ↦ inr (runs, omega arith, ground arith)
  ]
]

abbrev pub taken : World → ℕ → List ℕ → ℕ → World
taken w request rest idle = record w {
  pool = record (w.pool) { work_queue = rest };
  idle = idle;
  reading = request ∷ w.reading;
}

abbrev pub left : World → ℕ → World
left w idle = record w { idle = idle; ended = w.ended + 1 }

abbrev pub slept : World → ℕ → World
slept w idle = record w { idle = idle; asleep = w.asleep + 1 }

-- What `take` does.
pub data Taking (w : World) : Type 0 where
  nothing : take w ≡ w → Taking w
  leaves :
      (idle : ℕ)
      → w.idle ≡ suc idle
      → w.pool.work_queue ≡ []
      → w.pool.stopping ≡ true
      → take w ≡ left w idle
      → Taking w
  sleeps :
      (idle : ℕ)
      → w.idle ≡ suc idle
      → w.pool.work_queue ≡ []
      → w.pool.stopping ≡ false
      → take w ≡ slept w idle
      → Taking w
  takes_one :
      (idle request : ℕ) (rest : List ℕ)
      → w.idle ≡ suc idle
      → w.pool.work_queue ≡ request ∷ rest
      → take w ≡ taken w request rest idle
      → Taking w

pub take-cases : (w : World) → Taking w
unfolding take take_work
take-cases w = of_idle w.idle w.pool.work_queue refl refl
  where
    of_idle : (idle : ℕ) (queue : List ℕ) → w.idle ≡ idle → w.pool.work_queue ≡ queue → Taking w
    of_idle zero queue e q = Taking.nothing (ground arith)
    of_idle (suc idle) [] e q = elim (Bool-cases w.pool.stopping) [
      | inl stopping ↦ leaves idle e q stopping (ground arith)
      | inr runs ↦ sleeps idle e q runs (ground arith)
    ]
    of_idle (suc idle) (request ∷ rest) e q = takes_one idle request rest e q (ground arith)

abbrev pub finished : World → ℕ → ℕ → Completion → World
finished w i request result = record w {
  pool = record (w.pool) { completion_queue = (request, result) ∷ w.pool.completion_queue };
  idle = w.idle + 1;
  reading = remove_at w.reading i;
  owner_waits = false;
}

pub finish-cases :
    (w : World) (i : ℕ) (result : Completion)
    → (finish w i result ≡ w)
      ⊎ ((request : ℕ) × (get_elem? w.reading i ≡ some request)
          × (finish w i result ≡ finished w i request result))
unfolding finish finish_work
finish-cases w i result = elim (Option-cases (get_elem? w.reading i)) [
  | inl none_there ↦ inl (ground arith)
  | inr (request, found) ↦ inr (request, found, ground arith)
]

abbrev pub given : World → ℕ × Completion → List (ℕ × Completion) → World
given w c rest = record w {
  pool = record (w.pool) { completion_queue = rest; inflight_count = w.pool.inflight_count - 1 };
  delivered = c ∷ w.delivered;
}

-- What `wait` does.
pub data Waiting (w : World) : Type 0 where
  nothing : wait w ≡ w → Waiting w
  waits_on : w.pool.completion_queue ≡ [] → wait w ≡ record w { owner_waits = true } → Waiting w
  gets :
      (c : ℕ × Completion) (rest : List (ℕ × Completion))
      → w.pool.completion_queue ≡ c ∷ rest
      → wait w ≡ given w c rest
      → Waiting w

pub wait-cases : (w : World) → Waiting w
unfolding wait take_completion
wait-cases w = elim (Bool-cases w.owner_waits) [
  | inl sleeping ↦ Waiting.nothing (ground arith)
  | inr awake ↦ elim (ℕ_discrete w.pool.inflight_count 0) [
    | yes idle ↦ Waiting.nothing (ground arith)
    | no busy ↦ of_queue w.pool.completion_queue refl awake busy
  ]
]
  where
    of_queue :
        (queue : List (ℕ × Completion))
        → w.pool.completion_queue ≡ queue
        → w.owner_waits ≡ false
        → w.pool.inflight_count ≢ 0
        → Waiting w
    of_queue [] q awake busy = waits_on q (ground arith)
    of_queue (c ∷ rest) q awake busy = gets c rest q (ground arith)
