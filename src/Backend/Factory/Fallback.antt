-- ===== src/Backend/Factory/Fallback.antt =====
-- The fallback policy of src/backend/backend_factory.cpp.
use io_uring_async_load_proc.Prelude.{
  ◌<◌, ℕ, ◌≡◌, refl, Bool, true, false, List, [], ◌∷◌, ◌++◌, if◌then◌else◌, arith, inl, inr, Option,
  none, some, ◌<◌, ◌&&◌, Bool-cases, Option-cases,
}
use io_uring_async_load_proc.Exception.{
  Result, ok, throw, ◌>>◌, invalid_argument, length_error, overflow_error, logic_error,
  runtime_error, bad_alloc, system_error,
}
use io_uring_async_load_proc.Coroutine.Uring.{new_context}
use io_uring_async_load_proc.Backend.Factory.{
  auto, BackendConfig, BackendFactoryOperations, unless_system_error, create_backend_with, Backend,
  Machine, create_uring, create_thread_pool, create_sync, system_backend_factory_operations, create,
  check_thread_pool, check_reserve, ReserveError, too_long, no_memory, uring_backend,
  thread_pool_backend, sync_backend,
}

-- A result that Auto mode keeps.
abbrev pub is_settled : {B : Type 0} → Result B → Bool
is_settled (ok b) = true
is_settled (throw (system_error e)) = false
is_settled (throw _) = true

-- The first result of a list that is settled, and the last one if none is.
abbrev pub first_settled : {B : Type 0} → List (Result B) → Result B → Result B
first_settled [] last = last
first_settled (c ∷ cs) last = let rest = first_settled cs last in if is_settled c then c else rest

abbrev pub candidates : {B : Type 0} → BackendConfig → BackendFactoryOperations B → List (Result B)
candidates config operations =
    (if config.auto_try_uring then operations.create_uring config ∷ [] else [])
    ++ (if config.auto_try_thread_pool then operations.create_thread_pool config ∷ [] else [])

unless-settled :
    {B : Type 0} (c next : Result B)
    → unless_system_error c next ≡ (if is_settled c then c else next)
unfolding unless_system_error
unless-settled (ok b) next = refl
unless-settled (throw invalid_argument) next = refl
unless-settled (throw length_error) next = refl
unless-settled (throw overflow_error) next = refl
unless-settled (throw logic_error) next = refl
unless-settled (throw runtime_error) next = refl
unless-settled (throw bad_alloc) next = refl
unless-settled (throw (system_error e)) next = refl

-- In Auto mode the factory takes, of the candidates that the configuration allows, io_uring before
-- the thread pool, the first that is made or fails with something else than a `std::system_error`,
-- and otherwise the synchronous backend, whatever the three constructors are.
pub create_backend_with-first_settled :
    {B : Type 0} (config : BackendConfig) (operations : BackendFactoryOperations B)
    → config.kind ≡ auto
    → create_backend_with config operations
      ≡ first_settled (candidates config operations) (operations.create_sync config)
unfolding create_backend_with unless_system_error
create_backend_with-first_settled config operations h =
    let last = operations.create_sync config in
    let second =
      if config.auto_try_thread_pool
      then unless_system_error (operations.create_thread_pool config) last
      else last in
    elim (Bool-cases config.auto_try_uring) [
      | inl u ↦ elim (Bool-cases config.auto_try_thread_pool) [
        | inl t ↦ ground (
          arith,
          unless-settled (operations.create_uring config) second,
          unless-settled (operations.create_thread_pool config) last,
        )
        | inr t ↦ ground (arith, unless-settled (operations.create_uring config) second)
      ]
      | inr u ↦ elim (Bool-cases config.auto_try_thread_pool) [
        | inl t ↦ ground (arith, unless-settled (operations.create_thread_pool config) last)
        | inr t ↦ ground arith
      ]
    ]

abbrev pub is_none : Option ℕ → Bool
is_none none = true
is_none (some e) = false

-- The fastest backend that is allowed and can be set up; or what `reserve` threw.
abbrev pub best : Machine → BackendConfig → Result Backend
best m config =
    let threads : Result Backend = elim m.reserve_error [
      | some e ↦ check_reserve (some e) >> ok thread_pool_backend
      | none ↦ if is_none m.thread_error then ok thread_pool_backend else ok sync_backend
    ] in
    if config.auto_try_uring && m.has_liburing && is_none m.ring_error
    then ok uring_backend
    else if config.auto_try_thread_pool
    then threads
    else ok sync_backend

-- `BackendFactory::create` in Auto mode, on every machine, with liburing or without, if the queue
-- depth, the worker count and the number of reads in flight are positive: it makes io_uring if that
-- is allowed and can be set up; else the thread pool if that is allowed and can be set up; else the
-- synchronous backend. It throws only if the thread pool is allowed and needed and the
-- room for its queues or its workers cannot be reserved, and then what `reserve` throws.
pub create-best :
    (m : Machine) (config : BackendConfig)
    → config.kind ≡ auto
    → 0 < config.uring_queue_depth
    → 0 < config.thread_pool_worker_count
    → 0 < config.max_inflight
    → create m config ≡ best m config
unfolding create create_backend_with unless_system_error system_backend_factory_operations
    create_uring create_thread_pool create_sync check_thread_pool check_reserve new_context
create-best m config h depth workers inflight = of_reserve m.reserve_error refl
  where
    of_reserve :
        (reserved : Option ReserveError)
        → m.reserve_error ≡ reserved
        → create m config ≡ best m config
    of_reserve none s = elim (Option-cases m.ring_error) [
      | inl r ↦ elim (Option-cases m.thread_error) [
        | inl t ↦ ground arith
        | inr (e, t) ↦ ground arith
      ]
      | inr (d, r) ↦ elim (Option-cases m.thread_error) [
        | inl t ↦ ground arith
        | inr (e, t) ↦ ground arith
      ]
    ]
    of_reserve (some too_long) s = elim (Option-cases m.ring_error) [
      | inl r ↦ ground arith
      | inr (d, r) ↦ ground arith
    ]
    of_reserve (some no_memory) s = elim (Option-cases m.ring_error) [
      | inl r ↦ ground arith
      | inr (d, r) ↦ ground arith
    ]
