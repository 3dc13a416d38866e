-- ===== src/Backend/Factory.antt =====
-- src/backend/backend_factory.cpp: which backend is made.
pub mod Fallback
use io_uring_async_load_proc.Prelude.{
  ℕ, Bool, true, false, List, [], ◌∷◌, if◌then◌else◌, ◌==◌, Option, none, some,
}
use io_uring_async_load_proc.Exception.{
  Result, ok, throw, throw_if, ◌>>=◌, ◌>>◌, Exception, invalid_argument, length_error, bad_alloc,
  system_error,
}
use io_uring_async_load_proc.Util.Errno.{enosys}
use io_uring_async_load_proc.Coroutine.Uring.{new_context}

-- `unknown`: a value of the enumeration's type that has no name.
pub data BackendKind : Type 0 where
  auto uring thread_pool sync unknown : BackendKind

pub record BackendConfig : Type 0 where
  pub kind : BackendKind
  pub uring_queue_depth : ℕ
  pub thread_pool_worker_count : ℕ
  pub max_inflight : ℕ
  pub auto_try_uring : Bool
  pub auto_try_thread_pool : Bool

abbrev pub default_backend_config : BackendConfig
default_backend_config = record {
  kind = auto;
  uring_queue_depth = 8;
  thread_pool_worker_count = 2;
  max_inflight = 8;
  auto_try_uring = true;
  auto_try_thread_pool = true;
}

pub record BackendFactoryOperations (B : Type 0) : Type 0 where
  pub create_uring : BackendConfig → Result B
  pub create_thread_pool : BackendConfig → Result B
  pub create_sync : BackendConfig → Result B

-- `try { return created; } catch (const std::system_error&) {}` before what follows.
unfoldable pub unless_system_error : {B : Type 0} → Result B → Result B → Result B
unless_system_error (ok b) next = ok b
unless_system_error (throw (system_error e)) next = next
unless_system_error (throw e) next = throw e

unfoldable pub create_backend_with :
    {B : Type 0} → BackendConfig → BackendFactoryOperations B → Result B
unfolding unless_system_error
create_backend_with config operations =
    let last = operations.create_sync config in
    let second =
      if config.auto_try_thread_pool
      then unless_system_error (operations.create_thread_pool config) last
      else last in
    let first =
      if config.auto_try_uring
      then unless_system_error (operations.create_uring config) second
      else second in
    elim config.kind [
      | uring ↦ operations.create_uring config
      | thread_pool ↦ operations.create_thread_pool config
      | sync ↦ operations.create_sync config
      | auto ↦ first
      | unknown ↦ throw invalid_argument
    ]

-- What a backend is here: which class it is of.
pub data Backend : Type 0 where
  uring_backend thread_pool_backend sync_backend : Backend

-- How `std::vector::reserve` fails: the size is more than `max_size()`, or there is no memory for it.
pub data ReserveError : Type 0 where
  too_long no_memory : ReserveError

unfoldable pub check_reserve : Option ReserveError → Result (Unit {0})
check_reserve none = ok tt
check_reserve (some too_long) = throw length_error
check_reserve (some no_memory) = throw bad_alloc

-- The build and the machine: whether liburing is compiled in, the error numbers with which the set-up
-- of a ring and the start of the workers fail, and how the first of the three calls of `reserve`
-- that fails does, if they do.
pub record Machine : Type 0 where
  pub has_liburing : Bool
  pub ring_error : Option ℕ
  pub reserve_error : Option ReserveError
  pub thread_error : Option ℕ

unfoldable pub create_uring : Machine → BackendConfig → Result Backend
unfolding new_context
create_uring m config =
    if m.has_liburing
    then new_context config.uring_queue_depth m.ring_error >> ok uring_backend
    else throw_if (config.uring_queue_depth == 0) invalid_argument >> throw (system_error enosys)

-- The constructor of `ThreadPoolBackend`, as far as it may throw.
unfoldable pub check_thread_pool : ℕ → ℕ → Option ReserveError → Option ℕ → Result (Unit {0})
unfolding check_reserve
check_thread_pool worker_count max_inflight reserve_error thread_error = do
  throw_if (worker_count == 0) invalid_argument
  throw_if (max_inflight == 0) invalid_argument
  check_reserve reserve_error
  elim thread_error [ none ↦ ok tt | some e ↦ throw (system_error e) ]

unfoldable pub create_thread_pool : Machine → BackendConfig → Result Backend
unfolding check_thread_pool
create_thread_pool m config =
    check_thread_pool config.thread_pool_worker_count config.max_inflight m.reserve_error
      m.thread_error
    >> ok thread_pool_backend

unfoldable pub create_sync : BackendConfig → Result Backend
create_sync config = ok sync_backend

unfoldable pub system_backend_factory_operations : Machine → BackendFactoryOperations Backend
unfolding create_uring create_thread_pool create_sync
system_backend_factory_operations m = record {
  create_uring = create_uring m;
  create_thread_pool = create_thread_pool m;
  create_sync = create_sync;
}

-- `BackendFactory::create`.
unfoldable pub create : Machine → BackendConfig → Result Backend
unfolding create_backend_with system_backend_factory_operations
create m config = create_backend_with config (system_backend_factory_operations m)
