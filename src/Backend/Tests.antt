-- ===== src/Backend/Tests.antt =====
-- Runs of the code of src/backend on concrete inputs, and instances of its theorems.
use io_uring_async_load_proc.Prelude.{
  ◌≡◌, ◌<◌, ◌^◌, refl, true, false, none, some, List, [], ◌∷◌, arith,
}
use io_uring_async_load_proc.Exception.{ok}
use io_uring_async_load_proc.Util.Errno.{eintr, enosys}
use io_uring_async_load_proc.Util.FileIo
use io_uring_async_load_proc.Util.FileIo.{Answer, transfers, failed, ReadAtResult}
use io_uring_async_load_proc.Util.FileIo.Memory.{memory}
use io_uring_async_load_proc.Coroutine.CompletionRequest.{transferred}
use io_uring_async_load_proc.Coroutine.Uring.{count_of}
use io_uring_async_load_proc.Backend.Factory.{
  default_backend_config, Machine, create, create_backend_with, system_backend_factory_operations,
  Backend, create_uring, create_thread_pool, create_sync,
}
use io_uring_async_load_proc.Backend.Factory.Fallback.{
  first_settled, candidates, best, create_backend_with-first_settled, create-best,
}
use io_uring_async_load_proc.Backend.ThreadPool.{
  ThreadPoolBackend, new_thread_pool, check_read, completion_of,
}
use io_uring_async_load_proc.Backend.ThreadPool.Steps.{
  Event, submits, takes, waits, stops, finishes, run, start, act,
}
use io_uring_async_load_proc.Backend.ThreadPool.Accounts.{Accounts, run-Accounts}
use io_uring_async_load_proc.Backend.ThreadPool.Progress.{Served, wait_one-Served}
use io_uring_async_load_proc.Backend.Sync.{read_at}
use io_uring_async_load_proc.Backend.Sync.Agree.{read_at-agrees}

-- A kernel without io_uring.
abbrev old_kernel : Machine
old_kernel = record {
  has_liburing = true;
  ring_error = some enosys;
  reserve_error = none;
  thread_error = none;
}

falls_back : create old_kernel default_backend_config ≡ ok Backend.thread_pool_backend
unfolding create create_backend_with create_uring create_thread_pool create_sync
falls_back = refl

create-best_example :
    create old_kernel default_backend_config ≡ best old_kernel default_backend_config
create-best_example =
    create-best old_kernel default_backend_config refl (omega arith) (omega arith) (omega arith)

create_backend_with-first_settled_example :
    create_backend_with default_backend_config (system_backend_factory_operations old_kernel)
    ≡ first_settled
        (candidates default_backend_config (system_backend_factory_operations old_kernel))
        ((system_backend_factory_operations old_kernel).create_sync default_backend_config)
create_backend_with-first_settled_example =
    create_backend_with-first_settled default_backend_config
      (system_backend_factory_operations old_kernel) refl

abbrev small_pool : ThreadPoolBackend
small_pool = record {
  max_inflight = 2;
  work_queue = [];
  completion_queue = [];
  inflight_count = 0;
  stopping = false;
}

small_pool_made : new_thread_pool 1 2 none none ≡ ok small_pool
unfolding new_thread_pool
small_pool_made = refl

-- Three requests for two places, a completion, and a stop.
abbrev events : List Event
events = submits ∷ submits ∷ submits ∷ takes ∷ finishes 0 (transferred 4) ∷ waits ∷ stops ∷ []

accounts : Accounts 1 (run (start small_pool 1) events)
accounts = run-Accounts 1 2 small_pool events small_pool_made

run-Accounts_example : Accounts 1 (run (start small_pool 1) events)
run-Accounts_example = run-Accounts 1 2 small_pool events small_pool_made

busy : (run (start small_pool 1) events).pool.inflight_count ≡ 1
unfolding run act
busy = refl

wait_one-Served_example : Served (run (start small_pool 1) events)
wait_one-Served_example =
    wait_one-Served 1 (run (start small_pool 1) events) (transferred 9) accounts (omega arith)
      (λ e. absurd (omega (arith, e, busy)))

abbrev half_read : ReadAtResult
half_read = record { bytes_read = 2; error_number = 0 }

checked : check_read (some 4096) 3 ≡ ok tt
unfolding check_read
checked = refl

half_read_made :
    FileIo.read_at memory (failed eintr ∷ transfers 2 ∷ []) ((0, 5) ∷ []) 3 0
    ≡ some (half_read, 5 ∷ 0 ∷ [], [])
unfolding FileIo.read_at
half_read_made = refl

read_at-agrees_example :
    (read_at memory (failed eintr ∷ transfers 2 ∷ []) ((0, 5) ∷ []) 3 0
      ≡ some (count_of (completion_of half_read), 5 ∷ 0 ∷ [], []))
    × (2 < 2 ^ 31)
read_at-agrees_example =
    read_at-agrees memory (some 4096) (failed eintr ∷ transfers 2 ∷ []) [] ((0, 5) ∷ []) 3 0
      half_read (5 ∷ 0 ∷ []) checked half_read_made
