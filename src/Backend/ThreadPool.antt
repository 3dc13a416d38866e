-- ===== src/Backend/ThreadPool.antt =====
-- src/backend/thread_pool_backend.cpp: workers that take reads off a queue, and a queue of what they
-- read. Each critical section is one step; a request is a number. Both vectors are used at the
-- back, which is the head of the list here.
pub mod Steps
pub mod Cases
pub mod Accounts
pub mod Progress
use io_uring_async_load_proc.Prelude.{
  ℕ, zero, suc, ◌+◌, ◌-◌, Bool, true, false, not, ◌&&◌, ◌||◌, Option, none, some, List, [], ◌∷◌,
  if◌then◌else◌, ◌==◌, leb, ltb, ◌^◌, length,
}
use io_uring_async_load_proc.Exception.{
  Result, ok, throw, throw_if, ◌>>=◌, ◌>>◌, Outcome, blocks, returns, throws, invalid_argument,
  length_error, logic_error, system_error,
}
use io_uring_async_load_proc.Util.Errno.{ecanceled, eagain}
use io_uring_async_load_proc.Util.FileIo.{ReadAtResult}
use io_uring_async_load_proc.Coroutine.CompletionRequest.{Completion, transferred, failed}
use io_uring_async_load_proc.Coroutine.Uring.{is_null, count_of}
use io_uring_async_load_proc.Backend.Factory.{ReserveError, check_thread_pool}

pub record ThreadPoolBackend : Type 0 where
  pub max_inflight : ℕ
  pub work_queue : List ℕ
  pub completion_queue : List (ℕ × Completion)
  pub inflight_count : ℕ
  pub stopping : Bool

-- The constructor. When a worker cannot be started, the ones that were are stopped and joined.
unfoldable pub new_thread_pool : ℕ → ℕ → Option ReserveError → Option ℕ → Result ThreadPoolBackend
unfolding check_thread_pool
new_thread_pool worker_count max_inflight reserve_error thread_error = do
  check_thread_pool worker_count max_inflight reserve_error thread_error
  ok (record {
    max_inflight = max_inflight;
    work_queue = [];
    completion_queue = [];
    inflight_count = 0;
    stopping = false;
  })

-- The constructor of `ReadAwaiter`, for a buffer of `byte_count` bytes.
unfoldable pub check_read : Option ℕ → ℕ → Result (Unit {0})
check_read buffer byte_count = do
  throw_if (is_null buffer && not (byte_count == 0)) invalid_argument
  throw_if (ltb (2 ^ 31 - 1) byte_count) length_error

-- `try_submit`: the error number of a request that is not taken.
unfoldable pub try_submit : ThreadPoolBackend → ℕ → Option ℕ × ThreadPoolBackend
try_submit p request =
    if p.stopping
    then (some ecanceled, p)
    else if leb p.max_inflight p.inflight_count
    then (some eagain, p)
    else (
      none,
      record p { work_queue = request ∷ p.work_queue; inflight_count = p.inflight_count + 1 },
    )

-- The first critical section of `worker_loop`: a request, or `none` for the end of the loop.
unfoldable pub take_work : ThreadPoolBackend → Outcome (Option ℕ) × ThreadPoolBackend
take_work p = elim p.work_queue [
  | [] ↦ if p.stopping then (returns none, p) else (blocks, p)
  | request ∷ rest ↦ (returns (some request), record p { work_queue = rest })
]

-- What the worker stores of a read.
unfoldable pub completion_of : ReadAtResult → Completion
completion_of result =
    if not (result.error_number == 0)
    then failed result.error_number
    else transferred result.bytes_read

-- The second critical section of `worker_loop`.
unfoldable pub finish_work : ThreadPoolBackend → ℕ → Completion → ThreadPoolBackend
finish_work p request result = record p {
  completion_queue = (request, result) ∷ p.completion_queue;
}

-- The critical section of `wait_one`: the request that is completed next, and its result.
unfoldable pub take_completion : ThreadPoolBackend → Outcome (ℕ × Completion) × ThreadPoolBackend
take_completion p =
    if p.inflight_count == 0 then (throws logic_error, p) else (elim p.completion_queue [
      | [] ↦ (blocks, p)
      | c ∷ rest ↦
          (returns c, record p { completion_queue = rest; inflight_count = p.inflight_count - 1 })
    ])

-- The critical section of the destructor.
unfoldable pub stop : ThreadPoolBackend → ThreadPoolBackend
stop p = record p { stopping = true }
