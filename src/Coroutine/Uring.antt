-- ===== src/Coroutine/Uring.antt =====
-- src/coroutine/uring_read_awaiter.cpp. The ring belongs to the liburing library: the answers of its
-- calls are given, a request to a ring is the number of its `CompletionRequest`, and a completion
-- queue entry has the number of a request, or none if its data pointer is null.
pub mod Await
use io_uring_async_load_proc.Prelude.{
  ℕ, Bool, true, false, Option, none, some, List, [], ◌∷◌, if◌then◌else◌, ◌==◌, ltb, ◌-◌, ◌^◌, not,
  ◌&&◌,
}
use io_uring_async_load_proc.Exception.{
  Result, ok, throw, throw_if, ◌>>=◌, ◌>>◌, Exception, invalid_argument, length_error,
  runtime_error, system_error,
}
use io_uring_async_load_proc.Util.Errno.{eintr, eio, eagain}
use io_uring_async_load_proc.Coroutine.CompletionRequest.{
  CompletionRequest, Completion, transferred, failed, new_request, set_continuation,
  completion_result, complete,
}

-- The constructor of `UringContext`: `init_error` is what `io_uring_queue_init` fails with.
unfoldable pub new_context : ℕ → Option ℕ → Result (Unit {0})
new_context queue_depth init_error = do
  throw_if (queue_depth == 0) invalid_argument
  elim init_error [ none ↦ ok tt | some e ↦ throw (system_error e) ]

-- `fd`: `none` for a negative number. `buffer`: `none` for a null pointer.
pub record ReadAwaiter : Type 0 where
  pub fd : ℕ
  pub buffer : Option ℕ
  pub byte_count : ℕ
  pub offset : ℕ
  pub request : CompletionRequest
  pub immediate_result : Option Completion

abbrev pub is_null : Option ℕ → Bool
is_null none = true
is_null (some p) = false

unfoldable pub new_awaiter : Option ℕ → Option ℕ → ℕ → ℕ → Result ReadAwaiter
unfolding new_request
new_awaiter none buffer byte_count offset = throw invalid_argument
new_awaiter (some fd) buffer byte_count offset = do
  throw_if (is_null buffer && not (byte_count == 0)) invalid_argument
  throw_if (ltb (2 ^ 32 - 1) byte_count) length_error
  ok (record {
    fd = fd;
    buffer = buffer;
    byte_count = byte_count;
    offset = offset;
    request = new_request;
    immediate_result = none;
  })

-- What `io_uring_submit` gives: a number of entries, or an error number.
pub data Submitted : Type 0 where
  entries submit_failed : ℕ → Submitted

-- What the ring answers: no free submission entry, or what the submission gives.
pub data RingAnswer : Type 0 where
  no_entry : RingAnswer
  submits : Submitted → RingAnswer

abbrev pub finishes_with : ReadAwaiter → Completion → Result (Bool × ReadAwaiter)
finishes_with a result = ok (false, record a { immediate_result = some result })

-- `await_suspend`: whether the coroutine stays suspended, and the awaiter afterwards.
unfoldable pub await_suspend : ReadAwaiter → RingAnswer → Option ℕ → Result (Bool × ReadAwaiter)
unfolding set_continuation
await_suspend a no_entry continuation = finishes_with a (failed eagain)
await_suspend a (submits (submit_failed e)) continuation = finishes_with a (failed e)
await_suspend a (submits (entries n)) continuation =
    if n == 1
    then (do
      request ← set_continuation a.request continuation
      ok (true, record a { request = request }))
    else finishes_with a (failed eio)

unfoldable pub count_of : Completion → Result ℕ
count_of (transferred n) = ok n
count_of (failed e) = throw (system_error e)

unfoldable pub await_resume : ReadAwaiter → Result ℕ
unfolding count_of completion_result
await_resume a = elim a.immediate_result [
  | some result ↦ count_of result
  | none ↦ completion_result a.request >>= count_of
]

-- What `io_uring_wait_cqe` gives: an error number, or an entry.
pub data Waited : Type 0 where
  wait_failed : ℕ → Waited
  entry : Option ℕ → Completion → Waited

-- The loop of `wait_one`: the request to complete and its result. `none` if the answers end while
-- the call is still being interrupted.
unfoldable pub wait_one : List Waited → Option (Result (ℕ × Completion) × List Waited)
wait_one [] = none
wait_one (wait_failed e ∷ answers) =
    let again = wait_one answers in
    if e == eintr then again else some (throw (system_error e), answers)
wait_one (entry none result ∷ answers) = some (throw runtime_error, answers)
wait_one (entry (some request) result ∷ answers) = some (ok (request, result), answers)
