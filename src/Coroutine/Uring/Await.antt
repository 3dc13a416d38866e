-- ===== src/Coroutine/Uring/Await.antt =====
-- A read through src/coroutine/uring_read_awaiter.cpp, from its awaiter to its result.
use io_uring_async_load_proc.Prelude.{
  ℕ, suc, zero, ◌≡◌, ◌⊎◌, inl, inr, refl, true, false, Option, none, some, List, ◌++◌, ◌^◌, ◌-◌,
  if◌then◌else◌, ◌==◌, replicate, ℕ_discrete, arith, ltb, ◌&&◌, not,
}
use io_uring_async_load_proc.Exception.{
  ok, throw, system_error, invalid_argument, length_error, throw_if, >>=-eq-ok,
}
use io_uring_async_load_proc.Util.Errno.{eintr, eio, eagain}
use io_uring_async_load_proc.Coroutine.CompletionRequest.{
  CompletionRequest, Completion, new_request, set_continuation, completion_result, complete,
  has_continuation,
}
use io_uring_async_load_proc.Coroutine.Uring.{
  is_null, ReadAwaiter, RingAnswer, no_entry, submits, entries, submit_failed, wait_failed, Waited,
  new_awaiter, await_suspend, await_resume, count_of, wait_one,
}

-- The error of a read that the ring did not take.
abbrev pub refusal : RingAnswer → Option ℕ
refusal no_entry = some eagain
refusal (submits (submit_failed e)) = some e
refusal (submits (entries n)) = if n == 1 then none else some eio

fresh-awaiter :
    (fd buffer : Option ℕ) (byte_count offset : ℕ) (a : ReadAwaiter)
    → new_awaiter fd buffer byte_count offset ≡ ok a
    → (a.request ≡ new_request) × (a.immediate_result ≡ none)
unfolding new_awaiter
fresh-awaiter none buffer byte_count offset a made = ground arith
fresh-awaiter (some fd) buffer byte_count offset a made =
    let (_, _, sized) =
      >>=-eq-ok (throw_if (is_null buffer && not (byte_count == 0)) invalid_argument) _ made in
    let (_, _, last) = >>=-eq-ok (throw_if (ltb (2 ^ 32 - 1) byte_count) length_error) _ sized in
    ground (arith, last)

-- A read that was accepted by the awaiter's constructor either is refused by the ring, and then
-- goes on at once and throws the refusal's error number, or stays suspended with its continuation
-- in the request, and when the request is completed goes on at that continuation, with the count
-- that was transferred or the error number of the completion.
pub await-completes :
    (fd buffer : Option ℕ) (byte_count offset continuation : ℕ) (a : ReadAwaiter)
    (answer : RingAnswer) (result : Completion)
    → new_awaiter fd buffer byte_count offset ≡ ok a
    → ((e : ℕ) × (a' : ReadAwaiter) × (refusal answer ≡ some e)
        × (await_suspend a answer (some continuation) ≡ ok (false, a'))
        × (await_resume a' ≡ throw (system_error e)))
      ⊎ ((a' : ReadAwaiter) × (done : CompletionRequest) × (refusal answer ≡ none)
          × (await_suspend a answer (some continuation) ≡ ok (true, a'))
          × (complete (λ handle. false) a'.request result ≡ ok (done, continuation))
          × (await_resume (record a' { request = done }) ≡ count_of result))
unfolding await_suspend await_resume count_of set_continuation complete completion_result
    has_continuation new_request
await-completes fd buffer byte_count offset continuation a no_entry result made =
    inl (eagain, _, refl, refl, refl)
await-completes fd buffer byte_count offset continuation a (submits (submit_failed e)) result made =
    inl (e, _, refl, refl, refl)
await-completes fd buffer byte_count offset continuation a (submits (entries n)) result made =
    let (fresh, pending) = fresh-awaiter fd buffer byte_count offset a made in
    elim (ℕ_discrete n 1) [
      | no other ↦ inl (
        eio,
        record a { immediate_result = some (Completion.failed eio) },
        ground arith,
        ground arith,
        refl,
      )
      | yes taken ↦ inr (
        record a { request = record (a.request) { continuation = some continuation } },
        record { continuation = none; result = result; completed = true },
        ground arith,
        ground (arith, fresh),
        ground (arith, fresh),
        ground (arith, pending),
      )
    ]

-- `wait_one` that is interrupted `n` times does what it does on the answer that follows.
pub wait_one-retries :
    (n : ℕ) (answers : List Waited)
    → wait_one (replicate n (wait_failed eintr) ++ answers) ≡ wait_one answers
unfolding wait_one
wait_one-retries zero answers = refl
wait_one-retries (suc n) answers = wait_one-retries n answers
