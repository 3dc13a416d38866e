-- ===== src/Coroutine/Tests.antt =====
-- Runs of the code of include/coroutine and src/coroutine on concrete inputs, and instances of the
-- theorems about it.
use io_uring_async_load_proc.Prelude.{
  ℕ, ◌≡◌, ◌≤◌, ◌⊎◌, refl, true, false, none, some, List, [], ◌∷◌, length, arith,
}
use io_uring_async_load_proc.Exception
use io_uring_async_load_proc.Exception.{ok, throw, Result, logic_error, runtime_error, system_error}
use io_uring_async_load_proc.Coroutine.CompletionRequest.{
  CompletionRequest, Completion, transferred, failed, completion_result, complete,
}
use io_uring_async_load_proc.Coroutine.CompletionRequest.Once
use io_uring_async_load_proc.Coroutine.CompletionRequest.Once.{
  Call, sets, completes, run-resumes_once,
}
use io_uring_async_load_proc.Coroutine.Task.{Task, new_task, start}
use io_uring_async_load_proc.Coroutine.Task.Result.{resume_times, Runs, start-Runs}
use io_uring_async_load_proc.Coroutine.Uring.{
  ReadAwaiter, submits, entries, new_awaiter, await_suspend, await_resume, count_of,
}
use io_uring_async_load_proc.Coroutine.Uring.Await.{refusal, await-completes}

-- A handle is attached, another one is refused, and the second completion is refused.
abbrev calls : List Call
calls =
    completes (transferred 1)
    ∷ sets (some 7)
    ∷ sets (some 8)
    ∷ completes (transferred 4)
    ∷ completes (failed 5)
    ∷ []

run-resumes_once_example :
    let h = Once.run (λ handle. false) Once.start calls in
    ((h.resumed ≡ []) × (completion_result h.request ≡ throw logic_error) × (length h.attached ≤ 1))
    ⊎ ((c : ℕ) × (result : Completion) × (h.attached ≡ c ∷ [])
        × (h.resumed ≡ (c, result) ∷ [])
        × (completion_result h.request ≡ ok result))
run-resumes_once_example = run-resumes_once (λ handle. false) calls

start-Runs_example :
    (t₀ : Task ℕ) × (t : Task ℕ) × (start (new_task 2 (ok 9)) ≡ Exception.Outcome.returns t₀)
    × (resume_times 2 t₀ ≡ some t)
    × Runs 2 2 (ok 9) t
start-Runs_example = start-Runs 2 2 (ok 9) (omega arith)

abbrev awaiter : ReadAwaiter
awaiter = record {
  fd = 3;
  buffer = some 4096;
  byte_count = 512;
  offset = 0;
  request = record { continuation = none; result = transferred 0; completed = false };
  immediate_result = none;
}

awaiter_made : new_awaiter (some 3) (some 4096) 512 0 ≡ ok awaiter
unfolding new_awaiter
awaiter_made = refl

await-completes_example :
    ((e : ℕ) × (a' : ReadAwaiter) × (refusal (submits (entries 1)) ≡ some e)
      × (await_suspend awaiter (submits (entries 1)) (some 7) ≡ ok (false, a'))
      × (await_resume a' ≡ throw (system_error e)))
    ⊎ ((a' : ReadAwaiter) × (done : CompletionRequest) × (refusal (submits (entries 1)) ≡ none)
        × (await_suspend awaiter (submits (entries 1)) (some 7) ≡ ok (true, a'))
        × (complete (λ handle. false) a'.request (transferred 512) ≡ ok (done, 7))
        × (await_resume (record a' { request = done }) ≡ count_of (transferred 512)))
await-completes_example =
    await-completes (some 3) (some 4096) 512 0 7 awaiter (submits (entries 1)) (transferred 512)
      awaiter_made
