-- ===== src/Coroutine/CompletionRequest/Once.antt =====
-- A request of include/coroutine/completion_request.h resumes its coroutine at most once.
use io_uring_async_load_proc.Prelude.{
  ℕ, ◌≡◌, refl, Bool, true, Option, none, some, List, [], ◌∷◌, ◌⊎◌, inl, inr, Bool-cases, arith,
  subst, ◌≤◌, length,
}
use io_uring_async_load_proc.Exception.{ok, throw, logic_error}
use io_uring_async_load_proc.Coroutine.CompletionRequest.{
  CompletionRequest, Completion, new_request, set_continuation, complete, completion_result,
  has_continuation,
}

-- A call that its users may make, in any order.
pub data Call : Type 0 where
  sets : Option ℕ → Call
  completes : Completion → Call

-- What a run of calls has left: the request, the handles that were attached, the completions that
-- resumed a handle, with the latest first.
pub record History : Type 0 where
  pub request : CompletionRequest
  pub attached : List ℕ
  pub resumed : List (ℕ × Completion)

abbrev pub start : History
unfolding new_request
start = record { request = new_request; attached = []; resumed = [] }

-- A call that throws leaves the request as it was.
unfoldable pub step : (ℕ → Bool) → History → Call → History
unfolding set_continuation complete
step done h (sets none) = h
step done h (sets (some c)) = elim (set_continuation h.request (some c)) [
  | ok r ↦ record h { request = r; attached = c ∷ h.attached }
  | throw e ↦ h
]
step done h (completes result) = elim (complete done h.request result) [
  | ok (r, handle) ↦ record h { request = r; resumed = (handle, result) ∷ h.resumed }
  | throw e ↦ h
]

unfoldable pub run : (ℕ → Bool) → History → List Call → History
unfolding step
run done h [] = h
run done h (c ∷ calls) = run done (step done h c) calls

-- The three ages of a request.
pub data Age : History → Type 0 where
  fresh : Age start
  armed :
      (c : ℕ)
      → Age (record {
        request = record new_request { continuation = some c };
        attached = c ∷ [];
        resumed = [];
      })
  resumed :
      (c : ℕ) (result : Completion)
      → Age (record {
        request = record { continuation = none; result = result; completed = true };
        attached = c ∷ [];
        resumed = (c, result) ∷ [];
      })

step-Age : (done : ℕ → Bool) (h : History) (c : Call) → Age h → Age (step done h c)
unfolding step set_continuation complete new_request has_continuation
step-Age done h (sets none) a = a
step-Age done _ (sets (some c)) fresh = armed c
step-Age done _ (sets (some c)) (armed d) = armed d
step-Age done _ (sets (some c)) (resumed d result) = resumed d result
step-Age done _ (completes result) fresh = fresh
step-Age done _ (completes result) (armed d) = elim (Bool-cases (done d)) [
  | inl finished ↦ subst Age (ground arith) (armed d)
  | inr suspended ↦ subst Age (ground arith) (resumed d result)
]
step-Age done _ (completes result) (resumed d result') = resumed d result'

run-Age : (done : ℕ → Bool) (h : History) (calls : List Call) → Age h → Age (run done h calls)
unfolding run
run-Age done h [] a = a
run-Age done h (c ∷ calls) a = run-Age done (step done h c) calls (step-Age done h c a)

-- Whatever calls are made of a new request, in any order, and whatever coroutines have finished: at
-- most one handle was attached and at most one resumed, and that is the one that was attached. The
-- result can be read exactly after it was resumed, and is the one that it was resumed with.
pub run-resumes_once :
    (done : ℕ → Bool) (calls : List Call)
    → let h = run done start calls in
      ((h.resumed ≡ [])
        × (completion_result h.request ≡ throw logic_error)
        × (length h.attached ≤ 1))
      ⊎ ((c : ℕ) × (result : Completion) × (h.attached ≡ c ∷ [])
          × (h.resumed ≡ (c, result) ∷ [])
          × (completion_result h.request ≡ ok result))
unfolding completion_result new_request
run-resumes_once done calls = of_age (run done start calls) (run-Age done start calls fresh)
  where
    of_age :
        (h : History)
        → Age h
        → ((h.resumed ≡ [])
            × (completion_result h.request ≡ throw logic_error)
            × (length h.attached ≤ 1))
          ⊎ ((c : ℕ) × (result : Completion) × (h.attached ≡ c ∷ [])
              × (h.resumed ≡ (c, result) ∷ [])
              × (completion_result h.request ≡ ok result))
    of_age _ fresh = inl (refl, refl, omega arith)
    of_age _ (armed c) = inl (refl, refl, omega arith)
    of_age _ (resumed c result) = inr (c, result, refl, refl, refl)
