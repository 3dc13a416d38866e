-- ===== src/Coroutine/CompletionRequest.antt =====
-- include/coroutine/completion_request.h: a read that is under way and the coroutine that waits for
-- it. A coroutine handle is a number, and what `done()` says of a handle is given.
pub mod Once
use io_uring_async_load_proc.Prelude.{
  ℕ, zero, suc, Bool, true, false, not, Option, none, some, List, [], ◌∷◌, if◌then◌else◌,
}
use io_uring_async_load_proc.Exception.{
  Result, ok, throw, throw_if, ◌>>=◌, ◌>>◌, Exception, logic_error,
}

-- A result is a count, or the error number of a failed read, which the code stores negated.
pub data Completion : Type 0 where
  transferred failed : ℕ → Completion

pub record CompletionRequest : Type 0 where
  pub continuation : Option ℕ
  pub result : Completion
  pub completed : Bool

unfoldable pub new_request : CompletionRequest
new_request = record { continuation = none; result = transferred 0; completed = false }

unfoldable pub has_continuation : CompletionRequest → Bool
has_continuation r = elim r.continuation [ none ↦ false | some handle ↦ true ]

-- An empty handle is `none`.
unfoldable pub set_continuation : CompletionRequest → Option ℕ → Result CompletionRequest
unfolding has_continuation
set_continuation r none = throw logic_error
set_continuation r (some continuation) = do
  throw_if r.completed logic_error
  throw_if (has_continuation r) logic_error
  ok (record r { continuation = some continuation })

unfoldable pub completion_result : CompletionRequest → Result Completion
completion_result r = if r.completed then ok r.result else throw logic_error

-- The request afterwards, and the handle that is resumed last.
unfoldable pub complete :
    (ℕ → Bool) → CompletionRequest → Completion → Result (CompletionRequest × ℕ)
complete done r result = if r.completed then throw logic_error else (elim r.continuation [
  | none ↦ throw logic_error
  | some continuation ↦
      if done continuation
      then throw logic_error
      else ok (record { continuation = none; result = result; completed = true }, continuation)
])
