-- ===== src/Coroutine/Task/Result.antt =====
-- What a task of include/coroutine/task.h gives, from its start to its result.
use io_uring_async_load_proc.Prelude.{
  ℕ, zero, suc, ◌≡◌, refl, true, false, Option, none, some, ◌<◌, ◌≤◌, ◌-◌, subst, dec_lt, arith,
}
use io_uring_async_load_proc.Exception
use io_uring_async_load_proc.Exception.{ok, throw, Exception, logic_error}
use io_uring_async_load_proc.Coroutine.Task.{
  Task, new_task, start, resume_task, result, finish, frame_done, resume, done, suspended, finished,
}

module _ {T : Type 0} where
  -- Resumes a task a number of times.
  unfoldable pub resume_times : ℕ → Task T → Option (Task T)
  resume_times zero t = some t
  resume_times (suc n) t = elim (resume_task t) [ none ↦ none | some t' ↦ resume_times n t' ]

  abbrev waiting : ℕ → Exception.Result T → Task T
  waiting n outcome = record {
    handle = some (record { progress = suspended n outcome; value = none; exception = none });
    started = true;
  }

  abbrev ended : Exception.Result T → Task T
  unfolding finish
  ended outcome = record {
    handle = some (finish (record { progress = finished; value = none; exception = none }) outcome);
    started = true;
  }

  -- What `result` does to a task whose body ended: the value once, an exception every time.
  abbrev pub Gives : Exception.Result T → Task T → Type 0
  Gives (ok v) t =
      let (first, t') = result t in (first ≡ ok v) × (result t' ≡ (throw logic_error, t'))
  Gives (throw e) t = result t ≡ (throw e, t)

  ended-Gives : (outcome : Exception.Result T) → Gives outcome (ended outcome)
  unfolding result finish frame_done
  ended-Gives (ok v) = (refl, refl)
  ended-Gives (throw e) = refl

  resume_times-waiting :
      (m k : ℕ) (outcome : Exception.Result T)
      → k ≤ m
      → resume_times k (waiting m outcome) ≡ some (waiting (m - k) outcome)
  unfolding resume_times resume_task resume
  resume_times-waiting m zero outcome h = let all : m - 0 ≡ m = omega arith in rw all refl
  resume_times-waiting zero (suc k) outcome h = absurd (omega arith)
  resume_times-waiting (suc m) (suc k) outcome h =
      let less : suc m - suc k ≡ m - k = omega arith in
      rw less (resume_times-waiting m k outcome (omega arith))

  resume_times-ended :
      (m : ℕ) (outcome : Exception.Result T)
      → resume_times (suc m) (waiting m outcome) ≡ some (ended outcome)
  unfolding resume_times resume_task resume
  resume_times-ended zero outcome = refl
  resume_times-ended (suc m) outcome = resume_times-ended m outcome

  -- A task that was started cannot be started again. While its body still suspends, it is not done
  -- and has no result; at the end of the body it is done, and gives the outcome.
  pub record Runs (n k : ℕ) (outcome : Exception.Result T) (t : Task T) : Type 0 where
    pub once : start t ≡ Exception.Outcome.throws logic_error
    pub early : k < n → (done t ≡ false) × (result t ≡ (throw logic_error, t))
    pub late : k ≡ n → (done t ≡ true) × (resume_task t ≡ none) × Gives outcome t

  waiting-Runs :
      (n k m : ℕ) (outcome : Exception.Result T) → k < n → Runs n k outcome (waiting m outcome)
  unfolding start done result frame_done
  waiting-Runs n k m outcome h = record {
    once = refl;
    early = λ _. (refl, refl);
    late = λ e. absurd (omega arith);
  }

  ended-Runs : (n : ℕ) (outcome : Exception.Result T) → Runs n n outcome (ended outcome)
  unfolding start done frame_done finish resume_task resume
  ended-Runs n (ok v) = record {
    once = refl;
    early = λ h. absurd (omega arith);
    late = λ _. (refl, refl, ended-Gives (ok v));
  }
  ended-Runs n (throw e) = record {
    once = refl;
    early = λ h. absurd (omega arith);
    late = λ _. (refl, refl, ended-Gives (throw e));
  }

  -- A task whose body suspends `n` times and then ends with `outcome` can be started. After `k`
  -- completions, at most `n`, it runs as it should: it is done exactly when `k` is `n`, has no
  -- result before, and then gives the body's value once, or throws the body's exception every time.
  pub start-Runs :
      (n k : ℕ) (outcome : Exception.Result T)
      → k ≤ n
      → (t₀ : Task T) × (t : Task T) × (start (new_task n outcome) ≡ Exception.Outcome.returns t₀)
        × (resume_times k t₀ ≡ some t)
        × Runs n k outcome t
  unfolding start new_task resume resume_times finish
  start-Runs zero zero (ok v) h = (ended (ok v), ended (ok v), refl, refl, ended-Runs zero (ok v))
  start-Runs zero zero (throw e) h =
      (ended (throw e), ended (throw e), refl, refl, ended-Runs zero (throw e))
  start-Runs zero (suc k) outcome h = absurd (omega arith)
  start-Runs (suc m) k outcome h = elim (dec_lt k (suc m)) [
    | yes early ↦ (
      waiting m outcome,
      waiting (m - k) outcome,
      refl,
      resume_times-waiting m k outcome (omega arith),
      waiting-Runs (suc m) k (m - k) outcome early,
    )
    | no late ↦
        let at_end : suc m ≡ k = omega arith in
        (
          waiting m outcome,
          ended outcome,
          refl,
          subst (λ k. resume_times k (waiting m outcome) ≡ some (ended outcome)) at_end
              (resume_times-ended m outcome),
          subst (λ k. Runs (suc m) k outcome (ended outcome)) at_end (ended-Runs (suc m) outcome),
        )
  ]
