-- ===== src/Coroutine/Task.antt =====
-- include/coroutine/task.h: a coroutine that starts suspended and leaves a value or an exception. A
-- frame is what a handle refers to; a task has its handle to itself, so the frame stands in the
-- task. What the coroutine's body does is given: the number of times that it still suspends, and
-- how it ends.
pub mod Result
use io_uring_async_load_proc.Prelude.{
  ℕ, zero, suc, Bool, true, false, not, Option, none, some, if◌then◌else◌,
}
use io_uring_async_load_proc.Exception
use io_uring_async_load_proc.Exception.{ok, throw, Exception, logic_error}

-- Where a frame is: suspended in the body, or at the final suspension.
pub data Progress (T : Type 0) : Type 0 where
  suspended : ℕ → Exception.Result T → Progress T
  finished : Progress T

pub record Frame (T : Type 0) : Type 0 where
  pub progress : Progress T
  pub value : Option T
  pub exception : Option Exception

pub record Task (T : Type 0) : Type 0 where
  pub handle : Option (Frame T)
  pub started : Bool

module _ {T : Type 0} where
  -- `get_return_object` and `initial_suspend`.
  unfoldable pub new_task : ℕ → Exception.Result T → Task T
  new_task suspensions outcome = record {
    handle =
        some (record { progress = suspended suspensions outcome; value = none; exception = none });
    started = false;
  }

  -- `return_value` and `unhandled_exception`, and the final suspension.
  unfoldable pub finish : Frame T → Exception.Result T → Frame T
  finish f (ok v) = record f { progress = finished; value = some v }
  finish f (throw e) = record f { progress = finished; exception = some e }

  -- `handle.resume()` runs the body up to its next suspension. It must not be called at the end.
  unfoldable pub resume : Frame T → Option (Frame T)
  unfolding finish
  resume f = elim f.progress [
    | suspended zero outcome ↦ some (finish f outcome)
    | suspended (suc n) outcome ↦ some (record f { progress = suspended n outcome })
    | finished ↦ none
  ]

  unfoldable pub valid : Task T → Bool
  valid t = elim t.handle [ none ↦ false | some f ↦ true ]

  unfoldable pub frame_done : Frame T → Bool
  frame_done f = elim f.progress [ suspended n outcome ↦ false | finished ↦ true ]

  unfoldable pub done : Task T → Bool
  unfolding frame_done
  done t = elim t.handle [ none ↦ false | some f ↦ frame_done f ]

  -- `Task::start`; `faults` where the handle may not be resumed.
  unfoldable pub start : Task T → Exception.Outcome (Task T)
  unfolding resume
  start t = elim t.handle [
    | none ↦ Exception.Outcome.throws logic_error
    | some f ↦
        let resumed = resume f in
        if t.started then Exception.Outcome.throws logic_error else (elim resumed [
          | none ↦ Exception.Outcome.faults
          | some f' ↦ Exception.Outcome.returns (record { handle = some f'; started = true })
        ])
  ]

  -- A completion that resumes the coroutine of a task.
  unfoldable pub resume_task : Task T → Option (Task T)
  unfolding resume
  resume_task t = elim t.handle [
    | none ↦ none
    | some f ↦ elim (resume f) [ none ↦ none | some f' ↦ some (record t { handle = some f' }) ]
  ]

  -- `Task::result`: what it gives or throws, and the task afterwards.
  unfoldable pub result : Task T → Exception.Result T × Task T
  unfolding frame_done
  result t = elim t.handle [
    | none ↦ (throw logic_error, t)
    | some f ↦
        if not t.started
        then (throw logic_error, t)
        else if not (frame_done f)
        then (throw logic_error, t)
        else (elim f.exception [
          | some e ↦ (throw e, t)
          | none ↦ elim f.value [
            | none ↦ (throw logic_error, t)
            | some v ↦ (ok v, record t { handle = some (record f { value = none }) })
          ]
        ])
  ]

  -- The move constructor: the new task and what is left of the other one.
  unfoldable pub move_construct : Task T → Task T × Task T
  move_construct other = (other, record { handle = none; started = false })

  -- Move assignment between two tasks: the frame that the one assigned to held is destroyed, and is
  -- the third part of the result.
  unfoldable pub move_assign : Task T → Task T → Task T × Task T × Option (Frame T)
  move_assign this other = (other, record { handle = none; started = false }, this.handle)
