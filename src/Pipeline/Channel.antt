-- ===== src/Pipeline/Channel.antt =====
-- What a queue between two workers promises: a bounded FIFO that is open, closed or failed. The
-- outcomes are those of the calls of include/pipeline/spsc_queue.h.
pub mod Fifo
pub mod Answers
use io_uring_async_load_proc.Prelude.{
  ℕ, Bool, true, false, Option, none, some, List, [], ◌∷◌, ◌++◌, ltb, if◌then◌else◌, length,
}
use io_uring_async_load_proc.Exception.{Exception, Outcome, blocks, returns, throws, faults}

pub data Status : Type 0 where
  opened closed : Status
  failed : Exception → Status

pub record Channel {ℓ} (A : Type ℓ) : Type ℓ where
  pub items : List A
  pub status : Status
  pub limit : ℕ

module _ {ℓ} {A : Type ℓ} where
  unfoldable pub send : Channel A → A → Outcome Bool × Channel A
  send c value = elim c.status [
    | opened ↦
        if ltb (length c.items) c.limit
        then (returns true, record c { items = c.items ++ (value ∷ []) })
        else (blocks, c)
    | closed ↦ (returns false, c)
    | failed e ↦ (throws e, c)
  ]

  unfoldable pub take_first : List A → Status → ℕ → Outcome (Option A) × Channel A
  take_first [] opened n = (blocks, record { items = []; status = opened; limit = n })
  take_first [] closed n = (returns none, record { items = []; status = closed; limit = n })
  take_first (x ∷ xs) opened n =
      (returns (some x), record { items = xs; status = opened; limit = n })
  take_first (x ∷ xs) closed n =
      (returns (some x), record { items = xs; status = closed; limit = n })
  take_first xs (failed e) n = (throws e, record { items = xs; status = failed e; limit = n })

  unfoldable pub receive : Channel A → Outcome (Option A) × Channel A
  unfolding take_first
  receive c = take_first c.items c.status c.limit

  unfoldable pub finish : Channel A → Channel A
  finish c = elim c.status [ opened ↦ record c { status = closed } | _ ↦ c ]

  unfoldable pub abort : Channel A → Exception → Channel A
  abort c e = elim c.status [ failed _ ↦ c | _ ↦ record c { items = []; status = failed e } ]
