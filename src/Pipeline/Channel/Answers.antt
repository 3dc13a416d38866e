-- ===== src/Pipeline/Channel/Answers.antt =====
-- What a channel of src/pipeline/pipeline_executor.cpp answers to a call, by its state.
use io_uring_async_load_proc.Prelude.{
  ◌≤◌, ◌<◌, ◌≡◌, ◌≢◌, refl, sym, subst, inl, inr, Bool, true, false, Option, none, some, List, [],
  ◌∷◌, ◌++◌, length, ltb, arith, Bool-cases,
}
use io_uring_async_load_proc.Exception.{Exception, Outcome, blocks, returns, throws}
use io_uring_async_load_proc.Pipeline.Channel.{Channel, Status, send, receive, take_first}

module _ {ℓ} {A : Type ℓ} where
  -- A channel with room.
  abbrev pub HasRoom : Channel A → Type 0
  HasRoom q = (q.status ≡ Status.opened) × (length q.items < q.limit)

  -- Channels on which a `push` and a `pop` wait.
  abbrev pub IsFull : Channel A → Type 0
  IsFull q = (q.status ≡ Status.opened) × (q.limit ≤ length q.items)

  abbrev pub IsIdle : Channel A → Type ℓ
  IsIdle q = (q.status ≡ Status.opened) × (q.items ≡ [])

  abbrev pub added : Channel A → A → Channel A
  added q item = record q { items = q.items ++ (item ∷ []) }

  -- What a queue answers to `push`, with the queue afterwards.
  pub data Sends (q : Channel A) (item : A) : Outcome Bool × Channel A → Type ℓ where
    room : HasRoom q → Sends q item (returns true, added q item)
    full : IsFull q → Sends q item (blocks, q)
    shut : q.status ≢ Status.opened → Sends q item (returns false, q)
    shut_by : (x : Exception) → q.status ≢ Status.opened → Sends q item (throws x, q)

  pub send-Sends : (q : Channel A) (item : A) → Sends q item (send q item)
  unfolding send
  send-Sends q item = of_status q.status refl
    where
      of_status : (t : Status) → q.status ≡ t → Sends q item (send q item)
      of_status Status.opened h = elim (Bool-cases (ltb (length q.items) q.limit)) [
        | inl r ↦
            let sent : send q item ≡ (returns true, added q item) = ground arith in
            subst (Sends q item) (sym sent) (room (h, ground arith))
        | inr r ↦
            let sent : send q item ≡ (blocks, q) = ground arith in
            subst (Sends q item) (sym sent) (full (h, ground arith))
      ]
      of_status Status.closed h =
          let sent : send q item ≡ (returns false, q) = ground arith in
          subst (Sends q item) (sym sent) (shut (λ o. cc))
      of_status (Status.failed x) h =
          let sent : send q item ≡ (throws x, q) = ground arith in
          subst (Sends q item) (sym sent) (shut_by x (λ o. cc))

  pub data Receives (q : Channel A) : Outcome (Option A) × Channel A → Type ℓ where
    first :
        (item : A) (xs : List A)
        → q.items ≡ item ∷ xs
        → Receives q (returns (some item), record q { items = xs })
    empty : IsIdle q → Receives q (blocks, q)
    last : q.items ≡ [] → q.status ≡ Status.closed → Receives q (returns none, q)
    broken : (x : Exception) → q.status ≡ Status.failed x → Receives q (throws x, q)

  pub receive-Receives : (q : Channel A) → Receives q (receive q)
  unfolding receive take_first
  receive-Receives q = of_state q.items q.status refl refl
    where
      of_state : (xs : List A) (t : Status) → q.items ≡ xs → q.status ≡ t → Receives q (receive q)
      of_state [] Status.opened p h =
          let got : receive q ≡ (blocks, q) = ground arith in
          subst (Receives q) (sym got) (empty (h, p))
      of_state [] Status.closed p h =
          let got : receive q ≡ (returns none, q) = ground arith in
          subst (Receives q) (sym got) (last p h)
      of_state [] (Status.failed x) p h =
          let got : receive q ≡ (throws x, q) = ground arith in
          subst (Receives q) (sym got) (broken x h)
      of_state (y ∷ ys) Status.opened p h =
          let got : receive q ≡ (returns (some y), record q { items = ys }) = ground arith in
          subst (Receives q) (sym got) (first y ys p)
      of_state (y ∷ ys) Status.closed p h =
          let got : receive q ≡ (returns (some y), record q { items = ys }) = ground arith in
          subst (Receives q) (sym got) (first y ys p)
      of_state (y ∷ ys) (Status.failed x) p h =
          let got : receive q ≡ (throws x, q) = ground arith in
          subst (Receives q) (sym got) (broken x h)
