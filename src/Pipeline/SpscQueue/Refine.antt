-- ===== src/Pipeline/SpscQueue/Refine.antt =====
-- A queue behaves as the channel that it represents, call by call.
use io_uring_async_load_proc.Prelude.{
  ℕ, ◌≤◌, ◌<◌, ◌≡◌, refl, true, false, none, some, List, [], ◌∷◌, arith, length, get_elem?, dec_lt,
  lt→ltb, le→not-ltb, ◌≢◌,
}
use io_uring_async_load_proc.Exception.{Exception}
use io_uring_async_load_proc.Pipeline.Channel.{Channel, Status, send, receive, finish}
use io_uring_async_load_proc.Exception.{Outcome, blocks, returns, throws}
use io_uring_async_load_proc.Pipeline.SpscQueue.{
  SpscQueue, State, push, store, enqueue, pop, take_head, dequeue, drain, close,
}
use io_uring_async_load_proc.Pipeline.SpscQueue.View.{
  Represents, SameStatus, is_opened, is_closed, is_failed, tail_slot, head_slot, store-Represents,
  take_head-Represents,
}

module _ {ℓ} {A : Type ℓ} where
  abbrev pub Agrees {κ} :
      {B : Type κ} → Outcome B × SpscQueue A → Outcome B × Channel A → Type (ℓ ⊔ κ)
  Agrees (o, q) (o', c) = (o ≡ o') × Represents q c

  push-closed : (q : SpscQueue A) (v : A) → q.state ≡ State.closed → push q v ≡ (returns false, q)
  unfolding push
  push-closed q v e = ground arith

  push-failed :
      (q : SpscQueue A) (v : A) (e : Exception)
      → q.state ≡ State.failed
      → q.failure ≡ some e
      → push q v ≡ (throws e, q)
  unfolding push
  push-failed q v e s f = ground arith

  push-full :
      (q : SpscQueue A) (v : A)
      → q.state ≡ State.opened
      → length q.slots ≤ q.size
      → push q v ≡ (blocks, q)
  unfolding push
  push-full q v e h = ground arith

  push-room :
      (q : SpscQueue A) (v : A)
      → q.state ≡ State.opened
      → q.size < length q.slots
      → get_elem? q.slots q.tail ≡ some none
      → push q v ≡ (returns true, store q v)
  unfolding push enqueue
  push-room q v e h s = ground arith

  pop-failed :
      (q : SpscQueue A) (e : Exception)
      → q.state ≡ State.failed
      → q.failure ≡ some e
      → pop q ≡ (throws e, q)
  unfolding pop
  pop-failed q e s f = ground arith

  pop-waits : (q : SpscQueue A) → q.state ≡ State.opened → q.size ≡ 0 → pop q ≡ (blocks, q)
  unfolding pop
  pop-waits q e h = ground arith

  pop-drained : (q : SpscQueue A) → q.state ≡ State.closed → q.size ≡ 0 → pop q ≡ (returns none, q)
  unfolding pop drain
  pop-drained q e h = ground arith

  pop-item :
      (q : SpscQueue A) (x : A)
      → q.state ≢ State.failed
      → 0 < q.size
      → get_elem? q.slots q.head ≡ some (some x)
      → pop q ≡ (returns (some x), take_head q)
  unfolding pop dequeue
  pop-item q x e h s = ground arith

  close-opened :
      (q : SpscQueue A) → q.state ≡ State.opened → close q ≡ record q { state = State.closed }
  unfolding close
  close-opened q e = ground arith

  close-other : (q : SpscQueue A) → q.state ≢ State.opened → close q ≡ q
  unfolding close
  close-other q e = ground arith

  push_status :
      {q : SpscQueue A} (items : List A) (limit : ℕ) (s : Status) (v : A)
      → Represents q (record { items = items; status = s; limit = limit })
      → Agrees (push q v) (send (record { items = items; status = s; limit = limit }) v)
  unfolding send
  push_status {q} items limit Status.opened v r = elim (dec_lt q.size (length q.slots)) [
    | yes h ↦
        rw
          (
            push-room q v (is_opened r.same_status) h (tail_slot r h),
            lt→ltb (length items) limit (omega (arith, r.same_size, r.same_limit)),
          )
          (refl, store-Represents r v h)
    | no h ↦
        rw
          (
            push-full q v (is_opened r.same_status) (omega arith),
            le→not-ltb (length items) limit (omega (arith, r.same_size, r.same_limit)),
          )
          (refl, r)
  ]
  push_status {q} items limit Status.closed v r =
      rw (push-closed q v (is_closed r.same_status)) (refl, r)
  push_status {q} items limit (Status.failed e) v r =
      rw (push-failed q v e (is_failed e r.same_status).0 (is_failed e r.same_status).1) (refl, r)

  -- `push` waits, returns and rethrows as `send` does on the channel that the queue represents, no
  -- assertion fails, and the queue represents the new channel: its gauge reads the new depth.
  pub push_refines :
      {q : SpscQueue A} {c : Channel A} (v : A) → Represents q c → Agrees (push q v) (send c v)
  push_refines {q} {c} v r = push_status c.items c.limit c.status v r

  pop_item_refines :
      {q : SpscQueue A} (x : A) (xs : List A) (limit : ℕ) (s : Status)
      → Represents q (record { items = x ∷ xs; status = s; limit = limit })
      → q.state ≢ State.failed
      → Agrees (pop q) (returns (some x), record { items = xs; status = s; limit = limit })
  pop_item_refines {q} x xs limit s r ne =
      rw (pop-item q x ne (omega (arith, r.same_size)) (head_slot x xs r refl).0)
        (refl, take_head-Represents r x xs refl)

  pop_status :
      {q : SpscQueue A} (items : List A) (limit : ℕ) (s : Status)
      → Represents q (record { items = items; status = s; limit = limit })
      → Agrees (pop q) (receive (record { items = items; status = s; limit = limit }))
  unfolding receive
  pop_status {q} [] limit Status.opened r =
      rw (pop-waits q (is_opened r.same_status) r.same_size) (refl, r)
  pop_status {q} [] limit Status.closed r =
      rw (pop-drained q (is_closed r.same_status) r.same_size) (refl, r)
  pop_status {q} [] limit (Status.failed e) r =
      rw (pop-failed q e (is_failed e r.same_status).0 (is_failed e r.same_status).1) (refl, r)
  pop_status {q} (x ∷ xs) limit Status.opened r =
      pop_item_refines x xs limit Status.opened r (λ e. cc (is_opened r.same_status))
  pop_status {q} (x ∷ xs) limit Status.closed r =
      pop_item_refines x xs limit Status.closed r (λ e. cc (is_closed r.same_status))
  pop_status {q} (x ∷ xs) limit (Status.failed e) r =
      rw (pop-failed q e (is_failed e r.same_status).0 (is_failed e r.same_status).1) (refl, r)

  -- `pop` waits, returns and rethrows as `receive` does on the channel that the queue represents, no
  -- assertion fails, and the queue represents what is left of the channel.
  pub pop_refines : {q : SpscQueue A} {c : Channel A} → Represents q c → Agrees (pop q) (receive c)
  pop_refines {q} {c} r = pop_status c.items c.limit c.status r

  close_status :
      {q : SpscQueue A} (items : List A) (limit : ℕ) (s : Status)
      → Represents q (record { items = items; status = s; limit = limit })
      → Represents (close q) (finish (record { items = items; status = s; limit = limit }))
  unfolding finish
  close_status {q} items limit Status.opened r =
      rw (close-opened q (is_opened r.same_status)) (record {
        capacity_pos = r.capacity_pos;
        capacity_small = r.capacity_small;
        head_in = r.head_in;
        size_in = r.size_in;
        tail_at = r.tail_at;
        occupied = r.occupied;
        vacant = r.vacant;
        same_size = r.same_size;
        same_limit = r.same_limit;
        same_status = SameStatus.closed refl;
        observed = r.observed;
      })
  close_status {q} items limit Status.closed r =
      rw (close-other q (λ e. cc (is_closed r.same_status))) r
  close_status {q} items limit (Status.failed e) r =
      rw (close-other q (λ p. cc (is_failed e r.same_status).0)) r

  pub close_refines :
      {q : SpscQueue A} {c : Channel A} → Represents q c → Represents (close q) (finish c)
  close_refines {q} {c} r = close_status c.items c.limit c.status r
