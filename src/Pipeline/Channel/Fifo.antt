-- ===== src/Pipeline/Channel/Fifo.antt =====
-- A channel under any sequence of calls: what was taken in comes out once and in order.
use io_uring_async_load_proc.Prelude.{
  ℕ, ◌≡◌, refl, ap, ◌∙◌, sym, Bool, true, Option, some, List, [], ◌∷◌, ◌++◌, append-nil,
  append_assoc, arith, length, ltb, Bool-cases, inl, inr,
}
use io_uring_async_load_proc.Exception.{Exception}
use io_uring_async_load_proc.Pipeline.Channel.{
  Channel, Status, send, take_first, receive, finish, abort,
}
use io_uring_async_load_proc.Exception.{Outcome, returns}

pub data Call {ℓ} (A : Type ℓ) : Type ℓ where
  pushes : A → Call A
  pops closes : Call A
  fails : Exception → Call A

pub data Reply {ℓ} (A : Type ℓ) : Type ℓ where
  pushed : A → Outcome Bool → Reply A
  popped : Outcome (Option A) → Reply A
  quiet : Reply A

abbrev pub NotFailed : Status → Type 0
NotFailed (Status.failed e) = ⊥
NotFailed _ = Unit

module _ {ℓ} {A : Type ℓ} where
  unfoldable pub step : Channel A → Call A → Reply A × Channel A
  step c (pushes v) = let (o, c') = send c v in (pushed v o, c')
  step c pops = let (o, c') = receive c in (popped o, c')
  step c closes = (quiet, finish c)
  step c (fails e) = (quiet, abort c e)

  unfoldable pub run : Channel A → List (Call A) → List (Reply A) × Channel A
  run c [] = ([], c)
  run c (call ∷ calls) =
      let (reply, c') = step c call in let (replies, c'') = run c' calls in (reply ∷ replies, c'')

  -- The values that a `push` put in, and those that a `pop` gave out, in order.
  abbrev pub taken_in : Reply A → List A
  taken_in (pushed v (returns true)) = v ∷ []
  taken_in _ = []

  abbrev pub given_out : Reply A → List A
  given_out (popped (returns (some v))) = v ∷ []
  given_out _ = []

  abbrev pub sent : List (Reply A) → List A
  sent [] = []
  sent (r ∷ rs) = taken_in r ++ sent rs

  abbrev pub received : List (Reply A) → List A
  received [] = []
  received (r ∷ rs) = given_out r ++ received rs

  -- Before failure, each call keeps the balance of what went in and what came out.
  step-balance :
      (items : List A) (s : Status) (n : ℕ) (call : Call A)
      → let (reply, c') = step (record { items = items; status = s; limit = n }) call in
        NotFailed c'.status → NotFailed s × (items ++ taken_in reply ≡ given_out reply ++ c'.items)
  unfolding step send receive finish abort
  step-balance items Status.opened n (pushes v) h = elim (Bool-cases (ltb (length items) n)) [
    | inl e ↦ rw e (tt, refl)
    | inr e ↦ rw e (tt, append-nil items)
  ]
  step-balance items Status.closed n (pushes v) h = (tt, append-nil items)
  step-balance [] Status.opened n pops h = (tt, refl)
  step-balance [] Status.closed n pops h = (tt, refl)
  step-balance (x ∷ items) Status.opened n pops h = (tt, append-nil (x ∷ items))
  step-balance (x ∷ items) Status.closed n pops h = (tt, append-nil (x ∷ items))
  step-balance items Status.opened n closes h = (tt, append-nil items)
  step-balance items Status.closed n closes h = (tt, append-nil items)
  step-balance items Status.opened n (fails e) h = absurd h
  step-balance items Status.closed n (fails e) h = absurd h
  step-balance items (Status.failed d) n (pushes v) h = absurd h
  step-balance [] (Status.failed d) n pops h = absurd h
  step-balance (x ∷ items) (Status.failed d) n pops h = absurd h
  step-balance items (Status.failed d) n closes h = absurd h
  step-balance items (Status.failed d) n (fails e) h = absurd h

  limit-take_first : (xs : List A) (s : Status) (n : ℕ) → (take_first xs s n).1.limit ≡ n
  unfolding take_first
  limit-take_first [] Status.opened n = refl
  limit-take_first [] Status.closed n = refl
  limit-take_first [] (Status.failed e) n = refl
  limit-take_first (x ∷ xs) Status.opened n = refl
  limit-take_first (x ∷ xs) Status.closed n = refl
  limit-take_first (x ∷ xs) (Status.failed e) n = refl

  limit-receive : (c : Channel A) → (receive c).1.limit ≡ c.limit
  unfolding receive
  limit-receive c = limit-take_first c.items c.status c.limit

  limit-step : (c : Channel A) (call : Call A) → (step c call).1.limit ≡ c.limit
  unfolding step send finish abort
  limit-step c (pushes v) = ground arith
  limit-step c pops = limit-receive c
  limit-step c closes = ground arith
  limit-step c (fails e) = ground arith

  pub limit-run : (calls : List (Call A)) (c : Channel A) → (run c calls).1.limit ≡ c.limit
  unfolding run
  limit-run [] c = refl
  limit-run (call ∷ calls) c = limit-run calls (step c call).1 ∙ limit-step c call

  pub run-balance :
      (calls : List (Call A)) (c : Channel A)
      → let (replies, c') = run c calls in
        NotFailed c'.status
        → NotFailed c.status × (c.items ++ sent replies ≡ received replies ++ c'.items)
  unfolding run
  run-balance [] c h = (h, append-nil c.items)
  run-balance (call ∷ calls) c h =
      let (alive, rest) = run-balance calls (step c call).1 h in
      let (start, one) = step-balance c.items c.status c.limit call alive in
      (start, join c.items _ _ _ _ _ _ one rest)
    where
      join :
          (items ins outs mid ins' outs' last : List A)
          → items ++ ins ≡ outs ++ mid
          → mid ++ ins' ≡ outs' ++ last
          → items ++ (ins ++ ins') ≡ (outs ++ outs') ++ last
      join items ins outs mid ins' outs' last p q =
          sym (append_assoc items ins ins')
          ∙ ap (λ t. t ++ ins') p
          ∙ append_assoc outs mid ins'
          ∙ ap (λ t. outs ++ t) q
          ∙ sym (append_assoc outs outs' last)
