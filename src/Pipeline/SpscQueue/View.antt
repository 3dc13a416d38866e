-- ===== src/Pipeline/SpscQueue/View.antt =====
-- The channel that a queue represents, and how its parts move with it.
use native.Mathlib.Nat.{mod-add-mod}
use io_uring_async_load_proc.Prelude.{
  ℕ, zero, suc, ◌+◌, ◌-◌, ◌%◌, ◌^◌, ◌≤◌, ◌<◌, ◌≡◌, refl, ap, ◌∙◌, sym, Option, none, some, List, [],
  ◌∷◌, ◌++◌, map, arith, length, get_elem?, get_or, replicate, length-set, length-append,
  get_elem?-eq-get_or,
}
use io_uring_async_load_proc.Exception.{Exception}
use io_uring_async_load_proc.Metrics.Gauge.{
  Observed-decrement, Observed, Observed-increment, value_max,
}
use io_uring_async_load_proc.Pipeline.Channel.{Channel, Status}
use io_uring_async_load_proc.Pipeline.SpscQueue.{SpscQueue, State, store, take_head}
use io_uring_async_load_proc.Pipeline.SpscQueue.Ring.{
  window, round_trip, window-set_last, window-set_before,
}

-- The state, and where it is failed the exception that it keeps.
pub data SameStatus (s : State) (f : Option Exception) : Status → Type 0 where
  opened : s ≡ State.opened → SameStatus s f Status.opened
  closed : s ≡ State.closed → SameStatus s f Status.closed
  failed : (e : Exception) → s ≡ State.failed → f ≡ some e → SameStatus s f (Status.failed e)

pub is_opened : {s : State} {f : Option Exception} → SameStatus s f Status.opened → s ≡ State.opened
is_opened (SameStatus.opened e) = e

pub is_closed : {s : State} {f : Option Exception} → SameStatus s f Status.closed → s ≡ State.closed
is_closed (SameStatus.closed e) = e

pub is_failed :
    {s : State} {f : Option Exception} (e : Exception)
    → SameStatus s f (Status.failed e)
    → (s ≡ State.failed) × (f ≡ some e)
is_failed e (SameStatus.failed _ p q) = (p, q)

module _ {ℓ} {A : Type ℓ} where
  abbrev pub slot_window : SpscQueue A → ℕ → ℕ → List (Option A)
  slot_window q h n = window none (length q.slots) q.slots h n

  pub record Represents (q : SpscQueue A) (c : Channel A) : Type ℓ where
    pub capacity_pos : 0 < length q.slots
    pub capacity_small : length q.slots ≤ value_max
    pub head_in : q.head < length q.slots
    pub size_in : q.size ≤ length q.slots
    pub tail_at : q.tail ≡ (q.head + q.size) % length q.slots
    pub occupied : slot_window q q.head q.size ≡ map some c.items
    pub vacant :
        slot_window q q.tail (length q.slots - q.size) ≡ replicate (length q.slots - q.size) none
    pub same_size : q.size ≡ length c.items
    pub same_limit : length q.slots ≡ c.limit
    pub same_status : SameStatus q.state q.failure c.status
    pub observed : Observed q.depth_metric q.size (length q.slots)

  window-cons :
      (buf : List (Option A)) (cap h n : ℕ)
      → 0 < n
      → window none cap buf h n ≡ get_or buf h none ∷ window none cap buf ((h + 1) % cap) (n - 1)
  window-cons buf cap h zero p = absurd (omega arith)
  window-cons buf cap h (suc n) p = ap (λ k. window none cap buf h (suc k)) (omega arith)

  replicate-suc : (n : ℕ) (a : Option A) → 0 < n → replicate n a ≡ a ∷ replicate (n - 1) a
  replicate-suc zero a p = absurd (omega arith)
  replicate-suc (suc n) a p = ap (λ k. a ∷ replicate k a) (omega arith)

  replicate-snoc : (n : ℕ) (a : Option A) → replicate n a ++ (a ∷ []) ≡ replicate (suc n) a
  replicate-snoc zero a = refl
  replicate-snoc (suc n) a = ap (λ t. a ∷ t) (replicate-snoc n a)

  map-snoc : (xs : List A) (x : A) → map some (xs ++ (x ∷ [])) ≡ map some xs ++ (some x ∷ [])
  map-snoc [] x = refl
  map-snoc (y ∷ xs) x = ap (λ t. some y ∷ t) (map-snoc xs x)

  -- The slot at the tail of a queue that is not full is empty.
  pub tail_slot :
      {q : SpscQueue A} {c : Channel A}
      → Represents q c
      → q.size < length q.slots
      → get_elem? q.slots q.tail ≡ some none
  tail_slot {q} r h =
      get_elem?-eq-get_or q.slots q.tail none (omega (arith, r.tail_at, r.capacity_pos))
      ∙ ap some (
          cc (
            window-cons q.slots (length q.slots) q.tail (length q.slots - q.size) (omega arith),
            replicate-suc (length q.slots - q.size) none (omega arith),
            r.vacant,
          ))

  -- The slot at the head of a queue that is not empty holds the oldest item.
  pub head_slot :
      {q : SpscQueue A} {c : Channel A} (x : A) (xs : List A)
      → Represents q c
      → c.items ≡ x ∷ xs
      → (get_elem? q.slots q.head ≡ some (some x))
        × (slot_window q ((q.head + 1) % length q.slots) (q.size - 1) ≡ map some xs)
  head_slot {q} {c} x xs r e =
      let pos : 0 < q.size = omega (arith, r.same_size, ap length e) in
      let whole : get_or q.slots q.head none
            ∷ slot_window q ((q.head + 1) % length q.slots) (q.size - 1)
          ≡ some x ∷ map some xs =
        sym (window-cons q.slots (length q.slots) q.head q.size pos)
        ∙ r.occupied
        ∙ ap (map some) e in
      (get_elem?-eq-get_or q.slots q.head none r.head_in ∙ ap some (cc), cc)

  module _ {q : SpscQueue A} {c : Channel A} (r : Represents q c) where
    -- The vacant window without its first slot.
    vacant_rest :
        q.size < length q.slots
        → slot_window q ((q.tail + 1) % length q.slots) (length q.slots - suc q.size)
          ≡ replicate (length q.slots - suc q.size) none
    vacant_rest h =
        let e : length q.slots - q.size - 1 ≡ length q.slots - suc q.size = omega arith in
        cc (
          e,
          window-cons q.slots (length q.slots) q.tail (length q.slots - q.size) (omega arith),
          replicate-suc (length q.slots - q.size) none (omega arith),
          r.vacant,
        )

    pub store-Represents :
        (v : A)
        → q.size < length q.slots
        → Represents (store q v) (record c { items = c.items ++ (v ∷ []) })
    unfolding store
    store-Represents v h =
        let n = length q.slots in
        let len = length-set q.slots q.tail (some v) in
        let tail_in : q.tail < n = omega (arith, r.tail_at, r.capacity_pos) in
        let next : (q.size + 1) % 2 ^ 64 ≡ suc q.size = omega (arith, r.capacity_small) in
        let wrap : (q.tail + 1) % 2 ^ 64 ≡ q.tail + 1 = omega (arith, r.capacity_small) in
        record {
          capacity_pos = rw len r.capacity_pos;
          capacity_small = rw len r.capacity_small;
          head_in = rw len r.head_in;
          size_in = rw (len, next) h;
          tail_at =
              rw (len, next, wrap, r.tail_at)
                (rw mod-add-mod (ap (λ k. k % length q.slots) (omega arith)));
          occupied =
              rw (len, next)
                (window-set_last none n q.slots (some v) q.size q.head q.tail (omega arith)
                    r.head_in h r.tail_at
                  ∙ ap (λ xs. xs ++ (some v ∷ [])) r.occupied
                  ∙ sym (map-snoc c.items v));
          vacant =
              rw (len, next, wrap)
                (window-set_before none n q.slots (some v) (n - suc q.size) q.tail tail_in
                    (omega arith)
                  ∙ vacant_rest h);
          same_size = omega (arith, next, r.same_size, length-append c.items (v ∷ []));
          same_limit = rw len r.same_limit;
          same_status = r.same_status;
          observed =
              rw len
                (Observed-increment q.depth_metric q.size _ n r.observed h r.capacity_small next);
        }

    pub take_head-Represents :
        (x : A) (xs : List A)
        → c.items ≡ x ∷ xs
        → Represents (take_head q) (record c { items = xs })
    unfolding take_head
    take_head-Represents x xs e =
        let n = length q.slots in
        let len = length-set q.slots q.head none in
        let pos : 0 < q.size = omega (arith, r.same_size, ap length e) in
        let wrap : (q.head + 1) % 2 ^ 64 ≡ q.head + 1 =
          omega (arith, r.capacity_small, r.head_in) in
        let more : n - (q.size - 1) ≡ suc (n - q.size) = omega (arith, r.size_in) in
        record {
          capacity_pos = rw len r.capacity_pos;
          capacity_small = rw len r.capacity_small;
          head_in = rw len (omega (arith, r.capacity_pos));
          size_in = rw len (omega (arith, r.size_in));
          tail_at = rw (len, wrap, r.tail_at) (rw mod-add-mod (ap (λ k. k % n) (omega arith)));
          occupied =
              rw (len, wrap)
                (window-set_before none n q.slots none (q.size - 1) q.head r.head_in
                    (omega (arith, r.size_in))
                  ∙ (head_slot x xs r e).1);
          vacant =
              rw (len, more)
                (window-set_last none n q.slots none (n - q.size) q.tail q.head (omega arith)
                    (omega (arith, r.tail_at, r.capacity_pos)) (omega arith)
                    (round_trip q.head q.size q.tail n r.head_in r.size_in r.tail_at)
                  ∙ ap (λ xs. xs ++ (none ∷ [])) r.vacant
                  ∙ replicate-snoc (n - q.size) none);
          same_size = omega (arith, r.same_size, ap length e);
          same_limit = rw len r.same_limit;
          same_status = r.same_status;
          observed = rw len (Observed-decrement q.depth_metric q.size n r.observed pos);
        }
