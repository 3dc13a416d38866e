-- ===== src/Buffer/Handles/Steps.antt =====
-- Each action on the handles of a pool keeps the leases, and no assertion of the pool fails.
use io_uring_async_load_proc.Prelude.{
  length-of-get_elem?, sym, get_elem?-set_self, get_elem?-set_ne, ℕ, ◌≡◌, ◌≢◌, refl, ap, ◌∙◌, ◌⊎◌,
  inl, inr, true, false, some, List, [], ◌∷◌, ◌++◌, arith, ◌==◌, length, get_elem?, set, Bool-cases,
}
use io_uring_async_load_proc.Exception.{Outcome, blocks, returns}
use io_uring_async_load_proc.Buffer.Pool
use io_uring_async_load_proc.Buffer.Pool.{BufferHandle}
use io_uring_async_load_proc.Buffer.Handles.{
  World, null_handle, Action, acquires, moves, destroys, assigns, acquire_new, move_new, release_at,
  take_over, move_assign, act,
}
use io_uring_async_load_proc.Buffer.Handles.Counting.{holds, leased, total, total-snoc, total-set}
use io_uring_async_load_proc.Buffer.Handles.Leases.{
  Leases, lent, given_back, free_flag, held_flag, lent-Leases, given_back-Leases,
  same_totals-Leases,
}

-- The handles that an action names exist.
abbrev pub InRange : World → Action → Type 0
InRange w acquires = Unit
InRange w (moves i) = (h : BufferHandle) × (get_elem? w.handles i ≡ some h)
InRange w (destroys i) = (h : BufferHandle) × (get_elem? w.handles i ≡ some h)
InRange w (assigns i j) =
    ((h : BufferHandle) × (get_elem? w.handles i ≡ some h))
    × ((h : BufferHandle) × (get_elem? w.handles j ≡ some h))

-- The action returned, or waits because every buffer is lent.
abbrev pub Done : World → Outcome (Unit {0}) → Type 0
Done w o = (o ≡ returns tt) ⊎ ((o ≡ blocks) × (total leased w.handles ≡ length w.pool.buffers))

acquire_new-blocks : (w : World) → w.pool.available_indices ≡ [] → acquire_new w ≡ (blocks, w)
unfolding acquire_new Pool.acquire
acquire_new-blocks w e = rw (e, Pool.acquire)

acquire_new-lent :
    (w : World) (index : ℕ) (rest : List ℕ)
    → w.pool.available_indices ≡ index ∷ rest
    → get_elem? w.pool.in_use index ≡ some 0
    → acquire_new w ≡ (returns tt, lent w index rest)
unfolding acquire_new Pool.acquire
acquire_new-lent w index rest e f = ground arith

move_new-moved :
    (w : World) (i : ℕ) (h : BufferHandle)
    → get_elem? w.handles i ≡ some h
    → move_new w i ≡ (returns tt, record w { handles = set w.handles i null_handle ++ (h ∷ []) })
unfolding move_new
move_new-moved w i h e = ground arith

release_at-attached :
    (w : World) (k : ℕ) (h : BufferHandle)
    → get_elem? w.handles k ≡ some h
    → h.attached ≡ true
    → get_elem? w.pool.in_use h.index ≡ some 1
    → release_at w k ≡ (returns tt, given_back w k h.index)
unfolding release_at Pool.release
release_at-attached w k h e a f = ground arith

release_at-null :
    (w : World) (k : ℕ) (h : BufferHandle)
    → get_elem? w.handles k ≡ some h
    → h.attached ≡ false
    → release_at w k ≡ (returns tt, record w { handles = set w.handles k null_handle })
unfolding release_at
release_at-null w k h e a = ground arith

take_over-taken :
    (w : World) (i j : ℕ) (h : BufferHandle)
    → get_elem? w.handles j ≡ some h
    → take_over w i j ≡ (returns tt, record w { handles = set (set w.handles j null_handle) i h })
unfolding take_over
take_over-taken w i j h e = ground arith

module _ {w : World} (l : Leases w) where
  acquire_new-Leases :
      (xs : List ℕ)
      → w.pool.available_indices ≡ xs
      → Leases (acquire_new w).1 × Done w (acquire_new w).0
  acquire_new-Leases [] e =
      rw (acquire_new-blocks w e) (l, inr (refl, omega (arith, l.count, ap length e)))
  acquire_new-Leases (index ∷ rest) e =
      rw (acquire_new-lent w index rest e (free_flag l index rest e).1)
        (lent-Leases l index rest e, inl refl)

  move_new-Leases :
      (i : ℕ) (h : BufferHandle)
      → get_elem? w.handles i ≡ some h
      → Leases (move_new w i).1 × ((move_new w i).0 ≡ returns tt)
  move_new-Leases i h e =
      rw (move_new-moved w i h e)
        (same_totals-Leases l _ (λ k. moved (holds k) refl) (moved leased refl), refl)
    where
      moved :
          (weight : BufferHandle → ℕ)
          → weight null_handle ≡ 0
          → total weight (set w.handles i null_handle ++ (h ∷ [])) ≡ total weight w.handles
      moved weight z = omega (
        arith,
        z,
        total-snoc weight (set w.handles i null_handle) h,
        total-set weight w.handles i h null_handle e,
      )

  -- Releasing handle `k` leaves it null and the others as they were.
  release_at-Leases :
      (k : ℕ) (h : BufferHandle)
      → get_elem? w.handles k ≡ some h
      → Leases (release_at w k).1
        × ((release_at w k).0 ≡ returns tt)
        × ((release_at w k).1.handles ≡ set w.handles k null_handle)
  release_at-Leases k h e = elim (Bool-cases h.attached) [
    | inl a ↦
        rw (release_at-attached w k h e a (held_flag l k h e a).2)
          (given_back-Leases l k h e a, refl, refl)
    | inr a ↦ rw (release_at-null w k h e a) (
      same_totals-Leases l _ (λ i. dropped (holds i) refl (ground arith))
          (dropped leased refl (ground arith)),
      refl,
      refl,
    )
  ]
    where
      dropped :
          (weight : BufferHandle → ℕ)
          → weight null_handle ≡ 0
          → weight h ≡ 0
          → total weight (set w.handles k null_handle) ≡ total weight w.handles
      dropped weight z y = omega (arith, z, y, total-set weight w.handles k h null_handle e)

  take_over-Leases :
      (i j : ℕ) (h : BufferHandle)
      → i ≢ j
      → get_elem? w.handles i ≡ some null_handle
      → get_elem? w.handles j ≡ some h
      → Leases (take_over w i j).1 × ((take_over w i j).0 ≡ returns tt)
  take_over-Leases i j h ne ei ej =
      rw (take_over-taken w i j h ej)
        (same_totals-Leases l _ (λ k. taken (holds k) refl) (taken leased refl), refl)
    where
      taken :
          (weight : BufferHandle → ℕ)
          → weight null_handle ≡ 0
          → total weight (set (set w.handles j null_handle) i h) ≡ total weight w.handles
      taken weight z = omega (
        arith,
        z,
        total-set weight (set w.handles j null_handle) i null_handle h
            (get_elem?-set_ne w.handles j i null_handle (λ e. ne (sym e)) ∙ ei),
        total-set weight w.handles j h null_handle ej,
      )

move_assign-Leases :
    {w : World} (i j : ℕ) (g h : BufferHandle)
    → Leases w
    → get_elem? w.handles i ≡ some g
    → get_elem? w.handles j ≡ some h
    → Leases (move_assign w i j).1 × ((move_assign w i j).0 ≡ returns tt)
unfolding move_assign
move_assign-Leases {w} i j g h l ei ej = elim (Bool-cases (i == j)) [
  | inl same ↦ rw same (l, refl)
  | inr other ↦
      let ne : i ≢ j = ground arith in
      let (l', o, hs) = release_at-Leases l i g ei in
      rw (other, o)
        (take_over-Leases l' i j h ne
          (rw hs
            (get_elem?-set_self w.handles i null_handle (length-of-get_elem? w.handles i g ei)))
          (rw hs (get_elem?-set_ne w.handles i j null_handle ne ∙ ej)))
]

-- Acquiring, moving, assigning and destroying handles keeps every buffer either free or held by
-- exactly one handle, with the flags, the counts and the gauge to match. No assertion of the pool
-- fails, and only `acquire` may wait, when every buffer is lent.
pub act-Leases :
    (w : World) (a : Action) → Leases w → InRange w a → Leases (act w a).1 × Done w (act w a).0
unfolding act
act-Leases w acquires l r = acquire_new-Leases l w.pool.available_indices refl
act-Leases w (moves i) l (h, e) = let (l', o) = move_new-Leases l i h e in (l', inl o)
act-Leases w (destroys i) l (h, e) = let (l', o, _) = release_at-Leases l i h e in (l', inl o)
act-Leases w (assigns i j) l ((g, ei), (h, ej)) =
    let (l', o) = move_assign-Leases i j g h l ei ej in (l', inl o)
