-- ===== src/Util/FdGuard.antt =====
-- src/util/fd_guard.cpp. A descriptor is a number, and `none` stands for any negative `int`. `close`
-- adds a descriptor to a list.
use io_uring_async_load_proc.Prelude.{
  ℕ, ◌+◌, ◌≡◌, Bool, true, false, Option, none, some, List, [], ◌∷◌, arith, ◌==◌, if◌then◌else◌,
}

pub record FdGuard : Type 0 where
  pub fd : Option ℕ

unfoldable pub new_guard : Option ℕ → FdGuard
new_guard fd = record { fd = fd }

abbrev pub is_valid : FdGuard → Bool
is_valid g = elim g.fd [ none ↦ false | some _ ↦ true ]

abbrev close_fd : Option ℕ → List ℕ → List ℕ
close_fd none closed = closed
close_fd (some n) closed = n ∷ closed

unfoldable pub destroy : FdGuard → List ℕ → List ℕ
destroy g closed = close_fd g.fd closed

-- The new guard, and what is left of the other one.
unfoldable pub move_construct : FdGuard → FdGuard × FdGuard
move_construct other = (record { fd = other.fd }, record { fd = none })

-- This guard, the other one and the closed descriptors; `self` says that the two are one object.
unfoldable pub move_assign : Bool → FdGuard → FdGuard → List ℕ → FdGuard × FdGuard × List ℕ
move_assign self this other closed =
    if self
    then (this, other, closed)
    else (record { fd = other.fd }, record { fd = none }, close_fd this.fd closed)

abbrev pub guards : FdGuard → ℕ → ℕ
guards g n = elim g.fd [ none ↦ 0 | some m ↦ if m == n then 1 else 0 ]

abbrev pub times_closed : ℕ → List ℕ → ℕ
times_closed n [] = 0
times_closed n (m ∷ ms) = (if m == n then 1 else 0) + times_closed n ms

-- Moving a guard, assigning it over another or destroying it neither forgets a descriptor nor
-- closes one that is still guarded: for each descriptor, the guards and the times that it was
-- closed add up to the same number.
pub guards-conserve :
    (self : Bool) (this other : FdGuard) (closed : List ℕ) (n : ℕ)
    → (let (fresh, rest) = move_construct other in guards fresh n + guards rest n ≡ guards other n)
      × (let (this', other', closed') = move_assign self this other closed in
          guards this' n + guards other' n + times_closed n closed'
          ≡ guards this n + guards other n + times_closed n closed)
      × (times_closed n (destroy this closed) ≡ guards this n + times_closed n closed)
unfolding move_construct move_assign destroy
guards-conserve self this other closed n = (ground arith, ground arith, ground arith)
