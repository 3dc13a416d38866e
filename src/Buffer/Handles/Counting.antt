-- ===== src/Buffer/Handles/Counting.antt =====
-- How often an index is free, and how often a handle holds it.
use io_uring_async_load_proc.Prelude.{
  ltb, ℕ, zero, suc, ◌+◌, ◌≤◌, ◌≡◌, ◌≢◌, refl, ap, ◌&&◌, some, List, [], ◌∷◌, ◌++◌, arith, ◌==◌,
  if◌then◌else◌, length, get_elem?, set,
}
use io_uring_async_load_proc.Buffer.Pool.{BufferHandle, push_indices}

unfoldable pub occurs : ℕ → List ℕ → ℕ
occurs i [] = 0
occurs i (x ∷ xs) = (if x == i then 1 else 0) + occurs i xs

-- Whether a handle holds index `i`, and whether it holds any.
abbrev pub holds : ℕ → BufferHandle → ℕ
holds i h = if h.attached && h.index == i then 1 else 0

abbrev pub leased : BufferHandle → ℕ
leased h = if h.attached then 1 else 0

-- The weights of all handles of a list, added up.
module _ (weight : BufferHandle → ℕ) where
  unfoldable pub total : List BufferHandle → ℕ
  total [] = 0
  total (h ∷ hs) = weight h + total hs

  pub total-snoc :
      (hs : List BufferHandle) (h : BufferHandle) → total (hs ++ (h ∷ [])) ≡ total hs + weight h
  unfolding total
  total-snoc [] h = omega arith
  total-snoc (g ∷ hs) h = omega (arith, total-snoc hs h)

  pub total-set :
      (hs : List BufferHandle) (i : ℕ) (old h : BufferHandle)
      → get_elem? hs i ≡ some old
      → total (set hs i h) + weight old ≡ total hs + weight h
  unfolding total
  total-set [] i old h e = cc
  total-set (g ∷ hs) zero old h e = ground arith
  total-set (g ∷ hs) (suc i) old h e = omega (arith, total-set hs i old h e)

  pub weight-le-total :
      (hs : List BufferHandle) (i : ℕ) (h : BufferHandle)
      → get_elem? hs i ≡ some h
      → weight h ≤ total hs
  unfolding total
  weight-le-total [] i h e = cc
  weight-le-total (g ∷ hs) zero h e = ground arith
  weight-le-total (g ∷ hs) (suc i) h e = omega (arith, weight-le-total hs i h e)

  -- Two handles at different places both count.
  pub two-le-total :
      (hs : List BufferHandle) (i j : ℕ) (g h : BufferHandle)
      → get_elem? hs i ≡ some g
      → get_elem? hs j ≡ some h
      → i ≢ j
      → weight g + weight h ≤ total hs
  unfolding total
  two-le-total [] i j g h e f ne = cc
  two-le-total (x ∷ hs) zero zero g h e f ne = absurd (ne refl)
  two-le-total (x ∷ hs) zero (suc j) g h e f ne = ground (arith, weight-le-total hs j h f)
  two-le-total (x ∷ hs) (suc i) zero g h e f ne = ground (arith, weight-le-total hs i g e)
  two-le-total (x ∷ hs) (suc i) (suc j) g h e f ne =
      omega (arith, two-le-total hs i j g h e f (λ p. ne (ap suc p)))

-- The indices that the constructor makes available.
pub occurs-push_indices :
    (n i : ℕ) (xs : List ℕ)
    → occurs i (push_indices n xs) ≡ (if ltb i n then 1 else 0) + occurs i xs
unfolding occurs push_indices
occurs-push_indices zero i xs = ground arith
occurs-push_indices (suc n) i xs = ground (arith, occurs-push_indices n i (n ∷ xs))

pub length-push_indices : (n : ℕ) (xs : List ℕ) → length (push_indices n xs) ≡ n + length xs
unfolding push_indices
length-push_indices zero xs = omega arith
length-push_indices (suc n) xs = omega (arith, length-push_indices n (n ∷ xs))
