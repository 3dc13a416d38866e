-- ===== src/Metrics/Histogram/Buckets.antt =====
-- Which bucket a sample is counted in, and what a run of samples leaves in the buckets.
use io_uring_async_load_proc.Prelude.{
  ℕ, zero, suc, ◌+◌, ◌%◌, ◌^◌, ◌≤◌, ◌<◌, ◌≡◌, refl, ap, Bool, true, false, ◌&&◌, List, [], ◌∷◌,
  arith, ltb, leb, ◌==◌, if◌then◌else◌, length, get_or, set, replicate, All, length-set,
}
use io_uring_async_load_proc.Exception.{ok}
use io_uring_async_load_proc.Metrics.Histogram.{
  Histogram, max_finite_buckets, max_bucket_count, new_histogram, lower_bound, fetch_add, observe,
  not_increasing,
}

abbrev pub Increasing : List ℕ → Type 0
Increasing [] = Unit
Increasing (b ∷ bs) = All (λ c. b < c) bs × Increasing bs

All-below : (b c : ℕ) (bs : List ℕ) → b < c → All (λ d. c < d) bs → All (λ d. b < d) bs
All-below b c [] h a = tt
All-below b c (d ∷ bs) h a = (omega arith, All-below b c bs h a.1)

-- The adjacent comparisons of the constructor order every pair.
not_increasing-Increasing : (bs : List ℕ) → not_increasing bs ≡ false → Increasing bs
unfolding not_increasing
not_increasing-Increasing [] h = tt
not_increasing-Increasing (b ∷ []) h = (tt, tt)
not_increasing-Increasing (b ∷ c ∷ bs) h =
    let rest = not_increasing-Increasing (c ∷ bs) (ground arith) in
    let first : b < c = ground arith in ((first, All-below b c bs first rest.0), rest)

get_or-above :
    (b : ℕ) (bs : List ℕ) (i : ℕ) → All (λ c. b < c) bs → i < length bs → b < get_or bs i 0
get_or-above b [] i a h = absurd (omega arith)
get_or-above b (c ∷ bs) zero a h = a.0
get_or-above b (c ∷ bs) (suc i) a h = get_or-above b bs i a.1 (omega arith)

-- Bucket `i` holds the samples above bound `i - 1` and up to bound `i`; the first has no lower
-- limit and the last no upper one.
abbrev pub above_previous : List ℕ → ℕ → ℕ → Bool
above_previous bs zero sample = true
above_previous bs (suc i) sample = ltb (get_or bs i 0) sample

abbrev pub within_bound : List ℕ → ℕ → ℕ → Bool
within_bound bs i sample = if i == length bs then true else leb sample (get_or bs i 0)

abbrev pub in_bucket : List ℕ → ℕ → ℕ → Bool
in_bucket bs i sample = above_previous bs i sample && within_bound bs i sample

lower_bound-in_bucket :
    (bs : List ℕ) (i sample : ℕ)
    → Increasing bs
    → i ≤ length bs
    → (lower_bound bs sample == i) ≡ in_bucket bs i sample
unfolding lower_bound
lower_bound-in_bucket [] zero sample v h = ground arith
lower_bound-in_bucket [] (suc i) sample v h = absurd (omega arith)
lower_bound-in_bucket (b ∷ bs) zero sample v h = ground arith
lower_bound-in_bucket (b ∷ bs) (suc zero) sample v h =
    ground (arith, lower_bound-in_bucket bs zero sample v.1 (omega arith))
lower_bound-in_bucket (b ∷ bs) (suc (suc i)) sample v h = ground (
  arith,
  lower_bound-in_bucket bs (suc i) sample v.1 (omega arith),
  get_or-above b bs i v.0 (omega arith),
)

lower_bound-le : (bs : List ℕ) (sample : ℕ) → lower_bound bs sample ≤ length bs
unfolding lower_bound
lower_bound-le [] sample = omega arith
lower_bound-le (b ∷ bs) sample = ground (arith, lower_bound-le bs sample)

-- `observe` called on each sample in turn.
unfoldable pub observe_all : Histogram → List ℕ → Histogram
observe_all h [] = h
observe_all h (s ∷ ss) = observe_all (observe h s) ss

unfoldable pub count_in : List ℕ → ℕ → List ℕ → ℕ
count_in bs i [] = 0
count_in bs i (s ∷ ss) = (if in_bucket bs i s then 1 else 0) + count_in bs i ss

unfoldable pub total : List ℕ → ℕ
total [] = 0
total (s ∷ ss) = s + total ss

pub bounds-observe : (h : Histogram) (s : ℕ) → (observe h s).upper_bounds ≡ h.upper_bounds
unfolding observe
bounds-observe h s = refl

pub length-counts-observe :
    (h : Histogram) (s : ℕ) → length (observe h s).bucket_counts ≡ length h.bucket_counts
unfolding observe
length-counts-observe h s = length-set h.bucket_counts _ _

counts-bump :
    (cs : List ℕ) (j i : ℕ)
    → j < length cs
    → get_or cs i 0 < 2 ^ 64
    → get_or (set cs j (fetch_add (get_or cs j 0) 1)) i 0
      ≡ (get_or cs i 0 + (if j == i then 1 else 0)) % 2 ^ 64
counts-bump [] j i h k = absurd (omega arith)
counts-bump (c ∷ cs) zero zero h k = ground arith
counts-bump (c ∷ cs) zero (suc i) h k = ground arith
counts-bump (c ∷ cs) (suc j) zero h k = ground arith
counts-bump (c ∷ cs) (suc j) (suc i) h k = ground (arith, counts-bump cs j i (omega arith) k)

-- One sample adds one to its own bucket and to no other.
counts-observe :
    (h : Histogram) (s i : ℕ)
    → Increasing h.upper_bounds
    → i ≤ length h.upper_bounds
    → length h.upper_bounds < length h.bucket_counts
    → get_or h.bucket_counts i 0 < 2 ^ 64
    → get_or (observe h s).bucket_counts i 0
      ≡ (get_or h.bucket_counts i 0 + (if in_bucket h.upper_bounds i s then 1 else 0)) % 2 ^ 64
unfolding observe
counts-observe h s i v hi room small = rw (← lower_bound-in_bucket h.upper_bounds i s v hi) (
    counts-bump h.bucket_counts (lower_bound h.upper_bounds s) i
      (omega (arith, lower_bound-le h.upper_bounds s)) small)

totals-observe :
    (h : Histogram) (s : ℕ)
    → ((observe h s).sample_count ≡ (h.sample_count + 1) % 2 ^ 64)
      × ((observe h s).sample_sum ≡ (h.sample_sum + s) % 2 ^ 64)
unfolding observe
totals-observe h s = (refl, refl)

pub counts-observe_all :
    (ss : List ℕ) (h : Histogram) (i : ℕ)
    → Increasing h.upper_bounds
    → i ≤ length h.upper_bounds
    → length h.upper_bounds < length h.bucket_counts
    → get_or h.bucket_counts i 0 < 2 ^ 64
    → get_or (observe_all h ss).bucket_counts i 0
      ≡ (get_or h.bucket_counts i 0 + count_in h.upper_bounds i ss) % 2 ^ 64
unfolding observe_all count_in
counts-observe_all [] h i v hi room small = omega arith
counts-observe_all (s ∷ ss) h i v hi room small = omega (
  arith,
  counts-observe h s i v hi room small,
  counts-observe_all ss (observe h s) i (rw (bounds-observe h s) v) (rw (bounds-observe h s) hi)
      (rw (bounds-observe h s, length-counts-observe h s) room)
      (rw (counts-observe h s i v hi room small) (omega arith)),
  ap (λ bs. count_in bs i ss) (bounds-observe h s),
)

pub totals-observe_all :
    (ss : List ℕ) (h : Histogram)
    → h.sample_count < 2 ^ 64
    → h.sample_sum < 2 ^ 64
    → ((observe_all h ss).sample_count ≡ (h.sample_count + length ss) % 2 ^ 64)
      × ((observe_all h ss).sample_sum ≡ (h.sample_sum + total ss) % 2 ^ 64)
unfolding observe_all total
totals-observe_all [] h c t = omega arith
totals-observe_all (s ∷ ss) h c t =
    let (p, q) = totals-observe h s in
    omega (arith, p, q, totals-observe_all ss (observe h s) (omega (arith, p)) (omega (arith, q)))

-- A histogram that the constructor accepts has between 1 and 32 strictly increasing bounds and
-- starts with every count at zero.
pub record IsFresh (h : Histogram) (bounds : List ℕ) : Type 0 where
  pub same_bounds : h.upper_bounds ≡ bounds
  pub increasing : Increasing bounds
  pub some_bound : 0 < length bounds
  pub few_bounds : length bounds ≤ max_finite_buckets
  pub zero_counts : h.bucket_counts ≡ replicate max_bucket_count 0
  pub zero_totals : (h.sample_count ≡ 0) × (h.sample_sum ≡ 0)

pub new_histogram-IsFresh :
    (bounds : List ℕ) {h : Histogram} → new_histogram bounds ≡ ok h → IsFresh h bounds
unfolding new_histogram
new_histogram-IsFresh bounds {h} e = ground (arith, not_increasing-Increasing bounds)
