-- ===== src/Metrics/Histogram/Report.antt =====
-- What a snapshot of a histogram reports after a run of samples.
use io_uring_async_load_proc.Prelude.{
  ℕ, zero, suc, ◌+◌, ◌%◌, ◌^◌, ◌≤◌, ◌<◌, ◌≡◌, refl, ap, ◌∙◌, List, [], ◌∷◌, ◌++◌, arith, length,
  get_or, take, get_or-replicate,
}
use io_uring_async_load_proc.Exception.{ok}
use io_uring_async_load_proc.Metrics.Histogram.{
  Histogram, max_bucket_count, new_histogram, observe, snapshot,
}
use io_uring_async_load_proc.Metrics.Histogram.Buckets.{
  IsFresh, observe_all, count_in, total, bounds-observe, length-counts-observe, counts-observe_all,
  totals-observe_all, new_histogram-IsFresh,
}

bounds-observe_all :
    (ss : List ℕ) (h : Histogram) → (observe_all h ss).upper_bounds ≡ h.upper_bounds
unfolding observe_all
bounds-observe_all [] h = refl
bounds-observe_all (s ∷ ss) h = bounds-observe_all ss (observe h s) ∙ bounds-observe h s

length-counts-observe_all :
    (ss : List ℕ) (h : Histogram) → length (observe_all h ss).bucket_counts ≡ length h.bucket_counts
unfolding observe_all
length-counts-observe_all [] h = refl
length-counts-observe_all (s ∷ ss) h =
    length-counts-observe_all ss (observe h s) ∙ length-counts-observe h s

get_or-take-append :
    (n i : ℕ) (xs ys : List ℕ)
    → i < n
    → n ≤ length xs
    → get_or (take n xs ++ ys) i 0 ≡ get_or xs i 0
get_or-take-append zero i xs ys h k = absurd (omega arith)
get_or-take-append (suc n) i [] ys h k = absurd (omega arith)
get_or-take-append (suc n) zero (x ∷ xs) ys h k = refl
get_or-take-append (suc n) (suc i) (x ∷ xs) ys h k =
    get_or-take-append n i xs ys (omega arith) (omega arith)

snapshot-counts :
    (h : Histogram) (i : ℕ)
    → i ≤ length h.upper_bounds
    → length h.upper_bounds < length h.bucket_counts
    → get_or (snapshot h).bucket_counts i 0 ≡ get_or h.bucket_counts i 0
unfolding snapshot
snapshot-counts h i hi room =
    get_or-take-append (length h.upper_bounds + 1) i h.bucket_counts _ (omega arith) (omega arith)

snapshot-totals :
    (h : Histogram)
    → ((snapshot h).sample_count ≡ h.sample_count)
      × ((snapshot h).sample_sum ≡ h.sample_sum)
      × ((snapshot h).bucket_count ≡ length h.upper_bounds + 1)
unfolding snapshot
snapshot-totals h = (refl, refl, refl)

-- The numbers that a snapshot owes its reader after the samples `ss`.
pub record Reports (h : Histogram) (bounds ss : List ℕ) : Type 0 where
  pub buckets : (snapshot h).bucket_count ≡ length bounds + 1
  pub samples : (snapshot h).sample_count ≡ length ss % 2 ^ 64
  pub sum : (snapshot h).sample_sum ≡ total ss % 2 ^ 64
  pub counts :
      (i : ℕ)
      → i ≤ length bounds
      → get_or (snapshot h).bucket_counts i 0 ≡ count_in bounds i ss % 2 ^ 64

module _ (bounds ss : List ℕ) {h : Histogram} (f : IsFresh h bounds) where
  fresh-zero : (i : ℕ) → get_or h.bucket_counts i 0 ≡ 0
  fresh-zero i = rw f.zero_counts (get_or-replicate max_bucket_count i 0)

  room : length h.upper_bounds < length h.bucket_counts
  room = rw (f.same_bounds, f.zero_counts) (omega (arith, f.few_bounds))

  counts_reported :
      (i : ℕ)
      → i ≤ length bounds
      → get_or (snapshot (observe_all h ss)).bucket_counts i 0 ≡ count_in bounds i ss % 2 ^ 64
  counts_reported i hi =
      snapshot-counts (observe_all h ss) i (rw (bounds-observe_all ss h, f.same_bounds) hi)
        (rw (bounds-observe_all ss h, length-counts-observe_all ss h) room)
      ∙ counts-observe_all ss h i (rw f.same_bounds f.increasing) (rw f.same_bounds hi) room
          (rw (fresh-zero i) (omega arith))
      ∙ rw (fresh-zero i, f.same_bounds) (omega arith)

-- After any samples, the snapshot of a histogram that the constructor accepted gives their number
-- and sum modulo 2 ^ 64, and for each bucket the number of samples between its two bounds, the
-- upper bound included, modulo 2 ^ 64.
pub observe_all-Reports :
    (bounds ss : List ℕ) {h : Histogram}
    → new_histogram bounds ≡ ok h
    → Reports (observe_all h ss) bounds ss
observe_all-Reports bounds ss {h} e =
    let f = new_histogram-IsFresh bounds e in
    let n = snapshot-totals (observe_all h ss) in
    let t =
      totals-observe_all ss h (omega (arith, f.zero_totals.0)) (omega (arith, f.zero_totals.1)) in
    record {
      buckets = n.2 ∙ ap (λ bs. length bs + 1) (bounds-observe_all ss h ∙ f.same_bounds);
      samples = omega (arith, n.0, t.0, f.zero_totals.0);
      sum = omega (arith, n.1, t.1, f.zero_totals.1);
      counts = counts_reported bounds ss f;
    }
