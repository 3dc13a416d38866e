-- ===== src/Metrics/Histogram.antt =====
-- src/metrics/histogram.cpp: exclusive bucket counts under strictly increasing upper bounds. The
-- first `finite_bucket_count_` entries of `upper_bounds_` are a list; no other entry is read.
-- `std::lower_bound` is given by what the standard promises on a sorted range: the first position
-- whose element is not below the sample.
pub mod Buckets
pub mod Report
use io_uring_async_load_proc.Prelude.{
  ℕ, zero, suc, ◌+◌, ◌-◌, ◌%◌, ◌^◌, ◌<◌, Bool, true, false, ◌&&◌, List, [], ◌∷◌, ◌++◌, ltb, leb,
  ◌==◌, if◌then◌else◌, length, get_or, set, replicate, take,
}
use io_uring_async_load_proc.Exception.{Result, ok, throw_if, ◌>>=◌, ◌>>◌, invalid_argument}

abbrev pub max_finite_buckets : ℕ
max_finite_buckets = 32

abbrev pub max_bucket_count : ℕ
max_bucket_count = max_finite_buckets + 1

pub record Snapshot : Type 0 where
  pub sample_count : ℕ
  pub sample_sum : ℕ
  pub bucket_count : ℕ
  pub bucket_counts : List ℕ

pub record Histogram : Type 0 where
  pub upper_bounds : List ℕ
  pub bucket_counts : List ℕ
  pub sample_count : ℕ
  pub sample_sum : ℕ

-- The loop over `index`: some bound is not above the one before it.
unfoldable pub not_increasing : List ℕ → Bool
not_increasing [] = false
not_increasing (b ∷ []) = false
not_increasing (b ∷ c ∷ bs) = if leb c b then true else not_increasing (c ∷ bs)

unfoldable pub new_histogram : List ℕ → Result Histogram
new_histogram bounds = do
  throw_if (length bounds == 0) invalid_argument
  throw_if (ltb max_finite_buckets (length bounds)) invalid_argument
  throw_if (not_increasing bounds) invalid_argument
  ok (record {
    upper_bounds = bounds;
    bucket_counts = replicate max_bucket_count 0;
    sample_count = 0;
    sample_sum = 0;
  })

unfoldable pub lower_bound : List ℕ → ℕ → ℕ
lower_bound [] sample = 0
lower_bound (b ∷ bs) sample = if ltb b sample then suc (lower_bound bs sample) else 0

-- `fetch_add` on 64 bits.
abbrev pub fetch_add : ℕ → ℕ → ℕ
fetch_add a b = (a + b) % 2 ^ 64

unfoldable pub observe : Histogram → ℕ → Histogram
observe h sample =
    let index = lower_bound h.upper_bounds sample in
    record h {
      bucket_counts = set h.bucket_counts index (fetch_add (get_or h.bucket_counts index 0) 1);
      sample_sum = fetch_add h.sample_sum sample;
      sample_count = fetch_add h.sample_count 1;
    }

-- The loop copies the first `bucket_count` counters; the rest of the snapshot's array stays zero.
unfoldable pub snapshot : Histogram → Snapshot
snapshot h =
    let bucket_count = length h.upper_bounds + 1 in
    record {
      sample_count = h.sample_count;
      sample_sum = h.sample_sum;
      bucket_count = bucket_count;
      bucket_counts =
          take bucket_count h.bucket_counts ++ replicate (max_bucket_count - bucket_count) 0;
    }

-- `ScopedTimer`: the destructor observes the time since the constructor, in nanoseconds of the
-- steady clock, and 0 if the clock went back.
unfoldable pub scoped_timer : Histogram → ℕ → ℕ → Histogram
scoped_timer h start now = observe h (if ltb start now then now - start else 0)
