-- ===== src/Pipeline/Executor/Names.antt =====
-- The tests that src/pipeline/pipeline_executor.cpp makes before it registers metrics, and what one
-- addition does behind them.
use io_uring_async_load_proc.Prelude.{
  replicate, ℕ, ◌+◌, ◌≡◌, inl, inr, refl, false, ◌||◌, Bool-cases, List, [], ◌∷◌, ◌++◌, length,
  length-append, arith, All,
}
use io_uring_async_load_proc.Exception.{ok, throw_if, >>=-eq-ok, invalid_argument}
use io_uring_async_load_proc.Metrics.Counter.{new_counter}
use io_uring_async_load_proc.Metrics.Gauge.{new_gauge}
use io_uring_async_load_proc.Metrics.Histogram.{Histogram, new_histogram, not_increasing}
use io_uring_async_load_proc.Metrics.Name.{Name, name_eq, is_in, is_in-append}
use io_uring_async_load_proc.Metrics.Registry.{
  Entry, MetricsRegistry, size, find_from, find_counter, find_gauge, find_histogram, add_counter,
  add_gauge, add_histogram,
}
use io_uring_async_load_proc.Metrics.Registry.Entries.{names, names-snoc}
use io_uring_async_load_proc.Metrics.Registry.Unique.{
  IsValid, IsNew, all_names, with_counter, with_gauge, with_histogram, with_counter-IsValid,
  with_gauge-IsValid, with_histogram-IsValid, validate_new_name_iff-IsNew,
}
use io_uring_async_load_proc.Pipeline.Executor.{
  Kind, counter, gauge, histogram, is_some, check_names, add_metric, latency_upper_bounds_ns,
}

find_from-none :
    {A : Type 0} (n : Name) (es : List (Entry A)) (position : ℕ)
    → is_some (find_from n es position) ≡ false
    → is_in n (names es) ≡ false
unfolding find_from is_in
find_from-none n [] position h = refl
find_from-none n (e ∷ es) position h = elim (Bool-cases (name_eq e.name n)) [
  | inl found ↦ absurd (ground arith)
  | inr other ↦ ground (arith, find_from-none n es (position + 1))
]

unused_of_checks :
    (r : MetricsRegistry) (n : Name)
    → is_some (find_counter r n) ≡ false
    → is_some (find_gauge r n) ≡ false
    → is_some (find_histogram r n) ≡ false
    → is_in n (all_names r) ≡ false
unfolding find_counter find_gauge find_histogram
unused_of_checks r n c g h = ground (
  arith,
  find_from-none n r.counters 0 c,
  find_from-none n r.gauges 0 g,
  find_from-none n r.histograms 0 h,
  is_in-append n (names r.counters) (names r.gauges ++ names r.histograms),
  is_in-append n (names r.gauges) (names r.histograms),
)

pub check_names-unused :
    (r : MetricsRegistry) (specs : List (Kind × Name))
    → check_names r specs ≡ ok tt
    → All (λ s. is_in s.1 (all_names r) ≡ false) specs
unfolding check_names
check_names-unused r [] h = tt
check_names-unused r ((kind, n) ∷ rest) h =
    let (_, free, later) =
      >>=-eq-ok
        (throw_if
          (is_some (find_counter r n) || (is_some (find_gauge r n) || is_some (find_histogram r n)))
          invalid_argument)
        _ h in
    (
      unused_of_checks r n (ground (arith, free)) (ground (arith, free)) (ground (arith, free)),
      check_names-unused r rest later,
    )

-- What the addition of one metric with a new name does.
pub record Added (r : MetricsRegistry) (n : Name) (r' : MetricsRegistry) : Type 0 where
  pub valid : IsValid r'
  pub grown : size r' ≡ size r + 1
  pub others :
      (m : Name)
      → name_eq n m ≡ false
      → is_in m (all_names r) ≡ false
      → is_in m (all_names r') ≡ false

latency : Histogram
latency = record {
  upper_bounds = latency_upper_bounds_ns;
  bucket_counts = replicate 33 0;
  sample_count = 0;
  sample_sum = 0;
}

module _ (r : MetricsRegistry) (n : Name) (v : IsValid r) (new : IsNew r n) where
  add_counter-Added :
      (add_counter r n ≡ ok (with_counter r n, length r.counters)) × Added r n (with_counter r n)
  unfolding add_counter size is_in
  add_counter-Added = (
    rw ((validate_new_name_iff-IsNew r n).1 new) refl,
    record {
      valid = with_counter-IsValid n v new;
      grown =
          omega (arith, length-append r.counters (record { name = n; metric = new_counter } ∷ []));
      others = λ m apart out. ground (
        arith,
        names-snoc r.counters (record { name = n; metric = new_counter }),
        is_in-append m (names r.counters) (n ∷ []),
        is_in-append m (names r.counters) (names r.gauges ++ names r.histograms),
        is_in-append m (names r.counters ++ (n ∷ [])) (names r.gauges ++ names r.histograms),
      );
    },
  )

  add_gauge-Added :
      (add_gauge r n ≡ ok (with_gauge r n, length r.gauges)) × Added r n (with_gauge r n)
  unfolding add_gauge size is_in
  add_gauge-Added = (
    rw ((validate_new_name_iff-IsNew r n).1 new) refl,
    record {
      valid = with_gauge-IsValid n v new;
      grown = omega (arith, length-append r.gauges (record { name = n; metric = new_gauge } ∷ []));
      others = λ m apart out. ground (
        arith,
        names-snoc r.gauges (record { name = n; metric = new_gauge }),
        is_in-append m (names r.gauges) (n ∷ []),
        is_in-append m (names r.counters) (names r.gauges ++ names r.histograms),
        is_in-append m (names r.gauges) (names r.histograms),
        is_in-append m (names r.counters) (names r.gauges ++ (n ∷ []) ++ names r.histograms),
        is_in-append m (names r.gauges ++ (n ∷ [])) (names r.histograms),
      );
    },
  )

  add_histogram-Added :
      (add_histogram r n latency_upper_bounds_ns
        ≡ ok (with_histogram r n latency, length r.histograms))
      × Added r n (with_histogram r n latency)
  unfolding add_histogram new_histogram not_increasing latency size is_in
  add_histogram-Added = (
    rw ((validate_new_name_iff-IsNew r n).1 new) refl,
    record {
      valid = with_histogram-IsValid n v new latency;
      grown =
          omega (arith, length-append r.histograms (record { name = n; metric = latency } ∷ []));
      others = λ m apart out. ground (
        arith,
        names-snoc r.histograms (record { name = n; metric = latency }),
        is_in-append m (names r.histograms) (n ∷ []),
        is_in-append m (names r.counters) (names r.gauges ++ names r.histograms),
        is_in-append m (names r.gauges) (names r.histograms),
        is_in-append m (names r.counters) (names r.gauges ++ (names r.histograms ++ (n ∷ []))),
        is_in-append m (names r.gauges) (names r.histograms ++ (n ∷ [])),
      );
    },
  )

  pub add_metric-Added :
      (kind : Kind)
      → (r' : MetricsRegistry) × (position : ℕ) × (add_metric r kind n ≡ ok (r', position))
        × Added r n r'
  unfolding add_metric
  add_metric-Added counter = (_, _, add_counter-Added.0, add_counter-Added.1)
  add_metric-Added gauge = (_, _, add_gauge-Added.0, add_gauge-Added.1)
  add_metric-Added histogram = (_, _, add_histogram-Added.0, add_histogram-Added.1)
