-- ===== src/Metrics/Registry.antt =====
-- src/metrics/metrics_registry.cpp: a bounded set of uniquely named metrics. A reference that
-- `add_*` or `find_*` returns is the position of the metric among those of its kind; metrics are
-- never removed, so a position stays good.
pub mod Entries
pub mod Unique
pub mod Register
use io_uring_async_load_proc.Prelude.{
  ℕ, zero, suc, ◌+◌, Bool, true, false, ◌||◌, Option, none, some, List, [], ◌∷◌, ◌++◌, map, leb,
  ltb, ◌==◌, if◌then◌else◌, length,
}
use io_uring_async_load_proc.Exception.{
  Result, ok, throw_if, ◌>>=◌, ◌>>◌, invalid_argument, length_error,
}
use io_uring_async_load_proc.Metrics.Counter.{Counter, new_counter}
use io_uring_async_load_proc.Metrics.Gauge.{Gauge, new_gauge}
use io_uring_async_load_proc.Metrics.Histogram
use io_uring_async_load_proc.Metrics.Histogram.{Histogram, new_histogram}
use io_uring_async_load_proc.Metrics.Name.{Name, name_eq}

abbrev pub max_metric_count : ℕ
max_metric_count = 64

abbrev pub max_metric_name_length : ℕ
max_metric_name_length = 128

-- `CounterEntry`, `GaugeEntry` and `HistogramEntry`.
pub record Entry (A : Type 0) : Type 0 where
  pub name : Name
  pub metric : A

pub record MetricsRegistry : Type 0 where
  pub counters : List (Entry Counter)
  pub gauges : List (Entry Gauge)
  pub histograms : List (Entry Histogram)

abbrev pub empty_registry : MetricsRegistry
empty_registry = record { counters = []; gauges = []; histograms = [] }

-- The loop of `find_*`, with the position that it has come to.
unfoldable pub find_from : {A : Type 0} → Name → List (Entry A) → ℕ → Option ℕ
find_from n [] position = none
find_from n (e ∷ es) position =
    let rest = find_from n es (position + 1) in if name_eq e.name n then some position else rest

unfoldable pub find_counter : MetricsRegistry → Name → Option ℕ
unfolding find_from
find_counter r n = find_from n r.counters 0

unfoldable pub find_gauge : MetricsRegistry → Name → Option ℕ
unfolding find_from
find_gauge r n = find_from n r.gauges 0

unfoldable pub find_histogram : MetricsRegistry → Name → Option ℕ
unfolding find_from
find_histogram r n = find_from n r.histograms 0

unfoldable pub size : MetricsRegistry → ℕ
size r = length r.counters + length r.gauges + length r.histograms

-- One of the three loops of `contains_name`.
unfoldable pub any_named : {A : Type 0} → Name → List (Entry A) → Bool
any_named n [] = false
any_named n (e ∷ es) = if name_eq e.name n then true else any_named n es

unfoldable pub contains_name : MetricsRegistry → Name → Bool
unfolding any_named
contains_name r n =
    if any_named n r.counters
    then true
    else if any_named n r.gauges
    then true
    else any_named n r.histograms

unfoldable pub validate_new_name : MetricsRegistry → Name → Result (Unit {0})
unfolding contains_name size
validate_new_name r n = do
  throw_if (length n == 0) invalid_argument
  throw_if (ltb max_metric_name_length (length n)) length_error
  throw_if (contains_name r n) invalid_argument
  throw_if (leb max_metric_count (size r)) length_error

unfoldable pub add_counter : MetricsRegistry → Name → Result (MetricsRegistry × ℕ)
add_counter r n = do
  validate_new_name r n
  ok (
    record r { counters = r.counters ++ (record { name = n; metric = new_counter } ∷ []) },
    length r.counters,
  )

unfoldable pub add_gauge : MetricsRegistry → Name → Result (MetricsRegistry × ℕ)
add_gauge r n = do
  validate_new_name r n
  ok (
    record r { gauges = r.gauges ++ (record { name = n; metric = new_gauge } ∷ []) },
    length r.gauges,
  )

unfoldable pub add_histogram : MetricsRegistry → Name → List ℕ → Result (MetricsRegistry × ℕ)
add_histogram r n upper_bounds = do
  validate_new_name r n
  h ← new_histogram upper_bounds
  ok (
    record r { histograms = r.histograms ++ (record { name = n; metric = h } ∷ []) },
    length r.histograms,
  )

pub record GaugeSnapshot : Type 0 where
  pub name : Name
  pub value : ℕ
  pub high_watermark : ℕ

pub record HistogramSnapshot : Type 0 where
  pub name : Name
  pub upper_bounds : List ℕ
  pub samples : Histogram.Snapshot

pub record Snapshot : Type 0 where
  pub counters : List (Name × ℕ)
  pub gauges : List GaugeSnapshot
  pub histograms : List HistogramSnapshot

unfoldable pub snapshot : MetricsRegistry → Snapshot
snapshot r = record {
  counters = map (λ e. (e.name, e.metric.value)) r.counters;
  gauges = map gauge_snapshot r.gauges;
  histograms = map histogram_snapshot r.histograms;
}
  where
    gauge_snapshot : Entry Gauge → GaugeSnapshot
    gauge_snapshot e = record {
      name = e.name;
      value = e.metric.current;
      high_watermark = e.metric.high_watermark;
    }

    histogram_snapshot : Entry Histogram → HistogramSnapshot
    histogram_snapshot e = record {
      name = e.name;
      upper_bounds = e.metric.upper_bounds;
      samples = Histogram.snapshot e.metric;
    }
