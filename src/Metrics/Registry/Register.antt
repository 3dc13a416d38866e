-- ===== src/Metrics/Registry/Register.antt =====
-- What `add_counter`, `add_gauge` and `add_histogram` of src/metrics/metrics_registry.cpp do to a
-- registry.
use mathlib.Core.Path.{subst₂}
use io_uring_async_load_proc.Prelude.{
  ℕ, ◌+◌, ◌≡◌, sym, false, Option, some, List, [], ◌∷◌, ◌++◌, length, length-append, if◌then◌else◌,
  arith,
}
use io_uring_async_load_proc.Exception.{ok, >>=-eq-ok}
use io_uring_async_load_proc.Metrics.Counter.{new_counter}
use io_uring_async_load_proc.Metrics.Gauge.{new_gauge}
use io_uring_async_load_proc.Metrics.Histogram.{Histogram, new_histogram}
use io_uring_async_load_proc.Metrics.Name.{Name, is_in, name_eq, is_in-append}
use io_uring_async_load_proc.Metrics.Registry.Entries.{names, find_from-snoc_start}
use io_uring_async_load_proc.Metrics.Registry.{
  find_histogram, find_gauge, find_counter, add_histogram, add_gauge, add_counter, size,
  MetricsRegistry, validate_new_name,
}
use io_uring_async_load_proc.Metrics.Registry.Unique.{
  with_histogram, with_gauge, with_counter, IsNew, IsValid, all_names, with_counter-IsValid,
  with_gauge-IsValid, with_histogram-IsValid, validate_new_name_iff-IsNew,
}

-- What a registration owes: a valid registry, which finds the new metric at the returned position
-- under its name and every other name as before.
abbrev pub Registered :
    MetricsRegistry → MetricsRegistry → Name → ℕ → (MetricsRegistry → Name → Option ℕ) → Type 0
Registered r r' n position find =
    IsValid r'
    × (size r' ≡ size r + 1)
    × ((m : Name) → find r' m ≡ (if name_eq n m then some position else find r m))

unused_parts :
    (r : MetricsRegistry) (n : Name)
    → is_in n (all_names r) ≡ false
    → (is_in n (names r.counters) ≡ false)
      × (is_in n (names r.gauges) ≡ false)
      × (is_in n (names r.histograms) ≡ false)
unused_parts r n h = ground (
  arith,
  is_in-append n (names r.counters) (names r.gauges ++ names r.histograms),
  is_in-append n (names r.gauges) (names r.histograms),
)

module _ {r : MetricsRegistry} (n : Name) (v : IsValid r) where
  Registered-counter :
      IsNew r n → Registered r (with_counter r n) n (length r.counters) find_counter
  unfolding size find_counter
  Registered-counter new = (
    with_counter-IsValid n v new,
    omega (arith, length-append r.counters (record { name = n; metric = new_counter } ∷ [])),
    λ m. find_from-snoc_start m r.counters _ (unused_parts r n new.unused).0,
  )

  Registered-gauge : IsNew r n → Registered r (with_gauge r n) n (length r.gauges) find_gauge
  unfolding size find_gauge
  Registered-gauge new = (
    with_gauge-IsValid n v new,
    omega (arith, length-append r.gauges (record { name = n; metric = new_gauge } ∷ [])),
    λ m. find_from-snoc_start m r.gauges _ (unused_parts r n new.unused).1,
  )

  Registered-histogram :
      (h : Histogram)
      → IsNew r n
      → Registered r (with_histogram r n h) n (length r.histograms) find_histogram
  unfolding size find_histogram
  Registered-histogram h new = (
    with_histogram-IsValid n v new h,
    omega (arith, length-append r.histograms (record { name = n; metric = h } ∷ [])),
    λ m. find_from-snoc_start m r.histograms _ (unused_parts r n new.unused).2,
  )

  -- `add_counter` succeeds only for a name of 1 to 128 bytes that no metric of any kind has, in a
  -- registry with room. It then returns the position at which `find_counter` finds the new name,
  -- finds every other name as before, and leaves a registry whose names are distinct, fit, and are
  -- at most 64.
  pub add_counter-Registered :
      (r' : MetricsRegistry) (position : ℕ)
      → add_counter r n ≡ ok (r', position)
      → IsNew r n × Registered r r' n position find_counter
  unfolding add_counter
  add_counter-Registered r' position e =
      let (_, checked, last) = >>=-eq-ok (validate_new_name r n) _ e in
      let new = (validate_new_name_iff-IsNew r n).0 checked in
      let same : (with_counter r n ≡ r') × (length r.counters ≡ position) = ground (arith, last) in
      (
        new,
        subst₂ (λ r' p. Registered r r' n p find_counter) same.0 same.1 (Registered-counter new),
      )

  -- The same of `add_gauge` and `find_gauge`.
  pub add_gauge-Registered :
      (r' : MetricsRegistry) (position : ℕ)
      → add_gauge r n ≡ ok (r', position)
      → IsNew r n × Registered r r' n position find_gauge
  unfolding add_gauge
  add_gauge-Registered r' position e =
      let (_, checked, last) = >>=-eq-ok (validate_new_name r n) _ e in
      let new = (validate_new_name_iff-IsNew r n).0 checked in
      let same : (with_gauge r n ≡ r') × (length r.gauges ≡ position) = ground (arith, last) in
      (new, subst₂ (λ r' p. Registered r r' n p find_gauge) same.0 same.1 (Registered-gauge new))

  -- `add_histogram` succeeds only for a new name that fits, in a registry with room, and for bounds
  -- that the histogram's constructor accepts. It then returns the position at which
  -- `find_histogram` finds the new name, finds every other name as before, and leaves a registry
  -- whose names are distinct, fit, and are at most 64.
  pub add_histogram-Registered :
      (upper_bounds : List ℕ) (r' : MetricsRegistry) (position : ℕ)
      → add_histogram r n upper_bounds ≡ ok (r', position)
      → IsNew r n
        × ((h : Histogram) × (new_histogram upper_bounds ≡ ok h)
            × (r' ≡ with_histogram r n h)
            × (position ≡ length r.histograms))
        × Registered r r' n position find_histogram
  unfolding add_histogram
  add_histogram-Registered upper_bounds r' position e =
      let (_, checked, rest) = >>=-eq-ok (validate_new_name r n) _ e in
      let (h, eh, last) = >>=-eq-ok (new_histogram upper_bounds) _ rest in
      let new = (validate_new_name_iff-IsNew r n).0 checked in
      let same : (with_histogram r n h ≡ r') × (length r.histograms ≡ position) =
        ground (arith, last) in
      (
        new,
        (h, eh, sym same.0, sym same.1),
        subst₂ (λ r' p. Registered r r' n p find_histogram) same.0 same.1
            (Registered-histogram h new),
      )
