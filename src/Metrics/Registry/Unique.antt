-- ===== src/Metrics/Registry/Unique.antt =====
-- Registration keeps the names of a registry distinct and the registry within its limits.
use io_uring_async_load_proc.Prelude.{
  append-nil, ◌+◌, ◌≤◌, ◌<◌, ◌≡◌, refl, sym, ◌∙◌, ap, false, List, [], ◌∷◌, ◌++◌, append_assoc,
  arith, length, length-append, All,
}
use io_uring_async_load_proc.Exception.{ok}
use io_uring_async_load_proc.Metrics.Counter.{new_counter}
use io_uring_async_load_proc.Metrics.Gauge.{new_gauge}
use io_uring_async_load_proc.Metrics.Histogram.{Histogram}
use io_uring_async_load_proc.Metrics.Name.{Name, is_in, is_in-append, Distinct, Distinct-insert}
use io_uring_async_load_proc.Metrics.Registry.{
  MetricsRegistry, max_metric_count, max_metric_name_length, size, contains_name, validate_new_name,
}
use io_uring_async_load_proc.Metrics.Registry.Entries.{names, names-snoc, any_named-is_in}

-- The names of all kinds of metric, in one list.
abbrev pub all_names : MetricsRegistry → List Name
all_names r = names r.counters ++ (names r.gauges ++ names r.histograms)

abbrev pub NameFits : Name → Type 0
NameFits n = (0 < length n) × (length n ≤ max_metric_name_length)

pub record IsValid (r : MetricsRegistry) : Type 0 where
  pub distinct : Distinct (all_names r)
  pub fit : All NameFits (all_names r)
  pub few : size r ≤ max_metric_count

-- What `validate_new_name` asks of a name.
pub record IsNew (r : MetricsRegistry) (n : Name) : Type 0 where
  pub fits : NameFits n
  pub unused : is_in n (all_names r) ≡ false
  pub room : size r < max_metric_count

contains_name-is_in : (r : MetricsRegistry) (n : Name) → contains_name r n ≡ is_in n (all_names r)
unfolding contains_name
contains_name-is_in r n = ground (
  arith,
  any_named-is_in n r.counters,
  any_named-is_in n r.gauges,
  any_named-is_in n r.histograms,
  is_in-append n (names r.counters) (names r.gauges ++ names r.histograms),
  is_in-append n (names r.gauges) (names r.histograms),
)

pub validate_new_name_iff-IsNew :
    (r : MetricsRegistry) (n : Name)
    → (validate_new_name r n ≡ ok tt → IsNew r n) × (IsNew r n → validate_new_name r n ≡ ok tt)
unfolding validate_new_name
validate_new_name_iff-IsNew r n =
    let e = contains_name-is_in r n in (λ h. ground (arith, e), λ v. ground (arith, e))

All-insert :
    (n : Name) (xs ys : List Name)
    → All NameFits (xs ++ ys)
    → NameFits n
    → All NameFits (xs ++ (n ∷ ys))
All-insert n [] ys a f = (f, a)
All-insert n (x ∷ xs) ys a f = (a.0, All-insert n xs ys a.1 f)

-- A new name may join any of the three kinds.
insert-IsValid :
    (r r' : MetricsRegistry) (n : Name) (xs ys : List Name)
    → IsValid r
    → IsNew r n
    → all_names r ≡ xs ++ ys
    → all_names r' ≡ xs ++ (n ∷ ys)
    → size r' ≡ size r + 1
    → IsValid r'
insert-IsValid r r' n xs ys v new before after more = record {
  distinct = rw after (Distinct-insert n xs ys (rw before at v.distinct) (rw before at new.unused));
  fit = rw after (All-insert n xs ys (rw before at v.fit) new.fits);
  few = omega (arith, new.room);
}

abbrev pub with_counter : MetricsRegistry → Name → MetricsRegistry
with_counter r n = record r {
  counters = r.counters ++ (record { name = n; metric = new_counter } ∷ []);
}

abbrev pub with_gauge : MetricsRegistry → Name → MetricsRegistry
with_gauge r n = record r { gauges = r.gauges ++ (record { name = n; metric = new_gauge } ∷ []) }

abbrev pub with_histogram : MetricsRegistry → Name → Histogram → MetricsRegistry
with_histogram r n h = record r {
  histograms = r.histograms ++ (record { name = n; metric = h } ∷ []);
}

module _ {r : MetricsRegistry} (n : Name) (v : IsValid r) (new : IsNew r n) where
  pub with_counter-IsValid : IsValid (with_counter r n)
  unfolding size
  with_counter-IsValid =
      insert-IsValid r (with_counter r n) n (names r.counters)
        (names r.gauges ++ names r.histograms) v new refl
        (ap (λ xs. xs ++ (names r.gauges ++ names r.histograms)) (names-snoc r.counters _)
          ∙ append_assoc (names r.counters) (n ∷ []) (names r.gauges ++ names r.histograms))
        (omega (arith, length-append r.counters (record { name = n; metric = new_counter } ∷ [])))

  pub with_gauge-IsValid : IsValid (with_gauge r n)
  unfolding size
  with_gauge-IsValid =
      insert-IsValid r (with_gauge r n) n (names r.counters ++ names r.gauges) (names r.histograms)
        v new (sym (append_assoc (names r.counters) (names r.gauges) (names r.histograms)))
        (ap (λ xs. names r.counters ++ (xs ++ names r.histograms)) (names-snoc r.gauges _)
          ∙ ap (λ xs. names r.counters ++ xs)
              (append_assoc (names r.gauges) (n ∷ []) (names r.histograms))
          ∙ sym (append_assoc (names r.counters) (names r.gauges) (n ∷ names r.histograms)))
        (omega (arith, length-append r.gauges (record { name = n; metric = new_gauge } ∷ [])))

  pub with_histogram-IsValid : (h : Histogram) → IsValid (with_histogram r n h)
  unfolding size
  with_histogram-IsValid h =
      insert-IsValid r (with_histogram r n h) n
        (names r.counters ++ (names r.gauges ++ names r.histograms)) [] v new (sym (append-nil _))
        (ap (λ xs. names r.counters ++ (names r.gauges ++ xs)) (names-snoc r.histograms _)
          ∙ ap (λ xs. names r.counters ++ xs)
              (sym (append_assoc (names r.gauges) (names r.histograms) (n ∷ [])))
          ∙ sym (append_assoc (names r.counters) (names r.gauges ++ names r.histograms) (n ∷ [])))
        (omega (arith, length-append r.histograms (record { name = n; metric = h } ∷ [])))
