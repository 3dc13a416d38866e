-- ===== src/Pipeline/Executor/Registration.antt =====
-- The runtime metrics of src/pipeline/pipeline_executor.cpp are registered all together or not at
-- all.
use io_uring_async_load_proc.Prelude.{
  ℕ, suc, ◌+◌, ◌-◌, ◌≡◌, ◌≤◌, ◌⊎◌, inl, inr, refl, ap, subst, Bool, true, false, ◌&&◌, List, [],
  ◌∷◌, length, arith, All, ltb, leb, not,
}
use io_uring_async_load_proc.Exception.{
  Exception, Result, ok, throw, throw_if, >>=-eq-ok, length_error,
}
use io_uring_async_load_proc.Metrics.Name.{Name, name_eq, is_in}
use io_uring_async_load_proc.Metrics.Registry.{MetricsRegistry, size, max_metric_count}
use io_uring_async_load_proc.Metrics.Registry.Unique.{IsValid, IsNew, NameFits, all_names}
use io_uring_async_load_proc.Pipeline.Executor.{
  Kind, add_metrics, check_registry, register_checked, register_runtime_metrics, runtime_metrics,
}
use io_uring_async_load_proc.Pipeline.Executor.Names.{Added, check_names-unused, add_metric-Added}

-- Metrics that may be registered one after the other.
abbrev Fresh : MetricsRegistry → List (Kind × Name) → Type 0
Fresh r [] = Unit
Fresh r (s ∷ specs) =
    NameFits s.1
    × (is_in s.1 (all_names r) ≡ false)
    × All (λ t. name_eq s.1 t.1 ≡ false) specs
    × Fresh r specs

Fresh-Added :
    (r r' : MetricsRegistry) (n : Name) (specs : List (Kind × Name))
    → Added r n r'
    → All (λ t. name_eq n t.1 ≡ false) specs
    → Fresh r specs
    → Fresh r' specs
Fresh-Added r r' n [] a apart f = tt
Fresh-Added r r' n (s ∷ specs) a apart f =
    (f.0, a.others s.1 apart.0 f.1, f.2, Fresh-Added r r' n specs a apart.1 f.3)

-- What all additions do together.
pub record AllAdded (r : MetricsRegistry) (many : ℕ) (o : Result (List ℕ)) (r' : MetricsRegistry)
    : Type 0 where
  pub positions : List ℕ
  pub returned : o ≡ ok positions
  pub as_many : length positions ≡ many
  pub valid : IsValid r'
  pub grown : size r' ≡ size r + many

add_metrics-AllAdded :
    (specs : List (Kind × Name)) (r : MetricsRegistry)
    → IsValid r
    → size r + length specs ≤ max_metric_count
    → Fresh r specs
    → AllAdded r (length specs) (add_metrics r specs).0 (add_metrics r specs).1
unfolding add_metrics
add_metrics-AllAdded [] r v room f = record {
  positions = [];
  returned = refl;
  as_many = refl;
  valid = v;
  grown = omega arith;
}
add_metrics-AllAdded ((kind, n) ∷ specs) r v room f =
    let new : IsNew r n = record { fits = f.0; unused = f.1; room = omega arith } in
    let (r₁, position, added, a) = add_metric-Added r n v new kind in
    let rest =
      add_metrics-AllAdded specs r₁ a.valid (omega (arith, a.grown))
        (Fresh-Added r r₁ n specs a f.2 f.3) in
    record {
      positions = position ∷ rest.positions;
      returned = ground (arith, added, rest.returned);
      as_many = ap suc rest.as_many;
      valid = subst IsValid (ground (arith, added)) rest.valid;
      grown = ground (arith, added, rest.grown, a.grown);
    }

-- The part of `Fresh` that does not depend on the registry, as a test.
apart_from : Name → List (Kind × Name) → Bool
apart_from n [] = true
apart_from n (s ∷ specs) = not (name_eq n s.1) && apart_from n specs

apart_from-All :
    (n : Name) (specs : List (Kind × Name))
    → apart_from n specs ≡ true
    → All (λ t. name_eq n t.1 ≡ false) specs
unfolding apart_from
apart_from-All n [] h = tt
apart_from-All n (s ∷ specs) h = (ground arith, apart_from-All n specs (ground arith))

suitable : List (Kind × Name) → Bool
unfolding apart_from
suitable [] = true
suitable (s ∷ specs) =
    ltb 0 (length s.1) && (leb (length s.1) 128 && (apart_from s.1 specs && suitable specs))

suitable-Fresh :
    (r : MetricsRegistry) (specs : List (Kind × Name))
    → suitable specs ≡ true
    → All (λ s. is_in s.1 (all_names r) ≡ false) specs
    → Fresh r specs
unfolding suitable
suitable-Fresh r [] h u = tt
suitable-Fresh r (s ∷ specs) h u = (
  (ground arith, ground arith),
  u.0,
  apart_from-All s.1 specs (ground arith),
  suitable-Fresh r specs (ground arith) u.1,
)

runtime_metrics-suitable : suitable runtime_metrics ≡ true
unfolding suitable name_eq
runtime_metrics-suitable = refl

checked-AllAdded :
    (r : MetricsRegistry) (checks : Result (Unit {0}))
    → IsValid r
    → check_registry r ≡ checks
    → let (o, r') = register_checked checks r in
      (((e : Exception) × (o ≡ throw e)) × (r' ≡ r)) ⊎ AllAdded r 12 o r'
unfolding register_checked check_registry
checked-AllAdded r (throw e) v h = inl ((e, refl), refl)
checked-AllAdded r (ok done) v h =
    let (_, room, free) =
      >>=-eq-ok (throw_if (ltb (max_metric_count - length runtime_metrics) (size r)) length_error) _
        h in
    inr (
      add_metrics-AllAdded runtime_metrics r v (ground (arith, room)) (
        suitable-Fresh r runtime_metrics runtime_metrics-suitable
          (check_names-unused r runtime_metrics free)))

-- On a well-formed registry, the registration of the twelve runtime metrics either throws and has
-- changed nothing, or gives twelve positions and leaves a well-formed registry with twelve metrics
-- more: no addition fails behind the tests.
pub register_runtime_metrics-AllAdded :
    (r : MetricsRegistry)
    → IsValid r
    → let (o, r') = register_runtime_metrics r in
      (((e : Exception) × (o ≡ throw e)) × (r' ≡ r)) ⊎ AllAdded r 12 o r'
unfolding register_runtime_metrics
register_runtime_metrics-AllAdded r v = checked-AllAdded r (check_registry r) v refl
