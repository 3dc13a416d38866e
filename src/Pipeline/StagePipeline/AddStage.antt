-- ===== src/Pipeline/StagePipeline/AddStage.antt =====
-- What `Pipeline::add_stage` of src/pipeline/pipeline.cpp does to the pipeline and the registry.
use io_uring_async_load_proc.Prelude.{
  ◌+◌, ◌≡◌, refl, ap, true, Bool-cases, inl, inr, Option, none, some, List, [], ◌∷◌, ◌++◌, length,
  subst, arith,
}
use io_uring_async_load_proc.Exception.{ok, throw, Result-cases, Exception}
use io_uring_async_load_proc.Metrics.Name.{name_eq_refl}
use io_uring_async_load_proc.Metrics.Registry.{MetricsRegistry, add_histogram, find_histogram, size}
use io_uring_async_load_proc.Metrics.Registry.Unique.{IsValid}
use io_uring_async_load_proc.Metrics.Registry.Register.{add_histogram-Registered}
use io_uring_async_load_proc.Pipeline.StagePipeline.{
  StageInterface, StageEntry, StagePipeline, with_stage, pop_back, add_stage,
  make_stage_latency_metric_name, stage_latency_upper_bounds_ns,
}

module _ (si : StageInterface) where
  open si use {Stage, name}

  pop_back-snoc :
      (es : List (StageEntry Stage)) (e : StageEntry Stage) → pop_back si (es ++ (e ∷ [])) ≡ es
  unfolding pop_back
  pop_back-snoc [] e = refl
  pop_back-snoc (d ∷ []) e = refl
  pop_back-snoc (d ∷ f ∷ es) e = ap (λ t. d ∷ t) (pop_back-snoc (f ∷ es) e)

  -- `add_stage` that throws leaves the pipeline and the registry as they were: a null stage is not
  -- taken in, and a stage whose histogram cannot be registered is taken out again.
  pub add_stage-rolls_back :
      (p p' : StagePipeline Stage) (r r' : MetricsRegistry) (stage : Option Stage) (e : Exception)
      → add_stage si p r stage ≡ (throw e, p', r')
      → (p' ≡ p) × (r' ≡ r)
  unfolding add_stage
  add_stage-rolls_back p p' r r' none e h = ground arith
  add_stage-rolls_back p p' r r' (some stage) e h =
      let entry : StageEntry Stage = record { stage = stage; latency = none } in
      elim (Bool-cases p.instrumented) [
        | inr plain ↦ ground arith
        | inl timed ↦
            elim (Result-cases (
              add_histogram r (make_stage_latency_metric_name (length p.stages) (name stage))
                stage_latency_upper_bounds_ns)) [
                  | inl (_, made) ↦ ground arith
                  | inr (_, failed) ↦ ground (arith, pop_back-snoc p.stages entry)
                ]
      ]

  -- `add_stage` that succeeds on an instrumented pipeline puts the stage behind the others, with the
  -- registry's next histogram as its latency. The registry has one metric more, is as well formed as
  -- it was, and finds that histogram under the name that is made from the stage's place and name.
  pub add_stage-instruments :
      (p p' : StagePipeline Stage) (r r' : MetricsRegistry) (stage : Stage)
      → IsValid r
      → p.instrumented ≡ true
      → add_stage si p r (some stage) ≡ (ok tt, p', r')
      → (p' ≡ with_stage si p stage (some (length r.histograms)))
        × IsValid r'
        × (size r' ≡ size r + 1)
        × (find_histogram r' (make_stage_latency_metric_name (length p.stages) (name stage))
            ≡ some (length r.histograms))
  unfolding add_stage
  add_stage-instruments p p' r r' stage v timed h =
      let metric_name = make_stage_latency_metric_name (length p.stages) (name stage) in
      elim (Result-cases (add_histogram r metric_name stage_latency_upper_bounds_ns)) [
        | inr (_, failed) ↦ ground arith
        | inl ((r₁, position), made) ↦
            let (new, (hist, _, _, at), (valid, grown, finds)) =
              add_histogram-Registered metric_name v stage_latency_upper_bounds_ns r₁ position
                made in
            let found : find_histogram r₁ metric_name ≡ some (length r.histograms) =
              ground (arith, finds metric_name, name_eq_refl metric_name, at) in
            let registry : r₁ ≡ r' = ground arith in
            (
              ground arith,
              subst IsValid registry valid,
              subst (λ t. size t ≡ size r + 1) registry grown,
              subst (λ t. find_histogram t metric_name ≡ some (length r.histograms)) registry found,
            )
      ]
