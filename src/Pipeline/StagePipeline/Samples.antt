-- ===== src/Pipeline/StagePipeline/Samples.antt =====
-- What `Pipeline::process` of src/pipeline/pipeline.cpp adds to the latency histograms.
use io_uring_async_load_proc.Prelude.{
  ℕ, ◌+◌, ◌%◌, ◌^◌, ◌≡◌, refl, ◌∙◌, inl, inr, Option, none, some, List, [], ◌∷◌, arith,
  if◌then◌else◌, ◌==◌, get_elem?, get_elem?-set_self, get_elem?-set_ne, length-of-get_elem?,
  ℕ_discrete, Option-cases,
}
use io_uring_async_load_proc.Exception.{ok, throw, Result-cases}
use io_uring_async_load_proc.Metrics.Histogram.{Histogram, scoped_timer, observe}
use io_uring_async_load_proc.Metrics.Registry.{MetricsRegistry}
use io_uring_async_load_proc.Pipeline.StagePipeline.{
  StageInterface, StageEntry, StagePipeline, process_from, run_stages, observe_at, observe_latency,
}

-- How many samples the registry's histogram at a position has.
unfoldable pub samples_at : MetricsRegistry → ℕ → ℕ
samples_at r position = elim (get_elem? r.histograms position) [
  | none ↦ 0
  | some e ↦ e.metric.sample_count
]

-- Whether the registry has a histogram at a position, as a count.
unfoldable pub present : MetricsRegistry → ℕ → ℕ
present r position = elim (get_elem? r.histograms position) [ none ↦ 0 | some e ↦ 1 ]

unfoldable pub is_latency : Option ℕ → ℕ → ℕ
is_latency none position = 0
is_latency (some p) position = if p == position then 1 else 0

sample_count-scoped_timer :
    (h : Histogram) (start now : ℕ)
    → (scoped_timer h start now).sample_count ≡ (h.sample_count + 1) % 2 ^ 64
unfolding scoped_timer observe
sample_count-scoped_timer h start now = refl

module _ (r : MetricsRegistry) (position q start now : ℕ) where
  present-observe_at : present (observe_at r position (start, now)) q ≡ present r q
  unfolding present observe_at
  present-observe_at = elim (Option-cases (get_elem? r.histograms position)) [
    | inl missing ↦ ground arith
    | inr (e, found) ↦
        let seen = record e { metric = scoped_timer e.metric start now } in
        elim (ℕ_discrete position q) [
          | yes here ↦ ground (
            arith,
            get_elem?-set_self r.histograms position seen
                (length-of-get_elem? r.histograms position e found),
          )
          | no away ↦ ground (arith, get_elem?-set_ne r.histograms position q seen away)
        ]
  ]

  samples_at-observe_at :
      samples_at (observe_at r position (start, now)) q % 2 ^ 64
      ≡ (samples_at r q + (if position == q then present r q else 0)) % 2 ^ 64
  unfolding samples_at present observe_at
  samples_at-observe_at = elim (Option-cases (get_elem? r.histograms position)) [
    | inl missing ↦ ground arith
    | inr (e, found) ↦
        let seen = record e { metric = scoped_timer e.metric start now } in
        elim (ℕ_discrete position q) [
          | yes here ↦ ground (
            arith,
            sample_count-scoped_timer e.metric start now,
            get_elem?-set_self r.histograms position seen
                (length-of-get_elem? r.histograms position e found),
          )
          | no away ↦ ground (arith, get_elem?-set_ne r.histograms position q seen away)
        ]
  ]

module _ (r : MetricsRegistry) (latency : Option ℕ) (q : ℕ) (times : ℕ × ℕ) where
  present-observe_latency : present r q ≡ 1 → present (observe_latency r latency times) q ≡ 1
  unfolding observe_latency
  present-observe_latency h = elim latency as (λ l. present (observe_latency r l times) q ≡ 1) [
    | none ↦ h
    | some position ↦ present-observe_at r position q times.0 times.1 ∙ h
  ]

  samples_at-observe_latency :
      present r q ≡ 1
      → samples_at (observe_latency r latency times) q % 2 ^ 64
        ≡ (samples_at r q + is_latency latency q) % 2 ^ 64
  unfolding observe_latency is_latency
  samples_at-observe_latency h =
      elim latency
        as (λ l.
          samples_at (observe_latency r l times) q % 2 ^ 64
          ≡ (samples_at r q + is_latency l q) % 2 ^ 64) [
            | none ↦ omega arith
            | some position ↦ ground (arith, samples_at-observe_at r position q times.0 times.1)
          ]

module _ (si : StageInterface) where
  open si use {Stage, process}

  -- How many stages with the latency histogram at a position are started.
  unfoldable pub starts_at : List (StageEntry Stage) → List ℕ → ℕ → ℕ
  unfolding is_latency
  starts_at [] block q = 0
  starts_at (e ∷ es) block q =
      let (s', block', done) = process e.stage block in
      let rest = starts_at es block' q in
      is_latency e.latency q + (elim done [ ok _ ↦ rest | throw x ↦ 0 ])

  process_from-samples :
      (times : ℕ → ℕ × ℕ) (i : ℕ) (es : List (StageEntry Stage)) (r : MetricsRegistry)
      (block : List ℕ) (q : ℕ)
      → present r q ≡ 1
      → samples_at (process_from si times i es r block).2 q % 2 ^ 64
        ≡ (samples_at r q + starts_at es block q) % 2 ^ 64
  unfolding process_from starts_at
  process_from-samples times i [] r block q h = omega arith
  process_from-samples times i (e ∷ es) r block q h =
      let (s', block', done) = process e.stage block in
      let r' = observe_latency r e.latency (times i) in
      let here = samples_at-observe_latency r e.latency q (times i) h in
      let rest =
        process_from-samples times (i + 1) es r' block' q
          (present-observe_latency r e.latency q (times i) h) in
      elim (Result-cases done) [
        | inl (_, ran) ↦ ground (arith, rest, here)
        | inr (_, threw) ↦ ground (arith, here)
      ]

  -- `process` adds to every histogram of the registry, modulo 2 ^ 64, one sample for each stage with
  -- that latency histogram that it starts, the one that throws included.
  pub run_stages-samples :
      (times : ℕ → ℕ × ℕ) (p : StagePipeline Stage) (r : MetricsRegistry) (block : List ℕ) (q : ℕ)
      → present r q ≡ 1
      → samples_at (run_stages si times p r block).2 q % 2 ^ 64
        ≡ (samples_at r q + starts_at p.stages block q) % 2 ^ 64
  unfolding run_stages
  run_stages-samples times p r block q h = process_from-samples times 0 p.stages r block q h
