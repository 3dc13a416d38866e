-- ===== src/Pipeline/StagePipeline.antt =====
-- src/pipeline/pipeline.cpp: stages that run one after the other on a block, each with a latency
-- histogram of the registry if the pipeline has one. The registry is passed along; a histogram is
-- its position in the registry. The steady clock's readings at the two ends of a stage's run are
-- given by the stage's index.
pub mod MetricName
pub mod AddStage
pub mod Process
pub mod Samples
mod Tests
use io_uring_async_load_proc.Prelude.{
  ℕ, zero, suc, ◌+◌, ◌/◌, ◌%◌, ◌≡◌, Bool, Option, none, some, List, [], ◌∷◌, ◌++◌, length,
  get_elem?, set, ltb, if◌then◌else◌,
}
use io_uring_async_load_proc.Exception.{Result, ok, throw, Exception, invalid_argument}
use io_uring_async_load_proc.Metrics.Histogram.{scoped_timer}
use io_uring_async_load_proc.Metrics.Name.{Name, bytes}
use io_uring_async_load_proc.Metrics.Registry.{MetricsRegistry, add_histogram, Entry}

abbrev pub stage_latency_upper_bounds_ns : List ℕ
stage_latency_upper_bounds_ns =
    1000 ∷ 10000 ∷ 100000 ∷ 1000000 ∷ 10000000 ∷ 100000000 ∷ 1000000000 ∷ []

-- `std::to_string`, with the number of digits that may still come: a number has no more digits than
-- its value plus one.
unfoldable pub decimal_of : ℕ → ℕ → Name
decimal_of zero n = []
decimal_of (suc fuel) n =
    let front = decimal_of fuel (n / 10) in
    if ltb n 10 then (48 + n) ∷ [] else front ++ ((48 + n % 10) ∷ [])

unfoldable pub to_string : ℕ → Name
unfolding decimal_of
to_string n = decimal_of (n + 1) n

unfoldable pub make_stage_latency_metric_name : ℕ → Name → Name
unfolding to_string
make_stage_latency_metric_name stage_index stage_name =
    bytes "stage." ++ (to_string stage_index ++ (bytes "." ++ (stage_name ++ bytes ".latency_ns")))

-- What the pipeline knows of a stage: its name, and a call of `process`, which gives the stage and
-- the block afterwards and may throw.
pub record StageInterface : Type 1 where
  pub Stage : Type 0
  pub name : Stage → Name
  pub process : Stage → List ℕ → Stage × List ℕ × Result (Unit {0})

pub record StageEntry (S : Type 0) : Type 0 where
  pub stage : S
  pub latency : Option ℕ

-- `instrumented`: `metrics_` is not null.
pub record StagePipeline (S : Type 0) : Type 0 where
  pub instrumented : Bool
  pub stages : List (StageEntry S)

-- The end of a `ScopedTimer` on a histogram of the registry.
unfoldable pub observe_at : MetricsRegistry → ℕ → ℕ × ℕ → MetricsRegistry
observe_at r position (start, now) = elim (get_elem? r.histograms position) [
  | none ↦ r
  | some e ↦ record r {
    histograms = set r.histograms position (record e { metric = scoped_timer e.metric start now });
  }
]

unfoldable pub observe_latency : MetricsRegistry → Option ℕ → ℕ × ℕ → MetricsRegistry
unfolding observe_at
observe_latency r none times = r
observe_latency r (some position) times = observe_at r position times

module _ (si : StageInterface) where
  open si use {Stage, name, process}

  abbrev pub new_pipeline : Bool → StagePipeline Stage
  new_pipeline instrumented = record { instrumented = instrumented; stages = [] }

  abbrev pub with_stage : StagePipeline Stage → Stage → Option ℕ → StagePipeline Stage
  with_stage p stage latency = record p {
    stages = p.stages ++ (record { stage = stage; latency = latency } ∷ []);
  }

  -- `pop_back`.
  unfoldable pub pop_back : List (StageEntry Stage) → List (StageEntry Stage)
  pop_back [] = []
  pop_back (e ∷ []) = []
  pop_back (e ∷ f ∷ es) = e ∷ pop_back (f ∷ es)

  -- A null stage is `none`. The stage is pushed first; a registration that throws has it popped.
  unfoldable pub add_stage :
      StagePipeline Stage
      → MetricsRegistry
      → Option Stage
      → Result (Unit {0}) × StagePipeline Stage × MetricsRegistry
  unfolding pop_back make_stage_latency_metric_name add_histogram
  add_stage p r none = (throw invalid_argument, p, r)
  add_stage p r (some stage) =
      let metric_name = make_stage_latency_metric_name (length p.stages) (name stage) in
      let pushed = with_stage p stage none in
      if p.instrumented
      then (elim (add_histogram r metric_name stage_latency_upper_bounds_ns) [
        | ok (r', latency) ↦ (ok tt, with_stage p stage (some latency), r')
        | throw e ↦ (throw e, record pushed { stages = pop_back pushed.stages }, r)
      ])
      else (ok tt, pushed, r)

  -- The loop of `process`, from the stage with index `i` on. An exception leaves the later stages
  -- as they are, and the timer of the stage that threw observes its latency on the way out.
  unfoldable pub process_from :
      (ℕ → ℕ × ℕ)
      → ℕ
      → List (StageEntry Stage)
      → MetricsRegistry
      → List ℕ
      → Result (Unit {0}) × List (StageEntry Stage) × MetricsRegistry × List ℕ
  process_from times i [] r block = (ok tt, [], r, block)
  process_from times i (e ∷ es) r block =
      let (stage', block', done) = process e.stage block in
      let r' = observe_latency r e.latency (times i) in
      let e' = record e { stage = stage' } in
      let (rest, es', r'', block'') = process_from times (i + 1) es r' block' in
      elim done [ ok _ ↦ (rest, e' ∷ es', r'', block'') | throw x ↦ (throw x, e' ∷ es, r', block') ]

  unfoldable pub run_stages :
      (ℕ → ℕ × ℕ)
      → StagePipeline Stage
      → MetricsRegistry
      → List ℕ
      → Result (Unit {0}) × StagePipeline Stage × MetricsRegistry × List ℕ
  unfolding process_from observe_latency
  run_stages times p r block =
      let (done, es, r', block') = process_from times 0 p.stages r block in
      (done, record p { stages = es }, r', block')

  unfoldable pub stage_count : StagePipeline Stage → ℕ
  stage_count p = length p.stages
