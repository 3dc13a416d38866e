-- ===== src/Pipeline/StagePipeline/Tests.antt =====
-- Runs of src/pipeline/pipeline.cpp on concrete inputs, and instances of its theorems.
use io_uring_async_load_proc.Prelude.{
  if◌then◌else◌, ℕ, ◌+◌, ◌%◌, ◌^◌, ◌≡◌, ◌≢◌, refl, Bool, true, false, none, some, [], ◌∷◌, arith,
  replicate,
}
use io_uring_async_load_proc.Exception.{ok, throw, invalid_argument, runtime_error}
use io_uring_async_load_proc.Metrics.Name.{Name, bytes}
use io_uring_async_load_proc.Metrics.Histogram.{Histogram, new_histogram, not_increasing}
use io_uring_async_load_proc.Metrics.Registry
use io_uring_async_load_proc.Metrics.Registry.{
  MetricsRegistry, empty_registry, add_histogram, validate_new_name, find_histogram,
}
use io_uring_async_load_proc.Metrics.Registry.Unique
use io_uring_async_load_proc.Pipeline.Stages.{byte_increment}
use io_uring_async_load_proc.Pipeline.StagePipeline.{
  StageInterface, StagePipeline, new_pipeline, with_stage, add_stage, run_stages,
  make_stage_latency_metric_name, process_from, to_string, decimal_of, process_from,
}
use io_uring_async_load_proc.Pipeline.StagePipeline.MetricName.{metric_name-distinct}
use io_uring_async_load_proc.Pipeline.StagePipeline.AddStage.{
  add_stage-rolls_back, add_stage-instruments,
}
use io_uring_async_load_proc.Pipeline.StagePipeline.Samples.{
  samples_at, present, starts_at, run_stages-samples,
}
use io_uring_async_load_proc.Pipeline.StagePipeline.Process.{
  run_plain, stages_of, Stopped, run_stages-plain, run_stages-stops,
}

metric_name-distinct_example :
    make_stage_latency_metric_name 1 (bytes "1.noop")
    ≢ make_stage_latency_metric_name 11 (bytes "noop")
metric_name-distinct_example =
    metric_name-distinct 1 11 (bytes "1.noop") (bytes "noop") (λ e. absurd (omega (arith, e)))

-- Stages that increment every byte, or throw.
abbrev test_stages : StageInterface
test_stages = record {
  Stage = Bool;
  name = λ fails. bytes "t";
  process =
      λ fails block. (fails, byte_increment block, if fails then throw runtime_error else ok tt);
}

abbrev clock : ℕ → ℕ × ℕ
clock i = (i, i + 5)

abbrev timed : StagePipeline Bool
timed = new_pipeline test_stages true

abbrev stage_0 : Name
stage_0 = bytes "stage.0.t.latency_ns"

abbrev latency : Histogram
latency = record {
  upper_bounds = 1000 ∷ 10000 ∷ 100000 ∷ 1000000 ∷ 10000000 ∷ 100000000 ∷ 1000000000 ∷ [];
  bucket_counts = replicate 33 0;
  sample_count = 0;
  sample_sum = 0;
}

abbrev one_latency : MetricsRegistry
one_latency = Unique.with_histogram empty_registry stage_0 latency

abbrev one_timed : StagePipeline Bool
one_timed = with_stage test_stages timed false (some 0)

stage_added :
    add_stage test_stages timed empty_registry (some false) ≡ (ok tt, one_timed, one_latency)
unfolding add_stage add_histogram validate_new_name new_histogram not_increasing
    make_stage_latency_metric_name to_string decimal_of
stage_added = refl

empty-IsValid : Unique.IsValid empty_registry
unfolding Registry.size
empty-IsValid = record { distinct = tt; fit = tt; few = omega arith }

null_refused :
    add_stage test_stages timed empty_registry none
    ≡ (throw invalid_argument, timed, empty_registry)
unfolding add_stage
null_refused = refl

add_stage-instruments_example :
    (one_timed ≡ with_stage test_stages timed false (some 0))
    × Unique.IsValid one_latency
    × (Registry.size one_latency ≡ Registry.size empty_registry + 1)
    × (find_histogram one_latency (make_stage_latency_metric_name 0 (bytes "t")) ≡ some 0)
add_stage-instruments_example =
    add_stage-instruments test_stages timed one_timed empty_registry one_latency false empty-IsValid
      refl stage_added

add_stage-rolls_back_example : (timed ≡ timed) × (empty_registry ≡ empty_registry)
add_stage-rolls_back_example =
    add_stage-rolls_back test_stages timed timed empty_registry empty_registry none invalid_argument
      null_refused

-- Two stages that run and one that throws before a last one, the first two with a histogram.
abbrev four_stages : StagePipeline Bool
four_stages = record {
  instrumented = true;
  stages =
      record { stage = false; latency = some 0 }
      ∷ record { stage = false; latency = some 0 }
      ∷ record { stage = true; latency = none }
      ∷ record { stage = false; latency = none }
      ∷ [];
}

latency_present : present one_latency 0 ≡ 1
unfolding present
latency_present = refl

third_throws :
    let ran = run_stages test_stages clock four_stages one_latency (5 ∷ []) in
    run_stages test_stages clock four_stages one_latency (5 ∷ [])
    ≡ (throw runtime_error, ran.1, ran.2, ran.3)
unfolding run_stages process_from
third_throws = refl

run_stages-plain_example :
    let (done, p', r', block') = run_stages test_stages clock four_stages one_latency (5 ∷ []) in
    run_plain test_stages (stages_of test_stages four_stages.stages) (5 ∷ [])
    ≡ (done, stages_of test_stages p'.stages, block')
run_stages-plain_example = run_stages-plain test_stages clock four_stages one_latency (5 ∷ [])

run_stages-samples_example :
    samples_at (run_stages test_stages clock four_stages one_latency (5 ∷ [])).2 0 % 2 ^ 64
    ≡ (samples_at one_latency 0 + starts_at test_stages four_stages.stages (5 ∷ []) 0) % 2 ^ 64
run_stages-samples_example =
    run_stages-samples test_stages clock four_stages one_latency (5 ∷ []) 0 latency_present

run_stages-stops_example :
    let ran = run_stages test_stages clock four_stages one_latency (5 ∷ []) in
    Stopped test_stages
      (stages_of test_stages four_stages.stages)
      (5 ∷ [])
      runtime_error
      (stages_of test_stages ran.1.stages)
      ran.3
run_stages-stops_example =
    let ran = run_stages test_stages clock four_stages one_latency (5 ∷ []) in
    run_stages-stops test_stages clock four_stages ran.1 one_latency ran.2 (5 ∷ []) ran.3
      runtime_error third_throws
