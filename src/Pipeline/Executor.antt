-- ===== src/Pipeline/Executor.antt =====
-- src/pipeline/pipeline_executor.cpp: how a run is admitted, how its metrics are registered, and
-- how the first failure of a worker reaches the others.
pub mod Failure
pub mod Names
pub mod Registration
pub mod Workers
pub mod Run
pub mod File
pub mod Compose
mod Tests
use io_uring_async_load_proc.Prelude.{
  ℕ, Bool, true, false, not, ◌&&◌, ◌||◌, Option, none, some, List, [], ◌∷◌, length, ltb, ◌==◌, ◌-◌,
  ◌^◌, ◌+◌, if◌then◌else◌,
}
use io_uring_async_load_proc.Exception.{
  Exception, Result, ok, throw, throw_if, ◌>>=◌, ◌>>◌, invalid_argument, logic_error, length_error,
}
use io_uring_async_load_proc.Metrics.Name.{Name, bytes}
use io_uring_async_load_proc.Metrics.Registry.{
  MetricsRegistry, size, find_counter, find_gauge, find_histogram, add_counter, add_gauge,
  add_histogram, max_metric_count,
}
use io_uring_async_load_proc.Pipeline.SpscQueue
use io_uring_async_load_proc.Pipeline.SpscQueue.{SpscQueue}

-- The tests of `run`, which sets `started` only when they pass. A negative descriptor is `none`.
unfoldable pub admit : Option ℕ → Option ℕ → ℕ → Bool → Result Bool
admit (some input_fd) (some output_fd) stage_count started = do
  throw_if (input_fd == output_fd) invalid_argument
  throw_if (stage_count == 0) invalid_argument
  throw_if started logic_error
  ok true
admit _ _ stage_count started = throw invalid_argument

-- What the workers of a run share: the first failure and the two queues.
pub record Shared {ℓ} (A : Type ℓ) : Type ℓ where
  pub first_failure : Option Exception
  pub read_to_process : SpscQueue A
  pub process_to_write : SpscQueue A

abbrev pub canonical_failure : Option Exception → Exception → Exception
canonical_failure none failure = failure
canonical_failure (some first) failure = first

module _ {ℓ} {A : Type ℓ} where
  -- `fail` with an exception, which is never null here.
  unfoldable pub fail_queue : SpscQueue A → Exception → SpscQueue A
  unfolding SpscQueue.fail
  fail_queue q e = elim (SpscQueue.fail q (some e)) [ ok q' ↦ q' | throw _ ↦ q ]

  unfoldable pub fail_all : Shared A → Exception → Shared A
  unfolding fail_queue
  fail_all s failure =
      let canonical = canonical_failure s.first_failure failure in
      record {
        first_failure = some canonical;
        read_to_process = fail_queue s.read_to_process canonical;
        process_to_write = fail_queue s.process_to_write canonical;
      }

-- The end of `run`, when every worker was joined.
unfoldable pub finish_run : {R : Type 0} → Option Exception → R → Result R
finish_run none result = ok result
finish_run (some failure) result = throw failure

abbrev pub latency_upper_bounds_ns : List ℕ
latency_upper_bounds_ns = 1000 ∷ 10000 ∷ 100000 ∷ 1000000 ∷ 10000000 ∷ 100000000 ∷ 1000000000 ∷ []

-- The runtime metrics in the order of their registration, with their kinds.
pub data Kind : Type 0 where
  counter gauge histogram : Kind

abbrev pub runtime_metrics : List (Kind × Name)
runtime_metrics =
    (counter, bytes "pipeline.read.blocks")
    ∷ (counter, bytes "pipeline.read.bytes")
    ∷ (counter, bytes "pipeline.process.blocks")
    ∷ (counter, bytes "pipeline.process.bytes")
    ∷ (counter, bytes "pipeline.write.blocks")
    ∷ (counter, bytes "pipeline.write.bytes")
    ∷ (gauge, bytes "pipeline.buffer_pool.inflight")
    ∷ (gauge, bytes "pipeline.queue.read_process.depth")
    ∷ (gauge, bytes "pipeline.queue.process_write.depth")
    ∷ (histogram, bytes "pipeline.read.latency_ns")
    ∷ (histogram, bytes "pipeline.process.latency_ns")
    ∷ (histogram, bytes "pipeline.write.latency_ns")
    ∷ []

abbrev pub is_some : Option ℕ → Bool
is_some none = false
is_some (some position) = true

-- The loop over the names.
unfoldable pub check_names : MetricsRegistry → List (Kind × Name) → Result (Unit {0})
check_names r [] = ok tt
check_names r ((kind, n) ∷ rest) = do
  throw_if
      (is_some (find_counter r n) || (is_some (find_gauge r n) || is_some (find_histogram r n)))
      invalid_argument
  check_names r rest

unfoldable pub add_metric : MetricsRegistry → Kind → Name → Result (MetricsRegistry × ℕ)
add_metric r counter n = add_counter r n
add_metric r gauge n = add_gauge r n
add_metric r histogram n = add_histogram r n latency_upper_bounds_ns

-- The additions in their order; a throw in the middle would leave the ones before it in place.
unfoldable pub add_metrics :
    MetricsRegistry → List (Kind × Name) → Result (List ℕ) × MetricsRegistry
unfolding add_metric
add_metrics r [] = (ok [], r)
add_metrics r ((kind, n) ∷ rest) = elim (add_metric r kind n) [
  | throw e ↦ (throw e, r)
  | ok (r', position) ↦
      let (positions, r'') = add_metrics r' rest in
      (elim positions [ ok ps ↦ ok (position ∷ ps) | throw e ↦ throw e ], r'')
]

-- The tests before the additions.
unfoldable pub check_registry : MetricsRegistry → Result (Unit {0})
unfolding check_names
check_registry r = do
  throw_if (ltb (max_metric_count - length runtime_metrics) (size r)) length_error
  check_names r runtime_metrics

unfoldable pub register_checked :
    Result (Unit {0}) → MetricsRegistry → Result (List ℕ) × MetricsRegistry
unfolding add_metrics
register_checked (throw e) r = (throw e, r)
register_checked (ok _) r = add_metrics r runtime_metrics

unfoldable pub register_runtime_metrics : MetricsRegistry → Result (List ℕ) × MetricsRegistry
unfolding check_registry register_checked
register_runtime_metrics r = register_checked (check_registry r) r
