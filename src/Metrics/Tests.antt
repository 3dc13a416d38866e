-- ===== src/Metrics/Tests.antt =====
-- Runs of the code of src/metrics on concrete inputs, and instances of its theorems.
use io_uring_async_load_proc.Prelude.{◌≡◌, refl, [], ◌∷◌, length, arith, replicate}
use io_uring_async_load_proc.Exception.{ok, throw, invalid_argument}
use io_uring_async_load_proc.Metrics.Histogram.{Histogram, new_histogram, not_increasing}
use io_uring_async_load_proc.Metrics.Histogram.Buckets.{observe_all}
use io_uring_async_load_proc.Metrics.Histogram.Report.{Reports, observe_all-Reports}
use io_uring_async_load_proc.Metrics.Name.{Name, bytes, name_eq}
use io_uring_async_load_proc.Metrics.Registry.{
  empty_registry, add_counter, add_histogram, find_histogram, size, validate_new_name,
}
use io_uring_async_load_proc.Metrics.Registry.Unique.{IsValid, IsNew, with_counter, with_histogram}
use io_uring_async_load_proc.Metrics.Registry.Register.{Registered, add_histogram-Registered}

abbrev ten_twenty : Histogram
ten_twenty = record {
  upper_bounds = 10 ∷ 20 ∷ [];
  bucket_counts = replicate 33 0;
  sample_count = 0;
  sample_sum = 0;
}

ten_twenty_made : new_histogram (10 ∷ 20 ∷ []) ≡ ok ten_twenty
unfolding new_histogram not_increasing
ten_twenty_made = refl

bounds_must_rise : new_histogram (20 ∷ 20 ∷ []) ≡ throw invalid_argument
unfolding new_histogram not_increasing
bounds_must_rise = refl

observe_all-Reports_example :
    Reports (observe_all ten_twenty (10 ∷ 11 ∷ 300 ∷ [])) (10 ∷ 20 ∷ []) (10 ∷ 11 ∷ 300 ∷ [])
observe_all-Reports_example =
    observe_all-Reports (10 ∷ 20 ∷ []) (10 ∷ 11 ∷ 300 ∷ []) ten_twenty_made

empty_registry-IsValid : IsValid empty_registry
unfolding size
empty_registry-IsValid = record { distinct = tt; fit = tt; few = omega arith }

abbrev reads : Name
reads = bytes "reads"

reads_added : add_counter empty_registry reads ≡ ok (with_counter empty_registry reads, 0)
unfolding add_counter validate_new_name
reads_added = refl

latency_added :
    add_histogram empty_registry reads (10 ∷ 20 ∷ [])
    ≡ ok (with_histogram empty_registry reads ten_twenty, 0)
unfolding add_histogram validate_new_name new_histogram not_increasing
latency_added = refl

name_taken :
    add_histogram (with_counter empty_registry reads) reads (10 ∷ []) ≡ throw invalid_argument
unfolding add_histogram validate_new_name name_eq
name_taken = refl

add_histogram-Registered_example :
    IsNew empty_registry reads
    × ((h : Histogram) × (new_histogram (10 ∷ 20 ∷ []) ≡ ok h)
        × (with_histogram empty_registry reads ten_twenty ≡ with_histogram empty_registry reads h)
        × (0 ≡ length empty_registry.histograms))
    × Registered empty_registry
        (with_histogram empty_registry reads ten_twenty)
        reads
        0
        find_histogram
add_histogram-Registered_example =
    add_histogram-Registered reads empty_registry-IsValid (10 ∷ 20 ∷ [])
      (with_histogram empty_registry reads ten_twenty) 0 latency_added
