-- ===== src/Benchmark/Verify/Tests.antt =====
-- Runs of `verify_files_equal_bounded` of src/benchmark/end_to_end_baseline.cpp on concrete files, and
-- instances of its theorems.
use io_uring_async_load_proc.Prelude.{◌≡◌, refl, some, [], ◌∷◌, length, arith}
use io_uring_async_load_proc.Exception.{ok, throw, runtime_error}
use io_uring_async_load_proc.Config.{validate, is_power_of_two}
use io_uring_async_load_proc.Buffer.Aligned.{allocated, new_aligned_buffer, validate_allocation}
use io_uring_async_load_proc.Util.FileIo
use io_uring_async_load_proc.Util.FileIo.{transfers}
use io_uring_async_load_proc.Benchmark.Verify.{prepare_verification, verify_files_equal_bounded}
use io_uring_async_load_proc.Benchmark.Verify.Sound.{ReadsFile, verify_files_equal_bounded-Same}
use io_uring_async_load_proc.Benchmark.Verify.Complete.{verify_files_equal_bounded_accepts}
use io_uring_async_load_proc.Util.FileIo.Memory.{linear, set_bytes}
use io_uring_async_load_proc.Benchmark.Samples.{config, input, preads, serves}

verify_reads : ReadsFile linear preads input input
verify_reads = record { loads = serves.loads; reads = serves.reads; reads_end = serves.reads_end }

files_accepted :
    verify_files_equal_bounded linear preads preads 10 config
      (transfers 3)
      (transfers 4)
      (allocated 4096)
      (allocated 8192)
      input
      input
    ≡ some (ok 9)
unfolding verify_files_equal_bounded validate is_power_of_two new_aligned_buffer validate_allocation
    FileIo.read_at
files_accepted = refl

verify_files_equal_bounded-Same_example : (input ≡ input) × (length input ≡ 9)
verify_files_equal_bounded-Same_example =
    verify_files_equal_bounded-Same linear preads preads 10 config (transfers 3) (transfers 4)
      (allocated 4096) (allocated 8192) input input input input 9 verify_reads verify_reads
      files_accepted

verification_prepared :
    prepare_verification config (transfers 3) (transfers 4) (allocated 4096) (allocated 8192)
    ≡ ok tt
unfolding prepare_verification validate is_power_of_two new_aligned_buffer validate_allocation
verification_prepared = refl

verify_files_equal_bounded_accepts_example :
    verify_files_equal_bounded linear preads preads 10 config
      (transfers 3)
      (transfers 4)
      (allocated 4096)
      (allocated 8192)
      input
      input
    ≡ some (ok 9)
verify_files_equal_bounded_accepts_example =
    verify_files_equal_bounded_accepts linear preads preads 10 config (transfers 3) (transfers 4)
      (allocated 4096) (allocated 8192) input input input serves.loads serves.loads (omega arith)
      (λ i. refl) (λ i. refl) (omega arith) verification_prepared

-- The second file has another last byte.
files_rejected :
    verify_files_equal_bounded linear preads preads 10 config
      (transfers 3)
      (transfers 4)
      (allocated 4096)
      (allocated 8192)
      input
      (set_bytes input 8 (7 ∷ []))
    ≡ some (throw runtime_error)
unfolding verify_files_equal_bounded validate is_power_of_two new_aligned_buffer validate_allocation
    FileIo.read_at
files_rejected = refl
