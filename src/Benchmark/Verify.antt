-- ===== src/Benchmark/Verify.antt =====
-- `verify_files_equal_bounded` of src/benchmark/end_to_end_baseline.cpp: two files are read block by
-- block and compared. The operating system answers the calls of each read in turn, and `none` stands
-- for a call that never returns.
pub mod Sound
pub mod Complete
mod Tests
use io_uring_async_load_proc.Prelude.{
  ℕ, zero, suc, ◌+◌, not, Option, none, some, List, [], ◌∷◌, length, ◌==◌, if◌then◌else◌,
}
use io_uring_async_load_proc.Exception.{
  Result, ok, throw, throw_if, ◌>>=◌, ◌>>◌, runtime_error, system_error,
}
use io_uring_async_load_proc.Config.{PipelineConfig, validate}
use io_uring_async_load_proc.Buffer.Aligned.{Allocation, new_aligned_buffer}
use io_uring_async_load_proc.Util.FileIo.{
  FileSystem, Answer, OpenFileResult, ReadAtResult, open_read_only, read_at,
}
use io_uring_async_load_proc.Pipeline.Output.{checked_add}

unfoldable pub open_comparison_input : Answer → Result OpenFileResult
unfolding open_read_only
open_comparison_input opened = do
  let result = open_read_only opened
  throw_if (not (result.error_number == 0)) (system_error result.error_number)
  ok result

-- `std::mismatch`, for a right side that is as long as the left one.
unfoldable pub mismatch : List ℕ → List ℕ → ℕ
mismatch [] right = 0
mismatch (x ∷ left) [] = 0
mismatch (x ∷ left) (y ∷ right) = let rest = mismatch left right in if x == y then suc rest else 0

unfoldable pub compare_blocks : ℕ → List ℕ → List ℕ → Result (Unit {0})
unfolding mismatch checked_add
compare_blocks file_offset left_bytes right_bytes =
    let local_offset = mismatch left_bytes right_bytes in
    if local_offset == length left_bytes
    then ok tt
    else (do at ← checked_add file_offset local_offset; throw runtime_error)

module _ (fs : FileSystem) (left_preads right_preads : ℕ → List Answer) (block_size : ℕ)
    (left right : fs.File) where
  abbrev pub Ending : Type 0
  Ending = Option (Result ℕ)

  unfoldable pub after_compare : (ℕ → Ending) → Result ℕ → Ending
  after_compare later (throw x) = some (throw x)
  after_compare later (ok file_offset) = later file_offset

  unfoldable pub after_reads :
      (ℕ → Ending) → ℕ → ReadAtResult → List ℕ → ReadAtResult → List ℕ → Ending
  unfolding after_compare compare_blocks
  after_reads later file_offset left_read left_bytes right_read right_bytes =
      let compared =
        compare_blocks file_offset left_bytes right_bytes
        >> checked_add file_offset left_read.bytes_read in
      let onward = after_compare later compared in
      if not (left_read.bytes_read == right_read.bytes_read)
      then some (throw runtime_error)
      else if left_read.bytes_read == 0
      then some (ok file_offset)
      else onward

  unfoldable pub after_right :
      (ℕ → Ending)
      → ℕ
      → ReadAtResult
      → List ℕ
      → Option (ReadAtResult × List ℕ × List Answer)
      → Ending
  unfolding after_reads
  after_right later file_offset left_read left_bytes none = none
  after_right later file_offset left_read left_bytes (some (right_read, right_bytes, rest)) =
      let onward = after_reads later file_offset left_read left_bytes right_read right_bytes in
      if not (right_read.error_number == 0)
      then some (throw (system_error right_read.error_number))
      else onward

  unfoldable pub after_left :
      (ℕ → Ending) → ℕ → ℕ → Option (ReadAtResult × List ℕ × List Answer) → Ending
  unfolding after_right
  after_left later i file_offset none = none
  after_left later i file_offset (some (left_read, left_bytes, rest)) =
      let onward =
        after_right later file_offset left_read left_bytes
          (read_at fs (right_preads i) right block_size file_offset) in
      if not (left_read.error_number == 0)
      then some (throw (system_error left_read.error_number))
      else onward

  -- The loop, with the number of rounds that may still come.
  unfoldable pub verify_loop : ℕ → ℕ → ℕ → Ending
  unfolding after_left
  verify_loop zero i file_offset = none
  verify_loop (suc fuel) i file_offset =
      after_left (verify_loop fuel (i + 1)) i file_offset
        (read_at fs (left_preads i) left block_size file_offset)

-- What comes before the loop, with the answers to the two calls of `open` and the two allocations.
unfoldable pub prepare_verification :
    PipelineConfig → Answer → Answer → Allocation → Allocation → Result (Unit {0})
unfolding open_comparison_input
prepare_verification c opened_left opened_right left_memory right_memory = do
  validate c
  left ← open_comparison_input opened_left
  right ← open_comparison_input opened_right
  left_block ← new_aligned_buffer c.block_size c.buffer_alignment left_memory
  right_block ← new_aligned_buffer c.block_size c.buffer_alignment right_memory
  ok tt

unfoldable pub verify_files_equal_bounded :
    (fs : FileSystem) (left_preads right_preads : ℕ → List Answer) (fuel : ℕ)
    → PipelineConfig
    → Answer
    → Answer
    → Allocation
    → Allocation
    → fs.File
    → fs.File
    → Option (Result ℕ)
unfolding prepare_verification verify_loop
verify_files_equal_bounded fs left_preads right_preads fuel c opened_left opened_right left_memory
      right_memory left right =
    elim (prepare_verification c opened_left opened_right left_memory right_memory) [
      | throw x ↦ some (throw x)
      | ok _ ↦ verify_loop fs left_preads right_preads c.block_size left right fuel 0 0
    ]
