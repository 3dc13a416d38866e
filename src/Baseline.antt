-- ===== src/Baseline.antt =====
-- src/baseline/sync_preprocess_baseline.cpp: a file is read block by block, the case of its ASCII
-- letters is flipped, and the blocks are written to another file. The operating system answers the
-- calls of each read and each write in turn; `none` stands for a call that never returns.
pub mod Blocks
pub mod Copies
mod Tests
use io_uring_async_load_proc.Prelude.{
  ℕ, zero, suc, ◌+◌, ◌-◌, ◌%◌, ◌^◌, ◌≤◌, ◌<◌, ◌≡◌, ◌≢◌, refl, sym, ap, subst, ◌∙◌, inl, inr, Bool,
  true, false, not, ◌&&◌, ◌||◌, Option, none, some, List, [], ◌∷◌, ◌++◌, map, length, take, drop,
  leb, ltb, ◌==◌, if◌then◌else◌, bit_xor, arith, Bool-cases, Option-cases, min, length-take,
  length-drop, length-map, take-add, take-length, dec_lt, ℕ_discrete, ==_iff,
}
use io_uring_async_load_proc.Util.Errno.{einval}
use io_uring_async_load_proc.Util.FileIo.{
  FileSystem, Answer, transfers, failed, ReadAtResult, WriteAtResult, read_at, write_all_at,
  fsync_fd, open_read_only,
}

pub record SyncPreprocessResult : Type 0 where
  pub bytes_read : ℕ
  pub bytes_written : ℕ
  pub error_number : ℕ

-- A `char` from 128 on is negative, and below every letter.
unfoldable pub flip_case : ℕ → ℕ
flip_case byte =
    if (leb 97 byte && leb byte 122) || (leb 65 byte && leb byte 90)
    then bit_xor byte 0x20
    else byte

module _ (fs : FileSystem) (preads : ℕ → List Answer) (pwrites : ℕ → ℕ → List Answer)
    (fsyncs : List Answer) (block_size : ℕ) (input : fs.File) where
  open fs use {File}

  -- How the function ends, with the output file.
  abbrev pub Ending : Type 0
  Ending = Option (SyncPreprocessResult × File)

  abbrev pub stop : ℕ → ℕ → ℕ → File → Ending
  stop total_read total_written error_number output = some (
    record { bytes_read = total_read; bytes_written = total_written; error_number = error_number },
    output,
  )

  -- The part behind the loop.
  unfoldable pub finish : ℕ → ℕ → File → Ending
  finish total_read total_written output = elim (fsync_fd fsyncs) [
    | none ↦ none
    | some (error_number, rest) ↦ stop total_read total_written error_number output
  ]

  -- What is left of the loop is a function of the totals, which are the offsets too, and the output.
  unfoldable pub after_write :
      (ℕ → ℕ → File → Ending)
      → ℕ
      → ℕ
      → ℕ
      → File
      → Option (WriteAtResult × File × List Answer)
      → Ending
  after_write later total_read total_written count output none = none
  after_write later total_read total_written count output (some (w, output', rest)) =
      let onward =
        later ((total_read + count) % 2 ^ 64) ((total_written + w.bytes_written) % 2 ^ 64)
          output' in
      if w.error_number == 0 then onward else stop total_read total_written w.error_number output'

  -- The buffer holds the bytes that were read in front of what it held before.
  unfoldable pub after_read :
      (ℕ → ℕ → File → Ending)
      → ℕ
      → ℕ
      → ℕ
      → File
      → Option (ReadAtResult × List ℕ × List Answer)
      → Ending
  unfolding after_write
  after_read later i total_read total_written output none = none
  after_read later i total_read total_written output (some (r, bytes, rest)) =
      let count = r.bytes_read in
      let write = write_all_at fs (pwrites i count) output (map flip_case bytes) total_written in
      let onward = after_write later total_read total_written count output write in
      if not (r.error_number == 0)
      then stop total_read total_written r.error_number output
      else if count == 0
      then finish total_read total_written output
      else onward

  -- The loop, with the number of rounds that may still come.
  unfoldable pub copy_loop : ℕ → ℕ → ℕ → ℕ → File → Ending
  unfolding after_read finish
  copy_loop zero i total_read total_written output = none
  copy_loop (suc fuel) i total_read total_written output =
      after_read (copy_loop fuel (i + 1)) i total_read total_written output
        (read_at fs (preads i) input block_size total_read)

-- The tests before the loop: whether the paths are null, and what the two calls of `open` answer.
-- `output` is the output file as its `open` has left it.
unfoldable pub run_sync_preprocess_baseline :
    (fs : FileSystem) (preads : ℕ → List Answer) (pwrites : ℕ → ℕ → List Answer)
    (fsyncs : List Answer) (fuel block_size : ℕ)
    → Bool
    → Bool
    → Answer
    → Answer
    → fs.File
    → fs.File
    → Option (SyncPreprocessResult × fs.File)
unfolding copy_loop open_read_only
run_sync_preprocess_baseline fs preads pwrites fsyncs fuel block_size has_input has_output
      opened_input opened_output input output =
    let fail = λ (e : ℕ). stop fs preads pwrites fsyncs block_size input 0 0 e output in
    let in_result = open_read_only opened_input in
    let copied = copy_loop fs preads pwrites fsyncs block_size input fuel 0 0 0 output in
    if not has_input || (not has_output || block_size == 0)
    then fail einval
    else if not (in_result.error_number == 0)
    then fail in_result.error_number
    else (elim opened_output [ failed e ↦ fail e | transfers fd ↦ copied ])
