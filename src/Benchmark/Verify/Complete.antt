-- ===== src/Benchmark/Verify/Complete.antt =====
-- That `verify_files_equal_bounded` of src/benchmark/end_to_end_baseline.cpp accepts equal files.
use io_uring_async_load_proc.Prelude.{
  ℕ, zero, suc, ◌+◌, ◌-◌, ◌^◌, ◌≤◌, ◌<◌, ◌≡◌, refl, ap₂, ◌∙◌, inl, inr, Bool, true, false, ◌&&◌,
  some, List, [], ◌∷◌, length, take, drop, leb, ◌==◌, arith, ℕ_discrete, length-take, length-drop,
  take-take_le, Bool-cases, min,
}
use io_uring_async_load_proc.Exception.{ok}
use io_uring_async_load_proc.Config.{PipelineConfig}
use io_uring_async_load_proc.Buffer.Aligned.{Allocation}
use io_uring_async_load_proc.Util.Errno.{eintr}
use io_uring_async_load_proc.Util.FileIo.{
  FileSystem, Answer, transfers, failed, ReadAtResult, read_at,
}
use io_uring_async_load_proc.Pipeline.Output.{checked_add}
use io_uring_async_load_proc.Benchmark.Verify.Sound.{prepared-some_size}
use io_uring_async_load_proc.Benchmark.Verify.{
  mismatch, compare_blocks, after_compare, after_reads, after_right, after_left, verify_loop,
  prepare_verification, verify_files_equal_bounded,
}

-- The first call that is not interrupted transfers `k` bytes, or all that there are.
abbrev pub is_whole : ℕ → List Answer → Bool
is_whole k [] = false
is_whole k (transfers n ∷ answers) = leb k n
is_whole k (failed e ∷ answers) = e == eintr && is_whole k answers

mismatch_none : (xs : List ℕ) → mismatch xs xs ≡ length xs
unfolding mismatch
mismatch_none [] = refl
mismatch_none (x ∷ xs) = ground (arith, mismatch_none xs)

module _ (fs : FileSystem) (left_preads right_preads : ℕ → List Answer) (block_size : ℕ)
    (left right : fs.File) (contents : List ℕ)
    (loads_left : (o k : ℕ) → fs.load left o k ≡ take k (drop o contents))
    (loads_right : (o k : ℕ) → fs.load right o k ≡ take k (drop o contents))
    (some_size : 0 < block_size) (small : length contents < 2 ^ 64)
    (whole_left : (i : ℕ) → is_whole block_size (left_preads i) ≡ true)
    (whole_right : (i : ℕ) → is_whole block_size (right_preads i) ≡ true) where
  abbrev block_at : ℕ → List ℕ
  block_at o = take block_size (drop o contents)

  abbrev complete : ℕ → ReadAtResult
  complete o = record { bytes_read = length (block_at o); error_number = 0 }

  read_at-whole :
      (file : fs.File) (o : ℕ) (answers : List Answer)
      → fs.load file o block_size ≡ block_at o
      → is_whole block_size answers ≡ true
      → (rest : List Answer) × (read_at fs answers file block_size o
          ≡ some (complete o, block_at o, rest))
  unfolding read_at
  read_at-whole file o [] loaded h = cc
  read_at-whole file o (transfers n ∷ answers) loaded h =
      let all : min n block_size ≡ block_size = ground arith in
      let same : take (min n block_size) (fs.load file o block_size) ≡ block_at o =
        ap₂ take all loaded ∙ take-take_le block_size block_size (drop o contents) (omega arith) in
      rw same (answers, refl)
  read_at-whole file o (failed e ∷ answers) loaded h = elim (Bool-cases (e == eintr)) [
    | inl again ↦ rw again (read_at-whole file o answers loaded (ground arith))
    | inr other ↦ absurd (ground arith)
  ]

  -- The loop goes on behind a block, and ends at the end.
  verify_loop-ends :
      (fuel i o : ℕ)
      → o ≤ length contents
      → length contents - o < fuel
      → verify_loop fs left_preads right_preads block_size left right fuel i o
        ≡ some (ok (length contents))
  unfolding verify_loop after_left after_right after_reads after_compare compare_blocks checked_add
  verify_loop-ends zero i o within enough = absurd (omega arith)
  verify_loop-ends (suc fuel) i o within enough =
      let (rest, got) =
        read_at-whole left o (left_preads i) (loads_left o block_size) (whole_left i) in
      let (rest', got') =
        read_at-whole right o (right_preads i) (loads_right o block_size) (whole_right i) in
      let size = length-take block_size (drop o contents) in
      let behind = length-drop o contents in
      let alike = mismatch_none (block_at o) in
      elim (ℕ_discrete (length (block_at o)) 0) [
        | yes nothing ↦
            let end : o ≡ length contents = omega (arith, size, behind) in
            ground (arith, got, got', nothing, end)
        | no something ↦
            let later =
              verify_loop-ends fuel (i + 1) (o + length (block_at o)) (omega (arith, size, behind))
                (omega (arith, size, behind)) in
            ground (arith, got, got', alike, later)
      ]

-- `verify_files_equal_bounded`, once it could open both files and has its blocks, returns the number of
-- bytes of two files that have the same bytes, fewer than 2 ^ 64, if each read gives a whole block
-- or the rest of the file. One round more than the files have bytes is enough.
pub verify_files_equal_bounded_accepts :
    (fs : FileSystem) (left_preads right_preads : ℕ → List Answer) (fuel : ℕ) (c : PipelineConfig)
    (opened_left opened_right : Answer) (left_memory right_memory : Allocation)
    (left right : fs.File) (contents : List ℕ)
    → ((o k : ℕ) → fs.load left o k ≡ take k (drop o contents))
    → ((o k : ℕ) → fs.load right o k ≡ take k (drop o contents))
    → length contents < 2 ^ 64
    → ((i : ℕ) → is_whole c.block_size (left_preads i) ≡ true)
    → ((i : ℕ) → is_whole c.block_size (right_preads i) ≡ true)
    → length contents < fuel
    → prepare_verification c opened_left opened_right left_memory right_memory ≡ ok tt
    → verify_files_equal_bounded fs left_preads right_preads fuel c opened_left opened_right
        left_memory right_memory left right
      ≡ some (ok (length contents))
unfolding verify_files_equal_bounded
verify_files_equal_bounded_accepts fs left_preads right_preads fuel c opened_left opened_right
      left_memory right_memory left right contents loads_left loads_right small whole_left
      whole_right enough prepared =
    let ends =
      verify_loop-ends fs left_preads right_preads c.block_size left right contents loads_left
        loads_right
        (prepared-some_size c opened_left opened_right left_memory right_memory prepared) small
        whole_left whole_right fuel 0 0 (omega arith) (omega arith) in
    ground arith
