-- ===== src/Benchmark/Verify/Sound.antt =====
-- What `verify_files_equal_bounded` of src/benchmark/end_to_end_baseline.cpp accepts.
use io_uring_async_load_proc.Prelude.{
  ℕ, zero, suc, ◌+◌, ◌≤◌, ◌<◌, ◌≡◌, refl, sym, ap, ap₂, subst, ◌∙◌, inl, inr, Option, some, List,
  [], ◌∷◌, ◌++◌, length, take, drop, arith, ℕ_discrete, length-take, length-drop, take-append-drop,
  take-take_le, drop-drop,
}
use io_uring_async_load_proc.Exception.{Result, ok, Result-cases, >>=-eq-ok, ◌>>◌}
use io_uring_async_load_proc.Buffer.Aligned.{Allocation}
use io_uring_async_load_proc.Config.{PipelineConfig, validate}
use io_uring_async_load_proc.Util.FileIo.{FileSystem, Answer, ReadAtResult}
use io_uring_async_load_proc.Util.FileIo.WriteAll.{effective}
use io_uring_async_load_proc.Util.FileIo.ReadPart.{Reads, IsPart, read_at-IsPart, nil_of_length}
use io_uring_async_load_proc.Pipeline.Output.{checked_add}
use io_uring_async_load_proc.Benchmark.Verify.{
  mismatch, compare_blocks, after_compare, after_reads, after_right, after_left, verify_loop,
  prepare_verification, verify_files_equal_bounded,
}

-- What the operating system does with the reads of a file: each gives a part of it, and none is
-- interrupted for ever.
pub record ReadsFile (fs : FileSystem) (preads : ℕ → List Answer) (file : fs.File)
    (contents : List ℕ) : Type 0 where
  pub loads : (o k : ℕ) → fs.load file o k ≡ take k (drop o contents)
  pub reads : (i : ℕ) → Reads (preads i)
  pub reads_end : (i : ℕ) → 0 < effective (preads i)

mismatch-same : (xs ys : List ℕ) → length xs ≡ length ys → mismatch xs ys ≡ length xs → xs ≡ ys
unfolding mismatch
mismatch-same [] [] h e = refl
mismatch-same [] (y ∷ ys) h e = absurd (omega arith)
mismatch-same (x ∷ xs) [] h e = absurd (omega arith)
mismatch-same (x ∷ xs) (y ∷ ys) h e = ground (arith, mismatch-same xs ys)

-- Two blocks of the same length that compare well are the same.
compare_blocks-same :
    (o : ℕ) (xs ys : List ℕ) → length xs ≡ length ys → compare_blocks o xs ys ≡ ok tt → xs ≡ ys
unfolding compare_blocks
compare_blocks-same o xs ys h e = ground (arith, mismatch-same xs ys h)

module _ (fs : FileSystem) (left_preads right_preads : ℕ → List Answer) (block_size : ℕ)
    (left right : fs.File) (left_contents right_contents : List ℕ)
    (left_reads : ReadsFile fs left_preads left left_contents)
    (right_reads : ReadsFile fs right_preads right right_contents)
    (some_size : 0 < block_size) where
  part_of :
      (file : fs.File) (contents : List ℕ) (o : ℕ) (bytes : List ℕ)
      → fs.load file o block_size ≡ take block_size (drop o contents)
      → bytes ≡ take (length bytes) (fs.load file o block_size)
      → bytes ≡ take (length bytes) (drop o contents)
  part_of file contents o bytes loaded part =
      let short : length bytes ≤ block_size = omega (
        arith,
        ap length part,
        length-take (length bytes) (fs.load file o block_size),
        ap length loaded,
        length-take block_size (drop o contents),
      ) in
      part
      ∙ ap (take (length bytes)) loaded
      ∙ take-take_le (length bytes) block_size (drop o contents) short

  checked_add_lem : (o count next : ℕ) → checked_add o count ≡ ok next → next ≡ o + count
  unfolding checked_add
  checked_add_lem o count next h = ground arith

  -- From the offset on both files are the same, and `n` is where they end.
  abbrev Same : ℕ → ℕ → Type 0
  Same o n =
      (drop o left_contents ≡ drop o right_contents) × (o + length (drop o left_contents) ≡ n)

  -- What the rest of the loop accepts.
  abbrev Accepts : (ℕ → Option (Result ℕ)) → Type 0
  Accepts later = (o n : ℕ) → later o ≡ some (ok n) → Same o n

  next_Same :
      (o n : ℕ) (xs ys : List ℕ)
      → xs ≡ take (length xs) (drop o left_contents)
      → ys ≡ take (length ys) (drop o right_contents)
      → xs ≡ ys
      → Same (o + length xs) n
      → Same o n
  next_Same o n xs ys part part' same (rest, all) =
      let k = length xs in
      let left_split : drop o left_contents ≡ xs ++ drop (o + k) left_contents =
        sym (take-append-drop k (drop o left_contents))
        ∙ ap₂ (λ t u. t ++ u) (sym part) (sym (drop-drop o k left_contents)) in
      let right_split : drop o right_contents ≡ ys ++ drop (o + length ys) right_contents =
        sym (take-append-drop (length ys) (drop o right_contents))
        ∙ ap₂ (λ t u. t ++ u) (sym part') (sym (drop-drop o (length ys) right_contents)) in
      (
        left_split
            ∙ ap (λ t. xs ++ t) rest
            ∙ ap (λ t. t ++ drop (o + length t) right_contents) same
            ∙ sym right_split,
        omega (
          arith,
          all,
          length-drop o left_contents,
          length-drop (o + k) left_contents,
          ap length part,
          length-take k (drop o left_contents),
        ),
      )

  after_reads-Same :
      (later : ℕ → Option (Result ℕ)) (o n : ℕ) (l r : ReadAtResult) (xs ys : List ℕ)
      → IsPart (fs.load left o block_size) l xs
      → IsPart (fs.load right o block_size) r ys
      → Accepts later
      → after_reads fs left_preads right_preads block_size left right later o l xs r ys
        ≡ some (ok n)
      → Same o n
  unfolding after_reads after_compare
  after_reads-Same later o n l r xs ys v w accepts h =
      let at_end : (loaded contents : List ℕ)
          → loaded ≡ take block_size (drop o contents)
          → loaded ≡ []
          → drop o contents ≡ [] =
        λ loaded contents cut none_left. nil_of_length (drop o contents) (
          omega (
            arith,
            ap length cut,
            ap length none_left,
            length-take block_size (drop o contents),
          )) in
      let compared = compare_blocks o xs ys >> checked_add o l.bytes_read in
      elim (ℕ_discrete l.bytes_read r.bytes_read) [
        | no differ ↦ absurd (ground arith)
        | yes same ↦ elim (ℕ_discrete l.bytes_read 0) [
          | yes none_read ↦
              let ended : o ≡ n = ground arith in
              let left_end =
                at_end _ left_contents (left_reads.loads o block_size)
                  (v.not_at_end (omega (arith, v.counted))) in
              let right_end =
                at_end _ right_contents (right_reads.loads o block_size)
                  (w.not_at_end (omega (arith, w.counted, same))) in
              (left_end ∙ sym right_end, omega (arith, ap length left_end, ended))
          | no some_read ↦ elim (Result-cases compared) [
            | inr (x, threw) ↦ absurd (ground arith)
            | inl (next, goes) ↦
                let (_, alike, added) = >>=-eq-ok (compare_blocks o xs ys) _ goes in
                let as_long : length xs ≡ length ys = omega (arith, v.counted, w.counted, same) in
                let there : next ≡ o + length xs =
                  checked_add_lem o l.bytes_read next added ∙ ap (λ k. o + k) v.counted in
                let later_same = accepts next n (ground arith) in
                next_Same o n xs ys
                  (part_of left left_contents o xs (left_reads.loads o block_size) v.part)
                  (part_of right right_contents o ys (right_reads.loads o block_size) w.part)
                  (compare_blocks-same o xs ys as_long alike)
                  (subst (λ t. Same t n) there later_same)
          ]
        ]
      ]

  verify_loop-Same :
      (fuel i : ℕ) → Accepts (verify_loop fs left_preads right_preads block_size left right fuel i)
  unfolding verify_loop after_left after_right
  verify_loop-Same zero i o n h = cc
  verify_loop-Same (suc fuel) i o n h =
      let (l, xs, rest, got, v) =
        read_at-IsPart fs left block_size o some_size (left_preads i) (left_reads.reads i)
          (left_reads.reads_end i) in
      let (r, ys, rest', got', w) =
        read_at-IsPart fs right block_size o some_size (right_preads i) (right_reads.reads i)
          (right_reads.reads_end i) in
      elim (ℕ_discrete l.error_number 0) [
        | no bad ↦ absurd (ground arith)
        | yes fine ↦ elim (ℕ_discrete r.error_number 0) [
          | no bad ↦ absurd (ground arith)
          | yes fine' ↦
              after_reads-Same
                (verify_loop fs left_preads right_preads block_size left right fuel (i + 1)) o n l r
                xs ys (v fine) (w fine') (verify_loop-Same fuel (i + 1)) (ground arith)
        ]
      ]

pub prepared-some_size :
    (c : PipelineConfig) (opened_left opened_right : Answer) (left_memory right_memory : Allocation)
    → prepare_verification c opened_left opened_right left_memory right_memory ≡ ok tt
    → 0 < c.block_size
unfolding prepare_verification validate
prepared-some_size c opened_left opened_right left_memory right_memory h =
    let (_, valid, _) = >>=-eq-ok (validate c) _ h in ground arith

-- If `verify_files_equal_bounded` returns a count, then both files have the same bytes, and the count
-- is their number, however the operating system divides its reads, as long as a read that
-- transfers nothing is at the end of the file and no call is interrupted for ever.
pub verify_files_equal_bounded-Same :
    (fs : FileSystem) (left_preads right_preads : ℕ → List Answer) (fuel : ℕ) (c : PipelineConfig)
    (opened_left opened_right : Answer) (left_memory right_memory : Allocation)
    (left right : fs.File) (left_contents right_contents : List ℕ) (n : ℕ)
    → ReadsFile fs left_preads left left_contents
    → ReadsFile fs right_preads right right_contents
    → verify_files_equal_bounded fs left_preads right_preads fuel c opened_left opened_right
        left_memory right_memory left right
      ≡ some (ok n)
    → (left_contents ≡ right_contents) × (length left_contents ≡ n)
unfolding verify_files_equal_bounded
verify_files_equal_bounded-Same fs left_preads right_preads fuel c opened_left opened_right
      left_memory right_memory left right left_contents right_contents n left_reads right_reads h =
    elim (Result-cases (prepare_verification c opened_left opened_right left_memory right_memory)) [
      | inr (x, threw) ↦ absurd (ground arith)
      | inl (_, prepared) ↦
          let (same, all) =
            verify_loop-Same fs left_preads right_preads c.block_size left right left_contents
              right_contents left_reads right_reads
              (prepared-some_size c opened_left opened_right left_memory right_memory prepared) fuel
              0 0 n (ground arith) in
          (same, omega (arith, all))
    ]
