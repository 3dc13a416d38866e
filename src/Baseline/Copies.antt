-- ===== src/Baseline/Copies.antt =====
-- The whole of src/baseline/sync_preprocess_baseline.cpp: every byte is copied, with its case flipped.
use io_uring_async_load_proc.Prelude.{
  ℕ, zero, suc, ◌+◌, ◌-◌, ◌%◌, ◌^◌, ◌≤◌, ◌<◌, ◌≡◌, refl, sym, ap, subst, ◌∙◌, true, Option, some,
  List, map, length, take, drop, arith, length-take, length-drop, length-map, take-length,
  ℕ_discrete, take-take_le,
}
use io_uring_async_load_proc.Util.FileIo.{
  FileSystem, Answer, transfers, read_at, write_all_at, open_read_only,
}
use io_uring_async_load_proc.Util.FileIo.WriteAll.{write_all_at-Written}
use io_uring_async_load_proc.Util.FileIo.ReadPart.{read_at-IsPart}
use io_uring_async_load_proc.Baseline.{
  SyncPreprocessResult, flip_case, stop, finish, after_write, after_read, copy_loop,
  run_sync_preprocess_baseline,
}
use io_uring_async_load_proc.Baseline.Blocks.{Serves, Copies, finish-Copies, next_stored}

module _ (fs : FileSystem) (preads : ℕ → List Answer) (pwrites : ℕ → ℕ → List Answer)
    (fsyncs : List Answer) (block_size : ℕ) (input output : fs.File) (contents : List ℕ)
    (serves : Serves fs preads pwrites fsyncs block_size input output contents)
    (some_size : 0 < block_size) (small : length contents < 2 ^ 64) where
  abbrev Later : Type 0
  Later = ℕ → ℕ → fs.File → Option (SyncPreprocessResult × fs.File)

  abbrev CopiesAll : Option (SyncPreprocessResult × fs.File) → Type 0
  CopiesAll = Copies fs preads pwrites fsyncs block_size input output contents

  abbrev wanted : List ℕ
  wanted = map flip_case contents

  after_write-Copies :
      (i o : ℕ) (later : Later) (file : fs.File) (bytes : List ℕ)
      → o + length bytes ≤ length contents
      → file ≡ fs.store output 0 (take o wanted)
      → bytes ≡ take (length bytes) (drop o contents)
      → ((file' : fs.File)
          → file' ≡ fs.store output 0 (take (o + length bytes) wanted)
          → CopiesAll (later (o + length bytes) (o + length bytes) file'))
      → CopiesAll (
          after_write fs preads pwrites fsyncs block_size input later o o
            (length bytes)
            file
            (write_all_at fs (pwrites i (length bytes)) file (map flip_case bytes) o))
  unfolding after_write
  after_write-Copies i o later file bytes within stored part onward =
      let block = map flip_case bytes in
      let as_long = length-map bytes flip_case in
      let (w, file', rest, wrote, v) =
        write_all_at-Written fs (pwrites i (length bytes)) file block o
          (omega (arith, small, as_long)) (serves.writes i (length bytes))
          (omega (arith, serves.writes_end i (length bytes), as_long)) in
      let whole =
        after_write fs preads pwrites fsyncs block_size input later o o (length bytes) file
          (write_all_at fs (pwrites i (length bytes)) file block o) in
      elim (ℕ_discrete w.error_number 0) [
        | no bad ↦
            let ends : whole
                ≡ stop fs preads pwrites fsyncs block_size input o o w.error_number file' =
              ground arith in
            subst CopiesAll (sym ends) (_, file', refl, λ fine. absurd (bad fine))
        | yes fine ↦
            let all : w.bytes_written ≡ length block = v.complete fine in
            let same : take w.bytes_written block ≡ block =
              ap (λ k. take k block) all ∙ take-length block in
            let next : (o + length bytes) % 2 ^ 64 ≡ o + length bytes = omega (arith, small) in
            let next_write : (o + w.bytes_written) % 2 ^ 64 ≡ o + length bytes =
              omega (arith, small, all, as_long) in
            let goes : whole ≡ later (o + length bytes) (o + length bytes) file' = ground arith in
            subst CopiesAll (sym goes) (
              onward file' (
                v.stored
                ∙ ap (fs.store file o) same
                ∙ next_stored fs preads pwrites fsyncs block_size input output contents serves
                    some_size small o file bytes (omega arith) stored part))
      ]

  after_read-Copies :
      (i o : ℕ) (later : Later) (file : fs.File)
      → o ≤ length contents
      → file ≡ fs.store output 0 (take o wanted)
      → ((o' : ℕ) (file' : fs.File)
          → o < o'
          → o' ≤ length contents
          → file' ≡ fs.store output 0 (take o' wanted)
          → CopiesAll (later o' o' file'))
      → CopiesAll (
          after_read fs preads pwrites fsyncs block_size input later i o o file
            (read_at fs (preads i) input block_size o))
  unfolding after_read
  after_read-Copies i o later file within stored onward =
      let (r, bytes, rest, got, v) =
        read_at-IsPart fs input block_size o some_size (preads i) (serves.reads i)
          (serves.reads_end i) in
      let whole =
        after_read fs preads pwrites fsyncs block_size input later i o o file
          (read_at fs (preads i) input block_size o) in
      elim (ℕ_discrete r.error_number 0) [
        | no bad ↦
            let ends : whole
                ≡ stop fs preads pwrites fsyncs block_size input o o r.error_number file =
              ground arith in
            subst CopiesAll (sym ends) (_, file, refl, λ fine. absurd (bad fine))
        | yes fine ↦
            let is_part = v fine in
            let available = ap length (serves.loads o block_size) in
            let left = length-take block_size (drop o contents) in
            let behind = length-drop o contents in
            elim (ℕ_discrete (length bytes) 0) [
              | yes none_read ↦
                  let at_end : length (fs.load input o block_size) ≡ 0 =
                    ap length (is_part.not_at_end none_read) in
                  let ends : whole ≡ finish fs preads pwrites fsyncs block_size input o o file =
                    ground (arith, is_part.counted) in
                  subst CopiesAll (sym ends) (
                    finish-Copies fs preads pwrites fsyncs block_size input output contents serves
                      some_size small o file
                      (omega (arith, within, at_end, available, left, behind)) stored)
              | no some_read ↦
                  let cut = ap length is_part.part in
                  let taken = length-take (length bytes) (fs.load input o block_size) in
                  let short : length bytes ≤ block_size =
                    omega (arith, cut, taken, available, left) in
                  let fits : o + length bytes ≤ length contents =
                    omega (arith, cut, taken, available, left, behind, within) in
                  let part : bytes ≡ take (length bytes) (drop o contents) =
                    is_part.part
                    ∙ ap (take (length bytes)) (serves.loads o block_size)
                    ∙ take-take_le (length bytes) block_size (drop o contents) short in
                  let goes : whole
                      ≡ after_write fs preads pwrites fsyncs block_size input later o o
                          (length bytes) file
                          (write_all_at fs (pwrites i (length bytes)) file (map flip_case bytes)
                            o) =
                    ground (arith, is_part.counted) in
                  subst CopiesAll (sym goes) (
                    after_write-Copies i o later file bytes fits stored part
                      (λ file' stored'. onward (o + length bytes) file' (omega arith) fits stored'))
            ]
      ]

  copy_loop-Copies :
      (fuel i o : ℕ) (file : fs.File)
      → o ≤ length contents
      → file ≡ fs.store output 0 (take o wanted)
      → length contents - o < fuel
      → CopiesAll (copy_loop fs preads pwrites fsyncs block_size input fuel i o o file)
  unfolding copy_loop
  copy_loop-Copies zero i o file within stored enough = absurd (omega arith)
  copy_loop-Copies (suc fuel) i o file within stored enough =
      after_read-Copies i o (copy_loop fs preads pwrites fsyncs block_size input fuel (i + 1)) file
        within stored
        (λ o' file' further within' stored'.
          copy_loop-Copies fuel (i + 1) o' file' within' stored' (omega arith))

  -- The baseline returns, on an input of fewer than 2 ^ 64 bytes whose descriptor and output could
  -- be opened, with a positive block size, if no call of the operating system is interrupted for
  -- ever. One round more than the input has bytes is enough. When it reports no error, the output
  -- holds every byte of the input in its place with the case of ASCII letters flipped, and both
  -- counts are the size of the input.
  pub run_sync_preprocess_baseline-Copies :
      (in_fd out_fd fuel : ℕ)
      → length contents < fuel
      → (r : SyncPreprocessResult) × (output' : fs.File) × (run_sync_preprocess_baseline fs preads
            pwrites fsyncs fuel block_size true true
            (transfers in_fd)
            (transfers out_fd)
            input
            output
          ≡ some (r, output'))
        × (r.error_number ≡ 0
            → (output' ≡ fs.store output 0 (map flip_case contents))
              × (r.bytes_read ≡ length contents)
              × (r.bytes_written ≡ length contents))
  unfolding run_sync_preprocess_baseline open_read_only
  run_sync_preprocess_baseline-Copies in_fd out_fd fuel enough =
      let (r, output', ran, right) =
        copy_loop-Copies fuel 0 0 output (omega arith) (sym (fs.store_nothing output 0))
          (omega arith) in
      (r, output', ground arith, right)
