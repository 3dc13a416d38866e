-- ===== src/Benchmark/Serial/Content.antt =====
-- What the serial loop of src/benchmark/end_to_end_baseline.cpp writes when the stages change a block
-- byte by byte.
-- The calls of an environment on an input with the given bytes: a read gives bytes from its offset
-- on, and none only at the end; the stages, as long as they are fit, change each byte by itself; and
-- a write that was complete has put the block into the file.
use io_uring_async_load_proc.Prelude.{
  ℕ, zero, suc, ◌+◌, ◌-◌, ◌^◌, ◌≤◌, ◌<◌, ◌≡◌, sym, ap, subst, ◌∙◌, some, List, [], ◌++◌, length,
  arith, map-take, map-drop, map, take, drop, length-take, length-drop, length-map, take-add,
  take-length,
}
use io_uring_async_load_proc.Exception.{ok}
use io_uring_async_load_proc.Util.FileIo.{WriteAtResult, FileSystem}
use io_uring_async_load_proc.Pipeline.Executor.Workers.State.{Environment}
use io_uring_async_load_proc.Benchmark.Serial.Whole.{serial_loop-IsWhole}
use io_uring_async_load_proc.Benchmark.Serial.Points.{
  point, offset, bytes_at, block_at, IsGood, offset-suc, stages-suc, bytes_of,
}
use io_uring_async_load_proc.Benchmark.Serial.{SerialPipelineResult, serial_loop}
use mathlib.Core.Path.{◌≡⟨◌⟩◌, ◌∎}

pub record Transforms (fs : FileSystem) (e : Environment) (contents : List ℕ) (change : ℕ → ℕ)
    (place : e.File → fs.File) (IsFit : e.Stages → Type 0) : Type 0 where
  pub read_part :
      (i o : ℕ) (bytes : List ℕ)
      → e.read i o ≡ some (ok bytes)
      → bytes ≡ take (length bytes) (drop o contents)
  pub read_end : (i o : ℕ) → e.read i o ≡ some (ok []) → length contents ≤ o
  pub changes : (t : e.Stages) (block : List ℕ) → IsFit t → (e.process t block).1 ≡ map change block
  pub stays_fit : (t : e.Stages) (block : List ℕ) → IsFit t → IsFit (e.process t block).0
  pub writes_all :
      (i o : ℕ) (file file' : e.File) (block : List ℕ) (w : WriteAtResult)
      → o + length block < 2 ^ 64
      → e.write i file block o ≡ some (w, file')
      → w.error_number ≡ 0
      → place file' ≡ fs.store (place file) o block

module _ (fs : FileSystem) (e : Environment) (contents : List ℕ) (change : ℕ → ℕ)
    (place : e.File → fs.File) (IsFit : e.Stages → Type 0)
    (tr : Transforms fs e contents change place IsFit) (stages : e.Stages) (output : e.File)
    (fit : IsFit stages) where
  open e use {read, process, write}

  abbrev stages_of : ℕ → e.Stages
  stages_of i = (point e stages output i).stages

  abbrev target : List ℕ
  target = map change contents

  -- The bytes up to the offset of a point are written, changed.
  pub record IsWritten (i : ℕ) : Type 0 where
    pub is_fit : IsFit (point e stages output i).stages
    pub within : offset e stages output i ≤ length contents
    pub stored :
        place (point e stages output i).output
        ≡ fs.store (place output) 0 (take (offset e stages output i) target)

  start-IsWritten : IsWritten 0
  unfolding point
  start-IsWritten = record {
    is_fit = fit;
    within = omega arith;
    stored = sym (fs.store_nothing (place output) 0);
  }

  next-IsWritten : (i : ℕ) → IsGood e stages output i → IsWritten i → IsWritten (suc i)
  next-IsWritten i g v =
      let o = offset e stages output i in
      let bytes = bytes_at e stages output i in
      let next = offset-suc e stages output i in
      let got : bytes ≡ take (length bytes) (drop o contents) =
        tr.read_part i o bytes (rw (ap bytes_of g.was_read) g.was_read) in
      let short : length bytes ≤ length contents - o = omega (
        arith,
        ap length got,
        length-take (length bytes) (drop o contents),
        length-drop o contents,
      ) in
      let block = block_at e stages output i in
      let changed : block ≡ map change bytes = tr.changes (stages_of i) bytes v.is_fit in
      let as_long : length block ≡ length bytes = rw changed (length-map bytes change) in
      let cut : map change bytes ≡ take (length bytes) (drop o target) =
        ap (map change) got
        ∙ map-take change (length bytes) (drop o contents)
        ∙ ap (take (length bytes)) (map-drop change o contents) in
      let size : length (take o target) ≡ o =
        omega (arith, length-take o target, length-map contents change, v.within) in
      let wrote =
        tr.writes_all i o _ _ block g.answer (omega (arith, g.fits, next, as_long)) g.written
          g.no_error in
      record {
        is_fit =
            subst IsFit (sym (stages-suc e stages output i))
              (tr.stays_fit (stages_of i) bytes v.is_fit);
        within = omega (arith, next, v.within, short);
        stored =
            place (point e stages output (suc i)).output
            ≡⟨ wrote ⟩ fs.store (place (point e stages output i).output) o block
            ≡⟨ ap (λ f. fs.store f o block) v.stored ⟩
              fs.store (fs.store (place output) 0 (take o target)) o block
            ≡⟨ ap (λ k. fs.store (fs.store (place output) 0 (take o target)) k block)
                (omega (arith, size)) ⟩
              fs.store (fs.store (place output) 0 (take o target)) (0 + length (take o target))
                block
            ≡⟨ fs.store_behind (place output) 0 (take o target) block ⟩
              fs.store (place output) 0 (take o target ++ block)
            ≡⟨ ap (λ t. fs.store (place output) 0 (take o target ++ t)) (changed ∙ cut) ⟩
              fs.store (place output) 0 (take o target ++ take (length bytes) (drop o target))
            ≡⟨ ap (fs.store (place output) 0) (sym (take-add o (length bytes) target)) ⟩
              fs.store (place output) 0 (take (o + length bytes) target)
            ≡⟨ ap (λ k. fs.store (place output) 0 (take k target)) (sym next) ⟩
              fs.store (place output) 0 (take (offset e stages output (suc i)) target) ∎;
      }

  IsWritten-up_to : (n i : ℕ) → ((j : ℕ) → j < n → IsGood e stages output j) → i ≤ n → IsWritten i
  IsWritten-up_to n zero good h = start-IsWritten
  IsWritten-up_to n (suc i) good h =
      next-IsWritten i (good i (omega arith)) (IsWritten-up_to n i good (omega arith))

  -- A serial loop that ends well has put every byte of the input into the output, changed and in
  -- its place, and returns their number.
  pub serial_loop-changes :
      (fuel : ℕ) (result : SerialPipelineResult) (stages' : e.Stages) (output' : e.File)
      → serial_loop e fuel 0 stages output (record { blocks_written = 0; bytes_written = 0 }) 0
        ≡ some (ok result, stages', output')
      → (place output' ≡ fs.store (place output) 0 (map change contents))
        × (result.bytes_written ≡ length contents)
  unfolding point
  serial_loop-changes fuel result stages' output' serial =
      let whole = serial_loop-IsWhole e stages output result stages' output' fuel 0 serial in
      let n = whole.blocks in
      let v = IsWritten-up_to n n (λ i below. whole.good i (omega arith) below) (omega arith) in
      let end = tr.read_end n (offset e stages output n) whole.at_end in
      let all : offset e stages output n ≡ length target =
        omega (arith, length-map contents change, v.within, end) in
      (
        ap place whole.same_output
            ∙ v.stored
            ∙ ap (fs.store (place output) 0) (ap (λ k. take k target) all ∙ take-length target),
        ground (arith, whole.same_result, v.within, end),
      )
