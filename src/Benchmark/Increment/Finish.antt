-- ===== src/Benchmark/Increment/Finish.antt =====
-- The serial loop of src/benchmark/end_to_end_baseline.cpp ends well if no call of the operating system
-- fails, within one round more than the input has bytes.
use io_uring_async_load_proc.Prelude.{
  ℕ, zero, suc, ◌+◌, ◌-◌, ◌^◌, ◌≤◌, ◌<◌, ◌≡◌, refl, ap, ◌∙◌, Option, some, List, [], ◌∷◌, length,
  arith, length-map,
}
use io_uring_async_load_proc.Exception.{Result, ok}
use io_uring_async_load_proc.Config.{PipelineConfig}
use io_uring_async_load_proc.Util.FileIo.{FileSystem, Answer}
use io_uring_async_load_proc.Util.FileIo.Calm.{Calm, read_at_no_error, write_all_at_no_error}
use io_uring_async_load_proc.Util.FileIo.WriteAll.{write_all_at-Written}
use io_uring_async_load_proc.Util.FileIo.ReadPart.{read_at-IsPart}
use io_uring_async_load_proc.Backend.Sync
use io_uring_async_load_proc.Pipeline.Executor.Workers.State.{Environment}
use io_uring_async_load_proc.Pipeline.Output.{checked_add}
use io_uring_async_load_proc.Pipeline.StagePipeline.{run_stages, process_from}
use io_uring_async_load_proc.Pipeline.Stages.{byte_increment, increment_byte}
use io_uring_async_load_proc.Pipeline.Executor.Compose.{read_block, forget_answers, process_with}
use io_uring_async_load_proc.Benchmark.Serial.{
  SerialPipelineResult, settle, after_write, after_process, round, after_round, after_read,
  serial_loop,
}
use io_uring_async_load_proc.Benchmark.Increment.Correct.{
  increments, Serves, OneStage, one_stage_lem, increments-EndsAt,
}

settle_lem :
    (result : SerialPipelineResult) (o size : ℕ)
    → result.blocks_written + 1 < 2 ^ 64
    → result.bytes_written + size < 2 ^ 64
    → o + size < 2 ^ 64
    → settle result o size (record { bytes_written = size; error_number = 0 })
      ≡ ok (
        record {
          blocks_written = result.blocks_written + 1;
          bytes_written = result.bytes_written + size;
        },
        o + size,
      )
unfolding settle checked_add
settle_lem result o size h h' h'' = ground arith

module _ (fs : FileSystem) (c : PipelineConfig) (times : ℕ → ℕ × ℕ) (preads : ℕ → List Answer)
    (pwrites : ℕ → ℕ → List Answer) (input : fs.File) (contents : List ℕ)
    (serves : Serves fs c times preads pwrites input contents) (some_size : 0 < c.block_size)
    (small : length contents < 2 ^ 64) (calm_reads : (i : ℕ) → Calm (preads i))
    (calm_writes : (i size : ℕ) → Calm (pwrites i size)) where
  abbrev work : Environment
  work = increments fs c times preads pwrites input contents

  read_ok : (i o : ℕ) → (got : List ℕ) × (work.read i o ≡ some (ok got))
  unfolding read_block Sync.read_at
  read_ok i o =
      let (r, bytes, rest, answered, v) =
        read_at-IsPart fs input c.block_size o some_size (preads i) (serves.reads i)
          (serves.reads_end i) in
      let fine =
        read_at_no_error fs (preads i) input c.block_size o (calm_reads i) r bytes rest answered in
      (bytes, ground arith)

  write_ok :
      (i o : ℕ) (file : fs.File) (block : List ℕ)
      → o + length block < 2 ^ 64
      → (end : fs.File) × (work.write i file block o
          ≡ some (record { bytes_written = length block; error_number = 0 }, end))
  unfolding forget_answers
  write_ok i o file block fits =
      let (r, end, rest, answered, v) =
        write_all_at-Written fs (pwrites i (length block)) file block o fits
          (serves.writes i (length block)) (serves.writes_end i (length block)) in
      let fine =
        write_all_at_no_error fs (pwrites i (length block)) file block o
          (calm_writes i (length block)) r end rest answered in
      let all = v.complete fine in (end, ground arith)

  process_ok :
      (t : work.Stages) (block : List ℕ)
      → OneStage fs c times preads pwrites input contents t
      → (work.process t block).2 ≡ ok tt
  unfolding process_with run_stages process_from byte_increment
  process_ok (p, r) block (latency, same) = rw same refl

  abbrev Ends : Option (Result SerialPipelineResult × work.Stages × work.File) → Type 0
  Ends o =
      (result : SerialPipelineResult) × (stages' : work.Stages) × (output' : fs.File) × (o
        ≡ some (ok result, stages', output'))

  abbrev Later : Type 0
  Later =
      work.Stages
      → fs.File
      → SerialPipelineResult
      → ℕ
      → Option (Result SerialPipelineResult × work.Stages × work.File)

  after_read-Ends :
      (later : Later) (i o blocks : ℕ) (stages : work.Stages) (output : fs.File)
      → OneStage fs c times preads pwrites input contents stages
      → o ≤ length contents
      → blocks ≤ o
      → ((o' : ℕ) (stages' : work.Stages) (output' : fs.File)
          → OneStage fs c times preads pwrites input contents stages'
          → o < o'
          → o' ≤ length contents
          → Ends (
              later stages' output'
                (record { blocks_written = blocks + 1; bytes_written = o' })
                o'))
      → (got : List ℕ) → work.read i o ≡ some (ok got)
      → Ends (
          after_read work later i stages output
            (record { blocks_written = blocks; bytes_written = o })
            o
            (some (ok got)))
  unfolding after_read after_round round after_process after_write
  after_read-Ends later i o blocks stages output one within few onward [] was_read =
      (_, stages, output, refl)
  after_read-Ends later i o blocks stages output one within few onward (b ∷ bs) was_read =
      let bytes = b ∷ bs in
      let (changed, still_one) =
        one_stage_lem fs c times preads pwrites input contents serves some_size stages bytes one in
      let stages' = (work.process stages bytes).0 in
      let block = (work.process stages bytes).1 in
      let as_long : length block ≡ length bytes =
        ap length changed ∙ length-map bytes increment_byte in
      let more =
        increments-EndsAt fs c times preads pwrites input contents serves some_size i o bytes
          was_read (omega arith) in
      let (output', wrote) = write_ok i o output block (omega (arith, as_long, more, small)) in
      let settled =
        settle_lem (record { blocks_written = blocks; bytes_written = o }) o (length bytes)
          (omega arith) (omega arith) (omega arith) in
      let (result, last, written, goes) =
        onward (o + length bytes) stages' output' still_one (omega arith) more in
      let done = process_ok stages bytes one in
      (result, last, written, ground (arith, done, wrote, as_long, settled, goes))

  -- The loop on one stage that increments bytes, from any offset on.
  pub serial_loop-Ends :
      (fuel i o blocks : ℕ) (stages : work.Stages) (output : fs.File)
      → OneStage fs c times preads pwrites input contents stages
      → o ≤ length contents
      → blocks ≤ o
      → length contents - o < fuel
      → Ends (
          serial_loop work fuel i stages output
            (record { blocks_written = blocks; bytes_written = o })
            o)
  unfolding serial_loop
  serial_loop-Ends zero i o blocks stages output one within few enough = absurd (omega arith)
  serial_loop-Ends (suc fuel) i o blocks stages output one within few enough =
      let (got, was_read) = read_ok i o in
      let (result, stages', output', goes) =
        after_read-Ends (serial_loop work fuel (i + 1)) i o blocks stages output one within few
          (λ o' stages' output' one' further within'.
            serial_loop-Ends fuel (i + 1) o' (blocks + 1) stages' output' one' within' (omega arith)
              (omega arith))
          got was_read in
      (result, stages', output', rw was_read goes)
