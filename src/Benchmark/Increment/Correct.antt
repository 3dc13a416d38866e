-- ===== src/Benchmark/Increment/Correct.antt =====
-- The pipeline and the serial loop of src/benchmark/end_to_end_baseline.cpp increment every byte of a
-- file.
use io_uring_async_load_proc.Prelude.{
  ℕ_discrete, ℕ, ◌+◌, ◌^◌, ◌≤◌, ◌<◌, ◌≡◌, refl, sym, ap, subst, ◌∙◌, true, false, Option, none,
  some, List, [], ◌∷◌, length, arith, map, take, drop, length-take, length-drop, take-length,
  take-take_le,
}
use io_uring_async_load_proc.Exception.{ok}
use io_uring_async_load_proc.Config.{PipelineConfig}
use io_uring_async_load_proc.Util.FileIo.{WriteAtResult, FileSystem, Answer, ReadAtResult}
use io_uring_async_load_proc.Pipeline.Executor.{admit}
use io_uring_async_load_proc.Pipeline.SpscQueue.{SpscQueue}
use io_uring_async_load_proc.Pipeline.Executor.Workers.State.{
  Item, Environment, Thread, RunCounters,
}
use io_uring_async_load_proc.Metrics.Name.{bytes}
use io_uring_async_load_proc.Pipeline.StagePipeline.{run_stages, process_from}
use io_uring_async_load_proc.Pipeline.Stages.{byte_increment, increment_byte}
use io_uring_async_load_proc.Util.FileIo.WriteAll.{effective, Sane, write_all_at-Written}
use io_uring_async_load_proc.Util.FileIo.ReadPart.{Reads, IsPart, read_at-IsPart}
use io_uring_async_load_proc.Backend.Sync
use io_uring_async_load_proc.Pipeline.Executor.Compose.{
  file_environment, read_block, forget_answers, process_with, file_environment-Responds,
}
use io_uring_async_load_proc.Benchmark.Increment.{increment_stage}
use io_uring_async_load_proc.Benchmark.Serial.Content.{Transforms, serial_loop-changes}
use io_uring_async_load_proc.Metrics.Gauge.{value_max}
use io_uring_async_load_proc.Buffer.Aligned.{Allocation}
use io_uring_async_load_proc.Pipeline.Executor.Run.{RunGauges, make_queues, run}
use io_uring_async_load_proc.Pipeline.Executor.Workers.Loops.{step, run_workers, start_workers}
use io_uring_async_load_proc.Pipeline.Executor.Workers.Queues.{spsc_calls}
use io_uring_async_load_proc.Pipeline.Executor.Workers.Same.{QueueRun}
use io_uring_async_load_proc.Benchmark.Serial.{SerialPipelineResult, serial_loop}
use io_uring_async_load_proc.Benchmark.Serial.Equivalence.{run-serial}
use io_uring_async_load_proc.Benchmark.Serial.InStep.{FitsBuffer}
use io_uring_async_load_proc.Pipeline.Executor.Workers.Measure.{EndsAt}

module _ (fs : FileSystem) (c : PipelineConfig) (times : ℕ → ℕ × ℕ) (preads : ℕ → List Answer)
    (pwrites : ℕ → ℕ → List Answer) (input : fs.File) (contents : List ℕ) where
  abbrev pub increments : Environment
  increments = file_environment fs increment_stage c times preads pwrites input

  -- What the operating system does: a read gives a part of the input, and no call is interrupted for
  -- ever.
  pub record Serves : Type 0 where
    pub loads : (o k : ℕ) → fs.load input o k ≡ take k (drop o contents)
    pub reads : (i : ℕ) → Reads (preads i)
    pub reads_end : (i : ℕ) → 0 < effective (preads i)
    pub writes : (i size : ℕ) → Sane (pwrites i size)
    pub writes_end : (i size : ℕ) → size ≤ effective (pwrites i size)

  abbrev pub OneStage : increments.Stages → Type 0
  OneStage (p, r) =
      (latency : Option ℕ) × (p.stages ≡ record { stage = tt; latency = latency } ∷ [])

  module _ (serves : Serves) (some_size : 0 < c.block_size) where
    read_lem :
        (i o : ℕ) (got : List ℕ)
        → increments.read i o ≡ some (ok got)
        → (r : ReadAtResult) × IsPart (fs.load input o c.block_size) r got
    unfolding read_block Sync.read_at
    read_lem i o got h =
        let (r, bytes, rest, answered, v) =
          read_at-IsPart fs input c.block_size o some_size (preads i) (serves.reads i)
            (serves.reads_end i) in
        elim (ℕ_discrete r.error_number 0) [
          | no bad ↦ absurd (ground arith)
          | yes fine ↦
              let same : bytes ≡ got = ground arith in
              (r, subst (IsPart (fs.load input o c.block_size) r) same (v fine))
        ]

    pub one_stage_lem :
        (t : increments.Stages) (block : List ℕ)
        → OneStage t
        → ((increments.process t block).1 ≡ map increment_byte block)
          × OneStage (increments.process t block).0
    unfolding process_with run_stages process_from byte_increment
    one_stage_lem (p, r) block (latency, same) = rw same (refl, (latency, refl))

    write_lem :
        (i o : ℕ) (file file' : fs.File) (block : List ℕ) (w : WriteAtResult)
        → o + length block < 2 ^ 64
        → increments.write i file block o ≡ some (w, file')
        → w.error_number ≡ 0
        → file' ≡ fs.store file o block
    unfolding forget_answers
    write_lem i o file file' block w fits h fine =
        let (r, written, rest, answered, v) =
          write_all_at-Written fs (pwrites i (length block)) file block o fits
            (serves.writes i (length block)) (serves.writes_end i (length block)) in
        let same : r ≡ w = ground arith in
        let same_file : written ≡ file' = ground arith in
        let all : r.bytes_written ≡ length block =
          v.complete (subst (λ t. t.error_number ≡ 0) (sym same) fine) in
        sym same_file
        ∙ v.stored
        ∙ ap (fs.store file o) (ap (λ k. take k block) all ∙ take-length block)

    part_of_contents :
        (o : ℕ) (r : ReadAtResult) (got : List ℕ)
        → IsPart (fs.load input o c.block_size) r got
        → (length got ≤ c.block_size) × (got ≡ take (length got) (drop o contents))
    part_of_contents o r got v =
        let loaded = serves.loads o c.block_size in
        let short : length got ≤ c.block_size = omega (
          arith,
          ap length v.part,
          length-take (length got) (fs.load input o c.block_size),
          ap length loaded,
          length-take c.block_size (drop o contents),
        ) in
        (
          short,
          v.part
              ∙ ap (take (length got)) loaded
              ∙ take-take_le (length got) c.block_size (drop o contents) short,
        )

    pub increments-FitsBuffer : FitsBuffer c increments
    increments-FitsBuffer i o got h =
        let (r, v) = read_lem i o got h in (part_of_contents o r got v).0

    pub increments-EndsAt : EndsAt increments (length contents)
    increments-EndsAt i o got h some_got =
        let (r, v) = read_lem i o got h in
        let part = ap length (part_of_contents o r got v).1 in
        omega (arith, part, length-take (length got) (drop o contents), length-drop o contents)

    increments-Transforms : Transforms fs increments contents increment_byte (λ file. file) OneStage
    increments-Transforms = record {
      read_part = λ i o got h. let (r, v) = read_lem i o got h in (part_of_contents o r got v).1;
      read_end = λ i o h.
          let (r, v) = read_lem i o [] h in
          let nothing : length (fs.load input o c.block_size) ≡ 0 = ap length (v.not_at_end refl) in
          omega (
            arith,
            nothing,
            ap length (serves.loads o c.block_size),
            length-take c.block_size (drop o contents),
            length-drop o contents,
          );
      changes = λ t block fit. (one_stage_lem t block fit).0;
      stays_fit = λ t block fit. (one_stage_lem t block fit).1;
      writes_all = write_lem;
    }

    -- `PipelineExecutor::run` with the one stage that increments bytes writes every byte of the input,
    -- incremented and in its place, into the output, and returns their number, in whatever order its
    -- threads take their steps until none can take one. The serial loop must end well on the same
    -- input and output; the run must be admitted, with its pool and queues made and a depth below
    -- 2 ^ 63, and no call of the operating system may be interrupted for ever.
    pub run-increments :
        (memory : ℕ → Allocation) (gauges : RunGauges) (counters : Option RunCounters)
        (input_fd output_fd : Option ℕ) (fuel : ℕ) (q q' : SpscQueue Item)
        (stages stages' : increments.Stages) (output output' : fs.File)
        (result : SerialPipelineResult) (ts : List Thread) (s : QueueRun c increments)
        → admit input_fd output_fd 1 false ≡ ok true
        → make_queues memory c gauges ≡ ok (q, q')
        → c.queue_depth ≤ value_max
        → OneStage stages
        → serial_loop increments fuel 0 stages output
            (record { blocks_written = 0; bytes_written = 0 })
            0
          ≡ some (ok result, stages', output')
        → run_workers spsc_calls c increments ts
            (start_workers spsc_calls c increments q q' stages output counters)
          ≡ some s
        → ((t : Thread) → step spsc_calls c increments t s ≡ none)
        → run c increments memory gauges counters ts input_fd output_fd 1 false stages output
          ≡ some (
            ok (record { blocks_written = result.blocks_written; bytes_written = length contents }),
            stages',
            fs.store output 0 (map increment_byte contents),
          )
    run-increments memory gauges counters input_fd output_fd fuel q q' stages stages' output output'
          result ts s admitted made small one serial ran stuck =
        let responds =
          file_environment-Responds fs increment_stage c times preads pwrites input serves.reads_end
            serves.writes_end in
        let (stored, all) =
          serial_loop-changes fs increments contents increment_byte (λ file. file) OneStage
            increments-Transforms stages output one fuel result stages' output' serial in
        rw (← stored, ← all)
          (run-serial c increments stages output q q' counters memory gauges input_fd output_fd 1
            fuel result stages' output' ts s admitted made small responds increments-FitsBuffer
            serial ran stuck)
