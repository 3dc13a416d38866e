-- ===== src/Benchmark/Increment/Published.antt =====
-- From the input file to the published output: the whole of `PipelineExecutor::run_file` of
-- src/pipeline/pipeline_executor.cpp with the workload of src/benchmark/end_to_end_baseline.cpp.
use io_uring_async_load_proc.Prelude.{
  ℕ, ◌+◌, ◌^◌, ◌≤◌, ◌<◌, ◌≡◌, refl, sym, ap, ◌∙◌, ◌⊎◌, inl, inr, true, false, Option, none, some,
  List, [], ◌∷◌, ◌++◌, length, map, arith, length-append, append_assoc, append-nil,
}
use io_uring_async_load_proc.Exception.{Result, ok}
use io_uring_async_load_proc.Config.{PipelineConfig}
use io_uring_async_load_proc.Util.FileIo.{Answer}
use io_uring_async_load_proc.Util.FileIo.Calm.{Calm}
use io_uring_async_load_proc.Util.FileIo.Memory.{linear, set_byte, set_bytes}
use io_uring_async_load_proc.Pipeline.Executor.{admit}
use io_uring_async_load_proc.Pipeline.Executor.File.{run_file_on}
use io_uring_async_load_proc.Pipeline.Output.{Answers, Directory, PipelineRunResult, run_file}
use io_uring_async_load_proc.Pipeline.Output.Atomic.{run_file-Published}
use io_uring_async_load_proc.Pipeline.SpscQueue.{SpscQueue}
use io_uring_async_load_proc.Pipeline.Stages.{increment_byte}
use io_uring_async_load_proc.Metrics.Gauge.{value_max}
use io_uring_async_load_proc.Buffer.Aligned.{Allocation}
use io_uring_async_load_proc.Pipeline.Executor.Workers.State.{
  Item, Environment, Thread, RunCounters,
}
use io_uring_async_load_proc.Pipeline.Executor.Workers.Loops.{step, run_workers, start_workers}
use io_uring_async_load_proc.Pipeline.Executor.Workers.Queues.{spsc_calls}
use io_uring_async_load_proc.Pipeline.Executor.Workers.Same.{QueueRun}
use io_uring_async_load_proc.Pipeline.Executor.Run.{RunGauges, make_queues, run}
use io_uring_async_load_proc.Benchmark.Increment.Correct.{increments, Serves, OneStage}
use io_uring_async_load_proc.Benchmark.Increment.Total.{run-increments_all}

set_byte_behind : (f : List ℕ) (x : ℕ) → set_byte f (length f) x ≡ f ++ (x ∷ [])
set_byte_behind [] x = refl
set_byte_behind (y ∷ ys) x = ap (λ t. y ∷ t) (set_byte_behind ys x)

set_bytes_end : (f xs : List ℕ) → set_bytes f (length f) xs ≡ f ++ xs
set_bytes_end f [] = sym (append-nil f)
set_bytes_end f (x ∷ xs) =
    let longer : length f + 1 ≡ length (f ++ (x ∷ [])) =
      sym (length-append f (x ∷ []) ∙ ap (λ k. length f + k) one) in
    ap (λ g. set_bytes g (length f + 1) xs) (set_byte_behind f x)
    ∙ ap (λ o. set_bytes (f ++ (x ∷ [])) o xs) longer
    ∙ set_bytes_end (f ++ (x ∷ [])) xs
    ∙ append_assoc f (x ∷ []) xs
  where
    one : length (x ∷ []) ≡ 1
    one = omega arith

module _ (c : PipelineConfig) (times : ℕ → ℕ × ℕ) (preads : ℕ → List Answer)
    (pwrites : ℕ → ℕ → List Answer) (input : List ℕ) where
  abbrev pub work : Environment
  work = increments linear c times preads pwrites input input

  -- `run_file` on the synchronous backend, with the one stage that increments bytes, on an input of
  -- fewer than 2 ^ 64 bytes, in whatever order the threads take their steps until none can take one.
  -- It returns, whatever fails in the calls that prepare, synchronise, rename and unlink the output:
  -- the final path is as it was, or holds every byte of the input, incremented; when a result is
  -- returned it holds them, the temporary file is gone, and the result tells their number. A
  -- temporary file is left only if `unlink` fails. There must be no temporary file before;
  -- the run must be admitted, with its pool and queues made and a depth below 2 ^ 63; and
  -- reads and writes may be cut short or interrupted, but not for ever, and must not fail otherwise.
  pub run_file-increments :
      (memory : ℕ → Allocation) (gauges : RunGauges) (counters : Option RunCounters)
      (input_fd output_fd : Option ℕ) (q q' : SpscQueue Item) (stages : work.Stages)
      (ts : List Thread) (s : QueueRun c work) (a : Answers) (input_path final_path : List ℕ)
      (d : Directory)
      → Serves linear c times preads pwrites input input
      → ((i : ℕ) → Calm (preads i))
      → ((i size : ℕ) → Calm (pwrites i size))
      → length input < 2 ^ 64
      → admit input_fd output_fd 1 false ≡ ok true
      → 0 < c.block_size
      → make_queues memory c gauges ≡ ok (q, q')
      → c.queue_depth ≤ value_max
      → OneStage linear c times preads pwrites input input stages
      → d.temporary ≡ none
      → run_workers spsc_calls c work ts (start_workers spsc_calls c work q q' stages [] counters)
        ≡ some s
      → ((t : Thread) → step spsc_calls c work t s ≡ none)
      → (o : Result PipelineRunResult) × (d' : Directory) × (run_file_on
            (λ file. file)
            a
            input_path
            final_path
            d
            (run c work memory gauges counters ts input_fd output_fd 1 false stages [])
          ≡ some (o, d'))
        × (a.unlink ≡ none → d'.temporary ≡ none)
        × ((d'.final ≡ d.final) ⊎ (d'.final ≡ some (map increment_byte input)))
        × ((result : PipelineRunResult)
            → o ≡ ok result
            → (d'.final ≡ some (map increment_byte input))
              × (d'.temporary ≡ none)
              × (result.bytes_written ≡ length input))
  unfolding run_file_on
  run_file-increments memory gauges counters input_fd output_fd q q' stages ts s a input_path
        final_path d serves calm_reads calm_writes small admitted some_size made depth one no_file
        ran stuck =
      let (blocks, stages', goes) =
        run-increments_all linear c times preads pwrites input input memory gauges counters input_fd
          output_fd q q' stages [] ts s serves calm_reads calm_writes small admitted some_size made
          depth one ran stuck in
      let written = set_bytes [] 0 (map increment_byte input) in
      let whole : written ≡ map increment_byte input =
        set_bytes_end [] (map increment_byte input) in
      let result : Result PipelineRunResult =
        ok (record { blocks_written = blocks; bytes_written = length input }) in
      let done = run_file a result written input_path final_path d in
      let (published, _) = run_file-Published a result written input_path final_path d no_file in
      (
        done.0,
        done.1,
        ap (run_file_on (λ file. file) a input_path final_path d) goes,
        published.unlinked,
        elim published.old_or_new [
          | inl (kept, _) ↦ inl kept
          | inr (_, _, replaced, _, _, _, _) ↦ inr (replaced ∙ ap some whole)
        ],
        λ r returned. elim published.old_or_new [
          | inl (kept, (x, threw)) ↦ absurd (ground arith)
          | inr (r', good, replaced, gone, synced, renamed, ends) ↦ (
            replaced ∙ ap some whole,
            gone,
            elim ends [
              | inl (kept, came) ↦ ground arith
              | inr (lost, threw) ↦ absurd (ground arith)
            ],
          )
        ],
      )
