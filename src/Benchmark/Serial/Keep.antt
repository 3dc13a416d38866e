-- ===== src/Benchmark/Serial/Keep.antt =====
-- Every step of the threads of src/pipeline/pipeline_executor.cpp keeps them in step with the serial
-- loop of src/benchmark/end_to_end_baseline.cpp, if nothing goes wrong in that loop.
use io_uring_async_load_proc.Prelude.{
  ℕ, suc, ◌<◌, ◌≡◌, subst, inl, inr, true, ◌&&◌, none, some, List, [], ◌∷◌, arith, Option-cases,
}
use io_uring_async_load_proc.Exception.{ok}
use io_uring_async_load_proc.Config.{PipelineConfig}
use io_uring_async_load_proc.Pipeline.Channel.{finish}
use io_uring_async_load_proc.Pipeline.Executor.Workers.State.{Environment, Thread}
use io_uring_async_load_proc.Pipeline.Executor.Workers.Blocks.{new_block}
use io_uring_async_load_proc.Pipeline.Executor.Workers.Loops.{step, run_workers}
use io_uring_async_load_proc.Pipeline.Executor.Workers.Queues.{channel_calls, is_over}
use io_uring_async_load_proc.Pipeline.Executor.Workers.Moves.{
  ChannelRun, caught, broke_first, broke_second, Moves, acquired, was_read, read_threw,
  block_refused, handed_on, reader_refused, reader_left, reader_unwinds, received, drained,
  processor_broke, processed, process_threw, passed_on, processor_refused, closed_output,
  processor_unwinds, taken, writer_drained, writer_broke, write_failed, writer_unwinds,
}
use io_uring_async_load_proc.Pipeline.Executor.Workers.Steps.{step-Moves}
use io_uring_async_load_proc.Pipeline.Executor.Workers.Invariant.{IsSound, Moves-IsSound}
use io_uring_async_load_proc.Benchmark.Serial.Points.{point, offset, IsGood, offset-suc, stages-suc}
use io_uring_async_load_proc.Benchmark.Serial.InStep.{
  Segment-snoc, FitsBuffer, raw, ready, run_result_at, InStep, SomeStep, read-lt, read_returns,
  at_end-InStep, check_block-ok, add_written-ok, check_write-ok, processing-lt, writing-lt,
}

module _ (c : PipelineConfig) (e : Environment) (stages : e.Stages) (output : e.File) (n : ℕ)
    (good : (i : ℕ) → i < n → IsGood e stages output i)
    (at_end : e.read n (offset e stages output n) ≡ some (ok [])) (fits : FitsBuffer c e) where
  open e use {read, process, write}

  abbrev pub Step : ChannelRun c e → Type 0
  Step = SomeStep c e stages output n

  Moves-Step :
      {s s' : ChannelRun c e} (r p k q q' : ℕ)
      → Moves c e s s'
      → IsSound c e s
      → InStep c e stages output n r p k q q' s
      → Step s'
  unfolding finish
  Moves-Step r p k q q' (acquired i o m h g) v at = (r, p, k, q, q', ground arith)
  Moves-Step r p k q q' (Moves.at_end i o h g) v at =
      at_end-InStep c e stages output n good at_end fits v r p k q q' at i o h g
  Moves-Step r p k q q' (was_read i o b bs h g t) v at =
      let (lt, same_i, same_o, same) =
        read-lt c e stages output n good at_end fits v r p k q q' at b bs i o h g in
      (r, p, k, q, q', ground arith)
  Moves-Step r p k q q' (read_threw i o x h g) v at =
      absurd (read_returns c e stages output n good at_end fits v r p k q q' at x i o h g)
  Moves-Step r p k q q' (block_refused i o b bs x h g t) v at =
      let (lt, same_i, same_o, same) =
        read-lt c e stages output n good at_end fits v r p k q q' at b bs i o h g in
      let passes = check_block-ok c e stages output n good at_end fits v r p k q q' at r lt in
      absurd (ground arith)
  Moves-Step {s = s} r p k q q' (handed_on i o bytes h g) v at = (
    suc r,
    p,
    k,
    q,
    q',
    ground (
      arith,
      offset-suc e stages output r,
      Segment-snoc (raw c e stages output) q s.read_to_process.items r (new_block i o bytes),
    ),
  )
  Moves-Step r p k q q' (reader_refused i o bytes x h g) v at = absurd (ground arith)
  Moves-Step r p k q q' (reader_left h) v at = (r, p, k, q, q', ground arith)
  Moves-Step r p k q q' (reader_unwinds _ _ _ h (caught x)) v at = absurd (ground arith)
  Moves-Step r p k q q' (reader_unwinds _ _ _ h (broke_first x)) v at = absurd (ground arith)
  Moves-Step r p k q q' (reader_unwinds _ _ _ h (broke_second x)) v at = absurd (ground arith)
  Moves-Step r p k q q' (received item xs h g) v at = (r, p, k, suc q, q', ground arith)
  Moves-Step r p k q q' (drained h g t) v at = (r, p, k, q, q', ground arith)
  Moves-Step r p k q q' (processor_broke x h g) v at = absurd (ground arith)
  Moves-Step r p k q q' (processed item h g) v at =
      (r, p, k, q, q', ground (arith, stages-suc e stages output p))
  Moves-Step r p k q q' (process_threw item x h g) v at =
      let lt = processing-lt c e stages output n good at_end fits v r p k q q' at item h in
      let done = (good p lt).processed in absurd (ground arith)
  Moves-Step {s = s} r p k q q' (passed_on item h g) v at = (
    r,
    suc p,
    k,
    q,
    q',
    ground (arith, Segment-snoc (ready c e stages output) q' s.process_to_write.items p item),
  )
  Moves-Step r p k q q' (processor_refused item x h g) v at = absurd (ground arith)
  Moves-Step r p k q q' (closed_output h) v at = (r, p, k, q, q', ground arith)
  Moves-Step r p k q q' (processor_unwinds _ _ _ h (caught x)) v at = absurd (ground arith)
  Moves-Step r p k q q' (processor_unwinds _ _ _ h (broke_first x)) v at = absurd (ground arith)
  Moves-Step r p k q q' (processor_unwinds _ _ _ h (broke_second x)) v at = absurd (ground arith)
  Moves-Step r p k q q' (taken item xs h g) v at = (r, p, k, q, suc q', ground arith)
  Moves-Step r p k q q' (writer_drained h g t) v at = (r, p, k, q, q', ground arith)
  Moves-Step r p k q q' (writer_broke x h g) v at = absurd (ground arith)
  Moves-Step r p k q q' (Moves.written item w output' result' h g t a) v at =
      let lt = writing-lt c e stages output n good at_end fits v r p k q q' at item h in
      let wrote = (good k lt).written in
      let sums = add_written-ok c e stages output n good at_end fits v r p k q q' at k lt in
      (r, p, suc k, q, q', ground arith)
  Moves-Step r p k q q' (write_failed item x w output' result' h g t) v at =
      let lt = writing-lt c e stages output n good at_end fits v r p k q q' at item h in
      let wrote = (good k lt).written in
      let sums = add_written-ok c e stages output n good at_end fits v r p k q q' at k lt in
      let checks = check_write-ok c e stages output n good at_end fits v r p k q q' at k lt in
      absurd (ground arith)
  Moves-Step r p k q q' (writer_unwinds _ _ _ h (caught x)) v at = absurd (ground arith)
  Moves-Step r p k q q' (writer_unwinds _ _ _ h (broke_first x)) v at = absurd (ground arith)
  Moves-Step r p k q q' (writer_unwinds _ _ _ h (broke_second x)) v at = absurd (ground arith)

  pub run_workers-Step :
      (ts : List Thread) (s s' : ChannelRun c e)
      → IsSound c e s
      → Step s
      → run_workers channel_calls c e ts s ≡ some s'
      → Step s'
  unfolding run_workers
  run_workers-Step [] s s' v at h = let same : s ≡ s' = cc in subst Step same at
  run_workers-Step (t ∷ ts) s s' v (r, p, k, q, q', at) h =
      elim (Option-cases (step channel_calls c e t s)) [
        | inl stuck ↦ absurd (ground arith)
        | inr (s₁, stepped) ↦
            let move = step-Moves c e s t s₁ stepped in
            run_workers-Step ts s₁ s' (Moves-IsSound c e move v) (Moves-Step r p k q q' move v at)
              (ground arith)
      ]

  -- Threads that are over, and in step, have written every block.
  pub over-written :
      (s : ChannelRun c e)
      → Step s
      → is_over s.reader && (is_over s.processor && is_over s.writer) ≡ true
      → (s.output ≡ (point e stages output n).output)
        × (s.stages ≡ (point e stages output n).stages)
        × (s.result ≡ run_result_at c e stages output n)
        × (s.first_failure ≡ none)
  over-written s (r, p, k, q, q', at) over = ground arith
