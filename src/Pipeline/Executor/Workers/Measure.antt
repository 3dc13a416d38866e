-- ===== src/Pipeline/Executor/Workers/Measure.antt =====
-- The threads of src/pipeline/pipeline_executor.cpp take finitely many steps.
-- No read gives bytes from behind the end of an input of `size` bytes.
use io_uring_async_load_proc.Prelude.{
  ℕ, ◌+◌, ◌-◌, ◌*◌, ◌≤◌, ◌<◌, ◌≡◌, ap, inl, inr, some, List, [], ◌∷◌, length, arith, Option-cases,
  length-append,
}
use io_uring_async_load_proc.Exception.{ok}
use io_uring_async_load_proc.Config.{PipelineConfig}
use io_uring_async_load_proc.Pipeline.Channel.{finish, abort}
use io_uring_async_load_proc.Pipeline.Executor.Workers.State.{
  Environment, Worker, active, raised, fails_first, fails_second, failed, returned, ReaderState,
  acquires, reads, leaves, ProcessorState, closes, processes, WriterState, writes, Thread,
}
use io_uring_async_load_proc.Pipeline.Executor.Workers.Blocks.{new_block}
use io_uring_async_load_proc.Pipeline.Executor.Workers.Loops.{step, run_workers}
use io_uring_async_load_proc.Pipeline.Executor.Workers.Queues.{channel_calls}
use io_uring_async_load_proc.Pipeline.Executor.Workers.Moves.{
  ChannelRun, caught, broke_first, broke_second, Moves, acquired, at_end, was_read, read_threw,
  block_refused, handed_on, reader_refused, reader_left, reader_unwinds, received, drained,
  processor_broke, processed, process_threw, passed_on, processor_refused, closed_output,
  processor_unwinds, taken, writer_drained, writer_broke, written, write_failed, writer_unwinds,
}
use io_uring_async_load_proc.Pipeline.Executor.Workers.Steps.{step-Moves}

abbrev pub EndsAt : Environment → ℕ → Type 0
EndsAt e size =
    (i o : ℕ) (bytes : List ℕ)
    → e.read i o ≡ some (ok bytes)
    → 0 < length bytes
    → o + length bytes ≤ size

-- The steps that a thread or an item can still cause.
abbrev pub steps_reader : ℕ → Worker ReaderState → ℕ
steps_reader size (active (acquires i o)) = 10 * (size - o) + 8
steps_reader size (active (reads i o)) = 10 * (size - o) + 7
steps_reader size (active (ReaderState.pushes i o bytes)) = 10 * (size - (o + length bytes)) + 16
steps_reader size (active leaves) = 5
steps_reader size (raised x) = 4
steps_reader size (fails_first x) = 3
steps_reader size (fails_second x) = 2
steps_reader size failed = 0
steps_reader size returned = 0

abbrev pub steps_processor : Worker ProcessorState → ℕ
steps_processor (active ProcessorState.pops) = 8
steps_processor (active (processes item)) = 14
steps_processor (active (ProcessorState.pushes item)) = 13
steps_processor (active closes) = 5
steps_processor (raised x) = 4
steps_processor (fails_first x) = 3
steps_processor (fails_second x) = 2
steps_processor failed = 0
steps_processor returned = 0

abbrev pub steps_writer : Worker WriterState → ℕ
steps_writer (active WriterState.pops) = 5
steps_writer (active (writes item)) = 8
steps_writer (raised x) = 4
steps_writer (fails_first x) = 3
steps_writer (fails_second x) = 2
steps_writer failed = 0
steps_writer returned = 0

module _ (c : PipelineConfig) (e : Environment) where
  unfoldable pub steps_left : ℕ → ChannelRun c e → ℕ
  steps_left size s =
      steps_reader size s.reader
      + (7 * length s.read_to_process.items
          + (steps_processor s.processor
              + (4 * length s.process_to_write.items + steps_writer s.writer)))

  Moves-steps_left :
      (size : ℕ) {s s' : ChannelRun c e}
      → EndsAt e size
      → Moves c e s s'
      → steps_left size s' < steps_left size s
  unfolding steps_left finish abort
  Moves-steps_left size {s = s} ends (acquired i o n r h) = ground arith
  Moves-steps_left size {s = s} ends (at_end i o r h) = ground arith
  Moves-steps_left size {s = s} ends (was_read i o b bs r h k) =
      ground (arith, ends i o (b ∷ bs) h (omega arith))
  Moves-steps_left size {s = s} ends (read_threw i o x r h) = ground arith
  Moves-steps_left size {s = s} ends (block_refused i o b bs x r h k) = ground arith
  Moves-steps_left size {s = s} ends (handed_on i o bytes r h) =
      ground (arith, length-append {0} s.read_to_process.items (new_block i o bytes ∷ []))
  Moves-steps_left size {s = s} ends (reader_refused i o bytes x r h) = ground arith
  Moves-steps_left size {s = s} ends (reader_left r) = ground arith
  Moves-steps_left size {s = s} ends (reader_unwinds _ _ _ r (caught x)) = ground arith
  Moves-steps_left size {s = s} ends (reader_unwinds _ _ _ r (broke_first x)) = ground arith
  Moves-steps_left size {s = s} ends (reader_unwinds _ _ _ r (broke_second x)) = ground arith
  Moves-steps_left size {s = s} ends (received item xs r h) = ground arith
  Moves-steps_left size {s = s} ends (drained r h k) = ground arith
  Moves-steps_left size {s = s} ends (processor_broke x r h) = ground arith
  Moves-steps_left size {s = s} ends (processed item r h) = ground arith
  Moves-steps_left size {s = s} ends (process_threw item x r h) = ground arith
  Moves-steps_left size {s = s} ends (passed_on item r h) =
      ground (arith, length-append {0} s.process_to_write.items (item ∷ []))
  Moves-steps_left size {s = s} ends (processor_refused item x r h) = ground arith
  Moves-steps_left size {s = s} ends (closed_output r) = ground arith
  Moves-steps_left size {s = s} ends (processor_unwinds _ _ _ r (caught x)) = ground arith
  Moves-steps_left size {s = s} ends (processor_unwinds _ _ _ r (broke_first x)) = ground arith
  Moves-steps_left size {s = s} ends (processor_unwinds _ _ _ r (broke_second x)) = ground arith
  Moves-steps_left size {s = s} ends (taken item xs r h) = ground arith
  Moves-steps_left size {s = s} ends (writer_drained r h k) = ground arith
  Moves-steps_left size {s = s} ends (writer_broke x r h) = ground arith
  Moves-steps_left size {s = s} ends (written item w output' result' r h k a) = ground arith
  Moves-steps_left size {s = s} ends (write_failed item x w output' result' r h k) = ground arith
  Moves-steps_left size {s = s} ends (writer_unwinds _ _ _ r (caught x)) = ground arith
  Moves-steps_left size {s = s} ends (writer_unwinds _ _ _ r (broke_first x)) = ground arith
  Moves-steps_left size {s = s} ends (writer_unwinds _ _ _ r (broke_second x)) = ground arith

  pub run_workers-steps_left :
      (size : ℕ) (ts : List Thread) (s s' : ChannelRun c e)
      → EndsAt e size
      → run_workers channel_calls c e ts s ≡ some s'
      → length ts + steps_left size s' ≤ steps_left size s
  unfolding run_workers
  run_workers-steps_left size [] s s' ends h =
      let same : s ≡ s' = cc in omega (arith, ap (steps_left size) same)
  run_workers-steps_left size (t ∷ ts) s s' ends h =
      elim (Option-cases (step channel_calls c e t s)) [
        | inl stuck ↦ absurd (ground arith)
        | inr (s₁, stepped) ↦
            let later = run_workers-steps_left size ts s₁ s' ends (ground arith) in
            let now = Moves-steps_left size ends (step-Moves c e s t s₁ stepped) in
            omega (arith, later, now)
      ]
