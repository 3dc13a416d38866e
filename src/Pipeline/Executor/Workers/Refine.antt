-- ===== src/Pipeline/Executor/Workers/Refine.antt =====
-- The threads of src/pipeline/pipeline_executor.cpp behave over the circular buffers as over the
-- channels that these represent.
use io_uring_async_load_proc.Prelude.{Option, none, some, List, [], ◌∷◌}
use io_uring_async_load_proc.Config.{PipelineConfig}
use io_uring_async_load_proc.Util.FileIo.{WriteAtResult}
use io_uring_async_load_proc.Pipeline.Channel.{Channel, finish}
use io_uring_async_load_proc.Pipeline.Executor.Workers.State.{
  Item, Environment, Worker, active, raised, fails_first, fails_second, failed, returned,
  ReaderState, acquires, reads, leaves, ProcessorState, closes, processes, WriterState, writes,
  Thread, reader_thread, processor_thread, writer_thread,
}
use io_uring_async_load_proc.Pipeline.Executor.Workers.Blocks.{check_write, new_block}
use io_uring_async_load_proc.Pipeline.Executor.Workers.Loops.{
  advance_reader, advance_processor, on_write, advance_writer, place_reader, place_processor,
  place_writer, step, run_workers,
}
use io_uring_async_load_proc.Pipeline.Executor.Workers.Queues.{channel_calls, spsc_calls}
use io_uring_async_load_proc.Pipeline.Executor.Workers.Moves.{ChannelRun}
use io_uring_async_load_proc.Pipeline.SpscQueue.View.{Represents}
use io_uring_async_load_proc.Pipeline.SpscQueue.Refine.{push_refines, pop_refines, close_refines}
use io_uring_async_load_proc.Pipeline.Executor.Workers.Same.{
  SameNext, neither, both, QueueRun, with_queues, on_acquire-Same, on_push-Same, on_pop-Same,
  on_process-Same, on_read-Same, on_checked-Same, unwind-Same,
}

module _ (c : PipelineConfig) (e : Environment) where
  open e use {read, process, write}

  module _ (s : QueueRun c e) (q q' : Channel Item) (r : Represents s.read_to_process q)
      (r' : Represents s.process_to_write q') where
    on_write-Same :
        (item : Item) (answer : Option (WriteAtResult × e.File))
        → SameNext c e
            (on_write spsc_calls c e item s answer)
            (on_write channel_calls c e item (with_queues c e s q q') answer)
    unfolding on_write
    on_write-Same item none = neither
    on_write-Same item (some (w, output')) =
        on_checked-Same c e _ q q' r r' item (check_write w item.valid_bytes)

    advance_reader-Same :
        (w : Worker ReaderState)
        → SameNext c e
            (advance_reader spsc_calls c e w s)
            (advance_reader channel_calls c e w (with_queues c e s q q'))
    unfolding advance_reader
    advance_reader-Same (active (acquires i o)) = on_acquire-Same c e s q q' r r' i o s.available
    advance_reader-Same (active (reads i o)) = on_read-Same c e s q q' r r' i o (read i o)
    advance_reader-Same (active (ReaderState.pushes i o bytes)) =
        let (same, after) = push_refines (new_block i o bytes) r in
        rw same (on_push-Same c e _ _ q' after r' _ _)
    advance_reader-Same (active leaves) = both _ _ q q' r r'
    advance_reader-Same (raised x) = unwind-Same c e s q q' r r' (raised x)
    advance_reader-Same (fails_first x) = unwind-Same c e s q q' r r' (fails_first x)
    advance_reader-Same (fails_second x) = unwind-Same c e s q q' r r' (fails_second x)
    advance_reader-Same failed = unwind-Same c e s q q' r r' failed
    advance_reader-Same returned = unwind-Same c e s q q' r r' returned

    advance_processor-Same :
        (w : Worker ProcessorState)
        → SameNext c e
            (advance_processor spsc_calls c e w s)
            (advance_processor channel_calls c e w (with_queues c e s q q'))
    unfolding advance_processor
    advance_processor-Same (active ProcessorState.pops) =
        let (same, after) = pop_refines r in rw same (on_pop-Same c e _ _ q' after r' _ _ _)
    advance_processor-Same (active (processes item)) = on_process-Same c e _ q q' r r' item _ _
    advance_processor-Same (active (ProcessorState.pushes item)) =
        let (same, after) = push_refines item r' in rw same (on_push-Same c e _ q _ r after _ _)
    advance_processor-Same (active closes) = both _ _ q (finish q') r (close_refines r')
    advance_processor-Same (raised x) = unwind-Same c e s q q' r r' (raised x)
    advance_processor-Same (fails_first x) = unwind-Same c e s q q' r r' (fails_first x)
    advance_processor-Same (fails_second x) = unwind-Same c e s q q' r r' (fails_second x)
    advance_processor-Same failed = unwind-Same c e s q q' r r' failed
    advance_processor-Same returned = unwind-Same c e s q q' r r' returned

    advance_writer-Same :
        (w : Worker WriterState)
        → SameNext c e
            (advance_writer spsc_calls c e w s)
            (advance_writer channel_calls c e w (with_queues c e s q q'))
    unfolding advance_writer
    advance_writer-Same (active WriterState.pops) =
        let (same, after) = pop_refines r' in rw same (on_pop-Same c e _ q _ r after _ _ _)
    advance_writer-Same (active (writes item)) =
        on_write-Same item (write item.block_index s.output item.block item.file_offset)
    advance_writer-Same (raised x) = unwind-Same c e s q q' r r' (raised x)
    advance_writer-Same (fails_first x) = unwind-Same c e s q q' r r' (fails_first x)
    advance_writer-Same (fails_second x) = unwind-Same c e s q q' r r' (fails_second x)
    advance_writer-Same failed = unwind-Same c e s q q' r r' failed
    advance_writer-Same returned = unwind-Same c e s q q' r r' returned

  -- The same after a step: neither system takes it, or both do.
  pub data SameStep : Option (QueueRun c e) → Option (ChannelRun c e) → Type 0 where
    waits : SameStep none none
    steps :
        (s : QueueRun c e) (q q' : Channel Item)
        → Represents s.read_to_process q
        → Represents s.process_to_write q'
        → SameStep (some s) (some (with_queues c e s q q'))

  place_reader-Same :
      {n : Option (Worker ReaderState × QueueRun c e)}
      {m : Option (Worker ReaderState × ChannelRun c e)}
      → SameNext c e n m
      → SameStep (place_reader spsc_calls c e n) (place_reader channel_calls c e m)
  place_reader-Same neither = waits
  place_reader-Same (both w s q q' r r') = steps _ q q' r r'

  place_processor-Same :
      {n : Option (Worker ProcessorState × QueueRun c e)}
      {m : Option (Worker ProcessorState × ChannelRun c e)}
      → SameNext c e n m
      → SameStep (place_processor spsc_calls c e n) (place_processor channel_calls c e m)
  place_processor-Same neither = waits
  place_processor-Same (both w s q q' r r') = steps _ q q' r r'

  place_writer-Same :
      {n : Option (Worker WriterState × QueueRun c e)}
      {m : Option (Worker WriterState × ChannelRun c e)}
      → SameNext c e n m
      → SameStep (place_writer spsc_calls c e n) (place_writer channel_calls c e m)
  place_writer-Same neither = waits
  place_writer-Same (both w s q q' r r') = steps _ q q' r r'

  pub step-Same :
      (t : Thread) (s : QueueRun c e) (q q' : Channel Item)
      → Represents s.read_to_process q
      → Represents s.process_to_write q'
      → SameStep (step spsc_calls c e t s) (step channel_calls c e t (with_queues c e s q q'))
  unfolding step
  step-Same reader_thread s q q' r r' = place_reader-Same (advance_reader-Same s q q' r r' s.reader)
  step-Same processor_thread s q q' r r' =
      place_processor-Same (advance_processor-Same s q q' r r' s.processor)
  step-Same writer_thread s q q' r r' = place_writer-Same (advance_writer-Same s q q' r r' s.writer)

  -- Any interleaving goes over the circular buffers as over the channels.
  pub run_workers-Same :
      (ts : List Thread) (s : QueueRun c e) (q q' : Channel Item)
      → Represents s.read_to_process q
      → Represents s.process_to_write q'
      → SameStep
          (run_workers spsc_calls c e ts s)
          (run_workers channel_calls c e ts (with_queues c e s q q'))
  unfolding run_workers
  run_workers-Same [] s q q' r r' = steps s q q' r r'
  run_workers-Same (t ∷ ts) s q q' r r' = onward (run_workers-Same ts) (step-Same t s q q' r r')
    where
      onward :
          {n : Option (QueueRun c e)} {m : Option (ChannelRun c e)}
          → ((s : QueueRun c e) (q q' : Channel Item)
              → Represents s.read_to_process q
              → Represents s.process_to_write q'
              → SameStep
                  (run_workers spsc_calls c e ts s)
                  (run_workers channel_calls c e ts (with_queues c e s q q')))
          → SameStep n m
          → SameStep
              (elim n [ none ↦ none | some s' ↦ run_workers spsc_calls c e ts s' ])
              (elim m [ none ↦ none | some s' ↦ run_workers channel_calls c e ts s' ])
      onward later waits = waits
      onward later (steps s₁ q₁ q₁' r₁ r₁') = later s₁ q₁ q₁' r₁ r₁'
