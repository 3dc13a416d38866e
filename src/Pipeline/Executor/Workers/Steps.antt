-- ===== src/Pipeline/Executor/Workers/Steps.antt =====
-- Every step of a thread of src/pipeline/pipeline_executor.cpp is one of the moves.
use io_uring_async_load_proc.Prelude.{◌≡◌, refl, subst, Option, none, some}
use io_uring_async_load_proc.Config.{PipelineConfig}
use io_uring_async_load_proc.Pipeline.Channel.Answers.{send-Sends, receive-Receives}
use io_uring_async_load_proc.Pipeline.Executor.Workers.State.{
  Environment, Worker, active, raised, fails_first, fails_second, failed, returned, ReaderState,
  acquires, reads, leaves, ProcessorState, closes, processes, WriterState, writes, Thread,
  reader_thread, processor_thread, writer_thread,
}
use io_uring_async_load_proc.Pipeline.Executor.Workers.Blocks.{new_block}
use io_uring_async_load_proc.Pipeline.Executor.Workers.Loops.{
  unwind, advance_reader, advance_processor, advance_writer, place_reader, place_processor,
  place_writer, step,
}
use io_uring_async_load_proc.Pipeline.Executor.Workers.Queues.{channel_calls}
use io_uring_async_load_proc.Pipeline.Executor.Workers.Moves.{
  ChannelRun, caught, broke_first, broke_second, Moves, reader_left, reader_unwinds, closed_output,
  processor_unwinds, writer_unwinds,
}
use io_uring_async_load_proc.Pipeline.Executor.Workers.Pieces.{
  ReaderMoves, ProcessorMoves, WriterMoves, on_acquire-Moves, on_read-Moves, reader_push-Moves,
  processor_push-Moves, processor_pop-Moves, writer_pop-Moves, on_process-Moves, on_write-Moves,
}

module _ (c : PipelineConfig) (e : Environment) where
  open e use {read, process, write}

  module _ (s : ChannelRun c e) where
    advance_reader-Moves :
        (w : Worker ReaderState)
        → s.reader ≡ w
        → ReaderMoves c e s (advance_reader channel_calls c e w s)
    unfolding advance_reader unwind
    advance_reader-Moves (active (acquires i o)) r = on_acquire-Moves c e s i o s.available r refl
    advance_reader-Moves (active (reads i o)) r = on_read-Moves c e s i o (read i o) r refl
    advance_reader-Moves (active (ReaderState.pushes i o bytes)) r =
        reader_push-Moves c e s i o bytes _ r (send-Sends s.read_to_process (new_block i o bytes))
    advance_reader-Moves (active leaves) r = reader_left r
    advance_reader-Moves (raised x) r = reader_unwinds _ _ _ r (caught x)
    advance_reader-Moves (fails_first x) r = reader_unwinds _ _ _ r (broke_first x)
    advance_reader-Moves (fails_second x) r = reader_unwinds _ _ _ r (broke_second x)
    advance_reader-Moves failed r = tt
    advance_reader-Moves returned r = tt

    advance_processor-Moves :
        (w : Worker ProcessorState)
        → s.processor ≡ w
        → ProcessorMoves c e s (advance_processor channel_calls c e w s)
    unfolding advance_processor unwind
    advance_processor-Moves (active ProcessorState.pops) r =
        processor_pop-Moves c e s _ r (receive-Receives s.read_to_process)
    advance_processor-Moves (active (processes item)) r = on_process-Moves c e s item _ r refl
    advance_processor-Moves (active (ProcessorState.pushes item)) r =
        processor_push-Moves c e s item _ r (send-Sends s.process_to_write item)
    advance_processor-Moves (active closes) r = closed_output r
    advance_processor-Moves (raised x) r = processor_unwinds _ _ _ r (caught x)
    advance_processor-Moves (fails_first x) r = processor_unwinds _ _ _ r (broke_first x)
    advance_processor-Moves (fails_second x) r = processor_unwinds _ _ _ r (broke_second x)
    advance_processor-Moves failed r = tt
    advance_processor-Moves returned r = tt

    advance_writer-Moves :
        (w : Worker WriterState)
        → s.writer ≡ w
        → WriterMoves c e s (advance_writer channel_calls c e w s)
    unfolding advance_writer unwind
    advance_writer-Moves (active WriterState.pops) r =
        writer_pop-Moves c e s _ r (receive-Receives s.process_to_write)
    advance_writer-Moves (active (writes item)) r = on_write-Moves c e s item _ r refl
    advance_writer-Moves (raised x) r = writer_unwinds _ _ _ r (caught x)
    advance_writer-Moves (fails_first x) r = writer_unwinds _ _ _ r (broke_first x)
    advance_writer-Moves (fails_second x) r = writer_unwinds _ _ _ r (broke_second x)
    advance_writer-Moves failed r = tt
    advance_writer-Moves returned r = tt

    -- A step of a thread is a move.
    pub step-Moves :
        (t : Thread) (s' : ChannelRun c e) → step channel_calls c e t s ≡ some s' → Moves c e s s'
    unfolding step
    step-Moves reader_thread s' h = placed _ (advance_reader-Moves s.reader refl) h
      where
        placed :
            (n : Option (Worker ReaderState × ChannelRun c e))
            → ReaderMoves c e s n
            → place_reader channel_calls c e n ≡ some s'
            → Moves c e s s'
        placed none m h = cc
        placed (some (w, s₁)) m h =
            let same : record s₁ { reader = w } ≡ s' = cc in subst (Moves c e s) same m
    step-Moves processor_thread s' h = placed _ (advance_processor-Moves s.processor refl) h
      where
        placed :
            (n : Option (Worker ProcessorState × ChannelRun c e))
            → ProcessorMoves c e s n
            → place_processor channel_calls c e n ≡ some s'
            → Moves c e s s'
        placed none m h = cc
        placed (some (w, s₁)) m h =
            let same : record s₁ { processor = w } ≡ s' = cc in subst (Moves c e s) same m
    step-Moves writer_thread s' h = placed _ (advance_writer-Moves s.writer refl) h
      where
        placed :
            (n : Option (Worker WriterState × ChannelRun c e))
            → WriterMoves c e s n
            → place_writer channel_calls c e n ≡ some s'
            → Moves c e s s'
        placed none m h = cc
        placed (some (w, s₁)) m h =
            let same : record s₁ { writer = w } ≡ s' = cc in subst (Moves c e s) same m
