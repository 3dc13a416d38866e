-- ===== src/Pipeline/Executor/Workers/Progress.antt =====
-- No deadlock between the threads of src/pipeline/pipeline_executor.cpp, whatever fails.
-- The calls of the operating system return.
use io_uring_async_load_proc.Prelude.{
  ◌<◌, ◌≡◌, refl, ap, inl, inr, true, ◌&&◌, Option, none, some, arith,
}
use io_uring_async_load_proc.Config.{PipelineConfig}
use io_uring_async_load_proc.Pipeline.Channel.Answers.{send-Sends, receive-Receives}
use io_uring_async_load_proc.Pipeline.Executor.Workers.State.{
  Environment, Worker, active, raised, fails_first, fails_second, failed, returned, ReaderState,
  acquires, reads, leaves, ProcessorState, closes, processes, WriterState, writes, Thread,
  reader_thread, processor_thread, writer_thread,
}
use io_uring_async_load_proc.Pipeline.Executor.Workers.Blocks.{new_block}
use io_uring_async_load_proc.Pipeline.Executor.Workers.Loops.{
  unwind, advance_reader, advance_processor, advance_writer, place_reader, place_processor,
  place_writer, step,
}
use io_uring_async_load_proc.Pipeline.Executor.Workers.Queues.{channel_calls, is_over}
use io_uring_async_load_proc.Pipeline.Executor.Workers.Moves.{ChannelRun}
use io_uring_async_load_proc.Pipeline.Executor.Workers.Invariant.{
  held_processor, held_writer, IsSound,
}
use io_uring_async_load_proc.Pipeline.Executor.Workers.Waits.{
  Responds, halts, goes, Waits, weaken, ReaderWaits, ProcessorWaits, WriterWaits, on_acquire-Waits,
  on_read-Waits, on_push-Waits, on_pop-Waits, on_write-Waits, on_process-Waits,
}

module _ (c : PipelineConfig) (e : Environment) (responds : Responds e) where
  open e use {read, write}

  module _ (s : ChannelRun c e) where
    advance_reader-Waits :
        (w : Worker ReaderState)
        → s.reader ≡ w
        → Waits c e responds (ReaderWaits c e responds s) (advance_reader channel_calls c e w s)
    unfolding advance_reader unwind
    advance_reader-Waits (active (acquires i o)) r =
        on_acquire-Waits c e responds s i o s.available r refl
    advance_reader-Waits (active (reads i o)) r = on_read-Waits c e responds s i o (read i o) refl
    advance_reader-Waits (active (ReaderState.pushes i o bytes)) r =
        weaken c e responds (λ h. inr (inr h))
          (on_push-Waits c e responds s _ _ _ _ _
            (send-Sends s.read_to_process (new_block i o bytes)))
    advance_reader-Waits (active leaves) r = goes _
    advance_reader-Waits (raised x) r = goes _
    advance_reader-Waits (fails_first x) r = goes _
    advance_reader-Waits (fails_second x) r = goes _
    advance_reader-Waits failed r = halts (inl (ap is_over r))
    advance_reader-Waits returned r = halts (inl (ap is_over r))

    advance_processor-Waits :
        (w : Worker ProcessorState)
        → s.processor ≡ w
        → Waits c e responds
            (ProcessorWaits c e responds s)
            (advance_processor channel_calls c e w s)
    unfolding advance_processor unwind
    advance_processor-Waits (active ProcessorState.pops) r =
        weaken c e responds (λ h. inr (inl (ap held_processor r, h)))
          (on_pop-Waits c e responds s _ _ _ _ _ (receive-Receives s.read_to_process))
    advance_processor-Waits (active (processes item)) r = on_process-Waits c e responds s item _ _ _
    advance_processor-Waits (active (ProcessorState.pushes item)) r =
        weaken c e responds (λ h. inr (inr h))
          (on_push-Waits c e responds s _ _ _ _ _ (send-Sends s.process_to_write item))
    advance_processor-Waits (active closes) r = goes _
    advance_processor-Waits (raised x) r = goes _
    advance_processor-Waits (fails_first x) r = goes _
    advance_processor-Waits (fails_second x) r = goes _
    advance_processor-Waits failed r = halts (inl (ap is_over r))
    advance_processor-Waits returned r = halts (inl (ap is_over r))

    advance_writer-Waits :
        (w : Worker WriterState)
        → s.writer ≡ w
        → Waits c e responds (WriterWaits c e responds s) (advance_writer channel_calls c e w s)
    unfolding advance_writer unwind
    advance_writer-Waits (active WriterState.pops) r =
        weaken c e responds (λ h. inr (ap held_writer r, h))
          (on_pop-Waits c e responds s _ _ _ _ _ (receive-Receives s.process_to_write))
    advance_writer-Waits (active (writes item)) r = on_write-Waits c e responds s item _ refl
    advance_writer-Waits (raised x) r = goes _
    advance_writer-Waits (fails_first x) r = goes _
    advance_writer-Waits (fails_second x) r = goes _
    advance_writer-Waits failed r = halts (inl (ap is_over r))
    advance_writer-Waits returned r = halts (inl (ap is_over r))

    all_over :
        IsSound c e s
        → 0 < c.max_inflight_buffers
        → 0 < c.queue_depth
        → ReaderWaits c e responds s
        → ProcessorWaits c e responds s
        → WriterWaits c e responds s
        → is_over s.reader && (is_over s.processor && is_over s.writer) ≡ true
    all_over v buffers depth r p w = ground arith

  enabled_or_halted :
      {W P : Type 0} {n : Option (Worker W × ChannelRun c e)}
      → Waits c e responds P n
      → n ≡ none
      → P
  enabled_or_halted (halts h) n = h
  enabled_or_halted (goes x) n = cc

  pub Stuck-over :
      (s : ChannelRun c e)
      → IsSound c e s
      → 0 < c.max_inflight_buffers
      → 0 < c.queue_depth
      → ((t : Thread) → step channel_calls c e t s ≡ none)
      → is_over s.reader && (is_over s.processor && is_over s.writer) ≡ true
  unfolding step
  Stuck-over s v buffers depth stuck =
      all_over s v buffers depth
        (enabled_or_halted (advance_reader-Waits s s.reader refl)
          (unplaced_reader _ (stuck reader_thread)))
        (enabled_or_halted (advance_processor-Waits s s.processor refl)
          (unplaced_processor _ (stuck processor_thread)))
        (enabled_or_halted (advance_writer-Waits s s.writer refl)
          (unplaced_writer _ (stuck writer_thread)))
    where
      unplaced_reader :
          (n : Option (Worker ReaderState × ChannelRun c e))
          → place_reader channel_calls c e n ≡ none
          → n ≡ none
      unplaced_reader none h = refl
      unplaced_reader (some (w, s')) h = cc

      unplaced_processor :
          (n : Option (Worker ProcessorState × ChannelRun c e))
          → place_processor channel_calls c e n ≡ none
          → n ≡ none
      unplaced_processor none h = refl
      unplaced_processor (some (w, s')) h = cc

      unplaced_writer :
          (n : Option (Worker WriterState × ChannelRun c e))
          → place_writer channel_calls c e n ≡ none
          → n ≡ none
      unplaced_writer none h = refl
      unplaced_writer (some (w, s')) h = cc
