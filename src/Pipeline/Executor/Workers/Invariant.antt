-- ===== src/Pipeline/Executor/Workers/Invariant.antt =====
-- What always holds between the threads of src/pipeline/pipeline_executor.cpp: every buffer is free
-- or at one place, and what is over stays over.
use io_uring_async_load_proc.Prelude.{
  ℕ, ◌+◌, ◌≡◌, Bool, true, false, not, ◌&&◌, ◌||◌, List, [], ◌∷◌, length, arith, length-append,
}
use io_uring_async_load_proc.Config.{PipelineConfig}
use io_uring_async_load_proc.Pipeline.Channel.{Status, finish, abort}
use io_uring_async_load_proc.Pipeline.Executor.Workers.State.{
  Item, Environment, Worker, active, fails_second, failed, returned, ReaderState, acquires, leaves,
  ProcessorState, closes, processes, WriterState, writes,
}
use io_uring_async_load_proc.Pipeline.Executor.Workers.Blocks.{new_block}
use io_uring_async_load_proc.Pipeline.Executor.Workers.Moves.{
  ChannelRun, caught, broke_first, broke_second, Moves, acquired, at_end, was_read, read_threw,
  block_refused, handed_on, reader_refused, reader_left, reader_unwinds, received, drained,
  processor_broke, processed, process_threw, passed_on, processor_refused, closed_output,
  processor_unwinds, taken, writer_drained, writer_broke, written, write_failed, writer_unwinds,
}

abbrev pub is_opened : Status → Bool
is_opened Status.opened = true
is_opened _ = false

abbrev pub is_closed : Status → Bool
is_closed Status.closed = true
is_closed _ = false

abbrev pub is_failed : Status → Bool
is_failed (Status.failed x) = true
is_failed _ = false

abbrev pub is_nil : List Item → Bool
is_nil [] = true
is_nil (x ∷ xs) = false

infixr 20 ◌⇒◌
abbrev pub ◌⇒◌ : Bool → Bool → Bool
a ⇒ b = not a || b

-- The buffers that a thread holds.
abbrev pub held_reader : Worker ReaderState → ℕ
held_reader (active (acquires i o)) = 0
held_reader (active _) = 1
held_reader _ = 0

abbrev pub held_processor : Worker ProcessorState → ℕ
held_processor (active (processes item)) = 1
held_processor (active (ProcessorState.pushes item)) = 1
held_processor _ = 0

abbrev pub held_writer : Worker WriterState → ℕ
held_writer (active (writes item)) = 1
held_writer _ = 0

-- The reader has closed its queue, and the processor has seen the end.
abbrev pub has_closed : Worker ReaderState → Bool
has_closed (active leaves) = true
has_closed returned = true
has_closed _ = false

abbrev pub has_drained : Worker ProcessorState → Bool
has_drained (active closes) = true
has_drained returned = true
has_drained _ = false

abbrev pub has_returned : {W : Type 0} → Worker W → Bool
has_returned returned = true
has_returned _ = false

abbrev pub has_failed : {W : Type 0} → Worker W → Bool
has_failed failed = true
has_failed _ = false

abbrev pub broke_reads : {W : Type 0} → Worker W → Bool
broke_reads failed = true
broke_reads (fails_second x) = true
broke_reads _ = false

module _ (c : PipelineConfig) (e : Environment) where
  pub record IsSound (s : ChannelRun c e) : Type 0 where
    pub leases :
        s.available
          + (held_reader s.reader
              + (length s.read_to_process.items
                  + (held_processor s.processor
                      + (length s.process_to_write.items + held_writer s.writer))))
        ≡ c.max_inflight_buffers
    pub read_limit : s.read_to_process.limit ≡ c.queue_depth
    pub write_limit : s.process_to_write.limit ≡ c.queue_depth
    pub closed_after : (has_closed s.reader ⇒ not (is_opened s.read_to_process.status)) ≡ true
    pub closed_before : (is_closed s.read_to_process.status ⇒ has_closed s.reader) ≡ true
    pub drained_after :
        (has_drained s.processor
          ⇒ not (is_opened s.read_to_process.status) && is_nil s.read_to_process.items)
        ≡ true
    pub output_closed_after :
        (has_returned s.processor ⇒ not (is_opened s.process_to_write.status)) ≡ true
    pub output_closed_before :
        (is_closed s.process_to_write.status ⇒ has_returned s.processor) ≡ true
    pub written_after :
        (has_returned s.writer
          ⇒ not (is_opened s.process_to_write.status) && is_nil s.process_to_write.items)
        ≡ true
    pub reads_broken :
        (broke_reads s.reader || (broke_reads s.processor || broke_reads s.writer)
          ⇒ is_failed s.read_to_process.status)
        ≡ true
    pub writes_broken :
        (has_failed s.reader || (has_failed s.processor || has_failed s.writer)
          ⇒ is_failed s.process_to_write.status)
        ≡ true
    pub in_order : (is_failed s.process_to_write.status ⇒ is_failed s.read_to_process.status) ≡ true
    pub reads_discarded :
        (is_failed s.read_to_process.status ⇒ is_nil s.read_to_process.items) ≡ true
    pub writes_discarded :
        (is_failed s.process_to_write.status ⇒ is_nil s.process_to_write.items) ≡ true

  pub Moves-IsSound : {s s' : ChannelRun c e} → Moves c e s s' → IsSound s → IsSound s'
  unfolding finish abort
  Moves-IsSound {s = s} (acquired i o n r h) v = ground arith
  Moves-IsSound {s = s} (at_end i o r h) v = ground arith
  Moves-IsSound {s = s} (was_read i o b bs r h k) v = ground arith
  Moves-IsSound {s = s} (read_threw i o x r h) v = ground arith
  Moves-IsSound {s = s} (block_refused i o b bs x r h k) v = ground arith
  Moves-IsSound {s = s} (handed_on i o bytes r h) v =
      ground (arith, length-append {0} s.read_to_process.items (new_block i o bytes ∷ []))
  Moves-IsSound {s = s} (reader_refused i o bytes x r h) v = ground arith
  Moves-IsSound {s = s} (reader_left r) v = ground arith
  Moves-IsSound {s = s} (reader_unwinds _ _ _ r (caught x)) v = ground arith
  Moves-IsSound {s = s} (reader_unwinds _ _ _ r (broke_first x)) v = ground arith
  Moves-IsSound {s = s} (reader_unwinds _ _ _ r (broke_second x)) v = ground arith
  Moves-IsSound {s = s} (received item xs r h) v = ground arith
  Moves-IsSound {s = s} (drained r h k) v = ground arith
  Moves-IsSound {s = s} (processor_broke x r h) v = ground arith
  Moves-IsSound {s = s} (processed item r h) v = ground arith
  Moves-IsSound {s = s} (process_threw item x r h) v = ground arith
  Moves-IsSound {s = s} (passed_on item r h) v =
      ground (arith, length-append {0} s.process_to_write.items (item ∷ []))
  Moves-IsSound {s = s} (processor_refused item x r h) v = ground arith
  Moves-IsSound {s = s} (closed_output r) v = ground arith
  Moves-IsSound {s = s} (processor_unwinds _ _ _ r (caught x)) v = ground arith
  Moves-IsSound {s = s} (processor_unwinds _ _ _ r (broke_first x)) v = ground arith
  Moves-IsSound {s = s} (processor_unwinds _ _ _ r (broke_second x)) v = ground arith
  Moves-IsSound {s = s} (taken item xs r h) v = ground arith
  Moves-IsSound {s = s} (writer_drained r h k) v = ground arith
  Moves-IsSound {s = s} (writer_broke x r h) v = ground arith
  Moves-IsSound {s = s} (written item w output' result' r h k a) v = ground arith
  Moves-IsSound {s = s} (write_failed item x w output' result' r h k) v = ground arith
  Moves-IsSound {s = s} (writer_unwinds _ _ _ r (caught x)) v = ground arith
  Moves-IsSound {s = s} (writer_unwinds _ _ _ r (broke_first x)) v = ground arith
  Moves-IsSound {s = s} (writer_unwinds _ _ _ r (broke_second x)) v = ground arith
