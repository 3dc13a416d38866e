-- ===== src/Pipeline/Executor/Workers/Pieces.antt =====
-- The parts of the steps of the threads of src/pipeline/pipeline_executor.cpp, each a move.
use io_uring_async_load_proc.Prelude.{
  ℕ, zero, suc, ◌+◌, ◌≡◌, refl, ap, inl, inr, Bool, Option, none, some, List, [], ◌∷◌, length,
}
use io_uring_async_load_proc.Exception.{Result, ok, throw, Outcome, logic_error}
use io_uring_async_load_proc.Config.{PipelineConfig}
use io_uring_async_load_proc.Util.FileIo.{WriteAtResult}
use io_uring_async_load_proc.Pipeline.Output.{PipelineRunResult}
use io_uring_async_load_proc.Pipeline.Channel.{Channel}
use io_uring_async_load_proc.Pipeline.Channel.Answers.{
  Sends, room, full, shut, shut_by, Receives, first, empty, last, broken,
}
use io_uring_async_load_proc.Pipeline.Executor.Workers.State.{
  Item, Environment, Worker, active, returned, ReaderState, acquires, reads, ProcessorState, closes,
  processes, WriterState, writes,
}
use io_uring_async_load_proc.Pipeline.Executor.Workers.Blocks.{
  count_read, check_block, add_written, check_write, new_block,
}
use io_uring_async_load_proc.Pipeline.Executor.Workers.Loops.{
  on_acquire, on_push, on_pop, on_block, on_read, on_process, on_added, on_checked, on_write,
}
use io_uring_async_load_proc.Pipeline.Executor.Workers.Queues.{channel_calls}
use io_uring_async_load_proc.Pipeline.Executor.Workers.Moves.{
  ChannelRun, Moves, acquired, at_end, was_read, read_threw, block_refused, handed_on,
  reader_refused, received, drained, processor_broke, processed, process_threw, passed_on,
  processor_refused, taken, writer_drained, writer_broke, written, write_failed,
}

module _ (c : PipelineConfig) (e : Environment) where
  open e use {read, process, write}

  module _ (s : ChannelRun c e) where
    abbrev pub ReaderMoves : Option (Worker ReaderState × ChannelRun c e) → Type 0
    ReaderMoves none = Unit
    ReaderMoves (some (w, s')) = Moves c e s (record s' { reader = w })

    abbrev pub ProcessorMoves : Option (Worker ProcessorState × ChannelRun c e) → Type 0
    ProcessorMoves none = Unit
    ProcessorMoves (some (w, s')) = Moves c e s (record s' { processor = w })

    abbrev pub WriterMoves : Option (Worker WriterState × ChannelRun c e) → Type 0
    WriterMoves none = Unit
    WriterMoves (some (w, s')) = Moves c e s (record s' { writer = w })

  module _ (s : ChannelRun c e) where
    pub on_acquire-Moves :
        (i o a : ℕ)
        → s.reader ≡ active (acquires i o)
        → s.available ≡ a
        → ReaderMoves s (on_acquire channel_calls c e i o s a)
    unfolding on_acquire
    on_acquire-Moves i o zero r h = tt
    on_acquire-Moves i o (suc n) r h = acquired i o n r h

    pub on_block-Moves :
        (i o b : ℕ) (bs : List ℕ) (checked : Result (Unit {0}))
        → s.reader ≡ active (reads i o)
        → read i o ≡ some (ok (b ∷ bs))
        → check_block c i o (length (b ∷ bs)) ≡ checked
        → ReaderMoves s (
            on_block channel_calls c e i o
              (b ∷ bs)
              (record s { counters = count_read (length (b ∷ bs)) s.counters })
              checked)
    unfolding on_block
    on_block-Moves i o b bs (ok tt) r h k = was_read i o b bs r h k
    on_block-Moves i o b bs (throw x) r h k = block_refused i o b bs x r h k

    pub on_read-Moves :
        (i o : ℕ) (answer : Option (Result (List ℕ)))
        → s.reader ≡ active (reads i o)
        → read i o ≡ answer
        → ReaderMoves s (on_read channel_calls c e i o s answer)
    unfolding on_read
    on_read-Moves i o none r h = tt
    on_read-Moves i o (some (throw x)) r h = read_threw i o x r h
    on_read-Moves i o (some (ok [])) r h = at_end i o r h
    on_read-Moves i o (some (ok (b ∷ bs))) r h =
        on_block-Moves i o b bs (check_block c i o (length (b ∷ bs))) r h refl

    pub reader_push-Moves :
        (i o : ℕ) (bytes : List ℕ) (answer : Outcome Bool × Channel Item)
        → s.reader ≡ active (ReaderState.pushes i o bytes)
        → Sends s.read_to_process (new_block i o bytes) answer
        → ReaderMoves s (
            on_push channel_calls c e
              (acquires (i + 1) (o + length bytes))
              (record s { read_to_process = answer.1 })
              answer.0)
    unfolding on_push
    reader_push-Moves i o bytes _ r (room h) = handed_on i o bytes r h
    reader_push-Moves i o bytes _ r (full h) = tt
    reader_push-Moves i o bytes _ r (shut h) = reader_refused i o bytes logic_error r h
    reader_push-Moves i o bytes _ r (shut_by x h) = reader_refused i o bytes x r h

    pub processor_push-Moves :
        (item : Item) (answer : Outcome Bool × Channel Item)
        → s.processor ≡ active (ProcessorState.pushes item)
        → Sends s.process_to_write item answer
        → ProcessorMoves s (
            on_push channel_calls c e ProcessorState.pops
              (record s { process_to_write = answer.1 })
              answer.0)
    unfolding on_push
    processor_push-Moves item _ r (room h) = passed_on item r h
    processor_push-Moves item _ r (full h) = tt
    processor_push-Moves item _ r (shut h) = processor_refused item logic_error r h
    processor_push-Moves item _ r (shut_by x h) = processor_refused item x r h

    pub processor_pop-Moves :
        (answer : Outcome (Option Item) × Channel Item)
        → s.processor ≡ active ProcessorState.pops
        → Receives s.read_to_process answer
        → ProcessorMoves s (
            on_pop channel_calls c e
              (active closes)
              processes
              (record s { read_to_process = answer.1 })
              answer.0)
    unfolding on_pop
    processor_pop-Moves _ r (first item xs h) = received item xs r h
    processor_pop-Moves _ r (empty h) = tt
    processor_pop-Moves _ r (last h k) = drained r h k
    processor_pop-Moves _ r (broken x h) = processor_broke x r h

    pub writer_pop-Moves :
        (answer : Outcome (Option Item) × Channel Item)
        → s.writer ≡ active WriterState.pops
        → Receives s.process_to_write answer
        → WriterMoves s (
            on_pop channel_calls c e returned writes
              (record s { process_to_write = answer.1 })
              answer.0)
    unfolding on_pop
    writer_pop-Moves _ r (first item xs h) = taken item xs r h
    writer_pop-Moves _ r (empty h) = tt
    writer_pop-Moves _ r (last h k) = writer_drained r h k
    writer_pop-Moves _ r (broken x h) = writer_broke x r h

    pub on_process-Moves :
        (item : Item) (done : Result (Unit {0}))
        → s.processor ≡ active (processes item)
        → (process s.stages item.block).2 ≡ done
        → ProcessorMoves s (
            on_process channel_calls c e item
              (record s { stages = (process s.stages item.block).0 })
              done
              (process s.stages item.block).1)
    unfolding on_process
    on_process-Moves item (ok _) r h = processed item r h
    on_process-Moves item (throw x) r h = process_threw item x r h

    pub on_added-Moves :
        (item : Item) (w : WriteAtResult) (output' : e.File)
        (outcome : Result (Unit {0}) × PipelineRunResult)
        → s.writer ≡ active (writes item)
        → write item.block_index s.output item.block item.file_offset ≡ some (w, output')
        → check_write w item.valid_bytes ≡ ok tt
        → add_written s.result item.valid_bytes ≡ outcome
        → WriterMoves s (
            on_added channel_calls c e item
              (record s { output = output'; result = outcome.1 })
              outcome.0)
    unfolding on_added
    on_added-Moves item w output' (ok _, result') r h k a = written item w output' result' r h k a
    on_added-Moves item w output' (throw x, result') r h k a =
        write_failed item x w output' result' r h (inr (ap (λ t. t.0) a))

    pub on_checked-Moves :
        (item : Item) (w : WriteAtResult) (output' : e.File) (checked : Result (Unit {0}))
        → s.writer ≡ active (writes item)
        → write item.block_index s.output item.block item.file_offset ≡ some (w, output')
        → check_write w item.valid_bytes ≡ checked
        → WriterMoves s (on_checked channel_calls c e item (record s { output = output' }) checked)
    unfolding on_checked
    on_checked-Moves item w output' (ok _) r h k =
        on_added-Moves item w output' (add_written s.result item.valid_bytes) r h k refl
    on_checked-Moves item w output' (throw x) r h k =
        write_failed item x w output' s.result r h (inl k)

    pub on_write-Moves :
        (item : Item) (answer : Option (WriteAtResult × e.File))
        → s.writer ≡ active (writes item)
        → write item.block_index s.output item.block item.file_offset ≡ answer
        → WriterMoves s (on_write channel_calls c e item s answer)
    unfolding on_write
    on_write-Moves item none r h = tt
    on_write-Moves item (some (w, output')) r h =
        on_checked-Moves item w output' (check_write w item.valid_bytes) r h refl
