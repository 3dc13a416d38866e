-- ===== src/Pipeline/Executor/Workers/Moves.antt =====
-- The steps of the threads of src/pipeline/pipeline_executor.cpp over queues that are channels, one
-- by one, each with what must hold for it.
use io_uring_async_load_proc.Prelude.{◌-◌, ℕ, suc, ◌+◌, ◌≡◌, ◌≢◌, ◌⊎◌, some, List, [], ◌∷◌, length}
use io_uring_async_load_proc.Exception.{Exception, ok, throw}
use io_uring_async_load_proc.Config.{PipelineConfig}
use io_uring_async_load_proc.Util.FileIo.{WriteAtResult}
use io_uring_async_load_proc.Pipeline.Output.{PipelineRunResult}
use io_uring_async_load_proc.Pipeline.Executor.{canonical_failure}
use io_uring_async_load_proc.Pipeline.Channel.{Channel, Status, finish, abort}
use io_uring_async_load_proc.Pipeline.Channel.Answers.{HasRoom, added}
use io_uring_async_load_proc.Pipeline.Executor.Workers.State.{
  Item, Environment, Worker, active, raised, fails_first, fails_second, failed, returned,
  ReaderState, acquires, reads, leaves, ProcessorState, closes, processes, WriterState, writes,
  System,
}
use io_uring_async_load_proc.Pipeline.Executor.Workers.Blocks.{
  count_read, count_processed, count_written, check_block, add_written, check_write, new_block,
}

module _ (c : PipelineConfig) (e : Environment) where
  open e use {Stages, File, read, process, write}

  abbrev pub ChannelRun : Type 0
  ChannelRun = System (Channel Item) Stages File

  abbrev pub dropped : Channel Item → Exception → ℕ
  dropped q x = length q.items - length (abort q x).items

  -- The sections of `fail_all` of one thread.
  pub data Unwinds {W : Type 0} (s : ChannelRun) : Worker W → ChannelRun → Worker W → Type 0 where
    caught :
        (x : Exception)
        → Unwinds s
            (raised x)
            (record s { first_failure = some (canonical_failure s.first_failure x) })
            (fails_first (canonical_failure s.first_failure x))
    broke_first :
        (x : Exception)
        → Unwinds s
            (fails_first x)
            (record s {
              available = s.available + dropped s.read_to_process x;
              read_to_process = abort s.read_to_process x;
            })
            (fails_second x)
    broke_second :
        (x : Exception)
        → Unwinds s
            (fails_second x)
            (record s {
              available = s.available + dropped s.process_to_write x;
              process_to_write = abort s.process_to_write x;
            })
            failed

  abbrev pub put_back : ChannelRun → ℕ
  put_back s = s.available + 1

  pub data Moves (s : ChannelRun) : ChannelRun → Type 0 where
    acquired :
        (i o n : ℕ)
        → s.reader ≡ active (acquires i o)
        → s.available ≡ suc n
        → Moves s (record s { available = n; reader = active (reads i o) })
    at_end :
        (i o : ℕ)
        → s.reader ≡ active (reads i o)
        → read i o ≡ some (ok [])
        → Moves s (record s { read_to_process = finish s.read_to_process; reader = active leaves })
    was_read :
        (i o b : ℕ) (bs : List ℕ)
        → s.reader ≡ active (reads i o)
        → read i o ≡ some (ok (b ∷ bs))
        → check_block c i o (length (b ∷ bs)) ≡ ok tt
        → Moves s (record s {
          counters = count_read (length (b ∷ bs)) s.counters;
          reader = active (ReaderState.pushes i o (b ∷ bs));
        })
    read_threw :
        (i o : ℕ) (x : Exception)
        → s.reader ≡ active (reads i o)
        → read i o ≡ some (throw x)
        → Moves s (record s { available = put_back s; reader = raised x })
    block_refused :
        (i o b : ℕ) (bs : List ℕ) (x : Exception)
        → s.reader ≡ active (reads i o)
        → read i o ≡ some (ok (b ∷ bs))
        → check_block c i o (length (b ∷ bs)) ≡ throw x
        → Moves s (record s {
          available = put_back s;
          counters = count_read (length (b ∷ bs)) s.counters;
          reader = raised x;
        })
    handed_on :
        (i o : ℕ) (bytes : List ℕ)
        → s.reader ≡ active (ReaderState.pushes i o bytes)
        → HasRoom s.read_to_process
        → Moves s (record s {
          read_to_process = added s.read_to_process (new_block i o bytes);
          reader = active (acquires (i + 1) (o + length bytes));
        })
    reader_refused :
        (i o : ℕ) (bytes : List ℕ) (x : Exception)
        → s.reader ≡ active (ReaderState.pushes i o bytes)
        → s.read_to_process.status ≢ Status.opened
        → Moves s (record s { available = put_back s; reader = raised x })
    reader_left :
        s.reader ≡ active leaves → Moves s (record s { available = put_back s; reader = returned })
    reader_unwinds :
        (w w' : Worker ReaderState) (s' : ChannelRun)
        → s.reader ≡ w
        → Unwinds s w s' w'
        → Moves s (record s' { reader = w' })
    received :
        (item : Item) (xs : List Item)
        → s.processor ≡ active ProcessorState.pops
        → s.read_to_process.items ≡ item ∷ xs
        → Moves s (record s {
          read_to_process = record s.read_to_process { items = xs };
          processor = active (processes item);
        })
    drained :
        s.processor ≡ active ProcessorState.pops
        → s.read_to_process.items ≡ []
        → s.read_to_process.status ≡ Status.closed
        → Moves s (record s { processor = active closes })
    processor_broke :
        (x : Exception)
        → s.processor ≡ active ProcessorState.pops
        → s.read_to_process.status ≡ Status.failed x
        → Moves s (record s { processor = raised x })
    processed :
        (item : Item)
        → s.processor ≡ active (processes item)
        → (process s.stages item.block).2 ≡ ok tt
        → Moves s (record s {
          stages = (process s.stages item.block).0;
          counters = count_processed item.valid_bytes s.counters;
          processor =
              active
                (ProcessorState.pushes (record item { block = (process s.stages item.block).1 }));
        })
    process_threw :
        (item : Item) (x : Exception)
        → s.processor ≡ active (processes item)
        → (process s.stages item.block).2 ≡ throw x
        → Moves s (record s {
          stages = (process s.stages item.block).0;
          available = put_back s;
          processor = raised x;
        })
    passed_on :
        (item : Item)
        → s.processor ≡ active (ProcessorState.pushes item)
        → HasRoom s.process_to_write
        → Moves s (record s {
          process_to_write = added s.process_to_write item;
          processor = active ProcessorState.pops;
        })
    processor_refused :
        (item : Item) (x : Exception)
        → s.processor ≡ active (ProcessorState.pushes item)
        → s.process_to_write.status ≢ Status.opened
        → Moves s (record s { available = put_back s; processor = raised x })
    closed_output :
        s.processor ≡ active closes
        → Moves s (record s { process_to_write = finish s.process_to_write; processor = returned })
    processor_unwinds :
        (w w' : Worker ProcessorState) (s' : ChannelRun)
        → s.processor ≡ w
        → Unwinds s w s' w'
        → Moves s (record s' { processor = w' })
    taken :
        (item : Item) (xs : List Item)
        → s.writer ≡ active WriterState.pops
        → s.process_to_write.items ≡ item ∷ xs
        → Moves s (record s {
          process_to_write = record s.process_to_write { items = xs };
          writer = active (writes item);
        })
    writer_drained :
        s.writer ≡ active WriterState.pops
        → s.process_to_write.items ≡ []
        → s.process_to_write.status ≡ Status.closed
        → Moves s (record s { writer = returned })
    writer_broke :
        (x : Exception)
        → s.writer ≡ active WriterState.pops
        → s.process_to_write.status ≡ Status.failed x
        → Moves s (record s { writer = raised x })
    written :
        (item : Item) (w : WriteAtResult) (output' : File) (result' : PipelineRunResult)
        → s.writer ≡ active (writes item)
        → write item.block_index s.output item.block item.file_offset ≡ some (w, output')
        → check_write w item.valid_bytes ≡ ok tt
        → add_written s.result item.valid_bytes ≡ (ok tt, result')
        → Moves s (record s {
          available = put_back s;
          output = output';
          result = result';
          counters = count_written item.valid_bytes s.counters;
          writer = active WriterState.pops;
        })
    write_failed :
        (item : Item) (x : Exception) (w : WriteAtResult) (output' : File)
        (result' : PipelineRunResult)
        → s.writer ≡ active (writes item)
        → write item.block_index s.output item.block item.file_offset ≡ some (w, output')
        → (check_write w item.valid_bytes ≡ throw x)
          ⊎ ((add_written s.result item.valid_bytes).0 ≡ throw x)
        → Moves s (record s {
          available = put_back s;
          output = output';
          result = result';
          writer = raised x;
        })
    writer_unwinds :
        (w w' : Worker WriterState) (s' : ChannelRun)
        → s.writer ≡ w
        → Unwinds s w s' w'
        → Moves s (record s' { writer = w' })
