-- ===== src/Pipeline/Executor/Workers/Loops.antt =====
-- The worker loops of src/pipeline/pipeline_executor.cpp. A step of a worker is one call on what the
-- workers share, with the worker's own work up to the next one; a buffer that is given back goes
-- with the call before. The latency histograms are left out, and a thread that cannot be started.
use io_uring_async_load_proc.Prelude.{
  ◌-◌, ℕ, zero, suc, ◌+◌, Bool, true, false, Option, none, some, List, [], ◌∷◌, length,
}
use io_uring_async_load_proc.Exception.{
  Exception, Result, ok, throw, Outcome, blocks, returns, throws, faults, logic_error,
}
use io_uring_async_load_proc.Config.{PipelineConfig}
use io_uring_async_load_proc.Util.FileIo.{WriteAtResult}
use io_uring_async_load_proc.Pipeline.Executor.{canonical_failure}
use io_uring_async_load_proc.Pipeline.Executor.Workers.State.{
  Item, Environment, QueueCalls, Worker, active, raised, fails_first, fails_second, failed,
  returned, ReaderState, acquires, reads, leaves, ProcessorState, closes, processes, WriterState,
  writes, Thread, reader_thread, processor_thread, writer_thread, RunCounters, System,
}
use io_uring_async_load_proc.Pipeline.Executor.Workers.Blocks.{
  count_read, count_processed, count_written, check_block, add_written, check_write, new_block,
}

module _ {Q : Type 0} (calls : QueueCalls Q) (c : PipelineConfig) (e : Environment) where
  open calls use {push, pop, close, fail, size}
  open e use {Stages, File, read, process, write}

  abbrev pub Run : Type 0
  Run = System Q Stages File

  abbrev pub Next : Type 0 → Type 0
  Next W = Option (Worker W × Run)

  -- A handle that is destroyed gives its buffer back.
  abbrev release : Run → Run
  release s = record s { available = s.available + 1 }

  -- An exception leaves the loop, and what the loop held is destroyed.
  abbrev raise : {W : Type 0} → Exception → Run → Next W
  raise x s = some (raised x, release s)

  -- The values that `fail` discards give their buffers back.
  abbrev pub discarded : Q → Exception → ℕ
  discarded q x = size q - size (fail q x)

  -- `catch (...) { fail_all(...); }`, section by section.
  unfoldable pub unwind : {W : Type 0} → Worker W → Run → Next W
  unwind (active w) s = none
  unwind (raised x) s =
      let canonical = canonical_failure s.first_failure x in
      some (fails_first canonical, record s { first_failure = some canonical })
  unwind (fails_first x) s = some (
    fails_second x,
    record s {
      available = s.available + discarded s.read_to_process x;
      read_to_process = fail s.read_to_process x;
    },
  )
  unwind (fails_second x) s = some (
    failed,
    record s {
      available = s.available + discarded s.process_to_write x;
      process_to_write = fail s.process_to_write x;
    },
  )
  unwind failed s = none
  unwind returned s = none

  -- `acquire`, by the number of free buffers.
  unfoldable pub on_acquire : ℕ → ℕ → Run → ℕ → Next ReaderState
  on_acquire i o s zero = none
  on_acquire i o s (suc n) = some (active (reads i o), record s { available = n })

  -- A value that a queue did not take is destroyed.
  unfoldable pub on_push : {W : Type 0} → W → Run → Outcome Bool → Next W
  on_push next s blocks = none
  on_push next s faults = none
  on_push next s (throws x) = raise x s
  on_push next s (returns false) = raise logic_error s
  on_push next s (returns true) = some (active next, s)

  unfoldable pub on_pop :
      {W : Type 0} → Worker W → (Item → W) → Run → Outcome (Option Item) → Next W
  on_pop ended next s blocks = none
  on_pop ended next s faults = none
  on_pop ended next s (throws x) = some (raised x, s)
  on_pop ended next s (returns none) = some (ended, s)
  on_pop ended next s (returns (some item)) = some (active (next item), s)

  unfoldable pub on_block : ℕ → ℕ → List ℕ → Run → Result (Unit {0}) → Next ReaderState
  on_block i o bytes s (throw x) = raise x s
  on_block i o bytes s (ok _) = some (active (ReaderState.pushes i o bytes), s)

  unfoldable pub on_read : ℕ → ℕ → Run → Option (Result (List ℕ)) → Next ReaderState
  unfolding check_block on_block
  on_read i o s none = none
  on_read i o s (some (throw x)) = raise x s
  on_read i o s (some (ok [])) =
      some (active leaves, record s { read_to_process = close s.read_to_process })
  on_read i o s (some (ok (b ∷ bs))) =
      let bytes_read = length (b ∷ bs) in
      on_block i o (b ∷ bs) (record s { counters = count_read bytes_read s.counters })
        (check_block c i o bytes_read)

  unfoldable pub advance_reader : Worker ReaderState → Run → Next ReaderState
  unfolding on_acquire on_read on_push unwind
  advance_reader (active (acquires i o)) s = on_acquire i o s s.available
  advance_reader (active (reads i o)) s = on_read i o s (read i o)
  advance_reader (active (ReaderState.pushes i o bytes)) s =
      let (pushed, q) = push s.read_to_process (new_block i o bytes) in
      on_push (acquires (i + 1) (o + length bytes)) (record s { read_to_process = q }) pushed
  advance_reader (active leaves) s = some (returned, release s)
  advance_reader w s = unwind w s

  unfoldable pub on_process : Item → Run → Result (Unit {0}) → List ℕ → Next ProcessorState
  on_process item s (throw x) block' = raise x s
  on_process item s (ok _) block' = some (
    active (ProcessorState.pushes (record item { block = block' })),
    record s { counters = count_processed item.valid_bytes s.counters },
  )

  unfoldable pub advance_processor : Worker ProcessorState → Run → Next ProcessorState
  unfolding on_process on_push on_pop unwind
  advance_processor (active ProcessorState.pops) s =
      let (popped, q) = pop s.read_to_process in
      on_pop (active closes) processes (record s { read_to_process = q }) popped
  advance_processor (active (processes item)) s =
      let (stages', block', done) = process s.stages item.block in
      on_process item (record s { stages = stages' }) done block'
  advance_processor (active (ProcessorState.pushes item)) s =
      let (pushed, q) = push s.process_to_write item in
      on_push ProcessorState.pops (record s { process_to_write = q }) pushed
  advance_processor (active closes) s =
      some (returned, record s { process_to_write = close s.process_to_write })
  advance_processor w s = unwind w s

  unfoldable pub on_added : Item → Run → Result (Unit {0}) → Next WriterState
  on_added item s (throw x) = raise x s
  on_added item s (ok _) = some (
    active WriterState.pops,
    release (record s { counters = count_written item.valid_bytes s.counters }),
  )

  unfoldable pub on_checked : Item → Run → Result (Unit {0}) → Next WriterState
  unfolding add_written on_added
  on_checked item s (throw x) = raise x s
  on_checked item s (ok _) =
      let (added, result') = add_written s.result item.valid_bytes in
      on_added item (record s { result = result' }) added

  unfoldable pub on_write : Item → Run → Option (WriteAtResult × File) → Next WriterState
  unfolding check_write on_checked
  on_write item s none = none
  on_write item s (some (w, output')) =
      on_checked item (record s { output = output' }) (check_write w item.valid_bytes)

  unfoldable pub advance_writer : Worker WriterState → Run → Next WriterState
  unfolding on_write on_pop unwind
  advance_writer (active WriterState.pops) s =
      let (popped, q) = pop s.process_to_write in
      on_pop returned writes (record s { process_to_write = q }) popped
  advance_writer (active (writes item)) s =
      on_write item s (write item.block_index s.output item.block item.file_offset)
  advance_writer w s = unwind w s

  abbrev pub place_reader : Next ReaderState → Option Run
  place_reader none = none
  place_reader (some (w, s)) = some (record s { reader = w })

  abbrev pub place_processor : Next ProcessorState → Option Run
  place_processor none = none
  place_processor (some (w, s)) = some (record s { processor = w })

  abbrev pub place_writer : Next WriterState → Option Run
  place_writer none = none
  place_writer (some (w, s)) = some (record s { writer = w })

  -- One step of a thread, if it can take one.
  unfoldable pub step : Thread → Run → Option Run
  unfolding advance_reader advance_processor advance_writer
  step reader_thread s = place_reader (advance_reader s.reader s)
  step processor_thread s = place_processor (advance_processor s.processor s)
  step writer_thread s = place_writer (advance_writer s.writer s)

  -- An interleaving: the threads in the order of their steps, each of which could take its step.
  unfoldable pub run_workers : List Thread → Run → Option Run
  unfolding step
  run_workers [] s = some s
  run_workers (t ∷ ts) s = elim (step t s) [ none ↦ none | some s' ↦ run_workers ts s' ]

  -- The threads when all were started on two queues that are empty and open.
  unfoldable pub start_workers : Q → Q → Stages → File → Option RunCounters → Run
  start_workers q q' stages output counters = record {
    available = c.max_inflight_buffers;
    read_to_process = q;
    process_to_write = q';
    first_failure = none;
    reader = active (acquires 0 0);
    processor = active ProcessorState.pops;
    writer = active WriterState.pops;
    stages = stages;
    output = output;
    result = record { blocks_written = 0; bytes_written = 0 };
    counters = counters;
  }
