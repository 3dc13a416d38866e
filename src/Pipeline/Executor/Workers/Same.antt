-- ===== src/Pipeline/Executor/Workers/Same.antt =====
-- The parts of the steps of the threads of src/pipeline/pipeline_executor.cpp, over the circular
-- buffers and over the channels that these represent.
use io_uring_async_load_proc.Prelude.{
  ℕ, zero, suc, ◌≡◌, Bool, true, false, Option, none, some, List, [], ◌∷◌, arith,
}
use io_uring_async_load_proc.Exception.{
  Exception, Result, ok, throw, Outcome, blocks, returns, throws, faults,
}
use io_uring_async_load_proc.Config.{PipelineConfig}
use io_uring_async_load_proc.Pipeline.Executor.{fail_queue}
use io_uring_async_load_proc.Pipeline.SpscQueue.{SpscQueue}
use io_uring_async_load_proc.Pipeline.Channel.{Channel, finish, abort}
use io_uring_async_load_proc.Pipeline.Executor.Workers.State.{
  Item, Environment, Worker, active, raised, fails_first, fails_second, failed, returned, System,
}
use io_uring_async_load_proc.Pipeline.Executor.Workers.Loops.{
  unwind, on_acquire, on_push, on_pop, on_block, on_read, on_process, on_added, on_checked,
  discarded,
}
use io_uring_async_load_proc.Pipeline.Executor.Workers.Queues.{channel_calls, spsc_calls}
use io_uring_async_load_proc.Pipeline.Executor.Workers.Moves.{ChannelRun}
use io_uring_async_load_proc.Pipeline.Channel.Fifo
use io_uring_async_load_proc.Pipeline.Channel.Fifo.{fails}
use io_uring_async_load_proc.Pipeline.SpscQueue.Runs
use io_uring_async_load_proc.Pipeline.SpscQueue.Runs.{step_refines, new_queue-Represents}
use io_uring_async_load_proc.Pipeline.SpscQueue.View.{Represents}
use io_uring_async_load_proc.Pipeline.SpscQueue.Refine.{close_refines}

module _ (c : PipelineConfig) (e : Environment) where
  open e use {read, process, write}

  abbrev pub QueueRun : Type 0
  QueueRun = System (SpscQueue Item) e.Stages e.File

  -- The same threads over other queues.
  abbrev pub with_queues : QueueRun → Channel Item → Channel Item → ChannelRun c e
  with_queues s q q' = record {
    available = s.available;
    read_to_process = q;
    process_to_write = q';
    first_failure = s.first_failure;
    reader = s.reader;
    processor = s.processor;
    writer = s.writer;
    stages = s.stages;
    output = s.output;
    result = s.result;
    counters = s.counters;
  }

  pub data SameNext {W : Type 0}
      : Option (Worker W × QueueRun) → Option (Worker W × ChannelRun c e) → Type 0 where
    neither : SameNext none none
    both :
        (w : Worker W) (s : QueueRun) (q q' : Channel Item)
        → Represents s.read_to_process q
        → Represents s.process_to_write q'
        → SameNext (some (w, s)) (some (w, with_queues s q q'))

  module _ (s : QueueRun) (q q' : Channel Item) (r : Represents s.read_to_process q)
      (r' : Represents s.process_to_write q') where
    pub on_acquire-Same :
        (i o a : ℕ)
        → SameNext
            (on_acquire spsc_calls c e i o s a)
            (on_acquire channel_calls c e i o (with_queues s q q') a)
    unfolding on_acquire
    on_acquire-Same i o zero = neither
    on_acquire-Same i o (suc n) = both _ _ q q' r r'

    pub on_push-Same :
        {W : Type 0} (next : W) (answer : Outcome Bool)
        → SameNext
            (on_push spsc_calls c e next s answer)
            (on_push channel_calls c e next (with_queues s q q') answer)
    unfolding on_push
    on_push-Same next blocks = neither
    on_push-Same next faults = neither
    on_push-Same next (throws x) = both _ _ q q' r r'
    on_push-Same next (returns true) = both _ _ q q' r r'
    on_push-Same next (returns false) = both _ _ q q' r r'

    pub on_pop-Same :
        {W : Type 0} (ended : Worker W) (next : Item → W) (answer : Outcome (Option Item))
        → SameNext
            (on_pop spsc_calls c e ended next s answer)
            (on_pop channel_calls c e ended next (with_queues s q q') answer)
    unfolding on_pop
    on_pop-Same ended next blocks = neither
    on_pop-Same ended next faults = neither
    on_pop-Same ended next (throws x) = both _ _ q q' r r'
    on_pop-Same ended next (returns none) = both _ _ q q' r r'
    on_pop-Same ended next (returns (some item)) = both _ _ q q' r r'

    pub on_block-Same :
        (i o : ℕ) (bytes : List ℕ) (checked : Result (Unit {0}))
        → SameNext
            (on_block spsc_calls c e i o bytes s checked)
            (on_block channel_calls c e i o bytes (with_queues s q q') checked)
    unfolding on_block
    on_block-Same i o bytes (ok _) = both _ _ q q' r r'
    on_block-Same i o bytes (throw x) = both _ _ q q' r r'

    pub on_process-Same :
        (item : Item) (done : Result (Unit {0})) (block' : List ℕ)
        → SameNext
            (on_process spsc_calls c e item s done block')
            (on_process channel_calls c e item (with_queues s q q') done block')
    unfolding on_process
    on_process-Same item (ok _) block' = both _ _ q q' r r'
    on_process-Same item (throw x) block' = both _ _ q q' r r'

    pub on_added-Same :
        (item : Item) (done : Result (Unit {0}))
        → SameNext
            (on_added spsc_calls c e item s done)
            (on_added channel_calls c e item (with_queues s q q') done)
    unfolding on_added
    on_added-Same item (ok _) = both _ _ q q' r r'
    on_added-Same item (throw x) = both _ _ q q' r r'

  pub fail_queue_refines :
      {q : SpscQueue Item} {k : Channel Item} (x : Exception)
      → Represents q k
      → Represents (fail_queue q x) (abort k x)
  unfolding fail_queue Runs.step Fifo.step
  fail_queue_refines {q} {k} x r = (step_refines (fails x) r).1

  pub discarded-Same :
      {q : SpscQueue Item} {k : Channel Item} (x : Exception)
      → Represents q k
      → discarded spsc_calls c e q x ≡ discarded channel_calls c e k x
  discarded-Same {q} {k} x r = omega (arith, r.same_size, (fail_queue_refines x r).same_size)

  module _ (s : QueueRun) (q q' : Channel Item) (r : Represents s.read_to_process q)
      (r' : Represents s.process_to_write q') where
    pub on_read-Same :
        (i o : ℕ) (answer : Option (Result (List ℕ)))
        → SameNext
            (on_read spsc_calls c e i o s answer)
            (on_read channel_calls c e i o (with_queues s q q') answer)
    unfolding on_read
    on_read-Same i o none = neither
    on_read-Same i o (some (throw x)) = both _ _ q q' r r'
    on_read-Same i o (some (ok [])) = both _ _ (finish q) q' (close_refines r) r'
    on_read-Same i o (some (ok (b ∷ bs))) = on_block-Same _ q q' r r' i o (b ∷ bs) _

    pub on_checked-Same :
        (item : Item) (checked : Result (Unit {0}))
        → SameNext
            (on_checked spsc_calls c e item s checked)
            (on_checked channel_calls c e item (with_queues s q q') checked)
    unfolding on_checked
    on_checked-Same item (ok _) = on_added-Same _ q q' r r' item _
    on_checked-Same item (throw x) = both _ _ q q' r r'

    pub unwind-Same :
        {W : Type 0} (w : Worker W)
        → SameNext (unwind spsc_calls c e w s) (unwind channel_calls c e w (with_queues s q q'))
    unfolding unwind
    unwind-Same (active w) = neither
    unwind-Same (raised x) = both _ _ q q' r r'
    unwind-Same (fails_first x) =
        rw (← discarded-Same x r) (both _ _ (abort q x) q' (fail_queue_refines x r) r')
    unwind-Same (fails_second x) =
        rw (← discarded-Same x r') (both _ _ q (abort q' x) r (fail_queue_refines x r'))
    unwind-Same failed = neither
    unwind-Same returned = neither
