-- ===== src/Pipeline/Executor/Workers/Waits.antt =====
-- When a thread of src/pipeline/pipeline_executor.cpp cannot take a step.
use io_uring_async_load_proc.Prelude.{
  ℕ, zero, suc, ◌≡◌, ◌≢◌, ◌⊎◌, inl, inr, Bool, true, Option, none, some, List, [], ◌∷◌, length,
  arith,
}
use io_uring_async_load_proc.Exception.{Result, ok, throw, Outcome}
use io_uring_async_load_proc.Config.{PipelineConfig}
use io_uring_async_load_proc.Util.FileIo.{WriteAtResult}
use io_uring_async_load_proc.Pipeline.Channel.{Channel}
use io_uring_async_load_proc.Pipeline.Channel.Answers.{
  IsFull, IsIdle, Sends, room, full, shut, shut_by, Receives, first, empty, last, broken,
}
use io_uring_async_load_proc.Pipeline.Executor.Workers.State.{
  Item, Environment, Worker, active, acquires,
}
use io_uring_async_load_proc.Pipeline.Executor.Workers.Blocks.{
  check_block, add_written, check_write,
}
use io_uring_async_load_proc.Pipeline.Executor.Workers.Loops.{
  on_acquire, on_push, on_pop, on_block, on_read, on_process, on_added, on_checked, on_write,
}
use io_uring_async_load_proc.Pipeline.Executor.Workers.Queues.{channel_calls, is_over}
use io_uring_async_load_proc.Pipeline.Executor.Workers.Moves.{ChannelRun}
use io_uring_async_load_proc.Pipeline.Executor.Workers.Invariant.{
  held_reader, held_processor, held_writer,
}

pub record Responds (e : Environment) : Type 0 where
  pub read_returns : (i o : ℕ) → e.read i o ≢ none
  pub write_returns : (i : ℕ) (f : e.File) (block : List ℕ) (o : ℕ) → e.write i f block o ≢ none

module _ (c : PipelineConfig) (e : Environment) (responds : Responds e) where
  open e use {read, write}

  -- A step that cannot be taken, for the reason `P`, or one that is taken.
  pub data Waits {W : Type 0} (P : Type 0) : Option (Worker W × ChannelRun c e) → Type 0 where
    halts : P → Waits P none
    goes : (x : Worker W × ChannelRun c e) → Waits P (some x)

  pub weaken :
      {W P R : Type 0} {n : Option (Worker W × ChannelRun c e)} → (P → R) → Waits P n → Waits R n
  weaken f (halts h) = halts (f h)
  weaken f (goes x) = goes x

  module _ (s : ChannelRun c e) where
    abbrev pub ReaderWaits : Type 0
    ReaderWaits =
        (is_over s.reader ≡ true)
        ⊎ (((held_reader s.reader ≡ 0) × (s.available ≡ 0)) ⊎ IsFull s.read_to_process)

    abbrev pub ProcessorWaits : Type 0
    ProcessorWaits =
        (is_over s.processor ≡ true)
        ⊎ (((held_processor s.processor ≡ 0) × IsIdle s.read_to_process)
            ⊎ IsFull s.process_to_write)

    abbrev pub WriterWaits : Type 0
    WriterWaits =
        (is_over s.writer ≡ true) ⊎ ((held_writer s.writer ≡ 0) × IsIdle s.process_to_write)

    pub on_acquire-Waits :
        (i o a : ℕ)
        → s.reader ≡ active (acquires i o)
        → s.available ≡ a
        → Waits ReaderWaits (on_acquire channel_calls c e i o s a)
    unfolding on_acquire
    on_acquire-Waits i o zero r h = halts (inr (inl (ground arith, h)))
    on_acquire-Waits i o (suc n) r h = goes _

    pub on_block-Waits :
        (i o : ℕ) (bytes : List ℕ) (s' : ChannelRun c e) (checked : Result (Unit {0}))
        → Waits ReaderWaits (on_block channel_calls c e i o bytes s' checked)
    unfolding on_block
    on_block-Waits i o bytes s' (ok _) = goes _
    on_block-Waits i o bytes s' (throw x) = goes _

    pub on_read-Waits :
        (i o : ℕ) (answer : Option (Result (List ℕ)))
        → read i o ≡ answer
        → Waits ReaderWaits (on_read channel_calls c e i o s answer)
    unfolding on_read
    on_read-Waits i o none h = absurd (responds.read_returns i o h)
    on_read-Waits i o (some (throw x)) h = goes _
    on_read-Waits i o (some (ok [])) h = goes _
    on_read-Waits i o (some (ok (b ∷ bs))) h =
        on_block-Waits i o (b ∷ bs) _ (check_block c i o (length (b ∷ bs)))

    pub on_push-Waits :
        {W : Type 0} (next : W) (s' : ChannelRun c e) (q : Channel Item) (item : Item)
        (answer : Outcome Bool × Channel Item)
        → Sends q item answer
        → Waits (IsFull q) (on_push channel_calls c e next s' answer.0)
    unfolding on_push
    on_push-Waits next s' q item _ (room h) = goes _
    on_push-Waits next s' q item _ (full h) = halts h
    on_push-Waits next s' q item _ (shut h) = goes _
    on_push-Waits next s' q item _ (shut_by x h) = goes _

    pub on_pop-Waits :
        {W : Type 0} (ended : Worker W) (next : Item → W) (s' : ChannelRun c e) (q : Channel Item)
        (answer : Outcome (Option Item) × Channel Item)
        → Receives q answer
        → Waits (IsIdle q) (on_pop channel_calls c e ended next s' answer.0)
    unfolding on_pop
    on_pop-Waits ended next s' q _ (first item xs h) = goes _
    on_pop-Waits ended next s' q _ (empty h) = halts h
    on_pop-Waits ended next s' q _ (last h k) = goes _
    on_pop-Waits ended next s' q _ (broken x h) = goes _

    pub on_added-Waits :
        (item : Item) (s' : ChannelRun c e) (added' : Result (Unit {0}))
        → Waits WriterWaits (on_added channel_calls c e item s' added')
    unfolding on_added
    on_added-Waits item s' (ok _) = goes _
    on_added-Waits item s' (throw x) = goes _

    pub on_checked-Waits :
        (item : Item) (s' : ChannelRun c e) (checked : Result (Unit {0}))
        → Waits WriterWaits (on_checked channel_calls c e item s' checked)
    unfolding on_checked
    on_checked-Waits item s' (ok _) =
        on_added-Waits item _ (add_written s'.result item.valid_bytes).0
    on_checked-Waits item s' (throw x) = goes _

    pub on_write-Waits :
        (item : Item) (answer : Option (WriteAtResult × e.File))
        → write item.block_index s.output item.block item.file_offset ≡ answer
        → Waits WriterWaits (on_write channel_calls c e item s answer)
    unfolding on_write
    on_write-Waits item none h = absurd (responds.write_returns _ _ _ _ h)
    on_write-Waits item (some (w, output')) h =
        on_checked-Waits item _ (check_write w item.valid_bytes)

    pub on_process-Waits :
        (item : Item) (s' : ChannelRun c e) (done : Result (Unit {0})) (block' : List ℕ)
        → Waits ProcessorWaits (on_process channel_calls c e item s' done block')
    unfolding on_process
    on_process-Waits item s' (ok _) block' = goes _
    on_process-Waits item s' (throw x) block' = goes _
