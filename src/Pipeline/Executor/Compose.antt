-- ===== src/Pipeline/Executor/Compose.antt =====
-- What the loops of src/pipeline/pipeline_executor.cpp call, from the parts that they call: the reads
-- of src/backend/sync_backend.cpp, the stages of src/pipeline/pipeline.cpp and the writes of
-- src/util/file_io.cpp. The operating system answers the calls of each read and write in turn.
-- The backend is the synchronous one; `complete_read` itself takes the task of any backend.
use io_uring_async_load_proc.Prelude.{
  ℕ, ◌≤◌, ◌<◌, ◌≢◌, inl, inr, Option, none, some, List, [], ◌∷◌, length, arith, Option-cases,
  if◌then◌else◌,
}
use io_uring_async_load_proc.Exception.{Result, ok, throw, returns, throws, blocks, faults}
use io_uring_async_load_proc.Config.{PipelineConfig}
use io_uring_async_load_proc.Util.FileIo.{
  WriteAtResult, FileSystem, Answer, transfers, failed, write_all_at,
}
use io_uring_async_load_proc.Pipeline.Executor.Workers.State.{Environment}
use io_uring_async_load_proc.Util.FileIo
use io_uring_async_load_proc.Util.FileIo.WriteAll.{effective, write_all_at_returns}
use io_uring_async_load_proc.Backend.Sync
use io_uring_async_load_proc.Coroutine.Task
use io_uring_async_load_proc.Coroutine.Task.{Task}
use io_uring_async_load_proc.Pipeline.StagePipeline.{StageInterface, StagePipeline, run_stages}
use io_uring_async_load_proc.Metrics.Registry.{MetricsRegistry}
use io_uring_async_load_proc.Pipeline.Executor.Workers.Waits.{Responds}

module _ {T : Type 0} where
  -- The loop of `complete_read`. A call of `wait_one` throws, or resumes the coroutine of the task.
  unfoldable pub complete_loop : List (Result (Unit {0})) → Task T → Option (Result T)
  unfolding Task.done Task.result Task.resume_task
  complete_loop [] t = if Task.done t then some (Task.result t).0 else none
  complete_loop (waited ∷ waits) t =
      let onward : Option (Result T) = elim waited [
        | throw x ↦ some (throw x)
        | ok _ ↦ elim (Task.resume_task t) [ none ↦ none | some t' ↦ complete_loop waits t' ]
      ] in
      if Task.done t then some (Task.result t).0 else onward

  -- `complete_read`, for the task that `read_at` gives and what the calls of `wait_one` do.
  unfoldable pub complete_read : List (Result (Unit {0})) → Task T → Option (Result T)
  unfolding complete_loop Task.start
  complete_read waits t = elim (Task.start t) [
    | returns t' ↦ complete_loop waits t'
    | throws x ↦ some (throw x)
    | blocks ↦ none
    | faults ↦ none
  ]

abbrev buffer_result : List ℕ → Option (Result ℕ) → Option (Result (List ℕ))
buffer_result bytes none = none
buffer_result bytes (some (throw x)) = some (throw x)
buffer_result bytes (some (ok count)) = some (ok bytes)

-- The reader's call of `complete_read` on the synchronous backend, from what the body of its `read_at`
-- does: that coroutine never suspends, and its `wait_one` throws.
unfoldable pub read_block : Option (Result ℕ × List ℕ × List Answer) → Option (Result (List ℕ))
unfolding complete_read Task.new_task Sync.wait_one
read_block none = none
read_block (some (outcome, bytes, rest)) =
    buffer_result bytes (complete_read (Sync.wait_one ∷ []) (Task.new_task 0 outcome))

unfoldable pub forget_answers :
    {F : Type 0} → Option (WriteAtResult × F × List Answer) → Option (WriteAtResult × F)
forget_answers none = none
forget_answers (some (w, file, rest)) = some (w, file)

module _ (fs : FileSystem) (si : StageInterface) where
  -- `Pipeline::process`, with the registry that it reports to.
  unfoldable pub process_with :
      (ℕ → ℕ × ℕ)
      → StagePipeline si.Stage × MetricsRegistry
      → List ℕ
      → (StagePipeline si.Stage × MetricsRegistry) × List ℕ × Result (Unit {0})
  process_with times (p, r) block =
      let (done, p', r', block') = run_stages si times p r block in ((p', r'), block', done)

  -- `preads` and `pwrites` give the answers by the index of the block and the number of bytes.
  abbrev pub file_environment :
      PipelineConfig
      → (ℕ → ℕ × ℕ)
      → (ℕ → List Answer)
      → (ℕ → ℕ → List Answer)
      → fs.File
      → Environment
  file_environment c times preads pwrites input = record {
    Stages = StagePipeline si.Stage × MetricsRegistry;
    File = fs.File;
    read = λ i o. read_block (Sync.read_at fs (preads i) input c.block_size o);
    process = process_with times;
    write =
        λ i file block o. forget_answers (write_all_at fs (pwrites i (length block)) file block o);
  }

  module _ (c : PipelineConfig) (times : ℕ → ℕ × ℕ) (preads : ℕ → List Answer)
      (pwrites : ℕ → ℕ → List Answer) (input : fs.File) where
    read_at_returns :
        (answers : List Answer) (o : ℕ)
        → 0 < effective answers
        → FileIo.read_at fs answers input c.block_size o ≢ none
    unfolding FileIo.read_at
    read_at_returns [] o enough = absurd (omega arith)
    read_at_returns (transfers n ∷ answers) o enough = ground arith
    read_at_returns (failed x ∷ answers) o enough = ground (arith, read_at_returns answers o)

    read_block_returns :
        (answers : List Answer) (o : ℕ)
        → 0 < effective answers
        → read_block (Sync.read_at fs answers input c.block_size o) ≢ none
    unfolding read_block Sync.read_at
    read_block_returns answers o enough h =
        elim (Option-cases (FileIo.read_at fs answers input c.block_size o)) [
          | inl never ↦ absurd (read_at_returns answers o enough never)
          | inr ((result, bytes, rest), got) ↦ absurd (ground arith)
        ]

    -- The calls return, if the operating system does not interrupt one of them for ever.
    pub file_environment-Responds :
        ((i : ℕ) → 0 < effective (preads i))
        → ((i size : ℕ) → size ≤ effective (pwrites i size))
        → Responds (file_environment c times preads pwrites input)
    unfolding forget_answers
    file_environment-Responds reads_end writes_end = record {
      read_returns = λ i o. read_block_returns (preads i) o (reads_end i);
      write_returns = λ i file block o h.
          elim (Option-cases (write_all_at fs (pwrites i (length block)) file block o)) [
            | inl never ↦
                write_all_at_returns fs (pwrites i (length block)) file block o
                  (writes_end i (length block)) never
            | inr ((w, file', rest), got) ↦ absurd (ground arith)
          ];
    }
