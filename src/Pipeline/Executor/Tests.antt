-- ===== src/Pipeline/Executor/Tests.antt =====
-- Runs of src/pipeline/pipeline_executor.cpp on concrete inputs, and instances of its theorems.
use io_uring_async_load_proc.Prelude.{ℕ, ◌≡◌, ◌≢◌, ◌⊎◌, refl, none, some, [], ◌∷◌, length, arith}
use io_uring_async_load_proc.Exception.{
  Exception, Result, ok, throw, throws, runtime_error, logic_error, system_error,
}
use io_uring_async_load_proc.Util.Errno.{enoent, eio}
use io_uring_async_load_proc.Metrics.Name.{bytes, name_eq}
use io_uring_async_load_proc.Metrics.Registry.{empty_registry, size}
use io_uring_async_load_proc.Metrics.Registry.Unique.{IsValid}
use io_uring_async_load_proc.Pipeline.SpscQueue.{SpscQueue, State, push, pop}
use io_uring_async_load_proc.Pipeline.Executor.{Shared, finish_run, register_runtime_metrics}
use io_uring_async_load_proc.Pipeline.Executor.Failure.{fail_each, fail_each-first}
use io_uring_async_load_proc.Pipeline.Executor.Registration.{
  AllAdded, register_runtime_metrics-AllAdded,
}
use io_uring_async_load_proc.Pipeline.Output.{
  status, status_error, Answers, Directory, PipelineRunResult, run_file, prepare, new_output,
}
use io_uring_async_load_proc.Pipeline.Output.Atomic.{Published, run_file-Published}

abbrev queue : SpscQueue ℕ
queue = record {
  slots = some 5 ∷ none ∷ [];
  head = 0;
  tail = 1;
  size = 1;
  state = State.opened;
  failure = none;
  depth_metric = none;
}

abbrev running : Shared ℕ
running = record { first_failure = none; read_to_process = queue; process_to_write = queue }

is_open : queue.state ≢ State.failed
is_open e = absurd (ground arith)

fail_each-first_example :
    let s' = fail_each running (runtime_error ∷ logic_error ∷ []) in
    (finish_run s'.first_failure (length queue.slots) ≡ throw runtime_error)
    × (push s'.read_to_process 6 ≡ (throws runtime_error, s'.read_to_process))
    × (pop s'.read_to_process ≡ (throws runtime_error, s'.read_to_process))
    × (push s'.process_to_write 6 ≡ (throws runtime_error, s'.process_to_write))
    × (pop s'.process_to_write ≡ (throws runtime_error, s'.process_to_write))
fail_each-first_example =
    fail_each-first running runtime_error (logic_error ∷ []) 6 (length queue.slots) refl is_open
      is_open

no_metrics-IsValid : IsValid empty_registry
unfolding size
no_metrics-IsValid = record { distinct = tt; fit = tt; few = omega arith }

register_runtime_metrics-AllAdded_example :
    let (o, r') = register_runtime_metrics empty_registry in
    (((e : Exception) × (o ≡ throw e)) × (r' ≡ empty_registry)) ⊎ AllAdded empty_registry 12 o r'
register_runtime_metrics-AllAdded_example =
    register_runtime_metrics-AllAdded empty_registry no_metrics-IsValid

-- The rename fails.
abbrev no_rename : Answers
no_rename = record {
  open_input = none;
  input_status = status 1 20;
  output_status = status_error enoent;
  open_directory = none;
  make_temporary = none;
  sync_file = 0;
  rename = some eio;
  sync_directory = 0;
  unlink = none;
}

abbrev good_run : Result PipelineRunResult
good_run = ok (record { blocks_written = 1; bytes_written = 3 })

abbrev old_output : Directory
old_output = record { final = some (9 ∷ []); temporary = none }

rename_refused :
    run_file no_rename good_run (1 ∷ 2 ∷ 3 ∷ []) (bytes "in") (bytes "d/out") old_output
    ≡ (throw (system_error eio), old_output)
unfolding run_file prepare new_output name_eq
rename_refused = refl

run_file-Published_example :
    let (o, d') =
      run_file no_rename good_run (1 ∷ 2 ∷ 3 ∷ []) (bytes "in") (bytes "d/out") old_output in
    Published no_rename good_run (1 ∷ 2 ∷ 3 ∷ []) old_output o d'
    × ((dev ino : ℕ)
        → no_rename.input_status ≡ status dev ino
        → no_rename.output_status ≡ status dev ino
        → d'.final ≡ old_output.final)
run_file-Published_example =
    run_file-Published no_rename good_run (1 ∷ 2 ∷ 3 ∷ []) (bytes "in") (bytes "d/out") old_output
      refl
