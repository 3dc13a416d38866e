-- ===== src/Pipeline/Executor/File.antt =====
-- `PipelineExecutor::run_file` of src/pipeline/pipeline_executor.cpp on what `PipelineExecutor::run` gave
-- and wrote into the temporary file.
use io_uring_async_load_proc.Prelude.{ℕ, Option, none, some, List}
use io_uring_async_load_proc.Exception.{Result}
use io_uring_async_load_proc.Pipeline.Output.{Answers, Directory, PipelineRunResult, run_file}

-- A run that never returns keeps `run_file` from returning. `bytes_of` tells the bytes of a file.
unfoldable pub run_file_on :
    {S F : Type 0}
    → (F → List ℕ)
    → Answers
    → List ℕ
    → List ℕ
    → Directory
    → Option (Result PipelineRunResult × S × F)
    → Option (Result PipelineRunResult × Directory)
unfolding run_file
run_file_on bytes_of a input_path final_output_path d none = none
run_file_on bytes_of a input_path final_output_path d (some (ran, stages, output)) =
    some (run_file a ran (bytes_of output) input_path final_output_path d)
