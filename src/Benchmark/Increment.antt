-- ===== src/Benchmark/Increment.antt =====
-- The workload of src/benchmark/end_to_end_baseline.cpp: one stage that increments every byte, over
-- the files of the operating system.
pub mod Correct
pub mod Finish
pub mod Total
pub mod Published
use io_uring_async_load_proc.Prelude.{
  dec_lt, ℕ_discrete, ℕ, zero, suc, ◌+◌, ◌-◌, ◌*◌, ◌^◌, ◌≤◌, ◌<◌, ◌≡◌, ◌≢◌, refl, sym, ap, subst,
  ◌∙◌, ◌⊎◌, inl, inr, Bool, true, false, not, ◌&&◌, ◌||◌, Option, none, some, List, [], ◌∷◌, ◌++◌,
  length, ltb, ◌==◌, if◌then◌else◌, arith, Bool-cases, Option-cases, length-append, lt→ltb, ltb→lt,
  le→not-ltb,
}
use io_uring_async_load_proc.Exception.{
  Exception, Result, ok, throw, throw_if, ◌>>=◌, ◌>>◌, Outcome, blocks, returns, throws, faults,
  invalid_argument, logic_error, overflow_error, runtime_error, system_error, Result-cases,
  >>=-eq-ok,
}
use io_uring_async_load_proc.Config.{PipelineConfig}
use io_uring_async_load_proc.Metrics.Counter.{Counter, increment}
use io_uring_async_load_proc.Util.FileIo.{WriteAtResult}
use io_uring_async_load_proc.Pipeline.Output.{PipelineRunResult, checked_add}
use io_uring_async_load_proc.Pipeline.Executor.{canonical_failure, fail_queue, finish_run}
use io_uring_async_load_proc.Pipeline.SpscQueue
use io_uring_async_load_proc.Pipeline.SpscQueue.{SpscQueue}
use io_uring_async_load_proc.Pipeline.Channel.{
  Channel, Status, send, receive, take_first, finish, abort,
}
use io_uring_async_load_proc.Pipeline.Channel.Answers.{
  IsFull, IsIdle, HasRoom, added, Sends, room, full, shut, shut_by, send-Sends, Receives, first,
  empty, last, broken, receive-Receives,
}
use io_uring_async_load_proc.Metrics.Name.{bytes}
use io_uring_async_load_proc.Metrics.Registry.{MetricsRegistry}
use io_uring_async_load_proc.Pipeline.StagePipeline.{
  StageInterface, StagePipeline, add_stage, new_pipeline, run_stages, process_from,
}
use io_uring_async_load_proc.Pipeline.Stages.{byte_increment, increment_byte}

-- `ByteIncrementStage`, which has no state.
abbrev pub increment_stage : StageInterface
increment_stage = record {
  Stage = Unit {0};
  name = λ stage. bytes "byte_increment";
  process = λ stage block. (stage, byte_increment block, ok tt);
}

-- `processing.add_stage(std::make_unique<ByteIncrementStage>())` on a new pipeline that has metrics.
unfoldable pub increment_pipeline :
    MetricsRegistry → Result (Unit {0}) × StagePipeline (Unit {0}) × MetricsRegistry
unfolding add_stage
increment_pipeline r = add_stage increment_stage (new_pipeline increment_stage true) r (some tt)
