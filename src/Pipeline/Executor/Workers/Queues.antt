-- ===== src/Pipeline/Executor/Workers/Queues.antt =====
-- The queues between the workers of src/pipeline/pipeline_executor.cpp, and the end of a run.
-- The queue of include/pipeline/spsc_queue.h, and what it promises.
use io_uring_async_load_proc.Prelude.{
  length, Bool, true, false, ◌&&◌, Option, none, some, if◌then◌else◌,
}
use io_uring_async_load_proc.Exception.{Result}
use io_uring_async_load_proc.Pipeline.Output.{PipelineRunResult}
use io_uring_async_load_proc.Pipeline.Executor.{fail_queue, finish_run}
use io_uring_async_load_proc.Pipeline.SpscQueue
use io_uring_async_load_proc.Pipeline.SpscQueue.{SpscQueue}
use io_uring_async_load_proc.Pipeline.Channel.{Channel, send, receive, finish, abort}
use io_uring_async_load_proc.Pipeline.Executor.Workers.State.{
  Item, QueueCalls, Worker, failed, returned, System,
}

abbrev pub spsc_calls : QueueCalls (SpscQueue Item)
spsc_calls = record {
  push = SpscQueue.push;
  pop = SpscQueue.pop;
  close = SpscQueue.close;
  fail = fail_queue;
  size = λ q. q.size;
}

abbrev pub channel_calls : QueueCalls (Channel Item)
channel_calls = record {
  push = send;
  pop = receive;
  close = finish;
  fail = abort;
  size = λ q. length q.items;
}

abbrev pub is_over : {W : Type 0} → Worker W → Bool
is_over failed = true
is_over returned = true
is_over _ = false

-- `join_workers`, and what comes behind it.
unfoldable pub join_workers : {Q P F : Type 0} → System Q P F → Option (Result PipelineRunResult)
unfolding finish_run
join_workers s =
    if is_over s.reader && (is_over s.processor && is_over s.writer)
    then some (finish_run s.first_failure s.result)
    else none
