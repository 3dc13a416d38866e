-- ===== src/Benchmark/Samples.antt =====
-- A run of the pipeline of src/benchmark/end_to_end_baseline.cpp on a small file, in two blocks.
use io_uring_async_load_proc.Prelude.{
  ℕ, suc, zero, ◌+◌, ◌≤◌, refl, true, none, some, List, [], ◌∷◌, replicate, arith,
}
use io_uring_async_load_proc.Config.{PipelineConfig}
use io_uring_async_load_proc.Buffer.Aligned.{Allocation, allocated}
use io_uring_async_load_proc.Util.FileIo.{Answer, transfers}
use io_uring_async_load_proc.Util.FileIo.WriteAll.{effective, Sane}
use io_uring_async_load_proc.Util.FileIo.Calm.{Calm}
use io_uring_async_load_proc.Util.FileIo.Memory.{linear}
use io_uring_async_load_proc.Metrics.Registry.{empty_registry}
use io_uring_async_load_proc.Pipeline.SpscQueue.{SpscQueue, State}
use io_uring_async_load_proc.Pipeline.Executor.Workers.State.{
  Item, Environment, Thread, reader_thread, processor_thread, writer_thread, returned, active,
  ProcessorState, WriterState, acquires,
}
use io_uring_async_load_proc.Pipeline.Executor.Workers.Same.{QueueRun}
use io_uring_async_load_proc.Pipeline.Executor.Run.{RunGauges}
use io_uring_async_load_proc.Benchmark.Increment.Correct.{increments, Serves}

abbrev pub config : PipelineConfig
config = record { block_size = 8; max_inflight_buffers = 2; queue_depth = 2; buffer_alignment = 8 }

abbrev pub input : List ℕ
input = 1 ∷ 2 ∷ 3 ∷ 4 ∷ 5 ∷ 6 ∷ 7 ∷ 8 ∷ 255 ∷ []

-- A read gives at most eight bytes, and a write one byte at a time.
abbrev pub preads : ℕ → List Answer
preads i = transfers 8 ∷ []

abbrev pub pwrites : ℕ → ℕ → List Answer
pwrites i size = replicate size (transfers 1)

pub pwrites-Sane : (n : ℕ) → Sane (replicate n (transfers 1))
pwrites-Sane zero = tt
pwrites-Sane (suc n) = (tt, pwrites-Sane n)

pub pwrites_end : (n : ℕ) → n ≤ effective (replicate n (transfers 1))
pwrites_end zero = omega arith
pwrites_end (suc n) = omega (arith, pwrites_end n)

pub preads-Calm : (i : ℕ) → Calm (preads i)
preads-Calm i = (λ h. absurd (omega arith), tt)

pub pwrites-Calm : (n : ℕ) → Calm (replicate n (transfers 1))
pwrites-Calm zero = tt
pwrites-Calm (suc n) = (λ h. absurd (omega arith), pwrites-Calm n)

abbrev pub clock : ℕ → ℕ × ℕ
clock i = (0, 1)

abbrev pub environment : Environment
environment = increments linear config clock preads pwrites input input

pub serves : Serves linear config clock preads pwrites input input
serves = record {
  loads = λ o k. refl;
  reads = λ i. (λ h. absurd (omega arith), tt);
  reads_end = λ i. omega arith;
  writes = λ i size. pwrites-Sane size;
  writes_end = λ i size. pwrites_end size;
}

abbrev pub memory : ℕ → Allocation
memory i = allocated (4096 + i)

abbrev pub no_gauges : RunGauges
no_gauges = record {
  inflight_buffers = none;
  read_process_queue_depth = none;
  process_write_queue_depth = none;
}

abbrev pub fresh_queue : SpscQueue Item
fresh_queue = record {
  slots = none ∷ none ∷ [];
  head = 0;
  tail = 0;
  size = 0;
  state = State.opened;
  failure = none;
  depth_metric = none;
}

abbrev pub one_stage : environment.Stages
one_stage = (
  record { instrumented = true; stages = record { stage = tt; latency = none } ∷ [] },
  empty_registry,
)

-- The reader is one block ahead, and the first block is written while the second is processed.
abbrev pub schedule : List Thread
schedule =
    reader_thread ∷ reader_thread ∷ reader_thread ∷ reader_thread ∷ reader_thread ∷ reader_thread
    ∷ processor_thread ∷ processor_thread ∷ processor_thread ∷ writer_thread ∷ processor_thread
    ∷ processor_thread ∷ writer_thread ∷ processor_thread ∷ reader_thread ∷ writer_thread
    ∷ reader_thread ∷ writer_thread ∷ reader_thread ∷ processor_thread ∷ processor_thread
    ∷ writer_thread ∷ []

abbrev pub finished : QueueRun config environment
finished = record {
  available = 2;
  read_to_process = record fresh_queue { state = State.closed };
  process_to_write = record fresh_queue { state = State.closed };
  first_failure = none;
  reader = returned;
  processor = returned;
  writer = returned;
  stages = one_stage;
  output = 2 ∷ 3 ∷ 4 ∷ 5 ∷ 6 ∷ 7 ∷ 8 ∷ 9 ∷ 0 ∷ [];
  result = record { blocks_written = 2; bytes_written = 9 };
  counters = none;
}

abbrev pub first_block_read : QueueRun config environment
first_block_read = record {
  available = 1;
  read_to_process = record fresh_queue {
    slots =
        some (record {
          block_index = 0;
          file_offset = 0;
          valid_bytes = 8;
          block = 1 ∷ 2 ∷ 3 ∷ 4 ∷ 5 ∷ 6 ∷ 7 ∷ 8 ∷ [];
        })
        ∷ none
        ∷ [];
    tail = 1;
    size = 1;
  };
  process_to_write = fresh_queue;
  first_failure = none;
  reader = active (acquires 1 8);
  processor = active ProcessorState.pops;
  writer = active WriterState.pops;
  stages = one_stage;
  output = [];
  result = record { blocks_written = 0; bytes_written = 0 };
  counters = none;
}
