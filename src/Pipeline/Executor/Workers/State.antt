-- ===== src/Pipeline/Executor/Workers/State.antt =====
-- What the threads of a run of src/pipeline/pipeline_executor.cpp share, and where each of them is.
-- A work item has its buffer to itself, so the valid bytes of the buffer go with the item, and the
-- pool is the number of its free buffers.
use Prim.Native.Nat.{ℕ}
use io_uring_async_load_proc.Exception.{Result, Exception, Outcome}
use io_uring_async_load_proc.Metrics.Counter.{Counter}
use io_uring_async_load_proc.Prelude.{Bool, Option, List}
use io_uring_async_load_proc.Pipeline.Output.{PipelineRunResult}
use io_uring_async_load_proc.Util.FileIo.{WriteAtResult}

pub record Item : Type 0 where
  pub block_index : ℕ
  pub file_offset : ℕ
  pub valid_bytes : ℕ
  pub block : List ℕ

-- What the loops call: `complete_read` for a block at an offset, the processing pipeline on the bytes
-- of a span, and `write_all_at` for a block. `none` stands for a call that never returns.
pub record Environment : Type 1 where
  pub Stages : Type 0
  pub File : Type 0
  pub read : ℕ → ℕ → Option (Result (List ℕ))
  pub process : Stages → List ℕ → Stages × List ℕ × Result (Unit {0})
  pub write : ℕ → File → List ℕ → ℕ → Option (WriteAtResult × File)

-- The calls of a queue. The exception handed to `fail` is never null.
pub record QueueCalls (Q : Type 0) : Type 0 where
  pub push : Q → Item → Outcome Bool × Q
  pub pop : Q → Outcome (Option Item) × Q
  pub close : Q → Q
  pub fail : Q → Exception → Q
  pub size : Q → ℕ

-- A thread under `run_guarded`: in its loop with a state of its own, at the three sections of
-- `fail_all`, or over.
pub data Worker (W : Type 0) : Type 0 where
  active : W → Worker W
  raised fails_first fails_second : Exception → Worker W
  failed returned : Worker W

pub data ReaderState : Type 0 where
  acquires reads : ℕ → ℕ → ReaderState
  pushes : ℕ → ℕ → List ℕ → ReaderState
  leaves : ReaderState

pub data ProcessorState : Type 0 where
  pops closes : ProcessorState
  processes pushes : Item → ProcessorState

pub data WriterState : Type 0 where
  pops : WriterState
  writes : Item → WriterState

-- The threads of a run.
pub data Thread : Type 0 where
  reader_thread processor_thread writer_thread : Thread

pub record RunCounters : Type 0 where
  pub read_blocks : Counter
  pub read_bytes : Counter
  pub processed_blocks : Counter
  pub processed_bytes : Counter
  pub written_blocks : Counter
  pub written_bytes : Counter

pub record System (Q P F : Type 0) : Type 0 where
  pub available : ℕ
  pub read_to_process : Q
  pub process_to_write : Q
  pub first_failure : Option Exception
  pub reader : Worker ReaderState
  pub processor : Worker ProcessorState
  pub writer : Worker WriterState
  pub stages : P
  pub output : F
  pub result : PipelineRunResult
  pub counters : Option RunCounters
