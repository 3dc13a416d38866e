-- ===== src/Lib.antt =====
-- Verification of the asynchronous block loader: bounded buffers, queues, stages, read backends
-- and the metrics that observe them.
--
-- The program reads a file in blocks with one of three backends, runs every block through a
-- pipeline of stages and writes the results. A reader, a processor and a writer thread pass work
-- items, each with a lease on a buffer of a bounded pool, through two bounded single-producer,
-- single-consumer queues; counters, gauges and histograms of a registry observe them.
--
-- - Prelude, Exception: shared lists, tests and lemmas over the native numbers, and the results of
--   code that may throw. Exceptions are kept by class, a `std::system_error` with its number.
-- - Config: src/config/pipeline_config.cpp. `size_t` has 64 bits and a pointer 8 bytes.
-- - Metrics: src/metrics. Counters, gauges (64-bit patterns), histograms with at most 32 finite
--   buckets, and the registry with at most 64 metrics; the atomics are modelled by their
--   sequential meaning.
-- - Util: src/util/file_io.cpp and src/util/fd_guard.cpp. The operating system answers each call
--   from a list, and `none` means that the list ended; the theorems on loops say how many answers
--   are enough. The file system is an interface with two laws on writes, and Util/FileIo/Memory
--   has two instances.
-- - Buffer: src/buffer. Buffers with their allocation, the pool's critical sections, and a world
--   of handles that are acquired, moved, assigned and destroyed in any order.
-- - Pipeline/Channel and Pipeline/SpscQueue: include/pipeline/spsc_queue.h. The channel is what
--   the queue promises; a call that has to wait has an outcome of its own, and leaves the queue as
--   it is.
-- - Pipeline/Stages: src/pipeline/builtin_stages.cpp. Stages/Checksum writes out the published
--   FNV-1a hash, with shifts and sums, to compare the checksum with.
-- - Pipeline/WorkItem: src/pipeline/block_work_item.cpp.
-- - Pipeline/StagePipeline: src/pipeline/pipeline.cpp, over any stages (an interface) and any
--   clock. Decimal numbers are printed with one more digit than their value as fuel, which is
--   enough since a number has no more digits than that.
-- - Coroutine: include/coroutine and src/coroutine. A coroutine is the number of its suspensions
--   and its outcome; liburing's answers are given.
-- - Backend: src/backend. The factory's fallbacks, the thread pool as interleaved steps of its
--   threads, and the synchronous backend. A thread that waits on a condition variable of the pool
--   sleeps until it is notified; a wake-up without a notification only tests the predicate again,
--   and is left out.
-- - Pipeline/Executor and Pipeline/Output: src/pipeline/pipeline_executor.cpp. How a run is
--   admitted, how its metrics are registered, how the first failure of a worker reaches the
--   others, and how `run_file` publishes the output, from what the run gives and writes, which
--   Pipeline/Executor/File puts in.
-- - Pipeline/Executor/Workers: the three worker loops of src/pipeline/pipeline_executor.cpp, as
--   threads that take steps in any order. A step is one call on what the threads share, and a run
--   is a list of threads, each of which could take its step. The reads, the stages and the writes
--   are an interface (State), which Pipeline/Executor/Compose fills with the reads of the
--   synchronous backend through `complete_read`, the stages of Pipeline/StagePipeline and the
--   writes of Util/FileIo. The queues are an interface too: Same and Refine let a run over the
--   queue be told as one over the channel, which Invariant, Progress and Measure are about.
-- - Pipeline/Executor/Run: `PipelineExecutor::run`, from its tests to what it returns, for a given
--   order of the steps of its threads.
-- - Benchmark: src/benchmark/end_to_end_baseline.cpp. The serial reference loop with the number of
--   rounds as fuel, which never needs more rounds than the input has bytes and one; the workload
--   of one byte-increment stage; and the verification pass that compares two files, with the same
--   fuel.
-- - Baseline: src/baseline/sync_preprocess_baseline.cpp, with the number of rounds as fuel, which
--   is enough when it is more than the number of bytes of the input.
-- - Reporting: the JSON strings of src/reporting/pipeline_reporter.cpp, a reader of such strings
--   to compare them with, and the publication of a document, whose text is given.
--
-- Not modelled: the clock and floating-point statistics, the rendering of the reports, the timed
-- runs of the benchmark and the examples, which only measure or print; the latency histograms of
-- the worker loops, and a worker thread that cannot be started; runs of the whole executor on the
-- other two backends, whose reads are only modelled one by one; message texts of exceptions; the
-- memory model below the mutexes, since every shared state but the metrics is only used under one.
pub mod Prelude
pub mod Exception
pub mod Config
pub mod Metrics
pub mod Util
pub mod Buffer
pub mod Pipeline
pub mod Coroutine
pub mod Backend
pub mod Benchmark
pub mod Baseline
pub mod Reporting
