-- ===== src/Benchmark/Tests.antt =====
-- Runs of src/benchmark/end_to_end_baseline.cpp and of the pipeline that it measures on a concrete
-- input, and instances of the theorems on the threads of src/pipeline/pipeline_executor.cpp.
use io_uring_async_load_proc.Prelude.{
  ℕ, ◌+◌, ◌*◌, ◌≤◌, ◌≡◌, ◌⊎◌, refl, true, false, none, some, List, [], ◌∷◌, ◌++◌, map, length,
  arith,
}
use io_uring_async_load_proc.Exception.{Result, ok}
use io_uring_async_load_proc.Config.{validate, is_power_of_two}
use io_uring_async_load_proc.Buffer.Aligned.{new_aligned_buffer, validate_allocation}
use io_uring_async_load_proc.Buffer.Pool.{new_pool, make_buffers, push_indices}
use io_uring_async_load_proc.Util.FileIo
use io_uring_async_load_proc.Util.FileIo.{transfers}
use io_uring_async_load_proc.Util.FileIo.Memory.{linear}
use io_uring_async_load_proc.Backend.Sync
use io_uring_async_load_proc.Pipeline.Stages.{increment_byte, byte_increment}
use io_uring_async_load_proc.Pipeline.StagePipeline.{run_stages, process_from}
use io_uring_async_load_proc.Pipeline.Executor.{admit, finish_run}
use io_uring_async_load_proc.Util.Errno.{enoent}
use io_uring_async_load_proc.Metrics.Name.{bytes}
use io_uring_async_load_proc.Pipeline.Output.{
  Answers, Directory, PipelineRunResult, status, status_error,
}
use io_uring_async_load_proc.Pipeline.Executor.File.{run_file_on}
use io_uring_async_load_proc.Benchmark.Increment.Published.{run_file-increments}
use io_uring_async_load_proc.Pipeline.SpscQueue
use io_uring_async_load_proc.Pipeline.Executor.Compose.{
  read_block, forget_answers, process_with, file_environment-Responds,
}
use io_uring_async_load_proc.Pipeline.Executor.Run.{make_queues, run, make_queues-Started}
use io_uring_async_load_proc.Pipeline.Executor.Workers.State.{
  Thread, reader_thread, processor_thread, writer_thread,
}
use io_uring_async_load_proc.Pipeline.Executor.Workers.Blocks.{
  count_read, count_processed, count_written,
}
use io_uring_async_load_proc.Pipeline.Executor.Workers.Loops.{step, run_workers, start_workers}
use io_uring_async_load_proc.Pipeline.Executor.Workers.Queues.{spsc_calls, join_workers}
use io_uring_async_load_proc.Pipeline.Executor.Workers.Waits.{Responds}
use io_uring_async_load_proc.Pipeline.Executor.Workers.Termination.{
  Started, stuck-Joined, run_workers-bounded,
}
use io_uring_async_load_proc.Benchmark.Serial.{serial_loop}
use io_uring_async_load_proc.Benchmark.Serial.Equivalence.{run-serial}
use io_uring_async_load_proc.Benchmark.Increment.{increment_stage}
use io_uring_async_load_proc.Benchmark.Increment.Correct.{increments-FitsBuffer, increments-EndsAt}
use io_uring_async_load_proc.Benchmark.Increment.Total.{run-increments_all}
use io_uring_async_load_proc.Pipeline.Executor.Workers.Completion.{run_workers_complete}
use io_uring_async_load_proc.Pipeline.Executor.Workers.Same.{QueueRun}
use io_uring_async_load_proc.Benchmark.Samples.{
  config, input, preads, pwrites, clock, environment, serves, memory, no_gauges, fresh_queue,
  one_stage, schedule, finished, first_block_read, preads-Calm, pwrites-Calm,
}

serial_ran :
    serial_loop environment 3 0 one_stage [] (record { blocks_written = 0; bytes_written = 0 }) 0
    ≡ some (ok (record { blocks_written = 2; bytes_written = 9 }), one_stage, finished.output)
unfolding serial_loop read_block Sync.read_at FileIo.read_at forget_answers FileIo.write_all_at
    process_with run_stages process_from byte_increment increment_byte
serial_ran = refl

queues_made : make_queues memory config no_gauges ≡ ok (fresh_queue, fresh_queue)
unfolding make_queues new_pool make_buffers push_indices validate is_power_of_two new_aligned_buffer
    validate_allocation SpscQueue.new_queue
queues_made = refl

schedule_ran :
    run_workers spsc_calls config environment schedule
      (start_workers spsc_calls config environment fresh_queue fresh_queue one_stage [] none)
    ≡ some finished
unfolding run_workers start_workers read_block Sync.read_at FileIo.read_at forget_answers
    FileIo.write_all_at process_with run_stages process_from byte_increment increment_byte
    SpscQueue.push SpscQueue.pop SpscQueue.close count_read count_processed count_written
schedule_ran = refl

schedule_over : (t : Thread) → step spsc_calls config environment t finished ≡ none
unfolding step
schedule_over reader_thread = refl
schedule_over processor_thread = refl
schedule_over writer_thread = refl

responds : Responds environment
responds =
    file_environment-Responds linear increment_stage config clock preads pwrites input
      serves.reads_end serves.writes_end

started : Started config fresh_queue fresh_queue
started =
    make_queues-Started memory config no_gauges fresh_queue fresh_queue (omega arith) queues_made

admitted : admit (some 3) (some 4) 1 false ≡ ok true
unfolding admit
admitted = refl

stuck-Joined_example :
    (join_workers finished ≡ some (finish_run none finished.result))
    × (finished.available ≡ config.max_inflight_buffers)
    × (finished.read_to_process.size ≡ 0)
    × (finished.process_to_write.size ≡ 0)
stuck-Joined_example =
    stuck-Joined config environment fresh_queue fresh_queue one_stage [] none started schedule
      finished responds schedule_ran schedule_over

run_workers-bounded_example : length schedule ≤ 10 * length input + 21
run_workers-bounded_example =
    run_workers-bounded config environment fresh_queue fresh_queue one_stage [] none started
      (length input) schedule finished
      (increments-EndsAt linear config clock preads pwrites input input serves (omega arith))
      schedule_ran

run-serial_example :
    run config environment memory no_gauges none schedule (some 3) (some 4) 1 false one_stage []
    ≡ some (ok (record { blocks_written = 2; bytes_written = 9 }), one_stage, finished.output)
run-serial_example =
    run-serial config environment one_stage [] fresh_queue fresh_queue none memory no_gauges
      (some 3) (some 4) 1 3 (record { blocks_written = 2; bytes_written = 9 }) one_stage
      finished.output schedule finished admitted queues_made (omega arith) responds
      (increments-FitsBuffer linear config clock preads pwrites input input serves (omega arith))
      serial_ran schedule_ran schedule_over

run-increments_all_example :
    (blocks : ℕ) × (stages' : environment.Stages) × (run config environment memory no_gauges none
        schedule
        (some 3)
        (some 4)
        1
        false
        one_stage
        []
      ≡ some (
        ok (record { blocks_written = blocks; bytes_written = 9 }),
        stages',
        linear.store [] 0 (map increment_byte input),
      ))
run-increments_all_example =
    run-increments_all linear config clock preads pwrites input input memory no_gauges none (some 3)
      (some 4) fresh_queue fresh_queue one_stage [] schedule finished serves preads-Calm
      (λ i size. pwrites-Calm size) (omega arith) admitted (omega arith) queues_made (omega arith)
      (none, refl) schedule_ran schedule_over

-- The run may have come to any point: here, to the first block in the first queue.
three_steps :
    run_workers spsc_calls config environment
      (reader_thread ∷ reader_thread ∷ reader_thread ∷ [])
      (start_workers spsc_calls config environment fresh_queue fresh_queue one_stage [] none)
    ≡ some first_block_read
unfolding run_workers start_workers read_block Sync.read_at FileIo.read_at SpscQueue.push count_read
three_steps = refl

run_workers_complete_example :
    (us : List Thread) × (s' : QueueRun config environment) × (run_workers spsc_calls config
        environment
        ((reader_thread ∷ reader_thread ∷ reader_thread ∷ []) ++ us)
        (start_workers spsc_calls config environment fresh_queue fresh_queue one_stage [] none)
      ≡ some s')
    × (join_workers s' ≡ some (finish_run s'.first_failure s'.result))
    × (s'.available ≡ config.max_inflight_buffers)
    × (s'.read_to_process.size ≡ 0)
    × (s'.process_to_write.size ≡ 0)
run_workers_complete_example =
    run_workers_complete config environment fresh_queue fresh_queue one_stage [] none started
      (length input) (reader_thread ∷ reader_thread ∷ reader_thread ∷ []) first_block_read responds
      (increments-EndsAt linear config clock preads pwrites input input serves (omega arith))
      three_steps

-- Every call succeeds, and there was no output yet.
abbrev no_failure : Answers
no_failure = record {
  open_input = none;
  input_status = status 1 20;
  output_status = status_error enoent;
  open_directory = none;
  make_temporary = none;
  sync_file = 0;
  rename = none;
  sync_directory = 0;
  unlink = none;
}

abbrev no_output : Directory
no_output = record { final = none; temporary = none }

run_file-increments_example :
    (o : Result PipelineRunResult) × (d' : Directory) × (run_file_on
        (λ file. file)
        no_failure
        (bytes "in")
        (bytes "out")
        no_output
        (run config environment memory no_gauges none schedule
          (some 3)
          (some 4)
          1
          false
          one_stage
          [])
      ≡ some (o, d'))
    × (no_failure.unlink ≡ none → d'.temporary ≡ none)
    × ((d'.final ≡ none) ⊎ (d'.final ≡ some (map increment_byte input)))
    × ((result : PipelineRunResult)
        → o ≡ ok result
        → (d'.final ≡ some (map increment_byte input))
          × (d'.temporary ≡ none)
          × (result.bytes_written ≡ 9))
run_file-increments_example =
    run_file-increments config clock preads pwrites input memory no_gauges none (some 3) (some 4)
      fresh_queue fresh_queue one_stage schedule finished no_failure (bytes "in") (bytes "out")
      no_output serves preads-Calm (λ i size. pwrites-Calm size) (omega arith) admitted
      (omega arith) queues_made (omega arith) (none, refl) refl schedule_ran schedule_over
