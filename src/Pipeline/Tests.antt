-- ===== src/Pipeline/Tests.antt =====
-- Runs of the code of src/pipeline on concrete inputs, and instances of its theorems.
use io_uring_async_load_proc.Prelude.{
  ℕ, ◌≡◌, ◌≢◌, ◌≤◌, ◌<◌, ◌⊎◌, refl, true, none, some, List, [], ◌∷◌, ◌++◌, length, arith,
}
use io_uring_async_load_proc.Exception.{ok, returns, throws, invalid_argument}
use io_uring_async_load_proc.Buffer.Pool.{AlignedBufferPool, BufferHandle}
use io_uring_async_load_proc.Buffer.Handles
use io_uring_async_load_proc.Pipeline.Channel.{Status}
use io_uring_async_load_proc.Pipeline.Channel.Fifo
use io_uring_async_load_proc.Pipeline.Channel.Fifo.{
  Call, pushes, pops, closes, fails, sent, received,
}
use io_uring_async_load_proc.Pipeline.SpscQueue
use io_uring_async_load_proc.Pipeline.SpscQueue.{SpscQueue, State, new_queue, push, pop}
use io_uring_async_load_proc.Pipeline.SpscQueue.View.{Represents}
use io_uring_async_load_proc.Pipeline.SpscQueue.Runs
use io_uring_async_load_proc.Pipeline.SpscQueue.Runs.{
  run, new_queue-Represents, run_refines, run-fifo,
}
use io_uring_async_load_proc.Pipeline.Stages.{
  checksum_byte, byte_increment, increment_byte, normalize, checksum, new_checksum_stage,
}
use io_uring_async_load_proc.Pipeline.Stages.Normalize.{Normalized, normalize-Normalized}
use io_uring_async_load_proc.Pipeline.WorkItem.{BlockWorkItem, new_item, valid_data, move_construct}
use io_uring_async_load_proc.Pipeline.WorkItem.Lease.{new_item-Ready}

abbrev two_slots : SpscQueue ℕ
two_slots = record {
  slots = none ∷ none ∷ [];
  head = 0;
  tail = 0;
  size = 0;
  state = State.opened;
  failure = none;
  depth_metric = none;
}

two_slots_made : new_queue 2 ≡ ok two_slots
unfolding new_queue
two_slots_made = refl

-- The third push waits; a pop makes room, and the ring wraps around.
abbrev calls : List (Call ℕ)
calls = pushes 7 ∷ pushes 8 ∷ pushes 9 ∷ pops ∷ pushes 9 ∷ closes ∷ []

run_refines_example :
    ((run two_slots calls).0
      ≡ (Fifo.run (record { items = []; status = Status.opened; limit = 2 }) calls).0)
    × Represents
        (run two_slots calls).1
        (Fifo.run (record { items = []; status = Status.opened; limit = 2 }) calls).1
run_refines_example = run_refines calls (new_queue-Represents 2 (omega arith) two_slots_made)

ends_closed : (run two_slots calls).1.state ≡ State.closed
unfolding run Runs.step push pop SpscQueue.close
ends_closed = refl

alive : (run two_slots calls).1.state ≢ State.failed
alive e = absurd (ground (arith, ends_closed))

run-fifo_example :
    (queued : List ℕ) × (sent (run two_slots calls).0 ≡ received (run two_slots calls).0 ++ queued)
    × ((run two_slots calls).1.size ≡ length queued)
    × (length queued ≤ 2)
run-fifo_example = run-fifo 2 calls (omega arith) two_slots_made alive

incremented : byte_increment (0 ∷ 255 ∷ []) ≡ 1 ∷ 0 ∷ []
unfolding byte_increment increment_byte
incremented = refl

normalized : normalize (10 ∷ 20 ∷ 12 ∷ []) ≡ 0 ∷ 255 ∷ 51 ∷ []
unfolding normalize
normalized = refl

normalize-Normalized_example : Normalized (10 ∷ 20 ∷ 12 ∷ []) (normalize (10 ∷ 20 ∷ 12 ∷ []))
normalize-Normalized_example =
    normalize-Normalized 10 (20 ∷ 12 ∷ []) (omega arith, (omega arith, (omega arith, tt)))

-- The published FNV-1a value of "a".
checksum_of_a : (checksum new_checksum_stage (97 ∷ [])).0.last_checksum ≡ 12638187200555641996
unfolding checksum new_checksum_stage checksum_byte
checksum_of_a = refl

abbrev one_buffer : AlignedBufferPool
one_buffer = record {
  buffers = record { address = some 4096; size = 8; alignment = 8 } ∷ [];
  available_indices = [];
  in_use = 1 ∷ [];
  inflight_metric = none;
}

new_item-Ready_example :
    let lease : BufferHandle = record { attached = true; index = 0 } in
    let valid_bytes : ℕ = 5 in
    let (made, pool') = new_item one_buffer 3 24 valid_bytes lease in
    ((0 < valid_bytes)
      × (valid_bytes ≤ 8)
      × ((item : BlockWorkItem) × (made ≡ returns item)
          × (pool' ≡ one_buffer)
          × (item.block_index ≡ 3)
          × (item.file_offset ≡ 24)
          × (valid_data item one_buffer ≡ some (some 4096, valid_bytes))
          × (valid_data (move_construct item).0 one_buffer ≡ some (some 4096, valid_bytes))
          × (valid_data (move_construct item).1 one_buffer ≡ some (none, 0))))
    ⊎ (((valid_bytes ≡ 0) ⊎ (8 < valid_bytes))
        × (made ≡ throws invalid_argument)
        × (pool' ≡ (Handles.release lease one_buffer).1))
new_item-Ready_example =
    new_item-Ready one_buffer 3 24 5 0 (record { address = some 4096; size = 8; alignment = 8 })
      refl
