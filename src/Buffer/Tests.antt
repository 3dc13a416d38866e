-- ===== src/Buffer/Tests.antt =====
-- Runs of the code of src/buffer on concrete inputs, and instances of its theorems.
use io_uring_async_load_proc.Prelude.{ℕ, ◌+◌, ◌≡◌, refl, true, none, some, [], ◌∷◌, arith}
use io_uring_async_load_proc.Exception.{ok, blocks}
use io_uring_async_load_proc.Config.{PipelineConfig, default_config, validate, is_power_of_two}
use io_uring_async_load_proc.Metrics.Gauge.{new_gauge}
use io_uring_async_load_proc.Buffer.Aligned.{
  allocated, AlignedBuffer, Allocation, validate_allocation, new_aligned_buffer,
}
use io_uring_async_load_proc.Buffer.Pool
use io_uring_async_load_proc.Buffer.Pool.{
  AlignedBufferPool, BufferHandle, new_pool, new_observed_pool, make_buffers, push_indices,
}
use io_uring_async_load_proc.Buffer.Handles.{World, acquires, moves, destroys, act}
use io_uring_async_load_proc.Buffer.Handles.Gauge.{GaugeReads, Reach-GaugeReads}
use io_uring_async_load_proc.Buffer.Handles.Access.{
  Reach, here, next, IsExclusive, Reach-IsExclusive,
}

abbrev two_buffers : PipelineConfig
two_buffers = record default_config { max_inflight_buffers = 2 }

abbrev memory : ℕ → Allocation
memory i = allocated (4096 + i)

abbrev small_buffer : ℕ → AlignedBuffer
small_buffer i = record {
  address = some (4096 + i);
  size = two_buffers.block_size;
  alignment = two_buffers.buffer_alignment;
}

abbrev fresh_pool : AlignedBufferPool
fresh_pool = record {
  buffers = small_buffer 0 ∷ small_buffer 1 ∷ [];
  available_indices = 0 ∷ 1 ∷ [];
  in_use = 0 ∷ 0 ∷ [];
  inflight_metric = none;
}

fresh_pool_made : new_pool memory two_buffers ≡ ok fresh_pool
unfolding new_pool make_buffers push_indices validate is_power_of_two new_aligned_buffer
    validate_allocation
fresh_pool_made = refl

abbrev begin : World
begin = record { pool = fresh_pool; handles = [] }

-- A lease is taken and moved on, and the other buffer is lent as well.
abbrev lease_moved : World
lease_moved = (act (act (act begin acquires).1 (moves 0)).1 acquires).1

lease_moved_reached : Reach begin lease_moved
unfolding act Pool.acquire
lease_moved_reached =
    next acquires
      (next (moves 0) (next acquires here tt) (record { attached = true; index = 0 }, refl)) tt

third_waits : (act lease_moved acquires).0 ≡ blocks
unfolding act Pool.acquire
third_waits = refl

Reach-IsExclusive_example : IsExclusive two_buffers lease_moved
Reach-IsExclusive_example =
    Reach-IsExclusive memory two_buffers fresh_pool_made (omega arith) lease_moved_reached

abbrev observed_pool : AlignedBufferPool
observed_pool = record fresh_pool { inflight_metric = some new_gauge }

observed_pool_made : new_observed_pool memory two_buffers new_gauge ≡ ok observed_pool
unfolding new_observed_pool new_pool make_buffers push_indices validate is_power_of_two
    new_aligned_buffer validate_allocation
observed_pool_made = refl

abbrev observed : World
observed = record { pool = observed_pool; handles = [] }

observed_reached : Reach observed (act (act observed acquires).1 (destroys 0)).1
unfolding act Pool.acquire
observed_reached =
    next (destroys 0) (next acquires here tt) (record { attached = true; index = 0 }, refl)

Reach-GaugeReads_example : GaugeReads (act (act observed acquires).1 (destroys 0)).1
Reach-GaugeReads_example =
    Reach-GaugeReads memory two_buffers new_gauge observed_pool_made (omega arith) observed_reached
