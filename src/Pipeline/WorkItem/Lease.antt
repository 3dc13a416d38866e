-- ===== src/Pipeline/WorkItem/Lease.antt =====
-- What a work item promises of its lease.
use io_uring_async_load_proc.Prelude.{
  ℕ, ◌≡◌, refl, true, none, some, ◌<◌, ◌≤◌, ◌⊎◌, arith, dec_lt, dec_le, get_elem?, inl, inr,
}
use io_uring_async_load_proc.Exception.{returns, throws, invalid_argument}
use io_uring_async_load_proc.Buffer.Aligned.{AlignedBuffer}
use io_uring_async_load_proc.Buffer.Pool.{AlignedBufferPool, BufferHandle}
use io_uring_async_load_proc.Buffer.Handles
use io_uring_async_load_proc.Pipeline.WorkItem.{
  BlockWorkItem, new_item, valid_data, move_construct, check_item,
}

-- For a lease on a buffer of the pool, the constructor succeeds exactly for 1 up to `size` valid
-- bytes. The item then shows the first `valid_bytes` bytes of that buffer; moved on, the new item
-- shows them and the old one nothing. Otherwise the constructor throws `std::invalid_argument`, and
-- the pool is as if the lease had been released.
pub new_item-Ready :
    (pool : AlignedBufferPool) (block_index file_offset valid_bytes index : ℕ) (b : AlignedBuffer)
    → get_elem? pool.buffers index ≡ some b
    → let lease : BufferHandle = record { attached = true; index = index } in
      let (made, pool') = new_item pool block_index file_offset valid_bytes lease in
      ((0 < valid_bytes)
        × (valid_bytes ≤ b.size)
        × ((item : BlockWorkItem) × (made ≡ returns item)
            × (pool' ≡ pool)
            × (item.block_index ≡ block_index)
            × (item.file_offset ≡ file_offset)
            × (valid_data item pool ≡ some (b.address, valid_bytes))
            × (valid_data (move_construct item).0 pool ≡ some (b.address, valid_bytes))
            × (valid_data (move_construct item).1 pool ≡ some (none, 0))))
      ⊎ (((valid_bytes ≡ 0) ⊎ (b.size < valid_bytes))
          × (made ≡ throws invalid_argument)
          × (pool' ≡ (Handles.release lease pool).1))
unfolding new_item valid_data move_construct check_item Handles.size Handles.buffer_of
    Handles.data_of Handles.move_construct
new_item-Ready pool block_index file_offset valid_bytes index b found =
    elim (dec_lt 0 valid_bytes) [
      | no empty ↦ inr (inl (omega arith), ground (arith, found), ground (arith, found))
      | yes some_bytes ↦ elim (dec_le valid_bytes b.size) [
        | no large ↦ inr (inr (omega arith), ground (arith, found), ground (arith, found))
        | yes fits ↦ inl (
          some_bytes,
          fits,
          (
            record {
              block_index = block_index;
              file_offset = file_offset;
              valid_bytes = valid_bytes;
              buffer = record { attached = true; index = index };
            },
            ground (arith, found),
            ground (arith, found),
            refl,
            refl,
            ground (arith, found),
            ground (arith, found),
            refl,
          ),
        )
      ]
    ]
