-- ===== src/Pipeline/WorkItem.antt =====
-- src/pipeline/block_work_item.cpp: a lease on a buffer with the place of its block in the file.
pub mod Lease
use io_uring_async_load_proc.Prelude.{
  ℕ, ◌==◌, Bool, not, Option, none, some, if◌then◌else◌, ltb, leb,
}
use io_uring_async_load_proc.Exception.{
  Result, ok, throw, throw_if, ◌>>=◌, ◌>>◌, Outcome, blocks, returns, throws, faults,
  invalid_argument,
}
use io_uring_async_load_proc.Buffer.Pool.{AlignedBufferPool, BufferHandle}
use io_uring_async_load_proc.Buffer.Handles

pub record BlockWorkItem : Type 0 where
  pub block_index : ℕ
  pub file_offset : ℕ
  pub valid_bytes : ℕ
  pub buffer : BufferHandle

abbrev pub empty_item : BlockWorkItem
empty_item = record {
  block_index = 0;
  file_offset = 0;
  valid_bytes = 0;
  buffer = Handles.null_handle;
}

-- The checks in the constructor's body, on a buffer of `size` bytes.
unfoldable pub check_item : BufferHandle → ℕ → ℕ → Result (Unit {0})
check_item buffer size valid_bytes = do
  throw_if (not buffer.attached) invalid_argument
  throw_if (valid_bytes == 0) invalid_argument
  throw_if (ltb size valid_bytes) invalid_argument

-- The constructor takes the handle over; when it throws, the handle that it holds is destroyed and
-- gives the buffer back.
unfoldable pub new_item :
    AlignedBufferPool → ℕ → ℕ → ℕ → BufferHandle → Outcome BlockWorkItem × AlignedBufferPool
unfolding check_item
new_item pool block_index file_offset valid_bytes buffer = elim (Handles.size buffer pool) [
  | none ↦ (faults, pool)
  | some size ↦ elim (check_item buffer size valid_bytes) [
    | ok _ ↦ (
      returns (record {
        block_index = block_index;
        file_offset = file_offset;
        valid_bytes = valid_bytes;
        buffer = buffer;
      }),
      pool,
    )
    | throw e ↦ (throws e, (Handles.release buffer pool).1)
  ]
]

-- The move constructor: the new item and what is left of the other one.
unfoldable pub move_construct : BlockWorkItem → BlockWorkItem × BlockWorkItem
move_construct other =
    let (fresh, rest) = Handles.move_construct other.buffer in
    (
      record {
        block_index = other.block_index;
        file_offset = other.file_offset;
        valid_bytes = other.valid_bytes;
        buffer = fresh;
      },
      record { block_index = 0; file_offset = 0; valid_bytes = 0; buffer = rest },
    )

-- Move assignment between two items that are not the same: the item assigned to gives its buffer
-- back first. An item assigned to itself stays as it is.
unfoldable pub move_assign :
    BlockWorkItem
    → BlockWorkItem
    → AlignedBufferPool
    → Outcome (BlockWorkItem × BlockWorkItem) × AlignedBufferPool
unfolding move_construct
move_assign this other pool =
    let (released, pool') = Handles.release this.buffer pool in
    (
      elim released [
        | returns _ ↦ returns (move_construct other)
        | blocks ↦ blocks
        | throws e ↦ throws e
        | faults ↦ faults
      ],
      pool',
    )

unfoldable pub valid : BlockWorkItem → Bool
valid item = item.buffer.attached

unfoldable pub capacity : BlockWorkItem → AlignedBufferPool → Option ℕ
capacity item pool = Handles.size item.buffer pool

-- The address and the length of the bytes that the reader produced. `first(n)` must not be asked
-- for more bytes than the buffer has: `none`, as for a handle that is out of range.
unfoldable pub valid_data : BlockWorkItem → AlignedBufferPool → Option (Option ℕ × ℕ)
valid_data item pool = elim (Handles.size item.buffer pool) [
  | none ↦ none
  | some size ↦ elim (Handles.data_of item.buffer pool) [
    | none ↦ none
    | some address ↦ if leb item.valid_bytes size then some (address, item.valid_bytes) else none
  ]
]
