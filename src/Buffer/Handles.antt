-- ===== src/Buffer/Handles.antt =====
-- src/buffer/buffer_handle.cpp: leases on the buffers of one pool, and what the owners of handles
-- may do with them.
pub mod Counting
pub mod Leases
pub mod Steps
pub mod Access
pub mod Gauge
use io_uring_async_load_proc.Prelude.{
  ℕ, Bool, true, false, Option, none, some, List, [], ◌∷◌, ◌++◌, ◌==◌, if◌then◌else◌, get_elem?,
  set,
}
use io_uring_async_load_proc.Exception.{Outcome, blocks, returns, throws, faults}
use mathlib.Core.Option
use io_uring_async_load_proc.Buffer.Aligned.{AlignedBuffer}
use io_uring_async_load_proc.Buffer.Pool
use io_uring_async_load_proc.Buffer.Pool.{AlignedBufferPool, BufferHandle}

-- The observers of a handle: what its buffer says, and nothing for a null handle. `bytes()` is the
-- address and the size together; `none` for the buffer is a failed assertion of `buffer_at`.
unfoldable pub buffer_of : BufferHandle → AlignedBufferPool → Option AlignedBuffer
buffer_of h p = get_elem? p.buffers h.index

unfoldable pub size : BufferHandle → AlignedBufferPool → Option ℕ
unfolding buffer_of
size h p = if h.attached then Option.map (λ b. b.size) (buffer_of h p) else some 0

unfoldable pub alignment : BufferHandle → AlignedBufferPool → Option ℕ
unfolding buffer_of
alignment h p = if h.attached then Option.map (λ b. b.alignment) (buffer_of h p) else some 0

unfoldable pub data_of : BufferHandle → AlignedBufferPool → Option (Option ℕ)
unfolding buffer_of
data_of h p = if h.attached then Option.map (λ b. b.address) (buffer_of h p) else some none

-- A handle with a null pool pointer.
abbrev pub null_handle : BufferHandle
null_handle = record { attached = false; index = 0 }

-- `release()` clears the handle and gives the index back to the pool, if there was one.
unfoldable pub release : BufferHandle → AlignedBufferPool → Outcome BufferHandle × AlignedBufferPool
release h p =
    if h.attached
    then (let (o, p') = Pool.release p h.index in
        (
          elim o [
            | returns _ ↦ returns null_handle
            | blocks ↦ blocks
            | throws e ↦ throws e
            | faults ↦ faults
          ],
          p',
        ))
    else (returns null_handle, p)

-- The move constructor gives the new handle and what is left of the other one.
unfoldable pub move_construct : BufferHandle → BufferHandle × BufferHandle
move_construct other = (
  record { attached = other.attached; index = other.index },
  record { attached = false; index = 0 },
)

-- The program's handles and the pool that they borrow from. A dead handle stays in its place, null.
pub record World : Type 0 where
  pub pool : AlignedBufferPool
  pub handles : List BufferHandle

pub data Action : Type 0 where
  acquires : Action
  moves destroys : ℕ → Action
  assigns : ℕ → ℕ → Action

-- A lease that the pool gives out goes to a new handle.
unfoldable pub acquire_new : World → Outcome (Unit {0}) × World
acquire_new w =
    let (o, p) = Pool.acquire w.pool in
    elim o [
      | returns h ↦ (returns tt, record { pool = p; handles = w.handles ++ (h ∷ []) })
      | blocks ↦ (blocks, w)
      | throws e ↦ (throws e, w)
      | faults ↦ (faults, w)
    ]

-- A new handle is made by moving from handle `i`.
unfoldable pub move_new : World → ℕ → Outcome (Unit {0}) × World
unfolding move_construct
move_new w i = elim (get_elem? w.handles i) [
  | none ↦ (faults, w)
  | some other ↦
      let (fresh, rest) = move_construct other in
      (returns tt, record w { handles = set w.handles i rest ++ (fresh ∷ []) })
]

-- `release()` on handle `i`, as the destructor and move assignment do.
unfoldable pub release_at : World → ℕ → Outcome (Unit {0}) × World
unfolding release
release_at w i = elim (get_elem? w.handles i) [
  | none ↦ (faults, w)
  | some h ↦
      let (o, p) = release h w.pool in
      elim o [
        | returns h' ↦ (returns tt, record { pool = p; handles = set w.handles i h' })
        | blocks ↦ (blocks, w)
        | throws e ↦ (throws e, w)
        | faults ↦ (faults, w)
      ]
]

-- What move assignment does after the release: handle `i` takes over what handle `j` holds.
unfoldable pub take_over : World → ℕ → ℕ → Outcome (Unit {0}) × World
unfolding move_construct
take_over w i j = elim (get_elem? w.handles j) [
  | none ↦ (faults, w)
  | some other ↦
      let (this, rest) = move_construct other in
      (returns tt, record w { handles = set (set w.handles j rest) i this })
]

-- Move assignment of handle `j` to handle `i`; assigning a handle to itself does nothing.
unfoldable pub move_assign : World → ℕ → ℕ → Outcome (Unit {0}) × World
unfolding release_at take_over
move_assign w i j =
    if i == j
    then (returns tt, w)
    else (let (o, w') = release_at w i in
        elim o [ returns _ ↦ take_over w' i j | other ↦ (other, w') ])

unfoldable pub act : World → Action → Outcome (Unit {0}) × World
unfolding acquire_new move_new release_at move_assign
act w acquires = acquire_new w
act w (moves i) = move_new w i
act w (destroys i) = release_at w i
act w (assigns i j) = move_assign w i j
