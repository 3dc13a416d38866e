-- ===== src/Buffer/Pool.antt =====
-- src/buffer/aligned_buffer_pool.cpp: a bounded set of buffers and the indices that are free. The
-- back of `available_indices_` is the head of the list. Each function is one critical section.
use io_uring_async_load_proc.Prelude.{
  true, ℕ, zero, suc, Bool, not, ◌||◌, Option, none, some, List, [], ◌∷◌, ◌+◌, ◌==◌, length,
  get_elem?, set, replicate,
}
use io_uring_async_load_proc.Exception.{
  Result, ok, throw_if, ◌>>=◌, ◌>>◌, invalid_argument, Outcome, blocks, returns, faults,
}
use io_uring_async_load_proc.Config.{PipelineConfig, validate}
use io_uring_async_load_proc.Metrics.Gauge
use io_uring_async_load_proc.Metrics.Gauge.{Gauge, on_metric}
use io_uring_async_load_proc.Buffer.Aligned.{AlignedBuffer, Allocation, new_aligned_buffer}

pub record AlignedBufferPool : Type 0 where
  pub buffers : List AlignedBuffer
  pub available_indices : List ℕ
  pub in_use : List ℕ
  pub inflight_metric : Option Gauge

-- A handle knows its pool, or none, and an index.
pub record BufferHandle : Type 0 where
  pub attached : Bool
  pub index : ℕ

-- The first loop of the constructor: the buffers from `index` on, `count` of them. `memory` tells
-- what each call of `posix_memalign` gives.
unfoldable pub make_buffers :
    (ℕ → Allocation) → PipelineConfig → ℕ → ℕ → Result (List AlignedBuffer)
make_buffers memory c zero index = ok []
make_buffers memory c (suc count) index = do
  b ← new_aligned_buffer c.block_size c.buffer_alignment (memory index)
  bs ← make_buffers memory c count (index + 1)
  ok (b ∷ bs)

-- The second loop, from `index` down to 1.
unfoldable pub push_indices : ℕ → List ℕ → List ℕ
push_indices zero available = available
push_indices (suc index) available = push_indices index (index ∷ available)

unfoldable pub new_pool : (ℕ → Allocation) → PipelineConfig → Result AlignedBufferPool
new_pool memory c = do
  validate c
  buffers ← make_buffers memory c c.max_inflight_buffers 0
  ok (record {
    buffers = buffers;
    available_indices = push_indices c.max_inflight_buffers [];
    in_use = replicate c.max_inflight_buffers 0;
    inflight_metric = none;
  })

unfoldable pub new_observed_pool :
    (ℕ → Allocation) → PipelineConfig → Gauge → Result AlignedBufferPool
new_observed_pool memory c inflight_buffers = do
  p ← new_pool memory c
  throw_if (not (inflight_buffers.current == 0) || not (inflight_buffers.high_watermark == 0))
      invalid_argument
  ok (record p { inflight_metric = some inflight_buffers })

-- The part below the test that an index is available; the flag of the index must be clear.
unfoldable pub lend : AlignedBufferPool → ℕ → List ℕ → Outcome BufferHandle × AlignedBufferPool
lend p index rest = elim (get_elem? p.in_use index) [
  | some zero ↦ (
    returns (record { attached = true; index = index }),
    record p {
      available_indices = rest;
      in_use = set p.in_use index 1;
      inflight_metric = on_metric Gauge.increment p.inflight_metric;
    },
  )
  | _ ↦ (faults, p)
]

unfoldable pub take_available : AlignedBufferPool → Outcome BufferHandle × AlignedBufferPool
unfolding lend
take_available p = elim p.available_indices [ [] ↦ (faults, p) | index ∷ rest ↦ lend p index rest ]

abbrev some_handle : Outcome BufferHandle → Outcome (Option BufferHandle)
some_handle (returns h) = returns (some h)
some_handle blocks = blocks
some_handle (Outcome.throws e) = Outcome.throws e
some_handle faults = faults

unfoldable pub try_acquire : AlignedBufferPool → Outcome (Option BufferHandle) × AlignedBufferPool
unfolding take_available
try_acquire p = elim p.available_indices [
  | [] ↦ (returns none, p)
  | _ ∷ _ ↦ let (o, p') = take_available p in (some_handle o, p')
]

unfoldable pub acquire : AlignedBufferPool → Outcome BufferHandle × AlignedBufferPool
unfolding take_available
acquire p = elim p.available_indices [ [] ↦ (blocks, p) | _ ∷ _ ↦ take_available p ]

-- The flag of the index must be set.
unfoldable pub release : AlignedBufferPool → ℕ → Outcome (Unit {0}) × AlignedBufferPool
release p index = elim (get_elem? p.in_use index) [
  | some (suc zero) ↦ (
    returns tt,
    record p {
      available_indices = index ∷ p.available_indices;
      in_use = set p.in_use index 0;
      inflight_metric = on_metric Gauge.decrement p.inflight_metric;
    },
  )
  | _ ↦ (faults, p)
]

abbrev pub capacity : AlignedBufferPool → ℕ
capacity p = length p.buffers

abbrev pub available : AlignedBufferPool → ℕ
available p = length p.available_indices
