-- ===== src/Buffer/Handles/Access.antt =====
-- What holds in every state that a pool and its handles can reach.
use io_uring_async_load_proc.Prelude.{
  subst, ℕ, zero, suc, ◌+◌, ◌≤◌, ◌<◌, ◌≡◌, refl, ap, true, some, none, List, [], ◌∷◌, arith, length,
  get_elem?, All, replicate, ℕ_discrete, length-replicate, get_or-replicate,
}
use io_uring_async_load_proc.Exception.{ok, >>=-eq-ok}
use io_uring_async_load_proc.Config.{PipelineConfig, validate}
use io_uring_async_load_proc.Metrics.Gauge.{Gauge, value_max, Observed}
use io_uring_async_load_proc.Buffer.Aligned.{AlignedBuffer, Allocation, new_aligned_buffer}
use io_uring_async_load_proc.Buffer.Pool.{
  AlignedBufferPool, BufferHandle, make_buffers, push_indices, new_pool, new_observed_pool,
}
use io_uring_async_load_proc.Buffer.Handles.{World, Action, act}
use io_uring_async_load_proc.Buffer.Handles.Counting.{
  occurs, holds, leased, total, two-le-total, weight-le-total, occurs-push_indices,
  length-push_indices,
}
use io_uring_async_load_proc.Buffer.Handles.Leases.{Leases}
use io_uring_async_load_proc.Buffer.Handles.Steps.{InRange, act-Leases}

-- The buffers of a pool have the size and the alignment of its configuration.
abbrev pub Sized : PipelineConfig → AlignedBuffer → Type 0
Sized c b = (b.size ≡ c.block_size) × (b.alignment ≡ c.buffer_alignment)

new_aligned_buffer-Sized :
    (s a : ℕ) (m : Allocation) {b : AlignedBuffer}
    → new_aligned_buffer s a m ≡ ok b
    → (b.size ≡ s) × (b.alignment ≡ a)
unfolding new_aligned_buffer
new_aligned_buffer-Sized s a m e = ground arith

make_buffers-Sized :
    (memory : ℕ → Allocation) (c : PipelineConfig) (n i : ℕ) {bs : List AlignedBuffer}
    → make_buffers memory c n i ≡ ok bs
    → (length bs ≡ n) × All (Sized c) bs
unfolding make_buffers
make_buffers-Sized memory c zero i {bs} e =
    let same : [] ≡ bs = cc in subst (λ bs. (length bs ≡ 0) × All (Sized c) bs) same (refl, tt)
make_buffers-Sized memory c (suc n) i {bs} e =
    let (b, eb, rest) =
      >>=-eq-ok (new_aligned_buffer c.block_size c.buffer_alignment (memory i)) _ e in
    let (bs', ebs, last) = >>=-eq-ok (make_buffers memory c n (i + 1)) _ rest in
    let (len, all) = make_buffers-Sized memory c n (i + 1) ebs in
    let same : b ∷ bs' ≡ bs = cc last in
    subst (λ bs. (length bs ≡ suc n) × All (Sized c) bs) same
      (ap suc len, (new_aligned_buffer-Sized c.block_size c.buffer_alignment (memory i) eb, all))

-- A pool that the constructor accepts has `max_inflight_buffers` buffers of the configured size and
-- alignment, all of them free.
pub record IsFresh (c : PipelineConfig) (p : AlignedBufferPool) : Type 0 where
  pub accepted : validate c ≡ ok tt
  pub many : length p.buffers ≡ c.max_inflight_buffers
  pub sized : All (Sized c) p.buffers
  pub all_free : p.available_indices ≡ push_indices c.max_inflight_buffers []
  pub no_flags : p.in_use ≡ replicate c.max_inflight_buffers 0

pub new_pool-IsFresh :
    (memory : ℕ → Allocation) (c : PipelineConfig) {p : AlignedBufferPool}
    → new_pool memory c ≡ ok p
    → IsFresh c p × (p.inflight_metric ≡ none)
unfolding new_pool
new_pool-IsFresh memory c {p} e =
    let (u, accepted, rest) = >>=-eq-ok (validate c) _ e in
    let (bs, ebs, last) = >>=-eq-ok (make_buffers memory c c.max_inflight_buffers 0) _ rest in
    let (len, all) = make_buffers-Sized memory c c.max_inflight_buffers 0 ebs in
    let made : AlignedBufferPool = record {
      buffers = bs;
      available_indices = push_indices c.max_inflight_buffers [];
      in_use = replicate c.max_inflight_buffers 0;
      inflight_metric = none;
    } in
    let same : made ≡ p = cc last in
    subst (λ p. IsFresh c p × (p.inflight_metric ≡ none)) same
      (
        record { accepted = accepted; many = len; sized = all; all_free = refl; no_flags = refl },
        refl,
      )

pub fresh-Leases :
    (c : PipelineConfig) {p : AlignedBufferPool}
    → IsFresh c p
    → c.max_inflight_buffers ≤ value_max
    → Observed p.inflight_metric 0 (length p.buffers)
    → Leases (record { pool = p; handles = [] })
unfolding total occurs
fresh-Leases c {p} f small o = record {
  one_flag_each =
      rw f.no_flags (omega (arith, length-replicate c.max_inflight_buffers zero, f.many));
  few = omega (arith, f.many);
  once =
      λ i. rw (f.all_free, f.many) (omega (arith, occurs-push_indices c.max_inflight_buffers i []));
  flags = λ i h. rw f.no_flags (get_or-replicate c.max_inflight_buffers i 0);
  count = rw f.all_free (omega (arith, length-push_indices c.max_inflight_buffers [], f.many));
  observed = o;
}

-- With a gauge, the constructor wants one that starts at zero.
pub observed_pool-IsFresh :
    (memory : ℕ → Allocation) (c : PipelineConfig) (g : Gauge) {p : AlignedBufferPool}
    → new_observed_pool memory c g ≡ ok p
    → IsFresh c p × (p.inflight_metric ≡ some g) × (g.current ≡ 0) × (g.high_watermark ≡ 0)
unfolding new_observed_pool
observed_pool-IsFresh memory c g {p} e =
    let (q, eq, rest) = >>=-eq-ok (new_pool memory c) _ e in
    let (f, _) = new_pool-IsFresh memory c eq in
    let last : (record q { inflight_metric = some g } ≡ p)
        × (g.current ≡ 0)
        × (g.high_watermark ≡ 0) =
      ground arith in
    (
      subst (IsFresh c) last.0 (record {
        accepted = f.accepted;
        many = f.many;
        sized = f.sized;
        all_free = f.all_free;
        no_flags = f.no_flags;
      }),
      ground (arith, last),
      last.1,
      last.2,
    )

-- The states that a pool and its handles reach from `w`, by actions on handles that exist.
pub data Reach (w : World) : World → Type 0 where
  here : Reach w w
  next : {u : World} (a : Action) → Reach w u → InRange u a → Reach w (act u a).1

pub Reach-Leases : {w u : World} → Leases w → Reach w u → Leases u
Reach-Leases l here = l
Reach-Leases l (next {u} a r h) = (act-Leases u a (Reach-Leases l r) h).0

-- Two handles of one buffer are one handle.
exclusive :
    {w : World} (i j : ℕ) (g h : BufferHandle)
    → Leases w
    → get_elem? w.handles i ≡ some g
    → get_elem? w.handles j ≡ some h
    → g.attached ≡ true
    → h.attached ≡ true
    → g.index ≡ h.index
    → i ≡ j
exclusive {w} i j g h l ei ej ag ah same = elim (ℕ_discrete i j) [
  | yes p ↦ p
  | no ne ↦
      absurd
        (ground (arith, l.once g.index, two-le-total (holds g.index) w.handles i j g h ei ej ne))
]

-- How the handles of a world share the buffers of its pool.
pub record IsExclusive (c : PipelineConfig) (w : World) : Type 0 where
  pub no_sharing :
      (i j : ℕ) (g h : BufferHandle)
      → get_elem? w.handles i ≡ some g
      → get_elem? w.handles j ≡ some h
      → g.attached ≡ true
      → h.attached ≡ true
      → g.index ≡ h.index
      → i ≡ j
  pub accounted : length w.pool.available_indices + total leased w.handles ≡ length w.pool.buffers
  pub existing :
      (i : ℕ) (h : BufferHandle)
      → get_elem? w.handles i ≡ some h
      → h.attached ≡ true
      → h.index < length w.pool.buffers

-- Start with a pool that the constructor accepts for a configuration with fewer than 2 ^ 63
-- buffers, and act on handles in any way. Then no two handles hold the same buffer, the free
-- buffers and the handles that hold one add up to the number of buffers, and every handle that
-- holds a buffer holds an existing one.
pub Reach-IsExclusive :
    (memory : ℕ → Allocation) (c : PipelineConfig) {p : AlignedBufferPool} {w : World}
    → new_pool memory c ≡ ok p
    → c.max_inflight_buffers ≤ value_max
    → Reach (record { pool = p; handles = [] }) w
    → IsExclusive c w
Reach-IsExclusive memory c {p} {w} e small r =
    let (f, none_metric) = new_pool-IsFresh memory c e in
    let start = fresh-Leases c f small (rw none_metric tt) in
    let l = Reach-Leases start r in
    record {
      no_sharing = λ i j g h. exclusive i j g h l;
      accounted = l.count;
      existing = λ i h e a.
          ground (arith, l.once h.index, weight-le-total (holds h.index) w.handles i h e);
    }
