-- ===== src/Buffer/Handles/Gauge.antt =====
-- The gauge of a pool, whatever is done with the handles of src/buffer/buffer_handle.cpp.
use io_uring_async_load_proc.Prelude.{
  ℕ, ◌≡◌, refl, ◌∙◌, Bool, true, false, Option, none, some, [], arith, ◌≤◌, length,
}
use io_uring_async_load_proc.Exception.{ok}
use io_uring_async_load_proc.Metrics.Gauge.{Gauge, value_max, Observed}
use io_uring_async_load_proc.Buffer.Pool
use io_uring_async_load_proc.Buffer.Pool.{
  AlignedBufferPool, new_observed_pool, lend, take_available,
}
use io_uring_async_load_proc.Buffer.Handles.{
  World, Action, acquires, moves, destroys, assigns, acquire_new, move_new, release_at, take_over,
  move_assign, release, act,
}
use io_uring_async_load_proc.Config.{PipelineConfig}
use io_uring_async_load_proc.Buffer.Aligned.{Allocation}
use io_uring_async_load_proc.Buffer.Handles.Counting.{total, leased}
use io_uring_async_load_proc.Buffer.Handles.Access.{
  Reach, here, next, Reach-Leases, fresh-Leases, observed_pool-IsFresh,
}

abbrev has_gauge : World → Bool
has_gauge w = elim w.pool.inflight_metric [ none ↦ false | some g ↦ true ]

acquire_new-has_gauge : (w : World) → has_gauge (acquire_new w).1 ≡ has_gauge w
unfolding acquire_new Pool.acquire take_available lend
acquire_new-has_gauge w = ground arith

move_new-has_gauge : (w : World) (i : ℕ) → has_gauge (move_new w i).1 ≡ has_gauge w
unfolding move_new
move_new-has_gauge w i = ground arith

release_at-has_gauge : (w : World) (i : ℕ) → has_gauge (release_at w i).1 ≡ has_gauge w
unfolding release_at release Pool.release
release_at-has_gauge w i = ground arith

take_over-has_gauge : (w : World) (i j : ℕ) → has_gauge (take_over w i j).1 ≡ has_gauge w
unfolding take_over
take_over-has_gauge w i j = ground arith

move_assign-has_gauge : (w : World) (i j : ℕ) → has_gauge (move_assign w i j).1 ≡ has_gauge w
unfolding move_assign
move_assign-has_gauge w i j =
    let released = release_at-has_gauge w i in
    let taken = take_over-has_gauge (release_at w i).1 i j in ground arith

act-has_gauge : (w : World) (a : Action) → has_gauge (act w a).1 ≡ has_gauge w
unfolding act
act-has_gauge w acquires = acquire_new-has_gauge w
act-has_gauge w (moves i) = move_new-has_gauge w i
act-has_gauge w (destroys i) = release_at-has_gauge w i
act-has_gauge w (assigns i j) = move_assign-has_gauge w i j

Reach-has_gauge : {w u : World} → Reach w u → has_gauge u ≡ has_gauge w
Reach-has_gauge here = refl
Reach-has_gauge (next {u} a r h) = act-has_gauge u a ∙ Reach-has_gauge r

-- What the gauge of a world reads.
pub record GaugeReads (w : World) : Type 0 where
  pub gauge : Gauge
  pub present : w.pool.inflight_metric ≡ some gauge
  pub now : gauge.current ≡ total leased w.handles
  pub most : gauge.high_watermark ≤ length w.pool.buffers

gauge-GaugeReads :
    (w : World) (metric : Option Gauge)
    → w.pool.inflight_metric ≡ metric
    → has_gauge w ≡ true
    → Observed metric (total leased w.handles) (length w.pool.buffers)
    → GaugeReads w
gauge-GaugeReads w none e has o = absurd (ground arith)
gauge-GaugeReads w (some g) e has o = record { gauge = g; present = e; now = o.0.now; most = o.1 }

-- In every state that a fresh observed pool reaches, the pool has its gauge, which reads the number
-- of handles that hold a buffer, and has never read more than the number of buffers.
pub Reach-GaugeReads :
    (memory : ℕ → Allocation) (c : PipelineConfig) (g : Gauge) {p : AlignedBufferPool} {w : World}
    → new_observed_pool memory c g ≡ ok p
    → c.max_inflight_buffers ≤ value_max
    → Reach (record { pool = p; handles = [] }) w
    → GaugeReads w
Reach-GaugeReads memory c g {p} {w} e small r =
    let (f, metric, now, high) = observed_pool-IsFresh memory c g e in
    let leases = Reach-Leases (fresh-Leases c f small (rw metric (omega (arith, now, high)))) r in
    gauge-GaugeReads w w.pool.inflight_metric refl (Reach-has_gauge r ∙ rw metric refl)
      leases.observed
