-- ===== src/Buffer/Handles/Leases.antt =====
-- Every buffer is free or lent to exactly one handle, whatever the owners of handles do.
use io_uring_async_load_proc.Prelude.{
  ℕ, ◌+◌, ◌-◌, ◌≤◌, ◌<◌, ◌≡◌, refl, ap, ◌∙◌, true, some, List, [], ◌∷◌, ◌++◌, arith, ltb, ◌==◌,
  if◌then◌else◌, length, get_elem?, get_or, set, length-set, get_or-set, get_elem?-eq-get_or,
}
use io_uring_async_load_proc.Metrics.Gauge
use io_uring_async_load_proc.Metrics.Gauge.{
  Gauge, on_metric, value_max, Observed, Observed-increment, Observed-decrement,
}
use io_uring_async_load_proc.Buffer.Pool.{BufferHandle}
use io_uring_async_load_proc.Buffer.Handles.{World, null_handle}
use io_uring_async_load_proc.Buffer.Handles.Counting.{
  occurs, holds, leased, total, total-snoc, total-set, weight-le-total,
}

pub record Leases (w : World) : Type 0 where
  pub one_flag_each : length w.pool.in_use ≡ length w.pool.buffers
  pub few : length w.pool.buffers ≤ value_max
  pub once :
      (i : ℕ)
      → occurs i w.pool.available_indices + total (holds i) w.handles
        ≡ (if ltb i (length w.pool.buffers) then 1 else 0)
  pub flags :
      (i : ℕ) → i < length w.pool.buffers → get_or w.pool.in_use i 0 ≡ total (holds i) w.handles
  pub count : length w.pool.available_indices + total leased w.handles ≡ length w.pool.buffers
  pub observed : Observed w.pool.inflight_metric (total leased w.handles) (length w.pool.buffers)

-- The world after the index at the back of the free ones was lent.
abbrev pub lent : World → ℕ → List ℕ → World
lent w index rest = record {
  pool = record (w.pool) {
    available_indices = rest;
    in_use = set w.pool.in_use index 1;
    inflight_metric = on_metric Gauge.increment w.pool.inflight_metric;
  };
  handles = w.handles ++ (record { attached = true; index = index } ∷ []);
}

-- The world after handle `k` gave its index back.
abbrev pub given_back : World → ℕ → ℕ → World
given_back w k index = record {
  pool = record (w.pool) {
    available_indices = index ∷ w.pool.available_indices;
    in_use = set w.pool.in_use index 0;
    inflight_metric = on_metric Gauge.decrement w.pool.inflight_metric;
  };
  handles = set w.handles k null_handle;
}

module _ {w : World} (l : Leases w) where
  -- An index that is free has a clear flag.
  pub free_flag :
      (index : ℕ) (rest : List ℕ)
      → w.pool.available_indices ≡ index ∷ rest
      → (index < length w.pool.buffers) × (get_elem? w.pool.in_use index ≡ some 0)
  unfolding occurs
  free_flag index rest e =
      let o : occurs index w.pool.available_indices ≡ 1 + occurs index rest = rw e (ground arith) in
      let inside : index < length w.pool.buffers = ground (arith, l.once index, o) in
      (
        inside,
        get_elem?-eq-get_or w.pool.in_use index 0 (omega (arith, l.one_flag_each))
            ∙ ap some (ground (arith, l.once index, o, l.flags index inside)),
      )

  pub lent-Leases :
      (index : ℕ) (rest : List ℕ)
      → w.pool.available_indices ≡ index ∷ rest
      → Leases (lent w index rest)
  unfolding occurs
  lent-Leases index rest e =
      let h : BufferHandle = record { attached = true; index = index } in
      let (inside, flag) = free_flag index rest e in
      record {
        one_flag_each = length-set w.pool.in_use index 1 ∙ l.one_flag_each;
        few = l.few;
        once = λ i.
            let o : occurs i w.pool.available_indices
                ≡ (if index == i then 1 else 0) + occurs i rest =
              rw e refl in
            ground (arith, l.once i, o, total-snoc (holds i) w.handles h);
        flags = λ i hi. ground (
          arith,
          l.flags i hi,
          l.flags index inside,
          get_or-set w.pool.in_use index i 1 0 (omega (arith, l.one_flag_each)),
          total-snoc (holds i) w.handles h,
          get_elem?-eq-get_or w.pool.in_use index 0 (omega (arith, l.one_flag_each)),
          flag,
        );
        count = omega (arith, l.count, ap length e, total-snoc leased w.handles h);
        observed =
            Observed-increment w.pool.inflight_metric (total leased w.handles) _ _ l.observed
              (omega (arith, l.count, ap length e)) l.few
              (omega (arith, total-snoc leased w.handles h));
      }

  -- The index that a handle holds has its flag set.
  pub held_flag :
      (k : ℕ) (h : BufferHandle)
      → get_elem? w.handles k ≡ some h
      → h.attached ≡ true
      → (h.index < length w.pool.buffers)
        × (total (holds h.index) w.handles ≡ 1)
        × (get_elem? w.pool.in_use h.index ≡ some 1)
  held_flag k h e a =
      let many = weight-le-total (holds h.index) w.handles k h e in
      let one : holds h.index h ≡ 1 = ground arith in
      let inside : h.index < length w.pool.buffers = ground (arith, l.once h.index, many, one) in
      let exactly : total (holds h.index) w.handles ≡ 1 =
        ground (arith, l.once h.index, many, one) in
      (
        inside,
        exactly,
        get_elem?-eq-get_or w.pool.in_use h.index 0 (omega (arith, l.one_flag_each))
            ∙ ap some (l.flags h.index inside ∙ exactly),
      )

  pub given_back-Leases :
      (k : ℕ) (h : BufferHandle)
      → get_elem? w.handles k ≡ some h
      → h.attached ≡ true
      → Leases (given_back w k h.index)
  unfolding occurs
  given_back-Leases k h e a =
      let (inside, exactly, flag) = held_flag k h e a in
      let less : total leased (set w.handles k null_handle) ≡ total leased w.handles - 1 =
        ground (arith, total-set leased w.handles k h null_handle e) in
      let one_less = total-set leased w.handles k h null_handle e in
      record {
        one_flag_each = length-set w.pool.in_use h.index 0 ∙ l.one_flag_each;
        few = l.few;
        once = λ i. ground (arith, l.once i, total-set (holds i) w.handles k h null_handle e);
        flags = λ i hi. ground (
          arith,
          l.flags i hi,
          exactly,
          get_or-set w.pool.in_use h.index i 0 0 (omega (arith, l.one_flag_each)),
          total-set (holds i) w.handles k h null_handle e,
        );
        count = ground (arith, l.count, one_less);
        observed = rw less (
            Observed-decrement w.pool.inflight_metric (total leased w.handles)
              (length w.pool.buffers) l.observed
              (ground (arith, weight-le-total leased w.handles k h e)));
      }

  -- Handles may be rearranged as long as each index is held as often as before.
  pub same_totals-Leases :
      (hs : List BufferHandle)
      → ((i : ℕ) → total (holds i) hs ≡ total (holds i) w.handles)
      → total leased hs ≡ total leased w.handles
      → Leases (record w { handles = hs })
  same_totals-Leases hs same all_same = record {
    one_flag_each = l.one_flag_each;
    few = l.few;
    once = λ i. omega (arith, same i, l.once i);
    flags = λ i hi. omega (arith, same i, l.flags i hi);
    count = omega (arith, all_same, l.count);
    observed = rw all_same l.observed;
  }
