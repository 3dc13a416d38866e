-- ===== src/Metrics/Gauge.antt =====
-- src/metrics/gauge.cpp: a signed value with its lifetime maximum. A `std::int64_t` is its bit
-- pattern, a number below 2 ^ 64; the order on it is the signed one. Every gauge of the program is
-- written under the mutex of its queue or pool, so the compare-exchange loop runs undisturbed.
use io_uring_async_load_proc.Prelude.{
  suc, Option, none, some, ℕ, ◌+◌, ◌-◌, ◌%◌, ◌^◌, ◌≤◌, ◌<◌, ◌≡◌, Bool, arith, ltb, ◌==◌,
  if◌then◌else◌,
}

pub record Gauge : Type 0 where
  pub current : ℕ
  pub high_watermark : ℕ

abbrev pub new_gauge : Gauge
new_gauge = record { current = 0; high_watermark = 0 }

-- std::numeric_limits<Value>::max()
abbrev pub value_max : ℕ
value_max = 2 ^ 63 - 1

-- `a < b` of two `std::int64_t`.
abbrev pub signed_ltb : ℕ → ℕ → Bool
signed_ltb a b = ltb ((a + 2 ^ 63) % 2 ^ 64) ((b + 2 ^ 63) % 2 ^ 64)

unfoldable pub update_high_watermark : Gauge → ℕ → Gauge
update_high_watermark g candidate =
    if signed_ltb g.high_watermark candidate then record g { high_watermark = candidate } else g

unfoldable pub set_value : Gauge → ℕ → Gauge
unfolding update_high_watermark
set_value g new_value = update_high_watermark (record g { current = new_value }) new_value

unfoldable pub increment : Gauge → Gauge
unfolding update_high_watermark
increment g =
    let previous = g.current in
    let g' = record g { current = (previous + 1) % 2 ^ 64 } in
    if previous == value_max
    then update_high_watermark g' previous
    else update_high_watermark g' ((previous + 1) % 2 ^ 64)

unfoldable pub decrement : Gauge → Gauge
decrement g = record g { current = (g.current + 2 ^ 64 - 1) % 2 ^ 64 }

-- A gauge that reads `n` now and has never been above `n` or its earlier maximum.
pub record Reads (g : Gauge) (n : ℕ) : Type 0 where
  pub now : g.current ≡ n
  pub small : n ≤ value_max
  pub high_small : g.high_watermark ≤ value_max
  pub high : n ≤ g.high_watermark

pub increment-Reads : {g : Gauge} {n : ℕ} → Reads g n → n < value_max → Reads (increment g) (n + 1)
unfolding increment
increment-Reads r h = ground arith

pub decrement-Reads : {g : Gauge} {n : ℕ} → Reads g n → 0 < n → Reads (decrement g) (n - 1)
unfolding decrement
decrement-Reads r h = ground arith

pub set-Reads : {g : Gauge} {m : ℕ} (n : ℕ) → Reads g m → n ≤ value_max → Reads (set_value g n) n
unfolding set_value
set-Reads n r h = ground arith

pub high-increment-le :
    {g : Gauge} {n : ℕ} (bound : ℕ)
    → Reads g n
    → n < bound
    → bound ≤ value_max
    → g.high_watermark ≤ bound
    → (increment g).high_watermark ≤ bound
unfolding increment
high-increment-le bound r h b hw = ground arith

-- A null metric is skipped.
abbrev pub on_metric : (Gauge → Gauge) → Option Gauge → Option Gauge
on_metric f none = none
on_metric f (some g) = some (f g)

-- The gauge of a queue or a pool, if there is one, reads the size, and never read more than the
-- limit.
abbrev pub Observed : Option Gauge → ℕ → ℕ → Type 0
Observed none size limit = Unit {0}
Observed (some g) size limit = Reads g size × (g.high_watermark ≤ limit)

pub Observed-increment :
    (g : Option Gauge) (n m limit : ℕ)
    → Observed g n limit
    → n < limit
    → limit ≤ value_max
    → m ≡ suc n
    → Observed (on_metric increment g) m limit
Observed-increment none n m limit o h k e = tt
Observed-increment (some g) n m limit o h k e =
    let e' : m ≡ n + 1 = omega arith in
    rw e' (increment-Reads o.0 (omega arith), high-increment-le limit o.0 h k o.1)

pub Observed-decrement :
    (g : Option Gauge) (n limit : ℕ)
    → Observed g n limit
    → 0 < n
    → Observed (on_metric decrement g) (n - 1) limit
unfolding decrement
Observed-decrement none n limit o h = tt
Observed-decrement (some g) n limit o h = (decrement-Reads o.0 h, o.1)

pub Observed-reset :
    (g : Option Gauge) (n limit : ℕ)
    → Observed g n limit
    → Observed (on_metric (λ g. set_value g 0) g) 0 limit
unfolding set_value
Observed-reset none n limit o = tt
Observed-reset (some g) n limit o = (set-Reads 0 o.0 (omega arith), ground arith)
