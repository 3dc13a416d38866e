-- ===== src/Pipeline/StagePipeline/MetricName.antt =====
-- The names of the stages' latency metrics in src/pipeline/pipeline.cpp.
use io_uring_async_load_proc.Prelude.{
  ℕ, zero, suc, ◌+◌, ◌-◌, ◌*◌, ◌/◌, ◌%◌, ◌≡◌, ◌≢◌, ◌<◌, ◌≤◌, refl, sym, ap, ◌∙◌, [], ◌∷◌, ◌++◌, ltb,
  leb, if◌then◌else◌, append_assoc, drop, arith, ◌&&◌, dec_lt,
}
use io_uring_async_load_proc.Metrics.Name.{Name, bytes}
use io_uring_async_load_proc.Pipeline.StagePipeline.{
  decimal_of, to_string, make_stage_latency_metric_name,
}

-- Reads a decimal number up to the first byte that is no digit.
unfoldable pub read_decimal : ℕ → Name → ℕ
read_decimal acc [] = acc
read_decimal acc (c ∷ cs) =
    let rest = read_decimal (acc * 10 + (c - 48)) cs in if leb 48 c && ltb c 58 then rest else acc

read_decimal-dot : (acc : ℕ) (rest : Name) → read_decimal acc (46 ∷ rest) ≡ acc
unfolding read_decimal
read_decimal-dot acc rest = refl

decimal_of-small : (fuel n : ℕ) → n < 10 → decimal_of (suc fuel) n ≡ (48 + n) ∷ []
unfolding decimal_of
decimal_of-small fuel n h = ground arith

decimal_of-large :
    (fuel n : ℕ)
    → 10 ≤ n
    → decimal_of (suc fuel) n ≡ decimal_of fuel (n / 10) ++ ((48 + n % 10) ∷ [])
unfolding decimal_of
decimal_of-large fuel n h = ground arith

read_decimal-digit :
    (acc d : ℕ) (rest : Name)
    → d < 10
    → read_decimal acc ((48 + d) ∷ rest) ≡ read_decimal (acc * 10 + d) rest
unfolding read_decimal
read_decimal-digit acc d rest h =
    let digit : 48 + d - 48 ≡ d = omega arith in
    ground (arith, ap (λ k. read_decimal (acc * 10 + k) rest) digit)

-- A number that is printed is read back, whatever follows it.
read_decimal-decimal_of :
    (fuel n : ℕ) (rest : Name)
    → n < fuel
    → read_decimal 0 (decimal_of fuel n ++ rest) ≡ read_decimal n rest
read_decimal-decimal_of zero n rest h = absurd (omega arith)
read_decimal-decimal_of (suc fuel) n rest h = elim (dec_lt n 10) [
  | yes small ↦
      let plain : 0 * 10 + n ≡ n = omega arith in
      ap (λ t. read_decimal 0 (t ++ rest)) (decimal_of-small fuel n small)
      ∙ read_decimal-digit 0 n rest small
      ∙ ap (λ k. read_decimal k rest) plain
  | no large ↦
      let whole : n / 10 * 10 + n % 10 ≡ n = omega arith in
      ap (λ t. read_decimal 0 (t ++ rest)) (decimal_of-large fuel n (omega arith))
      ∙ ap (read_decimal 0) (append_assoc (decimal_of fuel (n / 10)) ((48 + n % 10) ∷ []) rest)
      ∙ read_decimal-decimal_of fuel (n / 10) ((48 + n % 10) ∷ rest) (omega arith)
      ∙ read_decimal-digit (n / 10) (n % 10) rest (omega arith)
      ∙ ap (λ k. read_decimal k rest) whole
]

-- The index in a metric's name.
abbrev index_in : Name → ℕ
index_in metric_name = read_decimal 0 (drop 6 metric_name)

index_in-metric_name :
    (i : ℕ) (stage_name : Name) → index_in (make_stage_latency_metric_name i stage_name) ≡ i
unfolding make_stage_latency_metric_name to_string
index_in-metric_name i stage_name =
    let after = bytes "." ++ (stage_name ++ bytes ".latency_ns") in
    read_decimal-decimal_of (i + 1) i after (omega arith)
    ∙ read_decimal-dot i (stage_name ++ bytes ".latency_ns")

metric_name-injective :
    (i j : ℕ) (stage_name stage_name' : Name)
    → make_stage_latency_metric_name i stage_name ≡ make_stage_latency_metric_name j stage_name'
    → i ≡ j
metric_name-injective i j stage_name stage_name' same =
    sym (index_in-metric_name i stage_name) ∙ ap index_in same ∙ index_in-metric_name j stage_name'

-- Stages at different places of a pipeline have latency metrics of different names, whatever the
-- names of the stages are.
pub metric_name-distinct :
    (i j : ℕ) (stage_name stage_name' : Name)
    → i ≢ j
    → make_stage_latency_metric_name i stage_name ≢ make_stage_latency_metric_name j stage_name'
metric_name-distinct i j stage_name stage_name' apart same =
    apart (metric_name-injective i j stage_name stage_name' same)
