-- ===== src/Pipeline/Stages/Normalize.antt =====
-- The min-max normalization of src/pipeline/builtin_stages.cpp against its definition.
use native.Mathlib.Nat
use io_uring_async_load_proc.Prelude.{
  ℕ, ◌-◌, ◌*◌, ◌/◌, ◌%◌, ◌<◌, ◌≤◌, ◌≡◌, refl, sym, ◌∙◌, List, [], ◌∷◌, map, All, ◌⊎◌, inl, inr,
  ◌==◌, if◌then◌else◌, arith, subst, ap₂, ℕ_discrete,
}
use io_uring_async_load_proc.Pipeline.Stages.{
  Extent, widen, widen_all, sub_u32, normalize_byte, normalize,
}
use io_uring_async_load_proc.Pipeline.Stages.Increment.{AreBytes}

abbrev pub Occurs : ℕ → List ℕ → Type 0
Occurs v [] = ⊥
Occurs v (x ∷ xs) = (v ≡ x) ⊎ Occurs v xs

-- The least and the greatest of the bytes.
pub record IsExtent (block : List ℕ) (e : Extent) : Type 0 where
  pub least : Occurs e.minimum block
  pub greatest : Occurs e.maximum block
  pub between : All (λ v. (e.minimum ≤ v) × (v ≤ e.maximum)) block

-- Min-max normalization in ordinary arithmetic.
abbrev pub scale : Extent → ℕ → ℕ
scale e value =
    if e.minimum == e.maximum then 0 else (value - e.minimum) * 255 / (e.maximum - e.minimum)

-- What the loop makes of an extent that it starts from.
record Widened (e : Extent) (block : List ℕ) (e' : Extent) : Type 0 where
  least : (e'.minimum ≡ e.minimum) ⊎ Occurs e'.minimum block
  greatest : (e'.maximum ≡ e.maximum) ⊎ Occurs e'.maximum block
  below : e'.minimum ≤ e.minimum
  above : e.maximum ≤ e'.maximum
  between : All (λ v. (e'.minimum ≤ v) × (v ≤ e'.maximum)) block

minimum-widen :
    (e : Extent) (v : ℕ)
    → (((widen e v).minimum ≡ v) ⊎ ((widen e v).minimum ≡ e.minimum))
      × ((widen e v).minimum ≤ v)
      × ((widen e v).minimum ≤ e.minimum)
unfolding widen
minimum-widen e v = ground arith

maximum-widen :
    (e : Extent) (v : ℕ)
    → (((widen e v).maximum ≡ v) ⊎ ((widen e v).maximum ≡ e.maximum))
      × (v ≤ (widen e v).maximum)
      × (e.maximum ≤ (widen e v).maximum)
unfolding widen
maximum-widen e v = ground arith

source_trans :
    {a b c v : ℕ} (block : List ℕ)
    → (a ≡ b) ⊎ Occurs a block
    → (b ≡ v) ⊎ (b ≡ c)
    → (a ≡ c) ⊎ ((a ≡ v) ⊎ Occurs a block)
source_trans block (inr o) q = inr (inr o)
source_trans block (inl p) (inl q) = inr (inl (p ∙ q))
source_trans block (inl p) (inr q) = inl (p ∙ q)

widen_all-Widened : (e : Extent) (block : List ℕ) → Widened e block (widen_all e block)
unfolding widen_all
widen_all-Widened e [] = record {
  least = inl refl;
  greatest = inl refl;
  below = omega arith;
  above = omega arith;
  between = tt;
}
widen_all-Widened e (v ∷ block) =
    let w = widen_all-Widened (widen e v) block in
    let lo = minimum-widen e v in
    let hi = maximum-widen e v in
    record {
      least = source_trans block w.least lo.0;
      greatest = source_trans block w.greatest hi.0;
      below = omega (arith, w.below, lo.2);
      above = omega (arith, w.above, hi.2);
      between = ((omega (arith, w.below, lo.1), omega (arith, w.above, hi.1)), w.between);
    }

abbrev point : ℕ → Extent
point v = record { minimum = v; maximum = v }

Occurs-of_source :
    {a front : ℕ} (rest : List ℕ) → (a ≡ front) ⊎ Occurs a (front ∷ rest) → Occurs a (front ∷ rest)
Occurs-of_source rest (inl p) = inl p
Occurs-of_source rest (inr o) = o

IsExtent-of_loop :
    (front : ℕ) (rest : List ℕ) → IsExtent (front ∷ rest) (widen_all (point front) (front ∷ rest))
IsExtent-of_loop front rest =
    let w = widen_all-Widened (point front) (front ∷ rest) in
    record {
      least = Occurs-of_source rest w.least;
      greatest = Occurs-of_source rest w.greatest;
      between = w.between;
    }

occurs-All : (P : ℕ → Type 0) {a : ℕ} (block : List ℕ) → All P block → Occurs a block → P a
occurs-All P [] h o = absurd o
occurs-All P (x ∷ block) h (inl p) = subst P (sym p) h.0
occurs-All P (x ∷ block) h (inr o) = occurs-All P block h.1 o

div_mono : {a b k : ℕ} → 0 < k → a ≤ b → a / k ≤ b / k
div_mono {a} {b} {k} h le =
    let quotient = Nat.div-mul-le_self a k in (Nat.le-div_iff_mul-le h).1 (omega (arith, quotient))

scaled-le :
    (e : Extent) (v : ℕ)
    → e.minimum < e.maximum
    → v ≤ e.maximum
    → (v - e.minimum) * 255 / (e.maximum - e.minimum) ≤ 255
scaled-le e v lt h = Nat.div-le_of_le-mul (e.maximum - e.minimum) (omega arith)

normalize_byte-eq-scale :
    (e : Extent) (v : ℕ)
    → e.minimum < e.maximum
    → e.maximum < 256
    → e.minimum ≤ v
    → v ≤ e.maximum
    → normalize_byte e v ≡ (v - e.minimum) * 255 / (e.maximum - e.minimum)
unfolding normalize_byte
normalize_byte-eq-scale e v lt byte lo hi =
    let above : sub_u32 v e.minimum * 255 % 4294967296 ≡ (v - e.minimum) * 255 = omega arith in
    let range : sub_u32 e.maximum e.minimum ≡ e.maximum - e.minimum = omega arith in
    let fits : (v - e.minimum) * 255 / (e.maximum - e.minimum) < 256 =
      omega (arith, scaled-le e v lt hi) in
    rw (above, range) (Nat.mod-eq_of_lt fits)

map-scale :
    (e : Extent) (block : List ℕ)
    → e.minimum < e.maximum
    → e.maximum < 256
    → All (λ v. (e.minimum ≤ v) × (v ≤ e.maximum)) block
    → map (normalize_byte e) block ≡ map (scale e) block
map-scale e [] lt byte h = refl
map-scale e (v ∷ block) lt byte h =
    let head = normalize_byte-eq-scale e v lt byte h.0.0 h.0.1 in
    let here : normalize_byte e v ≡ scale e v = ground (arith, head) in
    ap₂ ◌∷◌ here (map-scale e block lt byte h.1)

map-scale_constant :
    (e : Extent) (block : List ℕ) → e.minimum ≡ e.maximum → map (λ v. 0) block ≡ map (scale e) block
map-scale_constant e [] same = refl
map-scale_constant e (v ∷ block) same =
    let here : 0 ≡ scale e v = ground arith in ap₂ ◌∷◌ here (map-scale_constant e block same)

floor-scale : (e : Extent) → scale e e.minimum ≡ 0
floor-scale e =
    let none_left : (e.minimum - e.minimum) * 255 ≡ 0 = omega arith in
    let zero_scaled : (e.minimum - e.minimum) * 255 / (e.maximum - e.minimum) ≡ 0 =
      rw none_left (Nat.zero-div (e.maximum - e.minimum)) in
    ground (arith, zero_scaled)

ceiling-scale : (e : Extent) → e.minimum < e.maximum → scale e e.maximum ≡ 255
ceiling-scale e lt =
    let full : (e.maximum - e.minimum) * 255 / (e.maximum - e.minimum) ≡ 255 =
      Nat.mul-div_cancel_left 255 {n = e.maximum - e.minimum} (omega arith) in
    ground (arith, full)

monotone-scale :
    (e : Extent) (v w : ℕ)
    → e.minimum ≤ e.maximum
    → v ≤ w
    → w ≤ e.maximum
    → (scale e v ≤ scale e w) × (scale e w ≤ 255)
monotone-scale e v w ordered le below = elim (ℕ_discrete e.minimum e.maximum) [
  | yes same ↦ ground arith
  | no differ ↦
      let lt : e.minimum < e.maximum = omega arith in
      let quotients : (v - e.minimum) * 255 / (e.maximum - e.minimum)
          ≤ (w - e.minimum) * 255 / (e.maximum - e.minimum) =
        div_mono (omega arith) (omega arith) in
      ground (arith, quotients, scaled-le e w lt below)
]

-- A min-max normalization of a block.
pub record Normalized (block out : List ℕ) : Type 0 where
  pub extent : Extent
  pub spans : IsExtent block extent
  pub scaled : out ≡ map (scale extent) block
  pub floor : scale extent extent.minimum ≡ 0
  pub ceiling : extent.minimum < extent.maximum → scale extent extent.maximum ≡ 255
  pub monotone :
      (v w : ℕ)
      → v ≤ w
      → w ≤ extent.maximum
      → (scale extent v ≤ scale extent w) × (scale extent w ≤ 255)

-- `normalize` replaces every byte `v` of a nonempty block by `(v - lo) * 255 / (hi - lo)`, where
-- `lo` and `hi` are the least and the greatest byte of the block, and by 0 where they are equal: the
-- 32-bit arithmetic of the code never wraps. The least byte becomes 0, the greatest 255 if it is
-- not the least, and the order of the bytes is kept.
pub normalize-Normalized :
    (front : ℕ) (rest : List ℕ)
    → AreBytes (front ∷ rest)
    → Normalized (front ∷ rest) (normalize (front ∷ rest))
unfolding normalize
normalize-Normalized front rest bytes =
    let e = widen_all (point front) (front ∷ rest) in
    let spans = IsExtent-of_loop front rest in
    let ordered =
      occurs-All (λ v. (e.minimum ≤ v) × (v ≤ e.maximum)) (front ∷ rest) spans.between
        spans.least in
    let byte = occurs-All (λ v. v < 256) (front ∷ rest) bytes spans.greatest in
    record {
      extent = e;
      spans = spans;
      scaled = elim (ℕ_discrete e.minimum e.maximum) [
        | yes same ↦ ground (arith, map-scale_constant e (front ∷ rest) same)
        | no differ ↦
            ground (arith, map-scale e (front ∷ rest) (omega (arith, ordered)) byte spans.between)
      ];
      floor = floor-scale e;
      ceiling = λ lt. ceiling-scale e lt;
      monotone = λ v w le below. monotone-scale e v w ordered.1 le below;
    }
