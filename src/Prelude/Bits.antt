-- ===== src/Prelude/Bits.antt =====
-- `value & (value - 1)` at variables: what the bit trick of `is_power_of_two` computes.
use Prim.Native.Nat.{
  ℕ, zero, suc, ◌+◌, ◌-◌, ◌*◌, ◌/◌, ◌%◌, ◌^◌, ◌≤◌, ◌<◌, min, bit_and, digits, bit_and-bitwise,
}
use mathlib.Core.Path.{◌≡◌, refl, ap, ◌∙◌}
use mathlib.Core.Logic.{◌≢◌, ◌↔◌, ◌⊎◌, inl, inr}
use native.Mathlib.Nat.{pow-suc, one-le-pow}
use native.Mathlib.Omega.{arith}

-- The recursion that the native operations stand for has the number of rounds left.
module _ (z : ℕ → ℕ) (f : ℕ → ℕ → ℕ) where
  -- One round more than the first number needs changes nothing.
  digits_spare : (rounds x y : ℕ) → x ≤ rounds → digits z f (suc rounds) x y ≡ digits z f rounds x y
  digits_spare zero zero y enough = refl
  digits_spare (suc rounds) zero y enough = refl
  digits_spare zero (suc x) y enough = absurd (omega arith)
  digits_spare (suc rounds) (suc x) y enough =
      omega (arith, digits_spare rounds (suc x / 2) (y / 2) (omega arith))

  digits_surplus : (spare x y : ℕ) → digits z f (spare + x) x y ≡ digits z f x x y
  digits_surplus zero x y = ap (λ rounds. digits z f rounds x y) (omega arith)
  digits_surplus (suc spare) x y =
      let one_more : suc spare + x ≡ suc (spare + x) = omega arith in
      ap (λ rounds. digits z f rounds x y) one_more
      ∙ digits_spare (spare + x) x y (omega arith)
      ∙ digits_surplus spare x y

  pub digits_enough : (rounds x y : ℕ) → x ≤ rounds → digits z f rounds x y ≡ digits z f x x y
  digits_enough rounds x y enough =
      let split : rounds ≡ rounds - x + x = omega arith in
      ap (λ n. digits z f n x y) split ∙ digits_surplus (rounds - x) x y

-- The lowest digit and the rest.
bit_and_step : (x y : ℕ) → bit_and x y ≡ bit_and (x / 2) (y / 2) * 2 + min (x % 2) (y % 2)
bit_and_step zero y =
    let nothing : (y : ℕ) → bit_and 0 y ≡ 0 = λ y. bit_and-bitwise 0 y in
    omega (arith, nothing y, nothing (y / 2))
bit_and_step (suc x) y =
    let whole = bit_and-bitwise (suc x) y in
    let halves = bit_and-bitwise (suc x / 2) (y / 2) in
    omega (arith, whole, halves, digits_enough (λ _. 0) min x (suc x / 2) (y / 2) (omega arith))

bit_and_self_to : (limit x : ℕ) → x ≤ limit → bit_and x x ≡ x
bit_and_self_to limit zero small = bit_and-bitwise 0 0
bit_and_self_to zero (suc x) small = absurd (omega arith)
bit_and_self_to (suc limit) (suc x) small =
    let rest = bit_and_self_to limit (suc x / 2) (omega arith) in
    omega (arith, bit_and_step (suc x) (suc x), rest)

bit_and_self : (x : ℕ) → bit_and x x ≡ x
bit_and_self x = bit_and_self_to x x (omega arith)

-- An odd number loses its lowest digit only; an even one passes the question to its half.
and_pred_odd : (v : ℕ) → v % 2 ≡ 1 → bit_and v (v - 1) ≡ v / 2 * 2
and_pred_odd v h =
    omega (arith, bit_and_step v (v - 1), ap (bit_and (v / 2)) (half v h), bit_and_self (v / 2))
  where
    half : (v : ℕ) → v % 2 ≡ 1 → (v - 1) / 2 ≡ v / 2
    half v h = omega arith

and_pred_even : (v : ℕ) → v % 2 ≡ 0 → 0 < v → bit_and v (v - 1) ≡ bit_and (v / 2) (v / 2 - 1) * 2
and_pred_even v h p = omega (arith, bit_and_step v (v - 1), ap (bit_and (v / 2)) (half v h p))
  where
    half : (v : ℕ) → v % 2 ≡ 0 → 0 < v → (v - 1) / 2 ≡ v / 2 - 1
    half v h p = omega arith

abbrev pub PowerOfTwo : ℕ → Type 0
PowerOfTwo v = (k : ℕ) × (v ≡ 2 ^ k)

parity : (v : ℕ) → (v % 2 ≡ 0) ⊎ (v % 2 ≡ 1)
parity v = omega arith

double : (h v k : ℕ) → v ≡ h * 2 → h ≡ 2 ^ k → v ≡ 2 ^ suc k
double h v k e p = omega (arith, pow-suc 2 k)

and_pred_zero : (n v : ℕ) → v ≤ n → 0 < v → bit_and v (v - 1) ≡ 0 → PowerOfTwo v
and_pred_zero zero v b p h = absurd (omega arith)
and_pred_zero (suc n) v b p h = elim (parity v) [
  | inr odd ↦ (0, omega (arith, and_pred_odd v odd))
  | inl even ↦
      let (k, e) =
        and_pred_zero n (v / 2) (omega arith) (omega arith)
          (omega (arith, and_pred_even v even p)) in
      (suc k, double (v / 2) v k (omega arith) e)
]

pow_and_pred : (k v : ℕ) → v ≡ 2 ^ k → bit_and v (v - 1) ≡ 0
pow_and_pred zero v e = omega (arith, and_pred_odd v (omega arith))
pow_and_pred (suc k) v e = omega (
  arith,
  and_pred_even v (omega (arith, pow-suc 2 k)) (omega (arith, one-le-pow (suc k) 2)),
  pow_and_pred k (v / 2) (omega (arith, pow-suc 2 k)),
)

-- The bit trick finds exactly the powers of two.
pub and_pred_iff : (v : ℕ) → ((v ≢ 0) × (bit_and v (v - 1) ≡ 0)) ↔ PowerOfTwo v
and_pred_iff v = (
  λ h. and_pred_zero v v (omega arith) (omega arith) h.1,
  λ (k, e). (omega (arith, one-le-pow k 2), pow_and_pred k v e),
)
