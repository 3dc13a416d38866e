-- ===== src/Prelude/BitXor.antt =====
-- Exclusive or at variables: what of its arguments it keeps.
use Prim.Native.Nat.{
  ℕ, zero, suc, ◌+◌, ◌*◌, ◌/◌, ◌%◌, ◌^◌, ◌≤◌, ◌<◌, bit_xor, differ, bit_xor-bitwise,
}
use mathlib.Core.Path.{◌≡◌, refl}
use mathlib.Core.Logic.{◌⊎◌, inl, inr}
use native.Mathlib.Nat.{pow-suc}
use native.Mathlib.Omega.{arith}
use io_uring_async_load_proc.Prelude.Bits.{digits_enough}

-- The lowest digit and the rest.
bit_xor_step : (x y : ℕ) → bit_xor x y ≡ bit_xor (x / 2) (y / 2) * 2 + differ (x % 2) (y % 2)
bit_xor_step zero y =
    let same : (y : ℕ) → bit_xor 0 y ≡ y = λ y. bit_xor-bitwise 0 y in
    let digit : differ 0 (y % 2) ≡ y % 2 = refl in omega (arith, same y, same (y / 2), digit)
bit_xor_step (suc x) y =
    let whole = bit_xor-bitwise (suc x) y in
    let halves = bit_xor-bitwise (suc x / 2) (y / 2) in
    omega (arith, whole, halves, digits_enough (λ b. b) differ x (suc x / 2) (y / 2) (omega arith))

differ_digits :
    (a b : ℕ) → a < 2 → b < 2 → ((differ a b ≡ 0) × (a ≡ b)) ⊎ ((differ a b ≡ 1) × (a + b ≡ 1))
differ_digits zero zero small small' = inl (refl, refl)
differ_digits zero (suc zero) small small' = inr (refl, refl)
differ_digits (suc zero) zero small small' = inr (refl, refl)
differ_digits (suc zero) (suc zero) small small' = inl (refl, refl)
differ_digits (suc (suc a)) b small small' = absurd (omega arith)
differ_digits zero (suc (suc b)) small small' = absurd (omega arith)
differ_digits (suc zero) (suc (suc b)) small small' = absurd (omega arith)

lowest :
    (x y : ℕ)
    → ((differ (x % 2) (y % 2) ≡ 0) × (x % 2 ≡ y % 2))
      ⊎ ((differ (x % 2) (y % 2) ≡ 1) × (x % 2 + y % 2 ≡ 1))
lowest x y = differ_digits (x % 2) (y % 2) (omega arith) (omega arith)

pub bit_xor-lt : (w x y : ℕ) → x < 2 ^ w → y < 2 ^ w → bit_xor x y < 2 ^ w
bit_xor-lt zero zero zero small small' = omega (arith, bit_xor-bitwise 0 0)
bit_xor-lt zero (suc x) y small small' = absurd (omega arith)
bit_xor-lt zero zero (suc y) small small' = absurd (omega arith)
bit_xor-lt (suc w) x y small small' =
    let power = pow-suc 2 w in
    let rest = bit_xor-lt w (x / 2) (y / 2) (omega arith) (omega arith) in
    omega (arith, bit_xor_step x y, lowest x y, rest, power)

cancel_left_to : (limit x y z : ℕ) → x ≤ limit → bit_xor x y ≡ bit_xor x z → y ≡ z
cancel_left_to zero zero y z small same =
    omega (arith, bit_xor-bitwise 0 y, bit_xor-bitwise 0 z, same)
cancel_left_to zero (suc x) y z small same = absurd (omega arith)
cancel_left_to (suc limit) x y z small same =
    let step = bit_xor_step x y in
    let step' = bit_xor_step x z in
    let rest =
      cancel_left_to limit (x / 2) (y / 2) (z / 2) (omega arith)
        (omega (arith, lowest x y, lowest x z)) in
    omega (arith, lowest x y, lowest x z)

cancel_right_to : (limit x y z : ℕ) → x ≤ limit → y ≤ limit → bit_xor x z ≡ bit_xor y z → x ≡ y
cancel_right_to zero x y z small small' same = omega arith
cancel_right_to (suc limit) x y z small small' same =
    let step = bit_xor_step x z in
    let step' = bit_xor_step y z in
    let rest =
      cancel_right_to limit (x / 2) (y / 2) (z / 2) (omega arith) (omega arith)
        (omega (arith, lowest x z, lowest y z)) in
    omega (arith, lowest x z, lowest y z)

pub bit_xor-cancel_left : (x y z : ℕ) → bit_xor x y ≡ bit_xor x z → y ≡ z
bit_xor-cancel_left x y z = cancel_left_to x x y z (omega arith)

pub bit_xor-cancel_right : (x y z : ℕ) → bit_xor x z ≡ bit_xor y z → x ≡ y
bit_xor-cancel_right x y z = cancel_right_to (x + y) x y z (omega arith) (omega arith)
