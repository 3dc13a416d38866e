-- ===== src/Pipeline/Stages/Increment.antt =====
-- The byte increment of src/pipeline/builtin_stages.cpp, which the end-to-end benchmark checks its
-- output against.
use io_uring_async_load_proc.Prelude.{
  ℕ, zero, suc, ◌+◌, ◌%◌, ◌<◌, ◌≡◌, refl, ap, ◌∙◌, List, [], ◌∷◌, ◌++◌, map, All, arith,
}
use io_uring_async_load_proc.Pipeline.Stages.{byte_increment, increment_byte}

abbrev pub AreBytes : List ℕ → Type 0
AreBytes = All (λ v. v < 256)

abbrev pub repeat_increment : ℕ → List ℕ → List ℕ
repeat_increment zero block = block
repeat_increment (suc k) block = repeat_increment k (byte_increment block)

add_to_all-increment :
    (k : ℕ) (block : List ℕ)
    → map (λ v. (v + k) % 256) (byte_increment block) ≡ map (λ v. (v + suc k) % 256) block
unfolding byte_increment increment_byte
add_to_all-increment k [] = refl
add_to_all-increment k (v ∷ block) =
    let head : ((v + 1) % 4294967296 % 256 + k) % 256 ≡ (v + suc k) % 256 = omega arith in
    cc (head, add_to_all-increment k block)

add_none : (block : List ℕ) → AreBytes block → block ≡ map (λ v. (v + 0) % 256) block
add_none [] h = refl
add_none (v ∷ block) h =
    let head : v ≡ (v + 0) % 256 = omega (arith, h.0) in cc (head, add_none block h.1)

increment-AreBytes : (block : List ℕ) → AreBytes (byte_increment block)
unfolding byte_increment increment_byte
increment-AreBytes [] = tt
increment-AreBytes (v ∷ block) = (omega arith, increment-AreBytes block)

-- A block of bytes that runs through `k` byte-increment stages has every byte raised by `k` modulo
-- 256.
pub repeat_increment-adds :
    (k : ℕ) (block : List ℕ)
    → AreBytes block
    → repeat_increment k block ≡ map (λ v. (v + k) % 256) block
repeat_increment-adds zero block h = add_none block h
repeat_increment-adds (suc k) block h =
    repeat_increment-adds k (byte_increment block) (increment-AreBytes block)
    ∙ add_to_all-increment k block

-- The stage does not depend on where blocks end: a block in two parts is the parts, each processed.
pub byte_increment-append :
    (xs ys : List ℕ) → byte_increment (xs ++ ys) ≡ byte_increment xs ++ byte_increment ys
unfolding byte_increment
byte_increment-append [] ys = refl
byte_increment-append (x ∷ xs) ys = ap (λ t. increment_byte x ∷ t) (byte_increment-append xs ys)
