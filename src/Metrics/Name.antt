-- ===== src/Metrics/Name.antt =====
-- Metric and stage names: a `std::string` is the list of its bytes.
use Prim.Native.Char.{code}
use Prim.Native.String.{String}
use io_uring_async_load_proc.Prelude.{
  ℕ, ◌≡◌, refl, Bool, true, false, ◌&&◌, ◌||◌, List, [], ◌∷◌, ◌++◌, arith, ◌==◌, Bool-cases, inl,
  inr,
}

abbrev pub Name : Type 0
Name = List ℕ

-- The bytes of an ASCII literal.
abbrev pub bytes : String → Name
bytes String.[] = []
bytes (String.◌∷◌ c s) = code c ∷ bytes s

unfoldable pub name_eq : Name → Name → Bool
name_eq [] [] = true
name_eq (x ∷ xs) (y ∷ ys) = x == y && name_eq xs ys
name_eq _ _ = false

pub name_eq_refl : (n : Name) → name_eq n n ≡ true
unfolding name_eq
name_eq_refl [] = refl
name_eq_refl (x ∷ xs) = ground (arith, name_eq_refl xs)

pub eq-of-name_eq : (m n : Name) → name_eq m n ≡ true → m ≡ n
unfolding name_eq
eq-of-name_eq [] [] h = refl
eq-of-name_eq [] (y ∷ ys) h = cc
eq-of-name_eq (x ∷ xs) [] h = cc
eq-of-name_eq (x ∷ xs) (y ∷ ys) h = ground (arith, eq-of-name_eq xs ys)

unfoldable pub is_in : Name → List Name → Bool
is_in n [] = false
is_in n (m ∷ ms) = name_eq m n || is_in n ms

pub is_in-append : (n : Name) (xs ys : List Name) → is_in n (xs ++ ys) ≡ (is_in n xs || is_in n ys)
unfolding is_in
is_in-append n [] ys = refl
is_in-append n (x ∷ xs) ys = ground (arith, is_in-append n xs ys)

-- No name stands twice.
abbrev pub Distinct : List Name → Type 0
Distinct [] = Unit
Distinct (n ∷ ns) = (is_in n ns ≡ false) × Distinct ns

name_eq-sym : (m n : Name) → name_eq m n ≡ false → name_eq n m ≡ false
name_eq-sym m n h = elim (Bool-cases (name_eq n m)) [
  | inl e ↦ cc (eq-of-name_eq n m e, name_eq_refl n)
  | inr e ↦ e
]

-- A new name may go in anywhere.
pub Distinct-insert :
    (n : Name) (xs ys : List Name)
    → Distinct (xs ++ ys)
    → is_in n (xs ++ ys) ≡ false
    → Distinct (xs ++ (n ∷ ys))
unfolding is_in
Distinct-insert n [] ys d h = (h, d)
Distinct-insert n (x ∷ xs) ys d h = (
  ground (
    arith,
    d.0,
    is_in-append x xs ys,
    is_in-append x xs (n ∷ ys),
    name_eq-sym x n (ground arith),
  ),
  Distinct-insert n xs ys d.1 (ground arith),
)
