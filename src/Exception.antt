-- ===== src/Exception.antt =====
-- The exceptions that the code throws, by class, and results that may carry one. A message is text
-- for a reader and is not kept; a `std::system_error` keeps its error number.
use io_uring_async_load_proc.Prelude.{ℕ, ◌≡◌, ◌⊎◌, inl, inr, refl, Bool, true, false}

pub data Exception : Type 0 where
  invalid_argument length_error overflow_error logic_error runtime_error bad_alloc : Exception
  system_error : ℕ → Exception

-- What a call that may throw gives.
pub data Result {ℓ} (A : Type ℓ) : Type ℓ where
  ok : A → Result A
  throw : Exception → Result A

-- What a critical section does: it waits because its predicate is false, returns, throws, or breaks
-- an assertion or a rule of the language.
pub data Outcome {ℓ} (A : Type ℓ) : Type ℓ where
  blocks : Outcome A
  returns : A → Outcome A
  throws : Exception → Outcome A
  faults : Outcome A

infixl 5 ◌>>=◌
abbrev pub ◌>>=◌ {ℓ κ} : {S : Type ℓ} {T : Type κ} → Result S → (S → Result T) → Result T
throw e >>= next = throw e
ok value >>= next = next value

infixl 5 ◌>>◌
abbrev pub ◌>>◌ {ℓ} : {T : Type ℓ} → Result (Unit {0}) → Result T → Result T
first >> second = first >>= λ done. second

-- `if (condition) throw e;`
abbrev pub throw_if : Bool → Exception → Result (Unit {0})
throw_if true e = throw e
throw_if false e = ok tt

-- A bind that succeeded, taken apart.
pub >>=-eq-ok {ℓ κ} :
    {S : Type ℓ} {T : Type κ} (first : Result S) (next : S → Result T) {result : T}
    → (first >>= next) ≡ ok result
    → (value : S) × (first ≡ ok value) × (next value ≡ ok result)
>>=-eq-ok (throw e) next succeeded = cc
>>=-eq-ok (ok value) next succeeded = (value, refl, succeeded)

pub Result-cases {ℓ} :
    {A : Type ℓ} (m : Result A) → ((a : A) × (m ≡ ok a)) ⊎ ((e : Exception) × (m ≡ throw e))
Result-cases (ok a) = inl (a, refl)
Result-cases (throw e) = inr (e, refl)
