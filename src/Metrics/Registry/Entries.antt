-- ===== src/Metrics/Registry/Entries.antt =====
-- The loops over named entries, and what a new entry at the end changes.
use io_uring_async_load_proc.Prelude.{
  inr, inl, Bool-cases, sym, ℕ, ◌+◌, ◌≡◌, refl, ◌∙◌, ap, true, false, some, List, [], ◌∷◌, ◌++◌,
  map, arith, if◌then◌else◌, length,
}
use io_uring_async_load_proc.Metrics.Name.{eq-of-name_eq, Name, name_eq, name_eq_refl, is_in}
use io_uring_async_load_proc.Metrics.Registry.{Entry, find_from, any_named}

module _ {A : Type 0} where
  abbrev pub names : List (Entry A) → List Name
  names = map λ e. e.name

  pub any_named-is_in : (n : Name) (es : List (Entry A)) → any_named n es ≡ is_in n (names es)
  unfolding any_named is_in
  any_named-is_in n [] = refl
  any_named-is_in n (e ∷ es) = ground (arith, any_named-is_in n es)

  pub names-snoc :
      (es : List (Entry A)) (e : Entry A) → names (es ++ (e ∷ [])) ≡ names es ++ (e.name ∷ [])
  names-snoc [] e = refl
  names-snoc (d ∷ es) e = ap (λ t. d.name ∷ t) (names-snoc es e)

  -- A name that no entry has is found in the new entry only, and others are found as before.
  pub find_from-snoc :
      (n : Name) (es : List (Entry A)) (e : Entry A) (position : ℕ)
      → is_in e.name (names es) ≡ false
      → find_from n (es ++ (e ∷ [])) position
        ≡ (if name_eq e.name n then some (position + length es) else find_from n es position)
  unfolding find_from is_in
  find_from-snoc n [] e position h = ground arith
  find_from-snoc n (d ∷ es) e position h = elim (Bool-cases (name_eq d.name n)) [
    | inl here ↦ elim (Bool-cases (name_eq e.name n)) [
      | inl both ↦ absurd (clash d.name e.name n (ground arith) here both)
      | inr other ↦ rw (here, other)
    ]
    | inr later ↦ ground (arith, find_from-snoc n es e (position + 1))
  ]
    where
      clash : (d e n : Name) → name_eq d e ≡ false → name_eq d n ≡ true → name_eq e n ≡ true → ⊥
      clash d e n h p q =
          let same : d ≡ e = eq-of-name_eq d n p ∙ sym (eq-of-name_eq e n q) in
          cc (name_eq_refl e, same, h)

  pub find_from-snoc_start :
      (n : Name) (es : List (Entry A)) (e : Entry A)
      → is_in e.name (names es) ≡ false
      → find_from n (es ++ (e ∷ [])) 0
        ≡ (if name_eq e.name n then some (length es) else find_from n es 0)
  find_from-snoc_start n es e h =
      let zero_less : 0 + length es ≡ length es = omega arith in
      find_from-snoc n es e 0 h
      ∙ ap (λ k. if name_eq e.name n then some k else find_from n es 0) zero_less
