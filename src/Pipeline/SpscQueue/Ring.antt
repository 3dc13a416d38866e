-- ===== src/Pipeline/SpscQueue/Ring.antt =====
-- Reading and writing slots that go round at the end of the buffer.
use native.Mathlib.Nat.{mod-add-mod, mod-eq_of_lt, mod-eq-sub-mod, add-zero}
use io_uring_async_load_proc.Prelude.{
  ℕ, zero, suc, ◌+◌, ◌-◌, ◌%◌, ◌≤◌, ◌<◌, ◌≡◌, ◌≢◌, refl, ap, ap₂, ◌∙◌, sym, List, [], ◌∷◌, ◌++◌,
  arith, dec_lt, length, get_or, set, get_or-set_self, get_or-set_ne,
}

-- Fewer than `cap` steps apart, two positions differ.
pub add-mod-ne : {cap h k n : ℕ} → h < cap → k < n → n < cap → (h + k) % cap ≢ (h + n) % cap
add-mod-ne {cap} {h} {k} {n} hh hk hn = elim (dec_lt (h + n) cap) [
  | yes p ↦ omega (arith, mod-eq_of_lt p, mod-eq_of_lt {n = h + k} {m = cap} (omega arith))
  | no p ↦
      let e : (h + n) % cap ≡ h + n - cap =
        mod-eq-sub-mod {n = h + n} {m = cap} (omega arith)
        ∙ mod-eq_of_lt {n = h + n - cap} {m = cap} (omega arith) in
      elim (dec_lt (h + k) cap) [
        | yes q ↦ omega (arith, e, mod-eq_of_lt q)
        | no q ↦ omega (
          arith,
          e,
          mod-eq-sub-mod {n = h + k} {m = cap} (omega arith),
          mod-eq_of_lt {n = h + k - cap} {m = cap} (omega arith),
        )
      ]
]

-- The rest of the way round the buffer leads back to the start.
pub round_trip : (h s t n : ℕ) → h < n → s ≤ n → t ≡ (h + s) % n → h ≡ (t + (n - s)) % n
round_trip h s t n hh hs e =
    rw (e, mod-add-mod)
      (sym (
        ap (λ k. k % n) (omega arith)
        ∙ mod-eq-sub-mod {n = h + n} {m = n} (omega arith)
        ∙ ap (λ k. k % n) (omega arith)
        ∙ mod-eq_of_lt hh))

module _ {ℓ} {A : Type ℓ} (d : A) (cap : ℕ) where
  -- The `n` entries from `h` on.
  abbrev pub window : List A → ℕ → ℕ → List A
  window buf h zero = []
  window buf h (suc n) = get_or buf h d ∷ window buf ((h + 1) % cap) n

  shift : (h n : ℕ) → ((h + 1) % cap + n) % cap ≡ (h + suc n) % cap
  shift h n = rw mod-add-mod (ap (λ k. k % cap) (omega arith))

  pub window-snoc :
      (buf : List A) (n h : ℕ)
      → h < cap
      → window buf h (suc n) ≡ window buf h n ++ (get_or buf ((h + n) % cap) d ∷ [])
  window-snoc buf zero h hh = rw (add-zero, mod-eq_of_lt hh)
  window-snoc buf (suc n) h hh =
      ap (λ t. get_or buf h d ∷ t)
        (window-snoc buf n ((h + 1) % cap) (omega arith)
          ∙ ap (λ i. window buf ((h + 1) % cap) n ++ (get_or buf i d ∷ [])) (shift h n))

  window-set_ne :
      (buf : List A) (x : A) (i n h : ℕ)
      → h < cap
      → ((k : ℕ) → k < n → (h + k) % cap ≢ i)
      → window (set buf i x) h n ≡ window buf h n
  window-set_ne buf x i zero h hh ne = refl
  window-set_ne buf x i (suc n) h hh ne =
      ap₂ ◌∷◌
        (get_or-set_ne buf x d (λ e. ne 0 (omega arith) (rw (add-zero, mod-eq_of_lt hh) (sym e))))
        (window-set_ne buf x i n ((h + 1) % cap) (omega arith)
          (λ k hk e. ne (suc k) (omega arith) (sym (shift h k) ∙ e)))

  -- Writing just past a window extends it.
  pub window-set_last :
      (buf : List A) (x : A) (n h i : ℕ)
      → cap ≤ length buf
      → h < cap
      → n < cap
      → i ≡ (h + n) % cap
      → window (set buf i x) h (suc n) ≡ window buf h n ++ (x ∷ [])
  window-set_last buf x n h i hb hh hn e =
      window-snoc (set buf i x) n h hh
      ∙ ap₂ (λ xs y. xs ++ (y ∷ []))
          (window-set_ne buf x i n h hh (λ k hk q. add-mod-ne hh hk hn (q ∙ e)))
          (rw (← e) (get_or-set_self buf i x d (omega arith)))

  -- Writing just before a window leaves it.
  pub window-set_before :
      (buf : List A) (x : A) (n i : ℕ)
      → i < cap
      → n < cap
      → window (set buf i x) ((i + 1) % cap) n ≡ window buf ((i + 1) % cap) n
  window-set_before buf x n i hi hn =
      window-set_ne buf x i n ((i + 1) % cap) (omega arith) (λ k hk e.
        add-mod-ne {k = 0} {n = suc k} hi (omega arith) (omega arith)
          (rw (add-zero, mod-eq_of_lt hi) (sym (sym (shift i k) ∙ e))))
