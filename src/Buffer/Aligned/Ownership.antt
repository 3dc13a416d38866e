-- ===== src/Buffer/Aligned/Ownership.antt =====
-- When a buffer can be made, and that each allocation is owned once and freed once.
use io_uring_async_load_proc.Prelude.{
  ℕ, ◌+◌, ◌%◌, ◌<◌, ◌≡◌, ◌↔◌, true, Bool, none, some, List, [], ◌∷◌, arith, ◌==◌, if◌then◌else◌,
}
use io_uring_async_load_proc.Exception.{ok}
use io_uring_async_load_proc.Config.{pointer_size, is_power_of_two, PipelineConfig, validate}
use io_uring_async_load_proc.Config.Validate.{is_power_of_two_iff, validate_iff}
use io_uring_async_load_proc.Buffer.Aligned.{
  AlignedBuffer, validate_allocation, destroy, move_construct, move_assign,
}

validate_allocation-tests :
    (size alignment : ℕ)
    → (validate_allocation size alignment ≡ ok tt) ↔ (
        (0 < size)
        × (is_power_of_two alignment ≡ true)
        × (alignment % pointer_size ≡ 0)
        × (size % alignment ≡ 0))
unfolding validate_allocation
validate_allocation-tests size alignment = (λ h. ground arith, λ p. ground arith)

-- A block of a valid configuration passes the validation of an aligned buffer.
pub validate_allocation_of_config :
    (c : PipelineConfig)
    → validate c ≡ ok tt
    → validate_allocation c.block_size c.buffer_alignment ≡ ok tt
validate_allocation_of_config c h =
    let v = (validate_iff c).0 h in
    (validate_allocation-tests c.block_size c.buffer_alignment).1 (
      v.block_size_pos,
      (is_power_of_two_iff c.buffer_alignment).1 v.alignment_power,
      v.alignment_pointer,
      v.block_aligned,
    )

-- How often an address is owned by a buffer.
abbrev pub owns : AlignedBuffer → ℕ → ℕ
owns b a = elim b.address [ none ↦ 0 | some x ↦ if x == a then 1 else 0 ]

abbrev pub occurs : ℕ → List ℕ → ℕ
occurs a [] = 0
occurs a (x ∷ xs) = (if x == a then 1 else 0) + occurs a xs

-- Moving a buffer into a new one, assigning it over another, or destroying it neither loses an
-- allocation nor frees one that is still owned: for each address, the owners and the times that it
-- was freed add up to the same number.
pub moves-conserve :
    (self : Bool) (this other : AlignedBuffer) (freed : List ℕ) (a : ℕ)
    → (let (fresh, rest) = move_construct other in owns fresh a + owns rest a ≡ owns other a)
      × (let (this', other', freed') = move_assign self this other freed in
          owns this' a + owns other' a + occurs a freed'
          ≡ owns this a + owns other a + occurs a freed)
      × (occurs a (destroy this freed) ≡ owns this a + occurs a freed)
unfolding move_construct move_assign destroy
moves-conserve self this other freed a = (ground arith, ground arith, ground arith)
