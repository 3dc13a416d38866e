-- ===== src/Pipeline/Stages.antt =====
-- src/pipeline/builtin_stages.cpp: the stages that come with the pipeline. A block is the list of
-- its bytes, each below 256; `unsigned int` has 32 bits.
pub mod Increment
pub mod Normalize
pub mod Checksum
use io_uring_async_load_proc.Prelude.{
  ℕ, ◌+◌, ◌-◌, ◌*◌, ◌/◌, ◌%◌, ◌^◌, List, [], ◌∷◌, map, ltb, ◌==◌, if◌then◌else◌, bit_xor,
}

-- `NoOpStage::process`.
unfoldable pub no_op : List ℕ → List ℕ
no_op block = block

unfoldable pub increment_byte : ℕ → ℕ
increment_byte value = (value + 1) % 2 ^ 32 % 256

-- `ByteIncrementStage::process`.
unfoldable pub byte_increment : List ℕ → List ℕ
byte_increment block = map increment_byte block

pub record Extent : Type 0 where
  pub minimum : ℕ
  pub maximum : ℕ

-- The round of the loop that finds the least and the greatest byte.
unfoldable pub widen : Extent → ℕ → Extent
widen e numeric = record {
  minimum = if ltb numeric e.minimum then numeric else e.minimum;
  maximum = if ltb e.maximum numeric then numeric else e.maximum;
}

unfoldable pub widen_all : Extent → List ℕ → Extent
widen_all e [] = e
widen_all e (value ∷ block) = widen_all (widen e value) block

-- A difference of two `unsigned int` values.
abbrev pub sub_u32 : ℕ → ℕ → ℕ
sub_u32 a b = (a + (2 ^ 32 - b)) % 2 ^ 32

unfoldable pub normalize_byte : Extent → ℕ → ℕ
normalize_byte e value = sub_u32 value e.minimum * 255 % 2 ^ 32 / sub_u32 e.maximum e.minimum % 256

-- `NormalizeStage::process`.
unfoldable pub normalize : List ℕ → List ℕ
unfolding widen widen_all normalize_byte
normalize [] = []
normalize (front ∷ rest) =
    let e = widen_all (record { minimum = front; maximum = front }) (front ∷ rest) in
    if e.minimum == e.maximum
    then map (λ _. 0) (front ∷ rest)
    else map (normalize_byte e) (front ∷ rest)

abbrev pub offset_basis : ℕ
offset_basis = 14695981039346656037

abbrev pub prime : ℕ
prime = 1099511628211

-- The round of the loop of `ChecksumStage::process`.
unfoldable pub checksum_byte : ℕ → ℕ → ℕ
checksum_byte checksum value = bit_xor checksum value * prime % 2 ^ 64

unfoldable pub checksum_from : ℕ → List ℕ → ℕ
checksum_from checksum [] = checksum
checksum_from checksum (value ∷ block) = checksum_from (checksum_byte checksum value) block

pub record ChecksumStage : Type 0 where
  pub last_checksum : ℕ

unfoldable pub new_checksum_stage : ChecksumStage
new_checksum_stage = record { last_checksum = offset_basis }

-- `ChecksumStage::process`: the stage and the block afterwards.
unfoldable pub checksum : ChecksumStage → List ℕ → ChecksumStage × List ℕ
unfolding checksum_from
checksum stage block = (record stage { last_checksum = checksum_from offset_basis block }, block)
