-- ===== src/Pipeline/Stages/Checksum.antt =====
-- The checksum of src/pipeline/builtin_stages.cpp against the published FNV-1a hash of 64 bits.
use io_uring_async_load_proc.Prelude.{ℕ, ◌+◌, ◌*◌, ◌%◌, ◌^◌, List, [], ◌∷◌, bit_xor}

-- The published hash: the FNV prime is 2 ^ 40 + 2 ^ 8 + 0xb3, and a product with it is a sum of shifts.
abbrev pub fnv1a_from : ℕ → List ℕ → ℕ
fnv1a_from hash [] = hash
fnv1a_from hash (octet ∷ octets) =
    let h = bit_xor hash octet in
    fnv1a_from
      ((h + h * 2 ^ 1 + h * 2 ^ 4 + h * 2 ^ 5 + h * 2 ^ 7 + h * 2 ^ 8 + h * 2 ^ 40) % 2 ^ 64) octets

abbrev pub fnv1a : List ℕ → ℕ
fnv1a octets = fnv1a_from 0xcbf29ce484222325 octets
