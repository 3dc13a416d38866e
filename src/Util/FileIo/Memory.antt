-- ===== src/Util/FileIo/Memory.antt =====
-- A file system in memory, for runs of src/util/file_io.cpp on concrete inputs.
use io_uring_async_load_proc.Prelude.{
  ℕ, zero, suc, ◌+◌, ◌≡◌, refl, ap, ◌∙◌, List, [], ◌∷◌, ◌++◌, ◌==◌, if◌then◌else◌, length, arith,
  take, drop,
}
use io_uring_async_load_proc.Util.FileIo.{FileSystem}

-- A file as the bytes that were written, the latest first.
abbrev pub byte_at : List (ℕ × ℕ) → ℕ → ℕ
byte_at [] i = 0
byte_at (w ∷ ws) i = if w.0 == i then w.1 else byte_at ws i

abbrev pub put : List (ℕ × ℕ) → ℕ → List ℕ → List (ℕ × ℕ)
put f offset [] = f
put f offset (x ∷ xs) = put ((offset, x) ∷ f) (offset + 1) xs

abbrev pub get : List (ℕ × ℕ) → ℕ → ℕ → List ℕ
get f offset zero = []
get f offset (suc n) = byte_at f offset ∷ get f (offset + 1) n

pub put_behind :
    (f : List (ℕ × ℕ)) (offset : ℕ) (xs ys : List ℕ)
    → put (put f offset xs) (offset + length xs) ys ≡ put f offset (xs ++ ys)
put_behind f offset [] ys =
    let none_more : offset + 0 ≡ offset = omega arith in ap (λ o. put f o ys) none_more
put_behind f offset (x ∷ xs) ys =
    let next : offset + suc (length xs) ≡ offset + 1 + length xs = omega arith in
    ap (λ o. put (put ((offset, x) ∷ f) (offset + 1) xs) o ys) next
    ∙ put_behind ((offset, x) ∷ f) (offset + 1) xs ys

abbrev pub memory : FileSystem
memory = record {
  File = List (ℕ × ℕ);
  store = put;
  load = get;
  store_nothing = λ f offset. refl;
  store_behind = put_behind;
}

-- A file as its bytes, where a write behind the end leaves zeros in between.
abbrev pub set_byte : List ℕ → ℕ → ℕ → List ℕ
set_byte [] zero x = x ∷ []
set_byte [] (suc o) x = 0 ∷ set_byte [] o x
set_byte (y ∷ ys) zero x = x ∷ ys
set_byte (y ∷ ys) (suc o) x = y ∷ set_byte ys o x

abbrev pub set_bytes : List ℕ → ℕ → List ℕ → List ℕ
set_bytes f offset [] = f
set_bytes f offset (x ∷ xs) = set_bytes (set_byte f offset x) (offset + 1) xs

pub set_bytes_behind :
    (f : List ℕ) (offset : ℕ) (xs ys : List ℕ)
    → set_bytes (set_bytes f offset xs) (offset + length xs) ys ≡ set_bytes f offset (xs ++ ys)
set_bytes_behind f offset [] ys =
    let none_more : offset + 0 ≡ offset = omega arith in ap (λ o. set_bytes f o ys) none_more
set_bytes_behind f offset (x ∷ xs) ys =
    let next : offset + suc (length xs) ≡ offset + 1 + length xs = omega arith in
    ap (λ o. set_bytes (set_bytes (set_byte f offset x) (offset + 1) xs) o ys) next
    ∙ set_bytes_behind (set_byte f offset x) (offset + 1) xs ys

abbrev pub linear : FileSystem
linear = record {
  File = List ℕ;
  store = set_bytes;
  load = λ f offset n. take n (drop offset f);
  store_nothing = λ f offset. refl;
  store_behind = set_bytes_behind;
}
