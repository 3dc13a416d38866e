-- ===== src/Util/FileIo/ReadPart.antt =====
-- `read_at` of src/util/file_io.cpp gives a part of what the file has at the offset.
-- A failed call has an error number, and a call gives no bytes only at the end of the file.
use io_uring_async_load_proc.Prelude.{
  ℕ, zero, suc, ◌<◌, ◌≡◌, ◌≢◌, refl, sym, ap, inl, inr, Option, some, List, [], ◌∷◌, length, take,
  ◌==◌, arith, Bool-cases, min, length-take, All,
}
use io_uring_async_load_proc.Util.Errno.{eintr}
use io_uring_async_load_proc.Util.FileIo.{
  FileSystem, Answer, transfers, failed, ReadAtResult, read_at,
}
use io_uring_async_load_proc.Util.FileIo.WriteAll.{effective}

abbrev pub Reads : List Answer → Type 0
Reads = All (λ a. elim a [ failed e ↦ e ≢ 0 | transfers n ↦ n ≢ 0 ])

take-length-take : (n : ℕ) (xs : List ℕ) → take (length (take n xs)) xs ≡ take n xs
take-length-take zero xs = refl
take-length-take (suc n) [] = refl
take-length-take (suc n) (x ∷ xs) = ap (λ t. x ∷ t) (take-length-take n xs)

pub nil_of_length : (xs : List ℕ) → length xs ≡ 0 → xs ≡ []
nil_of_length [] h = refl
nil_of_length (x ∷ xs) h = absurd (omega arith)

-- What a read that was made is like, with what the file has from the offset on.
pub record IsPart (available : List ℕ) (r : ReadAtResult) (bytes : List ℕ) : Type 0 where
  pub counted : r.bytes_read ≡ length bytes
  pub part : bytes ≡ take (length bytes) available
  pub not_at_end : length bytes ≡ 0 → available ≡ []

module _ (fs : FileSystem) (file : fs.File) (byte_count offset : ℕ)
    (some_bytes : 0 < byte_count) where
  abbrev Answered : Option (ReadAtResult × List ℕ × List Answer) → Type 0
  Answered o =
      (r : ReadAtResult) × (bytes : List ℕ) × (rest : List Answer) × (o ≡ some (r, bytes, rest))
      × (r.error_number ≡ 0 → IsPart (fs.load file offset byte_count) r bytes)

  -- `read_at` returns if one call is not interrupted, and without an error it has put a part of the
  -- file into the buffer, which is empty only at the end of the file.
  pub read_at-IsPart :
      (answers : List Answer)
      → Reads answers
      → 0 < effective answers
      → Answered (read_at fs answers file byte_count offset)
  unfolding read_at
  read_at-IsPart [] reads enough = absurd (omega arith)
  read_at-IsPart (transfers n ∷ answers) reads enough =
      let available = fs.load file offset byte_count in
      let m = min n byte_count in
      let bytes = take m available in
      let positive : n ≢ 0 = reads.0 in
      (
        _,
        bytes,
        answers,
        refl,
        λ fine. record {
          counted = refl;
          part = sym (take-length-take m available);
          not_at_end =
              λ none_read. nil_of_length available (omega (arith, length-take m available));
        },
      )
  read_at-IsPart (failed e ∷ answers) reads enough = elim (Bool-cases (e == eintr)) [
    | inl again ↦ rw again (read_at-IsPart answers reads.1 (ground arith))
    | inr other ↦ rw other (_, [], answers, refl, λ fine. absurd (reads.0 fine))
  ]
