-- ===== src/Reporting/Json/RoundTrip.antt =====
-- What src/reporting/pipeline_reporter.cpp writes as a JSON string is read back as it was.
use io_uring_async_load_proc.Prelude.{
  ap₂, ◌⊎◌, ℕ, zero, suc, ◌<◌, ◌≡◌, refl, ap, ◌∙◌, inl, inr, Bool, true, false, ◌&&◌, Option, none,
  some, List, [], ◌∷◌, ◌++◌, append_assoc, ◌==◌, if◌then◌else◌, arith, Option-cases, All,
}
use io_uring_async_load_proc.Reporting.Json.{escape_byte, escape_all, write_json_string}
use io_uring_async_load_proc.Reporting.Json.Decode.{
  Mode, plain, escaped, hex, Move, ends, bad, goes, move, put_before, decode, read_json_string,
}

-- The bytes of an escape, fed to the reader in a mode.
feed : Mode → List ℕ → Option (Mode × List ℕ)
feed mode [] = some (mode, [])
feed mode (x ∷ xs) = elim (move mode x) [
  | ends ↦ none
  | bad ↦ none
  | goes mode' out ↦ elim (feed mode' xs) [
    | none ↦ none
    | some (mode'', value) ↦ some (mode'', out ++ value)
  ]
]

is_plain : Mode → Bool
is_plain plain = true
is_plain _ = false

is_single : ℕ → List ℕ → Bool
is_single x (y ∷ []) = y == x
is_single x _ = false

gives : ℕ → Option (Mode × List ℕ) → Bool
unfolding is_plain is_single
gives x none = false
gives x (some (mode, value)) = is_plain mode && is_single x value

-- The bytes below `limit` whose escape is not read back as that byte alone, the greatest first.
misread : ℕ → List ℕ
unfolding gives feed escape_byte
misread zero = []
misread (suc byte) =
    let fewer = misread byte in
    if gives byte (feed plain (escape_byte byte)) then fewer else byte ∷ fewer

none_misread : misread 256 ≡ []
unfolding misread move
none_misread = refl

gives-escape_byte :
    (limit byte : ℕ)
    → misread limit ≡ []
    → byte < limit
    → gives byte (feed plain (escape_byte byte)) ≡ true
unfolding misread
gives-escape_byte zero byte no_misread below = absurd (omega arith)
gives-escape_byte (suc limit) byte no_misread below = ground (arith, gives-escape_byte limit byte)

put_before_twice :
    (xs ys : List ℕ) (o : Option (List ℕ × List ℕ))
    → put_before xs (put_before ys o) ≡ put_before (xs ++ ys) o
put_before_twice xs ys none = refl
put_before_twice xs ys (some (value, rest)) = rw (append_assoc xs ys value)

Move-cases :
    (m : Move) → (m ≡ ends) ⊎ ((m ≡ bad) ⊎ ((mode : Mode) × (out : List ℕ) × (m ≡ goes mode out)))
Move-cases ends = inl refl
Move-cases bad = inr (inl refl)
Move-cases (goes mode out) = inr (inr (mode, out, refl))

decode-feed :
    (mode mode' : Mode) (xs out tail : List ℕ)
    → feed mode xs ≡ some (mode', out)
    → decode mode (xs ++ tail) ≡ put_before out (decode mode' tail)
unfolding feed decode
decode-feed mode mode' [] out tail h =
    let same : mode ≡ mode' = cc in
    let none_out : [] ≡ out = cc in rw (← same, ← none_out) (put_nothing (decode mode tail))
  where
    put_nothing : (o : Option (List ℕ × List ℕ)) → o ≡ put_before [] o
    put_nothing none = refl
    put_nothing (some (value, rest)) = refl
decode-feed mode mode' (x ∷ xs) out tail h = elim (Move-cases (move mode x)) [
  | inl e ↦ absurd (ground arith)
  | inr (inl e) ↦ absurd (ground arith)
  | inr (inr (next, here, e)) ↦ elim (Option-cases (feed next xs)) [
    | inl e' ↦ absurd (ground arith)
    | inr ((last, later), e') ↦
        let first : last ≡ mode' = ground arith in
        let second : here ++ later ≡ out = ground arith in
        let goes_on : decode mode (x ∷ (xs ++ tail)) ≡ put_before here (decode next (xs ++ tail)) =
          ground arith in
        goes_on
        ∙ ap (put_before here) (decode-feed next last xs later tail e')
        ∙ put_before_twice here later (decode last tail)
        ∙ ap₂ (λ m t. put_before t (decode m tail)) first second
  ]
]

plain_single : (x : ℕ) (o : Option (Mode × List ℕ)) → gives x o ≡ true → o ≡ some (plain, x ∷ [])
unfolding gives is_plain is_single
plain_single x none h = cc
plain_single x (some (plain, [])) h = cc
plain_single x (some (plain, y ∷ [])) h = ground arith
plain_single x (some (plain, y ∷ z ∷ ys)) h = cc
plain_single x (some (escaped, ys)) h = cc
plain_single x (some (hex left value, ys)) h = cc

-- An escaped byte is read back.
decode-escape_byte :
    (x : ℕ) (tail : List ℕ)
    → x < 256
    → decode plain (escape_byte x ++ tail) ≡ put_before (x ∷ []) (decode plain tail)
decode-escape_byte x tail h =
    decode-feed plain plain (escape_byte x) (x ∷ []) tail
      (plain_single x _ (gives-escape_byte 256 x none_misread h))

decode-escape_all :
    (value rest : List ℕ)
    → All (λ x. x < 256) value
    → decode plain (escape_all value ++ (34 ∷ rest)) ≡ some (value, rest)
unfolding escape_all decode move
decode-escape_all [] rest h = decode-end rest
  where
    decode-end : (rest : List ℕ) → decode plain (34 ∷ rest) ≡ some ([], rest)
    decode-end rest = ground arith
decode-escape_all (x ∷ value) rest h =
    ap (decode plain) (append_assoc (escape_byte x) (escape_all value) (34 ∷ rest))
    ∙ decode-escape_byte x (escape_all value ++ (34 ∷ rest)) h.0
    ∙ ap (put_before (x ∷ [])) (decode-escape_all value rest h.1)

-- A reader of JSON strings gets from what `write_json_string` writes for any bytes exactly these
-- bytes, whatever they are, and then stands behind the closing quotation mark.
pub read_json_string-write :
    (value rest : List ℕ)
    → All (λ x. x < 256) value
    → read_json_string (write_json_string value ++ rest) ≡ some (value, rest)
unfolding read_json_string write_json_string
read_json_string-write value rest h =
    ap (decode plain) (append_assoc (escape_all value) (34 ∷ []) rest)
    ∙ decode-escape_all value rest h
