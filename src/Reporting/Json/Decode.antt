-- ===== src/Reporting/Json/Decode.antt =====
-- A reader of JSON strings by the grammar of RFC 8259, independent of how
-- src/reporting/pipeline_reporter.cpp writes them. A byte from 128 on stands for itself.
use io_uring_async_load_proc.Prelude.{
  ℕ, ◌+◌, ◌-◌, ◌*◌, true, false, ◌&&◌, ◌||◌, Option, none, some, List, [], ◌∷◌, ◌++◌, leb, ltb,
  ◌==◌, if◌then◌else◌,
}

pub data Mode : Type 0 where
  plain escaped : Mode
  hex : ℕ → ℕ → Mode

-- What the next byte does: the string ends, is no string, or goes on with the characters given.
pub data Move : Type 0 where
  ends bad : Move
  goes : Mode → List ℕ → Move

unfoldable pub hex_value : ℕ → Option ℕ
hex_value x =
    if leb 48 x && leb x 57
    then some (x - 48)
    else if leb 97 x && leb x 102
    then some (x - 87)
    else if leb 65 x && leb x 70
    then some (x - 55)
    else none

unfoldable pub move : Mode → ℕ → Move
unfolding hex_value
move plain x =
    if x == 34
    then ends
    else if x == 92
    then goes escaped []
    else if ltb x 32
    then bad
    else goes plain (x ∷ [])
move escaped x =
    if x == 34 || (x == 92 || x == 47)
    then goes plain (x ∷ [])
    else if x == 98
    then goes plain (8 ∷ [])
    else if x == 102
    then goes plain (12 ∷ [])
    else if x == 110
    then goes plain (10 ∷ [])
    else if x == 114
    then goes plain (13 ∷ [])
    else if x == 116
    then goes plain (9 ∷ [])
    else if x == 117
    then goes (hex 3 0) []
    else bad
move (hex left value) x = elim (hex_value x) [
  | none ↦ bad
  | some digit ↦
      let code = value * 16 + digit in
      if left == 0 then goes plain (code ∷ []) else goes (hex (left - 1) code) []
]

abbrev pub put_before : List ℕ → Option (List ℕ × List ℕ) → Option (List ℕ × List ℕ)
put_before out none = none
put_before out (some (value, rest)) = some (out ++ value, rest)

-- The value of a string whose opening quotation mark was read, and what comes behind it.
unfoldable pub decode : Mode → List ℕ → Option (List ℕ × List ℕ)
unfolding move
decode mode [] = none
decode mode (x ∷ xs) = elim (move mode x) [
  | ends ↦ some ([], xs)
  | bad ↦ none
  | goes mode' out ↦ put_before out (decode mode' xs)
]

unfoldable pub read_json_string : List ℕ → Option (List ℕ × List ℕ)
unfolding decode
read_json_string [] = none
read_json_string (x ∷ xs) = elim (x == 34) [ true ↦ decode plain xs | false ↦ none ]
