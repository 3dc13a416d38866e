-- ===== src/Reporting/Json.antt =====
-- The strings of the JSON document of src/reporting/pipeline_reporter.cpp. Text is a list of bytes.
pub mod Decode
pub mod RoundTrip
use io_uring_async_load_proc.Prelude.{
  ℕ, zero, suc, ◌+◌, ◌-◌, ◌*◌, ◌/◌, ◌≤◌, ◌<◌, ◌≡◌, ◌≢◌, refl, sym, ap, subst, ◌∙◌, inl, inr, Bool,
  true, false, not, ◌&&◌, ◌||◌, Option, none, some, List, [], ◌∷◌, ◌++◌, append_assoc, append-nil,
  map, length, take, drop, leb, ltb, ◌==◌, if◌then◌else◌, bit_xor, bit_and, get_or, arith,
  Bool-cases, Option-cases, ==_iff, All,
}
use io_uring_async_load_proc.Metrics.Name.{bytes}

abbrev pub hex_digits : List ℕ
hex_digits = bytes "0123456789abcdef"

-- The `switch` on a byte.
unfoldable pub escape_byte : ℕ → List ℕ
escape_byte byte =
    if byte == 34
    then bytes "\\\""
    else if byte == 92
    then bytes "\\\\"
    else if byte == 8
    then bytes "\\b"
    else if byte == 12
    then bytes "\\f"
    else if byte == 10
    then bytes "\\n"
    else if byte == 13
    then bytes "\\r"
    else if byte == 9
    then bytes "\\t"
    else if ltb byte 32
    then bytes "\\u00"
      ++ (get_or hex_digits (byte / 16) 0 ∷ get_or hex_digits (bit_and byte 15) 0 ∷ [])
    else byte ∷ []

unfoldable pub escape_all : List ℕ → List ℕ
unfolding escape_byte
escape_all [] = []
escape_all (byte ∷ value) = escape_byte byte ++ escape_all value

unfoldable pub write_json_string : List ℕ → List ℕ
unfolding escape_all
write_json_string value = 34 ∷ (escape_all value ++ (34 ∷ []))

unfoldable pub write_json_named_string : List ℕ → List ℕ → List ℕ → Bool → List ℕ
unfolding write_json_string
write_json_named_string indentation name value comma =
    indentation
    ++ (write_json_string name
        ++ (bytes ": " ++ (write_json_string value ++ (if comma then bytes ",\n" else bytes "\n"))))
