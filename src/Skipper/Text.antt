-- ===== src/Skipper/Text.antt =====
-- The numbers and offsets in the attributes of crates/datboi-formats/src/skipper.rs. A text is the
-- list of its UTF-8 bytes.
use datboi.Base.{
  ℕ, ◌+◌, ◌-◌, ◌*◌, ◌%◌, ◌^◌, List, [], ◌∷◌, map, Option, none, some, Bool, true, ◌&&◌, length, ltb,
  leb, ◌==◌, list_eq, if◌then◌else◌, Result, ok, err, and_then, ok_or,
}
use datboi.Skipper.Defs.{Offset, from_start, from_end, eof}

-- `SkipperError`; the errors of the XML reader carry what they are in the reader. A panic is a value.
pub data SkipperError : Type 0 where
  xml : List ℕ → SkipperError
  attr : List ℕ → SkipperError
  encoding : List ℕ → SkipperError
  missing_name : SkipperError
  no_rules : SkipperError
  unknown_element : List ℕ → SkipperError
  invalid_attr : (attr_name value : List ℕ) → SkipperError
  missing_attr : (element attr_name : List ℕ) → SkipperError
  mask_length : SkipperError
  panicked : SkipperError

abbrev pub S : Type 0 → Type 0
S A = Result SkipperError A

unfoldable pub ascii_lower : ℕ → ℕ
ascii_lower c = if leb b'A' c && leb c b'Z' then c + 32 else c

unfoldable pub eq_ignore_ascii_case : List ℕ → List ℕ → Bool
unfolding ascii_lower
eq_ignore_ascii_case s t = list_eq (map ascii_lower s) (map ascii_lower t)

-- `char::to_digit(16)` on a byte.
unfoldable pub to_digit : ℕ → Option ℕ
to_digit c =
    if leb b'0' c && leb c b'9'
    then some (c - b'0')
    else if leb b'a' c && leb c b'f'
    then some (c - b'a' + 10)
    else if leb b'A' c && leb c b'F'
    then some (c - b'A' + 10)
    else none

-- The digits of `from_str_radix(_, 16)` for a type with the numbers below `limit`, behind `acc`.
unfoldable pub radix_digits : ℕ → ℕ → List ℕ → Option ℕ
unfolding to_digit
radix_digits limit acc [] = some acc
radix_digits limit acc (c ∷ cs) = elim (to_digit c) [
  | none ↦ none
  | some d ↦ if ltb (acc * 16 + d) limit then radix_digits limit (acc * 16 + d) cs else none
]

-- `from_str_radix(_, 16)`, which takes one leading plus sign and wants a digit.
unfoldable pub from_str_radix : ℕ → List ℕ → Option ℕ
from_str_radix limit [] = none
from_str_radix limit (c ∷ []) = if c == b'+' then none else radix_digits limit 0 (c ∷ [])
from_str_radix limit (c ∷ d ∷ cs) =
    if c == b'+' then radix_digits limit 0 (d ∷ cs) else radix_digits limit 0 (c ∷ d ∷ cs)

unfoldable pub parse_hex_u64 : List ℕ → List ℕ → S ℕ
unfolding from_str_radix
parse_hex_u64 name raw = ok_or (invalid_attr name raw) (from_str_radix (2 ^ 64) raw)

-- A byte at which a character begins; a slice of a text panics elsewhere.
unfoldable pub is_char_boundary : List ℕ → Bool
is_char_boundary [] = true
is_char_boundary (c ∷ cs) = if leb 128 c then leb 192 c else true

-- The bytes two digits at a time, in a text of even length.
unfoldable pub parse_pairs : SkipperError → List ℕ → S (List ℕ)
parse_pairs invalid (c ∷ d ∷ rest) =
    if is_char_boundary rest
    then (and_then (ok_or invalid (from_str_radix (2 ^ 8) (c ∷ d ∷ [])))
        λ b. and_then (parse_pairs invalid rest) λ bs. ok (b ∷ bs))
    else err panicked
parse_pairs invalid cs = ok []

unfoldable pub parse_hex_bytes : List ℕ → List ℕ → S (List ℕ)
parse_hex_bytes name raw =
    if length raw % 2 == 0
    then parse_pairs (invalid_attr name raw) raw
    else err (invalid_attr name raw)

abbrev pub text_eof : List ℕ
text_eof = b'E' ∷ b'O' ∷ b'F' ∷ []

unfoldable pub parse_offset : List ℕ → List ℕ → S Offset
parse_offset name [] = and_then (parse_hex_u64 name []) λ v. ok (from_start v)
parse_offset name (c ∷ neg) =
    if eq_ignore_ascii_case (c ∷ neg) text_eof
    then ok eof
    else if c == b'-'
    then (and_then (parse_hex_u64 name neg) λ v. ok (from_end v))
    else and_then (parse_hex_u64 name (c ∷ neg)) λ v. ok (from_start v)
