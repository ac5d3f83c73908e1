-- ===== src/Object/Sniff.antt =====
-- `ObjectKind` and `sniff` of crates/datboi-core/src/object.rs. A text is the list of its bytes.
use datboi.Base.{
  ℕ, ◌+◌, ◌-◌, ◌*◌, ◌^◌, Option, none, some, List, [], ◌∷◌, length, ltb, leb, ◌==◌, ◌&&◌, ◌||◌, not,
  list_eq, if◌then◌else◌, Bool, true, false,
}
use datboi.Utf8.{is_utf8}

pub data ObjectKind : Type 0 where
  recipe view_snapshot state_snapshot alias_batch analysis_batch : ObjectKind

-- The texts of the source as bytes.
abbrev pub prefix : List ℕ
prefix = b'd' ∷ b'a' ∷ b't' ∷ b'b' ∷ b'o' ∷ b'i' ∷ b'/' ∷ []

unfoldable pub tag : ObjectKind → List ℕ
tag recipe = b'r' ∷ b'e' ∷ b'c' ∷ b'i' ∷ b'p' ∷ b'e' ∷ []
tag view_snapshot = b'v' ∷ b'i' ∷ b'e' ∷ b'w' ∷ b's' ∷ b'n' ∷ b'a' ∷ b'p' ∷ []
tag state_snapshot = b's' ∷ b't' ∷ b'a' ∷ b't' ∷ b'e' ∷ b's' ∷ b'n' ∷ b'a' ∷ b'p' ∷ []
tag alias_batch = b'a' ∷ b'l' ∷ b'i' ∷ b'a' ∷ b's' ∷ b'e' ∷ b's' ∷ []
tag analysis_batch = b'a' ∷ b'n' ∷ b'a' ∷ b'l' ∷ b'y' ∷ b's' ∷ b'i' ∷ b's' ∷ []

-- The match on the tag.
unfoldable pub kind_of : List ℕ → Option ObjectKind
kind_of t =
    if list_eq t (b'r' ∷ b'e' ∷ b'c' ∷ b'i' ∷ b'p' ∷ b'e' ∷ [])
    then some recipe
    else if list_eq t (b'v' ∷ b'i' ∷ b'e' ∷ b'w' ∷ b's' ∷ b'n' ∷ b'a' ∷ b'p' ∷ [])
    then some view_snapshot
    else if list_eq t (b's' ∷ b't' ∷ b'a' ∷ b't' ∷ b'e' ∷ b's' ∷ b'n' ∷ b'a' ∷ b'p' ∷ [])
    then some state_snapshot
    else if list_eq t (b'a' ∷ b'l' ∷ b'i' ∷ b'a' ∷ b's' ∷ b'e' ∷ b's' ∷ [])
    then some alias_batch
    else if list_eq t (b'a' ∷ b'n' ∷ b'a' ∷ b'l' ∷ b'y' ∷ b's' ∷ b'i' ∷ b's' ∷ [])
    then some analysis_batch
    else none

-- `strip_prefix`
unfoldable pub strip_prefix : List ℕ → List ℕ → Option (List ℕ)
strip_prefix [] bs = some bs
strip_prefix (p ∷ ps) [] = none
strip_prefix (p ∷ ps) (b ∷ bs) = let rest = strip_prefix ps bs in if p == b then rest else none

-- What stands before and after the first `sep`: `position` with the two slices, and `split_once`.
unfoldable pub split_once : ℕ → List ℕ → Option (List ℕ × List ℕ)
split_once sep [] = none
split_once sep (b ∷ bs) =
    let later : Option (List ℕ × List ℕ) = elim (split_once sep bs) [
      | none ↦ none
      | some (x, y) ↦ some (b ∷ x, y)
    ] in
    if b == sep then some ([], bs) else later

unfoldable pub is_digit : ℕ → Bool
is_digit b = leb b'0' b && leb b b'9'

unfoldable pub all_digits : List ℕ → Bool
unfolding is_digit
all_digits [] = true
all_digits (b ∷ bs) = is_digit b && all_digits bs

unfoldable pub leading_zero : List ℕ → Bool
leading_zero [] = false
leading_zero (b ∷ bs) = b == b'0'

-- `parse::<u32>` on digits: `none` when the number does not fit 32 bits.
unfoldable pub parse_u32 : ℕ → List ℕ → Option ℕ
parse_u32 acc [] = some acc
parse_u32 acc (b ∷ bs) =
    let next = parse_u32 (acc * 10 + (b - b'0')) bs in
    if ltb (acc * 10 + (b - b'0')) (2 ^ 32) then next else none

unfoldable pub parse_version : List ℕ → Option ℕ
parse_version version =
    if length version == 0
      || (ltb 1 (length version) && leading_zero version)
      || not (all_digits version)
    then none
    else parse_u32 0 version

-- The match and the version, from the line on; the body starts behind the line feed.
unfoldable pub sniff_line : List ℕ → Option (ObjectKind × ℕ × ℕ)
sniff_line line =
    if is_utf8 line
    then elim (split_once b'/' line) [
      | none ↦ none
      | some (t, version) ↦ elim (kind_of t) [
        | none ↦ none
        | some kind ↦ elim (parse_version version) [
          | none ↦ none
          | some v ↦ some (kind, v, length prefix + length line + 1)
        ]
      ]
    ]
    else none

unfoldable pub sniff : List ℕ → Option (ObjectKind × ℕ × ℕ)
sniff bytes = elim (strip_prefix prefix bytes) [
  | none ↦ none
  | some rest ↦ elim (split_once b'\n' rest) [ none ↦ none | some (line, body) ↦ sniff_line line ]
]
