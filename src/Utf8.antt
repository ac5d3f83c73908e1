-- ===== src/Utf8.antt =====
-- `std::str::from_utf8` of Rust's standard library: the byte strings that a `String` may hold
-- (the Unicode standard's table of well-formed UTF-8, which the library documents).
use datboi.Base.{ℕ, ◌≡◌, Bool, true, false, ◌&&◌, Option, none, some, List, [], ◌∷◌}
use datboi.Base.{ltb, leb, if◌then◌else◌}

-- What may follow: a new scalar value, so many continuation bytes, or a restricted second byte.
pub data Utf8State : Type 0 where
  start tail_one tail_two tail_three after_e0 after_ed after_f0 after_f4 : Utf8State

abbrev within : ℕ → ℕ → ℕ → Bool
within lo hi b = leb lo b && leb b hi

abbrev when : Bool → Utf8State → Option Utf8State
when b s = if b then some s else none

unfoldable pub first_byte : ℕ → Option Utf8State
first_byte b =
    if ltb b 0x80
    then some start
    else if within 0xc2 0xdf b
    then some tail_one
    else if ltb b 0xe0
    then none
    else if ltb b 0xe1
    then some after_e0
    else if within 0xed 0xed b
    then some after_ed
    else if ltb b 0xf0
    then some tail_two
    else if ltb b 0xf1
    then some after_f0
    else if ltb b 0xf4
    then some tail_three
    else if ltb b 0xf5
    then some after_f4
    else none

unfoldable pub next_byte : Utf8State → ℕ → Option Utf8State
unfolding first_byte
next_byte start b = first_byte b
next_byte tail_one b = when (within 0x80 0xbf b) start
next_byte tail_two b = when (within 0x80 0xbf b) tail_one
next_byte tail_three b = when (within 0x80 0xbf b) tail_two
next_byte after_e0 b = when (within 0xa0 0xbf b) tail_one
next_byte after_ed b = when (within 0x80 0x9f b) tail_one
next_byte after_f0 b = when (within 0x90 0xbf b) tail_two
next_byte after_f4 b = when (within 0x80 0x8f b) tail_two

unfoldable pub valid_from : Option Utf8State → List ℕ → Bool
unfolding next_byte
valid_from none bs = false
valid_from (some start) [] = true
valid_from (some s) [] = false
valid_from (some s) (b ∷ bs) = valid_from (next_byte s b) bs

unfoldable pub is_utf8 : List ℕ → Bool
unfolding valid_from
is_utf8 = valid_from (some start)

abbrev pub IsUtf8 : List ℕ → Type 0
IsUtf8 bs = is_utf8 bs ≡ true
