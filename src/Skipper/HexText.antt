-- ===== src/Skipper/HexText.antt =====
-- The hexadecimal text that crates/datboi-formats/src/skipper.rs reads bytes from.
use datboi.Base.{
  ℕ, ◌+◌, ◌*◌, ◌/◌, ◌%◌, ◌^◌, ◌<◌, List, [], ◌∷◌, some, true, false, length, ◌==◌, IsByte, IsBytes,
  ok, ◌≡◌, refl, arith, ltb,
}
use datboi.Hash.{hex_digit, to_hex, length-to_hex}
use datboi.Skipper.Text.{
  to_digit, radix_digits, from_str_radix, is_char_boundary, parse_pairs, parse_hex_bytes,
  SkipperError,
}

to_digit-hex_digit : (d : ℕ) → d < 16 → to_digit (hex_digit d) ≡ some d
unfolding to_digit hex_digit
to_digit-hex_digit d h = ground arith

hex_digit_not_plus : (d : ℕ) → d < 16 → (hex_digit d == b'+') ≡ false
unfolding hex_digit
hex_digit_not_plus d h = ground arith

two_digits :
    (b : ℕ)
    → IsByte b
    → from_str_radix (2 ^ 8) (hex_digit (b / 16) ∷ hex_digit (b % 16) ∷ []) ≡ some b
unfolding from_str_radix radix_digits
two_digits b h =
    let plus = hex_digit_not_plus (b / 16) (omega arith) in
    let hi = to_digit-hex_digit (b / 16) (omega arith) in
    let lo = to_digit-hex_digit (b % 16) (omega arith) in
    let fits : ltb (0 * 16 + b / 16) (2 ^ 8) ≡ true = ground arith in
    let joined : (0 * 16 + b / 16) * 16 + b % 16 ≡ b = omega arith in
    let all : ltb b (2 ^ 8) ≡ true = ground arith in
    rw (plus, hi, radix_digits, fits, lo, joined, all) refl

boundary-to_hex : (bs : List ℕ) → IsBytes bs → is_char_boundary (to_hex bs) ≡ true
unfolding is_char_boundary to_hex hex_digit
boundary-to_hex [] h = refl
boundary-to_hex (b ∷ bs) (h, hs) = ground arith

parse_pairs-to_hex :
    (e : SkipperError) (bs : List ℕ) → IsBytes bs → parse_pairs e (to_hex bs) ≡ ok bs
unfolding parse_pairs to_hex
parse_pairs-to_hex e [] h = refl
parse_pairs-to_hex e (b ∷ bs) (h, hs) =
    rw (boundary-to_hex bs hs, two_digits b h, parse_pairs-to_hex e bs hs) refl

-- `parse_hex_bytes` reads any bytes back from their hexadecimal text in lower case.
pub parse_hex_bytes-to_hex :
    (name bs : List ℕ) → IsBytes bs → parse_hex_bytes name (to_hex bs) ≡ ok bs
unfolding parse_hex_bytes
parse_hex_bytes-to_hex name bs h =
    let even : (length (to_hex bs) % 2 == 0) ≡ true = ground (arith, length-to_hex bs) in
    rw even (parse_pairs-to_hex _ bs h)
