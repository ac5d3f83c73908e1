-- ===== src/Hash.antt =====
-- crates/datboi-core/src/hash.rs: the hexadecimal form of a blake3 hash. A hash is the list of its
-- 32 bytes, a text the list of its bytes.
use datboi.Base.{
  ℕ, ◌+◌, ◌-◌, ◌*◌, ◌/◌, ◌%◌, ◌^◌, ◌<◌, bit_or, Option, none, some, List, [], ◌∷◌, length, IsBytes,
  ltb, leb, ◌==◌, ◌&&◌, if◌then◌else◌, Result, ok, err, and_then, ok_or, ◌≡◌, ◌↔◌, refl, sym, ◌∙◌,
  arith, and_then-eq-ok, inl, inr, ==_iff, Bool-cases, ok-injective, true,
}
use datboi.Base.Bits.{bit_or_fields}

pub data ParseHashError : Type 0 where
  length_error : ℕ → ParseHashError
  hex : ℕ → ParseHashError

abbrev pub IsHash : List ℕ → Type 0
IsHash h = IsBytes h × (length h ≡ 32)

-- The digits of the format `{b:02x}`.
unfoldable pub hex_digit : ℕ → ℕ
hex_digit d = if ltb d 10 then b'0' + d else b'a' + (d - 10)

unfoldable pub to_hex : List ℕ → List ℕ
to_hex [] = []
to_hex (b ∷ bs) = hex_digit (b / 16) ∷ hex_digit (b % 16) ∷ to_hex bs

unfoldable pub hex_val : ℕ → Option ℕ
hex_val c =
    if leb b'0' c && leb c b'9'
    then some (c - b'0')
    else if leb b'a' c && leb c b'f'
    then some (c - b'a' + 10)
    else none

-- The loop of `from_str` over the chunks of two bytes, with the index of the chunk.
unfoldable pub parse_chunks : ℕ → List ℕ → Result ParseHashError (List ℕ)
parse_chunks i (c ∷ d ∷ cs) = and_then (ok_or (hex (i * 2)) (hex_val c)) λ hi.
    and_then (ok_or (hex (i * 2 + 1)) (hex_val d))
      λ lo. and_then (parse_chunks (i + 1) cs) λ out. ok (bit_or (hi * 2 ^ 4 % 2 ^ 8) lo ∷ out)
parse_chunks i cs = ok []

unfoldable pub from_str : List ℕ → Result ParseHashError (List ℕ)
from_str s = if length s == 64 then parse_chunks 0 s else err (length_error (length s))

hex_val-hex_digit : (d : ℕ) → d < 16 → hex_val (hex_digit d) ≡ some d
unfolding hex_val hex_digit
hex_val-hex_digit d h = ground arith

hex_digit-hex_val : (c d : ℕ) → hex_val c ≡ some d → (hex_digit d ≡ c) × (d < 16)
unfolding hex_val hex_digit
hex_digit-hex_val c d e = ground arith

nibbles : (hi lo : ℕ) → hi < 16 → lo < 16 → bit_or (hi * 2 ^ 4 % 2 ^ 8) lo ≡ hi * 16 + lo
nibbles hi lo h l = ground (arith, bit_or_fields 4 hi lo)

pub length-to_hex : (bs : List ℕ) → length (to_hex bs) ≡ 2 * length bs
unfolding to_hex
length-to_hex [] = refl
length-to_hex (b ∷ bs) = omega (arith, length-to_hex bs)

one_chunk :
    (i c d hi lo : ℕ) (cs out : List ℕ)
    → hex_val c ≡ some hi
    → hex_val d ≡ some lo
    → parse_chunks (i + 1) cs ≡ ok out
    → parse_chunks i (c ∷ d ∷ cs) ≡ ok (bit_or (hi * 2 ^ 4 % 2 ^ 8) lo ∷ out)
unfolding parse_chunks
one_chunk i c d hi lo cs out e f g = rw (e, f, g)

parse_chunks-to_hex : (i : ℕ) (bs : List ℕ) → IsBytes bs → parse_chunks i (to_hex bs) ≡ ok bs
unfolding to_hex
parse_chunks-to_hex i [] h = unfold parse_chunks in refl
parse_chunks-to_hex i (b ∷ bs) h =
    let whole : b / 16 * 16 + b % 16 ≡ b = omega arith in
    one_chunk i _ _ (b / 16) (b % 16) (to_hex bs) bs
      (hex_val-hex_digit (b / 16) (omega (arith, h.0))) (hex_val-hex_digit (b % 16) (omega arith))
      (parse_chunks-to_hex (i + 1) bs h.1)
    ∙ rw (nibbles (b / 16) (b % 16) (omega (arith, h.0)) (omega arith), whole)

ok_or-eq-ok :
    {A : Type 0} (x : ParseHashError) (o : Option A) {a : A} → ok_or x o ≡ ok a → o ≡ some a
ok_or-eq-ok x none e = cc
ok_or-eq-ok x (some a) e = cc

to_hex-parse_chunks :
    (i k : ℕ) (cs h : List ℕ)
    → length cs ≡ 2 * k
    → parse_chunks i cs ≡ ok h
    → IsBytes h × (to_hex h ≡ cs) × (length h ≡ k)
unfolding parse_chunks to_hex
to_hex-parse_chunks i k [] [] e f = (tt, refl, omega arith)
to_hex-parse_chunks i k [] (x ∷ h) e f = cc
to_hex-parse_chunks i k (c ∷ []) h e f = absurd (omega arith)
to_hex-parse_chunks i k (c ∷ d ∷ cs) h e f =
    let (hi, e₁, f₁) = and_then-eq-ok (ok_or (hex (i * 2)) (hex_val c)) _ f in
    let (lo, e₂, f₂) = and_then-eq-ok (ok_or (hex (i * 2 + 1)) (hex_val d)) _ f₁ in
    let (out, e₃, f₃) = and_then-eq-ok (parse_chunks (i + 1) cs) _ f₂ in
    let (hc, hhi) = hex_digit-hex_val c hi (ok_or-eq-ok _ (hex_val c) e₁) in
    let (hd, hlo) = hex_digit-hex_val d lo (ok_or-eq-ok _ (hex_val d) e₂) in
    let (ob, oh, ol) = to_hex-parse_chunks (i + 1) (k - 1) cs out (omega arith) e₃ in
    let n = nibbles hi lo hhi hlo in
    let q : (hi * 16 + lo) / 16 ≡ hi = omega arith in
    let r : (hi * 16 + lo) % 16 ≡ lo = omega arith in
    let is_h : bit_or (hi * 2 ^ 4 % 2 ^ 8) lo ∷ out ≡ h = ok-injective _ _ f₃ in
    rw (← is_h, n, q, r, hc, hd, oh) ((omega arith, ob), refl, omega arith)

-- `from_str` answers with a hash exactly when the hash is 32 bytes and the text is what `to_hex`
-- prints for it.
pub from_str-eq-ok_iff : (s h : List ℕ) → (from_str s ≡ ok h) ↔ (IsHash h × (s ≡ to_hex h))
unfolding from_str
from_str-eq-ok_iff s h = (into, back)
  where
    parsed : (length s == 64) ≡ true → from_str s ≡ ok h → parse_chunks 0 s ≡ ok h
    parsed t e = rw t at e

    into : from_str s ≡ ok h → IsHash h × (s ≡ to_hex h)
    into e = elim (Bool-cases (length s == 64)) [
      | inl t ↦
          let (b, x, l) =
            to_hex-parse_chunks 0 32 s h (omega (arith, (==_iff (length s) 64).0 t)) (parsed t e) in
          ((b, l), sym x)
      | inr f ↦ cc (rw f at e)
    ]

    back : IsHash h × (s ≡ to_hex h) → from_str s ≡ ok h
    back (hh, x) =
        let n : (length (to_hex h) == 64) ≡ true =
          (==_iff (length (to_hex h)) 64).1 (omega (arith, length-to_hex h, hh.1)) in
        rw (x, n) (parse_chunks-to_hex 0 h hh.0)
