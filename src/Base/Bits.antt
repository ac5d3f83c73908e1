-- ===== src/Base/Bits.antt =====
-- `|` of a shifted field and one that fits below it, as a sum.
use Prim.Native.Nat.{
  ℕ, zero, suc, ◌+◌, ◌*◌, ◌/◌, ◌^◌, ◌≤◌, ◌<◌, max, bit_or, digits, bit_or-bitwise,
}
use mathlib.Core.Path.{◌≡◌, refl, ap, ◌∙◌}
use native.Mathlib.Nat.{pow-suc}
use native.Mathlib.Omega.{arith}

twice_shifted : (q k : ℕ) → q * 2 ^ suc k ≡ q * 2 ^ k * 2
twice_shifted q k = let p = ap (λ (t : ℕ). q * t) (pow-suc 2 k) in omega arith

-- The digits of `|`, with rounds enough for the upper field `a`.
joined_digits :
    (k rounds a q r : ℕ)
    → a ≡ q * 2 ^ k
    → r < 2 ^ k
    → a ≤ rounds
    → digits (λ d. d) max rounds a r ≡ a + r
joined_digits k zero zero q r shifted fits enough = omega arith
joined_digits k (suc rounds) zero q r shifted fits enough = omega arith
joined_digits k zero (suc a) q r shifted fits enough = absurd (omega arith)
joined_digits zero (suc rounds) (suc a) q r shifted fits enough =
    let upper =
      joined_digits zero rounds (suc a / 2) (suc a / 2) (r / 2) (omega arith) (omega arith)
        (omega arith) in
    omega arith
joined_digits (suc k) (suc rounds) (suc a) q r shifted fits enough =
    let halved : suc a / 2 ≡ q * 2 ^ k = omega (arith, twice_shifted q k) in
    let upper = joined_digits k rounds (suc a / 2) q (r / 2) halved (omega arith) (omega arith) in
    omega (arith, twice_shifted q k)

-- `(q << k) | r` is a sum when `r` fits `k` bits.
pub bit_or_fields : (k q r : ℕ) → r < 2 ^ k → bit_or (q * 2 ^ k) r ≡ q * 2 ^ k + r
bit_or_fields k q r fits =
    bit_or-bitwise (q * 2 ^ k) r
    ∙ joined_digits k (q * 2 ^ k) (q * 2 ^ k) q r refl fits (omega arith)
