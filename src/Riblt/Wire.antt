-- ===== src/Riblt/Wire.antt =====
-- The wire form of coded symbols of crates/datboi-p2p/src/riblt.rs.
use datboi.Base.{
  ℕ, zero, suc, ◌+◌, ◌*◌, ◌/◌, ◌%◌, ◌^◌, ◌<◌, List, [], ◌∷◌, ◌++◌, some, length, take, drop, IsByte,
  IsBytes, IsU64, ◌==◌, ◌≡◌, refl, sym, ap, ◌∙◌, arith, length-append, length-take, length-drop,
  take-append_length, drop-append_length, take-append-drop, All-take, All-drop, ==_iff, true,
}
use datboi.Base.Slices.{drop-drop}
use native.Mathlib.Nat.{pow-suc}
use datboi.Riblt.Defs.{CodedSymbol, le_bytes, from_le, to_bytes, from_bytes}

pub length-le_bytes : (n v : ℕ) → length (le_bytes n v) ≡ n
unfolding le_bytes
length-le_bytes zero v = refl
length-le_bytes (suc n) v = omega (arith, length-le_bytes n (v / 256))

pub from_le-le_bytes : (n v : ℕ) → v < 256 ^ n → from_le (le_bytes n v) ≡ v
unfolding from_le le_bytes
from_le-le_bytes zero v h = omega arith
from_le-le_bytes (suc n) v h =
    let ih = from_le-le_bytes n (v / 256) (omega (arith, pow-suc 256 n)) in omega (arith, ih)

le_bytes-from_le : (bs : List ℕ) → IsBytes bs → le_bytes (length bs) (from_le bs) ≡ bs
unfolding from_le le_bytes
le_bytes-from_le [] h = refl
le_bytes-from_le (b ∷ bs) (h, hs) =
    let low : (b + 256 * from_le bs) % 256 ≡ b = omega arith in
    let high : (b + 256 * from_le bs) / 256 ≡ from_le bs = omega arith in
    rw (low, high, le_bytes-from_le bs hs) refl

le_bytes-IsBytes : (n v : ℕ) → IsBytes (le_bytes n v)
unfolding le_bytes
le_bytes-IsBytes zero v = tt
le_bytes-IsBytes (suc n) v = (omega arith, le_bytes-IsBytes n (v / 256))

from_le-lt : (bs : List ℕ) → IsBytes bs → from_le bs < 256 ^ length bs
unfolding from_le
from_le-lt [] h = omega arith
from_le-lt (b ∷ bs) (h, hs) = omega (arith, from_le-lt bs hs, pow-suc 256 (length bs))

-- A coded symbol of the width `n`.
pub record IsCoded (n : ℕ) (c : CodedSymbol) : Type 0 where
  pub wide : length c.symbol ≡ n
  pub bytes : IsBytes c.symbol
  pub hash_fits : IsU64 c.hash
  pub count_fits : IsU64 c.count

-- `from_bytes` at a width reads back every coded symbol of that width from `to_bytes`.
pub from_bytes-to_bytes :
    (n : ℕ) (c : CodedSymbol) → IsCoded n c → from_bytes n (to_bytes c) ≡ some c
unfolding from_bytes to_bytes
from_bytes-to_bytes n c i =
    let tail = le_bytes 8 c.hash ++ le_bytes 8 c.count in
    let long : (length (c.symbol ++ tail) == n + 16) ≡ true = (==_iff _ _).1 (
      omega (
        arith,
        length-append c.symbol tail,
        length-append (le_bytes 8 c.hash) (le_bytes 8 c.count),
        length-le_bytes 8 c.hash,
        length-le_bytes 8 c.count,
        i.wide,
      )) in
    let front : take n (c.symbol ++ tail) ≡ c.symbol =
      rw (← i.wide) (take-append_length c.symbol tail) in
    let rest : drop n (c.symbol ++ tail) ≡ tail =
      rw (← i.wide) (drop-append_length c.symbol tail) in
    let hash_is : take 8 tail ≡ le_bytes 8 c.hash =
      ap (λ (k : ℕ). take k tail) (sym (length-le_bytes 8 c.hash))
      ∙ take-append_length (le_bytes 8 c.hash) (le_bytes 8 c.count) in
    let count_is : drop (n + 8) (c.symbol ++ tail) ≡ le_bytes 8 c.count =
      sym (drop-drop 8 n (c.symbol ++ tail))
      ∙ ap (λ (t : List ℕ). drop 8 t) rest
      ∙ ap (λ (k : ℕ). drop k tail) (sym (length-le_bytes 8 c.hash))
      ∙ drop-append_length (le_bytes 8 c.hash) (le_bytes 8 c.count) in
    let hash_back = from_le-le_bytes 8 c.hash (omega (arith, i.hash_fits)) in
    let count_back = from_le-le_bytes 8 c.count (omega (arith, i.count_fits)) in
    rw (long, front, rest, hash_is, count_is, hash_back, count_back) refl

-- `to_bytes` gives back the bytes of every record of the wire length of a width, which `from_bytes`
-- reads as a coded symbol of that width.
pub to_bytes-from_bytes :
    (n : ℕ) (bs : List ℕ)
    → IsBytes bs
    → length bs ≡ n + 16
    → (c : CodedSymbol) × (from_bytes n bs ≡ some c) × IsCoded n c × (to_bytes c ≡ bs)
unfolding from_bytes to_bytes
to_bytes-from_bytes n bs h long =
    let right : (length bs == n + 16) ≡ true = (==_iff _ _).1 long in
    let middle = take 8 (drop n bs) in
    let end = drop (n + 8) bs in
    let middle_long : length middle ≡ 8 =
      omega (arith, length-take 8 (drop n bs), length-drop n bs) in
    let end_long : length end ≡ 8 = omega (arith, length-drop (n + 8) bs) in
    let middle_bytes = All-take IsByte 8 (drop n bs) (All-drop IsByte n bs h) in
    let end_bytes = All-drop IsByte (n + 8) bs h in
    let middle_back : le_bytes 8 (from_le middle) ≡ middle =
      ap (λ (k : ℕ). le_bytes k (from_le middle)) (sym middle_long)
      ∙ le_bytes-from_le middle middle_bytes in
    let end_back : le_bytes 8 (from_le end) ≡ end =
      ap (λ (k : ℕ). le_bytes k (from_le end)) (sym end_long) ∙ le_bytes-from_le end end_bytes in
    let ends : middle ++ end ≡ drop n bs =
      ap (λ (t : List ℕ). middle ++ t) (sym (drop-drop 8 n bs)) ∙ take-append-drop 8 (drop n bs) in
    let middle_fits : from_le middle < 256 ^ length middle = from_le-lt middle middle_bytes in
    let end_fits : from_le end < 256 ^ length end = from_le-lt end end_bytes in
    (
      record { symbol = take n bs; hash = from_le middle; count = from_le end },
      rw right refl,
      record {
        wide = omega (arith, length-take n bs);
        bytes = All-take IsByte n bs h;
        hash_fits = rw middle_long at middle_fits;
        count_fits = rw end_long at end_fits;
      },
      rw (middle_back, end_back, ends) (take-append-drop n bs),
    )
