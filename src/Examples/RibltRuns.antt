-- ===== src/Examples/RibltRuns.antt =====
-- crates/datboi-p2p/src/riblt.rs on concrete sets of symbols of two bytes. The checksum and the step
-- are simple functions here.
use datboi.Base.{ℕ, suc, ◌+◌, ◌%◌, ◌*◌, List, [], ◌∷◌, some, ◌≡◌, refl, arith, replicate}
use mathlib.Core.List.{Permᴰ}
use datboi.Examples.Inputs.{all_bytes-IsBytes}
use datboi.Riblt.Defs.{
  CodedSymbol, Absorbed, encode_block, encode_onto, hash_all, hashed, mark, mapping, next_index,
  default, apply, xor_bytes, at_index, apply_new_symbol, remove, to_bytes, from_bytes,
}
use datboi.Riblt.Ending.{MovesOn, encode_block_total}
use datboi.Riblt.Wire.{IsCoded, from_bytes-to_bytes, to_bytes-from_bytes}
use datboi.Riblt.Peeling.{encode_block_perm, apply_new_symbol-encode_block}

abbrev small_step : ℕ → ℕ → ℕ
small_step i r = suc (r % 2)

abbrev checksum : List ℕ → ℕ
checksum [] = 7
checksum (b ∷ bs) = b + 31 * checksum bs

abbrev set : List (List ℕ)
set = (1 ∷ 2 ∷ []) ∷ (3 ∷ 4 ∷ []) ∷ []

abbrev other_order : List (List ℕ)
other_order = (3 ∷ 4 ∷ []) ∷ (1 ∷ 2 ∷ []) ∷ []

encode_block_perm_example :
    encode_block small_step checksum 9 2 1 4 set
    ≡ encode_block small_step checksum 9 2 1 4 other_order
encode_block_perm_example =
    encode_block_perm small_step checksum 9 2 1 4
      (Permᴰ.swap {a = 1 ∷ 2 ∷ []} {b = 3 ∷ 4 ∷ []} {l = []} refl refl)

abbrev coded : CodedSymbol
coded = record { symbol = 1 ∷ 255 ∷ []; hash = 513; count = remove }

coded-IsCoded : IsCoded 2 coded
coded-IsCoded = record {
  wide = refl;
  bytes = all_bytes-IsBytes (1 ∷ 255 ∷ []) refl;
  hash_fits = omega arith;
  count_fits = omega arith;
}

from_bytes-to_bytes_example : from_bytes 2 (to_bytes coded) ≡ some coded
from_bytes-to_bytes_example = from_bytes-to_bytes 2 coded coded-IsCoded

abbrev record_bytes : List ℕ
record_bytes = 1 ∷ 2 ∷ replicate 16 255

to_bytes-from_bytes_example :
    (c : CodedSymbol) × (from_bytes 2 record_bytes ≡ some c)
    × IsCoded 2 c
    × (to_bytes c ≡ record_bytes)
to_bytes-from_bytes_example =
    to_bytes-from_bytes 2 record_bytes (all_bytes-IsBytes record_bytes refl) refl

small_step-MovesOn : MovesOn small_step
small_step-MovesOn i r h = omega arith

encode_block_total_example :
    (out : List CodedSymbol) × (encode_block small_step checksum 12 2 1 4 set ≡ some out)
encode_block_total_example =
    encode_block_total small_step checksum 12 2 1 4 set small_step-MovesOn (omega arith)
      (omega arith)

abbrev block : List CodedSymbol
block = replicate 4 (record { symbol = 2 ∷ 6 ∷ []; hash = 64; count = 2 })

encoded : encode_block small_step checksum 9 2 0 4 set ≡ some block
unfolding encode_block encode_onto hash_all hashed mark mapping next_index default apply xor_bytes
    at_index
encoded = refl

apply_new_symbol-encode_block_example :
    (rest : List CodedSymbol) × (encode_block small_step checksum 9 2 0 4 ((3 ∷ 4 ∷ []) ∷ [])
      ≡ some rest)
    × ((r : Absorbed) × (apply_new_symbol small_step checksum 9
            (hashed small_step checksum (1 ∷ 2 ∷ []))
            remove
            block
            []
          ≡ some r)
        × (r.cs ≡ rest))
apply_new_symbol-encode_block_example =
    apply_new_symbol-encode_block small_step checksum 9 2 4 (1 ∷ 2 ∷ []) ((3 ∷ 4 ∷ []) ∷ []) block
      [] encoded
