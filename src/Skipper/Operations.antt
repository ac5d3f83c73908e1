-- ===== src/Skipper/Operations.antt =====
-- `Operation` of crates/datboi-formats/src/skipper.rs. A buffer is the list of its bytes; a slice
-- that would panic is `none`.
use datboi.Base.{
  ℕ, ◌+◌, ◌*◌, ◌/◌, ◌%◌, ◌-◌, List, ◌∷◌, map, Option, none, some, length, take, drop, leb, ◌&&◌,
  if◌then◌else◌,
}

pub data Operation : Type 0 where
  no_operation : Operation
  bit_swap : Operation
  byte_swap : Operation
  word_swap : Operation
  word_byte_swap : Operation

unfoldable pub alignment : Operation → ℕ
alignment no_operation = 1
alignment bit_swap = 1
alignment byte_swap = 2
alignment word_swap = 4
alignment word_byte_swap = 4

-- `u8::reverse_bits`.
unfoldable pub reverse_bits : ℕ → ℕ
reverse_bits b =
    b % 2 * 128
    + b / 2 % 2 * 64
    + b / 4 % 2 * 32
    + b / 8 % 2 * 16
    + b / 16 % 2 * 8
    + b / 32 % 2 * 4
    + b / 64 % 2 * 2
    + b / 128 % 2

unfoldable pub swap_pairs : List ℕ → List ℕ
swap_pairs (a ∷ b ∷ rest) = b ∷ a ∷ swap_pairs rest
swap_pairs rest = rest

unfoldable pub reverse_quads : List ℕ → List ℕ
reverse_quads (a ∷ b ∷ c ∷ d ∷ rest) = d ∷ c ∷ b ∷ a ∷ reverse_quads rest
reverse_quads rest = rest

unfoldable pub swap_halves : List ℕ → List ℕ
swap_halves (a ∷ b ∷ c ∷ d ∷ rest) = c ∷ d ∷ a ∷ b ∷ swap_halves rest
swap_halves rest = rest

unfoldable pub apply : Operation → List ℕ → List ℕ
apply no_operation buf = buf
apply bit_swap buf = map reverse_bits buf
apply byte_swap buf = swap_pairs buf
apply word_swap buf = reverse_quads buf
apply word_byte_swap buf = swap_halves buf

-- The slice `data[start..end]`, which panics when it is out of range.
unfoldable pub slice : ℕ → ℕ → List ℕ → Option (List ℕ)
slice start end file =
    if leb start end && leb end (length file)
    then some (take (end - start) (drop start file))
    else none
