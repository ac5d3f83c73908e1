-- ===== src/Skipper/Swaps.antt =====
-- What `Operation::apply` of crates/datboi-formats/src/skipper.rs does twice, and to a length.
use datboi.Base.{
  ℕ, zero, suc, ◌<◌, Bool, true, ◌==◌, ◌&&◌, List, [], ◌∷◌, map, length, IsByte, IsBytes, ◌≡◌, refl,
  ap, arith,
}
use datboi.Skipper.Operations.{
  Operation, no_operation, bit_swap, byte_swap, word_swap, word_byte_swap, apply, reverse_bits,
  swap_pairs, reverse_quads, swap_halves,
}

-- Every number below `n` is what its bits reversed twice are.
below_undone : ℕ → Bool
below_undone zero = true
below_undone (suc n) = (reverse_bits (reverse_bits n) == n) && below_undone n

all_bytes_undone : below_undone 256 ≡ true
unfolding below_undone reverse_bits
all_bytes_undone = refl

below_undone_at : (n b : ℕ) → below_undone n ≡ true → b < n → reverse_bits (reverse_bits b) ≡ b
unfolding below_undone
below_undone_at zero b e h = absurd (omega arith)
below_undone_at (suc n) b e h = ground (arith, below_undone_at n b)

reverse_bits-reverse_bits : (b : ℕ) → IsByte b → reverse_bits (reverse_bits b) ≡ b
reverse_bits-reverse_bits b h = below_undone_at 256 b all_bytes_undone h

swap_pairs-swap_pairs : (xs : List ℕ) → swap_pairs (swap_pairs xs) ≡ xs
unfolding swap_pairs
swap_pairs-swap_pairs [] = refl
swap_pairs-swap_pairs (a ∷ []) = refl
swap_pairs-swap_pairs (a ∷ b ∷ rest) = rw (swap_pairs-swap_pairs rest) refl

reverse_quads-reverse_quads : (xs : List ℕ) → reverse_quads (reverse_quads xs) ≡ xs
unfolding reverse_quads
reverse_quads-reverse_quads [] = refl
reverse_quads-reverse_quads (a ∷ []) = refl
reverse_quads-reverse_quads (a ∷ b ∷ []) = refl
reverse_quads-reverse_quads (a ∷ b ∷ c ∷ []) = refl
reverse_quads-reverse_quads (a ∷ b ∷ c ∷ d ∷ rest) = rw (reverse_quads-reverse_quads rest) refl

swap_halves-swap_halves : (xs : List ℕ) → swap_halves (swap_halves xs) ≡ xs
unfolding swap_halves
swap_halves-swap_halves [] = refl
swap_halves-swap_halves (a ∷ []) = refl
swap_halves-swap_halves (a ∷ b ∷ []) = refl
swap_halves-swap_halves (a ∷ b ∷ c ∷ []) = refl
swap_halves-swap_halves (a ∷ b ∷ c ∷ d ∷ rest) = rw (swap_halves-swap_halves rest) refl

reversed_twice : (xs : List ℕ) → IsBytes xs → map reverse_bits (map reverse_bits xs) ≡ xs
reversed_twice [] h = refl
reversed_twice (x ∷ xs) (h, hs) = rw (reverse_bits-reverse_bits x h, reversed_twice xs hs) refl

-- Each operation undoes itself on bytes.
pub apply-apply : (op : Operation) (xs : List ℕ) → IsBytes xs → apply op (apply op xs) ≡ xs
unfolding apply
apply-apply no_operation xs h = refl
apply-apply bit_swap xs h = reversed_twice xs h
apply-apply byte_swap xs h = swap_pairs-swap_pairs xs
apply-apply word_swap xs h = reverse_quads-reverse_quads xs
apply-apply word_byte_swap xs h = swap_halves-swap_halves xs

length-swap_pairs : (xs : List ℕ) → length (swap_pairs xs) ≡ length xs
unfolding swap_pairs
length-swap_pairs [] = refl
length-swap_pairs (a ∷ []) = refl
length-swap_pairs (a ∷ b ∷ rest) = omega (arith, length-swap_pairs rest)

length-reverse_quads : (xs : List ℕ) → length (reverse_quads xs) ≡ length xs
unfolding reverse_quads
length-reverse_quads [] = refl
length-reverse_quads (a ∷ []) = refl
length-reverse_quads (a ∷ b ∷ []) = refl
length-reverse_quads (a ∷ b ∷ c ∷ []) = refl
length-reverse_quads (a ∷ b ∷ c ∷ d ∷ rest) = omega (arith, length-reverse_quads rest)

length-swap_halves : (xs : List ℕ) → length (swap_halves xs) ≡ length xs
unfolding swap_halves
length-swap_halves [] = refl
length-swap_halves (a ∷ []) = refl
length-swap_halves (a ∷ b ∷ []) = refl
length-swap_halves (a ∷ b ∷ c ∷ []) = refl
length-swap_halves (a ∷ b ∷ c ∷ d ∷ rest) = omega (arith, length-swap_halves rest)

length-map : (f : ℕ → ℕ) (xs : List ℕ) → length (map f xs) ≡ length xs
length-map f [] = refl
length-map f (x ∷ xs) = ap suc (length-map f xs)

pub length-apply : (op : Operation) (xs : List ℕ) → length (apply op xs) ≡ length xs
unfolding apply
length-apply no_operation xs = refl
length-apply bit_swap xs = length-map reverse_bits xs
length-apply byte_swap xs = length-swap_pairs xs
length-apply word_swap xs = length-reverse_quads xs
length-apply word_byte_swap xs = length-swap_halves xs
