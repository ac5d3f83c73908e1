-- ===== src/Examples/Inputs.antt =====
-- What the examples share: a test for lists of bytes, and byte slices as a `Source`.
use datboi.Base.{
  ℕ, ◌+◌, ◌≤◌, List, [], ◌∷◌, IsBytes, ltb, ltb→lt, Bool, true, false, ◌≡◌, refl, length, take,
  drop, some, Bool-cases, inl, inr, arith,
}
use datboi.Assemble.Defs.{Source, slice_read_at}

abbrev pub all_bytes : List ℕ → Bool
all_bytes [] = true
all_bytes (b ∷ bs) = let rest = all_bytes bs in elim (ltb b 256) [ true ↦ rest | false ↦ false ]

pub all_bytes-IsBytes : (bs : List ℕ) → all_bytes bs ≡ true → IsBytes bs
all_bytes-IsBytes [] e = tt
all_bytes-IsBytes (b ∷ bs) e = elim (Bool-cases (ltb b 256)) [
  | inl t ↦ (ltb→lt b 256 t, all_bytes-IsBytes bs (rw (all_bytes, t) at e))
  | inr f ↦ cc (rw (all_bytes, f) at e)
]

pub slice_read_at_lem :
    (s : List ℕ) (offset n : ℕ)
    → offset + n ≤ length s
    → slice_read_at s offset n ≡ some (take n (drop offset s))
unfolding slice_read_at
slice_read_at_lem s offset n h = ground arith

-- `impl Source for &[u8]`
abbrev pub slices : Source (List ℕ)
slices = record {
  source_len = length;
  read_at = slice_read_at;
  contents = λ s. s;
  source_len_lem = λ s. refl;
  read_at_lem = slice_read_at_lem;
}
