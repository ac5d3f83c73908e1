-- ===== src/Exec/Exact.antt =====
-- `read_at_exact` of crates/datboi-exec/src/random.rs gives all the bytes asked for.
use datboi.Base.{
  ℕ, zero, suc, ◌+◌, ◌-◌, ◌≤◌, ◌<◌, List, [], ◌∷◌, ◌++◌, some, length, take, drop, ◌≡◌, refl, sym,
  ap, ◌∙◌, arith,
}
use datboi.Base.Slices.{take-add, drop-drop}
use datboi.Assemble.Defs.{Source}
use datboi.Exec.Defs.{RangeRead, got, read_at_exact}

module _ {S : Type 0} (source : RangeRead S) where
  open source use {len, read_at, contents, len_lem, read_at_lem}

  -- A part of a slice and the rest of it.
  pub two_parts :
      (s : S) (offset k n : ℕ) (chunk : List ℕ)
      → length chunk ≡ k
      → k ≤ n
      → chunk ≡ take k (drop offset (contents s))
      → chunk ++ take (n - k) (drop (offset + k) (contents s)) ≡ take n (drop offset (contents s))
  two_parts s offset k n chunk long h e =
      let n_is : k + (n - k) ≡ n = omega arith in
      ap (λ (t : List ℕ). t ++ take (n - k) (drop (offset + k) (contents s))) e
      ∙ ap (λ (t : List ℕ). take k (drop offset (contents s)) ++ take (n - k) t)
          (sym (drop-drop k offset (contents s)))
      ∙ take-add k (n - k) (drop offset (contents s))
      ∙ ap (λ (t : ℕ). take t (drop offset (contents s))) n_is

  -- Over a source that does not fail, `read_at_exact` returns the bytes of a range that lies in the
  -- source, however short the single reads are; one round for each byte is enough.
  pub read_at_exact_lem :
      (fuel : ℕ) (s : S) (offset n : ℕ)
      → n ≤ fuel
      → offset + n ≤ length (contents s)
      → read_at_exact source fuel s offset n ≡ some (take n (drop offset (contents s)))
  unfolding read_at_exact
  read_at_exact_lem zero s offset zero enough inside = refl
  read_at_exact_lem zero s offset (suc n) enough inside = absurd (omega arith)
  read_at_exact_lem (suc fuel) s offset zero enough inside = refl
  read_at_exact_lem (suc fuel) s offset (suc n) enough inside =
      let (chunk, answer, some_bytes, fits, right) =
        read_at_lem s offset (suc n) (omega arith) (omega arith) in
      go (λ o m. read_at_exact_lem fuel s o m) chunk answer some_bytes fits right
    where
      go :
          ((o m : ℕ)
            → m ≤ fuel
            → o + m ≤ length (contents s)
            → read_at_exact source fuel s o m ≡ some (take m (drop o (contents s))))
          → (chunk : List ℕ) → read_at s offset (suc n) ≡ got chunk
          → 0 < length chunk
          → length chunk ≤ suc n
          → chunk ≡ take (length chunk) (drop offset (contents s))
          → read_at_exact source (suc fuel) s offset (suc n)
            ≡ some (take (suc n) (drop offset (contents s)))
      go ih [] answer some_bytes fits right = absurd (omega arith)
      go ih (b ∷ bs) answer some_bytes fits right =
          let rest =
            ih (offset + length (b ∷ bs)) (suc n - length (b ∷ bs)) (omega arith) (omega arith) in
          rw (answer, read_at_exact, rest)
            (ap some (two_parts s offset (length (b ∷ bs)) (suc n) (b ∷ bs) refl fits right))

  -- The source with exact reads that crates/datboi-core/src/assemble.rs wants.
  abbrev pub exact : Source S
  exact = record {
    source_len = len;
    read_at = λ s offset n. read_at_exact source n s offset n;
    contents = contents;
    source_len_lem = len_lem;
    read_at_lem = λ s offset n h. read_at_exact_lem n s offset n (omega arith) h;
  }
