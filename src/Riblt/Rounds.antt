-- ===== src/Riblt/Rounds.antt =====
-- The rounds of the loop of `apply_window` in crates/datboi-p2p/src/riblt.rs at one index.
use datboi.Base.{
  ℕ, zero, suc, ◌+◌, ◌*◌, ◌^◌, ◌≤◌, ◌<◌, List, [], ◌∷◌, some, length, get_elem?, ltb, leb,
  if◌then◌else◌, ◌≡◌, ap, ◌∙◌, arith, dec_lt,
}
use datboi.Riblt.Defs.{RandomMapping, at_index, next_index}
use datboi.Riblt.Ending.{large, large_calm, next_prng, MovesOn}

module _ (step : ℕ → ℕ → ℕ) where
  -- The rounds that a mapping may take part in at the index `k`.
  abbrev rounds : ℕ → RandomMapping → ℕ
  rounds k m = if ltb k m.last_index then 0 else if leb large (next_prng m.prng) then 2 else 1

  abbrev pub all_rounds : ℕ → List RandomMapping → ℕ
  all_rounds k [] = 0
  all_rounds k (m ∷ ms) = rounds k m + all_rounds k ms

  pub all_rounds-le : (k : ℕ) (ms : List RandomMapping) → all_rounds k ms ≤ 2 * length ms
  all_rounds-le k [] = omega arith
  all_rounds-le k (m ∷ ms) = let ih = all_rounds-le k ms in ground arith

  fewer :
      (k : ℕ) (m : RandomMapping)
      → MovesOn step
      → k + 1 < 2 ^ 64
      → m.last_index ≡ k
      → rounds k (next_index step m) < rounds k m
  unfolding next_index
  fewer k m on small at_k =
      let p = next_prng m.prng in
      elim (dec_lt p large) [
        | yes calm ↦ let moves = on m.last_index p calm in ground arith
        | no wild ↦ let after = large_calm p (omega arith) (omega arith) in ground arith
      ]

  pub all_fewer :
      (k i : ℕ) (m : RandomMapping) (ms : List RandomMapping)
      → MovesOn step
      → k + 1 < 2 ^ 64
      → get_elem? ms i ≡ some m
      → m.last_index ≡ k
      → all_rounds k (at_index i (next_index step) ms) < all_rounds k ms
  unfolding at_index
  all_fewer k i m [] on small g at_k = absurd (cc g)
  all_fewer k zero m (x ∷ ms) on small g at_k =
      let same : x ≡ m = cc g in
      let less = fewer k x on small (ap (λ (y : RandomMapping). y.last_index) same ∙ at_k) in
      omega arith
  all_fewer k (suc i) m (x ∷ ms) on small g at_k =
      let ih = all_fewer k i m ms on small g at_k in omega arith
