-- ===== src/Riblt/Ending.antt =====
-- The loops of crates/datboi-p2p/src/riblt.rs and their ends; the f64 step is 0 for the 1024 largest
-- random numbers.
use datboi.Base.{
  ℕ, zero, suc, ◌+◌, ◌-◌, ◌*◌, ◌%◌, ◌^◌, ◌≤◌, ◌<◌, List, [], ◌∷◌, Option, some, length, replicate,
  length-replicate, leb, ltb, ◌&&◌, Bool-cases, inl, inr, ◌≡◌, refl, ap, ◌∙◌, arith, Bool, true,
  dec_lt,
}
use datboi.Riblt.Defs.{
  CodedSymbol, HashedSymbol, RandomMapping, add, next_index, mark, mapping, default, encode_onto,
  encode_block, hash_all,
}
use datboi.Riblt.Marks.{bind, mark_done, mark_more, marked}
use datboi.Riblt.Undo.{length-mark}
use datboi.Riblt.Blocks.{onto}

-- The random numbers from which on the step may be 0.
abbrev pub large : ℕ
large = 2 ^ 64 - 1024

abbrev pub next_prng : ℕ → ℕ
next_prng r = r * 15750249268501108917 % 2 ^ 64

-- The steps move on except for large random numbers.
abbrev pub MovesOn : (ℕ → ℕ → ℕ) → Type 0
MovesOn step = (i r : ℕ) → r < large → 0 < step i r

calm_below : ℕ → Bool
calm_below zero = true
calm_below (suc j) = ltb (next_prng (2 ^ 64 - 1 - j)) large && calm_below j

all_calm : calm_below 1024 ≡ true
unfolding calm_below
all_calm = refl

calm_at : (n j : ℕ) → calm_below n ≡ true → j < n → next_prng (2 ^ 64 - 1 - j) < large
unfolding calm_below
calm_at zero j e h = absurd (omega arith)
calm_at (suc n) j e h = elim (dec_lt j n) [
  | yes below ↦ calm_at n j (ground arith) below
  | no here ↦ let same : j ≡ n = omega arith in rw same (first n e)
]
  where
    first : (n : ℕ) → calm_below (suc n) ≡ true → next_prng (2 ^ 64 - 1 - n) < large
    first n e = ground arith

-- After a large random number comes one that is not.
pub large_calm : (r : ℕ) → large ≤ r → r < 2 ^ 64 → next_prng r < large
large_calm r h k =
    let j = 2 ^ 64 - 1 - r in
    let same : 2 ^ 64 - 1 - j ≡ r = omega arith in
    let small : j < 1024 = omega arith in rw same at (calm_at 1024 j all_calm small)

module _ (step : ℕ → ℕ → ℕ) where
  -- Two rounds for each index below the end, and two more, are enough; one less if the next random
  -- number is not large.
  mark_total :
      (fuel start end : ℕ) (s : HashedSymbol) (d : ℕ) (m : RandomMapping) (out : List CodedSymbol)
      → MovesOn step
      → end < 2 ^ 64
      → 2 * (end - m.last_index) + 1 ≤ fuel
      → (large ≤ next_prng m.prng → 2 * (end - m.last_index) + 2 ≤ fuel)
      → (o : List CodedSymbol) × (mark step fuel start end s d m out ≡ some o)
  unfolding mark next_index
  mark_total zero start end s d m out on small enough spare = absurd (omega arith)
  mark_total (suc fuel) start end s d m out on small enough spare =
      elim (Bool-cases (leb end m.last_index)) [
        | inl done ↦ (out, mark_done step start end fuel s d m out done)
        | inr more ↦
            let before : m.last_index < end = ground arith in
            let p = next_prng m.prng in
            let in_range : p < 2 ^ 64 = omega arith in
            elim (dec_lt p large) [
              | yes moves ↦
                  let far = on m.last_index p moves in
                  let (o, e) =
                    mark_total fuel start end s d (next_index step m)
                      (marked step start end m s d out) on small (omega arith) (λ l. omega arith) in
                  (o, mark_more step start end fuel s d m out more ∙ e)
              | no stays ↦
                  let room = spare (omega arith) in
                  let calm = large_calm p (omega arith) in_range in
                  let (o, e) =
                    mark_total fuel start end s d (next_index step m)
                      (marked step start end m s d out) on small (omega arith)
                      (λ l. absurd (omega arith)) in
                  (o, mark_more step start end fuel s d m out more ∙ e)
            ]
      ]

  pub onto_total :
      (fuel start : ℕ) (ss : List HashedSymbol) (out : List CodedSymbol)
      → MovesOn step
      → start + length out < 2 ^ 64
      → 2 * (start + length out) + 2 ≤ fuel
      → (o : List CodedSymbol) × (encode_onto step fuel start ss out ≡ some o)
  unfolding encode_onto mapping
  onto_total fuel start [] out on small enough = (out, refl)
  onto_total fuel start (s ∷ ss) out on small enough =
      let (x, f) =
        mark_total fuel start (start + length out) s add (mapping s) out on small (omega arith)
          (λ l. omega arith) in
      let long = length-mark step start (start + length out) fuel s add (mapping s) out x f in
      let (o, e) = onto_total fuel start ss x on (omega arith) (omega arith) in
      (
        o,
        onto step fuel start s ss out
            ∙ ap (λ (r : Option (List CodedSymbol)). bind r (encode_onto step fuel start ss)) f
            ∙ e,
      )

  -- With steps that move on except for the 1024 largest random numbers, and a block whose end fits 64
  -- bits, two rounds for each symbol and each index up to the end of the block, and two more, are
  -- enough to encode it.
  pub encode_block_total :
      (hash_symbol : List ℕ → ℕ) (fuel n start len : ℕ) (set : List (List ℕ))
      → MovesOn step
      → start + len < 2 ^ 64
      → 2 * (start + len) + 2 ≤ fuel
      → (out : List CodedSymbol) × (encode_block step hash_symbol fuel n start len set ≡ some out)
  unfolding encode_block
  encode_block_total hash_symbol fuel n start len set on small enough =
      let long = length-replicate len (default n) in
      onto_total fuel start (hash_all step hash_symbol set) (replicate len (default n)) on
        (omega arith) (omega arith)
