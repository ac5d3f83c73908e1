-- ===== src/Riblt/Encoding.antt =====
-- The two encoders of crates/datboi-p2p/src/riblt.rs: `Encoder`, one coded symbol at a time, and
-- `encode_block`.
use datboi.Base.{
  ℕ, zero, suc, ◌+◌, ◌*◌, ◌^◌, ◌≤◌, ◌<◌, List, [], ◌∷◌, map, Option, none, some, length, replicate,
  length-replicate, Bool, Bool-cases, inl, inr, true, false, ◌≡◌, refl, ap, ◌∙◌, subst, arith,
  if◌then◌else◌,
}
use datboi.Riblt.Defs.{
  CodedSymbol, HashedSymbol, RandomMapping, add, default, mapping, hashed, hash_all, encode_block,
  encode_onto,
}
use datboi.Riblt.Ending.{MovesOn, encode_block_total}
use datboi.Riblt.Sweeps.{Sweeps, Sweeps-unique, Sweeps-join, Sweeps-end, encode_onto-Sweeps}
use datboi.Riblt.Window.{
  SymbolMapping, CodingWindow, encoder, dedup_symbols, dedup_from, seen_before,
  produce_next_coded_symbol,
}
use datboi.Riblt.Ready.{Ready, window}
use datboi.Riblt.Draining.{applies}
use datboi.Riblt.Filling.{encoder-Ready}

module _ (step : ℕ → ℕ → ℕ) where
  -- The coded symbols of `count` calls of `produce_next_coded_symbol`.
  unfoldable pub produce : ℕ → ℕ → ℕ → CodingWindow → Option (List CodedSymbol)
  produce zero fuel n w = some []
  produce (suc count) fuel n w = elim (produce_next_coded_symbol step fuel n w) [
    | none ↦ none
    | some r ↦ elim (produce count fuel n r.1) [ none ↦ none | some cs ↦ some (r.0 ∷ cs) ]
  ]

  -- A window at the index `k` makes the coded symbols of [k, k + count).
  produces :
      (count fuel n : ℕ) (ss : List HashedSymbol) (ms : List RandomMapping) (q : List SymbolMapping)
      (k : ℕ)
      → MovesOn step
      → count + k < 2 ^ 64
      → 2 * length ms < fuel
      → Ready ss ms q k
      → (cs : List CodedSymbol) × (produce count fuel n (window ss ms q k) ≡ some cs)
        × Sweeps step k (count + k) add ss ms (replicate count (default n)) cs
  unfolding produce produce_next_coded_symbol
  produces zero fuel n ss ms q k on small enough w =
      let here : 0 + k ≡ k = omega arith in
      ([], refl, rw here (Sweeps-end step add k k ss ms [] w.long w.later))
  produces (suc count) fuel n ss ms q k on small enough w =
      let (c, ms', q', run, drained) =
        applies step fuel ss ms q k add (default n) on (omega arith) enough w in
      let long = drained.same_length in
      let (cs, runs, sweeps) =
        produces count fuel n ss ms' q' (suc k) on (omega arith) (omega arith) drained.ready in
      let end : count + suc k ≡ suc count + k = omega arith in
      let old =
        drained.behind (suc k) (count + suc k) (replicate count (default n)) cs (omega arith)
          (omega arith) sweeps in
      (
        c ∷ cs,
        rw (run, runs, produce) refl,
        Sweeps-join step add k (suc k) (suc count + k) ss ms (default n ∷ []) (c ∷ [])
            (replicate count (default n)) cs (omega arith) (omega arith) (omega arith) drained.made
            (subst (λ (t : ℕ). Sweeps step (suc k) t add ss ms (replicate count (default n)) cs) end
              old),
      )

  module _ (hash_symbol : List ℕ → ℕ) where
    -- The symbols of a set, each once.
    abbrev pub distinct : List (List ℕ) → List (List ℕ)
    distinct set = map (λ (s : HashedSymbol). s.symbol) (dedup_symbols step hash_symbol set)

    rehash :
        (seen set : List (List ℕ))
        → hash_all step hash_symbol
            (map (λ (s : HashedSymbol). s.symbol) (dedup_from step hash_symbol seen set))
          ≡ dedup_from step hash_symbol seen set
    unfolding dedup_from hash_all hashed
    rehash seen [] = refl
    rehash seen (s ∷ set) = go (seen_before s seen) (rehash seen set) (rehash (s ∷ seen) set)
      where
        go :
            (b : Bool)
            → hash_all step hash_symbol
                (map (λ (s : HashedSymbol). s.symbol) (dedup_from step hash_symbol seen set))
              ≡ dedup_from step hash_symbol seen set
            → hash_all step hash_symbol
                (map (λ (s : HashedSymbol). s.symbol) (dedup_from step hash_symbol (s ∷ seen) set))
              ≡ dedup_from step hash_symbol (s ∷ seen) set
            → hash_all step hash_symbol (
                map
                  (λ (s : HashedSymbol). s.symbol)
                  (if b
                    then dedup_from step hash_symbol seen set
                    else hashed step hash_symbol s ∷ dedup_from step hash_symbol (s ∷ seen) set))
              ≡ (if b
                  then dedup_from step hash_symbol seen set
                  else hashed step hash_symbol s ∷ dedup_from step hash_symbol (s ∷ seen) set)
        go true a b = a
        go false a b = ap (λ t. hashed step hash_symbol s ∷ t) b

    length-dedup :
        (seen set : List (List ℕ)) → length (dedup_from step hash_symbol seen set) ≤ length set
    unfolding dedup_from
    length-dedup seen [] = omega arith
    length-dedup seen (s ∷ set) =
        let a = length-dedup seen set in
        let b = length-dedup (s ∷ seen) set in
        elim (Bool-cases (seen_before s seen)) [
          | inl t ↦ rw (t, dedup_from) (omega arith)
          | inr f ↦ rw (f, dedup_from) (omega arith)
        ]

    -- With steps that move on, fewer than 2^64 coded symbols and enough fuel (one more than two
    -- rounds for each symbol given, for each coded symbol; two rounds for each index of the
    -- block, and two more): an `Encoder` is made of any list of symbols, with repetitions or not,
    -- and its first coded symbols are those that `encode_block` makes of the distinct symbols of
    -- the list in one block.
    pub encoder-encode_block :
        (count fuel fuel' n : ℕ) (set : List (List ℕ))
        → MovesOn step
        → count < 2 ^ 64
        → 2 * length set < fuel
        → 2 * count + 2 ≤ fuel'
        → (w : CodingWindow) × (cs : List CodedSymbol) × (encoder step hash_symbol set ≡ some w)
          × (produce count fuel n w ≡ some cs)
          × (encode_block step hash_symbol fuel' n 0 count (distinct set) ≡ some cs)
    unfolding encode_block dedup_symbols
    encoder-encode_block count fuel fuel' n set on small enough enough' =
        let ss = dedup_symbols step hash_symbol set in
        let fewer = length-dedup [] set in
        let (q, new, ready) = encoder-Ready step hash_symbol set in
        let long : length ss ≡ length (map mapping ss) = ready.long in
        let (cs, run, sweeps) =
          produces count fuel n ss (map mapping ss) q 0 on (omega arith) (omega arith) ready in
        let (o, block) =
          encode_block_total step hash_symbol fuel' n 0 count (distinct set) on (omega arith)
            (omega arith) in
        let onto : encode_onto step fuel' 0 ss (replicate count (default n)) ≡ some o =
          rw (rehash [] set) at block in
        let swept = encode_onto-Sweeps step fuel' 0 ss (replicate count (default n)) o onto in
        let end : 0 + length (replicate count (default n)) ≡ count + 0 =
          omega (arith, length-replicate count (default n)) in
        let same : o ≡ cs =
          Sweeps-unique step add 0 (count + 0) ss (map mapping ss) (replicate count (default n)) o
            cs
            (subst
              (λ (t : ℕ). Sweeps step 0 t add ss (map mapping ss) (replicate count (default n)) o)
              end swept)
            sweeps in
        (window ss (map mapping ss) q 0, cs, new, run, block ∙ ap some same)
