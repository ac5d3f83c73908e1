-- ===== src/Recon/Sequence.antt =====
-- The answers of `stream_scope` of crates/datboi-p2p/src/recon.rs.
use datboi.Base.{
  ℕ, zero, suc, ◌+◌, ◌-◌, ◌*◌, ◌≤◌, ◌<◌, min, List, [], ◌∷◌, Option, none, some, length, ltb, ◌&&◌,
  not, Bool, true, false, Bool-cases, inl, inr, ◌≡◌, ◌⊎◌, refl, sym, ap, ◌∙◌, arith,
}
use mathlib.Core.List.{Permᴰ}
use datboi.Riblt.Defs.{CodedSymbol, encode_block}
use datboi.Riblt.Ending.{MovesOn, encode_block_total}
use datboi.Recon.Stream.{
  stream_blocks, block_bytes, max_symbols, max_block, first_block, stream_scope, with_size,
}
use datboi.Recon.Envelope.{Response, accepted, Scope, frame_len, encode}
use datboi.Recon.Parts.{reach, ended, concat, continues, from_first}

module _ (step : ℕ → ℕ → ℕ) (hash_symbol : List ℕ → ℕ) (fuel : ℕ)
    (visit : ℕ → Option (List (List ℕ))) (stopped taken : ℕ → Bool) (set : List (List ℕ)) where
  -- A stream that nothing stops comes to the cap.
  drains :
      (rounds r sent b : ℕ)
      → MovesOn step
      → 2 * max_symbols + 2 ≤ fuel
      → ((r : ℕ) → (seen : List (List ℕ)) × (visit r ≡ some seen))
      → ((r : ℕ) → stopped r ≡ false)
      → ((r : ℕ) → taken r ≡ true)
      → 0 < b
      → sent ≤ max_symbols
      → max_symbols ≤ sent + reach rounds b
      → (ms : List (List ℕ)) × (stream_blocks step hash_symbol fuel visit stopped taken
            (suc rounds)
            r
            sent
            b
          ≡ some (record { messages = ms; sent = some max_symbols }))
  unfolding stream_blocks
  drains zero r sent b on enough visits runs takes b_pos low far =
      let here : sent ≡ max_symbols = omega arith in
      let done : (ltb sent max_symbols && not (stopped r)) ≡ false = ground arith in
      ([], rw (done, stream_blocks) (ap ended here))
  drains (suc rounds) r sent b on enough visits runs takes b_pos low far =
      elim (Bool-cases (ltb sent max_symbols)) [
        | inl before ↦
            let going = runs r in
            let more : (ltb sent max_symbols && not (stopped r)) ≡ true = rw (before, going) refl in
            let (seen, f) = visits r in
            let len = min b (max_symbols - sent) in
            let (block, e) =
              encode_block_total step hash_symbol fuel 32 sent len seen on (omega arith)
                (omega arith) in
            let (ms, rest) =
              drains rounds (suc r) (sent + len) (min (b * 2) max_block) on enough visits runs takes
                (omega arith) (omega arith) (omega arith) in
            (block_bytes block ∷ ms, rw (more, f, e, takes r, rest, stream_blocks) refl)
        | inr f ↦
            let here : sent ≡ max_symbols = ground arith in
            let done : (ltb sent max_symbols && not (stopped r)) ≡ false = rw f refl in
            ([], rw (done, stream_blocks) (ap ended here))
      ]

answered :
    (size n : ℕ) (a : Option ℕ)
    → (a ≡ some n) ⊎ (a ≡ none)
    → (with_size size a ≡ some (size, n)) ⊎ (with_size size a ≡ none)
answered size n a (inl e) = inl (ap (with_size size) e)
answered size n a (inr e) = inr (ap (with_size size) e)

module _ (step : ℕ → ℕ → ℕ) (hash_symbol : List ℕ → ℕ) (to_stdvec : Response → List ℕ) where
  -- With steps that move on, fuel for two rounds for each index below `MAX_SYMBOLS` and two more,
  -- and passes that each visit the set, in any order, or fail: if the header can be encoded and
  -- is taken, the answer to a request is the header and then, within sixteen rounds of the loop,
  -- the bytes of the coded symbols of the set from the first on, as one block has them, at most
  -- `MAX_SYMBOLS`, whatever stops it; it answers with the set size given and their number, or
  -- with an error.
  pub stream_scope-encode_block :
      (fuel : ℕ) (visit : ℕ → Option (List (List ℕ))) (stopped taken : ℕ → Bool)
      (set : List (List ℕ)) (scope : Scope) (size : ℕ) (header : List ℕ)
      → MovesOn step
      → 2 * max_symbols + 2 ≤ fuel
      → ((r : ℕ) (seen : List (List ℕ)) → visit r ≡ some seen → Permᴰ seen set)
      → encode to_stdvec (accepted size (frame_len scope)) ≡ some header
      → (bodies : List (List ℕ)) × (answer : Option (ℕ × ℕ)) × (cs : List CodedSymbol)
        × (stream_scope step hash_symbol fuel visit stopped taken to_stdvec scope 16
              (some size)
              true
            ≡ some (header ∷ bodies, answer))
        × (concat bodies ≡ block_bytes cs)
        × (encode_block step hash_symbol fuel 32 0 (length cs) set ≡ some cs)
        × (length cs ≤ max_symbols)
        × ((answer ≡ some (size, length cs)) ⊎ (answer ≡ none))
  unfolding stream_scope
  stream_scope-encode_block fuel visit stopped taken set scope size header on enough same named =
      let (s, run, k) =
        continues step hash_symbol fuel visit stopped taken set 15 0 0 first_block on enough same
          (omega arith) (omega arith) (omega arith) in
      let capped = k.capped in
      let (block, whole) = from_first step hash_symbol fuel visit stopped taken set s on enough k in
      (
        s.messages,
        with_size size s.sent,
        k.cs,
        rw (named, run, stream_scope) refl,
        k.bytes,
        block,
        omega arith,
        answered size (length k.cs) s.sent (either whole k.answer),
      )
    where
      either :
          {n e : ℕ} {a : Option ℕ} → n ≡ e → (a ≡ some e) ⊎ (a ≡ none) → (a ≡ some n) ⊎ (a ≡ none)
      either w (inl k) = inl (k ∙ ap some (sym w))
      either w (inr k) = inr k

  -- With steps that move on, fuel for two rounds for each index below `MAX_SYMBOLS` and two more,
  -- and a header that can be encoded: a stream that nothing stops, whose messages are all taken
  -- and none of whose passes fails comes to `MAX_SYMBOLS` coded symbols.
  pub stream_scope_drained :
      (fuel : ℕ) (visit : ℕ → Option (List (List ℕ))) (stopped taken : ℕ → Bool) (scope : Scope)
      (size : ℕ) (header : List ℕ)
      → MovesOn step
      → 2 * max_symbols + 2 ≤ fuel
      → ((r : ℕ) → (seen : List (List ℕ)) × (visit r ≡ some seen))
      → ((r : ℕ) → stopped r ≡ false)
      → ((r : ℕ) → taken r ≡ true)
      → encode to_stdvec (accepted size (frame_len scope)) ≡ some header
      → (bodies : List (List ℕ)) × (stream_scope step hash_symbol fuel visit stopped taken to_stdvec
            scope 16
            (some size)
            true
          ≡ some (header ∷ bodies, some (size, max_symbols)))
  unfolding stream_scope
  stream_scope_drained fuel visit stopped taken scope size header on enough visits runs takes
        named =
      let (bodies, run) =
        drains step hash_symbol fuel visit stopped taken [] 15 0 0 first_block on enough visits runs
          takes (omega arith) (omega arith) (omega arith) in
      (bodies, rw (named, run, stream_scope) refl)
