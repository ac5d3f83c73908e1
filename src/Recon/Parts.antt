-- ===== src/Recon/Parts.antt =====
-- The parts of one sequence of coded symbols that the loop of `stream_scope` in
-- crates/datboi-p2p/src/recon.rs sends.
use datboi.Base.{
  ℕ, zero, suc, ◌+◌, ◌-◌, ◌*◌, ◌≤◌, ◌<◌, min, List, [], ◌∷◌, ◌++◌, map, append_assoc, Option, none,
  some, length, replicate, length-replicate, length-append, ltb, ◌&&◌, not, Bool, false, Bool-cases,
  Option-cases, inl, inr, ◌≡◌, ◌⊎◌, refl, sym, ap, ◌∙◌, subst, arith,
}
use mathlib.Core.List.{Permᴰ}
use datboi.Riblt.Defs.{
  CodedSymbol, HashedSymbol, add, default, mapping, hash_all, encode_block, to_bytes,
}
use datboi.Riblt.Peeling.{encode_block_perm}
use datboi.Riblt.Ending.{MovesOn, encode_block_total}
use datboi.Riblt.Sweeps.{Sweeps, Sweeps-unique, length-Sweeps, Sweeps-join, encode_onto-Sweeps}
use datboi.Recon.Stream.{
  Streamed, stream_blocks, block_bytes, max_symbols, max_block, first_block, message_before,
}

-- How far blocks from the length `b` on come in so many rounds.
abbrev pub reach : ℕ → ℕ → ℕ
reach zero b = 0
reach (suc n) b = b + reach n (min (b * 2) max_block)

abbrev pub ended : ℕ → Option Streamed
ended n = some (record { messages = []; sent = some n })

-- Fifteen blocks are enough.
full_reach : max_symbols ≤ reach 15 first_block
full_reach = omega arith

abbrev pub concat : List (List ℕ) → List ℕ
concat [] = []
concat (m ∷ ms) = m ++ concat ms

block_bytes-append :
    (xs ys : List CodedSymbol) → block_bytes (xs ++ ys) ≡ block_bytes xs ++ block_bytes ys
unfolding block_bytes
block_bytes-append [] ys = refl
block_bytes-append (x ∷ xs) ys =
    ap (λ t. to_bytes x ++ t) (block_bytes-append xs ys)
    ∙ sym (append_assoc (to_bytes x) (block_bytes xs) (block_bytes ys))

replicate-append :
    {A : Type 0} (m n : ℕ) (a : A) → replicate m a ++ replicate n a ≡ replicate (m + n) a
replicate-append zero n a = let z : 0 + n ≡ n = omega arith in rw z refl
replicate-append (suc m) n a =
    let s : suc m + n ≡ suc (m + n) = omega arith in rw s (ap (λ t. a ∷ t) (replicate-append m n a))

module _ (step : ℕ → ℕ → ℕ) (hash_symbol : List ℕ → ℕ) (fuel : ℕ)
    (visit : ℕ → Option (List (List ℕ))) (stopped taken : ℕ → Bool) (set : List (List ℕ)) where
  abbrev pub hashes : List HashedSymbol
  hashes = hash_all step hash_symbol set

  -- A part of the sequence of the set, of the indices [start, end).
  abbrev pub Part : ℕ → ℕ → List CodedSymbol → Type 0
  Part start end cs =
      Sweeps step start end add hashes (map mapping hashes) (replicate (length cs) (default 32)) cs

  pub own_block :
      (start len : ℕ) (cs : List CodedSymbol)
      → encode_block step hash_symbol fuel 32 start len set ≡ some cs
      → (length cs ≡ len) × Part start (start + len) cs
  unfolding encode_block
  own_block start len cs e =
      let blank = replicate len (default 32) in
      let long = length-replicate len (default 32) in
      let sweep = encode_onto-Sweeps step fuel start hashes blank cs e in
      let same : length cs ≡ len =
        length-Sweeps step add start (start + length blank) hashes (map mapping hashes) blank cs
          sweep
        ∙ long in
      (same, rw same (rw long at sweep))

  pub one_block :
      (start len : ℕ) (seen : List (List ℕ)) (cs : List CodedSymbol)
      → Permᴰ seen set
      → encode_block step hash_symbol fuel 32 start len seen ≡ some cs
      → (length cs ≡ len) × Part start (start + len) cs
  one_block start len seen cs p e =
      own_block start len cs (sym (encode_block_perm step hash_symbol fuel 32 start len p) ∙ e)

  no_more : (at : ℕ) → MovesOn step → 2 * max_symbols + 2 ≤ fuel → at ≤ max_symbols → Part at at []
  no_more at on enough low =
      let (cs, e) =
        encode_block_total step hash_symbol fuel 32 at 0 set on (omega arith) (omega arith) in
      let (none_left, part) = own_block at 0 cs e in
      let here : at + 0 ≡ at = omega arith in
      rw here at (subst (Part at (at + 0)) (empty cs none_left) part)
    where
      empty : (cs : List CodedSymbol) → length cs ≡ 0 → cs ≡ []
      empty [] e = refl
      empty (c ∷ cs) e = absurd (omega arith)

  -- What the rounds from the symbol `sent` on send.
  pub record Continues (sent : ℕ) (s : Streamed) : Type 0 where
    pub end : ℕ
    pub cs : List CodedSymbol
    pub bytes : concat s.messages ≡ block_bytes cs
    pub long : length cs + sent ≡ end
    pub capped : end ≤ max_symbols
    pub part : Part sent end cs
    pub answer : (s.sent ≡ some end) ⊎ (s.sent ≡ none)

  stops :
      (sent : ℕ) (answer : Option ℕ)
      → MovesOn step
      → 2 * max_symbols + 2 ≤ fuel
      → sent ≤ max_symbols
      → (answer ≡ some sent) ⊎ (answer ≡ none)
      → Continues sent (record { messages = []; sent = answer })
  unfolding block_bytes
  stops sent answer on enough low a = record {
    end = sent;
    cs = [];
    bytes = refl;
    long = omega arith;
    capped = low;
    answer = a;
    part = no_more sent on enough low;
  }

  goes_on :
      (sent len : ℕ) (block : List CodedSymbol) (s : Streamed)
      → (length block ≡ len) × Part sent (sent + len) block
      → sent + len ≤ max_symbols
      → Continues (sent + len) s
      → Continues sent (message_before (block_bytes block) s)
  goes_on sent len block s (long, part) h k =
      let ends = k.long in
      let capped = k.capped in
      record {
        end = k.end;
        cs = block ++ k.cs;
        bytes = ap (λ t. block_bytes block ++ t) k.bytes ∙ sym (block_bytes-append block k.cs);
        long = let a = length-append block k.cs in omega arith;
        capped = k.capped;
        answer = k.answer;
        part =
            let blanks : replicate (length block) (default 32)
                  ++ replicate (length k.cs) (default 32)
                ≡ replicate (length (block ++ k.cs)) (default 32) =
              replicate-append (length block) (length k.cs) (default 32)
              ∙ ap (λ n. replicate n (default 32)) (sym (length-append block k.cs)) in
            let size = length-replicate (length block) (default 32) in
            rw (sym blanks) (
              Sweeps-join step add sent (sent + len) k.end hashes (map mapping hashes)
                (replicate (length block) (default 32)) block (replicate (length k.cs) (default 32))
                k.cs (omega arith) (omega arith) (omega arith) part k.part);
      }

  pub continues :
      (rounds r sent b : ℕ)
      → MovesOn step
      → 2 * max_symbols + 2 ≤ fuel
      → ((r : ℕ) (seen : List (List ℕ)) → visit r ≡ some seen → Permᴰ seen set)
      → 0 < b
      → sent ≤ max_symbols
      → max_symbols ≤ sent + reach rounds b
      → (s : Streamed) × (stream_blocks step hash_symbol fuel visit stopped taken
            (suc rounds)
            r
            sent
            b
          ≡ some s)
        × Continues sent s
  unfolding stream_blocks
  continues zero r sent b on enough same b_pos low far =
      let done : (ltb sent max_symbols && not (stopped r)) ≡ false = ground arith in
      (_, rw (done, stream_blocks) refl, stops sent (some sent) on enough low (inl refl))
  continues (suc rounds) r sent b on enough same b_pos low far =
      elim (Bool-cases (ltb sent max_symbols && not (stopped r))) [
        | inl more ↦ elim (Option-cases (visit r)) [
          | inl f ↦ (_, rw (more, f, stream_blocks) refl, stops sent none on enough low (inr refl))
          | inr (seen, f) ↦
              let len = min b (max_symbols - sent) in
              let (block, e) =
                encode_block_total step hash_symbol fuel 32 sent len seen on (omega arith)
                  (omega arith) in
              let here = one_block sent len seen block (same r seen f) e in
              elim (Bool-cases (taken r)) [
                | inl t ↦
                    let (s, run, k) =
                      continues rounds (suc r) (sent + len) (min (b * 2) max_block) on enough same
                        (omega arith) (omega arith) (omega arith) in
                    (
                      _,
                      rw (more, f, e, t, run, stream_blocks) refl,
                      goes_on sent len block s here (omega arith) k,
                    )
                | inr u ↦ (
                  _,
                  rw (more, f, e, u, stream_blocks) refl,
                  stops sent (some sent) on enough low (inl refl),
                )
              ]
        ]
        | inr done ↦
            (_, rw (done, stream_blocks) refl, stops sent (some sent) on enough low (inl refl))
      ]

  -- What was sent from the first symbol on is one block.
  pub from_first :
      (s : Streamed)
      → MovesOn step
      → 2 * max_symbols + 2 ≤ fuel
      → (k : Continues 0 s)
      → (encode_block step hash_symbol fuel 32 0 (length k.cs) set ≡ some k.cs)
        × (length k.cs ≡ k.end)
  from_first s on enough k =
      let ends = k.long in
      let capped = k.capped in
      let len = length k.cs in
      let (o, e) =
        encode_block_total step hash_symbol fuel 32 0 len set on (omega arith) (omega arith) in
      let (long, part) = own_block 0 len o e in
      let stop : 0 + len ≡ k.end = omega arith in
      let same : o ≡ k.cs =
        Sweeps-unique step add 0 k.end hashes (map mapping hashes) (replicate len (default 32)) o
          k.cs (rw (long, stop) at part) k.part in
      (e ∙ ap some same, omega arith)
