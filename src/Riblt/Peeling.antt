-- ===== src/Riblt/Peeling.antt =====
-- What the block encoder of crates/datboi-p2p/src/riblt.rs promises the decoder.
use datboi.Base.{
  Bool-cases, ◌-◌, leb, get_elem?, ◌++◌, if◌then◌else◌, true, false, inl, inr, ℕ, zero, suc, ◌+◌,
  List, [], ◌∷◌, Option, none, some, length, replicate, All, ◌≡◌, refl, sym, ap, subst, ◌∙◌, arith,
}
use mathlib.Core.List.{Permᴰ}
use datboi.Riblt.Defs.{
  CodedSymbol, HashedSymbol, default, mapping, add, remove, mark, encode_onto, encode_block,
  hash_all, hashed, apply_new_symbol, apply, at_index, next_index, absorb, is_decodable, Absorbed,
  RandomMapping,
}
use datboi.Riblt.Marks.{bind, Fits, length-at_index, mark_done, mark_more}
use datboi.Riblt.Undo.{length-mark, mark-Fits, mark_undo}
use datboi.Riblt.Blocks.{one, onto, onto_swap, onto_perm, bind-bind, bind_same}

module _ (step : ℕ → ℕ → ℕ) where
  -- The first symbol may come last.
  onto_last :
      (fuel start : ℕ) (s : HashedSymbol) (ss : List HashedSymbol) (out : List CodedSymbol)
      → encode_onto step fuel start (s ∷ ss) out
        ≡ bind (encode_onto step fuel start ss out) (one step fuel start s)
  unfolding encode_onto
  onto_last fuel start s [] out = onto step fuel start s [] out ∙ same (one step fuel start s out)
    where
      same : (o : Option (List CodedSymbol)) → bind o (encode_onto step fuel start []) ≡ o
      same none = refl
      same (some x) = refl
  onto_last fuel start s (t ∷ ss) out =
      onto_swap step fuel start s t ss out
      ∙ onto step fuel start t (s ∷ ss) out
      ∙ bind_same step (one step fuel start t out) _ _ (λ x. onto_last fuel start s ss x)
      ∙ sym (
          bind-bind step (one step fuel start t out) (encode_onto step fuel start ss)
            (one step fuel start s))
      ∙ ap (λ (o : Option (List CodedSymbol)). bind o (one step fuel start s))
          (sym (onto step fuel start t ss out))

  onto-Fits :
      (fuel start : ℕ) (ss : List HashedSymbol) (out o : List CodedSymbol)
      → All Fits out
      → encode_onto step fuel start ss out ≡ some o
      → All Fits o
  unfolding encode_onto
  onto-Fits fuel start [] out o h e = subst (All Fits) (unwrap e) h
    where
      unwrap : some out ≡ some o → out ≡ o
      unwrap e = cc e
  onto-Fits fuel start (s ∷ ss) out o h e =
      go (λ x k. onto-Fits fuel start ss x o k) (one step fuel start s out) refl
        (sym (onto step fuel start s ss out) ∙ e)
    where
      go :
          ((x : List CodedSymbol)
            → All Fits x
            → encode_onto step fuel start ss x ≡ some o
            → All Fits o)
          → (r : Option (List CodedSymbol)) → one step fuel start s out ≡ r
          → bind r (encode_onto step fuel start ss) ≡ some o
          → All Fits o
      go ih none f k = absurd (cc k)
      go ih (some x) f k =
          ih x (mark-Fits step start (start + length out) fuel s add (mapping s) out x h f) k

  default-Fits : (len n : ℕ) → All Fits (replicate len (default n))
  unfolding default
  default-Fits zero n = tt
  default-Fits (suc len) n = (omega arith, default-Fits len n)

  module _ (hash_symbol : List ℕ → ℕ) where
    pub hash_all-perm :
        {set set' : List (List ℕ)}
        → Permᴰ set set'
        → Permᴰ (hash_all step hash_symbol set) (hash_all step hash_symbol set')
    unfolding hash_all
    hash_all-perm Permᴰ.nil = Permᴰ.nil
    hash_all-perm (Permᴰ.cons e p) = Permᴰ.cons (ap (hashed step hash_symbol) e) (hash_all-perm p)
    hash_all-perm (Permᴰ.swap e f) =
        Permᴰ.swap (ap (hashed step hash_symbol) e) (ap (hashed step hash_symbol) f)
    hash_all-perm (Permᴰ.trans p q) = Permᴰ.trans (hash_all-perm p) (hash_all-perm q)

    -- `encode_block` gives the same block of coded symbols for every order of the set.
    pub encode_block_perm :
        (fuel n start len : ℕ) {set set' : List (List ℕ)}
        → Permᴰ set set'
        → encode_block step hash_symbol fuel n start len set
          ≡ encode_block step hash_symbol fuel n start len set'
    unfolding encode_block
    encode_block_perm fuel n start len p =
        onto_perm step fuel start (replicate len (default n)) (hash_all-perm p)

    -- The received symbols that `apply_new_symbol` leaves are those that the encoder's loop makes.
    absorb-mark :
        (fuel : ℕ) (t : HashedSymbol) (d end : ℕ) (m : RandomMapping) (cs : List CodedSymbol)
        (decodable : List ℕ) (out : List CodedSymbol)
        → length cs ≡ end
        → mark step fuel 0 end t d m cs ≡ some out
        → (r : Absorbed) × (absorb step hash_symbol fuel t d m cs decodable ≡ some r) × (r.cs ≡ out)
    unfolding absorb mark
    absorb-mark zero t d end m cs decodable out long e = absurd (cc e)
    absorb-mark (suc fuel) t d end m cs decodable out long e =
        elim (Bool-cases (leb end m.last_index)) [
          | inl done ↦
              let here : leb (length cs) m.last_index ≡ true = rw (sym long) at done in
              let same : some cs ≡ some out = sym (mark_done step 0 end fuel t d m cs done) ∙ e in
              (
                record { cs = cs; decodable = decodable; mapping_state = m },
                simp here refl,
                cc same,
              )
          | inr more ↦
              let here : leb (length cs) m.last_index ≡ false = rw (sym long) at more in
              let changed = at_index m.last_index (λ c. apply c t d) cs in
              let from : leb 0 m.last_index ≡ true = ground arith in
              let place : m.last_index - 0 ≡ m.last_index = omega arith in
              let whole : (if leb 0 m.last_index
                    then at_index (m.last_index - 0) (λ c. apply c t d) cs
                    else cs)
                  ≡ changed =
                rw (from, place) refl in
              let next : mark step fuel 0 end t d (next_index step m) changed ≡ some out =
                ap (λ (o : List CodedSymbol). mark step fuel 0 end t d (next_index step m) o)
                  (sym whole)
                ∙ (sym (mark_more step 0 end fuel t d m cs more) ∙ e) in
              let (r, f, g) =
                absorb-mark fuel t d end (next_index step m) changed
                  (if is_decodable step hash_symbol (get_elem? changed m.last_index)
                    then decodable ++ (m.last_index ∷ [])
                    else decodable)
                  out (length-at_index m.last_index _ cs ∙ long) next in
              (r, simp (here, f) refl, g)
        ]

    -- If the block from index 0 of a set with a symbol in front is encoded, so is the block of the set
    -- without it, and `apply_new_symbol` with REMOVE of the symbol turns the first into the second,
    -- whatever is queued as decodable.
    pub apply_new_symbol-encode_block :
        (fuel n len : ℕ) (symbol : List ℕ) (set : List (List ℕ)) (cs : List CodedSymbol)
        (decodable : List ℕ)
        → encode_block step hash_symbol fuel n 0 len (symbol ∷ set) ≡ some cs
        → (rest : List CodedSymbol) × (encode_block step hash_symbol fuel n 0 len set ≡ some rest)
          × ((r : Absorbed) × (apply_new_symbol step hash_symbol fuel
                  (hashed step hash_symbol symbol)
                  remove
                  cs
                  decodable
                ≡ some r)
              × (r.cs ≡ rest))
    unfolding encode_block hash_all apply_new_symbol
    apply_new_symbol-encode_block fuel n len symbol set cs decodable e =
        go (encode_onto step fuel 0 (hash_all step hash_symbol set) (replicate len (default n)))
          refl
          (sym (
              onto_last fuel 0 (hashed step hash_symbol symbol) (hash_all step hash_symbol set)
                (replicate len (default n)))
            ∙ e)
      where
        go :
            (r : Option (List CodedSymbol))
            → encode_onto step fuel 0 (hash_all step hash_symbol set) (replicate len (default n))
              ≡ r
            → bind r (one step fuel 0 (hashed step hash_symbol symbol)) ≡ some cs
            → (rest : List CodedSymbol) × (encode_onto step fuel 0
                  (hash_all step hash_symbol set)
                  (replicate len (default n))
                ≡ some rest)
              × ((q : Absorbed) × (absorb step hash_symbol fuel
                      (hashed step hash_symbol symbol)
                      remove
                      (mapping (hashed step hash_symbol symbol))
                      cs
                      decodable
                    ≡ some q)
                  × (q.cs ≡ rest))
        go none f k = absurd (cc k)
        go (some x) f k =
            let s = hashed step hash_symbol symbol in
            let fits =
              onto-Fits fuel 0 (hash_all step hash_symbol set) (replicate len (default n)) x
                (default-Fits len n) f in
            let long = length-mark step 0 (0 + length x) fuel s add (mapping s) x cs k in
            let undone = mark_undo step 0 (0 + length x) fuel s (mapping s) x cs fits k in
            (
              x,
              f,
              absorb-mark fuel s remove (0 + length x) (mapping s) cs decodable x
                  (omega (arith, long)) undone,
            )
