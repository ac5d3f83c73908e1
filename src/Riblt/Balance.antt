-- ===== src/Riblt/Balance.antt =====
-- What the recovered symbols say of the coded symbols that the decoder of crates/datboi-p2p/src/riblt.rs
-- received, when nothing is left of them.
use datboi.Base.{
  ℕ, zero, suc, ◌+◌, ◌-◌, ◌*◌, ◌%◌, ◌^◌, ◌≤◌, ◌<◌, List, [], ◌∷◌, ◌++◌, map, some, length, All,
  IsU64, ◌≡◌, refl, ap, subst, ◌∙◌, arith,
}
use datboi.Base.Xor.{bit_xor_undo}
use datboi.Riblt.Defs.{
  CodedSymbol, HashedSymbol, RandomMapping, add, remove, apply, at_index, next_index, mapping,
  encode_onto,
}
use datboi.Riblt.Sums.{xor_undo}
use datboi.Riblt.Marks.{Fits, touch, touch-Fits}
use datboi.Riblt.Runs.{Runs, done, miss, hit, Runs-touch}
use datboi.Riblt.Sweeps.{Sweeps, nil, cons, Sweeps-unique, length-Sweeps, encode_onto-Sweeps}
use datboi.Riblt.Exchange.{Sweeps-exchange}
use datboi.Riblt.Ending.{MovesOn, onto_total}
use datboi.Riblt.Decoder.{Decoder}
use datboi.Riblt.Conserved.{Conserved}

apply_redo :
    (c : CodedSymbol) (s : HashedSymbol) → IsU64 c.count → apply (apply c s remove) s add ≡ c
unfolding apply
apply_redo c s h =
    let counts : ((c.count + remove) % 2 ^ 64 + add) % 2 ^ 64 ≡ c.count = omega arith in
    rw (xor_undo c.symbol s.symbol, bit_xor_undo c.hash s.hash, counts) refl

touch_redo :
    (i : ℕ) (s : HashedSymbol) (out : List CodedSymbol)
    → All Fits out
    → touch i s add (touch i s remove out) ≡ out
unfolding at_index
touch_redo i s [] h = refl
touch_redo zero s (c ∷ cs) h = rw (apply_redo c s h.0) refl
touch_redo (suc i) s (c ∷ cs) h = rw (touch_redo i s cs h.1) refl

module _ (step : ℕ → ℕ → ℕ) where
  module _ (start end : ℕ) where
    Runs-Fits :
        (s : HashedSymbol) (d : ℕ) (m : RandomMapping) (out o : List CodedSymbol)
        → Runs step start end s d m out o
        → All Fits out
        → All Fits o
    Runs-Fits s d m out o (done h) f = f
    Runs-Fits s d m out o (miss h k r) f = Runs-Fits s d (next_index step m) out o r f
    Runs-Fits s d m out o (hit h k r) f =
        Runs-Fits s d (next_index step m) _ o r (touch-Fits (m.last_index - start) s d out f)

    -- The run that adds a symbol undoes the one that removed it.
    Runs-redo :
        (s : HashedSymbol) (m : RandomMapping) (out o : List CodedSymbol)
        → Runs step start end s remove m out o
        → All Fits out
        → Runs step start end s add m o out
    Runs-redo s m out o (done h) f = done h
    Runs-redo s m out o (miss h k r) f = miss h k (Runs-redo s (next_index step m) out o r f)
    Runs-redo s m out o (hit h k r) f =
        let i = m.last_index - start in
        let back = Runs-redo s (next_index step m) _ o r (touch-Fits i s remove out f) in
        hit h k (
          subst
            (λ (x : List CodedSymbol).
              Runs step start end s add (next_index step m) (touch i s add o) x)
            (touch_redo i s out f)
            (Runs-touch step s add start end i s add (next_index step m) o _ back))

    Sweeps-Fits :
        (d : ℕ) (ss : List HashedSymbol) (ms : List RandomMapping) (out o : List CodedSymbol)
        → Sweeps step start end d ss ms out o
        → All Fits out
        → All Fits o
    Sweeps-Fits d [] [] out o nil f = f
    Sweeps-Fits d [] (m ∷ ms) out o p f = elim p [ ]
    Sweeps-Fits d (s ∷ ss) [] out o p f = elim p [ ]
    Sweeps-Fits d (s ∷ ss) (m ∷ ms) out o (cons {mid = x} r p) f =
        Sweeps-Fits d ss ms x o p (Runs-Fits s d m out x r f)

    Sweeps-redo :
        (ss : List HashedSymbol) (ms : List RandomMapping) (out o : List CodedSymbol)
        → Sweeps step start end remove ss ms out o
        → All Fits out
        → Sweeps step start end add ss ms o out
    Sweeps-redo [] [] out o nil f = nil
    Sweeps-redo [] (m ∷ ms) out o p f = elim p [ ]
    Sweeps-redo (s ∷ ss) [] out o p f = elim p [ ]
    Sweeps-redo (s ∷ ss) (m ∷ ms) out o (cons {mid = x} r p) f =
        let others = Sweeps-redo ss ms x o p (Runs-Fits s remove m out x r f) in
        let (y, a, b) =
          Sweeps-exchange step start end s add add m ss ms o x out others
            (Runs-redo s m out x r f) in
        cons a b

    -- Two sets, one after the other.
    Sweeps-append :
        (ss ts : List HashedSymbol) (out mid o : List CodedSymbol)
        → Sweeps step start end add ss (map mapping ss) out mid
        → Sweeps step start end add ts (map mapping ts) mid o
        → Sweeps step start end add (ss ++ ts) (map mapping (ss ++ ts)) out o
    Sweeps-append [] ts out mid o nil q = q
    Sweeps-append (s ∷ ss) ts out mid o (cons {mid = x} r p) q =
        cons r (Sweeps-append ss ts x mid o p q)

    -- Two sets in the other order.
    Sweeps-comm :
        (ss ts : List HashedSymbol) (ms ns : List RandomMapping) (out mid o : List CodedSymbol)
        → Sweeps step start end add ss ms out mid
        → Sweeps step start end add ts ns mid o
        → (x : List CodedSymbol) × Sweeps step start end add ts ns out x
          × Sweeps step start end add ss ms x o
    Sweeps-comm ss [] ms [] out mid o p nil = (out, nil, p)
    Sweeps-comm ss [] ms (n ∷ ns) out mid o p q = elim q [ ]
    Sweeps-comm ss (t ∷ ts) ms [] out mid o p q = elim q [ ]
    Sweeps-comm ss (t ∷ ts) ms (n ∷ ns) out mid o p (cons {mid = y} r q) =
        let (z, a, b) = Sweeps-exchange step start end t add add n ss ms out mid y p r in
        let (x, c, d) = Sweeps-comm ss ts ms ns z y o b q in (x, cons a c, d)

  -- Coded symbols that are left, with the symbols that were taken away, are the received ones with
  -- the symbols that were added.
  balance :
      (fuel k : ℕ) (prior remote local : List HashedSymbol)
      (recv others missing left : List CodedSymbol)
      → MovesOn step
      → k < 2 ^ 64
      → 2 * k + 2 ≤ fuel
      → length recv ≡ k
      → All Fits recv
      → Sweeps step 0 k remove prior (map mapping prior) recv others
      → Sweeps step 0 k remove remote (map mapping remote) others missing
      → Sweeps step 0 k add local (map mapping local) missing left
      → (sum : List CodedSymbol) × (encode_onto step fuel 0 local recv ≡ some sum)
        × (encode_onto step fuel 0 (remote ++ prior) left ≡ some sum)
  balance fuel k prior remote local recv others missing left on small enough long f p q r =
      let long₁ = length-Sweeps step remove 0 k prior (map mapping prior) recv others p in
      let long₂ = length-Sweeps step remove 0 k remote (map mapping remote) others missing q in
      let long₃ = length-Sweeps step add 0 k local (map mapping local) missing left r in
      let left_long : length left ≡ k = long₃ ∙ long₂ ∙ long₁ ∙ long in
      let f' = Sweeps-Fits 0 k remove prior (map mapping prior) recv others p f in
      let back =
        Sweeps-append 0 k remote prior missing others recv
          (Sweeps-redo 0 k remote (map mapping remote) others missing q f')
          (Sweeps-redo 0 k prior (map mapping prior) recv others p f) in
      let (sum, e) = onto_total step fuel 0 local recv on (omega arith) (omega arith) in
      let (sum', e') =
        onto_total step fuel 0 (remote ++ prior) left on (omega arith) (omega arith) in
      let recv_end : 0 + length recv ≡ k = omega arith in
      let left_end : 0 + length left ≡ k = omega arith in
      let added = rw recv_end at (encode_onto-Sweeps step fuel 0 local recv sum e) in
      let added' = rw left_end at (encode_onto-Sweeps step fuel 0 (remote ++ prior) left sum' e') in
      let (x, a, b) =
        Sweeps-comm 0 k (remote ++ prior) local (map mapping (remote ++ prior)) (map mapping local)
          missing recv sum back added in
      let is_left = Sweeps-unique step add 0 k local (map mapping local) missing x left a r in
      let same =
        Sweeps-unique step add 0 k (remote ++ prior) (map mapping (remote ++ prior)) left sum' sum
          added'
          (subst
            (λ (t : List CodedSymbol).
              Sweeps step 0 k add (remote ++ prior) (map mapping (remote ++ prior)) t sum)
            is_left b) in
      (sum, e, e' ∙ ap some same)

  pub Conserved-balance :
      (hash_symbol : List ℕ → ℕ) (fuel : ℕ) (prior : List (List ℕ)) (recv : List CodedSymbol)
      (d : Decoder)
      → MovesOn step
      → length recv < 2 ^ 64
      → 2 * length recv + 2 ≤ fuel
      → All Fits recv
      → Conserved step hash_symbol prior recv d
      → (sum : List CodedSymbol) × (encode_onto step fuel 0 d.local.symbols recv ≡ some sum)
        × (encode_onto step fuel 0 (d.remote.symbols ++ d.window.symbols) d.cs ≡ some sum)
  Conserved-balance hash_symbol fuel prior recv d on small enough f c =
      let long = c.long in
      balance fuel (length d.cs) d.window.symbols d.remote.symbols d.local.symbols recv c.others
        c.missing d.cs on (omega arith) (omega arith) long f c.without_prior c.without_remote
        c.with_local
