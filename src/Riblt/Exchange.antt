-- ===== src/Riblt/Exchange.antt =====
-- Runs in crates/datboi-p2p/src/riblt.rs in another order, and `apply_new_symbol` as a run.
use datboi.Base.{
  ℕ, zero, suc, ◌-◌, ◌≤◌, ◌<◌, List, [], ◌∷◌, ◌++◌, some, length, leb, Bool-cases, inl, inr, ◌≡◌,
  refl, subst, arith,
}
use datboi.Riblt.Defs.{
  CodedSymbol, HashedSymbol, RandomMapping, apply, next_index, absorb, Absorbed,
}
use datboi.Riblt.Marks.{touch, length-at_index}
use datboi.Riblt.Runs.{Runs, done, miss, hit, Runs-untouch}
use datboi.Riblt.Sweeps.{Sweeps, nil, cons}

module _ (step : ℕ → ℕ → ℕ) where
  -- Two runs of a block in the other order.
  Runs-exchange :
      (start end : ℕ) (s t : HashedSymbol) (d e : ℕ) (m n : RandomMapping)
      (out mid o : List CodedSymbol)
      → Runs step start end s d m out mid
      → Runs step start end t e n mid o
      → (x : List CodedSymbol) × Runs step start end t e n out x × Runs step start end s d m x o
  Runs-exchange start end s t d e m n out mid o (done h) q = (o, q, done h)
  Runs-exchange start end s t d e m n out mid o (miss h k r) q =
      let (x, a, b) = Runs-exchange start end s t d e (next_index step m) n out mid o r q in
      (x, a, miss h k b)
  Runs-exchange start end s t d e m n out mid o (hit h k r) q =
      let i = m.last_index - start in
      let (y, a, b) =
        Runs-exchange start end s t d e (next_index step m) n (touch i s d out) mid o r q in
      let (x, a', same) = Runs-untouch step t e start end i s d n _ out y a refl in
      (
        x,
        a',
        hit h k (
            subst (λ (z : List CodedSymbol). Runs step start end s d (next_index step m) z o) same
              b),
      )

  pub Sweeps-exchange :
      (start end : ℕ) (t : HashedSymbol) (d e : ℕ) (n : RandomMapping) (ss : List HashedSymbol)
      (ms : List RandomMapping) (out mid o : List CodedSymbol)
      → Sweeps step start end d ss ms out mid
      → Runs step start end t e n mid o
      → (x : List CodedSymbol) × Runs step start end t e n out x × Sweeps step start end d ss ms x o
  Sweeps-exchange start end t d e n [] [] out mid o nil q = (o, q, nil)
  Sweeps-exchange start end t d e n [] (m ∷ ms) out mid o p q = elim p [ ]
  Sweeps-exchange start end t d e n (s ∷ ss) [] out mid o p q = elim p [ ]
  Sweeps-exchange start end t d e n (s ∷ ss) (m ∷ ms) out mid o (cons {mid = y} r p) q =
      let (x, a, b) = Sweeps-exchange start end t d e n ss ms y mid o p q in
      let (z, a', r') = Runs-exchange start end s t d e m n out y x r a in (z, a', cons r' b)

  -- One symbol more.
  pub Sweeps-snoc :
      (start end : ℕ) (t : HashedSymbol) (d : ℕ) (n : RandomMapping) (ss : List HashedSymbol)
      (ms : List RandomMapping) (out mid o : List CodedSymbol)
      → Sweeps step start end d ss ms out mid
      → Runs step start end t d n mid o
      → Sweeps step start end d (ss ++ (t ∷ [])) (ms ++ (n ∷ [])) out o
  Sweeps-snoc start end t d n [] [] out mid o nil q = cons q nil
  Sweeps-snoc start end t d n [] (m ∷ ms) out mid o p q = elim p [ ]
  Sweeps-snoc start end t d n (s ∷ ss) [] out mid o p q = elim p [ ]
  Sweeps-snoc start end t d n (s ∷ ss) (m ∷ ms) out mid o (cons {mid = y} r p) q =
      cons r (Sweeps-snoc start end t d n ss ms y mid o p q)

  pub Sweeps-unsnoc :
      (start end : ℕ) (t : HashedSymbol) (d : ℕ) (n : RandomMapping) (ss : List HashedSymbol)
      (ms : List RandomMapping) (out o : List CodedSymbol)
      → length ss ≡ length ms
      → Sweeps step start end d (ss ++ (t ∷ [])) (ms ++ (n ∷ [])) out o
      → (mid : List CodedSymbol) × Sweeps step start end d ss ms out mid
        × Runs step start end t d n mid o
  Sweeps-unsnoc start end t d n [] [] out o e (cons r nil) = (out, nil, r)
  Sweeps-unsnoc start end t d n [] (m ∷ ms) out o e p = absurd (omega arith)
  Sweeps-unsnoc start end t d n (s ∷ ss) [] out o e p = absurd (omega arith)
  Sweeps-unsnoc start end t d n (s ∷ ss) (m ∷ ms) out o e (cons {mid = y} r p) =
      let (mid, a, b) = Sweeps-unsnoc start end t d n ss ms y o (omega arith) p in
      (mid, cons r a, b)

  -- What `apply_new_symbol` does to the received symbols is a run, and the mapping that it returns goes
  -- on behind them.
  pub record Absorbs (t : HashedSymbol) (d : ℕ) (m : RandomMapping) (cs : List CodedSymbol)
      (a : Absorbed) : Type 0 where
    pub run : Runs step 0 (length cs) t d m cs a.cs
    pub past : length cs ≤ a.mapping_state.last_index
    pub behind :
        (start end : ℕ) (out o : List CodedSymbol)
        → length cs ≤ start
        → start ≤ end
        → Runs step start end t d a.mapping_state out o
        → Runs step start end t d m out o

  module _ (hash_symbol : List ℕ → ℕ) where
    pub absorb-Absorbs :
        (fuel : ℕ) (t : HashedSymbol) (d : ℕ) (m : RandomMapping) (cs : List CodedSymbol)
        (decodable : List ℕ) (a : Absorbed)
        → absorb step hash_symbol fuel t d m cs decodable ≡ some a
        → Absorbs t d m cs a
    unfolding absorb
    absorb-Absorbs zero t d m cs decodable a e = absurd (cc e)
    absorb-Absorbs (suc fuel) t d m cs decodable a e =
        elim (Bool-cases (leb (length cs) m.last_index)) [
          | inl over ↦
              let same : some (record { cs = cs; decodable = decodable; mapping_state = m })
                  ≡ some a =
                simp over at e in
              let is_a : record { cs = cs; decodable = decodable; mapping_state = m } ≡ a =
                cc same in
              subst (Absorbs t d m cs) is_a (record {
                run = done (ground arith);
                past = ground arith;
                behind = λ start end out o h l r. r;
              })
          | inr more ↦
              let changed = touch m.last_index t d cs in
              let size = length-at_index m.last_index (λ c. apply c t d) cs in
              let before : m.last_index < length cs = ground arith in
              let next = absorb-Absorbs fuel t d (next_index step m) changed _ a (simp more at e) in
              let first : m.last_index - 0 ≡ m.last_index = omega arith in
              record {
                run = hit before (omega arith) (rw first (rw size at next.run));
                past = let p = next.past in omega arith;
                behind = λ start end out o h l r.
                    miss (omega arith) (omega arith)
                      (next.behind start end out o (omega arith) l r);
              }
        ]
