-- ===== src/Riblt/Sweeps.antt =====
-- The coded symbols that a set of symbols makes in crates/datboi-p2p/src/riblt.rs, as a relation: every
-- symbol's run over a block, each from the state that its mapping is in.
use datboi.Base.{
  ℕ, zero, suc, ◌+◌, ◌-◌, ◌^◌, ◌≤◌, ◌<◌, List, [], ◌∷◌, ◌++◌, map, Option, none, some, length,
  get_elem?, All, ◌≡◌, refl, sym, subst, ◌∙◌, arith,
}
use datboi.Riblt.Defs.{
  CodedSymbol, HashedSymbol, RandomMapping, add, at_index, next_index, mapping, encode_onto,
}
use datboi.Riblt.Marks.{touch, bind}
use datboi.Riblt.Runs.{
  Runs, done, miss, hit, mark-Runs, Runs-unique, length-Runs, Runs-join, Runs-untouch,
}
use datboi.Riblt.Blocks.{one, onto}

module _ (step : ℕ → ℕ → ℕ) where
  pub data Sweeps (start end d : ℕ)
      : List HashedSymbol → List RandomMapping → List CodedSymbol → List CodedSymbol → Type 0 where
    nil : {out : List CodedSymbol} → Sweeps start end d [] [] out out
    cons :
        {s : HashedSymbol} {m : RandomMapping} {ss : List HashedSymbol} {ms : List RandomMapping}
        {out mid o : List CodedSymbol}
        → Runs step start end s d m out mid
        → Sweeps start end d ss ms mid o
        → Sweeps start end d (s ∷ ss) (m ∷ ms) out o

  module _ (d : ℕ) where
    pub Sweeps-unique :
        (start end : ℕ) (ss : List HashedSymbol) (ms : List RandomMapping)
        (out o o' : List CodedSymbol)
        → Sweeps start end d ss ms out o
        → Sweeps start end d ss ms out o'
        → o ≡ o'
    Sweeps-unique start end [] [] out o o' nil nil = refl
    Sweeps-unique start end [] (m ∷ ms) out o o' p q = elim p [ ]
    Sweeps-unique start end (s ∷ ss) [] out o o' p q = elim p [ ]
    Sweeps-unique start end (s ∷ ss) (m ∷ ms) out o o' (cons {mid = x} r p) (cons {mid = y} r' p') =
        Sweeps-unique start end ss ms x o o' p (
          subst (λ (t : List CodedSymbol). Sweeps start end d ss ms t o')
            (sym (Runs-unique step s d start end m out x y r r')) p')

    pub length-Sweeps :
        (start end : ℕ) (ss : List HashedSymbol) (ms : List RandomMapping)
        (out o : List CodedSymbol)
        → Sweeps start end d ss ms out o
        → length o ≡ length out
    length-Sweeps start end [] [] out o nil = refl
    length-Sweeps start end [] (m ∷ ms) out o p = elim p [ ]
    length-Sweeps start end (s ∷ ss) [] out o p = elim p [ ]
    length-Sweeps start end (s ∷ ss) (m ∷ ms) out o (cons {mid = x} r p) =
        length-Sweeps start end ss ms x o p ∙ length-Runs step s d start end m out x r

    pub Sweeps-join :
        (start mid end : ℕ) (ss : List HashedSymbol) (ms : List RandomMapping)
        (xs xs' ys ys' : List CodedSymbol)
        → length xs + start ≡ mid
        → mid ≤ end
        → end ≤ 2 ^ 64
        → Sweeps start mid d ss ms xs xs'
        → Sweeps mid end d ss ms ys ys'
        → Sweeps start end d ss ms (xs ++ ys) (xs' ++ ys')
    Sweeps-join start mid end [] [] xs xs' ys ys' a b c nil nil = nil
    Sweeps-join start mid end [] (m ∷ ms) xs xs' ys ys' a b c p q = elim p [ ]
    Sweeps-join start mid end (s ∷ ss) [] xs xs' ys ys' a b c p q = elim p [ ]
    Sweeps-join start mid end (s ∷ ss) (m ∷ ms) xs xs' ys ys' a b c (cons {mid = x} r p)
          (cons {mid = y} r' p') =
        let long = length-Runs step s d start mid m xs x r in
        cons (Runs-join step s d start mid end m xs x ys y a b c r r')
          (Sweeps-join start mid end ss ms x xs' y ys' (omega arith) b c p p')

    -- One symbol's entry in the block [start, end) may be made first.
    pub Sweeps-hit :
        (start end src : ℕ) (s : HashedSymbol) (m : RandomMapping) (ss : List HashedSymbol)
        (ms : List RandomMapping) (out o : List CodedSymbol)
        → get_elem? ss src ≡ some s
        → get_elem? ms src ≡ some m
        → m.last_index < end
        → start ≤ m.last_index
        → Sweeps start end d ss
            (at_index src (next_index step) ms)
            (touch (m.last_index - start) s d out)
            o
        → Sweeps start end d ss ms out o
    unfolding at_index
    Sweeps-hit start end src s m [] ms out o f g h k p = cc f
    Sweeps-hit start end src s m (s₀ ∷ ss) [] out o f g h k p = cc g
    Sweeps-hit start end zero s m (s₀ ∷ ss) (m₀ ∷ ms) out o f g h k (cons {mid = x} r p) =
        let is_s : s₀ ≡ s = cc f in let is_m : m₀ ≡ m = cc g in cons (first is_s is_m r) p
      where
        first :
            s₀ ≡ s
            → m₀ ≡ m
            → Runs step start end s₀ d (next_index step m₀) (touch (m.last_index - start) s d out) x
            → Runs step start end s₀ d m₀ out x
        first e e' r = rw (e, e') (hit h k (rw (e, e') at r))
    Sweeps-hit start end (suc src) s m (s₀ ∷ ss) (m₀ ∷ ms) out o f g h k (cons {mid = x} r p) =
        let (y, r', e) =
          Runs-untouch step s₀ d start end (m.last_index - start) s d m₀ _ out x r refl in
        cons r' (
          Sweeps-hit start end src s m ss ms y o f g h k (
            subst
              (λ (t : List CodedSymbol).
                Sweeps start end d ss (at_index src (next_index step) ms) t o)
              e p))

    -- An index in front of the block makes no entry.
    pub Sweeps-miss :
        (start end src : ℕ) (m : RandomMapping) (ss : List HashedSymbol) (ms : List RandomMapping)
        (out o : List CodedSymbol)
        → get_elem? ms src ≡ some m
        → m.last_index < end
        → m.last_index < start
        → Sweeps start end d ss (at_index src (next_index step) ms) out o
        → Sweeps start end d ss ms out o
    unfolding at_index
    Sweeps-miss start end src m ss [] out o g h k p = absurd (cc g)
    Sweeps-miss start end src m [] (m₀ ∷ ms) out o g h k p = none_left src p
      where
        none_left :
            (src : ℕ)
            → Sweeps start end d [] (at_index src (next_index step) (m₀ ∷ ms)) out o
            → Sweeps start end d [] (m₀ ∷ ms) out o
        none_left zero p = elim p [ ]
        none_left (suc src) p = elim p [ ]
    Sweeps-miss start end zero m (s₀ ∷ ss) (m₀ ∷ ms) out o g h k (cons {mid = x} r p) =
        let is_m : m₀ ≡ m = cc g in cons (first is_m r) p
      where
        first :
            m₀ ≡ m
            → Runs step start end s₀ d (next_index step m₀) out x
            → Runs step start end s₀ d m₀ out x
        first e r = rw e (miss h k (rw e at r))
    Sweeps-miss start end (suc src) m (s₀ ∷ ss) (m₀ ∷ ms) out o g h k (cons {mid = x} r p) =
        cons r (Sweeps-miss start end src m ss ms x o g h k p)

    pub Sweeps-end :
        (start end : ℕ) (ss : List HashedSymbol) (ms : List RandomMapping) (out : List CodedSymbol)
        → length ss ≡ length ms
        → All (λ (m : RandomMapping). end ≤ m.last_index) ms
        → Sweeps start end d ss ms out out
    Sweeps-end start end [] [] out e h = nil
    Sweeps-end start end [] (m ∷ ms) out e h = absurd (omega arith)
    Sweeps-end start end (s ∷ ss) [] out e h = absurd (omega arith)
    Sweeps-end start end (s ∷ ss) (m ∷ ms) out e h =
        cons (done h.0) (Sweeps-end start end ss ms out (omega arith) h.1)

  -- The block encoder follows the relation, each mapping from its beginning.
  pub encode_onto-Sweeps :
      (fuel start : ℕ) (ss : List HashedSymbol) (out o : List CodedSymbol)
      → encode_onto step fuel start ss out ≡ some o
      → Sweeps start (start + length out) add ss (map mapping ss) out o
  unfolding encode_onto
  encode_onto-Sweeps fuel start [] out o e =
      subst (λ (t : List CodedSymbol). Sweeps start (start + length out) add [] [] out t) (cc e) nil
  encode_onto-Sweeps fuel start (s ∷ ss) out o e =
      go (λ x k. encode_onto-Sweeps fuel start ss x o k) (one step fuel start s out) refl
        (sym (onto step fuel start s ss out) ∙ e)
    where
      go :
          ((x : List CodedSymbol)
            → encode_onto step fuel start ss x ≡ some o
            → Sweeps start (start + length x) add ss (map mapping ss) x o)
          → (r : Option (List CodedSymbol)) → one step fuel start s out ≡ r
          → bind r (encode_onto step fuel start ss) ≡ some o
          → Sweeps start (start + length out) add (s ∷ ss) (map mapping (s ∷ ss)) out o
      go ih none f k = absurd (cc k)
      go ih (some x) f k =
          let run = mark-Runs step s add fuel start (start + length out) (mapping s) out x f in
          let long = length-Runs step s add start (start + length out) (mapping s) out x run in
          cons run
            (subst (λ (n : ℕ). Sweeps start (start + n) add ss (map mapping ss) x o) long (ih x k))
