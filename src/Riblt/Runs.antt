-- ===== src/Riblt/Runs.antt =====
-- The marking loop of crates/datboi-p2p/src/riblt.rs as a relation without fuel: what the indices of one
-- symbol in [start, end) make of a block.
use datboi.Base.{
  ℕ, zero, suc, ◌+◌, ◌-◌, ◌^◌, ◌≤◌, ◌<◌, List, ◌++◌, some, length, leb, if◌then◌else◌, Bool-cases,
  inl, inr, ◌≡◌, ◌⊎◌, refl, sym, ap, subst, ◌∙◌, arith, true, false, leb→le, le→leb,
}
use datboi.Riblt.Defs.{CodedSymbol, HashedSymbol, RandomMapping, apply, next_index, mark}
use datboi.Riblt.Sums.{apply_comm, at_index_comm, at_index_front, at_index_behind}
use datboi.Riblt.Marks.{touch, length-at_index, mark_done, mark_more}

module _ (step : ℕ → ℕ → ℕ) where
  pub data Runs (start end : ℕ) (s : HashedSymbol) (d : ℕ)
      : RandomMapping → List CodedSymbol → List CodedSymbol → Type 0 where
    done :
        {m : RandomMapping} {out : List CodedSymbol}
        → end ≤ m.last_index
        → Runs start end s d m out out
    miss :
        {m : RandomMapping} {out o : List CodedSymbol}
        → m.last_index < end
        → m.last_index < start
        → Runs start end s d (next_index step m) out o
        → Runs start end s d m out o
    hit :
        {m : RandomMapping} {out o : List CodedSymbol}
        → m.last_index < end
        → start ≤ m.last_index
        → Runs start end s d (next_index step m) (touch (m.last_index - start) s d out) o
        → Runs start end s d m out o

  module _ (s : HashedSymbol) (d : ℕ) where
    -- The loop with fuel follows the relation.
    pub mark-Runs :
        (fuel start end : ℕ) (m : RandomMapping) (out o : List CodedSymbol)
        → mark step fuel start end s d m out ≡ some o
        → Runs start end s d m out o
    unfolding mark
    mark-Runs zero start end m out o e = absurd (cc e)
    mark-Runs (suc fuel) start end m out o e = elim (Bool-cases (leb end m.last_index)) [
      | inl t ↦
          let same : some out ≡ some o = sym (mark_done step start end fuel s d m out t) ∙ e in
          subst (Runs start end s d m out) (cc same) (done (leb→le end m.last_index t))
      | inr f ↦
          let before : m.last_index < end = ground arith in
          go before (λ x. mark-Runs fuel start end (next_index step m) x o)
            (Bool-cases (leb start m.last_index))
            (sym (mark_more step start end fuel s d m out f) ∙ e)
    ]
      where
        go :
            m.last_index < end
            → ((x : List CodedSymbol)
                → mark step fuel start end s d (next_index step m) x ≡ some o
                → Runs start end s d (next_index step m) x o)
            → (leb start m.last_index ≡ true) ⊎ (leb start m.last_index ≡ false)
            → mark step fuel start end s d
                (next_index step m)
                (if leb start m.last_index then touch (m.last_index - start) s d out else out)
              ≡ some o
            → Runs start end s d m out o
        go before ih (inl t) k = hit before (leb→le start m.last_index t) (ih _ (simp t at k))
        go before ih (inr f) k = miss before (ground arith) (ih _ (simp f at k))

    pub Runs-mark :
        (start end : ℕ) (m : RandomMapping) (out o : List CodedSymbol)
        → Runs start end s d m out o
        → (fuel : ℕ) × (mark step fuel start end s d m out ≡ some o)
    Runs-mark start end m out o (done h) =
        (1, mark_done step start end 0 s d m out (le→leb end m.last_index h))
    Runs-mark start end m out o (miss h k r) =
        let (fuel, e) = Runs-mark start end (next_index step m) out o r in
        let more : leb end m.last_index ≡ false = ground arith in
        let outside : leb start m.last_index ≡ false = ground arith in
        (suc fuel, mark_more step start end fuel s d m out more ∙ simp outside e)
    Runs-mark start end m out o (hit h k r) =
        let (fuel, e) = Runs-mark start end (next_index step m) _ o r in
        let more : leb end m.last_index ≡ false = ground arith in
        let inside = le→leb start m.last_index k in
        (suc fuel, mark_more step start end fuel s d m out more ∙ simp inside e)

    pub Runs-unique :
        (start end : ℕ) (m : RandomMapping) (out o o' : List CodedSymbol)
        → Runs start end s d m out o
        → Runs start end s d m out o'
        → o ≡ o'
    Runs-unique start end m out o o' (done h) (done k) = refl
    Runs-unique start end m out o o' (done h) (miss k l r) = absurd (omega arith)
    Runs-unique start end m out o o' (done h) (hit k l r) = absurd (omega arith)
    Runs-unique start end m out o o' (miss h k r) (done l) = absurd (omega arith)
    Runs-unique start end m out o o' (miss h k r) (miss l l' r') =
        Runs-unique start end (next_index step m) out o o' r r'
    Runs-unique start end m out o o' (miss h k r) (hit l l' r') = absurd (omega arith)
    Runs-unique start end m out o o' (hit h k r) (done l) = absurd (omega arith)
    Runs-unique start end m out o o' (hit h k r) (miss l l' r') = absurd (omega arith)
    Runs-unique start end m out o o' (hit h k r) (hit l l' r') =
        Runs-unique start end (next_index step m) _ o o' r r'

    pub length-Runs :
        (start end : ℕ) (m : RandomMapping) (out o : List CodedSymbol)
        → Runs start end s d m out o
        → length o ≡ length out
    length-Runs start end m out o (done h) = refl
    length-Runs start end m out o (miss h k r) = length-Runs start end (next_index step m) out o r
    length-Runs start end m out o (hit h k r) =
        length-Runs start end (next_index step m) _ o r
        ∙ length-at_index (m.last_index - start) _ out

    -- A change of one entry may be made before or after.
    pub Runs-touch :
        (start end k : ℕ) (t : HashedSymbol) (e : ℕ) (m : RandomMapping) (out o : List CodedSymbol)
        → Runs start end s d m out o
        → Runs start end s d m (touch k t e out) (touch k t e o)
    Runs-touch start end k t e m out o (done h) = done h
    Runs-touch start end k t e m out o (miss h l r) =
        miss h l (Runs-touch start end k t e (next_index step m) out o r)
    Runs-touch start end k t e m out o (hit h l r) = hit h l (
        subst (λ (x : List CodedSymbol). Runs start end s d (next_index step m) x (touch k t e o))
          (at_index_comm k (m.last_index - start) (λ c. apply c t e) (λ c. apply c s d)
            (λ c. apply_comm c s t d e) out)
          (Runs-touch start end k t e (next_index step m) _ o r))

    -- What is behind the block of [start, mid) is the block of [mid, end).
    behind :
        (start mid end : ℕ) (m : RandomMapping) (xs ys ys' : List CodedSymbol)
        → length xs + start ≡ mid
        → end ≤ 2 ^ 64
        → mid ≤ m.last_index
        → Runs mid end s d m ys ys'
        → Runs start end s d m (xs ++ ys) (xs ++ ys')
    unfolding next_index
    behind start mid end m xs ys ys' a b past (done h) = done h
    behind start mid end m xs ys ys' a b past (miss h k r) = absurd (omega arith)
    behind start mid end m xs ys ys' a b past (hit h k r) = hit h (omega arith) (
        subst (λ (x : List CodedSymbol). Runs start end s d (next_index step m) x (xs ++ ys'))
          (sym (
            at_index_behind xs ys (m.last_index - start) (m.last_index - mid) (λ c. apply c s d)
              (omega arith)))
          (behind start mid end (next_index step m) xs _ ys' a b (omega arith) r))

    -- Two blocks that meet are one.
    pub Runs-join :
        (start mid end : ℕ) (m : RandomMapping) (xs xs' ys ys' : List CodedSymbol)
        → length xs + start ≡ mid
        → mid ≤ end
        → end ≤ 2 ^ 64
        → Runs start mid s d m xs xs'
        → Runs mid end s d m ys ys'
        → Runs start end s d m (xs ++ ys) (xs' ++ ys')
    Runs-join start mid end m xs xs' ys ys' a b c (done h) q =
        behind start mid end m xs ys ys' a c h q
    Runs-join start mid end m xs xs' ys ys' a b c (miss h k r) (done l) = absurd (omega arith)
    Runs-join start mid end m xs xs' ys ys' a b c (miss h k r) (miss l l' r') =
        miss l k (Runs-join start mid end (next_index step m) xs xs' ys ys' a b c r r')
    Runs-join start mid end m xs xs' ys ys' a b c (miss h k r) (hit l l' r') = absurd (omega arith)
    Runs-join start mid end m xs xs' ys ys' a b c (hit h k r) (done l) = absurd (omega arith)
    Runs-join start mid end m xs xs' ys ys' a b c (hit h k r) (miss l l' r') = hit l k (
        subst (λ (x : List CodedSymbol). Runs start end s d (next_index step m) x (xs' ++ ys'))
          (sym (at_index_front xs ys (m.last_index - start) (λ c. apply c s d) (omega arith)))
          (Runs-join start mid end (next_index step m) _ xs' ys ys'
            (ap (λ (t : ℕ). t + start)
                (length-at_index (m.last_index - start) (λ c. apply c s d) xs)
              ∙ a)
            b c r r'))
    Runs-join start mid end m xs xs' ys ys' a b c (hit h k r) (hit l l' r') = absurd (omega arith)

    -- A change before the run is one after it.
    pub Runs-untouch :
        (start end k : ℕ) (t : HashedSymbol) (e : ℕ) (m : RandomMapping)
        (x out o' : List CodedSymbol)
        → Runs start end s d m x o'
        → x ≡ touch k t e out
        → (o : List CodedSymbol) × Runs start end s d m out o × (o' ≡ touch k t e o)
    Runs-untouch start end k t e m x out o' (done h) q = (out, done h, q)
    Runs-untouch start end k t e m x out o' (miss h l r) q =
        let (o, r', q') = Runs-untouch start end k t e (next_index step m) x out o' r q in
        (o, miss h l r', q')
    Runs-untouch start end k t e m x out o' (hit h l r) q =
        let i = m.last_index - start in
        let swapped : touch i s d x ≡ touch k t e (touch i s d out) =
          ap (touch i s d) q
          ∙ at_index_comm i k (λ c. apply c s d) (λ c. apply c t e) (λ c. apply_comm c t s e d)
              out in
        let (o, r', q') =
          Runs-untouch start end k t e (next_index step m) _ (touch i s d out) o' r swapped in
        (o, hit h l r', q')
