-- ===== src/Riblt/Marks.antt =====
-- The marking loop of crates/datboi-p2p/src/riblt.rs: the loops of two symbols commute, and the loop
-- that removes a symbol undoes the loop that added it.
use datboi.Base.{
  ℕ, zero, suc, ◌-◌, List, [], ◌∷◌, Option, none, some, length, All, IsU64, leb, if◌then◌else◌,
  Bool-cases, inl, inr, ◌≡◌, refl, sym, ap, ◌∙◌, arith, Bool, true, false,
}
use datboi.Riblt.Defs.{
  CodedSymbol, HashedSymbol, RandomMapping, apply, add, remove, at_index, next_index, mark,
}
use datboi.Riblt.Sums.{apply_comm, apply_undo, at_index_comm}
use mathlib.Core.Option

abbrev pub bind : {A B : Type 0} → Option A → (A → Option B) → Option B
bind none f = none
bind (some a) f = f a

abbrev pub Fits : CodedSymbol → Type 0
Fits c = IsU64 c.count

-- One entry with a symbol more or less.
abbrev pub touch : ℕ → HashedSymbol → ℕ → List CodedSymbol → List CodedSymbol
touch i s d out = at_index i (λ c. apply c s d) out

pub length-at_index :
    {A : Type 0} (i : ℕ) (f : A → A) (xs : List A) → length (at_index i f xs) ≡ length xs
unfolding at_index
length-at_index i f [] = refl
length-at_index zero f (x ∷ xs) = refl
length-at_index (suc i) f (x ∷ xs) = ap suc (length-at_index i f xs)

pub touch-Fits :
    (i : ℕ) (s : HashedSymbol) (d : ℕ) (out : List CodedSymbol)
    → All Fits out
    → All Fits (touch i s d out)
unfolding at_index apply
touch-Fits i s d [] h = tt
touch-Fits zero s d (c ∷ cs) h = (omega arith, h.1)
touch-Fits (suc i) s d (c ∷ cs) h = (h.0, touch-Fits i s d cs h.1)

pub touch_undo :
    (i : ℕ) (s : HashedSymbol) (out : List CodedSymbol)
    → All Fits out
    → touch i s remove (touch i s add out) ≡ out
unfolding at_index
touch_undo i s [] h = refl
touch_undo zero s (c ∷ cs) h = rw (apply_undo c s h.0) refl
touch_undo (suc i) s (c ∷ cs) h = rw (touch_undo i s cs h.1) refl

module _ (step : ℕ → ℕ → ℕ) (start end : ℕ) where
  -- The block after the entry of a mapping's index was changed, if it is in the block.
  abbrev pub marked : RandomMapping → HashedSymbol → ℕ → List CodedSymbol → List CodedSymbol
  marked m s d out = if leb start m.last_index then touch (m.last_index - start) s d out else out

  pub mark_done :
      (fuel : ℕ) (s : HashedSymbol) (d : ℕ) (m : RandomMapping) (out : List CodedSymbol)
      → leb end m.last_index ≡ true
      → mark step (suc fuel) start end s d m out ≡ some out
  unfolding mark
  mark_done fuel s d m out e = simp e refl

  pub mark_more :
      (fuel : ℕ) (s : HashedSymbol) (d : ℕ) (m : RandomMapping) (out : List CodedSymbol)
      → leb end m.last_index ≡ false
      → mark step (suc fuel) start end s d m out
        ≡ mark step fuel start end s d (next_index step m) (marked m s d out)
  unfolding mark
  mark_more fuel s d m out e = simp e refl

  -- A change of one entry may be made before or after.
  pub mark-touch :
      (fuel : ℕ) (s t : HashedSymbol) (d e k : ℕ) (m : RandomMapping) (out : List CodedSymbol)
      → mark step fuel start end s d m (touch k t e out)
        ≡ Option.map (touch k t e) (mark step fuel start end s d m out)
  unfolding mark
  mark-touch zero s t d e k m out = refl
  mark-touch (suc fuel) s t d e k m out = elim (Bool-cases (leb end m.last_index)) [
    | inl done ↦
        rw (mark_done fuel s d m (touch k t e out) done, mark_done fuel s d m out done) refl
    | inr more ↦
        rw (mark_more fuel s d m (touch k t e out) more, mark_more fuel s d m out more)
          (ap (λ (o : List CodedSymbol). mark step fuel start end s d (next_index step m) o)
              (swapped (leb start m.last_index))
            ∙ mark-touch fuel s t d e k (next_index step m) (marked m s d out))
  ]
    where
      swapped :
          (b : Bool)
          → (if b then touch (m.last_index - start) s d (touch k t e out) else touch k t e out)
            ≡ touch k t e (if b then touch (m.last_index - start) s d out else out)
      swapped true =
          at_index_comm (m.last_index - start) k (λ c. apply c s d) (λ c. apply c t e)
            (λ c. apply_comm c t s e d) out
      swapped false = refl

  -- The loops of two symbols commute.
  pub mark_comm :
      (fuel fuel' : ℕ) (s t : HashedSymbol) (d e : ℕ) (m n : RandomMapping) (out : List CodedSymbol)
      → bind (mark step fuel' start end s d m out) (mark step fuel start end t e n)
        ≡ bind (mark step fuel start end t e n out) (mark step fuel' start end s d m)
  unfolding mark
  mark_comm zero fuel' s t d e m n out = stops (mark step fuel' start end s d m out)
    where
      stops :
          (o : Option (List CodedSymbol)) → bind o (λ x. mark step zero start end t e n x) ≡ none
      stops none = refl
      stops (some x) = refl
  mark_comm (suc fuel) fuel' s t d e m n out = elim (Bool-cases (leb end n.last_index)) [
    | inl done ↦
        ended done (mark step fuel' start end s d m out) ∙ rw (mark_done fuel t e n out done) refl
    | inr more ↦
        later more (mark step fuel' start end s d m out)
        ∙ ap
            (λ (o : Option (List CodedSymbol)).
              bind o (mark step fuel start end t e (next_index step n)))
            (sym (moved (leb start n.last_index)))
        ∙ mark_comm fuel fuel' s t d e m (next_index step n) (marked n t e out)
        ∙ rw (mark_more fuel t e n out more) refl
  ]
    where
      ended :
          leb end n.last_index ≡ true
          → (o : Option (List CodedSymbol)) → bind o (mark step (suc fuel) start end t e n) ≡ o
      ended done none = refl
      ended done (some x) = mark_done fuel t e n x done

      later :
          leb end n.last_index ≡ false
          → (o : Option (List CodedSymbol))
          → bind o (mark step (suc fuel) start end t e n)
            ≡ bind (Option.map (marked n t e) o) (mark step fuel start end t e (next_index step n))
      later more none = refl
      later more (some x) = mark_more fuel t e n x more

      moved :
          (b : Bool)
          → mark step fuel' start end s d m
              (if b then touch (n.last_index - start) t e out else out)
            ≡ Option.map
                (λ (x : List CodedSymbol). if b then touch (n.last_index - start) t e x else x)
                (mark step fuel' start end s d m out)
      moved true = mark-touch fuel' s t d e (n.last_index - start) m out
      moved false = same (mark step fuel' start end s d m out)
        where
          same : (o : Option (List CodedSymbol)) → o ≡ Option.map (λ x. x) o
          same none = refl
          same (some x) = refl
