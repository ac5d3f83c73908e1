-- ===== src/Riblt/Undo.antt =====
-- The marking loop of crates/datboi-p2p/src/riblt.rs backwards: removing a symbol, and the end of the
-- loop.
use datboi.Base.{
  ℕ, zero, suc, ◌-◌, List, some, length, All, leb, if◌then◌else◌, Bool-cases, inl, inr, ◌≡◌, refl,
  sym, ap, subst, ◌∙◌, Bool, true, false,
}
use datboi.Riblt.Defs.{CodedSymbol, HashedSymbol, RandomMapping, add, remove, next_index, mark}
use datboi.Riblt.Marks.{Fits, touch, length-at_index, touch-Fits, touch_undo}
use datboi.Riblt.Marks
use mathlib.Core.Option

module _ (step : ℕ → ℕ → ℕ) (start end : ℕ) where
  pub length-mark :
      (fuel : ℕ) (s : HashedSymbol) (d : ℕ) (m : RandomMapping) (out o : List CodedSymbol)
      → mark step fuel start end s d m out ≡ some o
      → length o ≡ length out
  unfolding mark
  length-mark zero s d m out o e = cc e
  length-mark (suc fuel) s d m out o e = elim (Bool-cases (leb end m.last_index)) [
    | inl done ↦
        let same : some out ≡ some o =
          sym (Marks.mark_done step start end fuel s d m out done) ∙ e in
        ap length (sym (unwrap same))
    | inr more ↦
        length-mark fuel s d (next_index step m) (Marks.marked step start end m s d out) o
          (sym (Marks.mark_more step start end fuel s d m out more) ∙ e)
        ∙ kept (leb start m.last_index)
  ]
    where
      unwrap : {x y : List CodedSymbol} → some x ≡ some y → x ≡ y
      unwrap e = cc e

      kept :
          (b : Bool) → length (if b then touch (m.last_index - start) s d out else out) ≡ length out
      kept true = length-at_index (m.last_index - start) _ out
      kept false = refl

  pub mark-Fits :
      (fuel : ℕ) (s : HashedSymbol) (d : ℕ) (m : RandomMapping) (out o : List CodedSymbol)
      → All Fits out
      → mark step fuel start end s d m out ≡ some o
      → All Fits o
  unfolding mark
  mark-Fits zero s d m out o h e = absurd (cc e)
  mark-Fits (suc fuel) s d m out o h e = elim (Bool-cases (leb end m.last_index)) [
    | inl done ↦
        let same : some out ≡ some o =
          sym (Marks.mark_done step start end fuel s d m out done) ∙ e in
        subst (All Fits) (unwrap same) h
    | inr more ↦
        mark-Fits fuel s d (next_index step m) (Marks.marked step start end m s d out) o
          (kept (leb start m.last_index))
          (sym (Marks.mark_more step start end fuel s d m out more) ∙ e)
  ]
    where
      unwrap : {x y : List CodedSymbol} → some x ≡ some y → x ≡ y
      unwrap e = cc e

      kept : (b : Bool) → All Fits (if b then touch (m.last_index - start) s d out else out)
      kept true = touch-Fits (m.last_index - start) s d out h
      kept false = h

  -- The loop that removes a symbol undoes the one that added it.
  pub mark_undo :
      (fuel : ℕ) (s : HashedSymbol) (m : RandomMapping) (out o : List CodedSymbol)
      → All Fits out
      → mark step fuel start end s add m out ≡ some o
      → mark step fuel start end s remove m o ≡ some out
  unfolding mark
  mark_undo zero s m out o h e = cc e
  mark_undo (suc fuel) s m out o h e = elim (Bool-cases (leb end m.last_index)) [
    | inl done ↦
        Marks.mark_done step start end fuel s remove m o done
        ∙ (sym e ∙ Marks.mark_done step start end fuel s add m out done)
    | inr more ↦
        Marks.mark_more step start end fuel s remove m o more
        ∙ undone (leb start m.last_index) (λ x h'. mark_undo fuel s (next_index step m) x o h')
            (sym (Marks.mark_more step start end fuel s add m out more) ∙ e)
  ]
    where
      undone :
          (b : Bool)
          → ((x : List CodedSymbol)
              → All Fits x
              → mark step fuel start end s add (next_index step m) x ≡ some o
              → mark step fuel start end s remove (next_index step m) o ≡ some x)
          → mark step fuel start end s add
              (next_index step m)
              (if b then touch (m.last_index - start) s add out else out)
            ≡ some o
          → mark step fuel start end s remove
              (next_index step m)
              (if b then touch (m.last_index - start) s remove o else o)
            ≡ some out
      undone true ih k =
          let i = m.last_index - start in
          Marks.mark-touch step start end fuel s s remove remove i (next_index step m) o
          ∙ ap (Option.map (touch i s remove)) (ih (touch i s add out) (touch-Fits i s add out h) k)
          ∙ ap some (touch_undo i s out h)
      undone false ih k = ih out h k
