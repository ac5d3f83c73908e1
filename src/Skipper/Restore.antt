-- ===== src/Skipper/Restore.antt =====
-- The block of a decision of crates/datboi-formats/src/skipper.rs, and the file out of its block.
use datboi.Base.{
  ℕ, ◌-◌, ◌*◌, ◌≤◌, List, [], ◌∷◌, ◌++◌, some, length, take, drop, All-take, All-drop, IsByte,
  IsBytes, IsU64, ◌≡◌, sym, ap, subst, ◌∙◌, arith, le→leb, length-take, length-drop, refl,
}
use datboi.Skipper.Operations.{Operation, apply, alignment, slice}
use datboi.Skipper.Defs.{Rule, SkipDecision, evaluate, len, apply_decision, and_also}
use datboi.Skipper.Fulfils.{Fulfils, Selects, here, there}
use datboi.Skipper.Reading.{Resolves-le, slice_around}
use datboi.Skipper.Evaluate.{evaluate-eq-some_iff}
use datboi.Skipper.Swaps.{apply-apply, length-apply}

-- What every decision has: its block lies in the file and has the length that its operation wants.
pub record InFile (file : List ℕ) (d : SkipDecision) : Type 0 where
  pub ordered : d.start ≤ d.end
  pub inside : d.end ≤ length file
  pub units : ℕ
  pub aligned : len d ≡ units * alignment d.operation

fulfilled-InFile : (file : List ℕ) (r : Rule) (d : SkipDecision) → Fulfils file r d → InFile file d
unfolding len
fulfilled-InFile file r d h = record {
  ordered = subst (λ (t : ℕ). d.start ≤ t) (sym h.aligned) (omega arith);
  inside = Resolves-le r.end (length file) d.end h.ends;
  units = h.units;
  aligned =
      ap (λ (t : ℕ). t - d.start) h.aligned
      ∙ omega arith
      ∙ ap (λ (op : Operation). h.units * alignment op) (sym h.transforms);
}

selected-InFile :
    (file : List ℕ) (rs : List Rule) (d : SkipDecision) → Selects file rs d → InFile file d
selected-InFile file [] d h = elim h [ ]
selected-InFile file (r ∷ rs) d (here h) = fulfilled-InFile file r d h
selected-InFile file (r ∷ rs) d (there n h) = selected-InFile file rs d h

-- The block of a decision, before its operation.
abbrev block : SkipDecision → List ℕ → List ℕ
block d file = take (d.end - d.start) (drop d.start file)

apply_decision-block :
    (file : List ℕ) (d : SkipDecision)
    → InFile file d
    → apply_decision d file ≡ some (apply d.operation (block d file))
unfolding apply_decision and_also slice
apply_decision-block file d i =
    rw (le→leb d.start d.end i.ordered, le→leb d.end (length file) i.inside) refl

-- On a file whose length is a u64, what `Detector::evaluate` decides lies in the file, its block has a
-- length that its operation wants, and `SkipDecision::apply` does not panic and returns a block of
-- the length that `SkipDecision::len` names.
pub apply_decision-length :
    (rules : List Rule) (file : List ℕ) (d : SkipDecision)
    → IsU64 (length file)
    → evaluate rules file ≡ some d
    → InFile file d × ((out : List ℕ) × (apply_decision d file ≡ some out) × (length out ≡ len d))
unfolding len
apply_decision-length rules file d small e =
    let i = selected-InFile file rules d ((evaluate-eq-some_iff rules file d small).0 e) in
    (
      i,
      (
        apply d.operation (block d file),
        apply_decision-block file d i,
        length-apply d.operation (block d file)
            ∙ omega (
              arith,
              length-take (d.end - d.start) (drop d.start file),
              length-drop d.start file,
              i.ordered,
              i.inside,
            ),
      ),
    )

-- From the block that `SkipDecision::apply` returns for a decision on a file of bytes, whose length
-- is a u64, the operation of the decision restores the file, between what is before and behind it.
pub apply_decision_restore :
    (rules : List Rule) (file : List ℕ) (d : SkipDecision) (out : List ℕ)
    → IsU64 (length file)
    → IsBytes file
    → evaluate rules file ≡ some d
    → apply_decision d file ≡ some out
    → take d.start file ++ (apply d.operation out ++ drop d.end file) ≡ file
unfolding slice
apply_decision_restore rules file d out small bytes e made =
    let i = selected-InFile file rules d ((evaluate-eq-some_iff rules file d small).0 e) in
    let found : some (apply d.operation (block d file)) ≡ some out =
      sym (apply_decision-block file d i) ∙ made in
    let same : apply d.operation (block d file) ≡ out = cc in
    let is_bytes =
      All-take IsByte (d.end - d.start) (drop d.start file) (All-drop IsByte d.start file bytes) in
    let undone = apply-apply d.operation (block d file) is_bytes in
    rw (← same, undone) (sym (slice_around d.start d.end file (block d file) (sliced i)).0)
  where
    sliced : InFile file d → slice d.start d.end file ≡ some (block d file)
    sliced i = rw (le→leb d.start d.end i.ordered, le→leb d.end (length file) i.inside) refl
