-- ===== src/Skipper/Evaluate.antt =====
-- The evaluation of a detector of crates/datboi-formats/src/skipper.rs against the relation.
use datboi.Base.{
  ℕ, ◌+◌, ◌-◌, ◌*◌, ◌/◌, ◌%◌, ◌≤◌, List, [], ◌∷◌, some, true, false, length, IsU64, ◌==◌, ltb, ◌≡◌,
  ◌↔◌, refl, sym, ap, subst, arith, inl, inr, Bool-cases, Option-cases,
}
use datboi.Skipper.Operations.{
  Operation, no_operation, bit_swap, byte_swap, word_swap, word_byte_swap, alignment,
}
use datboi.Skipper.Defs.{resolve, Rule, SkipDecision, evaluate_rule, evaluate, all_pass, and_also}
use datboi.Skipper.Fulfils.{Fulfils, Selects, here, there}
use datboi.Skipper.Reading.{resolve-Resolves, Resolves-resolve}
use datboi.Skipper.Tests.{all_pass-Holds}

aligned_iff :
    (op : Operation) (start end : ℕ)
    → start ≤ end
    → (((end - start) % alignment op == 0) ≡ true) ↔ ((q : ℕ) × (end ≡ start + q * alignment op))
unfolding alignment
aligned_iff no_operation start end h = (λ e. (end - start, omega arith), λ (q, e). ground arith)
aligned_iff bit_swap start end h = (λ e. (end - start, omega arith), λ (q, e). ground arith)
aligned_iff byte_swap start end h = (λ e. ((end - start) / 2, ground arith), λ (q, e). ground arith)
aligned_iff word_swap start end h = (λ e. ((end - start) / 4, ground arith), λ (q, e). ground arith)
aligned_iff word_byte_swap start end h =
    (λ e. ((end - start) / 4, ground arith), λ (q, e). ground arith)

fulfilled :
    (rule : Rule) (file : List ℕ) (d : SkipDecision)
    → IsU64 (length file)
    → evaluate_rule rule file ≡ some d
    → Fulfils file rule d
unfolding evaluate_rule and_also
fulfilled rule file d small e = elim (Option-cases (resolve rule.start (length file))) [
  | inl n ↦ cc (simp n at e)
  | inr (start, s) ↦ elim (Option-cases (resolve rule.end (length file))) [
    | inl n ↦ cc (simp (s, n) at e)
    | inr (end, f) ↦ elim (Bool-cases (ltb end start)) [
      | inl crossed ↦ cc (simp (s, f, crossed) at e)
      | inr ordered ↦ elim (Bool-cases ((end - start) % alignment rule.operation == 0)) [
        | inr ragged ↦ cc (simp (s, f, ordered, ragged) at e)
        | inl even ↦ elim (Bool-cases (all_pass rule.tests file)) [
          | inr failing ↦ cc (simp (s, f, ordered, even, failing) at e)
          | inl passing ↦
              let made : some (record { start = start; end = end; operation = rule.operation })
                  ≡ some d =
                simp (s, f, ordered, even, passing) at e in
              let le : start ≤ end = ground arith in
              let (q, al) = (aligned_iff rule.operation start end le).0 even in
              subst (Fulfils file rule) (cc made) (record {
                starts = resolve-Resolves rule.start (length file) start s;
                ends = resolve-Resolves rule.end (length file) end f;
                units = q;
                aligned = al;
                transforms = refl;
                holds = (all_pass-Holds rule.tests file small).0 passing;
              })
        ]
      ]
    ]
  ]
]

evaluated :
    (rule : Rule) (file : List ℕ) (d : SkipDecision)
    → IsU64 (length file)
    → Fulfils file rule d
    → evaluate_rule rule file ≡ some d
unfolding evaluate_rule and_also
evaluated rule file d small h =
    let s = Resolves-resolve rule.start (length file) d.start h.starts in
    let f = Resolves-resolve rule.end (length file) d.end h.ends in
    let le : d.start ≤ d.end = subst (λ (t : ℕ). d.start ≤ t) (sym h.aligned) (omega arith) in
    let ordered : ltb d.end d.start ≡ false = ground arith in
    let even = (aligned_iff rule.operation d.start d.end le).1 (h.units, h.aligned) in
    let passing = (all_pass-Holds rule.tests file small).1 h.holds in
    simp (s, f, ordered, even, passing)
      (ap (λ (op : Operation). some (record { start = d.start; end = d.end; operation = op }))
        (sym h.transforms))

pub evaluate_rule-Fulfils :
    (rule : Rule) (file : List ℕ) (d : SkipDecision)
    → IsU64 (length file)
    → (evaluate_rule rule file ≡ some d) ↔ Fulfils file rule d
evaluate_rule-Fulfils rule file d small = (fulfilled rule file d small, evaluated rule file d small)

-- On a file whose length is a u64, `Detector::evaluate` decides `d` exactly when `d` is the decision
-- of the first rule that is fulfilled: its offsets lie in the file, its block is aligned for its
-- operation, and all its tests hold, each with its window in the file.
pub evaluate-eq-some_iff :
    (rules : List Rule) (file : List ℕ) (d : SkipDecision)
    → IsU64 (length file)
    → (evaluate rules file ≡ some d) ↔ Selects file rules d
unfolding evaluate
evaluate-eq-some_iff rules file d small = (selected rules, decided rules)
  where
    selected : (rs : List Rule) → evaluate rs file ≡ some d → Selects file rs d
    selected [] e = absurd (cc e)
    selected (r ∷ rs) e = elim (Option-cases (evaluate_rule r file)) [
      | inl n ↦
          there (λ x h. cc (n, evaluated r file x small h)) (selected rs (simp (n, evaluate) at e))
      | inr (x, found) ↦
          let same : some x ≡ some d = simp (found, evaluate) at e in
          here (subst (Fulfils file r) (cc same) (fulfilled r file x small found))
    ]

    decided : (rs : List Rule) → Selects file rs d → evaluate rs file ≡ some d
    decided [] h = elim h [ ]
    decided (r ∷ rs) (here h) = let e = evaluated r file d small h in simp (e, evaluate) refl
    decided (r ∷ rs) (there others h) =
        let rest = decided rs h in
        elim (Option-cases (evaluate_rule r file)) [
          | inl n ↦ simp (n, evaluate, rest) refl
          | inr (x, found) ↦ absurd (others x (fulfilled r file x small found))
        ]
