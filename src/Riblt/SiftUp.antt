-- ===== src/Riblt/SiftUp.antt =====
-- `fix_tail` of crates/datboi-p2p/src/riblt.rs on a heap with one entry more.
use datboi.Base.{
  ℕ, zero, suc, ◌-◌, ◌≤◌, ◌<◌, List, [], ◌∷◌, ◌++◌, some, length, leb, ◌==◌, length-append, ◌≡◌,
  ◌≢◌, refl, sym, ap, arith, Bool-cases, inl, inr, ℕ_discrete, subst,
}
use datboi.Riblt.Window.{SymbolMapping, entry, coded, swap, fix_tail}
use datboi.Riblt.Heap.{
  parent, IsHeap, Moved, Moved-trans, Moved-refl, Moved-swap, length-swap, coded-swap,
}

-- The entries are in order but for `curr`, whose children do not come before its parent.
record OrderedAbove (q : List SymbolMapping) (curr : ℕ) : Type 0 where
  edges : (c : ℕ) → 0 < c → c < length q → c ≢ curr → coded q (parent c) ≤ coded q c
  bridged :
      (c : ℕ)
      → 0 < c
      → c < length q
      → parent c ≡ curr
      → 0 < curr
      → coded q (parent curr) ≤ coded q c

rises :
    (q : List SymbolMapping) (curr : ℕ)
    → 0 < curr
    → curr < length q
    → OrderedAbove q curr
    → coded q curr < coded q (parent curr)
    → OrderedAbove (swap q (parent curr) curr) (parent curr)
rises q curr z here o less =
    let there : parent curr < length q = omega arith in
    let swapped = coded-swap q (parent curr) curr there here in
    let long = length-swap q (parent curr) curr there here in
    record {
      edges = λ c p l n.
          let a = swapped (parent c) in
          let b = swapped c in
          let e = o.edges c p (omega arith) in let g = o.bridged c p (omega arith) in ground arith;
      bridged = λ c p l n y.
          let a = swapped (parent (parent curr)) in
          let b = swapped c in
          let e = o.edges (parent curr) y there (omega arith) in
          let f = o.edges c p (omega arith) in let k = ap (coded q) n in ground arith;
    }

settles :
    (fuel curr : ℕ) (q : List SymbolMapping)
    → curr < fuel
    → curr < length q
    → OrderedAbove q curr
    → (r : List SymbolMapping) × (fix_tail fuel curr q ≡ some r) × IsHeap r × Moved q r
unfolding fix_tail
settles zero curr q enough here o = absurd (omega arith)
settles (suc fuel) curr q enough here o = elim (Bool-cases (curr == 0)) [
  | inl t ↦ (q, rw t refl, (λ c p l. o.edges c p l (ground arith)), Moved-refl q)
  | inr f ↦
      let there : parent curr < length q = omega arith in
      elim (Bool-cases (leb (coded q (parent curr)) (coded q curr))) [
        | inl t ↦ (q, rw (f, t) refl, ordered (ground arith), Moved-refl q)
        | inr g ↦
            let long = length-swap q (parent curr) curr there here in
            let (r, e, ordered, moved) =
              settles fuel (parent curr) (swap q (parent curr) curr) (ground arith) (omega arith)
                (rises q curr (ground arith) here o (ground arith)) in
            (
              r,
              rw (f, g) e,
              ordered,
              Moved-trans (Moved-swap q (parent curr) curr there here) moved,
            )
      ]
]
  where
    ordered : coded q (parent curr) ≤ coded q curr → IsHeap q
    ordered k c p l = elim (ℕ_discrete c curr) [
      | yes e ↦ subst (λ (t : ℕ). coded q (parent t) ≤ coded q t) (sym e) k
      | no n ↦ o.edges c p l n
    ]

entry-snoc :
    (q : List SymbolMapping) (e : SymbolMapping) (c : ℕ)
    → c < length q
    → entry (q ++ (e ∷ [])) c ≡ entry q c
unfolding entry
entry-snoc [] e c h = absurd (omega arith)
entry-snoc (x ∷ q) e zero h = refl
entry-snoc (x ∷ q) e (suc c) h = entry-snoc q e c (omega arith)

-- A queue in order to which an entry is appended is put in order, with as many rounds as it has entries
-- then.
pub fix_tail-IsHeap :
    (q : List SymbolMapping) (e : SymbolMapping)
    → IsHeap q
    → (r : List SymbolMapping) × (fix_tail
          (length (q ++ (e ∷ [])))
          (length (q ++ (e ∷ [])) - 1)
          (q ++ (e ∷ []))
        ≡ some r)
      × IsHeap r
      × Moved (q ++ (e ∷ [])) r
fix_tail-IsHeap q e h =
    let long = length-append q (e ∷ []) in
    settles (length (q ++ (e ∷ []))) (length (q ++ (e ∷ [])) - 1) (q ++ (e ∷ [])) (omega arith)
      (omega arith)
      (record {
        edges = λ c p l n.
            let a = ap (λ (x : SymbolMapping). x.coded_idx) (entry-snoc q e c (omega arith)) in
            let b =
              ap (λ (x : SymbolMapping). x.coded_idx) (entry-snoc q e (parent c) (omega arith)) in
            let k = h c p (omega arith) in omega arith;
        bridged = λ c p l n z. absurd (omega arith);
      })
