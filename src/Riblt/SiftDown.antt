-- ===== src/Riblt/SiftDown.antt =====
-- `fix_head` of crates/datboi-p2p/src/riblt.rs on a heap whose head has changed.
use datboi.Base.{
  ℕ, zero, suc, ◌+◌, ◌*◌, ◌≤◌, ◌<◌, List, some, length, ltb, leb, ◌&&◌, if◌then◌else◌, ◌≡◌, ◌≢◌,
  ◌⊎◌, refl, sym, ap, arith, Bool-cases, inl, inr, true, false, dec_lt, ℕ_discrete, subst,
}
use datboi.Riblt.Window.{SymbolMapping, coded, swap, lesser_child, fix_head}
use datboi.Riblt.Heap.{
  parent, IsHeap, Moved, Moved-trans, Moved-refl, Moved-swap, length-swap, coded-swap,
}

-- What `lesser_child` chooses of the children of an entry.
record Lesser (q : List SymbolMapping) (curr child : ℕ) : Type 0 where
  inside : child < length q
  under : parent child ≡ curr
  after : curr < child
  least : (c : ℕ) → 0 < c → c < length q → parent c ≡ curr → coded q child ≤ coded q c

lesser_child-Lesser :
    (q : List SymbolMapping) (curr : ℕ)
    → curr * 2 + 1 < length q
    → Lesser q curr (lesser_child q curr)
unfolding lesser_child
lesser_child-Lesser q curr h = go (
    Bool-cases (
      ltb (curr * 2 + 1 + 1) (length q)
      && ltb (coded q (curr * 2 + 1 + 1)) (coded q (curr * 2 + 1))))
  where
    sides : (c : ℕ) → 0 < c → parent c ≡ curr → (c ≡ curr * 2 + 1) ⊎ (c ≡ curr * 2 + 1 + 1)
    sides c p e = elim (dec_lt c (curr * 2 + 2)) [
      | yes l ↦ inl (omega arith)
      | no m ↦ inr (omega arith)
    ]

    go :
        ((ltb (curr * 2 + 1 + 1) (length q)
              && ltb (coded q (curr * 2 + 1 + 1)) (coded q (curr * 2 + 1)))
            ≡ true)
          ⊎ ((ltb (curr * 2 + 1 + 1) (length q)
                && ltb (coded q (curr * 2 + 1 + 1)) (coded q (curr * 2 + 1)))
              ≡ false)
        → Lesser q curr (
            if ltb (curr * 2 + 1 + 1) (length q)
              && ltb (coded q (curr * 2 + 1 + 1)) (coded q (curr * 2 + 1))
            then curr * 2 + 1 + 1
            else curr * 2 + 1)
    go (inl t) = rw t (record {
      inside = ground arith;
      under = omega arith;
      after = omega arith;
      least = λ c p l e. elim (sides c p e) [
        | inl k ↦ rw k (ground arith)
        | inr k ↦ rw k (omega arith)
      ];
    })
    go (inr f) = rw f (record {
      inside = h;
      under = omega arith;
      after = omega arith;
      least = λ c p l e. elim (sides c p e) [
        | inl k ↦ rw k (omega arith)
        | inr k ↦ rw k (ground arith)
      ];
    })

-- The entries are in order but for `curr` and its children, which do not come before its parent.
record OrderedBut (q : List SymbolMapping) (curr : ℕ) : Type 0 where
  edges : (c : ℕ) → 0 < c → c < length q → parent c ≢ curr → coded q (parent c) ≤ coded q c
  bridged :
      (c : ℕ)
      → 0 < c
      → c < length q
      → parent c ≡ curr
      → 0 < curr
      → coded q (parent curr) ≤ coded q c

stops :
    (q : List SymbolMapping) (curr : ℕ)
    → OrderedBut q curr
    → ((c : ℕ) → 0 < c → c < length q → parent c ≡ curr → coded q curr ≤ coded q c)
    → IsHeap q
stops q curr o k c p l = elim (ℕ_discrete (parent c) curr) [
  | yes e ↦ subst (λ (t : ℕ). coded q t ≤ coded q c) (sym e) (k c p l e)
  | no n ↦ o.edges c p l n
]

sinks :
    (q : List SymbolMapping) (curr child : ℕ)
    → OrderedBut q curr
    → Lesser q curr child
    → coded q child < coded q curr
    → OrderedBut (swap q curr child) child
sinks q curr child o m less =
    let there : curr < length q = omega (arith, m.inside, m.after) in
    let swapped = coded-swap q curr child there m.inside in
    let long = length-swap q curr child there m.inside in
    record {
      edges = λ c p l n.
          let a = swapped (parent c) in
          let b = swapped c in
          let e = o.edges c p (omega arith) in
          let f = m.least c p (omega arith) in
          let g = o.bridged child (omega (arith, m.after)) m.inside m.under in
          let u = m.under in let v = m.after in ground arith;
      bridged = λ c p l n z.
          let a = swapped (parent child) in
          let b = swapped c in
          let u = m.under in
          let v = m.after in
          let e = o.edges c p (omega arith) (omega arith) in let f = ap (coded q) n in ground arith;
    }

settles :
    (fuel curr : ℕ) (q : List SymbolMapping)
    → length q ≤ fuel + curr
    → curr < length q
    → OrderedBut q curr
    → (r : List SymbolMapping) × (fix_head fuel curr q ≡ some r) × IsHeap r × Moved q r
unfolding fix_head
settles zero curr q enough here o = absurd (omega arith)
settles (suc fuel) curr q enough here o = elim (Bool-cases (leb (length q) (curr * 2 + 1))) [
  | inl t ↦ (q, rw t refl, stops q curr o (λ c p l e. absurd (ground arith)), Moved-refl q)
  | inr f ↦
      let m = lesser_child-Lesser q curr (ground arith) in
      let child = lesser_child q curr in
      let before : curr < length q = here in
      elim (Bool-cases (leb (coded q curr) (coded q child))) [
        | inl t ↦ (
          q,
          rw (f, t) refl,
          stops q curr o (λ c p l e. let k = m.least c p l e in ground arith),
          Moved-refl q,
        )
        | inr g ↦
            let long = length-swap q curr child here m.inside in
            let (r, e, ordered, moved) =
              settles fuel child (swap q curr child) (omega (arith, m.after))
                (omega (arith, m.inside)) (sinks q curr child o m (ground arith)) in
            (r, rw (f, g) e, ordered, Moved-trans (Moved-swap q curr child here m.inside) moved)
      ]
]

-- A queue that is in order but for its head, which may come too early, is put in order, with as many
-- rounds as it has entries.
pub fix_head-IsHeap :
    (q : List SymbolMapping)
    → 0 < length q
    → ((c : ℕ) → 0 < c → c < length q → parent c ≢ 0 → coded q (parent c) ≤ coded q c)
    → (r : List SymbolMapping) × (fix_head (length q) 0 q ≡ some r) × IsHeap r × Moved q r
fix_head-IsHeap q h k =
    settles (length q) 0 q (omega arith) h
      (record { edges = k; bridged = λ c p l e z. absurd (omega arith) })
