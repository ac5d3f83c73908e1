-- ===== src/Riblt/Heap.antt =====
-- The mapping heap of crates/datboi-p2p/src/riblt.rs: its order, and the same entries in another place.
use datboi.Base.{
  ℕ, zero, suc, ◌+◌, ◌-◌, ◌/◌, ◌≤◌, ◌<◌, List, [], ◌∷◌, length, All, ◌==◌, if◌then◌else◌, ◌≡◌, ◌⊎◌,
  refl, ap, ◌∙◌, arith, Bool-cases, inl, inr, true, false,
}
use datboi.Riblt.Defs.{at_index}
use datboi.Riblt.Marks.{length-at_index}
use datboi.Riblt.Window.{SymbolMapping, entry, coded, swap}

abbrev pub parent : ℕ → ℕ
parent c = (c - 1) / 2

-- No entry comes before its parent.
abbrev pub IsHeap : List SymbolMapping → Type 0
IsHeap q = (c : ℕ) → 0 < c → c < length q → coded q (parent c) ≤ coded q c

-- How many entries are for a symbol.
abbrev pub entries_of : ℕ → List SymbolMapping → ℕ
entries_of s [] = 0
entries_of s (e ∷ q) = (if e.source_idx == s then 1 else 0) + entries_of s q

-- The same entries in another order.
pub record Moved (q r : List SymbolMapping) : Type 1 where
  pub long : length r ≡ length q
  pub entries : (s : ℕ) → entries_of s r ≡ entries_of s q
  pub every : (P : SymbolMapping → Type 0) → All P q → All P r

pub Moved-trans : {q r t : List SymbolMapping} → Moved q r → Moved r t → Moved q t
Moved-trans a b = record {
  long = b.long ∙ a.long;
  entries = λ s. b.entries s ∙ a.entries s;
  every = λ P h. b.every P (a.every P h);
}

pub Moved-refl : (q : List SymbolMapping) → Moved q q
Moved-refl q = record { long = refl; entries = λ s. refl; every = λ P h. h }

pub entry-set :
    (q : List SymbolMapping) (i c : ℕ) (v : SymbolMapping)
    → i < length q
    → entry (at_index i (λ _. v) q) c ≡ (if i == c then v else entry q c)
unfolding entry at_index
entry-set [] i c v h = absurd (omega arith)
entry-set (e ∷ q) zero zero v h = refl
entry-set (e ∷ q) zero (suc c) v h = ground arith
entry-set (e ∷ q) (suc i) zero v h = ground arith
entry-set (e ∷ q) (suc i) (suc c) v h = ground (arith, entry-set q i c v)

pub All-entry :
    (P : SymbolMapping → Type 0) (q : List SymbolMapping) (i : ℕ)
    → i < length q
    → All P q
    → P (entry q i)
unfolding entry
All-entry P [] i h a = absurd (omega arith)
All-entry P (e ∷ q) zero h a = a.0
All-entry P (e ∷ q) (suc i) h a = All-entry P q i (omega arith) a.1

All-set :
    (P : SymbolMapping → Type 0) (q : List SymbolMapping) (i : ℕ) (v : SymbolMapping)
    → P v
    → All P q
    → All P (at_index i (λ _. v) q)
unfolding at_index
All-set P [] i v p a = tt
All-set P (e ∷ q) zero v p a = (p, a.1)
All-set P (e ∷ q) (suc i) v p a = (a.0, All-set P q i v p a.1)

abbrev one_if : ℕ → SymbolMapping → ℕ
one_if s e = if e.source_idx == s then 1 else 0

entries_of-set :
    (s : ℕ) (q : List SymbolMapping) (i : ℕ) (v : SymbolMapping)
    → i < length q
    → entries_of s (at_index i (λ _. v) q) + one_if s (entry q i) ≡ entries_of s q + one_if s v
unfolding entry at_index
entries_of-set s [] i v h = absurd (omega arith)
entries_of-set s (e ∷ q) zero v h = omega arith
entries_of-set s (e ∷ q) (suc i) v h = let ih = entries_of-set s q i v (omega arith) in omega arith

module _ (q : List SymbolMapping) (i j : ℕ) (hi : i < length q) (hj : j < length q) where
  pub length-swap : length (swap q i j) ≡ length q
  unfolding swap
  length-swap = length-at_index j _ (at_index i _ q) ∙ length-at_index i _ q

  inner : length (at_index i (λ _. entry q j) q) ≡ length q
  inner = length-at_index i _ q

  pub entry-swap :
      (c : ℕ)
      → entry (swap q i j) c
        ≡ (if j == c then entry q i else if i == c then entry q j else entry q c)
  unfolding swap
  entry-swap c =
      rw
        (
          entry-set (at_index i (λ _. entry q j) q) j c (entry q i) (omega (arith, inner, hj)),
          entry-set q i c (entry q j) hi,
        )
        refl

  pub coded-swap :
      (c : ℕ)
      → coded (swap q i j) c
        ≡ (if j == c then coded q i else if i == c then coded q j else coded q c)
  coded-swap c = ap (λ (e : SymbolMapping). e.coded_idx) (entry-swap c) ∙ ground arith

  pub Moved-swap : Moved q (swap q i j)
  unfolding swap
  Moved-swap = record {
    long = length-swap;
    entries = λ s.
        let kept : entry (at_index i (λ _. entry q j) q) j ≡ entry q j =
          entry-set q i j (entry q j) hi ∙ either (Bool-cases (i == j)) in
        let a = entries_of-set s q i (entry q j) hi in
        let b =
          entries_of-set s (at_index i (λ _. entry q j) q) j (entry q i)
            (omega (arith, inner, hj)) in
        let c : one_if s (entry (at_index i (λ _. entry q j) q) j) ≡ one_if s (entry q j) =
          ap (one_if s) kept in
        omega arith;
    every = λ P h.
        All-set P (at_index i (λ _. entry q j) q) j (entry q i) (All-entry P q i hi h)
          (All-set P q i (entry q j) (All-entry P q j hj h) h);
  }
    where
      either :
          ((i == j) ≡ true) ⊎ ((i == j) ≡ false)
          → (if i == j then entry q j else entry q j) ≡ entry q j
      either (inl e) = rw e refl
      either (inr e) = rw e refl
