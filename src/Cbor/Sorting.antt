-- ===== src/Cbor/Sorting.antt =====
-- The map keys of crates/datboi-core/src/cbor.rs: sorting by key, and what the duplicate check
-- leaves.
use datboi.Base.{
  ℕ, suc, ◌≤◌, Option, none, some, List, [], ◌∷◌, length, All, ◌≡◌, ◌==◌, leb, refl, ap, ◌∙◌, arith,
  tests, Bool-cases, inl, inr,
}
use datboi.Cbor.Encode.{insert_by_key, sort_by_key, repeated_key}
use datboi.Cbor.Canonical.{Above}

module _ {ℓ} {A : Type ℓ} where
  -- Each key comes after the one before.
  abbrev pub Ascending : Option ℕ → List (ℕ × A) → Type 0
  Ascending prev [] = Unit
  Ascending prev ((k, a) ∷ l) = Above prev k × Ascending (some k) l

  abbrev pub NoLess : ℕ → List (ℕ × A) → Type 0
  NoLess k = All (λ p. k ≤ p.0)

  abbrev pub NonDecreasing : List (ℕ × A) → Type 0
  NonDecreasing [] = Unit
  NonDecreasing ((k, a) ∷ l) = NoLess k l × NonDecreasing l

  NoLess-trans : (k j : ℕ) (l : List (ℕ × A)) → k ≤ j → NoLess j l → NoLess k l
  NoLess-trans k j [] h q = tt
  NoLess-trans k j (p ∷ l) h q = (omega arith, NoLess-trans k j l h q.1)

  Ascending-NoLess : (k : ℕ) (l : List (ℕ × A)) → Ascending (some k) l → NoLess k l
  Ascending-NoLess k [] h = tt
  Ascending-NoLess k ((j, a) ∷ l) (h, hs) =
      (omega arith, NoLess-trans k j l (omega arith) (Ascending-NoLess j l hs))

  insert_first : (k : ℕ) (a : A) (l : List (ℕ × A)) → NoLess k l → insert_by_key k a l ≡ (k, a) ∷ l
  unfolding insert_by_key
  insert_first k a [] h = refl
  insert_first k a ((j, b) ∷ l) h = ground arith

  -- Sorted input is left as it is.
  pub sort-Ascending : (prev : Option ℕ) (l : List (ℕ × A)) → Ascending prev l → sort_by_key l ≡ l
  unfolding sort_by_key
  sort-Ascending prev [] h = refl
  sort-Ascending prev ((k, a) ∷ l) h =
      rw (sort-Ascending (some k) l h.1, insert_first k a l (Ascending-NoLess k l h.1))

  pub repeated_key-Ascending :
      (prev : Option ℕ) (l : List (ℕ × A)) → Ascending prev l → repeated_key l ≡ none
  unfolding repeated_key
  repeated_key-Ascending prev [] h = refl
  repeated_key-Ascending prev ((k, a) ∷ []) h = refl
  repeated_key-Ascending prev ((k, a) ∷ (j, b) ∷ l) h =
      ground (arith, repeated_key-Ascending (some k) ((j, b) ∷ l) h.1)

  NoLess-insert :
      (m k : ℕ) (a : A) (l : List (ℕ × A)) → m ≤ k → NoLess m l → NoLess m (insert_by_key k a l)
  unfolding insert_by_key
  NoLess-insert m k a [] h q = (h, tt)
  NoLess-insert m k a ((j, b) ∷ l) h q = elim (Bool-cases (leb k j)) [
    | inl e ↦ rw e (h, q)
    | inr e ↦ rw e (q.0, NoLess-insert m k a l h q.1)
  ]

  insert-NonDecreasing :
      (k : ℕ) (a : A) (l : List (ℕ × A)) → NonDecreasing l → NonDecreasing (insert_by_key k a l)
  unfolding insert_by_key
  insert-NonDecreasing k a [] q = (tt, tt)
  insert-NonDecreasing k a ((j, b) ∷ l) q = elim (Bool-cases (leb k j)) [
    | inl e ↦ rw e ((omega tests, NoLess-trans k j l (omega tests) q.0), q)
    | inr e ↦ rw e (NoLess-insert j k a l (ground arith) q.0, insert-NonDecreasing k a l q.1)
  ]

  pub sort-NonDecreasing : (l : List (ℕ × A)) → NonDecreasing (sort_by_key l)
  unfolding sort_by_key
  sort-NonDecreasing [] = tt
  sort-NonDecreasing ((k, a) ∷ l) = insert-NonDecreasing k a (sort_by_key l) (sort-NonDecreasing l)

  after_first :
      (k : ℕ) (a : A) (l : List (ℕ × A))
      → NonDecreasing ((k, a) ∷ l)
      → repeated_key ((k, a) ∷ l) ≡ none
      → Ascending (some k) l
  unfolding repeated_key
  after_first k a [] q e = tt
  after_first k a ((j, b) ∷ l) q e = elim (Bool-cases (k == j)) [
    | inl same ↦ cc (rw same at e)
    | inr other ↦ (ground arith, after_first j b l q.1 (rw other at e))
  ]

  -- In a sorted list with no key repeated the keys strictly ascend.
  pub NonDecreasing-Ascending :
      (l : List (ℕ × A)) → NonDecreasing l → repeated_key l ≡ none → Ascending none l
  NonDecreasing-Ascending [] q e = tt
  NonDecreasing-Ascending ((k, a) ∷ l) q e = (tt, after_first k a l q e)

  length-insert : (k : ℕ) (a : A) (l : List (ℕ × A)) → length (insert_by_key k a l) ≡ suc (length l)
  unfolding insert_by_key
  length-insert k a [] = refl
  length-insert k a ((j, b) ∷ l) = ground (arith, length-insert k a l)

  pub length-sort : (l : List (ℕ × A)) → length (sort_by_key l) ≡ length l
  unfolding sort_by_key
  length-sort [] = refl
  length-sort ((k, a) ∷ l) = length-insert k a (sort_by_key l) ∙ ap suc (length-sort l)
