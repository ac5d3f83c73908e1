-- ===== src/Cbor/Access.antt =====
-- How the clients of crates/datboi-core/src/cbor.rs walk a decoded value: `iter().find`, the keys
-- of a map, and `iter().map(f).collect()` into a result.
use datboi.Base.{
  ℕ, suc, List, [], ◌∷◌, Option, none, some, ◌==◌, if◌then◌else◌, Result, ok, and_then,
  and_then-eq-ok, ◌≡◌, refl, All, length, ap,
}
use datboi.Cbor.Canonical.{IsCanonical, AllCanonical}
use datboi.Cbor.Value.{Value, Items, Entries, nil, cons, end, entry, length_items}

unfoldable pub find_key : ℕ → Entries → Option Value
find_key k end = none
find_key k (entry j v es) = if j == k then some v else find_key k es

unfoldable pub keys : Entries → List ℕ
keys end = []
keys (entry k v es) = k ∷ keys es

module _ {A : Type 0} where
  unfoldable pub items_of : (A → Value) → List A → Items
  items_of f [] = nil
  items_of f (a ∷ l) = cons (f a) (items_of f l)

  unfoldable pub collect {ℓ} : {E : Type ℓ} → (Value → Result E A) → Items → Result E (List A)
  collect f nil = ok []
  collect f (cons v vs) = and_then (f v) λ a. and_then (collect f vs) λ l. ok (a ∷ l)

  -- A list printed item by item is collected again.
  pub collect-items_of {ℓ} :
      {E : Type ℓ} (f : Value → Result E A) (g : A → Value) (P : A → Type 0) (l : List A)
      → ((a : A) → P a → f (g a) ≡ ok a)
      → All P l
      → collect f (items_of g l) ≡ ok l
  unfolding collect items_of
  collect-items_of f g P [] h a = refl
  collect-items_of f g P (x ∷ l) h a = rw (h x a.0, collect-items_of f g P l h a.1)

  -- What was collected prints as the items that it was collected from.
  pub items_of-collect {ℓ} :
      {E : Type ℓ} (f : Value → Result E A) (g : A → Value) (vs : Items) (l : List A)
      → ((v : Value) (a : A) → f v ≡ ok a → g a ≡ v)
      → collect f vs ≡ ok l
      → items_of g l ≡ vs
  unfolding collect items_of
  items_of-collect f g nil [] h e = refl
  items_of-collect f g nil (x ∷ l) h e = cc
  items_of-collect f g (cons v vs) l h e =
      let (a, ea, e₁) = and_then-eq-ok (f v) _ e in
      let (l', el, e₂) = and_then-eq-ok (collect f vs) _ e₁ in
      let whole : a ∷ l' ≡ l = cc in rw (← whole, h v a ea, items_of-collect f g vs l' h el)

  pub length-items_of : (g : A → Value) (l : List A) → length_items (items_of g l) ≡ length l
  unfolding items_of
  length-items_of g [] = refl
  length-items_of g (x ∷ l) = ap suc (length-items_of g l)

-- The same where the items are known to be canonical.
pub items_of-collect_canonical {ℓ} :
    {A : Type 0} {E : Type ℓ} (f : Value → Result E A) (g : A → Value) (vs : Items) (l : List A)
    → ((v : Value) (a : A) → IsCanonical v → f v ≡ ok a → g a ≡ v)
    → AllCanonical vs
    → collect f vs ≡ ok l
    → items_of g l ≡ vs
unfolding collect items_of IsCanonical
items_of-collect_canonical f g nil [] h c e = refl
items_of-collect_canonical f g nil (x ∷ l) h c e = cc
items_of-collect_canonical f g (cons v vs) l h c e =
    let (a, ea, e₁) = and_then-eq-ok (f v) _ e in
    let (l', el, e₂) = and_then-eq-ok (collect f vs) _ e₁ in
    let whole : a ∷ l' ≡ l = cc in
    rw (← whole, h v a c.0 ea, items_of-collect_canonical f g vs l' h c.1 el)
