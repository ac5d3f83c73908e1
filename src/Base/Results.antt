-- ===== src/Base/Results.antt =====
-- Rust's `Result<A, E>` with `?` as bind.
use datboi.Base.Tests.{if◌then◌else◌}
use mathlib.Core.Bool.{Bool, true, false}
use mathlib.Core.Path.{◌≡◌, refl, subst}
use mathlib.Core.Logic.{◌⊎◌, inl, inr}
use mathlib.Core.Option.{Option, none, some}

pub data Result {ℓ κ} (E : Type ℓ) (A : Type κ) : Type (ℓ ⊔ κ) where
  ok : A → Result E A
  err : E → Result E A

module _ {ℓ κ} {E : Type ℓ} {A : Type κ} where
  abbrev pub and_then {κ'} : {B : Type κ'} → Result E A → (A → Result E B) → Result E B
  and_then (ok a) f = f a
  and_then (err e) f = err e

  abbrev pub map_err {ℓ'} : {F : Type ℓ'} → (E → F) → Result E A → Result F A
  map_err f (ok a) = ok a
  map_err f (err e) = err (f e)

  abbrev pub ok_or : E → Option A → Result E A
  ok_or e none = err e
  ok_or e (some a) = ok a

  pub Result-cases : (r : Result E A) → ((a : A) × (r ≡ ok a)) ⊎ ((e : E) × (r ≡ err e))
  Result-cases (ok a) = inl (a, refl)
  Result-cases (err e) = inr (e, refl)

  -- Inversion of a successful bind.
  pub and_then-eq-ok {κ'} :
      {B : Type κ'} (m : Result E A) (f : A → Result E B) {b : B}
      → and_then m f ≡ ok b
      → (a : A) × (m ≡ ok a) × (f a ≡ ok b)
  and_then-eq-ok (ok a) f h = (a, refl, h)
  and_then-eq-ok (err e) f h = cc

pub ok-injective {ℓ κ} :
    {E : Type ℓ} {A : Type κ} (a b : A) → ◌≡◌ {A = Result E A} (ok a) (ok b) → a ≡ b
ok-injective a b e = cc

pub map_err-eq-ok {ℓ κ ℓ'} :
    {E : Type ℓ} {A : Type κ} {F : Type ℓ'} (f : E → F) (r : Result E A) {a : A}
    → map_err f r ≡ ok a
    → r ≡ ok a
map_err-eq-ok f (ok a) e = cc
map_err-eq-ok f (err x) e = cc

-- `P` holds of the value if there is one, and else `Q` holds of the error.
pub data Returns {ℓ κ ℓ' κ'} {E : Type ℓ} {A : Type κ} (Q : E → Type ℓ') (P : A → Type κ')
    : Result E A → Type (ℓ ⊔ κ ⊔ ℓ' ⊔ κ') where
  returns : {a : A} → P a → Returns Q P (ok a)
  fails : {e : E} → Q e → Returns Q P (err e)

module _ {ℓ κ ℓ' κ'} {E : Type ℓ} {A : Type κ} {Q : E → Type ℓ'} {P : A → Type κ'} where
  pub Returns-ok : {r : Result E A} {a : A} → Returns Q P r → r ≡ ok a → P a
  Returns-ok (returns h) e = subst P (cc) h
  Returns-ok (fails h) e = cc

  pub Returns-err : {r : Result E A} {x : E} → Returns Q P r → r ≡ err x → Q x
  Returns-err (returns h) e = cc
  Returns-err (fails h) e = subst Q (cc) h

  pub Returns-and_then {κ₂ λ₂} :
      {B : Type κ₂} {R : B → Type λ₂} {r : Result E A} {f : A → Result E B}
      → Returns Q P r
      → ((a : A) → P a → Returns Q R (f a))
      → Returns Q R (and_then r f)
  Returns-and_then (returns {a} h) k = k a h
  Returns-and_then (fails h) k = fails h

  pub Returns-map {λ₂} :
      {R : A → Type λ₂} {r : Result E A} → Returns Q P r → ((a : A) → P a → R a) → Returns Q R r
  Returns-map (returns {a} h) k = returns (k a h)
  Returns-map (fails h) k = fails h

  pub Returns-if :
      (b : Bool) {x y : Result E A}
      → (b ≡ true → Returns Q P x)
      → (b ≡ false → Returns Q P y)
      → Returns Q P (if b then x else y)
  Returns-if true hx hy = hx refl
  Returns-if false hx hy = hy refl
