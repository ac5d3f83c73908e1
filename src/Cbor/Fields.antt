-- ===== src/Cbor/Fields.antt =====
-- The loops `for (key, val) in entries` of the clients of crates/datboi-core/src/cbor.rs, and the
-- maps that they accept when the keys ascend.
use datboi.Base.{
  ℕ, suc, ◌≤◌, ◌<◌, Option, none, some, ◌==◌, ==_iff, Result, ok, and_then, and_then-eq-ok, ◌≡◌,
  refl, ap, arith, Bool-cases, inl, inr, ◌∙◌,
}
use datboi.Cbor.Value.{Value, Entries, end, entry}
use datboi.Cbor.Canonical.{IsCanonical, Ascends}
use datboi.Cbor.Access.{find_key}

-- The loop, which a step's error leaves at once.
unfoldable pub for_entries {ℓ} :
    {E : Type ℓ} {St : Type 0} → (ℕ → Value → St → Result E St) → Entries → St → Result E St
for_entries step end st = ok st
for_entries step (entry k v es) st = and_then (step k v st) λ st'. for_entries step es st'

-- A field that may be there, before the others.
abbrev pub opt : ℕ → Option Value → Entries → Entries
opt k none es = es
opt k (some v) es = entry k v es

-- The keys of a map lie from `lo` to below `hi`, and ascend.
abbrev pub KeysIn : ℕ → ℕ → Entries → Type 0
KeysIn lo hi end = Unit {0}
KeysIn lo hi (entry k v es) = (lo ≤ k) × (k < hi) × KeysIn (suc k) hi es

KeysIn-weaken : (lo lo' hi : ℕ) (es : Entries) → lo' ≤ lo → KeysIn lo hi es → KeysIn lo' hi es
KeysIn-weaken lo lo' hi end h k = tt
KeysIn-weaken lo lo' hi (entry k v es) h (a, b, c) = (omega arith, b, c)

KeysIn-find_key : (lo hi k : ℕ) (es : Entries) → KeysIn lo hi es → k < lo → find_key k es ≡ none
unfolding find_key
KeysIn-find_key lo hi k end h l = refl
KeysIn-find_key lo hi k (entry j v es) (a, b, c) l =
    ground (arith, KeysIn-find_key (suc j) hi k es c (omega arith))

-- The first field split off.
pub first_field :
    (lo hi : ℕ) (es : Entries)
    → KeysIn lo hi es
    → (o : Option Value) × (rest : Entries) × (es ≡ opt lo o rest) × KeysIn (suc lo) hi rest
first_field lo hi end h = (none, end, refl, tt)
first_field lo hi (entry k v es) (a, b, c) = elim (Bool-cases (k == lo)) [
  | inl e ↦ let q : k ≡ lo = (==_iff k lo).0 e in (some v, es, rw q refl, rw q at c)
  | inr e ↦ (none, entry k v es, refl, (ground arith, b, c))
]

pub no_field : (lo : ℕ) (es : Entries) → KeysIn lo lo es → es ≡ end
no_field lo end h = refl
no_field lo (entry k v es) (a, b, c) = absurd (omega arith)

-- A loop that refuses every key but those below `hi` leaves only ascending keys in that range.
pub for_entries-KeysIn {ℓ} :
    {E : Type ℓ} {St : Type 0} (step : ℕ → Value → St → Result E St) (hi prev : ℕ) (es : Entries)
    (st st' : St)
    → ((k : ℕ) (v : Value) (st st' : St) → step k v st ≡ ok st' → k < hi)
    → Ascends (some prev) es
    → for_entries step es st ≡ ok st'
    → KeysIn (suc prev) hi es
unfolding for_entries IsCanonical
for_entries-KeysIn step hi prev end st st' known a e = tt
for_entries-KeysIn step hi prev (entry k v es) st st' known (hk, up, cv, a) e =
    let (mid, e₁, e₂) = and_then-eq-ok (step k v st) _ e in
    (up, known k v st mid e₁, for_entries-KeysIn step hi k es mid st' known a e₂)

-- The same from the front, where 0 is no key.
pub for_entries-KeysIn_one {ℓ} :
    {E : Type ℓ} {St : Type 0} (step : ℕ → Value → St → Result E St) (hi : ℕ) (es : Entries)
    (st st' : St)
    → ((k : ℕ) (v : Value) (st st' : St) → step k v st ≡ ok st' → (1 ≤ k) × (k < hi))
    → Ascends none es
    → for_entries step es st ≡ ok st'
    → KeysIn 1 hi es
unfolding for_entries IsCanonical
for_entries-KeysIn_one step hi end st st' known a e = tt
for_entries-KeysIn_one step hi (entry k v es) st st' known (hk, up, cv, a) e =
    let (mid, e₁, e₂) = and_then-eq-ok (step k v st) _ e in
    let (lo, top) = known k v st mid e₁ in
    (lo, top, for_entries-KeysIn step hi k es mid st' (λ k v s t q. (known k v s t q).1) a e₂)

-- Maps with two, three or four possible fields.
pub two_fields :
    (lo : ℕ) (es : Entries)
    → KeysIn lo (suc (suc lo)) es
    → (o : Option Value) × (p : Option Value) × (es ≡ opt lo o (opt (suc lo) p end))
two_fields lo es h =
    let (o, es₁, e, h₁) = first_field lo (suc (suc lo)) es h in
    let (p, es₂, e₁, h₂) = first_field (suc lo) (suc (suc lo)) es₁ h₁ in
    (o, p, e ∙ ap (opt lo o) (e₁ ∙ ap (opt (suc lo) p) (no_field (suc (suc lo)) es₂ h₂)))

pub three_fields :
    (lo : ℕ) (es : Entries)
    → KeysIn lo (suc (suc (suc lo))) es
    → (o : Option Value) × (p : Option Value) × (q : Option Value) × (es
        ≡ opt lo o (opt (suc lo) p (opt (suc (suc lo)) q end)))
three_fields lo es h =
    let (o, es₁, e, h₁) = first_field lo (suc (suc (suc lo))) es h in
    let (p, q, e₁) = two_fields (suc lo) es₁ h₁ in (o, p, q, e ∙ ap (opt lo o) e₁)

pub four_fields :
    (lo : ℕ) (es : Entries)
    → KeysIn lo (suc (suc (suc (suc lo)))) es
    → (o : Option Value) × (p : Option Value) × (q : Option Value) × (r : Option Value) × (es
        ≡ opt lo o (opt (suc lo) p (opt (suc (suc lo)) q (opt (suc (suc (suc lo))) r end))))
four_fields lo es h =
    let (o, es₁, e, h₁) = first_field lo (suc (suc (suc (suc lo)))) es h in
    let (p, q, r, e₁) = three_fields (suc lo) es₁ h₁ in (o, p, q, r, e ∙ ap (opt lo o) e₁)
