-- ===== src/Snapshot/Opening.antt =====
-- What the envelope reader of crates/datboi-core/src/snapshot.rs takes out of an object: the header of a
-- state snapshot, and the three fields of its map.
use datboi.Base.{
  ℕ, ◌≤◌, ◌<◌, List, [], ◌∷◌, ◌++◌, drop, drop-append_length, length, Option, none, some, ◌==◌,
  ==_iff, list_eq, list_eq→eq, list_eq_refl, ok, and_then-eq-ok, ok-injective, Bool-cases,
  Option-cases, inl, inr, ◌≡◌, refl, sym, ap, ◌∙◌, arith, subst,
}
use datboi.Utf8.{is_utf8, valid_from, next_byte, first_byte}
use datboi.Cbor.Value.{Value, Entries, uint, bytes, text, array, map, end}
use datboi.Cbor.Canonical.{Ascends}
use datboi.Cbor.Fields.{for_entries, opt, for_entries-KeysIn_one, three_fields}
use datboi.Object.Sniff.{
  ObjectKind, state_snapshot, sniff, sniff_line, parse_version, parse_u32, leading_zero, all_digits,
  is_digit, split_once, strip_prefix, kind_of, tag,
}
use datboi.Object.Header.{header, sniff_sound}
use datboi.Recipe.Bytes.{version_one}
use datboi.Snapshot.Defs
use datboi.Snapshot.Defs.{as_map, as_bytes, as_fixed, expect_object}
use datboi.Snapshot.Envelope.{statesnap_header, EnvelopeFields, envelope_field}

as_bytes-eq-ok : (v : Value) (b : List ℕ) → as_bytes v ≡ ok b → v ≡ bytes b
unfolding as_bytes
as_bytes-eq-ok (bytes c) b e = let same : c ≡ b = ok-injective _ _ e in ap bytes same
as_bytes-eq-ok (uint n) b e = cc
as_bytes-eq-ok (text t) b e = cc
as_bytes-eq-ok (array vs) b e = cc
as_bytes-eq-ok (map es) b e = cc

as_fixed-eq-ok :
    (n : ℕ) (v : Value) (problem : Defs.Problem) (b : List ℕ)
    → as_fixed n v problem ≡ ok b
    → (v ≡ bytes b) × (length b ≡ n)
unfolding as_fixed
as_fixed-eq-ok n v problem b e =
    let (c, e₁, e₂) = and_then-eq-ok (as_bytes v) _ e in
    elim (Bool-cases (length c == n)) [
      | inl t ↦
          let same : c ≡ b = ok-injective _ _ (rw t at e₂) in
          let long : length c ≡ n = (==_iff (length c) n).0 t in
          (as_bytes-eq-ok v c e₁ ∙ ap bytes same, ap length (sym same) ∙ long)
      | inr f ↦ cc (rw f at e₂)
    ]

pub map_value : (v : Value) (es : Entries) → as_map v ≡ ok es → v ≡ map es
unfolding as_map
map_value (map fs) es e = let same : fs ≡ es = ok-injective _ _ e in ap map same
map_value (uint n) es e = cc
map_value (bytes b) es e = cc
map_value (text t) es e = cc
map_value (array vs) es e = cc

-- What is behind the header of a state snapshot.
header_one : header state_snapshot (b'1' ∷ []) ≡ statesnap_header
unfolding header tag
header_one = refl

as_snapshot :
    (k : ObjectKind)
    → tag k ≡ tag state_snapshot
    → header k (b'1' ∷ []) ≡ header state_snapshot (b'1' ∷ [])
unfolding header
as_snapshot k e = rw e refl

pub opened :
    (bs body : List ℕ) → expect_object bs state_snapshot 1 ≡ ok body → bs ≡ statesnap_header ++ body
unfolding expect_object
opened bs body e = elim (Option-cases (sniff bs)) [
  | inl other ↦ cc (rw other at e)
  | inr ((k, v, at), found) ↦
      let (ds, behind, split, parsed, place) = sniff_sound bs k v at found in
      elim (Bool-cases (list_eq (tag k) (tag state_snapshot))) [
        | inr f ↦ cc (rw (found, f) at e)
        | inl same_tag ↦ elim (Bool-cases (v == 1)) [
          | inr f ↦ cc (rw (found, same_tag, f) at e)
          | inl t ↦
              let one : v ≡ 1 = (==_iff v 1).0 t in
              let digits = version_one ds (rw one at parsed) in
              let is_body : drop at bs ≡ body = ok-injective _ _ (rw (found, same_tag, t) at e) in
              let rest : drop at bs ≡ behind =
                rw (place, split) (drop-append_length (header k ds) behind) in
              let tags = list_eq→eq (tag k) (tag state_snapshot) same_tag in
              let front : header k ds ≡ statesnap_header =
                ap (λ d. header k d) digits ∙ as_snapshot k tags ∙ header_one in
              split ∙ rw front (ap (λ t. statesnap_header ++ t) (sym rest ∙ is_body))
        ]
      ]
]

header_found : (body : List ℕ) → sniff (statesnap_header ++ body) ≡ some (state_snapshot, 1, 19)
unfolding sniff sniff_line parse_version parse_u32 leading_zero all_digits is_digit split_once
    strip_prefix kind_of tag is_utf8 valid_from next_byte first_byte list_eq
header_found body = refl

pub opens : (body : List ℕ) → expect_object (statesnap_header ++ body) state_snapshot 1 ≡ ok body
unfolding expect_object
opens body = let same = list_eq_refl (tag state_snapshot) in rw (header_found body, same) refl

abbrev pub fields : Option (List ℕ) → Option (List ℕ) → Option (List ℕ) → EnvelopeFields
fields x y z = record { payload = x; public_key = y; signature = z }

envelope_known :
    (k : ℕ) (v : Value) (st st' : EnvelopeFields)
    → envelope_field k v st ≡ ok st'
    → (1 ≤ k) × (k < 4)
unfolding envelope_field
envelope_known k v st st' e = ground arith

-- What a field of a length holds.
abbrev pub Long : ℕ → Option (List ℕ) → Type 0
Long n none = Unit {0}
Long n (some b) = length b ≡ n

abbrev pub held : Option (List ℕ) → Option Value
held none = none
held (some b) = some (bytes b)

-- Each field is put where it belongs, if it is there.
payload_read :
    (o : Option Value) (rest : Entries) (st : EnvelopeFields)
    → for_entries envelope_field (opt 1 o rest) (fields none none none) ≡ ok st
    → (x : Option (List ℕ)) × (o ≡ held x)
      × (for_entries envelope_field rest (fields x none none) ≡ ok st)
unfolding for_entries envelope_field
payload_read none rest st e = (none, refl, e)
payload_read (some v) rest st e =
    let (st', e₁, e₂) = and_then-eq-ok (envelope_field 1 v (fields none none none)) _ e in
    let (b, e₃, e₄) = and_then-eq-ok (as_bytes v) _ e₁ in
    let same : fields (some b) none none ≡ st' = ok-injective _ _ e₄ in
    (some b, ap some (as_bytes-eq-ok v b e₃), rw same e₂)

key_read :
    (o : Option Value) (rest : Entries) (x : Option (List ℕ)) (st : EnvelopeFields)
    → for_entries envelope_field (opt 2 o rest) (fields x none none) ≡ ok st
    → (y : Option (List ℕ)) × (o ≡ held y)
      × Long 32 y
      × (for_entries envelope_field rest (fields x y none) ≡ ok st)
unfolding for_entries envelope_field
key_read none rest x st e = (none, refl, tt, e)
key_read (some v) rest x st e =
    let (st', e₁, e₂) = and_then-eq-ok (envelope_field 2 v (fields x none none)) _ e in
    let (b, e₃, e₄) = and_then-eq-ok (as_fixed 32 v Defs.key_length) _ e₁ in
    let (is_b, long) = as_fixed-eq-ok 32 v Defs.key_length b e₃ in
    let same : fields x (some b) none ≡ st' = ok-injective _ _ e₄ in
    (some b, ap some is_b, long, rw same e₂)

signature_read :
    (o : Option Value) (x y : Option (List ℕ)) (st : EnvelopeFields)
    → for_entries envelope_field (opt 3 o end) (fields x y none) ≡ ok st
    → (z : Option (List ℕ)) × (o ≡ held z) × Long 64 z × (fields x y z ≡ st)
unfolding for_entries envelope_field
signature_read none x y st e = (none, refl, tt, ok-injective _ _ e)
signature_read (some v) x y st e =
    let (st', e₁, e₂) = and_then-eq-ok (envelope_field 3 v (fields x y none)) _ e in
    let (b, e₃, e₄) = and_then-eq-ok (as_fixed 64 v Defs.signature_length) _ e₁ in
    let (is_b, long) = as_fixed-eq-ok 64 v Defs.signature_length b e₃ in
    let same : fields x y (some b) ≡ st' = ok-injective _ _ e₄ in
    (some b, ap some is_b, long, same ∙ ok-injective _ _ e₂)

-- An envelope whose keys ascend, read field by field.
pub record Opened (es : Entries) (st : EnvelopeFields) : Type 0 where
  pub shape :
      es ≡ opt 1 (held st.payload) (opt 2 (held st.public_key) (opt 3 (held st.signature) end))
  pub key_long : Long 32 st.public_key
  pub signature_long : Long 64 st.signature

pub fields_read :
    (es : Entries) (st : EnvelopeFields)
    → Ascends none es
    → for_entries envelope_field es (fields none none none) ≡ ok st
    → Opened es st
fields_read es st ascends e =
    let (o, p, q, shape) =
      three_fields 1 es
        (for_entries-KeysIn_one envelope_field 4 es _ st envelope_known ascends e) in
    let (x, ox, e₁) = payload_read o (opt 2 p (opt 3 q end)) st (rw shape at e) in
    let (y, py, long₁, e₂) = key_read p (opt 3 q end) x st e₁ in
    let (z, qz, long₂, same) = signature_read q x y st e₂ in
    subst (Opened es) same
      (record { shape = shape ∙ rw (ox, py, qz) refl; key_long = long₁; signature_long = long₂ })
