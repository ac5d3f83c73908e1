-- ===== src/Snapshot/Signed.antt =====
-- Which bytes `StateSnapshot::decode` of crates/datboi-core/src/snapshot.rs accepts.
use datboi.Base.{
  ℕ, ◌+◌, ◌≤◌, List, ◌++◌, drop-append_length, length, Option, none, some, Bool, true, ==_iff, ok,
  IsBytes, All-drop, IsByte, map_err, and_then-eq-ok, map_err-eq-ok, ok-injective, Bool-cases, inl,
  inr, ◌≡◌, refl, ap, ◌∙◌, ◌↔◌, arith, subst,
}
use datboi.Cbor.Value.{Value, Entries, bytes, map, end, entry, max_depth}
use datboi.Cbor.Decode.{decode as cbor_decode}
use datboi.Cbor.Canonical.{IsCanonical, levels, emit}
use datboi.Cbor.RoundTrip.{decode-emit}
use datboi.Cbor.Codec.{decode-eq-ok_iff}
use datboi.Cbor.Fields.{for_entries}
use datboi.Object.Sniff.{state_snapshot}
use datboi.Snapshot.Defs
use datboi.Snapshot.Defs.{as_map, as_bytes, as_fixed, expect_object}
use datboi.Snapshot.Payload.{SnapshotPayload, validate}
use datboi.Snapshot.Decoding.{payload_from_bytes}
use datboi.Snapshot.Envelope.{
  statesnap_header, StateSnapshot, envelope_field, snapshot_from_fields, decode_snapshot,
}
use datboi.Snapshot.Opening.{map_value, opened, opens, fields, Opened, fields_read}

-- The map behind the header.
abbrev pub envelope : List ℕ → List ℕ → List ℕ → Value
envelope payload public_key signature =
    map (entry 1 (bytes payload) (entry 2 (bytes public_key) (entry 3 (bytes signature) end)))

-- The bytes are the header and the print of an envelope with the key of the snapshot, in which the
-- signature verifies for the header and the payload, and the payload is that of the snapshot.
pub record IsSigned (verifies : List ℕ → List ℕ → List ℕ → Bool) (bs : List ℕ) (s : StateSnapshot)
    : Type 0 where
  pub payload : List ℕ
  pub signature : List ℕ
  pub written : bs ≡ statesnap_header ++ emit (envelope payload s.public_key signature)
  pub canonical : IsCanonical (envelope payload s.public_key signature)
  pub key_long : length s.public_key ≡ 32
  pub signature_long : length signature ≡ 64
  pub signed : verifies s.public_key (statesnap_header ++ payload) signature ≡ true
  pub decoded : payload_from_bytes payload ≡ ok s.payload
  pub valid : validate s.payload ≡ ok tt

behind : (body : List ℕ) → IsBytes (statesnap_header ++ body) → IsBytes body
behind body h =
    subst IsBytes (drop-append_length statesnap_header body)
      (All-drop IsByte 19 (statesnap_header ++ body) h)

shallow :
    (payload public_key signature : List ℕ)
    → levels (envelope payload public_key signature) ≤ max_depth + 1
unfolding levels
shallow payload public_key signature = omega arith

module _ (verifies : List ℕ → List ℕ → List ℕ → Bool) where
  -- The fields that are required, with what `decode` checks of them.
  fields-IsSigned :
      (bs : List ℕ) (es : Entries) (x y z : Option (List ℕ)) (s : StateSnapshot)
      → bs ≡ statesnap_header ++ emit (map es)
      → IsCanonical (map es)
      → Opened es (fields x y z)
      → snapshot_from_fields verifies (fields x y z) ≡ ok s
      → IsSigned verifies bs s
  unfolding snapshot_from_fields
  fields-IsSigned bs es (some p) (some k) (some z) s written canonical o e =
      elim (Bool-cases (verifies k (statesnap_header ++ p) z)) [
        | inl signed ↦
            let (decoded, ed, e₁) = and_then-eq-ok (payload_from_bytes p) _ (rw signed at e) in
            let (u, ev, e₂) = and_then-eq-ok (validate decoded) _ e₁ in
            let same : record { payload = decoded; public_key = k } ≡ s = ok-injective _ _ e₂ in
            subst (IsSigned verifies bs) same (record {
              payload = p;
              signature = z;
              written = written ∙ ap (λ x. statesnap_header ++ emit (map x)) o.shape;
              canonical = rw o.shape at canonical;
              key_long = o.key_long;
              signature_long = o.signature_long;
              signed = signed;
              decoded = ed;
              valid = ev;
            })
        | inr refused ↦ cc (rw refused at e)
      ]
  fields-IsSigned bs es none y z s written canonical o e = cc e
  fields-IsSigned bs es (some p) none z s written canonical o e = cc e
  fields-IsSigned bs es (some p) (some k) none s written canonical o e = cc e

  accepted :
      (bs : List ℕ) (s : StateSnapshot)
      → IsBytes bs
      → decode_snapshot verifies bs ≡ ok s
      → IsSigned verifies bs s
  unfolding decode_snapshot
  accepted bs s hb e =
      let (body, eb, e₁) = and_then-eq-ok (expect_object bs state_snapshot 1) _ e in
      let (value, ev, e₂) = and_then-eq-ok (map_err Defs.cbor (cbor_decode body)) _ e₁ in
      let (es, em, e₃) = and_then-eq-ok (as_map value) _ e₂ in
      let (st, ef, e₄) =
        and_then-eq-ok (for_entries envelope_field es _) (snapshot_from_fields verifies) e₃ in
      let is_map = map_value value es em in
      let split = opened bs body eb in
      let rest = behind body (subst IsBytes split hb) in
      let (canonical, shallow, printed) =
        (decode-eq-ok_iff body value rest).0 (map_err-eq-ok Defs.cbor (cbor_decode body) ev) in
      let canonical_map : IsCanonical (map es) = rw is_map at canonical in
      fields-IsSigned bs es st.payload st.public_key st.signature s
        (split ∙ ap (λ t. statesnap_header ++ t) (printed ∙ ap emit is_map)) canonical_map
        (fields_read es st (unfold IsCanonical in canonical_map.1) ef) e₄

  printed_back :
      (payload k signature : List ℕ) (p : SnapshotPayload)
      → length k ≡ 32
      → length signature ≡ 64
      → IsCanonical (envelope payload k signature)
      → verifies k (statesnap_header ++ payload) signature ≡ true
      → payload_from_bytes payload ≡ ok p
      → validate p ≡ ok tt
      → decode_snapshot verifies (statesnap_header ++ emit (envelope payload k signature))
        ≡ ok (record { payload = p; public_key = k })
  unfolding decode_snapshot snapshot_from_fields envelope_field for_entries as_map as_bytes as_fixed
  printed_back payload k signature p long₁ long₂ canonical signed decoded valid =
      let opens = opens (emit (envelope payload k signature)) in
      let back =
        decode-emit (envelope payload k signature) canonical (shallow payload k signature) in
      let key = (==_iff (length k) 32).1 long₁ in
      let sig = (==_iff (length signature) 64).1 long₂ in
      rw (opens, back, key, sig, signed, decoded, valid) refl

  -- On bytes, `decode` answers with a snapshot exactly when they are the header and the canonical print
  -- of a map of three byte strings: a payload, the public key of the snapshot, of 32 bytes, and a
  -- signature, of 64, that verifies under that key for the header and the payload; and the payload
  -- decodes to that of the snapshot, which is valid.
  pub decode_snapshot-eq-ok_iff :
      (bs : List ℕ) (s : StateSnapshot)
      → IsBytes bs
      → (decode_snapshot verifies bs ≡ ok s) ↔ IsSigned verifies bs s
  decode_snapshot-eq-ok_iff bs s hb = (
    accepted bs s hb,
    (λ i.
        ap (decode_snapshot verifies) i.written
        ∙ printed_back i.payload s.public_key i.signature s.payload i.key_long i.signature_long
            i.canonical i.signed i.decoded i.valid),
  )
