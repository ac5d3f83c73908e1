-- ===== src/Snapshot/Envelope.antt =====
-- `encode_signed` and `StateSnapshot` of crates/datboi-core/src/snapshot.rs. Signing and verifying
-- are ed25519's, through crates/datboi-core/src/identity.rs: parameters here.
use datboi.Base.{
  ℕ, List, [], ◌∷◌, ◌++◌, Option, none, some, Bool, ◌==◌, list_eq, if◌then◌else◌, ok, err, and_then,
  map_err, ok_or,
}
use datboi.Cbor.Value.{Value, bytes, map, end, entry}
use datboi.Cbor.Encode as Cbor
use datboi.Cbor.Decode.{decode as cbor_decode}
use datboi.Cbor.Fields.{for_entries}
use datboi.Object.Sniff.{state_snapshot}
use datboi.Snapshot.Defs
use datboi.Snapshot.Payload.{SnapshotPayload, validate, payload_bytes}
use datboi.Snapshot.Decoding.{payload_from_bytes}

abbrev pub statesnap_header : List ℕ
statesnap_header =
    b'd' ∷ b'a' ∷ b't' ∷ b'b' ∷ b'o' ∷ b'i' ∷ b'/' ∷ b's' ∷ b't' ∷ b'a' ∷ b't' ∷ b'e' ∷ b's' ∷ b'n'
    ∷ b'a' ∷ b'p' ∷ b'/' ∷ b'1' ∷ b'\n' ∷ []

pub record StateSnapshot : Type 0 where
  pub payload : SnapshotPayload
  pub public_key : List ℕ

pub record EnvelopeFields : Type 0 where
  pub payload : Option (List ℕ)
  pub public_key : Option (List ℕ)
  pub signature : Option (List ℕ)

unfoldable pub envelope_field : ℕ → Value → EnvelopeFields → Defs.S EnvelopeFields
envelope_field key val st =
    if key == 1
    then (and_then (Defs.as_bytes val) λ b. ok (record st { payload = some b }))
    else if key == 2
    then (and_then (Defs.as_fixed 32 val Defs.key_length)
        λ b. ok (record st { public_key = some b }))
    else if key == 3
    then (and_then (Defs.as_fixed 64 val Defs.signature_length)
        λ b. ok (record st { signature = some b }))
    else err (Defs.invalid Defs.unknown_envelope_key)

-- The identity's public key and what it signs a message with.
unfoldable pub encode_signed : List ℕ → (List ℕ → List ℕ) → SnapshotPayload → Defs.S (List ℕ)
encode_signed public_key sign p = and_then (payload_bytes p) λ payload.
    and_then
      (map_err (λ _. Defs.panicked)
        (Cbor.encode (
          map (
            entry 1 (bytes payload) (
              entry 2 (bytes public_key)
                (entry 3 (bytes (sign (statesnap_header ++ payload))) end))))))
      λ body. ok (statesnap_header ++ body)

-- `StateSnapshot::verify`
unfoldable pub verify_key : StateSnapshot → List ℕ → Defs.S (Unit {0})
verify_key s expected = if list_eq s.public_key expected then ok tt else err Defs.bad_signature

module _ (verifies : List ℕ → List ℕ → List ℕ → Bool) where
  -- From the loop on: what the fields hold is checked, then the signature, then the payload.
  unfoldable pub snapshot_from_fields : EnvelopeFields → Defs.S StateSnapshot
  snapshot_from_fields st =
      and_then (ok_or (Defs.invalid Defs.missing_payload) st.payload) λ payload.
        and_then (ok_or (Defs.invalid Defs.missing_key) st.public_key) λ public_key.
          and_then (ok_or (Defs.invalid Defs.missing_signature) st.signature) λ signature.
            if verifies public_key (statesnap_header ++ payload) signature
            then (and_then (payload_from_bytes payload) λ decoded.
                and_then (validate decoded)
                  λ _. ok (record { payload = decoded; public_key = public_key }))
            else err Defs.bad_signature

  unfoldable pub decode_snapshot : List ℕ → Defs.S StateSnapshot
  decode_snapshot bs = and_then (Defs.expect_object bs state_snapshot 1) λ body.
      and_then (map_err Defs.cbor (cbor_decode body)) λ value. and_then (Defs.as_map value) λ es.
        and_then
          (for_entries envelope_field es
            (record { payload = none; public_key = none; signature = none }))
          snapshot_from_fields
