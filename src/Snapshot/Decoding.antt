-- ===== src/Snapshot/Decoding.antt =====
-- `payload_from_bytes` of crates/datboi-core/src/snapshot.rs.
use datboi.Base.{
  ℕ, List, [], Option, none, some, ◌==◌, if◌then◌else◌, ok, err, and_then, map_err, ok_or,
}
use datboi.Cbor.Value.{Value, array, nil}
use datboi.Cbor.Decode.{decode as cbor_decode}
use datboi.Cbor.Access.{collect}
use datboi.Cbor.Fields.{for_entries}
use datboi.Snapshot.Defs
use datboi.Snapshot.Payload.{
  SourceRef, Named, SnapshotPayload, source_from_value, tag_from_value, config_from_value,
}

pub record PayloadFields : Type 0 where
  pub sequence : Option ℕ
  pub created_at : Option ℕ
  pub sources : Option (List SourceRef)
  pub fanout : Option ℕ
  pub batches : Option (List (List ℕ))
  pub analysis_fanout : Option ℕ
  pub analysis_batches : Option (List (List ℕ))
  pub tags : Option (List Named)
  pub config : Option (List Named)

-- An array that is not empty.
unfoldable pub some_of :
    {A : Type 0} → Defs.Problem → Defs.Problem → (Value → Defs.S A) → Value → Defs.S (List A)
some_of problem empty parse (array nil) = err (Defs.invalid empty)
some_of problem empty parse (array items) = collect parse items
some_of problem empty parse v = err (Defs.invalid problem)

-- The arms of the match from the sixth key on.
unfoldable pub later_field : ℕ → Value → PayloadFields → Defs.S PayloadFields
unfolding some_of
later_field key val st =
    if key == 6
    then (and_then (Defs.as_uint val) λ n.
        if n == 0
        then err (Defs.invalid Defs.analysis_fanout_zero)
        else ok (record st { analysis_fanout = some n }))
    else if key == 7
    then (and_then (Defs.array_of Defs.analysis_not_an_array Defs.as_hash val)
        λ hs. ok (record st { analysis_batches = some hs }))
    else if key == 8
    then (and_then (some_of Defs.tags_not_an_array Defs.tags_empty tag_from_value val)
        λ ts. ok (record st { tags = some ts }))
    else if key == 9
    then (and_then (some_of Defs.config_not_an_array Defs.config_empty config_from_value val)
        λ cs. ok (record st { config = some cs }))
    else err (Defs.invalid Defs.unknown_payload_key)

-- A fanout is a usize, which holds every u64.
unfoldable pub payload_field : ℕ → Value → PayloadFields → Defs.S PayloadFields
unfolding later_field
payload_field key val st =
    if key == 1
    then (and_then (Defs.as_uint val) λ n. ok (record st { sequence = some n }))
    else if key == 2
    then (and_then (Defs.as_uint val) λ n. ok (record st { created_at = some n }))
    else if key == 3
    then (and_then (Defs.array_of Defs.sources_not_an_array source_from_value val)
        λ ss. ok (record st { sources = some ss }))
    else if key == 4
    then (and_then (Defs.as_uint val) λ n. ok (record st { fanout = some n }))
    else if key == 5
    then (and_then (Defs.array_of Defs.batches_not_an_array Defs.as_hash val)
        λ hs. ok (record st { batches = some hs }))
    else later_field key val st

-- `analysis_fanout.is_some() != analysis_batches.is_some()`
unfoldable pub check_together : PayloadFields → Defs.S (Unit {0})
check_together st = elim st.analysis_fanout [
  | none ↦ elim st.analysis_batches [
    | none ↦ ok tt
    | some hs ↦ err (Defs.invalid Defs.not_together)
  ]
  | some n ↦ elim st.analysis_batches [
    | none ↦ err (Defs.invalid Defs.not_together)
    | some hs ↦ ok tt
  ]
]

unfoldable pub unwrap_or : {A : Type 0} → A → Option A → A
unwrap_or a none = a
unwrap_or a (some b) = b

unfoldable pub payload_from_fields : PayloadFields → Defs.S SnapshotPayload
unfolding unwrap_or check_together
payload_from_fields st = and_then (check_together st) λ _.
    and_then (ok_or (Defs.invalid Defs.missing_sequence) st.sequence) λ sequence.
      and_then (ok_or (Defs.invalid Defs.missing_created_at) st.created_at) λ created_at.
        and_then (ok_or (Defs.invalid Defs.missing_sources) st.sources) λ sources.
          and_then (ok_or (Defs.invalid Defs.missing_fanout) st.fanout) λ fanout.
            and_then (ok_or (Defs.invalid Defs.missing_batches) st.batches) λ batches. ok (record {
              sequence = sequence;
              created_at = created_at;
              sources = sources;
              alias_fanout = fanout;
              alias_batches = batches;
              analysis_fanout = unwrap_or 0 st.analysis_fanout;
              analysis_batches = unwrap_or [] st.analysis_batches;
              tags = unwrap_or [] st.tags;
              config = unwrap_or [] st.config;
            })

abbrev pub no_fields : PayloadFields
no_fields = record {
  sequence = none;
  created_at = none;
  sources = none;
  fanout = none;
  batches = none;
  analysis_fanout = none;
  analysis_batches = none;
  tags = none;
  config = none;
}

unfoldable pub payload_from_bytes : List ℕ → Defs.S SnapshotPayload
payload_from_bytes bs = and_then (map_err Defs.cbor (cbor_decode bs)) λ value.
    and_then (Defs.as_map value)
      λ es. and_then (for_entries payload_field es no_fields) payload_from_fields
