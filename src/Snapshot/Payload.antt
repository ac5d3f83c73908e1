-- ===== src/Snapshot/Payload.antt =====
-- `SnapshotPayload` of crates/datboi-core/src/snapshot.rs: its checks, encoding and decoding.
use datboi.Base.{
  ℕ, List, [], ◌∷◌, Option, none, some, length, ltb, leb, ◌==◌, ◌&&◌, ◌||◌, not, Bool,
  if◌then◌else◌, ok, err, and_then, map_err, ok_or,
}
use datboi.Cbor.Value.{Value, Entries, uint, bytes, text, array, map, end, entry}
use datboi.Cbor.Encode as Cbor
use datboi.Cbor.Access.{items_of}
use datboi.Cbor.Fields.{for_entries}
use datboi.Snapshot.Defs

pub record SourceRef : Type 0 where
  pub provider : List ℕ
  pub system : List ℕ
  pub dat_blob : List ℕ
  pub imported_at : ℕ

-- A pair of `tags` or of `config`.
pub record Named : Type 0 where
  pub name : List ℕ
  pub content : List ℕ

pub record SnapshotPayload : Type 0 where
  pub sequence : ℕ
  pub created_at : ℕ
  pub sources : List SourceRef
  pub alias_fanout : ℕ
  pub alias_batches : List (List ℕ)
  pub analysis_fanout : ℕ
  pub analysis_batches : List (List ℕ)
  pub tags : List Named
  pub config : List Named

unfoldable pub source_lt : SourceRef → SourceRef → Bool
source_lt s t = Defs.pair_lt (s.provider) (s.system) (t.provider) (t.system)

unfoldable pub name_lt : Named → Named → Bool
name_lt s t = Defs.lex_lt (s.name) (t.name)

unfoldable pub unnamed_source : SourceRef → Bool
unnamed_source s = length s.provider == 0 || length s.system == 0

unfoldable pub unnamed : Named → Bool
unnamed n = length n.name == 0

-- One `if … { return Err(…) }`, before the rest.
unfoldable pub refuse_if : Bool → Defs.Problem → Defs.S (Unit {0}) → Defs.S (Unit {0})
refuse_if b problem rest = if b then err (Defs.invalid problem) else rest

unfoldable pub validate : SnapshotPayload → Defs.S (Unit {0})
unfolding refuse_if
validate p =
    refuse_if (not (leb 1 p.alias_fanout && leb p.alias_fanout 256)) Defs.alias_fanout_range (
      refuse_if (not (length p.alias_batches == p.alias_fanout)) Defs.batch_count (
        refuse_if (ltb 256 p.analysis_fanout) Defs.analysis_fanout_range (
          refuse_if (not (length p.analysis_batches == p.analysis_fanout)) Defs.analysis_count (
            refuse_if (not (Defs.all_windows source_lt p.sources)) Defs.sources_not_sorted (
              refuse_if (Defs.any_of unnamed_source p.sources) Defs.empty_source (
                refuse_if (not (Defs.all_windows name_lt p.tags)) Defs.tags_not_sorted (
                  refuse_if (Defs.any_of unnamed p.tags) Defs.empty_tag (
                    refuse_if (not (Defs.all_windows name_lt p.config)) Defs.config_not_sorted (
                      refuse_if (Defs.any_of unnamed p.config) Defs.empty_config_key
                        (ok tt))))))))))

unfoldable pub source_to_value : SourceRef → Value
source_to_value s = map (
    entry 1 (text (s.provider)) (
      entry 2 (text (s.system))
        (entry 3 (bytes (s.dat_blob)) (entry 4 (uint (s.imported_at)) end))))

-- The maps of tags and of config rows, a text and its bytes.
unfoldable pub named_to_value : Named → Value
named_to_value n = map (entry 1 (text (n.name)) (entry 2 (bytes (n.content)) end))

-- The optional entries, from the last to the first.
unfoldable pub named_entry : ℕ → List Named → Entries → Entries
named_entry key [] es = es
named_entry key (n ∷ ns) es = entry key (array (items_of named_to_value (n ∷ ns))) es

unfoldable pub analysis_entries : SnapshotPayload → Entries → Entries
analysis_entries p es =
    if ltb 0 p.analysis_fanout
    then entry 6 (uint (p.analysis_fanout)) (entry 7 (array (items_of bytes p.analysis_batches)) es)
    else es

unfoldable pub payload_to_value : SnapshotPayload → Value
unfolding analysis_entries named_entry
payload_to_value p = map (
    entry 1 (uint (p.sequence)) (
      entry 2 (uint (p.created_at)) (
        entry 3 (array (items_of source_to_value p.sources)) (
          entry 4 (uint (p.alias_fanout)) (
            entry 5 (array (items_of bytes p.alias_batches))
              (analysis_entries p (named_entry 8 p.tags (named_entry 9 p.config end))))))))

unfoldable pub payload_bytes : SnapshotPayload → Defs.S (List ℕ)
payload_bytes p =
    and_then (validate p) λ _. map_err (λ _. Defs.panicked) (Cbor.encode (payload_to_value p))

pub record SourceFields : Type 0 where
  pub provider : Option (List ℕ)
  pub system : Option (List ℕ)
  pub dat_blob : Option (List ℕ)
  pub imported_at : Option ℕ

unfoldable pub source_field : ℕ → Value → SourceFields → Defs.S SourceFields
source_field key val st =
    if key == 1
    then (and_then (Defs.as_text val) λ t. ok (record st { provider = some t }))
    else if key == 2
    then (and_then (Defs.as_text val) λ t. ok (record st { system = some t }))
    else if key == 3
    then (and_then (Defs.as_hash val) λ h. ok (record st { dat_blob = some h }))
    else if key == 4
    then (and_then (Defs.as_uint val) λ n. ok (record st { imported_at = some n }))
    else err (Defs.invalid Defs.unknown_source_key)

unfoldable pub source_from_value : Value → Defs.S SourceRef
source_from_value value = and_then (Defs.as_map value) λ es.
    and_then
      (for_entries source_field es
        (record { provider = none; system = none; dat_blob = none; imported_at = none }))
      λ st. and_then (ok_or (Defs.invalid (Defs.source_missing 1)) st.provider) λ provider.
        and_then (ok_or (Defs.invalid (Defs.source_missing 2)) st.system) λ system.
          and_then (ok_or (Defs.invalid (Defs.source_missing 3)) st.dat_blob) λ dat_blob.
            and_then (ok_or (Defs.invalid (Defs.source_missing 4)) st.imported_at) λ imported_at.
              ok (record {
                provider = provider;
                system = system;
                dat_blob = dat_blob;
                imported_at = imported_at;
              })

pub record NamedFields : Type 0 where
  pub name : Option (List ℕ)
  pub content : Option (List ℕ)

-- `let Value::Text(v) = val else …` and the same for bytes.
unfoldable pub text_or : Defs.Problem → Value → Defs.S (List ℕ)
text_or problem (text t) = ok t
text_or problem v = err (Defs.invalid problem)

unfoldable pub bytes_or : Defs.Problem → Value → Defs.S (List ℕ)
bytes_or problem (bytes b) = ok b
bytes_or problem v = err (Defs.invalid problem)

unfoldable pub tag_field : ℕ → Value → NamedFields → Defs.S NamedFields
unfolding text_or
tag_field key val st =
    if key == 1
    then (and_then (text_or Defs.tag_name_not_text val) λ t. ok (record st { name = some t }))
    else if key == 2
    then (and_then (Defs.as_hash val) λ h. ok (record st { content = some h }))
    else err (Defs.invalid Defs.unknown_tag_key)

unfoldable pub tag_from_value : Value → Defs.S Named
tag_from_value value = and_then (Defs.as_map value) λ es.
    and_then (for_entries tag_field es (record { name = none; content = none })) λ st.
      and_then (ok_or (Defs.invalid Defs.tag_missing_name) st.name) λ name.
        and_then (ok_or (Defs.invalid Defs.tag_missing_hash) st.content)
          λ content. ok (record { name = name; content = content })

unfoldable pub config_field : ℕ → Value → NamedFields → Defs.S NamedFields
unfolding text_or bytes_or
config_field key val st =
    if key == 1
    then (and_then (text_or Defs.config_key_not_text val) λ t. ok (record st { name = some t }))
    else if key == 2
    then (and_then (bytes_or Defs.config_value_not_bytes val)
        λ b. ok (record st { content = some b }))
    else err (Defs.invalid Defs.unknown_config_key)

unfoldable pub config_from_value : Value → Defs.S Named
config_from_value value = and_then (Defs.as_map value) λ es.
    and_then (for_entries config_field es (record { name = none; content = none })) λ st.
      and_then (ok_or (Defs.invalid Defs.config_missing_key) st.name) λ name.
        and_then (ok_or (Defs.invalid Defs.config_missing_value) st.content)
          λ content. ok (record { name = name; content = content })
