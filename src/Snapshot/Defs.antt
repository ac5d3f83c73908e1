-- ===== src/Snapshot/Defs.antt =====
-- The rows, the errors and the readers of fields of crates/datboi-core/src/snapshot.rs. A text is
-- the list of its UTF-8 bytes, a hash the list of its 32 bytes.
use datboi.Base.{
  ℕ, ◌*◌, ◌/◌, List, [], ◌∷◌, length, drop, ltb, leb, ◌==◌, ◌&&◌, list_eq, Bool, true, false,
  if◌then◌else◌, Result, ok, err, and_then, ok_or,
}
use datboi.Cbor.Value.{Value, Entries, uint, bytes, text, array, map, DecodeError}
use datboi.Cbor.Access.{collect}
use datboi.Object.Sniff.{ObjectKind, sniff, tag}

-- The texts of `SnapshotError::Invalid`.
pub data Problem : Type 0 where
  duplicate_alias rows_not_an_array missing_rows unknown_alias_batch_key
        unknown_analysis_batch_key :
      Problem
  aliases_not_ascending : Problem
  duplicate_analysis empty_detail analysis_not_ascending : Problem
  alias_fanout_range batch_count analysis_fanout_range analysis_count sources_not_sorted : Problem
  empty_source tags_not_sorted empty_tag config_not_sorted empty_config_key : Problem
  unknown_envelope_key key_length signature_length missing_payload missing_key missing_signature :
      Problem
  sources_not_an_array batches_not_an_array analysis_not_an_array tags_not_an_array : Problem
  config_not_an_array analysis_fanout_zero tags_empty config_empty unknown_payload_key : Problem
  not_together missing_sequence missing_created_at missing_sources missing_fanout missing_batches :
      Problem
  tag_name_not_text unknown_tag_key tag_missing_name tag_missing_hash : Problem
  config_key_not_text config_value_not_bytes unknown_config_key config_missing_key : Problem
  config_missing_value unknown_alias_key unknown_analysis_key outcome_range : Problem
  crc32_length md5_length sha1_length sha256_length hash_length : Problem
  unknown_source_key expected_map expected_text expected_uint expected_bytes : Problem
  -- The field with this key is missing from a row or a source.
  row_missing : ℕ → Problem
  source_missing : ℕ → Problem

pub data SnapshotError : Type 0 where
  -- By the tag of the object that was looked for, which is the text of the source.
  wrong_kind : List ℕ → SnapshotError
  version : List ℕ → ℕ → SnapshotError
  cbor : DecodeError → SnapshotError
  invalid : Problem → SnapshotError
  bad_signature : SnapshotError
  -- No value of the source: an `expect` or an `assert!` would panic.
  panicked : SnapshotError

abbrev pub S : Type 0 → Type 0
S A = Result SnapshotError A

unfoldable pub as_map : Value → S Entries
as_map (map es) = ok es
as_map v = err (invalid expected_map)

unfoldable pub as_text : Value → S (List ℕ)
as_text (text t) = ok t
as_text v = err (invalid expected_text)

unfoldable pub as_uint : Value → S ℕ
as_uint (uint n) = ok n
as_uint v = err (invalid expected_uint)

unfoldable pub as_bytes : Value → S (List ℕ)
as_bytes (bytes b) = ok b
as_bytes v = err (invalid expected_bytes)

unfoldable pub as_fixed : ℕ → Value → Problem → S (List ℕ)
unfolding as_bytes
as_fixed n v problem =
    and_then (as_bytes v) λ b. if length b == n then ok b else err (invalid problem)

unfoldable pub as_hash : Value → S (List ℕ)
unfolding as_fixed
as_hash v = as_fixed 32 v hash_length

-- `let Value::Array(items) = val else …`, and `collect`.
unfoldable pub array_of : {A : Type 0} → Problem → (Value → S A) → Value → S (List A)
array_of problem parse (array items) = collect parse items
array_of problem parse v = err (invalid problem)

-- `expect_object`; two kinds are equal when their tags are.
unfoldable pub expect_object : List ℕ → ObjectKind → ℕ → S (List ℕ)
expect_object bs kind v =
    and_then (ok_or (wrong_kind (tag kind)) (sniff bs)) λ (got_kind, got_version, at).
      if list_eq (tag got_kind) (tag kind)
      then (if got_version == v then ok (drop at bs) else err (version (tag kind) got_version))
      else err (wrong_kind (tag kind))

-- The order of `[u8; N]`, of `Blake3` and of `String`.
unfoldable pub lex_lt : List ℕ → List ℕ → Bool
lex_lt [] [] = false
lex_lt [] (b ∷ bs) = true
lex_lt (a ∷ l) [] = false
lex_lt (a ∷ l) (b ∷ bs) =
    let rest = lex_lt l bs in if ltb a b then true else if a == b then rest else false

-- The order of a pair of two of them.
unfoldable pub pair_lt : List ℕ → List ℕ → List ℕ → List ℕ → Bool
unfolding lex_lt
pair_lt a b c d = if lex_lt a c then true else if list_eq a c then lex_lt b d else false

module _ {A : Type 0} where
  -- `sort_by_key`, by the strict order of the keys; it is stable.
  unfoldable pub insert_by : (A → A → Bool) → A → List A → List A
  insert_by lt a [] = a ∷ []
  insert_by lt a (b ∷ l) = let rest = insert_by lt a l in if lt b a then b ∷ rest else a ∷ b ∷ l

  unfoldable pub sort_by : (A → A → Bool) → List A → List A
  unfolding insert_by
  sort_by lt [] = []
  sort_by lt (a ∷ l) = insert_by lt a (sort_by lt l)

  -- `windows(2).all`
  unfoldable pub all_windows : (A → A → Bool) → List A → Bool
  all_windows p [] = true
  all_windows p (a ∷ []) = true
  all_windows p (a ∷ b ∷ l) = let rest = all_windows p (b ∷ l) in if p a b then rest else false

  -- `iter().any`
  unfoldable pub any_of : (A → Bool) → List A → Bool
  any_of p [] = false
  any_of p (a ∷ l) = let rest = any_of p l in if p a then true else rest

-- `alias_shard`; a fanout out of range fails the assertion.
unfoldable pub alias_shard : List ℕ → ℕ → S ℕ
alias_shard [] fanout = err panicked
alias_shard (b ∷ bs) fanout =
    if leb 1 fanout && leb fanout 256 then ok (b * fanout / 256) else err panicked
