-- ===== src/Snapshot/Batches.antt =====
-- `AliasBatch` and `AnalysisBatch` of crates/datboi-core/src/snapshot.rs.
use datboi.Base.{
  ℕ, List, [], ◌∷◌, ◌++◌, Option, none, some, length, ◌==◌, not, list_eq, Bool, true, false,
  if◌then◌else◌, ok, err, and_then, map_err, ok_or,
}
use datboi.Cbor.Value.{Value, Entries, uint, bytes, text, array, map, end, entry}
use datboi.Cbor.Encode as Cbor
use datboi.Cbor.Decode.{decode as cbor_decode}
use datboi.Cbor.Access.{items_of}
use datboi.Cbor.Fields.{for_entries}
use datboi.Object.Sniff.{alias_batch, analysis_batch}
use datboi.Snapshot.Defs

-- `AliasTuple` of crates/datboi-core/src/alias.rs.
pub record AliasTuple : Type 0 where
  pub size : ℕ
  pub crc32 : List ℕ
  pub md5 : List ℕ
  pub sha1 : List ℕ
  pub sha256 : List ℕ
  pub blake3 : List ℕ

abbrev pub aliases_header : List ℕ
aliases_header =
    b'd' ∷ b'a' ∷ b't' ∷ b'b' ∷ b'o' ∷ b'i' ∷ b'/' ∷ b'a' ∷ b'l' ∷ b'i' ∷ b'a' ∷ b's' ∷ b'e' ∷ b's'
    ∷ b'/' ∷ b'1' ∷ b'\n' ∷ []

abbrev pub analysis_header : List ℕ
analysis_header =
    b'd' ∷ b'a' ∷ b't' ∷ b'b' ∷ b'o' ∷ b'i' ∷ b'/' ∷ b'a' ∷ b'n' ∷ b'a' ∷ b'l' ∷ b'y' ∷ b's' ∷ b'i'
    ∷ b's' ∷ b'/' ∷ b'1' ∷ b'\n' ∷ []

unfoldable pub alias_lt : AliasTuple → AliasTuple → Bool
alias_lt r s = Defs.lex_lt (r.blake3) (s.blake3)

unfoldable pub row_to_value : AliasTuple → Value
row_to_value r = map (
    entry 1 (bytes (r.blake3)) (
      entry 2 (uint (r.size)) (
        entry 3 (bytes (r.crc32))
          (entry 4 (bytes (r.md5)) (entry 5 (bytes (r.sha1)) (entry 6 (bytes (r.sha256)) end))))))

-- The body of both batches: one key with the rows, behind the header.
unfoldable pub put_batch : List ℕ → Value → Defs.S (List ℕ)
put_batch header rows =
    and_then (map_err (λ _. Defs.panicked) (Cbor.encode (map (entry 1 rows end))))
      λ body. ok (header ++ body)

unfoldable pub encode_aliases : List AliasTuple → Defs.S (List ℕ)
encode_aliases rows =
    let sorted = Defs.sort_by alias_lt rows in
    if Defs.all_windows (λ r s. not (list_eq (r.blake3) (s.blake3))) sorted
    then put_batch aliases_header (array (items_of row_to_value sorted))
    else err (Defs.invalid Defs.duplicate_alias)

pub record AliasFields : Type 0 where
  pub blake3 : Option (List ℕ)
  pub size : Option ℕ
  pub crc32 : Option (List ℕ)
  pub md5 : Option (List ℕ)
  pub sha1 : Option (List ℕ)
  pub sha256 : Option (List ℕ)

unfoldable pub alias_field : ℕ → Value → AliasFields → Defs.S AliasFields
alias_field key val st =
    if key == 1
    then (and_then (Defs.as_hash val) λ h. ok (record st { blake3 = some h }))
    else if key == 2
    then (and_then (Defs.as_uint val) λ n. ok (record st { size = some n }))
    else if key == 3
    then (and_then (Defs.as_fixed 4 val Defs.crc32_length) λ b. ok (record st { crc32 = some b }))
    else if key == 4
    then (and_then (Defs.as_fixed 16 val Defs.md5_length) λ b. ok (record st { md5 = some b }))
    else if key == 5
    then (and_then (Defs.as_fixed 20 val Defs.sha1_length) λ b. ok (record st { sha1 = some b }))
    else if key == 6
    then (and_then (Defs.as_fixed 32 val Defs.sha256_length)
        λ b. ok (record st { sha256 = some b }))
    else err (Defs.invalid Defs.unknown_alias_key)

unfoldable pub row_from_value : Value → Defs.S AliasTuple
row_from_value value = and_then (Defs.as_map value) λ es.
    and_then
      (for_entries alias_field es (record {
        blake3 = none;
        size = none;
        crc32 = none;
        md5 = none;
        sha1 = none;
        sha256 = none;
      }))
      λ st. and_then (ok_or (Defs.invalid (Defs.row_missing 1)) st.blake3) λ blake3.
        and_then (ok_or (Defs.invalid (Defs.row_missing 2)) st.size) λ size.
          and_then (ok_or (Defs.invalid (Defs.row_missing 3)) st.crc32) λ crc32.
            and_then (ok_or (Defs.invalid (Defs.row_missing 4)) st.md5) λ md5.
              and_then (ok_or (Defs.invalid (Defs.row_missing 5)) st.sha1) λ sha1.
                and_then (ok_or (Defs.invalid (Defs.row_missing 6)) st.sha256) λ sha256.
                  ok (record {
                    size = size;
                    crc32 = crc32;
                    md5 = md5;
                    sha1 = sha1;
                    sha256 = sha256;
                    blake3 = blake3;
                  })

-- The loop of both batches: one key, with the rows.
unfoldable pub rows_field :
    {A : Type 0}
    → Defs.Problem
    → (Value → Defs.S A)
    → ℕ
    → Value
    → Option (List A)
    → Defs.S (Option (List A))
rows_field unknown parse key val st =
    if key == 1
    then (and_then (Defs.array_of Defs.rows_not_an_array parse val) λ rows. ok (some rows))
    else err (Defs.invalid unknown)

unfoldable pub rows_from_bytes :
    {A : Type 0} → Defs.Problem → (Value → Defs.S A) → List ℕ → Defs.S (List A)
rows_from_bytes unknown parse body = and_then (map_err Defs.cbor (cbor_decode body)) λ value.
    and_then (Defs.as_map value) λ es.
      and_then (for_entries (rows_field unknown parse) es none)
        λ rows. ok_or (Defs.invalid Defs.missing_rows) rows

unfoldable pub decode_aliases : List ℕ → Defs.S (List AliasTuple)
decode_aliases bs = and_then (Defs.expect_object bs alias_batch 1) λ body.
    and_then (rows_from_bytes Defs.unknown_alias_batch_key row_from_value body) λ rows.
      if Defs.all_windows alias_lt rows
      then ok rows
      else err (Defs.invalid Defs.aliases_not_ascending)

pub record AnalysisRow : Type 0 where
  pub blob : List ℕ
  pub analyzer : List ℕ
  pub positive : Bool
  pub detail : Option (List ℕ)

unfoldable pub analysis_lt : AnalysisRow → AnalysisRow → Bool
analysis_lt r s = Defs.pair_lt (r.blob) (r.analyzer) (s.blob) (s.analyzer)

unfoldable pub same_analysis : AnalysisRow → AnalysisRow → Bool
same_analysis r s = if list_eq (r.blob) (s.blob) then list_eq (r.analyzer) (s.analyzer) else false

unfoldable pub is_empty_detail : AnalysisRow → Bool
is_empty_detail r = elim r.detail [ none ↦ false | some t ↦ length t == 0 ]

unfoldable pub detail_entry : Option (List ℕ) → Entries
detail_entry none = end
detail_entry (some t) = entry 4 (text t) end

unfoldable pub analysis_row_to_value : AnalysisRow → Value
analysis_row_to_value r = map (
    entry 1 (bytes (r.blob)) (
      entry 2 (bytes (r.analyzer))
        (entry 3 (uint (if r.positive then 1 else 0)) (detail_entry r.detail))))

unfoldable pub encode_analysis : List AnalysisRow → Defs.S (List ℕ)
encode_analysis rows =
    let sorted = Defs.sort_by analysis_lt rows in
    if Defs.all_windows (λ r s. not (same_analysis r s)) sorted
    then (if Defs.any_of is_empty_detail sorted
        then err (Defs.invalid Defs.empty_detail)
        else put_batch analysis_header (array (items_of analysis_row_to_value sorted)))
    else err (Defs.invalid Defs.duplicate_analysis)

pub record AnalysisFields : Type 0 where
  pub blob : Option (List ℕ)
  pub analyzer : Option (List ℕ)
  pub outcome : Option Bool
  pub detail : Option (List ℕ)

unfoldable pub analysis_field : ℕ → Value → AnalysisFields → Defs.S AnalysisFields
analysis_field key val st =
    if key == 1
    then (and_then (Defs.as_hash val) λ h. ok (record st { blob = some h }))
    else if key == 2
    then (and_then (Defs.as_hash val) λ h. ok (record st { analyzer = some h }))
    else if key == 3
    then (and_then (Defs.as_uint val) λ n.
        if n == 0
        then ok (record st { outcome = some false })
        else if n == 1
        then ok (record st { outcome = some true })
        else err (Defs.invalid Defs.outcome_range))
    else if key == 4
    then (and_then (Defs.as_text val) λ t.
        if length t == 0
        then err (Defs.invalid Defs.empty_detail)
        else ok (record st { detail = some t }))
    else err (Defs.invalid Defs.unknown_analysis_key)

unfoldable pub analysis_row_from_value : Value → Defs.S AnalysisRow
analysis_row_from_value value = and_then (Defs.as_map value) λ es.
    and_then
      (for_entries analysis_field es
        (record { blob = none; analyzer = none; outcome = none; detail = none }))
      λ st. and_then (ok_or (Defs.invalid (Defs.row_missing 1)) st.blob) λ blob.
        and_then (ok_or (Defs.invalid (Defs.row_missing 2)) st.analyzer) λ analyzer.
          and_then (ok_or (Defs.invalid (Defs.row_missing 3)) st.outcome) λ positive.
            ok
              (record { blob = blob; analyzer = analyzer; positive = positive; detail = st.detail })

unfoldable pub decode_analysis : List ℕ → Defs.S (List AnalysisRow)
decode_analysis bs = and_then (Defs.expect_object bs analysis_batch 1) λ body.
    and_then (rows_from_bytes Defs.unknown_analysis_batch_key analysis_row_from_value body) λ rows.
      if Defs.all_windows analysis_lt rows
      then ok rows
      else err (Defs.invalid Defs.analysis_not_ascending)
