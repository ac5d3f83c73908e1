-- ===== src/Assemble/Params.antt =====
-- `AssembleParams::encode` and `decode` of crates/datboi-core/src/assemble.rs.
use datboi.Base.{
  ℕ, ◌^◌, some, List, [], ◌∷◌, ltb, list_eq, if◌then◌else◌, Result, ok, err, and_then, map_err,
}
use datboi.Cbor.Value.{Value, Entries, uint, bytes, array, map, end, entry}
use datboi.Cbor.Encode as Cbor
use datboi.Cbor.Decode.{decode as cbor_decode}
use datboi.Cbor.Access.{find_key, keys, items_of, collect}
use datboi.Assemble.Defs.{
  Segment, blob_range, fill, literal, AssembleParams, AssembleError, cbor, params, panicked,
  not_an_array, not_a_map, not_a_uint, input_index_range, fill_byte_range, literal_not_bytes,
  unrecognized_keys, validate,
}

abbrev pub segkey_input_ix : ℕ
segkey_input_ix = 1

abbrev pub segkey_offset : ℕ
segkey_offset = 2

abbrev pub segkey_range_len : ℕ
segkey_range_len = 3

abbrev pub segkey_fill_byte : ℕ
segkey_fill_byte = 4

abbrev pub segkey_fill_len : ℕ
segkey_fill_len = 5

abbrev pub segkey_literal : ℕ
segkey_literal = 6

-- The map that `encode` makes of a segment.
unfoldable pub segment_to_value : Segment → Value
segment_to_value (blob_range input_ix offset n) = map (
    entry segkey_input_ix (uint input_ix)
      (entry segkey_offset (uint offset) (entry segkey_range_len (uint n) end)))
segment_to_value (fill byte n) =
    map (entry segkey_fill_byte (uint byte) (entry segkey_fill_len (uint n) end))
segment_to_value (literal bs) = map (entry segkey_literal (bytes bs) end)

unfoldable pub encode : AssembleParams → Result AssembleError (List ℕ)
encode p =
    and_then (validate p)
      λ _. map_err (λ _. panicked) (Cbor.encode (array (items_of segment_to_value p.segments)))

-- The closure `uint`.
unfoldable pub uint_field : Entries → ℕ → Result AssembleError ℕ
uint_field es key = elim (find_key key es) [ some (uint n) ↦ ok n | _ ↦ err (params not_a_uint) ]

unfoldable pub literal_from_entries : Entries → Result AssembleError Segment
literal_from_entries (entry k (bytes bs) es) = ok (literal bs)
literal_from_entries es = err (params literal_not_bytes)

unfoldable pub blob_range_from_entries : Entries → Result AssembleError Segment
blob_range_from_entries es = and_then (uint_field es segkey_input_ix) λ ix.
    if ltb ix (2 ^ 32)
    then (and_then (uint_field es segkey_offset)
        λ offset. and_then (uint_field es segkey_range_len) λ n. ok (blob_range ix offset n))
    else err (params input_index_range)

unfoldable pub fill_from_entries : Entries → Result AssembleError Segment
fill_from_entries es = and_then (uint_field es segkey_fill_byte) λ byte.
    if ltb byte (2 ^ 8)
    then (and_then (uint_field es segkey_fill_len) λ n. ok (fill byte n))
    else err (params fill_byte_range)

unfoldable pub segment_from_value : Value → Result AssembleError Segment
segment_from_value (map es) =
    if list_eq (keys es) (segkey_input_ix ∷ segkey_offset ∷ segkey_range_len ∷ [])
    then blob_range_from_entries es
    else if list_eq (keys es) (segkey_fill_byte ∷ segkey_fill_len ∷ [])
    then fill_from_entries es
    else if list_eq (keys es) (segkey_literal ∷ [])
    then literal_from_entries es
    else err (params unrecognized_keys)
segment_from_value v = err (params not_a_map)

unfoldable pub segments_from_value : Value → Result AssembleError (List Segment)
segments_from_value (array items) = collect segment_from_value items
segments_from_value v = err (params not_an_array)

unfoldable pub decode : List ℕ → Result AssembleError AssembleParams
decode bs = and_then (map_err cbor (cbor_decode bs)) λ value.
    and_then (segments_from_value value) λ segments.
      let p : AssembleParams = record { segments = segments } in and_then (validate p) λ _. ok p
