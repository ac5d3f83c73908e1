-- ===== src/Examples/CborRuns.antt =====
-- crates/datboi-core/src/cbor.rs on concrete inputs.
use datboi.Base.{ℕ, List, [], ◌∷◌, ◌++◌, ◌≡◌, refl, ok, err, ◌↔◌, ◌≤◌, ◌+◌, arith}
use datboi.Utf8.{is_utf8, valid_from, next_byte, first_byte}
use datboi.Cbor.Value.{
  Value, uint, bytes, text, array, map, nil, cons, end, entry, trailing, non_minimal, error_offset,
  max_depth,
}
use datboi.Cbor.Encode.{
  encode, encode_items, encode_entries, put_map, put_entries, sort_by_key, insert_by_key,
  repeated_key, put_head, to_be_bytes,
}
use datboi.Cbor.Decode.{
  decode, value, body, text_of, entries, entry_key, out_of_order, items, check_count, take_bytes,
  head, head_arg, wide_arg, be_uint, byte,
}
use datboi.Cbor.Canonical.{IsCanonical, levels, emit}
use datboi.Cbor.Normal.{normalize, IsTyped, encode-emit}
use datboi.Cbor.Codec.{
  decode-eq-ok_iff, encode-decode, decode-encode, decode_trailing, decode-error_offset,
}
use datboi.Examples.Inputs.{all_bytes-IsBytes}

-- {1: 500, 3: ["hi", h'07']}
abbrev pub sample : Value
sample = map (
    entry 1 (uint 500)
      (entry 3 (array (cons (text (b'h' ∷ b'i' ∷ [])) (cons (bytes (7 ∷ [])) nil))) end))

abbrev pub sample_bytes : List ℕ
sample_bytes =
    0xa2 ∷ 0x01 ∷ 0x19 ∷ 0x01 ∷ 0xf4 ∷ 0x03 ∷ 0x82 ∷ 0x62 ∷ b'h' ∷ b'i' ∷ 0x41 ∷ 0x07 ∷ []

pub sample_decodes : decode sample_bytes ≡ ok sample
unfolding decode value body text_of entries entry_key out_of_order items check_count take_bytes head
    head_arg wide_arg be_uint byte is_utf8 valid_from next_byte first_byte
sample_decodes = refl

decode-eq-ok_iff_example :
    (decode sample_bytes ≡ ok sample)
    ↔ (IsCanonical sample × (levels sample ≤ max_depth + 1) × (sample_bytes ≡ emit sample))
decode-eq-ok_iff_example =
    decode-eq-ok_iff sample_bytes sample (all_bytes-IsBytes sample_bytes refl)

encode-decode_example : encode sample ≡ ok sample_bytes
encode-decode_example =
    encode-decode sample_bytes sample (all_bytes-IsBytes sample_bytes refl) sample_decodes

encode-emit_example : encode sample ≡ ok (emit sample)
encode-emit_example =
    encode-emit sample
      ((decode-eq-ok_iff sample_bytes sample (all_bytes-IsBytes sample_bytes refl)).0
        sample_decodes).0

-- {3: h'07', 1: 500}, in an order that the encoder mends.
abbrev pub unsorted : Value
unsorted = map (entry 3 (bytes (7 ∷ [])) (entry 1 (uint 500) end))

abbrev pub sorted_bytes : List ℕ
sorted_bytes = 0xa2 ∷ 0x01 ∷ 0x19 ∷ 0x01 ∷ 0xf4 ∷ 0x03 ∷ 0x41 ∷ 0x07 ∷ []

unsorted_encodes : encode unsorted ≡ ok sorted_bytes
unfolding encode encode_items encode_entries put_map put_entries sort_by_key insert_by_key
    repeated_key put_head to_be_bytes
unsorted_encodes = refl

unsorted-IsTyped : IsTyped unsorted
unfolding IsTyped
unsorted-IsTyped =
    (omega arith, (omega arith, (omega arith, (omega arith, tt)), (omega arith, omega arith, tt)))

unsorted-levels : levels unsorted ≤ max_depth + 1
unfolding levels
unsorted-levels = omega arith

decode-encode_example : decode sorted_bytes ≡ ok (normalize unsorted)
decode-encode_example =
    decode-encode unsorted sorted_bytes unsorted-IsTyped unsorted-levels unsorted_encodes

decode_trailing_example : decode (sample_bytes ++ (0 ∷ [])) ≡ err (trailing 12)
decode_trailing_example =
    decode_trailing sample_bytes sample 0 [] (all_bytes-IsBytes sample_bytes refl) sample_decodes

-- The number 23 in two bytes.
wide_refused : decode (0x01 ∷ 0x18 ∷ 0x17 ∷ []) ≡ err (trailing 1)
unfolding decode value body head head_arg byte
wide_refused = refl

long_form : decode (0x18 ∷ 0x17 ∷ []) ≡ err (non_minimal 0)
unfolding decode value head head_arg wide_arg be_uint byte
long_form = refl

decode-error_offset_example : error_offset (non_minimal 0) ≤ 2
decode-error_offset_example =
    decode-error_offset (0x18 ∷ 0x17 ∷ []) (non_minimal 0)
      (all_bytes-IsBytes (0x18 ∷ 0x17 ∷ []) refl) long_form
