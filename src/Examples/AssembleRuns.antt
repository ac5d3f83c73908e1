-- ===== src/Examples/AssembleRuns.antt =====
-- crates/datboi-core/src/assemble.rs on concrete inputs.
use datboi.Base.{
  ℕ, ◌-◌, ◌<◌, replicate, List, [], ◌∷◌, ◌≡◌, refl, ok, some, take, drop, arith, list_eq,
}
use datboi.Cbor.Decode.{
  value, body, entries, entry_key, out_of_order, items, check_count, head, head_arg, byte,
}
use datboi.Cbor.Decode.{decode as cbor_decode}
use datboi.Cbor.Access.{find_key, keys, collect}
use datboi.Assemble.Defs
use datboi.Assemble.Defs.{Segment, blob_range, fill, literal, AssembleParams}
use datboi.Assemble.Pieces.{
  input, filled, bytes, translate, translate_from, push_merged, push_last, merged, piece_of,
}
use datboi.Assemble.Output
use datboi.Assemble.Params.{
  encode, decode, segments_from_value, segment_from_value, literal_from_entries, fill_from_entries,
  blob_range_from_entries, uint_field,
}
use datboi.Assemble.ParamsCodec.{decode-encode_params, encode-decode_params}
use datboi.Assemble.Reader.{reader, read_each}
use datboi.Base.{◌<◌}
use datboi.Assemble.Translate.{pieces_bytes-translate}
use datboi.Assemble.Reading.{read_each-output}
use datboi.Examples.Inputs.{all_bytes-IsBytes, slices}

-- Two ranges that meet in their source, a run of zeros and a literal.
abbrev pub sample : AssembleParams
sample = record {
  segments = blob_range 0 1 2 ∷ blob_range 0 3 1 ∷ fill 0 3 ∷ literal (8 ∷ 9 ∷ []) ∷ [];
}

abbrev pub sources : List (List ℕ)
sources = (10 ∷ 11 ∷ 12 ∷ 13 ∷ 14 ∷ []) ∷ []

pub sample_validates : Defs.validate sample ≡ ok tt
unfolding Defs.validate Defs.validate_all Defs.validate_segment Defs.len
sample_validates = refl

pub sample_sourced : Defs.validate_sources slices sample sources ≡ ok tt
unfolding Defs.validate_sources Defs.validate_sources_from Defs.validate_source Defs.checked_add
sample_sourced = refl

sample_size : Defs.output_size sample ≡ ok 8
unfolding Defs.output_size Defs.add_lens Defs.checked_add Defs.len
sample_size = refl

-- The two ranges are merged and the literal is cut.
sample_pieces : translate sample 1 7 ≡ ok (input 0 2 2 ∷ filled 0 3 ∷ bytes (8 ∷ []) ∷ [])
unfolding translate translate_from push_merged push_last merged piece_of Defs.output_size
    Defs.add_lens Defs.checked_add Defs.len
sample_pieces = refl

pieces_bytes-translate_example :
    Output.pieces_bytes slices sources (input 0 2 2 ∷ filled 0 3 ∷ bytes (8 ∷ []) ∷ [])
    ≡ take (7 - 1) (drop 1 (Output.output slices sources sample.segments))
pieces_bytes-translate_example =
    pieces_bytes-translate slices sources sample 1 7
      (input 0 2 2 ∷ filled 0 3 ∷ bytes (8 ∷ []) ∷ []) sample_sourced sample_pieces

sample_output : Output.output slices sources sample.segments ≡ 11 ∷ 12 ∷ 13 ∷ 0 ∷ 0 ∷ 0 ∷ 8 ∷ 9 ∷ []
unfolding Output.output Output.segment_bytes Output.source_slice
sample_output = refl

sample-reader : reader slices sources sample ≡ ok (record { segment = 0; emitted = 0 })
unfolding reader Defs.validate Defs.validate_all Defs.validate_segment Defs.len
    Defs.validate_sources Defs.validate_sources_from Defs.validate_source Defs.checked_add
sample-reader = refl

abbrev buffers : List ℕ
buffers = replicate 8 2

pos : 0 < 2
pos = omega arith

read_each-output_example :
    read_each slices sources sample (record { segment = 0; emitted = 0 }) buffers
    ≡ some (Output.output slices sources sample.segments)
read_each-output_example =
    read_each-output slices sources sample (record { segment = 0; emitted = 0 }) buffers
      sample-reader (pos, (pos, (pos, (pos, (pos, (pos, (pos, (pos, tt))))))))
      (rw sample_output (omega arith))

decode-encode_params_example : (bs : List ℕ) × (encode sample ≡ ok bs) × (decode bs ≡ ok sample)
decode-encode_params_example =
    decode-encode_params sample
      (
        (omega arith, omega arith, omega arith),
        (
          (omega arith, omega arith, omega arith),
          ((omega arith, omega arith), (((omega arith, (omega arith, tt)), omega arith), tt)),
        ),
      )
      (omega arith) sample_validates

-- [{4: 0, 5: 3}]
zeros_decode : decode (0x81 ∷ 0xa2 ∷ 4 ∷ 0 ∷ 5 ∷ 3 ∷ []) ≡ ok (record { segments = fill 0 3 ∷ [] })
unfolding decode cbor_decode value body entries entry_key out_of_order items check_count head
    head_arg byte segments_from_value segment_from_value literal_from_entries fill_from_entries
    blob_range_from_entries uint_field find_key keys collect Defs.validate Defs.validate_all
    Defs.validate_segment Defs.len list_eq
zeros_decode = refl

encode-decode_params_example :
    encode (record { segments = fill 0 3 ∷ [] }) ≡ ok (0x81 ∷ 0xa2 ∷ 4 ∷ 0 ∷ 5 ∷ 3 ∷ [])
encode-decode_params_example =
    encode-decode_params (0x81 ∷ 0xa2 ∷ 4 ∷ 0 ∷ 5 ∷ 3 ∷ []) (record { segments = fill 0 3 ∷ [] })
      (all_bytes-IsBytes (0x81 ∷ 0xa2 ∷ 4 ∷ 0 ∷ 5 ∷ 3 ∷ []) refl) zeros_decode
