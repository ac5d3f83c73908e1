-- ===== src/Examples/SnapshotRuns.antt =====
-- crates/datboi-core/src/params.rs and snapshot.rs on concrete inputs.
use datboi.Base.{
  ℕ, List, [], ◌∷◌, ◌++◌, ◌≡◌, ◌↔◌, refl, ok, take, replicate, list_eq, Bool, arith, IsU32,
}
use datboi.Cbor.Decode.{
  value, body, text_of, entries, entry_key, out_of_order, items, check_count, take_bytes, head,
  head_arg, wide_arg, be_uint, byte,
}
use datboi.Cbor.Decode.{decode as cbor_decode}
use datboi.Cbor.Access.{find_key, collect}
use datboi.Cbor.Fields.{for_entries}
use datboi.Utf8.{is_utf8, valid_from, next_byte, first_byte}
use datboi.Object.Sniff.{
  sniff, sniff_line, parse_version, parse_u32, leading_zero, all_digits, is_digit, split_once,
  strip_prefix, kind_of, tag,
}
use datboi.Params.Defs.{
  ExtractorParams, encode_extractor, decode_extractor, extractor_from_value, member_from,
  DeflateWindow, decode_window, window_from_value, window_field,
}
use datboi.Params.Windows.{decode-encode_extractor, encode-decode_extractor}
use datboi.Snapshot.Defs.{
  as_map, as_text, as_uint, as_bytes, as_fixed, as_hash, array_of, expect_object, lex_lt, pair_lt,
  all_windows, any_of, alias_shard,
}
use datboi.Snapshot.Batches.{
  AliasTuple, aliases_header, decode_aliases, rows_from_bytes, rows_field, row_from_value,
  alias_field, alias_lt,
}
use datboi.Snapshot.Payload.{validate, refuse_if, source_lt, unnamed_source, name_lt, unnamed}
use datboi.Snapshot.Decoding.{
  payload_from_bytes, payload_from_fields, payload_field, check_together, unwrap_or,
}
use datboi.Snapshot.Signed.{IsSigned, decode_snapshot-eq-ok_iff}
use datboi.Snapshot.Envelope.{
  StateSnapshot, statesnap_header, decode_snapshot, snapshot_from_fields, envelope_field,
}
use datboi.Snapshot.Order.{Ascending, decode_aliases-Ascending}
use datboi.Examples.Inputs.{all_bytes-IsBytes}

abbrev third : ExtractorParams
third = record { member_ix = 3 }

decode-encode_extractor_example :
    (bs : List ℕ) × (encode_extractor third ≡ ok bs) × (decode_extractor bs ≡ ok third)
decode-encode_extractor_example = decode-encode_extractor third (omega arith)

third_decodes : decode_extractor (0xa1 ∷ 1 ∷ 3 ∷ []) ≡ ok third
unfolding decode_extractor extractor_from_value member_from find_key cbor_decode value body entries
    entry_key out_of_order check_count head head_arg byte
third_decodes = refl

encode-decode_extractor_example : (encode_extractor third ≡ ok (0xa1 ∷ 1 ∷ 3 ∷ [])) × IsU32 3
encode-decode_extractor_example =
    encode-decode_extractor (0xa1 ∷ 1 ∷ 3 ∷ []) third (all_bytes-IsBytes (0xa1 ∷ 1 ∷ 3 ∷ []) refl)
      third_decodes

abbrev window : DeflateWindow
window = record { offset = 17; len = 300 }

abbrev window_bytes : List ℕ
window_bytes = 0xa2 ∷ 1 ∷ 0x11 ∷ 2 ∷ 0x19 ∷ 1 ∷ 0x2c ∷ []

window_decodes : decode_window window_bytes ≡ ok window
unfolding decode_window window_from_value window_field find_key cbor_decode value body entries
    entry_key out_of_order check_count head head_arg wide_arg be_uint byte
window_decodes = refl

low_shard : alias_shard (100 ∷ []) 3 ≡ ok 1
unfolding alias_shard
low_shard = refl

high_shard : alias_shard (200 ∷ []) 3 ≡ ok 2
unfolding alias_shard
high_shard = refl

-- An alias row of bytes `b`.
abbrev row : ℕ → AliasTuple
row b = record {
  size = 5;
  crc32 = replicate 4 b;
  md5 = replicate 16 b;
  sha1 = replicate 20 b;
  sha256 = replicate 32 b;
  blake3 = replicate 32 b;
}

abbrev row_bytes : ℕ → List ℕ
row_bytes b =
    0xa6
    ∷ 1
    ∷ 0x58
    ∷ 32
    ∷ (replicate 32 b
        ++ (2
            ∷ 5
            ∷ 3
            ∷ 0x44
            ∷ (replicate 4 b
                ++ (4
                    ∷ 0x50
                    ∷ (replicate 16 b
                        ++ (5 ∷ 0x54 ∷ (replicate 20 b ++ (6 ∷ 0x58 ∷ 32 ∷ replicate 32 b))))))))

abbrev batch_bytes : List ℕ
batch_bytes = aliases_header ++ (0xa1 ∷ 1 ∷ 0x82 ∷ (row_bytes 3 ++ row_bytes 9))

batch_decodes : decode_aliases batch_bytes ≡ ok (row 3 ∷ row 9 ∷ [])
unfolding sniff sniff_line parse_version parse_u32 leading_zero all_digits is_digit split_once
    strip_prefix kind_of tag is_utf8 valid_from next_byte first_byte list_eq cbor_decode value body
    text_of entries entry_key out_of_order items check_count take_bytes head head_arg wide_arg
    be_uint byte collect for_entries decode_aliases rows_from_bytes rows_field row_from_value
    alias_field alias_lt as_map as_uint as_bytes as_fixed as_hash array_of expect_object lex_lt
    all_windows
batch_decodes = refl

decode_aliases-Ascending_example : Ascending (row 3 ∷ row 9 ∷ [])
decode_aliases-Ascending_example =
    decode_aliases-Ascending batch_bytes (row 3 ∷ row 9 ∷ []) batch_decodes

-- A signature scheme for the example: a signature begins with the key.
abbrev verifies : List ℕ → List ℕ → List ℕ → Bool
verifies key msg signature = list_eq (take 32 signature) key

abbrev snapshot : StateSnapshot
snapshot = record {
  payload = record {
    sequence = 7;
    created_at = 8;
    sources = [];
    alias_fanout = 1;
    alias_batches = replicate 32 4 ∷ [];
    analysis_fanout = 0;
    analysis_batches = [];
    tags = [];
    config = [];
  };
  public_key = replicate 32 6;
}

abbrev snapshot_bytes : List ℕ
snapshot_bytes =
    statesnap_header
    ++ (0xa3
        ∷ 1
        ∷ 0x58
        ∷ 45
        ∷ 0xa5
        ∷ 1
        ∷ 7
        ∷ 2
        ∷ 8
        ∷ 3
        ∷ 0x80
        ∷ 4
        ∷ 1
        ∷ 5
        ∷ 0x81
        ∷ 0x58
        ∷ 32
        ∷ (replicate 32 4
            ++ (2 ∷ 0x58 ∷ 32 ∷ (replicate 32 6 ++ (3 ∷ 0x58 ∷ 64 ∷ replicate 64 6)))))

snapshot_decodes : decode_snapshot verifies snapshot_bytes ≡ ok snapshot
unfolding sniff sniff_line parse_version parse_u32 leading_zero all_digits is_digit split_once
    strip_prefix kind_of tag is_utf8 valid_from next_byte first_byte list_eq cbor_decode value body
    text_of entries entry_key out_of_order items check_count take_bytes head head_arg wide_arg
    be_uint byte collect for_entries decode_snapshot snapshot_from_fields envelope_field
    payload_from_bytes payload_from_fields payload_field check_together unwrap_or validate refuse_if
    source_lt unnamed_source name_lt unnamed as_map as_text as_uint as_bytes as_fixed as_hash
    array_of expect_object lex_lt pair_lt all_windows any_of
snapshot_decodes = refl

decode_snapshot-eq-ok_iff_example :
    (decode_snapshot verifies snapshot_bytes ≡ ok snapshot)
    ↔ IsSigned verifies snapshot_bytes snapshot
decode_snapshot-eq-ok_iff_example =
    decode_snapshot-eq-ok_iff verifies snapshot_bytes snapshot
      (all_bytes-IsBytes snapshot_bytes refl)
