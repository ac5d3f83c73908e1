-- ===== src/Params/Defs.antt =====
-- The types, `encode` and `decode` of crates/datboi-core/src/params.rs.
use datboi.Base.{
  ℕ, ◌^◌, Option, some, List, ltb, ◌==◌, if◌then◌else◌, Result, ok, err, and_then, map_err,
}
use datboi.Cbor.Value.{Value, uint, map, end, entry, length_entries, DecodeError}
use datboi.Cbor.Encode as Cbor
use datboi.Cbor.Decode.{decode as cbor_decode}
use datboi.Cbor.Access.{find_key}

-- The texts of `ParamsError::Invalid`.
pub data Problem : Type 0 where
  extractor_not_a_map extractor_fields member_index_range member_index_missing : Problem
  deflate_not_a_map deflate_fields deflate_field_missing : Problem

pub data ParamsError : Type 0 where
  cbor : DecodeError → ParamsError
  invalid : Problem → ParamsError
  -- No value of the source: the `expect` of `encode` would panic.
  panicked : ParamsError

pub record ExtractorParams : Type 0 where
  pub member_ix : ℕ

unfoldable pub encode_extractor : ExtractorParams → Result ParamsError (List ℕ)
encode_extractor p = map_err (λ _. panicked) (Cbor.encode (map (entry 1 (uint (p.member_ix)) end)))

-- The match on the entry found.
unfoldable pub member_from : Option Value → Result ParamsError ExtractorParams
member_from (some (uint n)) =
    if ltb n (2 ^ 32) then ok (record { member_ix = n }) else err (invalid member_index_range)
member_from v = err (invalid member_index_missing)

unfoldable pub extractor_from_value : Value → Result ParamsError ExtractorParams
extractor_from_value (map es) =
    if length_entries es == 1 then member_from (find_key 1 es) else err (invalid extractor_fields)
extractor_from_value v = err (invalid extractor_not_a_map)

unfoldable pub decode_extractor : List ℕ → Result ParamsError ExtractorParams
decode_extractor params = and_then (map_err cbor (cbor_decode params)) extractor_from_value

pub record DeflateWindow : Type 0 where
  pub offset : ℕ
  pub len : ℕ

unfoldable pub encode_window : DeflateWindow → Result ParamsError (List ℕ)
encode_window w =
    map_err (λ _. panicked)
      (Cbor.encode (map (entry 1 (uint (w.offset)) (entry 2 (uint (w.len)) end))))

-- The closure `field`, on the entry found.
unfoldable pub window_field : Option Value → Result ParamsError ℕ
window_field (some (uint n)) = ok n
window_field v = err (invalid deflate_field_missing)

unfoldable pub window_from_value : Value → Result ParamsError DeflateWindow
window_from_value (map es) =
    if length_entries es == 2
    then (and_then (window_field (find_key 1 es)) λ offset.
        and_then (window_field (find_key 2 es)) λ len. ok (record { offset = offset; len = len }))
    else err (invalid deflate_fields)
window_from_value v = err (invalid deflate_not_a_map)

unfoldable pub decode_window : List ℕ → Result ParamsError DeflateWindow
decode_window params = and_then (map_err cbor (cbor_decode params)) window_from_value
