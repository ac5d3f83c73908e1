-- ===== src/Assemble/Defs.antt =====
-- Segments, params, sources and the checks of crates/datboi-core/src/assemble.rs. A u64 is a number;
-- an addition that the source does not check is written with its wrap-around.
use datboi.Base.{
  ℕ, ◌+◌, ◌^◌, ◌≤◌, Option, none, some, List, [], ◌∷◌, length, take, drop, get_elem?, ltb, leb,
  ◌==◌, if◌then◌else◌, Result, ok, err, and_then, ok_or, ◌≡◌,
}
use datboi.Cbor.Value.{DecodeError}

pub data Segment : Type 0 where
  blob_range : ℕ → ℕ → ℕ → Segment
  fill : ℕ → ℕ → Segment
  literal : List ℕ → Segment

-- `Segment::len`
unfoldable pub len : Segment → ℕ
len (blob_range input_ix offset n) = n
len (fill byte n) = n
len (literal bytes) = length bytes

pub record AssembleParams : Type 0 where
  pub segments : List Segment

-- The texts of `AssembleError::Params`.
pub data Problem : Type 0 where
  empty_segment_list empty_literal literal_over_cap zero_length_segment : Problem
  not_an_array not_a_map not_a_uint input_index_range fill_byte_range : Problem
  literal_not_bytes unrecognized_keys : Problem

pub data AssembleError : Type 0 where
  cbor : DecodeError → AssembleError
  params : Problem → AssembleError
  input_index : ℕ → ℕ → AssembleError
  source_range : ℕ → ℕ → ℕ → ℕ → AssembleError
  size_overflow : AssembleError
  range_out_of_bounds : AssembleError
  -- No value of the source: the `expect` of `encode` would panic.
  panicked : AssembleError

abbrev pub literal_cap : ℕ
literal_cap = 4096

-- `u64::checked_add`
unfoldable pub checked_add : ℕ → ℕ → Option ℕ
checked_add a b = if ltb (a + b) (2 ^ 64) then some (a + b) else none

-- The `try_fold` of `output_size`.
unfoldable pub add_lens : ℕ → List Segment → Option ℕ
add_lens acc [] = some acc
add_lens acc (s ∷ ss) = elim (checked_add acc (len s)) [ none ↦ none | some a ↦ add_lens a ss ]

unfoldable pub output_size : AssembleParams → Result AssembleError ℕ
output_size p = ok_or size_overflow (add_lens 0 p.segments)

unfoldable pub validate_segment : Segment → Result AssembleError (Unit {0})
validate_segment (literal bytes) =
    if length bytes == 0
    then err (params empty_literal)
    else if ltb literal_cap (length bytes)
    then err (params literal_over_cap)
    else ok tt
validate_segment s = if len s == 0 then err (params zero_length_segment) else ok tt

unfoldable pub validate_all : List Segment → Result AssembleError (Unit {0})
validate_all [] = ok tt
validate_all (s ∷ ss) = and_then (validate_segment s) λ _. validate_all ss

unfoldable pub validate : AssembleParams → Result AssembleError (Unit {0})
validate p =
    if length p.segments == 0 then err (params empty_segment_list) else validate_all p.segments

-- The trait `Source`: a length and exact reads, which fail outside of it. The two laws are what
-- the trait's comments promise of an implementation.
pub record Source (S : Type 0) : Type 0 where
  pub source_len : S → ℕ
  -- `read_at(offset, buf)` by the length of `buf`.
  pub read_at : S → ℕ → ℕ → Option (List ℕ)
  -- The bytes that the source stands for.
  pub contents : S → List ℕ
  pub source_len_lem : (s : S) → source_len s ≡ length (contents s)
  pub read_at_lem :
      (s : S) (offset n : ℕ)
      → offset + n ≤ length (contents s)
      → read_at s offset n ≡ some (take n (drop offset (contents s)))

-- `impl Source for &[u8]`
unfoldable pub slice_read_at : List ℕ → ℕ → ℕ → Option (List ℕ)
slice_read_at s offset n =
    if leb (offset + n) (length s) then some (take n (drop offset s)) else none

module _ {S : Type 0} (source : Source S) where
  open source use {source_len}

  -- One round of `validate_sources`.
  unfoldable pub validate_source : List S → ℕ → Segment → Result AssembleError (Unit {0})
  validate_source sources ix (blob_range input_ix offset n) =
      and_then (ok_or (input_index ix input_ix) (get_elem? sources input_ix)) λ s.
        let bad = err (source_range ix offset n (source_len s)) in
        elim (checked_add offset n) [
          | none ↦ bad
          | some end ↦ if ltb (source_len s) end then bad else ok tt
        ]
  validate_source sources ix s = ok tt

  -- The loop of `validate_sources`, with the index of the segment.
  unfoldable pub validate_sources_from : List S → ℕ → List Segment → Result AssembleError (Unit {0})
  validate_sources_from sources ix [] = ok tt
  validate_sources_from sources ix (s ∷ ss) =
      and_then (validate_source sources ix s) λ _. validate_sources_from sources (ix + 1) ss

  unfoldable pub validate_sources : AssembleParams → List S → Result AssembleError (Unit {0})
  validate_sources p sources = validate_sources_from sources 0 p.segments
