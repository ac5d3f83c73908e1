-- ===== src/Assemble/Pieces.antt =====
-- `translate` and `push_merged` of crates/datboi-core/src/assemble.rs.
use datboi.Base.{
  ℕ, ◌+◌, ◌-◌, ◌%◌, ◌^◌, min, max, List, [], ◌∷◌, take, drop, ltb, leb, ◌==◌, if◌then◌else◌, ◌&&◌,
  Result, ok, err, and_then, Option, none, some,
}
use datboi.Assemble.Defs.{
  Segment, blob_range, fill, literal, len, AssembleParams, AssembleError, range_out_of_bounds,
  output_size,
}

pub data Piece : Type 0 where
  input : ℕ → ℕ → ℕ → Piece
  filled : ℕ → ℕ → Piece
  bytes : List ℕ → Piece

-- The piece that `push_merged` makes of `n` bytes from `within` on.
unfoldable pub piece_of : Segment → ℕ → ℕ → Piece
piece_of (blob_range input_ix offset l) within n = input input_ix ((offset + within) % 2 ^ 64) n
piece_of (fill byte l) within n = filled byte n
piece_of (literal bs) within n = bytes (take n (drop within bs))

-- The guarded arms of its match on the last piece and the new one: the longer last piece.
unfoldable pub merged : Piece → Piece → Option Piece
merged (input a a_off a_len) (input b b_off b_len) =
    if a == b && ((a_off + a_len) % 2 ^ 64) == b_off
    then some (input a a_off ((a_len + b_len) % 2 ^ 64))
    else none
merged (filled a a_len) (filled b b_len) =
    if a == b then some (filled a ((a_len + b_len) % 2 ^ 64)) else none
merged p q = none

-- The match on `pieces.last_mut()`.
unfoldable pub push_last : List Piece → Piece → List Piece
push_last [] p = p ∷ []
push_last (q ∷ []) p = elim (merged q p) [ some r ↦ r ∷ [] | none ↦ q ∷ p ∷ [] ]
push_last (q ∷ r ∷ ps) p = q ∷ push_last (r ∷ ps) p

unfoldable pub push_merged : List Piece → Segment → ℕ → ℕ → List Piece
push_merged pieces s within n = push_last pieces (piece_of s within n)

-- The loop of `translate`: the range, the start of the segments that are left, and the pieces.
unfoldable pub translate_from : ℕ → ℕ → ℕ → List Piece → List Segment → List Piece
translate_from range_start range_end segment_start pieces [] = pieces
translate_from range_start range_end segment_start pieces (s ∷ ss) =
    let segment_end = segment_start + len s in
    let start = max range_start segment_start in
    let stop = min range_end segment_end in
    let pieces' : List Piece =
      if ltb start stop
      then push_merged pieces s (start - segment_start) (stop - start)
      else pieces in
    let later = translate_from range_start range_end segment_end pieces' ss in
    if leb range_end segment_end then pieces' else later

unfoldable pub translate : AssembleParams → ℕ → ℕ → Result AssembleError (List Piece)
translate p range_start range_end =
    if ltb range_end range_start
    then err range_out_of_bounds
    else and_then (output_size p) λ size.
      if ltb size range_end
      then err range_out_of_bounds
      else ok (translate_from range_start range_end 0 [] p.segments)
