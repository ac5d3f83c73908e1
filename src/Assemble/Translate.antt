-- ===== src/Assemble/Translate.antt =====
-- `translate` of crates/datboi-core/src/assemble.rs: the pieces of a range stand for that range of
-- the assembled output.
use datboi.Base.{
  ℕ, ◌+◌, ◌-◌, ◌^◌, ◌≤◌, ◌<◌, min, max, List, [], ◌∷◌, ◌++◌, length, take, drop, All, ltb, leb, ◌≡◌,
  refl, sym, ◌∙◌, arith, length-append, inl, inr, Bool-cases, tests, append_assoc, append-nil,
  length-take, length-drop, ok, ◌↔◌, Result-cases, if◌then◌else◌,
}
use datboi.Base.Slices.{take-append, drop-append, take-min, drop-nil, take-nil}
use datboi.Assemble.Defs.{Segment, len, AssembleParams, Source, output_size, validate_sources}
use datboi.Assemble.Output.{output_size-lt}
use datboi.Assemble.Pieces.{Piece, push_merged, translate_from, translate}
use datboi.Assemble.Output
use datboi.Assemble.Merge.{IsPiece, push_merged_lem}

-- A slice of `b ++ r`, where `b` ends at `stop`: the part of it in `b`, if any, and the rest.
slice_parts :
    (b r : List ℕ) (k n : ℕ)
    → take n (drop k (b ++ r))
      ≡ take (min n (length b - k)) (drop k b) ++ take (n - (length b - k)) (drop (k - length b) r)
slice_parts b r k n =
    let l : length (drop k b) ≡ length b - k = length-drop k b in
    rw (
      drop-append k b r,
      take-append n (drop k b) (drop (k - length b) r),
      l,
      ← take-min n (drop k b),
      l,
    )

module _ {S : Type 0} (source : Source S) (sources : List S) (range_start range_end : ℕ) where
  -- The range's bytes in an output that starts at `at`.
  abbrev window : ℕ → List ℕ → List ℕ
  window at out = take (range_end - max range_start at) (drop (range_start - at) out)

  abbrev loop_pieces : ℕ → List Piece → Segment → List Piece
  loop_pieces at ps s =
      let start = max range_start at in
      let stop = min range_end (at + len s) in
      if ltb start stop then push_merged ps s (start - at) (stop - start) else ps

  one_segment :
      (at : ℕ) (ps : List Piece) (s : Segment)
      → at ≤ range_end
      → All (IsPiece source sources) ps
      → Output.IsSourced source sources s
      → length (Output.pieces_bytes source sources ps) + len s < 2 ^ 64
      → All (IsPiece source sources) (loop_pieces at ps s)
        × (Output.pieces_bytes source sources (loop_pieces at ps s)
            ≡ Output.pieces_bytes source sources ps
              ++ take
                  (min (range_end - max range_start at) (len s - (range_start - at)))
                  (drop (range_start - at) (Output.segment_bytes source sources s)))
  one_segment at ps s ha hs hr room =
      elim (Bool-cases (ltb (max range_start at) (min range_end (at + len s)))) [
        | inl t ↦
            let k : max range_start at - at ≡ range_start - at = omega arith in
            let n : min range_end (at + len s) - max range_start at
                ≡ min (range_end - max range_start at) (len s - (range_start - at)) =
              omega (tests, t) in
            rw (t, k, n)
              (push_merged_lem source sources ps s (range_start - at) _ hs hr (omega (tests, t))
                (omega (tests, t, room)))
        | inr f ↦
            let none_left : min (range_end - max range_start at) (len s - (range_start - at)) ≡ 0 =
              ground arith in
            rw (f, none_left) (hs, sym (append-nil (Output.pieces_bytes source sources ps)))
      ]

  window_parts :
      (at : ℕ) (s : Segment) (ss : List Segment)
      → Output.IsSourced source sources s
      → window at (Output.output source sources (s ∷ ss))
        ≡ take
            (min (range_end - max range_start at) (len s - (range_start - at)))
            (drop (range_start - at) (Output.segment_bytes source sources s))
          ++ take
              (range_end - max range_start (at + len s))
              (drop (range_start - (at + len s)) (Output.output source sources ss))
  unfolding Output.output
  window_parts at s ss hr =
      let k = range_start - at in
      let n = range_end - max range_start at in
      let size = Output.length-segment_bytes source sources s hr in
      let left : n - (len s - k) ≡ range_end - max range_start (at + len s) = omega arith in
      let gone : k - len s ≡ range_start - (at + len s) = omega arith in
      slice_parts (Output.segment_bytes source sources s) (Output.output source sources ss) k n
      ∙ rw (size, left, gone)

  translate_from_lem :
      (ss : List Segment) (at : ℕ) (ps : List Piece)
      → at ≤ range_end
      → All (IsPiece source sources) ps
      → All (Output.IsSourced source sources) ss
      → length (Output.pieces_bytes source sources ps) + length (Output.output source sources ss)
        < 2 ^ 64
      → All (IsPiece source sources) (translate_from range_start range_end at ps ss)
        × (Output.pieces_bytes source sources (translate_from range_start range_end at ps ss)
            ≡ Output.pieces_bytes source sources ps ++ window at (Output.output source sources ss))
  unfolding translate_from
  translate_from_lem [] at ps ha hs hr room = (
    hs,
    unfold Output.output in
        rw
          (
            drop-nil (range_start - at),
            take-nil (range_end - max range_start at),
            append-nil (Output.pieces_bytes source sources ps),
          )
          refl,
  )
  translate_from_lem (s ∷ ss) at ps ha hs (hr, hrs) room =
      elim (Bool-cases (leb range_end (at + len s))) [
        | inl done ↦
            let no_more : range_end - max range_start (at + len s) ≡ 0 = omega (tests, done) in
            rw done (pieces', rw (bytes', window_parts at s ss hr, no_more, append-nil) refl)
        | inr more ↦
            let past : at + len s ≤ range_end = ground arith in
            let (are_pieces, are_bytes) =
              translate_from_lem ss (at + len s) (loop_pieces at ps s) past pieces' hrs room' in
            rw more (are_pieces, rw (are_bytes, bytes', window_parts at s ss hr, append_assoc) refl)
      ]
    where
      out :
          length (Output.output source sources (s ∷ ss))
          ≡ len s + length (Output.output source sources ss)
      out =
          unfold Output.output in
          omega (
            arith,
            length-append (Output.segment_bytes source sources s) (Output.output source sources ss),
            Output.length-segment_bytes source sources s hr,
          )

      step :
          All (IsPiece source sources) (loop_pieces at ps s)
          × (Output.pieces_bytes source sources (loop_pieces at ps s)
              ≡ Output.pieces_bytes source sources ps
                ++ take
                    (min (range_end - max range_start at) (len s - (range_start - at)))
                    (drop (range_start - at) (Output.segment_bytes source sources s)))
      step = one_segment at ps s ha hs hr (omega (arith, room, out))

      pieces' : All (IsPiece source sources) (loop_pieces at ps s)
      pieces' = step.0

      bytes' :
          Output.pieces_bytes source sources (loop_pieces at ps s)
          ≡ Output.pieces_bytes source sources ps
            ++ take
                (min (range_end - max range_start at) (len s - (range_start - at)))
                (drop (range_start - at) (Output.segment_bytes source sources s))
      bytes' = step.1

      room' :
          length (Output.pieces_bytes source sources (loop_pieces at ps s))
            + length (Output.output source sources ss)
          < 2 ^ 64
      room' = rw bytes' (
          omega (
            arith,
            room,
            out,
            length-append (Output.pieces_bytes source sources ps) (
                take (min (range_end - max range_start at) (len s - (range_start - at)))
                  (drop (range_start - at) (Output.segment_bytes source sources s))),
            length-take (min (range_end - max range_start at) (len s - (range_start - at)))
                (drop (range_start - at) (Output.segment_bytes source sources s)),
          ))

inverted :
    (p : AssembleParams) (range_start range_end : ℕ) (pieces : List Piece)
    → translate p range_start range_end ≡ ok pieces
    → (size : ℕ) × (output_size p ≡ ok size)
      × (range_start ≤ range_end)
      × (range_end ≤ size)
      × (pieces ≡ translate_from range_start range_end 0 [] p.segments)
unfolding translate
inverted p range_start range_end pieces e = elim (Result-cases (output_size p)) [
  | inl (size, o) ↦ (size, o, ground (arith, o), ground (arith, o), ground (arith, o))
  | inr (x, o) ↦ absurd (ground (arith, o))
]

-- If `validate_sources` passes and `translate` gives pieces for a range, the pieces stand for
-- exactly the bytes of that range of the assembled output.
pub pieces_bytes-translate :
    {S : Type 0} (source : Source S) (sources : List S) (p : AssembleParams)
    (range_start range_end : ℕ) (pieces : List Piece)
    → validate_sources source p sources ≡ ok tt
    → translate p range_start range_end ≡ ok pieces
    → Output.pieces_bytes source sources pieces
      ≡ take (range_end - range_start) (drop range_start (Output.output source sources p.segments))
pieces_bytes-translate source sources p range_start range_end pieces v e =
    let (size, o, h, k, q) = inverted p range_start range_end pieces e in
    let sourced = Output.validate_sources-IsSourced source sources p v in
    let long = Output.output_size-output source sources p size sourced o in
    let small = output_size-lt p size o in
    let no_bytes : Output.pieces_bytes source sources [] ≡ [] =
      unfold Output.pieces_bytes in refl in
    let ends : range_end - max range_start 0 ≡ range_end - range_start = omega arith in
    let begins : range_start - 0 ≡ range_start = omega arith in
    rw q (
      (translate_from_lem source sources range_start range_end p.segments 0 [] (omega arith) tt
        sourced (rw no_bytes (omega (arith, long)))).1
      ∙ rw (no_bytes, ends, begins))

pub translate-IsPiece :
    {S : Type 0} (source : Source S) (sources : List S) (p : AssembleParams)
    (range_start range_end : ℕ) (pieces : List Piece)
    → validate_sources source p sources ≡ ok tt
    → translate p range_start range_end ≡ ok pieces
    → All (IsPiece source sources) pieces
translate-IsPiece source sources p range_start range_end pieces v e =
    let (size, o, h, k, q) = inverted p range_start range_end pieces e in
    let sourced = Output.validate_sources-IsSourced source sources p v in
    let long = Output.output_size-output source sources p size sourced o in
    let small = output_size-lt p size o in
    let no_bytes : Output.pieces_bytes source sources [] ≡ [] =
      unfold Output.pieces_bytes in refl in
    rw q
      (translate_from_lem source sources range_start range_end p.segments 0 [] (omega arith) tt
        sourced (rw no_bytes (omega (arith, long)))).0

-- `translate` answers with pieces exactly when the ends of the range are in order and the output's
-- size fits 64 bits and reaches the range's end.
pub translate-eq-ok_iff :
    (p : AssembleParams) (range_start range_end : ℕ)
    → ((pieces : List Piece) × (translate p range_start range_end ≡ ok pieces))
      ↔ ((size : ℕ) × (output_size p ≡ ok size) × (range_start ≤ range_end) × (range_end ≤ size))
translate-eq-ok_iff p range_start range_end = (
  (λ (pieces, e).
      let (size, o, h, k, q) = inverted p range_start range_end pieces e in (size, o, h, k)),
  (λ (size, o, h, k). (
    translate_from range_start range_end 0 [] p.segments,
    unfold translate in rw o (ground arith),
  )),
)
