-- ===== src/Assemble/Output.antt =====
-- The bytes that segments and pieces stand for, and what the checks on the sources of
-- crates/datboi-core/src/assemble.rs establish.
use datboi.Base.{
  ℕ, ◌+◌, ◌^◌, ◌≤◌, ◌<◌, none, some, List, [], ◌∷◌, ◌++◌, length, take, drop, replicate, All,
  get_elem?, ltb, ok, and_then-eq-ok, ◌≡◌, refl, arith, length-take, length-drop, length-replicate,
  length-append, Option-cases, inl, inr, Bool-cases, tests, ◌⊎◌, err,
}
use datboi.Assemble.Defs.{
  Segment, blob_range, fill, literal, len, AssembleParams, Source, validate_source,
  validate_sources_from, validate_sources, checked_add, add_lens, output_size, size_overflow,
}
use datboi.Assemble.Pieces.{Piece, input, filled, bytes}

module _ {S : Type 0} (source : Source S) (sources : List S) where
  open source use {contents, source_len, source_len_lem}

  -- A slice of the bytes of one source.
  unfoldable pub source_slice : ℕ → ℕ → ℕ → List ℕ
  source_slice ix offset n = elim (get_elem? sources ix) [
    | none ↦ []
    | some s ↦ take n (drop offset (contents s))
  ]

  unfoldable pub segment_bytes : Segment → List ℕ
  segment_bytes (blob_range ix offset n) = source_slice ix offset n
  segment_bytes (fill byte n) = replicate n byte
  segment_bytes (literal bs) = bs

  -- The assembled output.
  unfoldable pub output : List Segment → List ℕ
  output [] = []
  output (s ∷ ss) = segment_bytes s ++ output ss

  unfoldable pub piece_bytes : Piece → List ℕ
  piece_bytes (input ix offset n) = source_slice ix offset n
  piece_bytes (filled byte n) = replicate n byte
  piece_bytes (bytes bs) = bs

  unfoldable pub pieces_bytes : List Piece → List ℕ
  pieces_bytes [] = []
  pieces_bytes (p ∷ ps) = piece_bytes p ++ pieces_bytes ps

  -- A range that lies in a source, with ends that fit 64 bits.
  pub record InSource (ix offset n : ℕ) : Type 0 where
    pub from : S
    pub found : get_elem? sources ix ≡ some from
    pub inside : offset + n ≤ length (contents from)
    pub fits : offset + n < 2 ^ 64

  abbrev pub IsSourced : Segment → Type 0
  IsSourced (blob_range ix offset n) = InSource ix offset n
  IsSourced (fill byte n) = Unit {0}
  IsSourced (literal bs) = Unit {0}

  checked_range :
      (ix offset n i : ℕ) (s : S)
      → get_elem? sources ix ≡ some s
      → validate_source source sources i (blob_range ix offset n) ≡ ok tt
      → InSource ix offset n
  unfolding validate_source checked_add
  checked_range ix offset n i s found e = record {
    from = s;
    found = found;
    inside = ground (arith, source_len_lem s);
    fits = ground arith;
  }

  validate_source-IsSourced :
      (i : ℕ) (s : Segment) → validate_source source sources i s ≡ ok tt → IsSourced s
  unfolding validate_source
  validate_source-IsSourced i (fill byte n) e = tt
  validate_source-IsSourced i (literal bs) e = tt
  validate_source-IsSourced i (blob_range ix offset n) e =
      elim (Option-cases (get_elem? sources ix)) [
        | inl missing ↦ cc (rw (missing, validate_source) at e)
        | inr (s, found) ↦ checked_range ix offset n i s found e
      ]

  validate_sources_from-IsSourced :
      (i : ℕ) (ss : List Segment)
      → validate_sources_from source sources i ss ≡ ok tt
      → All IsSourced ss
  unfolding validate_sources_from
  validate_sources_from-IsSourced i [] e = tt
  validate_sources_from-IsSourced i (s ∷ ss) e =
      let (u, e₁, e₂) = and_then-eq-ok (validate_source source sources i s) _ e in
      (validate_source-IsSourced i s e₁, validate_sources_from-IsSourced (i + 1) ss e₂)

  -- Every segment that passed the check reads inside its source.
  pub validate_sources-IsSourced :
      (p : AssembleParams) → validate_sources source p sources ≡ ok tt → All IsSourced p.segments
  unfolding validate_sources
  validate_sources-IsSourced p e = validate_sources_from-IsSourced 0 p.segments e

  pub source_slice_lem :
      {ix offset n : ℕ} (r : InSource ix offset n)
      → source_slice ix offset n ≡ take n (drop offset (contents r.from))
  unfolding source_slice
  source_slice_lem r = rw (r.found, source_slice)

  pub length-source_slice :
      {ix offset n : ℕ} → InSource ix offset n → length (source_slice ix offset n) ≡ n
  length-source_slice {ix} {offset} {n} r = rw (source_slice_lem r) (
      omega (
        arith,
        length-take n (drop offset (contents r.from)),
        length-drop offset (contents r.from),
        r.inside,
      ))

  pub length-segment_bytes : (s : Segment) → IsSourced s → length (segment_bytes s) ≡ len s
  unfolding segment_bytes len
  length-segment_bytes (blob_range ix offset n) r = length-source_slice r
  length-segment_bytes (fill byte n) r = length-replicate n byte
  length-segment_bytes (literal bs) r = refl

  add_lens-output :
      (acc : ℕ) (ss : List Segment) (size : ℕ)
      → All IsSourced ss
      → add_lens acc ss ≡ some size
      → acc + length (output ss) ≡ size
  unfolding add_lens output checked_add
  add_lens-output acc [] size r e = ground arith
  add_lens-output acc (s ∷ ss) size r e = elim (Bool-cases (ltb (acc + len s) (2 ^ 64))) [
    | inl t ↦
        let ih = add_lens-output (acc + len s) ss size r.1 (ground arith) in
        omega (arith, ih, length-append (segment_bytes s) (output ss), length-segment_bytes s r.0)
    | inr f ↦ ground arith
  ]

  -- `output_size` is the length of the assembled output.
  pub output_size-output :
      (p : AssembleParams) (size : ℕ)
      → All IsSourced p.segments
      → output_size p ≡ ok size
      → length (output p.segments) ≡ size
  unfolding output_size
  output_size-output p size r e = elim (Option-cases (add_lens 0 p.segments)) [
    | inl over ↦ cc (rw over at e)
    | inr (n, total) ↦ ground (arith, add_lens-output 0 p.segments n r total)
  ]

add_lens-lt :
    (acc : ℕ) (ss : List Segment) (size : ℕ)
    → acc < 2 ^ 64
    → add_lens acc ss ≡ some size
    → size < 2 ^ 64
unfolding add_lens checked_add
add_lens-lt acc [] size h e = ground arith
add_lens-lt acc (s ∷ ss) size h e = elim (Bool-cases (ltb (acc + len s) (2 ^ 64))) [
  | inl t ↦ add_lens-lt (acc + len s) ss size (omega (tests, t)) (ground arith)
  | inr f ↦ ground arith
]

pub output_size-lt : (p : AssembleParams) (size : ℕ) → output_size p ≡ ok size → size < 2 ^ 64
unfolding output_size
output_size-lt p size e = elim (Option-cases (add_lens 0 p.segments)) [
  | inl over ↦ cc (rw over at e)
  | inr (n, total) ↦ ground (arith, add_lens-lt 0 p.segments n (omega arith) total)
]

-- The lengths of the segments added up, without a bound.
unfoldable pub total_len : List Segment → ℕ
total_len [] = 0
total_len (s ∷ ss) = len s + total_len ss

add_lens-total_len :
    (acc : ℕ) (ss : List Segment)
    → acc < 2 ^ 64
    → ((add_lens acc ss ≡ some (acc + total_len ss)) × (acc + total_len ss < 2 ^ 64))
      ⊎ ((add_lens acc ss ≡ none) × (2 ^ 64 ≤ acc + total_len ss))
unfolding add_lens total_len checked_add
add_lens-total_len acc [] h =
    let same : acc + 0 ≡ acc = omega arith in inl (rw same refl, omega arith)
add_lens-total_len acc (s ∷ ss) h = elim (Bool-cases (ltb (acc + len s) (2 ^ 64))) [
  | inl t ↦
      let all : acc + len s + total_len ss ≡ acc + (len s + total_len ss) = omega arith in
      rw (t, add_lens) (rw all at (add_lens-total_len (acc + len s) ss (ground arith)))
  | inr f ↦ inr (rw (f, add_lens) refl, ground arith)
]

-- `output_size` adds up, or fails when the sum does not fit 64 bits.
pub output_size-total_len :
    (p : AssembleParams)
    → ((output_size p ≡ ok (total_len p.segments)) × (total_len p.segments < 2 ^ 64))
      ⊎ ((output_size p ≡ err size_overflow) × (2 ^ 64 ≤ total_len p.segments))
unfolding output_size
output_size-total_len p =
    let none_before : 0 + total_len p.segments ≡ total_len p.segments = omega arith in
    elim (add_lens-total_len 0 p.segments (omega arith)) [
      | inl (e, small) ↦ inl (rw (e, none_before) refl, omega arith)
      | inr (e, large) ↦ inr (rw e refl, omega arith)
    ]
