-- ===== src/Exec/Assembled.antt =====
-- `AssembleRandom` of crates/datboi-exec/src/random.rs reads the assembled output.
use datboi.Base.{
  ℕ, ◌+◌, ◌-◌, ◌^◌, ◌<◌, min, List, [], ◌∷◌, some, length, take, drop, All, get_elem?, ltb, ◌==◌,
  ok, Bool-cases, Option-cases, Result-cases, inl, inr, ◌≡◌, refl, sym, ap, ◌∙◌, subst, arith,
  length-drop, dec_lt,
}
use datboi.Base.Slices.{drop_all, take-min, take-nil}
use datboi.Assemble.Defs.{
  Segment, blob_range, fill, literal, AssembleParams, output_size, checked_add, validate_source,
  validate_sources, validate_sources_from,
}
use datboi.Assemble.Pieces.{Piece, input, filled, bytes}
use datboi.Assemble.Output
use datboi.Assemble.Translate.{pieces_bytes-translate, translate-IsPiece, translate-eq-ok_iff}
use datboi.Assemble.Merge.{IsPiece}
use datboi.Exec.Defs.{
  RangeRead, got, check_segments, assemble_random, read_piece, read_pieces, assembled_read_at,
}
use datboi.Exec.Exact.{exact, read_at_exact_lem}

module _ {S : Type 0} (source : RangeRead S) (children : List S) where
  open source use {len, contents, len_lem}

  checked :
      (i : ℕ) (ss : List Segment)
      → check_segments source children ss ≡ some tt
      → validate_sources_from (exact source) children i ss ≡ ok tt
  unfolding check_segments validate_sources_from validate_source checked_add
  checked i [] e = refl
  checked i (blob_range ix offset n ∷ rest) e = elim (Option-cases (get_elem? children ix)) [
    | inl missing ↦ cc (rw (missing, check_segments) at e)
    | inr (child, found) ↦ elim (Bool-cases (ltb (offset + n) (2 ^ 64))) [
      | inr over ↦ cc (rw (found, check_segments, over) at e)
      | inl fits ↦ elim (Bool-cases (ltb (len child) (offset + n))) [
        | inl past ↦ cc (rw (found, check_segments, fits, past) at e)
        | inr inside ↦
            let more : check_segments source children rest ≡ some tt =
              rw (found, check_segments, fits, inside) at e in
            rw (found, validate_source, fits, inside) (checked (i + 1) rest more)
      ]
    ]
  ]
  checked i (fill byte n ∷ rest) e = checked (i + 1) rest e
  checked i (literal bs ∷ rest) e = checked (i + 1) rest e

  abbrev out : AssembleParams → List ℕ
  out p = Output.output (exact source) children p.segments

  read_piece-bytes :
      (q : Piece)
      → IsPiece (exact source) children q
      → read_piece source children q ≡ some (Output.piece_bytes (exact source) children q)
  unfolding read_piece Output.piece_bytes
  read_piece-bytes (input ix offset n) r =
      rw (r.found, read_piece, read_at_exact_lem source n r.from offset n (omega arith) r.inside)
        (ap some (sym (Output.source_slice_lem (exact source) children r)))
  read_piece-bytes (filled byte n) r = refl
  read_piece-bytes (bytes bs) r = refl

  read_pieces-bytes :
      (ps : List Piece)
      → All (IsPiece (exact source) children) ps
      → read_pieces source children ps ≡ some (Output.pieces_bytes (exact source) children ps)
  unfolding read_pieces Output.pieces_bytes
  read_pieces-bytes [] h = refl
  read_pieces-bytes (p ∷ ps) (h, hs) =
      rw (read_piece-bytes p h, read_pieces, read_pieces-bytes ps hs) refl

  made :
      (p : AssembleParams) (size : ℕ)
      → assemble_random source p children ≡ some size
      → (output_size p ≡ ok size) × (validate_sources (exact source) p children ≡ ok tt)
  unfolding assemble_random validate_sources
  made p size e = elim (Result-cases (output_size p)) [
    | inr (x, o) ↦ cc (rw (o, assemble_random) at e)
    | inl (n, o) ↦ elim (Option-cases (check_segments source children p.segments)) [
      | inl none_there ↦ cc (rw (o, assemble_random, none_there) at e)
      | inr (u, passed) ↦
          let same : some n ≡ some size = rw (o, assemble_random, passed) at e in
          (o ∙ ap ok (cc same), checked 0 p.segments passed)
    ]
  ]

  -- A range of the output, cut at its end.
  cut :
      (xs : List ℕ) (size offset n : ℕ)
      → length xs ≡ size
      → size < 2 ^ 64
      → take
          (min (min (offset + n) (2 ^ 64 - 1)) size - min offset size)
          (drop (min offset size) xs)
        ≡ take n (drop offset xs)
  cut xs size offset n long small = elim (dec_lt offset size) [
    | yes inside ↦
        let from : min offset size ≡ offset = omega arith in
        let count : min (min (offset + n) (2 ^ 64 - 1)) size - offset
            ≡ min n (length (drop offset xs)) =
          omega (arith, length-drop offset xs) in
        rw (from, count) (take-min n (drop offset xs))
    | no outside ↦
        let count : min (min (offset + n) (2 ^ 64 - 1)) size - min offset size ≡ 0 = omega arith in
        rw (count, drop_all offset xs (omega arith)) (sym (take-nil n))
  ]

  -- An assemble node over sources that do not fail, once `AssembleRandom::new` accepts it, gives at
  -- every offset and for every buffer the bytes that stand there in the assembled output, as many as
  -- fit the buffer or are left.
  pub assembled_read_at-output :
      (p : AssembleParams) (size offset buf_len : ℕ)
      → assemble_random source p children ≡ some size
      → assembled_read_at source p children size offset buf_len
        ≡ got (take buf_len (drop offset (Output.output (exact source) children p.segments)))
  unfolding assembled_read_at
  assembled_read_at-output p size offset buf_len e =
      let (o, v) = made p size e in
      let sourced = Output.validate_sources-IsSourced (exact source) children p v in
      let long = Output.output_size-output (exact source) children p size sourced o in
      let small = Output.output_size-lt p size o in
      let slice_is = cut (out p) size offset buf_len long small in
      elim (Bool-cases (min offset size == min (min (offset + buf_len) (2 ^ 64 - 1)) size)) [
        | inl empty ↦
            let none_left : min (min (offset + buf_len) (2 ^ 64 - 1)) size - min offset size ≡ 0 =
              ground arith in
            rw empty (
              ap got (
                subst
                  (λ (k : ℕ).
                    take k (drop (min offset size) (out p)) ≡ take buf_len (drop offset (out p)))
                  none_left slice_is))
        | inr some_left ↦
            let (pieces, t) =
              (translate-eq-ok_iff p (min offset size)
                  (min (min (offset + buf_len) (2 ^ 64 - 1)) size)).1
                (size, o, omega arith, omega arith) in
            let are_pieces = translate-IsPiece (exact source) children p _ _ pieces v t in
            let are_bytes = pieces_bytes-translate (exact source) children p _ _ pieces v t in
            simp (some_left, t, read_pieces-bytes pieces are_pieces, are_bytes) (ap got slice_is)
      ]
