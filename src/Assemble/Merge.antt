-- ===== src/Assemble/Merge.antt =====
-- `push_merged` of crates/datboi-core/src/assemble.rs: a merged piece stands for the bytes of both.
use datboi.Base.{
  ℕ, ◌+◌, ◌-◌, ◌%◌, ◌^◌, ◌≤◌, ◌<◌, some, List, [], ◌∷◌, ◌++◌, length, take, drop, All, ◌&&◌,
  length-take, length-drop, ◌==◌, ◌≡◌, refl, sym, ap, subst, arith, length-append, length-replicate,
  Option-cases, inl, inr, Bool-cases, append_assoc, append-nil, ==_iff,
}
use datboi.Base.Slices.{
  take-add, replicate-add, drop-drop, drop-take, take-take, drop-replicate, take-replicate,
}
use datboi.Assemble.Defs.{Segment, blob_range, fill, literal, len, Source}
use datboi.Assemble.Pieces.{Piece, input, filled, bytes, piece_of, merged, push_last, push_merged}
use datboi.Assemble.Output

module _ {S : Type 0} (source : Source S) (sources : List S) where
  open source use {contents}

  abbrev InSource : ℕ → ℕ → ℕ → Type 0
  InSource = Output.InSource source sources

  abbrev piece_bytes : Piece → List ℕ
  piece_bytes = Output.piece_bytes source sources

  abbrev pieces_bytes : List Piece → List ℕ
  pieces_bytes = Output.pieces_bytes source sources

  abbrev pub IsPiece : Piece → Type 0
  IsPiece (input ix offset n) = InSource ix offset n
  IsPiece (filled byte n) = Unit {0}
  IsPiece (bytes bs) = Unit {0}

  -- Two ranges of one source that meet.
  join :
      (ix offset m at n : ℕ)
      → offset + m ≡ at
      → InSource ix offset m
      → InSource ix at n
      → InSource ix offset (m + n)
  join ix offset m at n e r r' = record {
    from = r.from;
    found = r.found;
    inside = omega (arith, r'.inside, ap (λ (s : S). length (contents s)) same);
    fits = omega (arith, r'.fits);
  }
    where
      same : r.from ≡ r'.from
      same = cc (r.found, r'.found)

  join_bytes :
      (ix offset m at n : ℕ)
      → offset + m ≡ at
      → InSource ix offset m
      → Output.source_slice source sources ix offset (m + n)
        ≡ Output.source_slice source sources ix offset m
          ++ Output.source_slice source sources ix at n
  unfolding Output.source_slice
  join_bytes ix offset m at n e r =
      rw (r.found, Output.source_slice, ← e, ← drop-drop m offset (contents r.from))
        (sym (take-add m n (drop offset (contents r.from))))

  -- The piece that `merged` makes stands for the bytes of both.
  abbrev Joined : Piece → Piece → Piece → Type 0
  Joined q p r = IsPiece r × (piece_bytes r ≡ piece_bytes q ++ piece_bytes p)

  Joined-some : (q p s r : Piece) → some s ≡ some r → Joined q p s → Joined q p r
  Joined-some q p s r e h = subst (Joined q p) {x = s} {y = r} (cc) h

  Joined-input :
      (a m b n at o : ℕ)
      → a ≡ b
      → (o + m) % 2 ^ 64 ≡ at
      → InSource a o m
      → InSource b at n
      → Joined (input a o m) (input b at n) (input a o ((m + n) % 2 ^ 64))
  unfolding Output.piece_bytes
  Joined-input a m b n at o same meet r r' =
      let e : o + m ≡ at = omega (arith, r.fits) in
      let r'' : InSource a at n = rw same r' in
      let room : (m + n) % 2 ^ 64 ≡ m + n = omega (arith, r''.fits) in
      rw room (join a o m at n e r r'', rw (← same) (join_bytes a o m at n e r))

  Joined-fill :
      (a m b n : ℕ)
      → a ≡ b
      → m + n < 2 ^ 64
      → Joined (filled a m) (filled b n) (filled a ((m + n) % 2 ^ 64))
  unfolding Output.piece_bytes
  Joined-fill a m b n same h =
      let room : (m + n) % 2 ^ 64 ≡ m + n = omega arith in
      rw (room, ← same) (tt, sym (replicate-add m n a))

  merged_lem :
      (q p r : Piece)
      → merged q p ≡ some r
      → IsPiece q
      → IsPiece p
      → length (piece_bytes q) + length (piece_bytes p) < 2 ^ 64
      → Joined q p r
  unfolding merged Output.piece_bytes
  merged_lem (input a o m) (input b at n) r e hq hp h =
      elim (Bool-cases (a == b && ((o + m) % 2 ^ 64) == at)) [
        | inl t ↦
            Joined-some (input a o m) (input b at n) _ r (rw t at e)
              (Joined-input a m b n at o (ground arith) (ground arith) hq hp)
        | inr f ↦ cc (rw f at e)
      ]
  merged_lem (filled a m) (filled b n) r e hq hp h = elim (Bool-cases (a == b)) [
    | inl t ↦ Joined-some (filled a m) (filled b n) _ r (rw t at e) (
        Joined-fill a m b n ((==_iff a b).0 t)
          (omega (arith, h, length-replicate m a, length-replicate n b)))
    | inr f ↦ cc (rw f at e)
  ]
  merged_lem (input a o m) (filled b n) r e hq hp h = cc
  merged_lem (input a o m) (bytes b) r e hq hp h = cc
  merged_lem (filled a m) (input b at n) r e hq hp h = cc
  merged_lem (filled a m) (bytes b) r e hq hp h = cc
  merged_lem (bytes a) (input b at n) r e hq hp h = cc
  merged_lem (bytes a) (filled b n) r e hq hp h = cc
  merged_lem (bytes a) (bytes b) r e hq hp h = cc

  push_last_lem :
      (ps : List Piece) (p : Piece)
      → All IsPiece ps
      → IsPiece p
      → length (pieces_bytes ps) + length (piece_bytes p) < 2 ^ 64
      → All IsPiece (push_last ps p)
        × (pieces_bytes (push_last ps p) ≡ pieces_bytes ps ++ piece_bytes p)
  unfolding push_last Output.pieces_bytes
  push_last_lem [] p hs hp h = ((hp, tt), append-nil (piece_bytes p))
  push_last_lem (q ∷ []) p hs hp h = elim (Option-cases (merged q p)) [
    | inl separate ↦
        rw (separate, push_last)
          ((hs.0, (hp, tt)), rw (append-nil (piece_bytes p), append-nil (piece_bytes q)))
    | inr (r, joined) ↦
        let (hr, er) =
          merged_lem q p r joined hs.0 hp (omega (arith, h, length-append (piece_bytes q) [])) in
        rw (joined, push_last)
          (
            (hr, tt),
            rw (er, append-nil (piece_bytes q), append-nil (piece_bytes q ++ piece_bytes p)),
          )
  ]
  push_last_lem (q ∷ r ∷ ps) p hs hp h =
      let (hs', es) =
        push_last_lem (r ∷ ps) p hs.1 hp
          (omega (arith, h, length-append (piece_bytes q) (pieces_bytes (r ∷ ps)))) in
      (
        (hs.0, hs'),
        rw es (sym (append_assoc (piece_bytes q) (pieces_bytes (r ∷ ps)) (piece_bytes p))),
      )

  -- The piece of a part of a segment stands for that part of the segment's bytes.
  piece_of_lem :
      (s : Segment) (within n : ℕ)
      → Output.IsSourced source sources s
      → within + n ≤ len s
      → IsPiece (piece_of s within n)
        × (piece_bytes (piece_of s within n)
            ≡ take n (drop within (Output.segment_bytes source sources s)))
  unfolding piece_of len Output.segment_bytes Output.piece_bytes
  piece_of_lem (blob_range ix offset l) within n r h =
      let c = contents r.from in
      let fit : (offset + within) % 2 ^ 64 ≡ offset + within = omega (arith, r.fits) in
      let part : InSource ix (offset + within) n = record {
        from = r.from;
        found = r.found;
        inside = omega (arith, r.inside);
        fits = omega (arith, r.fits);
      } in
      rw
        (
          fit,
          Output.source_slice_lem source sources part,
          Output.source_slice_lem source sources r,
          drop-take within l (drop offset c),
          drop-drop within offset c,
          take-take n (l - within) (drop (offset + within) c) (omega arith),
        )
        (part, refl)
  piece_of_lem (fill byte l) within n r h =
      (tt, rw (drop-replicate within l byte, take-replicate n (l - within) byte (omega arith)))
  piece_of_lem (literal bs) within n r h = (tt, refl)

  -- Pushing a part of a segment adds its bytes behind those of the pieces.
  pub push_merged_lem :
      (ps : List Piece) (s : Segment) (within n : ℕ)
      → All IsPiece ps
      → Output.IsSourced source sources s
      → within + n ≤ len s
      → length (pieces_bytes ps) + n < 2 ^ 64
      → All IsPiece (push_merged ps s within n)
        × (pieces_bytes (push_merged ps s within n)
            ≡ pieces_bytes ps ++ take n (drop within (Output.segment_bytes source sources s)))
  unfolding push_merged
  push_merged_lem ps s within n hs hr h room =
      let (hp, ep) = piece_of_lem s within n hr h in
      let part = Output.segment_bytes source sources s in
      let long : length (piece_bytes (piece_of s within n)) ≡ n = rw ep (
        omega (
          arith,
          length-take n (drop within part),
          length-drop within part,
          Output.length-segment_bytes source sources s hr,
        )) in
      rw (← ep) (push_last_lem ps (piece_of s within n) hs hp (rw long room))
