-- ===== src/Assemble/Reading.antt =====
-- The reads of crates/datboi-core/src/assemble.rs give the assembled output, whatever the buffers.
use datboi.Base.{
  ℕ, ◌+◌, ◌-◌, ◌%◌, ◌^◌, ◌≤◌, ◌<◌, min, Option, some, List, [], ◌∷◌, ◌++◌, length, take, drop, All,
  ◌==◌, ◌≡◌, refl, sym, ap, ◌∙◌, arith, length-append, inl, inr, Bool-cases, append-nil,
  length-take, length-drop, ok, dec_lt, take-append-drop, All-drop, and_then-eq-ok,
}
use datboi.Base.Slices.{
  take-append, drop-append, drop_all, drop-drop, drop-take, take-take, drop-replicate,
  take-replicate, drop-nil,
}
use datboi.Assemble.Defs.{
  Segment, blob_range, fill, literal, len, AssembleParams, Source, validate, validate_sources,
}
use datboi.Assemble.Output
use datboi.Assemble.Reader.{ReaderState, fill_buf, read_from, read, reader, read_each}

slice_front :
    (b r : List ℕ) (e n : ℕ) → e + n ≤ length b → take n (drop e (b ++ r)) ≡ take n (drop e b)
slice_front b r e n h =
    let inside : n - length (drop e b) ≡ 0 = omega (arith, length-drop e b) in
    rw (drop-append e b r, take-append n (drop e b) (drop (e - length b) r), inside, append-nil)

module _ {S : Type 0} (source : Source S) (sources : List S) where
  open source use {read_at, contents, read_at_lem}

  -- The bytes that a reader has still to give.
  abbrev pub to_come_from : List Segment → ℕ → List ℕ
  to_come_from ss emitted = drop emitted (Output.output source sources ss)

  abbrev pub to_come : AssembleParams → ReaderState → List ℕ
  to_come p st = to_come_from (drop (st.segment) p.segments) (st.emitted)

  -- How far a reader may be in the segment that it stands at.
  abbrev pub InSegment : List Segment → ℕ → Type 0
  InSegment [] emitted = emitted ≡ 0
  InSegment (s ∷ ss) emitted = emitted ≤ len s

  fill_buf_lem :
      (s : Segment) (emitted n : ℕ)
      → Output.IsSourced source sources s
      → emitted + n ≤ len s
      → fill_buf source sources s emitted n
        ≡ some (take n (drop emitted (Output.segment_bytes source sources s)))
  unfolding fill_buf len Output.segment_bytes
  fill_buf_lem (blob_range ix offset l) emitted n r h =
      let c = contents r.from in
      let fit : (offset + emitted) % 2 ^ 64 ≡ offset + emitted = omega (arith, r.fits) in
      rw (
        r.found,
        fill_buf,
        fit,
        read_at_lem r.from (offset + emitted) n (omega (arith, r.inside)),
        Output.source_slice_lem source sources r,
        drop-take emitted l (drop offset c),
        drop-drop emitted offset c,
        take-take n (l - emitted) (drop (offset + emitted) c) (omega arith),
      )
  fill_buf_lem (fill byte l) emitted n r h =
      rw (drop-replicate emitted l byte, take-replicate n (l - emitted) byte (omega arith))
  fill_buf_lem (literal bs) emitted n r h = refl

  -- What one read does, from a place among the segments `all`.
  record Progress (all : List Segment) (coming : List ℕ) (buf_len : ℕ)
      (r : Option (List ℕ × ReaderState)) : Type 0 where
    chunk : List ℕ
    next : ReaderState
    gives : r ≡ some (chunk, next)
    placed : InSegment (drop (next.segment) all) (next.emitted)
    splits : coming ≡ chunk ++ to_come_from (drop (next.segment) all) (next.emitted)
    fits : length chunk ≤ buf_len
    moves : 0 < buf_len → length chunk ≡ 0 → coming ≡ []

  at_start : (ss : List Segment) → InSegment ss 0
  at_start [] = refl
  at_start (s ∷ ss) = omega arith

  read_from-Progress :
      (all ss : List Segment) (segment emitted buf_len : ℕ)
      → drop segment all ≡ ss
      → All (Output.IsSourced source sources) ss
      → InSegment ss emitted
      → Progress all
          (to_come_from ss emitted)
          buf_len
          (read_from source sources ss segment emitted buf_len)
  unfolding read_from Output.output
  read_from-Progress all [] segment emitted buf_len at hr h = record {
    chunk = [];
    next = record { segment = segment; emitted = emitted };
    gives = refl;
    placed = rw at h;
    splits = rw at refl;
    fits = omega arith;
    moves = λ _ _. drop-nil emitted;
  }
  read_from-Progress all (s ∷ ss) segment emitted buf_len at hr h =
      elim (Bool-cases ((len s - emitted) == 0)) [
        | inl done ↦
            let skipped : drop emitted (b ++ out) ≡ out = rw (
              drop-append emitted b out,
              drop_all emitted b (ground (arith, size)),
              nothing (ground arith),
            ) in
            rw (done, skipped)
              (read_from-Progress all ss (segment + 1) 0 buf_len later hr.1 (at_start ss))
        | inr more ↦ elim (Bool-cases (buf_len == 0)) [
          | inl full ↦
              rw (more, full)
                (record {
                  chunk = [];
                  next = record { segment = segment; emitted = emitted };
                  gives = refl;
                  placed = rw at h;
                  splits = rw at refl;
                  fits = omega arith;
                  moves = λ p. absurd (ground arith);
                })
          | inr some_room ↦
              let n = min (len s - emitted) buf_len in
              let inside : emitted + n ≤ len s = omega arith in
              rw (more, some_room, fill_buf_lem s emitted n hr.0 inside)
                (record {
                  chunk = take n (drop emitted b);
                  next = record { segment = segment; emitted = emitted + n };
                  gives = refl;
                  placed = rw at inside;
                  splits = rw at (front n inside);
                  fits = omega (arith, length-take n (drop emitted b));
                  moves = λ p q.
                      absurd (
                        ground
                          (arith, length-take n (drop emitted b), length-drop emitted b, size));
                })
        ]
      ]
    where
      b : List ℕ
      b = Output.segment_bytes source sources s

      out : List ℕ
      out = Output.output source sources ss

      size : length b ≡ len s
      size = Output.length-segment_bytes source sources s hr.0

      nothing : emitted ≡ len s → drop (emitted - length b) out ≡ out
      nothing e = let z : emitted - length b ≡ 0 = omega (arith, size) in rw z

      later : drop (segment + 1) all ≡ ss
      later = rw (← drop-drop 1 segment all, at)

      front :
          (n : ℕ)
          → emitted + n ≤ len s
          → drop emitted (b ++ out) ≡ take n (drop emitted b) ++ drop (emitted + n) (b ++ out)
      front n h =
          rw (← slice_front b out emitted n (omega (arith, size)), ← drop-drop n emitted (b ++ out))
            (sym (take-append-drop n (drop emitted (b ++ out))))

  read-Progress :
      (p : AssembleParams) (st : ReaderState) (buf_len : ℕ)
      → All (Output.IsSourced source sources) p.segments
      → InSegment (drop (st.segment) p.segments) (st.emitted)
      → Progress p.segments (to_come p st) buf_len (read source sources p st buf_len)
  unfolding read
  read-Progress p st buf_len hr h =
      read_from-Progress p.segments _ (st.segment) (st.emitted) buf_len refl
        (All-drop (Output.IsSourced source sources) (st.segment) p.segments hr) h

  -- With a byte of room in every buffer, as many reads as there are bytes to come give them all.
  read_each-to_come :
      (p : AssembleParams) (st : ReaderState) (bufs : List ℕ)
      → All (Output.IsSourced source sources) p.segments
      → InSegment (drop (st.segment) p.segments) (st.emitted)
      → All (λ n. 0 < n) bufs
      → length (to_come p st) ≤ length bufs
      → read_each source sources p st bufs ≡ some (to_come p st)
  unfolding read_each
  read_each-to_come p st [] hr h hb le = ap some (sym (no_bytes (to_come p st) le))
    where
      no_bytes : (xs : List ℕ) → length xs ≤ 0 → xs ≡ []
      no_bytes [] h = refl
      no_bytes (x ∷ xs) h = absurd (omega arith)
  read_each-to_come p st (n ∷ bufs) hr h (hn, hb) le =
      let r = read-Progress p st n hr h in
      let rest = to_come p (r.next) in
      let long : length (to_come p st) ≡ length (r.chunk) + length rest =
        ap length (r.splits) ∙ length-append (r.chunk) rest in
      let fewer : length rest ≤ length bufs = elim (dec_lt 0 (length (r.chunk))) [
        | yes moved ↦ omega (arith, long, moved)
        | no stuck ↦ omega (arith, long, ap (length {A = ℕ}) (r.moves hn (omega arith)))
      ] in
      rw (r.gives, read_each, read_each-to_come p (r.next) bufs hr (r.placed) hb fewer)
        (ap some (sym (r.splits)))

-- If a reader was made for params and sources, then reads from its start with room for a byte or
-- more in each buffer, at least as many as the output has bytes, do not fail and give together
-- the assembled output.
pub read_each-output :
    {S : Type 0} (source : Source S) (sources : List S) (p : AssembleParams) (st : ReaderState)
    (bufs : List ℕ)
    → reader source sources p ≡ ok st
    → All (λ n. 0 < n) bufs
    → length (Output.output source sources p.segments) ≤ length bufs
    → read_each source sources p st bufs ≡ some (Output.output source sources p.segments)
unfolding reader
read_each-output source sources p st bufs e hb le =
    let (u, ev, e₁) = and_then-eq-ok (validate p) _ e in
    let (w, es, e₂) = and_then-eq-ok (validate_sources source p sources) _ e₁ in
    let start : ReaderState = record { segment = 0; emitted = 0 } in
    let at_first : start ≡ st = cc in
    let sourced = Output.validate_sources-IsSourced source sources p es in
    rw (← at_first) (
      read_each-to_come source sources p start bufs sourced (at_start source sources p.segments) hb
        le)
