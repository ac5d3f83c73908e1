-- ===== src/Assemble/Reader.antt =====
-- `AssembleReader` of crates/datboi-core/src/assemble.rs.
use datboi.Base.{
  ℕ, ◌+◌, ◌-◌, ◌%◌, ◌^◌, min, Option, none, some, List, [], ◌∷◌, ◌++◌, take, drop, replicate,
  get_elem?, ◌==◌, Result, ok, if◌then◌else◌, and_then,
}
use datboi.Assemble.Defs.{
  Segment, blob_range, fill, literal, len, AssembleParams, AssembleError, Source, validate,
  validate_sources,
}
use mathlib.Core.Option

pub record ReaderState : Type 0 where
  pub segment : ℕ
  pub emitted : ℕ

module _ {S : Type 0} (source : Source S) (sources : List S) where
  open source use {read_at, contents, read_at_lem}

  -- The match that fills `n` bytes of the buffer; `none` is a failed read of a source.
  unfoldable pub fill_buf : Segment → ℕ → ℕ → Option (List ℕ)
  fill_buf (blob_range ix offset l) emitted n = elim (get_elem? sources ix) [
    | none ↦ none
    | some s ↦ read_at s ((offset + emitted) % 2 ^ 64) n
  ]
  fill_buf (fill byte l) emitted n = some (replicate n byte)
  fill_buf (literal bs) emitted n = some (take n (drop emitted bs))

  -- The loop of `read`, over the segments from `segment` on and a buffer of `buf_len` bytes.
  unfoldable pub read_from : List Segment → ℕ → ℕ → ℕ → Option (List ℕ × ReaderState)
  read_from [] segment emitted buf_len = some ([], record { segment = segment; emitted = emitted })
  read_from (s ∷ ss) segment emitted buf_len =
      let remaining = len s - emitted in
      let next = read_from ss (segment + 1) 0 buf_len in
      let n = min remaining buf_len in
      if remaining == 0
      then next
      else if buf_len == 0
      then some ([], record { segment = segment; emitted = emitted })
      else elim (fill_buf s emitted n) [
        | none ↦ none
        | some chunk ↦ some (chunk, record { segment = segment; emitted = emitted + n })
      ]

  unfoldable pub read : AssembleParams → ReaderState → ℕ → Option (List ℕ × ReaderState)
  read p st buf_len = read_from (drop (st.segment) p.segments) (st.segment) (st.emitted) buf_len

  unfoldable pub reader : AssembleParams → Result AssembleError ReaderState
  reader p = and_then (validate p) λ _.
      and_then (validate_sources source p sources) λ _. ok (record { segment = 0; emitted = 0 })

  -- One read for each buffer length, as `read_to_end` and the like make; what they gave, joined.
  unfoldable pub read_each : AssembleParams → ReaderState → List ℕ → Option (List ℕ)
  read_each p st [] = some []
  read_each p st (buf_len ∷ bufs) = elim (read p st buf_len) [
    | none ↦ none
    | some (chunk, st') ↦ Option.map (λ more. chunk ++ more) (read_each p st' bufs)
  ]
