-- ===== src/Exec/Defs.antt =====
-- The sources and adapters of crates/datboi-exec/src/random.rs. A call's buffer is its length and the
-- answer the bytes put in front of it.
use datboi.Base.{
  ℕ, zero, suc, ◌+◌, ◌-◌, ◌^◌, ◌≤◌, ◌<◌, min, List, [], ◌∷◌, ◌++◌, Option, none, some, length, take,
  drop, replicate, get_elem?, ltb, ◌==◌, ok, err, if◌then◌else◌, ◌≡◌,
}
use datboi.Assemble.Defs.{
  Segment, blob_range, fill, literal, AssembleParams, output_size, checked_add,
}
use datboi.Assemble.Pieces.{Piece, input, filled, bytes, translate}
use mathlib.Core.Option

-- The result of a read: `interrupted` and `unexpected_eof` are error kinds of their own.
pub data Outcome : Type 0 where
  got : List ℕ → Outcome
  interrupted : Outcome
  unexpected_eof : Outcome
  failed : Outcome

-- The trait `RangeRead` of crates/datboi-runtime/src/stream.rs, for sources that do not fail: a read
-- inside of the source gives at least one byte, and what it gives is what stands there.
pub record RangeRead (S : Type 0) : Type 0 where
  pub len : S → ℕ
  pub read_at : S → ℕ → ℕ → Outcome
  pub contents : S → List ℕ
  pub len_lem : (s : S) → len s ≡ length (contents s)
  pub read_at_lem :
      (s : S) (offset n : ℕ)
      → offset < length (contents s)
      → 0 < n
      → (chunk : List ℕ) × (read_at s offset n ≡ got chunk)
        × (0 < length chunk)
        × (length chunk ≤ n)
        × (chunk ≡ take (length chunk) (drop offset (contents s)))

module _ {S : Type 0} (source : RangeRead S) where
  open source use {len, read_at}

  -- The loop of `read_at_exact`, for `n` bytes from `offset` on; each round reads at least one byte or
  -- is interrupted. An interrupted read takes up fuel too, while the source repeats it without a bound;
  -- `none` is any error, or the end of the fuel.
  unfoldable pub read_at_exact : ℕ → S → ℕ → ℕ → Option (List ℕ)
  read_at_exact zero s offset n = if n == 0 then some [] else none
  read_at_exact (suc fuel) s offset n = elim n [
    | zero ↦ some []
    | suc m ↦ elim (read_at s offset (suc m)) [
      | got [] ↦ none
      | got (b ∷ bs) ↦
          Option.map (λ more. (b ∷ bs) ++ more)
            (read_at_exact fuel s (offset + length (b ∷ bs)) (suc m - length (b ∷ bs)))
      | interrupted ↦ read_at_exact fuel s offset (suc m)
      | unexpected_eof ↦ none
      | failed ↦ none
    ]
  ]

  -- The loop of `AssembleRandom::new` over the segments.
  unfoldable pub check_segments : List S → List Segment → Option (Unit {0})
  check_segments children [] = some tt
  check_segments children (blob_range ix offset n ∷ rest) =
      let later = check_segments children rest in
      elim (get_elem? children ix) [
        | none ↦ none
        | some child ↦ elim (checked_add offset n) [
          | none ↦ none
          | some end ↦ if ltb (len child) end then none else later
        ]
      ]
  check_segments children (fill byte n ∷ rest) = check_segments children rest
  check_segments children (literal bs ∷ rest) = check_segments children rest

  -- `AssembleRandom::new`: the size of the node, which has the params and the children.
  unfoldable pub assemble_random : AssembleParams → List S → Option ℕ
  assemble_random p children = elim (output_size p) [
    | err e ↦ none
    | ok size ↦ Option.map (λ _. size) (check_segments children p.segments)
  ]

  unfoldable pub read_piece : List S → Piece → Option (List ℕ)
  read_piece children (input ix offset n) = elim (get_elem? children ix) [
    | none ↦ none
    | some child ↦ read_at_exact n child offset n
  ]
  read_piece children (filled byte n) = some (replicate n byte)
  read_piece children (bytes bs) = some bs

  unfoldable pub read_pieces : List S → List Piece → Option (List ℕ)
  read_pieces children [] = some []
  read_pieces children (p ∷ ps) = elim (read_piece children p) [
    | none ↦ none
    | some chunk ↦ Option.map (λ more. chunk ++ more) (read_pieces children ps)
  ]

  -- `AssembleRandom::read_at`, where every error of `read_at_exact` becomes `failed`; the source passes
  -- its kind on.
  unfoldable pub assembled_read_at : AssembleParams → List S → ℕ → ℕ → ℕ → Outcome
  assembled_read_at p children size offset buf_len =
      let start = min offset size in
      let end = min (min (offset + buf_len) (2 ^ 64 - 1)) size in
      if start == end then got [] else elim (translate p start end) [
        | err e ↦ failed
        | ok pieces ↦ elim (read_pieces children pieces) [ none ↦ failed | some chunk ↦ got chunk ]
      ]

-- `WindowSeq`
pub record WindowSeq : Type 0 where
  pub start : ℕ
  pub remaining : ℕ

module _ {S : Type 0} (source : RangeRead S) where
  open source use {read_at}

  -- `SeqOverRandom::read` from the position `pos`.
  unfoldable pub seq_read : S → ℕ → ℕ → Outcome × ℕ
  seq_read s pos buf_len = elim (read_at s pos buf_len) [
    | got chunk ↦ (got chunk, pos + length chunk)
    | interrupted ↦ (interrupted, pos)
    | unexpected_eof ↦ (unexpected_eof, pos)
    | failed ↦ (failed, pos)
  ]

  -- `WindowSeq::read`
  unfoldable pub window_read : S → WindowSeq → ℕ → Outcome × WindowSeq
  window_read s w buf_len =
      if w.remaining == 0 then (got [], w) else elim (read_at s w.start (min w.remaining buf_len)) [
        | got [] ↦ (unexpected_eof, w)
        | got (b ∷ bs) ↦ (
          got (b ∷ bs),
          record { start = w.start + length (b ∷ bs); remaining = w.remaining - length (b ∷ bs) },
        )
        | interrupted ↦ (interrupted, w)
        | unexpected_eof ↦ (unexpected_eof, w)
        | failed ↦ (failed, w)
      ]
