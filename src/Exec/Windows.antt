-- ===== src/Exec/Windows.antt =====
-- `WindowSeq` of crates/datboi-exec/src/random.rs gives its window in order.
use datboi.Base.{
  ℕ, zero, suc, ◌+◌, ◌-◌, ◌≤◌, ◌<◌, min, List, [], ◌∷◌, ◌++◌, Option, none, some, length, take,
  drop, ◌==◌, ◌≡◌, refl, ap, arith, false,
}
use datboi.Exec.Defs.{RangeRead, got, interrupted, unexpected_eof, failed, WindowSeq, window_read}
use datboi.Exec.Exact.{two_parts}
use mathlib.Core.Option

module _ {S : Type 0} (source : RangeRead S) where
  open source use {contents, read_at, read_at_lem}

  -- The bytes that the window has still to give.
  abbrev pub window : S → WindowSeq → List ℕ
  window s w = take w.remaining (drop w.start (contents s))

  -- A reader that reads into a buffer until it gets no byte, at most `fuel` times.
  unfoldable pub read_all : ℕ → S → WindowSeq → ℕ → Option (List ℕ)
  read_all zero s w buf_len = none
  read_all (suc fuel) s w buf_len =
      let (outcome, next) = window_read source s w buf_len in
      elim outcome [
        | got [] ↦ some []
        | got (b ∷ bs) ↦ Option.map (λ more. (b ∷ bs) ++ more) (read_all fuel s next buf_len)
        | interrupted ↦ none
        | unexpected_eof ↦ none
        | failed ↦ none
      ]

  window_end :
      (s : S) (start buf_len : ℕ)
      → window_read source s (record { start = start; remaining = 0 }) buf_len
        ≡ (got [], record { start = start; remaining = 0 })
  unfolding window_read
  window_end s start buf_len = refl

  window_step :
      (s : S) (start n buf_len : ℕ) (b : ℕ) (bs : List ℕ)
      → read_at s start (min (suc n) buf_len) ≡ got (b ∷ bs)
      → window_read source s (record { start = start; remaining = suc n }) buf_len ≡ (
        got (b ∷ bs),
        record { start = start + length (b ∷ bs); remaining = suc n - length (b ∷ bs) },
      )
  unfolding window_read
  window_step s start n buf_len b bs e =
      let more : (suc n == 0) ≡ false = ground arith in rw (more, e) refl

  -- Over a source that does not fail, a reader with room in its buffer that reads a window of the
  -- source more often than the window has bytes comes to its end and has all of it.
  pub read_all-window :
      (fuel : ℕ) (s : S) (w : WindowSeq) (buf_len : ℕ)
      → 0 < buf_len
      → w.start + w.remaining ≤ length (contents s)
      → w.remaining < fuel
      → read_all fuel s w buf_len ≡ some (window s w)
  unfolding read_all
  read_all-window zero s w buf_len room inside enough = absurd (omega arith)
  read_all-window (suc fuel) s w buf_len room inside enough =
      go (λ v. read_all-window fuel s v buf_len room) w.remaining w.start inside enough
    where
      serve :
          ((v : WindowSeq)
            → v.start + v.remaining ≤ length (contents s)
            → v.remaining < fuel
            → read_all fuel s v buf_len ≡ some (window s v))
          → (n start : ℕ) → start + suc n ≤ length (contents s)
          → suc n < suc fuel
          → (chunk : List ℕ) → read_at s start (min (suc n) buf_len) ≡ got chunk
          → 0 < length chunk
          → length chunk ≤ min (suc n) buf_len
          → chunk ≡ take (length chunk) (drop start (contents s))
          → read_all (suc fuel) s (record { start = start; remaining = suc n }) buf_len
            ≡ some (take (suc n) (drop start (contents s)))
      serve ih n start inside enough [] e some_bytes fits right = absurd (omega arith)
      serve ih n start inside enough (b ∷ bs) e some_bytes fits right =
          let k = length (b ∷ bs) in
          let rest =
            ih (record { start = start + k; remaining = suc n - k }) (omega arith) (omega arith) in
          simp (window_step s start n buf_len b bs e, read_all, rest)
            (ap some (two_parts source s start k (suc n) (b ∷ bs) refl (omega arith) right))

      go :
          ((v : WindowSeq)
            → v.start + v.remaining ≤ length (contents s)
            → v.remaining < fuel
            → read_all fuel s v buf_len ≡ some (window s v))
          → (n start : ℕ) → start + n ≤ length (contents s)
          → n < suc fuel
          → read_all (suc fuel) s (record { start = start; remaining = n }) buf_len
            ≡ some (take n (drop start (contents s)))
      go ih zero start inside enough = rw (window_end s start buf_len, read_all) refl
      go ih (suc n) start inside enough =
          let (chunk, e, some_bytes, fits, right) =
            read_at_lem s start (min (suc n) buf_len) (omega arith) (omega arith) in
          serve ih n start inside enough chunk e some_bytes fits right
