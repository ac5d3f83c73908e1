-- ===== src/Snapshot/Order.antt =====
-- The shards and the orders of crates/datboi-core/src/snapshot.rs.
use datboi.Base.{
  ℕ, ◌*◌, ◌/◌, ◌≤◌, ◌<◌, List, [], ◌∷◌, true, ok, and_then-eq-ok, ok-injective, Bool-cases, inl,
  inr, ◌≡◌, refl, arith, IsByte, All,
}
use native.Mathlib.Nat.{mul-lt-mul_of_pos_right, mul-le-mul_right}
use datboi.Object.Sniff.{alias_batch}
use datboi.Snapshot.Defs
use datboi.Snapshot.Defs.{lex_lt, all_windows, alias_shard}
use datboi.Snapshot.Batches.{AliasTuple, alias_lt, decode_aliases, rows_from_bytes, row_from_value}

-- For a hash that begins with a byte and a fanout from 1 to 256, `alias_shard` answers with a
-- shard, which is below the fanout.
pub alias_shard-lt :
    (b : ℕ) (bs : List ℕ) (fanout : ℕ)
    → IsByte b
    → 1 ≤ fanout
    → fanout ≤ 256
    → (shard : ℕ) × (alias_shard (b ∷ bs) fanout ≡ ok shard) × (shard < fanout)
unfolding alias_shard
alias_shard-lt b bs fanout hb lo hi =
    let below : b * fanout < 256 * fanout = mul-lt-mul_of_pos_right hb lo in
    (b * fanout / 256, ground arith, omega arith)

-- For one fanout, if two hashes have shards and the first byte of one is at most that of the
-- other, its shard is at most the other one.
pub alias_shard-le :
    (a b : ℕ) (xs bs : List ℕ) (fanout i j : ℕ)
    → a ≤ b
    → alias_shard (a ∷ xs) fanout ≡ ok i
    → alias_shard (b ∷ bs) fanout ≡ ok j
    → i ≤ j
unfolding alias_shard
alias_shard-le a b xs bs fanout i j h e f =
    let above : a * fanout ≤ b * fanout = mul-le-mul_right fanout h in ground arith

lex_lt_trans : (x y z : List ℕ) → lex_lt x y ≡ true → lex_lt y z ≡ true → lex_lt x z ≡ true
unfolding lex_lt
lex_lt_trans [] [] z e f = cc
lex_lt_trans [] (b ∷ y) [] e f = cc
lex_lt_trans [] (b ∷ y) (c ∷ z) e f = refl
lex_lt_trans (a ∷ x) [] z e f = cc
lex_lt_trans (a ∷ x) (b ∷ y) [] e f = cc
lex_lt_trans (a ∷ x) (b ∷ y) (c ∷ z) e f = ground (arith, lex_lt_trans x y z)

-- Each row's hash is below those of all later rows.
abbrev pub Ascending : List AliasTuple → Type 0
Ascending [] = Unit {0}
Ascending (r ∷ rows) =
    All (λ (s : AliasTuple). lex_lt (r.blake3) (s.blake3) ≡ true) rows × Ascending rows

All-lex_lt :
    (r s : AliasTuple) (rows : List AliasTuple)
    → lex_lt (r.blake3) (s.blake3) ≡ true
    → All (λ (t : AliasTuple). lex_lt (s.blake3) (t.blake3) ≡ true) rows
    → All (λ (t : AliasTuple). lex_lt (r.blake3) (t.blake3) ≡ true) rows
All-lex_lt r s [] h a = tt
All-lex_lt r s (t ∷ rows) h (b, c) =
    (lex_lt_trans (r.blake3) (s.blake3) (t.blake3) h b, All-lex_lt r s rows h c)

all_windows-Ascending : (rows : List AliasTuple) → all_windows alias_lt rows ≡ true → Ascending rows
unfolding all_windows alias_lt
all_windows-Ascending [] e = tt
all_windows-Ascending (r ∷ []) e = (tt, tt)
all_windows-Ascending (r ∷ s ∷ rows) e = elim (Bool-cases (lex_lt (r.blake3) (s.blake3))) [
  | inl t ↦
      let (first, rest) = all_windows-Ascending (s ∷ rows) (rw t at e) in
      ((t, All-lex_lt r s rows t first), (first, rest))
  | inr f ↦ cc (rw f at e)
]

-- In the rows of an alias batch that decodes, the hash of each row is below those of all later
-- rows.
pub decode_aliases-Ascending :
    (bs : List ℕ) (rows : List AliasTuple) → decode_aliases bs ≡ ok rows → Ascending rows
unfolding decode_aliases
decode_aliases-Ascending bs rows e =
    let (body, eb, e₁) = and_then-eq-ok (Defs.expect_object bs alias_batch 1) _ e in
    let (found, ef, e₂) =
      and_then-eq-ok (rows_from_bytes Defs.unknown_alias_batch_key row_from_value body) _ e₁ in
    elim (Bool-cases (all_windows alias_lt found)) [
      | inl t ↦
          let same : found ≡ rows = ok-injective _ _ (rw t at e₂) in
          rw (← same) (all_windows-Ascending found t)
      | inr f ↦ cc (rw f at e₂)
    ]
