-- ===== src/Skipper/Fulfils.antt =====
-- What it means that a rule of crates/datboi-formats/src/skipper.rs is fulfilled, said without the
-- code: relations on the offset expressions, the tests and the rules.
use datboi.Base.{ℕ, ◌+◌, ◌*◌, ◌^◌, ◌≤◌, ◌<◌, List, ◌∷◌, ◌++◌, Bool, true, false, length, All, ◌≡◌}
use datboi.Skipper.Operations.{alignment}
use datboi.Skipper.Defs.{
  Offset, from_start, from_end, eof, BoolOp, masked, SizeTest, exact, power_of_two, SizeOp, equal,
  less, greater, Test, data_test, bool_test, file_test, Rule, SkipDecision,
}

-- The offset names a position of a file of this length.
pub data Resolves : Offset → ℕ → ℕ → Type 0 where
  at_start : {v len : ℕ} → v ≤ len → Resolves (from_start v) len v
  at_end : {v len : ℕ} (position : ℕ) → position + v ≡ len → Resolves (from_end v) len position
  at_eof : {len : ℕ} → Resolves eof len len

-- The file has these bytes at the offset.
pub record Window (file : List ℕ) (offset : Offset) (window : List ℕ) : Type 0 where
  pub before : List ℕ
  pub after : List ℕ
  pub resolves : Resolves offset (length file) (length before)
  pub parts : file ≡ before ++ (window ++ after)

abbrev pub Agrees : Bool → Type 0 → Type 0
Agrees true P = P
Agrees false P = ¬ P

abbrev pub Masked : BoolOp → List ℕ → List ℕ → List ℕ → Type 0
Masked op (b ∷ bs) (m ∷ ms) (v ∷ vs) = (masked op b m ≡ v) × Masked op bs ms vs
Masked op _ _ _ = Unit {0}

abbrev pub SizeIs : SizeTest → SizeOp → ℕ → Type 0
SizeIs power_of_two operator len = (k : ℕ) × (len ≡ 2 ^ k)
SizeIs (exact target) equal len = len ≡ target
SizeIs (exact target) less len = len < target
SizeIs (exact target) greater len = target < len

-- A test holds when its window is in the file and what it says of it is what it expects.
abbrev pub Holds : List ℕ → Test → Type 0
Holds file (data_test offset value expect) =
    (window : List ℕ) × (length window ≡ length value)
    × Window file offset window
    × Agrees expect (window ≡ value)
Holds file (bool_test op offset mask value expect) =
    (window : List ℕ) × (length window ≡ length value)
    × Window file offset window
    × Agrees expect (Masked op window mask value)
Holds file (file_test size operator expect) = Agrees expect (SizeIs size operator (length file))

pub record Fulfils (file : List ℕ) (rule : Rule) (d : SkipDecision) : Type 0 where
  pub starts : Resolves rule.start (length file) d.start
  pub ends : Resolves rule.end (length file) d.end
  pub units : ℕ
  pub aligned : d.end ≡ d.start + units * alignment rule.operation
  pub transforms : d.operation ≡ rule.operation
  pub holds : All (Holds file) rule.tests

-- The decision of the first rule that is fulfilled.
pub data Selects (file : List ℕ) : List Rule → SkipDecision → Type 0 where
  here :
      {rule : Rule} {rules : List Rule} {d : SkipDecision}
      → Fulfils file rule d
      → Selects file (rule ∷ rules) d
  there :
      {rule : Rule} {rules : List Rule} {d : SkipDecision}
      → ((e : SkipDecision) → ¬ Fulfils file rule e)
      → Selects file rules d
      → Selects file (rule ∷ rules) d
