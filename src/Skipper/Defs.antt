-- ===== src/Skipper/Defs.antt =====
-- The rules of crates/datboi-formats/src/skipper.rs and their evaluation on a file, the list of its
-- bytes. An illegal seek or read is `none`.
use datboi.Base.{
  ℕ, zero, suc, ◌+◌, ◌-◌, ◌/◌, ◌%◌, ◌^◌, List, [], ◌∷◌, Option, none, some, Bool, true, false, not,
  ◌&&◌, length, bit_and, bit_or, ltb, leb, ◌==◌, list_eq, if◌then◌else◌,
}
use Prim.Native.Nat.{bit_xor}
use datboi.Skipper.Operations.{Operation, no_operation, alignment, apply, slice}

pub data Offset : Type 0 where
  from_start : ℕ → Offset
  from_end : ℕ → Offset
  eof : Offset

-- `Offset::resolve` against a file length.
unfoldable pub resolve : Offset → ℕ → Option ℕ
resolve (from_start v) len = if leb v len then some v else none
resolve (from_end v) len = if leb v len then some (len - v) else none
resolve eof len = some len

pub data BoolOp : Type 0 where
  and_op : BoolOp
  or_op : BoolOp
  xor_op : BoolOp

pub data SizeTest : Type 0 where
  exact : ℕ → SizeTest
  power_of_two : SizeTest

pub data SizeOp : Type 0 where
  equal : SizeOp
  less : SizeOp
  greater : SizeOp

pub data Test : Type 0 where
  data_test : (offset : Offset) (value : List ℕ) (expect : Bool) → Test
  bool_test : (op : BoolOp) (offset : Offset) (mask value : List ℕ) (expect : Bool) → Test
  file_test : (size : SizeTest) (operator : SizeOp) (expect : Bool) → Test

pub record Rule : Type 0 where
  pub start : Offset
  pub end : Offset
  pub operation : Operation
  pub tests : List Test

pub record SkipDecision : Type 0 where
  pub start : ℕ
  pub end : ℕ
  pub operation : Operation

unfoldable pub and_also : {A B : Type 0} → Option A → (A → Option B) → Option B
and_also none f = none
and_also (some a) f = f a

-- `==` on the Booleans.
unfoldable pub same : Bool → Bool → Bool
same true b = b
same false b = not b

unfoldable pub read_at : List ℕ → Offset → ℕ → Option (List ℕ)
unfolding and_also
read_at file offset len =
    and_also (resolve offset (length file))
      λ start. if ltb (start + len) (2 ^ 64) then slice start (start + len) file else none

unfoldable pub masked : BoolOp → ℕ → ℕ → ℕ
masked and_op b m = bit_and b m
masked or_op b m = bit_or b m
masked xor_op b m = bit_xor b m

-- The window, the mask and the value, byte by byte, as far as all three go.
unfoldable pub all_masked : BoolOp → List ℕ → List ℕ → List ℕ → Bool
all_masked op (b ∷ bs) (m ∷ ms) (v ∷ vs) = (masked op b m == v) && all_masked op bs ms vs
all_masked op _ _ _ = true

unfoldable pub count_ones : ℕ → ℕ → ℕ
count_ones zero n = 0
count_ones (suc bits) n = n % 2 + count_ones bits (n / 2)

-- `u64::is_power_of_two`.
unfoldable pub is_power_of_two : ℕ → Bool
is_power_of_two n = count_ones 64 n == 1

unfoldable pub size_matches : SizeTest → SizeOp → ℕ → Bool
size_matches power_of_two operator len = is_power_of_two len
size_matches (exact target) equal len = len == target
size_matches (exact target) less len = ltb len target
size_matches (exact target) greater len = ltb target len

unfoldable pub passes : Test → List ℕ → Option Bool
passes (data_test offset value expect) file =
    and_also (read_at file offset (length value))
      λ window. some (same (list_eq window value) expect)
passes (bool_test op offset mask value expect) file =
    and_also (read_at file offset (length value))
      λ window. some (same (all_masked op window mask value) expect)
passes (file_test size operator expect) file =
    some (same (size_matches size operator (length file)) expect)

-- The loop over the tests of a rule: false when one fails or cannot be evaluated.
unfoldable pub all_pass : List Test → List ℕ → Bool
all_pass [] file = true
all_pass (t ∷ ts) file =
    let rest = all_pass ts file in
    elim (passes t file) [ none ↦ false | some passed ↦ if passed then rest else false ]

-- `Rule::evaluate`.
unfoldable pub evaluate_rule : Rule → List ℕ → Option SkipDecision
evaluate_rule rule file = and_also (resolve rule.start (length file)) λ start.
    and_also (resolve rule.end (length file)) λ end.
      if ltb end start
      then none
      else if (end - start) % alignment rule.operation == 0
      then (if all_pass rule.tests file
          then some (record { start = start; end = end; operation = rule.operation })
          else none)
      else none

-- `Detector::evaluate`, over the rules of the detector.
unfoldable pub evaluate : List Rule → List ℕ → Option SkipDecision
evaluate [] file = none
evaluate (rule ∷ rules) file =
    let rest = evaluate rules file in
    elim (evaluate_rule rule file) [ none ↦ rest | some decision ↦ some decision ]

-- `SkipDecision::len`, `is_empty`, `is_whole_file` and `apply`.
unfoldable pub len : SkipDecision → ℕ
len d = d.end - d.start

unfoldable pub is_empty : SkipDecision → Bool
is_empty d = d.start == d.end

unfoldable pub is_no_operation : Operation → Bool
is_no_operation no_operation = true
is_no_operation _ = false

unfoldable pub is_whole_file : SkipDecision → ℕ → Bool
is_whole_file d file_len = (d.start == 0) && (d.end == file_len) && is_no_operation d.operation

unfoldable pub apply_decision : SkipDecision → List ℕ → Option (List ℕ)
apply_decision d file = and_also (slice d.start d.end file) λ block. some (apply d.operation block)
