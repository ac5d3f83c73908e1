-- ===== src/Examples/SkipperRuns.antt =====
-- crates/datboi-formats/src/skipper.rs on concrete detectors and files.
use datboi.Base.{
  ℕ, ◌++◌, List, [], ◌∷◌, some, true, false, take, drop, length, ok, err, ◌≡◌, ◌↔◌, refl, arith,
  list_eq,
}
use datboi.Examples.Inputs.{all_bytes-IsBytes}
use datboi.Skipper.Operations.{byte_swap, apply, alignment, slice, swap_pairs}
use datboi.Skipper.Defs.{
  Rule, SkipDecision, from_start, eof, data_test, file_test, power_of_two, exact, equal, greater,
  evaluate, evaluate_rule, resolve, read_at, passes, all_pass, same, size_matches, is_power_of_two,
  count_ones, and_also, apply_decision, len,
}
use datboi.Skipper.Fulfils.{Selects}
use datboi.Skipper.Evaluate.{evaluate-eq-some_iff}
use datboi.Skipper.Restore.{InFile, apply_decision-length, apply_decision_restore}
use datboi.Skipper.Text.{
  S, parse_hex_bytes, parse_pairs, from_str_radix, radix_digits, to_digit, is_char_boundary,
  panicked,
}
use datboi.Skipper.Xml.{Event, start_tag, empty_tag, text, end_tag, attribute}
use datboi.Skipper.Detectors.{Detector, parse}
use datboi.Skipper.Parsing.{IsDetector, parse_total}
use datboi.Skipper.Words

-- A header of four bytes before two pairs.
abbrev headed : List ℕ
headed = 78 ∷ 69 ∷ 83 ∷ 26 ∷ 1 ∷ 2 ∷ 3 ∷ 4 ∷ []

abbrev rules : List Rule
rules =
    record { start = from_start 9; end = eof; operation = byte_swap; tests = [] }
    ∷ record {
      start = from_start 4;
      end = eof;
      operation = byte_swap;
      tests =
          data_test (from_start 0) (78 ∷ 69 ∷ []) true
          ∷ data_test (from_start 6) (9 ∷ []) false
          ∷ file_test power_of_two equal true
          ∷ file_test (exact 4) greater true
          ∷ [];
    }
    ∷ []

abbrev decision : SkipDecision
decision = record { start = 4; end = 8; operation = byte_swap }

decided : evaluate rules headed ≡ some decision
unfolding evaluate evaluate_rule and_also resolve alignment all_pass passes read_at slice list_eq
    same size_matches is_power_of_two count_ones
decided = refl

swapped : apply_decision decision headed ≡ some (2 ∷ 1 ∷ 4 ∷ 3 ∷ [])
unfolding apply_decision and_also slice apply swap_pairs
swapped = refl

evaluate-eq-some_iff_example :
    (evaluate rules headed ≡ some decision) ↔ Selects headed rules decision
evaluate-eq-some_iff_example = evaluate-eq-some_iff rules headed decision (omega arith)

apply_decision-length_example :
    InFile headed decision
    × ((out : List ℕ) × (apply_decision decision headed ≡ some out) × (length out ≡ len decision))
apply_decision-length_example = apply_decision-length rules headed decision (omega arith) decided

apply_decision_restore_example :
    take 4 headed ++ (apply byte_swap (2 ∷ 1 ∷ 4 ∷ 3 ∷ []) ++ drop 8 headed) ≡ headed
apply_decision_restore_example =
    apply_decision_restore rules headed decision (2 ∷ 1 ∷ 4 ∷ 3 ∷ []) (omega arith)
      (all_bytes-IsBytes headed refl) decided swapped

-- A detector whose one rule has one test.
abbrev document : List Event
document =
    start_tag Words.name_word []
    ∷ text (ok (b'n' ∷ []))
    ∷ end_tag Words.name_word
    ∷ start_tag Words.rule (attribute Words.start_offset (b'1' ∷ b'0' ∷ []) ∷ [])
    ∷ empty_tag Words.data_word (attribute Words.value (b'4' ∷ b'e' ∷ []) ∷ [])
    ∷ end_tag Words.rule
    ∷ []

parse_total_example :
    (r : S Detector) × (parse document ≡ some r) × ((d : Detector) → r ≡ ok d → IsDetector d)
parse_total_example = parse_total document

-- The hexadecimal text of a mask may have a plus sign in a pair, and a letter of two bytes across
-- two pairs is a panic.
plus_is_read : parse_hex_bytes Words.mask (b'+' ∷ b'a' ∷ []) ≡ ok (10 ∷ [])
unfolding parse_hex_bytes parse_pairs is_char_boundary from_str_radix radix_digits to_digit
plus_is_read = refl

split_letter : parse_hex_bytes Words.mask (b'a' ∷ 195 ∷ 169 ∷ b'b' ∷ []) ≡ err panicked
unfolding parse_hex_bytes parse_pairs is_char_boundary
split_letter = refl
