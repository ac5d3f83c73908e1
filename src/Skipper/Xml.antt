-- ===== src/Skipper/Xml.antt =====
-- `Detector::parse` of crates/datboi-formats/src/skipper.rs over what the XML reader hands it: the
-- events of the document and the attributes of their tags, each of which may be an error instead.
use datboi.Base.{
  ℕ, List, [], ◌∷◌, Option, none, some, Bool, true, false, length, ◌==◌, list_eq, if◌then◌else◌, ok,
  err, and_then, ok_or,
}
use datboi.Skipper.Operations.{
  Operation, no_operation, bit_swap, byte_swap, word_swap, word_byte_swap,
}
use datboi.Skipper.Defs.{
  Offset, from_start, eof, BoolOp, and_op, or_op, xor_op, SizeTest, exact, power_of_two, SizeOp,
  equal, less, greater, Test, data_test, bool_test, file_test, Rule,
}
use datboi.Skipper.Text.{
  SkipperError, unknown_element, invalid_attr, missing_attr, mask_length, S, eq_ignore_ascii_case,
  parse_hex_u64, parse_hex_bytes, parse_offset,
}
use datboi.Skipper.Words

-- An attribute, or the error of reading or decoding it.
pub data Attribute : Type 0 where
  attribute : (key value : List ℕ) → Attribute
  attribute_error : SkipperError → Attribute

-- An event of the reader, or the error of reading it. The end of the list is `Eof`.
pub data Event : Type 0 where
  start_tag : (name : List ℕ) → List Attribute → Event
  empty_tag : (name : List ℕ) → List Attribute → Event
  text : S (List ℕ) → Event
  end_tag : (name : List ℕ) → Event
  other : Event
  event_error : SkipperError → Event

unfoldable pub parse_operation : List ℕ → S Operation
parse_operation raw =
    if list_eq raw Words.none_word
    then ok no_operation
    else if list_eq raw Words.bitswap
    then ok bit_swap
    else if list_eq raw Words.byteswap
    then ok byte_swap
    else if list_eq raw Words.wordswap
    then ok word_swap
    else if list_eq raw Words.wordbyteswap
    then ok word_byte_swap
    else err (invalid_attr Words.operation raw)

-- The attributes of a rule, a rule without tests.
unfoldable pub rule_attributes : Rule → List Attribute → S Rule
rule_attributes rule [] = ok rule
rule_attributes rule (attribute_error e ∷ rest) = err e
rule_attributes rule (attribute key raw ∷ rest) =
    if list_eq key Words.start_offset
    then (and_then (parse_offset Words.start_offset raw)
        λ o. rule_attributes (record rule { start = o }) rest)
    else if list_eq key Words.end_offset
    then (and_then (parse_offset Words.end_offset raw)
        λ o. rule_attributes (record rule { end = o }) rest)
    else if list_eq key Words.operation
    then (and_then (parse_operation raw) λ o. rule_attributes (record rule { operation = o }) rest)
    else rule_attributes rule rest

-- The variables of `parse_test` while it reads the attributes.
pub record TestFields : Type 0 where
  pub offset : Offset
  pub value : Option (List ℕ)
  pub mask : Option (List ℕ)
  pub size : Option SizeTest
  pub operator : SizeOp
  pub expect : Bool

unfoldable pub parse_size : List ℕ → S SizeTest
parse_size raw =
    if eq_ignore_ascii_case raw Words.po2
    then ok power_of_two
    else and_then (parse_hex_u64 Words.size raw) λ n. ok (exact n)

unfoldable pub parse_operator : List ℕ → S SizeOp
parse_operator raw =
    if list_eq raw Words.equal_word
    then ok equal
    else if list_eq raw Words.less_word
    then ok less
    else if list_eq raw Words.greater_word
    then ok greater
    else err (invalid_attr Words.operator raw)

unfoldable pub parse_result : List ℕ → S Bool
parse_result raw =
    if list_eq raw Words.true_word
    then ok true
    else if list_eq raw Words.false_word
    then ok false
    else err (invalid_attr Words.result raw)

unfoldable pub test_attribute : TestFields → List ℕ → List ℕ → S TestFields
test_attribute st key raw =
    if list_eq key Words.offset
    then (and_then (parse_offset Words.offset raw) λ o. ok (record st { offset = o }))
    else if list_eq key Words.value
    then (and_then (parse_hex_bytes Words.value raw) λ b. ok (record st { value = some b }))
    else if list_eq key Words.mask
    then (and_then (parse_hex_bytes Words.mask raw) λ b. ok (record st { mask = some b }))
    else if list_eq key Words.size
    then (and_then (parse_size raw) λ s. ok (record st { size = some s }))
    else if list_eq key Words.operator
    then (and_then (parse_operator raw) λ o. ok (record st { operator = o }))
    else if list_eq key Words.result
    then (and_then (parse_result raw) λ b. ok (record st { expect = b }))
    else ok st

unfoldable pub test_attributes : TestFields → List Attribute → S TestFields
test_attributes st [] = ok st
test_attributes st (attribute_error e ∷ rest) = err e
test_attributes st (attribute key raw ∷ rest) =
    and_then (test_attribute st key raw) λ next. test_attributes next rest

unfoldable pub file_from : TestFields → S Test
file_from st =
    and_then (ok_or (missing_attr Words.file Words.size) st.size)
      λ size. ok (file_test size st.operator st.expect)

unfoldable pub data_from : TestFields → S Test
data_from st = and_then (ok_or (missing_attr Words.data_word Words.value) st.value) λ value.
    if length value == 0
    then err (invalid_attr Words.value [])
    else ok (data_test st.offset value st.expect)

unfoldable pub bool_from : BoolOp → TestFields → S Test
bool_from op st = and_then (ok_or (missing_attr Words.boolean_test Words.value) st.value) λ value.
    and_then (ok_or (missing_attr Words.boolean_test Words.mask) st.mask) λ mask.
      if length mask == length value
      then ok (bool_test op st.offset mask value st.expect)
      else err mask_length

-- What `parse_test` makes of the attributes, by the name of the element; an unknown element is
-- refused before they are read.
unfoldable pub element_of : List ℕ → S (TestFields → S Test)
element_of name =
    if list_eq name Words.data_word
    then ok data_from
    else if list_eq name Words.and_word
    then ok (bool_from and_op)
    else if list_eq name Words.or_word
    then ok (bool_from or_op)
    else if list_eq name Words.xor_word
    then ok (bool_from xor_op)
    else if list_eq name Words.file
    then ok file_from
    else err (unknown_element name)

abbrev pub no_fields : TestFields
no_fields = record {
  offset = from_start 0;
  value = none;
  mask = none;
  size = none;
  operator = equal;
  expect = true;
}

unfoldable pub parse_test : List ℕ → List Attribute → S Test
parse_test name attributes =
    and_then (element_of name) λ build. and_then (test_attributes no_fields attributes) build

-- The loop of `parse_rule`: the tests up to the end of the rule, and the events behind it.
unfoldable pub rule_tests : List Event → S (List Test × List Event)
rule_tests [] = ok ([], [])
rule_tests (start_tag name attributes ∷ rest) =
    and_then (parse_test name attributes) λ t. and_then (rule_tests rest) λ r. ok (t ∷ r.0, r.1)
rule_tests (empty_tag name attributes ∷ rest) =
    and_then (parse_test name attributes) λ t. and_then (rule_tests rest) λ r. ok (t ∷ r.0, r.1)
rule_tests (end_tag name ∷ rest) =
    let more = rule_tests rest in if list_eq name Words.rule then ok ([], rest) else more
rule_tests (text t ∷ rest) = rule_tests rest
rule_tests (other ∷ rest) = rule_tests rest
rule_tests (event_error e ∷ rest) = err e

abbrev pub default_rule : Rule
default_rule = record { start = from_start 0; end = eof; operation = no_operation; tests = [] }

unfoldable pub parse_rule : List Attribute → Bool → List Event → S (Rule × List Event)
parse_rule attributes is_empty events = and_then (rule_attributes default_rule attributes) λ rule.
    if is_empty
    then ok (rule, events)
    else and_then (rule_tests events) λ r. ok (record rule { tests = r.0 }, r.1)
