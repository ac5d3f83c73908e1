-- ===== src/Skipper/Accepts.antt =====
-- The tests and rules that the parser of crates/datboi-formats/src/skipper.rs accepts.
use datboi.Base.{
  ℕ, ◌≤◌, ◌<◌, List, [], ◌∷◌, Bool, length, list_eq, All, ok, err, and_then, ok_or, ◌==◌, ==_iff,
  Returns, returns, fails, Returns-and_then, Returns-if, ◌≡◌, refl, arith,
}
use datboi.Skipper.Defs.{Test, data_test, bool_test, file_test, BoolOp, and_op, or_op, xor_op, Rule}
use datboi.Skipper.Text.{SkipperError, S, missing_attr, parse_offset}
use datboi.Skipper.Xml.{
  Event, start_tag, empty_tag, text, end_tag, other, event_error, Attribute, attribute,
  attribute_error, TestFields, file_from, data_from, bool_from, element_of, parse_test, rule_tests,
  rule_attributes, parse_rule, test_attributes, no_fields, default_rule, parse_operation,
}
use datboi.Skipper.Words

-- A test that can be evaluated: a value that is there, and a mask as long as the value.
abbrev pub IsTest : Test → Type 0
IsTest (data_test offset value expect) = 0 < length value
IsTest (bool_test op offset mask value expect) = length mask ≡ length value
IsTest (file_test size operator expect) = Unit {0}

abbrev pub IsRule : Rule → Type 0
IsRule r = All IsTest r.tests

abbrev pub Good : {A : Type 0} → (A → Type 0) → S A → Type 0
Good P r = Returns (λ (e : SkipperError). Unit {0}) P r

any : {A : Type 0} (r : S A) → Good (λ x. Unit {0}) r
any (ok a) = returns tt
any (err e) = fails tt

pub then-Good :
    {A B : Type 0} {P : B → Type 0} (r : S A) (f : A → S B)
    → ((a : A) → Good P (f a))
    → Good P (and_then r f)
then-Good r f h = Returns-and_then (any r) (λ a t. h a)

Returns-file_from : (st : TestFields) → Good IsTest (file_from st)
unfolding file_from
Returns-file_from st =
    then-Good (ok_or (missing_attr Words.file Words.size) st.size) _ (λ size. returns tt)

Returns-data_from : (st : TestFields) → Good IsTest (data_from st)
unfolding data_from
Returns-data_from st =
    then-Good (ok_or (missing_attr Words.data_word Words.value) st.value) _ λ value.
      Returns-if (length value == 0) (λ e. fails tt)
        (λ e. let some_bytes : 0 < length value = ground arith in returns some_bytes)

Returns-bool_from : (op : BoolOp) (st : TestFields) → Good IsTest (bool_from op st)
unfolding bool_from
Returns-bool_from op st =
    then-Good (ok_or (missing_attr Words.boolean_test Words.value) st.value) _ λ value.
      then-Good (ok_or (missing_attr Words.boolean_test Words.mask) st.mask) _ λ mask.
        Returns-if (length mask == length value)
          (λ e. returns ((==_iff (length mask) (length value)).0 e)) (λ e. fails tt)

Returns-element_of :
    (name : List ℕ) → Good (λ build. (st : TestFields) → Good IsTest (build st)) (element_of name)
unfolding element_of
Returns-element_of name =
    Returns-if (list_eq name Words.data_word) (λ e. returns Returns-data_from)
      (λ e.
        Returns-if (list_eq name Words.and_word) (λ e. returns (Returns-bool_from and_op))
          (λ e.
            Returns-if (list_eq name Words.or_word) (λ e. returns (Returns-bool_from or_op))
              (λ e.
                Returns-if (list_eq name Words.xor_word) (λ e. returns (Returns-bool_from xor_op))
                  (λ e.
                    Returns-if (list_eq name Words.file) (λ e. returns Returns-file_from)
                      (λ e. fails tt)))))

Returns-parse_test :
    (name : List ℕ) (attributes : List Attribute) → Good IsTest (parse_test name attributes)
unfolding parse_test
Returns-parse_test name attributes =
    Returns-and_then (Returns-element_of name)
      λ build h. then-Good (test_attributes no_fields attributes) build h

-- The tests are valid, and no event is made.
abbrev RestOf : List Event → List Test × List Event → Type 0
RestOf events r = All IsTest r.0 × (length r.1 ≤ length events)

Returns-rule_tests : (events : List Event) → Good (RestOf events) (rule_tests events)
unfolding rule_tests
Returns-rule_tests [] = returns (tt, omega arith)
Returns-rule_tests (start_tag name attributes ∷ rest) =
    Returns-and_then (Returns-parse_test name attributes) λ t h.
      Returns-and_then (Returns-rule_tests rest) λ r k. returns ((h, k.0), omega (arith, k.1))
Returns-rule_tests (empty_tag name attributes ∷ rest) =
    Returns-and_then (Returns-parse_test name attributes) λ t h.
      Returns-and_then (Returns-rule_tests rest) λ r k. returns ((h, k.0), omega (arith, k.1))
Returns-rule_tests (end_tag name ∷ rest) =
    Returns-if (list_eq name Words.rule) (λ e. returns (tt, omega arith))
      (λ e. later (Returns-rule_tests rest))
  where
    later :
        {r : S (List Test × List Event)}
        → Good (RestOf rest) r
        → Good (RestOf (end_tag name ∷ rest)) r
    later (returns h) = returns (h.0, omega (arith, h.1))
    later (fails h) = fails tt
Returns-rule_tests (text t ∷ rest) = later (Returns-rule_tests rest)
  where
    later :
        {r : S (List Test × List Event)} → Good (RestOf rest) r → Good (RestOf (text t ∷ rest)) r
    later (returns h) = returns (h.0, omega (arith, h.1))
    later (fails h) = fails tt
Returns-rule_tests (other ∷ rest) = later (Returns-rule_tests rest)
  where
    later : {r : S (List Test × List Event)} → Good (RestOf rest) r → Good (RestOf (other ∷ rest)) r
    later (returns h) = returns (h.0, omega (arith, h.1))
    later (fails h) = fails tt
Returns-rule_tests (event_error e ∷ rest) = fails tt

Returns-rule_attributes :
    (rule : Rule) (attributes : List Attribute)
    → Good (λ r. r.tests ≡ rule.tests) (rule_attributes rule attributes)
unfolding rule_attributes
Returns-rule_attributes rule [] = returns refl
Returns-rule_attributes rule (attribute_error e ∷ rest) = fails tt
Returns-rule_attributes rule (attribute key raw ∷ rest) =
    Returns-if (list_eq key Words.start_offset)
      (λ e.
        then-Good (parse_offset Words.start_offset raw) _
          (λ o. Returns-rule_attributes (record rule { start = o }) rest))
      (λ e.
        Returns-if (list_eq key Words.end_offset)
          (λ e.
            then-Good (parse_offset Words.end_offset raw) _
              (λ o. Returns-rule_attributes (record rule { end = o }) rest))
          (λ e.
            Returns-if (list_eq key Words.operation)
              (λ e.
                then-Good (parse_operation raw) _
                  (λ o. Returns-rule_attributes (record rule { operation = o }) rest))
              (λ e. Returns-rule_attributes rule rest)))

pub Returns-parse_rule :
    (attributes : List Attribute) (is_empty : Bool) (events : List Event)
    → Good (λ r. IsRule r.0 × (length r.1 ≤ length events)) (parse_rule attributes is_empty events)
unfolding parse_rule
Returns-parse_rule attributes is_empty events =
    Returns-and_then (Returns-rule_attributes default_rule attributes) λ rule h.
      Returns-if is_empty (λ e. returns (rw h tt, omega arith))
        (λ e. Returns-and_then (Returns-rule_tests events) λ r k. returns (k.0, k.1))
