-- ===== src/Skipper/Detectors.antt =====
-- The loop of `Detector::parse` of crates/datboi-formats/src/skipper.rs over the events. Fuel stands
-- for the number of events: each round takes at least one.
use datboi.Base.{
  ℕ, zero, suc, List, [], ◌∷◌, ◌++◌, Option, none, some, true, false, length, list_eq,
  if◌then◌else◌, ok, err, and_then, ok_or,
}
use datboi.Skipper.Defs.{Rule}
use datboi.Skipper.Text.{S, missing_name, no_rules, unknown_element}
use datboi.Skipper.Xml.{Event, start_tag, empty_tag, text, end_tag, other, event_error, parse_rule}
use datboi.Skipper.Words

pub record Detector : Type 0 where
  pub name : List ℕ
  pub author : Option (List ℕ)
  pub version : Option (List ℕ)
  pub rules : List Rule

-- The variable that the next text is for.
pub data Target : Type 0 where
  name_target : Target
  author_target : Target
  version_target : Target

-- The variables of `Detector::parse`.
pub record ParseState : Type 0 where
  pub name : Option (List ℕ)
  pub author : Option (List ℕ)
  pub version : Option (List ℕ)
  pub rules : List Rule
  pub text_target : Option Target

unfoldable pub set_target : Target → List ℕ → ParseState → ParseState
set_target name_target t st = record st { name = some t }
set_target author_target t st = record st { author = some t }
set_target version_target t st = record st { version = some t }

unfoldable pub take_text : S (List ℕ) → ParseState → S ParseState
take_text decoded st = elim st.text_target [
  | none ↦ ok st
  | some target ↦ and_then decoded λ t. ok (set_target target t (record st { text_target = none }))
]

abbrev pub aimed : Target → ParseState → ParseState
aimed target st = record st { text_target = some target }

unfoldable pub add_rule : ParseState → Rule → ParseState
add_rule st rule = record st { rules = st.rules ++ (rule ∷ []) }

-- One round of the loop: an event, with the events behind it.
unfoldable pub step : Event → List Event → ParseState → S (ParseState × List Event)
step (start_tag name attributes) rest st =
    if list_eq name Words.detector
    then ok (st, rest)
    else if list_eq name Words.name_word
    then ok (aimed name_target st, rest)
    else if list_eq name Words.author
    then ok (aimed author_target st, rest)
    else if list_eq name Words.version
    then ok (aimed version_target st, rest)
    else if list_eq name Words.rule
    then (and_then (parse_rule attributes false rest) λ r. ok (add_rule st r.0, r.1))
    else err (unknown_element name)
step (empty_tag name attributes) rest st =
    if list_eq name Words.rule
    then (and_then (parse_rule attributes true rest) λ r. ok (add_rule st r.0, r.1))
    else if list_eq name Words.name_word
    then ok (st, rest)
    else if list_eq name Words.author
    then ok (st, rest)
    else if list_eq name Words.version
    then ok (st, rest)
    else err (unknown_element name)
step (text decoded) rest st = and_then (take_text decoded st) λ next. ok (next, rest)
step (end_tag name) rest st = ok (record st { text_target = none }, rest)
step other rest st = ok (st, rest)
step (event_error e) rest st = err e

-- The loop; `none` when the fuel runs out.
unfoldable pub parse_events : ℕ → List Event → ParseState → Option (S ParseState)
parse_events fuel [] st = some (ok st)
parse_events zero (e ∷ rest) st = none
parse_events (suc fuel) (e ∷ rest) st = elim (step e rest st) [
  | ok r ↦ parse_events fuel r.1 r.0
  | err x ↦ some (err x)
]

-- What the loop leaves, as a detector.
unfoldable pub detector_of : ParseState → S Detector
detector_of st = and_then (ok_or missing_name st.name) λ name. elim st.rules [
  | [] ↦ err no_rules
  | r ∷ rs ↦ ok (record { name = name; author = st.author; version = st.version; rules = r ∷ rs })
]

abbrev pub no_state : ParseState
no_state = record { name = none; author = none; version = none; rules = []; text_target = none }

unfoldable pub parse : List Event → Option (S Detector)
parse events = elim (parse_events (length events) events no_state) [
  | none ↦ none
  | some st ↦ some (and_then st detector_of)
]
