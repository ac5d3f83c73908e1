-- ===== src/Skipper/Parsing.antt =====
-- What the parser of crates/datboi-formats/src/skipper.rs accepts, and that it ends.
use datboi.Base.{
  ℕ, zero, suc, ◌≤◌, ◌<◌, List, [], ◌∷◌, Option, none, some, true, false, length, list_eq, All,
  All-append, ok, err, and_then, ok_or, returns, fails, Returns-and_then, Returns-if, Returns-ok,
  ◌≡◌, refl, arith,
}
use datboi.Skipper.Defs.{Rule}
use datboi.Skipper.Text.{S, missing_name, no_rules}
use datboi.Skipper.Xml.{Event, start_tag, empty_tag, text, end_tag, other, event_error}
use datboi.Skipper.Detectors.{
  Detector, ParseState, take_text, set_target, Target, name_target, author_target, version_target,
  step, parse_events, detector_of, parse, add_rule, no_state,
}
use datboi.Skipper.Words
use datboi.Skipper.Accepts.{IsRule, Good, then-Good, Returns-parse_rule}

abbrev Rules : ParseState → Type 0
Rules st = All IsRule st.rules

Returns-take_text :
    (decoded : S (List ℕ)) (st : ParseState) → Rules st → Good Rules (take_text decoded st)
unfolding take_text set_target
Returns-take_text decoded st h = go st.text_target
  where
    kept :
        (target : Target) (t : List ℕ)
        → Rules (set_target target t (record st { text_target = none }))
    kept name_target t = h
    kept author_target t = h
    kept version_target t = h

    go :
        (o : Option Target)
        → Good Rules (elim o [
          | none ↦ ok st
          | some target ↦
              and_then decoded λ t. ok (set_target target t (record st { text_target = none }))
        ])
    go none = returns h
    go (some target) = then-Good decoded _ (λ t. returns (kept target t))

add_rule-Rules : (st : ParseState) (rule : Rule) → Rules st → IsRule rule → Rules (add_rule st rule)
unfolding add_rule
add_rule-Rules st rule h k = All-append IsRule st.rules (rule ∷ []) h (k, tt)

-- A round keeps the rules valid and leaves no more events.
abbrev Onward : List Event → ParseState × List Event → Type 0
Onward rest r = Rules r.0 × (length r.1 ≤ length rest)

Returns-step :
    (e : Event) (rest : List Event) (st : ParseState)
    → Rules st
    → Good (Onward rest) (step e rest st)
unfolding step
Returns-step (start_tag name attributes) rest st h =
    Returns-if (list_eq name Words.detector) (λ e. returns (h, omega arith))
      (λ e.
        Returns-if (list_eq name Words.name_word) (λ e. returns (h, omega arith))
          (λ e.
            Returns-if (list_eq name Words.author) (λ e. returns (h, omega arith))
              (λ e.
                Returns-if (list_eq name Words.version) (λ e. returns (h, omega arith))
                  (λ e.
                    Returns-if (list_eq name Words.rule)
                      (λ e.
                        Returns-and_then (Returns-parse_rule attributes false rest)
                          λ r k. returns (add_rule-Rules st r.0 h k.0, k.1))
                      (λ e. fails tt)))))
Returns-step (empty_tag name attributes) rest st h =
    Returns-if (list_eq name Words.rule)
      (λ e.
        Returns-and_then (Returns-parse_rule attributes true rest)
          λ r k. returns (add_rule-Rules st r.0 h k.0, k.1))
      (λ e.
        Returns-if (list_eq name Words.name_word) (λ e. returns (h, omega arith))
          (λ e.
            Returns-if (list_eq name Words.author) (λ e. returns (h, omega arith))
              (λ e.
                Returns-if (list_eq name Words.version) (λ e. returns (h, omega arith))
                  (λ e. fails tt))))
Returns-step (text decoded) rest st h =
    Returns-and_then (Returns-take_text decoded st h) λ next k. returns (k, omega arith)
Returns-step (end_tag name) rest st h = returns (h, omega arith)
Returns-step other rest st h = returns (h, omega arith)
Returns-step (event_error e) rest st h = fails tt

loop :
    (fuel : ℕ) (events : List Event) (st : ParseState)
    → length events ≤ fuel
    → Rules st
    → (r : S ParseState) × (parse_events fuel events st ≡ some r) × Good Rules r
unfolding parse_events
loop fuel [] st enough h = (ok st, refl, returns h)
loop zero (e ∷ rest) st enough h = absurd (omega arith)
loop (suc fuel) (e ∷ rest) st enough h =
    go (λ es q. loop fuel es q) (step e rest st) refl (Returns-step e rest st h)
  where
    go :
        ((es : List Event) (q : ParseState)
          → length es ≤ fuel
          → Rules q
          → (r : S ParseState) × (parse_events fuel es q ≡ some r) × Good Rules r)
        → (s : S (ParseState × List Event)) → step e rest st ≡ s
        → Good (Onward rest) s
        → (r : S ParseState) × (parse_events (suc fuel) (e ∷ rest) st ≡ some r) × Good Rules r
    go ih (ok (q, es)) found (returns k) =
        let (r, ends, good) = ih es q (omega (arith, k.1)) k.0 in
        (r, rw (found, parse_events, ends) refl, good)
    go ih (err x) found k = (err x, rw (found, parse_events) refl, fails tt)

-- A detector has a rule, and its rules have valid tests.
abbrev pub IsDetector : Detector → Type 0
IsDetector d = (0 < length d.rules) × All IsRule d.rules

Returns-detector_of : (st : ParseState) → Rules st → Good IsDetector (detector_of st)
unfolding detector_of
Returns-detector_of st h = then-Good (ok_or missing_name st.name) _ λ name. go name st.rules h
  where
    go :
        (name : List ℕ) (rules : List Rule)
        → All IsRule rules
        → Good IsDetector (elim rules [
          | [] ↦ err no_rules
          | r ∷ rs ↦
              ok (record { name = name; author = st.author; version = st.version; rules = r ∷ rs })
        ])
    go name [] k = fails tt
    go name (r ∷ rs) k = returns (omega arith, k)

-- `Detector::parse` ends on every list of events, and a detector that it accepts has a rule, a value
-- in each of its data tests, and in each Boolean test a mask as long as the value.
pub parse_total :
    (events : List Event)
    → (r : S Detector) × (parse events ≡ some r) × ((d : Detector) → r ≡ ok d → IsDetector d)
unfolding parse
parse_total events =
    let (r, ends, good) = loop (length events) events no_state (omega arith) tt in
    (
      and_then r detector_of,
      rw (ends, parse) refl,
      λ d e. Returns-ok (Returns-and_then good λ st h. Returns-detector_of st h) e,
    )
