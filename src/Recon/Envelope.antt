-- ===== src/Recon/Envelope.antt =====
-- The envelopes of crates/datboi-p2p/src/recon/envelope.rs. `postcard` is a parameter; a panic is `none`.
use datboi.Base.{
  ℕ, ◌^◌, List, [], ◌∷◌, ◌++◌, Option, none, some, length, take, drop, ltb, if◌then◌else◌,
}
use datboi.Riblt.Defs.{le_bytes, from_le}

abbrev pub max_envelope_len : ℕ
max_envelope_len = 4096

abbrev pub coded_symbol_len : ℕ
coded_symbol_len = 48

pub data Scope : Type 0 where
  affine_recipes : Scope
  root_blobs : Scope

unfoldable pub frame_len : Scope → ℕ
frame_len affine_recipes = coded_symbol_len
frame_len root_blobs = coded_symbol_len

pub data Response : Type 0 where
  accepted : ℕ → ℕ → Response
  refused : ℕ → Response

abbrev pub refused_unknown_scope : ℕ
refused_unknown_scope = 1

-- `encode` with `postcard::to_stdvec`.
unfoldable pub encode : {A : Type 0} → (A → List ℕ) → A → Option (List ℕ)
encode to_stdvec msg =
    let body = to_stdvec msg in
    if ltb (length body) (2 ^ 16) then some (le_bytes 2 (length body) ++ body) else none

-- `decode` with `postcard::take_from_bytes`; an error is `none`.
unfoldable pub decode : {A : Type 0} → (List ℕ → Option (A × List ℕ)) → List ℕ → Option A
decode take_from_bytes body = elim (take_from_bytes body) [
  | none ↦ none
  | some r ↦ elim r.1 [ [] ↦ some r.0 | b ∷ rest ↦ none ]
]

-- The reading of an envelope from the bytes of a stream, as `accept` and `reconcile` do it: the stream
-- ends too early, the message does not parse, or the message with the bytes behind it.
pub data Envelope (A : Type 0) : Type 0 where
  cut_short : Envelope A
  unknown : Envelope A
  message : A → List ℕ → Envelope A

unfoldable pub read_envelope : {A : Type 0} → (List ℕ → Option (A × List ℕ)) → List ℕ → Envelope A
read_envelope take_from_bytes stream =
    let len = from_le (take 2 stream) in
    let body = drop 2 stream in
    if ltb (length stream) 2
    then cut_short
    else if ltb max_envelope_len len
    then unknown
    else if ltb (length body) len
    then cut_short
    else elim (decode take_from_bytes (take len body)) [
      | none ↦ unknown
      | some msg ↦ message msg (drop len body)
    ]
