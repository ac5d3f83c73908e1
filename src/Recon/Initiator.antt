-- ===== src/Recon/Initiator.antt =====
-- `reconcile` of crates/datboi-p2p/src/recon.rs, behind its request. The bytes that the peer sends are a
-- list; where they end too early, `read_exact` fails. `none` is fuel that runs out, or a panic.
use datboi.Base.{
  ℕ, zero, suc, ◌+◌, ◌*◌, ◌%◌, ◌^◌, List, Option, none, some, length, take, drop, ltb, ◌==◌, true,
  false,
}
use datboi.Riblt.Defs.{from_bytes}
use datboi.Riblt.Decoder.{Decoder, decoder, add_coded_symbol, try_decode, is_decoded}
use datboi.Recon.Envelope.{
  Response, accepted, refused, coded_symbol_len, read_envelope, cut_short, unknown, message,
}

-- The report is the decoder and the number of symbols received.
pub data Reconciled : Type 0 where
  no_header : Reconciled
  bad_header : Reconciled
  refused_scope : ℕ → Reconciled
  wrong_frame_len : ℕ → Reconciled
  did_not_converge : Reconciled
  stream_ended : Reconciled
  malformed_stream : Reconciled
  report : Decoder → ℕ → Reconciled

-- Rounds that are enough for the windows of a decoder.
abbrev pub room : Decoder → ℕ
room d = 2 * (length d.window.mappings + length d.remote.mappings + length d.local.mappings) + 1

unfoldable pub budget : ℕ → ℕ → ℕ
budget remote_set local_set = (8 * ((remote_set + local_set) % 2 ^ 64) + 1024) % 2 ^ 64

module _ (step : ℕ → ℕ → ℕ) (hash_symbol : List ℕ → ℕ) (rounds fuel : ℕ) where
  -- The coded symbol is taken in, and what can be decoded is.
  unfoldable pub take_in : List ℕ → Decoder → Option Decoder
  take_in buf d = elim (from_bytes 32 buf) [
    | none ↦ none
    | some c ↦ elim (add_coded_symbol step hash_symbol (room d) c d) [
      | none ↦ none
      | some e ↦ try_decode step hash_symbol rounds fuel e
    ]
  ]

  -- The loop over the coded symbols, with what is left of the budget.
  unfoldable pub receive : ℕ → ℕ → Decoder → List ℕ → Option Reconciled
  receive zero received d stream = some did_not_converge
  receive (suc left) received d stream = elim (ltb (length stream) coded_symbol_len) [
    | true ↦ some stream_ended
    | false ↦ elim (take_in (take coded_symbol_len stream) d) [
      | none ↦ none
      | some e ↦ elim e.malformed [
        | true ↦ some malformed_stream
        | false ↦ elim (is_decoded e) [
          | true ↦ some (report e (received + 1))
          | false ↦ receive left (received + 1) e (drop coded_symbol_len stream)
        ]
      ]
    ]
  ]

  unfoldable pub after_header : List (List ℕ) → Response → List ℕ → Option Reconciled
  after_header local (refused code) stream = some (refused_scope code)
  after_header local (accepted set_size frame_len) stream = elim (frame_len == coded_symbol_len) [
    | false ↦ some (wrong_frame_len frame_len)
    | true ↦ elim (decoder step hash_symbol local) [
      | none ↦ none
      | some d ↦ receive (budget set_size (length local)) 0 d stream
    ]
  ]

  unfoldable pub reconcile :
      (List ℕ → Option (Response × List ℕ)) → List (List ℕ) → List ℕ → Option Reconciled
  reconcile take_from_bytes local stream = elim (read_envelope take_from_bytes stream) [
    | cut_short ↦ some no_header
    | unknown ↦ some bad_header
    | message response rest ↦ after_header local response rest
  ]
