-- ===== src/Recon/Stream.antt =====
-- `stream_scope` of crates/datboi-p2p/src/recon.rs. What the database, the other thread and the channel
-- answer are parameters: the set that a pass over the database visits, `none` for an error, whether the
-- stop flag is up at a round, and whether a message is taken. `none` is fuel that runs out, or a panic.
use datboi.Base.{
  ℕ, zero, suc, ◌+◌, ◌-◌, ◌*◌, ◌^◌, min, List, [], ◌∷◌, ◌++◌, Option, none, some, ltb, ◌&&◌, not,
  Bool, true, false,
}
use datboi.Riblt.Defs.{CodedSymbol, encode_block, to_bytes}
use datboi.Recon.Envelope.{Response, accepted, Scope, frame_len, encode}

abbrev pub max_symbols : ℕ
max_symbols = 2 ^ 20

abbrev pub first_block : ℕ
first_block = 1024

abbrev pub max_block : ℕ
max_block = 2 ^ 17

-- The messages that were sent, and the number of symbols sent unless a pass failed.
pub record Streamed : Type 0 where
  pub messages : List (List ℕ)
  pub sent : Option ℕ

abbrev pub message_before : List ℕ → Streamed → Streamed
message_before m s = record s { messages = m ∷ s.messages }

-- The set size and the symbols sent.
abbrev pub with_size : ℕ → Option ℕ → Option (ℕ × ℕ)
with_size size none = none
with_size size (some n) = some (size, n)

-- The coded symbols of a block, one behind the other.
unfoldable pub block_bytes : List CodedSymbol → List ℕ
block_bytes [] = []
block_bytes (c ∷ cs) = to_bytes c ++ block_bytes cs

module _ (step : ℕ → ℕ → ℕ) (hash_symbol : List ℕ → ℕ) (fuel : ℕ)
    (visit : ℕ → Option (List (List ℕ))) (stopped taken : ℕ → Bool) where
  -- The loop over the blocks from the round `r` on.
  unfoldable pub stream_blocks : ℕ → ℕ → ℕ → ℕ → Option Streamed
  stream_blocks zero r sent block_len = none
  stream_blocks (suc rounds) r sent block_len =
      let len = min block_len (max_symbols - sent) in
      elim (ltb sent max_symbols && not (stopped r)) [
        | false ↦ some (record { messages = []; sent = some sent })
        | true ↦ elim (visit r) [
          | none ↦ some (record { messages = []; sent = none })
          | some set ↦ elim (encode_block step hash_symbol fuel 32 sent len set) [
            | none ↦ none
            | some block ↦ elim (taken r) [
              | false ↦ some (record { messages = []; sent = some sent })
              | true ↦
                  elim (stream_blocks rounds (suc r) (sent + len) (min (block_len * 2) max_block)) [
                    | none ↦ none
                    | some s ↦ some (message_before (block_bytes block) s)
                  ]
            ]
          ]
        ]
      ]

  -- The answer to a request for a scope whose size is `size`, with the set size and the symbols sent.
  unfoldable pub stream_scope :
      (Response → List ℕ) → Scope → ℕ → Option ℕ → Bool → Option (List (List ℕ) × Option (ℕ × ℕ))
  stream_scope to_stdvec scope rounds none header_taken = some ([], none)
  stream_scope to_stdvec scope rounds (some size) header_taken =
      elim (encode to_stdvec (accepted size (frame_len scope))) [
        | none ↦ none
        | some header ↦ elim header_taken [
          | false ↦ some ([], some (size, 0))
          | true ↦ elim (stream_blocks rounds 0 0 first_block) [
            | none ↦ none
            | some s ↦ some (header ∷ s.messages, with_size size s.sent)
          ]
        ]
      ]
