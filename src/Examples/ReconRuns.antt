-- ===== src/Examples/ReconRuns.antt =====
-- crates/datboi-p2p/src/recon.rs on a set of two symbols. The checksum, the step and the serializer are
-- simple functions here.
use datboi.Base.{
  ℕ, suc, ◌+◌, ◌%◌, ◌*◌, ◌^◌, ◌≤◌, List, [], ◌∷◌, length, some, Option, none, Bool, true, false,
  ◌≡◌, ◌⊎◌, refl, subst, arith, ltb,
}
use mathlib.Core.List.{Permᴰ}
use datboi.Riblt.Defs.{CodedSymbol, encode_block, le_bytes}
use datboi.Riblt.Ending.{MovesOn}
use datboi.Base.{replicate, zero}
use datboi.Examples.Inputs.{all_bytes-IsBytes}
use datboi.Riblt.Defs.{
  HashedSymbol, from_bytes, from_le, is_decodable, default, mapping, at_index, next_index, hashed,
  apply, xor_bytes, apply_new_symbol, absorb,
}
use datboi.Riblt.Window.{
  CodingWindow, encoder, dedup_symbols, dedup_from, add_all, apply_window, add_hashed_symbol,
  add_with_mapping, fix_tail, fix_head, drain_index, advance,
}
use datboi.Riblt.Decoder.{
  Decoder, decoder, add_coded_symbol, is_done, try_decode, peel_from, peel_remote, degree,
  is_decoded,
}
use datboi.Recon.Initiator.{report, reconcile, after_header, budget, receive, take_in}
use datboi.Base.{◌++◌}
use datboi.Recon.Envelope.{message}
use datboi.Recon.Framing.{read_envelope-encode}
use datboi.Recon.Report.{Explained, reconcile-Explained}
use datboi.Recon.Envelope.{decode, read_envelope}
use datboi.Recon.Envelope.{Response, accepted, refused, root_blobs, frame_len, encode}
use datboi.Recon.Stream.{stream_scope, block_bytes, max_symbols}
use datboi.Recon.Parts.{concat}
use datboi.Recon.Sequence.{stream_scope-encode_block, stream_scope_drained}

abbrev small_step : ℕ → ℕ → ℕ
small_step i r = suc (r % 2)

abbrev checksum : List ℕ → ℕ
checksum [] = 7
checksum (b ∷ bs) = b + 31 * checksum bs

abbrev set : List (List ℕ)
set = (1 ∷ 2 ∷ []) ∷ (3 ∷ 4 ∷ []) ∷ []

-- Each pass visits the set in the other order.
abbrev visit : ℕ → Option (List (List ℕ))
visit r = some ((3 ∷ 4 ∷ []) ∷ (1 ∷ 2 ∷ []) ∷ [])

-- The flag is up from the fourth round on.
abbrev stopped : ℕ → Bool
stopped r = ltb 3 r

abbrev never : ℕ → Bool
never r = false

abbrev always : ℕ → Bool
always r = true

abbrev stdvec : Response → List ℕ
stdvec (accepted size len) = 0 ∷ size ∷ len ∷ []
stdvec (refused code) = 1 ∷ code ∷ []

abbrev header : List ℕ
header = 3 ∷ 0 ∷ 0 ∷ 2 ∷ 48 ∷ []

encoded : encode stdvec (accepted 2 (frame_len root_blobs)) ≡ some header
unfolding encode frame_len le_bytes
encoded = refl

moves : MovesOn small_step
moves i r h = omega arith

stable : (r : ℕ) (seen : List (List ℕ)) → visit r ≡ some seen → Permᴰ seen set
stable r seen e =
    let is_seen : (3 ∷ 4 ∷ []) ∷ (1 ∷ 2 ∷ []) ∷ [] ≡ seen = cc e in
    subst (λ (s : List (List ℕ)). Permᴰ s set) is_seen
      (Permᴰ.swap {a = 3 ∷ 4 ∷ []} {b = 1 ∷ 2 ∷ []} {l = []} refl refl)

stream_scope-encode_block_example :
    (bodies : List (List ℕ)) × (answer : Option (ℕ × ℕ)) × (cs : List CodedSymbol) × (stream_scope
        small_step checksum
        (2 ^ 22)
        visit
        stopped
        always
        stdvec
        root_blobs
        16
        (some 2)
        true
      ≡ some (header ∷ bodies, answer))
    × (concat bodies ≡ block_bytes cs)
    × (encode_block small_step checksum (2 ^ 22) 32 0 (length cs) set ≡ some cs)
    × (length cs ≤ max_symbols)
    × ((answer ≡ some (2, length cs)) ⊎ (answer ≡ none))
stream_scope-encode_block_example =
    stream_scope-encode_block small_step checksum stdvec (2 ^ 22) visit stopped always set
      root_blobs 2 header moves (omega arith) stable encoded

stream_scope_drained_example :
    (bodies : List (List ℕ)) × (stream_scope small_step checksum
        (2 ^ 22)
        visit
        never
        always
        stdvec
        root_blobs
        16
        (some 2)
        true
      ≡ some (header ∷ bodies, some (2, max_symbols)))
stream_scope_drained_example =
    stream_scope_drained small_step checksum stdvec (2 ^ 22) visit never always root_blobs 2 header
      moves (omega arith) (λ r. ((3 ∷ 4 ∷ []) ∷ (1 ∷ 2 ∷ []) ∷ [], refl)) (λ r. refl) (λ r. refl)
      encoded

-- Of the peer's two symbols one is in the local set: its first coded symbol is their sum.
abbrev tally : List ℕ → ℕ
tally [] = 0
tally (b ∷ bs) = b + tally bs

abbrev own : List ℕ
own = replicate 32 2

abbrev missed : HashedSymbol
missed = record { symbol = replicate 32 1; hash = 32 }

abbrev answer_bytes : List ℕ
answer_bytes =
    (3 ∷ 0 ∷ 0 ∷ 2 ∷ 48 ∷ []) ++ replicate 32 3 ++ (96 ∷ replicate 7 0) ++ (2 ∷ replicate 7 0)

abbrev parse : List ℕ → Option (Response × List ℕ)
parse (zero ∷ size ∷ len ∷ rest) = some (accepted size len, rest)
parse bytes = none

abbrev one_symbol : HashedSymbol → ℕ → CodingWindow
one_symbol s prng = record {
  symbols = s ∷ [];
  mappings = record { prng = prng; last_index = 1 } ∷ [];
  queue = record { source_idx = 0; coded_idx = 1 } ∷ [];
  next_idx = 1;
}

abbrev settled : Decoder
settled = record {
  cs = record { symbol = replicate 32 0; hash = 0; count = 0 } ∷ [];
  local = record { symbols = []; mappings = []; queue = []; next_idx = 1 };
  window = one_symbol (record { symbol = own; hash = 64 }) 11891773203755183424;
  remote = one_symbol missed 5945886601877591712;
  decodable = [];
  decoded = 1;
  malformed = false;
}

reports : reconcile small_step tally 7 9 parse (own ∷ []) answer_bytes ≡ some (report settled 1)
unfolding reconcile read_envelope decode after_header budget receive take_in from_bytes from_le
    decoder encoder dedup_symbols dedup_from add_all add_hashed_symbol add_with_mapping fix_tail
    fix_head drain_index mapping advance at_index next_index hashed apply xor_bytes add_coded_symbol
    apply_window is_done is_decodable try_decode peel_from peel_remote apply_new_symbol absorb
    degree is_decoded
reports = refl

reconcile-Explained_example :
    Explained small_step tally 7 9 (own ∷ []) 4 parse answer_bytes settled 1
unfolding default
reconcile-Explained_example =
    reconcile-Explained small_step tally 7 9 (own ∷ []) parse answer_bytes settled 1 4 moves
      (all_bytes-IsBytes answer_bytes refl) (omega arith) refl reports

read_envelope-encode_example :
    (bytes : List ℕ) × (encode stdvec (accepted 2 48) ≡ some bytes)
    × (read_envelope parse (bytes ++ (7 ∷ [])) ≡ message (accepted 2 48) (7 ∷ []))
read_envelope-encode_example =
    read_envelope-encode stdvec parse (accepted 2 48) (7 ∷ []) (omega arith) refl
