-- ===== src/Examples/JunkRuns.antt =====
-- A stream of four coded symbols on which `reconcile` of crates/datboi-p2p/src/recon.rs reports, with a
-- coded symbol left that is no sum of the symbols reported. The second is of no symbols, and the
-- fourth makes the first decodable again, so that it is counted twice.
use datboi.Base.{
  ℕ, zero, ◌+◌, ◌-◌, ◌^◌, List, [], ◌∷◌, ◌++◌, replicate, Option, some, none, false, ◌≡◌, refl,
}
use datboi.Riblt.Defs.{
  HashedSymbol, from_bytes, from_le, is_decodable, mapping, at_index, next_index, apply, xor_bytes,
  apply_new_symbol, absorb,
}
use datboi.Riblt.Window.{
  entry, encoder, dedup_symbols, dedup_from, add_all, apply_window, add_hashed_symbol,
  add_with_mapping, fix_tail, fix_head, drain_index, advance,
}
use datboi.Riblt.Decoder.{
  Decoder, decoder, add_coded_symbol, is_done, try_decode, peel_from, peel_remote, peel_local,
  degree, is_decoded,
}
use datboi.Recon.Envelope.{Response, accepted, decode, read_envelope}
use datboi.Recon.Initiator.{report, reconcile, after_header, budget, receive, take_in}

abbrev far_step : ℕ → ℕ → ℕ
far_step i r = 100

abbrev tally : List ℕ → ℕ
tally [] = 0
tally (b ∷ bs) = b + tally bs

abbrev parse : List ℕ → Option (Response × List ℕ)
parse (zero ∷ size ∷ len ∷ rest) = some (accepted size len, rest)
parse bytes = none

abbrev sum_of : ℕ → HashedSymbol
sum_of b = record { symbol = replicate 32 b; hash = tally (replicate 32 b) }

abbrev coded : ℕ → ℕ → ℕ → List ℕ
coded b hash count = replicate 32 b ++ (hash ∷ replicate 7 0) ++ (count ∷ replicate 7 0)

abbrev stream : List ℕ
stream =
    (3 ∷ 0 ∷ 0 ∷ 4 ∷ 48 ∷ [])
    ++ coded 3 96 2
    ++ coded 9 0 7
    ++ coded 1 32 1
    ++ replicate 32 4
    ++ (128 ∷ replicate 7 0)
    ++ replicate 8 255

abbrev junk_left : Decoder
junk_left = record {
  cs =
      record { symbol = replicate 32 0; hash = 0; count = 0 }
      ∷ record { symbol = replicate 32 9; hash = 0; count = 7 }
      ∷ record { symbol = replicate 32 1; hash = 32; count = 1 }
      ∷ record { symbol = replicate 32 4; hash = 128; count = 2 ^ 64 - 1 }
      ∷ [];
  local = record {
    symbols = sum_of 4 ∷ [];
    mappings = record { prng = 5336802333800815232; last_index = 100 } ∷ [];
    queue = record { source_idx = 0; coded_idx = 100 } ∷ [];
    next_idx = 4;
  };
  window = record { symbols = []; mappings = []; queue = []; next_idx = 4 };
  remote = record {
    symbols = sum_of 1 ∷ sum_of 2 ∷ sum_of 4 ∷ [];
    mappings =
        record { prng = 5945886601877591712; last_index = 100 }
        ∷ record { prng = 11891773203755183424; last_index = 100 }
        ∷ record { prng = 5336802333800815232; last_index = 100 }
        ∷ [];
    queue =
        record { source_idx = 0; coded_idx = 100 }
        ∷ record { source_idx = 1; coded_idx = 100 }
        ∷ record { source_idx = 2; coded_idx = 100 }
        ∷ [];
    next_idx = 4;
  };
  decodable = [];
  decoded = 4;
  malformed = false;
}

reports_junk : reconcile far_step tally 7 7 parse [] stream ≡ some (report junk_left 4)
unfolding reconcile read_envelope decode after_header budget receive take_in from_bytes from_le
    decoder encoder dedup_symbols dedup_from add_all add_hashed_symbol add_with_mapping fix_tail
    fix_head drain_index entry mapping advance at_index next_index apply xor_bytes add_coded_symbol
    apply_window is_done is_decodable try_decode peel_from peel_remote peel_local apply_new_symbol
    absorb degree is_decoded
reports_junk = refl
