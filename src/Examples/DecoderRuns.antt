-- ===== src/Examples/DecoderRuns.antt =====
-- The encoder and the decoder of crates/datboi-p2p/src/riblt.rs on sets of symbols of two bytes. The
-- checksum and the step are simple functions here.
use datboi.Base.{ℕ, suc, ◌+◌, ◌%◌, ◌*◌, List, [], ◌∷◌, some, ◌≡◌, refl, arith, true, false}
use datboi.Riblt.Defs.{
  CodedSymbol, encode_block, hashed, mapping, next_index, apply, xor_bytes, at_index,
  apply_new_symbol, is_decodable, absorb,
}
use datboi.Riblt.Ending.{MovesOn}
use datboi.Riblt.Window.{
  CodingWindow, encoder, fix_head, fix_tail, add_with_mapping, add_hashed_symbol, add_all, advance,
  drain_index, apply_window, dedup_from, dedup_symbols,
}
use datboi.Riblt.Encoding.{produce, distinct, encoder-encode_block}
use datboi.Riblt.Decoder.{
  Decoder, decoder, add_coded_symbol, try_decode, peel_from, peel_remote, degree, is_done,
  is_decoded,
}
use datboi.Riblt.Decoding.{Reaches, begins, receives, peels, Roomy, Reaches-Conserved}
use datboi.Riblt.Conserved.{Conserved}

abbrev small_step : ℕ → ℕ → ℕ
small_step i r = suc (r % 2)

abbrev checksum : List ℕ → ℕ
checksum [] = 7
checksum (b ∷ bs) = b + 31 * checksum bs

-- A symbol is given twice.
abbrev set : List (List ℕ)
set = (1 ∷ 2 ∷ []) ∷ (3 ∷ 4 ∷ []) ∷ (1 ∷ 2 ∷ []) ∷ []

small_step-MovesOn : MovesOn small_step
small_step-MovesOn i r h = omega arith

encoder-encode_block_example :
    (w : CodingWindow) × (cs : List CodedSymbol) × (encoder small_step checksum set ≡ some w)
    × (produce small_step 4 7 2 w ≡ some cs)
    × (encode_block small_step checksum 10 2 0 4 (distinct small_step checksum set) ≡ some cs)
encoder-encode_block_example =
    encoder-encode_block small_step checksum 4 7 10 2 set small_step-MovesOn (omega arith)
      (omega arith) (omega arith)

abbrev prior : List (List ℕ)
prior = (3 ∷ 4 ∷ []) ∷ []

abbrev received : CodedSymbol
received = record { symbol = 2 ∷ 6 ∷ []; hash = 64; count = 2 }

abbrev blank : ℕ → CodingWindow
blank k = record { symbols = []; mappings = []; queue = []; next_idx = k }

abbrev one_symbol : List ℕ → ℕ → ℕ → ℕ → ℕ → CodingWindow
one_symbol s h r last k = record {
  symbols = record { symbol = s; hash = h } ∷ [];
  mappings = record { prng = r; last_index = last } ∷ [];
  queue = record { source_idx = 0; coded_idx = last } ∷ [];
  next_idx = k;
}

abbrev fresh : Decoder
fresh = record {
  cs = [];
  local = blank 0;
  window = one_symbol (3 ∷ 4 ∷ []) 6854 6854 0 0;
  remote = blank 0;
  decodable = [];
  decoded = 0;
  malformed = false;
}

-- The prior's symbol is taken off the coded symbol that came in.
abbrev fed : Decoder
fed = record {
  cs = record { symbol = 1 ∷ 2 ∷ []; hash = 6790; count = 1 } ∷ [];
  local = blank 1;
  window = one_symbol (3 ∷ 4 ∷ []) 6854 1862166958304460286 1 1;
  remote = blank 1;
  decodable = 0 ∷ [];
  decoded = 0;
  malformed = false;
}

-- The symbol that is left is recovered.
abbrev peeled : Decoder
peeled = record {
  cs = record { symbol = 0 ∷ 0 ∷ []; hash = 0; count = 0 } ∷ [];
  local = blank 1;
  window = one_symbol (3 ∷ 4 ∷ []) 6854 1862166958304460286 1 1;
  remote = one_symbol (1 ∷ 2 ∷ []) 6790 8417137828258828478 1 1;
  decodable = [];
  decoded = 1;
  malformed = false;
}

starts : decoder small_step checksum prior ≡ some fresh
unfolding decoder encoder dedup_symbols dedup_from hashed add_all add_hashed_symbol add_with_mapping
    fix_tail mapping
starts = refl

takes : add_coded_symbol small_step checksum 9 received fresh ≡ some fed
unfolding add_coded_symbol apply_window drain_index advance next_index at_index fix_head apply
    xor_bytes is_done is_decodable
takes = refl

finishes : try_decode small_step checksum 5 9 fed ≡ some peeled
unfolding try_decode peel_from degree peel_remote apply_new_symbol absorb mapping next_index
    at_index apply xor_bytes is_decodable add_with_mapping fix_tail
finishes = refl

is_decoded_test : is_decoded peeled ≡ true
unfolding is_decoded
is_decoded_test = refl

roomy : Roomy 9 fresh
roomy = record { window_room = omega arith; remote_room = omega arith; local_room = omega arith }

peeled-Reaches : Reaches small_step checksum prior (received ∷ []) peeled
peeled-Reaches =
    peels 5 9 fed (receives 9 [] received fresh (begins starts) refl roomy takes) finishes

Reaches-Conserved_example : Conserved small_step checksum prior (received ∷ []) peeled
Reaches-Conserved_example =
    Reaches-Conserved small_step checksum prior (received ∷ []) peeled small_step-MovesOn
      (omega arith) peeled-Reaches
