-- ===== src/Riblt/Decoding.antt =====
-- The states that the decoder of crates/datboi-p2p/src/riblt.rs comes to.
use datboi.Base.{
  ℕ, ◌*◌, ◌^◌, ◌<◌, List, [], ◌∷◌, ◌++◌, some, length, length-append, false, ◌≡◌, sym, ◌∙◌, subst,
  arith,
}
use datboi.Riblt.Defs.{CodedSymbol}
use datboi.Riblt.Ending.{MovesOn}
use datboi.Riblt.Decoder.{Decoder, decoder, add_coded_symbol, try_decode}
use datboi.Riblt.Conserved.{Conserved, decoder-Conserved, add_coded_symbol-Conserved}
use datboi.Riblt.Recovered.{try_decode-Conserved}

-- Fuel for two rounds for each symbol of a window, and one more.
pub record Roomy (fuel : ℕ) (d : Decoder) : Type 0 where
  pub window_room : 2 * length d.window.mappings < fuel
  pub remote_room : 2 * length d.remote.mappings < fuel
  pub local_room : 2 * length d.local.mappings < fuel

module _ (step : ℕ → ℕ → ℕ) (hash_symbol : List ℕ → ℕ) where
  -- A decoder with a prior that has taken in these coded symbols, in any interleaving with
  -- `try_decode`; the fuel is enough for the windows.
  pub data Reaches (prior : List (List ℕ)) : List CodedSymbol → Decoder → Type 0 where
    begins : {d : Decoder} → decoder step hash_symbol prior ≡ some d → Reaches prior [] d
    receives :
        (fuel : ℕ) (recv : List CodedSymbol) (c : CodedSymbol) (d : Decoder) {e : Decoder}
        → Reaches prior recv d
        → d.malformed ≡ false
        → Roomy fuel d
        → add_coded_symbol step hash_symbol fuel c d ≡ some e
        → Reaches prior (recv ++ (c ∷ [])) e
    peels :
        (rounds fuel : ℕ) {recv : List CodedSymbol} (d : Decoder) {e : Decoder}
        → Reaches prior recv d
        → try_decode step hash_symbol rounds fuel d ≡ some e
        → Reaches prior recv e

  -- With steps that move on, and fewer than 2^64 coded symbols received, from whatever peer: in
  -- every state that the decoder comes to without its stream having been found malformed before
  -- the last of them, the coded symbols received, without the part of the prior and of the
  -- recovered `remote` symbols and with the part of the recovered `local` symbols, are the coded
  -- symbols that the decoder holds; its three windows are in order and stand at the next index.
  pub Reaches-Conserved :
      (prior : List (List ℕ)) (recv : List CodedSymbol) (d : Decoder)
      → MovesOn step
      → length recv < 2 ^ 64
      → Reaches prior recv d
      → Conserved step hash_symbol prior recv d
  Reaches-Conserved prior recv d on small (begins f) =
      let (d', g, k) = decoder-Conserved step hash_symbol prior in
      let same : some d' ≡ some d = sym g ∙ f in
      let is_d : d' ≡ d = cc same in subst (Conserved step hash_symbol prior []) is_d k
  Reaches-Conserved prior recv d on small (receives fuel before c d₀ r sound room f) =
      let long = length-append before (c ∷ []) in
      let k = Reaches-Conserved prior before d₀ on (omega arith) r in
      let (d', g, k') =
        add_coded_symbol-Conserved step hash_symbol fuel c prior before d₀ on sound (omega arith)
          room.window_room room.remote_room room.local_room k in
      let same : some d' ≡ some d = sym g ∙ f in
      let is_d : d' ≡ d = cc same in
      subst (Conserved step hash_symbol prior (before ++ (c ∷ []))) is_d k'
  Reaches-Conserved prior recv d on small (peels rounds fuel d₀ r f) =
      try_decode-Conserved step hash_symbol prior recv rounds fuel d₀ d
        (Reaches-Conserved prior recv d₀ on small r) f
