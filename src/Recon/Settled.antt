-- ===== src/Recon/Settled.antt =====
-- What a report of `reconcile` in crates/datboi-p2p/src/recon.rs rests on.
use datboi.Base.{
  ℕ, zero, suc, ◌+◌, ◌≤◌, List, [], ◌∷◌, ◌++◌, append_assoc, append-nil, some, length, length-take,
  take, drop, take-append-drop, All, IsByte, IsBytes, All-take, All-drop, ltb, Bool, true, false,
  Option-cases, Bool-cases, inl, inr, ◌≡◌, refl, sym, ap, ◌∙◌, subst, arith,
}
use datboi.Riblt.Defs.{CodedSymbol, from_bytes, to_bytes}
use datboi.Riblt.Marks.{Fits}
use datboi.Riblt.Wire.{to_bytes-from_bytes}
use datboi.Riblt.Decoder.{Decoder, add_coded_symbol, is_decoded}
use datboi.Riblt.Decoding.{Reaches, receives, peels, Roomy}
use datboi.Recon.Envelope.{coded_symbol_len}
use datboi.Recon.Stream.{block_bytes}
use datboi.Recon.Initiator.{report, malformed_stream, room, take_in, receive}

roomy : (d : Decoder) → Roomy (room d) d
roomy d = record { window_room = omega arith; remote_room = omega arith; local_room = omega arith }

-- The bytes of a coded symbol, in front of the rest of the stream.
record_at :
    (n : ℕ) (bs rest stream : List ℕ)
    → IsBytes bs
    → length bs ≡ n + 16
    → bs ++ rest ≡ stream
    → (c : CodedSymbol) × (from_bytes n bs ≡ some c) × Fits c × (stream ≡ to_bytes c ++ rest)
record_at n bs rest stream bytes long cut =
    let (c, g, is_c, back) = to_bytes-from_bytes n bs bytes long in
    (c, g, is_c.count_fits, sym cut ∙ ap (λ t. t ++ rest) (sym back))

next_record :
    (n len : ℕ) (stream : List ℕ)
    → IsBytes stream
    → len ≡ n + 16
    → ltb (length stream) len ≡ false
    → (c : CodedSymbol) × (from_bytes n (take len stream) ≡ some c)
      × Fits c
      × (stream ≡ to_bytes c ++ drop len stream)
next_record n len stream bytes wide whole =
    let size = length-take len stream in
    record_at n (take len stream) (drop len stream) stream (All-take IsByte len stream bytes)
      (ground arith) (take-append-drop len stream)

module _ (step : ℕ → ℕ → ℕ) (hash_symbol : List ℕ → ℕ) (rounds fuel : ℕ)
    (prior : List (List ℕ)) where
  take_in-Reaches :
      (buf : List ℕ) (recv : List CodedSymbol) (c : CodedSymbol) (d e : Decoder)
      → from_bytes 32 buf ≡ some c
      → d.malformed ≡ false
      → Reaches step hash_symbol prior recv d
      → take_in step hash_symbol rounds fuel buf d ≡ some e
      → Reaches step hash_symbol prior (recv ++ (c ∷ [])) e
  unfolding take_in
  take_in-Reaches buf recv c d e g sound r f =
      elim (Option-cases (add_coded_symbol step hash_symbol (room d) c d)) [
        | inl h ↦ absurd (cc (rw (g, h, take_in) at f))
        | inr (x, h) ↦
            peels rounds fuel x (receives (room d) recv c d r sound (roomy d) h)
              (rw (g, h, take_in) at f)
      ]

  -- The coded symbols that were read, and what is behind them.
  pub record Settled (recv : List CodedSymbol) (received left : ℕ) (stream : List ℕ) (e : Decoder)
      (n : ℕ) : Type 0 where
    pub cs : List CodedSymbol
    pub rest : List ℕ
    pub read : stream ≡ block_bytes cs ++ rest
    pub fitting : All Fits cs
    pub count : length cs + received ≡ n
    pub bounded : n ≤ received + left
    pub reached : Reaches step hash_symbol prior (recv ++ cs) e
    pub complete : is_decoded e ≡ true

  pub receive-Settled :
      (left received : ℕ) (recv : List CodedSymbol) (d : Decoder) (stream : List ℕ) (e : Decoder)
      (n : ℕ)
      → IsBytes stream
      → d.malformed ≡ false
      → Reaches step hash_symbol prior recv d
      → receive step hash_symbol rounds fuel left received d stream ≡ some (report e n)
      → Settled recv received left stream e n
  unfolding receive block_bytes
  receive-Settled zero received recv d stream e n bytes sound r f = absurd (cc f)
  receive-Settled (suc left) received recv d stream e n bytes sound r f =
      elim (Bool-cases (ltb (length stream) coded_symbol_len)) [
        | inl short ↦ absurd (cc (rw (short, receive) at f))
        | inr whole ↦
            elim (Option-cases
              (take_in step hash_symbol rounds fuel (take coded_symbol_len stream) d)) [
                | inl g ↦ absurd (cc (rw (whole, g, receive) at f))
                | inr (x, g) ↦
                    let (c, is_c, fit, cut) =
                      next_record 32 coded_symbol_len stream bytes refl whole in
                    let next =
                      take_in-Reaches (take coded_symbol_len stream) recv c d x is_c sound r g in
                    judged x c fit cut next
                      (λ h s.
                        receive-Settled left (received + 1) (recv ++ (c ∷ [])) x
                          (drop coded_symbol_len stream) e n
                          (All-drop IsByte coded_symbol_len stream bytes) s next h)
                      x.malformed (is_decoded x) refl refl (rw (whole, g, receive) at f)
              ]
      ]
    where
      judged :
          (x : Decoder) (c : CodedSymbol)
          → Fits c
          → stream ≡ to_bytes c ++ drop coded_symbol_len stream
          → Reaches step hash_symbol prior (recv ++ (c ∷ [])) x
          → (receive step hash_symbol rounds fuel left
                  (received + 1)
                  x
                  (drop coded_symbol_len stream)
                ≡ some (report e n)
              → x.malformed ≡ false
              → Settled (recv ++ (c ∷ [])) (received + 1) left (drop coded_symbol_len stream) e n)
          → (b b' : Bool) → b ≡ x.malformed
          → b' ≡ is_decoded x
          → (elim b [
            | true ↦ some malformed_stream
            | false ↦ elim b' [
              | true ↦ some (report x (received + 1))
              | false ↦
                  receive step hash_symbol rounds fuel left
                    (received + 1)
                    x
                    (drop coded_symbol_len stream)
            ]
          ])
            ≡ some (report e n)
          → Settled recv received (suc left) stream e n
      judged x c fit cut next ih true b' p q h = absurd (cc h)
      judged x c fit cut next ih false true p q h =
          let is_e : ◌≡◌ {A = Decoder} x e = cc h in
          let is_n : received + 1 ≡ n = cc h in
          record {
            cs = c ∷ [];
            fitting = (fit, tt);
            rest = drop coded_symbol_len stream;
            read =
                cut ∙ ap (λ t. t ++ drop coded_symbol_len stream) (sym (append-nil (to_bytes c)));
            count = omega arith;
            bounded = omega arith;
            reached = subst (Reaches step hash_symbol prior (recv ++ (c ∷ []))) is_e next;
            complete = ap is_decoded (sym is_e) ∙ sym q;
          }
      judged x c fit cut next ih false false p q h =
          let t = ih h (sym p) in
          let n_is = t.count in
          let below = t.bounded in
          record {
            cs = c ∷ t.cs;
            fitting = (fit, t.fitting);
            rest = t.rest;
            read =
                cut
                ∙ ap (λ u. to_bytes c ++ u) t.read
                ∙ sym (append_assoc (to_bytes c) (block_bytes t.cs) t.rest);
            count = omega arith;
            bounded = omega arith;
            reached =
                subst (λ (l : List CodedSymbol). Reaches step hash_symbol prior l e)
                  (append_assoc recv (c ∷ []) t.cs) t.reached;
            complete = t.complete;
          }
