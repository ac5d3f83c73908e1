-- ===== src/Recon/Report.antt =====
-- The reports of `reconcile` in crates/datboi-p2p/src/recon.rs.
use datboi.Base.{
  ℕ, ◌+◌, ◌*◌, ◌^◌, replicate, ◌≤◌, ◌<◌, List, [], ◌++◌, Option, some, length, take, drop, IsByte,
  IsBytes, All-drop, ltb, ◌==◌, true, false, Option-cases, Bool-cases, inl, inr, ◌≡◌, refl, sym, ap,
  ◌∙◌, subst, arith,
}
use datboi.Riblt.Defs.{CodedSymbol, from_le, default, encode_onto}
use datboi.Riblt.Balance.{Conserved-balance}
use datboi.Riblt.Ending.{MovesOn}
use datboi.Riblt.Window.{CodingWindow, no_window, encoder, dedup_symbols}
use datboi.Riblt.Decoder.{Decoder, decoder, is_decoded}
use datboi.Riblt.Decoding.{begins, Reaches-Conserved}
use datboi.Recon.Envelope.{
  Response, accepted, refused, coded_symbol_len, max_envelope_len, read_envelope, decode, Envelope,
  cut_short, unknown, message,
}
use datboi.Recon.Stream.{block_bytes}
use datboi.Recon.Initiator.{report, no_header, bad_header, budget, receive, after_header, reconcile}
use datboi.Recon.Settled.{Settled, receive-Settled}

-- What is behind an envelope.
read_envelope-IsBytes :
    {A : Type 0} (take_from_bytes : List ℕ → Option (A × List ℕ)) (stream : List ℕ) (msg : A)
    (rest : List ℕ)
    → IsBytes stream
    → read_envelope take_from_bytes stream ≡ message msg rest
    → IsBytes rest
unfolding read_envelope
read_envelope-IsBytes take_from_bytes stream msg rest bytes e =
    let len = from_le (take 2 stream) in
    elim (Bool-cases (ltb (length stream) 2)) [
      | inl a ↦ absurd (cc (rw a at e))
      | inr a ↦ elim (Bool-cases (ltb max_envelope_len len)) [
        | inl b ↦ absurd (cc (rw (a, b) at e))
        | inr b ↦ elim (Bool-cases (ltb (length (drop 2 stream)) len)) [
          | inl c ↦ absurd (cc (rw (a, b, c) at e))
          | inr c ↦ elim (Option-cases (decode take_from_bytes (take len (drop 2 stream)))) [
            | inl d ↦ absurd (cc (rw (a, b, c, d) at e))
            | inr (m, d) ↦
                let same : message m (drop len (drop 2 stream)) ≡ message msg rest =
                  rw (a, b, c, d) at e in
                let is_rest : drop len (drop 2 stream) ≡ rest = cc same in
                subst IsBytes is_rest
                  (All-drop IsByte len (drop 2 stream) (All-drop IsByte 2 stream bytes))
          ]
        ]
      ]
    ]

abbrev blank_decoder : CodingWindow → Decoder
blank_decoder w = record {
  cs = [];
  local = no_window;
  window = w;
  remote = no_window;
  decodable = [];
  decoded = 0;
  malformed = false;
}

fits : (size local_set : ℕ) → budget size local_set < 2 ^ 64
unfolding budget
fits size local_set = omega arith

module _ (step : ℕ → ℕ → ℕ) (hash_symbol : List ℕ → ℕ) (rounds fuel : ℕ)
    (local : List (List ℕ)) where
  -- What `reconcile` has read behind the header when it reports, and that the coded symbols read, with
  -- the `local` symbols of the report, are the coded symbols of its `remote` ones and the local set.
  pub record Explained (enough : ℕ) (take_from_bytes : List ℕ → Option (Response × List ℕ))
      (stream : List ℕ) (e : Decoder) (n : ℕ) : Type 0 where
    pub set_size : ℕ
    pub records : List ℕ
    pub header :
        read_envelope take_from_bytes stream ≡ message (accepted set_size coded_symbol_len) records
    pub cs : List CodedSymbol
    pub rest : List ℕ
    pub read : records ≡ block_bytes cs ++ rest
    pub count : length cs ≡ n
    pub bounded : n ≤ budget set_size (length local)
    pub complete : is_decoded e ≡ true
    pub sum : List CodedSymbol
    pub with_local : encode_onto step enough 0 e.local.symbols cs ≡ some sum
    pub as_encoded :
        encode_onto step enough 0
          (e.remote.symbols ++ dedup_symbols step hash_symbol local)
          (replicate n (default 32))
        ≡ some sum

  explains :
      (enough set_size : ℕ) (records : List ℕ) (e : Decoder) (n : ℕ)
      → MovesOn step
      → budget set_size (length local) < 2 ^ 64
      → IsBytes records
      → 2 * n + 2 ≤ enough
      → e.cs ≡ replicate n (default 32)
      → (d : Decoder) → decoder step hash_symbol local ≡ some d
      → d.malformed ≡ false
      → receive step hash_symbol rounds fuel (budget set_size (length local)) 0 d records
        ≡ some (report e n)
      → (s : Settled step hash_symbol rounds fuel local [] 0
          (budget set_size (length local))
          records
          e
          n)
        × (length s.cs ≡ n)
        × (n ≤ budget set_size (length local))
        × (sum : List CodedSymbol) × (encode_onto step enough 0 e.local.symbols s.cs ≡ some sum)
        × (encode_onto step enough 0
              (e.remote.symbols ++ dedup_symbols step hash_symbol local)
              (replicate n (default 32))
            ≡ some sum)
  explains enough set_size records e n on fits bytes long blank d new sound f =
      let s =
        receive-Settled step hash_symbol rounds fuel local (budget set_size (length local)) 0 [] d
          records e n bytes sound (begins new) f in
      let count = s.count in
      let bounded = s.bounded in
      let kept = Reaches-Conserved step hash_symbol local s.cs e on (omega arith) s.reached in
      let (sum, added, peeled) =
        Conserved-balance step hash_symbol enough local s.cs e on (omega arith) (omega arith)
          s.fitting kept in
      (s, omega arith, omega arith, sum, added, rw (kept.own, blank) at peeled)

  sound_at_first : (d : Decoder) → decoder step hash_symbol local ≡ some d → d.malformed ≡ false
  unfolding decoder
  sound_at_first d f = elim (Option-cases (encoder step hash_symbol local)) [
    | inl g ↦ absurd (cc (rw (g, decoder) at f))
    | inr (w, g) ↦
        let same : some (blank_decoder w) ≡ some d = rw (g, decoder) at f in
        let is_d : blank_decoder w ≡ d = cc same in ap (λ (x : Decoder). x.malformed) (sym is_d)
  ]

  served :
      (take_from_bytes : List ℕ → Option (Response × List ℕ)) (stream : List ℕ) (e : Decoder)
      (n enough : ℕ)
      → MovesOn step
      → IsBytes stream
      → 2 * n + 2 ≤ enough
      → e.cs ≡ replicate n (default 32)
      → (response : Response) (records : List ℕ)
      → read_envelope take_from_bytes stream ≡ message response records
      → after_header step hash_symbol rounds fuel local response records ≡ some (report e n)
      → Explained enough take_from_bytes stream e n
  unfolding after_header
  served take_from_bytes stream e n enough on bytes long blank (refused code) records h f =
      absurd (cc f)
  served take_from_bytes stream e n enough on bytes long blank (accepted size len) records h f =
      elim (Bool-cases (len == coded_symbol_len)) [
        | inr wrong ↦ absurd (cc (rw (wrong, after_header) at f))
        | inl right ↦ elim (Option-cases (decoder step hash_symbol local)) [
          | inl g ↦ absurd (cc (rw (right, g, after_header) at f))
          | inr (d, g) ↦
              let (s, count, few, sum, added, peeled) =
                explains enough size records e n on (fits size (length local))
                  (read_envelope-IsBytes take_from_bytes stream (accepted size len) records bytes h)
                  long blank d g (sound_at_first d g) (rw (right, g, after_header) at f) in
              let wide : len ≡ coded_symbol_len = ground arith in
              record {
                set_size = size;
                records = records;
                header = h ∙ ap (λ l. message (accepted size l) records) wide;
                cs = s.cs;
                rest = s.rest;
                read = s.read;
                count = count;
                bounded = few;
                complete = s.complete;
                sum = sum;
                with_local = added;
                as_encoded = peeled;
              }
        ]
      ]

  -- With steps that move on, bytes from the peer and fuel of two rounds for each index below the count
  -- and two more: when `reconcile` reports and its decoder has only blank coded symbols left, it has
  -- read the coded symbols that it counts from the stream behind an `Accepted` header with its frame
  -- length, within the budget; the decoder is not malformed and has decoded as many as it has; and the
  -- symbols that it reports as `local` make of those read what the ones that it reports as `remote`,
  -- followed by the local set, make of a blank block.
  pub reconcile-Explained :
      (take_from_bytes : List ℕ → Option (Response × List ℕ)) (stream : List ℕ) (e : Decoder)
      (n enough : ℕ)
      → MovesOn step
      → IsBytes stream
      → 2 * n + 2 ≤ enough
      → e.cs ≡ replicate n (default 32)
      → reconcile step hash_symbol rounds fuel take_from_bytes local stream ≡ some (report e n)
      → Explained enough take_from_bytes stream e n
  unfolding reconcile
  reconcile-Explained take_from_bytes stream e n enough on bytes long blank f =
      go (read_envelope take_from_bytes stream) refl f
    where
      go :
          (r : Envelope Response)
          → read_envelope take_from_bytes stream ≡ r
          → (elim r [
            | cut_short ↦ some no_header
            | unknown ↦ some bad_header
            | message response rest ↦ after_header step hash_symbol rounds fuel local response rest
          ])
            ≡ some (report e n)
          → Explained enough take_from_bytes stream e n
      go cut_short h g = absurd (cc g)
      go unknown h g = absurd (cc g)
      go (message response rest) h g =
          served take_from_bytes stream e n enough on bytes long blank response rest h g
