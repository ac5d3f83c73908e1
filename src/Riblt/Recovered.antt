-- ===== src/Riblt/Recovered.antt =====
-- `try_decode` of crates/datboi-p2p/src/riblt.rs and the account of what was received.
use datboi.Base.{
  ℕ, zero, suc, ◌+◌, List, [], map, Option, none, some, length, get_elem?, Bool, true, false,
  Option-cases, inl, inr, ◌≡◌, refl, sym, ◌∙◌, subst,
}
use datboi.Riblt.Defs.{CodedSymbol, HashedSymbol, add, remove, mapping, apply_new_symbol, Absorbed}
use datboi.Riblt.Runs.{length-Runs}
use datboi.Riblt.Window.{CodingWindow}
use datboi.Riblt.Exchange.{Sweeps-exchange, Absorbs, absorb-Absorbs}
use datboi.Riblt.Decoder.{
  Decoder, Degree, plus, minus, nothing, beyond, degree, peel_remote, peel_local, sole, peel_from,
  try_decode,
}
use datboi.Riblt.Conserved.{Conserved}
use datboi.Riblt.Joining.{Joined, joins, Joined-Share}

then_on :
    (o : Option Decoder) (next : Decoder → Option Decoder) (e : Decoder)
    → (elim o [ none ↦ none | some x ↦ next x ]) ≡ some e
    → (x : Decoder) × (o ≡ some x) × (next x ≡ some e)
then_on none next e f = absurd (cc f)
then_on (some x) next e f = (x, refl, f)

module _ (step : ℕ → ℕ → ℕ) where
  module _ (hash_symbol : List ℕ → ℕ) (prior : List (List ℕ)) (recv : List CodedSymbol) where
    peeled_remote : HashedSymbol → Decoder → Absorbed → CodingWindow → Decoder
    peeled_remote ns d a w = record d {
      cs = a.cs;
      remote = w;
      decodable = a.decodable;
      decoded = d.decoded + 1;
    }

    -- A symbol of the other side is accounted for as recovered.
    recovers_remote :
        (ns : HashedSymbol) (d : Decoder) (a : Absorbed)
        (j : Joined step remove ns a.mapping_state d.remote)
        → Conserved step hash_symbol prior recv d
        → Absorbs step ns remove (mapping ns) d.cs a
        → Conserved step hash_symbol prior recv (peeled_remote ns d a j.w')
    unfolding peeled_remote
    recovers_remote ns d a j k b =
        let n = length d.cs in
        let size = length-Runs step ns remove 0 n (mapping ns) d.cs a.cs b.run in
        let (x, run, rest) =
          Sweeps-exchange step 0 n ns add remove (mapping ns) d.local.symbols
            (map mapping d.local.symbols) k.missing d.cs a.cs k.with_local b.run in
        record {
          long = k.long ∙ sym size;
          own = k.own;
          window_follows = k.window_follows;
          remote_follows = j.follows;
          local_follows = k.local_follows;
          window_at = k.window_at ∙ sym size;
          remote_at = j.same_at ∙ k.remote_at ∙ sym size;
          local_at = k.local_at ∙ sym size;
          others = k.others;
          missing = x;
          without_prior = rw size k.without_prior;
          without_remote = rw size (
              Joined-Share step remove ns a.mapping_state d.remote j n k.others k.missing x
                k.without_remote run);
          with_local = rw size rest;
        }

    peeled_local : HashedSymbol → Decoder → Absorbed → CodingWindow → Decoder
    peeled_local ns d a w = record d {
      cs = a.cs;
      local = w;
      decodable = a.decodable;
      decoded = d.decoded + 1;
    }

    recovers_local :
        (ns : HashedSymbol) (d : Decoder) (a : Absorbed)
        (j : Joined step add ns a.mapping_state d.local)
        → Conserved step hash_symbol prior recv d
        → Absorbs step ns add (mapping ns) d.cs a
        → Conserved step hash_symbol prior recv (peeled_local ns d a j.w')
    unfolding peeled_local
    recovers_local ns d a j k b =
        let n = length d.cs in
        let size = length-Runs step ns add 0 n (mapping ns) d.cs a.cs b.run in
        record {
          long = k.long ∙ sym size;
          own = k.own;
          window_follows = k.window_follows;
          remote_follows = k.remote_follows;
          local_follows = j.follows;
          window_at = k.window_at ∙ sym size;
          remote_at = k.remote_at ∙ sym size;
          local_at = j.same_at ∙ k.local_at ∙ sym size;
          others = k.others;
          missing = k.missing;
          without_prior = rw size k.without_prior;
          without_remote = rw size k.without_remote;
          with_local = rw size (
              Joined-Share step add ns a.mapping_state d.local j n k.missing d.cs a.cs k.with_local
                b.run);
        }

    takes_remote :
        (fuel : ℕ) (ns : HashedSymbol) (d e : Decoder)
        → Conserved step hash_symbol prior recv d
        → peel_remote step hash_symbol fuel ns d ≡ some e
        → Conserved step hash_symbol prior recv e
    unfolding peel_remote apply_new_symbol peeled_remote
    takes_remote fuel ns d e k f =
        elim (Option-cases (apply_new_symbol step hash_symbol fuel ns remove d.cs d.decodable)) [
          | inl g ↦ absurd (cc (rw (g, peel_remote) at f))
          | inr (a, g) ↦
              let b =
                absorb-Absorbs step hash_symbol fuel ns remove (mapping ns) d.cs d.decodable a g in
              let j = joins step remove ns d.remote d.cs a k.remote_follows k.remote_at b in
              let same : some (peeled_remote ns d a j.w') ≡ some e =
                rw (g, j.run, peel_remote) at f in
              let is_e : peeled_remote ns d a j.w' ≡ e = cc same in
              subst (Conserved step hash_symbol prior recv) is_e (recovers_remote ns d a j k b)
        ]

    takes_local :
        (fuel : ℕ) (ns : HashedSymbol) (d e : Decoder)
        → Conserved step hash_symbol prior recv d
        → peel_local step hash_symbol fuel ns d ≡ some e
        → Conserved step hash_symbol prior recv e
    unfolding peel_local apply_new_symbol peeled_local
    takes_local fuel ns d e k f =
        elim (Option-cases (apply_new_symbol step hash_symbol fuel ns add d.cs d.decodable)) [
          | inl g ↦ absurd (cc (rw (g, peel_local) at f))
          | inr (a, g) ↦
              let b =
                absorb-Absorbs step hash_symbol fuel ns add (mapping ns) d.cs d.decodable a g in
              let j = joins step add ns d.local d.cs a k.local_follows k.local_at b in
              let same : some (peeled_local ns d a j.w') ≡ some e =
                rw (g, j.run, peel_local) at f in
              let is_e : peeled_local ns d a j.w' ≡ e = cc same in
              subst (Conserved step hash_symbol prior recv) is_e (recovers_local ns d a j k b)
        ]

    -- The queue, the count and the flag do not matter.
    marks :
        (d : Decoder) (queue : List ℕ) (count : ℕ) (flag : Bool)
        → Conserved step hash_symbol prior recv d
        → Conserved step hash_symbol prior recv
            (record d { decodable = queue; decoded = count; malformed = flag })
    marks d queue count flag k = record {
      long = k.long;
      own = k.own;
      window_follows = k.window_follows;
      remote_follows = k.remote_follows;
      local_follows = k.local_follows;
      window_at = k.window_at;
      remote_at = k.remote_at;
      local_at = k.local_at;
      others = k.others;
      missing = k.missing;
      without_prior = k.without_prior;
      without_remote = k.without_remote;
      with_local = k.with_local;
    }

    peel_from-Conserved :
        (rounds fuel didx : ℕ) (d e : Decoder)
        → Conserved step hash_symbol prior recv d
        → peel_from step hash_symbol rounds fuel didx d ≡ some e
        → Conserved step hash_symbol prior recv e
    unfolding peel_from
    peel_from-Conserved zero fuel didx d e k f = absurd (cc f)
    peel_from-Conserved (suc rounds) fuel didx d e k f =
        elim (Option-cases (get_elem? d.decodable didx)) [
          | inl g ↦
              let same : some (record d { decodable = [] }) ≡ some e = rw (g, peel_from) at f in
              let is_e : record d { decodable = [] } ≡ e = cc same in
              subst (Conserved step hash_symbol prior recv) is_e
                (marks d [] d.decoded d.malformed k)
          | inr (cidx, g) ↦ elim (Option-cases (get_elem? d.cs cidx)) [
            | inl h ↦ absurd (cc (rw (g, h, peel_from) at f))
            | inr (c, h) ↦
                arm c (degree c.count) (λ x. peel_from-Conserved rounds fuel (didx + 1) x e)
                  (rw (g, h, peel_from) at f)
          ]
        ]
      where
        arm :
            (c : CodedSymbol) (g : Degree)
            → ((x : Decoder)
                → Conserved step hash_symbol prior recv x
                → peel_from step hash_symbol rounds fuel (didx + 1) x ≡ some e
                → Conserved step hash_symbol prior recv e)
            → (elim g [
              | plus ↦ elim (peel_remote step hash_symbol fuel (sole c) d) [
                | none ↦ none
                | some x ↦ peel_from step hash_symbol rounds fuel (didx + 1) x
              ]
              | minus ↦ elim (peel_local step hash_symbol fuel (sole c) d) [
                | none ↦ none
                | some x ↦ peel_from step hash_symbol rounds fuel (didx + 1) x
              ]
              | nothing ↦
                  peel_from step hash_symbol rounds fuel
                    (didx + 1)
                    (record d { decoded = d.decoded + 1 })
              | beyond ↦ some (record d { malformed = true; decodable = [] })
            ])
              ≡ some e
            → Conserved step hash_symbol prior recv e
        arm c plus ih f =
            let (x, g, h) = then_on (peel_remote step hash_symbol fuel (sole c) d) _ e f in
            ih x (takes_remote fuel (sole c) d x k g) h
        arm c minus ih f =
            let (x, g, h) = then_on (peel_local step hash_symbol fuel (sole c) d) _ e f in
            ih x (takes_local fuel (sole c) d x k g) h
        arm c nothing ih f =
            ih (record d { decoded = d.decoded + 1 })
              (marks d d.decodable (d.decoded + 1) d.malformed k) f
        arm c beyond ih f =
            let is_e : record d { malformed = true; decodable = [] } ≡ e = cc f in
            subst (Conserved step hash_symbol prior recv) is_e (marks d [] d.decoded true k)

    -- Whatever `try_decode` leaves is accounted for.
    pub try_decode-Conserved :
        (rounds fuel : ℕ) (d e : Decoder)
        → Conserved step hash_symbol prior recv d
        → try_decode step hash_symbol rounds fuel d ≡ some e
        → Conserved step hash_symbol prior recv e
    unfolding try_decode
    try_decode-Conserved rounds fuel d e k f = go d.malformed f
      where
        go :
            (b : Bool)
            → (elim b [ true ↦ some d | false ↦ peel_from step hash_symbol rounds fuel 0 d ])
              ≡ some e
            → Conserved step hash_symbol prior recv e
        go true f = let is_e : d ≡ e = cc f in subst (Conserved step hash_symbol prior recv) is_e k
        go false f = peel_from-Conserved rounds fuel 0 d e k f
