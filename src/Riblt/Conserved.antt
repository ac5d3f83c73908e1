-- ===== src/Riblt/Conserved.antt =====
-- The account of the decoder of crates/datboi-p2p/src/riblt.rs: what it holds and what it has received.
use datboi.Base.{
  ℕ, suc, ◌+◌, ◌*◌, ◌^◌, ◌≤◌, ◌<◌, List, [], ◌∷◌, ◌++◌, map, some, length, length-append, Bool,
  false, if◌then◌else◌, ◌≡◌, refl, sym, ◌∙◌, subst, arith,
}
use datboi.Riblt.Defs.{CodedSymbol, HashedSymbol, add, remove, mapping}
use datboi.Riblt.Ending.{MovesOn}
use datboi.Riblt.Sweeps.{Sweeps, nil, Sweeps-join, Sweeps-end, length-Sweeps}
use datboi.Riblt.Window.{CodingWindow, no_window, apply_window, dedup_symbols}
use datboi.Riblt.Ready.{Ready, window}
use datboi.Riblt.Draining.{applies}
use datboi.Riblt.Filling.{empty_window, encoder-Ready}
use datboi.Riblt.Decoder.{Decoder, decoder, is_done, add_coded_symbol}

module _ (step : ℕ → ℕ → ℕ) where
  -- A window whose mappings are where its symbols' mappings come to, behind the coded symbols that it
  -- has answered for.
  pub record Follows (d : ℕ) (w : CodingWindow) : Type 0 where
    pub ready : Ready w.symbols w.mappings w.queue w.next_idx
    pub behind :
        (start end : ℕ) (out o : List CodedSymbol)
        → w.next_idx ≤ start
        → start ≤ end
        → Sweeps step start end d w.symbols w.mappings out o
        → Sweeps step start end d w.symbols (map mapping w.symbols) out o

  -- The part of the symbols in the first `k` coded symbols.
  abbrev pub Share : ℕ → ℕ → List HashedSymbol → List CodedSymbol → List CodedSymbol → Type 0
  Share d k ss out o = Sweeps step 0 k d ss (map mapping ss) out o

  -- A window that has answered for one index more.
  record Turned (fuel d : ℕ) (w : CodingWindow) (c : CodedSymbol) (xs xs' : List CodedSymbol)
      : Type 0 where
    w' : CodingWindow
    c' : CodedSymbol
    run : apply_window step fuel w c d ≡ some (c', w')
    same : w'.symbols ≡ w.symbols
    follows : Follows d w'
    next : w'.next_idx ≡ suc w.next_idx
    share : Share d (suc w.next_idx) w'.symbols (xs ++ (c ∷ [])) (xs' ++ (c' ∷ []))

  turns :
      (fuel d : ℕ) (w : CodingWindow) (c : CodedSymbol) (xs xs' : List CodedSymbol)
      → MovesOn step
      → w.next_idx + 1 < 2 ^ 64
      → 2 * length w.mappings < fuel
      → Follows d w
      → length xs ≡ w.next_idx
      → Share d w.next_idx w.symbols xs xs'
      → Turned fuel d w c xs xs'
  turns fuel d w c xs xs' on small enough f long share =
      let k = w.next_idx in
      let (c', ms', q', run, drained) =
        applies step fuel w.symbols w.mappings w.queue k d c on small enough f.ready in
      let made = f.behind k (suc k) (c ∷ []) (c' ∷ []) (omega arith) (omega arith) drained.made in
      record {
        w' = window w.symbols ms' q' (suc k);
        c' = c';
        run = run;
        same = refl;
        next = refl;
        follows = record {
          ready = drained.ready;
          behind = λ start end out o h l p.
              f.behind start end out o (omega arith) l
                (drained.behind start end out o (omega arith) l p);
        };
        share =
            Sweeps-join step d 0 k (suc k) w.symbols (map mapping w.symbols) xs xs' (c ∷ [])
              (c' ∷ []) (omega arith) (omega arith) (omega arith) share made;
      }

  no_window-Follows : (d : ℕ) → Follows d no_window
  no_window-Follows d = record { ready = empty_window; behind = λ start end out o h l p. p }

  module _ (hash_symbol : List ℕ → ℕ) where
    -- The received coded symbols `recv`, without the symbols of the prior and those that were recovered
    -- from the other side, and with those that were recovered from the prior, are those that are left.
    pub record Conserved (prior : List (List ℕ)) (recv : List CodedSymbol) (d : Decoder)
        : Type 0 where
      pub long : length recv ≡ length d.cs
      pub own : d.window.symbols ≡ dedup_symbols step hash_symbol prior
      pub window_follows : Follows remove d.window
      pub remote_follows : Follows remove d.remote
      pub local_follows : Follows add d.local
      pub window_at : d.window.next_idx ≡ length d.cs
      pub remote_at : d.remote.next_idx ≡ length d.cs
      pub local_at : d.local.next_idx ≡ length d.cs
      pub others : List CodedSymbol
      pub missing : List CodedSymbol
      pub without_prior : Share remove (length d.cs) d.window.symbols recv others
      pub without_remote : Share remove (length d.cs) d.remote.symbols others missing
      pub with_local : Share add (length d.cs) d.local.symbols missing d.cs

    -- A new decoder has nothing to account for.
    pub decoder-Conserved :
        (prior : List (List ℕ))
        → (d : Decoder) × (decoder step hash_symbol prior ≡ some d) × Conserved prior [] d
    unfolding decoder
    decoder-Conserved prior =
        let ss = dedup_symbols step hash_symbol prior in
        let (q, new, ready) = encoder-Ready step hash_symbol prior in
        (
          record {
            cs = [];
            local = no_window;
            window = window ss (map mapping ss) q 0;
            remote = no_window;
            decodable = [];
            decoded = 0;
            malformed = false;
          },
          rw (new, decoder) refl,
          record {
            long = refl;
            own = refl;
            window_follows = record { ready = ready; behind = λ start end out o h l p. p };
            remote_follows = no_window-Follows remove;
            local_follows = no_window-Follows add;
            window_at = refl;
            remote_at = refl;
            local_at = refl;
            others = [];
            missing = [];
            without_prior =
                Sweeps-end step remove 0 0 ss (map mapping ss) [] ready.long ready.later;
            without_remote = nil;
            with_local = nil;
          },
        )

    -- The coded symbol that is stored, with the state that the windows are left in.
    stored :
        ℕ
        → CodedSymbol
        → CodedSymbol
        → CodingWindow
        → CodingWindow
        → CodingWindow
        → Decoder
        → Decoder
    stored fuel c e w r l d = record d {
      cs = d.cs ++ (e ∷ []);
      window = w;
      remote = r;
      local = l;
      decodable =
          if is_done step hash_symbol e then d.decodable ++ (length d.cs ∷ []) else d.decodable;
    }

    stores :
        (fuel : ℕ) (c : CodedSymbol) (d : Decoder) (c₁ c₂ c₃ : CodedSymbol) (w r l : CodingWindow)
        → d.malformed ≡ false
        → apply_window step fuel d.window c remove ≡ some (c₁, w)
        → apply_window step fuel d.remote c₁ remove ≡ some (c₂, r)
        → apply_window step fuel d.local c₂ add ≡ some (c₃, l)
        → add_coded_symbol step hash_symbol fuel c d ≡ some (stored fuel c c₃ w r l d)
    unfolding add_coded_symbol stored
    stores fuel c d c₁ c₂ c₃ w r l sound f g h =
        subst
          (λ (b : Bool).
            add_coded_symbol step hash_symbol fuel c (record d { malformed = b })
            ≡ some (stored fuel c c₃ w r l (record d { malformed = b })))
          (sym sound) (rw (f, g, h, add_coded_symbol) refl)

    -- With steps that move on and fuel for two rounds for each symbol of a window, a coded symbol is
    -- taken in and accounted for.
    pub add_coded_symbol-Conserved :
        (fuel : ℕ) (c : CodedSymbol) (prior : List (List ℕ)) (recv : List CodedSymbol) (d : Decoder)
        → MovesOn step
        → d.malformed ≡ false
        → length recv + 1 < 2 ^ 64
        → 2 * length d.window.mappings < fuel
        → 2 * length d.remote.mappings < fuel
        → 2 * length d.local.mappings < fuel
        → Conserved prior recv d
        → (d' : Decoder) × (add_coded_symbol step hash_symbol fuel c d ≡ some d')
          × Conserved prior (recv ++ (c ∷ [])) d'
    unfolding stored
    add_coded_symbol-Conserved fuel c prior recv d on sound small room₁ room₂ room₃ k =
        let n = length d.cs in
        let long = k.long in
        let at₁ = k.window_at in
        let at₂ = k.remote_at in
        let at₃ = k.local_at in
        let size₁ =
          length-Sweeps step remove 0 n d.window.symbols (map mapping d.window.symbols) recv
            k.others k.without_prior in
        let size₂ =
          length-Sweeps step remove 0 n d.remote.symbols (map mapping d.remote.symbols) k.others
            k.missing k.without_remote in
        let a =
          turns fuel remove d.window c recv k.others on (omega arith) room₁ k.window_follows
            (omega arith) (as_far remove d.window (sym at₁) k.without_prior) in
        let b =
          turns fuel remove d.remote a.c' k.others k.missing on (omega arith) room₂ k.remote_follows
            (omega arith) (as_far remove d.remote (sym at₂) k.without_remote) in
        let e =
          turns fuel add d.local b.c' k.missing d.cs on (omega arith) room₃ k.local_follows
            (omega arith) (as_far add d.local (sym at₃) k.with_local) in
        let more = length-append d.cs (e.c' ∷ []) in
        let next₁ = a.next in
        let next₂ = b.next in
        let next₃ = e.next in
        (
          stored fuel c e.c' a.w' b.w' e.w' d,
          stores fuel c d a.c' b.c' e.c' a.w' b.w' e.w' sound a.run b.run e.run,
          record {
            long = let l = length-append recv (c ∷ []) in omega arith;
            own = a.same ∙ k.own;
            window_follows = a.follows;
            remote_follows = b.follows;
            local_follows = e.follows;
            window_at = omega arith;
            remote_at = omega arith;
            local_at = omega arith;
            others = k.others ++ (a.c' ∷ []);
            missing = k.missing ++ (b.c' ∷ []);
            without_prior = as_far remove a.w' (omega arith) a.share;
            without_remote = as_far remove b.w' (omega arith) b.share;
            with_local = as_far add e.w' (omega arith) e.share;
          },
        )
      where
        as_far :
            (e : ℕ) (w : CodingWindow) {xs xs' : List CodedSymbol} {n m : ℕ}
            → n ≡ m
            → Share e n w.symbols xs xs'
            → Share e m w.symbols xs xs'
        as_far e w {xs = xs} {xs' = xs'} at s = subst (λ (t : ℕ). Share e t w.symbols xs xs') at s
