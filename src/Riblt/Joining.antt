-- ===== src/Riblt/Joining.antt =====
-- A recovered symbol joins a window of the decoder in crates/datboi-p2p/src/riblt.rs.
use datboi.Base.{ℕ, List, [], ◌∷◌, ◌++◌, map, some, length, ◌≡◌, refl, sym, ap, arith}
use datboi.Riblt.Defs.{CodedSymbol, HashedSymbol, RandomMapping, mapping, Absorbed}
use datboi.Riblt.Runs.{Runs}
use datboi.Riblt.Window.{CodingWindow, add_with_mapping}
use datboi.Riblt.Ready.{window}
use datboi.Riblt.Filling.{adds}
use datboi.Riblt.Exchange.{Sweeps-snoc, Sweeps-unsnoc, Absorbs}
use datboi.Riblt.Conserved.{Follows, Share}

mapped :
    (ss : List HashedSymbol) (t : HashedSymbol)
    → map mapping ss ++ (mapping t ∷ []) ≡ map mapping (ss ++ (t ∷ []))
mapped [] t = refl
mapped (s ∷ ss) t = ap (λ ms. mapping s ∷ ms) (mapped ss t)

module _ (step : ℕ → ℕ → ℕ) where
  -- A window to which a recovered symbol was added.
  pub record Joined (d : ℕ) (t : HashedSymbol) (m : RandomMapping) (w : CodingWindow) : Type 0 where
    pub w' : CodingWindow
    pub run : add_with_mapping t m w ≡ some w'
    pub symbols_are : w'.symbols ≡ w.symbols ++ (t ∷ [])
    pub same_at : w'.next_idx ≡ w.next_idx
    pub follows : Follows step d w'

  pub joins :
      (d : ℕ) (t : HashedSymbol) (w : CodingWindow) (cs : List CodedSymbol) (a : Absorbed)
      → Follows step d w
      → w.next_idx ≡ length cs
      → Absorbs step t d (mapping t) cs a
      → Joined d t a.mapping_state w
  joins d t w cs a f at k =
      let past = k.past in
      let (q, run, ready) =
        adds t a.mapping_state w.symbols w.mappings w.queue w.next_idx (omega arith) f.ready in
      record {
        w' = window (w.symbols ++ (t ∷ [])) (w.mappings ++ (a.mapping_state ∷ [])) q w.next_idx;
        run = run;
        symbols_are = refl;
        same_at = refl;
        follows = record {
          ready = ready;
          behind = λ start end out o h l p.
              let fr = f.ready in
              let (mid, before, last) =
                Sweeps-unsnoc step start end t d a.mapping_state w.symbols w.mappings out o fr.long
                  p in
              rw (sym (mapped w.symbols t)) (
                Sweeps-snoc step start end t d (mapping t) w.symbols (map mapping w.symbols) out mid
                  o (f.behind start end out mid h l before)
                  (k.behind start end mid o (omega arith) l last));
        };
      }

  pub Joined-Share :
      (d : ℕ) (t : HashedSymbol) (m : RandomMapping) (w : CodingWindow) (j : Joined d t m w) (n : ℕ)
      (out mid o : List CodedSymbol)
      → Share step d n w.symbols out mid
      → Runs step 0 n t d (mapping t) mid o
      → Share step d n j.w'.symbols out o
  Joined-Share d t m w j n out mid o s r = rw j.symbols_are (
      rw (sym (mapped w.symbols t))
        (Sweeps-snoc step 0 n t d (mapping t) w.symbols (map mapping w.symbols) out mid o s r))
