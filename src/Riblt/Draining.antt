-- ===== src/Riblt/Draining.antt =====
-- `apply_window` of crates/datboi-p2p/src/riblt.rs at the next index.
use datboi.Base.{
  ℕ, zero, suc, ◌+◌, ◌-◌, ◌*◌, ◌%◌, ◌^◌, ◌≤◌, ◌<◌, List, [], ◌∷◌, some, length, get_elem?, All,
  ◌==◌, ◌≡◌, refl, ◌∙◌, arith, ℕ_discrete, true, false,
}
use datboi.Riblt.Defs.{CodedSymbol, HashedSymbol, RandomMapping, apply, at_index, next_index}
use datboi.Riblt.Marks.{length-at_index}
use datboi.Riblt.Ending.{MovesOn}
use datboi.Riblt.Sweeps.{Sweeps, Sweeps-hit, Sweeps-miss, Sweeps-end}
use datboi.Riblt.Window.{
  CodingWindow, SymbolMapping, entry, fix_head, advance, drain_index, apply_window,
}
use datboi.Riblt.Ready.{Ready, window, head_first, head_moves, at_next, all_at, All-get}
use datboi.Riblt.Heap.{entries_of}
use datboi.Riblt.Rounds.{all_rounds, all_rounds-le, all_fewer}

module _ (step : ℕ → ℕ → ℕ) where
  get_total :
      {A : Type 0} (xs : List A) (i : ℕ) → i < length xs → (x : A) × (get_elem? xs i ≡ some x)
  get_total [] i h = absurd (omega arith)
  get_total (x ∷ xs) zero h = (x, refl)
  get_total (x ∷ xs) (suc i) h = get_total xs i (omega arith)

  get-inside : {A : Type 0} (xs : List A) (i : ℕ) (x : A) → get_elem? xs i ≡ some x → i < length xs
  get-inside [] i x e = absurd (cc e)
  get-inside (y ∷ xs) zero x e = omega arith
  get-inside (y ∷ xs) (suc i) x e = let l = get-inside xs i x e in omega arith

  -- What the window at the index `k` leaves when it has made its coded symbol: the sum that the
  -- relation has, a window for the next index, and the same coded symbols behind it.
  pub record Drained (ss : List HashedSymbol) (ms : List RandomMapping) (k d : ℕ)
      (c c' : CodedSymbol) (ms' : List RandomMapping) (q' : List SymbolMapping) : Type 0 where
    pub ready : Ready ss ms' q' (suc k)
    pub made : Sweeps step k (suc k) d ss ms (c ∷ []) (c' ∷ [])
    pub same_length : length ms' ≡ length ms
    pub behind :
        (start end : ℕ) (out o : List CodedSymbol)
        → k < start
        → start ≤ end
        → Sweeps step start end d ss ms' out o
        → Sweeps step start end d ss ms out o

  -- A window whose head is at a later index is for the next one.
  ended :
      (ss : List HashedSymbol) (ms : List RandomMapping) (q : List SymbolMapping) (k d : ℕ)
      (c : CodedSymbol)
      → Ready ss ms q k
      → ((i : ℕ) (m : RandomMapping) → get_elem? ms i ≡ some m → k < m.last_index)
      → Drained ss ms k d c c ms q
  ended ss ms q k d c w after = record {
    ready = record {
      long = w.long;
      ordered = w.ordered;
      points = w.points;
      once = w.once;
      later = ahead;
    };
    made = Sweeps-end step d k (suc k) ss ms (c ∷ []) w.long ahead;
    same_length = refl;
    behind = λ start end out o h l p. p;
  }
    where
      ahead : All (λ (m : RandomMapping). suc k ≤ m.last_index) ms
      ahead =
          all_at (λ (m : RandomMapping). suc k ≤ m.last_index) ms
            (λ i m e. let h = after i m e in omega arith)

  -- The symbol at the head is applied first.
  continued :
      (ss : List HashedSymbol) (ms ms' : List RandomMapping) (q' : List SymbolMapping) (k d src : ℕ)
      (c c' : CodedSymbol) (s : HashedSymbol) (m : RandomMapping)
      → get_elem? ss src ≡ some s
      → get_elem? ms src ≡ some m
      → m.last_index ≡ k
      → Drained ss (at_index src (next_index step) ms) k d (apply c s d) c' ms' q'
      → Drained ss ms k d c c' ms' q'
  unfolding at_index
  continued ss ms ms' q' k d src c c' s m f g at_k r = record {
    ready = r.ready;
    made =
        Sweeps-hit step d k (suc k) src s m ss ms (c ∷ []) (c' ∷ []) f g (omega arith) (omega arith)
          (let first : m.last_index - k ≡ 0 = omega arith in rw first r.made);
    same_length = r.same_length ∙ length-at_index src (next_index step) ms;
    behind = λ start end out o h l p.
        Sweeps-miss step d start end src m ss ms out o g (omega arith) (omega arith)
          (r.behind start end out o h l p);
  }

  has_entry : (s : ℕ) (q : List SymbolMapping) → 0 < entries_of s q → 0 < length q
  has_entry s [] h = absurd (omega arith)
  has_entry s (e ∷ q) h = omega arith

  advances :
      (ss : List HashedSymbol) (ms : List RandomMapping) (e : SymbolMapping)
      (q r : List SymbolMapping) (k : ℕ) (s : HashedSymbol) (m : RandomMapping)
      → get_elem? ss e.source_idx ≡ some s
      → get_elem? ms e.source_idx ≡ some m
      → fix_head (suc (length q)) 0 (at_next step e m ∷ q) ≡ some r
      → advance step (window ss ms (e ∷ q) k) e
        ≡ some (s, window ss (at_index e.source_idx (next_index step) ms) r k)
  unfolding advance at_index
  advances ss ms e q r k s m f g h = rw (f, g, h) refl

  module _ (fuel : ℕ) (ss : List HashedSymbol) (ms : List RandomMapping) (e : SymbolMapping)
      (q : List SymbolMapping) (k d : ℕ) (c : CodedSymbol) where
    stays :
        (e.coded_idx == k) ≡ false
        → drain_index step (suc fuel) (window ss ms (e ∷ q) k) c d
          ≡ some (c, window ss ms (e ∷ q) k)
    unfolding drain_index
    stays g = rw (g, drain_index) refl

    goes_on :
        (next : CodingWindow) (s : HashedSymbol)
        → (e.coded_idx == k) ≡ true
        → advance step (window ss ms (e ∷ q) k) e ≡ some (s, next)
        → drain_index step (suc fuel) (window ss ms (e ∷ q) k) c d
          ≡ drain_index step fuel next (apply c s d) d
    unfolding drain_index
    goes_on next s g h = rw (g, h, drain_index) refl

    turns :
        (r : CodedSymbol × CodingWindow)
        → drain_index step fuel (window ss ms (e ∷ q) k) c d ≡ some r
        → apply_window step fuel (window ss ms (e ∷ q) k) c d
          ≡ some (r.0, record r.1 { next_idx = (k + 1) % 2 ^ 64 })
    unfolding apply_window
    turns r g = rw (g, apply_window) refl

  drains :
      (fuel : ℕ) (ss : List HashedSymbol) (ms : List RandomMapping) (q : List SymbolMapping)
      (k d : ℕ) (c : CodedSymbol)
      → MovesOn step
      → k + 1 < 2 ^ 64
      → all_rounds step k ms < fuel
      → 0 < length q
      → Ready ss ms q k
      → (c' : CodedSymbol) × (ms' : List RandomMapping) × (q' : List SymbolMapping) × (drain_index
            step fuel
            (window ss ms q k)
            c
            d
          ≡ some (c', window ss ms' q' k))
        × Drained ss ms k d c c' ms' q'
  unfolding entry
  drains zero ss ms q k d c on small enough some_left w = absurd (omega arith)
  drains (suc fuel) ss ms [] k d c on small enough some_left w = absurd (omega arith)
  drains (suc fuel) ss ms (e ∷ q) k d c on small enough some_left w =
      let (m, g, index) = w.points.0 in
      elim (ℕ_discrete e.coded_idx k) [
        | yes here ↦
            let src = e.source_idx in
            let moved = at_index src (next_index step) ms in
            let below = get-inside ms src m g in
            let (s, f) = get_total ss src (let long = w.long in omega arith) in
            let at_k : m.last_index ≡ k = omega arith in
            let (r, fixed, next) = head_moves step ss ms e q k m (omega arith) w g in
            let one = next.once src (omega (arith, length-at_index src (next_index step) ms)) in
            let less = all_fewer step k src m ms on small g at_k in
            let (c', ms', q', run, rest) =
              drains fuel ss moved r k d (apply c s d) on small (omega arith)
                (has_entry src r (omega arith)) next in
            let turn =
              goes_on fuel ss ms e q k d c (window ss moved r k) s (ground arith)
                (advances ss ms e q r k s m f g fixed) in
            (c', ms', q', turn ∙ run, continued ss ms ms' q' k d src c c' s m f g at_k rest)
        | no past ↦
            let from =
              All-get (λ (x : RandomMapping). k ≤ x.last_index) ms e.source_idx m w.later g in
            (
              c,
              ms,
              e ∷ q,
              stays fuel ss ms e q k d c (ground arith),
              ended ss ms (e ∷ q) k d c w
                  (λ i m' g'. let least = head_first ss ms (e ∷ q) k i m' w g' in omega arith),
            )
      ]

  -- `apply_window` makes the coded symbol of its index.
  pub applies :
      (fuel : ℕ) (ss : List HashedSymbol) (ms : List RandomMapping) (q : List SymbolMapping)
      (k d : ℕ) (c : CodedSymbol)
      → MovesOn step
      → k + 1 < 2 ^ 64
      → 2 * length ms < fuel
      → Ready ss ms q k
      → (c' : CodedSymbol) × (ms' : List RandomMapping) × (q' : List SymbolMapping) × (apply_window
            step fuel
            (window ss ms q k)
            c
            d
          ≡ some (c', window ss ms' q' (suc k)))
        × Drained ss ms k d c c' ms' q'
  unfolding apply_window
  applies fuel ss ms [] k d c on small enough w =
      let next : (k + 1) % 2 ^ 64 ≡ suc k = omega arith in
      (
        c,
        ms,
        [],
        rw next refl,
        ended ss ms [] k d c w
            (λ i m g. let one = w.once i (get-inside ms i m g) in absurd (omega arith)),
      )
  applies fuel ss ms (e ∷ q) k d c on small enough w =
      let few = all_rounds-le step k ms in
      let (c', ms', q', run, rest) =
        drains fuel ss ms (e ∷ q) k d c on small (omega arith) (omega arith) w in
      let next : (k + 1) % 2 ^ 64 ≡ suc k = omega arith in
      (c', ms', q', turns fuel ss ms e q k d c (c', window ss ms' q' k) run ∙ rw next refl, rest)
