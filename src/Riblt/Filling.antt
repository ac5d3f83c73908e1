-- ===== src/Riblt/Filling.antt =====
-- `add_hashed_symbol` and `Encoder::new` of crates/datboi-p2p/src/riblt.rs fill a window.
use datboi.Base.{
  ℕ, zero, suc, ◌+◌, ◌≤◌, List, [], ◌∷◌, ◌++◌, map, some, length, get_elem?, All, All-append,
  length-append, append_assoc, append-nil, ◌==◌, if◌then◌else◌, ◌≡◌, refl, ◌∙◌, arith, ℕ_discrete,
}
use datboi.Riblt.Defs.{HashedSymbol, RandomMapping, mapping}
use datboi.Riblt.Window.{
  SymbolMapping, add_with_mapping, add_hashed_symbol, add_all, encoder, dedup_symbols,
}
use datboi.Riblt.Heap.{entries_of}
use datboi.Riblt.SiftUp.{fix_tail-IsHeap}
use datboi.Riblt.Ready.{Points, Ready, window, get-below}

get-snoc :
    {A : Type 0} (xs : List A) (x y : A) (i : ℕ)
    → get_elem? xs i ≡ some y
    → get_elem? (xs ++ (x ∷ [])) i ≡ some y
get-snoc [] x y i e = absurd (cc e)
get-snoc (z ∷ xs) x y zero e = e
get-snoc (z ∷ xs) x y (suc i) e = get-snoc xs x y i e

get-last :
    {A : Type 0} (xs : List A) (x : A) (i : ℕ)
    → i ≡ length xs
    → get_elem? (xs ++ (x ∷ [])) i ≡ some x
get-last [] x i e = rw e refl
get-last (z ∷ xs) x zero e = absurd (omega arith)
get-last (z ∷ xs) x (suc i) e = get-last xs x i (omega arith)

more_points :
    (ms : List RandomMapping) (m : RandomMapping) (q : List SymbolMapping)
    → All (Points ms) q
    → All (Points (ms ++ (m ∷ []))) q
more_points ms m [] h = tt
more_points ms m (e ∷ q) h =
    let (x, g, i) = h.0 in ((x, get-snoc ms m x e.source_idx g, i), more_points ms m q h.1)

entries_of-snoc :
    (s : ℕ) (q : List SymbolMapping) (e : SymbolMapping)
    → entries_of s (q ++ (e ∷ [])) ≡ entries_of s q + (if e.source_idx == s then 1 else 0)
entries_of-snoc s [] e = omega arith
entries_of-snoc s (x ∷ q) e = let ih = entries_of-snoc s q e in omega arith

not_yet :
    (s : ℕ) (ms : List RandomMapping) (q : List SymbolMapping)
    → length ms ≤ s
    → All (Points ms) q
    → entries_of s q ≡ 0
not_yet s ms [] l h = refl
not_yet s ms (e ∷ q) l h =
    let (m, g, i) = h.0 in
    let below = get-below ms e.source_idx m g in let ih = not_yet s ms q l h.1 in ground arith

-- A symbol with a mapping that is not behind is added.
pub adds :
    (t : HashedSymbol) (m : RandomMapping) (ss : List HashedSymbol) (ms : List RandomMapping)
    (q : List SymbolMapping) (k : ℕ)
    → k ≤ m.last_index
    → Ready ss ms q k
    → (r : List SymbolMapping) × (add_with_mapping t m (window ss ms q k)
        ≡ some (window (ss ++ (t ∷ [])) (ms ++ (m ∷ [])) r k))
      × Ready (ss ++ (t ∷ [])) (ms ++ (m ∷ [])) r k
unfolding add_with_mapping
adds t m ss ms q k ahead w =
    let e : SymbolMapping = record { source_idx = length ss; coded_idx = m.last_index } in
    let (r, f, ordered, moved) = fix_tail-IsHeap q e w.ordered in
    let long = w.long in
    (
      r,
      rw (f, add_with_mapping) refl,
      record {
        long =
            let a = length-append ss (t ∷ []) in let b = length-append ms (m ∷ []) in omega arith;
        ordered = ordered;
        points = moved.every (Points (ms ++ (m ∷ []))) (
            All-append (Points (ms ++ (m ∷ []))) q (e ∷ []) (more_points ms m q w.points)
              ((m, get-last ms m (length ss) w.long, refl), tt));
        once = λ s l.
            let a = entries_of-snoc s q e in
            let b = length-append ms (m ∷ []) in
            moved.entries s ∙ elim (ℕ_discrete s (length ms)) [
              | yes here ↦ let c = not_yet s ms q (omega arith) w.points in ground arith
              | no other ↦ let c = w.once s (omega arith) in ground arith
            ];
        later =
            All-append (λ (m : RandomMapping). k ≤ m.last_index) ms (m ∷ []) w.later (ahead, tt);
      },
    )

-- The symbols of a list are added in their order, each with its mapping at the beginning.
pub add_all_lem :
    (ts ss : List HashedSymbol) (ms : List RandomMapping) (q : List SymbolMapping)
    → Ready ss ms q 0
    → (r : List SymbolMapping) × (add_all ts (window ss ms q 0)
        ≡ some (window (ss ++ ts) (ms ++ map mapping ts) r 0))
      × Ready (ss ++ ts) (ms ++ map mapping ts) r 0
unfolding add_all add_hashed_symbol
add_all_lem [] ss ms q w =
    (q, rw (append-nil ss, append-nil ms) refl, rw (append-nil ss, append-nil ms) w)
add_all_lem (t ∷ ts) ss ms q w =
    let (p, f, next) = adds t (mapping t) ss ms q 0 (omega arith) w in
    let (r, g, full) = add_all_lem ts (ss ++ (t ∷ [])) (ms ++ (mapping t ∷ [])) p next in
    let a = append_assoc ss (t ∷ []) ts in
    let b = append_assoc ms (mapping t ∷ []) (map mapping ts) in
    (r, rw (f, add_all) (g ∙ rw (a, b) refl), rw (a, b) at full)

pub empty_window : Ready [] [] [] 0
empty_window = record {
  long = refl;
  ordered = λ c p l. absurd (omega arith);
  points = tt;
  once = λ s l. absurd (omega arith);
  later = tt;
}

-- A new encoder's window has the symbols of the set and their mappings at the beginning.
pub encoder-Ready :
    (step : ℕ → ℕ → ℕ) (hash_symbol : List ℕ → ℕ) (set : List (List ℕ))
    → let ss = dedup_symbols step hash_symbol set in
      (q : List SymbolMapping) × (encoder step hash_symbol set
        ≡ some (window ss (map mapping ss) q 0))
      × Ready ss (map mapping ss) q 0
unfolding encoder
encoder-Ready step hash_symbol set =
    add_all_lem (dedup_symbols step hash_symbol set) [] [] [] empty_window
