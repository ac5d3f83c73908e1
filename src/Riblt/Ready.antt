-- ===== src/Riblt/Ready.antt =====
-- The invariant of a coding window of crates/datboi-p2p/src/riblt.rs: its heap has one entry for each
-- symbol, in order, with the index that the symbol's mapping stands at.
use datboi.Base.{
  ℕ, zero, suc, ◌^◌, ◌≤◌, ◌<◌, List, [], ◌∷◌, some, length, get_elem?, All, ◌≡◌, ◌≢◌, refl, sym, ap,
  ◌∙◌, subst, arith, ℕ_discrete,
}
use datboi.Riblt.Defs.{HashedSymbol, RandomMapping, at_index, next_index}
use datboi.Riblt.Marks.{length-at_index}
use datboi.Riblt.Window.{SymbolMapping, entry, coded, fix_head, CodingWindow}
use datboi.Riblt.Heap.{parent, IsHeap, entries_of, All-entry}
use datboi.Riblt.SiftDown.{fix_head-IsHeap}

-- The entry is for a symbol whose mapping stands at its index.
abbrev pub Points : List RandomMapping → SymbolMapping → Type 0
Points ms e =
    (m : RandomMapping) × (get_elem? ms e.source_idx ≡ some m) × (e.coded_idx ≡ m.last_index)

-- A window with these symbols, mappings and queue may make the coded symbol at the index `k`.
pub record Ready (ss : List HashedSymbol) (ms : List RandomMapping) (q : List SymbolMapping) (k : ℕ)
    : Type 0 where
  pub long : length ss ≡ length ms
  pub ordered : IsHeap q
  pub points : All (Points ms) q
  pub once : (s : ℕ) → s < length ms → entries_of s q ≡ 1
  pub later : All (λ (m : RandomMapping). k ≤ m.last_index) ms

abbrev pub window : List HashedSymbol → List RandomMapping → List SymbolMapping → ℕ → CodingWindow
window ss ms q k = record { symbols = ss; mappings = ms; queue = q; next_idx = k }

-- The head of the queue is first.
pub root_least : (q : List SymbolMapping) (c : ℕ) → IsHeap q → c < length q → coded q 0 ≤ coded q c
root_least q c h l = go (suc c) c (omega arith) l
  where
    go : (fuel c : ℕ) → c < fuel → c < length q → coded q 0 ≤ coded q c
    go zero c enough l = absurd (omega arith)
    go (suc fuel) zero enough l = omega arith
    go (suc fuel) (suc c) enough l =
        let a = go fuel (parent (suc c)) (omega arith) (omega arith) in
        let b = h (suc c) (omega arith) l in omega arith

found :
    (s : ℕ) (q : List SymbolMapping)
    → 0 < entries_of s q
    → (c : ℕ) × (c < length q) × ((entry q c).source_idx ≡ s)
unfolding entry
found s [] h = absurd (omega arith)
found s (e ∷ q) h = elim (ℕ_discrete e.source_idx s) [
  | yes here ↦ (0, omega arith, here)
  | no other ↦ let (c, l, k) = found s q (ground arith) in (suc c, omega arith, k)
]

pub all_at :
    {A : Type 0} (P : A → Type 0) (xs : List A)
    → ((i : ℕ) (x : A) → get_elem? xs i ≡ some x → P x)
    → All P xs
all_at P [] h = tt
all_at P (x ∷ xs) h = (h 0 x refl, all_at P xs (λ i y e. h (suc i) y e))

pub get-below : {A : Type 0} (xs : List A) (i : ℕ) (x : A) → get_elem? xs i ≡ some x → i < length xs
get-below [] i x e = absurd (cc e)
get-below (y ∷ xs) zero x e = omega arith
get-below (y ∷ xs) (suc i) x e = let l = get-below xs i x e in omega arith

pub All-get :
    {A : Type 0} (P : A → Type 0) (xs : List A) (i : ℕ) (x : A)
    → All P xs
    → get_elem? xs i ≡ some x
    → P x
All-get P [] i x h e = absurd (cc e)
All-get P (y ∷ xs) zero x h e = subst P (cc e) h.0
All-get P (y ∷ xs) (suc i) x h e = All-get P xs i x h.1 e

-- No mapping stands in front of the head of the queue.
pub head_first :
    (ss : List HashedSymbol) (ms : List RandomMapping) (q : List SymbolMapping) (k i : ℕ)
    (m : RandomMapping)
    → Ready ss ms q k
    → get_elem? ms i ≡ some m
    → coded q 0 ≤ m.last_index
head_first ss ms q k i m r e =
    let one = r.once i (get-below ms i m e) in
    let (c, l, here) = found i q (omega arith) in
    let (m', e', same) = All-entry (Points ms) q c l r.points in
    let least = root_least q c r.ordered l in
    let is_m : some m' ≡ some m = sym e' ∙ ap (get_elem? ms) here ∙ e in
    let as_m : m' ≡ m = cc is_m in
    let index : m'.last_index ≡ m.last_index = ap (λ (x : RandomMapping). x.last_index) as_m in
    omega arith

get-here :
    {A : Type 0} (f : A → A) (xs : List A) (i : ℕ) (x : A)
    → get_elem? xs i ≡ some x
    → get_elem? (at_index i f xs) i ≡ some (f x)
unfolding at_index
get-here f [] i x e = absurd (cc e)
get-here f (y ∷ xs) zero x e = let same : y ≡ x = cc e in rw same refl
get-here f (y ∷ xs) (suc i) x e = get-here f xs i x e

get-other :
    {A : Type 0} (f : A → A) (xs : List A) (i j : ℕ)
    → i ≢ j
    → get_elem? (at_index i f xs) j ≡ get_elem? xs j
unfolding at_index
get-other f [] i j n = refl
get-other f (y ∷ xs) zero zero n = absurd (n refl)
get-other f (y ∷ xs) zero (suc j) n = refl
get-other f (y ∷ xs) (suc i) zero n = refl
get-other f (y ∷ xs) (suc i) (suc j) n = get-other f xs i j (omega arith)

All-at_index :
    {A : Type 0} (P : A → Type 0) (f : A → A) (i : ℕ) (xs : List A)
    → ((x : A) → P x → P (f x))
    → All P xs
    → All P (at_index i f xs)
unfolding at_index
All-at_index P f i [] g h = tt
All-at_index P f zero (x ∷ xs) g h = (g x h.0, h.1)
All-at_index P f (suc i) (x ∷ xs) g h = (h.0, All-at_index P f i xs g h.1)

-- A mapping that no entry is for may change.
others :
    (f : RandomMapping → RandomMapping) (ms : List RandomMapping) (src : ℕ) (q : List SymbolMapping)
    → entries_of src q ≡ 0
    → All (Points ms) q
    → All (Points (at_index src f ms)) q
others f ms src [] z h = tt
others f ms src (e ∷ q) z h = elim (ℕ_discrete e.source_idx src) [
  | yes same ↦ absurd (ground arith)
  | no differs ↦
      let (m, g, i) = h.0 in
      (
        (m, get-other f ms src e.source_idx (omega arith) ∙ g, i),
        others f ms src q (ground arith) h.1,
      )
]

coded_behind :
    (t e : SymbolMapping) (q : List SymbolMapping) (c : ℕ)
    → 0 < c
    → coded (t ∷ q) c ≡ coded (e ∷ q) c
unfolding entry
coded_behind t e q zero p = absurd (omega arith)
coded_behind t e q (suc c) p = refl

module _ (step : ℕ → ℕ → ℕ) where
  index_grows :
      (m : RandomMapping) (k : ℕ)
      → k < 2 ^ 64
      → k ≤ m.last_index
      → k ≤ (next_index step m).last_index
  unfolding next_index
  index_grows m k l h = omega arith

  abbrev pub at_next : SymbolMapping → RandomMapping → SymbolMapping
  at_next e m = record { source_idx = e.source_idx; coded_idx = (next_index step m).last_index }

  -- The mapping of the symbol at the head moves on, and the heap is put in order.
  pub head_moves :
      (ss : List HashedSymbol) (ms : List RandomMapping) (e : SymbolMapping)
      (q : List SymbolMapping) (k : ℕ) (m : RandomMapping)
      → k < 2 ^ 64
      → Ready ss ms (e ∷ q) k
      → get_elem? ms e.source_idx ≡ some m
      → (r : List SymbolMapping) × (fix_head (suc (length q)) 0 (at_next e m ∷ q) ≡ some r)
        × Ready ss (at_index e.source_idx (next_index step) ms) r k
  head_moves ss ms e q k m small w g =
      let src = e.source_idx in
      let top : SymbolMapping = at_next e m in
      let long = length-at_index src (next_index step) ms in
      let (r, f, ordered, moved) = fix_head-IsHeap (top ∷ q) (omega arith) edges in
      let alone : entries_of src q ≡ 0 =
        let one = w.once src (get-below ms src m g) in ground arith in
      (
        r,
        f,
        record {
          long = w.long ∙ sym long;
          ordered = ordered;
          points = moved.every (Points (at_index src (next_index step) ms)) (
            (next_index step m, get-here (next_index step) ms src m g, refl),
            others (next_index step) ms src q alone w.points.1,
          );
          once = λ s l. moved.entries s ∙ w.once s (omega arith);
          later =
              All-at_index (λ (m : RandomMapping). k ≤ m.last_index) (next_index step) src ms
                (λ x h. index_grows x k small h) w.later;
        },
      )
    where
      edges :
          (c : ℕ)
          → 0 < c
          → c < suc (length q)
          → parent c ≢ 0
          → coded (at_next e m ∷ q) (parent c) ≤ coded (at_next e m ∷ q) c
      edges c p l n =
          let a = coded_behind (at_next e m) e q c p in
          let b = coded_behind (at_next e m) e q (parent c) (omega arith) in
          let h = w.ordered c p l in rw (a, b) h
