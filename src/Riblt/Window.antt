-- ===== src/Riblt/Window.antt =====
-- The mapping heap, `CodingWindow` and `Encoder` of crates/datboi-p2p/src/riblt.rs. An index that would
-- panic and fuel that runs out are `none`.
use datboi.Base.{
  ℕ, zero, suc, ◌+◌, ◌-◌, ◌*◌, ◌/◌, ◌%◌, ◌^◌, List, [], ◌∷◌, ◌++◌, Option, none, some, length,
  get_elem?, ltb, leb, ◌==◌, ◌&&◌, list_eq, ◌||◌, Bool, true, false, if◌then◌else◌,
}
use datboi.Riblt.Defs.{
  CodedSymbol, HashedSymbol, RandomMapping, apply, add, default, mapping, at_index, next_index,
  hashed,
}

pub record SymbolMapping : Type 0 where
  pub source_idx : ℕ
  pub coded_idx : ℕ

-- `q[i]`, for an index that is in range.
unfoldable pub entry : List SymbolMapping → ℕ → SymbolMapping
entry [] i = record { source_idx = 0; coded_idx = 0 }
entry (e ∷ q) zero = e
entry (e ∷ q) (suc i) = entry q i

abbrev pub coded : List SymbolMapping → ℕ → ℕ
coded q i = (entry q i).coded_idx

unfoldable pub swap : List SymbolMapping → ℕ → ℕ → List SymbolMapping
swap q i j = at_index j (λ _. entry q i) (at_index i (λ _. entry q j) q)

-- The child that `fix_head` compares with.
unfoldable pub lesser_child : List SymbolMapping → ℕ → ℕ
lesser_child q curr =
    let child = curr * 2 + 1 in
    let rc = child + 1 in
    if ltb rc (length q) && ltb (coded q rc) (coded q child) then rc else child

-- The loop of `fix_head` from `curr` on.
unfoldable pub fix_head : ℕ → ℕ → List SymbolMapping → Option (List SymbolMapping)
fix_head zero curr q = none
fix_head (suc fuel) curr q =
    let child = lesser_child q curr in
    let rest = fix_head fuel child (swap q curr child) in
    if leb (length q) (curr * 2 + 1)
    then some q
    else if leb (coded q curr) (coded q child)
    then some q
    else rest

-- The loop of `fix_tail` from `curr` on.
unfoldable pub fix_tail : ℕ → ℕ → List SymbolMapping → Option (List SymbolMapping)
fix_tail zero curr q = none
fix_tail (suc fuel) curr q =
    let parent = (curr - 1) / 2 in
    let rest = fix_tail fuel parent (swap q parent curr) in
    if curr == 0 then some q else if leb (coded q parent) (coded q curr) then some q else rest

pub record CodingWindow : Type 0 where
  pub symbols : List HashedSymbol
  pub mappings : List RandomMapping
  pub queue : List SymbolMapping
  pub next_idx : ℕ

abbrev pub no_window : CodingWindow
no_window = record { symbols = []; mappings = []; queue = []; next_idx = 0 }

-- `add_hashed_symbol_with_mapping`
unfoldable pub add_with_mapping : HashedSymbol → RandomMapping → CodingWindow → Option CodingWindow
add_with_mapping t m w =
    let pushed =
      w.queue ++ (record { source_idx = length w.symbols; coded_idx = m.last_index } ∷ []) in
    elim (fix_tail (length pushed) (length pushed - 1) pushed) [
      | none ↦ none
      | some q ↦ some (record w {
        symbols = w.symbols ++ (t ∷ []);
        mappings = w.mappings ++ (m ∷ []);
        queue = q;
      })
    ]

unfoldable pub add_hashed_symbol : HashedSymbol → CodingWindow → Option CodingWindow
add_hashed_symbol t w = add_with_mapping t (mapping t) w

-- The loop of `Encoder::new`.
unfoldable pub add_all : List HashedSymbol → CodingWindow → Option CodingWindow
add_all [] w = some w
add_all (s ∷ ss) w = elim (add_hashed_symbol s w) [ none ↦ none | some next ↦ add_all ss next ]

abbrev pub seen_before : List ℕ → List (List ℕ) → Bool
seen_before s [] = false
seen_before s (t ∷ seen) = list_eq s t || seen_before s seen

module _ (step : ℕ → ℕ → ℕ) where
  -- The body of the loop of `apply_window`, for the entry at the head of the queue: the mapping of its
  -- symbol moves on, and so does the entry.
  unfoldable pub advance : CodingWindow → SymbolMapping → Option (HashedSymbol × CodingWindow)
  advance w head = elim (get_elem? w.symbols head.source_idx) [
    | none ↦ none
    | some s ↦ elim (get_elem? w.mappings head.source_idx) [
      | none ↦ none
      | some m ↦
          let moved = next_index step m in
          let queue =
            at_index 0 (λ _. record { source_idx = head.source_idx; coded_idx = moved.last_index })
              w.queue in
          elim (fix_head (length queue) 0 queue) [
            | none ↦ none
            | some q ↦ some (
              s,
              record w {
                mappings = at_index head.source_idx (next_index step) w.mappings;
                queue = q;
              },
            )
          ]
    ]
  ]

  -- The loop of `apply_window`.
  unfoldable pub drain_index :
      ℕ → CodingWindow → CodedSymbol → ℕ → Option (CodedSymbol × CodingWindow)
  drain_index zero w cw direction = none
  drain_index (suc fuel) w cw direction = elim (get_elem? w.queue 0) [
    | none ↦ none
    | some head ↦ elim (if head.coded_idx == w.next_idx then true else false) [
      | false ↦ some (cw, w)
      | true ↦ elim (advance w head) [
        | none ↦ none
        | some (s, next) ↦ drain_index fuel next (apply cw s direction) direction
      ]
    ]
  ]

  unfoldable pub apply_window :
      ℕ → CodingWindow → CodedSymbol → ℕ → Option (CodedSymbol × CodingWindow)
  apply_window fuel w cw direction = elim w.queue [
    | [] ↦ some (cw, record w { next_idx = (w.next_idx + 1) % 2 ^ 64 })
    | head ∷ queue ↦ elim (drain_index fuel w cw direction) [
      | none ↦ none
      | some r ↦ some (r.0, record r.1 { next_idx = (w.next_idx + 1) % 2 ^ 64 })
    ]
  ]

  module _ (hash_symbol : List ℕ → ℕ) where
    -- The filter of `dedup_symbols` with the symbols seen so far.
    unfoldable pub dedup_from : List (List ℕ) → List (List ℕ) → List HashedSymbol
    dedup_from seen [] = []
    dedup_from seen (s ∷ rest) =
        let kept = hashed step hash_symbol s ∷ dedup_from (s ∷ seen) rest in
        let dropped = dedup_from seen rest in if seen_before s seen then dropped else kept

    unfoldable pub dedup_symbols : List (List ℕ) → List HashedSymbol
    dedup_symbols symbols = dedup_from [] symbols

    -- `Encoder::new`; an encoder is its window.
    unfoldable pub encoder : List (List ℕ) → Option CodingWindow
    encoder set = add_all (dedup_symbols set) no_window

  -- `produce_next_coded_symbol` at the width `n`.
  unfoldable pub produce_next_coded_symbol :
      ℕ → ℕ → CodingWindow → Option (CodedSymbol × CodingWindow)
  produce_next_coded_symbol fuel n w = apply_window fuel w (default n) add
