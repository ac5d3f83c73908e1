-- ===== src/Cbor/Codec.antt =====
-- `encode` and `decode` of crates/datboi-core/src/cbor.rs together.
use datboi.Base.{
  ℕ, suc, ◌+◌, ◌≤◌, max, List, [], ◌∷◌, ◌++◌, length, IsBytes, ◌≡◌, ◌↔◌, refl, sym, ap, ◌∙◌, arith,
  ok, err, Returns, returns, fails, Returns-ok, Returns-err, Returns-and_then, Returns-if, ◌==◌,
  ==_iff, length-append, append-nil, leb, Bool-cases, inl, inr, true,
}
use datboi.Cbor.Value.{
  Value, Items, Entries, uint, bytes, text, array, map, nil, cons, end, entry, DecodeError,
  trailing, max_depth, error_offset,
}
use datboi.Cbor.Encode.{encode, insert_by_key, sort_by_key}
use datboi.Cbor.Decode.{decode}
use datboi.Cbor.Canonical.{emit, IsCanonical, levels, levels_items, levels_entries}
use datboi.Cbor.RoundTrip.{value-emit, decode-emit}
use datboi.Cbor.Accepts.{value-Sound}
use datboi.Cbor.Normal.{
  encode-emit, normalize, normalize_items, normalize_entries, from_list, IsTyped, encode-normalize,
}

abbrev Decoded : List ℕ → Value → Type 0
Decoded bs v = IsCanonical v × (levels v ≤ max_depth + 1) × (bs ≡ emit v)

decode-Returns :
    (bs : List ℕ) → IsBytes bs → Returns (λ e. error_offset e ≤ length bs) (Decoded bs) (decode bs)
unfolding decode
decode-Returns bs c =
    Returns-and_then (value-Sound (length bs) (max_depth + 1) 0 bs (omega arith) c) λ (v, p, r) t.
      Returns-if (p == length bs)
        (λ e.
          returns {a = v} (t.holds.0, t.holds.1, t.split ∙ at_end r v (all_read p r t.within e)))
        (λ _. fails (omega (arith, t.within)))
  where
    all_read : (p : ℕ) (r : List ℕ) → p + length r ≡ length bs → (p == length bs) ≡ true → r ≡ []
    all_read p [] h e = refl
    all_read p (x ∷ r) h e = absurd (omega (arith, (==_iff p (length bs)).0 e))

    at_end : (r : List ℕ) (v : Value) → r ≡ [] → emit v ++ r ≡ emit v
    at_end r v e = rw (e, append-nil)

-- On a list of bytes, `decode` answers with a value exactly when the value is canonical, at most
-- 128 levels stand inside its outermost one, and the bytes are its print.
pub decode-eq-ok_iff :
    (bs : List ℕ) (v : Value)
    → IsBytes bs
    → (decode bs ≡ ok v) ↔ (IsCanonical v × (levels v ≤ max_depth + 1) × (bs ≡ emit v))
decode-eq-ok_iff bs v c =
    ((λ e. Returns-ok (decode-Returns bs c) e), (λ (hc, hl, e). rw e (decode-emit v hc hl)))

-- If a list of bytes decodes to a value, the value encodes to those bytes.
pub encode-decode : (bs : List ℕ) (v : Value) → IsBytes bs → decode bs ≡ ok v → encode v ≡ ok bs
encode-decode bs v c e =
    let (hc, hl, p) = (decode-eq-ok_iff bs v c).0 e in encode-emit v hc ∙ ap ok (sym p)

-- On a list of bytes, an error of `decode` is found at an offset inside the input or at its end.
pub decode-error_offset :
    (bs : List ℕ) (e : DecodeError) → IsBytes bs → decode bs ≡ err e → error_offset e ≤ length bs
decode-error_offset bs e c h = Returns-err (decode-Returns bs c) h

-- If a list of bytes decodes, then with a byte and any others behind it, it is refused for
-- trailing bytes at the offset where those begin.
pub decode_trailing :
    (bs : List ℕ) (v : Value) (b : ℕ) (more : List ℕ)
    → IsBytes bs
    → decode bs ≡ ok v
    → decode (bs ++ (b ∷ more)) ≡ err (trailing (length bs))
decode_trailing bs v b more c e =
    let (hc, hl, p) = (decode-eq-ok_iff bs v c).0 e in rw p (behind v b more hc hl)
  where
    behind :
        (v : Value) (b : ℕ) (more : List ℕ)
        → IsCanonical v
        → levels v ≤ max_depth + 1
        → decode (emit v ++ (b ∷ more)) ≡ err (trailing (length (emit v)))
    behind v b more hc hl =
        unfold decode in
        rw (value-emit v (max_depth + 1) 0 (b ∷ more) hc hl)
          (ground (arith, length-append (emit v) (b ∷ more)))

-- Sorting the entries leaves the nesting as it is.
levels_list : List (ℕ × Value) → ℕ
levels_list [] = 0
levels_list ((k, v) ∷ l) = max (levels v) (levels_list l)

levels-from_list : (l : List (ℕ × Value)) → levels_entries (from_list l) ≡ levels_list l
unfolding levels from_list levels_list
levels-from_list [] = refl
levels-from_list ((k, v) ∷ l) = rw (levels-from_list l)

levels-insert :
    (k : ℕ) (v : Value) (l : List (ℕ × Value))
    → levels_list (insert_by_key k v l) ≡ max (levels v) (levels_list l)
unfolding levels_list insert_by_key
levels-insert k v [] = refl
levels-insert k v ((j, w) ∷ l) = elim (Bool-cases (leb k j)) [
  | inl e ↦ rw e
  | inr e ↦ rw e (omega (arith, levels-insert k v l))
]

levels-sort : (l : List (ℕ × Value)) → levels_list (sort_by_key l) ≡ levels_list l
unfolding levels_list sort_by_key
levels-sort [] = refl
levels-sort ((k, v) ∷ l) = levels-insert k v (sort_by_key l) ∙ rw (levels-sort l)

mutual
  unfolding levels normalize levels_list

  levels-normalize : (v : Value) → levels (normalize v) ≡ levels v
  levels-normalize (uint n) = refl
  levels-normalize (bytes b) = refl
  levels-normalize (text t) = refl
  levels-normalize (array vs) = ap suc (levels_items-normalize vs)
  levels-normalize (map es) = ap suc (
      levels-from_list (sort_by_key (normalize_entries es))
      ∙ levels-sort (normalize_entries es)
      ∙ levels_entries-normalize es)

  levels_items-normalize : (vs : Items) → levels_items (normalize_items vs) ≡ levels_items vs
  levels_items-normalize nil = refl
  levels_items-normalize (cons v vs) = rw (levels-normalize v, levels_items-normalize vs)

  levels_entries-normalize : (es : Entries) → levels_list (normalize_entries es) ≡ levels_entries es
  levels_entries-normalize end = refl
  levels_entries-normalize (entry k v es) = rw (levels-normalize v, levels_entries-normalize es)

-- If a value of 64-bit numbers, lengths and keys, of bytes and of UTF-8 texts, with at most 128
-- levels inside its outermost one, encodes to some bytes, these decode to the value with the
-- entries of every map sorted by their keys.
pub decode-encode :
    (v : Value) (bs : List ℕ)
    → IsTyped v
    → levels v ≤ max_depth + 1
    → encode v ≡ ok bs
    → decode bs ≡ ok (normalize v)
decode-encode v bs t h e =
    let (c, p) = encode-normalize v t bs e in
    rw (← p) (decode-emit (normalize v) c (rw (levels-normalize v) h))
