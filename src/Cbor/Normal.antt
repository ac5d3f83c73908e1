-- ===== src/Cbor/Normal.antt =====
-- What the encoder of crates/datboi-core/src/cbor.rs makes of any value: the print of the value
-- with every map sorted.
use datboi.Base.{
  ℕ, suc, Option, none, some, List, [], ◌∷◌, ◌++◌, length, IsBytes, IsU64, ◌≡◌, refl, sym, ap, ◌∙◌,
  ok, and_then-eq-ok, Option-cases, inl, inr, Bool-cases, leb,
}
use datboi.Utf8.{IsUtf8}
use datboi.Cbor.Value.{
  Value, Items, Entries, uint, bytes, text, array, map, nil, cons, end, entry, length_items,
  length_entries,
}
use datboi.Cbor.Encode.{
  put_head, insert_by_key, sort_by_key, repeated_key, Encoded, put_entries, put_map, encode,
  encode_items, encode_entries,
}
use datboi.Cbor.Canonical.{emit, emit_items, emit_entries, IsCanonical, AllCanonical, Ascends}
use datboi.Cbor.Sorting.{
  Ascending, sort-Ascending, repeated_key-Ascending, sort-NonDecreasing, NonDecreasing-Ascending,
  length-sort,
}

Ascends-Ascending :
    (prev : Option ℕ) (es : Entries) → Ascends prev es → Ascending prev (encode_entries es)
unfolding encode IsCanonical
Ascends-Ascending prev end h = tt
Ascends-Ascending prev (entry k v es) (hk, ha, hv, hs) = (ha, Ascends-Ascending (some k) es hs)

length-encode_entries : (es : Entries) → length (encode_entries es) ≡ length_entries es
unfolding encode
length-encode_entries end = refl
length-encode_entries (entry k v es) = ap suc (length-encode_entries es)

put_map_lem :
    (l : List (ℕ × Encoded)) {body : List ℕ}
    → repeated_key l ≡ none
    → put_entries l ≡ ok body
    → put_map l ≡ ok (put_head 5 (length l) ++ body)
unfolding put_map
put_map_lem l e e' = rw (e, put_map, e')

mutual
  unfolding encode emit IsCanonical put_entries

  encode-canonical : (v : Value) → IsCanonical v → encode v ≡ ok (emit v)
  encode-canonical (uint n) c = refl
  encode-canonical (bytes b) c = refl
  encode-canonical (text t) c = refl
  encode-canonical (array vs) c = rw (encode_items-canonical vs c.1)
  encode-canonical (map es) c =
      let a = Ascends-Ascending none es c.1 in
      rw (sort-Ascending none (encode_entries es) a) (
        put_map_lem (encode_entries es) (repeated_key-Ascending none (encode_entries es) a)
          (encode_entries-canonical none es c.1)
        ∙ rw (length-encode_entries es))

  encode_items-canonical : (vs : Items) → AllCanonical vs → encode_items vs ≡ ok (emit_items vs)
  encode_items-canonical nil c = refl
  encode_items-canonical (cons v vs) c = rw (encode-canonical v c.0, encode_items-canonical vs c.1)

  encode_entries-canonical :
      (prev : Option ℕ) (es : Entries)
      → Ascends prev es
      → put_entries (encode_entries es) ≡ ok (emit_entries es)
  encode_entries-canonical prev end c = refl
  encode_entries-canonical prev (entry k v es) (hk, ha, hv, hs) =
      rw (encode-canonical v hv, encode_entries-canonical (some k) es hs)

-- A canonical value encodes to its print.
pub encode-emit : (v : Value) → IsCanonical v → encode v ≡ ok (emit v)
encode-emit = encode-canonical

-- The value with the entries of every map in the order of their keys.
unfoldable pub from_list : List (ℕ × Value) → Entries
from_list [] = end
from_list ((k, v) ∷ l) = entry k v (from_list l)

unfoldable mutual
  pub normalize : Value → Value
  normalize (uint n) = uint n
  normalize (bytes b) = bytes b
  normalize (text t) = text t
  normalize (array vs) = array (normalize_items vs)
  normalize (map es) = map (from_list (sort_by_key (normalize_entries es)))

  pub normalize_items : Items → Items
  normalize_items nil = nil
  normalize_items (cons v vs) = cons (normalize v) (normalize_items vs)

  pub normalize_entries : Entries → List (ℕ × Value)
  normalize_entries end = []
  normalize_entries (entry k v es) = (k, normalize v) ∷ normalize_entries es

-- Numbers and lengths fit 64 bits and texts are UTF-8: what the Rust types hold.
unfoldable mutual
  pub IsTyped : Value → Type 0
  IsTyped (uint n) = IsU64 n
  IsTyped (bytes b) = IsU64 (length b) × IsBytes b
  IsTyped (text t) = IsU64 (length t) × IsBytes t × IsUtf8 t
  IsTyped (array vs) = IsU64 (length_items vs) × AllTyped vs
  IsTyped (map es) = IsU64 (length_entries es) × EntriesTyped es

  pub AllTyped : Items → Type 0
  AllTyped nil = Unit
  AllTyped (cons v vs) = IsTyped v × AllTyped vs

  pub EntriesTyped : Entries → Type 0
  EntriesTyped end = Unit
  EntriesTyped (entry k v es) = IsU64 k × IsTyped v × EntriesTyped es

-- What an encoded value says of the normalized one.
abbrev pub Agree : Encoded → Value → Type 0
Agree r v = (bs : List ℕ) → r ≡ ok bs → IsCanonical v × (emit v ≡ bs)

abbrev AgreeAll : List (ℕ × Encoded) → List (ℕ × Value) → Type 0
AgreeAll [] [] = Unit
AgreeAll ((k, r) ∷ l) ((j, v) ∷ m) = (k ≡ j) × IsU64 k × Agree r v × AgreeAll l m
AgreeAll _ _ = ⊥

insert-AgreeAll :
    (k : ℕ) (r : Encoded) (v : Value) (l : List (ℕ × Encoded)) (m : List (ℕ × Value))
    → IsU64 k
    → Agree r v
    → AgreeAll l m
    → AgreeAll (insert_by_key k r l) (insert_by_key k v m)
unfolding insert_by_key
insert-AgreeAll k r v [] [] hk a h = (refl, hk, a, tt)
insert-AgreeAll k r v [] (p ∷ m) hk a h = absurd h
insert-AgreeAll k r v (p ∷ l) [] hk a h = absurd h
insert-AgreeAll k r v ((i, s) ∷ l) ((j, w) ∷ m) hk a (e, hi, b, h) = elim (Bool-cases (leb k j)) [
  | inl t ↦ rw (e, t) (refl, hk, a, (refl, rw e at hi, b, h))
  | inr t ↦ rw (e, t) (refl, rw e at hi, b, insert-AgreeAll k r v l m hk a h)
]

sort-AgreeAll :
    (l : List (ℕ × Encoded)) (m : List (ℕ × Value))
    → AgreeAll l m
    → AgreeAll (sort_by_key l) (sort_by_key m)
unfolding sort_by_key
sort-AgreeAll [] [] h = tt
sort-AgreeAll [] (p ∷ m) h = absurd h
sort-AgreeAll (p ∷ l) [] h = absurd h
sort-AgreeAll ((i, s) ∷ l) ((j, w) ∷ m) (e, hi, b, h) =
    rw e
      (insert-AgreeAll j s w (sort_by_key l) (sort_by_key m) (rw e at hi) b (sort-AgreeAll l m h))

put_entries-AgreeAll :
    (prev : Option ℕ) (l : List (ℕ × Encoded)) (m : List (ℕ × Value)) (bs : List ℕ)
    → AgreeAll l m
    → Ascending prev l
    → put_entries l ≡ ok bs
    → Ascends prev (from_list m)
      × (emit_entries (from_list m) ≡ bs)
      × (length_entries (from_list m) ≡ length l)
unfolding put_entries from_list emit IsCanonical
put_entries-AgreeAll prev [] [] bs h a e = (tt, cc, refl)
put_entries-AgreeAll prev [] (p ∷ m) bs h a e = absurd h
put_entries-AgreeAll prev (p ∷ l) [] bs h a e = absurd h
put_entries-AgreeAll prev ((i, s) ∷ l) ((j, w) ∷ m) bs (q, hi, b, h) (up, a) e =
    let (x, ex, e₁) = and_then-eq-ok s _ e in
    let (y, ey, e₂) = and_then-eq-ok (put_entries l) _ e₁ in
    let (cw, ew) = b x ex in
    let (hs, es, len) = put_entries-AgreeAll (some i) l m y h a ey in
    ((rw q at hi, rw q at up, cw, rw q at hs), rw (ew, es, ← q) (cc), ap suc len)

put_map-eq-ok :
    (l : List (ℕ × Encoded)) (bs : List ℕ)
    → put_map l ≡ ok bs
    → (body : List ℕ) × (repeated_key l ≡ none)
      × (put_entries l ≡ ok body)
      × (bs ≡ put_head 5 (length l) ++ body)
unfolding put_map
put_map-eq-ok l bs e = elim (Option-cases (repeated_key l)) [
  | inl none_repeats ↦
      let (body, eb, e₂) = and_then-eq-ok (put_entries l) _ (rw (none_repeats, put_map) at e) in
      (body, none_repeats, eb, cc)
  | inr (k, repeats) ↦ cc (rw (repeats, put_map) at e)
]

length-normalize_items : (vs : Items) → length_items (normalize_items vs) ≡ length_items vs
unfolding normalize
length-normalize_items nil = refl
length-normalize_items (cons v vs) = ap suc (length-normalize_items vs)

mutual
  unfolding encode emit IsCanonical IsTyped normalize

  pub encode-normalize : (v : Value) → IsTyped v → Agree (encode v) (normalize v)
  encode-normalize (uint n) t bs e = (t, cc)
  encode-normalize (bytes b) t bs e = (t, cc)
  encode-normalize (text b) t bs e = (t, cc)
  encode-normalize (array vs) t bs e =
      let (body, eb, e₂) = and_then-eq-ok (encode_items vs) _ e in
      let (c, p) = encode_items-normalize vs body t.1 eb in
      let len = length-normalize_items vs in ((rw len t.0, c), rw (len, p) (cc))
  encode-normalize (map es) t bs e =
      let sorted = sort_by_key (encode_entries es) in
      let (body, er, eb, e₂) = put_map-eq-ok sorted bs e in
      let (c, p, len) =
        put_entries-AgreeAll none sorted (sort_by_key (normalize_entries es)) body
          (sort-AgreeAll (encode_entries es) (normalize_entries es)
            (encode_entries-normalize es t.1))
          (NonDecreasing-Ascending sorted (sort-NonDecreasing (encode_entries es)) er) eb in
      let count = len ∙ length-sort (encode_entries es) ∙ length-encode_entries es in
      ((rw count t.0, c), rw (len, p) (sym e₂))

  encode_items-normalize :
      (vs : Items) (bs : List ℕ)
      → AllTyped vs
      → encode_items vs ≡ ok bs
      → AllCanonical (normalize_items vs) × (emit_items (normalize_items vs) ≡ bs)
  encode_items-normalize nil bs t e = (tt, cc)
  encode_items-normalize (cons v vs) bs t e =
      let (x, ex, e₁) = and_then-eq-ok (encode v) _ e in
      let (y, ey, e₂) = and_then-eq-ok (encode_items vs) _ e₁ in
      let (cv, pv) = encode-normalize v t.0 x ex in
      let (cs, ps) = encode_items-normalize vs y t.1 ey in ((cv, cs), rw (pv, ps) (cc))

  encode_entries-normalize :
      (es : Entries) → EntriesTyped es → AgreeAll (encode_entries es) (normalize_entries es)
  encode_entries-normalize end t = tt
  encode_entries-normalize (entry k v es) (hk, hv, hs) =
      (refl, hk, encode-normalize v hv, encode_entries-normalize es hs)
