-- ===== src/Assemble/ParamsCodec.antt =====
-- The params of crates/datboi-core/src/assemble.rs and their bytes determine one another.
use datboi.Base.{
  ℕ, ◌+◌, ◌≤◌, List, [], ◌∷◌, length, All, IsByte, IsBytes, IsU32, IsU64, list_eq, list_eq→eq, ok,
  map_err, and_then-eq-ok, map_err-eq-ok, ok-injective, ◌≡◌, refl, ap, arith, inl, inr, Bool-cases,
}
use datboi.Cbor.Value.{Value, Entries, uint, bytes, text, array, map, end, entry, max_depth}
use datboi.Cbor.Encode as Cbor
use datboi.Cbor.Decode.{decode as cbor_decode}
use datboi.Cbor.Canonical.{emit, IsCanonical, AllCanonical, levels, levels_items}
use datboi.Cbor.RoundTrip.{decode-emit}
use datboi.Cbor.Normal.{encode-emit}
use datboi.Cbor.Codec.{encode-decode}
use datboi.Cbor.Access.{
  find_key, keys, items_of, collect-items_of, items_of-collect, length-items_of,
}
use datboi.Assemble.Defs.{Segment, blob_range, fill, literal, AssembleParams, cbor, validate}
use datboi.Assemble.Params.{
  segment_to_value, encode, uint_field, literal_from_entries, blob_range_from_entries,
  fill_from_entries, segment_from_value, segments_from_value, decode,
}

-- What the fields of the Rust types hold.
abbrev pub IsTyped : Segment → Type 0
IsTyped (blob_range ix offset n) = IsU32 ix × IsU64 offset × IsU64 n
IsTyped (fill byte n) = IsByte byte × IsU64 n
IsTyped (literal bs) = IsBytes bs × IsU64 (length bs)

segment_value-IsCanonical : (s : Segment) → IsTyped s → IsCanonical (segment_to_value s)
unfolding segment_to_value IsCanonical
segment_value-IsCanonical (blob_range ix offset n) (hi, ho, hn) = omega arith
segment_value-IsCanonical (fill byte n) (hb, hn) = omega arith
segment_value-IsCanonical (literal bs) (hb, hl) = (omega arith, (omega arith, tt, (hl, hb), tt))

segment_from_to_value : (s : Segment) → IsTyped s → segment_from_value (segment_to_value s) ≡ ok s
unfolding segment_to_value segment_from_value keys list_eq blob_range_from_entries uint_field
    find_key fill_from_entries literal_from_entries
segment_from_to_value (blob_range ix offset n) (hi, ho, hn) = ground arith
segment_from_to_value (fill byte n) (hb, hn) = ground arith
segment_from_to_value (literal bs) h = refl

segment_levels : (s : Segment) → levels (segment_to_value s) ≡ 2
unfolding segment_to_value levels
segment_levels (blob_range ix offset n) = refl
segment_levels (fill byte n) = refl
segment_levels (literal bs) = refl

-- A map with the given keys, in order.
one_key : (es : Entries) (a : ℕ) → keys es ≡ a ∷ [] → (v : Value) × (es ≡ entry a v end)
unfolding keys
one_key end a e = absurd (ground arith)
one_key (entry k v end) a e = (v, ground arith)
one_key (entry k v (entry j w es)) a e = absurd (ground arith)

two_keys :
    (es : Entries) (a b : ℕ)
    → keys es ≡ a ∷ b ∷ []
    → (v w : Value) × (es ≡ entry a v (entry b w end))
unfolding keys
two_keys end a b e = absurd (ground arith)
two_keys (entry k v es) a b e = let (w, q) = one_key es b (ground arith) in (v, w, ground arith)

three_keys :
    (es : Entries) (a b c : ℕ)
    → keys es ≡ a ∷ b ∷ c ∷ []
    → (v w x : Value) × (es ≡ entry a v (entry b w (entry c x end)))
unfolding keys
three_keys end a b c e = absurd (ground arith)
three_keys (entry k v es) a b c e =
    let (w, x, q) = two_keys es b c (ground arith) in (v, w, x, ground arith)

literal_entries :
    (es : Entries) (s : Segment)
    → keys es ≡ 6 ∷ []
    → literal_from_entries es ≡ ok s
    → segment_to_value s ≡ map es
unfolding literal_from_entries segment_to_value
literal_entries es s k e = let (v, q) = one_key es 6 k in rw q (one v s (rw q at e))
  where
    one :
        (v : Value) (s : Segment)
        → literal_from_entries (entry 6 v end) ≡ ok s
        → segment_to_value s ≡ map (entry 6 v end)
    one (bytes b) s e = let q : literal b ≡ s = cc in rw (← q) refl
    one (uint n) s e = cc
    one (text b) s e = cc
    one (array vs) s e = cc
    one (map es) s e = cc

fill_case :
    (v w : Value) (s : Segment)
    → fill_from_entries (entry 4 v (entry 5 w end)) ≡ ok s
    → segment_to_value s ≡ map (entry 4 v (entry 5 w end))
unfolding fill_from_entries uint_field find_key segment_to_value
fill_case v w s e = ground arith

range_case :
    (v w x : Value) (s : Segment)
    → blob_range_from_entries (entry 1 v (entry 2 w (entry 3 x end))) ≡ ok s
    → segment_to_value s ≡ map (entry 1 v (entry 2 w (entry 3 x end)))
unfolding blob_range_from_entries uint_field find_key segment_to_value
range_case v w x s e = ground arith

fill_entries :
    (es : Entries) (s : Segment)
    → keys es ≡ 4 ∷ 5 ∷ []
    → fill_from_entries es ≡ ok s
    → segment_to_value s ≡ map es
fill_entries es s k e = let (v, w, q) = two_keys es 4 5 k in rw q (fill_case v w s (rw q at e))

range_entries :
    (es : Entries) (s : Segment)
    → keys es ≡ 1 ∷ 2 ∷ 3 ∷ []
    → blob_range_from_entries es ≡ ok s
    → segment_to_value s ≡ map es
range_entries es s k e =
    let (v, w, x, q) = three_keys es 1 2 3 k in rw q (range_case v w x s (rw q at e))

-- A decoded value that is read as a segment is the map which that segment is written as.
segment_to_from_value :
    (v : Value) (s : Segment) → segment_from_value v ≡ ok s → segment_to_value s ≡ v
unfolding segment_from_value
segment_to_from_value (uint n) s e = cc
segment_to_from_value (bytes b) s e = cc
segment_to_from_value (text b) s e = cc
segment_to_from_value (array b) s e = cc
segment_to_from_value (map es) s e = elim (Bool-cases (list_eq (keys es) (1 ∷ 2 ∷ 3 ∷ []))) [
  | inl t ↦ range_entries es s (list_eq→eq (keys es) _ t) (rw t at e)
  | inr f ↦ elim (Bool-cases (list_eq (keys es) (4 ∷ 5 ∷ []))) [
    | inl t ↦ fill_entries es s (list_eq→eq (keys es) _ t) (rw (f, t) at e)
    | inr g ↦ elim (Bool-cases (list_eq (keys es) (6 ∷ []))) [
      | inl t ↦ literal_entries es s (list_eq→eq (keys es) _ t) (rw (f, g, t) at e)
      | inr h ↦ cc (rw (f, g, h) at e)
    ]
  ]
]

items_canonical : (ss : List Segment) → All IsTyped ss → AllCanonical (items_of segment_to_value ss)
unfolding items_of IsCanonical
items_canonical [] h = tt
items_canonical (s ∷ ss) h = (segment_value-IsCanonical s h.0, items_canonical ss h.1)

items_levels : (ss : List Segment) → levels_items (items_of segment_to_value ss) ≤ 2
unfolding items_of levels
items_levels [] = omega arith
items_levels (s ∷ ss) = omega (arith, segment_levels s, items_levels ss)

-- Params that pass `validate`, whose fields and number of segments are in the ranges of their
-- types, encode, without a panic, and the bytes decode to the same params.
pub decode-encode_params :
    (p : AssembleParams)
    → All IsTyped p.segments
    → IsU64 (length p.segments)
    → validate p ≡ ok tt
    → (bs : List ℕ) × (encode p ≡ ok bs) × (decode bs ≡ ok p)
unfolding encode decode segments_from_value
decode-encode_params p ht hl v =
    let value = array (items_of segment_to_value p.segments) in
    let canonical : IsCanonical value =
      unfold IsCanonical in
      (rw (length-items_of segment_to_value p.segments) hl, items_canonical p.segments ht) in
    let shallow : levels value ≤ max_depth + 1 =
      unfold levels in omega (arith, items_levels p.segments) in
    (
      emit value,
      rw (v, encode-emit value canonical),
      rw (
        decode-emit value canonical shallow,
        collect-items_of segment_from_value segment_to_value IsTyped p.segments
            segment_from_to_value ht,
        v,
      ),
    )

written_array :
    (v : Value) (ss : List Segment)
    → segments_from_value v ≡ ok ss
    → array (items_of segment_to_value ss) ≡ v
unfolding segments_from_value
written_array (array vs) ss e =
    ap array (items_of-collect segment_from_value segment_to_value vs ss segment_to_from_value e)
written_array (uint n) ss e = cc
written_array (bytes b) ss e = cc
written_array (text b) ss e = cc
written_array (map es) ss e = cc

-- If a list of bytes decodes to params, the params encode to those bytes.
pub encode-decode_params :
    (bs : List ℕ) (p : AssembleParams) → IsBytes bs → decode bs ≡ ok p → encode p ≡ ok bs
unfolding encode decode
encode-decode_params bs p hb e =
    let (value, ed, e₁) = and_then-eq-ok (map_err cbor (cbor_decode bs)) _ e in
    let (ss, es, e₂) = and_then-eq-ok (segments_from_value value) _ e₁ in
    let (u, ev, e₃) = and_then-eq-ok (validate (record { segments = ss })) _ e₂ in
    let same : record { segments = ss } ≡ p = ok-injective _ _ e₃ in
    let bytes_of : Cbor.encode value ≡ ok bs =
      encode-decode bs value hb (map_err-eq-ok cbor (cbor_decode bs) ed) in
    let valid : validate (record { segments = ss }) ≡ ok tt = ev in
    rw (← same, valid, written_array value ss es, bytes_of) refl
