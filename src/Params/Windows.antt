-- ===== src/Params/Windows.antt =====
-- What decodes to the params of crates/datboi-core/src/params.rs, and what they encode to.
use datboi.Base.{
  ℕ, ◌+◌, ◌^◌, ◌≤◌, Option, some, none, List, ltb, ◌==◌, ok, map_err, map_err-eq-ok, and_then-eq-ok,
  IsBytes, IsU32, IsU64, ◌≡◌, refl, ap, arith, Bool-cases, inl, inr, ltb→lt, lt→ltb, ==_iff,
  ok-injective,
}
use datboi.Cbor.Value.{
  Value, Entries, uint, bytes, text, array, map, end, entry, length_entries, max_depth,
}
use datboi.Cbor.Encode as Cbor
use datboi.Cbor.Decode.{decode as cbor_decode}
use datboi.Cbor.Access.{find_key}
use datboi.Cbor.Canonical.{IsCanonical, Ascends, levels, emit}
use datboi.Cbor.Normal.{encode-emit}
use datboi.Cbor.RoundTrip.{decode-emit}
use datboi.Cbor.Codec.{decode-eq-ok_iff, encode-decode}
use datboi.Params.Defs.{
  ExtractorParams, encode_extractor, decode_extractor, member_from, extractor_from_value,
  DeflateWindow, encode_window, decode_window, window_field, window_from_value, cbor,
}

member_from-eq-ok :
    (o : Option Value) (p : ExtractorParams)
    → member_from o ≡ ok p
    → (o ≡ some (uint (p.member_ix))) × IsU32 (p.member_ix)
unfolding member_from
member_from-eq-ok none p e = cc
member_from-eq-ok (some (uint n)) p e = elim (Bool-cases (ltb n (2 ^ 32))) [
  | inl small ↦
      let same : record { member_ix = n } ≡ p = ok-injective _ _ (rw small at e) in
      rw (← same) (refl, ltb→lt n (2 ^ 32) small)
  | inr large ↦ cc (rw large at e)
]
member_from-eq-ok (some (bytes b)) p e = cc
member_from-eq-ok (some (text t)) p e = cc
member_from-eq-ok (some (array vs)) p e = cc
member_from-eq-ok (some (map es)) p e = cc

one_found :
    (es : Entries) (v : Value) → length_entries es ≡ 1 → find_key 1 es ≡ some v → es ≡ entry 1 v end
unfolding find_key
one_found end v l f = cc
one_found (entry k w end) v l f = ground arith
one_found (entry k w (entry j x es)) v l f = absurd (omega arith)

two_found :
    (es : Entries) (v w : Value)
    → Ascends none es
    → length_entries es ≡ 2
    → find_key 1 es ≡ some v
    → find_key 2 es ≡ some w
    → es ≡ entry 1 v (entry 2 w end)
unfolding find_key IsCanonical
two_found end v w c l f g = cc
two_found (entry k x end) v w c l f g = absurd (omega arith)
two_found (entry k x (entry j y end)) v w (hk, a, cx, (hj, below, cy, rest)) l f g = ground arith
two_found (entry k x (entry j y (entry i z es))) v w c l f g = absurd (omega arith)

extractor_written :
    (value : Value) (p : ExtractorParams)
    → extractor_from_value value ≡ ok p
    → (value ≡ map (entry 1 (uint (p.member_ix)) end)) × IsU32 (p.member_ix)
unfolding extractor_from_value
extractor_written (map es) p e = elim (Bool-cases (length_entries es == 1)) [
  | inl one ↦
      let (found, small) = member_from-eq-ok (find_key 1 es) p (rw one at e) in
      (ap map (one_found es _ ((==_iff (length_entries es) 1).0 one) found), small)
  | inr other ↦ cc (rw other at e)
]
extractor_written (uint n) p e = cc
extractor_written (bytes b) p e = cc
extractor_written (text t) p e = cc
extractor_written (array vs) p e = cc

window_field-eq-ok : (o : Option Value) (n : ℕ) → window_field o ≡ ok n → o ≡ some (uint n)
unfolding window_field
window_field-eq-ok none n e = cc
window_field-eq-ok (some (uint m)) n e = cc
window_field-eq-ok (some (bytes b)) n e = cc
window_field-eq-ok (some (text t)) n e = cc
window_field-eq-ok (some (array vs)) n e = cc
window_field-eq-ok (some (map es)) n e = cc

window_written :
    (value : Value) (w : DeflateWindow)
    → IsCanonical value
    → window_from_value value ≡ ok w
    → value ≡ map (entry 1 (uint (w.offset)) (entry 2 (uint (w.len)) end))
unfolding window_from_value IsCanonical
window_written (map es) w c e = elim (Bool-cases (length_entries es == 2)) [
  | inl two ↦
      let (offset, eo, e₁) = and_then-eq-ok (window_field (find_key 1 es)) _ (rw two at e) in
      let (n, en, e₂) = and_then-eq-ok (window_field (find_key 2 es)) _ e₁ in
      let same : record { offset = offset; len = n } ≡ w = ok-injective _ _ e₂ in
      rw (← same) (
        ap map (
          two_found es _ _ c.1 ((==_iff (length_entries es) 2).0 two)
            (window_field-eq-ok _ offset eo) (window_field-eq-ok _ n en)))
  | inr other ↦ cc (rw other at e)
]
window_written (uint n) w c e = cc
window_written (bytes b) w c e = cc
window_written (text t) w c e = cc
window_written (array vs) w c e = cc

-- Extractor params with a 32-bit index encode, without a panic, and the bytes decode to the same
-- params.
pub decode-encode_extractor :
    (p : ExtractorParams)
    → IsU32 (p.member_ix)
    → (bs : List ℕ) × (encode_extractor p ≡ ok bs) × (decode_extractor bs ≡ ok p)
unfolding encode_extractor decode_extractor extractor_from_value member_from find_key
decode-encode_extractor p small =
    let value = map (entry 1 (uint (p.member_ix)) end) in
    let canonical : IsCanonical value =
      unfold IsCanonical in (omega arith, (omega arith, tt, omega arith, tt)) in
    let shallow : levels value ≤ max_depth + 1 = unfold levels in omega arith in
    let fits = lt→ltb (p.member_ix) (2 ^ 32) small in
    (
      emit value,
      rw (encode-emit value canonical) refl,
      rw (decode-emit value canonical shallow, fits) refl,
    )

-- If a list of bytes decodes to extractor params, the params encode to those bytes and the index
-- fits 32 bits.
pub encode-decode_extractor :
    (bs : List ℕ) (p : ExtractorParams)
    → IsBytes bs
    → decode_extractor bs ≡ ok p
    → (encode_extractor p ≡ ok bs) × IsU32 (p.member_ix)
unfolding encode_extractor decode_extractor
encode-decode_extractor bs p hb e =
    let (value, ed, e₁) = and_then-eq-ok (map_err cbor (cbor_decode bs)) _ e in
    let (written, small) = extractor_written value p e₁ in
    let back : Cbor.encode value ≡ ok bs =
      encode-decode bs value hb (map_err-eq-ok cbor (cbor_decode bs) ed) in
    (rw (← written, back) refl, small)

-- A deflate window of 64-bit numbers encodes, without a panic, and the bytes decode to the same
-- window.
pub decode-encode_window :
    (w : DeflateWindow)
    → IsU64 (w.offset)
    → IsU64 (w.len)
    → (bs : List ℕ) × (encode_window w ≡ ok bs) × (decode_window bs ≡ ok w)
unfolding encode_window decode_window window_from_value window_field find_key
decode-encode_window w ho hl =
    let value = map (entry 1 (uint (w.offset)) (entry 2 (uint (w.len)) end)) in
    let canonical : IsCanonical value =
      unfold IsCanonical in
      (omega arith, (omega arith, tt, ho, (omega arith, omega arith, hl, tt))) in
    let shallow : levels value ≤ max_depth + 1 = unfold levels in omega arith in
    (
      emit value,
      rw (encode-emit value canonical) refl,
      rw (decode-emit value canonical shallow) refl,
    )

-- If a list of bytes decodes to a deflate window, the window encodes to those bytes.
pub encode-decode_window :
    (bs : List ℕ) (w : DeflateWindow)
    → IsBytes bs
    → decode_window bs ≡ ok w
    → encode_window w ≡ ok bs
unfolding encode_window decode_window
encode-decode_window bs w hb e =
    let (value, ed, e₁) = and_then-eq-ok (map_err cbor (cbor_decode bs)) _ e in
    let decoded = map_err-eq-ok cbor (cbor_decode bs) ed in
    let written = window_written value w ((decode-eq-ok_iff bs value hb).0 decoded).0 e₁ in
    let back : Cbor.encode value ≡ ok bs = encode-decode bs value hb decoded in
    rw (← written, back) refl
