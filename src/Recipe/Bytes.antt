-- ===== src/Recipe/Bytes.antt =====
-- `decode` of crates/datboi-core/src/recipe.rs accepts one encoding of each recipe.
use datboi.Base.{
  ℕ, ◌+◌, ◌-◌, ◌*◌, ◌≤◌, ◌<◌, List, [], ◌∷◌, Option, none, some, drop, ◌==◌, ==_iff, ok, IsBytes,
  map_err, map_err-eq-ok, and_then-eq-ok, ◌≡◌, refl, sym, ap, ◌∙◌, arith, Bool-cases, Option-cases,
  inl, inr, All-drop, IsByte, drop-append_length,
}
use datboi.Cbor.Value.{Value, Entries, uint, bytes, text, array, map, end}
use datboi.Cbor.Encode as Cbor
use datboi.Cbor.Decode.{decode as cbor_decode}
use datboi.Cbor.Canonical.{IsCanonical, Ascends}
use datboi.Cbor.Codec.{encode-decode, decode-eq-ok_iff}
use datboi.Cbor.Fields.{for_entries, opt, for_entries-KeysIn_one, four_fields}
use datboi.Object.Sniff.{
  ObjectKind, sniff, parse_version, parse_u32, recipe, view_snapshot, state_snapshot, alias_batch,
  analysis_batch, tag, all_digits, leading_zero,
}
use datboi.Object.Header.{header, sniff_sound}
use datboi.Recipe.Defs.{Recipe, cbor, validate}
use datboi.Recipe.Encode.{
  recipe_header, input_to_value, output_to_value, params_entry, recipe_to_value, encode,
}
use datboi.Recipe.Decode.{
  as_map, as_bytes, op_from_value, input_from_value, output_from_value, refs_from_value,
  RecipeFields, recipe_field, recipe_from_entries, decode_body, decode_sniffed, decode,
}
use datboi.Recipe.Shapes.{fields4}
use datboi.Recipe.Canonical.{input_written, output_written, op_written, refs_written}

recipe_known :
    (k : ℕ) (v : Value) (st st' : RecipeFields) → recipe_field k v st ≡ ok st' → (1 ≤ k) × (k < 5)
unfolding recipe_field
recipe_known k v st st' e = ground arith

recipe_fields :
    (es : Entries) (r : Recipe)
    → Ascends none es
    → recipe_from_entries es ≡ ok r
    → (o : Option Value) × (p : Option Value) × (q : Option Value) × (s : Option Value) × (es
        ≡ fields4 o p q s)
unfolding recipe_from_entries
recipe_fields es r ha e =
    let (st, e₁, e₂) = and_then-eq-ok (for_entries recipe_field es _) _ e in
    four_fields 1 es (for_entries-KeysIn_one recipe_field 5 es _ st recipe_known ha e₁)

-- The required fields are there, and each is read by its reader.
record Read (a b c : Value) (d : Option Value) (r : Recipe) : Type 0 where
  op : op_from_value a ≡ ok (r.op)
  inputs : refs_from_value input_from_value b ≡ ok (r.inputs)
  outputs : refs_from_value output_from_value c ≡ ok (r.outputs)
  params : params_entry (r.params) ≡ opt 4 d end
  valid : validate r ≡ ok tt

recipe-Read :
    (a b c : Value) (d : Option Value) (r : Recipe)
    → recipe_from_entries (fields4 (some a) (some b) (some c) d) ≡ ok r
    → Read a b c d r
unfolding recipe_from_entries recipe_field for_entries params_entry as_bytes
recipe-Read a b c none r e = record {
  op = ground arith;
  inputs = ground arith;
  outputs = ground arith;
  params = ground arith;
  valid = ground arith;
}
recipe-Read a b c (some (bytes d)) r e = record {
  op = ground arith;
  inputs = ground arith;
  outputs = ground arith;
  params = ground arith;
  valid = ground arith;
}
recipe-Read a b c (some (uint d)) r e = absurd (ground arith)
recipe-Read a b c (some (text d)) r e = absurd (ground arith)
recipe-Read a b c (some (array d)) r e = absurd (ground arith)
recipe-Read a b c (some (map d)) r e = absurd (ground arith)

recipe_required :
    (o p q s : Option Value) (r : Recipe)
    → recipe_from_entries (fields4 o p q s) ≡ ok r
    → (a : Value) × (b : Value) × (c : Value) × (o ≡ some a) × (p ≡ some b) × (q ≡ some c)
unfolding recipe_from_entries recipe_field for_entries as_bytes
recipe_required (some a) (some b) (some c) s r e = (a, b, c, refl, refl, refl)
recipe_required none _ _ _ r e = absurd (ground arith)
recipe_required (some a) none _ _ r e = absurd (ground arith)
recipe_required (some a) (some b) none _ r e = absurd (ground arith)

-- A map that is read as a recipe is the one written for that recipe.
recipe_written :
    (es : Entries) (r : Recipe)
    → IsCanonical (map es)
    → recipe_from_entries es ≡ ok r
    → (recipe_to_value r ≡ map es) × (validate r ≡ ok tt)
unfolding recipe_to_value IsCanonical
recipe_written es r (hl, ha) e =
    let (o, p, q, s, shape) = recipe_fields es r ha e in
    let (a, b, c, eo, ep, eq) = recipe_required o p q s r (rw shape at e) in
    let form : es ≡ fields4 (some a) (some b) (some c) s = shape ∙ rw (eo, ep, eq) in
    let t = recipe-Read a b c s r (rw form at e) in
    let h : Ascends none (fields4 (some a) (some b) (some c) s) = rw form at ha in
    (
      rw (
        form,
        op_written a (r.op) (h.2) (t.op),
        refs_written input_from_value input_to_value b (r.inputs) input_written (h.3.2) (t.inputs),
        refs_written output_from_value output_to_value c (r.outputs) output_written (h.3.3.2)
            (t.outputs),
        t.params,
      ),
      t.valid,
    )

parse_u32-le : (acc : ℕ) (ds : List ℕ) (n : ℕ) → parse_u32 acc ds ≡ some n → acc ≤ n
unfolding parse_u32
parse_u32-le acc [] n e = ground arith
parse_u32-le acc (b ∷ ds) n e = ground (arith, parse_u32-le (acc * 10 + (b - b'0')) ds n)

pub version_one : (ds : List ℕ) → parse_version ds ≡ some 1 → ds ≡ b'1' ∷ []
unfolding parse_version all_digits leading_zero
version_one [] e = ground arith
version_one (b ∷ []) e = unfold parse_u32 in ground arith
version_one (b ∷ c ∷ ds) e = absurd (ground (arith, two_digits))
  where
    two_digits : parse_u32 0 (b ∷ c ∷ ds) ≡ some 1 → b ≤ b'0'
    two_digits p =
        unfold parse_u32 in
        ground (arith, parse_u32-le ((0 * 10 + (b - b'0')) * 10 + (c - b'0')) ds 1)

sniffed_recipe :
    (bs : List ℕ) (k : ObjectKind) (v at : ℕ) (r : Recipe)
    → decode_sniffed bs (k, v, at) ≡ ok r
    → (k ≡ recipe) × (v ≡ 1) × (decode_body (drop at bs) ≡ ok r)
unfolding decode_sniffed
sniffed_recipe bs recipe v at r e = elim (Bool-cases (v == 1)) [
  | inl t ↦ (refl, (==_iff v 1).0 t, rw t at e)
  | inr f ↦ cc (rw f at e)
]
sniffed_recipe bs view_snapshot v at r e = cc
sniffed_recipe bs state_snapshot v at r e = cc
sniffed_recipe bs alias_batch v at r e = cc
sniffed_recipe bs analysis_batch v at r e = cc

map_value : (v : Value) (es : Entries) → as_map v ≡ ok es → v ≡ map es
unfolding as_map
map_value (map fs) es e = cc
map_value (uint n) es e = cc
map_value (bytes b) es e = cc
map_value (text t) es e = cc
map_value (array vs) es e = cc

body_written :
    (bs : List ℕ) (r : Recipe)
    → IsBytes bs
    → decode_body bs ≡ ok r
    → (Cbor.encode (recipe_to_value r) ≡ ok bs) × (validate r ≡ ok tt)
unfolding decode_body
body_written bs r hb e =
    let (value, ed, e₁) = and_then-eq-ok (map_err cbor (cbor_decode bs)) _ e in
    let (es, em, e₂) = and_then-eq-ok (as_map value) _ e₁ in
    let decoded = map_err-eq-ok cbor (cbor_decode bs) ed in
    let is_map = map_value value es em in
    let canonical : IsCanonical (map es) =
      rw is_map at (((decode-eq-ok_iff bs value hb).0 decoded).0) in
    let (written, valid) = recipe_written es r canonical e₂ in
    (rw (written, ← is_map) (encode-decode bs value hb decoded), valid)

header_one : header recipe (b'1' ∷ []) ≡ recipe_header
unfolding header tag
header_one = refl

-- If a list of bytes decodes to a recipe, the recipe encodes to those bytes.
pub encode-decode_recipe :
    (bs : List ℕ) (r : Recipe) → IsBytes bs → decode bs ≡ ok r → encode r ≡ ok bs
unfolding decode encode
encode-decode_recipe bs r hb e = elim (Option-cases (sniff bs)) [
  | inl other ↦ cc (rw other at e)
  | inr ((k, v, at), found) ↦
      let (kind, one, eb) = sniffed_recipe bs k v at r (rw found at e) in
      let (ds, body, split, parsed, place) = sniff_sound bs k v at found in
      let (written, valid) = body_written (drop at bs) r (All-drop IsByte at bs hb) eb in
      let digits : ds ≡ b'1' ∷ [] = version_one ds (rw one at parsed) in
      let front : header k ds ≡ recipe_header = rw (kind, digits) header_one in
      let behind : drop at bs ≡ body = rw (place, split) (drop-append_length (header k ds) body) in
      rw (valid, written, behind) (ap ok (sym (rw front at split)))
]
