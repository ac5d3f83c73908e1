-- ===== src/Recipe/Valid.antt =====
-- A valid recipe of crates/datboi-core/src/recipe.rs encodes, and decodes to itself.
use datboi.Base.{
  ℕ, ◌^◌, List, [], ◌∷◌, ◌++◌, Option, none, some, length, lt→ltb, All, ok, ◌==◌, ==_iff, ◌≡◌, refl,
  arith, true, list_eq, list_eq→eq, sym, Bool-cases, inl, inr,
}
use datboi.Utf8.{is_utf8, valid_from, next_byte, first_byte}
use datboi.Hash.{IsHash}
use datboi.Cbor.Value.{uint, bytes, map, entry}
use datboi.Cbor.Access.{items_of, collect, find_key, collect-items_of}
use datboi.Cbor.Fields.{for_entries}
use datboi.Cbor.Canonical.{emit}
use datboi.Cbor.Normal.{encode-emit}
use datboi.Cbor.RoundTrip.{decode-emit}
use datboi.Object.Sniff.{
  recipe, sniff, sniff_line, parse_version, parse_u32, leading_zero, all_digits, is_digit,
  split_once, strip_prefix, kind_of, tag,
}
use datboi.Recipe.Defs.{
  Op, builtin, wasm, InputRef, OutputRef, Recipe, validate, check_op, World, transform1, extractor1,
  other, transform1_name, extractor1_name, parse_world, as_str,
}
use datboi.Recipe.Encode.{
  recipe_header, op_to_value, input_to_value, output_to_value, text_entry, params_entry,
  recipe_to_value, encode,
}
use datboi.Recipe.Decode.{
  as_map, as_text, as_uint, as_bytes, as_hash, builtin_field, builtin_from_entries, wasm_field,
  wasm_from_entries, op_from_value, refs_from_value, input_field, input_from_value, output_field,
  output_from_value, RecipeFields, recipe_field, recipe_from_entries, decode_body, decode_sniffed,
  decode,
}
use datboi.Recipe.Typed.{IsOp, IsInput, IsOutput, IsRecipe, recipe-IsCanonical}

hash_fits : (h : List ℕ) → IsHash h → (length h == 32) ≡ true
hash_fits h t = (==_iff (length h) 32).1 t.1

-- A `World::Other` with the spelling of a known world is that world when it is read again.
unfoldable pub known : World → World
known transform1 = transform1
known extractor1 = extractor1
known (other s) = parse_world s

unfoldable pub known_op : Op → Op
known_op (builtin name major) = builtin name major
known_op (wasm component world export) = wasm component (known world) export

abbrev pub known_recipe : Recipe → Recipe
known_recipe r = record r { op = known_op r.op }

parse_world-as_str : (w : World) → parse_world (as_str w) ≡ known w
unfolding parse_world as_str known list_eq
parse_world-as_str transform1 = refl
parse_world-as_str extractor1 = refl
parse_world-as_str (other s) = refl

as_str-known : (w : World) → as_str (known w) ≡ as_str w
unfolding parse_world as_str known
as_str-known transform1 = refl
as_str-known extractor1 = refl
as_str-known (other s) = elim (Bool-cases (list_eq s transform1_name)) [
  | inl e ↦ let same = list_eq→eq s transform1_name e in rw (e, as_str, parse_world) (sym same)
  | inr f ↦ elim (Bool-cases (list_eq s extractor1_name)) [
    | inl e ↦ let same = list_eq→eq s extractor1_name e in rw (f, e, as_str, parse_world) (sym same)
    | inr g ↦ rw (f, g, as_str, parse_world) refl
  ]
]

check_op-known_op : (op : Op) → check_op (known_op op) ≡ check_op op
unfolding check_op known_op
check_op-known_op (builtin name major) = refl
check_op-known_op (wasm component world export) = rw (as_str-known world) refl

validate-known_recipe : (r : Recipe) → validate (known_recipe r) ≡ validate r
unfolding validate
validate-known_recipe r = rw (check_op-known_op r.op) refl

op_read : (op : Op) → IsOp op → op_from_value (op_to_value op) ≡ ok (known_op op)
unfolding op_from_value op_to_value as_map as_text as_uint as_bytes as_hash find_key builtin_field
    builtin_from_entries wasm_field wasm_from_entries for_entries list_eq known_op
op_read (builtin name major) (t, m) = rw (lt→ltb major (2 ^ 32) m) refl
op_read (wasm component world export) (h, t, x) =
    rw (hash_fits component h, parse_world-as_str world) refl

input_read :
    (h : List ℕ) (role : Option (List ℕ))
    → IsHash h
    → input_from_value (map (entry 1 (bytes h) (text_entry 2 role)))
      ≡ ok (record { hash = h; role = role })
unfolding input_from_value text_entry as_map as_text as_bytes as_hash input_field for_entries
input_read h none t = rw (hash_fits h t) refl
input_read h (some x) t = rw (hash_fits h t) refl

output_read :
    (h : List ℕ) (n : ℕ) (name : Option (List ℕ))
    → IsHash h
    → output_from_value (map (entry 1 (bytes h) (entry 2 (uint n) (text_entry 3 name))))
      ≡ ok (record { hash = h; size = n; name = name })
unfolding output_from_value text_entry as_map as_text as_uint as_bytes as_hash output_field
    for_entries
output_read h n none t = rw (hash_fits h t) refl
output_read h n (some x) t = rw (hash_fits h t) refl

params_read :
    (params : List ℕ) (rest : RecipeFields)
    → for_entries recipe_field (params_entry params) (record rest { params = [] })
      ≡ ok (record rest { params = params })
unfolding for_entries recipe_field params_entry as_bytes
params_read [] rest = refl
params_read (b ∷ bs) rest = ground arith

inputs_read :
    (l : List InputRef)
    → All IsInput l
    → collect input_from_value (items_of input_to_value l) ≡ ok l
inputs_read l h =
    collect-items_of input_from_value input_to_value IsInput l
      (λ i u. unfold input_to_value in input_read (i.hash) (i.role) u.0) h

outputs_read :
    (l : List OutputRef)
    → All IsOutput l
    → collect output_from_value (items_of output_to_value l) ≡ ok l
outputs_read l h =
    collect-items_of output_from_value output_to_value IsOutput l
      (λ o u. unfold output_to_value in output_read (o.hash) (o.size) (o.name) u.0) h

body_read :
    (r : Recipe)
    → IsRecipe r
    → validate r ≡ ok tt
    → decode_body (emit (recipe_to_value r)) ≡ ok (known_recipe r)
unfolding decode_body as_map recipe_to_value recipe_from_entries for_entries recipe_field
    refs_from_value
body_read r t v =
    let (canonical, shallow) = recipe-IsCanonical r t in
    rw (
      decode-emit (recipe_to_value r) canonical shallow,
      op_read (r.op) (t.op),
      inputs_read (r.inputs) (t.inputs),
      outputs_read (r.outputs) (t.outputs),
      params_read (r.params) (record {
        op = some (known_op (r.op));
        inputs = some (r.inputs);
        outputs = some (r.outputs);
        params = [];
      }),
      validate-known_recipe r,
      v,
    )

header_found : (body : List ℕ) → sniff (recipe_header ++ body) ≡ some (recipe, 1, 16)
unfolding sniff sniff_line parse_version parse_u32 leading_zero all_digits is_digit split_once
    strip_prefix kind_of tag is_utf8 valid_from next_byte first_byte list_eq
header_found body = refl

-- A recipe whose fields are in the ranges of their types and that passes `validate` encodes,
-- without a panic, and the bytes decode to the same recipe, but for a `World::Other` with the
-- spelling of a known world, in the place of which stands that world.
pub decode-encode_recipe :
    (r : Recipe)
    → IsRecipe r
    → validate r ≡ ok tt
    → (bs : List ℕ) × (encode r ≡ ok bs) × (decode bs ≡ ok (known_recipe r))
unfolding encode decode decode_sniffed
decode-encode_recipe r t v =
    let body = emit (recipe_to_value r) in
    (
      recipe_header ++ body,
      rw (v, encode-emit (recipe_to_value r) ((recipe-IsCanonical r t).0)),
      rw (header_found body) (body_read r t v),
    )
