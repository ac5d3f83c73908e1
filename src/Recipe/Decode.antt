-- ===== src/Recipe/Decode.antt =====
-- `Recipe::decode` of crates/datboi-core/src/recipe.rs.
use datboi.Base.{
  ℕ, ◌^◌, List, [], Option, none, some, length, drop, ltb, ◌==◌, list_eq, if◌then◌else◌, Result, ok,
  err, and_then, map_err, ok_or,
}
use datboi.Cbor.Value.{Value, Entries, uint, bytes, text, array, map}
use datboi.Cbor.Decode.{decode as cbor_decode}
use datboi.Cbor.Access.{find_key, collect}
use datboi.Cbor.Fields.{for_entries}
use datboi.Object.Sniff.{
  sniff, ObjectKind, recipe, view_snapshot, state_snapshot, alias_batch, analysis_batch,
}
use datboi.Recipe.Defs.{
  World, parse_world, Op, builtin, wasm, InputRef, OutputRef, Recipe, RecipeError, not_a_recipe,
  version, cbor, invalid, empty_params, unknown_recipe_key, missing_op, missing_inputs,
  missing_outputs, op_missing_kind, major_range, unknown_builtin_key, builtin_missing_name,
  builtin_missing_major, unknown_wasm_key, wasm_missing_component, wasm_missing_world,
  wasm_missing_export, unknown_op_kind, expected_array, unknown_input_key, input_missing_hash,
  unknown_output_key, output_missing_hash, output_missing_size, expected_map, expected_text,
  expected_uint, expected_bytes, hash_length, validate,
}
use datboi.Recipe.Encode.{kind_builtin, kind_wasm}

abbrev pub R : Type 0 → Type 0
R A = Result RecipeError A

unfoldable pub as_map : Value → R Entries
as_map (map es) = ok es
as_map v = err (invalid expected_map)

unfoldable pub as_text : Value → R (List ℕ)
as_text (text t) = ok t
as_text v = err (invalid expected_text)

unfoldable pub as_uint : Value → R ℕ
as_uint (uint n) = ok n
as_uint v = err (invalid expected_uint)

unfoldable pub as_bytes : Value → R (List ℕ)
as_bytes (bytes b) = ok b
as_bytes v = err (invalid expected_bytes)

unfoldable pub as_hash : Value → R (List ℕ)
unfolding as_bytes
as_hash v = and_then (as_bytes v) λ b. if length b == 32 then ok b else err (invalid hash_length)

-- The variables of the loop of each reader.
pub record BuiltinFields : Type 0 where
  pub name : Option (List ℕ)
  pub major : Option ℕ

unfoldable pub builtin_field : ℕ → Value → BuiltinFields → R BuiltinFields
unfolding as_text as_uint
builtin_field key val st =
    if key == 1
    then ok st
    else if key == 2
    then (and_then (as_text val) λ t. ok (record st { name = some t }))
    else if key == 3
    then (and_then (as_uint val) λ raw.
        if ltb raw (2 ^ 32) then ok (record st { major = some raw }) else err (invalid major_range))
    else err (invalid unknown_builtin_key)

unfoldable pub builtin_from_entries : Entries → R Op
builtin_from_entries es =
    and_then (for_entries builtin_field es (record { name = none; major = none })) λ st.
      and_then (ok_or (invalid builtin_missing_name) st.name) λ name.
        and_then (ok_or (invalid builtin_missing_major) st.major) λ major. ok (builtin name major)

pub record WasmFields : Type 0 where
  pub component : Option (List ℕ)
  pub world : Option World
  pub export : Option (List ℕ)

unfoldable pub wasm_field : ℕ → Value → WasmFields → R WasmFields
unfolding as_text as_hash
wasm_field key val st =
    if key == 1
    then ok st
    else if key == 2
    then (and_then (as_hash val) λ h. ok (record st { component = some h }))
    else if key == 3
    then (and_then (as_text val) λ t. ok (record st { world = some (parse_world t) }))
    else if key == 4
    then (and_then (as_text val) λ t. ok (record st { export = some t }))
    else err (invalid unknown_wasm_key)

unfoldable pub wasm_from_entries : Entries → R Op
wasm_from_entries es =
    and_then (for_entries wasm_field es (record { component = none; world = none; export = none }))
      λ st. and_then (ok_or (invalid wasm_missing_component) st.component) λ component.
        and_then (ok_or (invalid wasm_missing_world) st.world) λ world.
          and_then (ok_or (invalid wasm_missing_export) st.export)
            λ export. ok (wasm component world export)

unfoldable pub op_from_value : Value → R Op
op_from_value value = and_then (as_map value) λ es.
    and_then (ok_or (invalid op_missing_kind) (find_key 1 es)) λ kind. and_then (as_text kind) λ t.
      if list_eq t kind_builtin
      then builtin_from_entries es
      else if list_eq t kind_wasm
      then wasm_from_entries es
      else err (invalid unknown_op_kind)

unfoldable pub refs_from_value : {A : Type 0} → (Value → R A) → Value → R (List A)
refs_from_value parse (array items) = collect parse items
refs_from_value parse v = err (invalid expected_array)

pub record InputFields : Type 0 where
  pub hash : Option (List ℕ)
  pub role : Option (List ℕ)

unfoldable pub input_field : ℕ → Value → InputFields → R InputFields
unfolding as_text as_hash
input_field key val st =
    if key == 1
    then (and_then (as_hash val) λ h. ok (record st { hash = some h }))
    else if key == 2
    then (and_then (as_text val) λ t. ok (record st { role = some t }))
    else err (invalid unknown_input_key)

unfoldable pub input_from_value : Value → R InputRef
input_from_value value = and_then (as_map value) λ es.
    and_then (for_entries input_field es (record { hash = none; role = none })) λ st.
      and_then (ok_or (invalid input_missing_hash) st.hash)
        λ h. ok (record { hash = h; role = st.role })

pub record OutputFields : Type 0 where
  pub hash : Option (List ℕ)
  pub size : Option ℕ
  pub name : Option (List ℕ)

unfoldable pub output_field : ℕ → Value → OutputFields → R OutputFields
unfolding as_text as_uint as_hash
output_field key val st =
    if key == 1
    then (and_then (as_hash val) λ h. ok (record st { hash = some h }))
    else if key == 2
    then (and_then (as_uint val) λ n. ok (record st { size = some n }))
    else if key == 3
    then (and_then (as_text val) λ t. ok (record st { name = some t }))
    else err (invalid unknown_output_key)

unfoldable pub output_from_value : Value → R OutputRef
output_from_value value = and_then (as_map value) λ es.
    and_then (for_entries output_field es (record { hash = none; size = none; name = none })) λ st.
      and_then (ok_or (invalid output_missing_hash) st.hash) λ h.
        and_then (ok_or (invalid output_missing_size) st.size)
          λ size. ok (record { hash = h; size = size; name = st.name })

pub record RecipeFields : Type 0 where
  pub op : Option Op
  pub inputs : Option (List InputRef)
  pub outputs : Option (List OutputRef)
  pub params : List ℕ

unfoldable pub recipe_field : ℕ → Value → RecipeFields → R RecipeFields
recipe_field key val st =
    if key == 1
    then (and_then (op_from_value val) λ op. ok (record st { op = some op }))
    else if key == 2
    then (and_then (refs_from_value input_from_value val) λ is. ok (record st { inputs = some is }))
    else if key == 3
    then (and_then (refs_from_value output_from_value val)
        λ os. ok (record st { outputs = some os }))
    else if key == 4
    then (and_then (as_bytes val)
        λ b. if length b == 0 then err (invalid empty_params) else ok (record st { params = b }))
    else err (invalid unknown_recipe_key)

unfoldable pub recipe_from_entries : Entries → R Recipe
recipe_from_entries es =
    and_then
      (for_entries recipe_field es
        (record { op = none; inputs = none; outputs = none; params = [] }))
      λ st. and_then (ok_or (invalid missing_op) st.op) λ op.
        and_then (ok_or (invalid missing_inputs) st.inputs) λ inputs.
          and_then (ok_or (invalid missing_outputs) st.outputs) λ outputs.
            let r : Recipe = record {
              op = op;
              inputs = inputs;
              outputs = outputs;
              params = st.params;
            } in
            and_then (validate r) λ _. ok r

-- From the CBOR bytes behind the header on.
unfoldable pub decode_body : List ℕ → R Recipe
decode_body bs =
    and_then (map_err cbor (cbor_decode bs))
      λ value. and_then (as_map value) λ es. recipe_from_entries es

unfoldable pub decode_sniffed : List ℕ → ObjectKind × ℕ × ℕ → R Recipe
decode_sniffed bs (recipe, v, at) = if v == 1 then decode_body (drop at bs) else err (version v)
decode_sniffed bs (view_snapshot, v, at) = err not_a_recipe
decode_sniffed bs (state_snapshot, v, at) = err not_a_recipe
decode_sniffed bs (alias_batch, v, at) = err not_a_recipe
decode_sniffed bs (analysis_batch, v, at) = err not_a_recipe

unfoldable pub decode : List ℕ → R Recipe
decode bs = and_then (ok_or not_a_recipe (sniff bs)) λ found. decode_sniffed bs found
