-- ===== src/Recipe/Encode.antt =====
-- `Recipe::encode` of crates/datboi-core/src/recipe.rs.
use datboi.Base.{ℕ, List, [], ◌∷◌, ◌++◌, Option, none, some, Result, ok, and_then, map_err}
use datboi.Cbor.Value.{Value, Entries, uint, bytes, text, array, map, end, entry}
use datboi.Cbor.Encode as Cbor
use datboi.Cbor.Access.{items_of}
use datboi.Recipe.Defs.{
  Op, builtin, wasm, as_str, InputRef, OutputRef, Recipe, RecipeError, panicked, validate,
}

-- `HEADER`, "datboi/recipe/1" and a line feed.
abbrev pub recipe_header : List ℕ
recipe_header =
    b'd' ∷ b'a' ∷ b't' ∷ b'b' ∷ b'o' ∷ b'i' ∷ b'/' ∷ b'r' ∷ b'e' ∷ b'c' ∷ b'i' ∷ b'p' ∷ b'e' ∷ b'/'
    ∷ b'1' ∷ b'\n' ∷ []

abbrev pub kind_builtin : List ℕ
kind_builtin = b'b' ∷ []

abbrev pub kind_wasm : List ℕ
kind_wasm = b'w' ∷ []

unfoldable pub op_to_value : Op → Value
op_to_value (builtin name major) =
    map (entry 1 (text kind_builtin) (entry 2 (text name) (entry 3 (uint major) end)))
op_to_value (wasm component world export) = map (
    entry 1 (text kind_wasm)
      (entry 2 (bytes component) (entry 3 (text (as_str world)) (entry 4 (text export) end))))

-- An optional text at the end of a map.
unfoldable pub text_entry : ℕ → Option (List ℕ) → Entries
text_entry k none = end
text_entry k (some t) = entry k (text t) end

unfoldable pub input_to_value : InputRef → Value
unfolding text_entry
input_to_value i = map (entry 1 (bytes (i.hash)) (text_entry 2 (i.role)))

unfoldable pub output_to_value : OutputRef → Value
unfolding text_entry
output_to_value o = map (entry 1 (bytes (o.hash)) (entry 2 (uint (o.size)) (text_entry 3 (o.name))))

unfoldable pub params_entry : List ℕ → Entries
params_entry [] = end
params_entry (b ∷ bs) = entry 4 (bytes (b ∷ bs)) end

-- The map that `encode` builds.
unfoldable pub recipe_to_value : Recipe → Value
recipe_to_value r = map (
    entry 1 (op_to_value (r.op)) (
      entry 2 (array (items_of input_to_value r.inputs))
        (entry 3 (array (items_of output_to_value r.outputs)) (params_entry r.params))))

unfoldable pub encode : Recipe → Result RecipeError (List ℕ)
encode r = and_then (validate r) λ _.
    and_then (map_err (λ _. panicked) (Cbor.encode (recipe_to_value r)))
      λ body. ok (recipe_header ++ body)
