-- ===== src/Recipe/Defs.antt =====
-- The types of crates/datboi-core/src/recipe.rs, and `Recipe::validate`. A text is the list of its
-- UTF-8 bytes, a hash the list of its 32 bytes.
use datboi.Base.{
  ℕ, List, [], ◌∷◌, Option, none, some, length, ◌==◌, ◌||◌, list_eq, if◌then◌else◌, Result, ok, err,
  and_then,
}
use datboi.Cbor.Value.{DecodeError}

-- `World`
pub data World : Type 0 where
  transform1 extractor1 : World
  other : List ℕ → World

abbrev pub transform1_name : List ℕ
transform1_name =
    b'd' ∷ b'a' ∷ b't' ∷ b'b' ∷ b'o' ∷ b'i' ∷ b':' ∷ b't' ∷ b'r' ∷ b'a' ∷ b'n' ∷ b's' ∷ b'f' ∷ b'o'
    ∷ b'r' ∷ b'm' ∷ b'@' ∷ b'1' ∷ []

abbrev pub extractor1_name : List ℕ
extractor1_name =
    b'd' ∷ b'a' ∷ b't' ∷ b'b' ∷ b'o' ∷ b'i' ∷ b':' ∷ b'e' ∷ b'x' ∷ b't' ∷ b'r' ∷ b'a' ∷ b'c' ∷ b't'
    ∷ b'o' ∷ b'r' ∷ b'@' ∷ b'1' ∷ []

-- `World::parse`
unfoldable pub parse_world : List ℕ → World
parse_world s =
    if list_eq s transform1_name
    then transform1
    else if list_eq s extractor1_name
    then extractor1
    else other s

-- `World::as_str`
unfoldable pub as_str : World → List ℕ
as_str transform1 = transform1_name
as_str extractor1 = extractor1_name
as_str (other s) = s

-- `World::required_export`
unfoldable pub required_export : World → Option (List ℕ)
required_export extractor1 = some (b'e' ∷ b'x' ∷ b't' ∷ b'r' ∷ b'a' ∷ b'c' ∷ b't' ∷ [])
required_export w = none

pub data Op : Type 0 where
  builtin : List ℕ → ℕ → Op
  wasm : List ℕ → World → List ℕ → Op

pub record InputRef : Type 0 where
  pub hash : List ℕ
  pub role : Option (List ℕ)

pub record OutputRef : Type 0 where
  pub hash : List ℕ
  pub size : ℕ
  pub name : Option (List ℕ)

pub record Recipe : Type 0 where
  pub op : Op
  pub inputs : List InputRef
  pub outputs : List OutputRef
  pub params : List ℕ

-- The texts of `RecipeError::Invalid`.
pub data Problem : Type 0 where
  empty_params unknown_recipe_key missing_op missing_inputs missing_outputs : Problem
  empty_optional_text empty_builtin_name empty_wasm_name : Problem
  op_missing_kind major_range unknown_builtin_key builtin_missing_name builtin_missing_major :
      Problem
  unknown_wasm_key wasm_missing_component wasm_missing_world wasm_missing_export : Problem
  unknown_op_kind expected_array unknown_input_key input_missing_hash : Problem
  unknown_output_key output_missing_hash output_missing_size : Problem
  expected_map expected_text expected_uint expected_bytes hash_length : Problem

pub data RecipeError : Type 0 where
  not_a_recipe : RecipeError
  version : ℕ → RecipeError
  cbor : DecodeError → RecipeError
  no_outputs : RecipeError
  invalid : Problem → RecipeError
  -- No value of the source: the `expect` of `encode` would panic.
  panicked : RecipeError

-- `text.is_empty()` on an optional text; an absent one passes.
unfoldable pub check_text : Option (List ℕ) → Result RecipeError (Unit {0})
check_text none = ok tt
check_text (some t) = if length t == 0 then err (invalid empty_optional_text) else ok tt

-- The loop over the inputs' roles, then the outputs' names.
unfoldable pub check_roles : List InputRef → Result RecipeError (Unit {0})
check_roles [] = ok tt
check_roles (i ∷ is) = and_then (check_text (i.role)) λ _. check_roles is

unfoldable pub check_names : List OutputRef → Result RecipeError (Unit {0})
check_names [] = ok tt
check_names (o ∷ os) = and_then (check_text (o.name)) λ _. check_names os

unfoldable pub check_op : Op → Result RecipeError (Unit {0})
check_op (builtin name major) = if length name == 0 then err (invalid empty_builtin_name) else ok tt
check_op (wasm component world export) =
    if length (as_str world) == 0 || length export == 0
    then err (invalid empty_wasm_name)
    else ok tt

unfoldable pub validate : Recipe → Result RecipeError (Unit {0})
validate r =
    if length r.outputs == 0
    then err no_outputs
    else (and_then (check_roles r.inputs) λ _. and_then (check_names r.outputs) λ _. check_op r.op)
