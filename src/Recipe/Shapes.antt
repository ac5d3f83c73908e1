-- ===== src/Recipe/Shapes.antt =====
-- The maps that the readers of crates/datboi-core/src/recipe.rs accept are those that the writers
-- make.
use datboi.Base.{
  ℕ, ◌≤◌, ◌<◌, List, Option, none, some, list_eq, list_eq→eq, ok, ◌≡◌, arith, Bool-cases, inl, inr,
}
use datboi.Cbor.Value.{Value, Entries, text, map, end}
use datboi.Cbor.Fields.{for_entries, opt}
use datboi.Recipe.Defs.{
  transform1_name, extractor1_name, as_str, parse_world, Op, InputRef, OutputRef,
}
use datboi.Recipe.Encode.{kind_builtin, kind_wasm, op_to_value, input_to_value, output_to_value}
use datboi.Recipe.Decode.{
  as_map, BuiltinFields, builtin_field, builtin_from_entries, WasmFields, wasm_field,
  wasm_from_entries, InputFields, input_field, input_from_value, OutputFields, output_field,
  output_from_value,
}

pub as_str-parse_world : (t : List ℕ) → as_str (parse_world t) ≡ t
unfolding as_str parse_world
as_str-parse_world t = elim (Bool-cases (list_eq t transform1_name)) [
  | inl a ↦ rw (a, list_eq→eq t _ a)
  | inr na ↦ elim (Bool-cases (list_eq t extractor1_name)) [
    | inl b ↦ rw (na, b, list_eq→eq t _ b)
    | inr nb ↦ rw (na, nb)
  ]
]

-- The fields that each loop knows.
pub input_known :
    (k : ℕ) (v : Value) (st st' : InputFields) → input_field k v st ≡ ok st' → (1 ≤ k) × (k < 3)
unfolding input_field
input_known k v st st' e = ground arith

pub output_known :
    (k : ℕ) (v : Value) (st st' : OutputFields) → output_field k v st ≡ ok st' → (1 ≤ k) × (k < 4)
unfolding output_field
output_known k v st st' e = ground arith

pub builtin_known :
    (k : ℕ) (v : Value) (st st' : BuiltinFields) → builtin_field k v st ≡ ok st' → (1 ≤ k) × (k < 4)
unfolding builtin_field
builtin_known k v st st' e = ground arith

pub wasm_known :
    (k : ℕ) (v : Value) (st st' : WasmFields) → wasm_field k v st ≡ ok st' → (1 ≤ k) × (k < 5)
unfolding wasm_field
wasm_known k v st st' e = ground arith

abbrev pub fields2 : Option Value → Option Value → Entries
fields2 o p = opt 1 o (opt 2 p end)

abbrev pub fields3 : Option Value → Option Value → Option Value → Entries
fields3 o p q = opt 1 o (opt 2 p (opt 3 q end))

abbrev pub fields4 : Option Value → Option Value → Option Value → Option Value → Entries
fields4 o p q r = opt 1 o (opt 2 p (opt 3 q (opt 4 r end)))

pub input_shape :
    (o p : Option Value) (i : InputRef)
    → input_from_value (map (fields2 o p)) ≡ ok i
    → input_to_value i ≡ map (fields2 o p)
unfolding input_from_value input_field for_entries input_to_value as_map
input_shape none none i e = ground arith
input_shape none (some p) i e = ground arith
input_shape (some o) none i e = ground arith
input_shape (some o) (some p) i e = ground arith

pub output_shape :
    (o p q : Option Value) (i : OutputRef)
    → output_from_value (map (fields3 o p q)) ≡ ok i
    → output_to_value i ≡ map (fields3 o p q)
unfolding output_from_value output_field for_entries output_to_value as_map
output_shape none none none i e = ground arith
output_shape _ _ _ i e = ground arith

pub builtin_shape :
    (p q : Option Value) (op : Op)
    → builtin_from_entries (fields3 (some (text kind_builtin)) p q) ≡ ok op
    → op_to_value op ≡ map (fields3 (some (text kind_builtin)) p q)
unfolding builtin_from_entries builtin_field for_entries op_to_value
builtin_shape none none op e = ground arith
builtin_shape _ _ op e = ground arith

pub wasm_shape :
    (p q r : Option Value) (op : Op)
    → wasm_from_entries (fields4 (some (text kind_wasm)) p q r) ≡ ok op
    → op_to_value op ≡ map (fields4 (some (text kind_wasm)) p q r)
unfolding wasm_from_entries wasm_field for_entries op_to_value
wasm_shape none none none op e = ground arith
wasm_shape (some p) (some (text q)) (some r) op e = ground (arith, as_str-parse_world q)
wasm_shape _ _ _ op e = ground arith
