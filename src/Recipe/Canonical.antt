-- ===== src/Recipe/Canonical.antt =====
-- The bytes of a recipe object of crates/datboi-core/src/recipe.rs are determined by the recipe.
use datboi.Base.{
  ℕ, List, Option, none, some, list_eq, list_eq→eq, if◌then◌else◌, Result, ok, err, ok_or,
  and_then-eq-ok, ◌≡◌, ap, ◌∙◌, arith, Bool-cases, inl, inr,
}
use datboi.Cbor.Value.{Value, Entries, uint, bytes, text, array, map}
use datboi.Cbor.Canonical.{IsCanonical, Ascends}
use datboi.Cbor.Access.{find_key, items_of, items_of-collect_canonical}
use datboi.Cbor.Fields.{for_entries, for_entries-KeysIn_one, two_fields, three_fields, four_fields}
use datboi.Recipe.Defs.{
  Op, InputRef, OutputRef, RecipeError, invalid, op_missing_kind, unknown_op_kind,
}
use datboi.Recipe.Encode.{kind_builtin, kind_wasm, op_to_value, input_to_value, output_to_value}
use datboi.Recipe.Decode.{
  as_map, as_text, builtin_field, builtin_from_entries, wasm_field, wasm_from_entries,
  op_from_value, input_field, input_from_value, output_field, output_from_value, refs_from_value,
}
use datboi.Recipe.Shapes.{
  input_known, output_known, builtin_known, wasm_known, fields3, fields4, input_shape, output_shape,
  builtin_shape, wasm_shape,
}

-- A value that a reader takes for an input is the one written for that input.
pub input_written :
    (v : Value) (i : InputRef) → IsCanonical v → input_from_value v ≡ ok i → input_to_value i ≡ v
unfolding input_from_value as_map IsCanonical
input_written (map es) i (hl, ha) e =
    let (st, e₁, e₂) = and_then-eq-ok (for_entries input_field es _) _ e in
    let (o, p, q) =
      two_fields 1 es (for_entries-KeysIn_one input_field 3 es _ st input_known ha e₁) in
    rw q (input_shape o p i (unfold input_from_value as_map in rw q at e))
input_written (uint n) i c e = cc
input_written (bytes b) i c e = cc
input_written (text t) i c e = cc
input_written (array vs) i c e = cc

pub output_written :
    (v : Value) (i : OutputRef) → IsCanonical v → output_from_value v ≡ ok i → output_to_value i ≡ v
unfolding output_from_value as_map IsCanonical
output_written (map es) i (hl, ha) e =
    let (st, e₁, e₂) = and_then-eq-ok (for_entries output_field es _) _ e in
    let (o, p, r, q) =
      three_fields 1 es (for_entries-KeysIn_one output_field 4 es _ st output_known ha e₁) in
    rw q (output_shape o p r i (unfold output_from_value as_map in rw q at e))
output_written (uint n) i c e = cc
output_written (bytes b) i c e = cc
output_written (text t) i c e = cc
output_written (array vs) i c e = cc

builtin_fields :
    (es : Entries) (op : Op)
    → Ascends none es
    → builtin_from_entries es ≡ ok op
    → (o : Option Value) × (p : Option Value) × (r : Option Value) × (es ≡ fields3 o p r)
unfolding builtin_from_entries
builtin_fields es op ha e =
    let (st, e₁, e₂) = and_then-eq-ok (for_entries builtin_field es _) _ e in
    three_fields 1 es (for_entries-KeysIn_one builtin_field 4 es _ st builtin_known ha e₁)

wasm_fields :
    (es : Entries) (op : Op)
    → Ascends none es
    → wasm_from_entries es ≡ ok op
    → (o : Option Value) × (p : Option Value) × (r : Option Value) × (s : Option Value) × (es
        ≡ fields4 o p r s)
unfolding wasm_from_entries
wasm_fields es op ha e =
    let (st, e₁, e₂) = and_then-eq-ok (for_entries wasm_field es _) _ e in
    four_fields 1 es (for_entries-KeysIn_one wasm_field 5 es _ st wasm_known ha e₁)

builtin_written :
    (es : Entries) (op : Op)
    → Ascends none es
    → find_key 1 es ≡ some (text kind_builtin)
    → builtin_from_entries es ≡ ok op
    → op_to_value op ≡ map es
builtin_written es op ha k e =
    let (o, p, r, q) = builtin_fields es op ha e in
    let first : o ≡ some (text kind_builtin) = kind_first o p r (rw q at k) in
    rw (q, first) (builtin_shape p r op (rw (q, first) at e))
  where
    kind_first :
        (o p r : Option Value)
        → find_key 1 (fields3 o p r) ≡ some (text kind_builtin)
        → o ≡ some (text kind_builtin)
    kind_first none none none k = unfold find_key in ground arith
    kind_first _ _ _ k = unfold find_key in ground arith

wasm_written :
    (es : Entries) (op : Op)
    → Ascends none es
    → find_key 1 es ≡ some (text kind_wasm)
    → wasm_from_entries es ≡ ok op
    → op_to_value op ≡ map es
wasm_written es op ha k e =
    let (o, p, r, s, q) = wasm_fields es op ha e in
    let first : o ≡ some (text kind_wasm) = kind_first o p r s (rw q at k) in
    rw (q, first) (wasm_shape p r s op (rw (q, first) at e))
  where
    kind_first :
        (o p r s : Option Value)
        → find_key 1 (fields4 o p r s) ≡ some (text kind_wasm)
        → o ≡ some (text kind_wasm)
    kind_first none none none none k = unfold find_key in ground arith
    kind_first _ _ _ _ k = unfold find_key in ground arith

op_by_kind :
    (es : Entries) (t : List ℕ) (op : Op)
    → Ascends none es
    → find_key 1 es ≡ some (text t)
    → (if list_eq t kind_builtin
        then builtin_from_entries es
        else if list_eq t kind_wasm
        then wasm_from_entries es
        else err (invalid unknown_op_kind))
      ≡ ok op
    → op_to_value op ≡ map es
op_by_kind es t op ha k e = elim (Bool-cases (list_eq t kind_builtin)) [
  | inl b ↦ builtin_written es op ha (rw (list_eq→eq t _ b) at k) (rw b at e)
  | inr nb ↦ elim (Bool-cases (list_eq t kind_wasm)) [
    | inl w ↦ wasm_written es op ha (rw (list_eq→eq t _ w) at k) (rw (nb, w) at e)
    | inr nw ↦ cc (rw (nb, nw) at e)
  ]
]

text_value : (v : Value) (t : List ℕ) → as_text v ≡ ok t → v ≡ text t
unfolding as_text
text_value (text u) t e = cc
text_value (uint n) t e = cc
text_value (bytes b) t e = cc
text_value (array vs) t e = cc
text_value (map es) t e = cc

found_kind : (x : RecipeError) (o : Option Value) (v : Value) → ok_or x o ≡ ok v → o ≡ some v
found_kind x none v e = cc
found_kind x (some w) v e = cc

pub op_written :
    (v : Value) (op : Op) → IsCanonical v → op_from_value v ≡ ok op → op_to_value op ≡ v
unfolding op_from_value as_map IsCanonical
op_written (map es) op (hl, ha) e =
    let (kind, e₁, e₂) = and_then-eq-ok (ok_or (invalid op_missing_kind) (find_key 1 es)) _ e in
    let (t, e₃, e₄) = and_then-eq-ok (as_text kind) _ e₂ in
    let k = found_kind _ (find_key 1 es) kind e₁ in
    op_by_kind es t op ha (k ∙ ap some (text_value kind t e₃)) e₄
op_written (uint n) op c e = cc
op_written (bytes b) op c e = cc
op_written (text t) op c e = cc
op_written (array vs) op c e = cc

pub refs_written :
    {A : Type 0} (parse : Value → Result RecipeError A) (write : A → Value) (v : Value) (l : List A)
    → ((v : Value) (a : A) → IsCanonical v → parse v ≡ ok a → write a ≡ v)
    → IsCanonical v
    → refs_from_value parse v ≡ ok l
    → array (items_of write l) ≡ v
unfolding refs_from_value IsCanonical
refs_written parse write (array vs) l h c e =
    ap array (items_of-collect_canonical parse write vs l h c.1 e)
refs_written parse write (uint n) l h c e = cc
refs_written parse write (bytes n) l h c e = cc
refs_written parse write (text n) l h c e = cc
refs_written parse write (map n) l h c e = cc
