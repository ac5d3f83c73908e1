-- ===== src/Recipe/Typed.antt =====
-- Recipes of crates/datboi-core/src/recipe.rs whose fields are in range are canonical values.
use datboi.Base.{
  ℕ, ◌+◌, ◌≤◌, List, [], ◌∷◌, Option, none, some, length, All, IsBytes, IsU32, IsU64, refl, arith,
}
use datboi.Utf8.{IsUtf8, is_utf8, valid_from, next_byte, first_byte}
use datboi.Hash.{IsHash}
use datboi.Cbor.Value.{Value, length_entries, uint, bytes, map, entry, max_depth}
use datboi.Cbor.Access.{items_of, length-items_of}
use datboi.Cbor.Canonical.{IsCanonical, AllCanonical, Ascends, levels, levels_items, levels_entries}
use datboi.Recipe.Defs.{Op, builtin, wasm, InputRef, OutputRef, Recipe, as_str}
use datboi.Recipe.Encode.{
  kind_builtin, kind_wasm, op_to_value, input_to_value, output_to_value, text_entry, params_entry,
  recipe_to_value,
}

-- A `String` that fits memory.
abbrev pub IsText : List ℕ → Type 0
IsText t = IsU64 (length t) × IsBytes t × IsUtf8 t

abbrev pub IsOptionalText : Option (List ℕ) → Type 0
IsOptionalText none = Unit {0}
IsOptionalText (some t) = IsText t

-- The ranges of the fields' Rust types.
abbrev pub IsOp : Op → Type 0
IsOp (builtin name major) = IsText name × IsU32 major
IsOp (wasm component world export) = IsHash component × IsText (as_str world) × IsText export

abbrev pub IsInput : InputRef → Type 0
IsInput i = IsHash (i.hash) × IsOptionalText (i.role)

abbrev pub IsOutput : OutputRef → Type 0
IsOutput o = IsHash (o.hash) × IsU64 (o.size) × IsOptionalText (o.name)

pub record IsRecipe (r : Recipe) : Type 0 where
  pub op : IsOp (r.op)
  pub inputs : All IsInput (r.inputs)
  pub input_count : IsU64 (length (r.inputs))
  pub outputs : All IsOutput (r.outputs)
  pub output_count : IsU64 (length (r.outputs))
  pub params : IsBytes (r.params)
  pub params_length : IsU64 (length (r.params))

kind_IsUtf8 : IsUtf8 kind_builtin × IsUtf8 kind_wasm
unfolding is_utf8 valid_from next_byte first_byte
kind_IsUtf8 = (refl, refl)

op-IsCanonical : (op : Op) → IsOp op → IsCanonical (op_to_value op) × (levels (op_to_value op) ≤ 2)
unfolding op_to_value IsCanonical levels
op-IsCanonical (builtin name major) (t, m) = (
  (
    omega arith,
    (
      omega arith,
      tt,
      (omega arith, (omega arith, tt), kind_IsUtf8.0),
      (omega arith, omega arith, t, (omega arith, omega arith, omega arith, tt)),
    ),
  ),
  omega arith,
)
op-IsCanonical (wasm component world export) (h, t, x) = (
  (
    omega arith,
    (
      omega arith,
      tt,
      (omega arith, (omega arith, tt), kind_IsUtf8.1),
      (
        omega arith,
        omega arith,
        (omega (arith, h.1), h.0),
        (omega arith, omega arith, t, (omega arith, omega arith, x, tt)),
      ),
    ),
  ),
  omega arith,
)

input-IsCanonical :
    (h : List ℕ) (role : Option (List ℕ))
    → IsHash h
    → IsOptionalText role
    → IsCanonical (map (entry 1 (bytes h) (text_entry 2 role)))
      × (levels (map (entry 1 (bytes h) (text_entry 2 role))) ≤ 2)
unfolding text_entry IsCanonical levels
input-IsCanonical h none t u =
    ((omega arith, (omega arith, tt, (omega (arith, t.1), t.0), tt)), omega arith)
input-IsCanonical h (some x) t u = (
  (omega arith, (omega arith, tt, (omega (arith, t.1), t.0), (omega arith, omega arith, u, tt))),
  omega arith,
)

output-IsCanonical :
    (h : List ℕ) (n : ℕ) (name : Option (List ℕ))
    → IsHash h
    → IsU64 n
    → IsOptionalText name
    → IsCanonical (map (entry 1 (bytes h) (entry 2 (uint n) (text_entry 3 name))))
      × (levels (map (entry 1 (bytes h) (entry 2 (uint n) (text_entry 3 name)))) ≤ 2)
unfolding text_entry IsCanonical levels
output-IsCanonical h n none t s u = (
  (omega arith, (omega arith, tt, (omega (arith, t.1), t.0), (omega arith, omega arith, s, tt))),
  omega arith,
)
output-IsCanonical h n (some x) t s u = (
  (
    omega arith,
    (
      omega arith,
      tt,
      (omega (arith, t.1), t.0),
      (omega arith, omega arith, s, (omega arith, omega arith, u, tt)),
    ),
  ),
  omega arith,
)

items_canonical :
    {A : Type 0} (f : A → Value) (P : A → Type 0) (l : List A)
    → ((a : A) → P a → IsCanonical (f a) × (levels (f a) ≤ 2))
    → All P l
    → AllCanonical (items_of f l) × (levels_items (items_of f l) ≤ 2)
unfolding items_of IsCanonical levels
items_canonical f P [] h a = (tt, omega arith)
items_canonical f P (x ∷ l) h (b, c) =
    let (hx, lx) = h x b in let (hl, ll) = items_canonical f P l h c in ((hx, hl), omega arith)

params_canonical :
    (params : List ℕ)
    → IsBytes params
    → IsU64 (length params)
    → Ascends (some 3) (params_entry params)
      × (length_entries (params_entry params) ≤ 1)
      × (levels_entries (params_entry params) ≤ 1)
unfolding params_entry IsCanonical levels
params_canonical [] b l = (tt, omega arith, omega arith)
params_canonical (x ∷ xs) b l = ((omega arith, omega arith, (l, b), tt), omega arith, omega arith)

pub recipe-IsCanonical :
    (r : Recipe)
    → IsRecipe r
    → IsCanonical (recipe_to_value r) × (levels (recipe_to_value r) ≤ max_depth + 1)
unfolding recipe_to_value IsCanonical levels
recipe-IsCanonical r t =
    let (op, op_levels) = op-IsCanonical (r.op) (t.op) in
    let (is, is_levels) =
      items_canonical input_to_value IsInput (r.inputs)
        (λ i h. unfold input_to_value in input-IsCanonical (i.hash) (i.role) h.0 h.1) (t.inputs) in
    let (os, os_levels) =
      items_canonical output_to_value IsOutput (r.outputs)
        (λ o h. unfold output_to_value in output-IsCanonical (o.hash) (o.size) (o.name) h.0 h.1 h.2)
        (t.outputs) in
    let (ps, ps_length, ps_levels) = params_canonical (r.params) (t.params) (t.params_length) in
    (
      (
        omega arith,
        (
          omega arith,
          tt,
          op,
          (
            omega arith,
            omega arith,
            (rw (length-items_of input_to_value (r.inputs)) (t.input_count), is),
            (
              omega arith,
              omega arith,
              (rw (length-items_of output_to_value (r.outputs)) (t.output_count), os),
              ps,
            ),
          ),
        ),
      ),
      omega arith,
    )
