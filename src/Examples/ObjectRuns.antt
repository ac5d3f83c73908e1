-- ===== src/Examples/ObjectRuns.antt =====
-- crates/datboi-core/src/hash.rs, object.rs and recipe.rs on concrete inputs.
use datboi.Base.{
  arith, ℕ, List, [], ◌∷◌, ◌++◌, ◌≡◌, refl, ok, some, none, ◌↔◌, length, replicate, list_eq,
}
use datboi.Utf8.{is_utf8, valid_from, next_byte, first_byte}
use datboi.Cbor.Decode.{
  value, body, text_of, entries, entry_key, out_of_order, items, check_count, take_bytes, head,
  head_arg, wide_arg, be_uint, byte,
}
use datboi.Cbor.Decode.{decode as cbor_decode}
use datboi.Cbor.Access.{find_key, collect}
use datboi.Cbor.Fields.{for_entries}
use datboi.Hash.{from_str, to_hex, IsHash, from_str-eq-ok_iff}
use datboi.Object.Sniff.{
  sniff, sniff_line, parse_version, parse_u32, leading_zero, all_digits, is_digit, split_once,
  strip_prefix, kind_of, tag, recipe,
}
use datboi.Object.Header.{header, sniff_sound}
use datboi.Recipe.Defs
use datboi.Recipe.Defs.{Recipe, builtin}
use datboi.Recipe.Encode.{encode, recipe_header}
use datboi.Recipe.Decode
use datboi.Recipe.Bytes.{encode-decode_recipe}
use datboi.Recipe.Typed.{IsRecipe}
use datboi.Recipe.Valid.{known, known_op}
use datboi.Recipe.Defs.{World, wasm, other, transform1, transform1_name, parse_world, as_str}
use datboi.Recipe.Valid.{decode-encode_recipe}
use datboi.Examples.Inputs.{all_bytes-IsBytes}

from_str-eq-ok_iff_example :
    (from_str (replicate 64 b'a') ≡ ok (replicate 32 0xaa))
    ↔ (IsHash (replicate 32 0xaa) × (replicate 64 b'a' ≡ to_hex (replicate 32 0xaa)))
from_str-eq-ok_iff_example = from_str-eq-ok_iff (replicate 64 b'a') (replicate 32 0xaa)

-- A recipe of a builtin "x" of major 1, without inputs, with one output of 5 bytes.
abbrev recipe_bytes : List ℕ
recipe_bytes =
    recipe_header
    ++ (0xa3
        ∷ 1
        ∷ 0xa3
        ∷ 1
        ∷ 0x61
        ∷ b'b'
        ∷ 2
        ∷ 0x61
        ∷ b'x'
        ∷ 3
        ∷ 1
        ∷ 2
        ∷ 0x80
        ∷ 3
        ∷ 0x81
        ∷ 0xa2
        ∷ 1
        ∷ 0x58
        ∷ 32
        ∷ (replicate 32 7 ++ (2 ∷ 5 ∷ [])))

abbrev sample : Recipe
sample = record {
  op = builtin (b'x' ∷ []) 1;
  inputs = [];
  outputs = record { hash = replicate 32 7; size = 5; name = none } ∷ [];
  params = [];
}

found : sniff recipe_bytes ≡ some (recipe, 1, 16)
unfolding sniff sniff_line parse_version parse_u32 leading_zero all_digits is_digit split_once
    strip_prefix kind_of tag is_utf8 valid_from next_byte first_byte list_eq
found = refl

sniff_sound_example :
    (version : List ℕ) × (body : List ℕ) × (recipe_bytes ≡ header recipe version ++ body)
    × (parse_version version ≡ some 1)
    × (16 ≡ length (header recipe version))
sniff_sound_example = sniff_sound recipe_bytes recipe 1 16 found

recipe_decodes : Decode.decode recipe_bytes ≡ ok sample
unfolding sniff sniff_line parse_version parse_u32 leading_zero all_digits is_digit split_once
    strip_prefix kind_of tag is_utf8 valid_from next_byte first_byte cbor_decode value body text_of
    entries entry_key out_of_order items check_count take_bytes head head_arg wide_arg be_uint byte
    find_key collect for_entries Decode.decode Decode.decode_sniffed Decode.decode_body
    Decode.recipe_from_entries Decode.recipe_field Decode.output_from_value Decode.output_field
    Decode.refs_from_value Decode.op_from_value Decode.builtin_from_entries Decode.builtin_field
    Decode.as_map Decode.as_text Decode.as_uint Decode.as_bytes Decode.as_hash Defs.validate
    Defs.check_text Defs.check_roles Defs.check_names Defs.check_op list_eq
recipe_decodes = refl

encode-decode_recipe_example : encode sample ≡ ok recipe_bytes
encode-decode_recipe_example =
    encode-decode_recipe recipe_bytes sample (all_bytes-IsBytes recipe_bytes refl) recipe_decodes

-- A component with the name of a known world.
abbrev component : World → Recipe
component world = record {
  op = wasm (replicate 32 9) world (b'x' ∷ []);
  inputs = [];
  outputs = record { hash = replicate 32 7; size = 5; name = none } ∷ [];
  params = 1 ∷ [];
}

abbrev named_other : Recipe
named_other = component (other transform1_name)

named_other-IsRecipe : IsRecipe named_other
unfolding is_utf8 valid_from next_byte first_byte as_str
named_other-IsRecipe = record {
  op = (
    (all_bytes-IsBytes (replicate 32 9) refl, refl),
    (omega arith, all_bytes-IsBytes transform1_name refl, refl),
    (omega arith, (omega arith, tt), refl),
  );
  inputs = tt;
  input_count = omega arith;
  outputs = (((all_bytes-IsBytes (replicate 32 7) refl, refl), omega arith, tt), tt);
  output_count = omega arith;
  params = (omega arith, tt);
  params_length = omega arith;
}

named_other_validates : Defs.validate named_other ≡ ok tt
unfolding Defs.validate Defs.check_text Defs.check_roles Defs.check_names Defs.check_op as_str
named_other_validates = refl

decode-encode_recipe_example :
    (bs : List ℕ) × (encode named_other ≡ ok bs) × (Decode.decode bs ≡ ok (component transform1))
unfolding known known_op parse_world list_eq
decode-encode_recipe_example =
    decode-encode_recipe named_other named_other-IsRecipe named_other_validates
