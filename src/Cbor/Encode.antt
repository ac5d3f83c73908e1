-- ===== src/Cbor/Encode.antt =====
-- `encode`, `encode_into` and `put_head` of crates/datboi-core/src/cbor.rs. What the source pushes
-- onto `out` is the result; on an error `out` is dropped by `encode`.
use datboi.Base.{ℕ, zero, suc, ◌*◌, ◌/◌, ◌%◌, ◌^◌, bit_or, Option, none, some, List, [], ◌∷◌}
use datboi.Base.{◌++◌, length, ltb, leb, ◌==◌, if◌then◌else◌, Result, ok, err, and_then}
use datboi.Cbor.Value.{
  Value, Items, Entries, uint, bytes, text, array, map, nil, cons, end, entry, EncodeError,
  duplicate_key, length_items, major_uint, major_bytes, major_text, major_array, major_map,
}

-- `to_be_bytes` of a number of so many bytes.
unfoldable pub to_be_bytes : ℕ → ℕ → List ℕ
to_be_bytes zero v = []
to_be_bytes (suc w) v = to_be_bytes w (v / 256) ++ ((v % 256) ∷ [])

unfoldable pub put_head : ℕ → ℕ → List ℕ
put_head major value =
    let m = major * 2 ^ 5 % 2 ^ 8 in
    if ltb value 24
    then bit_or m value ∷ []
    else if ltb value (2 ^ 8)
    then bit_or m 24 ∷ value ∷ []
    else if ltb value (2 ^ 16)
    then bit_or m 25 ∷ to_be_bytes 2 value
    else if ltb value (2 ^ 32)
    then bit_or m 26 ∷ to_be_bytes 4 value
    else bit_or m 27 ∷ to_be_bytes 8 value

-- `sort_by_key` on the first component; it is stable.
module _ {ℓ} {A : Type ℓ} where
  unfoldable pub insert_by_key : ℕ → A → List (ℕ × A) → List (ℕ × A)
  insert_by_key k a [] = (k, a) ∷ []
  insert_by_key k a ((j, b) ∷ l) =
      if leb k j then (k, a) ∷ (j, b) ∷ l else (j, b) ∷ insert_by_key k a l

  unfoldable pub sort_by_key : List (ℕ × A) → List (ℕ × A)
  unfolding insert_by_key
  sort_by_key [] = []
  sort_by_key ((k, a) ∷ l) = insert_by_key k a (sort_by_key l)

  -- The loop over `windows(2)`: the first key that its successor repeats.
  unfoldable pub repeated_key : List (ℕ × A) → Option ℕ
  repeated_key [] = none
  repeated_key ((k, a) ∷ []) = none
  repeated_key ((k, a) ∷ (j, b) ∷ l) =
      let later = repeated_key ((j, b) ∷ l) in if k == j then some k else later

abbrev pub Encoded : Type 0
Encoded = Result EncodeError (List ℕ)

-- The last loop of the map case, over the sorted entries and what encoding each value gives.
unfoldable pub put_entries : List (ℕ × Encoded) → Encoded
put_entries [] = ok []
put_entries ((key, val) ∷ l) =
    and_then val λ bs. and_then (put_entries l) λ more. ok (put_head major_uint key ++ (bs ++ more))

unfoldable pub put_map : List (ℕ × Encoded) → Encoded
put_map sorted = elim (repeated_key sorted) [
  | some k ↦ err (duplicate_key k)
  | none ↦ and_then (put_entries sorted) λ body. ok (put_head major_map (length sorted) ++ body)
]

-- The entries of a map are encoded before they are sorted, since the recursion is on the value;
-- sorting moves each key with what its value encodes to, and no error is looked at before.
unfoldable mutual
  pub encode : Value → Encoded
  encode (uint n) = ok (put_head major_uint n)
  encode (bytes b) = ok (put_head major_bytes (length b) ++ b)
  encode (text t) = ok (put_head major_text (length t) ++ t)
  encode (array vs) =
      and_then (encode_items vs) λ body. ok (put_head major_array (length_items vs) ++ body)
  encode (map es) = put_map (sort_by_key (encode_entries es))

  pub encode_items : Items → Encoded
  encode_items nil = ok []
  encode_items (cons v vs) =
      and_then (encode v) λ bs. and_then (encode_items vs) λ more. ok (bs ++ more)

  pub encode_entries : Entries → List (ℕ × Encoded)
  encode_entries end = []
  encode_entries (entry k v es) = (k, encode v) ∷ encode_entries es
