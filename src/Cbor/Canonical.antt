-- ===== src/Cbor/Canonical.antt =====
-- The canonical values of the subset, and how each is printed: a specification of the encoder and
-- the decoder of crates/datboi-core/src/cbor.rs.
use datboi.Base.{
  ℕ, suc, ◌≤◌, ◌<◌, max, Option, none, some, List, [], ◌++◌, length, IsBytes, IsU64, arith,
  length-append,
}
use datboi.Utf8.{IsUtf8}
use datboi.Cbor.Value.{
  Value, Items, Entries, uint, bytes, text, array, map, nil, cons, end, entry, length_items,
  length_entries, major_uint, major_bytes, major_text, major_array, major_map,
}
use datboi.Cbor.Encode.{put_head}

-- What a value prints as, its entries in the order they stand in.
unfoldable mutual
  pub emit : Value → List ℕ
  emit (uint n) = put_head major_uint n
  emit (bytes b) = put_head major_bytes (length b) ++ b
  emit (text t) = put_head major_text (length t) ++ t
  emit (array vs) = put_head major_array (length_items vs) ++ emit_items vs
  emit (map es) = put_head major_map (length_entries es) ++ emit_entries es

  pub emit_items : Items → List ℕ
  emit_items nil = []
  emit_items (cons v vs) = emit v ++ emit_items vs

  pub emit_entries : Entries → List ℕ
  emit_entries end = []
  emit_entries (entry k v es) = put_head major_uint k ++ (emit v ++ emit_entries es)

-- A key comes after the one before it.
abbrev pub Above : Option ℕ → ℕ → Type 0
Above none k = Unit
Above (some p) k = p < k

-- Numbers and lengths fit 64 bits, texts are UTF-8, and the keys of a map strictly ascend.
unfoldable mutual
  pub IsCanonical : Value → Type 0
  IsCanonical (uint n) = IsU64 n
  IsCanonical (bytes b) = IsU64 (length b) × IsBytes b
  IsCanonical (text t) = IsU64 (length t) × IsBytes t × IsUtf8 t
  IsCanonical (array vs) = IsU64 (length_items vs) × AllCanonical vs
  IsCanonical (map es) = IsU64 (length_entries es) × Ascends none es

  pub AllCanonical : Items → Type 0
  AllCanonical nil = Unit
  AllCanonical (cons v vs) = IsCanonical v × AllCanonical vs

  pub Ascends : Option ℕ → Entries → Type 0
  Ascends prev end = Unit
  Ascends prev (entry k v es) = IsU64 k × Above prev k × IsCanonical v × Ascends (some k) es

-- How many values stand inside one another.
unfoldable mutual
  pub levels : Value → ℕ
  levels (uint n) = 1
  levels (bytes b) = 1
  levels (text t) = 1
  levels (array vs) = suc (levels_items vs)
  levels (map es) = suc (levels_entries es)

  pub levels_items : Items → ℕ
  levels_items nil = 0
  levels_items (cons v vs) = max (levels v) (levels_items vs)

  pub levels_entries : Entries → ℕ
  levels_entries end = 0
  levels_entries (entry k v es) = max (levels v) (levels_entries es)

length-put_head_pos : (m n : ℕ) → 1 ≤ length (put_head m n)
unfolding put_head
length-put_head_pos m n = ground arith

pub length-emit_pos : (v : Value) → 1 ≤ length (emit v)
unfolding emit
length-emit_pos (uint n) = length-put_head_pos 0 n
length-emit_pos (bytes b) =
    omega (arith, length-append (put_head 2 (length b)) b, length-put_head_pos 2 (length b))
length-emit_pos (text b) =
    omega (arith, length-append (put_head 3 (length b)) b, length-put_head_pos 3 (length b))
length-emit_pos (array vs) = omega (
  arith,
  length-append (put_head 4 (length_items vs)) (emit_items vs),
  length-put_head_pos 4 (length_items vs),
)
length-emit_pos (map es) = omega (
  arith,
  length-append (put_head 5 (length_entries es)) (emit_entries es),
  length-put_head_pos 5 (length_entries es),
)

-- Every element takes a byte at least.
pub length_items-le : (vs : Items) → length_items vs ≤ length (emit_items vs)
unfolding emit
length_items-le nil = omega arith
length_items-le (cons v vs) =
    omega (arith, length-append (emit v) (emit_items vs), length-emit_pos v, length_items-le vs)

pub length_entries-le : (es : Entries) → length_entries es ≤ length (emit_entries es)
unfolding emit
length_entries-le end = omega arith
length_entries-le (entry k v es) = omega (
  arith,
  length-append (put_head 0 k) (emit v ++ emit_entries es),
  length-append (emit v) (emit_entries es),
  length-emit_pos v,
  length_entries-le es,
)
