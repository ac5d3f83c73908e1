-- ===== src/Cbor/Decode.antt =====
-- `decode` and `Decoder` of crates/datboi-core/src/cbor.rs. A decoder's state is its `pos` and the
-- rest of its input, `input[pos..]`; an error leaves the whole decoding.
use datboi.Base.{ℕ, zero, suc, ◌+◌, ◌*◌, ◌/◌, ◌%◌, ◌^◌, bit_or, Bool, false, not}
use datboi.Base.{Option, none, some, List, [], ◌∷◌, length, take, drop}
use datboi.Base.{ltb, leb, ◌==◌, if◌then◌else◌, Result, ok, err, and_then}
use datboi.Utf8.{is_utf8}
use datboi.Cbor.Value.{
  Value, Items, Entries, uint, bytes, text, array, map, nil, cons, end, entry, reserved_info,
  indefinite_length, negative_integer, non_integer_key, tag, float_or_simple, DecodeError,
  unexpected_eof, forbidden, non_minimal, key_order, length_exceeds, utf8, depth, trailing,
  major_uint, major_nint, major_bytes, major_text, major_array, major_map, major_tag, max_depth,
}

abbrev pub M : Type 0 → Type 0
M A = ℕ → List ℕ → Result DecodeError (A × ℕ × List ℕ)

abbrev pub pure : {A : Type 0} → A → M A
pure a pos rest = ok (a, pos, rest)

abbrev pub fail : {A : Type 0} → DecodeError → M A
fail e pos rest = err e

infixl 5 ◌>>=◌
abbrev pub ◌>>=◌ : {A B : Type 0} → M A → (A → M B) → M B
◌>>=◌ m f pos rest = and_then (m pos rest) λ (a, p, r). f a p r

abbrev pub position : M ℕ
position pos rest = ok (pos, pos, rest)

unfoldable pub byte : M ℕ
byte pos [] = err (unexpected_eof pos)
byte pos (b ∷ rest) = ok (b, pos + 1, rest)

-- The loop of `be_uint`, with the rounds left and what is read so far.
unfoldable pub be_uint : ℕ → ℕ → M ℕ
unfolding byte
be_uint zero v = pure v
be_uint (suc width) v = do b ← byte; be_uint width (bit_or (v * 2 ^ 8 % 2 ^ 64) b)

-- One arm 24 to 27 of `head`: a number that a shorter form could hold is refused.
unfoldable pub wide_arg : ℕ → ℕ → ℕ → M ℕ
unfolding be_uint
wide_arg offset width least = do
  v ← be_uint width 0
  if ltb v least then fail (non_minimal offset) else pure v

unfoldable pub head_arg : ℕ → ℕ → M ℕ
unfolding wide_arg
head_arg offset info =
    if ltb info 24
    then pure info
    else if info == 24
    then wide_arg offset 1 24
    else if info == 25
    then wide_arg offset 2 0x100
    else if info == 26
    then wide_arg offset 4 0x1_0000
    else if info == 27
    then wide_arg offset 8 0x1_0000_0000
    else if leb info 30
    then fail (forbidden offset reserved_info)
    else fail (forbidden offset indefinite_length)

-- `initial >> 5` and `initial & 0x1f`.
unfoldable pub head : M (ℕ × ℕ)
unfolding head_arg byte
head = do
  offset ← position
  initial ← byte
  arg ← head_arg offset (initial % 2 ^ 5)
  pure (initial / 2 ^ 5, arg)

unfoldable pub take_bytes : ℕ → ℕ → M (List ℕ)
take_bytes len at pos rest =
    if leb len (length rest)
    then ok (take len rest, pos + len, drop len rest)
    else err (length_exceeds at)

-- The check before the array loop and the map loop.
unfoldable pub check_count : ℕ → ℕ → M (Unit {0})
check_count arg offset pos rest =
    if ltb (length rest) arg then err (length_exceeds offset) else ok (tt, pos, rest)

-- The loops over the elements and the entries, given `value(depth + 1)`.
unfoldable pub items : M Value → ℕ → M Items
items inner zero = pure nil
items inner (suc n) = do v ← inner; vs ← items inner n; pure (cons v vs)

-- `prev.is_some_and(|p| p >= key)`
unfoldable pub out_of_order : Option ℕ → ℕ → Bool
out_of_order none key = false
out_of_order (some p) key = leb key p

unfoldable pub entry_key : Option ℕ → M ℕ
entry_key prev = do
  key_offset ← position
  (key_major, key) ← head
  if not (key_major == major_uint)
      then fail (forbidden key_offset non_integer_key)
      else if out_of_order prev key
      then fail (key_order key_offset)
      else pure key

unfoldable pub entries : M Value → ℕ → Option ℕ → M Entries
entries inner zero prev = pure end
entries inner (suc n) prev = do
  key ← entry_key prev
  v ← inner
  es ← entries inner n (some key)
  pure (entry key v es)

unfoldable pub text_of : ℕ → List ℕ → M Value
text_of offset bs = if is_utf8 bs then pure (text bs) else fail (utf8 offset)

-- The match on the major type.
unfoldable pub body : M Value → ℕ → ℕ → ℕ → M Value
body inner offset major arg =
    if major == major_uint
    then pure (uint arg)
    else if major == major_nint
    then fail (forbidden offset negative_integer)
    else if major == major_bytes
    then (do bs ← take_bytes arg offset; pure (bytes bs))
    else if major == major_text
    then (do bs ← take_bytes arg offset; text_of offset bs)
    else if major == major_array
    then (do _ ← check_count arg offset; vs ← items inner arg; pure (array vs))
    else if major == major_map
    then (do _ ← check_count arg offset; es ← entries inner arg none; pure (map es))
    else if major == major_tag
    then fail (forbidden offset tag)
    else fail (forbidden offset float_or_simple)

-- `value(depth)` by the levels left, `MAX_DEPTH + 1 - depth`: none are left past `MAX_DEPTH`.
unfoldable pub value : ℕ → M Value
value zero pos rest = err (depth pos)
value (suc levels) pos rest =
    and_then (head pos rest) λ ((major, arg), p, r). body (value levels) pos major arg p r

unfoldable pub decode : List ℕ → Result DecodeError Value
decode input =
    and_then (value (max_depth + 1) 0 input)
      λ (v, pos, rest). if pos == length input then ok v else err (trailing pos)
