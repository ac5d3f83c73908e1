-- ===== src/Cbor/RoundTrip.antt =====
-- The decoder reads what a canonical value prints as.
use datboi.Base.{
  ℕ, zero, suc, ◌+◌, ◌≤◌, ◌<◌, Option, none, some, List, [], ◌++◌, length, IsU64, ◌≡◌, refl, arith,
  length-append, append_assoc, append-nil, ok, take-append_length, drop-append_length,
}
use datboi.Cbor.Value.{
  Value, Items, Entries, uint, bytes, text, array, map, nil, cons, end, entry, length_items,
  length_entries, max_depth,
}
use datboi.Cbor.Encode.{put_head}
use datboi.Utf8.{IsUtf8}
use datboi.Base.{◌∙◌}
use datboi.Cbor.Decode.{
  M, take_bytes, check_count, items, out_of_order, entry_key, entries, text_of, body, value, decode,
}
use datboi.Cbor.Head.{head-put_head}
use datboi.Cbor.Canonical.{
  emit, emit_items, emit_entries, Above, IsCanonical, AllCanonical, Ascends, levels, levels_items,
  levels_entries, length_items-le, length_entries-le,
}

value-put_head :
    (l m a pos : ℕ) (rest : List ℕ)
    → m < 8
    → IsU64 a
    → value (suc l) pos (put_head m a ++ rest)
      ≡ body (value l) pos m a (pos + length (put_head m a)) rest
unfolding value
value-put_head l m a pos rest hm ha = rw (head-put_head m a pos rest hm ha)

take_bytes-append :
    (b more : List ℕ) (at pos : ℕ)
    → take_bytes (length b) at pos (b ++ more) ≡ ok (b, pos + length b, more)
unfolding take_bytes
take_bytes-append b more at pos =
    ground (arith, length-append b more, take-append_length b more, drop-append_length b more)

check_count_lem :
    (n offset pos : ℕ) (b more : List ℕ)
    → n ≤ length b
    → check_count n offset pos (b ++ more) ≡ ok (tt, pos, b ++ more)
unfolding check_count
check_count_lem n offset pos b more h = ground (arith, length-append b more)

entry_key_lem :
    (prev : Option ℕ) (k pos : ℕ) (rest : List ℕ)
    → IsU64 k
    → Above prev k
    → entry_key prev pos (put_head 0 k ++ rest) ≡ ok (k, pos + length (put_head 0 k), rest)
unfolding entry_key out_of_order
entry_key_lem none k pos rest hk h = rw (head-put_head 0 k pos rest (omega arith) hk)
entry_key_lem (some p) k pos rest hk h =
    rw (head-put_head 0 k pos rest (omega arith) hk) (ground arith)

body_uint :
    (inner : M Value) (n at pos : ℕ) (rest : List ℕ)
    → body inner at 0 n pos rest ≡ ok (uint n, pos, rest)
unfolding body
body_uint inner n at pos rest = refl

body_bytes :
    (inner : M Value) (b more : List ℕ) (at pos : ℕ)
    → body inner at 2 (length b) pos (b ++ more) ≡ ok (bytes b, pos + length b, more)
unfolding body
body_bytes inner b more at pos = rw (take_bytes-append b more at pos)

body_text :
    (inner : M Value) (b more : List ℕ) (at pos : ℕ)
    → IsUtf8 b
    → body inner at 3 (length b) pos (b ++ more) ≡ ok (text b, pos + length b, more)
unfolding body text_of
body_text inner b more at pos u = rw (take_bytes-append b more at pos, u)

body_array :
    (inner : M Value) (vs : Items) (b more : List ℕ) (at pos : ℕ)
    → length_items vs ≤ length b
    → items inner (length_items vs) pos (b ++ more) ≡ ok (vs, pos + length b, more)
    → body inner at 4 (length_items vs) pos (b ++ more) ≡ ok (array vs, pos + length b, more)
unfolding body
body_array inner vs b more at pos h e = rw (check_count_lem _ at pos b more h, e)

body_map :
    (inner : M Value) (es : Entries) (b more : List ℕ) (at pos : ℕ)
    → length_entries es ≤ length b
    → entries inner (length_entries es) none pos (b ++ more) ≡ ok (es, pos + length b, more)
    → body inner at 5 (length_entries es) pos (b ++ more) ≡ ok (map es, pos + length b, more)
unfolding body
body_map inner es b more at pos h e = rw (check_count_lem _ at pos b more h, e)

-- Lengths of what is printed in two or three parts.
module _ (pos : ℕ) (xs ys zs : List ℕ) where
  two_parts : pos + length xs + length ys ≡ pos + length (xs ++ ys)
  two_parts = omega (arith, length-append xs ys)

  three_parts : pos + length xs + length ys + length zs ≡ pos + length (xs ++ (ys ++ zs))
  three_parts = omega (arith, length-append xs (ys ++ zs), length-append ys zs)

value-parts :
    (l m a pos : ℕ) (b more : List ℕ) {v : Value}
    → m < 8
    → IsU64 a
    → ((p : ℕ) → body (value l) pos m a p (b ++ more) ≡ ok (v, p + length b, more))
    → value (suc l) pos ((put_head m a ++ b) ++ more)
      ≡ ok (v, pos + length (put_head m a ++ b), more)
value-parts l m a pos b more hm ha e = rw (
  append_assoc (put_head m a) b more,
  value-put_head l m a pos (b ++ more) hm ha,
  e,
  two_parts pos (put_head m a) b [],
)

mutual
  unfolding emit IsCanonical levels items entries

  value-Reads :
      (v : Value) (l pos : ℕ) (more : List ℕ)
      → IsCanonical v
      → levels v ≤ l
      → value l pos (emit v ++ more) ≡ ok (v, pos + length (emit v), more)
  value-Reads (uint n) (suc l) pos more c h =
      value-put_head l 0 n pos more (omega arith) c ∙ body_uint (value l) n pos _ more
  value-Reads (bytes b) (suc l) pos more c h =
      value-parts l 2 (length b) pos b more (omega arith) c.0 (body_bytes (value l) b more pos)
  value-Reads (text t) (suc l) pos more c h =
      value-parts l 3 (length t) pos t more (omega arith) c.0
        (λ p. body_text (value l) t more pos p c.2)
  value-Reads (array vs) (suc l) pos more c h =
      value-parts l 4 (length_items vs) pos (emit_items vs) more (omega arith) c.0 (λ p.
        body_array (value l) vs (emit_items vs) more pos p (length_items-le vs)
          (items-Reads vs l p more c.1 (omega arith)))
  value-Reads (map es) (suc l) pos more c h =
      value-parts l 5 (length_entries es) pos (emit_entries es) more (omega arith) c.0 (λ p.
        body_map (value l) es (emit_entries es) more pos p (length_entries-le es)
          (entries-Reads es l p none more c.1 (omega arith)))
  value-Reads (uint n) zero pos more c h = absurd (omega arith)
  value-Reads (bytes n) zero pos more c h = absurd (omega arith)
  value-Reads (text n) zero pos more c h = absurd (omega arith)
  value-Reads (array n) zero pos more c h = absurd (omega arith)
  value-Reads (map n) zero pos more c h = absurd (omega arith)

  items-Reads :
      (vs : Items) (l pos : ℕ) (more : List ℕ)
      → AllCanonical vs
      → levels_items vs ≤ l
      → items (value l) (length_items vs) pos (emit_items vs ++ more)
        ≡ ok (vs, pos + length (emit_items vs), more)
  items-Reads nil l pos more c h = ground arith
  items-Reads (cons v vs) l pos more c h = rw (
    append_assoc (emit v) (emit_items vs) more,
    value-Reads v l pos (emit_items vs ++ more) c.0 (omega arith),
    items-Reads vs l (pos + length (emit v)) more c.1 (omega arith),
    two_parts pos (emit v) (emit_items vs) [],
  )

  entries-Reads :
      (es : Entries) (l pos : ℕ) (prev : Option ℕ) (more : List ℕ)
      → Ascends prev es
      → levels_entries es ≤ l
      → entries (value l) (length_entries es) prev pos (emit_entries es ++ more)
        ≡ ok (es, pos + length (emit_entries es), more)
  entries-Reads end l pos prev more c h = ground arith
  entries-Reads (entry k v es) l pos prev more (ck, ca, cv, cs) h =
      let p = pos + length (put_head 0 k) in
      rw (
        append_assoc (put_head 0 k) (emit v ++ emit_entries es) more,
        append_assoc (emit v) (emit_entries es) more,
        entry_key_lem prev k pos (emit v ++ (emit_entries es ++ more)) ck ca,
        value-Reads v l p (emit_entries es ++ more) cv (omega arith),
        entries-Reads es l (p + length (emit v)) (some k) more cs (omega arith),
        three_parts pos (put_head 0 k) (emit v) (emit_entries es),
      )

-- The decoder reads a canonical value off the front of any input, given levels enough.
pub value-emit :
    (v : Value) (l pos : ℕ) (more : List ℕ)
    → IsCanonical v
    → levels v ≤ l
    → value l pos (emit v ++ more) ≡ ok (v, pos + length (emit v), more)
value-emit = value-Reads

-- The print of a canonical value that nests 128 deep at most decodes to that value.
pub decode-emit : (v : Value) → IsCanonical v → levels v ≤ max_depth + 1 → decode (emit v) ≡ ok v
unfolding decode
decode-emit v c h =
    let whole : value (max_depth + 1) 0 (emit v) ≡ ok (v, 0 + length (emit v), []) =
      rw append-nil at (value-Reads v (max_depth + 1) 0 [] c h) in
    rw whole (ground arith)
