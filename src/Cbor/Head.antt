-- ===== src/Cbor/Head.antt =====
-- Heads and big-endian numbers: what `put_head` writes, `head` reads, and `head` accepts nothing
-- else.
use datboi.Base.{
  ℕ, zero, suc, ◌+◌, ◌*◌, ◌/◌, ◌%◌, ◌^◌, ◌≤◌, ◌<◌, bit_or, List, [], ◌∷◌, ◌++◌, length, IsByte,
  IsU64, ◌≡◌, refl, arith, ok, dec_lt, lt→ltb, length-append,
}
use datboi.Base.Bits.{bit_or_fields}
use native.Mathlib.Nat.{pow-suc}
use datboi.Cbor.Encode.{to_be_bytes, put_head}
use datboi.Cbor.Decode.{byte, be_uint, wide_arg, head_arg, head}

-- One round of `be_uint`, in plain arithmetic.
pub shift_in : (v b : ℕ) → v * 256 < 2 ^ 64 → IsByte b → bit_or (v * 2 ^ 8 % 2 ^ 64) b ≡ v * 256 + b
shift_in v b fits hb = ground (arith, bit_or_fields 8 v b)

pub head_byte : (m x : ℕ) → m < 8 → x < 32 → bit_or (m * 2 ^ 5 % 2 ^ 8) x ≡ m * 32 + x
head_byte m x hm hx = ground (arith, bit_or_fields 5 m x)

-- What `be_uint` makes of the bytes that it reads.
unfoldable pub be_fold : ℕ → List ℕ → ℕ
be_fold v [] = v
be_fold v (b ∷ bs) = be_fold (bit_or (v * 2 ^ 8 % 2 ^ 64) b) bs

be_uint-append :
    (bs more : List ℕ) (v pos : ℕ)
    → be_uint (length bs) v pos (bs ++ more) ≡ ok (be_fold v bs, pos + length bs, more)
unfolding be_uint be_fold
be_uint-append [] more v pos = ground arith
be_uint-append (b ∷ bs) more v pos =
    ground (arith, be_uint-append bs more (bit_or (v * 2 ^ 8 % 2 ^ 64) b) (pos + 1))

be_fold-snoc :
    (bs : List ℕ) (v b : ℕ) → be_fold v (bs ++ (b ∷ [])) ≡ bit_or (be_fold v bs * 2 ^ 8 % 2 ^ 64) b
unfolding be_fold
be_fold-snoc [] v b = refl
be_fold-snoc (c ∷ bs) v b = be_fold-snoc bs _ b

pub length-to_be_bytes : (w v : ℕ) → length (to_be_bytes w v) ≡ w
unfolding to_be_bytes
length-to_be_bytes zero v = refl
length-to_be_bytes (suc w) v = omega (
  arith,
  length-append (to_be_bytes w (v / 256)) ((v % 256) ∷ []),
  length-to_be_bytes w (v / 256),
)

be_fold-to_be_bytes : (w v : ℕ) → v < 256 ^ w → IsU64 v → be_fold 0 (to_be_bytes w v) ≡ v
unfolding to_be_bytes be_fold
be_fold-to_be_bytes zero v h fits = omega arith
be_fold-to_be_bytes (suc w) v h fits = ground (
  arith,
  pow-suc 256 w,
  be_fold-snoc (to_be_bytes w (v / 256)) 0 (v % 256),
  be_fold-to_be_bytes w (v / 256),
  shift_in (v / 256) (v % 256),
)

-- Reading back a number of `w` bytes.
be_uint-to_be_bytes :
    (w v pos : ℕ) (more : List ℕ)
    → v < 256 ^ w
    → IsU64 v
    → be_uint w 0 pos (to_be_bytes w v ++ more) ≡ ok (v, pos + w, more)
be_uint-to_be_bytes w v pos more h fits = ground (
  arith,
  be_uint-append (to_be_bytes w v) more 0 pos,
  length-to_be_bytes w v,
  be_fold-to_be_bytes w v h fits,
)

-- The forms of a head, by the size of the number.
head_wide :
    (info w least m v pos : ℕ) (more : List ℕ)
    → ((offset p : ℕ) (rest : List ℕ)
        → head_arg offset info p rest ≡ wide_arg offset w least p rest)
    → m < 8
    → info < 32
    → v < 256 ^ w
    → IsU64 v
    → least ≤ v
    → head pos (bit_or (m * 2 ^ 5 % 2 ^ 8) info ∷ (to_be_bytes w v ++ more))
      ≡ ok ((m, v), pos + 1 + w, more)
unfolding head wide_arg byte
head_wide info w least m v pos more arm hm hi h fits hl =
    let e : (m * 32 + info) / 2 ^ 5 ≡ m = omega arith in
    let e' : (m * 32 + info) % 2 ^ 5 ≡ info = omega arith in
    rw (head_byte m info hm hi, e', arm, be_uint-to_be_bytes w v (pos + 1) more h fits, e)
      (ground arith)

-- The five forms of a head, the smallest that holds the number.
data HeadForm (v : ℕ) : (ℕ → List ℕ) → Type 0 where
  short :
      v < 24 → {f : ℕ → List ℕ} → ((m : ℕ) → f m ≡ bit_or (m * 2 ^ 5 % 2 ^ 8) v ∷ []) → HeadForm v f
  wide :
      (info w least : ℕ)
      → info < 32
      → v < 256 ^ w
      → least ≤ v
      → ((offset p : ℕ) (rest : List ℕ)
          → head_arg offset info p rest ≡ wide_arg offset w least p rest)
      → {f : ℕ → List ℕ} → ((m : ℕ) → f m ≡ bit_or (m * 2 ^ 5 % 2 ^ 8) info ∷ to_be_bytes w v)
      → HeadForm v f

head_form : (v : ℕ) → IsU64 v → HeadForm v (λ m. put_head m v)
unfolding put_head head_arg to_be_bytes
head_form v fits = elim (dec_lt v 24) [
  | yes a ↦ short a (λ m. ground arith)
  | no a ↦ elim (dec_lt v (2 ^ 8)) [
    | yes b ↦ wide 24 1 24 (omega arith) b (omega arith) (λ o p r. refl) (λ m. ground arith)
    | no b ↦ elim (dec_lt v (2 ^ 16)) [
      | yes c ↦ wide 25 2 0x100 (omega arith) c (omega arith) (λ o p r. refl) (λ m. ground arith)
      | no c ↦ elim (dec_lt v (2 ^ 32)) [
        | yes d ↦
            wide 26 4 0x1_0000 (omega arith) d (omega arith) (λ o p r. refl) (λ m. ground arith)
        | no d ↦
            wide 27 8 0x1_0000_0000 (omega arith) (omega arith) (omega arith) (λ o p r. refl)
              (λ m. ground arith)
      ]
    ]
  ]
]

head_short :
    (m v pos : ℕ) (more : List ℕ)
    → m < 8
    → v < 24
    → head pos (bit_or (m * 2 ^ 5 % 2 ^ 8) v ∷ more) ≡ ok ((m, v), pos + 1, more)
unfolding head head_arg byte
head_short m v pos more hm h =
    let e : (m * 32 + v) / 2 ^ 5 ≡ m = omega arith in
    let e' : (m * 32 + v) % 2 ^ 5 ≡ v = omega arith in
    rw (head_byte m v hm (omega arith), e', lt→ltb v 24 h, e) refl

head-HeadForm :
    (m v pos : ℕ) (more : List ℕ) {f : ℕ → List ℕ}
    → m < 8
    → IsU64 v
    → HeadForm v f
    → head pos (f m ++ more) ≡ ok ((m, v), pos + length (f m), more)
head-HeadForm m v pos more hm fits (short h e) = rw (e m) (head_short m v pos more hm h)
head-HeadForm m v pos more hm fits (wide info w least hi h hl arm e) =
    rw (e m, head_wide info w least m v pos more arm hm hi h fits hl)
      (ground (arith, length-to_be_bytes w v))

-- For a major type below 8 and a 64-bit number, `head` reads both back from what `put_head`
-- writes, and goes on behind it.
pub head-put_head :
    (m v pos : ℕ) (more : List ℕ)
    → m < 8
    → IsU64 v
    → head pos (put_head m v ++ more) ≡ ok ((m, v), pos + length (put_head m v), more)
head-put_head m v pos more hm fits = head-HeadForm m v pos more hm fits (head_form v fits)
