-- ===== src/Cbor/HeadSound.antt =====
-- `head` accepts nothing but what `put_head` writes: the shortest form of a 64-bit number.
use datboi.Base.{
  ℕ, zero, suc, ◌+◌, ◌*◌, ◌/◌, ◌%◌, ◌^◌, ◌≤◌, ◌<◌, bit_or, List, [], ◌∷◌, ◌++◌, length, IsByte,
  IsBytes, IsU64, ◌≡◌, refl, ap, arith, append_assoc, Returns, returns, fails, Returns-map,
  Returns-and_then, ◌==◌, ltb, leb, true, tests, ==_iff,
}
use mathlib.Core.List.{append-nil}
use datboi.Base.{◌∙◌}
use native.Mathlib.Nat.{pow-suc, one-le-pow, mul-le-mul_left, mul-le-mul_right}
use datboi.Cbor.Value.{error_offset}
use datboi.Cbor.Encode.{to_be_bytes, put_head}
use datboi.Cbor.Reading.{Sound, Returns-branch}
use datboi.Cbor.Decode.{byte, be_uint, wide_arg, head_arg, head}
use datboi.Cbor.Head.{be_fold, shift_in, head_byte}

to_be_bytes_step :
    (k v b : ℕ) → IsByte b → to_be_bytes (suc k) (v * 256 + b) ≡ to_be_bytes k v ++ (b ∷ [])
unfolding to_be_bytes
to_be_bytes_step k v b hb =
    let q : (v * 256 + b) / 256 ≡ v = omega arith in
    let r : (v * 256 + b) % 256 ≡ b = omega arith in rw (q, r)

-- One more byte uses up one power of 256.
room_left : (v b n : ℕ) → IsByte b → (v * 256 + b + 1) * 256 ^ n ≤ (v + 1) * 256 ^ suc n
room_left v b n hb =
    let m : (v * 256 + b + 1) * 256 ^ n ≤ ((v + 1) * 256) * 256 ^ n =
      mul-le-mul_right _ (omega arith) in
    omega (arith, pow-suc 256 n, ap (λ (t : ℕ). (v + 1) * t) (pow-suc 256 n))

fits_word : (v n : ℕ) → (v + 1) * 256 ^ suc n ≤ 2 ^ 64 → v * 256 < 2 ^ 64
fits_word v n h =
    let m : ((v + 1) * 256) * 1 ≤ ((v + 1) * 256) * 256 ^ n =
      mul-le-mul_left _ (one-le-pow n 256 (omega arith)) in
    omega (arith, pow-suc 256 n, ap (λ (t : ℕ). (v + 1) * t) (pow-suc 256 n))

-- Bytes printed again, at a total width of `w`, behind the `k` bytes of `v`.
to_be_bytes-be_fold :
    (bs : List ℕ) (w k v : ℕ)
    → w ≡ k + length bs
    → IsBytes bs
    → (v + 1) * 256 ^ length bs ≤ 2 ^ 64
    → to_be_bytes w (be_fold v bs) ≡ to_be_bytes k v ++ bs
unfolding be_fold
to_be_bytes-be_fold [] w k v e hb fits = ground (arith, append-nil (to_be_bytes k v))
to_be_bytes-be_fold (b ∷ bs) w k v e hb fits =
    rw (shift_in v b (fits_word v (length bs) fits) hb.0) (
      to_be_bytes-be_fold bs w (suc k) (v * 256 + b) (omega arith) hb.1
        (omega (arith, room_left v b (length bs) hb.0))
      ∙ next_digit)
  where
    digits : to_be_bytes (suc k) (v * 256 + b) ≡ to_be_bytes k v ++ (b ∷ [])
    digits = to_be_bytes_step k v b hb.0

    next_digit : to_be_bytes (suc k) (v * 256 + b) ++ bs ≡ to_be_bytes k v ++ (b ∷ bs)
    next_digit = rw digits (append_assoc _ (b ∷ []) bs)

be_fold-lt :
    (bs : List ℕ) (v : ℕ)
    → IsBytes bs
    → (v + 1) * 256 ^ length bs ≤ 2 ^ 64
    → be_fold v bs < (v + 1) * 256 ^ length bs
unfolding be_fold
be_fold-lt [] v hb fits = omega arith
be_fold-lt (b ∷ bs) v hb fits = rw (shift_in v b (fits_word v (length bs) fits) hb.0) (
    omega (
      arith,
      be_fold-lt bs (v * 256 + b) hb.1 (omega (arith, room_left v b (length bs) hb.0)),
      room_left v b (length bs) hb.0,
    ))

byte-Sound : (n : ℕ) → Sound n (λ b. b ∷ []) IsByte byte
unfolding byte
byte-Sound n pos [] h c = fails (omega arith)
byte-Sound n pos (b ∷ rest) h c =
    returns (record { holds = c.0; split = refl; within = omega arith; clean = c.1 })

-- `be_uint` by the bytes that it takes.
be_uint-Sound :
    (w v n pos : ℕ) (rest : List ℕ)
    → pos + length rest ≡ n
    → IsBytes rest
    → Returns
        (λ e. error_offset e ≤ n)
        (λ (x, p, r).
          (bs : List ℕ) × (length bs ≡ w)
          × IsBytes bs
          × (x ≡ be_fold v bs)
          × (rest ≡ bs ++ r)
          × (p + length r ≡ n)
          × IsBytes r)
        (be_uint w v pos rest)
unfolding be_uint be_fold byte
be_uint-Sound zero v n pos rest h c = returns ([], refl, tt, refl, refl, h, c)
be_uint-Sound (suc w) v n pos [] h c = fails (omega arith)
be_uint-Sound (suc w) v n pos (b ∷ rest) h c =
    Returns-map (be_uint-Sound w (bit_or (v * 2 ^ 8 % 2 ^ 64) b) n (pos + 1) rest (omega arith) c.1)
      λ (x, p, r) (bs, e, c', x', s, h', c'').
        (b ∷ bs, ap suc e, (c.0, c'), x', ap (λ t. b ∷ t) s, h', c'')

wide_arg-Sound :
    (offset w least n : ℕ)
    → offset ≤ n
    → 256 ^ w ≤ 2 ^ 64
    → Sound n (to_be_bytes w) (λ v. (v < 256 ^ w) × (least ≤ v)) (wide_arg offset w least)
unfolding wide_arg
wide_arg-Sound offset w least n ho hw pos rest h c =
    Returns-and_then (be_uint-Sound w 0 n pos rest h c) λ (v, p, r) (bs, e, c', v', s, h', c'').
      let room : (0 + 1) * 256 ^ length bs ≤ 2 ^ 64 = rw e (omega arith) in
      let printed : to_be_bytes w v ≡ bs =
        rw v' (unfold to_be_bytes in to_be_bytes-be_fold bs w 0 0 (omega arith) c' room) in
      let small : v < 256 ^ w = rw (v', ← e) (omega (arith, be_fold-lt bs 0 c' room)) in
      Returns-branch (ltb v least) _ _ p r (λ _. fails ho)
        (λ t. returns (record {
          holds = (small, ground arith);
          split = rw printed s;
          within = h';
          clean = c'';
        }))

-- What `head_arg` reads, behind an initial byte of any major type.
abbrev ReadArg : ℕ → ℕ → List ℕ → ℕ × ℕ × List ℕ → Type 0
ReadArg info n rest (v, p, r) =
    IsU64 v
    × ((m : ℕ) → bit_or (m * 2 ^ 5 % 2 ^ 8) info ∷ rest ≡ put_head m v ++ r)
    × (p + length r ≡ n)
    × IsBytes r

wide-ReadArg :
    (info offset w least n pos : ℕ) (rest : List ℕ)
    → offset ≤ n
    → 256 ^ w ≤ 2 ^ 64
    → ((m v : ℕ)
        → v < 256 ^ w
        → least ≤ v
        → put_head m v ≡ bit_or (m * 2 ^ 5 % 2 ^ 8) info ∷ to_be_bytes w v)
    → pos + length rest ≡ n
    → IsBytes rest
    → Returns (λ e. error_offset e ≤ n) (ReadArg info n rest) (wide_arg offset w least pos rest)
wide-ReadArg info offset w least n pos rest ho hw form h c =
    Returns-map (wide_arg-Sound offset w least n ho hw pos rest h c) λ (v, p, r) t. (
      omega (arith, t.holds.0),
      λ m.
          rw (form m v t.holds.0 t.holds.1) (ap (λ l. bit_or (m * 2 ^ 5 % 2 ^ 8) info ∷ l) t.split),
      t.within,
      t.clean,
    )

head_arg-ReadArg :
    (offset info n pos : ℕ) (rest : List ℕ)
    → offset ≤ n
    → pos + length rest ≡ n
    → IsBytes rest
    → Returns (λ e. error_offset e ≤ n) (ReadArg info n rest) (head_arg offset info pos rest)
unfolding head_arg
head_arg-ReadArg offset info n pos rest ho h c =
    Returns-branch (ltb info 24) _ _ pos rest
      (λ t. returns {a = (info, pos, rest)} (tiny t, short t, h, c))
      λ f0.
        Returns-branch (info == 24) _ _ pos rest (λ t. arm 24 1 24 t (omega arith) one)
          λ f1.
            Returns-branch (info == 25) _ _ pos rest (λ t. arm 25 2 0x100 t (omega arith) two)
              λ f2.
                Returns-branch (info == 26) _ _ pos rest
                  (λ t. arm 26 4 0x1_0000 t (omega arith) four)
                  λ f3.
                    Returns-branch (info == 27) _ _ pos rest
                      (λ t. arm 27 8 0x1_0000_0000 t (omega arith) eight)
                      λ f4. Returns-branch (leb info 30) _ _ pos rest (λ t. fails ho) λ f5. fails ho
  where
    Form : ℕ → ℕ → ℕ → Type 0
    Form k w least =
        (m v : ℕ)
        → v < 256 ^ w
        → least ≤ v
        → put_head m v ≡ bit_or (m * 2 ^ 5 % 2 ^ 8) k ∷ to_be_bytes w v

    arm :
        (k w least : ℕ)
        → (info == k) ≡ true
        → 256 ^ w ≤ 2 ^ 64
        → Form k w least
        → Returns (λ e. error_offset e ≤ n) (ReadArg info n rest) (wide_arg offset w least pos rest)
    arm k w least t hw form =
        rw ((==_iff info k).0 t) (wide-ReadArg k offset w least n pos rest ho hw form h c)

    tiny : ltb info 24 ≡ true → IsU64 info
    tiny t = omega tests

    short :
        ltb info 24 ≡ true
        → (m : ℕ) → bit_or (m * 2 ^ 5 % 2 ^ 8) info ∷ rest ≡ put_head m info ++ rest
    short t m = unfold put_head in rw t

    one : Form 24 1 24
    one = λ m v a b. unfold put_head to_be_bytes in ground arith

    two : Form 25 2 0x100
    two = λ m v a b. unfold put_head in ground arith

    four : Form 26 4 0x1_0000
    four = λ m v a b. unfold put_head in ground arith

    eight : Form 27 8 0x1_0000_0000
    eight = λ m v a b. unfold put_head in ground arith

-- `head` reads what `put_head` writes of a major type and a 64-bit number, and nothing else.
pub head-Sound : (n : ℕ) → Sound n (λ (m, v). put_head m v) (λ (m, v). (m < 8) × IsU64 v) head
unfolding head
head-Sound n pos rest h c = Returns-and_then (byte-Sound n pos rest h c) λ (b, p, r) t.
    Returns-and_then (head_arg-ReadArg pos (b % 2 ^ 5) n p r (omega arith) t.within t.clean)
      λ (v, p', r') (hv, form, h', c'). returns (record {
        holds = (omega (arith, t.holds), hv);
        split = t.split ∙ ground (arith, form (b / 2 ^ 5), head_byte (b / 2 ^ 5) (b % 2 ^ 5));
        within = h';
        clean = c';
      })
