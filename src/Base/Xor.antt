-- ===== src/Base/Xor.antt =====
-- Laws of `^` on numbers, from its digits.
use Prim.Native.Nat.{
  ℕ, zero, suc, ◌+◌, ◌*◌, ◌/◌, ◌%◌, ◌≤◌, ◌<◌, bit_xor, digits, differ, bit_xor-bitwise,
}
use mathlib.Core.Path.{◌≡◌, refl, sym, ap, ◌∙◌}
use mathlib.Core.Logic.{◌⊎◌, inl, inr}
use native.Mathlib.Omega.{arith}

-- The count of digits does not matter once it is enough.
more_digits :
    (n m a b : ℕ) → a ≤ n → a ≤ m → digits (λ d. d) differ n a b ≡ digits (λ d. d) differ m a b
more_digits zero zero a b h k = refl
more_digits zero (suc m) zero b h k = refl
more_digits zero (suc m) (suc a) b h k = absurd (omega arith)
more_digits (suc n) zero zero b h k = refl
more_digits (suc n) zero (suc a) b h k = absurd (omega arith)
more_digits (suc n) (suc m) zero b h k = refl
more_digits (suc n) (suc m) (suc a) b h k =
    ap (λ (t : ℕ). t * 2 + differ (suc a % 2) (b % 2))
      (more_digits n m (suc a / 2) (b / 2) (omega arith) (omega arith))

differ_zero : (b : ℕ) → differ 0 b ≡ b
differ_zero b = refl

-- `^` of the last digits, and of those before.
bit_xor_step : (a b : ℕ) → bit_xor a b ≡ bit_xor (a / 2) (b / 2) * 2 + differ (a % 2) (b % 2)
bit_xor_step zero b = bit_xor-bitwise 0 b ∙ rw (bit_xor-bitwise 0 (b / 2)) (omega arith)
bit_xor_step (suc a) b =
    bit_xor-bitwise (suc a) b
    ∙ ap (λ (t : ℕ). t * 2 + differ (suc a % 2) (b % 2))
        (more_digits a (suc a / 2) (suc a / 2) (b / 2) (omega arith) (omega arith)
          ∙ sym (bit_xor-bitwise (suc a / 2) (b / 2)))

bit_cases : (x : ℕ) → x < 2 → (x ≡ 0) ⊎ (x ≡ 1)
bit_cases zero h = inl refl
bit_cases (suc zero) h = inr refl
bit_cases (suc (suc x)) h = absurd (omega arith)

differ-lt : (x y : ℕ) → x < 2 → y < 2 → differ x y < 2
differ-lt x y h k = elim (bit_cases x h) [
  | inl a ↦ rw a k
  | inr a ↦ elim (bit_cases y k) [
    | inl b ↦ rw (a, b) (omega arith)
    | inr b ↦ rw (a, b) (omega arith)
  ]
]

differ_right_comm :
    (x y z : ℕ) → x < 2 → y < 2 → z < 2 → differ (differ x y) z ≡ differ (differ x z) y
differ_right_comm x y z hx hy hz = elim (bit_cases x hx) [
  | inl a ↦ elim (bit_cases y hy) [
    | inl b ↦ elim (bit_cases z hz) [ inl c ↦ rw (a, b, c) refl | inr c ↦ rw (a, b, c) refl ]
    | inr b ↦ elim (bit_cases z hz) [ inl c ↦ rw (a, b, c) refl | inr c ↦ rw (a, b, c) refl ]
  ]
  | inr a ↦ elim (bit_cases y hy) [
    | inl b ↦ elim (bit_cases z hz) [ inl c ↦ rw (a, b, c) refl | inr c ↦ rw (a, b, c) refl ]
    | inr b ↦ elim (bit_cases z hz) [ inl c ↦ rw (a, b, c) refl | inr c ↦ rw (a, b, c) refl ]
  ]
]

differ_undo : (x y : ℕ) → x < 2 → y < 2 → differ (differ x y) y ≡ x
differ_undo x y hx hy = elim (bit_cases x hx) [
  | inl a ↦ elim (bit_cases y hy) [ inl b ↦ rw (a, b) refl | inr b ↦ rw (a, b) refl ]
  | inr a ↦ elim (bit_cases y hy) [ inl b ↦ rw (a, b) refl | inr b ↦ rw (a, b) refl ]
]

half : (a b : ℕ) → bit_xor a b / 2 ≡ bit_xor (a / 2) (b / 2)
half a b =
    let bit = differ-lt (a % 2) (b % 2) (omega arith) (omega arith) in
    let step = bit_xor_step a b in omega arith

last : (a b : ℕ) → bit_xor a b % 2 ≡ differ (a % 2) (b % 2)
last a b =
    let bit = differ-lt (a % 2) (b % 2) (omega arith) (omega arith) in
    let step = bit_xor_step a b in omega arith

right_comm_below :
    (k a b c : ℕ) → a ≤ k → b ≤ k → c ≤ k → bit_xor (bit_xor a b) c ≡ bit_xor (bit_xor a c) b
right_comm_below zero zero zero zero ha hb hc = refl
right_comm_below zero (suc a) b c ha hb hc = absurd (omega arith)
right_comm_below zero zero (suc b) c ha hb hc = absurd (omega arith)
right_comm_below zero zero zero (suc c) ha hb hc = absurd (omega arith)
right_comm_below (suc k) a b c ha hb hc =
    let ih = right_comm_below k (a / 2) (b / 2) (c / 2) (omega arith) (omega arith) (omega arith) in
    let bits =
      differ_right_comm (a % 2) (b % 2) (c % 2) (omega arith) (omega arith) (omega arith) in
    bit_xor_step (bit_xor a b) c
    ∙ rw (half a b, last a b, ih, bits, ← half a c, ← last a c) refl
    ∙ sym (bit_xor_step (bit_xor a c) b)

undo_below : (k a b : ℕ) → a ≤ k → b ≤ k → bit_xor (bit_xor a b) b ≡ a
undo_below zero zero zero ha hb = refl
undo_below zero (suc a) b ha hb = absurd (omega arith)
undo_below zero zero (suc b) ha hb = absurd (omega arith)
undo_below (suc k) a b ha hb =
    let ih = undo_below k (a / 2) (b / 2) (omega arith) (omega arith) in
    let bits = differ_undo (a % 2) (b % 2) (omega arith) (omega arith) in
    bit_xor_step (bit_xor a b) b ∙ rw (half a b, last a b, ih, bits) (omega arith)

pub bit_xor_right_comm : (a b c : ℕ) → bit_xor (bit_xor a b) c ≡ bit_xor (bit_xor a c) b
bit_xor_right_comm a b c =
    right_comm_below (a + b + c) a b c (omega arith) (omega arith) (omega arith)

pub bit_xor_undo : (a b : ℕ) → bit_xor (bit_xor a b) b ≡ a
bit_xor_undo a b = undo_below (a + b) a b (omega arith) (omega arith)
