-- ===== src/Skipper/Tests.antt =====
-- The tests of crates/datboi-formats/src/skipper.rs against what they say of a file.
use datboi.Base.{
  ℕ, zero, suc, ◌/◌, ◌%◌, ◌^◌, ◌<◌, List, [], ◌∷◌, some, Bool, true, false, length, All, IsU64,
  ◌==◌, list_eq, list_eq→eq, list_eq_refl, ◌≡◌, ◌↔◌, refl, sym, ap, subst, dec_lt, ◌≤◌, arith, inl,
  inr, Bool-cases, Option-cases, ==_iff,
}
use native.Mathlib.Nat.{pow-suc, pow-le-pow_right}
use datboi.Skipper.Defs.{
  Offset, BoolOp, all_masked, same, count_ones, is_power_of_two, SizeTest, exact, power_of_two,
  SizeOp, equal, less, greater, size_matches, Test, data_test, bool_test, file_test, passes,
  all_pass, read_at, and_also,
}
use datboi.Skipper.Fulfils.{Agrees, Masked, SizeIs, Holds, Window}
use datboi.Skipper.Reading.{read_at-Window, Window-read_at}

same-Agrees :
    {P : Type 0} (b expect : Bool) → (b ≡ true) ↔ P → (same b expect ≡ true) ↔ Agrees expect P
unfolding same
same-Agrees true true (f, g) = (f, g)
same-Agrees false true (f, g) = (f, g)
same-Agrees true false (f, g) = (λ e. cc e, λ not_p. absurd (not_p (f refl)))
same-Agrees false false (f, g) = (λ e p. cc (g p), λ not_p. refl)

list_eq_iff : (xs ys : List ℕ) → (list_eq xs ys ≡ true) ↔ (xs ≡ ys)
list_eq_iff xs ys =
    (list_eq→eq xs ys, λ e. subst (λ (t : List ℕ). list_eq xs t ≡ true) e (list_eq_refl xs))

all_masked_iff :
    (op : BoolOp) (ws ms vs : List ℕ) → (all_masked op ws ms vs ≡ true) ↔ Masked op ws ms vs
unfolding all_masked
all_masked_iff op [] ms vs = (λ e. tt, λ h. refl)
all_masked_iff op (b ∷ bs) [] vs = (λ e. tt, λ h. refl)
all_masked_iff op (b ∷ bs) (m ∷ ms) [] = (λ e. tt, λ h. refl)
all_masked_iff op (b ∷ bs) (m ∷ ms) (v ∷ vs) = (
  λ e. ground (arith, all_masked_iff op bs ms vs, e),
  λ h. ground (arith, all_masked_iff op bs ms vs, h),
)

count_ones_none : (bits n : ℕ) → n < 2 ^ bits → count_ones bits n ≡ 0 → n ≡ 0
unfolding count_ones
count_ones_none zero n h e = omega arith
count_ones_none (suc bits) n h e =
    let half = count_ones_none bits (n / 2) (omega (arith, pow-suc 2 bits)) (omega arith) in
    omega arith

count_ones_one : (bits n : ℕ) → n < 2 ^ bits → count_ones bits n ≡ 1 → (k : ℕ) × (n ≡ 2 ^ k)
unfolding count_ones
count_ones_one zero n h e = absurd (omega arith)
count_ones_one (suc bits) n h e = elim (Bool-cases (n % 2 == 1)) [
  | inl odd ↦
      let odd' = (==_iff (n % 2) 1).0 odd in
      let half = count_ones_none bits (n / 2) (omega (arith, pow-suc 2 bits)) (omega arith) in
      (0, omega arith)
  | inr even ↦
      let even' : n % 2 ≡ 0 = ground arith in
      let (k, p) = count_ones_one bits (n / 2) (omega (arith, pow-suc 2 bits)) (omega arith) in
      (suc k, omega (arith, pow-suc 2 k))
]

count_ones_zero : (bits : ℕ) → count_ones bits 0 ≡ 0
unfolding count_ones
count_ones_zero zero = refl
count_ones_zero (suc bits) = omega (arith, count_ones_zero bits)

count_ones_power : (bits k : ℕ) → k < bits → count_ones bits (2 ^ k) ≡ 1
unfolding count_ones
count_ones_power zero k h = absurd (omega arith)
count_ones_power (suc bits) zero h = rw (count_ones_zero bits) refl
count_ones_power (suc bits) (suc k) h =
    let rest = count_ones_power bits k (omega arith) in
    let half : 2 ^ suc k / 2 ≡ 2 ^ k = omega (arith, pow-suc 2 k) in
    let even : 2 ^ suc k % 2 ≡ 0 = omega (arith, pow-suc 2 k) in rw (half, even, rest) refl

power_small : (k : ℕ) → 2 ^ k < 2 ^ 64 → k < 64
power_small k h = elim (dec_lt k 64) [
  | yes l ↦ l
  | no n ↦
      let large : 2 ^ 64 ≤ 2 ^ k = pow-le-pow_right (omega arith) {i = 64} (omega arith) in
      absurd (omega arith)
]

power_iff : (n : ℕ) → IsU64 n → (is_power_of_two n ≡ true) ↔ ((k : ℕ) × (n ≡ 2 ^ k))
unfolding is_power_of_two
power_iff n h = (
  λ e. count_ones_one 64 n h ((==_iff (count_ones 64 n) 1).0 e),
  λ (k, e).
      let small : k < 64 = power_small k (subst (λ (t : ℕ). t < 2 ^ 64) e h) in
      (==_iff (count_ones 64 n) 1).1
        (subst (λ (t : ℕ). count_ones 64 t ≡ 1) (sym e) (count_ones_power 64 k small)),
)

size_matches-SizeIs :
    (size : SizeTest) (operator : SizeOp) (n : ℕ)
    → IsU64 n
    → (size_matches size operator n ≡ true) ↔ SizeIs size operator n
unfolding size_matches
size_matches-SizeIs power_of_two operator n h = power_iff n h
size_matches-SizeIs (exact target) equal n h = ==_iff n target
size_matches-SizeIs (exact target) less n h = (λ e. ground arith, λ e. ground arith)
size_matches-SizeIs (exact target) greater n h = (λ e. ground arith, λ e. ground arith)

-- A test on a window passes when the window is in the file and the test agrees with it.
windowed :
    {P : List ℕ → Type 0} (file : List ℕ) (o : Offset) (value : List ℕ) (expect : Bool)
    (judge : List ℕ → Bool)
    → IsU64 (length file)
    → ((w : List ℕ) → (judge w ≡ true) ↔ P w)
    → (and_also (read_at file o (length value)) (λ w. some (same (judge w) expect)) ≡ some true)
      ↔ ((w : List ℕ) × (length w ≡ length value) × Window file o w × Agrees expect (P w))
unfolding and_also
windowed {P = P} file o value expect judge small iff = (there, back)
  where
    there :
        and_also (read_at file o (length value)) (λ w. some (same (judge w) expect)) ≡ some true
        → (w : List ℕ) × (length w ≡ length value) × Window file o w × Agrees expect (P w)
    there e = elim (Option-cases (read_at file o (length value))) [
      | inl none_there ↦ cc (simp none_there at e)
      | inr (w, found) ↦
          let (long, at) = read_at-Window file o (length value) w found in
          let passed : some (same (judge w) expect) ≡ some true = simp found at e in
          (w, long, at, (same-Agrees (judge w) expect (iff w)).0 (cc passed))
    ]

    back :
        ((w : List ℕ) × (length w ≡ length value) × Window file o w × Agrees expect (P w))
        → and_also (read_at file o (length value)) (λ w. some (same (judge w) expect)) ≡ some true
    back (w, long, at, agrees) =
        let found : read_at file o (length value) ≡ some w =
          subst (λ (n : ℕ). read_at file o n ≡ some w) long (Window-read_at file o w small at) in
        let passed = (same-Agrees (judge w) expect (iff w)).1 agrees in simp found (ap some passed)

pub passes-Holds :
    (t : Test) (file : List ℕ) → IsU64 (length file) → (passes t file ≡ some true) ↔ Holds file t
unfolding passes
passes-Holds (data_test o value expect) file small =
    windowed file o value expect (λ w. list_eq w value) small (λ w. list_eq_iff w value)
passes-Holds (bool_test op o mask value expect) file small =
    windowed file o value expect (λ w. all_masked op w mask value) small
      (λ w. all_masked_iff op w mask value)
passes-Holds (file_test size operator expect) file small =
    let (f, g) =
      same-Agrees (size_matches size operator (length file)) expect
        (size_matches-SizeIs size operator (length file) small) in
    (λ e. f (cc e), λ h. ap some (g h))

pub all_pass-Holds :
    (ts : List Test) (file : List ℕ)
    → IsU64 (length file)
    → (all_pass ts file ≡ true) ↔ All (Holds file) ts
unfolding all_pass
all_pass-Holds [] file small = (λ e. tt, λ h. refl)
all_pass-Holds (t ∷ ts) file small =
    let (f, g) = passes-Holds t file small in
    let (fs, gs) = all_pass-Holds ts file small in
    (there f fs, λ (h, hs). let p = g h in let ps = gs hs in simp (p, all_pass, ps) refl)
  where
    there :
        (passes t file ≡ some true → Holds file t)
        → (all_pass ts file ≡ true → All (Holds file) ts)
        → all_pass (t ∷ ts) file ≡ true
        → Holds file t × All (Holds file) ts
    there f fs e = elim (Option-cases (passes t file)) [
      | inl none_there ↦ cc (simp (none_there, all_pass) at e)
      | inr (true, found) ↦ (f found, fs (simp (found, all_pass) at e))
      | inr (false, found) ↦ cc (simp (found, all_pass) at e)
    ]
