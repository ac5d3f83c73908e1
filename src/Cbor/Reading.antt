-- ===== src/Cbor/Reading.antt =====
-- What it means that a reader of crates/datboi-core/src/cbor.rs accepts only what a printer prints.
use datboi.Base.{
  ℕ, ◌+◌, ◌≤◌, List, ◌++◌, length, IsBytes, ◌≡◌, refl, Returns, if◌then◌else◌, Bool, true, false,
}
use datboi.Cbor.Value.{DecodeError, error_offset}
use datboi.Cbor.Decode.{M}

-- What was read: it is what `pr` prints, `P` holds of it, and the rest of the input is still `n`
-- bytes long together with what went before.
pub record Read {A : Type 0} (pr : A → List ℕ) (P : A → Type 0) (n : ℕ) (rest : List ℕ)
    (t : A × ℕ × List ℕ) : Type 0 where
  pub holds : P t.0
  pub split : rest ≡ pr t.0 ++ t.2
  pub within : t.1 + length t.2 ≡ n
  pub clean : IsBytes t.2

-- On an input of `n` bytes in all, `m` reads as `Read` says, or it refuses at an offset in it.
abbrev pub Sound : {A : Type 0} → ℕ → (A → List ℕ) → (A → Type 0) → M A → Type 0
Sound n pr P m =
    (pos : ℕ) (rest : List ℕ)
    → pos + length rest ≡ n
    → IsBytes rest
    → Returns (λ e. error_offset e ≤ n) (Read pr P n rest) (m pos rest)

-- A branch of the decoder's monad, on its test.
pub Returns-branch :
    {A : Type 0} {Q : DecodeError → Type 0} {P : A × ℕ × List ℕ → Type 0} (b : Bool) (f g : M A)
    (pos : ℕ) (rest : List ℕ)
    → (b ≡ true → Returns Q P (f pos rest))
    → (b ≡ false → Returns Q P (g pos rest))
    → Returns Q P ((if b then f else g) pos rest)
Returns-branch true f g pos rest hf hg = hf refl
Returns-branch false f g pos rest hf hg = hg refl
