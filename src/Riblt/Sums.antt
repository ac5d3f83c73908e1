-- ===== src/Riblt/Sums.antt =====
-- Sums of source symbols in crates/datboi-p2p/src/riblt.rs: their order does not matter, and a symbol
-- that is removed leaves what was there.
use datboi.Base.{
  ◌++◌, length, ◌<◌, ap, ℕ, zero, suc, ◌+◌, ◌%◌, ◌^◌, List, [], ◌∷◌, ◌≡◌, refl, sym, arith, IsU64,
}
use datboi.Base.Xor.{bit_xor_right_comm, bit_xor_undo}
use datboi.Riblt.Defs.{CodedSymbol, HashedSymbol, xor_bytes, apply, add, remove, at_index}

xor_nil : (xs : List ℕ) → xor_bytes xs [] ≡ xs
unfolding xor_bytes
xor_nil [] = refl
xor_nil (x ∷ xs) = refl

xor_right_comm :
    (xs ys zs : List ℕ) → xor_bytes (xor_bytes xs ys) zs ≡ xor_bytes (xor_bytes xs zs) ys
unfolding xor_bytes
xor_right_comm [] ys zs = refl
xor_right_comm (x ∷ xs) [] zs = sym (xor_nil (xor_bytes (x ∷ xs) zs))
xor_right_comm (x ∷ xs) (y ∷ ys) [] = refl
xor_right_comm (x ∷ xs) (y ∷ ys) (z ∷ zs) =
    rw (bit_xor_right_comm x y z, xor_right_comm xs ys zs) refl

pub xor_undo : (xs ys : List ℕ) → xor_bytes (xor_bytes xs ys) ys ≡ xs
unfolding xor_bytes
xor_undo [] ys = refl
xor_undo (x ∷ xs) [] = refl
xor_undo (x ∷ xs) (y ∷ ys) = rw (bit_xor_undo x y, xor_undo xs ys) refl

pub apply_comm :
    (c : CodedSymbol) (s t : HashedSymbol) (d e : ℕ)
    → apply (apply c s d) t e ≡ apply (apply c t e) s d
unfolding apply
apply_comm c s t d e =
    let counts : ((c.count + d) % 2 ^ 64 + e) % 2 ^ 64 ≡ ((c.count + e) % 2 ^ 64 + d) % 2 ^ 64 =
      omega arith in
    rw (xor_right_comm c.symbol s.symbol t.symbol, bit_xor_right_comm c.hash s.hash t.hash, counts)
      refl

pub apply_undo :
    (c : CodedSymbol) (s : HashedSymbol) → IsU64 c.count → apply (apply c s add) s remove ≡ c
unfolding apply
apply_undo c s h =
    let counts : ((c.count + add) % 2 ^ 64 + remove) % 2 ^ 64 ≡ c.count = omega arith in
    rw (xor_undo c.symbol s.symbol, bit_xor_undo c.hash s.hash, counts) refl

pub at_index_comm :
    {A : Type 0} (i j : ℕ) (f g : A → A)
    → ((x : A) → f (g x) ≡ g (f x))
    → (xs : List A) → at_index i f (at_index j g xs) ≡ at_index j g (at_index i f xs)
unfolding at_index
at_index_comm i j f g h [] = refl
at_index_comm zero zero f g h (x ∷ xs) = rw (h x) refl
at_index_comm zero (suc j) f g h (x ∷ xs) = refl
at_index_comm (suc i) zero f g h (x ∷ xs) = refl
at_index_comm (suc i) (suc j) f g h (x ∷ xs) = rw (at_index_comm i j f g h xs) refl

pub at_index_front :
    {A : Type 0} (xs ys : List A) (i : ℕ) (f : A → A)
    → i < length xs
    → at_index i f (xs ++ ys) ≡ at_index i f xs ++ ys
unfolding at_index
at_index_front [] ys i f h = absurd (omega arith)
at_index_front (x ∷ xs) ys zero f h = refl
at_index_front (x ∷ xs) ys (suc i) f h = ap (λ t. x ∷ t) (at_index_front xs ys i f (omega arith))

pub at_index_behind :
    {A : Type 0} (xs ys : List A) (i j : ℕ) (f : A → A)
    → i ≡ length xs + j
    → at_index i f (xs ++ ys) ≡ xs ++ at_index j f ys
unfolding at_index
at_index_behind [] ys i j f e = let same : i ≡ j = omega arith in rw same refl
at_index_behind (x ∷ xs) ys zero j f e = absurd (omega arith)
at_index_behind (x ∷ xs) ys (suc i) j f e =
    ap (λ t. x ∷ t) (at_index_behind xs ys i j f (omega arith))
