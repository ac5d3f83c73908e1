-- ===== src/Riblt/Blocks.antt =====
-- The block encoder of crates/datboi-p2p/src/riblt.rs: its answer depends on the set only, and a
-- symbol can be peeled off it.
use datboi.Base.{ℕ, ◌+◌, List, ◌∷◌, Option, none, some, length, ◌≡◌, refl, sym, ap, ◌∙◌}
use mathlib.Core.List.{Permᴰ}
use datboi.Riblt.Defs.{CodedSymbol, HashedSymbol, mapping, add, mark, encode_onto}
use datboi.Riblt.Marks.{bind, mark_comm}
use datboi.Riblt.Undo.{length-mark}

module _ (step : ℕ → ℕ → ℕ) where
  abbrev pub one : ℕ → ℕ → HashedSymbol → List CodedSymbol → Option (List CodedSymbol)
  one fuel start s out = mark step fuel start (start + length out) s add (mapping s) out

  pub onto :
      (fuel start : ℕ) (s : HashedSymbol) (ss : List HashedSymbol) (out : List CodedSymbol)
      → encode_onto step fuel start (s ∷ ss) out
        ≡ bind (one fuel start s out) (encode_onto step fuel start ss)
  unfolding encode_onto
  onto fuel start s ss out = go (one fuel start s out)
    where
      go :
          (o : Option (List CodedSymbol))
          → (elim o [ none ↦ none | some next ↦ encode_onto step fuel start ss next ])
            ≡ bind o (encode_onto step fuel start ss)
      go none = refl
      go (some next) = refl

  -- Two symbols into a block in either order.
  one-one :
      (fuel start : ℕ) (s t : HashedSymbol) (out : List CodedSymbol)
      → bind (one fuel start s out) (one fuel start t)
        ≡ bind (one fuel start t out) (one fuel start s)
  one-one fuel start s t out =
      sym (same_length s t)
      ∙ mark_comm step start (start + length out) fuel fuel s t add add (mapping s) (mapping t) out
      ∙ same_length t s
    where
      same_length :
          (s t : HashedSymbol)
          → bind
              (one fuel start s out)
              (mark step fuel start (start + length out) t add (mapping t))
            ≡ bind (one fuel start s out) (one fuel start t)
      same_length s t = go (one fuel start s out) refl
        where
          go :
              (o : Option (List CodedSymbol))
              → one fuel start s out ≡ o
              → bind o (mark step fuel start (start + length out) t add (mapping t))
                ≡ bind o (one fuel start t)
          go none e = refl
          go (some x) e =
              let long =
                length-mark step start (start + length out) fuel s add (mapping s) out x e in
              ap (λ (n : ℕ). mark step fuel start (start + n) t add (mapping t) x) (sym long)

  pub bind-bind :
      {A B C : Type 0} (o : Option A) (f : A → Option B) (g : B → Option C)
      → bind (bind o f) g ≡ bind o (λ a. bind (f a) g)
  bind-bind none f g = refl
  bind-bind (some a) f g = refl

  pub bind_same :
      {A B : Type 0} (o : Option A) (f g : A → Option B)
      → ((a : A) → f a ≡ g a)
      → bind o f ≡ bind o g
  bind_same none f g h = refl
  bind_same (some a) f g h = h a

  pub onto_swap :
      (fuel start : ℕ) (s t : HashedSymbol) (ss : List HashedSymbol) (out : List CodedSymbol)
      → encode_onto step fuel start (s ∷ t ∷ ss) out ≡ encode_onto step fuel start (t ∷ s ∷ ss) out
  onto_swap fuel start s t ss out =
      two s t
      ∙ ap (λ (o : Option (List CodedSymbol)). bind o (encode_onto step fuel start ss))
          (one-one fuel start s t out)
      ∙ sym (two t s)
    where
      two :
          (s t : HashedSymbol)
          → encode_onto step fuel start (s ∷ t ∷ ss) out
            ≡ bind (bind (one fuel start s out) (one fuel start t)) (encode_onto step fuel start ss)
      two s t =
          onto fuel start s (t ∷ ss) out
          ∙ bind_same (one fuel start s out) _ _ (λ x. onto fuel start t ss x)
          ∙ sym
              (bind-bind (one fuel start s out) (one fuel start t) (encode_onto step fuel start ss))

  pub onto_perm :
      (fuel start : ℕ) {ss ts : List HashedSymbol} (out : List CodedSymbol)
      → Permᴰ ss ts
      → encode_onto step fuel start ss out ≡ encode_onto step fuel start ts out
  onto_perm fuel start out Permᴰ.nil = refl
  onto_perm fuel start out (Permᴰ.cons {a = a} {b = b} {l₁ = ss} {l₂ = ts} e p) =
      onto fuel start a ss out
      ∙ bind_same (one fuel start a out) _ _ (λ x. onto_perm fuel start x p)
      ∙ sym (onto fuel start a ts out)
      ∙ ap (λ (s : HashedSymbol). encode_onto step fuel start (s ∷ ts) out) e
  onto_perm fuel start out (Permᴰ.swap {a = a} {b = b} {l = l} e f) =
      onto_swap fuel start a b l out ∙ rw (e, f) refl
  onto_perm fuel start out (Permᴰ.trans p q) =
      onto_perm fuel start out p ∙ onto_perm fuel start out q
