-- ===== src/Skipper/Reading.antt =====
-- Offsets and windows of crates/datboi-formats/src/skipper.rs against the relations.
use datboi.Base.{
  ℕ, ◌+◌, ◌-◌, ◌^◌, ◌≤◌, List, ◌++◌, some, true, length, take, drop, ltb, leb, ◌≡◌, refl, sym, ap,
  subst, ◌∙◌, arith, inl, inr, Bool-cases, Option-cases, length-append, length-take, length-drop,
  take-append-drop, take-append_length, drop-append_length, IsU64, leb→le, lt→ltb, le→leb,
}
use datboi.Base.Slices.{drop-drop}
use datboi.Skipper.Operations.{slice}
use datboi.Skipper.Defs.{Offset, from_start, from_end, eof, resolve, read_at, and_also}
use datboi.Skipper.Fulfils.{Resolves, at_start, at_end, at_eof, Window}

pub resolve-Resolves : (o : Offset) (n p : ℕ) → resolve o n ≡ some p → Resolves o n p
unfolding resolve
resolve-Resolves (from_start v) n p e = elim (Bool-cases (leb v n)) [
  | inl t ↦
      let here : some v ≡ some p = rw t at e in
      let same : v ≡ p = cc in rw (← same) (at_start (leb→le v n t))
  | inr f ↦ cc (simp f at e)
]
resolve-Resolves (from_end v) n p e = elim (Bool-cases (leb v n)) [
  | inl t ↦
      let here : some (n - v) ≡ some p = rw t at e in
      let same : n - v ≡ p = cc in at_end p (omega (arith, leb→le v n t))
  | inr f ↦ cc (simp f at e)
]
resolve-Resolves eof n p e = let same : n ≡ p = cc in rw (← same) at_eof

pub Resolves-resolve : (o : Offset) (n p : ℕ) → Resolves o n p → resolve o n ≡ some p
unfolding resolve
Resolves-resolve o n p (at_start h) = rw (le→leb p n h) refl
Resolves-resolve o n p (at_end {v = v} q h) =
    let fits : v ≤ n = omega arith in
    let same : n - v ≡ p = omega arith in rw (le→leb v n fits, same) refl
Resolves-resolve o n p at_eof = refl

pub Resolves-le : (o : Offset) (n p : ℕ) → Resolves o n p → p ≤ n
Resolves-le o n p (at_start h) = h
Resolves-le o n p (at_end q h) = omega arith
Resolves-le o n p at_eof = omega arith

-- A slice that is in range, with what is around it.
pub slice-eq-some :
    (start end : ℕ) (file w : List ℕ)
    → slice start end file ≡ some w
    → (start ≤ end) × (end ≤ length file) × (w ≡ take (end - start) (drop start file))
unfolding slice
slice-eq-some start end file w e = ground arith

pub slice_around :
    (start end : ℕ) (file w : List ℕ)
    → slice start end file ≡ some w
    → (file ≡ take start file ++ (w ++ drop end file)) × (length w ≡ end - start)
slice_around start end file w e =
    let (lo, hi, same) = slice-eq-some start end file w e in
    let joined : start + (end - start) ≡ end = omega arith in
    let rest : drop start file ≡ take (end - start) (drop start file) ++ drop end file =
      sym (take-append-drop (end - start) (drop start file))
      ∙ ap (λ (t : List ℕ). take (end - start) (drop start file) ++ t)
          (drop-drop (end - start) start file ∙ ap (λ (t : ℕ). drop t file) joined) in
    (
      sym (take-append-drop start file) ∙ ap (λ (t : List ℕ). take start file ++ t) (rw same rest),
      rw same (omega (arith, length-take (end - start) (drop start file), length-drop start file)),
    )

pub slice_of_parts :
    (before w after : List ℕ)
    → slice (length before) (length before + length w) (before ++ (w ++ after)) ≡ some w
unfolding slice
slice_of_parts before w after =
    let a : leb (length before) (length before + length w) ≡ true = ground arith in
    let b : leb (length before + length w) (length (before ++ (w ++ after))) ≡ true =
      le→leb _ _ (omega (arith, length-append before (w ++ after), length-append w after)) in
    let c : length before + length w - length before ≡ length w = omega arith in
    rw (a, b, c, drop-append_length before (w ++ after), take-append_length w after) refl

pub read_at-Window :
    (file : List ℕ) (o : Offset) (n : ℕ) (w : List ℕ)
    → read_at file o n ≡ some w
    → (length w ≡ n) × Window file o w
unfolding read_at and_also
read_at-Window file o n w e = elim (Option-cases (resolve o (length file))) [
  | inl none_there ↦ cc (simp none_there at e)
  | inr (start, found) ↦ elim (Bool-cases (ltb (start + n) (2 ^ 64))) [
    | inl t ↦
        let cut : slice start (start + n) file ≡ some w = simp (found, t) at e in
        let (parts, long) = slice_around start (start + n) file w cut in
        let (lo, hi, same) = slice-eq-some start (start + n) file w cut in
        let at : length (take start file) ≡ start = omega (arith, length-take start file) in
        (
          omega arith,
          record {
            before = take start file;
            after = drop (start + n) file;
            resolves = rw at (resolve-Resolves o (length file) start found);
            parts = parts;
          },
        )
    | inr f ↦ cc (simp (found, f) at e)
  ]
]

pub Window-read_at :
    (file : List ℕ) (o : Offset) (w : List ℕ)
    → IsU64 (length file)
    → Window file o w
    → read_at file o (length w) ≡ some w
unfolding read_at and_also
Window-read_at file o w small h =
    let found = Resolves-resolve o (length file) (length h.before) h.resolves in
    let long : length file ≡ length h.before + (length w + length h.after) =
      ap length h.parts
      ∙ omega (arith, length-append h.before (w ++ h.after), length-append w h.after) in
    let fits : ltb (length h.before + length w) (2 ^ 64) ≡ true = lt→ltb _ _ (omega arith) in
    simp (found, fits)
      (subst (λ (f : List ℕ). slice (length h.before) (length h.before + length w) f ≡ some w)
        (sym h.parts) (slice_of_parts h.before w h.after))
