-- ===== src/Object/Header.antt =====
-- The headers that `sniff` of crates/datboi-core/src/object.rs recognises.
use datboi.Base.{
  ℕ, ◌+◌, Option, some, List, [], ◌∷◌, ◌++◌, length, list_eq, list_eq→eq, Bool-cases, Option-cases,
  inl, inr, ◌≡◌, ap, ◌∙◌, arith, append_assoc, length-append,
}
use datboi.Utf8.{is_utf8}
use datboi.Object.Sniff.{
  ObjectKind, recipe, view_snapshot, state_snapshot, alias_batch, analysis_batch, prefix, tag,
  kind_of, strip_prefix, split_once, parse_version, sniff_line, sniff,
}

-- `datboi/<tag>/<version>` with its line feed.
unfoldable pub header : ObjectKind → List ℕ → List ℕ
header kind version = prefix ++ (tag kind ++ (b'/' ∷ (version ++ (b'\n' ∷ []))))

strip_prefix-eq-some : (ps bs r : List ℕ) → strip_prefix ps bs ≡ some r → bs ≡ ps ++ r
unfolding strip_prefix
strip_prefix-eq-some [] bs r e = cc
strip_prefix-eq-some (p ∷ ps) [] r e = cc
strip_prefix-eq-some (p ∷ ps) (b ∷ bs) r e = ground (arith, strip_prefix-eq-some ps bs r)

split_once-eq-some :
    (sep : ℕ) (bs x y : List ℕ) → split_once sep bs ≡ some (x, y) → bs ≡ x ++ (sep ∷ y)
unfolding split_once
split_once-eq-some sep [] x y e = cc
split_once-eq-some sep (b ∷ bs) x y e = elim (Option-cases (split_once sep bs)) [
  | inl last ↦ ground (arith, last)
  | inr ((x', y'), more) ↦ ground (arith, more, split_once-eq-some sep bs x' y' more)
]

hit : (t : List ℕ) (j k : ObjectKind) → t ≡ tag j → some j ≡ some k → t ≡ tag k
hit t j k e q = let same : j ≡ k = cc in rw (← same) e

kind_of-eq-some : (t : List ℕ) (k : ObjectKind) → kind_of t ≡ some k → t ≡ tag k
unfolding kind_of tag
kind_of-eq-some t k e = elim (Bool-cases (list_eq t (tag recipe))) [
  | inl a ↦ hit t recipe k (list_eq→eq t _ a) (rw a at e)
  | inr na ↦ elim (Bool-cases (list_eq t (tag view_snapshot))) [
    | inl a ↦ hit t view_snapshot k (list_eq→eq t _ a) (rw (na, a) at e)
    | inr nb ↦ elim (Bool-cases (list_eq t (tag state_snapshot))) [
      | inl a ↦ hit t state_snapshot k (list_eq→eq t _ a) (rw (na, nb, a) at e)
      | inr nc ↦ elim (Bool-cases (list_eq t (tag alias_batch))) [
        | inl a ↦ hit t alias_batch k (list_eq→eq t _ a) (rw (na, nb, nc, a) at e)
        | inr nd ↦ elim (Bool-cases (list_eq t (tag analysis_batch))) [
          | inl a ↦ hit t analysis_batch k (list_eq→eq t _ a) (rw (na, nb, nc, nd, a) at e)
          | inr ne ↦ cc (rw (na, nb, nc, nd, ne) at e)
        ]
      ]
    ]
  ]
]

abbrev LineOf : List ℕ → ObjectKind → ℕ → ℕ → Type 0
LineOf line k v at =
    (version : List ℕ) × (line ≡ tag k ++ (b'/' ∷ version))
    × (parse_version version ≡ some v)
    × (at ≡ length prefix + length line + 1)

sniff_line_sound :
    (line : List ℕ) (k : ObjectKind) (v at : ℕ)
    → sniff_line line ≡ some (k, v, at)
    → LineOf line k v at
unfolding sniff_line
sniff_line_sound line k v at e = elim (Bool-cases (is_utf8 line)) [
  | inr bad ↦ cc (rw bad at e)
  | inl good ↦ elim (Option-cases (split_once b'/' line)) [
    | inl none_there ↦ cc (rw (good, none_there, sniff_line) at e)
    | inr ((t, version), parted) ↦ elim (Option-cases (kind_of t)) [
      | inl unknown ↦ cc (rw (good, parted, unknown) at e)
      | inr (kind, known) ↦ elim (Option-cases (parse_version version)) [
        | inl bad_version ↦ cc (rw (good, parted, known, bad_version) at e)
        | inr (n, parsed) ↦
            let found : ◌≡◌ {A = Option (ObjectKind × ℕ × ℕ)}
                (some (kind, n, length prefix + length line + 1)) (some (k, v, at)) =
              rw (good, parted, known, parsed) at e in
            let same : kind ≡ k = cc in
            (
              version,
              split_once-eq-some b'/' line t version parted
                  ∙ rw (kind_of-eq-some t kind known, same),
              parsed ∙ ground arith,
              ground arith,
            )
      ]
    ]
  ]
]

-- If `sniff` recognises an object, the bytes are a header of that kind followed by a body, the
-- text of the version parses to that version, and the offset is the length of the header.
pub sniff_sound :
    (bs : List ℕ) (k : ObjectKind) (v at : ℕ)
    → sniff bs ≡ some (k, v, at)
    → (version : List ℕ) × (body : List ℕ) × (bs ≡ header k version ++ body)
      × (parse_version version ≡ some v)
      × (at ≡ length (header k version))
unfolding sniff strip_prefix
sniff_sound bs k v at e = elim (Option-cases (strip_prefix prefix bs)) [
  | inl other ↦ cc (rw (other, sniff) at e)
  | inr (rest, stripped) ↦ elim (Option-cases (split_once b'\n' rest)) [
    | inl no_line ↦ cc (rw (stripped, no_line, sniff) at e)
    | inr ((line, body), parted) ↦
        let (version, l, p, a) = sniff_line_sound line k v at (rw (stripped, parted) at e) in
        let b =
          strip_prefix-eq-some prefix bs rest stripped
          ∙ ap (λ t. prefix ++ t) (split_once-eq-some b'\n' rest line body parted) in
        (version, body, b ∙ whole k version line body l, p, a ∙ size k version line l)
  ]
]
  where
    whole :
        (k : ObjectKind) (version line body : List ℕ)
        → line ≡ tag k ++ (b'/' ∷ version)
        → prefix ++ (line ++ (b'\n' ∷ body)) ≡ header k version ++ body
    whole k version line body l = unfold header in rw l (simp append_assoc)

    size :
        (k : ObjectKind) (version line : List ℕ)
        → line ≡ tag k ++ (b'/' ∷ version)
        → length prefix + length line + 1 ≡ length (header k version)
    size k version line l =
        unfold header in
        rw l (
          omega (
            arith,
            length-append (tag k) (b'/' ∷ version),
            length-append (tag k) (b'/' ∷ (version ++ (b'\n' ∷ []))),
            length-append version (b'\n' ∷ []),
          ))
