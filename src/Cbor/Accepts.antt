-- ===== src/Cbor/Accepts.antt =====
-- The decoder of crates/datboi-core/src/cbor.rs accepts nothing but the prints of canonical values,
-- and refuses at an offset inside its input.
use datboi.Base.{
  ℕ, zero, suc, ◌+◌, ◌≤◌, none, List, ◌++◌, length, IsBytes, IsU64, ◌≡◌, ◌==◌, ltb, ◌∙◌, arith,
  ==_iff, append_assoc, ok, Returns, returns, fails, Returns-map, Returns-and_then, Bool-cases, inl,
  inr,
}
use datboi.Utf8.{is_utf8}
use datboi.Cbor.Value.{Value, uint, bytes, text, array, map, DecodeError, error_offset}
use datboi.Cbor.Encode.{put_head}
use datboi.Cbor.Decode.{
  M, ◌>>=◌, pure, take_bytes, check_count, items, entries, text_of, body, value,
}
use datboi.Cbor.Reading.{Sound, Returns-branch}
use datboi.Cbor.HeadSound.{head-Sound}
use datboi.Cbor.Canonical.{emit, IsCanonical, levels}
use datboi.Cbor.SequencesSound.{take_bytes-Sound, items-Sound, entries-Sound}

module _ (n : ℕ) where
  abbrev pub Inside : DecodeError → Type 0
  Inside e = error_offset e ≤ n

  -- The value that a major type and its argument start, and the input that it takes.
  abbrev Begun : ℕ → ℕ → ℕ → List ℕ → Value × ℕ × List ℕ → Type 0
  Begun l m a rest (v, p, r) =
      IsCanonical v
      × (levels v ≤ l)
      × (put_head m a ++ rest ≡ emit v ++ r)
      × (p + length r ≡ n)
      × IsBytes r

  module _ (l : ℕ) (inner : M Value)
      (reads : Sound n emit (λ v. IsCanonical v × (levels v ≤ l)) inner) where
    -- The arms of `body` that read a payload.
    Begun-bytes :
        (at m len pos : ℕ) (rest : List ℕ)
        → at ≤ n
        → pos + length rest ≡ n
        → IsBytes rest
        → IsU64 len
        → m ≡ 2
        → Returns Inside
            (Begun (suc l) m len rest)
            ((take_bytes len at >>= λ bs. pure (bytes bs)) pos rest)
    unfolding emit IsCanonical levels
    Begun-bytes at m len pos rest ha h c hl e =
        Returns-and_then (take_bytes-Sound n len at ha pos rest h c) λ (b, p, r) t.
          returns {a = (bytes b, p, r)} (
            (rw t.holds.0 hl, t.holds.1),
            omega arith,
            rw (e, t.split, t.holds.0, append_assoc),
            t.within,
            t.clean,
          )

    Begun-text :
        (at m len pos : ℕ) (rest : List ℕ)
        → at ≤ n
        → pos + length rest ≡ n
        → IsBytes rest
        → IsU64 len
        → m ≡ 3
        → Returns Inside
            (Begun (suc l) m len rest)
            ((take_bytes len at >>= λ bs. text_of at bs) pos rest)
    unfolding emit IsCanonical levels text_of
    Begun-text at m len pos rest ha h c hl e =
        Returns-and_then (take_bytes-Sound n len at ha pos rest h c) λ (b, p, r) t.
          Returns-branch (is_utf8 b) _ _ p r
            (λ u. returns {a = (text b, p, r)} (
              (rw t.holds.0 hl, t.holds.1, u),
              omega arith,
              rw (e, t.split, t.holds.0, append_assoc),
              t.within,
              t.clean,
            ))
            (λ _. fails ha)

    Begun-array :
        (at m len pos : ℕ) (rest : List ℕ)
        → at ≤ n
        → pos + length rest ≡ n
        → IsBytes rest
        → IsU64 len
        → m ≡ 4
        → Returns Inside
            (Begun (suc l) m len rest)
            ((check_count len at >>= λ _. items inner len >>= λ vs. pure (array vs)) pos rest)
    unfolding emit IsCanonical levels check_count
    Begun-array at m len pos rest ha h c hl e = elim (Bool-cases (ltb (length rest) len)) [
      | inl over ↦ rw over (fails ha)
      | inr fits ↦ rw fits (
          Returns-and_then (items-Sound n l inner reads len pos rest h c) λ (vs, p, r) t.
            returns {a = (array vs, p, r)} (
              (rw t.holds.2 hl, t.holds.0),
              omega (arith, t.holds.1),
              rw (e, t.split, t.holds.2, append_assoc),
              t.within,
              t.clean,
            ))
    ]

    Begun-map :
        (at m len pos : ℕ) (rest : List ℕ)
        → at ≤ n
        → pos + length rest ≡ n
        → IsBytes rest
        → IsU64 len
        → m ≡ 5
        → Returns Inside
            (Begun (suc l) m len rest)
            ((check_count len at >>= λ _. entries inner len none >>= λ es. pure (map es)) pos rest)
    unfolding emit IsCanonical levels check_count
    Begun-map at m len pos rest ha h c hl e = elim (Bool-cases (ltb (length rest) len)) [
      | inl over ↦ rw over (fails ha)
      | inr fits ↦ rw fits (
          Returns-and_then (entries-Sound n l inner reads len none pos rest h c) λ (es, p, r) t.
            returns {a = (map es, p, r)} (
              (rw t.holds.2 hl, t.holds.0),
              omega (arith, t.holds.1),
              rw (e, t.split, t.holds.2, append_assoc),
              t.within,
              t.clean,
            ))
    ]

    body-Begun :
        (at m a pos : ℕ) (rest : List ℕ)
        → at ≤ n
        → pos + length rest ≡ n
        → IsBytes rest
        → IsU64 a
        → Returns Inside (Begun (suc l) m a rest) (body inner at m a pos rest)
    unfolding body
    body-Begun at m a pos rest ha h c hu =
        Returns-branch (m == 0) _ _ pos rest (λ e. begun_uint ((==_iff m 0).0 e))
          λ _.
            Returns-branch (m == 1) _ _ pos rest (λ e. fails ha)
              λ _.
                Returns-branch (m == 2) _ _ pos rest
                  (λ e. Begun-bytes at m a pos rest ha h c hu ((==_iff m 2).0 e))
                  λ _.
                    Returns-branch (m == 3) _ _ pos rest
                      (λ e. Begun-text at m a pos rest ha h c hu ((==_iff m 3).0 e))
                      λ _.
                        Returns-branch (m == 4) _ _ pos rest
                          (λ e. Begun-array at m a pos rest ha h c hu ((==_iff m 4).0 e))
                          λ _.
                            Returns-branch (m == 5) _ _ pos rest
                              (λ e. Begun-map at m a pos rest ha h c hu ((==_iff m 5).0 e))
                              λ _.
                                Returns-branch (m == 6) _ _ pos rest (λ e. fails ha) (λ _. fails ha)
      where
        begun_uint : m ≡ 0 → Returns Inside (Begun (suc l) m a rest) (ok (uint a, pos, rest))
        begun_uint e =
            returns {a = (uint a, pos, rest)}
              (unfold emit IsCanonical levels in (hu, omega arith, rw e, h, c))

  pub value-Sound : (l : ℕ) → Sound n emit (λ v. IsCanonical v × (levels v ≤ l)) (value l)
  unfolding value
  value-Sound zero pos rest h c = fails (omega arith)
  value-Sound (suc l) pos rest h c =
      Returns-and_then (head-Sound n pos rest h c) λ ((m, a), p, r) t.
        Returns-map
          (body-Begun l (value l) (value-Sound l) pos m a p r (omega arith) t.within t.clean
            t.holds.1)
          λ (v, p', r') (hc, hl, s, h', c'). record {
            holds = (hc, hl);
            split = t.split ∙ s;
            within = h';
            clean = c';
          }
