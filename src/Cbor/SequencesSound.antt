-- ===== src/Cbor/SequencesSound.antt =====
-- The readers of crates/datboi-core/src/cbor.rs for byte strings, keys, items and entries: what they
-- accept is a print.
use datboi.Base.{
  ℕ, zero, suc, ◌+◌, ◌≤◌, Option, none, some, length, take, drop, IsBytes, IsU64, ◌≡◌, ◌==◌, leb,
  not, refl, sym, ap, ◌∙◌, arith, tests, append_assoc, returns, fails, Returns-and_then, Returns-if,
  take-append-drop, All-take, All-drop, length-take, length-drop, false, IsByte,
}
use datboi.Cbor.Value.{Value, nil, cons, end, entry, length_items, length_entries}
use datboi.Cbor.Encode.{put_head}
use datboi.Cbor.Decode.{M, take_bytes, items, out_of_order, entry_key, entries}
use datboi.Cbor.Reading.{Sound, Returns-branch}
use datboi.Cbor.HeadSound.{head-Sound}
use datboi.Cbor.Canonical.{
  emit, emit_items, emit_entries, Above, IsCanonical, AllCanonical, Ascends, levels, levels_items,
  levels_entries,
}

module _ (n : ℕ) where
  pub take_bytes-Sound :
      (len at : ℕ)
      → at ≤ n
      → Sound n (λ b. b) (λ b. (length b ≡ len) × IsBytes b) (take_bytes len at)
  unfolding take_bytes
  take_bytes-Sound len at ha pos rest h c =
      Returns-if (leb len (length rest))
        (λ t. returns {a = (take len rest, pos + len, drop len rest)} (record {
          holds = (omega (tests, t, length-take len rest), All-take IsByte len rest c);
          split = sym (take-append-drop len rest);
          within = omega (tests, t, length-drop len rest);
          clean = All-drop IsByte len rest c;
        }))
        (λ _. fails ha)

  in_order : (prev : Option ℕ) (k : ℕ) → out_of_order prev k ≡ false → Above prev k
  unfolding out_of_order
  in_order none k e = tt
  in_order (some p) k e = ground arith

  entry_key-Sound :
      (prev : Option ℕ) → Sound n (put_head 0) (λ k. IsU64 k × Above prev k) (entry_key prev)
  unfolding entry_key
  entry_key-Sound prev pos rest h c =
      Returns-and_then (head-Sound n pos rest h c) λ ((m, k), p, r) t.
        Returns-branch (not (m == 0)) _ _ p r (λ _. fails (omega arith))
          λ e.
            Returns-branch (out_of_order prev k) _ _ p r (λ _. fails (omega arith))
              λ o.
                let zeroth : m ≡ 0 = ground arith in
                returns {a = (k, p, r)} (record {
                  holds = (t.holds.1, in_order prev k o);
                  split = t.split ∙ rw zeroth refl;
                  within = t.within;
                  clean = t.clean;
                })

  module _ (l : ℕ) (inner : M Value)
      (reads : Sound n emit (λ v. IsCanonical v × (levels v ≤ l)) inner) where
    pub items-Sound :
        (count : ℕ)
        → Sound n emit_items
            (λ vs. AllCanonical vs × (levels_items vs ≤ l) × (length_items vs ≡ count))
            (items inner count)
    unfolding items emit IsCanonical levels
    items-Sound zero pos rest h c =
        returns {a = (nil, pos, rest)}
          (record { holds = (tt, omega arith, refl); split = refl; within = h; clean = c })
    items-Sound (suc count) pos rest h c = Returns-and_then (reads pos rest h c) λ (v, p, r) t.
        Returns-and_then (items-Sound count p r t.within t.clean) λ (vs, p', r') t'.
          returns {a = (cons v vs, p', r')} (record {
            holds =
                ((t.holds.0, t'.holds.0), omega (arith, t.holds.1, t'.holds.1), ap suc t'.holds.2);
            split = rw (t.split, t'.split, append_assoc);
            within = t'.within;
            clean = t'.clean;
          })

    pub entries-Sound :
        (count : ℕ) (prev : Option ℕ)
        → Sound n emit_entries
            (λ es. Ascends prev es × (levels_entries es ≤ l) × (length_entries es ≡ count))
            (entries inner count prev)
    unfolding entries emit IsCanonical levels
    entries-Sound zero prev pos rest h c =
        returns {a = (end, pos, rest)}
          (record { holds = (tt, omega arith, refl); split = refl; within = h; clean = c })
    entries-Sound (suc count) prev pos rest h c =
        Returns-and_then (entry_key-Sound prev pos rest h c) λ (k, p₀, r₀) t₀.
          Returns-and_then (reads p₀ r₀ t₀.within t₀.clean) λ (v, p, r) t.
            Returns-and_then (entries-Sound count (some k) p r t.within t.clean) λ (es, p', r') t'.
              returns {a = (entry k v es, p', r')} (record {
                holds = (
                  (t₀.holds.0, t₀.holds.1, t.holds.0, t'.holds.0),
                  omega (arith, t.holds.1, t'.holds.1),
                  ap suc t'.holds.2,
                );
                split = rw (t₀.split, t.split, t'.split, append_assoc, append_assoc);
                within = t'.within;
                clean = t'.clean;
              })
