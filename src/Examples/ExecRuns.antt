-- ===== src/Examples/ExecRuns.antt =====
-- crates/datboi-exec/src/random.rs on concrete sources, which give one byte at a time.
use datboi.Base.{
  ℕ, zero, suc, ◌≤◌, ◌<◌, List, [], ◌∷◌, some, length, take, drop, ◌≡◌, refl, arith, length-take,
  length-drop,
}
use datboi.Assemble.Defs.{
  AssembleParams, blob_range, fill, literal, output_size, add_lens, checked_add, len,
}
use datboi.Assemble.Output
use datboi.Exec.Defs.{
  RangeRead, Outcome, got, read_at_exact, check_segments, assemble_random, assembled_read_at,
}
use datboi.Exec.Exact.{exact, read_at_exact_lem}
use datboi.Exec.Assembled.{assembled_read_at-output}
use datboi.Exec.Windows.{read_all, read_all-window}

abbrev one_byte : List ℕ → ℕ → ℕ → Outcome
one_byte s offset zero = got []
one_byte s offset (suc n) = got (take 1 (drop offset s))

one_byte_lem :
    (s : List ℕ) (offset n : ℕ)
    → offset < length s
    → 0 < n
    → (chunk : List ℕ) × (one_byte s offset n ≡ got chunk)
      × (0 < length chunk)
      × (length chunk ≤ n)
      × (chunk ≡ take (length chunk) (drop offset s))
one_byte_lem s offset zero h b = absurd (omega arith)
one_byte_lem s offset (suc n) h b =
    let long : length (take 1 (drop offset s)) ≡ 1 =
      omega (arith, length-take 1 (drop offset s), length-drop offset s) in
    (take 1 (drop offset s), refl, omega arith, omega arith, rw long refl)

abbrev slow : RangeRead (List ℕ)
slow = record {
  len = length;
  read_at = one_byte;
  contents = λ s. s;
  len_lem = λ s. refl;
  read_at_lem = one_byte_lem;
}

abbrev children : List (List ℕ)
children = (10 ∷ 11 ∷ 12 ∷ 13 ∷ 14 ∷ []) ∷ []

abbrev node : AssembleParams
node = record { segments = blob_range 0 1 3 ∷ fill 0 2 ∷ literal (8 ∷ 9 ∷ []) ∷ [] }

node_size : assemble_random slow node children ≡ some 7
unfolding assemble_random output_size add_lens checked_add len check_segments
node_size = refl

read_at_exact_lem_example :
    read_at_exact slow 3 (10 ∷ 11 ∷ 12 ∷ 13 ∷ 14 ∷ []) 1 3 ≡ some (11 ∷ 12 ∷ 13 ∷ [])
read_at_exact_lem_example =
    read_at_exact_lem slow 3 (10 ∷ 11 ∷ 12 ∷ 13 ∷ 14 ∷ []) 1 3 (omega arith) (omega arith)

assembled_read_at-output_example :
    assembled_read_at slow node children 7 2 4
    ≡ got (take 4 (drop 2 (Output.output (exact slow) children node.segments)))
assembled_read_at-output_example = assembled_read_at-output slow children node 7 2 4 node_size

read_all-window_example :
    read_all slow 4 (10 ∷ 11 ∷ 12 ∷ 13 ∷ 14 ∷ []) (record { start = 1; remaining = 3 }) 2
    ≡ some (11 ∷ 12 ∷ 13 ∷ [])
read_all-window_example =
    read_all-window slow 4 (10 ∷ 11 ∷ 12 ∷ 13 ∷ 14 ∷ []) (record { start = 1; remaining = 3 }) 2
      (omega arith) (omega arith) (omega arith)
