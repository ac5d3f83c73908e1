-- ===== src/Examples/PipeRuns.antt =====
-- crates/datboi-runtime/src/pipe.rs on concrete runs.
use datboi.Base.{ℕ, List, [], ◌∷◌, ◌++◌, none, some, true, false, ◌≡◌, ◌≢◌, refl, inl, arith}
use datboi.Pipe.Defs.{
  Pipe, pipe, write, send, fail_with, finish, drop_writer, drop_guard, read, read_from, serve,
  verdict, waiting,
}
use datboi.Pipe.Steps.{Reachable, begin, writes, reads, fails, finishes, drops_writer}
use datboi.Pipe.Order.{Inv, Reachable-Inv}
use datboi.Pipe.Progress.{clean_end, failed_end, blocked-read_ne}
use datboi.Pipe.Drain.{drain, drain_complete}

abbrev no_bytes : List ℕ
no_bytes = []

-- Two writes, one read into a buffer of two bytes.
abbrev after_writes : Pipe
after_writes = record pipe { queue = (1 ∷ 2 ∷ 3 ∷ []) ∷ (4 ∷ 5 ∷ []) ∷ [] }

abbrev after_read : Pipe
after_read = record pipe { queue = (4 ∷ 5 ∷ []) ∷ []; current = 1 ∷ 2 ∷ 3 ∷ []; pos = 2 }

after_writes-Reachable : Reachable after_writes (1 ∷ 2 ∷ 3 ∷ 4 ∷ 5 ∷ []) []
unfolding write send pipe
after_writes-Reachable = writes (4 ∷ 5 ∷ []) 2 (writes (1 ∷ 2 ∷ 3 ∷ []) 3 begin refl refl) refl refl

after_read-Reachable : Reachable after_read (1 ∷ 2 ∷ 3 ∷ 4 ∷ 5 ∷ []) (1 ∷ 2 ∷ [])
unfolding read read_from serve pipe
after_read-Reachable = reads 2 after_writes-Reachable refl refl

Reachable-Inv_example : Inv after_read (1 ∷ 2 ∷ 3 ∷ 4 ∷ 5 ∷ []) (1 ∷ 2 ∷ [])
Reachable-Inv_example =
    Reachable-Inv after_read (1 ∷ 2 ∷ 3 ∷ 4 ∷ 5 ∷ []) (1 ∷ 2 ∷ []) after_read-Reachable

abbrev ended : Pipe
ended = record after_read { finished = true; writer_open = false }

ended-Reachable : Reachable ended (1 ∷ 2 ∷ 3 ∷ 4 ∷ 5 ∷ []) (1 ∷ 2 ∷ [])
unfolding finish drop_writer pipe
ended-Reachable = drops_writer (finishes after_read-Reachable)

drain_complete_example :
    (rest : List ℕ) × (drain 9 2 ended ≡ some rest)
    × ((1 ∷ 2 ∷ 3 ∷ 4 ∷ 5 ∷ []) ≡ (1 ∷ 2 ∷ []) ++ rest)
unfolding pipe
drain_complete_example =
    drain_complete 9 2 ended _ _ ended-Reachable refl refl refl (omega arith) (omega arith)

abbrev empty_end : Pipe
empty_end = record pipe { finished = true; writer_open = false }

clean_end_example :
    (no_bytes ≡ [])
    × (empty_end.writer_open ≡ false)
    × (empty_end.finished ≡ true)
    × (empty_end.error ≡ none)
unfolding read read_from serve verdict pipe drop_guard finish drop_writer
clean_end_example =
    clean_end empty_end empty_end [] [] 8 (drops_writer (finishes begin)) (omega arith) refl

abbrev broken : Pipe
broken = record pipe { finished = true; writer_open = false; error = some (7 ∷ []) }

failed_end_example : (no_bytes ≡ []) × (broken.writer_open ≡ false) × (broken.error ≡ some (7 ∷ []))
unfolding read read_from serve verdict pipe fail_with drop_writer
failed_end_example =
    failed_end broken [] [] (7 ∷ []) 8 (drops_writer (fails (7 ∷ []) false begin)) (omega arith)
      (inl refl)

abbrev full : Pipe
full = record pipe { queue = (1 ∷ []) ∷ (2 ∷ []) ∷ (3 ∷ []) ∷ (4 ∷ []) ∷ [] }

full-Reachable : Reachable full (1 ∷ 2 ∷ 3 ∷ 4 ∷ []) []
unfolding write send pipe
full-Reachable =
    writes (4 ∷ []) 1
      (writes (3 ∷ []) 1 (writes (2 ∷ []) 1 (writes (1 ∷ []) 1 begin refl refl) refl refl) refl
        refl)
      refl refl

blocked-read_ne_example : read full 1 ≢ waiting
unfolding write send pipe
blocked-read_ne_example = blocked-read_ne full _ _ (5 ∷ []) 1 full-Reachable (omega arith) refl
