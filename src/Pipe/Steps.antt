-- ===== src/Pipe/Steps.antt =====
-- The interleavings of the two threads of crates/datboi-runtime/src/pipe.rs, with what was written
-- and what was read so far.
use datboi.Base.{ℕ, List, [], ◌++◌, Bool, true, ◌≡◌, take}
use datboi.Pipe.Defs.{
  Pipe, pipe, write, wrote, fail_with, finish, drop_writer, drop_reader, read, got,
}

-- A pipe that a run of steps leads to. The writer's calls need the writer, the reader's the reader;
-- the handle may fail or finish the pipe at any time.
pub data Reachable : Pipe → List ℕ → List ℕ → Type 0 where
  begin : Reachable pipe [] []
  writes :
      {p q : Pipe} {sent taken : List ℕ} (buf : List ℕ) (n : ℕ)
      → Reachable p sent taken
      → p.writer_open ≡ true
      → write buf p ≡ wrote n q
      → Reachable q (sent ++ take n buf) taken
  reads :
      {p q : Pipe} {sent taken chunk : List ℕ} (buf_len : ℕ)
      → Reachable p sent taken
      → p.reader_open ≡ true
      → read p buf_len ≡ got chunk q
      → Reachable q sent (taken ++ chunk)
  fails :
      {p : Pipe} {sent taken : List ℕ} (message : List ℕ) (deterministic : Bool)
      → Reachable p sent taken
      → Reachable (fail_with message deterministic p) sent taken
  finishes :
      {p : Pipe} {sent taken : List ℕ} → Reachable p sent taken → Reachable (finish p) sent taken
  drops_writer :
      {p : Pipe} {sent taken : List ℕ}
      → Reachable p sent taken
      → Reachable (drop_writer p) sent taken
  drops_reader :
      {p : Pipe} {sent taken : List ℕ}
      → Reachable p sent taken
      → Reachable (drop_reader p) sent taken
