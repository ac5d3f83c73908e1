-- ===== src/Pipe/Defs.antt =====
-- The state of crates/datboi-runtime/src/pipe.rs that the two threads share, and what each call
-- does to it. `sync_channel(DEPTH)` is a queue with a flag for each end; a call that would block the
-- thread answers `blocked`.
use datboi.Base.{
  ℕ, ◌+◌, ◌-◌, min, List, [], ◌∷◌, ◌++◌, Option, none, some, Bool, true, false, length, take, drop,
  ltb, leb, ◌==◌, if◌then◌else◌,
}

abbrev pub depth : ℕ
depth = 4

-- `State`, `PipeReader`, and the channel. A message is the list of its bytes.
pub record Pipe : Type 0 where
  pub queue : List (List ℕ)
  pub writer_open : Bool
  pub reader_open : Bool
  pub error : Option (List ℕ)
  pub deterministic : Bool
  pub finished : Bool
  pub current : List ℕ
  pub pos : ℕ

unfoldable pub pipe : Pipe
pipe = record {
  queue = [];
  writer_open = true;
  reader_open = true;
  error = none;
  deterministic = false;
  finished = false;
  current = [];
  pos = 0;
}

pub data Written : Type 0 where
  wrote : ℕ → Pipe → Written
  broken_pipe : Written
  blocked : Written

unfoldable pub send : List ℕ → Pipe → Pipe
send buf p = record p { queue = p.queue ++ (buf ∷ []) }

-- `PipeWriter::write`; `send` fails when the receiver is gone and blocks when the queue is full.
unfoldable pub write : List ℕ → Pipe → Written
write buf p =
    if length buf == 0
    then wrote 0 p
    else if p.reader_open
    then (if ltb (length p.queue) depth then wrote (length buf) (send buf p) else blocked)
    else broken_pipe

unfoldable pub fail_with : List ℕ → Bool → Pipe → Pipe
fail_with message deterministic p = elim p.error [
  | none ↦ record p { error = some message; deterministic = deterministic; finished = true }
  | some e ↦ record p { finished = true }
]

unfoldable pub finish : Pipe → Pipe
finish p = record p { finished = true }

-- The drop of a `FinishGuard`, with the message of a panic as a parameter.
unfoldable pub drop_guard : List ℕ → Bool → Pipe → Pipe
drop_guard panicked panicking p = if panicking then fail_with panicked false p else finish p

unfoldable pub drop_writer : Pipe → Pipe
drop_writer p = record p { writer_open = false }

-- Dropping the receiver discards the chunks in the channel. Here they stay in the queue, where no call
-- reads them any more.
unfoldable pub drop_reader : Pipe → Pipe
drop_reader p = record p { reader_open = false }

pub data Got : Type 0 where
  -- `Ok(n)` with the bytes put into the buffer.
  got : List ℕ → Pipe → Got
  -- `InvalidData` with the payload `Deterministic`, and any other error.
  failed_deterministic : List ℕ → Got
  failed : List ℕ → Got
  waiting : Got

-- The answer once `recv` fails, from `finished`, `error` and `deterministic`: the verdict is waited
-- for.
unfoldable pub verdict : Bool → Option (List ℕ) → Bool → Pipe → Got
verdict false error deterministic p = waiting
verdict true none deterministic p = got [] p
verdict true (some message) true p = failed_deterministic message
verdict true (some message) false p = failed message

-- What `read` takes out of a chunk that is not used up.
unfoldable pub serve : Pipe → ℕ → Got
serve p buf_len =
    let n = min (length p.current - p.pos) buf_len in
    got (take n (drop p.pos p.current)) (record p { pos = p.pos + n })

-- The loop of `read`, over the chunks in the queue; each round takes the next one. A call that waits
-- is made again from the start, since what it took out of the queue before had no bytes.
unfoldable pub read_from : List (List ℕ) → Pipe → ℕ → Got
unfolding serve verdict
read_from [] p buf_len =
    if leb (length p.current) p.pos
    then (if p.writer_open
        then waiting
        else verdict p.finished p.error p.deterministic (record p { queue = [] }))
    else serve (record p { queue = [] }) buf_len
read_from (c ∷ cs) p buf_len =
    let next = read_from cs (record p { current = c; pos = 0 }) buf_len in
    if leb (length p.current) p.pos then next else serve (record p { queue = c ∷ cs }) buf_len

unfoldable pub read : Pipe → ℕ → Got
unfolding read_from
read p buf_len = read_from p.queue p buf_len
