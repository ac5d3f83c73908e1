-- ===== src/Pipe/Drain.antt =====
-- Reading a finished pipe of crates/datboi-runtime/src/pipe.rs to its end.
use datboi.Base.{
  ℕ, zero, suc, ◌+◌, ◌<◌, List, [], ◌∷◌, ◌++◌, Option, none, some, Bool, true, false, length, All,
  leb, if◌then◌else◌, ◌≡◌, refl, ◌∙◌, arith, length-append, Bool-cases, inl, inr,
}
use datboi.Pipe.Defs.{
  Pipe, read, read_from, serve, verdict, Got, got, failed, failed_deterministic, waiting,
}
use datboi.Pipe.Steps.{Reachable}
use datboi.Pipe.Pending.{pending, Answers, read-Answers}
use datboi.Pipe.Order.{Reachable-Inv}
use datboi.Pipe.Progress.{TellsOf, read-Tells}

-- A reader that calls `read` until it gets no byte, at most `fuel` times; an error ends it.
unfoldable pub drain : ℕ → ℕ → Pipe → Option (List ℕ)
drain zero buf_len p = none
drain (suc fuel) buf_len p = elim (read p buf_len) [
  | got [] q ↦ some []
  | got (b ∷ bs) q ↦ elim (drain fuel buf_len q) [
    | none ↦ none
    | some rest ↦ some ((b ∷ bs) ++ rest)
  ]
  | failed_deterministic m ↦ none
  | failed m ↦ none
  | waiting ↦ none
]

-- What a read that gives bytes leaves as it was.
abbrev Keeps : Pipe → Got → Type 0
Keeps p (got c q) =
    (q.writer_open ≡ p.writer_open) × (q.finished ≡ p.finished) × (q.error ≡ p.error)
Keeps p other = Unit {0}

verdict-Keeps :
    (f : Bool) (e : Option (List ℕ)) (d : Bool) (p q : Pipe)
    → Keeps p (got [] q)
    → Keeps p (verdict f e d q)
unfolding verdict
verdict-Keeps false e d p q h = tt
verdict-Keeps true none d p q h = h
verdict-Keeps true (some m) true p q h = tt
verdict-Keeps true (some m) false p q h = tt

read_from-Keeps :
    (chunks : List (List ℕ)) (p : Pipe) (buf_len : ℕ) → Keeps p (read_from chunks p buf_len)
unfolding read_from serve
read_from-Keeps [] p buf_len = elim (Bool-cases (leb (length p.current) p.pos)) [
  | inl t ↦ simp t (end p.writer_open)
  | inr f ↦ simp f (refl, refl, refl)
]
  where
    end :
        (w : Bool)
        → Keeps p (
            if w
            then waiting
            else verdict p.finished p.error p.deterministic (record p { queue = [] }))
    end true = tt
    end false = verdict-Keeps p.finished p.error p.deterministic p _ (refl, refl, refl)
read_from-Keeps (c ∷ cs) p buf_len = elim (Bool-cases (leb (length p.current) p.pos)) [
  | inl t ↦ simp t (
      same (read_from cs (record p { current = c; pos = 0 }) buf_len)
        (read_from-Keeps cs (record p { current = c; pos = 0 }) buf_len))
  | inr f ↦ simp f (refl, refl, refl)
]
  where
    same : (g : Got) → Keeps (record p { current = c; pos = 0 }) g → Keeps p g
    same (got c q) h = h
    same (failed_deterministic m) h = h
    same (failed m) h = h
    same waiting h = h

read-Keeps : (p : Pipe) (buf_len : ℕ) → Keeps p (read p buf_len)
unfolding read
read-Keeps p buf_len = read_from-Keeps p.queue p buf_len

-- The reader is at its end once it has read what is pending.
record Done (p : Pipe) : Type 0 where
  pub gone : p.writer_open ≡ false
  pub finished : p.finished ≡ true
  pub no_error : p.error ≡ none

drain-pending :
    (fuel buf_len : ℕ) (p : Pipe)
    → Done p
    → All (λ (c : List ℕ). 0 < length c) p.queue
    → 0 < buf_len
    → length (pending p) < fuel
    → drain fuel buf_len p ≡ some (pending p)
unfolding drain
drain-pending zero buf_len p d a b h = absurd (omega arith)
drain-pending (suc fuel) buf_len p d a b h =
    go (λ q. drain-pending fuel buf_len q) (read p buf_len) refl (read-Answers p buf_len a)
      (read-Tells p buf_len b) (read-Keeps p buf_len)
  where
    go :
        ((q : Pipe)
          → Done q
          → All (λ (c : List ℕ). 0 < length c) q.queue
          → 0 < buf_len
          → length (pending q) < fuel
          → drain fuel buf_len q ≡ some (pending q))
        → (g : Got) → read p buf_len ≡ g
        → Answers p buf_len g
        → TellsOf (pending p ≡ []) p g
        → Keeps p g
        → drain (suc fuel) buf_len p ≡ some (pending p)
    go ih (got [] q) e c t k = rw (e, drain, t.0) refl
    go ih (got (x ∷ xs) q) e (c, l, f) t (w, fin, err) =
        let shorter : length (pending p) ≡ length (x ∷ xs) + length (pending q) =
          rw c (length-append (x ∷ xs) (pending q)) in
        let rest =
          ih q
            (record { gone = w ∙ d.gone; finished = fin ∙ d.finished; no_error = err ∙ d.no_error })
            f b (omega arith) in
        rw (e, drain, rest, c) refl
    go ih (failed_deterministic m) e c (x, w, f, n, dt) k = cc (d.no_error, n)
    go ih (failed m) e c (x, w, f, n, dt) k = cc (d.no_error, n)
    go ih waiting e c (empty, inl o) k = cc (d.gone, o)
    go ih waiting e c (empty, inr o) k = cc (d.finished, o)

-- Once the writer is gone and the producer finished without an error, a reader with room in its
-- buffer that calls `read` more often than there are bytes pending comes to the end, and with what
-- was read before has every byte written.
pub drain_complete :
    (fuel buf_len : ℕ) (p : Pipe) (sent taken : List ℕ)
    → Reachable p sent taken
    → p.writer_open ≡ false
    → p.finished ≡ true
    → p.error ≡ none
    → 0 < buf_len
    → length (pending p) < fuel
    → (rest : List ℕ) × (drain fuel buf_len p ≡ some rest) × (sent ≡ taken ++ rest)
drain_complete fuel buf_len p sent taken r w f n b h =
    let i = Reachable-Inv p sent taken r in
    (
      pending p,
      drain-pending fuel buf_len p (record { gone = w; finished = f; no_error = n }) i.filled b h,
      i.conserved,
    )
