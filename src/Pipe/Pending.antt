-- ===== src/Pipe/Pending.antt =====
-- The bytes on their way through a pipe of crates/datboi-runtime/src/pipe.rs, and what an answer of
-- `read` does to them.
use datboi.Base.{
  ℕ, ◌+◌, ◌-◌, ◌≤◌, ◌<◌, min, List, [], ◌∷◌, ◌++◌, Option, none, some, Bool, true, false, length,
  take, drop, All, leb, if◌then◌else◌, ◌≡◌, refl, sym, ap, ◌∙◌, arith, append_assoc, append-nil,
  Bool-cases, inl, inr, leb→le, take-append-drop,
}
use datboi.Base.Slices.{drop_all, drop-drop}
use datboi.Pipe.Defs.{
  Pipe, read, read_from, serve, verdict, Got, got, failed, failed_deterministic, waiting,
}

abbrev pub concat : List (List ℕ) → List ℕ
concat [] = []
concat (c ∷ cs) = c ++ concat cs

-- The bytes on their way: the rest of the chunk that the reader holds, then those in the queue.
abbrev pub pending : Pipe → List ℕ
pending p = drop p.pos p.current ++ concat p.queue

-- What an answer of `read` has to do with the pending bytes.
abbrev pub Answers : Pipe → ℕ → Got → Type 0
Answers p buf_len (got chunk q) =
    (pending p ≡ chunk ++ pending q)
    × (length q.queue ≤ length p.queue)
    × All (λ (c : List ℕ). 0 < length c) q.queue
Answers p buf_len other = pending p ≡ []

serve-Answers :
    (p : Pipe) (buf_len : ℕ)
    → All (λ (c : List ℕ). 0 < length c) p.queue
    → Answers p buf_len (serve p buf_len)
unfolding serve
serve-Answers p buf_len h =
    let n = min (length p.current - p.pos) buf_len in
    let parts : drop p.pos p.current ≡ take n (drop p.pos p.current) ++ drop (p.pos + n) p.current =
      rw (← drop-drop n p.pos p.current) (sym (take-append-drop n (drop p.pos p.current))) in
    (
      ap (λ (t : List ℕ). t ++ concat p.queue) parts
          ∙ append_assoc (take n (drop p.pos p.current)) (drop (p.pos + n) p.current)
              (concat p.queue),
      omega arith,
      h,
    )

Answers-front :
    (p : Pipe) (c : List ℕ) (cs : List (List ℕ)) (buf_len : ℕ) (g : Got)
    → length p.current ≤ p.pos
    → Answers (record p { queue = cs; current = c; pos = 0 }) buf_len g
    → Answers (record p { queue = c ∷ cs }) buf_len g
Answers-front p c cs buf_len (got chunk q) h (e, l, f) =
    (rw (drop_all p.pos p.current h) e, omega arith, f)
Answers-front p c cs buf_len (failed_deterministic m) h e = rw (drop_all p.pos p.current h) e
Answers-front p c cs buf_len (failed m) h e = rw (drop_all p.pos p.current h) e
Answers-front p c cs buf_len waiting h e = rw (drop_all p.pos p.current h) e

verdict-Answers :
    (finished : Bool) (error : Option (List ℕ)) (deterministic : Bool) (p : Pipe) (buf_len : ℕ)
    → p.queue ≡ []
    → pending p ≡ []
    → Answers p buf_len (verdict finished error deterministic p)
unfolding verdict
verdict-Answers false e d p buf_len q h = h
verdict-Answers true none d p buf_len q h = (refl, omega arith, rw q tt)
verdict-Answers true (some m) true p buf_len q h = h
verdict-Answers true (some m) false p buf_len q h = h

read_from-Answers :
    (chunks : List (List ℕ)) (p : Pipe) (buf_len : ℕ)
    → All (λ (c : List ℕ). 0 < length c) chunks
    → Answers (record p { queue = chunks }) buf_len (read_from chunks p buf_len)
unfolding read_from
read_from-Answers [] p buf_len h = elim (Bool-cases (leb (length p.current) p.pos)) [
  | inl t ↦
      let none_left : drop p.pos p.current ++ [] ≡ [] =
        rw append-nil (drop_all p.pos p.current (leb→le _ _ t)) in
      simp t (end p.writer_open none_left)
  | inr f ↦ rw f (serve-Answers (record p { queue = [] }) buf_len tt)
]
  where
    end :
        (w : Bool)
        → drop p.pos p.current ++ [] ≡ []
        → Answers
            (record p { queue = [] })
            buf_len
            (if w
              then waiting
              else verdict p.finished p.error p.deterministic (record p { queue = [] }))
    end true x = x
    end false x =
        verdict-Answers p.finished p.error p.deterministic (record p { queue = [] }) buf_len refl x
read_from-Answers (c ∷ cs) p buf_len h = elim (Bool-cases (leb (length p.current) p.pos)) [
  | inl t ↦ rw t (
      Answers-front p c cs buf_len _ (leb→le _ _ t)
        (read_from-Answers cs (record p { current = c; pos = 0 }) buf_len h.1))
  | inr f ↦ rw f (serve-Answers (record p { queue = c ∷ cs }) buf_len h)
]

pub read-Answers :
    (p : Pipe) (buf_len : ℕ)
    → All (λ (c : List ℕ). 0 < length c) p.queue
    → Answers p buf_len (read p buf_len)
unfolding read
read-Answers p buf_len h = read_from-Answers p.queue p buf_len h
