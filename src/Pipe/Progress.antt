-- ===== src/Pipe/Progress.antt =====
-- When a pipe of crates/datboi-runtime/src/pipe.rs ends, and that its ends do not wait for each other.
use datboi.Base.{
  ℕ, zero, suc, ◌≤◌, ◌<◌, List, [], ◌∷◌, ◌++◌, Option, none, some, Bool, true, false, length, take,
  drop, All, leb, if◌then◌else◌, ◌≡◌, ◌≢◌, ◌⊎◌, refl, ◌∙◌, arith, append-nil, Bool-cases, inl, inr,
  leb→le,
}
use datboi.Base.Slices.{drop_all}
use datboi.Pipe.Defs.{
  Pipe, depth, write, blocked, read, read_from, serve, verdict, Got, got, failed,
  failed_deterministic, waiting,
}
use datboi.Pipe.Steps.{Reachable}
use datboi.Pipe.Pending.{pending, concat}
use datboi.Pipe.Order.{Reachable-Inv}

-- What an answer to a buffer with room tells of `writer_open`, `finished`, `error` and
-- `deterministic`; `P` holds when there is nothing to read.
abbrev pub Tells : Type 0 → Bool → Bool → Option (List ℕ) → Bool → Got → Type 0
Tells P w f e d (got [] q) = P × (w ≡ false) × (f ≡ true) × (e ≡ none)
Tells P w f e d (got (b ∷ bs) q) = Unit {0}
Tells P w f e d (failed_deterministic m) = P × (w ≡ false) × (f ≡ true) × (e ≡ some m) × (d ≡ true)
Tells P w f e d (failed m) = P × (w ≡ false) × (f ≡ true) × (e ≡ some m) × (d ≡ false)
Tells P w f e d waiting = P × ((w ≡ true) ⊎ (f ≡ false))

verdict-Tells :
    {P : Type 0} (w f : Bool) (e : Option (List ℕ)) (d : Bool) (p : Pipe)
    → P
    → w ≡ false
    → Tells P w f e d (verdict f e d p)
unfolding verdict
verdict-Tells w false e d p x h = (x, inr refl)
verdict-Tells w true none d p x h = (x, h, refl, refl)
verdict-Tells w true (some m) true p x h = (x, h, refl, refl, refl)
verdict-Tells w true (some m) false p x h = (x, h, refl, refl, refl)

abbrev pub TellsOf : Type 0 → Pipe → Got → Type 0
TellsOf P p g = Tells P p.writer_open p.finished p.error p.deterministic g

taken_some :
    (P : Type 0) (p q : Pipe) (bs : List ℕ) (pos n : ℕ)
    → pos < length bs
    → 0 < n
    → TellsOf P p (got (take n (drop pos bs)) q)
taken_some P p q [] pos n h b = absurd (omega arith)
taken_some P p q (x ∷ bs) zero zero h b = absurd (omega arith)
taken_some P p q (x ∷ bs) zero (suc n) h b = tt
taken_some P p q (x ∷ bs) (suc pos) n h b = taken_some P p q bs pos n (omega arith) b

serve-Tells :
    (P : Type 0) (p r : Pipe) (buf_len : ℕ)
    → p.pos < length p.current
    → 0 < buf_len
    → TellsOf P r (serve p buf_len)
unfolding serve
serve-Tells P p r buf_len h b = taken_some P r _ p.current p.pos _ h (omega arith)

Tells_map : {P Q : Type 0} (p : Pipe) (g : Got) → (P → Q) → TellsOf P p g → TellsOf Q p g
Tells_map p (got [] q) k (x, w, f, e) = (k x, w, f, e)
Tells_map p (got (b ∷ bs) q) k t = tt
Tells_map p (failed_deterministic m) k (x, w, f, e, d) = (k x, w, f, e, d)
Tells_map p (failed m) k (x, w, f, e, d) = (k x, w, f, e, d)
Tells_map p waiting k (x, t) = (k x, t)

read_from-Tells :
    (chunks : List (List ℕ)) (p : Pipe) (buf_len : ℕ)
    → 0 < buf_len
    → TellsOf (drop p.pos p.current ++ concat chunks ≡ []) p (read_from chunks p buf_len)
unfolding read_from
read_from-Tells [] p buf_len b = elim (Bool-cases (leb (length p.current) p.pos)) [
  | inl t ↦
      simp t (end p.writer_open refl (rw append-nil (drop_all p.pos p.current (leb→le _ _ t))))
  | inr f ↦ simp f (serve-Tells _ (record p { queue = [] }) p buf_len (ground arith) b)
]
  where
    end :
        {P : Type 0} (w : Bool)
        → p.writer_open ≡ w
        → P
        → TellsOf P p (
            if w
            then waiting
            else verdict p.finished p.error p.deterministic (record p { queue = [] }))
    end true h x = (x, inl h)
    end false h x = verdict-Tells p.writer_open p.finished p.error p.deterministic _ x h
read_from-Tells (c ∷ cs) p buf_len b = elim (Bool-cases (leb (length p.current) p.pos)) [
  | inl t ↦
      let rest = read_from-Tells cs (record p { current = c; pos = 0 }) buf_len b in
      simp t (Tells_map p _ (λ h. rw (drop_all p.pos p.current (leb→le _ _ t)) h) rest)
  | inr f ↦ simp f (serve-Tells _ (record p { queue = c ∷ cs }) p buf_len (ground arith) b)
]

pub read-Tells :
    (p : Pipe) (buf_len : ℕ) → 0 < buf_len → TellsOf (pending p ≡ []) p (read p buf_len)
unfolding read
read-Tells p buf_len b = read_from-Tells p.queue p buf_len b

-- If a read with room answers with no byte, every byte written was read, the writer is gone, and
-- the producer finished without an error.
pub clean_end :
    (p q : Pipe) (sent taken : List ℕ) (buf_len : ℕ)
    → Reachable p sent taken
    → 0 < buf_len
    → read p buf_len ≡ got [] q
    → (sent ≡ taken) × (p.writer_open ≡ false) × (p.finished ≡ true) × (p.error ≡ none)
clean_end p q sent taken buf_len r b e =
    let (empty, w, f, n) : TellsOf (pending p ≡ []) p (got [] q) =
      rw e at (read-Tells p buf_len b) in
    ((Reachable-Inv p sent taken r).conserved ∙ rw (empty, append-nil) refl, w, f, n)

-- If a read with room answers with an error, every byte written was read, the writer is gone, and
-- the message is the one recorded.
pub failed_end :
    (p : Pipe) (sent taken message : List ℕ) (buf_len : ℕ)
    → Reachable p sent taken
    → 0 < buf_len
    → (read p buf_len ≡ failed message) ⊎ (read p buf_len ≡ failed_deterministic message)
    → (sent ≡ taken) × (p.writer_open ≡ false) × (p.error ≡ some message)
failed_end p sent taken message buf_len r b (inl e) =
    let (empty, w, f, m, d) : TellsOf (pending p ≡ []) p (failed message) =
      rw e at (read-Tells p buf_len b) in
    ((Reachable-Inv p sent taken r).conserved ∙ rw (empty, append-nil) refl, w, m)
failed_end p sent taken message buf_len r b (inr e) =
    let (empty, w, f, m, d) : TellsOf (pending p ≡ []) p (failed_deterministic message) =
      rw e at (read-Tells p buf_len b) in
    ((Reachable-Inv p sent taken r).conserved ∙ rw (empty, append-nil) refl, w, m)

write_blocked : (buf : List ℕ) (p : Pipe) → write buf p ≡ blocked → depth ≤ length p.queue
unfolding write
write_blocked buf p e = ground arith

append_nil_right : (xs ys : List ℕ) → xs ++ ys ≡ [] → ys ≡ []
append_nil_right [] ys e = e
append_nil_right (x ∷ xs) ys e = absurd (cc e)

nothing_left :
    (xs : List (List ℕ)) → All (λ (c : List ℕ). 0 < length c) xs → concat xs ≡ [] → length xs ≡ 0
nothing_left [] a e = refl
nothing_left ([] ∷ cs) a e = absurd (omega (arith, a.0))
nothing_left ((b ∷ bs) ∷ cs) a e = absurd (cc e)

-- While the writer waits for room, the reader does not wait.
pub blocked-read_ne :
    (p : Pipe) (sent taken buf : List ℕ) (buf_len : ℕ)
    → Reachable p sent taken
    → 0 < buf_len
    → write buf p ≡ blocked
    → read p buf_len ≢ waiting
blocked-read_ne p sent taken buf buf_len r b e w =
    let (empty, open_or_not) : TellsOf (pending p ≡ []) p waiting =
      rw w at (read-Tells p buf_len b) in
    let i = Reachable-Inv p sent taken r in
    let none_queued =
      nothing_left p.queue i.filled
        (append_nil_right (drop p.pos p.current) (concat p.queue) empty) in
    omega (arith, write_blocked buf p e, none_queued)
