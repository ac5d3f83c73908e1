-- ===== src/Pipe/Order.antt =====
-- What is read of a pipe of crates/datboi-runtime/src/pipe.rs is what was written, in order.
use datboi.Base.{
  ℕ, ◌≤◌, ◌<◌, List, [], ◌∷◌, ◌++◌, Bool, false, length, take, drop, All, ltb, ◌==◌, ◌≡◌, refl, sym,
  ap, ◌∙◌, arith, append_assoc, append-nil, length-append, All-append, Bool-cases, Option-cases,
  inl, inr, ltb→lt,
}
use datboi.Base.Slices.{take_all}
use datboi.Pipe.Defs.{
  Pipe, pipe, depth, send, write, wrote, fail_with, finish, drop_writer, drop_reader, got,
}
use datboi.Pipe.Steps.{Reachable, begin, writes, reads, fails, finishes, drops_writer, drops_reader}
use datboi.Pipe.Pending.{concat, pending, Answers, read-Answers}

-- What every state has: the queue is bounded and has no empty chunk.
pub record Inv (p : Pipe) (sent taken : List ℕ) : Type 0 where
  pub conserved : sent ≡ taken ++ pending p
  pub bounded : length p.queue ≤ depth
  pub filled : All (λ (c : List ℕ). 0 < length c) p.queue

concat-append : (xs : List (List ℕ)) (c : List ℕ) → concat (xs ++ (c ∷ [])) ≡ concat xs ++ c
concat-append [] c = rw append-nil refl
concat-append (x ∷ xs) c = rw (concat-append xs c) (sym (append_assoc x (concat xs) c))

send-Inv :
    (buf : List ℕ) (p : Pipe) (sent taken : List ℕ)
    → Inv p sent taken
    → length p.queue < depth
    → 0 < length buf
    → Inv (send buf p) (sent ++ take (length buf) buf) taken
unfolding send
send-Inv buf p sent taken i room some_bytes = record {
  conserved =
      rw (i.conserved, take_all (length buf) buf (omega arith), concat-append p.queue buf)
        (append_assoc taken (pending p) buf
          ∙ ap (λ (t : List ℕ). taken ++ t)
              (append_assoc (drop p.pos p.current) (concat p.queue) buf));
  bounded = omega (arith, length-append p.queue (buf ∷ []), room);
  filled = All-append (λ (c : List ℕ). 0 < length c) p.queue (buf ∷ []) i.filled (some_bytes, tt);
}

write-Inv :
    (buf : List ℕ) (n : ℕ) (p q : Pipe) (sent taken : List ℕ)
    → Inv p sent taken
    → write buf p ≡ wrote n q
    → Inv q (sent ++ take n buf) taken
unfolding write
write-Inv buf n p q sent taken i e = elim (Bool-cases (length buf == 0)) [
  | inl z ↦
      let same : wrote 0 p ≡ wrote n q = rw z at e in
      let zero_bytes : 0 ≡ n = cc in
      let q_is : p ≡ q = cc in rw (← q_is, ← zero_bytes, append-nil) i
  | inr nz ↦ elim (Bool-cases p.reader_open) [
    | inl o ↦ elim (Bool-cases (ltb (length p.queue) depth)) [
      | inl room ↦
          let same : wrote (length buf) (send buf p) ≡ wrote n q = simp (nz, o, room) at e in
          let all : length buf ≡ n = cc in
          let q_is : send buf p ≡ q = cc in
          rw (← q_is, ← all)
            (send-Inv buf p sent taken i (ltb→lt (length p.queue) depth room) (nonempty nz))
      | inr full ↦ cc (simp (nz, o, full) at e)
    ]
    | inr closed ↦ cc (simp (nz, closed) at e)
  ]
]
  where
    nonempty : (length buf == 0) ≡ false → 0 < length buf
    nonempty z = ground arith

finish-Inv : (p : Pipe) (sent taken : List ℕ) → Inv p sent taken → Inv (finish p) sent taken
unfolding finish
finish-Inv p sent taken i = record {
  conserved = i.conserved;
  bounded = i.bounded;
  filled = i.filled;
}

drop_writer-Inv :
    (p : Pipe) (sent taken : List ℕ) → Inv p sent taken → Inv (drop_writer p) sent taken
unfolding drop_writer
drop_writer-Inv p sent taken i = record {
  conserved = i.conserved;
  bounded = i.bounded;
  filled = i.filled;
}

drop_reader-Inv :
    (p : Pipe) (sent taken : List ℕ) → Inv p sent taken → Inv (drop_reader p) sent taken
unfolding drop_reader
drop_reader-Inv p sent taken i = record {
  conserved = i.conserved;
  bounded = i.bounded;
  filled = i.filled;
}

begin-Inv : Inv pipe [] []
unfolding pipe
begin-Inv = record { conserved = refl; bounded = omega arith; filled = tt }

fail_with-Inv :
    (m : List ℕ) (d : Bool) (p : Pipe) (sent taken : List ℕ)
    → Inv p sent taken
    → Inv (fail_with m d p) sent taken
unfolding fail_with
fail_with-Inv m d p sent taken i = elim (Option-cases p.error) [
  | inl n ↦ rw n (record { conserved = i.conserved; bounded = i.bounded; filled = i.filled })
  | inr (x, f) ↦ rw f (record { conserved = i.conserved; bounded = i.bounded; filled = i.filled })
]

-- In every reachable state the bytes written are those read and those pending, in this order, and
-- the queue has at most four chunks, none of them empty.
pub Reachable-Inv : (p : Pipe) (sent taken : List ℕ) → Reachable p sent taken → Inv p sent taken
Reachable-Inv p sent taken begin = begin-Inv
Reachable-Inv p sent taken (writes {p = p₀} {sent = s} buf n r w e) =
    write-Inv buf n p₀ p s taken (Reachable-Inv p₀ s taken r) e
Reachable-Inv p sent taken (reads {p = p₀} {taken = t} {chunk = chunk} buf_len r o e) =
    let i = Reachable-Inv p₀ sent t r in
    let (c, l, f) : Answers p₀ buf_len (got chunk p) = rw e at (read-Answers p₀ buf_len i.filled) in
    record {
      conserved = i.conserved ∙ rw c (sym (append_assoc t chunk (pending p)));
      bounded = omega (arith, l, i.bounded);
      filled = f;
    }
Reachable-Inv p sent taken (fails m d r) =
    fail_with-Inv m d _ sent taken (Reachable-Inv _ sent taken r)
Reachable-Inv p sent taken (finishes r) = finish-Inv _ sent taken (Reachable-Inv _ sent taken r)
Reachable-Inv p sent taken (drops_writer r) =
    drop_writer-Inv _ sent taken (Reachable-Inv _ sent taken r)
Reachable-Inv p sent taken (drops_reader r) =
    drop_reader-Inv _ sent taken (Reachable-Inv _ sent taken r)
