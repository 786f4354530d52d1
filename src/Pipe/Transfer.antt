-- ===== src/Pipe/Transfer.antt =====
-- Pipe::write and Pipe::read against the queue of the pipe's bytes.
use mathlib.Core.List.{append_assoc, append-nil}
use hitsz_ext.Base.{
  ℕ, zero, suc, ◌+◌, ◌&&◌, ◌⊎◌, ◌<◌, ◌≤◌, ◌≡◌, refl, Bool, true, false, not, List, [], ◌∷◌, ◌++◌,
  ◌==◌, ltb, if◌then◌else◌, length, take, drop, ne→==, lt→ltb, ge→ltb, arith, ap, ◌∙◌, sym, subst,
  inl, inr, Bool-cases, ==→eq,
}
use hitsz_ext.Machine.{pipesize, Pipe}
use hitsz_ext.Pipe.{
  returned, waits, unlocked_twice, unfinished, is_full, is_empty, put_byte, skip_byte, front_byte,
  write_from, write, drain, read_loop, read,
}
use hitsz_ext.Pipe.Queue.{
  window, held_bytes, contents, IsValid, length-contents, held-put_byte, put_byte-IsValid,
  contents-put_byte, skip_byte-IsValid, contents-skip_byte, is_full_iff, is_empty_iff,
}

write_step :
    (c : ℕ) (cs : List ℕ) (i : ℕ) (p : Pipe)
    → p.readopen ≡ true
    → is_full p ≡ false
    → write_from (c ∷ cs) i p ≡ write_from cs (i + 1) (put_byte p c)
unfolding write_from
write_step c cs i p o f = λ j.
    if not (o j)
    then unlocked_twice
    else (if f j then waits i p else write_from cs (i + 1) (put_byte p c))

readopen-put_byte : (p : Pipe) (c : ℕ) → (put_byte p c).readopen ≡ p.readopen
unfolding put_byte
readopen-put_byte p c = refl

writeopen-skip_byte : (p : Pipe) → (skip_byte p).writeopen ≡ p.writeopen
unfolding skip_byte
writeopen-skip_byte p = refl

-- With the reader's end open, writing bytes that fit in the pipe returns their number, and leaves a
-- valid pipe that holds the old bytes and after them the new ones, in order.
pub write_from_fits :
    (cs : List ℕ) (i : ℕ) (p : Pipe)
    → IsValid p
    → p.readopen ≡ true
    → held_bytes p + length cs ≤ pipesize
    → (q : Pipe) × (write_from cs i p ≡ returned (i + length cs) q)
      × IsValid q
      × (contents q ≡ contents p ++ cs)
unfolding write_from
write_from_fits [] i p v o h =
    (p, ap (λ k. returned k p) (omega arith), v, sym (append-nil (contents p)))
write_from_fits (c ∷ cs) i p v o h =
    let room : held_bytes p < pipesize = omega arith in
    let (q, done, w, same) =
      write_from_fits cs (i + 1) (put_byte p c) (put_byte-IsValid p v c room)
        (readopen-put_byte p c ∙ o) (omega (arith, held-put_byte p v c room)) in
    (
      q,
      write_step c cs i p o (is_full_iff p v ∙ ne→== (held_bytes p) pipesize (omega arith))
          ∙ done
          ∙ ap (λ k. returned k q) (omega arith),
      w,
      same
          ∙ ap (λ l. l ++ cs) (contents-put_byte p v c room)
          ∙ append_assoc (contents p) (c ∷ []) cs,
    )

contents_empty : (p : Pipe) → held_bytes p ≡ 0 → contents p ≡ []
unfolding contents window
contents_empty p e = ap (window p.buf p.nread) e

-- What is left after a read of `n` bytes.
pub record Drained (n : ℕ) (p : Pipe) : Type 0 where
  pub bytes : (drain n p).0 ≡ take n (contents p)
  pub rest : contents (drain n p).1 ≡ drop n (contents p)
  pub valid : IsValid (drain n p).1
  pub writer : (drain n p).1.writeopen ≡ p.writeopen

drain_step :
    (n : ℕ) (p : Pipe)
    → is_empty p ≡ false
    → drain (suc n) p ≡ (front_byte p ∷ (drain n (skip_byte p)).0, (drain n (skip_byte p)).1)
unfolding drain
drain_step n p f = λ j.
    if f j then ([], p) else (front_byte p ∷ (drain n (skip_byte p)).0, (drain n (skip_byte p)).1)

drain_none : (n : ℕ) (p : Pipe) → is_empty p ≡ true → drain (suc n) p ≡ ([], p)
unfolding drain
drain_none n p f = λ j.
    if f j then ([], p) else (front_byte p ∷ (drain n (skip_byte p)).0, (drain n (skip_byte p)).1)

-- The inner loop of Pipe::read on a valid pipe takes the oldest bytes, `n` of them or all that there
-- are, and leaves the others in order in a valid pipe.
pub drain_lem : (n : ℕ) (p : Pipe) → IsValid p → Drained n p
unfolding drain
drain_lem zero p v = record { bytes = refl; rest = refl; valid = v; writer = refl }
drain_lem (suc n) p v = elim (Bool-cases (held_bytes p == 0)) [
  | inl e ↦
      let none_held : contents p ≡ [] = contents_empty p (==→eq (held_bytes p) 0 e) in
      let done : drain (suc n) p ≡ ([], p) = drain_none n p (is_empty_iff p v ∙ e) in
      record {
        bytes = ap (λ r. r.0) done ∙ sym (ap (take (suc n)) none_held);
        rest = ap (λ r. contents r.1) done ∙ none_held ∙ sym (ap (drop (suc n)) none_held);
        valid = subst (λ r. IsValid r.1) (sym done) v;
        writer = ap (λ r. r.1.writeopen) done;
      }
  | inr e ↦
      let some_held : 0 < held_bytes p = ground arith in
      let later = drain_lem n (skip_byte p) (skip_byte-IsValid p v some_held) in
      let done = drain_step n p (is_empty_iff p v ∙ e) in
      let more : contents p ≡ front_byte p ∷ contents (skip_byte p) =
        contents-skip_byte p v some_held in
      record {
        bytes =
            ap (λ r. r.0) done
            ∙ ap (λ l. front_byte p ∷ l) later.bytes
            ∙ sym (ap (take (suc n)) more);
        rest = ap (λ r. contents r.1) done ∙ later.rest ∙ sym (ap (drop (suc n)) more);
        valid = subst (λ r. IsValid r.1) (sym done) later.valid;
        writer = ap (λ r. r.1.writeopen) done ∙ later.writer ∙ writeopen-skip_byte p;
      }
]

length-take_le : (n : ℕ) (l : List ℕ) → length (take n l) ≤ length l
length-take_le zero l = omega arith
length-take_le (suc n) [] = omega arith
length-take_le (suc n) (c ∷ l) = omega (arith, length-take_le n l)

length-drop_le : (n : ℕ) (l : List ℕ) → length (drop n l) ≤ length l
length-drop_le zero l = omega arith
length-drop_le (suc n) [] = omega arith
length-drop_le (suc n) (c ∷ l) = omega (arith, length-drop_le n l)

length-take_all : (n : ℕ) (l : List ℕ) → n ≤ length l → length (take n l) ≡ n
length-take_all zero l h = refl
length-take_all (suc n) [] h = absurd (omega arith)
length-take_all (suc n) (c ∷ l) h = ap suc (length-take_all n l (omega arith))

-- Pipe::read of some bytes of which the valid pipe holds as many returns the oldest of them, in order,
-- and leaves the others in order in a valid pipe; two rounds of the loop are enough.
pub read_enough :
    (n : ℕ) (p : Pipe)
    → IsValid p
    → 0 < n
    → n ≤ held_bytes p
    → (q : Pipe) × (read 2 n p ≡ returned (take n (contents p)) q)
      × IsValid q
      × (contents q ≡ drop n (contents p))
unfolding read read_loop
read_enough n p v pos enough =
    let d = drain_lem n p v in
    let some_held : (held_bytes p == 0) ≡ false = ne→== (held_bytes p) 0 (omega arith) in
    let full : length (take n (contents p)) ≡ n =
      length-take_all n (contents p) (omega (arith, length-contents p)) in
    (
      (drain n p).1,
      rw (lt→ltb 0 n pos)
          (rw (is_empty_iff p v, some_held) (rw d.bytes (rw full (rw (ge→ltb n n (omega arith)))))),
      d.valid,
      d.rest,
    )

take_all : (l : List ℕ) → take (length l) l ≡ l
take_all [] = refl
take_all (c ∷ l) = ap (λ r. c ∷ r) (take_all l)

drop_all : (l : List ℕ) → drop (length l) l ≡ []
drop_all [] = refl
drop_all (c ∷ l) = drop_all l

-- On an empty valid pipe whose read end is open, Pipe::write of some bytes that fit returns their number,
-- and Pipe::read of that number then returns them in their order and leaves the pipe empty; two rounds of
-- the read's loop are enough.
pub read-write :
    (cs : List ℕ) (p : Pipe)
    → IsValid p
    → p.readopen ≡ true
    → held_bytes p ≡ 0
    → 0 < length cs
    → length cs ≤ pipesize
    → (q : Pipe) × (r : Pipe) × (write cs p ≡ returned (length cs) q)
      × (read 2 (length cs) q ≡ returned cs r)
      × IsValid r
      × (contents r ≡ [])
unfolding write
read-write cs p v o nothing some_bytes fit =
    let (q, done, w, same) = write_from_fits cs 0 p v o (omega arith) in
    let exactly : contents q ≡ cs = same ∙ ap (λ l. l ++ cs) (contents_empty p nothing) in
    let enough : length cs ≤ held_bytes q = omega (arith, ap length exactly, length-contents q) in
    let (r, got, u, left) = read_enough (length cs) q w some_bytes enough in
    let counted : 0 + length cs ≡ length cs = omega arith in
    (
      q,
      r,
      done ∙ ap (λ k. returned k q) counted,
      got ∙ ap (λ l. returned l r) (ap (take (length cs)) exactly ∙ take_all cs),
      u,
      left ∙ ap (drop (length cs)) exactly ∙ drop_all cs,
    )

read_loop_unfinished :
    (fuel n : ℕ) (got : List ℕ) (p : Pipe)
    → IsValid p
    → p.writeopen ≡ false
    → length got < n
    → held_bytes p < n
    → read_loop fuel n got p ≡ unfinished
unfolding read_loop
read_loop_unfinished zero n got p v closed few less = refl
read_loop_unfinished (suc fuel) n got p v closed few less =
    let d = drain_lem n p v in
    let later =
      read_loop_unfinished fuel n (drain n p).0 (drain n p).1 d.valid (d.writer ∙ closed)
        (rw d.bytes (omega (arith, length-take_le n (contents p), length-contents p)))
        (omega (
          arith,
          length-contents (drain n p).1,
          ap length d.rest,
          length-drop_le n (contents p),
          length-contents p,
        )) in
    step (is_empty p) (Bool-cases (is_empty p)) later
  where
    step :
        (b : Bool)
        → (b ≡ true) ⊎ (b ≡ false)
        → read_loop fuel n (drain n p).0 (drain n p).1 ≡ unfinished
        → (if ltb (length got) n
            then (if b && p.writeopen
                then waits got p
                else read_loop fuel n (drain n p).0 (drain n p).1)
            else returned got p)
          ≡ unfinished
    step b t later =
        (λ j.
          if lt→ltb (length got) n few j
          then (if b && closed j then waits got p else later j)
          else returned got p)
        ∙ elim t [ inl e ↦ rw e refl | inr e ↦ rw e refl ]

-- Pipe::read of more bytes than the valid pipe holds, with the writer's end closed, does not return:
-- no number of rounds of its loop is enough.
pub read_unfinished :
    (fuel n : ℕ) (p : Pipe)
    → IsValid p
    → p.writeopen ≡ false
    → held_bytes p < n
    → read fuel n p ≡ unfinished
unfolding read
read_unfinished fuel n p v closed less =
    read_loop_unfinished fuel n [] p v closed (omega arith) less
