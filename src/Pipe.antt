-- ===== src/Pipe.antt =====
-- Pipes: src/Pipe.cxx and inc/Pipe.h, less Pipe::alloc, which stands in FileTable. Each function
-- runs under the pipe's mutex up to a wait, where the model stops with what it has done so far.
pub mod Queue
pub mod Transfer
use hitsz_ext.Base.{
  ℕ, zero, suc, ◌+◌, ◌-◌, ◌%◌, Bool, true, false, not, ◌&&◌, ◌||◌, List, [], ◌∷◌, ◌++◌, ◌==◌, ltb,
  if◌then◌else◌, inc32, u32, length,
}
use hitsz_ext.Machine.{pipesize, Pipe}
use hitsz_ext.Log.{set_at}

-- A return; a wait on a condition variable, after `i` bytes were taken or put; a second unlock of a
-- mutex by the destructor of its lock; and no end within the fuel.
pub data Outcome (A : Type 0) : Type 0 where
  returned : A → Pipe → Outcome A
  waits : A → Pipe → Outcome A
  unlocked_twice : Outcome A
  unfinished : Outcome A

abbrev pub is_full : Pipe → Bool
is_full p = p.nwrite == u32 (p.nread + pipesize)

abbrev pub is_empty : Pipe → Bool
is_empty p = p.nread == p.nwrite

-- `this->data[this->nwrite++ % PIPESIZE] = ch;`
unfoldable pub put_byte : Pipe → ℕ → Pipe
put_byte p c = record p { buf = set_at p.buf (p.nwrite % pipesize) c; nwrite = inc32 p.nwrite }

-- The loop of Pipe::write, with the bytes of `addr` from `i` on. Without a reader the code unlocks
-- the mutex by hand, and again when `lk_grd` is destroyed.
unfoldable pub write_from : List ℕ → ℕ → Pipe → Outcome ℕ
write_from [] i p = returned i p
write_from (c ∷ cs) i p =
    let rest = write_from cs (i + 1) (put_byte p c) in
    if not p.readopen then unlocked_twice else (if is_full p then waits i p else rest)

unfoldable pub write : List ℕ → Pipe → Outcome ℕ
write src p = write_from src 0 p

-- `this->data[this->nread++ % PIPESIZE]`
unfoldable pub skip_byte : Pipe → Pipe
skip_byte p = record p { nread = inc32 p.nread }

abbrev pub front_byte : Pipe → ℕ
front_byte p = p.buf (p.nread % pipesize)

-- The inner loop of Pipe::read: up to `n` bytes, and the pipe without them.
unfoldable pub drain : ℕ → Pipe → List ℕ × Pipe
drain zero p = ([], p)
drain (suc n) p =
    let rest = drain n (skip_byte p) in
    if is_empty p then ([], p) else (front_byte p ∷ rest.0, rest.1)

-- The outer loop. A round that finds too few bytes is followed by one that stores from `addr[0]` on
-- again: what the first round stored is lost.
unfoldable pub read_loop : ℕ → ℕ → List ℕ → Pipe → Outcome (List ℕ)
read_loop zero n got p = unfinished
read_loop (suc fuel) n got p =
    let again = read_loop fuel n (drain n p).0 (drain n p).1 in
    if ltb (length got) n
    then (if is_empty p && p.writeopen then waits got p else again)
    else returned got p

unfoldable pub read : ℕ → ℕ → Pipe → Outcome (List ℕ)
read fuel n p = read_loop fuel n [] p

-- Pipe::close; with both ends closed the pipe is deleted.
unfoldable pub close : Bool → Pipe → Pipe × Bool
close writable p =
    let q = if writable then record p { writeopen = false } else record p { readopen = false } in
    (q, not q.readopen && not q.writeopen)
