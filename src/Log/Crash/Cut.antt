-- ===== src/Log/Crash/Cut.antt =====
-- The points at which a process can be killed, and the state in which the next one starts.
use hitsz_ext.Base.{
  ℕ, zero, suc, ◌≡◌, ◌+◌, ◌≤◌, refl, false, none, List, [], ◌∷◌, ◌⊎◌, inl, inr, length, arith,
}
use hitsz_ext.Bytes.{Data}
use hitsz_ext.Machine.{key, Sys, LogState, LogHeader, OFile, fd_none}
use hitsz_ext.Log.Stores.{stores}

abbrev pub Writes : Type 0
Writes = List (ℕ × Data)

-- `ws` is `c` with newer stores in front.
pub data Extends (c : Writes) : Writes → Type 0 where
  here : Extends c c
  newer : {w : ℕ × Data} {ws : Writes} → Extends c ws → Extends c (w ∷ ws)

length-Extends : {c ws : Writes} → Extends c ws → length c ≤ length ws
length-Extends here = omega arith
length-Extends (newer e) = omega (arith, length-Extends e)

tail_of : Writes → Writes
tail_of [] = []
tail_of (w ∷ ws) = ws

-- The shape of a list that extends `c`.
Extends-cases : {c ws : Writes} → Extends c ws → (c ≡ ws) ⊎ Extends c (tail_of ws)
unfolding tail_of
Extends-cases here = inl refl
Extends-cases (newer e) = inr e

pub Extends-cons : {c ws : Writes} (w : ℕ × Data) → Extends c (w ∷ ws) → (c ≡ w ∷ ws) ⊎ Extends c ws
unfolding tail_of
Extends-cons w e = Extends-cases e

-- A cut at or before `ws` that is no shorter is `ws`.
pub Extends-antisym : {c ws : Writes} → Extends c ws → length ws ≤ length c → c ≡ ws
Extends-antisym here h = refl
Extends-antisym (newer e) h = absurd (omega (arith, length-Extends e))

-- A cut within a run of stores comes after the first `j` of them.
pub Extends-stores :
    (a : ℕ → ℕ) (g : ℕ → Data) (k i : ℕ) {c ws : Writes}
    → Extends c (stores a g k i ws)
    → ((j : ℕ) × (j ≤ k) × (c ≡ stores a g j i ws)) ⊎ Extends c ws
unfolding stores
Extends-stores a g zero i e = inr e
Extends-stores a g (suc k) i {c} {ws} e = elim (Extends-stores a g k (i + 1) e) [
  | inl (j, le, q) ↦ inl (suc j, omega arith, q)
  | inr older ↦ elim (Extends-cons (a i, g i) older) [
    | inl q ↦ inl (1, omega arith, q)
    | inr oldest ↦ inr oldest
  ]
]

-- The static members of a new process, on the disk that the old one left, with the superblock read.
abbrev pub no_header : LogHeader
no_header = record { n = 0; block = λ _. 0 }

abbrev pub no_log : LogState
no_log = record {
  start = 0;
  size = 0;
  outstanding = 0;
  committing = false;
  dev = 0;
  hdr = no_header;
}

abbrev pub closed : OFile
closed = record {
  type = fd_none;
  pipe = 0;
  ip = key 0 0;
  off = 0;
  major = 0;
  readable = false;
  writable = false;
  ref = 0;
}

abbrev pub restart : Sys → Writes → Sys
restart s c = record {
  image = s.image;
  writes = c;
  blocks = λ _. none;
  sb = s.sb;
  log = no_log;
  inodes = λ _. none;
  files = λ _. closed;
  pipes = λ _. none;
  devices = λ _. record { has_read = false; has_write = false };
}
