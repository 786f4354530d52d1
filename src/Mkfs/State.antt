-- ===== src/Mkfs/State.antt =====
-- The global variables of mkfs/mkfs.c, the file that it writes, and the monad of its functions.
use hitsz_ext.Base.{ℕ, ◌+◌, ◌*◌, ◌/◌, ◌%◌, ◌^◌, Bool, ◌==◌, ltb, if◌then◌else◌}
use hitsz_ext.Bytes.{Data}
use hitsz_ext.Machine.{bsize, SuperBlock}

-- `file` is the image by blocks, of which the first `blocks` are written; a block that was skipped
-- has zeroes.
pub record Maker : Type 0 where
  pub file : ℕ → Data
  pub blocks : ℕ
  pub sb : SuperBlock
  pub freeinode : ℕ
  pub used_block : ℕ

-- Why a run stops: exit(1), a failed assert, or a loop with no rounds left.
pub data Stop : Type 0 where
  exited aborted unfinished : Stop

pub data Out (A : Type 0) : Type 0 where
  done : A → Maker → Out A
  stopped : Stop → Out A

abbrev pub Make : Type 0 → Type 0
Make A = Maker → Out A

abbrev pub pure : {A : Type 0} → A → Make A
pure a s = done a s

abbrev pub and_then : {A B : Type 0} → Out A → (A → Make B) → Out B
and_then (done a s) f = f a s
and_then (stopped e) f = stopped e

infixl 5 ◌>>=◌ ◌>>◌
abbrev pub ◌>>=◌ : {A B : Type 0} → Make A → (A → Make B) → Make B
◌>>=◌ m f s = and_then (m s) f

abbrev pub ◌>>◌ : {B : Type 0} → Make (Unit {0}) → Make B → Make B
m >> k = m >>= λ _. k

abbrev pub gets : {A : Type 0} → (Maker → A) → Make A
gets f s = done (f s) s

-- `assert(b)`, and `if (!b) exit(1)`.
abbrev pub assert : Bool → Make (Unit {0})
assert b s = if b then done tt s else stopped aborted

abbrev pub or_exit : Bool → Make (Unit {0})
or_exit b s = if b then done tt s else stopped exited

-- The block at `bno * BSIZE`, a product of `uint32_t`.
unfoldable pub seek : ℕ → ℕ
seek bno = bno * bsize % 2 ^ 32 / bsize

-- `wsect` and `rsect`. A read past the end of the file exits.
unfoldable pub wsect : ℕ → Data → Make (Unit {0})
wsect bno buf s = done tt (record s {
  file = λ n. if n == seek bno then buf else s.file n;
  blocks = if ltb (seek bno) s.blocks then s.blocks else seek bno + 1;
})

unfoldable pub rsect : ℕ → Make Data
rsect bno s = if ltb (seek bno) s.blocks then done (s.file (seek bno)) s else stopped exited
