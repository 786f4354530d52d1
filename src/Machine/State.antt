-- ===== src/Machine/State.antt =====
-- The records of the program, its whole state, and the monad. A pointer into a cache is the key of
-- the object: a map never holds two objects of one key, and a pointer whose object was deleted
-- faults.
use hitsz_ext.Base.{ℕ, Bool, Option, none, some, List, [], ◌∷◌, ◌==◌, if◌then◌else◌}
use hitsz_ext.Bytes.{Data}
use hitsz_ext.Machine.Keyed.{Key, Map}

-- struct Block, less its key. `locked` is the state of `mtx`.
pub record Block : Type 0 where
  pub valid : Bool
  pub locked : Bool
  pub refcnt : ℕ
  pub bytes : Data

pub record SuperBlock : Type 0 where
  pub magic : ℕ
  pub size : ℕ
  pub nblocks : ℕ
  pub ninodes : ℕ
  pub nlog : ℕ
  pub logstart : ℕ
  pub inodestart : ℕ
  pub bmapstart : ℕ

-- LogHeader: `block` is an array of LOG_SIZE words.
pub record LogHeader : Type 0 where
  pub n : ℕ
  pub block : ℕ → ℕ

-- The static members of class Log.
pub record LogState : Type 0 where
  pub start : ℕ
  pub size : ℕ
  pub outstanding : ℕ
  pub committing : Bool
  pub dev : ℕ
  pub hdr : LogHeader

-- FileType: Invalid = 0, T_DIR = 1, T_FILE = 2, T_DEVICE = 3, kept as the stored number.
pub record DiskINode : Type 0 where
  pub type : ℕ
  pub major : ℕ
  pub minor : ℕ
  pub nlink : ℕ
  pub size : ℕ
  pub addrs : ℕ → ℕ

abbrev pub invalid : ℕ
invalid = 0

abbrev pub t_dir : ℕ
t_dir = 1

abbrev pub t_file : ℕ
t_file = 2

abbrev pub t_device : ℕ
t_device = 3

-- struct INode, less its key.
pub record INode : Type 0 where
  pub ref : ℕ
  pub locked : Bool
  pub valid : Bool
  pub dinode : DiskINode

pub data FdType : Type 0 where
  fd_none fd_pipe fd_inode fd_device : FdType

-- struct OFile. `ip` and `pipe` are pointers.
pub record OFile : Type 0 where
  pub type : FdType
  pub pipe : ℕ
  pub ip : Key
  pub off : ℕ
  pub major : ℕ
  pub readable : Bool
  pub writable : Bool
  pub ref : ℕ

-- struct Pipe, less its mutex and condition variables.
pub record Pipe : Type 0 where
  pub buf : ℕ → ℕ
  pub nread : ℕ
  pub nwrite : ℕ
  pub readopen : Bool
  pub writeopen : Bool

-- struct Device: which of the two function pointers are set.
pub record Device : Type 0 where
  pub has_read : Bool
  pub has_write : Bool

-- `image` is the file as it was mapped, `writes` the stores of whole blocks into the mapping since,
-- the newest first; `pipes` are the live pipes by address, `devices` is `dev_table`.
-- A killed process leaves the image with some older part of `writes` applied.
pub record Sys : Type 0 where
  pub image : ℕ → Data
  pub writes : List (ℕ × Data)
  pub blocks : Map Block
  pub sb : SuperBlock
  pub log : LogState
  pub inodes : Map INode
  pub files : ℕ → OFile
  pub pipes : ℕ → Option Pipe
  pub devices : ℕ → Device

-- The contents of the mapping at a block after some stores.
unfoldable pub disk_at : (ℕ → Data) → List (ℕ × Data) → ℕ → Data
disk_at img [] n = img n
disk_at img ((m, d) ∷ ws) n = if m == n then d else disk_at img ws n

abbrev pub disk : Sys → ℕ → Data
disk s = disk_at s.image s.writes

-- Why a run does not return: a failed assert (or abort), a wait for a lock or a condition that this
-- run cannot end, an unlock of a mutex that is not held, a pointer to a deleted object, an array
-- index out of range, and a loop that goes on for ever.
pub data Fault : Type 0 where
  assertion blocked unlock_unheld dangling out_of_bounds endless : Fault

pub data Run (A : Type 0) : Type 0 where
  ok : A → Sys → Run A
  fault : Fault → Run A

abbrev pub M : Type 0 → Type 0
M A = Sys → Run A

abbrev pub pure : {A : Type 0} → A → M A
pure a s = ok a s

abbrev pub and_then : {A B : Type 0} → Run A → (A → M B) → Run B
and_then (ok a s) f = f a s
and_then (fault e) f = fault e

infixl 5 ◌>>=◌ ◌>>◌
abbrev pub ◌>>=◌ : {A B : Type 0} → M A → (A → M B) → M B
◌>>=◌ m f s = and_then (m s) f

abbrev pub ◌>>◌ : {B : Type 0} → M (Unit {0}) → M B → M B
m >> k = m >>= λ _. k

-- `assert(b)`.
abbrev pub assert : Bool → M (Unit {0})
assert b s = if b then ok tt s else fault assertion

-- What the code does not check, and must hold for its behaviour to be defined.
abbrev pub require : Bool → Fault → M (Unit {0})
require b e s = if b then ok tt s else fault e

abbrev pub gets : {A : Type 0} → (Sys → A) → M A
gets f s = ok (f s) s

-- `if (p == nullptr) … else …`.
abbrev pub case_null {ℓ} : {A : Type 0} {B : Type ℓ} → Option A → B → (A → B) → B
case_null none n f = n
case_null (some a) n f = f a
