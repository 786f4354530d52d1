-- ===== src/Transaction.antt =====
-- The state inside a transaction, between two block operations: what src/Log.cxx and
-- src/BlockCache.cxx keep true together, and the contents that the file system sees.
pub mod Slot
pub mod Hold
pub mod Finish
use hitsz_ext.Base.{
  ℕ, ◌+◌, ◌<◌, ◌≤◌, ◌^◌, ◌≡◌, ◌≢◌, ◌⊎◌, inl, inr, Bool, true, false, Option, none, some, inc32,
}
use hitsz_ext.Bytes.{Data}
use hitsz_ext.Machine.{Map, Key, key, Block, Sys, LogState, LogHeader, disk}
use hitsz_ext.BlockCache.Steps.{with_block, pinned}
use hitsz_ext.Log.Layout.{Layout}

-- The key of a block of the file system.
abbrev pub at : Sys → ℕ → Key
at s b = key s.log.dev b

abbrev pub Logged : LogHeader → ℕ → Type 0
Logged h b = (i : ℕ) × (i < h.n) × (h.block i ≡ b)

abbrev pub NotLogged : LogHeader → ℕ → Type 0
NotLogged h b = (i : ℕ) → i < h.n → h.block i ≢ b

-- A block that nobody holds is cached if and only if it is logged, and then by the log alone.
abbrev pub Settled : Sys → ℕ → Type 0
Settled s b =
    ((s.blocks (at s b) ≡ none) × NotLogged s.log.hdr b)
    ⊎ ((d : Data) × (s.blocks (at s b) ≡ some (pinned d)) × Logged s.log.hdr b)

-- `busy` are the blocks that the running code holds.
pub record Tx (busy : ℕ → Bool) (s : Sys) : Type 0 where
  pub layout : Layout s.log
  pub opened : 1 ≤ s.log.outstanding
  pub settled : (b : ℕ) → busy b ≡ false → Settled s b

abbrev pub no_block : ℕ → Bool
no_block b = false

-- A block that a transaction may change: none of the log's own.
pub record IsHome (l : LogState) (b : ℕ) : Type 0 where
  pub small : b < 2 ^ 22
  pub apart : (b < l.start) ⊎ (l.start + l.size ≤ b)

-- There is room in the log for `k` more blocks.
pub record HasRoom (l : LogState) (k : ℕ) : Type 0 where
  pub fits : l.hdr.n + k ≤ 30
  pub room : l.hdr.n + k < l.size

abbrev pub content_of : Option Block → Data → Data
content_of none d = d
content_of (some x) d = x.bytes

-- The contents of a block as a read finds them.
unfoldable pub content : Sys → ℕ → Data
content s b = content_of (s.blocks (at s b)) (disk s b)

abbrev pub ref_of : Option Block → ℕ
ref_of none = 1
ref_of (some x) = inc32 x.refcnt

-- The block while the code holds it, with the contents `d`.
abbrev pub holding : Sys → ℕ → Data → Block
holding s b d = record {
  valid = true;
  locked = true;
  refcnt = ref_of (s.blocks (at s b));
  bytes = d;
}

abbrev pub hold : Sys → ℕ → Data → Sys
hold s b d = with_block s (at s b) (some (holding s b d))

-- The state after a change of the block `b`, with the header `h`.
abbrev pub logged : Sys → ℕ → Data → LogHeader → Sys
logged s b d h = record (with_block s (at s b) (some (pinned d))) { log = record s.log { hdr = h } }

-- The state with other blocks in the cache and another header of the log.
abbrev pub changed : Sys → Map Block → LogHeader → Sys
changed s m h = record s { blocks = m; log = record s.log { hdr = h } }
