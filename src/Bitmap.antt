-- ===== src/Bitmap.antt =====
-- The free map and the allocation of blocks: block_zeroed, block_alloc and block_free of
-- src/fs.cxx, and the macro BIT_BLOCK of inc/common.h.
pub mod Bits
pub mod Map
pub mod Free
pub mod Alloc
use hitsz_ext.Base.{
  ℕ, zero, suc, ◌+◌, ◌-◌, ◌/◌, ◌%◌, min, Bool, true, false, not, Option, none, some, ◌==◌,
  if◌then◌else◌, u32,
}
use hitsz_ext.Bytes.{Data, zeroes}
use hitsz_ext.Machine.{
  bit_per_block, Key, Block, SuperBlock, Sys, Run, ok, M, pure, gets, ◌>>=◌, ◌>>◌, assert,
  case_null,
}
use hitsz_ext.BlockCache.{load, store, block_read, block_release}
use hitsz_ext.Log.{log_write}
use Bits.{bit_at, set_bit, clear_bit}

abbrev pub bit_block : SuperBlock → ℕ → ℕ
bit_block sb b = u32 (b / bit_per_block + sb.bmapstart)

-- What every change of a block ends with: `log_write(bp); block_release(bp);`.
unfoldable pub finish : Key → M (Unit {0})
finish k = do log_write k; block_release k

unfoldable pub block_zeroed : ℕ → ℕ → M (Unit {0})
block_zeroed dev bno = do
  k ← block_read dev bno
  b ← load k
  store k (record b { bytes = zeroes })
  finish k

-- The inner loop of block_alloc, with `rounds` bits left from `bi` on.
unfoldable pub find_free : ℕ → ℕ → Data → Option ℕ
find_free zero bi d = none
find_free (suc k) bi d = if bit_at d bi == 0 then some bi else find_free k (bi + 1) d

unfoldable pub take_block : ℕ → ℕ → Key → Block → ℕ → M ℕ
take_block dev b k x bi = do
  store k (record x { bytes = set_bit x.bytes bi })
  finish k
  block_zeroed dev (b + bi)
  pure (b + bi)

-- The outer loop, with `rounds` blocks of the map left. `b + bi` is below SuperBlock::size, a
-- `uint32_t`.
unfoldable pub alloc_loop : ℕ → ℕ → ℕ → M ℕ
alloc_loop dev zero b = pure 0
alloc_loop dev (suc rounds) b = do
  sb ← gets (λ s. s.sb)
  k ← block_read dev (bit_block sb b)
  x ← load k
  case_null (find_free (min bit_per_block (sb.size - b)) 0 x.bytes)
      (do block_release k; alloc_loop dev rounds (b + bit_per_block)) (take_block dev b k x)

-- 0 if no block is free.
unfoldable pub block_alloc : ℕ → M ℕ
block_alloc dev s = alloc_loop dev ((s.sb.size + (bit_per_block - 1)) / bit_per_block) 0 s

unfoldable pub block_free : ℕ → ℕ → M (Unit {0})
block_free dev b = do
  sb ← gets (λ s. s.sb)
  k ← block_read dev (bit_block sb b)
  x ← load k
  assert (not (bit_at x.bytes (b % bit_per_block) == 0))
  store k (record x { bytes = clear_bit x.bytes (b % bit_per_block) })
  finish k
