-- ===== src/BlockCache.antt =====
-- The block cache: src/BlockCache.cxx, inc/BlockCache.h, inc/PosixEnv.h. Each function runs inside
-- `BlockCache::mtx` or holds the block's lock, and is one step of the model.
pub mod Steps
pub mod Pair
use hitsz_ext.Base.{
  ℕ, ◌*◌, ◌/◌, ◌%◌, ◌^◌, Bool, true, false, Option, none, some, List, ◌∷◌, ◌==◌, if◌then◌else◌,
  inc32, dec32,
}
use hitsz_ext.Bytes.{Data, zeroes}
use hitsz_ext.Machine.{
  bsize, Key, key, Map, put, Block, Sys, disk, Run, ok, fault, blocked, dangling, unlock_unheld, M,
  pure, ◌>>=◌, ◌>>◌, assert,
}

-- `*b` for a pointer to a cached block, and a store through it.
unfoldable pub load : Key → M Block
load k s = elim (s.blocks k) [ none ↦ fault dangling | some b ↦ ok b s ]

unfoldable pub store : Key → Block → M (Unit {0})
store k b s = elim (s.blocks k) [
  | none ↦ fault dangling
  | some _ ↦ ok tt (record s { blocks = put s.blocks k (some b) })
]

-- The block of the mapping at `blk->blockno * BSIZE`, a product of `uint32_t`.
unfoldable pub disk_index : ℕ → ℕ
disk_index bno = bno * bsize % 2 ^ 32 / bsize

-- PosixEnv::read and PosixEnv::write.
unfoldable pub posix_read : Key → M (Unit {0})
posix_read k = do b ← load k; λ s. store k (record b { bytes = disk s (disk_index k.num) }) s

unfoldable pub posix_write : Key → M (Unit {0})
posix_write k = do
  b ← load k
  λ s. ok tt (record s { writes = (disk_index k.num, b.bytes) ∷ s.writes })

unfoldable pub block_get : ℕ → ℕ → M Key
block_get dev bno s = elim (s.blocks (key dev bno)) [
  | some b ↦
      if b.locked
      then fault blocked
      else ok (key dev bno) (record s {
        blocks =
            put s.blocks (key dev bno) (some (record b { locked = true; refcnt = inc32 b.refcnt }));
      })
  | none ↦ ok (key dev bno) (record s {
    blocks =
        put s.blocks (key dev bno)
          (some (record { valid = false; locked = true; refcnt = 1; bytes = zeroes }));
  })
]

unfoldable pub block_read : ℕ → ℕ → M Key
block_read dev bno = do
  k ← block_get dev bno
  b ← load k
  if b.valid then pure tt else (do posix_read k; c ← load k; store k (record c { valid = true }))
  c ← load k
  assert c.locked
  pure k

unfoldable pub block_write : Key → M (Unit {0})
block_write k = do b ← load k; assert b.locked; posix_write k

-- `b->refcnt--`, and the erasure and deletion at 0.
unfoldable pub drop_ref : Key → M (Unit {0})
drop_ref k = do
  b ← load k
  λ s. ok tt (record s {
    blocks =
        put s.blocks k
          (if dec32 b.refcnt == 0 then none else some (record b { refcnt = dec32 b.refcnt }));
  })

unfoldable pub block_release : Key → M (Unit {0})
block_release k = do b ← load k; assert b.locked; store k (record b { locked = false }); drop_ref k

unfoldable pub block_pin : Key → M (Unit {0})
block_pin k = do b ← load k; store k (record b { refcnt = inc32 b.refcnt })

unfoldable pub block_unpin : Key → M (Unit {0})
block_unpin k = do b ← load k; store k (record b { refcnt = dec32 b.refcnt })
