-- ===== src/INodeCache.antt =====
-- The inode cache: src/INodeCache.cxx and inc/INodeCache.h.
pub mod Held
pub mod Alloc
pub mod Release
use hitsz_ext.Base.{
  ℕ, zero, suc, ◌+◌, ◌-◌, Bool, true, false, ◌&&◌, Option, none, some, ◌==◌, if◌then◌else◌, inc32,
  dec32,
}
use hitsz_ext.Bytes.{get16, put16, clear}
use hitsz_ext.Machine.{
  dinode_size, Key, key, put, DiskINode, INode, Sys, Run, ok, M, pure, gets, ◌>>=◌, ◌>>◌, require,
  blocked,
}
use hitsz_ext.BlockCache.{load, store, block_read, block_release}
use hitsz_ext.Bitmap.{finish}
use hitsz_ext.INode.{
  inode_block, inode_offset, load_inode, store_inode, set_dinode, unlock, update, trunc,
}

abbrev pub blank_dinode : DiskINode
blank_dinode = record { type = 0; major = 0; minor = 0; nlink = 0; size = 0; addrs = λ _. 0 }

-- `new INode()`, with one reference.
abbrev pub fresh_inode : INode
fresh_inode = record { ref = 1; locked = false; valid = false; dinode = blank_dinode }

abbrev pub with_inode : Sys → Key → Option INode → Sys
with_inode s k ip = record s { inodes = put s.inodes k ip }

abbrev pub one_more : Option INode → INode
one_more none = fresh_inode
one_more (some ip) = record ip { ref = inc32 ip.ref }

unfoldable pub inode_get : ℕ → ℕ → M Key
inode_get dev inum s =
    ok (key dev inum) (with_inode s (key dev inum) (some (one_more (s.inodes (key dev inum)))))

unfoldable pub claim_inode : ℕ → ℕ → Key → ℕ → M (Option Key)
claim_inode dev type bp inum = do
  b ← load bp
  store bp (record b {
    bytes = put16 (clear b.bytes (inode_offset inum) dinode_size) (inode_offset inum) type;
  })
  finish bp
  k ← inode_get dev inum
  pure (some k)

-- The loop of inode_alloc, with `rounds` inodes left from `inum` on.
unfoldable pub inode_alloc_loop : ℕ → ℕ → ℕ → ℕ → M (Option Key)
inode_alloc_loop dev type zero inum = pure none
inode_alloc_loop dev type (suc rounds) inum = do
  sb ← gets (λ s. s.sb)
  bp ← block_read dev (inode_block sb inum)
  b ← load bp
  let go_on : M (Option Key) = (do block_release bp; inode_alloc_loop dev type rounds (inum + 1))
  if get16 b.bytes (inode_offset inum) == 0 then claim_inode dev type bp inum else go_on

unfoldable pub inode_alloc : ℕ → ℕ → M (Option Key)
inode_alloc dev type s = inode_alloc_loop dev type (s.sb.ninodes - 1) 1 s

unfoldable pub inode_dup : Key → M Key
inode_dup k = do ip ← load_inode k; store_inode k (record ip { ref = inc32 ip.ref }); pure k

-- The inode has no links and no other references: truncate and free.
unfoldable pub free_inode : Key → M (Unit {0})
free_inode k = do
  ip ← load_inode k
  require (if ip.locked then false else true) blocked
  store_inode k (record ip { locked = true })
  trunc k
  ip ← load_inode k
  set_dinode k (record ip.dinode { type = 0 })
  update k
  ip ← load_inode k
  store_inode k (record ip { valid = false; locked = false })

unfoldable pub drop_inode : Key → M (Unit {0})
drop_inode k = do
  ip ← load_inode k
  λ s.
      ok tt (
        with_inode s k
          (if dec32 ip.ref == 0 then none else some (record ip { ref = dec32 ip.ref })))

unfoldable pub inode_put : Key → M (Unit {0})
inode_put k = do
  ip ← load_inode k
  if ip.ref == 1 && ip.valid && ip.dinode.nlink == 0 then free_inode k else pure tt
  drop_inode k

unfoldable pub inode_unlock_put : Key → M (Unit {0})
inode_unlock_put k = do unlock k; inode_put k
