-- ===== src/INode.antt =====
-- Inodes in memory and on the disk: src/INode.cxx, inc/INode.h, inc/DiskINode.h, and INode::trunc and
-- INode::update of src/fs.cxx. A pointer to an INode is its key.
pub mod Codec
pub mod Update
pub mod Trunc
use hitsz_ext.Base.{
  ℕ, zero, suc, ◌+◌, ◌*◌, ◌/◌, ◌%◌, Bool, true, false, not, Option, none, some, ◌==◌, leb,
  if◌then◌else◌, u32,
}
use hitsz_ext.Bytes.{Data, get32}
use hitsz_ext.Machine.{
  ndirect, nindirect, inode_per_block, dinode_size, Key, put, SuperBlock, DiskINode, INode, Sys,
  Run, ok, fault, dangling, blocked, unlock_unheld, M, pure, gets, ◌>>=◌, ◌>>◌, assert, require,
}
use hitsz_ext.BlockCache.{load, store, block_read, block_release}
use hitsz_ext.Log.{set_at}
use hitsz_ext.Bitmap.{finish, block_free}
use Codec.{decode_dinode, encode_dinode}

-- INODE_BLOCK.
abbrev pub inode_block : SuperBlock → ℕ → ℕ
inode_block sb i = u32 (i / inode_per_block + sb.inodestart)

-- `(DiskINode *)bp->data + i % INODE_PER_BLOCK`, as an offset.
abbrev pub inode_offset : ℕ → ℕ
inode_offset i = dinode_size * (i % inode_per_block)

unfoldable pub load_inode : Key → M INode
load_inode k s = elim (s.inodes k) [ none ↦ fault dangling | some ip ↦ ok ip s ]

unfoldable pub store_inode : Key → INode → M (Unit {0})
store_inode k ip s = ok tt (record s { inodes = put s.inodes k (some ip) })

-- An assignment to fields of `ip->dinode`.
unfoldable pub set_dinode : Key → DiskINode → M (Unit {0})
set_dinode k d = do ip ← load_inode k; store_inode k (record ip { dinode = d })

-- The part of INode::lock that reads the inode from the disk.
unfoldable pub fetch_inode : Key → M (Unit {0})
fetch_inode k = do
  sb ← gets (λ s. s.sb)
  bp ← block_read k.dev (inode_block sb k.num)
  b ← load bp
  set_dinode k (decode_dinode b.bytes (inode_offset k.num))
  block_release bp
  ip ← load_inode k
  store_inode k (record ip { valid = true })
  assert (not (ip.dinode.type == 0))

unfoldable pub lock : Key → M (Unit {0})
lock k = do
  ip ← load_inode k
  assert (leb 1 ip.ref)
  require (not ip.locked) blocked
  store_inode k (record ip { locked = true })
  if ip.valid then pure tt else fetch_inode k

-- Unlocking a mutex that is not held is undefined.
unfoldable pub unlock : Key → M (Unit {0})
unlock k = do
  ip ← load_inode k
  assert (leb 1 ip.ref)
  require ip.locked unlock_unheld
  store_inode k (record ip { locked = false })

-- struct Stat.
pub record Stat : Type 0 where
  pub dev : ℕ
  pub ino : ℕ
  pub type : ℕ
  pub nlink : ℕ
  pub size : ℕ

unfoldable pub stat : Key → M Stat
stat k = do
  ip ← load_inode k
  pure (record {
    dev = k.dev;
    ino = k.num;
    type = ip.dinode.type;
    nlink = ip.dinode.nlink;
    size = ip.dinode.size;
  })

unfoldable pub update : Key → M (Unit {0})
update k = do
  sb ← gets (λ s. s.sb)
  bp ← block_read k.dev (inode_block sb k.num)
  b ← load bp
  ip ← load_inode k
  store bp (record b { bytes = encode_dinode ip.dinode b.bytes (inode_offset k.num) })
  finish bp

unfoldable pub free_direct : Key → ℕ → M (Unit {0})
free_direct k i = do
  ip ← load_inode k
  if ip.dinode.addrs i == 0 then pure tt else (do
    block_free k.dev (ip.dinode.addrs i)
    set_dinode k (record ip.dinode { addrs = set_at ip.dinode.addrs i 0 }))

unfoldable pub direct_loop : Key → ℕ → ℕ → M (Unit {0})
direct_loop k zero i = pure tt
direct_loop k (suc rounds) i = do free_direct k i; direct_loop k rounds (i + 1)

-- The words of the indirect block, read as the loop goes.
unfoldable pub indirect_loop : Key → Key → ℕ → ℕ → M (Unit {0})
indirect_loop k bp zero j = pure tt
indirect_loop k bp (suc rounds) j = do
  b ← load bp
  if get32 b.bytes (4 * j) == 0 then pure tt else block_free k.dev (get32 b.bytes (4 * j))
  indirect_loop k bp rounds (j + 1)

unfoldable pub free_indirect : Key → M (Unit {0})
free_indirect k = do
  ip ← load_inode k
  if ip.dinode.addrs ndirect == 0 then pure tt else (do
    bp ← block_read k.dev (ip.dinode.addrs ndirect)
    indirect_loop k bp nindirect 0
    block_release bp
    block_free k.dev (ip.dinode.addrs ndirect)
    set_dinode k (record ip.dinode { addrs = set_at ip.dinode.addrs ndirect 0 }))

unfoldable pub trunc : Key → M (Unit {0})
trunc k = do
  direct_loop k ndirect 0
  free_indirect k
  ip ← load_inode k
  set_dinode k (record ip.dinode { size = 0 })
  update k
