-- ===== src/Ops/Attr.antt =====
-- do_fillstatbuf, op_getattr and op_fgetattr of src/op_getattr.cxx, op_truncate of
-- src/op_truncate.cxx, and op_statfs of src/op_statfs.cxx.
pub mod Statfs
use hitsz_ext.Base.{
  ℕ, zero, suc, ◌+◌, ◌-◌, ◌*◌, ◌/◌, ◌%◌, ◌^◌, min, Bool, true, false, not, Option, none, some, ◌==◌,
  ltb, if◌then◌else◌, u32,
}
use hitsz_ext.Bytes.{Data, get16}
use hitsz_ext.Machine.{
  bsize, fssize, ninodes, dirsiz, bit_per_block, rootdev, t_dir, t_file, Key, DiskINode, INode,
  OFile, Sys, Run, ok, M, pure, gets, ◌>>=◌, ◌>>◌, assert, case_null,
}
use hitsz_ext.BlockCache.{load, block_read, block_release}
use hitsz_ext.Log.{begin_op, end_op}
use hitsz_ext.Bitmap.{bit_block}
use hitsz_ext.Bitmap.Bits.{bit_at}
use hitsz_ext.INode.{inode_block, inode_offset, load_inode, set_dinode, lock, unlock, update}
use hitsz_ext.PathName.{FilePath}
use hitsz_ext.FileTable.{load_file, ofile_close}
use hitsz_ext.Ops.Open.{do_open, read_only, read_write}
use hitsz_ext.Ops.Reply.{Reply, success, enoent}

-- The members of `struct stat` that are set. The mode is that of a directory, or of a file.
pub record StatBuf : Type 0 where
  pub ino : ℕ
  pub is_dir : Bool
  pub nlink : ℕ
  pub size : ℕ
  pub blocks : ℕ

abbrev pub stat_of : Key → Bool → DiskINode → StatBuf
stat_of k dir d = record {
  ino = k.num;
  is_dir = dir;
  nlink = d.nlink;
  size = d.size;
  blocks = u32 (d.size + (bsize - 1)) / bsize;
}

-- `abort()` at any other type.
unfoldable pub do_fillstatbuf : Key → M StatBuf
do_fillstatbuf k = do
  ip ← load_inode k
  if ip.dinode.type == t_dir
      then pure (stat_of k true ip.dinode)
      else (do assert (ip.dinode.type == t_file); pure (stat_of k false ip.dinode))

unfoldable pub op_fgetattr : Option ℕ → M (Reply × Option StatBuf)
op_fgetattr fh =
    case_null fh (pure (enoent, none))
      (λ f. do o ← load_file f; st ← do_fillstatbuf o.ip; pure (success, some st))

unfoldable pub op_getattr : FilePath → M (Reply × Option StatBuf)
op_getattr path = do
  f ← do_open path read_only
  case_null f (pure (enoent, none))
      (λ h. do o ← load_file h; st ← do_fillstatbuf o.ip; ofile_close h; pure (success, some st))

-- (length + BSIZE - 1) / BSIZE * BSIZE, in 32 bits.
abbrev pub rounded : ℕ → ℕ
rounded len = u32 (u32 ((len + (bsize - 1)) / bsize) * bsize)

unfoldable pub set_size : Key → ℕ → M (Unit {0})
set_size k size = do
  begin_op
  lock k
  ip ← load_inode k
  set_dinode k (record ip.dinode { size = size })
  update k
  unlock k
  end_op

unfoldable pub op_truncate : FilePath → ℕ → M Reply
op_truncate path len = do
  f ← do_open path read_write
  case_null f (pure enoent)
      (λ h. do o ← load_file h; set_size o.ip (rounded len); ofile_close h; pure success)

-- The members of `struct statvfs` that are set.
pub record StatVfs : Type 0 where
  pub f_bsize : ℕ
  pub f_frsize : ℕ
  pub f_blocks : ℕ
  pub f_bfree : ℕ
  pub f_bavail : ℕ
  pub f_files : ℕ
  pub f_favail : ℕ
  pub f_ffree : ℕ
  pub f_namemax : ℕ

-- The bits that are set among `rounds` bits from `bi` on.
unfoldable pub count_bits : ℕ → ℕ → Data → ℕ
count_bits zero bi d = 0
count_bits (suc k) bi d = (if bit_at d bi == 0 then 0 else 1) + count_bits k (bi + 1) d

unfoldable pub count_blocks : ℕ → ℕ → M ℕ
count_blocks zero b = pure 0
count_blocks (suc rounds) b = do
  sb ← gets (λ s. s.sb)
  k ← block_read rootdev (bit_block sb b)
  x ← load k
  block_release k
  rest ← count_blocks rounds (b + bit_per_block)
  pure (count_bits (min bit_per_block (sb.size - b)) 0 x.bytes + rest)

unfoldable pub count_inodes : ℕ → ℕ → M ℕ
count_inodes zero inum = pure 0
count_inodes (suc rounds) inum = do
  sb ← gets (λ s. s.sb)
  k ← block_read rootdev (inode_block sb inum)
  x ← load k
  block_release k
  rest ← count_inodes rounds (inum + 1)
  pure ((if get16 x.bytes (inode_offset inum) == 0 then 0 else 1) + rest)

-- A difference of two 64-bit numbers.
abbrev pub sub64 : ℕ → ℕ → ℕ
sub64 a b = (a + 2 ^ 64 - b) % 2 ^ 64

unfoldable pub op_statfs : M StatVfs
op_statfs = do
  sb ← gets (λ s. s.sb)
  used ← count_blocks ((sb.size + (bit_per_block - 1)) / bit_per_block) 0
  files ← count_inodes (sb.ninodes - 1) 1
  pure (record {
    f_bsize = bsize;
    f_frsize = bsize;
    f_blocks = fssize;
    f_bfree = sub64 fssize used;
    f_bavail = sub64 fssize used;
    f_files = files;
    f_favail = sub64 ninodes files;
    f_ffree = sub64 ninodes files;
    f_namemax = dirsiz;
  })
