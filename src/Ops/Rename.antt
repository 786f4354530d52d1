-- ===== src/Ops/Rename.antt =====
-- same_parent, different_parent and op_rename of src/op_rename.cxx. The paths are taken apart by
-- std::filesystem, which enters as two functions: `parent_path` and `filename`, the latter with
-- its final 0.
use hitsz_ext.Base.{
  ℕ, ◌-◌, Bool, true, false, not, Option, none, some, List, [], ◌∷◌, ◌==◌, if◌then◌else◌, length,
  leb,
}
use hitsz_ext.Machine.{
  t_dir, dirent_size, Key, out_of_bounds, M, pure, ◌>>=◌, ◌>>◌, require, case_null,
}
use hitsz_ext.Log.{begin_op, end_op}
use hitsz_ext.INode.{load_inode, update}
use hitsz_ext.INodeCache.{inode_put, inode_unlock_put}
use hitsz_ext.Content.{block_map, read, write}
use hitsz_ext.Dir.{Chars, entry, zeros, dirlookup, dirlink}
use hitsz_ext.PathName.{FilePath, inode_name}
use hitsz_ext.Ops.Reply.{Reply, success, enoent, enotdir, eio}

-- The release of two inodes in this order, and the end of the operation.
unfoldable pub leave_two : Key → Key → Reply → M Reply
leave_two a b r = do inode_unlock_put a; inode_unlock_put b; end_op; pure r

unfoldable pub rename_entry : Key → Chars → Key → ℕ → M Reply
rename_entry dp name ip off = do
  n ← write dp off (entry ip.num name)
  if not (n == dirent_size) then leave_two ip dp eio else (do update dp; leave_two ip dp success)

-- No lock is taken, and a directory of another type is not given back.
unfoldable pub rename_in : Chars → Chars → Key → M Reply
rename_in from to dp = do
  d ← load_inode dp
  if not (d.dinode.type == t_dir) then (do end_op; pure enotdir) else (do
    found ← dirlookup dp from
    case_null found (do inode_unlock_put dp; end_op; pure enoent)
        (λ (ip, off). rename_entry dp to ip off))

unfoldable pub leave_three : Key → Key → Key → Reply → M Reply
leave_three a b c r = do inode_unlock_put a; leave_two b c r

-- The reads and writes of the last entry of a directory, at `size - sizeof(de)`. With less than an
-- entry in the directory the difference wraps and, as an `off_t`, is negative: it passes the tests
-- of INode::read and INode::write, and, if the first block is there or can be had, the `memmove`
-- is of bytes before those of the block.
unfoldable pub before_block : Key → M (Unit {0})
before_block k = do b ← block_map k 0; require (b == 0) out_of_bounds

unfoldable pub read_last : Key → M (List ℕ)
read_last k = do
  d ← load_inode k
  if leb dirent_size d.dinode.size
      then read k (d.dinode.size - dirent_size) dirent_size
      else (do before_block k; pure [])

unfoldable pub write_last : Key → List ℕ → M ℕ
write_last k src = do
  d ← load_inode k
  if leb dirent_size d.dinode.size
      then write k (d.dinode.size - dirent_size) src
      else (do before_block k; update k; pure 0)

-- From the second `memset` on: the last entry of the source directory is moved to `off`.
unfoldable pub move_last : Key → Key → Key → ℕ → M Reply
move_last src dest ip off = do
  e ← read_last src
  if not (length e == dirent_size)
      then (do n ← write_last dest (zeros dirent_size); update dest; leave_three ip src dest eio)
      else (do n ← write src off e; update src; inode_put ip; leave_two src dest success)

unfoldable pub move_entry : Key → Key → Chars → Key → ℕ → M Reply
move_entry src dest to ip off = do
  linked ← dirlink dest to ip.num
  if not linked then leave_three ip src dest eio else (do update dest; move_last src dest ip off)

unfoldable pub move_between : Chars → Chars → Key → Key → M Reply
move_between from to src dest = do
  found ← dirlookup src from
  case_null found (leave_two src dest enoent) (λ (ip, off). move_entry src dest to ip off)

-- A null pointer or an inode that is no directory.
unfoldable pub as_dir : Option Key → M (Option Key)
as_dir k =
    case_null k (pure none)
      (λ d. do i ← load_inode d; pure (if i.dinode.type == t_dir then some d else none))

unfoldable pub different_parent : FilePath → FilePath → Chars → Chars → M Reply
different_parent source_parent dest_parent from to = do
  begin_op
  a ← inode_name source_parent
  src ← as_dir a
  case_null src (do end_op; pure enoent)
      (λ s. do
        b ← inode_name dest_parent
        dest ← as_dir b
        case_null dest (do inode_unlock_put s; end_op; pure enoent) (move_between from to s))

unfoldable pub same_parent : FilePath → Chars → Chars → M Reply
same_parent parent from to = do
  begin_op
  dp ← inode_name parent
  case_null dp (do end_op; pure enoent) (rename_in from to)

unfoldable pub same_path : FilePath → FilePath → Bool
same_path [] [] = true
same_path [] (d ∷ q) = false
same_path (c ∷ p) [] = false
same_path (c ∷ p) (d ∷ q) = let rest = same_path p q in if c == d then rest else false

module _ (parent_path : FilePath → FilePath) (filename : FilePath → Chars) where
  unfoldable pub op_rename : FilePath → FilePath → M Reply
  op_rename source dest =
      if same_path (parent_path source) (parent_path dest)
      then same_parent (parent_path source) (filename source) (filename dest)
      else different_parent (parent_path source) (parent_path dest) (filename source)
          (filename dest)
