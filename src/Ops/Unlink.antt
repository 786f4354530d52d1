-- ===== src/Ops/Unlink.antt =====
-- is_dir_empty, do_unlink and op_unlink of src/op_unlink.cxx.
use hitsz_ext.Base.{
  ℕ, zero, suc, ◌+◌, ◌-◌, ◌/◌, ◌*◌, ◌^◌, Bool, true, false, not, [], ◌∷◌, ◌==◌, leb, if◌then◌else◌,
  u16,
}
use hitsz_ext.Machine.{
  t_dir, dirent_size, Key, out_of_bounds, M, pure, ◌>>=◌, ◌>>◌, assert, require, case_null,
}
use hitsz_ext.Log.{begin_op, end_op}
use hitsz_ext.INode.{load_inode, set_dinode, lock, update}
use hitsz_ext.INodeCache.{inode_unlock_put}
use hitsz_ext.Content.{write}
use hitsz_ext.Dir.{Chars, strcmp, zeros, entry_inum, read_entry, dirlookup}
use hitsz_ext.PathName.{FilePath, inode_name_parent}
use hitsz_ext.Ops.Reply.{Reply, success, eperm}

unfoldable pub empty_from : Key → ℕ → ℕ → M Bool
empty_from dp zero off = pure true
empty_from dp (suc rounds) off = do
  e ← read_entry dp off
  let rest : M Bool = empty_from dp rounds (off + dirent_size)
  if not (entry_inum e == 0) then pure false else rest

-- The entries after the first two.
unfoldable pub is_dir_empty : Key → M Bool
is_dir_empty dp = do
  d ← load_inode dp
  empty_from dp ((d.dinode.size - 2 * dirent_size + (dirent_size - 1)) / dirent_size)
      (2 * dirent_size)

-- `strcmp(name, …) == 0` against a literal.
unfoldable pub is_named : Chars → Chars → M Bool
is_named name lit = case_null (strcmp name lit) (do require false out_of_bounds; pure false) pure

-- From the removal of the entry at `off` on.
unfoldable pub unlink_entry : Key → Key → ℕ → M Reply
unlink_entry dp ip off = do
  n ← write dp off (zeros dirent_size)
  assert (n == dirent_size)
  i ← load_inode ip
  if i.dinode.type == t_dir
      then (do
        d ← load_inode dp
        set_dinode dp (record d.dinode { nlink = u16 (d.dinode.nlink + (2 ^ 16 - 1)) })
        update dp)
      else pure tt
  inode_unlock_put dp
  j ← load_inode ip
  set_dinode ip (record j.dinode { nlink = u16 (j.dinode.nlink + (2 ^ 16 - 1)) })
  update ip
  inode_unlock_put ip
  end_op
  pure success

unfoldable pub unlink_found : Key → Key → ℕ → M Reply
unlink_found dp ip off = do
  lock ip
  i ← load_inode ip
  assert (leb 1 i.dinode.nlink)
  full ← (if i.dinode.type == t_dir then (do e ← is_dir_empty ip; pure (not e)) else pure false)
  if full
      then (do inode_unlock_put ip; inode_unlock_put dp; end_op; pure eperm)
      else unlink_entry dp ip off

-- `dp` is not locked here: the lock of `inode_name_parent` was given back.
unfoldable pub unlink_in : Key → Chars → M Reply
unlink_in dp name = do
  one ← is_named name (b'.' ∷ 0 ∷ [])
  two ← (if one then pure true else is_named name (b'.' ∷ b'.' ∷ 0 ∷ []))
  if two then (do inode_unlock_put dp; end_op; pure eperm) else (do
    found ← dirlookup dp name
    case_null found (do inode_unlock_put dp; end_op; pure eperm)
        (λ (ip, off). unlink_found dp ip off))

unfoldable pub do_unlink : FilePath → M Reply
do_unlink path = do
  begin_op
  parent ← inode_name_parent path
  case_null parent (do end_op; pure eperm) (λ (dp, name). unlink_in dp name)

abbrev pub op_unlink : FilePath → M Reply
op_unlink = do_unlink
