-- ===== src/Ops/Link.antt =====
-- do_link and op_link of src/op_link.cxx.
use hitsz_ext.Base.{◌+◌, ◌^◌, ◌-◌, false, not, ◌==◌, if◌then◌else◌, u16}
use hitsz_ext.Machine.{t_dir, Key, M, pure, ◌>>=◌, ◌>>◌, case_null}
use hitsz_ext.Log.{begin_op, end_op}
use hitsz_ext.INode.{load_inode, set_dinode, lock, unlock, update}
use hitsz_ext.INodeCache.{inode_put, inode_unlock_put}
use hitsz_ext.Dir.{Chars, dirlink}
use hitsz_ext.PathName.{FilePath, inode_name, inode_name_parent}
use hitsz_ext.Ops.Reply.{Reply, success, eperm}

-- The undoing of `nlink++`.
unfoldable pub link_undo : Key → M Reply
link_undo ip = do
  lock ip
  i ← load_inode ip
  set_dinode ip (record i.dinode { nlink = u16 (i.dinode.nlink + (2 ^ 16 - 1)) })
  update ip
  inode_unlock_put ip
  end_op
  pure eperm

unfoldable pub link_into : Key → Key → Chars → M Reply
link_into ip dp name = do
  lock dp
  linked ← (if not (dp.dev == ip.dev) then pure false else dirlink dp name ip.num)
  if not linked
      then (do inode_unlock_put dp; link_undo ip)
      else (do inode_unlock_put dp; inode_put ip; end_op; pure success)

-- From `nlink++` on. The code unlocks twice, and does not call `update`.
unfoldable pub link_file : FilePath → Key → M Reply
link_file dest ip = do
  i ← load_inode ip
  set_dinode ip (record i.dinode { nlink = u16 (i.dinode.nlink + 1) })
  unlock ip
  unlock ip
  parent ← inode_name_parent dest
  case_null parent (link_undo ip) (λ (dp, name). link_into ip dp name)

unfoldable pub link_source : FilePath → Key → M Reply
link_source dest ip = do
  lock ip
  i ← load_inode ip
  if i.dinode.type == t_dir then (do inode_unlock_put ip; end_op; pure eperm) else link_file dest ip

unfoldable pub do_link : FilePath → FilePath → M Reply
do_link source dest = do
  begin_op
  ip ← inode_name source
  case_null ip (do end_op; pure eperm) (link_source dest)

abbrev pub op_link : FilePath → FilePath → M Reply
op_link = do_link
