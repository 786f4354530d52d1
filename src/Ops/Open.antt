-- ===== src/Ops/Open.antt =====
-- create, do_open and op_open of src/op_open.cxx; op_create, op_mkdir, op_mknod, op_chown and
-- op_release of the files of their names.
use hitsz_ext.Base.{
  ℕ, ◌+◌, Bool, true, false, not, ◌&&◌, ◌||◌, Option, none, some, [], ◌∷◌, ◌==◌, if◌then◌else◌, u16,
}
use hitsz_ext.Machine.{
  t_dir, t_file, t_device, fd_inode, fd_device, Key, DiskINode, OFile, fault, dangling, M, pure,
  ◌>>=◌, ◌>>◌, assert, case_null,
}
use hitsz_ext.Log.{begin_op, end_op}
use hitsz_ext.INode.{load_inode, set_dinode, lock, unlock, update, trunc}
use hitsz_ext.INodeCache.{inode_alloc, inode_unlock_put}
use hitsz_ext.Dir.{Chars, dirlookup, dirlink}
use hitsz_ext.PathName.{FilePath, inode_name, inode_name_parent}
use hitsz_ext.FileTable.{load_file, store_file, ofile_alloc, ofile_close}
use hitsz_ext.Ops.Reply.{Reply, success, enoent, eio}

-- The bits of `omode` that the code tests. O_ACCMODE is O_WRONLY | O_RDWR, and O_RDONLY is 0.
pub record Flags : Type 0 where
  pub wronly : Bool
  pub rdwr : Bool
  pub creat : Bool
  pub truncate : Bool
  pub directory : Bool

abbrev dot : Chars
dot = b'.' ∷ 0 ∷ []

abbrev dot_dot : Chars
dot_dot = b'.' ∷ b'.' ∷ 0 ∷ []

-- The name is taken: only a file can be asked for again.
unfoldable pub create_existing : Key → Key → ℕ → M (Option Key)
create_existing dp ip type = do
  inode_unlock_put dp
  lock ip
  i ← load_inode ip
  if type == t_file && (i.dinode.type == t_file || i.dinode.type == t_device)
      then pure (some ip)
      else (do inode_unlock_put ip; pure none)

-- `ip->dinode.nlink = 0` and what follows it.
unfoldable pub create_undo : Key → Key → M (Option Key)
create_undo dp ip = do
  i ← load_inode ip
  set_dinode ip (record i.dinode { nlink = 0 })
  update ip
  inode_unlock_put ip
  inode_unlock_put dp
  pure none

-- The entries `.` and `..` of a new directory; `||` leaves the second out if the first fails.
unfoldable pub link_dots : Key → Key → M Bool
link_dots dp ip = do
  one ← dirlink ip dot ip.num
  if one then dirlink ip dot_dot dp.num else pure false

unfoldable pub create_link : Key → Chars → ℕ → Key → M (Option Key)
create_link dp name type ip = do
  linked ← dirlink dp name ip.num
  if not linked then create_undo dp ip else (do
    if type == t_dir
        then (do
          d ← load_inode dp
          set_dinode dp (record d.dinode { nlink = u16 (d.dinode.nlink + 1) })
          update dp)
        else pure tt
    inode_unlock_put dp
    pure (some ip))

unfoldable pub create_new : Key → Chars → ℕ → ℕ → ℕ → Key → M (Option Key)
create_new dp name type major minor ip = do
  lock ip
  i ← load_inode ip
  set_dinode ip (record i.dinode { major = major; minor = minor; nlink = 1 })
  update ip
  dots ← (if type == t_dir then link_dots dp ip else pure true)
  if dots then create_link dp name type ip else create_undo dp ip

unfoldable pub create_in : ℕ → ℕ → ℕ → Key → Chars → M (Option Key)
create_in type major minor dp name = do
  lock dp
  found ← dirlookup dp name
  case_null found
      (do
        new ← inode_alloc dp.dev type
        case_null new (do inode_unlock_put dp; pure none) (create_new dp name type major minor))
      (λ (ip, off). create_existing dp ip type)

-- The inode comes back locked.
unfoldable pub create : FilePath → ℕ → ℕ → ℕ → M (Option Key)
create path type major minor = do
  assert (type == t_file || type == t_dir)
  parent ← inode_name_parent path
  case_null parent (pure none) (λ (dp, name). create_in type major minor dp name)

-- The members of a file that is opened; `off` is left as it was for a device.
abbrev pub opened_file : Flags → Key → DiskINode → OFile → OFile
opened_file m ip d o =
    if d.type == t_device
    then record o {
      type = fd_device;
      major = d.major;
      ip = ip;
      readable = not m.wronly;
      writable = m.wronly || m.rdwr;
    }
    else record o {
      type = fd_inode;
      off = 0;
      ip = ip;
      readable = not m.wronly;
      writable = m.wronly || m.rdwr;
    }

-- The end of do_open, from `ofile_alloc` on, at a locked inode.
unfoldable pub open_locked : Flags → Key → M (Option ℕ)
open_locked m ip = do
  slot ← ofile_alloc
  case_null slot (do inode_unlock_put ip; end_op; pure none)
      (λ f. do
        i ← load_inode ip
        o ← load_file f
        store_file f (opened_file m ip i.dinode o)
        if m.truncate && i.dinode.type == t_file then trunc ip else pure tt
        unlock ip
        end_op
        pure (some f))

unfoldable pub open_existing : Flags → Key → M (Option ℕ)
open_existing m ip = do
  lock ip
  i ← load_inode ip
  if i.dinode.type == t_dir && (m.wronly || m.rdwr) && m.truncate && not m.directory
      then (do inode_unlock_put ip; end_op; pure none)
      else open_locked m ip

unfoldable pub do_open : FilePath → Flags → M (Option ℕ)
do_open path m = do
  begin_op
  if m.creat
      then (do ip ← create path t_file 0 0; case_null ip (do end_op; pure none) (open_locked m))
      else (do ip ← inode_name path; case_null ip (do end_op; pure none) (open_existing m))

-- The reply, and `fi->fh`.
unfoldable pub op_open : FilePath → Flags → M (Reply × Option ℕ)
op_open path m = do f ← do_open path m; pure (case_null f (enoent, none) (λ h. (success, some h)))

-- op_create sets the members for an inode, also at a device.
unfoldable pub create_open : Flags → Key → M (Reply × Option ℕ)
create_open m ip = do
  slot ← ofile_alloc
  case_null slot (do inode_unlock_put ip; end_op; pure (eio, none))
      (λ f. do
        o ← load_file f
        store_file f (record o {
          type = fd_inode;
          off = 0;
          ip = ip;
          readable = not m.wronly;
          writable = m.wronly || m.rdwr;
        })
        i ← load_inode ip
        if m.truncate && i.dinode.type == t_file then trunc ip else pure tt
        unlock ip
        end_op
        pure (success, some f))

unfoldable pub op_create : FilePath → Flags → M (Reply × Option ℕ)
op_create path m = do
  begin_op
  ip ← create path t_file 0 0
  case_null ip (do end_op; pure (eio, none)) (create_open m)

-- The result of `create` is not tested: a null pointer is used.
unfoldable pub op_mkdir : FilePath → M Reply
op_mkdir path = do
  begin_op
  ip ← create path t_dir 0 0
  case_null ip (λ s. fault dangling) inode_unlock_put
  end_op
  pure success

unfoldable pub op_mknod : M Reply
op_mknod = do begin_op; end_op; pure success

abbrev pub read_write : Flags
read_write = record {
  wronly = false;
  rdwr = true;
  creat = false;
  truncate = false;
  directory = false;
}

abbrev pub read_only : Flags
read_only = record {
  wronly = false;
  rdwr = false;
  creat = false;
  truncate = false;
  directory = false;
}

unfoldable pub op_chown : FilePath → M Reply
op_chown path = do
  f ← do_open path read_write
  case_null f (pure enoent) (λ h. do ofile_close h; pure success)

-- `fi->fh` is a pointer, and may be null.
unfoldable pub op_release : Option ℕ → M Reply
op_release fh = case_null fh (pure enoent) (λ f. do ofile_close f; pure success)
