-- ===== src/PathName.antt =====
-- Path names: skipelem, inode_name_x, inode_name and inode_name_parent of src/fs.cxx.
pub mod Elements
pub mod Names
use hitsz_ext.Base.{
  ℕ, zero, suc, Bool, true, false, not, ◌&&◌, ◌||◌, Option, none, some, List, [], ◌∷◌, ◌++◌, ◌==◌,
  leb, if◌then◌else◌, length, take,
}
use hitsz_ext.Machine.{
  dirsiz, rootdev, rootino, t_dir, Key, INode, DiskINode, Sys, Run, ok, endless, M, pure, gets,
  ◌>>=◌, ◌>>◌, assert, require, case_null,
}
use hitsz_ext.INode.{load_inode, lock, unlock}
use hitsz_ext.INodeCache.{inode_get, inode_put, inode_unlock_put}
use hitsz_ext.Dir.{Chars, dirlookup}

-- The bytes of a path before its final 0.
abbrev pub FilePath : Type 0
FilePath = List ℕ

abbrev pub is_slash : ℕ → Bool
is_slash c = c == b'/'

-- `while (*path == '/') path++;`
unfoldable pub skip_slashes : FilePath → FilePath
skip_slashes [] = []
skip_slashes (c ∷ p) = if is_slash c then skip_slashes p else c ∷ p

-- The bytes up to the next slash, and those from it on.
unfoldable pub head_of : FilePath → FilePath
head_of [] = []
head_of (c ∷ p) = if is_slash c then [] else c ∷ head_of p

unfoldable pub after_head : FilePath → FilePath
after_head [] = []
after_head (c ∷ p) = if is_slash c then c ∷ p else after_head p

-- What the buffer `name` of DIRSIZ bytes holds: a long name is cut, and has no final 0.
unfoldable pub name_buffer : FilePath → Chars
name_buffer e = if leb dirsiz (length e) then take dirsiz e else e ++ 0 ∷ []

-- The name, and the path after it; none if there is no name left.
unfoldable pub first_elem : FilePath → Option (Chars × FilePath)
first_elem [] = none
first_elem (c ∷ p) = some (name_buffer (head_of (c ∷ p)), skip_slashes (after_head (c ∷ p)))

unfoldable pub skipelem : FilePath → Option (Chars × FilePath)
skipelem p = first_elem (skip_slashes p)

abbrev pub is_end : FilePath → Bool
is_end [] = true
is_end (c ∷ p) = false

-- The inode, and for `nameiparent` the last name.
abbrev pub Found : Type 0
Found = Option (Key × Chars)

unfoldable pub give_up : Key → M Found
give_up k = do inode_unlock_put k; pure none

-- The end of the loop.
unfoldable pub name_end : Bool → Chars → Key → M Found
name_end nameiparent name k =
    if nameiparent then (do inode_put k; pure none) else pure (some (k, name))

-- One round at the inode `k`, for the element `name` with `path` after it.
unfoldable pub descend : Bool → Key → Chars → FilePath → (Key → M Found) → M Found
descend nameiparent k name path go_on = do
  lock k
  ip ← load_inode k
  if not (ip.dinode.type == t_dir)
      then give_up k
      else (if nameiparent && is_end path then (do unlock k; pure (some (k, name))) else (do
        found ← dirlookup k name
        case_null found (give_up k) (λ (next, off). do inode_unlock_put k; go_on next)))

-- Each round takes a byte of the path at least.
unfoldable pub name_loop : ℕ → Bool → Chars → FilePath → Key → M Found
name_loop zero parent name path k = do require false endless; pure none
name_loop (suc fuel) parent name path k =
    case_null (skipelem path) (name_end parent name k)
      (λ (elem, rest). descend parent k elem rest (name_loop fuel parent elem rest))

abbrev pub starts_at_root : FilePath → Bool
starts_at_root [] = false
starts_at_root (c ∷ p) = is_slash c

unfoldable pub inode_name_x : FilePath → Bool → M Found
inode_name_x path parent = do
  assert (starts_at_root path)
  k ← inode_get rootdev rootino
  name_loop (suc (length path)) parent [] path k

unfoldable pub inode_name : FilePath → M (Option Key)
inode_name path = do f ← inode_name_x path false; pure (case_null f none (λ (k, name). some k))

unfoldable pub inode_name_parent : FilePath → M Found
inode_name_parent path = inode_name_x path true
