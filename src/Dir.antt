-- ===== src/Dir.antt =====
-- Directories: INode::dirlookup and INode::dirlink of src/fs.cxx, and inc/DirEntry.h.
pub mod Lookup
pub mod Entries
pub mod Stored
pub mod Present
pub mod Insert
use hitsz_ext.Base.{
  ℕ, zero, suc, ◌+◌, ◌-◌, ◌*◌, ◌/◌, ◌%◌, Bool, true, false, Option, none, some, List, [], ◌∷◌, ◌==◌,
  if◌then◌else◌, u16, length, get_or, take, drop,
}
use hitsz_ext.Machine.{
  dirsiz, dirent_size, t_dir, Key, out_of_bounds, M, pure, ◌>>=◌, ◌>>◌, assert, require, case_null,
}
use hitsz_ext.INode.{load_inode}
use hitsz_ext.INodeCache.{inode_get, inode_put}
use hitsz_ext.Content.{read, write}

-- A `char` array from a pointer to its end. A C string ends with its byte 0, if it has one.
abbrev pub Chars : Type 0
Chars = List ℕ

-- `strcmp(a, b) == 0`, or none if the comparison runs off an array.
unfoldable pub strcmp : Chars → Chars → Option Bool
strcmp [] b = none
strcmp (x ∷ a) [] = none
strcmp (x ∷ a) (y ∷ b) =
    let rest = strcmp a b in if x == y then (if x == 0 then some true else rest) else some false

-- `strncpy(dst, src, n)`: what `dst[0..n)` holds then.
unfoldable pub zeros : ℕ → Chars
zeros zero = []
zeros (suc n) = 0 ∷ zeros n

unfoldable pub strncpy : ℕ → Chars → Chars
strncpy zero src = []
strncpy (suc n) [] = 0 ∷ zeros n
strncpy (suc n) (c ∷ src) = if c == 0 then 0 ∷ zeros n else c ∷ strncpy n src

-- struct DirEntry, as its 16 bytes.
abbrev pub entry_inum : List ℕ → ℕ
entry_inum e = get_or e 0 0 + 256 * get_or e 1 0

abbrev pub entry_name : List ℕ → Chars
entry_name e = take dirsiz (drop 2 e)

unfoldable pub entry : ℕ → Chars → List ℕ
entry inum name = inum % 256 ∷ inum / 256 % 256 ∷ strncpy dirsiz name

-- `this->read(&de, off, sizeof(de))`, which must be whole.
unfoldable pub read_entry : Key → ℕ → M (List ℕ)
read_entry k off = do e ← read k off dirent_size; assert (length e == dirent_size); pure e

-- The result of `dirlookup`: the inode, and the offset that goes through `poff`.
unfoldable pub found_at : Key → ℕ → ℕ → M (Option (Key × ℕ))
found_at k inum off = do ip ← inode_get k.dev inum; pure (some (ip, off))

-- The comparison with one entry, and the rest of the loop.
unfoldable pub match_entry : Key → Chars → ℕ → List ℕ → M (Option (Key × ℕ)) → M (Option (Key × ℕ))
match_entry k name off e rest =
    if entry_inum e == 0
    then rest
    else case_null (strcmp name (entry_name e)) (do require false out_of_bounds; pure none)
        (λ same. if same then found_at k (entry_inum e) off else rest)

-- `rounds` entries are left from `off` on.
unfoldable pub lookup_loop : Key → Chars → ℕ → ℕ → M (Option (Key × ℕ))
lookup_loop k name zero off = pure none
lookup_loop k name (suc rounds) off = do
  e ← read_entry k off
  let rest : M (Option (Key × ℕ)) = lookup_loop k name rounds (off + dirent_size)
  match_entry k name off e rest

-- The number of offsets 0, 16, … below a size.
abbrev pub entry_count : ℕ → ℕ
entry_count size = (size + (dirent_size - 1)) / dirent_size

unfoldable pub dirlookup : Key → Chars → M (Option (Key × ℕ))
dirlookup k name = do
  ip ← load_inode k
  assert (ip.dinode.type == t_dir)
  lookup_loop k name (entry_count ip.dinode.size) 0

-- The offset of the first empty entry, or the first one past the end.
unfoldable pub empty_loop : Key → ℕ → ℕ → M ℕ
empty_loop k zero off = pure off
empty_loop k (suc rounds) off = do
  e ← read_entry k off
  let rest : M ℕ = empty_loop k rounds (off + dirent_size)
  if entry_inum e == 0 then pure off else rest

unfoldable pub link_entry : Key → Chars → ℕ → M Bool
link_entry k name inum = do
  ip ← load_inode k
  off ← empty_loop k (entry_count ip.dinode.size) 0
  n ← write k off (entry (u16 inum) name)
  pure (n == dirent_size)

-- `true` for 0 and `false` for -1.
unfoldable pub dirlink : Key → Chars → ℕ → M Bool
dirlink k name inum = do
  found ← dirlookup k name
  case_null found (link_entry k name inum) (λ (ip, off). do inode_put ip; pure false)
