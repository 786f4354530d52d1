-- ===== src/Mkfs.antt =====
-- mkfs/mkfs.c, the program that writes the first image. The host is little-endian, like the target,
-- and its calls of lseek and write succeed.
mod State
mod Layout
pub mod Words
pub mod Marks
pub mod Table
pub mod Slots
pub mod Append
pub mod INodes
pub mod Image
pub mod Made
pub mod Mounted
unfoldable pub use State.*
unfoldable pub use Layout.*
use hitsz_ext.Base.{
  ℕ, zero, suc, ◌+◌, ◌-◌, ◌*◌, ◌/◌, ◌%◌, min, Bool, true, false, not, ◌&&◌, Option, none, some,
  List, [], ◌∷◌, ◌==◌, ltb, if◌then◌else◌, length, take, drop, u16, u32, inc32,
}
use hitsz_ext.Bytes.{Data, zeroes, get16, get32, put8, put32, put_words}
use hitsz_ext.Machine.{
  bsize, fssize, log_size, ndirect, max_file, rootino, inode_per_block, ninodes, fs_magic,
  bit_per_block, dinode_size, SuperBlock, DiskINode, t_dir, t_file,
}
use hitsz_ext.Bitmap.Bits.{set_bit}
use hitsz_ext.INode.Codec.{decode_dinode, encode_dinode}
use hitsz_ext.Content.{splice}
use hitsz_ext.Dir.{Chars, entry}

-- The macro IBLOCK, and the place of an inode in its block.
abbrev pub iblock : ℕ → SuperBlock → ℕ
iblock inum sb = u32 (inum / inode_per_block + sb.inodestart)

abbrev pub ioffset : ℕ → ℕ
ioffset inum = dinode_size * (inum % inode_per_block)

unfoldable pub winode : ℕ → DiskINode → Make (Unit {0})
winode inum ip = do
  sb ← gets (λ s. s.sb)
  buf ← rsect (iblock inum sb)
  wsect (iblock inum sb) (encode_dinode ip buf (ioffset inum))

unfoldable pub rinode : ℕ → Make DiskINode
rinode inum = do
  sb ← gets (λ s. s.sb)
  buf ← rsect (iblock inum sb)
  pure (decode_dinode buf (ioffset inum))

-- `used_block++` and `freeinode++`.
unfoldable pub next_block : Make ℕ
next_block s = done s.used_block (record s { used_block = inc32 s.used_block })

unfoldable pub next_inode : Make ℕ
next_inode s = done s.freeinode (record s { freeinode = inc32 s.freeinode })

abbrev pub fresh_dinode : ℕ → DiskINode
fresh_dinode type = record {
  type = xshort type;
  major = 0;
  minor = 0;
  nlink = xshort 1;
  size = xint 0;
  addrs = λ _. 0;
}

unfoldable pub ialloc : ℕ → Make ℕ
ialloc type = do inum ← next_inode; winode inum (fresh_dinode type); pure inum

-- The loop of balloc, with `k` bits left from `i` on.
unfoldable pub mark_loop : ℕ → ℕ → Data → Data
mark_loop zero i buf = buf
mark_loop (suc k) i buf = mark_loop k (i + 1) (set_bit buf i)

unfoldable pub balloc : ℕ → Make (Unit {0})
balloc used = do
  assert (ltb used (bsize * 8))
  sb ← gets (λ s. s.sb)
  wsect sb.bmapstart (mark_loop used 0 zeroes)

abbrev pub with_addr : DiskINode → ℕ → ℕ → DiskINode
with_addr din i b = record din { addrs = λ j. if j == i then b else din.addrs j }

-- `if (xint(din.addrs[i]) == 0) din.addrs[i] = xint(used_block++);`
unfoldable pub fill_slot : DiskINode → ℕ → Make DiskINode
fill_slot din i =
    if xint (din.addrs i) == 0
    then (do b ← next_block; pure (with_addr din i (xint b)))
    else pure din

-- The word `j` of the indirect block, which is taken from the free blocks if it is 0.
unfoldable pub fill_entry : ℕ → ℕ → Make ℕ
fill_entry ind j = do
  indirect ← rsect ind
  if get32 indirect (4 * j) == 0
      then (do b ← next_block; wsect ind (put32 indirect (4 * j) (xint b)); pure (xint (xint b)))
      else pure (xint (get32 indirect (4 * j)))

-- `x`, the block that holds the block `fbn` of the file.
unfoldable pub file_block : DiskINode → ℕ → Make (DiskINode × ℕ)
file_block din fbn =
    if ltb fbn ndirect then (do din ← fill_slot din fbn; pure (din, xint (din.addrs fbn))) else (do
      din ← fill_slot din ndirect
      x ← fill_entry (xint (din.addrs ndirect)) (fbn - ndirect)
      pure (din, x))

-- `n1`.
abbrev pub part : ℕ → ℕ → ℕ
part off n = min n ((off / bsize + 1) * bsize - off)

-- One round of the loop of iappend: the inode, with the bytes of one block stored.
unfoldable pub append_part : DiskINode → ℕ → List ℕ → Make DiskINode
append_part din off p = do
  assert (ltb (off / bsize) max_file)
  (din, x) ← file_block din (off / bsize)
  buf ← rsect x
  wsect x (splice buf (off - off / bsize * bsize) (take (part off (length p)) p))
  pure din

-- Each round takes a byte of `p` at least, so that its length is enough rounds.
unfoldable pub append_loop : ℕ → DiskINode → ℕ → List ℕ → Make (DiskINode × ℕ)
append_loop fuel din off [] = pure (din, off)
append_loop zero din off (c ∷ p) = λ s. stopped unfinished
append_loop (suc fuel) din off (c ∷ p) = do
  din ← append_part din off (c ∷ p)
  append_loop fuel din (u32 (off + part off (length (c ∷ p))))
      (drop (part off (length (c ∷ p))) (c ∷ p))

unfoldable pub iappend : ℕ → List ℕ → Make (Unit {0})
iappend inum p = do
  din ← rinode inum
  (din, off) ← append_loop (length p) din (xint din.size) p
  winode inum (record din { size = xint off })

-- A file on the command line: its name, and what the calls of `read` return until the end of the
-- file, or none if it cannot be opened.
pub record Arg : Type 0 where
  pub name : Chars
  pub reads : Option (List (List ℕ))

-- `if (fd < 0) … else …`.
abbrev case_open : {A B : Type 0} → Option A → B → (A → B) → B
case_open none n f = n
case_open (some a) n f = f a

-- `strncmp(argv[i], "user/", 5) == 0`, and the name without that prefix.
abbrev user_prefix : Chars
user_prefix = b'u' ∷ b's' ∷ b'e' ∷ b'r' ∷ b'/' ∷ []

unfoldable pub starts_with : Chars → Chars → Bool
starts_with [] name = true
starts_with (c ∷ p) [] = false
starts_with (c ∷ p) (d ∷ name) = let rest = starts_with p name in if c == d then rest else false

unfoldable pub strip_user : Chars → Chars
strip_user name = if starts_with user_prefix name then drop 5 name else name

-- `index(shortname, '/') != 0`.
unfoldable pub has_slash : Chars → Bool
has_slash [] = false
has_slash (c ∷ name) = if c == b'/' then true else has_slash name

-- The name without a leading `_`.
unfoldable pub strip_underscore : Chars → Chars
strip_underscore [] = []
strip_underscore (c ∷ name) = if c == b'_' then name else c ∷ name

-- `sb` and `used_block` are set, all blocks cleared, and the super block is written.
unfoldable pub clear_loop : ℕ → ℕ → Make (Unit {0})
clear_loop zero i = pure tt
clear_loop (suc k) i = do wsect i zeroes; clear_loop k (i + 1)

unfoldable pub set_globals : Make (Unit {0})
set_globals s = done tt (record s { sb = super_block; used_block = nmeta })

unfoldable pub write_super : Make (Unit {0})
write_super = do
  set_globals
  clear_loop fssize 0
  sb ← gets (λ s. s.sb)
  wsect 1 (encode_super sb zeroes)

-- The root directory, with "." and "..".
unfoldable pub make_root : Make ℕ
make_root = do
  root ← ialloc t_dir
  assert (root == rootino)
  iappend root (entry (xshort (u16 root)) (b'.' ∷ []))
  iappend root (entry (xshort (u16 root)) (b'.' ∷ b'.' ∷ []))
  din ← rinode root
  winode root din
  pure root

-- `while ((cc = read(fd, buf, sizeof(buf))) > 0) iappend(inum, buf, cc);`
unfoldable pub copy_loop : ℕ → List (List ℕ) → Make (Unit {0})
copy_loop inum [] = pure tt
copy_loop inum ([] ∷ reads) = pure tt
copy_loop inum ((c ∷ p) ∷ reads) = do iappend inum (c ∷ p); copy_loop inum reads

unfoldable pub add_file : ℕ → Arg → Make (Unit {0})
add_file root a = do
  assert (not (has_slash (strip_user a.name)))
  case_open a.reads (λ s. stopped exited)
      (λ reads. do
        inum ← ialloc t_file
        iappend root (entry (xshort (u16 inum)) (strip_underscore (strip_user a.name)))
        copy_loop inum reads)

unfoldable pub add_files : ℕ → List Arg → Make (Unit {0})
add_files root [] = pure tt
add_files root (a ∷ args) = do add_file root a; add_files root args

-- "fix size of root inode dir".
unfoldable pub round_size : ℕ → Make (Unit {0})
round_size root = do
  din ← rinode root
  winode root (record din { size = xint (u32 ((xint din.size / bsize + 1) * bsize)) })

-- `main`, with the files after the image on the command line.
unfoldable pub make : List Arg → Make (Unit {0})
make args = do
  write_super
  root ← make_root
  add_files root args
  round_size root
  used ← gets (λ s. s.used_block)
  balloc used
