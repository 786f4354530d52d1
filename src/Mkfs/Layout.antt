-- ===== src/Mkfs/Layout.antt =====
-- The byte order and the super block of mkfs/mkfs.c.
use hitsz_ext.Base.{ℕ, ◌+◌, ◌-◌, ◌*◌, ◌/◌, ◌==◌, if◌then◌else◌}
use hitsz_ext.Bytes.{Data, zeroes, get16, get32, put8, put_words}
use hitsz_ext.Machine.{bsize, fssize, log_size, inode_per_block, ninodes, fs_magic, SuperBlock}

-- `y` is filled byte by byte, and then read as a number of the host.
unfoldable pub xshort : ℕ → ℕ
xshort x = get16 (put8 (put8 zeroes 0 x) 1 (x / 256)) 0

unfoldable pub xint : ℕ → ℕ
xint x = get32 (put8 (put8 (put8 (put8 zeroes 0 x) 1 (x / 256)) 2 (x / 65536)) 3 (x / 16777216)) 0

abbrev pub nbitmap : ℕ
nbitmap = fssize / (bsize * 8) + 1

abbrev pub ninodeblocks : ℕ
ninodeblocks = ninodes / inode_per_block + 1

abbrev pub nlog : ℕ
nlog = log_size

abbrev pub nmeta : ℕ
nmeta = 1 + 1 + nlog + ninodeblocks + nbitmap

unfoldable pub super_block : SuperBlock
super_block = record {
  magic = fs_magic;
  size = xint fssize;
  nblocks = xint (fssize - nmeta);
  ninodes = xint ninodes;
  nlog = xint nlog;
  logstart = xint 2;
  inodestart = xint (2 + nlog);
  bmapstart = xint (2 + nlog + ninodeblocks);
}

-- struct superblock, as its 8 words, and `memmove(buf, &sb, sizeof(sb))`.
unfoldable pub super_word : SuperBlock → ℕ → ℕ
super_word sb i =
    if i == 0
    then sb.magic
    else if i == 1
    then sb.size
    else if i == 2
    then sb.nblocks
    else if i == 3
    then sb.ninodes
    else if i == 4
    then sb.nlog
    else if i == 5
    then sb.logstart
    else if i == 6
    then sb.inodestart
    else sb.bmapstart

unfoldable pub encode_super : SuperBlock → Data → Data
encode_super sb d = put_words 8 d 0 (super_word sb)
