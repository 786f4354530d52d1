-- ===== src/Machine/Constants.antt =====
-- The constants of inc/common.h. A `uint32_t` has 4 bytes, a DiskINode 64 and a DirEntry 16.
use hitsz_ext.Base.{ℕ}

abbrev pub bsize : ℕ
bsize = 1024

abbrev pub fssize : ℕ
fssize = 1000

abbrev pub max_op_blocks : ℕ
max_op_blocks = 10

-- LOG_SIZE: MAX_OP_BLOCKS * 3.
abbrev pub log_size : ℕ
log_size = 30

abbrev pub ndirect : ℕ
ndirect = 12

-- NINDIRECT: BSIZE / sizeof(uint32_t).
abbrev pub nindirect : ℕ
nindirect = 256

-- MAX_FILE: NDIRECT + NINDIRECT.
abbrev pub max_file : ℕ
max_file = 268

abbrev pub dirsiz : ℕ
dirsiz = 14

abbrev pub rootino : ℕ
rootino = 1

-- INODE_PER_BLOCK: BSIZE / sizeof(DiskINode).
abbrev pub inode_per_block : ℕ
inode_per_block = 16

abbrev pub ninodes : ℕ
ninodes = 200

abbrev pub fs_magic : ℕ
fs_magic = 0x10203040

-- BIT_PER_BLOCK: BSIZE * 8.
abbrev pub bit_per_block : ℕ
bit_per_block = 8192

abbrev pub rootdev : ℕ
rootdev = 1

abbrev pub ndev : ℕ
ndev = 10

abbrev pub pipesize : ℕ
pipesize = 512

abbrev pub nfile : ℕ
nfile = 100

-- sizeof(DirEntry).
abbrev pub dirent_size : ℕ
dirent_size = 16

-- sizeof(DiskINode).
abbrev pub dinode_size : ℕ
dinode_size = 64
