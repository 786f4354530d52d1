-- ===== src/Ops/Mount.antt =====
-- SuperBlock::init of src/SuperBlock.cxx and op_init of src/op_init.cxx.
use hitsz_ext.Base.{ℕ, ◌==◌}
use hitsz_ext.Bytes.{Data, get32}
use hitsz_ext.Machine.{rootdev, fs_magic, SuperBlock, ok, M, ◌>>=◌, ◌>>◌, assert}
use hitsz_ext.BlockCache.{load, block_read, block_release}
use hitsz_ext.Log
use hitsz_ext.File.{console_init}

unfoldable pub decode_super : Data → SuperBlock
decode_super d = record {
  magic = get32 d 0;
  size = get32 d 4;
  nblocks = get32 d 8;
  ninodes = get32 d 12;
  nlog = get32 d 16;
  logstart = get32 d 20;
  inodestart = get32 d 24;
  bmapstart = get32 d 28;
}

unfoldable pub super_init : ℕ → M (Unit {0})
super_init dev = do
  k ← block_read dev 1
  b ← load k
  λ s. ok tt (record s { sb = decode_super b.bytes })
  block_release k
  assert ((decode_super b.bytes).magic == fs_magic)
  Log.init dev

-- The log is initialised twice.
unfoldable pub op_init : M (Unit {0})
op_init = do super_init rootdev; console_init; Log.init rootdev
