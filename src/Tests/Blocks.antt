-- ===== src/Tests/Blocks.antt =====
-- The free map on the small file system.
use hitsz_ext.Base.{◌+◌, ◌/◌, ◌≡◌, refl, arith}
use hitsz_ext.Machine.{Map, Block, LogHeader, ok}
use hitsz_ext.Bitmap.{block_alloc, block_free}
use hitsz_ext.Bitmap.Bits.{bit_at}
use hitsz_ext.Bitmap.Free.{Freed, block_free_lem}
use hitsz_ext.Bitmap.Alloc.{Search, block_alloc_lem}
use hitsz_ext.Transaction.{changed, no_block, IsHome}
use hitsz_ext.Ops.Attr.{count_blocks}
use hitsz_ext.Ops.Attr.Statfs.{used_from, count_blocks_lem}
use hitsz_ext.Tests.State.{
  map_block, log0, sys0, sys0-Tx, sys0-FreeMap, room0, one_more0, five_used,
}

block_alloc_lem_example : Search sys0-Tx sys0-FreeMap room0 (block_alloc 1 sys0)
block_alloc_lem_example = block_alloc_lem sys0-Tx sys0-FreeMap room0

block_free_lem_example :
    (k : Map Block) × (h : LogHeader) × (block_free 1 5 sys0 ≡ ok tt (changed sys0 k h))
    × Freed no_block sys0 5 (changed sys0 k h)
block_free_lem_example = block_free_lem sys0-Tx sys0-FreeMap 5 (omega arith) five_used one_more0

eleven-IsHome : IsHome log0 11
eleven-IsHome = record { small = omega arith; apart = omega arith }

bit_ten : bit_at map_block 10 ≡ 0
unfolding bit_at
bit_ten = refl

bit_five : bit_at map_block 5 ≡ 1
unfolding bit_at
bit_five = refl

count_blocks_lem_example : count_blocks ((12 + 8191) / 8192) 0 sys0 ≡ ok (used_from sys0 0 12) sys0
count_blocks_lem_example = count_blocks_lem sys0-Tx sys0-FreeMap refl
