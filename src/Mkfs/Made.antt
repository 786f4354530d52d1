-- ===== src/Mkfs/Made.antt =====
-- The whole run of mkfs/mkfs.c, and what the file system finds in the image.
use hitsz_ext.Base.{
  ℕ, ◌+◌, ◌/◌, ◌<◌, ◌≤◌, ◌≡◌, List, arith, inl, inr, ◌∙◌, ap, ne→==, lt→ltb, length,
}
use hitsz_ext.Bytes.{Data, zeroes, get32}
use hitsz_ext.Machine.{SuperBlock, LogHeader}
use hitsz_ext.Log.{decode_hdr}
use hitsz_ext.Ops.Mount.{decode_super}
use hitsz_ext.Mkfs.{Maker, done, super_block, encode_super, Arg, balloc, mark_loop, make, wsect}
use hitsz_ext.Mkfs.Words.{xint_small, FitsSuper, decode_super-encode_super}
use hitsz_ext.Mkfs.Marks.{MarksBelow, mark_loop-MarksBelow}
use hitsz_ext.Mkfs.Table.{Table, max_inode, Placed, get32-zeroes}
use hitsz_ext.Mkfs.Slots.{Yields, Yields-and_then, dinode_of, with_store, wsect_lem}
use hitsz_ext.Mkfs.INodes.{IsImage}
use hitsz_ext.Mkfs.Table.{Placed-clear, Placed-with_block}
use hitsz_ext.Mkfs.Image.{
  opened, IsSomeImage, write_super_lem, make_root_lem, add_files_lem, round_size_lem,
}

abbrev pub layout : SuperBlock
layout = record {
  magic = 0x10203040;
  size = 1000;
  nblocks = 954;
  ninodes = 200;
  nlog = 30;
  logstart = 2;
  inodestart = 32;
  bmapstart = 45;
}

layout_lem : super_block ≡ layout
unfolding super_block
layout_lem = λ i. record {
  magic = 0x10203040;
  size = xint_small 1000 (omega arith) i;
  nblocks = xint_small 954 (omega arith) i;
  ninodes = xint_small 200 (omega arith) i;
  nlog = xint_small 30 (omega arith) i;
  logstart = xint_small 2 (omega arith) i;
  inodestart = xint_small 32 (omega arith) i;
  bmapstart = xint_small 45 (omega arith) i;
}

layout-FitsSuper : FitsSuper layout
layout-FitsSuper = record {
  magic = omega arith;
  size = omega arith;
  nblocks = omega arith;
  ninodes = omega arith;
  nlog = omega arith;
  logstart = omega arith;
  inodestart = omega arith;
  bmapstart = omega arith;
}

-- What the file system finds in the image: the super block; a log that is empty; a free map that has
-- the blocks in use, those below `used_block`, and no others; and inodes that refer only to data
-- blocks in use, in which no block is both data and an indirect block.
pub record IsMade (t : Maker) : Type 0 where
  pub blocks : t.blocks ≡ 1000
  pub super : decode_super (t.file 1) ≡ layout
  pub log_empty : (h : LogHeader) → (decode_hdr (t.file 2) h).n ≡ 0
  pub used : (46 ≤ t.used_block) × (t.used_block ≤ 1000)
  pub map : MarksBelow t.used_block (t.file 45)
  pub table : Placed t.file (λ i. (dinode_of t.file i).addrs) t.used_block

balloc_lem : (n : ℕ) (s : Maker) → IsImage n s → Yields (λ _ t. IsMade t) (balloc s.used_block s)
unfolding balloc decode_hdr
balloc_lem n s (d, st, le) =
    let u : ℕ = s.used_block in
    let x : Data = mark_loop u 0 zeroes in
    let t : Maker = with_store s 45 x in
    let b : Table = λ i. (dinode_of t.file i).addrs in
    let same : (i k : ℕ) → i < max_inode → k < 13 → b i k ≡ d i k =
      λ i k li lk. rw (ne→== (32 + i / 16) 45 (omega arith)) (st.stored i k li lk) in
    let p : Placed s.file b u = Placed-clear st.placed b (λ i k li lk. inl (same i k li lk)) in
    let run : wsect s.sb.bmapstart x s ≡ done tt t =
      ap (λ y. wsect y.bmapstart x s) (st.sb ∙ layout_lem)
      ∙ wsect_lem s 45 x st.blocks (omega arith) in
    rw (lt→ltb u 8192 (omega arith)) (
      rw (run, Yields)
        (record {
          blocks = st.blocks;
          super =
              ap decode_super st.super
              ∙ ap (λ y. decode_super (encode_super y zeroes)) layout_lem
              ∙ decode_super-encode_super layout zeroes layout-FitsSuper;
          log_empty = λ h. ap (λ y. get32 y 0) st.head ∙ get32-zeroes 0;
          used = (st.placed.low, le);
          map = mark_loop-MarksBelow u;
          table = Placed-with_block p 45 x (omega (arith, p.low)) (λ i li e. elim (p.pointer i li) [
            | inl null ↦ omega arith
            | inr (lo, hi) ↦ omega arith
          ]);
        }))

-- mkfs with at most 206 files, whatever their names and contents, exits or aborts, or returns: it
-- never runs out of the rounds of a loop. If it returns, the image has 1000 blocks, and the file system
-- finds in it: the super block with the layout; an empty log; a free map with the blocks in use, those
-- below `used_block`, and no others; and in the inodes and the indirect blocks only data blocks that
-- are in use, none of them both data and an indirect block.
pub make_lem :
    (args : List Arg) → 2 + length args ≤ max_inode → Yields (λ _ t. IsMade t) (make args opened)
unfolding make
make_lem args few =
    let (s, run, img) = write_super_lem in
    rw run (
      Yields-and_then (λ r t. (r ≡ 1) × IsImage 2 t) _ _ _ (make_root_lem s img)
        (λ r t (same, a). rw same (
          Yields-and_then (λ _ u. IsSomeImage u) _ _ _ (add_files_lem 2 args t few a)
            (λ _ u (n, b).
              Yields-and_then (λ _ v. IsImage n v) _ _ _ (round_size_lem n u b)
                (λ _ v c. balloc_lem n v c)))))
