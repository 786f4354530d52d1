-- ===== src/Content/Mapped.antt =====
-- A file whose blocks are all allocated, as one sequence of bytes, and block_map on it.
use hitsz_ext.Base.{
  ℕ, ◌-◌, ◌*◌, ◌/◌, ◌%◌, ◌^◌, ◌<◌, ◌≤◌, ◌≡◌, refl, Bool, false, some, ltb, if◌then◌else◌, lt→ltb,
  ne→==, inl, inr, Bool-cases, arith,
}
use hitsz_ext.Bytes.{Data, get32}
use hitsz_ext.Machine.{bsize, ndirect, nindirect, max_file, DiskINode, INode, Sys, ok}
use hitsz_ext.INode.Update.{load_inode_lem}
use hitsz_ext.Content.{slot_block, indirect_block, block_map}
use hitsz_ext.Transaction.{at, Tx, content}
use hitsz_ext.Transaction.Hold.{tx_read, tx_release, load-hold}

-- The block of the disk that holds the block `n` of a file.
abbrev pub block_at : Sys → DiskINode → ℕ → ℕ
block_at s d n =
    if ltb n ndirect then d.addrs n else get32 (content s (d.addrs ndirect)) (4 * (n - ndirect))

-- The bytes of a file.
abbrev pub file_data : Sys → DiskINode → Data
file_data s d i = content s (block_at s d (i / bsize)) (i % bsize)

-- A block that a file may have: not 0, and not one that the code holds.
pub record IsPlaced (busy : ℕ → Bool) (b : ℕ) : Type 0 where
  pub pos : 0 < b
  pub small : b < 2 ^ 22
  pub idle : busy b ≡ false

-- Every block of the file that holds a byte is allocated, and the indirect block where one is needed.
pub record Mapped (busy : ℕ → Bool) (s : Sys) (d : DiskINode) : Type 0 where
  pub fits : d.size ≤ max_file * bsize
  pub indirect : ndirect * bsize < d.size → IsPlaced busy (d.addrs ndirect)
  pub block : (n : ℕ) → n * bsize < d.size → IsPlaced busy (block_at s d n)

module _ {busy : ℕ → Bool} {s : Sys} (tx : Tx busy s) (i : ℕ) (ip : INode)
    (here : s.inodes (at s i) ≡ some ip) where
  pub slot_block_lem :
      (n : ℕ) → 0 < ip.dinode.addrs n → slot_block (at s i) n s ≡ ok (ip.dinode.addrs n) s
  unfolding slot_block
  slot_block_lem n pos =
      rw (load_inode_lem s (at s i) ip here) (rw (ne→== (ip.dinode.addrs n) 0 (omega arith)) refl)

  indirect_block_lem :
      (b j : ℕ)
      → IsPlaced busy b
      → 0 < get32 (content s b) (4 * j)
      → indirect_block (at s i) b j s ≡ ok (get32 (content s b) (4 * j)) s
  unfolding indirect_block
  indirect_block_lem b j p pos = rw (tx_read tx b p.idle p.small) (
      rw (load-hold s b (content s b)) (
        rw (ne→== (get32 (content s b) (4 * j)) 0 (omega arith))
          (rw (tx_release tx b p.idle) refl)))

  -- block_map finds an allocated block, and changes nothing.
  pub block_map_lem :
      Mapped busy s ip.dinode
      → (n : ℕ) → n * bsize < ip.dinode.size
      → block_map (at s i) n s ≡ ok (block_at s ip.dinode n) s
  unfolding block_map
  block_map_lem m n lt =
      let placed : IsPlaced busy (block_at s ip.dinode n) = m.block n lt in
      elim (Bool-cases (ltb n ndirect)) [
        | inl direct ↦ rw direct (slot_block_lem n (rw direct at placed.pos))
        | inr beyond ↦
            let ind : IsPlaced busy (ip.dinode.addrs ndirect) = m.indirect (ground arith) in
            rw beyond (
              rw (lt→ltb (n - ndirect) nindirect (omega (arith, m.fits))) (
                rw (slot_block_lem ndirect ind.pos) (
                  rw (ne→== (ip.dinode.addrs ndirect) 0 (omega (arith, ind.pos))) (
                    indirect_block_lem (ip.dinode.addrs ndirect) (n - ndirect) ind
                      (rw beyond at placed.pos)))))
      ]
