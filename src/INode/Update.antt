-- ===== src/INode/Update.antt =====
-- INode::update inside a transaction.
use hitsz_ext.Base.{
  ℕ, ◌+◌, ◌*◌, ◌%◌, ◌^◌, ◌<◌, ◌≤◌, ◌≡◌, ◌≢◌, inl, inr, Bool, false, some, Bool-cases, ==→eq, ◌==◌,
  u32, arith, ap, ◌∙◌, sym,
}
use hitsz_ext.Bytes.{Data}
use hitsz_ext.Machine.{Key, SuperBlock, DiskINode, INode, Sys, LogHeader, ok, inode_per_block}
use hitsz_ext.INode.{inode_block, inode_offset, load_inode, update}
use hitsz_ext.INode.Codec.{decode_dinode, encode_dinode}
use hitsz_ext.INode.Codec.Laws.{Fits, SameINode, decode-encode, decode-encode_ne}
use hitsz_ext.Transaction.{at, Tx, IsHome, HasRoom, content, hold, logged}
use hitsz_ext.Transaction.Hold.{tx_read, load-hold, store-hold}
use hitsz_ext.Transaction.Finish.{tx_finish, content-logged_self, content-logged_ne}

-- The inode with a number, as the file system sees it on the disk.
unfoldable pub disk_inode : Sys → ℕ → DiskINode
disk_inode s i = decode_dinode (content s (inode_block s.sb i)) (inode_offset i)

pub load_inode_lem :
    (s : Sys) (k : Key) (ip : INode) → s.inodes k ≡ some ip → load_inode k s ≡ ok ip s
unfolding load_inode
load_inode_lem s k ip e = rw (e, load_inode)

-- Two numbers with one block and one slot are one.
slot_injective :
    (sb : SuperBlock) (i j : ℕ)
    → sb.inodestart < 2 ^ 22
    → i < 2 ^ 32
    → j < 2 ^ 32
    → inode_block sb i ≡ inode_block sb j
    → i % inode_per_block ≡ j % inode_per_block
    → i ≡ j
unfolding u32
slot_injective sb i j h p q e f = omega arith

-- A change of one slot of the block of an inode is none of another inode.
pub disk_inode_ne :
    (s : Sys) (i : ℕ) (e : Data) (h : LogHeader)
    → s.sb.inodestart < 2 ^ 22
    → i < 2 ^ 32
    → ((q : ℕ)
        → i % inode_per_block ≢ q
        → decode_dinode e (64 * q) ≡ decode_dinode (content s (inode_block s.sb i)) (64 * q))
    → (j : ℕ) → j < 2 ^ 32
    → j ≢ i
    → disk_inode (logged s (inode_block s.sb i) e h) j ≡ disk_inode s j
unfolding disk_inode
disk_inode_ne s i e h start small slots j lj ne =
    let b : ℕ = inode_block s.sb i in
    elim (Bool-cases (inode_block s.sb j == b)) [
      | inl same ↦
          let q : inode_block s.sb j ≡ b = ==→eq _ _ same in
          ap (λ k. decode_dinode (content (logged s b e h) k) (inode_offset j)) q
          ∙ ap (λ d. decode_dinode d (inode_offset j)) (content-logged_self s b e h)
          ∙ slots (j % inode_per_block) (λ r. ne (slot_injective s.sb j i start lj small q (sym r)))
          ∙ ap (λ k. decode_dinode (content s k) (inode_offset j)) (sym q)
      | inr apart ↦
          ap (λ d. decode_dinode d (inode_offset j))
            (content-logged_ne s b e h (inode_block s.sb j) (ground arith))
    ]

-- The block of an inode with the inode stored in it.
abbrev pub with_dinode : Sys → ℕ → DiskINode → Data
with_dinode s i d = encode_dinode d (content s (inode_block s.sb i)) (inode_offset i)

-- update makes one change, of the block of the inode.
pub update_run :
    {busy : ℕ → Bool} {s : Sys} (tx : Tx busy s)
    → (i : ℕ) (ip : INode) → s.inodes (at s i) ≡ some ip
    → IsHome s.log (inode_block s.sb i)
    → busy (inode_block s.sb i) ≡ false
    → HasRoom s.log 1
    → (h : LogHeader) × (update (at s i) s
        ≡ ok tt (logged s (inode_block s.sb i) (with_dinode s i ip.dinode) h))
      × Tx busy (logged s (inode_block s.sb i) (with_dinode s i ip.dinode) h)
      × (h.n ≤ s.log.hdr.n + 1)
unfolding update
update_run {s} tx i ip here home idle room =
    let b : ℕ = inode_block s.sb i in
    let e : Data = with_dinode s i ip.dinode in
    let (h, done, tx', lo, hi) = tx_finish tx b home e idle room in
    (
      h,
      rw (tx_read tx b idle home.small) (
          rw (load-hold s b (content s b)) (
            rw (load_inode_lem (hold s b (content s b)) (at s i) ip here)
              (rw (store-hold s b (content s b) e) done))),
      tx',
      hi,
    )

-- Inside a transaction, with room for one block in the log, update of a cached inode whose fields
-- fit their types stores it over the inode on the disk: every field is read back, no other inode
-- and no other block changes, and the state is that of a transaction with at most one entry more.
pub update_lem :
    {busy : ℕ → Bool} {s : Sys}
    → Tx busy s
    → (i : ℕ) (ip : INode) → s.inodes (at s i) ≡ some ip
    → Fits ip.dinode
    → i < 2 ^ 32
    → s.sb.inodestart < 2 ^ 22
    → IsHome s.log (inode_block s.sb i)
    → busy (inode_block s.sb i) ≡ false
    → HasRoom s.log 1
    → (t : Sys) × (update (at s i) s ≡ ok tt t)
      × Tx busy t
      × SameINode (disk_inode t i) ip.dinode
      × ((j : ℕ) → j < 2 ^ 32 → j ≢ i → disk_inode t j ≡ disk_inode s j)
      × ((c : ℕ) → c ≢ inode_block s.sb i → content t c ≡ content s c)
      × (t.log.hdr.n ≤ s.log.hdr.n + 1)
unfolding disk_inode
update_lem {s} tx i ip here fits small start home idle room =
    let b : ℕ = inode_block s.sb i in
    let e : Data = with_dinode s i ip.dinode in
    let (h, done, tx', hi) = update_run tx i ip here home idle room in
    let t : Sys = logged s b e h in
    (
      t,
      done,
      tx',
      rw (content-logged_self s b e h)
          (decode-encode ip.dinode (content s b) (inode_offset i) fits),
      disk_inode_ne s i e h start small
          (decode-encode_ne ip.dinode (content s b) (i % inode_per_block)),
      λ c ne. content-logged_ne s b e h c ne,
      hi,
    )
