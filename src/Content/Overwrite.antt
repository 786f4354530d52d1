-- ===== src/Content/Overwrite.antt =====
-- INode::write with its update of the inode, and a read of what was written.
use hitsz_ext.Base.{
  ℕ, ◌+◌, ◌-◌, ◌*◌, ◌/◌, ◌%◌, ◌^◌, ◌<◌, ◌≤◌, ◌≡◌, ◌≢◌, refl, Bool, false, some, List, ltb, length,
  ge→ltb, gt→leb, inl, inr, Bool-cases, arith, ap, ◌∙◌, sym, subst,
}
use hitsz_ext.Bytes.{Data, get32}
use hitsz_ext.Machine.{key, bsize, ndirect, max_file, DiskINode, INode, Sys, LogHeader, ok}
use hitsz_ext.INode.{inode_block}
use hitsz_ext.INode.Update.{load_inode_lem, update_run, with_dinode}
use hitsz_ext.Content.{splice, slice, readable_bytes, read, write_stored, write}
use hitsz_ext.Content.Splice.{splice_in, slice_stored}
use hitsz_ext.Content.Mapped.{block_at, file_data, IsPlaced}
use hitsz_ext.Content.Read.{read_run}
use hitsz_ext.Content.Store.{Storable}
use hitsz_ext.Content.Write.{Enough, write_loop_lem}
use hitsz_ext.Transaction.{changed, at, Tx, IsHome, HasRoom, content, logged}
use hitsz_ext.Transaction.Finish.{content-logged_ne}

-- The inode's place on the disk, which the file does not use.
pub record Updatable (busy : ℕ → Bool) (s : Sys) (i : ℕ) (d : DiskINode) : Type 0 where
  pub home : IsHome s.log (inode_block s.sb i)
  pub idle : busy (inode_block s.sb i) ≡ false
  pub apart : (n : ℕ) → n * bsize < d.size → block_at s d n ≢ inode_block s.sb i
  pub apart_indirect : ndirect * bsize < d.size → d.addrs ndirect ≢ inode_block s.sb i

-- A change of a block that is not the file's leaves the file as it was.
module _ {busy : ℕ → Bool} {s : Sys} {d : DiskINode} (w : Storable busy s d) (b : ℕ) (e : Data)
    (h : LogHeader) (apart : (n : ℕ) → n * bsize < d.size → block_at s d n ≢ b)
    (apart_indirect : ndirect * bsize < d.size → d.addrs ndirect ≢ b) where
  abbrev elsewhere : Sys
  elsewhere = logged s b e h

  block_at-elsewhere : (m : ℕ) → m * bsize < d.size → block_at elsewhere d m ≡ block_at s d m
  block_at-elsewhere m lt = elim (Bool-cases (ltb m ndirect)) [
    | inl direct ↦ rw direct refl
    | inr beyond ↦
        let far : ndirect * bsize < d.size = ground arith in
        rw beyond (
          ap (λ (x : Data). get32 x (4 * (m - ndirect)))
            (content-logged_ne s b e h (d.addrs ndirect) (apart_indirect far)))
  ]

  Storable-elsewhere : Storable busy elsewhere d
  Storable-elsewhere = record {
    mapped = record {
      fits = w.mapped.fits;
      indirect = w.mapped.indirect;
      block = λ m lt. subst (IsPlaced busy) (sym (block_at-elsewhere m lt)) (w.mapped.block m lt);
    };
    home = λ m lt.
        let old : IsHome s.log (block_at s d m) = w.home m lt in
        subst (IsHome elsewhere.log) (sym (block_at-elsewhere m lt))
          (record { small = old.small; apart = old.apart });
    distinct = λ m p lm lp q.
        w.distinct m p lm lp (sym (block_at-elsewhere m lm) ∙ q ∙ block_at-elsewhere p lp);
    not_indirect = λ m lt far q. w.not_indirect m lt far (sym (block_at-elsewhere m lt) ∙ q);
  }

  file_data-elsewhere : (j : ℕ) → j < d.size → file_data elsewhere d j ≡ file_data s d j
  file_data-elsewhere j lt =
      let l : j / bsize * bsize < d.size = omega arith in
      ap (λ c. content elsewhere c (j % bsize)) (block_at-elsewhere (j / bsize) l)
      ∙ ap (λ (x : Data). x (j % bsize))
          (content-logged_ne s b e h (block_at s d (j / bsize)) (apart (j / bsize) l))

-- What a write leaves: the inodes in memory as they were, and the bytes in the file.
pub record Written (busy : ℕ → Bool) (s : Sys) (i : ℕ) (d : DiskINode) (off : ℕ) (src : List ℕ)
    (t : Sys) : Type 0 where
  pub tx : Tx busy t
  pub storable : Storable busy t d
  pub inodes : t.inodes ≡ s.inodes
  pub dev : t.log.dev ≡ s.log.dev
  pub bytes : (j : ℕ) → j < d.size → file_data t d j ≡ splice (file_data s d) off src j
  pub others :
      (b : ℕ)
      → ((n : ℕ) → n * bsize < d.size → block_at s d n ≢ b)
      → b ≢ inode_block s.sb i
      → content t b ≡ content s b

write_starts :
    (s : Sys) (i : ℕ) (ip : INode)
    → s.inodes (at s i) ≡ some ip
    → ip.dinode.size ≤ max_file * bsize
    → (off : ℕ) (src : List ℕ) → off + length src ≤ ip.dinode.size
    → write (at s i) off src s ≡ write_stored (at s i) off src s
unfolding write
write_starts s i ip here fits off src inside = rw (load_inode_lem s (at s i) ip here) (
    rw (ge→ltb ip.dinode.size off (omega arith), gt→leb (2 ^ 63) (off + length src) (omega arith))
      (rw (ge→ltb (max_file * bsize) (off + length src) (omega arith)) refl))

pub all_readable : (size off n : ℕ) → size < 2 ^ 32 → off + n ≤ size → readable_bytes size off n ≡ n
unfolding readable_bytes
all_readable size off n small inside =
    rw
      (
        ge→ltb size off (omega arith),
        gt→leb (2 ^ 63) (off + n) (omega arith),
        ge→ltb size (off + n) inside,
      )
      refl

module _ {busy : ℕ → Bool} {s : Sys} (tx : Tx busy s) (i : ℕ) (ip : INode)
    (here : s.inodes (at s i) ≡ some ip) (w : Storable busy s ip.dinode)
    (p : Updatable busy s i ip.dinode) (off : ℕ) (src : List ℕ)
    (inside : off + length src ≤ ip.dinode.size) (r : ℕ) (room : HasRoom s.log (r + 1))
    (enough : Enough off (length src) r) where
  -- Inside a transaction, INode::write over bytes of a cached inode that lie in its file, whose
  -- blocks are all allocated, lie outside the log, and serve one place each and not the inode's block,
  -- with room in the log for the blocks written and the inode's, stores all of them: the file then
  -- holds the new bytes there and the old ones elsewhere, and no block but the file's and the inode's
  -- changes.
  pub write_lem :
      (t : Sys) × (write (at s i) off src s ≡ ok (length src) t)
      × Written busy s i ip.dinode off src t
  unfolding write_stored
  write_lem =
      let (m, g, ran, st) =
        write_loop_lem (length src) tx i ip here w off src r
          (record { fits = omega (arith, room.fits); room = omega (arith, room.room) })
          (omega arith) inside enough in
      let u : Sys = changed s m g in
      let b : ℕ = inode_block s.sb i in
      let (h, updated, tx', hi) =
        update_run st.tx i ip here (record { small = p.home.small; apart = p.home.apart }) p.idle
          (record {
            fits = omega (arith, room.fits, st.entries);
            room = omega (arith, room.room, st.entries);
          }) in
      let apart : (n : ℕ) → n * bsize < ip.dinode.size → block_at u ip.dinode n ≢ b =
        λ n lt q. p.apart n lt (sym (st.blocks n lt) ∙ q) in
      let e : Data = with_dinode u i ip.dinode in
      (
        logged u b e h,
        write_starts s i ip here w.mapped.fits off src inside
            ∙ rw ran (
                rw (load_inode_lem u (at s i) ip here)
                  (rw (ge→ltb ip.dinode.size (off + length src) inside) (rw updated refl))),
        record {
          tx = tx';
          storable = Storable-elsewhere st.storable b e h apart p.apart_indirect;
          inodes = refl;
          dev = refl;
          bytes = λ j lt.
              file_data-elsewhere st.storable b e h apart p.apart_indirect j lt ∙ st.bytes j lt;
          others = λ c away ne. content-logged_ne u b e h c ne ∙ st.others c away;
        },
      )

  -- Inside a transaction, INode::write over bytes of a cached inode that lie in its file, whose blocks
  -- are all allocated, lie outside the log, and serve one place each and not the inode's block, with
  -- room in the log for the blocks written and the inode's, stores all of them, and INode::read of as
  -- many bytes at the same offset then returns the bytes that were written.
  pub read-write_self :
      (t : Sys) × (write (at s i) off src s ≡ ok (length src) t)
      × (read (at s i) off (length src) t ≡ ok src t)
  read-write_self =
      let (t, done, wr) = write_lem in
      let still : t.inodes (at t i) ≡ some ip = (λ j. wr.inodes j (key (wr.dev j) i)) ∙ here in
      (
        t,
        done,
        ap (λ n. read (key n i) off (length src) t) (sym wr.dev)
            ∙ read_run wr.tx i ip still wr.storable.mapped off (length src)
            ∙ ap (λ n. ok (slice (file_data t ip.dinode) off n) t)
                (all_readable ip.dinode.size off (length src) (omega (arith, w.mapped.fits)) inside)
            ∙ ap (λ l. ok l t)
                (slice_stored (file_data t ip.dinode) off src (λ j lt.
                  wr.bytes (off + j) (omega arith)
                  ∙ splice_in (file_data s ip.dinode) off src j lt)),
      )
