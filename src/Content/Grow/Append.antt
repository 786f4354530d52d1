-- ===== src/Content/Grow/Append.antt =====
-- INode::write on a file of direct blocks: over its bytes, past its end, and into new blocks.
use hitsz_ext.Base.{
  ℕ, ◌+◌, ◌*◌, ◌^◌, ◌<◌, ◌≤◌, ◌≡◌, refl, Bool, some, List, ltb, length, take, inl, inr, ◌⊎◌, ge→ltb,
  gt→leb, Bool-cases, arith, ap, ◌∙◌, sym,
}
use hitsz_ext.Bytes.{Data}
use hitsz_ext.Machine.{key, bsize, ndirect, max_file, put_self, INode, Sys, ok}
use hitsz_ext.Bitmap.Map.{FreeMap}
use hitsz_ext.Content.{slice, read, write_stored, write}
use hitsz_ext.Content.Mapped.{file_data}
use hitsz_ext.Content.Owned.{used-cached, used-store, Owned-cached}
use hitsz_ext.Content.Splice.{length-take, splice_in, slice_stored}
use hitsz_ext.Content.Read.{read_run}
use hitsz_ext.Content.Overwrite.{all_readable}
use hitsz_ext.Content.Write.{Enough}
use hitsz_ext.Content.Grow.{DirectFile-Storable, Full, DirectFile}
use hitsz_ext.Content.Grow.Loop.{write_loop_grow}
use hitsz_ext.INode.{inode_block}
use hitsz_ext.INode.Update.{load_inode_lem, with_dinode}
use hitsz_ext.INodeCache.{with_inode}
use hitsz_ext.Transaction.{at, Tx, HasRoom, logged}
use hitsz_ext.Content.Grow.Finish.{with_size, grown_size, Lengthened, finish_write, write_ends}

write_starts :
    (s : Sys) (i : ℕ) (ip : INode)
    → s.inodes (at s i) ≡ some ip
    → (off : ℕ) (src : List ℕ) → off ≤ ip.dinode.size
    → off + length src ≤ ndirect * bsize
    → write (at s i) off src s ≡ write_stored (at s i) off src s
unfolding write
write_starts s i ip here off src start inside = rw (load_inode_lem s (at s i) ip here) (
    rw (ge→ltb ip.dinode.size off start, gt→leb (2 ^ 63) (off + length src) (omega arith))
      (rw (ge→ltb (max_file * bsize) (off + length src) (omega arith)) refl))

module _ {busy : ℕ → Bool} {s : Sys} (tx : Tx busy s) (m : FreeMap busy s) (i : ℕ) (ip : INode)
    (here : s.inodes (at s i) ≡ some ip) (n : ℕ) (g : DirectFile busy s i ip.dinode n)
    (held : ip.dinode.size ≤ n * bsize) (off : ℕ) (src : List ℕ) (start : off ≤ ip.dinode.size)
    (inside : off + length src ≤ ndirect * bsize) (r : ℕ) (room : HasRoom s.log (3 * r + 1))
    (enough : Enough off (length src) r) where
  -- Inside a transaction, with a sound free map: INode::write at an offset inside or just after a
  -- cached file, ending in its direct blocks, whose allocated blocks are in use for one place each, apart
  -- from the inode's block, the free map and the log, with room in the log for three entries for each
  -- block reached and one more. It stores all the bytes, or stops early with every block of the disk
  -- in use, and returns how many it stored. The file, longer by what lies past its old end, then holds
  -- these bytes there and the old ones elsewhere; the inode is updated in memory and on the disk; no
  -- block in use for something else changes; and the file's blocks and the free map are sound again.
  pub write_grows :
      (tot : ℕ) × (ip' : INode) × (n' : ℕ) × (t : Sys) × (write (at s i) off src s ≡ ok tot t)
      × ((tot ≡ length src) ⊎ ((tot < length src) × Full t))
      × Lengthened busy s i ip n off (take tot src) ip' n' t
  write_grows =
      let (tot, ip', n', u, ran, le, f, all) =
        write_loop_grow busy i (length src) s tx m ip here n g off src r
          (record { fits = omega (arith, room.fits); room = omega (arith, room.room) })
          (omega arith) (omega (arith, held)) inside enough in
      let len : length (take tot src) ≡ tot = omega (arith, length-take tot src) in
      let log_size : u.log.size ≡ s.log.size = ap (λ l. l.size) f.log in
      let size : ℕ = grown_size ip.dinode.size (off + tot) in
      let (h, done, tx') =
        write_ends i ip ip' n n' off tot (3 * r) src ran f (omega (arith, le)) (record {
          fits = omega (arith, room.fits, f.entries);
          room = omega (arith, room.room, f.entries, log_size);
        }) in
      let ip'' : INode = with_size size ip' in
      let w : Sys = with_inode u (at s i) (some ip'') in
      let b : ℕ = inode_block u.sb i in
      let e : Data = with_dinode w i ip''.dinode in
      (
        tot,
        ip'',
        n',
        logged w b e h,
        write_starts s i ip here off src start inside ∙ done,
        elim (Bool-cases (ltb tot (length src))) [
          | inl short ↦ elim all [
            | inl done ↦ inl done
            | inr full ↦ inr (
              ground arith,
              λ x lx.
                  used-store b (Owned-cached (at s i) ip'' b f.file.inode) e h x lx
                  ∙ used-cached u (at s i) ip'' x
                  ∙ full x lx,
            )
          ]
          | inr whole ↦ inl (ground arith)
        ],
        finish_write i ip ip' n n' off (3 * r) size (take tot src) g f held
            (ap (λ x. grown_size ip.dinode.size (off + x)) (sym len)) h tx',
      )

  -- Inside a transaction, with a sound free map: INode::write at an offset inside or just after a
  -- cached file, ending in its direct blocks, whose allocated blocks are in use for one place each, apart
  -- from the inode's block, the free map and the log, with room in the log for three entries for each
  -- block reached and one more, stores all the bytes or stops early with every block of the disk in
  -- use; INode::read at the same offset, for as many bytes as it stored, then returns those bytes.
  pub read-write_grows :
      (tot : ℕ) × (t : Sys) × (write (at s i) off src s ≡ ok tot t)
      × ((tot ≡ length src) ⊎ ((tot < length src) × Full t))
      × (read (at s i) off tot t ≡ ok (take tot src) t)
  read-write_grows =
      let (tot, ip', n', t, ran, all, l) = write_grows in
      let len : length (take tot src) ≡ tot = omega (arith, length-take tot src, all) in
      let same_key : at t i ≡ at s i = ap (λ x. key x.dev i) l.log in
      let cached : t.inodes (at t i) ≡ some ip' =
        ap t.inodes same_key ∙ (λ j. l.inodes j (at s i)) ∙ put_self s.inodes (at s i) (some ip') in
      let room_for : off + tot ≤ ip'.dinode.size = ground (arith, l.size, len) in
      let small : ip'.dinode.size < 2 ^ 32 = omega (arith, l.held, l.file.direct) in
      (
        tot,
        t,
        ran,
        all,
        ap (λ k. read k off tot t) (sym same_key)
            ∙ read_run l.tx i ip' cached (DirectFile-Storable l.file ip'.dinode.size l.held).mapped
                off tot
            ∙ ap (λ n. ok (slice (file_data t ip'.dinode) off n) t)
                (all_readable ip'.dinode.size off tot small room_for ∙ sym len)
            ∙ ap (λ c. ok c t)
                (slice_stored (file_data t ip'.dinode) off (take tot src) (λ j lt.
                  l.bytes (off + j) (omega (arith, len, room_for))
                  ∙ splice_in (file_data s ip.dinode) off (take tot src) j lt)),
      )
