-- ===== src/Content/Grow/Finish.antt =====
-- The end of INode::write: the new size of the file, and the update of the inode.
use hitsz_ext.Base.{
  ℕ, ◌+◌, ◌*◌, ◌/◌, ◌%◌, ◌^◌, ◌<◌, ◌≤◌, ◌≡◌, ◌≢◌, refl, Bool, some, List, ltb, length, take, inl,
  inr, ◌⊎◌, if◌then◌else◌, u32, u32_small, Bool-cases, arith, ap, ◌∙◌, sym,
}
use hitsz_ext.Bytes.{Data}
use hitsz_ext.Machine.{
  Key, key, bsize, ndirect, put, put_self, put-put, put_same, INode, Sys, LogHeader, ok, pure,
}
use hitsz_ext.Bitmap.Map.{FreeMap}
use hitsz_ext.Content.{splice, write_loop, write_stored}
use hitsz_ext.Content.Mapped.{file_data}
use hitsz_ext.Content.Owned.{
  Owned, content-cached, FreeMap-store, Owned-store, Tx-cached, FreeMap-cached, Owned-cached,
}
use hitsz_ext.Content.Grow.{DirectFile, Grown, file_data-direct, with_hdr}
use hitsz_ext.INode.{inode_block, inode_offset, set_dinode, store_inode, update}
use hitsz_ext.INode.Codec.{encode_dinode}
use hitsz_ext.INode.Update.{load_inode_lem, update_run, with_dinode}
use hitsz_ext.INodeCache.{with_inode}
use hitsz_ext.Transaction.{at, Tx, HasRoom, content, logged}
use hitsz_ext.Transaction.Finish.{content-logged_self, content-logged_ne}

abbrev pub with_size : ℕ → INode → INode
with_size size ip = record ip { dinode = record ip.dinode { size = size } }

-- The size of a file of `size` bytes after a store up to `end`.
abbrev pub grown_size : ℕ → ℕ → ℕ
grown_size size end = if ltb size end then end else size

-- What INode::write leaves after it stored `cs` at `off`: `ip` has become `ip'`, in memory and on the
-- disk, and the file has `n'` blocks. The last field is about blocks in use for something else.
pub record Lengthened (busy : ℕ → Bool) (s : Sys) (i : ℕ) (ip : INode) (n off : ℕ) (cs : List ℕ)
    (ip' : INode) (n' : ℕ) (t : Sys) : Type 0 where
  pub tx : Tx busy t
  pub map : FreeMap busy t
  pub file : DirectFile busy t i ip'.dinode n'
  pub inodes : t.inodes ≡ put s.inodes (at s i) (some ip')
  pub log : t.log ≡ with_hdr t.log.hdr s.log
  pub sb : t.sb ≡ s.sb
  pub kept :
      ip'
      ≡ record ip { dinode = record ip.dinode { addrs = ip'.dinode.addrs; size = ip'.dinode.size } }
  pub size : ip'.dinode.size ≡ grown_size ip.dinode.size (off + length cs)
  pub held : ip'.dinode.size ≤ n' * bsize
  pub bytes :
      (j : ℕ)
      → j < ip'.dinode.size
      → file_data t ip'.dinode j ≡ splice (file_data s ip.dinode) off cs j
  pub stored :
      content t (inode_block s.sb i)
      ≡ encode_dinode ip'.dinode (content s (inode_block s.sb i)) (inode_offset i)
  pub others :
      (c : ℕ)
      → Owned busy s c
      → ((m : ℕ) → m < n → ip.dinode.addrs m ≢ c)
      → c ≢ inode_block s.sb i
      → Owned busy t c × (content t c ≡ content s c)

-- The end of INode::write: the new size, and the update of the inode.
pub finish_write :
    {busy : ℕ → Bool} {s u : Sys} (i : ℕ) (ip ip' : INode) (n n' off k size : ℕ) (cs : List ℕ)
    → DirectFile busy s i ip.dinode n
    → Grown busy s i ip n off cs k ip' n' u
    → ip.dinode.size ≤ n * bsize
    → size ≡ grown_size ip.dinode.size (off + length cs)
    → let b = inode_block u.sb i in
      let w = with_inode u (at s i) (some (with_size size ip')) in
      (h : LogHeader)
      → Tx busy (logged w b (with_dinode w i (with_size size ip').dinode) h)
      → Lengthened busy s i ip n off cs
          (with_size size ip')
          n'
          (logged w b (with_dinode w i (with_size size ip').dinode) h)
finish_write {busy} {s} {u} i ip ip' n n' off k size cs g f held sized h tx' =
    let ip'' : INode = with_size size ip' in
    let b : ℕ = inode_block u.sb i in
    let b' : ℕ = inode_block s.sb i in
    let same : b ≡ b' = ap (λ sb. inode_block sb i) f.sb in
    let w : Sys = with_inode u (at s i) (some ip'') in
    let e : Data = with_dinode w i ip''.dinode in
    let t : Sys = logged w b e h in
    let owned : (c : ℕ) → Owned busy u c → Owned busy w c = λ c o. Owned-cached (at s i) ip'' c o in
    let o : Owned busy w b = owned b f.file.inode in
    let before : content w b ≡ content s b' =
      content-cached u (at s i) ip'' b
      ∙ ap (content u) same
      ∙ (f.others b' g.inode g.inode_apart).2 in
    record {
      tx = tx';
      map = FreeMap-store b o e h (FreeMap-cached (at s i) ip'' f.map);
      file = record {
        direct = f.file.direct;
        owned = λ q lt.
            Owned-store b o e h (ip'.dinode.addrs q)
              (owned (ip'.dinode.addrs q) (f.file.owned q lt));
        distinct = f.file.distinct;
        unset = f.file.unset;
        inode = Owned-store b o e h b o;
        inode_apart = f.file.inode_apart;
      };
      inodes =
          ap (λ m. put m (at s i) (some ip'')) f.inodes
          ∙ put-put s.inodes (at s i) (some ip') (some ip'');
      log = ap (with_hdr h) f.log;
      sb = f.sb;
      kept = ap (with_size size) f.kept;
      size = sized;
      held = ground (arith, sized, f.covered, held, f.more);
      bytes = λ j lt.
          let near : (j < n * bsize) ⊎ (j < off + length cs) = ground (arith, sized, held) in
          let q : ℕ = j / bsize in
          let inside : q < n' = omega (arith, near, f.covered, f.more) in
          let small : q < ndirect = omega (arith, inside, f.file.direct) in
          file_data-direct t ip''.dinode j small
          ∙ ap (λ (d : Data). d (j % bsize))
              (content-logged_ne w b e h (ip'.dinode.addrs q) (f.file.inode_apart q inside)
                ∙ content-cached u (at s i) ip'' (ip'.dinode.addrs q))
          ∙ sym (file_data-direct u ip'.dinode j small)
          ∙ f.bytes j near;
      stored =
          ap (content t) (sym same)
          ∙ content-logged_self w b e h
          ∙ ap (λ d. encode_dinode ip''.dinode d (inode_offset i)) before;
      others = λ c own away ne.
          let (own', away', unchanged) = f.others c own away in
          (
            Owned-store b o e h c (owned c own'),
            content-logged_ne w b e h c (λ q. ne (q ∙ same))
                ∙ content-cached u (at s i) ip'' c
                ∙ unchanged,
          );
    }

-- The new size of a cached inode.
sized_run :
    (u : Sys) (k : Key) (ip : INode) (size end : ℕ)
    → u.inodes k ≡ some ip
    → ip.dinode.size ≡ size
    → end < 2 ^ 32
    → (if ltb size end then set_dinode k (record ip.dinode { size = u32 end }) else pure tt) u
      ≡ ok tt (with_inode u k (some (with_size (grown_size size end) ip)))
unfolding set_dinode store_inode
sized_run u k ip size end here same small = elim (Bool-cases (ltb size end)) [
  | inl longer ↦ rw longer (rw (load_inode_lem u k ip here, u32_small end small) refl)
  | inr shorter ↦
      rw (shorter, ← same)
        (ap (λ m. ok tt (record u { inodes = m })) (sym (put_same u.inodes k (some ip) here)))
]

-- The run of the end of INode::write.
pub write_ends :
    {busy : ℕ → Bool} {s u : Sys} (i : ℕ) (ip ip' : INode) (n n' off tot k : ℕ) (src : List ℕ)
    → write_loop (at s i) (length src) off src s ≡ ok tot u
    → Grown busy s i ip n off (take tot src) k ip' n' u
    → off + tot < 2 ^ 32
    → HasRoom u.log 1
    → let ip'' = with_size (grown_size ip.dinode.size (off + tot)) ip' in
      let w = with_inode u (at s i) (some ip'') in
      let b = inode_block u.sb i in
      (h : LogHeader) × (write_stored (at s i) off src s
        ≡ ok tot (logged w b (with_dinode w i ip''.dinode) h))
      × Tx busy (logged w b (with_dinode w i ip''.dinode) h)
unfolding write_stored
write_ends {busy} {s} {u} i ip ip' n n' off tot k src ran f small room =
    let k : Key = at s i in
    let ip'' : INode = with_size (grown_size ip.dinode.size (off + tot)) ip' in
    let w : Sys = with_inode u k (some ip'') in
    let same_key : at u i ≡ k = ap (λ l. key l.dev i) f.log in
    let here : u.inodes k ≡ some ip' = (λ j. f.inodes j k) ∙ put_self s.inodes k (some ip') in
    let old_size : ip'.dinode.size ≡ ip.dinode.size = ap (λ x. x.dinode.size) f.kept in
    let (h, done, tx', hi) =
      update_run {s = w} (Tx-cached k ip'' f.tx) i ip''
        (ap w.inodes same_key ∙ put_self u.inodes k (some ip''))
        (record { small = f.file.inode.home.small; apart = f.file.inode.home.apart })
        f.file.inode.idle (record { fits = room.fits; room = room.room }) in
    (
      h,
      rw ran (
          rw (load_inode_lem u k ip' here, old_size)
            (rw (sized_run u k ip' ip.dinode.size (off + tot) here old_size small)
              (rw (ap (λ q. update q w) (sym same_key) ∙ done) refl))),
      tx',
    )
