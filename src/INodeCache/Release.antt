-- ===== src/INodeCache/Release.antt =====
-- inode_put of src/INodeCache.cxx where it frees the inode: the last reference to one without links.
use hitsz_ext.Base.{
  ℕ, ◌+◌, ◌*◌, ◌%◌, ◌<◌, ◌≡◌, ◌≢◌, refl, Bool, true, false, some, none, ◌==◌, inl, inr, dec32,
  Bool-cases, ==→eq, arith, ap, ◌∙◌, sym,
}
use hitsz_ext.Bytes.{Data}
use hitsz_ext.Bitmap.Map.{used, FreeMap}
use hitsz_ext.Content.Owned.{
  Owned, content-cached, used-cached, used-store, FreeMap-store, Owned-store, Tx-inodes,
  FreeMap-inodes, Owned-inodes, content-inodes, used-inodes, Tx-cached, FreeMap-cached,
  Owned-cached,
}
use hitsz_ext.Content.Grow.{DirectFile}
use hitsz_ext.Machine.{
  Map, Key, key, ndirect, inode_per_block, put, put_self, put-put, DiskINode, INode, Sys, LogHeader,
  ok,
}
use hitsz_ext.INode.{inode_block, inode_offset, set_dinode, store_inode, update, trunc}
use hitsz_ext.INode.Codec.{decode_dinode}
use hitsz_ext.INode.Codec.Laws.{Fits, decode-encode, decode-encode_ne}
use hitsz_ext.INode.Update.{disk_inode, load_inode_lem, update_run, with_dinode}
use hitsz_ext.INode.Trunc.{Truncated, trunc_lem}
use hitsz_ext.INodeCache.{with_inode, free_inode, drop_inode, inode_put}
use hitsz_ext.Transaction.{at, Tx, HasRoom, content, logged}
use hitsz_ext.Transaction.Finish.{content-logged_self, content-logged_ne}

-- The inode `i` is free, on the disk and in the cache, and so are the blocks of its file. The last
-- field is about blocks in use for something else.
pub record Released (busy : ℕ → Bool) (s : Sys) (i : ℕ) (d : DiskINode) (n : ℕ) (t : Sys)
    : Type 0 where
  pub tx : Tx busy t
  pub map : FreeMap busy t
  pub inodes : t.inodes ≡ put s.inodes (at s i) none
  pub freed : (m : ℕ) → m < n → used t (d.addrs m) ≡ 0
  pub still_free : (x : ℕ) → x < s.sb.size → used s x ≡ 0 → used t x ≡ 0
  pub on_disk : (disk_inode t i).type ≡ 0
  pub slots :
      (q : ℕ)
      → i % inode_per_block ≢ q
      → decode_dinode (content t (inode_block s.sb i)) (64 * q)
        ≡ decode_dinode (content s (inode_block s.sb i)) (64 * q)
  pub others :
      (c : ℕ)
      → Owned busy s c
      → ((m : ℕ) → m < n → d.addrs m ≢ c)
      → Owned busy t c × (c ≢ inode_block s.sb i → content t c ≡ content s c)

DirectFile-cached :
    {busy : ℕ → Bool} {s : Sys} (k : Key) (ip : INode) (i : ℕ) (d : DiskINode) (n : ℕ)
    → DirectFile busy s i d n
    → DirectFile busy (with_inode s k (some ip)) i (record d { nlink = 0 }) n
DirectFile-cached k ip i d n g = record {
  direct = g.direct;
  owned = λ m lt. Owned-cached k ip (d.addrs m) (g.owned m lt);
  distinct = g.distinct;
  unset = g.unset;
  inode = Owned-cached k ip _ g.inode;
  inode_apart = g.inode_apart;
}

-- A cached inode at its last use, without links.
abbrev pub last_use : DiskINode → INode
last_use d = record { ref = 1; locked = false; valid = true; dinode = record d { nlink = 0 } }

abbrev locked_use : DiskINode → INode
locked_use d = record (last_use d) { locked = true }

abbrev no_type : INode → INode
no_type ip = record ip { dinode = record ip.dinode { type = 0 } }

abbrev stale : INode → INode
stale ip = record ip { valid = false; locked = false }

-- The run of inode_put, given those of trunc and update.
release_run :
    (s : Sys) (k : Key) (d : DiskINode) (ip' : INode) (t u : Sys)
    → s.inodes k ≡ some (last_use d)
    → trunc k (with_inode s k (some (locked_use d))) ≡ ok tt t
    → t.inodes k ≡ some ip'
    → update k (with_inode t k (some (no_type ip'))) ≡ ok tt u
    → u.inodes k ≡ some (no_type ip')
    → ip'.ref ≡ 1
    → inode_put k s
      ≡ ok tt (record u { inodes = put (put u.inodes k (some (stale (no_type ip')))) k none })
unfolding inode_put free_inode drop_inode set_dinode store_inode dec32
release_run s k d ip' t u here ran cached updated still kept_ref =
    let w : Sys = with_inode u k (some (stale (no_type ip'))) in
    rw (load_inode_lem s k (last_use d) here) (
      rw (load_inode_lem s k (last_use d) here) (
        rw ran (
          rw (load_inode_lem t k ip' cached) (
            rw (load_inode_lem t k ip' cached) (
              rw updated (
                rw (load_inode_lem u k (no_type ip') still) (
                  rw
                    (
                      load_inode_lem w k (stale (no_type ip'))
                          (put_self u.inodes k (some (stale (no_type ip')))),
                      kept_ref,
                    )
                    refl)))))))

module _ {busy : ℕ → Bool} {s : Sys} (tx : Tx busy s) (m : FreeMap busy s) (i : ℕ) (d : DiskINode)
    (here : s.inodes (at s i) ≡ some (last_use d)) (n : ℕ) (g : DirectFile busy s i d n)
    (no_indirect : d.addrs ndirect ≡ 0) (fits : Fits d) (room : HasRoom s.log (n + 2)) where
  emptied-Fits :
      (ip' : INode) (t : Sys)
      → Truncated busy (with_inode s (at s i) (some (locked_use d))) i (locked_use d) n ip' t
      → Fits (no_type ip').dinode
  emptied-Fits ip' t f =
      let same_major : ip'.dinode.major ≡ d.major = ap (λ x. x.dinode.major) f.kept in
      let same_minor : ip'.dinode.minor ≡ d.minor = ap (λ x. x.dinode.minor) f.kept in
      let no_link : ip'.dinode.nlink ≡ 0 = ap (λ x. x.dinode.nlink) f.kept in
      let no_size : ip'.dinode.size ≡ 0 = ap (λ x. x.dinode.size) f.kept in
      record {
        type = omega arith;
        major = omega (arith, same_major, fits.major);
        minor = omega (arith, same_minor, fits.minor);
        nlink = omega (arith, no_link);
        size = omega (arith, no_size);
        addrs = λ q lq. elim (Bool-cases (q == ndirect)) [
          | inl last ↦ omega (arith, ap ip'.dinode.addrs (==→eq q ndirect last) ∙ f.no_indirect)
          | inr before ↦ omega (arith, f.file.unset q (omega arith) (ground arith))
        ];
      }

  Released-end :
      (ip' : INode) (t : Sys)
      → Truncated busy (with_inode s (at s i) (some (locked_use d))) i (locked_use d) n ip' t
      → let ip1 = no_type ip' in
        let k = at s i in
        let w = with_inode t k (some ip1) in
        (h : LogHeader)
        → Tx busy (logged w (inode_block t.sb i) (with_dinode w i ip1.dinode) h)
        → let u = logged w (inode_block t.sb i) (with_dinode w i ip1.dinode) h in
          Released busy s i d n
            (record u { inodes = put (put u.inodes k (some (stale ip1))) k none })
  unfolding disk_inode
  Released-end ip' t f h tx' =
      let k : Key = at s i in
      let ipl : INode = locked_use d in
      let v : Sys = with_inode s k (some ipl) in
      let ip1 : INode = no_type ip' in
      let w : Sys = with_inode t k (some ip1) in
      let b : ℕ = inode_block t.sb i in
      let b' : ℕ = inode_block s.sb i in
      let same : b ≡ b' = ap (λ sb. inode_block sb i) f.sb in
      let size : t.sb.size ≡ s.sb.size = ap (λ x. x.size) f.sb in
      let e : Data = with_dinode w i ip1.dinode in
      let u : Sys = logged w b e h in
      let erased : Map INode = put (put u.inodes k (some (stale ip1))) k none in
      let r : Sys = record u { inodes = erased } in
      let o : Owned busy w b = Owned-cached k ip1 b f.file.inode in
      let free : (x : ℕ) → x < s.sb.size → used t x ≡ 0 → used r x ≡ 0 = λ x lx z.
        used-inodes u erased x
        ∙ used-store b o e h x (omega (arith, size))
        ∙ used-cached t k ip1 x
        ∙ z in
      let contents : (c : ℕ) → c ≢ b → content r c ≡ content t c = λ c ne.
        content-inodes u erased c ∙ content-logged_ne w b e h c ne ∙ content-cached t k ip1 c in
      let block : content r b' ≡ e =
        content-inodes u erased b' ∙ ap (content u) (sym same) ∙ content-logged_self w b e h in
      record {
        tx = Tx-inodes u erased tx';
        map = FreeMap-inodes u erased (FreeMap-store b o e h (FreeMap-cached k ip1 f.map));
        inodes =
            put-put (put t.inodes k (some ip1)) k (some (stale ip1)) none
            ∙ put-put t.inodes k (some ip1) none
            ∙ ap (λ q. put q k none) f.inodes
            ∙ put-put (put s.inodes k (some ipl)) k (some ip') none
            ∙ put-put s.inodes k (some ipl) none;
        freed = λ q lq. free (d.addrs q) (g.owned q lq).inside (f.freed q lq);
        still_free = λ x lx z. free x lx (f.still_free x lx (used-cached s k ipl x ∙ z));
        on_disk =
            ap (λ (x : Data). (decode_dinode x (inode_offset i)).type) (ap (content r) same ∙ block)
            ∙ (decode-encode ip1.dinode (content w b) (inode_offset i) (emptied-Fits ip' t f)).type;
        slots = λ q ne.
            let p : ℕ = i % inode_per_block in
            ap (λ (x : Data). decode_dinode x (64 * q)) block
            ∙ decode-encode_ne ip1.dinode (content w b) p q ne
            ∙ ap (λ (x : Data). decode_dinode x (64 * q))
                (content-cached t k ip1 b ∙ ap (content t) same ∙ f.stored)
            ∙ decode-encode_ne ip'.dinode (content v b') p q ne
            ∙ ap (λ (x : Data). decode_dinode x (64 * q)) (content-cached s k ipl b');
        others = λ c own away.
            let (own', kept) = f.others c (Owned-cached k ipl c own) away in
            (
              Owned-inodes u erased c (Owned-store b o e h c (Owned-cached k ip1 c own')),
              λ ne. contents c (λ q. ne (q ∙ same)) ∙ kept ne ∙ content-cached s k ipl c,
            );
      }

  -- Inside a transaction, with a sound free map: inode_put of the only reference to a valid and
  -- unlocked inode without links, whose fields fit their types and whose file has `n` blocks and no
  -- indirect one, in use for one place each, apart from the inode's block, the free map and the log,
  -- with room in the log for n + 2 blocks, returns. The inode is then in the cache no longer and free
  -- on the disk, where the other inodes of its block are as before; each block of its file is free;
  -- every block that was free still is, every block in use for something else still is and keeps its
  -- contents, but for the inode's; and the free map is sound again.
  pub inode_put_lem : (t : Sys) × (inode_put (at s i) s ≡ ok tt t) × Released busy s i d n t
  unfolding disk_inode
  inode_put_lem =
      let k : Key = at s i in
      let ipl : INode = locked_use d in
      let (ip', t, ran, f) =
        trunc_lem {s = with_inode s k (some ipl)} i ipl n (DirectFile-cached k ipl i d n g)
          (Tx-cached k ipl tx) (FreeMap-cached k ipl m) (put_self s.inodes k (some ipl)) no_indirect
          (record { fits = omega (arith, room.fits); room = omega (arith, room.room) }) in
      let cached : t.inodes k ≡ some ip' =
        (λ j. f.inodes j k) ∙ put_self (put s.inodes k (some ipl)) k (some ip') in
      let ip1 : INode = no_type ip' in
      let w : Sys = with_inode t k (some ip1) in
      let same_key : at t i ≡ k = ap (λ l. key l.dev i) f.log in
      let log_size : t.log.size ≡ s.log.size = ap (λ l. l.size) f.log in
      let o : Owned busy t (inode_block t.sb i) = f.file.inode in
      let (h, done, tx', hi) =
        update_run {s = w} (Tx-cached k ip1 f.tx) i ip1
          (ap w.inodes same_key ∙ put_self t.inodes k (some ip1))
          (record { small = o.home.small; apart = o.home.apart }) o.idle
          (record {
            fits = omega (arith, room.fits, f.entries);
            room = omega (arith, room.room, f.entries, log_size);
          }) in
      let u : Sys = logged w (inode_block t.sb i) (with_dinode w i ip1.dinode) h in
      (
        record u { inodes = put (put u.inodes k (some (stale ip1))) k none },
        release_run s k d ip' t u here ran cached (ap (λ q. update q w) (sym same_key) ∙ done)
            (put_self t.inodes k (some ip1)) (ap (λ x. x.ref) f.kept),
        Released-end ip' t f h tx',
      )
