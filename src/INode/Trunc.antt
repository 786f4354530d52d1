-- ===== src/INode/Trunc.antt =====
-- INode::trunc of src/fs.cxx on a file of direct blocks.
pub mod Slots
use hitsz_ext.Base.{
  ℕ, zero, suc, min, ◌+◌, ◌<◌, ◌≤◌, ◌≡◌, ◌≢◌, refl, Bool, some, ◌==◌, ltb, inl, inr, eq→==, ne→==,
  Bool-cases, ==→eq, arith, ap, ◌∙◌, sym, subst,
}
use hitsz_ext.Bytes.{Data}
use hitsz_ext.Content.Grow.Finish.{with_size}
use hitsz_ext.Machine.{
  Map, Block, Key, key, ndirect, put, put_self, put-put, put_same, INode, Sys, LogHeader, ok,
}
use hitsz_ext.Bitmap.{bit_block, block_free}
use hitsz_ext.Bitmap.Map.{used, FreeMap}
use hitsz_ext.Bitmap.Free.{Freed, block_free_lem}
use hitsz_ext.Content.Owned.{
  Owned, content-cached, used-cached, used-store, FreeMap-store, Owned-store, Tx-cached,
  FreeMap-cached, Owned-cached,
}
use hitsz_ext.Content.Owned.Freed.{used-Freed, now_free, Owned-Freed, FreeMap-Freed}
use hitsz_ext.Content.Grow.{DirectFile, with_hdr, with_addrs}
use hitsz_ext.INode.{
  inode_block, inode_offset, set_dinode, store_inode, update, free_direct, direct_loop,
  free_indirect, trunc,
}
use hitsz_ext.INode.Codec.{encode_dinode}
use hitsz_ext.INode.Update.{load_inode_lem, update_run, with_dinode}
use hitsz_ext.INodeCache.{with_inode}
use hitsz_ext.Log.{set_at}
use hitsz_ext.Transaction.{changed, at, Tx, HasRoom, content, logged}
use hitsz_ext.Transaction.Finish.{content-logged_self, content-logged_ne}
use hitsz_ext.INode.Trunc.Slots.{Trimmed, Trimmed-cached, direct_loop_lem}

-- What trunc leaves: an empty file, whose blocks are free. The last field is about blocks in use for
-- something else.
pub record Truncated (busy : ℕ → Bool) (s : Sys) (i : ℕ) (ip : INode) (n : ℕ) (ip' : INode)
    (t : Sys) : Type 0 where
  pub tx : Tx busy t
  pub map : FreeMap busy t
  pub file : DirectFile busy t i ip'.dinode 0
  pub inodes : t.inodes ≡ put s.inodes (at s i) (some ip')
  pub log : t.log ≡ with_hdr t.log.hdr s.log
  pub sb : t.sb ≡ s.sb
  pub entries : t.log.hdr.n ≤ s.log.hdr.n + (n + 1)
  pub no_indirect : ip'.dinode.addrs ndirect ≡ 0
  pub kept : ip' ≡ with_size 0 (with_addrs ip'.dinode.addrs ip)
  pub freed : (m : ℕ) → m < n → used t (ip.dinode.addrs m) ≡ 0
  pub still_free : (x : ℕ) → x < s.sb.size → used s x ≡ 0 → used t x ≡ 0
  pub stored :
      content t (inode_block s.sb i)
      ≡ encode_dinode ip'.dinode (content s (inode_block s.sb i)) (inode_offset i)
  pub others :
      (c : ℕ)
      → Owned busy s c
      → ((m : ℕ) → m < n → ip.dinode.addrs m ≢ c)
      → Owned busy t c × (c ≢ inode_block s.sb i → content t c ≡ content s c)

module _ {busy : ℕ → Bool} {s : Sys} (i : ℕ) (ip : INode) (n : ℕ)
    (g : DirectFile busy s i ip.dinode n) where
  -- The new size and the update.
  Truncated-end :
      (ip' : INode) (u : Sys) (f : Trimmed busy s i ip n ndirect ip' u)
      → let ip'' = with_size 0 ip' in
        let w = with_inode u (at s i) (some ip'') in
        let b = inode_block u.sb i in
        (h : LogHeader)
        → h.n ≤ u.log.hdr.n + 1
        → ip.dinode.addrs ndirect ≡ 0
        → Tx busy (logged w b (with_dinode w i ip''.dinode) h)
        → Truncated busy s i ip n ip'' (logged w b (with_dinode w i ip''.dinode) h)
  Truncated-end ip' u f h few no_indirect tx' =
      let ip'' : INode = with_size 0 ip' in
      let b : ℕ = inode_block u.sb i in
      let b' : ℕ = inode_block s.sb i in
      let same : b ≡ b' = ap (λ sb. inode_block sb i) f.sb in
      let size : u.sb.size ≡ s.sb.size = ap (λ x. x.size) f.sb in
      let w : Sys = with_inode u (at s i) (some ip'') in
      let e : Data = with_dinode w i ip''.dinode in
      let t : Sys = logged w b e h in
      let owned : (c : ℕ)
          → Owned busy s c
          → ((m : ℕ) → m < n → ip.dinode.addrs m ≢ c)
          → Owned busy w c =
        λ c o away. Owned-cached (at s i) ip'' c (f.others c o (λ m lm ln. away m ln)) in
      let o : Owned busy w b = subst (Owned busy w) (sym same) (owned b' g.inode g.inode_apart) in
      let free : (x : ℕ) → x < s.sb.size → used u x ≡ 0 → used t x ≡ 0 =
        λ x lx z. used-store b o e h x (omega (arith, size)) ∙ used-cached u (at s i) ip'' x ∙ z in
      let inode : Owned busy t b = Owned-store b o e h b o in
      record {
        tx = tx';
        map = FreeMap-store b o e h (FreeMap-cached (at s i) ip'' f.map);
        file = record {
          direct = omega arith;
          owned = λ m lm. absurd (omega arith);
          distinct = λ m p lm lp q. absurd (omega arith);
          unset = λ m lo hi. f.gone m hi;
          inode = inode;
          inode_apart = λ m lm. absurd (omega arith);
        };
        inodes =
            ap (λ m. put m (at s i) (some ip'')) f.inodes
            ∙ put-put s.inodes (at s i) (some ip') (some ip'');
        log = ap (with_hdr h) f.log;
        sb = f.sb;
        entries = omega (arith, few, f.entries);
        no_indirect = f.rest ndirect (omega arith) ∙ no_indirect;
        kept = ap (with_size 0) f.kept;
        freed = λ m lm.
            free (ip.dinode.addrs m) (g.owned m lm).inside (f.freed m (omega (arith, g.direct)) lm);
        still_free = λ x lx z. free x lx (f.still_free x lx z);
        stored =
            ap (content t) (sym same)
            ∙ content-logged_self w b e h
            ∙ ap (λ d. encode_dinode ip''.dinode d (inode_offset i))
                (content-cached u (at s i) ip'' b
                  ∙ ap (content u) same
                  ∙ f.contents b' g.inode.apart);
        others = λ c own away. (
          Owned-store b o e h c (owned c own away),
          λ ne.
              content-logged_ne w b e h c (λ q. ne (q ∙ same))
              ∙ content-cached u (at s i) ip'' c
              ∙ f.contents c own.apart,
        );
      }

  module _ (tx : Tx busy s) (m : FreeMap busy s) (here : s.inodes (at s i) ≡ some ip)
      (no_indirect : ip.dinode.addrs ndirect ≡ 0) (room : HasRoom s.log (n + 1)) where
    untouched : Trimmed busy s i ip n 0 ip s
    untouched = record {
      tx = tx;
      map = m;
      inodes = sym (put_same s.inodes (at s i) (some ip) here);
      log = refl;
      sb = refl;
      kept = refl;
      gone = λ q lq. absurd (omega arith);
      rest = λ q lq. refl;
      freed = λ q lq. absurd (omega arith);
      others = λ c own away. own;
      still_free = λ x lx z. z;
      contents = λ c apart. refl;
      entries = omega arith;
    }

    -- Inside a transaction, with a sound free map: trunc of a cached file of `n` blocks and no indirect
    -- one, in use for one place each, apart from the inode's block, the free map and the log, with room
    -- in the log for n + 1 blocks, succeeds. The file then has size 0 and no block, in memory and
    -- on the disk; each of its blocks is free, every block that was free still is, and every block in
    -- use for something else still is and keeps its contents; and the free map is sound again.
    pub trunc_lem :
        (ip' : INode) × (t : Sys) × (trunc (at s i) s ≡ ok tt t) × Truncated busy s i ip n ip' t
    unfolding trunc free_indirect set_dinode store_inode
    trunc_lem =
        let (ip', u, ran, f) =
          direct_loop_lem i ip n g ndirect 0 ip s untouched (omega arith) (omega (arith, room.fits))
            (omega (arith, room.room)) in
        let k : Key = at s i in
        let ip'' : INode = with_size 0 ip' in
        let w : Sys = with_inode u k (some ip'') in
        let b : ℕ = inode_block u.sb i in
        let here' : u.inodes k ≡ some ip' = Trimmed-cached i ip n g ndirect ip' u f in
        let same_key : at u i ≡ k = ap (λ l. key l.dev i) f.log in
        let log_size : u.log.size ≡ s.log.size = ap (λ l. l.size) f.log in
        let o : Owned busy u (inode_block u.sb i) =
          subst (λ sb. Owned busy u (inode_block sb i)) (sym f.sb)
            (f.others (inode_block s.sb i) g.inode (λ q lq ln. g.inode_apart q ln)) in
        let (h, done, tx', hi) =
          update_run {s = w} (Tx-cached k ip'' f.tx) i ip''
            (ap w.inodes same_key ∙ put_self u.inodes k (some ip''))
            (record { small = o.home.small; apart = o.home.apart }) o.idle
            (record {
              fits = omega (arith, room.fits, f.entries);
              room = omega (arith, room.room, f.entries, log_size);
            }) in
        (
          ip'',
          logged w b (with_dinode w i ip''.dinode) h,
          rw ran (
              rw (load_inode_lem u k ip' here') (
                rw (eq→== (ip'.dinode.addrs ndirect) 0 (f.rest ndirect (omega arith) ∙ no_indirect))
                  (rw (load_inode_lem u k ip' here') (
                    rw (load_inode_lem u k ip' here')
                      (rw (ap (λ q. update q w) (sym same_key) ∙ done) refl))))),
          Truncated-end ip' u f h hi no_indirect tx',
        )
