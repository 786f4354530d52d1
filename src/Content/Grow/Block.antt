-- ===== src/Content/Grow/Block.antt =====
-- One block of a file that grows: block_map with an allocation, and a store.
use hitsz_ext.Base.{
  ℕ, ◌+◌, ◌*◌, ◌/◌, ◌%◌, ◌<◌, ◌≤◌, ◌≡◌, ◌≢◌, refl, Bool, some, List, [], length, inl, inr, ◌⊎◌,
  lt→ltb, eq→==, ne→==, arith, ap, ◌∙◌, sym, subst,
}
use hitsz_ext.Bytes.{Data}
use hitsz_ext.Machine.{Map, Block, bsize, ndirect, put_same, INode, Sys, LogHeader, ok}
use hitsz_ext.Bitmap.Map.{FreeMap}
use hitsz_ext.Bitmap.Alloc.{Allocated, block_alloc_lem}
use hitsz_ext.Content.{splice, slot_block, block_map}
use hitsz_ext.Content.Mapped.{file_data, slot_block_lem}
use hitsz_ext.Content.Owned.{
  content-cached, Owned, FreeMap-store, Owned-store, FreeMap-Allocated, Owned-Allocated, new-Owned,
  new-apart, Tx-cached, FreeMap-cached, Owned-cached,
}
use hitsz_ext.Content.Splice.{splice_out}
use hitsz_ext.Content.Store.{file_data-store}
use hitsz_ext.Content.Grow.{
  Full, block_at-direct, DirectFile, DirectFile-Storable, Grown, file_data-direct, with_addrs,
}
use hitsz_ext.INode.{inode_block, set_dinode, store_inode}
use hitsz_ext.INode.Update.{load_inode_lem}
use hitsz_ext.INodeCache.{with_inode}
use hitsz_ext.Log.{set_at}
use hitsz_ext.Transaction.{changed, at, Tx, HasRoom, content, logged}
use hitsz_ext.Transaction.Finish.{content-logged_ne}

-- A store in a block that the file has.
pub Grown-store :
    {busy : ℕ → Bool} {s : Sys} (m : FreeMap busy s) (i : ℕ) (ip : INode)
    → s.inodes (at s i) ≡ some ip
    → (n : ℕ) (g : DirectFile busy s i ip.dinode n) (off : ℕ) (cs : List ℕ) → off / bsize < n
    → off % bsize + length cs ≤ bsize
    → (h : LogHeader) → h.n ≤ s.log.hdr.n + 1
    → let b = ip.dinode.addrs (off / bsize) in
      let t = logged s b (splice (content s b) (off % bsize) cs) h in
      Tx busy t → Grown busy s i ip n off cs 1 ip n t
Grown-store {busy} {s} m i ip here n g off cs inside fits h few tx =
    let p : ℕ = off / bsize in
    let b : ℕ = ip.dinode.addrs p in
    let e : Data = splice (content s b) (off % bsize) cs in
    let t : Sys = logged s b e h in
    let o : Owned busy s b = g.owned p inside in
    record {
      tx = tx;
      map = FreeMap-store b o e h m;
      file = record {
        direct = g.direct;
        owned = λ q lt. Owned-store b o e h (ip.dinode.addrs q) (g.owned q lt);
        distinct = g.distinct;
        unset = g.unset;
        inode = Owned-store b o e h (inode_block s.sb i) g.inode;
        inode_apart = g.inode_apart;
      };
      inodes = sym (put_same s.inodes (at s i) (some ip) here);
      log = refl;
      sb = refl;
      kept = refl;
      more = omega arith;
      covered = omega arith;
      bytes = λ j near.
          subst
            (λ c.
              file_data (logged s c (splice (content s c) (off % bsize) cs) h) ip.dinode j
              ≡ splice (file_data s ip.dinode) off cs j)
            (block_at-direct s ip.dinode p (omega (arith, g.direct)))
            (file_data-store (DirectFile-Storable g (n * bsize) (omega arith)) off cs h
              (omega arith) fits j (omega arith));
      entries = few;
      others = λ c own away. (
        Owned-store b o e h c own,
        away,
        content-logged_ne s b e h c (λ q. away p inside (sym q)),
      );
    }

-- An allocation for the block after the last.
pub Grown-alloc :
    {busy : ℕ → Bool} {s : Sys} (m : FreeMap busy s) (i : ℕ) (ip : INode)
    → (n : ℕ) (g : DirectFile busy s i ip.dinode n) (off : ℕ) → n < ndirect
    → off ≤ n * bsize
    → {r : ℕ} {k : Map Block} {h : LogHeader} → Allocated busy s r (changed s k h)
    → let ip' = with_addrs (set_at ip.dinode.addrs n r) ip in
      Grown busy s i ip n off [] 2 ip' (n + 1) (with_inode (changed s k h) (at s i) (some ip'))
Grown-alloc {busy} {s} m i ip n g off lt start {r} {k} {h} a =
    let ip' : INode = with_addrs (set_at ip.dinode.addrs n r) ip in
    let u : Sys = changed s k h in
    let t : Sys = with_inode u (at s i) (some ip') in
    let old : (q : ℕ) → q < n → ip'.dinode.addrs q ≡ ip.dinode.addrs q =
      λ q lq. rw (ne→== q n (omega arith)) refl in
    let new : (q : ℕ) → q ≡ n → ip'.dinode.addrs q ≡ r = λ q e. rw (eq→== q n e) refl in
    let owned' : (c : ℕ) → Owned busy s c → Owned busy t c =
      λ c o. Owned-cached (at s i) ip' c (Owned-Allocated m a c o) in
    let split : (q : ℕ) → q < n + 1 → (q ≡ n) ⊎ (q < n) = λ q lq. omega arith in
    let same : (c : ℕ) → Owned busy s c → content t c ≡ content s c = λ c o.
      content-cached u (at s i) ip' c
      ∙ a.others c (new-apart m a c o) (λ e. o.apart r a.inside (sym e)) in
    let fresh : (c : ℕ) → Owned busy s c → c ≢ r = λ c o. new-apart m a c o in
    record {
      tx = Tx-cached (at s i) ip' a.tx;
      map = FreeMap-cached (at s i) ip' (FreeMap-Allocated m a);
      file = record {
        direct = omega arith;
        owned = λ q lq. elim (split q lq) [
          | inl last ↦
              subst (Owned busy t) (sym (new q last)) (Owned-cached (at s i) ip' r (new-Owned m a))
          | inr before ↦
              subst (Owned busy t) (sym (old q before))
                (owned' (ip.dinode.addrs q) (g.owned q before))
        ];
        distinct = λ q p lq lp e. elim (split q lq) [
          | inl last ↦ elim (split p lp) [
            | inl last' ↦ omega arith
            | inr before ↦ absurd (
                fresh (ip.dinode.addrs p) (g.owned p before)
                  (sym (old p before) ∙ sym e ∙ new q last))
          ]
          | inr before ↦ elim (split p lp) [
            | inl last ↦
                absurd (
                  fresh (ip.dinode.addrs q) (g.owned q before)
                    (sym (old q before) ∙ e ∙ new p last))
            | inr before' ↦ g.distinct q p before before' (sym (old q before) ∙ e ∙ old p before')
          ]
        ];
        unset = λ q lo hi. rw (ne→== q n (omega arith)) (g.unset q (omega arith) hi);
        inode = owned' (inode_block s.sb i) g.inode;
        inode_apart = λ q lq e. elim (split q lq) [
          | inl last ↦ fresh (inode_block s.sb i) g.inode (sym e ∙ new q last)
          | inr before ↦ g.inode_apart q before (sym (old q before) ∙ e)
        ];
      };
      inodes = refl;
      log = refl;
      sb = refl;
      kept = refl;
      more = omega arith;
      covered = omega arith;
      bytes = λ j near.
          let inside : j / bsize < n = omega arith in
          let o : Owned busy s (ip.dinode.addrs (j / bsize)) = g.owned (j / bsize) inside in
          file_data-direct t ip'.dinode j (omega arith)
          ∙ ap (λ c. content t c (j % bsize)) (old (j / bsize) inside)
          ∙ ap (λ (d : Data). d (j % bsize)) (same (ip.dinode.addrs (j / bsize)) o)
          ∙ sym (file_data-direct s ip.dinode j (omega arith))
          ∙ sym (splice_out (file_data s ip.dinode) off [] j (omega arith));
      entries = a.entries;
      others = λ c own away. (
        owned' c own,
        (λ q lq e. elim (split q lq) [
          | inl last ↦ fresh c own (sym e ∙ new q last)
          | inr before ↦ away q before (sym (old q before) ∙ e)
        ]),
        same c own,
      );
    }

module _ {busy : ℕ → Bool} {s : Sys} (tx : Tx busy s) (i : ℕ) (ip : INode)
    (here : s.inodes (at s i) ≡ some ip) (n : ℕ) (g : DirectFile busy s i ip.dinode n) where
  pub block_map_old : (q : ℕ) → q < n → block_map (at s i) q s ≡ ok (ip.dinode.addrs q) s
  unfolding block_map
  block_map_old q lt =
      rw (lt→ltb q ndirect (omega (arith, g.direct)))
        (slot_block_lem tx i ip here q (g.owned q lt).pos)

  -- block_map of the first block that is not allocated.
  abbrev pub NewBlock : Type 0
  NewBlock =
      ((block_map (at s i) n s ≡ ok 0 s) × Full s)
      ⊎ ((r : ℕ) × (k : Map Block) × (h : LogHeader) × (block_map (at s i) n s
            ≡ ok r (
                with_inode (changed s k h) (at s i)
                  (some (with_addrs (set_at ip.dinode.addrs n r) ip))))
          × Allocated busy s r (changed s k h))

  pub block_map_new : FreeMap busy s → n < ndirect → HasRoom s.log 2 → NewBlock
  unfolding block_map slot_block set_dinode store_inode
  block_map_new m lt room = rw (lt→ltb n ndirect lt) (
      rw (load_inode_lem s (at s i) ip here) (
        rw (eq→== (ip.dinode.addrs n) 0 (g.unset n (omega arith) lt))
          (elim (block_alloc_lem tx m room) [
            | inl (none_free, full) ↦ inl (rw none_free refl, full)
            | inr (r, k, h, run, a) ↦ inr (
              r,
              k,
              h,
              rw run (
                  rw (ne→== r 0 (omega (arith, a.pos)))
                    (rw (load_inode_lem (changed s k h) (at s i) ip here) refl)),
              a,
            )
          ])))
