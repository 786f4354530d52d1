-- ===== src/INode/Trunc/Slots.antt =====
-- The loop of INode::trunc of src/fs.cxx over the direct slots.
use hitsz_ext.Base.{
  ℕ, zero, suc, min, ◌+◌, ◌<◌, ◌≤◌, ◌≡◌, ◌≢◌, refl, Bool, some, ◌==◌, ltb, inl, inr, eq→==, ne→==,
  Bool-cases, ==→eq, arith, ap, ◌∙◌, sym, subst,
}
use hitsz_ext.Machine.{Map, Block, ndirect, put, put_self, put-put, INode, Sys, LogHeader, ok}
use hitsz_ext.Bitmap.{bit_block, block_free}
use hitsz_ext.Bitmap.Map.{used, FreeMap}
use hitsz_ext.Bitmap.Free.{Freed, block_free_lem}
use hitsz_ext.Content.Owned.{
  Owned, content-cached, used-cached, Tx-cached, FreeMap-cached, Owned-cached,
}
use hitsz_ext.Content.Owned.Freed.{used-Freed, now_free, Owned-Freed, FreeMap-Freed}
use hitsz_ext.Content.Grow.{DirectFile, with_hdr, with_addrs}
use hitsz_ext.INode.{set_dinode, store_inode, free_direct, direct_loop}
use hitsz_ext.INode.Update.{load_inode_lem}
use hitsz_ext.INodeCache.{with_inode}
use hitsz_ext.Log.{set_at}
use hitsz_ext.Transaction.{changed, at, Tx, content}

-- The first `q` slots of a file of `n` blocks are empty, and their blocks free; nothing else has
-- changed but the free map.
pub record Trimmed (busy : ℕ → Bool) (s : Sys) (i : ℕ) (ip : INode) (n q : ℕ) (ip' : INode)
    (t : Sys) : Type 0 where
  pub tx : Tx busy t
  pub map : FreeMap busy t
  pub inodes : t.inodes ≡ put s.inodes (at s i) (some ip')
  pub log : t.log ≡ with_hdr t.log.hdr s.log
  pub sb : t.sb ≡ s.sb
  pub kept : ip' ≡ with_addrs ip'.dinode.addrs ip
  pub gone : (m : ℕ) → m < q → ip'.dinode.addrs m ≡ 0
  pub rest : (m : ℕ) → q ≤ m → ip'.dinode.addrs m ≡ ip.dinode.addrs m
  pub freed : (m : ℕ) → m < q → m < n → used t (ip.dinode.addrs m) ≡ 0
  pub others :
      (c : ℕ) → Owned busy s c → ((m : ℕ) → m < q → m < n → ip.dinode.addrs m ≢ c) → Owned busy t c
  pub still_free : (x : ℕ) → x < s.sb.size → used s x ≡ 0 → used t x ≡ 0
  pub contents :
      (c : ℕ) → ((y : ℕ) → y < s.sb.size → bit_block s.sb y ≢ c) → content t c ≡ content s c
  pub entries : t.log.hdr.n ≤ s.log.hdr.n + min q n

module _ {busy : ℕ → Bool} {s : Sys} (i : ℕ) (ip : INode) (n : ℕ)
    (g : DirectFile busy s i ip.dinode n) where
  pub Trimmed-cached :
      (q : ℕ) (ip' : INode) (t : Sys) → Trimmed busy s i ip n q ip' t → t.inodes (at s i) ≡ some ip'
  Trimmed-cached q ip' t f = (λ j. f.inodes j (at s i)) ∙ put_self s.inodes (at s i) (some ip')

  -- A slot that is empty already.
  skip_slot :
      (q : ℕ) (ip' : INode) (t : Sys)
      → Trimmed busy s i ip n q ip' t
      → n ≤ q
      → q < ndirect
      → Trimmed busy s i ip n (q + 1) ip' t
  skip_slot q ip' t f beyond lt =
      let empty : ip'.dinode.addrs q ≡ 0 = f.rest q (omega arith) ∙ g.unset q beyond lt in
      record {
        tx = f.tx;
        map = f.map;
        inodes = f.inodes;
        log = f.log;
        sb = f.sb;
        kept = f.kept;
        gone = λ m lm. elim (Bool-cases (m == q)) [
          | inl same ↦ ap ip'.dinode.addrs (==→eq m q same) ∙ empty
          | inr other ↦ f.gone m (ground arith)
        ];
        rest = λ m lo. f.rest m (omega arith);
        freed = λ m lm ln. f.freed m (omega arith) ln;
        others = λ c own away. f.others c own (λ m lm ln. away m (omega arith) ln);
        still_free = f.still_free;
        contents = f.contents;
        entries = omega (arith, f.entries);
      }

  slot-Owned :
      (q : ℕ) (ip' : INode) (t : Sys)
      → Trimmed busy s i ip n q ip' t
      → q < n
      → Owned busy t (ip.dinode.addrs q)
  slot-Owned q ip' t f lt =
      f.others (ip.dinode.addrs q) (g.owned q lt)
        (λ m lm ln e. omega (arith, g.distinct m q ln lt e))

  -- A slot with a block.
  clear_slot :
      (q : ℕ) (ip' : INode) (t : Sys) (f : Trimmed busy s i ip n q ip' t)
      → q < n
      → (k : Map Block) (h : LogHeader) → Freed busy t (ip.dinode.addrs q) (changed t k h)
      → let ip'' = with_addrs (set_at ip'.dinode.addrs q 0) ip' in
        Trimmed busy s i ip n (q + 1) ip'' (with_inode (changed t k h) (at s i) (some ip''))
  clear_slot q ip' t f lt k h e =
      let b : ℕ = ip.dinode.addrs q in
      let o : Owned busy t b = slot-Owned q ip' t f lt in
      let ip'' : INode = with_addrs (set_at ip'.dinode.addrs q 0) ip' in
      let u : Sys = changed t k h in
      let w : Sys = with_inode u (at s i) (some ip'') in
      let size : t.sb.size ≡ s.sb.size = ap (λ x. x.size) f.sb in
      let kept_used : (c : ℕ) → c < t.sb.size → c ≢ b → used w c ≡ used t c =
        λ c lc ne. used-cached u (at s i) ip'' c ∙ used-Freed f.map b o e c lc ne in
      let b_free : used w b ≡ 0 = used-cached u (at s i) ip'' b ∙ now_free f.map b o e in
      record {
        tx = Tx-cached (at s i) ip'' e.tx;
        map = FreeMap-cached (at s i) ip'' (FreeMap-Freed f.map b o e);
        inodes =
            ap (λ m. put m (at s i) (some ip'')) f.inodes
            ∙ put-put s.inodes (at s i) (some ip') (some ip'');
        log = ap (with_hdr h) f.log;
        sb = f.sb;
        kept = ap (with_addrs ip''.dinode.addrs) f.kept;
        gone = λ m lm. elim (Bool-cases (m == q)) [
          | inl same ↦ rw same refl
          | inr other ↦ rw other (f.gone m (ground arith))
        ];
        rest = λ m lo. rw (ne→== m q (omega arith)) (f.rest m (omega arith));
        freed = λ m lm ln. elim (Bool-cases (m == q)) [
          | inl same ↦ ap (λ x. used w (ip.dinode.addrs x)) (==→eq m q same) ∙ b_free
          | inr other ↦
              let ne : m ≢ q = ground arith in
              kept_used (ip.dinode.addrs m) (omega (arith, size, (g.owned m ln).inside))
                (λ same. ne (g.distinct m q ln lt same))
              ∙ f.freed m (ground arith) ln
        ];
        others = λ c own away. Owned-cached (at s i) ip'' c (
            Owned-Freed f.map b o e c (f.others c own (λ m lm ln. away m (omega arith) ln))
              (λ same. away q (omega arith) lt (sym same)));
        still_free = λ x lx free. elim (Bool-cases (x == b)) [
          | inl same ↦ ap (used w) (==→eq x b same) ∙ b_free
          | inr other ↦ kept_used x (omega (arith, size)) (ground arith) ∙ f.still_free x lx free
        ];
        contents = λ c apart.
            content-cached u (at s i) ip'' c
            ∙ e.others c (λ same.
              apart b (g.owned q lt).inside (ap (λ x. bit_block x b) (sym f.sb) ∙ sym same))
            ∙ f.contents c apart;
        entries = omega (arith, e.entries, f.entries);
      }

  -- The loop over the direct slots, with `rounds` of them left from `q` on.
  pub direct_loop_lem :
      (rounds q : ℕ) (ip' : INode) (t : Sys)
      → Trimmed busy s i ip n q ip' t
      → q + rounds ≤ ndirect
      → s.log.hdr.n + n ≤ 30
      → s.log.hdr.n + n < s.log.size
      → (ip'' : INode) × (u : Sys) × (direct_loop (at s i) rounds q t ≡ ok tt u)
        × Trimmed busy s i ip n (q + rounds) ip'' u
  unfolding direct_loop free_direct set_dinode store_inode
  direct_loop_lem zero q ip' t f few fits room =
      (ip', t, refl, subst (λ r. Trimmed busy s i ip n r ip' t) (omega arith) f)
  direct_loop_lem (suc rounds) q ip' t f few fits room =
      let here : t.inodes (at s i) ≡ some ip' = Trimmed-cached q ip' t f in
      let next : q + 1 + rounds ≡ q + suc rounds = omega arith in
      let slot : ip'.dinode.addrs q ≡ ip.dinode.addrs q = f.rest q (omega arith) in
      let log_size : t.log.size ≡ s.log.size = ap (λ l. l.size) f.log in
      let dev : t.log.dev ≡ s.log.dev = ap (λ l. l.dev) f.log in
      elim (Bool-cases (ltb q n)) [
        | inl inside ↦
            let o : Owned busy t (ip.dinode.addrs q) = slot-Owned q ip' t f (ground arith) in
            let (k, h, run, e) =
              block_free_lem f.tx f.map (ip.dinode.addrs q) o.inside o.in_use (record {
                fits = ground (arith, f.entries);
                room = ground (arith, f.entries, log_size);
              }) in
            let ip'' : INode = with_addrs (set_at ip'.dinode.addrs q 0) ip' in
            let w : Sys = with_inode (changed t k h) (at s i) (some ip'') in
            let (last, u, ran, done) =
              direct_loop_lem rounds (q + 1) ip'' w (clear_slot q ip' t f (ground arith) k h e)
                (omega arith) (omega arith) (omega arith) in
            (
              last,
              u,
              rw (load_inode_lem t (at s i) ip' here) (
                  rw (ne→== (ip'.dinode.addrs q) 0 (omega (arith, slot, o.pos))) (
                    rw
                      (ap (λ d. block_free d (ip'.dinode.addrs q) t) (sym dev)
                        ∙ ap (λ b. block_free t.log.dev b t) slot
                        ∙ run)
                      (rw (load_inode_lem (changed t k h) (at s i) ip' here) (rw ran refl)))),
              subst (λ r. Trimmed busy s i ip n r last u) next done,
            )
        | inr beyond ↦
            let (last, u, ran, done) =
              direct_loop_lem rounds (q + 1) ip' t
                (skip_slot q ip' t f (ground arith) (ground arith)) (omega arith) (omega arith)
                (omega arith) in
            (
              last,
              u,
              rw (load_inode_lem t (at s i) ip' here) (
                  rw (eq→== (ip'.dinode.addrs q) 0 (slot ∙ g.unset q (ground arith) (ground arith)))
                    (rw ran refl)),
              subst (λ r. Trimmed busy s i ip n r last u) next done,
            )
      ]
