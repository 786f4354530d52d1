-- ===== src/Content/Grow.antt =====
-- A file of direct blocks while INode::write of src/fs.cxx makes it longer.
pub mod Block
pub mod Round
pub mod Loop
pub mod Finish
pub mod Append
use hitsz_ext.Base.{
  ℕ, zero, suc, ◌+◌, ◌-◌, ◌*◌, ◌/◌, ◌%◌, ◌<◌, ◌≤◌, ◌≡◌, ◌≢◌, refl, Bool, true, some, List, [], ◌∷◌,
  ◌++◌, ltb, length, take, drop, inl, inr, ◌⊎◌, lt→ltb, Bool-cases, ==→eq, arith, ap, ap₂, ◌∙◌, sym,
  subst,
}
use hitsz_ext.Bytes.{Data}
use hitsz_ext.Machine.{
  bsize, ndirect, key, put, put-put, DiskINode, INode, Sys, LogHeader, LogState,
}
use hitsz_ext.Bitmap.Map.{used, FreeMap}
use hitsz_ext.Content.{splice}
use hitsz_ext.Content.Mapped.{block_at, file_data, IsPlaced, Mapped}
use hitsz_ext.Content.Owned.{Owned}
use hitsz_ext.Content.Splice.{place, splice_in, splice_out, splice_split}
use hitsz_ext.Content.Store.{Storable}
use hitsz_ext.INode.{inode_block}
use hitsz_ext.Transaction.{at, Tx, content}

-- The first `n` blocks of a file are its own, and apart from the inode's; no later direct one is
-- allocated.
pub record DirectFile (busy : ℕ → Bool) (s : Sys) (i : ℕ) (d : DiskINode) (n : ℕ) : Type 0 where
  pub direct : n ≤ ndirect
  pub owned : (m : ℕ) → m < n → Owned busy s (d.addrs m)
  pub distinct : (m p : ℕ) → m < n → p < n → d.addrs m ≡ d.addrs p → m ≡ p
  pub unset : (m : ℕ) → n ≤ m → m < ndirect → d.addrs m ≡ 0
  pub inode : Owned busy s (inode_block s.sb i)
  pub inode_apart : (m : ℕ) → m < n → d.addrs m ≢ inode_block s.sb i

pub block_at-direct : (s : Sys) (d : DiskINode) (m : ℕ) → m < ndirect → block_at s d m ≡ d.addrs m
block_at-direct s d m lt = rw (lt→ltb m ndirect lt) refl

pub file_data-direct :
    (s : Sys) (d : DiskINode) (j : ℕ)
    → j / bsize < ndirect
    → file_data s d j ≡ content s (d.addrs (j / bsize)) (j % bsize)
file_data-direct s d j lt = ap (λ b. content s b (j % bsize)) (block_at-direct s d (j / bsize) lt)

-- Such a file with any size that its blocks can hold.
pub DirectFile-Storable :
    {busy : ℕ → Bool} {s : Sys} {i : ℕ} {d : DiskINode} {n : ℕ}
    → DirectFile busy s i d n
    → (size : ℕ) → size ≤ n * bsize
    → Storable busy s (record d { size = size })
DirectFile-Storable {busy} {s} {i} {d} {n} g size le = record {
  mapped = record {
    fits = omega (arith, g.direct);
    indirect = λ far. absurd (omega (arith, g.direct));
    block = λ m lt.
        let o : Owned busy s (d.addrs m) = g.owned m (omega arith) in
        subst (IsPlaced busy) (sym (block_at-direct s d m (omega (arith, g.direct))))
          (record { pos = o.pos; small = o.home.small; idle = o.idle });
  };
  home = λ m lt.
      let o : Owned busy s (d.addrs m) = g.owned m (omega arith) in
      rw (block_at-direct s d m (omega (arith, g.direct))) o.home;
  distinct = λ m p lm lp e. g.distinct m p (omega arith) (omega arith) (
      sym (block_at-direct s d m (omega (arith, g.direct)))
      ∙ e
      ∙ block_at-direct s d p (omega (arith, g.direct)));
  not_indirect = λ m lt far. absurd (omega (arith, g.direct));
}

abbrev pub with_hdr : LogHeader → LogState → LogState
with_hdr h l = record l { hdr = h }

abbrev pub with_addrs : (ℕ → ℕ) → INode → INode
with_addrs a ip = record ip { dinode = record ip.dinode { addrs = a } }

-- What a write leaves of a file of `n` blocks after it put `cs` at `off`, with at most `k` entries
-- more in the log: `ip` has become `ip'`, with `n'` blocks. The last field is about blocks that are
-- in use for something else.
pub record Grown (busy : ℕ → Bool) (s : Sys) (i : ℕ) (ip : INode) (n off : ℕ) (cs : List ℕ) (k : ℕ)
    (ip' : INode) (n' : ℕ) (t : Sys) : Type 0 where
  pub tx : Tx busy t
  pub map : FreeMap busy t
  pub file : DirectFile busy t i ip'.dinode n'
  pub inodes : t.inodes ≡ put s.inodes (at s i) (some ip')
  pub log : t.log ≡ with_hdr t.log.hdr s.log
  pub sb : t.sb ≡ s.sb
  pub kept : ip' ≡ with_addrs ip'.dinode.addrs ip
  pub more : n ≤ n'
  pub covered : off + length cs ≤ n' * bsize
  pub bytes :
      (j : ℕ)
      → (j < n * bsize) ⊎ (j < off + length cs)
      → file_data t ip'.dinode j ≡ splice (file_data s ip.dinode) off cs j
  pub entries : t.log.hdr.n ≤ s.log.hdr.n + k
  pub others :
      (c : ℕ)
      → Owned busy s c
      → ((m : ℕ) → m < n → ip.dinode.addrs m ≢ c)
      → Owned busy t c × ((m : ℕ) → m < n' → ip'.dinode.addrs m ≢ c) × (content t c ≡ content s c)

-- Every block of the disk is in use.
abbrev pub Full : Sys → Type 0
Full t = (x : ℕ) → x < t.sb.size → used t x ≡ 1

take-length : (a b : List ℕ) → take (length a) (a ++ b) ≡ a
take-length [] b = refl
take-length (x ∷ a) b = ap (λ l. x ∷ l) (take-length a b)

drop-length : (a b : List ℕ) → drop (length a) (a ++ b) ≡ b
drop-length [] b = refl
drop-length (x ∷ a) b = drop-length a b

pub length-append : (a b : List ℕ) → length (a ++ b) ≡ length a + length b
length-append [] b = omega arith
length-append (x ∷ a) b = omega (arith, length-append a b)

-- Two stores, the second one after the first, are one.
splice-splice :
    (f : Data) (off : ℕ) (a b : List ℕ) (j : ℕ)
    → splice (splice f off a) (off + length a) b j ≡ splice f off (a ++ b) j
splice-splice f off a b j = sym (
    splice_split f off (length a) (a ++ b) j (omega (arith, length-append a b))
    ∙ ap₂ (λ p q. splice (splice f off p) (off + length a) q j) (take-length a b) (drop-length a b))

splice_agree_out :
    (f g : Data) (off : ℕ) (cs : List ℕ) (j : ℕ)
    → ((j < off) ⊎ (off + length cs ≤ j) → f j ≡ g j)
    → splice f off cs j ≡ splice g off cs j
splice_agree_out f g off cs j same = elim (place off (length cs) j) [
  | inl out ↦ splice_out f off cs j out ∙ same out ∙ sym (splice_out g off cs j out)
  | inr (p, lt, e) ↦
      ap (splice f off cs) e
      ∙ splice_in f off cs p lt
      ∙ sym (ap (splice g off cs) e ∙ splice_in g off cs p lt)
]

pub Grown-trans :
    {busy : ℕ → Bool} {s u t : Sys} (i : ℕ) (ip ip' ip'' : INode) (n n' n'' off off' : ℕ)
    (a b : List ℕ) (k k' : ℕ)
    → off' ≡ off + length a
    → Grown busy s i ip n off a k ip' n' u
    → Grown busy u i ip' n' off' b k' ip'' n'' t
    → Grown busy s i ip n off (a ++ b) (k + k') ip'' n'' t
Grown-trans {busy} {s} {u} {t} i ip ip' ip'' n n' n'' off off' a b k k' at_end f g =
    let len : length (a ++ b) ≡ length a + length b = length-append a b in
    let same_key : at u i ≡ at s i = ap (λ l. key l.dev i) f.log in
    record {
      tx = g.tx;
      map = g.map;
      file = g.file;
      inodes =
          g.inodes
          ∙ ap₂ (λ m x. put m x (some ip'')) f.inodes same_key
          ∙ put-put s.inodes (at s i) (some ip') (some ip'');
      log = g.log ∙ ap (with_hdr t.log.hdr) f.log;
      sb = g.sb ∙ f.sb;
      kept = g.kept ∙ ap (with_addrs ip''.dinode.addrs) f.kept;
      more = omega (arith, f.more, g.more);
      covered = omega (arith, len, g.covered);
      bytes = λ j near.
          g.bytes j (omega (arith, len, near, f.more))
          ∙ splice_agree_out (file_data u ip'.dinode) (splice (file_data s ip.dinode) off a) off' b
              j (λ out. f.bytes j (omega (arith, len, near, out)))
          ∙ ap (λ o. splice (splice (file_data s ip.dinode) off a) o b j) at_end
          ∙ splice-splice (file_data s ip.dinode) off a b j;
      entries = omega (arith, f.entries, g.entries);
      others = λ c own away.
          let (own', away', same) = f.others c own away in
          let (own'', away'', same') = g.others c own' away' in (own'', away'', same' ∙ same);
    }
