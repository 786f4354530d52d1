-- ===== src/INodeCache/Alloc.antt =====
-- inode_alloc of src/INodeCache.cxx inside a transaction.
use hitsz_ext.Base.{
  ℕ, zero, suc, ◌+◌, ◌-◌, ◌*◌, ◌%◌, ◌^◌, ◌<◌, ◌≤◌, ◌≡◌, ◌≢◌, refl, Bool, false, some, none, Option,
  ◌==◌, inl, inr, ◌⊎◌, Bool-cases, ==→eq, arith, ap, ◌∙◌, sym, subst,
}
use hitsz_ext.Bytes.{Data, zeroes, clear, get16, get32, put16}
use hitsz_ext.Bytes.RoundTrip.{get16-put16_self, get_words-lt}
use hitsz_ext.Bytes.Frame.{Clear, put16_ne, get16_cong, get32_cong}
use hitsz_ext.Machine.{Key, inode_per_block, dinode_size, DiskINode, INode, Sys, Run, ok}
use hitsz_ext.Content.Owned.{content-cached}
use hitsz_ext.INode.{inode_block, inode_offset}
use hitsz_ext.INode.Codec.{decode_dinode}
use hitsz_ext.INode.Codec.Laws.{SameINode, decode_dinode_cong}
use hitsz_ext.INode.Update.{disk_inode, disk_inode_ne}
use hitsz_ext.INodeCache.{
  blank_dinode, with_inode, one_more, inode_get, claim_inode, inode_alloc_loop, inode_alloc,
}
use hitsz_ext.Transaction.{at, Tx, IsHome, HasRoom, content, hold, logged}
use hitsz_ext.Transaction.Hold.{tx_read, tx_release, load-hold, store-hold}
use hitsz_ext.Transaction.Finish.{tx_finish, content-logged_self, content-logged_ne}

-- A slot of a block after `memset` and the assignment of its type.
module _ (d : Data) (o type : ℕ) where
  abbrev claimed : Data
  claimed = put16 (clear d o dinode_size) o type

  claimed_zero : (p : ℕ) → o + 2 ≤ p → p < o + dinode_size → claimed p ≡ 0
  unfolding clear
  claimed_zero p lo hi = put16_ne (clear d o dinode_size) o type p (omega arith) ∙ ground arith

  claimed_out : (p : ℕ) → Clear o dinode_size p → claimed p ≡ d p
  unfolding clear
  claimed_out p out = put16_ne (clear d o dinode_size) o type p (omega arith) ∙ ground arith

  zero16 : (p : ℕ) → o + 2 ≤ p → p + 2 ≤ o + dinode_size → get16 claimed p ≡ 0
  zero16 p lo hi =
      get16_cong claimed zeroes p (λ q l h. claimed_zero q (omega arith) (omega arith))
      ∙ (unfold get16 in refl)

  zero32 : (p : ℕ) → o + 2 ≤ p → p + 4 ≤ o + dinode_size → get32 claimed p ≡ 0
  zero32 p lo hi =
      get32_cong claimed zeroes p (λ q l h. claimed_zero q (omega arith) (omega arith))
      ∙ (unfold get32 in refl)

  abbrev pub new_dinode : DiskINode
  new_dinode = record blank_dinode { type = type }

  decode-claimed : type < 2 ^ 16 → SameINode (decode_dinode claimed o) new_dinode
  unfolding decode_dinode
  decode-claimed small = record {
    type = get16-put16_self (clear d o dinode_size) o type small;
    major = zero16 (o + 2) (omega arith) (omega arith);
    minor = zero16 (o + 4) (omega arith) (omega arith);
    nlink = zero16 (o + 6) (omega arith) (omega arith);
    size = zero32 (o + 8) (omega arith) (omega arith);
    addrs = λ i lt.
        get_words-lt 13 claimed (o + 12) (λ _. 0) i lt
        ∙ zero32 (o + 12 + 4 * i) (omega arith) (omega arith);
  }

decode-claimed_ne :
    (d : Data) (type p q : ℕ)
    → p ≢ q
    → decode_dinode (claimed d (64 * p) type) (64 * q) ≡ decode_dinode d (64 * q)
decode-claimed_ne d type p q ne =
    decode_dinode_cong (claimed d (64 * p) type) d (64 * q)
      (λ r lo hi. claimed_out d (64 * p) type r (omega arith))

-- The blocks of the inodes are the transaction's to change.
pub record Table (busy : ℕ → Bool) (s : Sys) : Type 0 where
  pub start : s.sb.inodestart < 2 ^ 22
  pub few : s.sb.ninodes < 2 ^ 32
  pub home : (i : ℕ) → i < s.sb.ninodes → IsHome s.log (inode_block s.sb i)
  pub idle : (i : ℕ) → i < s.sb.ninodes → busy (inode_block s.sb i) ≡ false

-- The first inode from 1 on that is free.
pub record FirstINode (s : Sys) (i : ℕ) : Type 0 where
  pub pos : 1 ≤ i
  pub inside : i < s.sb.ninodes
  pub free : (disk_inode s i).type ≡ 0
  pub before : (j : ℕ) → 1 ≤ j → j < i → (disk_inode s j).type ≢ 0

-- The inode `i` is in use with a type and is cached; nothing else has changed.
pub record NewINode (busy : ℕ → Bool) (s : Sys) (i type : ℕ) (t : Sys) : Type 0 where
  pub tx : Tx busy t
  pub inodes : t.inodes ≡ (with_inode s (at s i) (some (one_more (s.inodes (at s i))))).inodes
  pub made : SameINode (disk_inode t i) (record blank_dinode { type = type })
  pub kept : (j : ℕ) → j < 2 ^ 32 → j ≢ i → disk_inode t j ≡ disk_inode s j
  pub others : (c : ℕ) → c ≢ inode_block s.sb i → content t c ≡ content s c
  pub entries : t.log.hdr.n ≤ s.log.hdr.n + 1

module _ {busy : ℕ → Bool} {s : Sys} (tx : Tx busy s) (m : Table busy s) (room : HasRoom s.log 1)
    (type : ℕ) (small : type < 2 ^ 16) where
  claim :
      (i : ℕ)
      → i < s.sb.ninodes
      → let b = inode_block s.sb i in
        (t : Sys) × (claim_inode s.log.dev type (at s b) i (hold s b (content s b))
          ≡ ok (some (at s i)) t)
        × NewINode busy s i type t
  unfolding claim_inode inode_get disk_inode
  claim i lt =
      let b : ℕ = inode_block s.sb i in
      let e : Data = claimed (content s b) (inode_offset i) type in
      let (h, done, tx', lo, hi) = tx_finish tx b (m.home i lt) e (m.idle i lt) room in
      let u : Sys = logged s b e h in
      let k : Key = at s i in
      let ip : INode = one_more (s.inodes k) in
      let t : Sys = with_inode u k (some ip) in
      (
        t,
        rw (load-hold s b (content s b)) (rw (store-hold s b (content s b) e) (rw done refl)),
        record {
          tx = record { layout = tx'.layout; opened = tx'.opened; settled = tx'.settled };
          inodes = refl;
          made =
              subst
                (λ d.
                  SameINode (decode_dinode d (inode_offset i))
                    (record blank_dinode { type = type }))
                (sym (content-cached u k ip b ∙ content-logged_self s b e h))
                (decode-claimed (content s b) (inode_offset i) type small);
          kept = λ j lj ne.
              ap (λ d. decode_dinode d (inode_offset j))
                (content-cached u k ip (inode_block s.sb j))
              ∙ disk_inode_ne s i e h m.start (omega (arith, m.few))
                  (λ q other. decode-claimed_ne (content s b) type (i % inode_per_block) q other) j
                  lj ne;
          others = λ c ne. content-cached u k ip c ∙ content-logged_ne s b e h c ne;
          entries = hi;
        },
      )

  -- What the search comes to: no inode is free, and nothing has changed; or the first one is taken.
  abbrev pub Search : Run (Option Key) → Type 0
  Search out =
      ((out ≡ ok none s) × ((i : ℕ) → 1 ≤ i → i < s.sb.ninodes → (disk_inode s i).type ≢ 0))
      ⊎ ((i : ℕ) × (t : Sys) × FirstINode s i
          × (out ≡ ok (some (at s i)) t)
          × NewINode busy s i type t)

  alloc_loop_lem :
      (rounds i : ℕ)
      → 1 ≤ i
      → rounds ≡ s.sb.ninodes - i
      → ((j : ℕ) → 1 ≤ j → j < i → (disk_inode s j).type ≢ 0)
      → Search (inode_alloc_loop s.log.dev type rounds i s)
  unfolding inode_alloc_loop disk_inode decode_dinode
  alloc_loop_lem zero i pos left before = inl (refl, λ j lo hi. before j lo (omega arith))
  alloc_loop_lem (suc rounds) i pos left before =
      let b : ℕ = inode_block s.sb i in
      let lt : i < s.sb.ninodes = omega arith in
      rw (tx_read tx b (m.idle i lt) (m.home i lt).small) (
        rw (load-hold s b (content s b))
          (elim (Bool-cases (get16 (content s b) (inode_offset i) == 0)) [
            | inl free ↦
                let (t, run, made) = claim i lt in
                rw free (
                  inr (
                    i,
                    t,
                    record { pos = pos; inside = lt; free = ==→eq _ 0 free; before = before },
                    run,
                    made,
                  ))
            | inr taken ↦
                let here : get16 (content s b) (inode_offset i) ≢ 0 = ground arith in
                rw taken (
                  rw (tx_release tx b (m.idle i lt)) (
                    alloc_loop_lem rounds (i + 1) (omega arith) (omega arith) (λ j lo hi.
                      elim (Bool-cases (j == i)) [
                        | inl same ↦ λ free. here (
                            ap (λ q. get16 (content s (inode_block s.sb q)) (inode_offset q))
                              (sym (==→eq j i same))
                            ∙ free)
                        | inr other ↦ before j lo (ground arith)
                      ])))
          ]))

  -- Inside a transaction, with the blocks of the inodes the transaction's to change and room for one
  -- block in the log, for a type below 2^16: inode_alloc takes the first inode from 1 on whose type on
  -- the disk is 0, gives it the type and no link, size or block, leaves every other inode and every
  -- other block as they were, and returns it with one reference more in the cache; or, if no inode is
  -- free, it returns none and changes nothing.
  pub inode_alloc_lem : Search (inode_alloc s.log.dev type s)
  unfolding inode_alloc
  inode_alloc_lem =
      alloc_loop_lem (s.sb.ninodes - 1) 1 (omega arith) refl (λ j lo hi. absurd (omega arith))
