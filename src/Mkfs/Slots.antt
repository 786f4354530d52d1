-- ===== src/Mkfs/Slots.antt =====
-- The blocks that iappend takes for a file, and the state of the image between its stores.
use hitsz_ext.Base.{
  ℕ, ◌+◌, ◌/◌, ◌^◌, ◌<◌, ◌≤◌, ◌≡◌, ◌≢◌, ◌⊎◌, refl, arith, inl, inr, subst, ne→==, eq→==, lt→ltb,
  ge→ltb, inc32_small,
}
use hitsz_ext.Bytes.{Data, zeroes}
use hitsz_ext.Machine.{DiskINode}
use hitsz_ext.INode.Codec.{decode_dinode}
use hitsz_ext.Mkfs.{
  Maker, Stop, exited, aborted, unfinished, Out, done, stopped, Make, and_then, seek, wsect, rsect,
  super_block, encode_super, ioffset, next_block, with_addr, fill_slot,
}
use hitsz_ext.Mkfs.Words.{xint_small}
use hitsz_ext.Mkfs.Table.{
  Table, max_inode, IsSlot, Placed, row, with_word, with_block, Placed-direct, Placed-pointer,
  pointer_lt, row_self, row_word_cases, row_word_ne,
}

-- A stop that mkfs reports, by exit(1) or an assert.
abbrev pub IsReported : Stop → Type 0
IsReported exited = Unit
IsReported aborted = Unit
IsReported unfinished = ⊥

-- The run returns with what `P` says, or stops with a report.
abbrev pub Yields : {A : Type 0} → (A → Maker → Type 0) → Out A → Type 0
Yields P (done x t) = P x t
Yields P (stopped e) = IsReported e

pub Yields-and_then :
    {A B : Type 0} (P : A → Maker → Type 0) (Q : B → Maker → Type 0) (r : Out A) (f : A → Make B)
    → Yields P r
    → ((x : A) (t : Maker) → P x t → Yields Q (f x t))
    → Yields Q (and_then r f)
Yields-and_then P Q (done x t) f h g = g x t h
Yields-and_then P Q (stopped e) f h g = h

-- The inode `i` in the image.
abbrev pub dinode_of : (ℕ → Data) → ℕ → DiskINode
dinode_of f i = decode_dinode (f (32 + i / 16)) (ioffset i)

-- `n` is the next inode, `d` the table in the inode blocks, `a` the one that also counts what is not
-- stored yet.
pub record Sound (n : ℕ) (d a : Table) (s : Maker) : Type 0 where
  pub blocks : s.blocks ≡ 1000
  pub sb : s.sb ≡ super_block
  pub super : s.file 1 ≡ encode_super super_block zeroes
  pub head : s.file 2 ≡ zeroes
  pub free : s.freeinode ≡ n
  pub stored : (i k : ℕ) → i < max_inode → k < 13 → (dinode_of s.file i).addrs k ≡ d i k
  pub placed : Placed s.file a s.used_block

pub seek_small : (b : ℕ) → b < 2 ^ 22 → seek b ≡ b
unfolding seek
seek_small b lt = omega arith

pub rsect_lem : (s : Maker) (b : ℕ) → s.blocks ≡ 1000 → b < 1000 → rsect b s ≡ done (s.file b) s
unfolding rsect
rsect_lem s b e lt = rw (seek_small b (omega arith), e, lt→ltb b 1000 lt) refl

-- A read past the image exits.
pub rsect_past :
    (s : Maker) (b : ℕ) → s.blocks ≡ 1000 → 1000 ≤ b → b < 2 ^ 22 → rsect b s ≡ stopped exited
unfolding rsect
rsect_past s b e le lt = rw (seek_small b lt) (rw (ge→ltb b s.blocks (omega arith)) refl)

-- The state after a store.
abbrev pub with_store : Maker → ℕ → Data → Maker
with_store s b x = record s { file = with_block s.file b x }

pub wsect_lem :
    (s : Maker) (b : ℕ) (x : Data)
    → s.blocks ≡ 1000
    → b < 1000
    → wsect b x s ≡ done tt (with_store s b x)
unfolding wsect
wsect_lem s b x e lt = rw (seek_small b (omega arith)) (rw (lt→ltb b s.blocks (omega arith)) refl)

-- The state after a block is taken.
abbrev pub with_next : Maker → Maker
with_next s = record s { used_block = s.used_block + 1 }

pub next_block_lem :
    (s : Maker) → s.used_block ≤ 2000 → next_block s ≡ done s.used_block (with_next s)
unfolding next_block
next_block_lem s le = rw (inc32_small s.used_block (omega arith)) refl

fill_slot_kept :
    (din : DiskINode) (k : ℕ) (s : Maker)
    → din.addrs k ≢ 0
    → din.addrs k < 2 ^ 32
    → fill_slot din k s ≡ done din s
unfolding fill_slot
fill_slot_kept din k s pos lt =
    rw (xint_small (din.addrs k) lt) (rw (ne→== (din.addrs k) 0 pos) refl)

fill_slot_new :
    (din : DiskINode) (k : ℕ) (s : Maker)
    → din.addrs k ≡ 0
    → s.used_block ≤ 2000
    → fill_slot din k s ≡ done (with_addr din k s.used_block) (with_next s)
unfolding fill_slot
fill_slot_new din k s null le = rw (xint_small (din.addrs k) (omega arith)) (
    rw (eq→== (din.addrs k) 0 null)
      (rw (next_block_lem s le) (rw (xint_small s.used_block (omega arith)) refl)))

Sound-next :
    {n : ℕ} {d a : Table} {s : Maker}
    → Sound n d a s
    → (b : Table) → Placed s.file b (s.used_block + 1)
    → Sound n d b (with_next s)
Sound-next st b p = record {
  blocks = st.blocks;
  sb = st.sb;
  super = st.super;
  head = st.head;
  free = st.free;
  stored = st.stored;
  placed = p;
}

module _ (n : ℕ) (d a : Table) (inum : ℕ) (inside : inum < max_inode) where
  -- The state in which the inode is in memory, with the blocks that are taken for it.
  abbrev pub SoundFor : DiskINode → Maker → Type 0
  SoundFor din s = Sound n d (row a inum din.addrs) s

  -- A block that is in use, and at the end of those in use if it is past the image.
  abbrev pub IsTaken : ℕ → Maker → Type 0
  IsTaken b t =
      (46 ≤ b)
      × (b < t.used_block)
      × (t.used_block ≤ 1001)
      × ((t.used_block ≤ 1000) ⊎ (t.used_block ≡ b + 1))

  abbrev pub NoPointer : DiskINode → ℕ → Type 0
  NoPointer din b = (i : ℕ) → i < max_inode → row a inum din.addrs i 12 ≢ b

  abbrev pub DirectTaken : ℕ → DiskINode → Maker → Type 0
  DirectTaken k din t = SoundFor din t × IsTaken (din.addrs k) t × NoPointer din (din.addrs k)

  abbrev pub PointerTaken : DiskINode → Maker → Type 0
  PointerTaken din t = SoundFor din t × IsTaken (din.addrs 12) t

  pub fill_direct :
      (din : DiskINode) (k : ℕ) (s : Maker)
      → SoundFor din s
      → s.used_block ≤ 1000
      → k < 12
      → Yields (DirectTaken k) (fill_slot din k s)
  fill_direct din k s st le lk =
      let p = st.placed in
      let u : ℕ = s.used_block in
      let b : Table = row a inum (with_word din.addrs k u) in
      let slot : IsSlot (row a inum din.addrs) u (din.addrs k) =
        subst (λ r. IsSlot (row a inum din.addrs) u (r k)) (row_self a inum din.addrs)
          (p.direct inum k inside lk) in
      elim slot [
        | inl null ↦
            let same : (i : ℕ) → i < max_inode → b i 12 ≡ row a inum din.addrs i 12 =
              λ i li. row_word_ne a inum din.addrs k u i 12 (omega arith) in
            let q : Placed s.file b (u + 1) =
              Placed-direct p b same (λ i j li lj. row_word_cases a inum din.addrs k u i j) in
            rw (fill_slot_new din k s null (omega arith), Yields)
              (rw (eq→== k k refl) (
                Sound-next st b q,
                (p.low, omega arith, omega arith, inr refl),
                λ i li e. omega (arith, same i li, pointer_lt p i li),
              ))
        | inr (lo, hi, apart) ↦
            rw (fill_slot_kept din k s (omega arith) (omega arith), Yields)
              (st, (lo, hi, omega arith, inl le), apart)
      ]

  pub fill_pointer :
      (din : DiskINode) (s : Maker)
      → SoundFor din s
      → s.used_block ≤ 1000
      → Yields PointerTaken (fill_slot din 12 s)
  fill_pointer din s st le =
      let p = st.placed in
      let u : ℕ = s.used_block in
      let b : Table = row a inum (with_word din.addrs 12 u) in
      let word : (din.addrs 12 ≡ 0) ⊎ ((46 ≤ din.addrs 12) × (din.addrs 12 < u)) =
        subst (λ r. (r 12 ≡ 0) ⊎ ((46 ≤ r 12) × (r 12 < u))) (row_self a inum din.addrs)
          (p.pointer inum inside) in
      elim word [
        | inl null ↦
            let q : Placed s.file b (u + 1) =
              Placed-pointer p b
                (λ i li. elim (row_word_cases a inum din.addrs 12 u i 12) [
                  | inl old ↦ inl old
                  | inr new ↦ inr (inr new)
                ])
                (λ i j li lj. inl (row_word_ne a inum din.addrs 12 u i j (omega arith))) in
            rw (fill_slot_new din 12 s null (omega arith), Yields)
              (Sound-next st b q, (p.low, omega arith, omega arith, inr refl))
        | inr (lo, hi) ↦
            rw (fill_slot_kept din 12 s (omega arith) (omega arith), Yields)
              (st, (lo, hi, omega arith, inl le))
      ]
