-- ===== src/Mkfs/INodes.antt =====
-- The inodes in the image: rinode, winode, ialloc and iappend of mkfs/mkfs.c.
use hitsz_ext.Base.{
  ℕ, ◌+◌, ◌/◌, ◌%◌, ◌^◌, ◌<◌, ◌≤◌, ◌≡◌, ◌≢◌, ◌⊎◌, List, refl, arith, inl, inr, ◌∙◌, ap, sym, subst,
  Bool-cases, ◌==◌, ne→==, eq→==, ==→eq, length, u32, inc32, inc32_small,
}
use hitsz_ext.Bytes.{Data}
use hitsz_ext.Bytes.RoundTrip.{get_words-lt, get32-put_words}
use hitsz_ext.Machine.{DiskINode}
use hitsz_ext.INode.Codec.{decode_dinode, encode_dinode}
use hitsz_ext.INode.Codec.Laws.{decode-encode_ne}
use hitsz_ext.Mkfs.{
  Maker, done, xint, super_block, ioffset, iblock, winode, rinode, next_inode, fresh_dinode, ialloc,
  iappend, pure, ◌>>◌,
}
use hitsz_ext.Mkfs.Words.{xint_small}
use hitsz_ext.Mkfs.Table.{
  Table, max_inode, row, with_block, Placed-with_block, Placed-clear, pointer_lt, row_self,
}
use hitsz_ext.Mkfs.Slots.{
  Yields, Yields-and_then, Sound, SoundFor, dinode_of, with_store, rsect_lem, wsect_lem,
}
use hitsz_ext.Mkfs.Append.{Kept, append_loop_lem}

inodestart_lem : super_block.inodestart ≡ 32
unfolding super_block
inodestart_lem = xint_small 32 (omega arith)

iblock_lem :
    {n : ℕ} {d a : Table} {s : Maker}
    → Sound n d a s
    → (inum : ℕ) → inum < max_inode
    → iblock inum s.sb ≡ 32 + inum / 16
unfolding u32
iblock_lem st inum lt = omega (arith, ap (λ x. x.inodestart) st.sb ∙ inodestart_lem)

pub rinode_lem :
    {n : ℕ} {d a : Table} (s : Maker)
    → Sound n d a s
    → (inum : ℕ) → inum < max_inode
    → rinode inum s ≡ done (dinode_of s.file inum) s
unfolding rinode
rinode_lem s st inum lt =
    rw (iblock_lem st inum lt) (rw (rsect_lem s (32 + inum / 16) st.blocks (omega arith)) refl)

addrs-encode_dinode :
    (din : DiskINode) (x : Data) (o k : ℕ)
    → k < 13
    → din.addrs k < 2 ^ 32
    → (decode_dinode (encode_dinode din x o) o).addrs k ≡ din.addrs k
unfolding decode_dinode encode_dinode
addrs-encode_dinode din x o k lt small =
    get_words-lt 13 _ (o + 12) _ k lt ∙ get32-put_words 13 _ (o + 12) din.addrs k lt small

-- A store of one inode leaves the others.
dinode_of-with_block :
    (f : ℕ → Data) (din : DiskINode) (inum i : ℕ)
    → inum ≢ i
    → dinode_of
        (with_block f (32 + inum / 16) (encode_dinode din (f (32 + inum / 16)) (ioffset inum)))
        i
      ≡ dinode_of f i
dinode_of-with_block f din inum i ne = elim (Bool-cases (32 + i / 16 == 32 + inum / 16)) [
  | inl same ↦ rw same (
      decode-encode_ne din (f (32 + inum / 16)) (inum % 16) (i % 16) (ground arith)
      ∙ ap (λ b. decode_dinode (f b) (ioffset i)) (sym (==→eq _ _ same)))
  | inr other ↦ rw other refl
]

-- The image after the store of an inode that was in memory.
module _ (n : ℕ) (d : Table) (inum : ℕ) (inside : inum < max_inode) (din : DiskINode) (s : Maker)
    (st : SoundFor n d d inum inside din s) where
  abbrev next : Table
  next = row d inum din.addrs

  abbrev image : Maker
  image = with_store s (32 + inum / 16) (encode_dinode din (s.file (32 + inum / 16)) (ioffset inum))

  winode_run : winode inum din s ≡ done tt image
  unfolding winode
  winode_run = rw (iblock_lem st inum inside) (
      rw (rsect_lem s (32 + inum / 16) st.blocks (omega arith))
        (wsect_lem s (32 + inum / 16) _ st.blocks (omega arith)))

  small_addrs : s.used_block ≤ 1000 → (k : ℕ) → k < 13 → din.addrs k < 2 ^ 32
  small_addrs le k lt = elim (Bool-cases (k == 12)) [
    | inl last ↦
        let e : k ≡ 12 = ==→eq k 12 last in
        subst (λ r. r k < 2 ^ 32) (row_self d inum din.addrs)
          (rw e (omega (arith, pointer_lt st.placed inum inside)))
    | inr early ↦
        subst (λ r. r k < 2 ^ 32) (row_self d inum din.addrs)
          (elim (st.placed.direct inum k inside (ground arith)) [
            | inl null ↦ omega arith
            | inr (lo, hi, apart) ↦ omega arith
          ])
  ]

  image-Sound : s.used_block ≤ 1000 → Sound n next next image
  image-Sound le = record {
    blocks = st.blocks;
    sb = st.sb;
    super = rw (ne→== 1 (32 + inum / 16) (omega arith)) st.super;
    head = rw (ne→== 2 (32 + inum / 16) (omega arith)) st.head;
    free = st.free;
    stored = λ i k li lk. elim (Bool-cases (i == inum)) [
      | inl here ↦ rw (==→eq i inum here) (
          rw (eq→== inum inum refl, eq→== (32 + inum / 16) (32 + inum / 16) refl)
            (addrs-encode_dinode din _ (ioffset inum) k lk (small_addrs le k lk)))
      | inr there ↦ rw there (
          ap (λ x. x.addrs k) (dinode_of-with_block s.file din inum i (ground arith))
          ∙ st.stored i k li lk)
    ];
    placed =
        Placed-with_block st.placed (32 + inum / 16) _ (omega (arith, st.placed.low)) (λ i li e.
          elim (st.placed.pointer i li) [ inl null ↦ omega arith | inr (lo, hi) ↦ omega arith ]);
  }

-- The image between two calls: every inode is stored.
abbrev pub IsImage : ℕ → Maker → Type 0
IsImage n s = (d : Table) × Sound n d d s × (s.used_block ≤ 1000)

pub winode_lem :
    (n : ℕ) (d : Table) (inum : ℕ) (inside : inum < max_inode) (din : DiskINode) (s : Maker)
    → Kept n d d inum inside din s
    → Yields (λ _ t. IsImage n t) (winode inum din s)
winode_lem n d inum inside din s (st, le) =
    rw (winode_run n d inum inside din s st, Yields)
      (next n d inum inside din s st, image-Sound n d inum inside din s st le, le)

-- An inode in memory, as it is stored.
pub loaded :
    {n : ℕ} {d : Table} {s : Maker} (inum : ℕ) (inside : inum < max_inode) (din : DiskINode)
    → Sound n d d s
    → s.used_block ≤ 1000
    → ((k : ℕ) → k < 13 → (din.addrs k ≡ d inum k) ⊎ (din.addrs k ≡ 0))
    → Kept n d d inum inside din s
loaded {n} {d} {s} inum inside din st le same = (
  record {
    blocks = st.blocks;
    sb = st.sb;
    super = st.super;
    head = st.head;
    free = st.free;
    stored = st.stored;
    placed = Placed-clear st.placed (row d inum din.addrs) (λ i k li lk.
        elim (Bool-cases (i == inum)) [
          | inl here ↦ elim (same k lk) [
            | inl old ↦ inl (rw here (old ∙ ap (λ j. d j k) (sym (==→eq i inum here))))
            | inr null ↦ inr (rw here null)
          ]
          | inr there ↦ inl (rw there refl)
        ]);
  },
  le,
)

pub iappend_lem :
    (n inum : ℕ) (p : List ℕ) (s : Maker)
    → inum < max_inode
    → IsImage n s
    → Yields (λ _ t. IsImage n t) (iappend inum p s)
unfolding iappend
iappend_lem n inum p s inside (d, st, le) =
    let din : DiskINode = dinode_of s.file inum in
    rw (rinode_lem s st inum inside) (
      Yields-and_then (λ r t. Kept n d d inum inside r.0 t) _ _ _
        (append_loop_lem n d d inum inside (length p) din (xint din.size) p s
          (loaded inum inside din st le (λ k lk. inl (st.stored inum k inside lk))) (omega arith))
        (λ r t kept. winode_lem n d inum inside (record r.0 { size = xint r.1 }) t kept))

pub ialloc_lem :
    (n type : ℕ) (s : Maker)
    → n < max_inode
    → IsImage n s
    → Yields (λ i t. (i ≡ n) × IsImage (n + 1) t) (ialloc type s)
unfolding ialloc next_inode
ialloc_lem n type s inside (d, st, le) =
    let t : Maker = record s { freeinode = n + 1 } in
    let st' : Sound (n + 1) d d t = record {
      blocks = st.blocks;
      sb = st.sb;
      super = st.super;
      head = st.head;
      free = refl;
      stored = st.stored;
      placed = st.placed;
    } in
    subst
      (λ i.
        Yields (λ j u. (j ≡ n) × IsImage (n + 1) u)
          ((do winode i (fresh_dinode type); pure i) (record s { freeinode = inc32 i })))
      (sym st.free)
      (rw (inc32_small n (omega arith)) (
        Yields-and_then (λ _ u. IsImage (n + 1) u) _ _ _
          (winode_lem (n + 1) d n inside (fresh_dinode type) t
            (loaded n inside (fresh_dinode type) st' le (λ k lk. inr refl)))
          (λ _ u h. (refl, h))))
