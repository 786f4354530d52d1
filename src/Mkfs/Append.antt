-- ===== src/Mkfs/Append.antt =====
-- iappend keeps what the image refers to.
use hitsz_ext.Base.{
  ℕ, zero, suc, ◌+◌, ◌-◌, ◌*◌, ◌/◌, ◌<◌, ◌≤◌, ◌≢◌, List, [], ◌∷◌, refl, arith, inl, inr, sym, subst,
  Bool-cases, ltb, ne→==, eq→==, length, drop,
}
use hitsz_ext.Bytes.{Data, get32, put32}
use hitsz_ext.Machine.{bsize, DiskINode}
use hitsz_ext.Mkfs.{
  Maker, wsect, rsect, xint, fill_entry, file_block, append_part, append_loop, part, pure, ◌>>=◌,
  ◌>>◌,
}
use hitsz_ext.Content.Splice.{length-drop}
use hitsz_ext.Mkfs.Words.{xint_small}
use hitsz_ext.Mkfs.Table.{
  Table, max_inode, IsSlot, Placed, row, with_block, Placed-with_block, Placed-entry, pointer_lt,
  row_self,
}
use hitsz_ext.Mkfs.Slots.{
  Yields, Yields-and_then, Sound, SoundFor, IsTaken, NoPointer, DirectTaken, PointerTaken,
  fill_direct, fill_pointer, with_store, with_next, next_block_lem, rsect_lem, rsect_past,
  wsect_lem,
}

-- A store to a data block leaves the blocks before them.
Sound-with_store :
    {n : ℕ} {d a : Table} {s : Maker}
    → Sound n d a s
    → (x : ℕ) (e : Data) (used : ℕ) → 46 ≤ x
    → Placed (with_block s.file x e) a used
    → Sound n d a (record (with_store s x e) { used_block = used })
Sound-with_store st x e used lo p = record {
  blocks = st.blocks;
  sb = st.sb;
  super = rw (ne→== 1 x (omega arith)) st.super;
  head = rw (ne→== 2 x (omega arith)) st.head;
  free = st.free;
  stored = λ i k li lk. rw (ne→== (32 + i / 16) x (omega arith)) (st.stored i k li lk);
  placed = p;
}

module _ (n : ℕ) (d a : Table) (inum : ℕ) (inside : inum < max_inode) where
  abbrev Taken : DiskINode → ℕ → Maker → Type 0
  Taken din x t =
      SoundFor n d a inum inside din t
      × IsTaken n d a inum inside x t
      × NoPointer n d a inum inside din x

  -- The word of the indirect block, once that is a block of the image.
  fill_entry_in :
      (din : DiskINode) (j : ℕ) (s : Maker)
      → SoundFor n d a inum inside din s
      → 46 ≤ din.addrs 12
      → din.addrs 12 < 1000
      → s.used_block ≤ 1000
      → j < 256
      → Yields (Taken din) (fill_entry (xint (din.addrs 12)) j s)
  unfolding fill_entry
  fill_entry_in din j s st lo hi le lj =
      let p = st.placed in
      let ind : ℕ = din.addrs 12 in
      let u : ℕ = s.used_block in
      let b : Table = row a inum din.addrs in
      let slot : IsSlot b u (get32 (s.file ind) (4 * j)) =
        subst (λ r. IsSlot b u (get32 (s.file (r 12)) (4 * j))) (row_self a inum din.addrs)
          (p.entry inum j inside lj
            (subst (λ r. r 12 ≢ 0) (sym (row_self a inum din.addrs)) (omega arith))) in
      rw (xint_small ind (omega arith)) (
        rw (rsect_lem s ind st.blocks hi) (elim slot [
          | inl null ↦
              let e : Data = put32 (s.file ind) (4 * j) u in
              let q : Placed (with_block s.file ind e) b (u + 1) =
                subst
                  (λ r.
                    Placed (with_block s.file (r 12) (put32 (s.file (r 12)) (4 * j) u)) b (u + 1))
                  (row_self a inum din.addrs) (Placed-entry p inum j inside lj (omega arith)) in
              rw (eq→== (get32 (s.file ind) (4 * j)) 0 null, Yields)
                (rw (next_block_lem s (omega arith), xint_small u (omega arith))
                  (rw (wsect_lem (with_next s) ind e st.blocks hi) (
                    rw (xint_small u (omega arith)) (
                      Sound-with_store st ind e (u + 1) lo q,
                      (p.low, omega arith, omega arith, inr refl),
                      λ i li same. omega (arith, pointer_lt p i li),
                    ))))
          | inr (lo', hi', apart) ↦
              rw (ne→== (get32 (s.file ind) (4 * j)) 0 (omega arith), Yields)
                (rw (xint_small (get32 (s.file ind) (4 * j)) (omega arith))
                  (st, (lo', hi', omega arith, inl le), apart))
        ]))

  fill_entry_lem :
      (din : DiskINode) (j : ℕ) (s : Maker)
      → PointerTaken n d a inum inside din s
      → j < 256
      → Yields (Taken din) (fill_entry (xint (din.addrs 12)) j s)
  unfolding fill_entry
  fill_entry_lem din j s (st, (lo, hi, few, last)) lj =
      elim (Bool-cases (ltb (din.addrs 12) 1000)) [
        | inl within ↦ fill_entry_in din j s st lo (ground arith) (ground arith) lj
        | inr past ↦
            rw (xint_small (din.addrs 12) (omega arith))
              (rw (rsect_past s (din.addrs 12) st.blocks (ground arith) (omega arith), Yields) tt)
      ]

  -- The block that holds a block of the file, in its inode or in its indirect block.
  file_block_lem :
      (din : DiskINode) (fbn : ℕ) (s : Maker)
      → SoundFor n d a inum inside din s
      → s.used_block ≤ 1000
      → fbn < 268
      → Yields (λ r t. Taken r.0 r.1 t) (file_block din fbn s)
  unfolding file_block
  file_block_lem din fbn s st le lt = elim (Bool-cases (ltb fbn 12)) [
    | inl direct ↦ rw direct (
        Yields-and_then (DirectTaken n d a inum inside fbn) _ _ _
          (fill_direct n d a inum inside din fbn s st le (ground arith))
          (λ din' t (st', taken, apart).
            rw (xint_small (din'.addrs fbn) (omega (arith, taken))) (st', taken, apart)))
    | inr beyond ↦ rw beyond (
        Yields-and_then (PointerTaken n d a inum inside) _ _ _
          (fill_pointer n d a inum inside din s st le)
          (λ din' t taken.
            Yields-and_then (Taken din') _ _ _
              (fill_entry_lem din' (fbn - 12) t taken (ground arith)) (λ x u h. h)))
  ]

  abbrev pub Kept : DiskINode → Maker → Type 0
  Kept din t = SoundFor n d a inum inside din t × (t.used_block ≤ 1000)

  store_part :
      (din : DiskINode) (x : ℕ) (s : Maker) (change : Data → Data)
      → Taken din x s
      → Yields Kept ((do buf ← rsect x; wsect x (change buf); pure din) s)
  store_part din x s change (st, (lo, hi, few, last), apart) = elim (Bool-cases (ltb x 1000)) [
    | inl within ↦
        let lt : x < 1000 = ground arith in
        rw (rsect_lem s x st.blocks lt, Yields)
          (rw (wsect_lem s x (change (s.file x)) st.blocks lt) (
            Sound-with_store st x (change (s.file x)) s.used_block lo
                (Placed-with_block st.placed x (change (s.file x)) hi apart),
            omega arith,
          ))
    | inr past ↦ rw (rsect_past s x st.blocks (ground arith) (omega arith), Yields) tt
  ]

  append_part_lem :
      (din : DiskINode) (off : ℕ) (p : List ℕ) (s : Maker)
      → Kept din s
      → Yields Kept (append_part din off p s)
  unfolding append_part
  append_part_lem din off p s (st, le) = elim (Bool-cases (ltb (off / bsize) 268)) [
    | inl fits ↦ rw fits (
        Yields-and_then (λ r t. Taken r.0 r.1 t) _ _ _
          (file_block_lem din (off / bsize) s st le (ground arith))
          (λ r t taken. store_part r.0 r.1 t _ taken))
    | inr large ↦ rw (large, Yields) tt
  ]

  -- The loop of iappend, with as many rounds as there are bytes, keeps what the image refers to, or
  -- stops with a report: it does not run out of rounds.
  pub append_loop_lem :
      (fuel : ℕ) (din : DiskINode) (off : ℕ) (p : List ℕ) (s : Maker)
      → Kept din s
      → length p ≤ fuel
      → Yields (λ r t. Kept r.0 t) (append_loop fuel din off p s)
  unfolding append_loop
  append_loop_lem zero din off [] s kept few = kept
  append_loop_lem zero din off (c ∷ p) s kept few = absurd (omega arith)
  append_loop_lem (suc fuel) din off [] s kept few = kept
  append_loop_lem (suc fuel) din off (c ∷ p) s kept few =
      let took : 0 < part off (length (c ∷ p)) = omega arith in
      Yields-and_then Kept _ _ _ (append_part_lem din off (c ∷ p) s kept) (λ din' t kept'.
        append_loop_lem fuel din' _ (drop (part off (length (c ∷ p))) (c ∷ p)) t kept'
          (omega (arith, length-drop (part off (length (c ∷ p))) (c ∷ p))))
