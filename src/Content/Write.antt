-- ===== src/Content/Write.antt =====
-- INode::write over bytes that a file has already.
use hitsz_ext.Base.{
  ℕ, zero, suc, ◌+◌, ◌-◌, ◌*◌, ◌/◌, ◌%◌, ◌<◌, ◌≤◌, ◌≡◌, ◌≢◌, ◌⊎◌, refl, Bool, some, List, [], ◌∷◌,
  ◌==◌, ltb, length, take, drop, ne→==, inl, inr, Bool-cases, ==→eq, u32_small, arith, ap, ◌∙◌, sym,
  subst,
}
use hitsz_ext.Bytes.{Data}
use hitsz_ext.Machine.{Map, Block, bsize, DiskINode, INode, Sys, LogHeader, ok}
use hitsz_ext.Bitmap.{finish}
use hitsz_ext.Content.{splice, chunk, write_loop}
use hitsz_ext.Content.Splice.{length-take, length-drop, splice_split, splice_out}
use hitsz_ext.Content.Mapped.{block_at, file_data, IsPlaced, block_map_lem}
use hitsz_ext.Content.Store.{Storable, block_at-after, after-Storable, file_data-store}
use hitsz_ext.Transaction.{changed, at, Tx, HasRoom, content, hold, logged}
use hitsz_ext.Transaction.Hold.{tx_read, load-hold, store-hold}
use hitsz_ext.Transaction.Finish.{tx_finish, content-logged_ne}

-- The bytes `src` were put into the file at `off`, with at most `r` entries more in the log; no block
-- that is not the file's has changed.
pub record Stored (busy : ℕ → Bool) (s : Sys) (d : DiskINode) (off : ℕ) (src : List ℕ) (r : ℕ)
    (t : Sys) : Type 0 where
  pub tx : Tx busy t
  pub storable : Storable busy t d
  pub bytes : (j : ℕ) → j < d.size → file_data t d j ≡ splice (file_data s d) off src j
  pub others :
      (b : ℕ) → ((n : ℕ) → n * bsize < d.size → block_at s d n ≢ b) → content t b ≡ content s b
  pub blocks : (n : ℕ) → n * bsize < d.size → block_at t d n ≡ block_at s d n
  pub entries : t.log.hdr.n ≤ s.log.hdr.n + r

splice_agree :
    (f g : Data) (o : ℕ) (cs : List ℕ) (i : ℕ) → f i ≡ g i → splice f o cs i ≡ splice g o cs i
unfolding splice
splice_agree f g o [] i e = e
splice_agree f g o (c ∷ cs) i e = elim (Bool-cases (i == o)) [
  | inl q ↦ rw q refl
  | inr q ↦ rw q (splice_agree f g (o + 1) cs i e)
]

write_step :
    {busy : ℕ → Bool} {s : Sys} (tx : Tx busy s) (i : ℕ) (ip : INode)
    → s.inodes (at s i) ≡ some ip
    → (w : Storable busy s ip.dinode) → (fuel off : ℕ) (src : List ℕ) (h : LogHeader)
    → let b = block_at s ip.dinode (off / bsize) in
      let c = chunk off (length src) in
      let e = splice (content s b) (off % bsize) (take c src) in
      finish (at s b) (hold s b e) ≡ ok tt (logged s b e h)
      → 0 < length src
      → off < ip.dinode.size
      → (rest : ℕ) (t : Sys)
      → write_loop (at s i) fuel (off + c) (drop c src) (logged s b e h) ≡ ok rest t
      → write_loop (at s i) (suc fuel) off src s ≡ ok (c + rest) t
unfolding write_loop
write_step {busy} {s} tx i ip here w fuel off src h done some_bytes inside rest t later =
    let b : ℕ = block_at s ip.dinode (off / bsize) in
    let p : IsPlaced busy b = w.mapped.block (off / bsize) (omega arith) in
    rw (ne→== (length src) 0 (omega arith)) (
      rw (u32_small (off / bsize) (omega (arith, w.mapped.fits))) (
        rw (block_map_lem tx i ip here w.mapped (off / bsize) (omega arith)) (
          rw (ne→== b 0 (omega (arith, p.pos))) (
            rw (tx_read tx b p.idle p.small) (
              rw (load-hold s b (content s b)) (
                rw
                  (store-hold s b (content s b)
                    (splice (content s b) (off % bsize) (take (chunk off (length src)) src)))
                  (rw done (rw later refl))))))))

nothing-Stored :
    {busy : ℕ → Bool} {s : Sys} (tx : Tx busy s) (d : DiskINode)
    → Storable busy s d
    → (off : ℕ) (src : List ℕ) (r : ℕ) → length src ≡ 0
    → Stored busy s d off src r s
nothing-Stored tx d w off src r e = record {
  tx = tx;
  storable = w;
  bytes = λ j lt. sym (splice_out _ off src j (omega arith));
  others = λ b h. refl;
  blocks = λ n lt. refl;
  entries = omega arith;
}

-- A store in one block and then the rest make the whole.
Stored-step :
    {busy : ℕ → Bool} {s : Sys} {d : DiskINode} (w : Storable busy s d) (off : ℕ) (src : List ℕ)
    (h : LogHeader) (r : ℕ) (t : Sys)
    → off + length src ≤ d.size
    → 0 < length src
    → h.n ≤ s.log.hdr.n + 1
    → let b = block_at s d (off / bsize) in
      let c = chunk off (length src) in
      Stored busy
        (logged s b (splice (content s b) (off % bsize) (take c src)) h)
        d
        (off + c)
        (drop c src)
        r
        t
      → Stored busy s d off src (r + 1) t
Stored-step {busy} {s} {d} w off src h r t inside some_bytes few done =
    let n : ℕ = off / bsize in
    let l : n * bsize < d.size = omega arith in
    let c : ℕ = chunk off (length src) in
    let e : Data = splice (content s (block_at s d n)) (off % bsize) (take c src) in
    let len : length (take c src) ≡ c = omega (arith, length-take c src) in
    let u : Sys = logged s (block_at s d n) e h in
    record {
      tx = done.tx;
      storable = done.storable;
      bytes = λ j lt.
          done.bytes j lt
          ∙ splice_agree (file_data u d) (splice (file_data s d) off (take c src)) (off + c)
              (drop c src) j
              (file_data-store w off (take c src) h (omega arith) (omega (arith, len)) j lt)
          ∙ sym (splice_split (file_data s d) off c src j (omega arith));
      others = λ b away.
          done.others b (λ m lm q. away m lm (sym (block_at-after w n l e h m lm) ∙ q))
          ∙ content-logged_ne s (block_at s d n) e h b (λ q. away n l (sym q));
      blocks = λ m lm. done.blocks m lm ∙ block_at-after w n l e h m lm;
      entries = omega (arith, done.entries);
    }

-- `r` blocks are enough for `n` bytes from an offset on.
abbrev pub Enough : ℕ → ℕ → ℕ → Type 0
Enough off n r = (n ≡ 0) ⊎ (off % bsize + n ≤ r * bsize)

pub Enough-left :
    (off n r : ℕ) → 0 < n → Enough off n r → Enough (off + chunk off n) (n - chunk off n) (r - 1)
Enough-left off n r pos (inl e) = absurd (omega arith)
Enough-left off n r pos (inr e) = elim (Bool-cases (ltb n (bsize - off % bsize))) [
  | inl short ↦ inl (ground arith)
  | inr long ↦
      let c : chunk off n ≡ bsize - off % bsize = ground arith in
      let at_start : (off + (bsize - off % bsize)) % bsize ≡ 0 = omega arith in
      let there : off + chunk off n ≡ off + (bsize - off % bsize) = omega (arith, c) in
      inr (omega (arith, c, at_start, ap (λ k. k % bsize) there))
]

pub write_loop_lem :
    (fuel : ℕ) {busy : ℕ → Bool} {s : Sys} (tx : Tx busy s) (i : ℕ) (ip : INode)
    → s.inodes (at s i) ≡ some ip
    → Storable busy s ip.dinode
    → (off : ℕ) (src : List ℕ) (r : ℕ) → HasRoom s.log r
    → length src ≤ fuel
    → off + length src ≤ ip.dinode.size
    → Enough off (length src) r
    → (m : Map Block) × (h : LogHeader) × (write_loop (at s i) fuel off src s
        ≡ ok (length src) (changed s m h))
      × Stored busy s ip.dinode off src r (changed s m h)
unfolding write_loop
write_loop_lem zero {busy} {s} tx i ip here w off src r room few inside enough =
    let none_left : length src ≡ 0 = omega arith in
    (
      s.blocks,
      s.log.hdr,
      ap (λ k. ok k s) (sym none_left),
      nothing-Stored tx ip.dinode w off src r none_left,
    )
write_loop_lem (suc fuel) {busy} {s} tx i ip here w off src r room few inside enough =
    elim (Bool-cases (length src == 0)) [
      | inl nothing ↦
          let none_left : length src ≡ 0 = ==→eq (length src) 0 nothing in
          (
            s.blocks,
            s.log.hdr,
            rw nothing (ap (λ k. ok k s) (sym none_left)),
            nothing-Stored tx ip.dinode w off src r none_left,
          )
      | inr more ↦
          let some_bytes : 0 < length src = ground arith in
          let n : ℕ = off / bsize in
          let l : n * bsize < ip.dinode.size = omega arith in
          let b : ℕ = block_at s ip.dinode n in
          let c : ℕ = chunk off (length src) in
          let e : Data = splice (content s b) (off % bsize) (take c src) in
          let (h, done, tx', lo, hi) =
            tx_finish tx b (w.home n l) e (w.mapped.block n l).idle
              (record { fits = omega (arith, room.fits); room = omega (arith, room.room) }) in
          let left : length (drop c src) ≡ length src - c = length-drop c src in
          let (m, g, ran, stored) =
            write_loop_lem fuel tx' i ip here (after-Storable w n l e h) (off + c) (drop c src)
              (r - 1) (record { fits = omega (arith, room.fits); room = omega (arith, room.room) })
              (omega (arith, left)) (omega (arith, left))
              (subst (λ k. Enough (off + c) k (r - 1)) (sym left)
                (Enough-left off (length src) r some_bytes enough)) in
          let total : c + length (drop c src) ≡ length src = omega (arith, left) in
          let one_more : r - 1 + 1 ≡ r = omega arith in
          (
            m,
            g,
            write_step tx i ip here w fuel off src h done some_bytes (omega arith) _ (changed s m g)
                  ran
                ∙ ap (λ k. ok k (changed s m g)) total,
            subst (λ k. Stored busy s ip.dinode off src k (changed s m g)) one_more
                (Stored-step w off src h (r - 1) (changed s m g) inside some_bytes hi stored),
          )
    ]
