-- ===== src/Content/Read.antt =====
-- INode::read on a file whose blocks are all allocated.
use hitsz_ext.Base.{
  ℕ, zero, suc, ◌+◌, ◌-◌, ◌/◌, ◌%◌, ◌^◌, min, ltb, if◌then◌else◌, ◌<◌, ◌≤◌, ◌≡◌, refl, Bool, false,
  some, ◌∷◌, ◌++◌, ◌==◌, ne→==, ==→eq, inl, inr, Bool-cases, u32_small, length, arith, ap, ap₂, ◌∙◌,
  sym,
}
use hitsz_ext.Bytes.{Data}
use hitsz_ext.Machine.{bsize, INode, Sys, ok}
use hitsz_ext.INode.Update.{load_inode_lem}
use hitsz_ext.Content.{slice, chunk, read_loop, readable_bytes, read}
use hitsz_ext.Content.Mapped.{block_at, file_data, IsPlaced, Mapped, block_map_lem}
use hitsz_ext.Transaction.{at, Tx, content}
use hitsz_ext.Transaction.Hold.{tx_read, tx_release, load-hold}

pub length-slice : (d : Data) (o n : ℕ) → length (slice d o n) ≡ n
unfolding slice
length-slice d o zero = refl
length-slice d o (suc n) = ap suc (length-slice d (o + 1) n)

pub slice-plus : (d : Data) (o m n : ℕ) → slice d o (m + n) ≡ slice d o m ++ slice d (o + m) n
unfolding slice
slice-plus d o zero n =
    let same : o ≡ o + 0 = omega arith in
    let drop_zero : 0 + n ≡ n = omega arith in ap₂ (slice d) same drop_zero
slice-plus d o (suc m) n =
    let regroup : suc m + n ≡ suc (m + n) = omega arith in
    let same : o + 1 + m ≡ o + suc m = omega arith in
    ap (slice d o) regroup
    ∙ ap (λ l. d o ∷ l) (slice-plus d (o + 1) m n ∙ ap (λ q. slice d (o + 1) m ++ slice d q n) same)

-- Two sequences with the same bytes at two places.
pub slice_cong :
    (d e : Data) (o p n : ℕ) → ((j : ℕ) → j < n → d (o + j) ≡ e (p + j)) → slice d o n ≡ slice e p n
unfolding slice
slice_cong d e o p zero h = refl
slice_cong d e o p (suc n) h =
    let first : (o + 0 ≡ o) × (p + 0 ≡ p) = (omega arith, omega arith) in
    ap₂ ◌∷◌ (ap d (sym first.0) ∙ h 0 (omega arith) ∙ ap e first.1) (
      slice_cong d e (o + 1) (p + 1) n (λ j lt.
        let next : (o + 1 + j ≡ o + suc j) × (p + suc j ≡ p + 1 + j) = (omega arith, omega arith) in
        ap d next.0 ∙ h (suc j) (omega arith) ∙ ap e next.1))

-- How many of the `n` bytes from `off` on a file of `size` bytes has.
abbrev pub in_file : ℕ → ℕ → ℕ → ℕ
in_file size off n = if ltb (off + n) (2 ^ 63) then min n (size - off) else 0

readable_bytes_lem :
    (size off n : ℕ) → size < 2 ^ 32 → readable_bytes size off n ≡ in_file size off n
unfolding readable_bytes
readable_bytes_lem size off n small = ground arith

readable_inside :
    (size off n : ℕ)
    → (readable_bytes size off n == 0) ≡ false
    → off + readable_bytes size off n ≤ size
unfolding readable_bytes
readable_inside size off n h = ground arith

module _ {busy : ℕ → Bool} {s : Sys} (tx : Tx busy s) (i : ℕ) (ip : INode)
    (here : s.inodes (at s i) ≡ some ip) (m : Mapped busy s ip.dinode) where
  -- The bytes of one round, and those after it.
  split :
      (off left : ℕ)
      → slice (file_data s ip.dinode) off left
        ≡ slice (content s (block_at s ip.dinode (off / bsize))) (off % bsize) (chunk off left)
          ++ slice (file_data s ip.dinode) (off + chunk off left) (left - chunk off left)
  split off left =
      let f : Data = file_data s ip.dinode in
      let c : ℕ = chunk off left in
      let parts : left ≡ c + (left - c) = omega arith in
      ap (slice f off) parts
      ∙ slice-plus f off c (left - c)
      ∙ ap (λ l. l ++ slice f (off + c) (left - c))
          (slice_cong f (content s (block_at s ip.dinode (off / bsize))) off (off % bsize) c
            (λ j lt.
              let block : (off + j) / bsize ≡ off / bsize = omega arith in
              let place : (off + j) % bsize ≡ off % bsize + j = omega arith in
              ap₂ (λ a b. content s (block_at s ip.dinode a) b) block place))

  read_loop_lem :
      (fuel off left : ℕ)
      → left ≤ fuel
      → off + left ≤ ip.dinode.size
      → read_loop (at s i) fuel off left s ≡ ok (slice (file_data s ip.dinode) off left) s
  unfolding read_loop slice
  read_loop_lem zero off left few inside =
      let none_left : left ≡ 0 = omega arith in rw none_left refl
  read_loop_lem (suc fuel) off left few inside = elim (Bool-cases (left == 0)) [
    | inl done ↦ rw (==→eq left 0 done) refl
    | inr more ↦
        let c : ℕ = chunk off left in
        let n : ℕ = off / bsize in
        let p : IsPlaced busy (block_at s ip.dinode n) = m.block n (ground arith) in
        let x : Data = content s (block_at s ip.dinode n) in
        let later = read_loop_lem fuel (off + c) (left - c) (ground arith) (ground arith) in
        rw more (
          rw (u32_small n (omega (arith, m.fits))) (
            rw (block_map_lem tx i ip here m n (ground arith)) (
              rw (ne→== (block_at s ip.dinode n) 0 (omega (arith, p.pos))) (
                rw (tx_read tx (block_at s ip.dinode n) p.idle p.small) (
                  rw (load-hold s (block_at s ip.dinode n) x) (
                    rw (tx_release tx (block_at s ip.dinode n) p.idle)
                      (rw later (ap (λ l. ok l s) (sym (split off left))))))))))
  ]

  read_none :
      (r off : ℕ)
      → r ≡ 0
      → read_loop (at s i) r off r s ≡ ok (slice (file_data s ip.dinode) off r) s
  unfolding read_loop slice
  read_none r off e = rw e refl

  pub read_run :
      (off n : ℕ)
      → read (at s i) off n s
        ≡ ok (slice (file_data s ip.dinode) off (readable_bytes ip.dinode.size off n)) s
  unfolding read
  read_run off n =
      let r : ℕ = readable_bytes ip.dinode.size off n in
      rw (load_inode_lem s (at s i) ip here) (elim (Bool-cases (r == 0)) [
        | inl nothing ↦ read_none r off (==→eq r 0 nothing)
        | inr some_bytes ↦
            read_loop_lem r off r (omega arith) (readable_inside ip.dinode.size off n some_bytes)
      ])

  -- Inside a transaction, INode::read of `n` bytes at `off` of a cached inode whose blocks are all
  -- allocated changes nothing and returns the bytes of the file from `off` on: `n` of them, or as
  -- many as lie between `off` and the end of the file if these are fewer; and none if `off + n` is
  -- 2 ^ 63 or more, which overflows an `off_t`.
  pub read_lem :
      (off n : ℕ)
      → read (at s i) off n s
        ≡ ok (slice (file_data s ip.dinode) off (in_file ip.dinode.size off n)) s
  read_lem off n =
      read_run off n
      ∙ ap (λ r. ok (slice (file_data s ip.dinode) off r) s)
          (readable_bytes_lem ip.dinode.size off n (omega (arith, m.fits)))
