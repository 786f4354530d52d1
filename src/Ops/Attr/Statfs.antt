-- ===== src/Ops/Attr/Statfs.antt =====
-- The count of blocks that op_statfs makes, inside a transaction.
use hitsz_ext.Base.{
  ℕ, zero, suc, ◌+◌, ◌-◌, ◌*◌, ◌/◌, ◌%◌, ◌<◌, ◌≤◌, ◌≡◌, ◌⊎◌, refl, min, Bool, ◌==◌, if◌then◌else◌,
  inl, inr, arith, ap, ap₂, ◌∙◌, sym,
}
use hitsz_ext.Bytes.{Data}
use hitsz_ext.Machine.{bit_per_block, rootdev, Sys, ok}
use hitsz_ext.BlockCache.{block_read}
use hitsz_ext.Bitmap.{bit_block}
use hitsz_ext.Bitmap.Bits.{bit_at, bit_at_cases}
use hitsz_ext.Bitmap.Map.{used, FreeMap}
use hitsz_ext.Bitmap.Alloc.{same_map_block}
use hitsz_ext.Transaction.{at, Tx, content, hold}
use hitsz_ext.Transaction.Hold.{tx_read, tx_release, load-hold}
use hitsz_ext.Ops.Attr.{count_bits, count_blocks}

-- How many of the `k` blocks from `b` on are in use.
unfoldable pub used_from : Sys → ℕ → ℕ → ℕ
used_from s b zero = 0
used_from s b (suc k) = used s b + used_from s (b + 1) k

sum_cong : (s : Sys) (b c k : ℕ) → b ≡ c → used_from s b k ≡ used_from s c k
sum_cong s b c k e = ap (λ x. used_from s x k) e

used_from_plus :
    (s : Sys) (b j k : ℕ) → used_from s b (j + k) ≡ used_from s b j + used_from s (b + j) k
unfolding used_from
used_from_plus s b zero k =
    let drop_zero : 0 + k ≡ k = omega arith in
    omega (arith, sum_cong s b (b + 0) k (omega arith), ap (used_from s b) drop_zero)
used_from_plus s b (suc j) k =
    let regroup : suc j + k ≡ suc (j + k) = omega arith in
    ap (used_from s b) regroup
    ∙ omega
        (arith, used_from_plus s (b + 1) j k, sum_cong s (b + 1 + j) (b + suc j) k (omega arith))

count_bits_lem :
    (s : Sys) (b k i : ℕ)
    → b % bit_per_block ≡ 0
    → i + k ≤ bit_per_block
    → count_bits k i (content s (bit_block s.sb b)) ≡ used_from s (b + i) k
unfolding count_bits used_from used
count_bits_lem s b zero i even h = refl
count_bits_lem s b (suc k) i even h =
    let d : Data = content s (bit_block s.sb b) in
    let one : (if bit_at d i == 0 then 0 else 1) ≡ bit_at d i = ground (arith, bit_at_cases d i) in
    let bit : i ≡ (b + i) % bit_per_block = omega arith in
    let here : bit_at d i ≡ bit_at (content s (bit_block s.sb (b + i))) ((b + i) % bit_per_block) =
      ap₂ (λ n j. bit_at (content s n) j)
        (sym (same_map_block s.sb b (b + i) even (omega arith) (omega arith))) bit in
    ap₂ ◌+◌ (one ∙ here) (
      count_bits_lem s b k (i + 1) even (omega arith)
      ∙ sum_cong s (b + (i + 1)) (b + i + 1) k (omega arith))

sum_or_none : (s : Sys) (b c k : ℕ) → (b ≡ c) ⊎ (k ≡ 0) → used_from s b k ≡ used_from s c k
unfolding used_from
sum_or_none s b c k (inl e) = sum_cong s b c k e
sum_or_none s b c k (inr e) = rw e refl

module _ {busy : ℕ → Bool} {s : Sys} (tx : Tx busy s) (m : FreeMap busy s)
    (dev : s.log.dev ≡ rootdev) where
  read_root :
      (b : ℕ)
      → b < s.sb.size
      → block_read rootdev (bit_block s.sb b) s
        ≡ ok (at s (bit_block s.sb b)) (hold s (bit_block s.sb b) (content s (bit_block s.sb b)))
  read_root b lb =
      ap (λ d. block_read d (bit_block s.sb b) s) (sym dev)
      ∙ tx_read tx (bit_block s.sb b) (m.map_idle b lb) (m.map_home b lb).small

  split_sum :
      (b : ℕ)
      → b % bit_per_block ≡ 0
      → b < s.sb.size
      → count_bits (min bit_per_block (s.sb.size - b)) 0 (content s (bit_block s.sb b))
          + used_from s (b + bit_per_block) (s.sb.size - (b + bit_per_block))
        ≡ used_from s b (s.sb.size - b)
  split_sum b even lb =
      let k : ℕ = min bit_per_block (s.sb.size - b) in
      let r : ℕ = s.sb.size - (b + bit_per_block) in
      let parts : s.sb.size - b ≡ k + r = omega arith in
      ap₂ ◌+◌ (count_bits_lem s b k 0 even (omega arith) ∙ sum_cong s (b + 0) b k (omega arith))
        (sum_or_none s (b + bit_per_block) (b + k) r (omega arith))
      ∙ sym (used_from_plus s b k r)
      ∙ ap (used_from s b) (sym parts)

  count_blocks_loop :
      (rounds b : ℕ)
      → b % bit_per_block ≡ 0
      → s.sb.size ≤ b + rounds * bit_per_block
      → b + rounds * bit_per_block < s.sb.size + bit_per_block
      → count_blocks rounds b s ≡ ok (used_from s b (s.sb.size - b)) s
  unfolding count_blocks
  count_blocks_loop zero b even enough few =
      let none_left : s.sb.size - b ≡ 0 = omega arith in
      ap (λ k. ok k s) (sym (unfold used_from in ap (used_from s b) none_left))
  count_blocks_loop (suc k) b even enough few =
      let lb : b < s.sb.size = omega arith in
      let bb : ℕ = bit_block s.sb b in
      rw (read_root b lb) (
        rw (load-hold s bb (content s bb)) (
          rw (tx_release tx bb (m.map_idle b lb)) (
            rw (count_blocks_loop k (b + bit_per_block) (omega arith) (omega arith) (omega arith))
              (ap (λ k. ok k s) (split_sum b even lb)))))

  -- Inside a transaction on the device that op_statfs asks about, its count of blocks is the number of
  -- blocks of the file system that the free map has in use, and the counting changes nothing.
  pub count_blocks_lem :
      count_blocks ((s.sb.size + (bit_per_block - 1)) / bit_per_block) 0 s
      ≡ ok (used_from s 0 s.sb.size) s
  count_blocks_lem =
      count_blocks_loop ((s.sb.size + (bit_per_block - 1)) / bit_per_block) 0 (omega arith)
        (omega arith) (omega arith)
      ∙ ap (λ k. ok (used_from s 0 k) s) whole
    where
      whole : s.sb.size - 0 ≡ s.sb.size
      whole = omega arith
