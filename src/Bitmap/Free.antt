-- ===== src/Bitmap/Free.antt =====
-- block_zeroed and block_free inside a transaction.
use hitsz_ext.Base.{
  ℕ, ◌+◌, ◌%◌, ◌<◌, ◌≤◌, ◌^◌, ◌≡◌, ◌≢◌, Bool, false, ◌==◌, if◌then◌else◌, arith, sym, subst, ap,
  ◌∙◌, inl, inr, Bool-cases, ==→eq,
}
use hitsz_ext.Bytes.{Data, zeroes}
use hitsz_ext.Machine.{Map, Block, bit_per_block, Sys, LogHeader, ok, fault, assertion}
use hitsz_ext.Bitmap.{bit_block, block_zeroed, block_free}
use hitsz_ext.Bitmap.Bits.{clear_bit, bit_at-clear_bit, clear_bit-IsByte}
use hitsz_ext.Bitmap.Map.{used, FreeMap, used-logged}
use hitsz_ext.Transaction.{changed, Tx, IsHome, HasRoom, content, logged}
use hitsz_ext.Transaction.Hold.{tx_read, load-hold, store-hold}
use hitsz_ext.Transaction.Finish.{tx_finish, content-logged_self, content-logged_ne}

-- The block `b` is free now; nothing else has changed.
pub record Freed (busy : ℕ → Bool) (s : Sys) (b : ℕ) (t : Sys) : Type 0 where
  pub tx : Tx busy t
  pub now_used : (x : ℕ) → x < 2 ^ 32 → used t x ≡ (if x == b then 0 else used s x)
  pub others : (c : ℕ) → c ≢ bit_block s.sb b → content t c ≡ content s c
  pub map_bytes : (x i : ℕ) → x < s.sb.size → content t (bit_block s.sb x) i < 256
  pub entries : t.log.hdr.n ≤ s.log.hdr.n + 1

module _ {busy : ℕ → Bool} {s : Sys} (tx : Tx busy s) where
  -- Inside a transaction, for a block of the file system that the code does not hold, with room
  -- for one block in the log: block_zeroed leaves the block with zeroes, and logged, in a state of
  -- the transaction with at most one entry more.
  pub block_zeroed_lem :
      (b : ℕ)
      → IsHome s.log b
      → busy b ≡ false
      → HasRoom s.log 1
      → (h : LogHeader) × (block_zeroed s.log.dev b s ≡ ok tt (logged s b zeroes h))
        × Tx busy (logged s b zeroes h)
        × (s.log.hdr.n ≤ h.n)
        × (h.n ≤ s.log.hdr.n + 1)
  unfolding block_zeroed
  block_zeroed_lem b home idle room =
      let (h, done, tx', lo, hi) = tx_finish tx b home zeroes idle room in
      (
        h,
        rw (tx_read tx b idle home.small)
            (rw (load-hold s b (content s b)) (rw (store-hold s b (content s b) zeroes) done)),
        tx',
        lo,
        hi,
      )

  module _ (m : FreeMap busy s) (b : ℕ) (inside : b < s.sb.size) where
    -- Inside a transaction, with a sound free map and room for one block in the log, a block in
    -- use is freed: its bit is cleared and no other, no other block changes, and the state is that
    -- of a transaction with at most one entry more.
    pub block_free_lem :
        used s b ≡ 1
        → HasRoom s.log 1
        → (k : Map Block) × (h : LogHeader) × (block_free s.log.dev b s ≡ ok tt (changed s k h))
          × Freed busy s b (changed s k h)
    unfolding block_free used
    block_free_lem in_use room =
        let bb : ℕ = bit_block s.sb b in
        let e : Data = clear_bit (content s bb) (b % bit_per_block) in
        let (h, done, tx', lo, hi) =
          tx_finish tx bb (m.map_home b inside) e (m.map_idle b inside) room in
        (
          (logged s bb e h).blocks,
          h,
          rw (tx_read tx bb (m.map_idle b inside) (m.map_home b inside).small) (
              rw (load-hold s bb (content s bb))
                (rw in_use (rw (store-hold s bb (content s bb) e) done))),
          record {
            tx = tx';
            now_used = used-logged s b 0 e h m.start (omega (arith, m.size)) (λ j.
                bit_at-clear_bit (content s bb) (b % bit_per_block) j (m.map_bytes b _ inside)
                  in_use);
            others = λ c ne. content-logged_ne s bb e h c ne;
            map_bytes = λ x i lx. elim (Bool-cases (bit_block s.sb x == bb)) [
              | inl same ↦
                  subst (λ (d : Data). d i < 256)
                    (sym (
                      ap (content (logged s bb e h)) (==→eq _ _ same)
                      ∙ content-logged_self s bb e h))
                    (clear_bit-IsByte (content s bb) (b % bit_per_block) i (m.map_bytes b i inside))
              | inr apart ↦
                  subst (λ (d : Data). d i < 256)
                    (sym (content-logged_ne s bb e h (bit_block s.sb x) (ground arith)))
                    (m.map_bytes x i lx)
            ];
            entries = hi;
          },
        )

    -- Inside a transaction, with a sound free map, block_free of a block that is free already
    -- fails its assertion.
    pub block_free_free : used s b ≡ 0 → block_free s.log.dev b s ≡ fault assertion
    unfolding block_free used
    block_free_free free =
        let bb : ℕ = bit_block s.sb b in
        rw (tx_read tx bb (m.map_idle b inside) (m.map_home b inside).small)
          (rw (load-hold s bb (content s bb)) (rw free))
