-- ===== src/Bitmap/Map.antt =====
-- The free map as a set of block numbers, over the blocks that hold its bits.
use hitsz_ext.Base.{
  ℕ, ◌/◌, ◌%◌, ◌<◌, ◌^◌, ◌≡◌, ◌≢◌, Bool, false, ◌==◌, if◌then◌else◌, inl, inr, Bool-cases, ==→eq,
  ne→==, arith, ◌∙◌, sym, ap, u32,
}
use hitsz_ext.Bytes.{Data}
use hitsz_ext.Machine.{bit_per_block, SuperBlock, Sys, LogHeader}
use hitsz_ext.Bitmap.{bit_block}
use hitsz_ext.Bitmap.Bits.{bit_at}
use hitsz_ext.Transaction.{IsHome, content, logged}
use hitsz_ext.Transaction.Finish.{content-logged_self, content-logged_ne}

-- 1 if the block `x` is in use, and 0 if it is free.
unfoldable pub used : Sys → ℕ → ℕ
used s x = bit_at (content s (bit_block s.sb x)) (x % bit_per_block)

-- The map lies in blocks that a transaction may change, and a free block is none of those, nor one
-- of the log's or block 0. `busy` are the blocks that the running code holds.
pub record FreeMap (busy : ℕ → Bool) (s : Sys) : Type 0 where
  pub size : s.sb.size < 2 ^ 32
  pub start : s.sb.bmapstart < 2 ^ 22
  pub map_home : (x : ℕ) → x < s.sb.size → IsHome s.log (bit_block s.sb x)
  pub map_idle : (x : ℕ) → x < s.sb.size → busy (bit_block s.sb x) ≡ false
  pub map_bytes : (x i : ℕ) → x < s.sb.size → content s (bit_block s.sb x) i < 256
  pub free_home : (x : ℕ) → x < s.sb.size → used s x ≡ 0 → IsHome s.log x
  pub free_idle : (x : ℕ) → x < s.sb.size → used s x ≡ 0 → busy x ≡ false
  pub free_pos : (x : ℕ) → x < s.sb.size → used s x ≡ 0 → 0 < x
  pub free_apart : (x y : ℕ) → x < s.sb.size → used s x ≡ 0 → y < s.sb.size → bit_block s.sb y ≢ x

-- Two blocks whose bits lie in one block of the map.
pub bit_block_inj :
    (sb : SuperBlock) (x y : ℕ)
    → sb.bmapstart < 2 ^ 22
    → x < 2 ^ 32
    → y < 2 ^ 32
    → bit_block sb x ≡ bit_block sb y
    → x / bit_per_block ≡ y / bit_per_block
unfolding u32
bit_block_inj sb x y h p q e = omega arith

-- After a change of one bit in a block of the map, that bit of the set has changed.
pub used-logged :
    (s : Sys) (b v : ℕ) (e : Data) (h : LogHeader)
    → s.sb.bmapstart < 2 ^ 22
    → b < 2 ^ 32
    → ((j : ℕ)
        → bit_at e j
          ≡ (if j == b % bit_per_block then v else bit_at (content s (bit_block s.sb b)) j))
    → (x : ℕ) → x < 2 ^ 32
    → used (logged s (bit_block s.sb b) e h) x ≡ (if x == b then v else used s x)
unfolding used
used-logged s b v e h start lb bits x lx =
    elim (Bool-cases (bit_block s.sb x == bit_block s.sb b)) [
      | inl same ↦
          let q : bit_block s.sb x ≡ bit_block s.sb b = ==→eq _ _ same in
          let r : x / bit_per_block ≡ b / bit_per_block = bit_block_inj s.sb x b start lx lb q in
          ap (λ k. bit_at (content (logged s (bit_block s.sb b) e h) k) (x % bit_per_block)) q
          ∙ ap (λ d. bit_at d (x % bit_per_block)) (content-logged_self s (bit_block s.sb b) e h)
          ∙ bits (x % bit_per_block)
          ∙ ap (λ t. if t then v else bit_at (content s (bit_block s.sb b)) (x % bit_per_block))
              (same_rest r)
          ∙ ap (λ k. if x == b then v else bit_at (content s k) (x % bit_per_block)) (sym q)
      | inr apart ↦
          let ne : bit_block s.sb x ≢ bit_block s.sb b = ground arith in
          ap (λ d. bit_at d (x % bit_per_block))
            (content-logged_ne s (bit_block s.sb b) e h (bit_block s.sb x) ne)
          ∙ rw (ne→== x b (λ q. ne (ap (bit_block s.sb) q)))
    ]
  where
    same_rest :
        x / bit_per_block ≡ b / bit_per_block → (x % bit_per_block == b % bit_per_block) ≡ (x == b)
    same_rest r = ground arith
