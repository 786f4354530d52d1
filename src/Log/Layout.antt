-- ===== src/Log/Layout.antt =====
-- Where a log and the home blocks of its entries lie.
use hitsz_ext.Base.{ℕ, ◌≡◌, ◌≢◌, ◌+◌, ◌<◌, ◌≤◌, ◌^◌, ◌⊎◌, ◌∙◌, sym, u32, arith}
use hitsz_ext.Machine.{LogState, LogHeader, log_size}
use hitsz_ext.BlockCache.{disk_index}
use hitsz_ext.Log.{log_slot}

-- The header block and the log blocks are the `size` blocks from `start` on. The entries fit, name
-- distinct blocks, and name none of those.
pub record Layout (l : LogState) : Type 0 where
  pub room : l.hdr.n < l.size
  pub fits : l.hdr.n ≤ log_size
  pub area : l.start + l.size ≤ 2 ^ 22
  pub small : (i : ℕ) → i < l.hdr.n → l.hdr.block i < 2 ^ 22
  pub apart : (i : ℕ) → i < l.hdr.n → (l.hdr.block i < l.start) ⊎ (l.start + l.size ≤ l.hdr.block i)
  pub distinct : (i j : ℕ) → i < l.hdr.n → j < l.hdr.n → l.hdr.block i ≡ l.hdr.block j → i ≡ j

-- The 32-bit product of `disk_index` does not wrap on a disk of 4 GiB.
pub disk_index_small : (b : ℕ) → b < 2 ^ 22 → disk_index b ≡ b
unfolding disk_index
disk_index_small b h = omega arith

module _ {l : LogState} (w : Layout l) where
  pub log_slot_lem : (i : ℕ) → i < l.hdr.n → log_slot l i ≡ l.start + i + 1
  unfolding u32
  log_slot_lem i h = omega (arith, w.room, w.area)

  pub slot_small : (i : ℕ) → i < l.hdr.n → log_slot l i < 2 ^ 22
  slot_small i h = omega (arith, w.room, w.area, log_slot_lem i h)

  pub start_small : l.start < 2 ^ 22
  start_small = omega (arith, w.room, w.area)

  pub slot-ne-home : (i j : ℕ) → i < l.hdr.n → j < l.hdr.n → log_slot l i ≢ l.hdr.block j
  slot-ne-home i j p q = omega (arith, w.room, log_slot_lem i p, w.apart j q)

  pub start-ne-home : (j : ℕ) → j < l.hdr.n → l.start ≢ l.hdr.block j
  start-ne-home j q = omega (arith, w.room, w.apart j q)

  pub start-ne-slot : (j : ℕ) → j < l.hdr.n → l.start ≢ log_slot l j
  start-ne-slot j q = omega (arith, log_slot_lem j q)

  pub slot_injective : (i j : ℕ) → i < l.hdr.n → j < l.hdr.n → log_slot l i ≡ log_slot l j → i ≡ j
  slot_injective i j p q e = omega (arith, log_slot_lem i p, log_slot_lem j q)

-- The same entries in another header.
pub Layout-same :
    {l : LogState}
    → Layout l
    → (h : LogHeader) → h.n ≡ l.hdr.n
    → ((i : ℕ) → i < l.hdr.n → h.block i ≡ l.hdr.block i)
    → Layout (record l { hdr = h })
Layout-same w h en eb = record {
  room = rw en w.room;
  fits = rw en w.fits;
  area = w.area;
  small = λ i p. omega (arith, eb i (rw en at p), w.small i (rw en at p));
  apart = λ i p. omega (arith, eb i (rw en at p), w.apart i (rw en at p));
  distinct = λ i j p q e.
      w.distinct i j (rw en at p) (rw en at q) (sym (eb i (rw en at p)) ∙ e ∙ eb j (rw en at q));
}
