-- ===== src/Mkfs/Marks.antt =====
-- The free map that balloc writes.
use hitsz_ext.Base.{
  ℕ, zero, suc, ◌+◌, ◌/◌, ◌<◌, ◌≤◌, ◌≡◌, arith, inl, inr, ◌∙◌, Bool-cases, ◌==◌, ltb, leb, ◌&&◌,
  if◌then◌else◌, ne→==, eq→==,
}
use hitsz_ext.Bytes.{Data, zeroes, put8}
use hitsz_ext.Bitmap.Bits.{bit_at, set_bit, bit_at-set_bit}
use hitsz_ext.Mkfs.{mark_loop}

-- The bytes are bytes, and the bits from `i` on are clear.
record ClearFrom (i : ℕ) (d : Data) : Type 0 where
  bytes : (j : ℕ) → d j < 256
  clear : (j : ℕ) → i ≤ j → bit_at d j ≡ 0

set_bit-ClearFrom : (i : ℕ) (d : Data) → ClearFrom i d → ClearFrom (i + 1) (set_bit d i)
unfolding set_bit put8
set_bit-ClearFrom i d c = record {
  bytes = λ j. rw (eq→== (bit_at d i) 0 (c.clear i (omega arith))) (elim (Bool-cases (j == i / 8)) [
    | inl same ↦ rw same (omega arith)
    | inr other ↦ rw other (c.bytes j)
  ]);
  clear = λ j lt.
      bit_at-set_bit d i j (c.bytes (i / 8)) (c.clear i (omega arith))
      ∙ rw (ne→== j i (omega arith)) (c.clear j (omega arith));
}

mark_loop_lem :
    (k i : ℕ) (d : Data)
    → ClearFrom i d
    → (j : ℕ) → bit_at (mark_loop k i d) j ≡ (if leb i j && ltb j (i + k) then 1 else bit_at d j)
unfolding mark_loop
mark_loop_lem zero i d c j = ground arith
mark_loop_lem (suc k) i d c j =
    let later = mark_loop_lem k (i + 1) (set_bit d i) (set_bit-ClearFrom i d c) j in
    let first = bit_at-set_bit d i j (c.bytes (i / 8)) (c.clear i (omega arith)) in
    rw (later, first) (ground arith)

zeroes-ClearFrom : ClearFrom 0 zeroes
unfolding bit_at
zeroes-ClearFrom = record { bytes = λ j. omega arith; clear = λ j lt. omega arith }

-- A word of the free map says that the blocks below `used`, and no others, are in use.
abbrev pub MarksBelow : ℕ → Data → Type 0
MarksBelow used d = (j : ℕ) → bit_at d j ≡ (if ltb j used then 1 else 0)

pub mark_loop-MarksBelow : (used : ℕ) → MarksBelow used (mark_loop used 0 zeroes)
mark_loop-MarksBelow used j =
    mark_loop_lem used 0 zeroes zeroes-ClearFrom j
    ∙ rw (zeroes-ClearFrom.clear j (omega arith)) (ground arith)
