-- ===== src/Bitmap/Alloc.antt =====
-- block_alloc inside a transaction.
use hitsz_ext.Base.{
  ℕ, zero, suc, ◌+◌, ◌-◌, ◌*◌, ◌/◌, ◌%◌, ◌<◌, ◌≤◌, ◌^◌, ◌≡◌, ◌≢◌, refl, ◌⊎◌, none, some, min, Bool,
  ◌==◌, ltb, if◌then◌else◌, inl, inr, Bool-cases, Option-cases, ==→eq, arith, ◌∙◌, sym, ap, subst,
  u32,
}
use hitsz_ext.Bytes.{Data, zeroes}
use hitsz_ext.Machine.{Map, Block, LogHeader, bit_per_block, SuperBlock, Sys, Run, ok}
use hitsz_ext.Bitmap.{bit_block, find_free, take_block, alloc_loop, block_alloc}
use hitsz_ext.Bitmap.Bits.{set_bit-IsByte, bit_at, set_bit, bit_at-set_bit, bit_at_cases}
use hitsz_ext.Bitmap.Map.{used, FreeMap, used-logged}
use hitsz_ext.Bitmap.Free.{block_zeroed_lem}
use hitsz_ext.Transaction.{changed, at, Tx, IsHome, HasRoom, content, holding, hold, logged}
use hitsz_ext.Transaction.Hold.{tx_read, tx_release, load-hold, store-hold}
use hitsz_ext.Transaction.Finish.{tx_finish, content-logged_self, content-logged_ne}

find_free-some :
    (d : Data) (k i j : ℕ) → find_free k i d ≡ some j → (i ≤ j) × (j < i + k) × (bit_at d j ≡ 0)
unfolding find_free
find_free-some d zero i j e = cc
find_free-some d (suc k) i j e = elim (Bool-cases (bit_at d i == 0)) [
  | inl free ↦ ground (arith, rw free at e)
  | inr taken ↦
      let (lo, hi, z) = find_free-some d k (i + 1) j (rw taken at e) in
      (omega arith, omega arith, z)
]

find_free-none :
    (d : Data) (k i j : ℕ) → find_free k i d ≡ none → i ≤ j → j < i + k → bit_at d j ≡ 1
unfolding find_free
find_free-none d zero i j e lo hi = absurd (omega arith)
find_free-none d (suc k) i j e lo hi = elim (Bool-cases (bit_at d i == 0)) [
  | inl free ↦ ground (arith, rw free at e)
  | inr taken ↦ elim (Bool-cases (i == j)) [
    | inl q ↦ rw (← ==→eq i j q) (ground (arith, bit_at_cases d i))
    | inr q ↦ find_free-none d k (i + 1) j (rw taken at e) (ground arith) (omega arith)
  ]
]

-- The blocks of one round have their bits in one block of the map.
pub same_map_block :
    (sb : SuperBlock) (b x : ℕ)
    → b % bit_per_block ≡ 0
    → b ≤ x
    → x < b + bit_per_block
    → bit_block sb x ≡ bit_block sb b
same_map_block sb b x even lo hi = ap (λ q. u32 (q + sb.bmapstart)) (omega arith)

taken_here :
    (s : Sys) (b x : ℕ)
    → b % bit_per_block ≡ 0
    → b ≤ x
    → x < b + bit_per_block
    → (k : ℕ) → find_free k 0 (content s (bit_block s.sb b)) ≡ none
    → x < b + k
    → used s x ≡ 1
unfolding used
taken_here s b x even lo hi k e lt =
    let bit : x % bit_per_block ≡ x - b = omega arith in
    rw (same_map_block s.sb b x even lo hi, bit)
      (find_free-none (content s (bit_block s.sb b)) k 0 (x - b) e (omega arith) (omega arith))

-- The block `r` was free and is now in use and zeroed; nothing else has changed.
pub record Allocated (busy : ℕ → Bool) (s : Sys) (r : ℕ) (t : Sys) : Type 0 where
  pub tx : Tx busy t
  pub inside : r < s.sb.size
  pub pos : 0 < r
  pub was_free : used s r ≡ 0
  pub now_used : (x : ℕ) → x < s.sb.size → used t x ≡ (if x == r then 1 else used s x)
  pub zeroed : content t r ≡ zeroes
  pub others : (c : ℕ) → c ≢ r → c ≢ bit_block s.sb r → content t c ≡ content s c
  pub map_bytes : (x i : ℕ) → x < s.sb.size → content t (bit_block s.sb x) i < 256
  pub entries : t.log.hdr.n ≤ s.log.hdr.n + 2

module _ {busy : ℕ → Bool} {s : Sys} (tx : Tx busy s) (m : FreeMap busy s)
    (room : HasRoom s.log 2) where
  -- The free bit `bi` of the block of the map for `b` is taken.
  take_block_lem :
      (b bi : ℕ)
      → b + bi < s.sb.size
      → bit_block s.sb (b + bi) ≡ bit_block s.sb b
      → (b + bi) % bit_per_block ≡ bi
      → bit_at (content s (bit_block s.sb b)) bi ≡ 0
      → (k : Map Block) × (h : LogHeader) × (take_block s.log.dev b
            (at s (bit_block s.sb b))
            (holding s (bit_block s.sb b) (content s (bit_block s.sb b)))
            bi
            (hold s (bit_block s.sb b) (content s (bit_block s.sb b)))
          ≡ ok (b + bi) (changed s k h))
        × Allocated busy s (b + bi) (changed s k h)
  unfolding take_block
  take_block_lem b bi inside same_block same_bit free =
      let r : ℕ = b + bi in
      let bb : ℕ = bit_block s.sb b in
      let e : Data = set_bit (content s bb) bi in
      let lb : b < s.sb.size = omega arith in
      let was_free : used s r ≡ 0 = unfold used in rw (same_block, same_bit) free in
      let one : HasRoom s.log 1 = record {
        fits = omega (arith, room.fits);
        room = omega (arith, room.room);
      } in
      let (h1, done1, tx1, lo1, hi1) = tx_finish tx bb (m.map_home b lb) e (m.map_idle b lb) one in
      let home_r : IsHome s.log r = m.free_home r inside was_free in
      let (h2, done2, tx2, lo2, hi2) =
        block_zeroed_lem tx1 r (record { small = home_r.small; apart = home_r.apart })
          (m.free_idle r inside was_free)
          (record { fits = omega (arith, room.fits); room = omega (arith, room.room) }) in
      let s1 : Sys = logged s bb e h1 in
      let bits : (j : ℕ)
          → bit_at e j
            ≡ (if j == r % bit_per_block then 1 else bit_at (content s (bit_block s.sb r)) j) =
        λ j.
          rw (same_block, same_bit)
            (bit_at-set_bit (content s bb) bi j (m.map_bytes b _ lb) free) in
      let used1 : (x : ℕ) → x < 2 ^ 32 → used s1 x ≡ (if x == r then 1 else used s x) = λ x lx.
        subst (λ k. used (logged s k e h1) x ≡ (if x == r then 1 else used s x)) same_block
          (used-logged s r 1 e h1 m.start (omega (arith, m.size)) bits x lx) in
      let map_byte : (x i : ℕ) → x < s.sb.size → content s1 (bit_block s.sb x) i < 256 = λ x i lx.
        elim (Bool-cases (bit_block s.sb x == bb)) [
          | inl same ↦
              subst (λ (d : Data). d i < 256)
                (sym (ap (content s1) (==→eq _ _ same) ∙ content-logged_self s bb e h1))
                (set_bit-IsByte (content s bb) bi i (m.map_bytes b i lb))
          | inr apart ↦
              subst (λ (d : Data). d i < 256)
                (sym (content-logged_ne s bb e h1 (bit_block s.sb x) (ground arith)))
                (m.map_bytes x i lx)
        ] in
      (
        (logged s1 r zeroes h2).blocks,
        h2,
        rw (store-hold s bb (content s bb) e) (rw done1 (rw done2)),
        record {
          tx = tx2;
          inside = inside;
          pos = m.free_pos r inside was_free;
          was_free = was_free;
          now_used = λ x lx.
              unfold used in
              (ap (λ d. bit_at d (x % bit_per_block))
                  (content-logged_ne s1 r zeroes h2 (bit_block s.sb x)
                    (m.free_apart r x inside was_free lx))
                ∙ used1 x (omega (arith, m.size)));
          zeroed = content-logged_self s1 r zeroes h2;
          others = λ c ne_r ne_b.
              content-logged_ne s1 r zeroes h2 c ne_r
              ∙ content-logged_ne s bb e h1 c (λ q. ne_b (q ∙ sym same_block));
          map_bytes = λ x i lx.
              subst (λ (d : Data). d i < 256)
                (sym (
                  content-logged_ne s1 r zeroes h2 (bit_block s.sb x)
                    (m.free_apart r x inside was_free lx)))
                (map_byte x i lx);
          entries = omega arith;
        },
      )

  -- What the search from the block `b` on comes to: no block is free, and nothing has changed; or one
  -- is taken.
  abbrev pub Search : Run ℕ → Type 0
  Search out =
      ((out ≡ ok 0 s) × ((x : ℕ) → x < s.sb.size → used s x ≡ 1))
      ⊎ ((r : ℕ) × (k : Map Block) × (h : LogHeader) × (out ≡ ok r (changed s k h))
          × Allocated busy s r (changed s k h))

  alloc_loop_lem :
      (rounds b : ℕ)
      → b % bit_per_block ≡ 0
      → s.sb.size ≤ b + rounds * bit_per_block
      → b + rounds * bit_per_block < s.sb.size + bit_per_block
      → ((x : ℕ) → x < s.sb.size → x < b → used s x ≡ 1)
      → Search (alloc_loop s.log.dev rounds b s)
  unfolding alloc_loop
  alloc_loop_lem zero b even enough few before = inl (refl, λ x lx. before x lx (omega arith))
  alloc_loop_lem (suc k) b even enough few before =
      let lb : b < s.sb.size = omega arith in
      let bb : ℕ = bit_block s.sb b in
      rw (tx_read tx bb (m.map_idle b lb) (m.map_home b lb).small) (
        rw (load-hold s bb (content s bb))
          (elim (Option-cases (find_free (min bit_per_block (s.sb.size - b)) 0 (content s bb))) [
            | inl no_bit ↦ rw no_bit (
                rw (tx_release tx bb (m.map_idle b lb)) (
                  alloc_loop_lem k (b + bit_per_block) (omega arith) (omega arith) (omega arith)
                    (λ x lx near. elim (Bool-cases (ltb x b)) [
                      | inl early ↦ before x lx (ground arith)
                      | inr here ↦ taken_here s b x even (ground arith) near _ no_bit (ground arith)
                    ])))
            | inr (bi, e) ↦
                let (lo, hi, free) = find_free-some (content s bb) _ 0 bi e in
                let (m', h, done, all) =
                  take_block_lem b bi (omega arith)
                    (same_map_block s.sb b (b + bi) even (omega arith) (omega arith)) (omega arith)
                    free in
                rw e (rw done (inr (b + bi, m', h, refl, all)))
          ]))

  -- Inside a transaction, with a sound free map and room for two blocks in the log: block_alloc
  -- takes a free block, zeroes it, marks it as used and changes no other block, or finds that
  -- every block is in use, returns 0 and changes nothing.
  pub block_alloc_lem : Search (block_alloc s.log.dev s)
  unfolding block_alloc
  block_alloc_lem =
      alloc_loop_lem ((s.sb.size + (bit_per_block - 1)) / bit_per_block) 0 (omega arith)
        (omega arith) (omega arith) (λ x lx none_before. absurd (omega arith))
