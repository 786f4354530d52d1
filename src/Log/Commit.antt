-- ===== src/Log/Commit.antt =====
-- write_log and commit, when only the log holds the logged blocks.
use hitsz_ext.Base.{
  ℕ, zero, suc, ◌≡◌, ◌≢◌, ◌+◌, ◌<◌, ◌≤◌, refl, true, false, none, some, List, ◌∷◌, lt→ltb, arith,
  ap, ◌∙◌, sym,
}
use hitsz_ext.Bytes.{Data}
use hitsz_ext.Machine.{
  Key, key, Map, put, same_key, same_key_ne, put_ne, put_same, Block, Sys, LogHeader, disk, disk_at,
  ok,
}
use hitsz_ext.BlockCache.{disk_index}
use hitsz_ext.BlockCache.Steps.{
  fetched, with_block, released_last, pinned, held, released-held, dec32_held, block_read_miss,
  block_read_hit,
}
use hitsz_ext.BlockCache.Pair.{
  pair_same, write_fst, write_snd, unpin_snd, release_both, release_swapped,
}
use hitsz_ext.Log.{
  log_slot, write_log_one, write_log_loop, write_log, install_one, install_loop, commit,
  commit_logged, encode_hdr,
}
use hitsz_ext.Log.Stores.{stores, disk_at_ne, disk_at-stores}
use hitsz_ext.Log.Layout.{
  Layout, disk_index_small, slot_small, start_small, slot-ne-home, start-ne-home, start-ne-slot,
  slot_injective,
}
use hitsz_ext.Log.Header.{write_head_lem, clear_log_lem}
use hitsz_ext.Log.Recover.{stored}
use hitsz_ext.Log.Copy.{copy_fst, copy_snd}

-- A round of `write_log` writes the cached block to the log, and leaves the cache as it was.
write_log_one_lem :
    (tail : ℕ) (s : Sys) (d : Data)
    → let a = log_slot s.log tail in
      let b = s.log.hdr.block tail in
      s.blocks (key s.log.dev a) ≡ none
      → s.blocks (key s.log.dev b) ≡ some (pinned d)
      → a ≢ b
      → write_log_one tail s ≡ ok tt (stored s a d)
unfolding write_log_one
write_log_one_lem tail s d ha hb ne =
    let a : ℕ = log_slot s.log tail in
    let b : ℕ = s.log.hdr.block tail in
    let j : Key = key s.log.dev a in
    let k : Key = key s.log.dev b in
    let apart : same_key j k ≡ false = same_key_ne s.log.dev a b ne in
    let apart' : same_key k j ≡ false = same_key_ne s.log.dev b a (λ e. ne (sym e)) in
    let x : Block = record (fetched s a) { bytes = d } in
    let s1 : Sys = with_block s j (some (fetched s a)) in
    rw (block_read_miss s s.log.dev a ha) (
      rw (block_read_hit s1 s.log.dev b (pinned d) (put_ne s.blocks k j _ apart' ∙ hb) refl refl) (
        rw (copy_fst s j k apart (fetched s a) (held d)) (
          rw (write_fst s j k apart x (some (held d)) refl) (
            rw (release_swapped (stored s a d) j k apart x (held d) refl refl) (
              rw (released_last true true d, released-held d)
                (ap (ok tt) (pair_same (stored s a d) j k apart none (some (pinned d)) ha hb)))))))

-- A round of the installation writes the log's copy home, and lets the block go.
install_one_lem :
    (tail : ℕ) (s : Sys) (d : Data)
    → let a = log_slot s.log tail in
      let b = s.log.hdr.block tail in
      s.blocks (key s.log.dev a) ≡ none
      → s.blocks (key s.log.dev b) ≡ some (pinned d)
      → a ≢ b
      → install_one tail s
        ≡ ok tt (with_block (stored s b (disk s (disk_index a))) (key s.log.dev b) none)
unfolding install_one
install_one_lem tail s d ha hb ne =
    let a : ℕ = log_slot s.log tail in
    let b : ℕ = s.log.hdr.block tail in
    let j : Key = key s.log.dev a in
    let k : Key = key s.log.dev b in
    let apart : same_key j k ≡ false = same_key_ne s.log.dev a b ne in
    let apart' : same_key k j ≡ false = same_key_ne s.log.dev b a (λ e. ne (sym e)) in
    let c : Data = disk s (disk_index a) in
    let s1 : Sys = with_block s j (some (fetched s a)) in
    rw (block_read_miss s s.log.dev a ha) (
      rw (block_read_hit s1 s.log.dev b (pinned d) (put_ne s.blocks k j _ apart' ∙ hb) refl refl) (
        rw (copy_snd s j k apart (fetched s a) (held d)) (
          rw (write_snd s j k apart (some (fetched s a)) (held c) refl) (
            rw (unpin_snd (stored s b c) j k apart (some (fetched s a)) (held c), dec32_held)
              (rw
                (release_both (stored s b c) j k apart (fetched s a)
                  (record (held c) { refcnt = 1 }) refl refl)
                (rw (released_last true true c) (
                  ap (λ m. ok tt (with_block (record (stored s b c) { blocks = m }) k none))
                    (put_same s.blocks j none ha))))))))

-- The map without the blocks `a i` of a device.
unfoldable pub evict : ℕ → (ℕ → ℕ) → ℕ → ℕ → Map Block → Map Block
evict dev a zero i m = m
evict dev a (suc k) i m = evict dev a k (i + 1) (put m (key dev (a i)) none)

pub evict_ne :
    (dev : ℕ) (a : ℕ → ℕ) (k i : ℕ) (m : Map Block) (b : ℕ)
    → ((j : ℕ) → i ≤ j → j < i + k → a j ≢ b)
    → evict dev a k i m (key dev b) ≡ m (key dev b)
unfolding evict
evict_ne dev a zero i m b h = refl
evict_ne dev a (suc k) i m b h =
    evict_ne dev a k (i + 1) _ b (λ j p q. h j (omega arith) (omega arith))
    ∙ put_ne m (key dev b) (key dev (a i)) none
        (same_key_ne dev b (a i) (λ e. h i (omega arith) (omega arith) (sym e)))

-- The log is ready for a commit with the contents `g`: only the log holds its blocks, and its own
-- area is not cached.
pub record Ready (s : Sys) (g : ℕ → Data) : Type 0 where
  pub layout : Layout s.log
  pub home :
      (i : ℕ) → i < s.log.hdr.n → s.blocks (key s.log.dev (s.log.hdr.block i)) ≡ some (pinned (g i))
  pub slot : (i : ℕ) → i < s.log.hdr.n → s.blocks (key s.log.dev (log_slot s.log i)) ≡ none
  pub head : s.blocks (key s.log.dev s.log.start) ≡ none

module _ (s : Sys) (g : ℕ → Data) (r : Ready s g) where
  write_log_round :
      (tail : ℕ) (ws : List (ℕ × Data))
      → tail < s.log.hdr.n
      → write_log_one tail (record s { writes = ws })
        ≡ ok tt (record s { writes = (log_slot s.log tail, g tail) ∷ ws })
  write_log_round tail ws lt =
      write_log_one_lem tail (record s { writes = ws }) (g tail) (r.slot tail lt) (r.home tail lt)
        (slot-ne-home r.layout tail tail lt lt)
      ∙ rw (disk_index_small _ (slot_small r.layout tail lt))

  write_log_loop_lem :
      (k tail : ℕ) (ws : List (ℕ × Data))
      → tail + k ≡ s.log.hdr.n
      → write_log_loop k tail (record s { writes = ws })
        ≡ ok tt (record s { writes = stores (log_slot s.log) g k tail ws })
  unfolding write_log_loop stores
  write_log_loop_lem zero tail ws e = refl
  write_log_loop_lem (suc k) tail ws e =
      rw (write_log_round tail ws (omega arith)) (write_log_loop_lem k (tail + 1) _ (omega arith))

  -- write_log copies every logged block from the cache to its place in the log, and changes
  -- nothing else.
  pub write_log_lem :
      write_log s ≡ ok tt (record s { writes = stores (log_slot s.log) g s.log.hdr.n 0 s.writes })
  unfolding write_log
  write_log_lem = write_log_loop_lem s.log.hdr.n 0 s.writes (omega arith)

  install_loop_lem :
      (k tail : ℕ) (ws : List (ℕ × Data)) (m : Map Block)
      → tail + k ≡ s.log.hdr.n
      → ((i : ℕ) → tail ≤ i → i < s.log.hdr.n → disk_at s.image ws (log_slot s.log i) ≡ g i)
      → ((i : ℕ)
          → tail ≤ i
          → i < s.log.hdr.n
          → m (key s.log.dev (s.log.hdr.block i)) ≡ some (pinned (g i)))
      → ((i : ℕ) → tail ≤ i → i < s.log.hdr.n → m (key s.log.dev (log_slot s.log i)) ≡ none)
      → install_loop k tail (record s { writes = ws; blocks = m })
        ≡ ok tt (record s {
          writes = stores s.log.hdr.block g k tail ws;
          blocks = evict s.log.dev s.log.hdr.block k tail m;
        })
  unfolding install_loop stores evict
  install_loop_lem zero tail ws m e logged home slot = refl
  install_loop_lem (suc k) tail ws m e logged home slot =
      let lt : tail < s.log.hdr.n = omega arith in
      rw
        (install_one_lem tail (record s { writes = ws; blocks = m }) (g tail)
          (slot tail (omega arith) lt) (home tail (omega arith) lt)
          (slot-ne-home r.layout tail tail lt lt))
        (rw
          (
            disk_index_small _ (slot_small r.layout tail lt),
            disk_index_small _ (r.layout.small tail lt),
            logged tail (omega arith) lt,
          )
          (install_loop_lem k (tail + 1) _ _ (omega arith)
            (λ i lo hi.
              disk_at_ne s.image _ _ _ _ (λ q. slot-ne-home r.layout i tail hi lt (sym q))
              ∙ logged i (omega arith) hi)
            (λ i lo hi.
              put_ne m _ _ none (
                same_key_ne s.log.dev _ _
                  (λ q. absurd (omega (arith, r.layout.distinct i tail hi lt q))))
              ∙ home i (omega arith) hi)
            (λ i lo hi.
              put_ne m _ _ none (same_key_ne s.log.dev _ _ (slot-ne-home r.layout i tail hi lt))
              ∙ slot i (omega arith) hi)))

-- The stores of a commit, the newest first, in the order of its four steps: the log blocks, the
-- header with the entries, the home blocks, the header without them.
abbrev pub hdr0 : Sys → LogHeader
hdr0 s = record s.log.hdr { n = 0 }

abbrev pub after_log : Sys → (ℕ → Data) → List (ℕ × Data)
after_log s g = stores (log_slot s.log) g s.log.hdr.n 0 s.writes

abbrev pub after_head : Sys → (ℕ → Data) → List (ℕ × Data)
after_head s g =
    (s.log.start, encode_hdr s.log.hdr (disk_at s.image (after_log s g) s.log.start))
    ∷ after_log s g

abbrev pub after_install : Sys → (ℕ → Data) → List (ℕ × Data)
after_install s g = stores s.log.hdr.block g s.log.hdr.n 0 (after_head s g)

abbrev pub after_clear : Sys → (ℕ → Data) → List (ℕ × Data)
after_clear s g =
    (s.log.start, encode_hdr (hdr0 s) (disk_at s.image (after_install s g) s.log.start))
    ∷ after_install s g

abbrev pub committed : Sys → (ℕ → Data) → Sys
committed s g = record s {
  writes = after_clear s g;
  blocks = evict s.log.dev s.log.hdr.block s.log.hdr.n 0 s.blocks;
  log = record s.log { hdr = hdr0 s };
}

module _ (s : Sys) (g : ℕ → Data) (r : Ready s g) where
  pub logged_slot :
      (i : ℕ) → i < s.log.hdr.n → disk_at s.image (after_head s g) (log_slot s.log i) ≡ g i
  logged_slot i hi =
      disk_at_ne s.image _ _ _ _ (start-ne-slot r.layout i hi)
      ∙ disk_at-stores s.image (log_slot s.log) g s.log.hdr.n 0 s.writes i (omega arith)
          (omega arith)
          (λ p q p1 p2 q1 q2 e. slot_injective r.layout p q (omega arith) (omega arith) e)

  pub commit_logged_lem : commit_logged s.log.hdr.n s ≡ ok tt (committed s g)
  unfolding commit_logged
  commit_logged_lem =
      let t : Sys = record s { writes = after_log s g } in
      rw (write_log_lem s g r) (
        rw (write_head_lem t (start_small r.layout) r.head) (
          rw
            (install_loop_lem s g r s.log.hdr.n 0 (after_head s g) s.blocks (omega arith)
              (λ i lo hi. logged_slot i hi) (λ i lo hi. r.home i hi) (λ i lo hi. r.slot i hi))
            (clear_log_lem _ (start_small r.layout) (
              evict_ne s.log.dev s.log.hdr.block s.log.hdr.n 0 s.blocks s.log.start
                (λ j lo hi e. start-ne-home r.layout j (omega arith) (sym e))
              ∙ r.head))))

  pub commit_lem : 0 < s.log.hdr.n → commit s ≡ ok tt (committed s g)
  unfolding commit
  commit_lem pos = rw (lt→ltb 0 s.log.hdr.n pos) commit_logged_lem
