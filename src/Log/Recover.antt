-- ===== src/Log/Recover.antt =====
-- recover_from_log.
use hitsz_ext.Base.{
  ℕ, zero, suc, ◌≡◌, ◌≢◌, ◌+◌, ◌<◌, ◌≤◌, refl, true, false, none, some, List, ◌∷◌, le→leb, arith,
  ap, ◌∙◌, sym,
}
use hitsz_ext.Bytes.{Data}
use hitsz_ext.Machine.{
  Key, key, same_key, same_key_ne, put_ne, Sys, LogHeader, log_size, disk, disk_at, ok,
}
use hitsz_ext.BlockCache.{disk_index}
use hitsz_ext.BlockCache.Steps.{fetched, with_block, released_last, block_read_miss}
use hitsz_ext.BlockCache.Pair.{pair_same, write_snd, release_both}
use hitsz_ext.Log.{log_slot, recover_one, recover_loop, recover_from_log, encode_hdr, decode_hdr}
use hitsz_ext.Log.Header.{read_head_lem, clear_log_lem}
use hitsz_ext.Log.Copy.{copy_snd}
use hitsz_ext.Log.Stores.{stores, disk_at_ne}
use hitsz_ext.Log.Layout.{Layout, start_small, disk_index_small, slot_small, slot-ne-home}

abbrev pub stored : Sys → ℕ → Data → Sys
stored s b d = record s { writes = (disk_index b, d) ∷ s.writes }

-- A round of the recovery writes the log's block over its home, and leaves the cache as it was.
pub recover_one_lem :
    (tail : ℕ) (s : Sys)
    → let d = s.log.dev in
      let a = log_slot s.log tail in
      let b = s.log.hdr.block tail in
      s.blocks (key d a) ≡ none
      → s.blocks (key d b) ≡ none
      → a ≢ b
      → recover_one tail s
        ≡ ok tt (record s { writes = (disk_index b, disk s (disk_index a)) ∷ s.writes })
unfolding recover_one
recover_one_lem tail s ha hb ne =
    let d : ℕ = s.log.dev in
    let a : ℕ = log_slot s.log tail in
    let b : ℕ = s.log.hdr.block tail in
    let j : Key = key d a in
    let k : Key = key d b in
    let apart : same_key j k ≡ false = same_key_ne d a b ne in
    let apart' : same_key k j ≡ false = same_key_ne d b a (λ e. ne (sym e)) in
    let s1 : Sys = with_block s j (some (fetched s a)) in
    rw (block_read_miss s d a ha) (
      rw (block_read_miss s1 d b (put_ne s.blocks k j _ apart' ∙ hb)) (
        rw (copy_snd s j k apart (fetched s a) (fetched s b)) (
          rw
            (write_snd s j k apart (some (fetched s a))
              (record (fetched s b) { bytes = disk s (disk_index a) }) refl)
            (rw
              (release_both (stored s b (disk s (disk_index a))) j k apart (fetched s a)
                (record (fetched s b) { bytes = disk s (disk_index a) }) refl refl)
              (rw (released_last true true (disk s (disk_index a))) (
                ap (ok tt)
                  (pair_same (stored s b (disk s (disk_index a))) j k apart none none ha hb)))))))

-- The loop's effect, on a log whose blocks and homes are not cached: every home is given the
-- contents `g` of its log block.
module _ (s : Sys) (w : Layout s.log) (g : ℕ → Data)
    (no_slot : (i : ℕ) → i < s.log.hdr.n → s.blocks (key s.log.dev (log_slot s.log i)) ≡ none)
    (no_home : (i : ℕ)
      → i < s.log.hdr.n
      → s.blocks (key s.log.dev (s.log.hdr.block i)) ≡ none) where
  recover_round :
      (tail : ℕ) (ws : List (ℕ × Data))
      → tail < s.log.hdr.n
      → disk_at s.image ws (log_slot s.log tail) ≡ g tail
      → recover_one tail (record s { writes = ws })
        ≡ ok tt (record s { writes = (s.log.hdr.block tail, g tail) ∷ ws })
  recover_round tail ws lt logged =
      recover_one_lem tail (record s { writes = ws }) (no_slot tail lt) (no_home tail lt)
        (slot-ne-home w tail tail lt lt)
      ∙ rw (disk_index_small _ (w.small tail lt), disk_index_small _ (slot_small w tail lt), logged)

  recover_loop_lem :
      (k tail : ℕ) (ws : List (ℕ × Data))
      → tail + k ≡ s.log.hdr.n
      → ((i : ℕ) → tail ≤ i → i < s.log.hdr.n → disk_at s.image ws (log_slot s.log i) ≡ g i)
      → recover_loop k tail (record s { writes = ws })
        ≡ ok tt (record s { writes = stores s.log.hdr.block g k tail ws })
  unfolding recover_loop stores
  recover_loop_lem zero tail ws e logged = refl
  recover_loop_lem (suc k) tail ws e logged =
      rw (recover_round tail ws (omega arith) (logged tail (omega arith) (omega arith))) (
        recover_loop_lem k (tail + 1) _ (omega arith) (λ i lo hi.
          disk_at_ne s.image _ _ _ _ (λ q. slot-ne-home w i tail hi (omega arith) (sym q))
          ∙ logged i (omega arith) hi))

-- What a restart does with the log that it finds: the state after `recover_from_log`, from the header
-- `h` that the disk holds and the contents `g` of the log blocks.
abbrev pub recovered : Sys → LogHeader → (ℕ → Data) → Sys
recovered s h g =
    let ws = stores h.block g h.n 0 s.writes in
    let h' = record h { n = 0 } in
    record s {
      log = record s.log { hdr = h' };
      writes = (s.log.start, encode_hdr h' (disk_at s.image ws s.log.start)) ∷ ws;
    }

pub recover_from_log_lem :
    (s : Sys)
    → let h = decode_hdr (disk s s.log.start) s.log.hdr in
      Layout (record s.log { hdr = h })
      → ((k : Key) → s.blocks k ≡ none)
      → recover_from_log s ≡ ok tt (recovered s h (λ i. disk s (log_slot s.log i)))
unfolding recover_from_log
recover_from_log_lem s w empty =
    let h : LogHeader = decode_hdr (disk s s.log.start) s.log.hdr in
    let t : Sys = record s { log = record s.log { hdr = h } } in
    let ws : List (ℕ × Data) = stores h.block (λ i. disk s (log_slot s.log i)) h.n 0 s.writes in
    rw (read_head_lem s (start_small w) (empty _) (le→leb h.n log_size w.fits)) (
      rw
        (recover_loop_lem t w (λ i. disk s (log_slot s.log i)) (λ i lt. empty _) (λ i lt. empty _)
          h.n 0 s.writes (omega arith) (λ i lo hi. refl))
        (clear_log_lem (record t { writes = ws }) (start_small w) (empty _)))
