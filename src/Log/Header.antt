-- ===== src/Log/Header.antt =====
-- read_head and write_head.
use hitsz_ext.Base.{ℕ, ◌≡◌, refl, true, none, ◌∷◌, ◌<◌, ◌^◌, leb, arith, ap, ◌∙◌}
use hitsz_ext.Bytes.{Data, put32, put_words}
use hitsz_ext.Bytes.RoundTrip.{
  get32-put32_self, get32-put_words, get32-put_words_below, get_words-lt,
}
use hitsz_ext.Machine.{Key, key, Block, Sys, LogState, LogHeader, log_size, disk, ok}
use hitsz_ext.BlockCache.Steps.{
  fetched, load_put, store_put, write_put, release_put, released_last, block_same, block_read_miss,
}
use hitsz_ext.Log.{encode_hdr, decode_hdr, read_head, write_head, clear_log}
use hitsz_ext.Log.Layout.{disk_index_small}

-- The number of entries, and each entry, read back as they were written.
pub n-decode-encode :
    (h h' : LogHeader) (d : Data) → h.n < 2 ^ 32 → (decode_hdr (encode_hdr h d) h').n ≡ h.n
unfolding decode_hdr encode_hdr
n-decode-encode h h' d small =
    get32-put_words_below h.n (put32 d 0 h.n) 4 h.block 0 (omega arith)
    ∙ get32-put32_self d 0 h.n small

pub block-decode-encode :
    (h h' : LogHeader) (d : Data) (i : ℕ)
    → h.n < 2 ^ 32
    → i < h.n
    → h.block i < 2 ^ 32
    → (decode_hdr (encode_hdr h d) h').block i ≡ h.block i
unfolding decode_hdr encode_hdr
block-decode-encode h h' d i small lt fits =
    rw
      (
        get32-put_words_below h.n (put32 d 0 h.n) 4 h.block 0 (omega arith),
        get32-put32_self d 0 h.n small,
      )
      (get_words-lt h.n (put_words h.n (put32 d 0 h.n) 4 h.block) 4 h'.block i lt
        ∙ get32-put_words h.n (put32 d 0 h.n) 4 h.block i lt fits)

-- The three functions on a header block that is not cached.
module _ (s : Sys) (small : s.log.start < 2 ^ 22)
    (h : s.blocks (key s.log.dev s.log.start) ≡ none) where
  pub read_head_lem :
      leb (decode_hdr (disk s s.log.start) s.log.hdr).n log_size ≡ true
      → read_head s
        ≡ ok tt
            (record s { log = record s.log { hdr = decode_hdr (disk s s.log.start) s.log.hdr } })
  unfolding read_head
  read_head_lem fits =
      let k : Key = key s.log.dev s.log.start in
      let b : Block = fetched s s.log.start in
      let l : LogState = record s.log { hdr = decode_hdr (disk s s.log.start) s.log.hdr } in
      rw (block_read_miss s s.log.dev s.log.start h) (
        rw (load_put s k b) (
          rw (disk_index_small s.log.start small) (
            rw fits (
              rw
                (
                  release_put (record s { log = l }) k (record b { bytes = disk s s.log.start })
                      refl,
                  released_last,
                )
                (ap (ok tt) (block_same (record s { log = l }) k none h))))))

  pub write_head_lem :
      write_head s
      ≡ ok tt (record s {
        writes = (s.log.start, encode_hdr s.log.hdr (disk s s.log.start)) ∷ s.writes;
      })
  unfolding write_head
  write_head_lem =
      let k : Key = key s.log.dev s.log.start in
      let d : Data = encode_hdr s.log.hdr (disk s s.log.start) in
      let c : Block = record { valid = true; locked = true; refcnt = 1; bytes = d } in
      let t : Sys = record s { writes = (s.log.start, d) ∷ s.writes } in
      rw (block_read_miss s s.log.dev s.log.start h) (
        rw (load_put s k (fetched s s.log.start)) (
          rw (disk_index_small s.log.start small) (
            rw (store_put s k (record c { bytes = disk s s.log.start }) c) (
              rw (write_put s k c refl, disk_index_small s.log.start small)
                (rw (release_put t k c refl, released_last)
                  (ap (ok tt) (block_same t k none h)))))))

pub clear_log_lem :
    (s : Sys)
    → s.log.start < 2 ^ 22
    → s.blocks (key s.log.dev s.log.start) ≡ none
    → let h = record s.log.hdr { n = 0 } in
      clear_log s
      ≡ ok tt (record s {
        log = record s.log { hdr = h };
        writes = (s.log.start, encode_hdr h (disk s s.log.start)) ∷ s.writes;
      })
unfolding clear_log
clear_log_lem s small h =
    write_head_lem (record s { log = record s.log { hdr = record s.log.hdr { n = 0 } } }) small h
