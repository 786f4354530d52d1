-- ===== src/Mkfs/Mounted.antt =====
-- The mount of an image that mkfs/mkfs.c made: SuperBlock::init and op_init.
use hitsz_ext.Base.{
  if◌then◌else◌, true, ℕ, ◌+◌, ◌<◌, ◌≤◌, ◌^◌, ◌≡◌, ◌≢◌, refl, none, [], List, ◌∷◌, ◌==◌, arith, ap,
  sym, subst, ◌∙◌, length, eq→==,
}
use hitsz_ext.Bytes.{Data}
use hitsz_ext.Machine.{Key, key, Block, Sys, LogHeader, fs_magic, rootdev, disk, disk_at, ok}
use hitsz_ext.BlockCache.Steps.{
  fetched, load_put, release_put, released_last, block_same, block_read_miss,
}
use hitsz_ext.File.{console_init}
use hitsz_ext.Log.{decode_hdr, encode_hdr, log_slot, recover_from_log}
use hitsz_ext.Log
use hitsz_ext.Log.Layout.{disk_index_small}
use hitsz_ext.Log.Header.{n-decode-encode}
use hitsz_ext.Log.Stores.{stores, disk_at_self, disk_at_ne}
use hitsz_ext.Log.Recover.{recover_from_log_lem}
use hitsz_ext.Ops.Mount.{decode_super, super_init, op_init}
use hitsz_ext.Mkfs.{Maker, done, Arg, make}
use hitsz_ext.Mkfs.Table.{max_inode}
use hitsz_ext.Mkfs.Slots.{Yields}
use hitsz_ext.Mkfs.Image.{opened}
use hitsz_ext.Mkfs.Made.{layout, IsMade, make_lem}

super_init_lem :
    (s : Sys) (dev : ℕ)
    → s.blocks (key dev 1) ≡ none
    → (decode_super (disk s 1)).magic ≡ fs_magic
    → super_init dev s ≡ Log.init dev (record s { sb = decode_super (disk s 1) })
unfolding super_init
super_init_lem s dev empty magic =
    let k : Key = key dev 1 in
    let b : Block = fetched s 1 in
    let t : Sys = record s { sb = decode_super (disk s 1) } in
    rw (block_read_miss s dev 1 empty) (
      rw (load_put s k b) (
        rw (disk_index_small 1 (omega arith)) (
          rw (release_put t k (record b { bytes = disk s 1 }) refl, released_last)
            (rw (block_same t k none empty) (rw (eq→== _ fs_magic magic) refl)))))

-- The recovery of an empty log: its header is written once more.
abbrev rewritten : Sys → Sys
rewritten s =
    let h : LogHeader = record (decode_hdr (disk s s.log.start) s.log.hdr) { n = 0 } in
    record s {
      log = record s.log { hdr = h };
      writes = (s.log.start, encode_hdr h (disk s s.log.start)) ∷ s.writes;
    }

recover_empty :
    (s : Sys)
    → (decode_hdr (disk s s.log.start) s.log.hdr).n ≡ 0
    → 0 < s.log.size
    → s.log.start + s.log.size ≤ 2 ^ 22
    → ((k : Key) → s.blocks k ≡ none)
    → recover_from_log s ≡ ok tt (rewritten s)
unfolding stores
recover_empty s e pos area empty =
    let h : LogHeader = decode_hdr (disk s s.log.start) s.log.hdr in
    let g : ℕ → Data = λ i. disk s (log_slot s.log i) in
    recover_from_log_lem s
      (record {
        room = omega arith;
        fits = omega arith;
        area = area;
        small = λ i lt. absurd (omega arith);
        apart = λ i lt. absurd (omega arith);
        distinct = λ i j lt. absurd (omega arith);
      })
      empty
    ∙ (λ i.
        let ws : List (ℕ × Data) = stores h.block g (e i) 0 s.writes in
        ok tt (record s {
          log = record s.log { hdr = record h { n = 0 } };
          writes =
              (s.log.start, encode_hdr (record h { n = 0 }) (disk_at s.image ws s.log.start)) ∷ ws;
        }))

module _ (t : Maker) (m : IsMade t) (s : Sys) (image : s.image ≡ t.file) (clean : s.writes ≡ [])
    (empty : (k : Key) → s.blocks k ≡ none) where
  disk_file : (b : ℕ) → disk s b ≡ t.file b
  unfolding disk_at
  disk_file b = λ i. disk_at (image i) (clean i) b

  abbrev with_super : Sys
  with_super = record s { sb = layout; log = record s.log { start = 2; size = 30; dev = rootdev } }

  abbrev with_console : Sys
  with_console =
      let u : Sys = rewritten with_super in
      record u {
        devices = λ d. if d == 1 then record { has_read = true; has_write = true } else u.devices d;
      }

  first_empty : (decode_hdr (disk with_super 2) s.log.hdr).n ≡ 0
  first_empty = ap (λ d. (decode_hdr d s.log.hdr).n) (disk_file 2) ∙ m.log_empty s.log.hdr

  again_empty : (decode_hdr (disk with_console 2) with_console.log.hdr).n ≡ 0
  again_empty =
      ap (λ d. (decode_hdr d with_console.log.hdr).n) (disk_at_self s.image 2 _ s.writes)
      ∙ n-decode-encode with_console.log.hdr _ (disk s 2) (omega arith)

  super_init_made : super_init rootdev s ≡ ok tt (rewritten with_super)
  unfolding Log.init
  super_init_made =
      let found : decode_super (disk s 1) ≡ layout = ap decode_super (disk_file 1) ∙ m.super in
      super_init_lem s rootdev (empty _) (ap (λ b. b.magic) found)
      ∙ ap (λ b. Log.init rootdev (record s { sb = b })) found
      ∙ recover_empty with_super first_empty (omega arith) (omega arith) empty

  op_init_made : op_init s ≡ ok tt (rewritten with_console)
  unfolding op_init Log.init console_init
  op_init_made =
      rw super_init_made (recover_empty with_console again_empty (omega arith) (omega arith) empty)

-- op_init on an image that mkfs made, when it returned, with at most 206 files, and with no block
-- cached or stored yet, returns: it has read the super block with mkfs's layout, the log is where
-- mkfs put it and empty, its size is 30, and no block of the disk but the log's header has changed.
pub op_init-make :
    (args : List Arg) (t : Maker)
    → 2 + length args ≤ max_inode
    → make args opened ≡ done tt t
    → (s : Sys) → s.image ≡ t.file
    → s.writes ≡ []
    → ((k : Key) → s.blocks k ≡ none)
    → (u : Sys) × (op_init s ≡ ok tt u)
      × (u.sb ≡ layout)
      × (u.log.start ≡ 2)
      × (u.log.size ≡ 30)
      × (u.log.hdr.n ≡ 0)
      × (u.log.outstanding ≡ s.log.outstanding)
      × ((b : ℕ) → b ≢ 2 → disk u b ≡ t.file b)
op_init-make args t few run s image clean empty =
    let m : IsMade t = subst (Yields (λ _ v. IsMade v)) run (make_lem args few) in
    (
      rewritten (with_console t m s image clean empty),
      op_init_made t m s image clean empty,
      refl,
      refl,
      refl,
      refl,
      refl,
      λ b ne.
          disk_at_ne s.image 2 b _ _ (λ e. ne (sym e))
          ∙ disk_at_ne s.image 2 b _ s.writes (λ e. ne (sym e))
          ∙ disk_file t m s image clean empty b,
    )
