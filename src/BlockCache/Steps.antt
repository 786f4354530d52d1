-- ===== src/BlockCache/Steps.antt =====
-- What each operation of the block cache does, in the states in which the file system calls it.
use hitsz_ext.Base.{
  ℕ, ◌≡◌, refl, Bool, true, false, Option, none, some, ◌∷◌, ◌==◌, if◌then◌else◌, inc32, dec32, ap,
  ◌∙◌,
}
use hitsz_ext.Machine.{Key, key, put, put_self, put-put, put_same, Block, Sys, disk, ok}
use hitsz_ext.Bytes.{Data, zeroes}
use hitsz_ext.BlockCache.{
  disk_index, load, store, block_read, block_write, block_release, block_pin, block_unpin,
  block_get, posix_read, posix_write, drop_ref,
}

-- A block that has just been read from the disk for its only holder.
abbrev pub fetched : Sys → ℕ → Block
fetched s n = record { valid = true; locked = true; refcnt = 1; bytes = disk s (disk_index n) }

-- What `block_release` leaves of a block.
unfoldable pub released : Block → Option Block
released b =
    if dec32 b.refcnt == 0
    then none
    else some (record b { locked = false; refcnt = dec32 b.refcnt })

abbrev pub with_block : Sys → Key → Option Block → Sys
with_block s k b = record s { blocks = put s.blocks k b }

module _ (s : Sys) where
  pub load_lem : (k : Key) (b : Block) → s.blocks k ≡ some b → load k s ≡ ok b s
  unfolding load
  load_lem k b h = rw (h, load)

  pub store_lem :
      (k : Key) (b c : Block) → s.blocks k ≡ some b → store k c s ≡ ok tt (with_block s k (some c))
  unfolding store
  store_lem k b c h = rw (h, store)

  block_get_miss :
      (d n : ℕ)
      → s.blocks (key d n) ≡ none
      → block_get d n s
        ≡ ok (key d n) (
            with_block s
              (key d n)
              (some (record { valid = false; locked = true; refcnt = 1; bytes = zeroes })))
  unfolding block_get
  block_get_miss d n h = rw (h, block_get)

  block_get_hit :
      (d n : ℕ) (b : Block)
      → s.blocks (key d n) ≡ some b
      → b.locked ≡ false
      → block_get d n s
        ≡ ok
            (key d n)
            (with_block s (key d n) (some (record b { locked = true; refcnt = inc32 b.refcnt })))
  unfolding block_get
  block_get_hit d n b h l = rw (h, block_get) (rw l)

-- Loading, and storing, right after a block was put in the map.
pub load_put :
    (s : Sys) (k : Key) (b : Block)
    → load k (with_block s k (some b)) ≡ ok b (with_block s k (some b))
load_put s k b = load_lem (with_block s k (some b)) k b (put_self s.blocks k (some b))

pub store_put :
    (s : Sys) (k : Key) (b c : Block)
    → store k c (with_block s k (some b)) ≡ ok tt (with_block s k (some c))
store_put s k b c =
    store_lem (with_block s k (some b)) k b c (put_self s.blocks k (some b))
    ∙ ap (λ m. ok tt (record s { blocks = m })) (put-put s.blocks k (some b) (some c))

posix_read_put :
    (s : Sys) (k : Key) (b : Block)
    → posix_read k (with_block s k (some b))
      ≡ ok tt (with_block s k (some (record b { bytes = disk s (disk_index k.num) })))
unfolding posix_read
posix_read_put s k b = rw (load_put s k b) (store_put s k b _)

drop_ref_put :
    (s : Sys) (k : Key) (b : Block)
    → drop_ref k (with_block s k (some b))
      ≡ ok tt (
          with_block s k
            (if dec32 b.refcnt == 0 then none else some (record b { refcnt = dec32 b.refcnt })))
unfolding drop_ref
drop_ref_put s k b =
    rw (load_put s k b) (ap (λ m. ok tt (record s { blocks = m })) (put-put s.blocks k _ _))

module _ (s : Sys) where
  pub block_read_miss :
      (d n : ℕ)
      → s.blocks (key d n) ≡ none
      → block_read d n s ≡ ok (key d n) (with_block s (key d n) (some (fetched s n)))
  unfolding block_read
  block_read_miss d n h =
      rw (block_get_miss s d n h, load_put)
        (rw posix_read_put (rw load_put (rw store_put (rw load_put))))

  pub block_read_hit :
      (d n : ℕ) (b : Block)
      → s.blocks (key d n) ≡ some b
      → b.valid ≡ true
      → b.locked ≡ false
      → block_read d n s
        ≡ ok
            (key d n)
            (with_block s (key d n) (some (record b { locked = true; refcnt = inc32 b.refcnt })))
  unfolding block_read
  block_read_hit d n b h v l = rw (block_get_hit s d n b h l, load_put) (rw v (rw load_put))

  pub block_write_lem :
      (k : Key) (b : Block)
      → s.blocks k ≡ some b
      → b.locked ≡ true
      → block_write k s ≡ ok tt (record s { writes = (disk_index k.num, b.bytes) ∷ s.writes })
  unfolding block_write posix_write
  block_write_lem k b h l = rw (load_lem s k b h) (rw l (rw (load_lem s k b h)))

  pub block_release_lem :
      (k : Key) (b : Block)
      → s.blocks k ≡ some b
      → b.locked ≡ true
      → block_release k s ≡ ok tt (with_block s k (released b))
  unfolding block_release released
  block_release_lem k b h l =
      rw (load_lem s k b h) (rw l (rw (store_lem s k b _ h) (drop_ref_put s k _)))

  pub block_pin_lem :
      (k : Key) (b : Block)
      → s.blocks k ≡ some b
      → block_pin k s ≡ ok tt (with_block s k (some (record b { refcnt = inc32 b.refcnt })))
  unfolding block_pin
  block_pin_lem k b h = rw (load_lem s k b h) (store_lem s k b _ h)

  pub block_unpin_lem :
      (k : Key) (b : Block)
      → s.blocks k ≡ some b
      → block_unpin k s ≡ ok tt (with_block s k (some (record b { refcnt = dec32 b.refcnt })))
  unfolding block_unpin
  block_unpin_lem k b h = rw (load_lem s k b h) (store_lem s k b _ h)

-- The same for a block that was just put in the map.
module _ (s : Sys) (k : Key) (b : Block) where
  pub write_put :
      b.locked ≡ true
      → block_write k (with_block s k (some b))
        ≡ ok tt
            (with_block (record s { writes = (disk_index k.num, b.bytes) ∷ s.writes }) k (some b))
  write_put l = block_write_lem (with_block s k (some b)) k b (put_self s.blocks k (some b)) l

  pub release_put :
      b.locked ≡ true
      → block_release k (with_block s k (some b)) ≡ ok tt (with_block s k (released b))
  release_put l =
      block_release_lem (with_block s k (some b)) k b (put_self s.blocks k (some b)) l
      ∙ ap (λ m. ok tt (record s { blocks = m })) (put-put s.blocks k (some b) (released b))

-- The last holder's release deletes the block.
pub released_last :
    (v l : Bool) (d : Data)
    → released (record { valid = v; locked = l; refcnt = 1; bytes = d }) ≡ none
unfolding released dec32
released_last v l d = refl

-- A slot as it was.
pub block_same : (s : Sys) (k : Key) (u : Option Block) → s.blocks k ≡ u → with_block s k u ≡ s
block_same s k u e = ap (λ m. record s { blocks = m }) (put_same s.blocks k u e)

-- A block that only the log holds.
abbrev pub pinned : Data → Block
pinned d = record { valid = true; locked = false; refcnt = 1; bytes = d }

-- One that is read while the log holds it, and its release.
abbrev pub held : Data → Block
held d = record { valid = true; locked = true; refcnt = inc32 1; bytes = d }

pub released-held : (d : Data) → released (held d) ≡ some (pinned d)
unfolding released inc32 dec32
released-held d = refl

pub dec32_held : dec32 (inc32 1) ≡ 1
unfolding inc32 dec32
dec32_held = refl

pub pin_put :
    (s : Sys) (k : Key) (b : Block)
    → block_pin k (with_block s k (some b))
      ≡ ok tt (with_block s k (some (record b { refcnt = inc32 b.refcnt })))
pin_put s k b =
    block_pin_lem (with_block s k (some b)) k b (put_self s.blocks k (some b))
    ∙ ap (λ m. ok tt (record s { blocks = m })) (put-put s.blocks k (some b) _)
