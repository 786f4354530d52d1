-- ===== src/Content.antt =====
-- The contents of a file: block_map, INode::read and INode::write of src/fs.cxx.
pub mod Mapped
pub mod Read
pub mod Splice
pub mod Store
pub mod Write
pub mod Overwrite
pub mod Owned
pub mod Grow
use hitsz_ext.Base.{
  ℕ, zero, suc, ◌+◌, ◌-◌, ◌*◌, ◌/◌, ◌%◌, ◌^◌, min, Bool, false, ◌||◌, List, [], ◌∷◌, ◌++◌, ◌==◌,
  ltb, leb, if◌then◌else◌, u32, length, take, drop,
}
use hitsz_ext.Bytes.{Data, get32, put32}
use hitsz_ext.Machine.{bsize, ndirect, nindirect, max_file, Key, M, pure, ◌>>=◌, ◌>>◌, assert}
use hitsz_ext.BlockCache.{load, store, block_read, block_release}
use hitsz_ext.Log.{set_at, log_write}
use hitsz_ext.Bitmap.{finish, block_alloc}
use hitsz_ext.INode.{load_inode, set_dinode, update}

-- The block at `addrs[i]`, allocated if there is none.
unfoldable pub slot_block : Key → ℕ → M ℕ
slot_block k i = do
  ip ← load_inode k
  if ip.dinode.addrs i == 0
      then (do
        b ← block_alloc k.dev
        if b == 0 then pure 0 else (do
          set_dinode k (record ip.dinode { addrs = set_at ip.dinode.addrs i b })
          pure b))
      else pure (ip.dinode.addrs i)

-- The word `j` of the indirect block, with a block allocated if it is 0.
unfoldable pub indirect_block : Key → ℕ → ℕ → M ℕ
indirect_block k bno j = do
  bp ← block_read k.dev bno
  b ← load bp
  if get32 b.bytes (4 * j) == 0
      then (do
        new ← block_alloc k.dev
        if new == 0
            then pure tt
            else (do store bp (record b { bytes = put32 b.bytes (4 * j) new }); log_write bp)
        block_release bp
        pure new)
      else (do block_release bp; pure (get32 b.bytes (4 * j)))

-- 0 if the disk is full.
unfoldable pub block_map : Key → ℕ → M ℕ
block_map k bno =
    if ltb bno ndirect
    then slot_block k bno
    else (if ltb (bno - ndirect) nindirect
        then (do
          ind ← slot_block k ndirect
          if ind == 0 then pure 0 else indirect_block k ind (bno - ndirect))
        else (do assert false; pure 0))

-- `n` bytes from an offset of a block, and bytes stored there.
unfoldable pub slice : Data → ℕ → ℕ → List ℕ
slice d o zero = []
slice d o (suc n) = d o ∷ slice d (o + 1) n

unfoldable pub splice : Data → ℕ → List ℕ → Data
splice d o [] i = d i
splice d o (c ∷ cs) i = if i == o then c else splice d (o + 1) cs i

-- The bytes that a round of either loop moves: MIN(n - tot, BSIZE - off % BSIZE).
abbrev pub chunk : ℕ → ℕ → ℕ
chunk off left = min left (bsize - off % bsize)

-- The loop of INode::read with `left` bytes to go. Each round moves one byte at least, so that
-- `left` rounds are enough.
unfoldable pub read_loop : Key → ℕ → ℕ → ℕ → M (List ℕ)
read_loop k zero off left = pure []
read_loop k (suc fuel) off left = if left == 0 then pure [] else (do
  b ← block_map k (u32 (off / bsize))
  if b == 0 then pure [] else (do
    bp ← block_read k.dev b
    x ← load bp
    block_release bp
    rest ← read_loop k fuel (off + chunk off left) (left - chunk off left)
    pure (slice x.bytes (off % bsize) (chunk off left) ++ rest)))

-- `off + n` overflows an `off_t`.
abbrev pub overflows : ℕ → ℕ → Bool
overflows off n = leb (2 ^ 63) (off + n)

-- The number of bytes of an `n`-byte read at `off` that lie in a file of `size` bytes.
unfoldable pub readable_bytes : ℕ → ℕ → ℕ → ℕ
readable_bytes size off n =
    if ltb size off || overflows off n then 0 else (if ltb size (off + n) then size - off else n)

-- The bytes read; their number is what the function returns.
unfoldable pub read : Key → ℕ → ℕ → M (List ℕ)
read k off n = do
  ip ← load_inode k
  read_loop k (readable_bytes ip.dinode.size off n) off (readable_bytes ip.dinode.size off n)

-- The loop of INode::write: how many bytes of `src` it stored.
unfoldable pub write_loop : Key → ℕ → ℕ → List ℕ → M ℕ
write_loop k zero off src = pure 0
write_loop k (suc fuel) off src = if length src == 0 then pure 0 else (do
  b ← block_map k (u32 (off / bsize))
  if b == 0 then pure 0 else (do
    bp ← block_read k.dev b
    x ← load bp
    store bp (record x { bytes = splice x.bytes (off % bsize) (take (chunk off (length src)) src) })
    finish bp
    rest ← write_loop k fuel (off + chunk off (length src)) (drop (chunk off (length src)) src)
    pure (chunk off (length src) + rest)))

-- -1 as a `uint32_t`.
abbrev pub minus_one : ℕ
minus_one = 2 ^ 32 - 1

unfoldable pub write_stored : Key → ℕ → List ℕ → M ℕ
write_stored k off src = do
  tot ← write_loop k (length src) off src
  ip ← load_inode k
  if ltb ip.dinode.size (off + tot)
      then set_dinode k (record ip.dinode { size = u32 (off + tot) })
      else pure tt
  update k
  pure tot

unfoldable pub write : Key → ℕ → List ℕ → M ℕ
write k off src = do
  ip ← load_inode k
  if ltb ip.dinode.size off || overflows off (length src)
      then pure minus_one
      else (if ltb (max_file * bsize) (off + length src)
          then pure minus_one
          else write_stored k off src)
