-- ===== src/Ops/Io.antt =====
-- op_read, op_write, op_readdir and op_flush of the files of their names under src.
use hitsz_ext.Base.{
  length, ℕ, zero, suc, ◌+◌, ◌-◌, ◌/◌, ◌%◌, Bool, not, Option, List, [], ◌∷◌, ◌++◌, ◌==◌, ltb,
  if◌then◌else◌, u32, take,
}
use hitsz_ext.Machine.{dirent_size, Key, M, pure, ◌>>=◌, ◌>>◌, case_null}
use hitsz_ext.Log.{begin_op, end_op, write_log, write_head}
use hitsz_ext.INode.{load_inode, lock, unlock, update}
use hitsz_ext.INodeCache.{inode_get, inode_unlock_put}
use hitsz_ext.Dir.{Chars, zeros, entry_inum, entry_name}
use hitsz_ext.FileTable.{load_file, store_file}
use hitsz_ext.File.{file_read, file_write}
use hitsz_ext.Ops.Attr.{StatBuf, do_fillstatbuf}
use hitsz_ext.Ops.Reply.{Reply, success, eperm, enoent, einval, enomem, bytes}

-- The reply, and the bytes that went to `buf`. The reply is `size`, whatever was read.
unfoldable pub read_at : ℕ → ℕ → ℕ → M (Reply × List ℕ)
read_at f size offset = do
  o ← load_file f
  ip ← load_inode o.ip
  if ltb ip.dinode.size offset then pure (bytes 0, []) else (do
    store_file f (record o { off = offset })
    r ← file_read f (u32 size)
    pure (bytes size, case_null r [] (λ got. got)))

unfoldable pub op_read : Option ℕ → ℕ → ℕ → M (Reply × List ℕ)
op_read fh size offset = case_null fh (pure (enoent, [])) (λ f. read_at f size offset)

-- `offset` is compared with the size, and not used to write. The number of bytes is converted to a
-- `uint32_t`.
unfoldable pub write_at : ℕ → List ℕ → ℕ → M Reply
write_at f src offset = do
  o ← load_file f
  ip ← load_inode o.ip
  if ltb ip.dinode.size offset
      then pure eperm
      else (do r ← file_write f (take (u32 (length src)) src); pure (case_null r eperm bytes))

unfoldable pub op_write : Option ℕ → List ℕ → ℕ → M Reply
op_write fh src offset = case_null fh (pure enoent) (λ f. write_at f src offset)

-- `de` after the `memset` and the read.
abbrev pub de_bytes : Option (List ℕ) → List ℕ
de_bytes r = take dirent_size (case_null r [] (λ got. got) ++ zeros dirent_size)

abbrev pub Listing : Type 0
Listing = List (Chars × StatBuf)

module _ (filler : Chars → StatBuf → Bool) where
  -- One entry: `filler` says whether its buffer is full.
  unfoldable pub list_entry : ℕ → List ℕ → M (Reply × Listing) → M (Reply × Listing)
  list_entry dev e rest = do
    k ← inode_get dev (entry_inum e)
    lock k
    st ← do_fillstatbuf k
    inode_unlock_put k
    if filler (entry_name e) st
        then pure (enomem, [])
        else (do r ← rest; pure (r.0, (entry_name e, st) ∷ r.1))

  unfoldable pub list_loop : ℕ → ℕ → M (Reply × Listing)
  list_loop f zero = pure (success, [])
  list_loop f (suc rounds) = do
    o ← load_file f
    r ← file_read f dirent_size
    let rest : M (Reply × Listing) = list_loop f rounds
    if entry_inum (de_bytes r) == 0 then rest else list_entry o.ip.dev (de_bytes r) rest

  -- The reply, and what was given to `filler`.
  unfoldable pub op_readdir : Option ℕ → ℕ → M (Reply × Listing)
  op_readdir fh offset = case_null fh (pure (enoent, [])) (λ f. do
    o ← load_file f
    ip ← load_inode o.ip
    if ltb ip.dinode.size offset
        then pure (success, [])
        else (if not (offset % dirent_size == 0)
            then pure (einval, [])
            else list_loop f ((ip.dinode.size - offset + (dirent_size - 1)) / dirent_size)))

-- The cached inodes are given as the map's keys, in their order.
unfoldable pub flush_inodes : List Key → M (Unit {0})
flush_inodes [] = pure tt
flush_inodes (k ∷ ks) = do begin_op; lock k; update k; unlock k; end_op; flush_inodes ks

unfoldable pub op_flush : List Key → M Reply
op_flush keys = do flush_inodes keys; write_log; write_head; pure success
