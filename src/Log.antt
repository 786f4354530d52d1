-- ===== src/Log.antt =====
-- The write-ahead log: src/Log.cxx and inc/Log.h. begin_op and log_write hold `Log::mtx` from
-- the first to the last access to the static members, and each is one step of the model. end_op
-- gives the mutex back before commit: it runs with `committing` set, so that begin_op waits, and with
-- no operation in the transaction. The model makes end_op one step with its commit, and has no
-- state between. A wait on `Log::cv` is the fault `blocked`.
pub mod Header
pub mod Stores
pub mod Layout
pub mod Recover
pub mod Copy
pub mod Commit
pub mod Crash
pub mod Effect
pub mod Sessions
pub mod Frame
pub mod Left
pub mod Reservation
use hitsz_ext.Base.{
  ℕ, zero, suc, ◌+◌, ◌-◌, ◌*◌, ◌%◌, ◌^◌, Bool, true, false, not, ◌&&◌, ◌==◌, ltb, leb,
  if◌then◌else◌, inc32, dec32, u32,
}
use hitsz_ext.Bytes.{Data, get32, put32, get_words, put_words}
use hitsz_ext.Machine.{
  log_size, max_op_blocks, Key, key, Block, Sys, LogHeader, LogState, Run, ok, fault, blocked,
  out_of_bounds, M, pure, gets, ◌>>=◌, ◌>>◌, assert, require,
}
use hitsz_ext.BlockCache.{
  load, store, block_read, block_write, block_release, block_pin, block_unpin,
}

-- Assignments to the static members.
abbrev pub set_log : LogState → M (Unit {0})
set_log l s = ok tt (record s { log = l })

abbrev pub set_hdr : LogHeader → M (Unit {0})
set_hdr h s = ok tt (record s { log = record s.log { hdr = h } })

-- `a[i] = v` for an array.
abbrev pub set_at : (ℕ → ℕ) → ℕ → ℕ → ℕ → ℕ
set_at a i v j = if j == i then v else a j

-- The header in a block: `n` at offset 0, `block` from offset 4 on.
unfoldable pub decode_hdr : Data → LogHeader → LogHeader
decode_hdr d h = record { n = get32 d 0; block = get_words (get32 d 0) d 4 h.block }

unfoldable pub encode_hdr : LogHeader → Data → Data
encode_hdr h d = put_words h.n (put32 d 0 h.n) 4 h.block

-- More than LOG_SIZE entries would run over the array in memory.
unfoldable pub read_head : M (Unit {0})
read_head = do
  l ← gets (λ s. s.log)
  k ← block_read l.dev l.start
  b ← load k
  require (leb (decode_hdr b.bytes l.hdr).n log_size) out_of_bounds
  set_hdr (decode_hdr b.bytes l.hdr)
  block_release k

unfoldable pub write_head : M (Unit {0})
write_head = do
  l ← gets (λ s. s.log)
  k ← block_read l.dev l.start
  b ← load k
  store k (record b { bytes = encode_hdr l.hdr b.bytes })
  block_write k
  block_release k

-- `memmove(dst->data, src->data, BSIZE)`.
unfoldable pub copy_block : Key → Key → M (Unit {0})
copy_block dst src = do a ← load src; b ← load dst; store dst (record b { bytes = a.bytes })

-- The block number of the log's entry `tail`.
abbrev pub log_slot : LogState → ℕ → ℕ
log_slot l tail = u32 (l.start + tail + 1)

unfoldable pub recover_one : ℕ → M (Unit {0})
recover_one tail = do
  l ← gets (λ s. s.log)
  src ← block_read l.dev (log_slot l tail)
  dst ← block_read l.dev (l.hdr.block tail)
  copy_block dst src
  block_write dst
  block_release src
  block_release dst

-- The loops' bodies leave `log_hdr.n` alone, so that `n - tail` rounds are left.
unfoldable pub recover_loop : ℕ → ℕ → M (Unit {0})
recover_loop zero tail = pure tt
recover_loop (suc k) tail = do recover_one tail; recover_loop k (tail + 1)

-- `log_hdr.n = 0; write_head();`
unfoldable pub clear_log : M (Unit {0})
clear_log = do l ← gets (λ s. s.log); set_hdr (record l.hdr { n = 0 }); write_head

unfoldable pub recover_from_log : M (Unit {0})
recover_from_log = do read_head; n ← gets (λ s. s.log.hdr.n); recover_loop n 0; clear_log

unfoldable pub write_log_one : ℕ → M (Unit {0})
write_log_one tail = do
  l ← gets (λ s. s.log)
  dst ← block_read l.dev (log_slot l tail)
  src ← block_read l.dev (l.hdr.block tail)
  copy_block dst src
  block_write dst
  block_release src
  block_release dst

unfoldable pub write_log_loop : ℕ → ℕ → M (Unit {0})
write_log_loop zero tail = pure tt
write_log_loop (suc k) tail = do write_log_one tail; write_log_loop k (tail + 1)

unfoldable pub write_log : M (Unit {0})
write_log = do n ← gets (λ s. s.log.hdr.n); write_log_loop n 0

unfoldable pub install_one : ℕ → M (Unit {0})
install_one tail = do
  l ← gets (λ s. s.log)
  src ← block_read l.dev (log_slot l tail)
  dst ← block_read l.dev (l.hdr.block tail)
  copy_block dst src
  block_write dst
  block_unpin dst
  block_release src
  block_release dst

unfoldable pub install_loop : ℕ → ℕ → M (Unit {0})
install_loop zero tail = pure tt
install_loop (suc k) tail = do install_one tail; install_loop k (tail + 1)

unfoldable pub commit_logged : ℕ → M (Unit {0})
commit_logged n = do write_log; write_head; install_loop n 0; clear_log

unfoldable pub commit : M (Unit {0})
commit s = let n = s.log.hdr.n in (if ltb 0 n then commit_logged n else pure tt) s

-- Log::init, which SuperBlock::init and op_init both call.
unfoldable pub init : ℕ → M (Unit {0})
init dev = do
  sb ← gets (λ s. s.sb)
  l ← gets (λ s. s.log)
  set_log (record l { start = sb.logstart; size = sb.nlog; dev = dev })
  recover_from_log

-- The test that lets an operation in.
unfoldable pub may_begin : LogState → Bool
may_begin l = not l.committing && leb (u32 (l.hdr.n + (l.outstanding + 1) * max_op_blocks)) log_size

-- `cv.wait` and the loop around it wait until the test holds.
unfoldable pub begin_op : M (Unit {0})
begin_op s =
    if may_begin s.log
    then set_log (record s.log { outstanding = inc32 s.log.outstanding }) s
    else fault blocked

-- The second half of `end_op`, for the last operation. `committing` is set before the mutex is given
-- back; commit runs without the mutex.
unfoldable pub end_last : M (Unit {0})
end_last = do
  l ← gets (λ s. s.log)
  set_log (record l { committing = true })
  commit
  m ← gets (λ s. s.log)
  set_log (record m { committing = false })

unfoldable pub end_op : M (Unit {0})
end_op = do
  l ← gets (λ s. s.log)
  set_log (record l { outstanding = dec32 l.outstanding })
  assert (not l.committing)
  if dec32 l.outstanding == 0 then end_last else pure tt

-- The first entry for `bno` from index `i` on, with `k` entries left, or the index past them.
unfoldable pub find_slot : ℕ → ℕ → (ℕ → ℕ) → ℕ → ℕ
find_slot zero i a bno = i
find_slot (suc k) i a bno = if a i == bno then i else find_slot k (i + 1) a bno

unfoldable pub add_entry : Key → M (Unit {0})
add_entry k = do block_pin k; l ← gets (λ s. s.log); set_hdr (record l.hdr { n = inc32 l.hdr.n })

unfoldable pub log_write : Key → M (Unit {0})
log_write k = do
  l ← gets (λ s. s.log)
  assert (ltb l.hdr.n log_size && ltb l.hdr.n (dec32 l.size))
  assert (leb 1 l.outstanding)
  let i = find_slot l.hdr.n 0 l.hdr.block k.num
  set_hdr (record l.hdr { block = set_at l.hdr.block i k.num })
  if i == l.hdr.n then add_entry k else pure tt
