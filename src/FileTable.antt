-- ===== src/FileTable.antt =====
-- The table of open files: src/FileTable.cxx, inc/FileTable.h, and Pipe::alloc of src/Pipe.cxx. A
-- pointer to an OFile is its index in the table.
pub mod Slots
use hitsz_ext.Base.{
  ℕ, zero, suc, ◌+◌, ◌<◌, Bool, true, false, not, Option, none, some, ◌==◌, leb, ltb, if◌then◌else◌,
  inc32, dec32,
}
use hitsz_ext.Machine.{
  nfile, Key, FdType, fd_none, fd_pipe, fd_inode, fd_device, OFile, Pipe, Sys, Run, ok, fault,
  dangling, M, pure, gets, ◌>>=◌, ◌>>◌, assert, case_null,
}
use hitsz_ext.Log.{begin_op, end_op}
use hitsz_ext.INodeCache.{inode_put}
use hitsz_ext.Pipe

abbrev pub set_file : (ℕ → OFile) → ℕ → OFile → ℕ → OFile
set_file files f o g = if g == f then o else files g

unfoldable pub load_file : ℕ → M OFile
load_file f s = ok (s.files f) s

unfoldable pub store_file : ℕ → OFile → M (Unit {0})
store_file f o s = ok tt (record s { files = set_file s.files f o })

abbrev pub is_none : FdType → Bool
is_none fd_none = true
is_none fd_pipe = false
is_none fd_inode = false
is_none fd_device = false

-- The first slot of type FD_NONE from `f` on, among `rounds` slots.
unfoldable pub first_free : (ℕ → OFile) → ℕ → ℕ → Option ℕ
first_free files zero f = none
first_free files (suc rounds) f =
    if is_none (files f).type then some f else first_free files rounds (f + 1)

-- The slot is marked by its count alone: its type stays FD_NONE.
unfoldable pub ofile_alloc : M (Option ℕ)
ofile_alloc s =
    case_null (first_free s.files nfile 0) (pure none)
      (λ f. do store_file f (record (s.files f) { ref = 1 }); pure (some f)) s

unfoldable pub ofile_dup : ℕ → M ℕ
ofile_dup f = do
  o ← load_file f
  assert (leb 1 o.ref)
  store_file f (record o { ref = inc32 o.ref })
  pure f

-- Pipe::close on the pipe of a file; a pipe with both ends closed is deleted.
unfoldable pub close_pipe : ℕ → Bool → M (Unit {0})
close_pipe a writable s = elim (s.pipes a) [
  | none ↦ fault dangling
  | some p ↦
      let (q, deleted) = Pipe.close writable p in
      ok tt
        (record s { pipes = λ b. if b == a then (if deleted then none else some q) else s.pipes b })
]

-- What closing the last reference does, by the type of the copy `ff`.
unfoldable pub close_last : OFile → M (Unit {0})
close_last ff = elim ff.type [
  | fd_pipe ↦ close_pipe ff.pipe ff.writable
  | fd_none ↦ assert false
  | fd_inode ↦ (do begin_op; inode_put ff.ip; end_op)
  | fd_device ↦ (do begin_op; inode_put ff.ip; end_op)
]

unfoldable pub ofile_close : ℕ → M (Unit {0})
ofile_close f = do
  o ← load_file f
  assert (leb 1 o.ref)
  if ltb 0 (dec32 o.ref) then store_file f (record o { ref = dec32 o.ref }) else (do
    store_file f (record o { ref = 0; type = fd_none })
    close_last (record o { ref = dec32 o.ref }))

-- The two ends of a pipe at the address `a`, which `new` gives with members of any value.
unfoldable pub open_ends : ℕ → Pipe → ℕ → ℕ → M (Option (ℕ × ℕ))
open_ends a new wr rd = do
  w ← load_file wr
  store_file wr (record w { type = fd_pipe; readable = false; writable = true; pipe = a })
  r ← load_file rd
  store_file rd (record r { type = fd_pipe; readable = true; writable = false; pipe = a })
  (λ s. ok tt (record s { pipes = λ b. if b == a then some new else s.pipes b }))
  pure (some (wr, rd))

unfoldable pub pipe_alloc : ℕ → Pipe → M (Option (ℕ × ℕ))
pipe_alloc a new = do
  wr ← ofile_alloc
  case_null wr (pure none)
      (λ w. do rd ← ofile_alloc; case_null rd (do ofile_close w; pure none) (open_ends a new w))
