-- ===== src/File.antt =====
-- Open files: src/File.cxx, inc/OFile.h and the console of src/Device.cxx.
use hitsz_ext.Base.{
  ℕ, zero, suc, ◌+◌, min, Bool, true, false, not, ◌||◌, Option, none, some, List, [], ◌==◌, leb,
  if◌then◌else◌, length, take, drop,
}
use hitsz_ext.Machine.{
  ndev, Device, fd_none, fd_pipe, fd_inode, fd_device, OFile, Pipe, ok, fault, dangling, blocked,
  endless, unlock_unheld, M, pure, ◌>>=◌, ◌>>◌, assert,
}
use hitsz_ext.Log.{begin_op, end_op}
use hitsz_ext.INode
use hitsz_ext.INode.{Stat, lock, unlock}
use hitsz_ext.Content
use hitsz_ext.FileTable.{load_file, store_file}
use hitsz_ext.Pipe
use hitsz_ext.Pipe.{returned, waits, unlocked_twice, unfinished, Outcome}

-- A call of a member function of the pipe at an address.
unfoldable pub on_pipe : {A : Type 0} → ℕ → (Pipe → Outcome A) → M A
on_pipe a f s = elim (s.pipes a) [
  | none ↦ fault dangling
  | some p ↦ elim (f p) [
    | returned v q ↦ ok v (record s { pipes = λ b. if b == a then some q else s.pipes b })
    | waits v q ↦ fault blocked
    | unlocked_twice ↦ fault unlock_unheld
    | unfinished ↦ fault endless
  ]
]

-- Console::read and Console::write return 0, whatever the terminal did.
unfoldable pub console_read : ℕ → List ℕ
console_read n = []

unfoldable pub console_write : List ℕ → ℕ
console_write src = 0

unfoldable pub console_init : M (Unit {0})
console_init s = ok tt (record s {
  devices = λ d. if d == 1 then record { has_read = true; has_write = true } else s.devices d;
})

-- The test of a device number, with the function that is to be called, and the call; `none` stands
-- for -1.
unfoldable pub device_call : {A : Type 0} → (Device → Bool) → ℕ → A → M (Option A)
device_call has major zero_result s =
    ok (if leb ndev major || not (has (s.devices major)) then none else some zero_result) s

-- `none` stands for -1.
unfoldable pub file_stat : ℕ → M (Option Stat)
file_stat f = do
  o ← load_file f
  elim o.type [
    | fd_none ↦ pure none
    | fd_pipe ↦ pure none
    | fd_inode ↦ (do lock o.ip; st ← INode.stat o.ip; unlock o.ip; pure (some st))
    | fd_device ↦ (do lock o.ip; st ← INode.stat o.ip; unlock o.ip; pure (some st))
  ]

unfoldable pub read_inode : ℕ → OFile → ℕ → M (Option (List ℕ))
read_inode f o n = do
  lock o.ip
  r ← Content.read o.ip o.off n
  store_file f (record o { off = o.off + length r })
  unlock o.ip
  pure (some r)

-- The bytes read; `none` stands for -1. A read of a pipe is given enough rounds to make its
-- non-termination visible.
unfoldable pub file_read : ℕ → ℕ → M (Option (List ℕ))
file_read f n = do
  o ← load_file f
  if not o.readable then pure none else elim o.type [
    | fd_none ↦ (do assert false; pure none)
    | fd_pipe ↦ (do r ← on_pipe o.pipe (Pipe.read 3 n); pure (some r))
    | fd_device ↦ device_call (λ d. d.has_read) o.major (console_read n)
    | fd_inode ↦ read_inode f o n
  ]

-- ((MAX_OP_BLOCKS - 1 - 1 - 2) / 2) * BSIZE.
abbrev pub max_write : ℕ
max_write = 3072

-- A round of the loop: what `ip->write` returned. That may be -1, a large number, and moves `off`.
unfoldable pub write_round : ℕ → List ℕ → M ℕ
write_round f src = do
  begin_op
  o ← load_file f
  lock o.ip
  r ← Content.write o.ip o.off src
  store_file f (record o { off = o.off + r })
  unlock o.ip
  end_op
  pure r

-- The bytes that are left; a round that returns writes one of them at least.
unfoldable pub write_rounds : ℕ → ℕ → List ℕ → M Bool
write_rounds zero f src = pure true
write_rounds (suc fuel) f src = if length src == 0 then pure true else (do
  r ← write_round f (take max_write src)
  if r == min max_write (length src) then write_rounds fuel f (drop max_write src) else pure false)

unfoldable pub write_inode : ℕ → List ℕ → M (Option ℕ)
write_inode f src = do
  all ← write_rounds (length src) f src
  pure (if all then some (length src) else none)

-- The test is of `readable`, as in `file_read`.
unfoldable pub file_write : ℕ → List ℕ → M (Option ℕ)
file_write f src = do
  o ← load_file f
  if not o.readable then pure none else elim o.type [
    | fd_none ↦ (do assert false; pure none)
    | fd_pipe ↦ (do r ← on_pipe o.pipe (Pipe.write src); pure (some r))
    | fd_device ↦ device_call (λ d. d.has_write) o.major (console_write src)
    | fd_inode ↦ write_inode f src
  ]
