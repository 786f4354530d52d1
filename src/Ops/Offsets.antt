-- ===== src/Ops/Offsets.antt =====
-- What op_read and op_write make of their arguments.
use hitsz_ext.Base.{ℕ, ◌≤◌, ◌≡◌, refl, some, List, length, take, u32, ge→ltb, ◌∙◌, sym}
use hitsz_ext.Machine.{INode, Sys, ok, and_then, case_null}
use hitsz_ext.INode.Update.{load_inode_lem}
use hitsz_ext.FileTable.{load_file}
use hitsz_ext.File.{file_write}
use hitsz_ext.Ops.Reply.{eperm, bytes}
use hitsz_ext.Ops.Io.{write_at}

module _ (s : Sys) (f : ℕ) (ip : INode) (here : s.inodes (s.files f).ip ≡ some ip) where
  write_at_lem :
      (src : List ℕ) (offset : ℕ)
      → offset ≤ ip.dinode.size
      → write_at f src offset s
        ≡ and_then
            (file_write f (take (u32 (length src)) src) s)
            (λ r. ok (case_null r eperm bytes))
  unfolding write_at load_file
  write_at_lem src offset inside =
      rw (load_inode_lem s (s.files f).ip ip here) (rw (ge→ltb ip.dinode.size offset inside) refl)

  -- For an open file whose inode is cached, op_write at two offsets that are not past the end of
  -- the file does the same.
  pub write_at_offset :
      (src : List ℕ) (o1 o2 : ℕ)
      → o1 ≤ ip.dinode.size
      → o2 ≤ ip.dinode.size
      → write_at f src o1 s ≡ write_at f src o2 s
  write_at_offset src o1 o2 h1 h2 = write_at_lem src o1 h1 ∙ sym (write_at_lem src o2 h2)
