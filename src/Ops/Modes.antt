-- ===== src/Ops/Modes.antt =====
-- How do_open and OFile::write use the access mode of a file.
use hitsz_ext.Base.{
  ℕ, ◌≡◌, refl, inl, inr, false, not, ◌||◌, none, some, List, ◌==◌, if◌then◌else◌, Bool-cases, ap,
  ◌∙◌,
}
use hitsz_ext.Machine.{
  t_device, Key, DiskINode, OFile, fd_inode, fd_none, fd_pipe, fd_device, Sys, ok, assert, pure,
  ◌>>=◌, ◌>>◌,
}
use hitsz_ext.FileTable.{load_file}
use hitsz_ext.File.{console_write, file_write, write_inode, on_pipe, device_call}
use hitsz_ext.Pipe
use hitsz_ext.Ops.Open.{Flags, opened_file}

opened_inode :
    (m : Flags) (k : Key) (d : DiskINode) (o : OFile)
    → (d.type == t_device) ≡ false
    → opened_file m k d o ≡ record o {
      type = fd_inode;
      off = 0;
      ip = k;
      readable = not m.wronly;
      writable = m.wronly || m.rdwr;
    }
opened_inode m k d o e = rw e refl

-- A write to a file that is no device, as do_open leaves its entry in the table of open files, fails and
-- changes nothing if the file was opened write-only, and is made in every other mode, read-only included.
pub file_write-opened_file :
    (s : Sys) (f : ℕ) (m : Flags) (k : Key) (d : DiskINode) (o : OFile) (src : List ℕ)
    → (d.type == t_device) ≡ false
    → s.files f ≡ opened_file m k d o
    → file_write f src s ≡ (if m.wronly then ok none s else write_inode f src s)
unfolding file_write load_file
file_write-opened_file s f m k d o src e here =
    ap
      (λ x.
        (if not x.readable then pure none else elim x.type [
          | fd_none ↦ (do assert false; pure none)
          | fd_pipe ↦ (do r ← on_pipe x.pipe (Pipe.write src); pure (some r))
          | fd_device ↦ device_call (λ d. d.has_write) x.major (console_write src)
          | fd_inode ↦ write_inode f src
        ])
          s)
      (here ∙ opened_inode m k d o e)
    ∙ elim (Bool-cases m.wronly) [ inl t ↦ rw t refl | inr t ↦ rw t refl ]
