-- ===== src/Tests/Files.antt =====
-- Pipes and the table of open files.
use hitsz_ext.Base.{
  ℕ, ◌<◌, ◌⊎◌, ◌≢◌, ap, ◌∙◌, sym, false, ◌%◌, ◌≡◌, refl, true, false, none, some, [], ◌∷◌, arith,
}
use hitsz_ext.Machine.{fd_none, key, same_key, put, Pipe, Sys, ok}
use hitsz_ext.Pipe.{returned, unfinished, write, read}
use hitsz_ext.Pipe.Queue.{contents, IsValid}
use hitsz_ext.Pipe.Transfer.{read-write, read_unfinished}
use hitsz_ext.FileTable.{is_none, ofile_alloc, pipe_alloc}
use hitsz_ext.FileTable.Slots.{IsFirst, marked, one_end, ofile_alloc-IsFirst, pipe_alloc-one_end}
use hitsz_ext.File.{file_write}
use hitsz_ext.Ops.Open.{Flags}
use hitsz_ext.Ops.Modes.{file_write-opened_file}
use hitsz_ext.Ops.Io.{write_at}
use hitsz_ext.Ops.Offsets.{write_at_offset}
use hitsz_ext.Tests.State.{dir0, inode0, file0, sys0}

-- A pipe that holds three bytes, with counters about to wrap; and the same without a writer.
abbrev pipe0 : Pipe
pipe0 = record {
  buf = λ i. i % 256;
  nread = 0xfffffffe;
  nwrite = 1;
  readopen = true;
  writeopen = true;
}

abbrev half_open : Pipe
half_open = record pipe0 { writeopen = false }

pipe0-IsValid : IsValid pipe0
pipe0-IsValid = record { nread = omega arith; nwrite = omega arith; bounded = omega arith }

half_open-IsValid : IsValid half_open
half_open-IsValid = record { nread = omega arith; nwrite = omega arith; bounded = omega arith }

abbrev empty_pipe : Pipe
empty_pipe = record pipe0 { nwrite = 0xfffffffe }

empty_pipe-IsValid : IsValid empty_pipe
empty_pipe-IsValid = record { nread = omega arith; nwrite = omega arith; bounded = omega arith }

read-write_example :
    (q : Pipe) × (r : Pipe) × (write (5 ∷ 6 ∷ 7 ∷ []) empty_pipe ≡ returned 3 q)
    × (read 2 3 q ≡ returned (5 ∷ 6 ∷ 7 ∷ []) r)
    × IsValid r
    × (contents r ≡ [])
read-write_example =
    read-write (5 ∷ 6 ∷ 7 ∷ []) empty_pipe empty_pipe-IsValid refl (omega arith) (omega arith)
      (omega arith)

read_unfinished_example : read 100 4 half_open ≡ unfinished
read_unfinished_example = read_unfinished 100 4 half_open half_open-IsValid refl (omega arith)

second_slot : IsFirst sys0.files 0 100 1
second_slot = record {
  above = omega arith;
  below = omega arith;
  free = refl;
  before = λ g lo hi e.
      let first : g ≡ 0 = omega arith in
      no (sym (ap (λ j. is_none (sys0.files j).type) first) ∙ ap is_none e);
}
  where
    no : false ≡ true → ⊥
    no q = cc

ofile_alloc-IsFirst_example :
    ((ofile_alloc sys0 ≡ ok none sys0) × ((g : ℕ) → g < 100 → (sys0.files g).type ≢ fd_none))
    ⊎ ((f : ℕ) × IsFirst sys0.files 0 100 f × (ofile_alloc sys0 ≡ ok (some f) (marked sys0 f)))
ofile_alloc-IsFirst_example = ofile_alloc-IsFirst sys0

pipe_alloc-one_end_example :
    (t : Sys) × (pipe_alloc 64 pipe0 sys0 ≡ ok (some (1, 1)) t)
    × (t.files 1 ≡ one_end sys0 1 second_slot 64)
pipe_alloc-one_end_example = pipe_alloc-one_end sys0 1 second_slot 64 pipe0

abbrev write_only : Flags
write_only = record {
  wronly = true;
  rdwr = false;
  creat = false;
  truncate = false;
  directory = false;
}

file_write-opened_file_example : file_write 0 (1 ∷ 2 ∷ []) sys0 ≡ ok none sys0
file_write-opened_file_example =
    file_write-opened_file sys0 0 write_only (key 1 1) dir0 file0 (1 ∷ 2 ∷ []) refl refl

inode_of_file : sys0.inodes (key 1 1) ≡ some inode0
unfolding put same_key
inode_of_file = refl

write_at_offset_example : write_at 0 (1 ∷ []) 0 sys0 ≡ write_at 0 (1 ∷ []) 32 sys0
write_at_offset_example =
    write_at_offset sys0 0 inode0 inode_of_file (1 ∷ []) 0 32 (omega arith) (omega arith)
