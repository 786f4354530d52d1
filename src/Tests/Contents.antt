-- ===== src/Tests/Contents.antt =====
-- The contents of files on the small file system.
use hitsz_ext.Base.{
  ℕ, ◌*◌, ◌<◌, ◌≡◌, refl, some, [], ◌∷◌, List, u32, arith, Bool, true, false, Bool-cases, inl, inr,
  ==→eq, ◌==◌, subst, sym,
}
use hitsz_ext.Machine.{key, same_key, put, Sys, ok}
use hitsz_ext.Content.{slice, read, write}
use hitsz_ext.Content.Mapped.{block_at, file_data, IsPlaced, Mapped}
use hitsz_ext.Content.Read.{read_lem}
use hitsz_ext.Content.Store.{Storable}
use hitsz_ext.Content.Overwrite.{Updatable, Written, write_lem, read-write_self}
use hitsz_ext.Dir.{Chars, strcmp, entry_name, dirlookup}
use hitsz_ext.Dir.Lookup.{entry_at, IsDirectory, Lookup, dirlookup_lem}
use hitsz_ext.Transaction.{no_block, IsHome, content}
use hitsz_ext.Tests.State.{
  log0, dir0, inode0, sys0, sys0-Tx, room0, dot_entries, inode_one, inode_block-IsHome,
}

first_block : (n : ℕ) → n * 1024 < 32 → block_at sys0 dir0 n ≡ 9
first_block n lt = let zero_th : n ≡ 0 = omega arith in rw zero_th refl

nine-IsPlaced : IsPlaced no_block 9
nine-IsPlaced = record { pos = omega arith; small = omega arith; idle = refl }

sys0-Mapped : Mapped no_block sys0 dir0
sys0-Mapped = record {
  fits = omega arith;
  indirect = λ far. absurd (omega arith);
  block = λ n lt. subst (IsPlaced no_block) (sym (first_block n lt)) nine-IsPlaced;
}

sys0-Storable : Storable no_block sys0 dir0
sys0-Storable = record {
  mapped = sys0-Mapped;
  home = λ n lt.
      subst (IsHome log0) (sym (first_block n lt))
        (record { small = omega arith; apart = omega arith });
  distinct = λ m n lm ln e. omega arith;
  not_indirect = λ n lt far. absurd (omega arith);
}

sys0-Updatable : Updatable no_block sys0 1 dir0
unfolding u32
sys0-Updatable = record {
  home = inode_block-IsHome;
  idle = refl;
  apart = λ n lt e. omega (arith, first_block n lt);
  apart_indirect = λ far. absurd (omega arith);
}

read_lem_example : read (key 1 1) 16 100 sys0 ≡ ok (slice (file_data sys0 dir0) 16 16) sys0
read_lem_example = read_lem sys0-Tx 1 inode0 inode_one sys0-Mapped 16 100

abbrev two_bytes : List ℕ
two_bytes = b'x' ∷ b'y' ∷ []

write_lem_example :
    (t : Sys) × (write (key 1 1) 20 two_bytes sys0 ≡ ok 2 t)
    × Written no_block sys0 1 dir0 20 two_bytes t
write_lem_example =
    write_lem sys0-Tx 1 inode0 inode_one sys0-Storable sys0-Updatable 20 two_bytes (omega arith) 1
      room0 (inr (omega arith))

read-write_self_example :
    (t : Sys) × (write (key 1 1) 20 two_bytes sys0 ≡ ok 2 t)
    × (read (key 1 1) 20 2 t ≡ ok two_bytes t)
read-write_self_example =
    read-write_self sys0-Tx 1 inode0 inode_one sys0-Storable sys0-Updatable 20 two_bytes
      (omega arith) 1 room0 (inr (omega arith))

-- The name "..", as an array of DIRSIZ characters.
abbrev dot_dot : Chars
dot_dot = 46 ∷ 46 ∷ 0 ∷ []

nine_content : content sys0 9 ≡ dot_entries
unfolding content put same_key
nine_content = refl

compared_at :
    (j : ℕ)
    → 16 * j < 32
    → (b : Bool) × (strcmp dot_dot (entry_name (entry_at sys0 dir0 j)) ≡ some b)
unfolding content put same_key strcmp slice
compared_at j lt = elim (Bool-cases (j == 0)) [
  | inl first ↦ let e : j ≡ 0 = ==→eq j 0 first in rw e (false, refl)
  | inr second ↦ let e : j ≡ 1 = ground arith in rw e (true, refl)
]

dir0-IsDirectory : IsDirectory sys0 dir0 dot_dot
dir0-IsDirectory = record { type = refl; whole = omega arith; comparable = compared_at }

dirlookup_lem_example :
    Lookup sys0-Tx 1 inode0 inode_one sys0-Mapped dot_dot dir0-IsDirectory
      (dirlookup (key 1 1) dot_dot sys0)
dirlookup_lem_example =
    dirlookup_lem sys0-Tx 1 inode0 inode_one sys0-Mapped dot_dot dir0-IsDirectory
