-- ===== src/Tests/Dirs.antt =====
-- A directory of the small file system with a free entry.
use hitsz_ext.Base.{
  false, ℕ, ◌*◌, ◌<◌, ◌≡◌, refl, some, none, [], ◌∷◌, u32, arith, true, Bool-cases, inl, inr,
  if◌then◌else◌, ==→eq, ◌==◌, subst, sym, ◌⊎◌,
}
use hitsz_ext.Machine.{key, same_key, put, DiskINode, INode, Sys, ok}
use hitsz_ext.Content.{slice}
use hitsz_ext.Content.Mapped.{block_at, IsPlaced}
use hitsz_ext.Content.Store.{Storable}
use hitsz_ext.Content.Overwrite.{Updatable, Written}
use hitsz_ext.Dir.{dirlookup, strncpy, zeros, entry_name, strcmp, entry, dirlink}
use hitsz_ext.Dir.Lookup.{entry_at}
use hitsz_ext.Dir.Entries.{IsName, stored_name, Directory, dir_at}
use hitsz_ext.Dir.Present.{Looked, dirlookup-dir_at, dirlink-dir_at}
use hitsz_ext.INodeCache.Held.{Counted}
use hitsz_ext.Dir.Insert.{FirstFree, dirlink_lem}
use hitsz_ext.PathName.{FilePath, name_buffer}
use hitsz_ext.PathName.Names.{same_name}
use hitsz_ext.Transaction.{no_block, Tx, IsHome, content}
use hitsz_ext.Tests.State.{
  log0, dir0, inode0, none_cached, sys0, sys0-Tx, room0, inode_block-IsHome,
}

abbrev dir1 : DiskINode
dir1 = record dir0 { size = 48 }

abbrev inode1 : INode
inode1 = record inode0 { dinode = dir1 }

abbrev sys1 : Sys
sys1 = record sys0 { inodes = put none_cached (key 1 1) (some inode1) }

sys1-Tx : Tx no_block sys1
sys1-Tx = record { layout = sys0-Tx.layout; opened = sys0-Tx.opened; settled = sys0-Tx.settled }

only_block : (n : ℕ) → n * 1024 < 48 → block_at sys1 dir1 n ≡ 9
only_block n lt = let zero_th : n ≡ 0 = omega arith in rw zero_th refl

sys1-Storable : Storable no_block sys1 dir1
sys1-Storable = record {
  mapped = record {
    fits = omega arith;
    indirect = λ far. absurd (omega arith);
    block = λ n lt.
        subst (IsPlaced no_block) (sym (only_block n lt))
          (record { pos = omega arith; small = omega arith; idle = refl });
  };
  home = λ n lt.
      subst (IsHome log0) (sym (only_block n lt))
        (record { small = omega arith; apart = omega arith });
  distinct = λ m n lm ln e. omega arith;
  not_indirect = λ n lt far. absurd (omega arith);
}

sys1-Updatable : Updatable no_block sys1 1 dir1
unfolding u32
sys1-Updatable = record {
  home = inode_block-IsHome;
  idle = refl;
  apart = λ n lt e. omega (arith, only_block n lt);
  apart_indirect = λ far. absurd (omega arith);
}

-- The names of the entries.
abbrev names1 : ℕ → FilePath
names1 j = if j == 0 then 46 ∷ [] else if j == 1 then 46 ∷ 46 ∷ [] else []

dot-IsName : IsName (46 ∷ [])
dot-IsName = ((omega arith, tt), omega arith)

dot_dot-IsName : IsName (46 ∷ 46 ∷ [])
dot_dot-IsName = ((omega arith, (omega arith, tt)), omega arith)

empty-IsName : IsName []
empty-IsName = (tt, omega arith)

three : (j : ℕ) → 16 * j < 48 → (j ≡ 0) ⊎ ((j ≡ 1) ⊎ (j ≡ 2))
three j lt = omega arith

named1 :
    (j : ℕ)
    → 16 * j < 48
    → (e : FilePath) × IsName e × (entry_name (entry_at sys1 dir1 j) ≡ stored_name e)
unfolding content put same_key slice strncpy zeros name_buffer
named1 j lt = elim (three j lt) [
  | inl e ↦ rw e (46 ∷ [], dot-IsName, refl)
  | inr (inl e) ↦ rw e (46 ∷ 46 ∷ [], dot_dot-IsName, refl)
  | inr (inr e) ↦ rw e ([], empty-IsName, refl)
]

dir1-Directory : Directory sys1 dir1
dir1-Directory = record { type = refl; whole = omega arith; named = named1 }

dir1-FirstFree : FirstFree sys1 dir1 2
unfolding content put same_key slice
dir1-FirstFree = record {
  inside = omega arith;
  free = refl;
  before = λ j lt free. elim (Bool-cases (j == 0)) [
    | inl e ↦ let z : j ≡ 0 = ==→eq j 0 e in omega (arith, rw z at free)
    | inr e ↦ let z : j ≡ 1 = ground arith in omega (arith, rw z at free)
  ];
}

abbrev new_name : FilePath
new_name = 97 ∷ 98 ∷ []

new_name-IsName : IsName new_name
new_name-IsName = ((omega arith, (omega arith, tt)), omega arith)

new_name_absent : dir_at sys1 dir1 new_name ≡ none
unfolding content put same_key slice strcmp name_buffer
new_name_absent = refl

inode1_here : sys1.inodes (key 1 1) ≡ some inode1
unfolding put same_key
inode1_here = refl

dirlink_lem_example :
    (t : Sys) × (dirlink (key 1 1) (name_buffer new_name) 7 sys1 ≡ ok true t)
    × Written no_block sys1 1 dir1 32 (entry 7 (name_buffer new_name)) t
    × Directory t dir1
    × ((other : FilePath)
        → IsName other
        → dir_at t dir1 other
          ≡ (if same_name other new_name then some 7 else dir_at sys1 dir1 other))
dirlink_lem_example =
    dirlink_lem sys1-Tx 1 inode1 inode1_here sys1-Storable sys1-Updatable dir1-Directory new_name
      new_name-IsName new_name_absent 2 dir1-FirstFree 7 (omega arith) (omega arith) room0

dots_present : dir_at sys1 dir1 (46 ∷ 46 ∷ []) ≡ some 1
unfolding content put same_key slice strcmp name_buffer
dots_present = refl

one-Counted : Counted (sys1.inodes (key 1 1))
one-Counted = subst Counted (sym inode1_here) (omega arith, omega arith)

dirlookup-dir_at_example :
    Looked sys1-Tx 1 inode1 inode1_here sys1-Storable.mapped dir1-Directory
      (46 ∷ 46 ∷ [])
      dot_dot-IsName
      (dirlookup (key 1 1) (name_buffer (46 ∷ 46 ∷ [])) sys1)
dirlookup-dir_at_example =
    dirlookup-dir_at sys1-Tx 1 inode1 inode1_here sys1-Storable.mapped dir1-Directory (46 ∷ 46 ∷ [])
      dot_dot-IsName

dirlink-dir_at_example : dirlink (key 1 1) (name_buffer (46 ∷ 46 ∷ [])) 7 sys1 ≡ ok false sys1
dirlink-dir_at_example =
    dirlink-dir_at sys1-Tx 1 inode1 inode1_here sys1-Storable.mapped dir1-Directory (46 ∷ 46 ∷ [])
      dot_dot-IsName 7 1 dots_present one-Counted
