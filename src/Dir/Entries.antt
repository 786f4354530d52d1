-- ===== src/Dir/Entries.antt =====
-- A directory as a finite map from names to inode numbers.
use hitsz_ext.Base.{
  ℕ, zero, suc, ◌+◌, ◌*◌, ◌/◌, ◌%◌, ◌<◌, ◌≤◌, ◌≡◌, refl, Bool, true, false, not, ◌&&◌, Option, none,
  some, List, ◌==◌, if◌then◌else◌, length, ==→eq, inl, inr, ◌⊎◌, Bool-cases, arith,
}
use hitsz_ext.Machine.{dirsiz, dirent_size, t_dir, DiskINode, Sys}
use hitsz_ext.Dir.{Chars, strcmp, strncpy, entry_inum, entry_name}
use hitsz_ext.Dir.Lookup.{entry_at}
use hitsz_ext.PathName.{FilePath, name_buffer}
use hitsz_ext.PathName.Names.{NoZero}

-- A name that fits in an entry with its final 0.
abbrev pub IsName : FilePath → Type 0
IsName e = NoZero e × (length e < dirsiz)

-- What an entry stores for a name.
abbrev pub stored_name : FilePath → Chars
stored_name e = strncpy dirsiz (name_buffer e)

-- A directory whose entries have whole names; a free one may have any.
pub record Directory (s : Sys) (d : DiskINode) : Type 0 where
  pub type : d.type ≡ t_dir
  pub whole : d.size % dirent_size ≡ 0
  pub named :
      (j : ℕ)
      → dirent_size * j < d.size
      → (e : FilePath) × IsName e × (entry_name (entry_at s d j) ≡ stored_name e)

-- The entry is in use, and has the name.
abbrev pub says_true : Option Bool → Bool
says_true none = false
says_true (some b) = b

abbrev pub has_name : FilePath → List ℕ → Bool
has_name name e = not (entry_inum e == 0) && says_true (strcmp (name_buffer name) (entry_name e))

-- The inode number of the first entry with the name, with `rounds` entries left from `j` on.
abbrev pub find_from : (ℕ → List ℕ) → FilePath → ℕ → ℕ → Option ℕ
find_from entries name zero j = none
find_from entries name (suc rounds) j =
    let later = find_from entries name rounds (j + 1) in
    if has_name name (entries j) then some (entry_inum (entries j)) else later

abbrev pub dir_at : Sys → DiskINode → FilePath → Option ℕ
dir_at s d name = find_from (entry_at s d) name (d.size / dirent_size) 0

-- Two directories agree on a name where each entry is the same or has another name in both.
abbrev pub Agrees : FilePath → List ℕ → List ℕ → Type 0
Agrees name e f = (e ≡ f) ⊎ ((has_name name e ≡ false) × (has_name name f ≡ false))

pub find_from_cong :
    (f g : ℕ → List ℕ) (name : FilePath) (rounds j : ℕ)
    → ((i : ℕ) → i < j + rounds → Agrees name (f i) (g i))
    → find_from f name rounds j ≡ find_from g name rounds j
find_from_cong f g name zero j same = refl
find_from_cong f g name (suc rounds) j same =
    let later = find_from_cong f g name rounds (j + 1) (λ i hi. same i (omega arith)) in
    elim (same j (omega arith)) [
      | inl e ↦ (λ i. if has_name name (e i) then some (entry_inum (e i)) else later i)
      | inr (p, q) ↦ rw (p, q) later
    ]

pub find_from_here :
    (f : ℕ → List ℕ) (name : FilePath) (n rounds j : ℕ)
    → j ≤ n
    → n < j + rounds
    → ((i : ℕ) → i < n → has_name name (f i) ≡ false)
    → has_name name (f n) ≡ true
    → find_from f name rounds j ≡ some (entry_inum (f n))
find_from_here f name n zero j lo hi before here = absurd (omega arith)
find_from_here f name n (suc rounds) j lo hi before here = elim (Bool-cases (j == n)) [
  | inl same ↦ let e : j ≡ n = ==→eq j n same in rw e (rw here refl)
  | inr other ↦
      rw (before j (ground arith))
        (find_from_here f name n rounds (j + 1) (ground arith) (omega arith) before here)
]

pub find_from-none :
    (f : ℕ → List ℕ) (name : FilePath) (rounds j : ℕ)
    → find_from f name rounds j ≡ none
    → (i : ℕ) → j ≤ i
    → i < j + rounds
    → has_name name (f i) ≡ false
find_from-none f name zero j absent i lo hi = absurd (omega arith)
find_from-none f name (suc rounds) j absent i lo hi = elim (Bool-cases (has_name name (f j))) [
  | inl here ↦ absurd (no (rw here at absent))
  | inr there ↦ elim (Bool-cases (i == j)) [
    | inl same ↦ let e : i ≡ j = ==→eq i j same in rw e there
    | inr other ↦
        find_from-none f name rounds (j + 1) (rw there at absent) i (ground arith) (omega arith)
  ]
]
  where
    no : some (entry_inum (f j)) ≡ none → ⊥
    no q = cc
