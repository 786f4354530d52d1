-- ===== src/Dir/Present.antt =====
-- INode::dirlookup and INode::dirlink of src/fs.cxx on the map of a directory, where nothing changes.
use hitsz_ext.Base.{
  ℕ, zero, suc, ◌+◌, ◌*◌, ◌<◌, ◌≡◌, refl, Bool, true, false, none, some, Option, List, ◌==◌, inl,
  inr, ◌⊎◌, eq→==, ne→==, Bool-cases, arith, ap, ◌∙◌, sym,
}
use hitsz_ext.Machine.{DiskINode, dirent_size, Key, INode, Sys, Run, ok}
use hitsz_ext.Content.Mapped.{Mapped}
use hitsz_ext.Dir.{strcmp, entry_inum, dirlookup, dirlink}
use hitsz_ext.Dir.Lookup.{entry_at, IsOther, IsDirectory, dirlookup_lem, with_reference}
use hitsz_ext.Dir.Entries.{IsName, Directory, has_name, find_from, dir_at, find_from_here}
use hitsz_ext.INodeCache.Held.{Counted, put_one_more}
use hitsz_ext.PathName.{FilePath, name_buffer}
use hitsz_ext.PathName.Names.{same_name, strcmp-stored}
use hitsz_ext.Transaction.{at, Tx}

Directory-IsDirectory :
    (s : Sys) (d : DiskINode) (name : FilePath)
    → Directory s d
    → IsName name
    → IsDirectory s d (name_buffer name)
Directory-IsDirectory s d name dir (clean, short) = record {
  type = dir.type;
  whole = dir.whole;
  comparable = λ j inside.
      let (e, (clean', short'), stored) = dir.named j inside in
      (
        same_name name e,
        ap (strcmp (name_buffer name)) stored ∙ strcmp-stored name e clean clean' short short',
      );
}

find_from-others :
    (f : ℕ → List ℕ) (name : FilePath) (rounds j : ℕ)
    → ((i : ℕ) → i < j + rounds → has_name name (f i) ≡ false)
    → find_from f name rounds j ≡ none
find_from-others f name zero j others = refl
find_from-others f name (suc rounds) j others =
    rw (others j (omega arith))
      (find_from-others f name rounds (j + 1) (λ i lt. others i (omega arith)))

has_name-IsOther :
    (name : FilePath) (e : List ℕ) → IsOther (name_buffer name) e → has_name name e ≡ false
has_name-IsOther name e (inl free) = rw (eq→== (entry_inum e) 0 free) refl
has_name-IsOther name e (inr other) = elim (Bool-cases (entry_inum e == 0)) [
  | inl free ↦ rw free refl
  | inr used ↦ rw (used, other) refl
]

module _ {busy : ℕ → Bool} {s : Sys} (tx : Tx busy s) (i : ℕ) (ip : INode)
    (here : s.inodes (at s i) ≡ some ip) (m : Mapped busy s ip.dinode) (dir : Directory s ip.dinode)
    (name : FilePath) (good : IsName name) where
  -- The lookup of a name, by what the map of the directory has for it.
  abbrev pub Looked : Run (Option (Key × ℕ)) → Type 0
  Looked out =
      ((dir_at s ip.dinode name ≡ none) × (out ≡ ok none s))
      ⊎ ((k : ℕ) × (off : ℕ) × (dir_at s ip.dinode name ≡ some k)
          × (out ≡ ok (some (at s k, off)) (with_reference s (at s k))))

  -- Inside a transaction, for a cached directory whose entries all have whole names and whose blocks are allocated:
  -- dirlookup of a whole name returns none and changes nothing where the map of the directory lacks
  -- the name, and else a new reference to the inode whose number the map has for it.
  pub dirlookup-dir_at : Looked (dirlookup (at s i) (name_buffer name) s)
  dirlookup-dir_at =
      let d = ip.dinode in
      elim (dirlookup_lem tx i ip here m (name_buffer name)
        (Directory-IsDirectory s d name dir good)) [
          | inl (run, others) ↦ inl (
            find_from-others (entry_at s d) name _ 0 (λ j lt.
                has_name-IsOther name (entry_at s d j) (others j (omega (arith, dir.whole)))),
            run,
          )
          | inr (j, first, run) ↦
              let found : has_name name (entry_at s d j) ≡ true =
                rw (ne→== (entry_inum (entry_at s d j)) 0 first.in_use, first.equal) refl in
              inr (
                entry_inum (entry_at s d j),
                dirent_size * j,
                find_from_here (entry_at s d) name j _ 0 (omega arith)
                    (omega (arith, dir.whole, first.inside))
                    (λ n lt. has_name-IsOther name (entry_at s d n) (first.before n lt)) found,
                run,
              )
        ]

  pub dirlookup-none :
      dir_at s ip.dinode name ≡ none → dirlookup (at s i) (name_buffer name) s ≡ ok none s
  dirlookup-none absent = elim dirlookup-dir_at [
    | inl (also, run) ↦ run
    | inr (k, off, present, run) ↦ absurd (no k (sym present ∙ absent))
  ]
    where
      no : (k : ℕ) → some k ≡ none → ⊥
      no k q = cc

  -- Inside a transaction, for a cached directory whose entries all have whole names and whose blocks
  -- are allocated, and for a whole name that the map of the directory has, with an inode number that
  -- is not in the cache or has there from 1 to 2^32 - 2 references: dirlink of the name, with any
  -- number, returns false, and all is as before.
  pub dirlink-dir_at :
      (inum k : ℕ)
      → dir_at s ip.dinode name ≡ some k
      → Counted (s.inodes (at s k))
      → dirlink (at s i) (name_buffer name) inum s ≡ ok false s
  unfolding dirlink
  dirlink-dir_at inum k present counted = elim dirlookup-dir_at [
    | inl (absent, run) ↦ absurd (no (sym present ∙ absent))
    | inr (k', off, found, run) ↦
        let same : k' ≡ k = number k' k (sym found ∙ present) in
        rw run (rw same (rw (put_one_more s (at s k) (s.inodes (at s k)) counted refl) refl))
  ]
    where
      no : some k ≡ none → ⊥
      no q = cc

      number : (a b : ℕ) → some a ≡ some b → a ≡ b
      number a b q = cc
