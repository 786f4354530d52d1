-- ===== src/Dir/Lookup.antt =====
-- INode::dirlookup against the entries of the directory, read as one sequence of bytes.
use hitsz_ext.Base.{
  ℕ, zero, suc, ◌+◌, ◌*◌, ◌/◌, ◌%◌, ◌^◌, ◌<◌, ◌≡◌, ◌≢◌, refl, Bool, true, false, Option, none, some,
  List, ◌==◌, length, eq→==, ne→==, ==→eq, inl, inr, ◌⊎◌, Bool-cases, arith, ap, ◌∙◌, sym, subst,
  gt→leb, ge→ltb,
}
use hitsz_ext.Machine.{Key, key, dirent_size, t_dir, DiskINode, INode, Sys, Run, ok, M}
use hitsz_ext.INode.Update.{load_inode_lem}
use hitsz_ext.INodeCache.{inode_get, with_inode, one_more}
use hitsz_ext.Content.{slice, readable_bytes}
use hitsz_ext.Content.Mapped.{file_data, Mapped}
use hitsz_ext.Content.Read.{length-slice, read_run}
use hitsz_ext.Dir.{
  Chars, strcmp, entry_inum, entry_name, read_entry, found_at, match_entry, lookup_loop,
  entry_count, dirlookup,
}
use hitsz_ext.Transaction.{at, Tx}

whole_entry :
    (size j : ℕ)
    → size % dirent_size ≡ 0
    → size < 2 ^ 32
    → dirent_size * j < size
    → readable_bytes size (dirent_size * j) dirent_size ≡ dirent_size
unfolding readable_bytes
whole_entry size j whole small inside =
    rw
      (
        ge→ltb size (dirent_size * j) (omega arith),
        gt→leb (2 ^ 63) (dirent_size * j + dirent_size) (omega arith),
        ge→ltb size (dirent_size * j + dirent_size) (omega arith),
      )
      refl

match_other :
    (k : Key) (name : Chars) (off : ℕ) (e : List ℕ) (rest : M (Option (Key × ℕ))) (s : Sys)
    → (entry_inum e ≡ 0) ⊎ (strcmp name (entry_name e) ≡ some false)
    → match_entry k name off e rest s ≡ rest s
unfolding match_entry
match_other k name off e rest s (inl free) = rw (eq→== (entry_inum e) 0 free) refl
match_other k name off e rest s (inr other) = elim (Bool-cases (entry_inum e == 0)) [
  | inl free ↦ rw free refl
  | inr used ↦ rw used (rw other refl)
]

match_found :
    (k : Key) (name : Chars) (off : ℕ) (e : List ℕ) (rest : M (Option (Key × ℕ))) (s : Sys)
    → entry_inum e ≢ 0
    → strcmp name (entry_name e) ≡ some true
    → match_entry k name off e rest s ≡ found_at k (entry_inum e) off s
unfolding match_entry
match_found k name off e rest s used equal = rw (ne→== (entry_inum e) 0 used) (rw equal refl)

-- The entry `j` of a directory, as its 16 bytes.
abbrev pub entry_at : Sys → DiskINode → ℕ → List ℕ
entry_at s d j = slice (file_data s d) (dirent_size * j) dirent_size

-- An entry that a lookup passes over: it is free, or has another name.
abbrev pub IsOther : Chars → List ℕ → Type 0
IsOther name e = (entry_inum e ≡ 0) ⊎ (strcmp name (entry_name e) ≡ some false)

-- The entry `j` is the first one in use that has the name.
pub record FirstMatch (s : Sys) (d : DiskINode) (name : Chars) (j : ℕ) : Type 0 where
  pub inside : dirent_size * j < d.size
  pub in_use : entry_inum (entry_at s d j) ≢ 0
  pub equal : strcmp name (entry_name (entry_at s d j)) ≡ some true
  pub before : (i : ℕ) → i < j → IsOther name (entry_at s d i)

-- The state in which the caller has a reference to an inode.
abbrev pub with_reference : Sys → Key → Sys
with_reference s k = with_inode s k (some (one_more (s.inodes k)))

-- A directory whose entries the name can be compared with.
pub record IsDirectory (s : Sys) (d : DiskINode) (name : Chars) : Type 0 where
  pub type : d.type ≡ t_dir
  pub whole : d.size % dirent_size ≡ 0
  pub comparable :
      (j : ℕ)
      → dirent_size * j < d.size
      → (b : Bool) × (strcmp name (entry_name (entry_at s d j)) ≡ some b)

module _ {busy : ℕ → Bool} {s : Sys} (tx : Tx busy s) (i : ℕ) (ip : INode)
    (here : s.inodes (at s i) ≡ some ip) (m : Mapped busy s ip.dinode) where
  pub read_entry_lem :
      (j : ℕ)
      → ip.dinode.size % dirent_size ≡ 0
      → dirent_size * j < ip.dinode.size
      → read_entry (at s i) (dirent_size * j) s ≡ ok (entry_at s ip.dinode j) s
  unfolding read_entry
  read_entry_lem j whole inside = rw (read_run tx i ip here m (dirent_size * j) dirent_size) (
      rw all_of_it
        (rw (eq→== (length (entry_at s ip.dinode j)) dirent_size (length-slice _ _ _)) refl))
    where
      all_of_it : readable_bytes ip.dinode.size (dirent_size * j) dirent_size ≡ dirent_size
      all_of_it = whole_entry ip.dinode.size j whole (omega (arith, m.fits)) inside

  module _ (name : Chars) (dir : IsDirectory s ip.dinode name) where
    -- What a lookup comes to: no entry has the name and nothing changes, or the first one that has it
    -- is found.
    abbrev pub Lookup : Run (Option (Key × ℕ)) → Type 0
    Lookup out =
        ((out ≡ ok none s)
          × ((j : ℕ) → dirent_size * j < ip.dinode.size → IsOther name (entry_at s ip.dinode j)))
        ⊎ ((j : ℕ) × FirstMatch s ip.dinode name j
            × (out
                ≡ ok (some (key s.log.dev (entry_inum (entry_at s ip.dinode j)), dirent_size * j))
                    (with_reference s (key s.log.dev (entry_inum (entry_at s ip.dinode j))))))

    lookup_loop_lem :
        (rounds j : ℕ)
        → dirent_size * (j + rounds) ≡ ip.dinode.size
        → ((n : ℕ) → n < j → IsOther name (entry_at s ip.dinode n))
        → Lookup (lookup_loop (at s i) name rounds (dirent_size * j) s)
    unfolding lookup_loop found_at inode_get
    lookup_loop_lem zero j sum before = inl (refl, λ n lt. before n (omega arith))
    lookup_loop_lem (suc rounds) j sum before =
        let e : List ℕ = entry_at s ip.dinode j in
        let rest : M (Option (Key × ℕ)) =
          lookup_loop (at s i) name rounds (dirent_size * j + dirent_size) in
        let next : dirent_size * suc j ≡ dirent_size * j + dirent_size = omega arith in
        let inside : dirent_size * j < ip.dinode.size = omega arith in
        let passed : IsOther name e
            → Lookup (match_entry (at s i) name (dirent_size * j) e rest s) =
          λ other.
            subst Lookup
              (ap (λ o. lookup_loop (at s i) name rounds o s) next
                ∙ sym (match_other (at s i) name (dirent_size * j) e rest s other))
              (lookup_loop_lem rounds (suc j) (omega arith) (λ n lt. elim (Bool-cases (n == j)) [
                | inl q ↦
                    subst (λ x. IsOther name (entry_at s ip.dinode x)) (sym (==→eq n j q)) other
                | inr q ↦ before n (ground arith)
              ])) in
        let (b, compared) = dir.comparable j inside in
        rw (read_entry_lem j dir.whole inside) (elim (Bool-cases (entry_inum e == 0)) [
          | inl unused ↦ passed (inl (==→eq (entry_inum e) 0 unused))
          | inr used ↦ elim (Bool-cases b) [
            | inl same ↦
                let in_use : entry_inum e ≢ 0 = ground arith in
                inr (
                  j,
                  record {
                    inside = inside;
                    in_use = in_use;
                    equal = compared ∙ ap some same;
                    before = before;
                  },
                  match_found (at s i) name (dirent_size * j) e rest s in_use
                      (compared ∙ ap some same),
                )
            | inr other ↦ passed (inr (compared ∙ ap some other))
          ]
        ])

    -- Inside a transaction, dirlookup in a cached directory whose blocks are all allocated, with a name
    -- that can be compared with its entries, finds the first entry in use that has the name, with its
    -- offset, and takes a reference to its inode; or no entry has the name, and it changes nothing.
    pub dirlookup_lem : Lookup (dirlookup (at s i) name s)
    unfolding dirlookup
    dirlookup_lem =
        let whole : entry_count ip.dinode.size ≡ ip.dinode.size / dirent_size =
          omega (arith, dir.whole) in
        rw (load_inode_lem s (at s i) ip here) (
          rw (eq→== ip.dinode.type t_dir dir.type) (
            lookup_loop_lem (entry_count ip.dinode.size) 0 (omega (arith, dir.whole))
              (λ n lt. absurd (omega arith))))
