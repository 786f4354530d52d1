-- ===== src/Dir/Insert.antt =====
-- INode::dirlink of src/fs.cxx as the insertion of a name in the map of a directory.
use hitsz_ext.Base.{
  ℕ, zero, suc, ◌+◌, ◌*◌, ◌%◌, ◌^◌, ◌<◌, ◌≤◌, ◌≡◌, ◌≢◌, refl, Bool, true, none, some, List, ◌==◌,
  if◌then◌else◌, length, eq→==, ne→==, ==→eq, inl, inr, Bool-cases, arith, u16,
}
use hitsz_ext.Machine.{dirent_size, DiskINode, INode, Sys, ok}
use hitsz_ext.INode.Update.{load_inode_lem}
use hitsz_ext.Content.Mapped.{Mapped}
use hitsz_ext.Content.Store.{Storable}
use hitsz_ext.Content.Overwrite.{Updatable, Written, write_lem}
use hitsz_ext.Dir.{entry, entry_inum, empty_loop, entry_count, link_entry, dirlink}
use hitsz_ext.Dir.Lookup.{entry_at, read_entry_lem}
use hitsz_ext.Dir.Entries.{IsName, Directory, dir_at}
use hitsz_ext.PathName.{FilePath, name_buffer}
use hitsz_ext.PathName.Names.{same_name}
use hitsz_ext.Transaction.{at, Tx, HasRoom}
use hitsz_ext.Dir.Present.{dirlookup-none}
use hitsz_ext.Dir.Stored.{length-entry, new-Directory, dir_at-new}

-- The first entry that is free.
pub record FirstFree (s : Sys) (d : DiskINode) (n : ℕ) : Type 0 where
  pub inside : dirent_size * n < d.size
  pub free : entry_inum (entry_at s d n) ≡ 0
  pub before : (j : ℕ) → j < n → entry_inum (entry_at s d j) ≢ 0

module _ {busy : ℕ → Bool} {s : Sys} (tx : Tx busy s) (i : ℕ) (ip : INode)
    (here : s.inodes (at s i) ≡ some ip) (m : Mapped busy s ip.dinode)
    (dir : Directory s ip.dinode) where
  empty_loop_lem :
      (n rounds j : ℕ)
      → FirstFree s ip.dinode n
      → j ≤ n
      → n < j + rounds
      → empty_loop (at s i) rounds (dirent_size * j) s ≡ ok (dirent_size * n) s
  unfolding empty_loop
  empty_loop_lem n zero j first lo hi = absurd (omega arith)
  empty_loop_lem n (suc rounds) j first lo hi =
      let next : dirent_size * j + dirent_size ≡ dirent_size * (j + 1) = omega arith in
      let inside : dirent_size * j < ip.dinode.size = omega (arith, first.inside) in
      rw (read_entry_lem tx i ip here m j dir.whole inside) (elim (Bool-cases (j == n)) [
        | inl same ↦ let e : j ≡ n = ==→eq j n same in rw e (rw (eq→== _ 0 first.free) refl)
        | inr other ↦
            rw (ne→== (entry_inum (entry_at s ip.dinode j)) 0 (first.before j (ground arith)), next)
              (empty_loop_lem n rounds (j + 1) first (ground arith) (omega arith))
      ])

module _ {busy : ℕ → Bool} {s : Sys} (tx : Tx busy s) (i : ℕ) (ip : INode)
    (here : s.inodes (at s i) ≡ some ip) (w : Storable busy s ip.dinode)
    (p : Updatable busy s i ip.dinode) (dir : Directory s ip.dinode) (name : FilePath)
    (good : IsName name) (absent : dir_at s ip.dinode name ≡ none) (n : ℕ)
    (first : FirstFree s ip.dinode n) (inum : ℕ) (pos : 0 < inum) (small : inum < 2 ^ 16)
    (room : HasRoom s.log 2) where
  -- Inside a transaction, for a cached directory whose entries all have whole names, whose blocks are
  -- allocated, lie outside the log and serve one place each and not the inode's block, with a free
  -- entry and room for two blocks in the log: dirlink of a whole name that the directory lacks,
  -- for a positive inode number below 2^16, returns true. It puts the entry in the first free place
  -- and changes nothing else of the file. After it the directory, as a finite map from names to inode
  -- numbers, is the old one with the name added, and its entries all have whole names again.
  pub dirlink_lem :
      (t : Sys) × (dirlink (at s i) (name_buffer name) inum s ≡ ok true t)
      × Written busy s i ip.dinode (dirent_size * n) (entry inum (name_buffer name)) t
      × Directory t ip.dinode
      × ((other : FilePath)
          → IsName other
          → dir_at t ip.dinode other
            ≡ (if same_name other name then some inum else dir_at s ip.dinode other))
  unfolding dirlink link_entry u16
  dirlink_lem =
      let e : List ℕ = entry inum (name_buffer name) in
      let off : ℕ = dirent_size * n in
      let len : length e ≡ dirent_size = length-entry inum (name_buffer name) in
      let (t, run, wr) =
        write_lem tx i ip here w p off e (omega (arith, len, first.inside, dir.whole)) 1 room
          (inr (omega (arith, len))) in
      let word : inum % 2 ^ 16 ≡ inum = omega arith in
      (
        t,
        rw (dirlookup-none tx i ip here w.mapped dir name good absent) (
            rw (load_inode_lem s (at s i) ip here) (
              rw
                (empty_loop_lem tx i ip here w.mapped dir n (entry_count ip.dinode.size) 0 first
                  (omega arith) (omega (arith, first.inside, dir.whole)))
                (rw word (rw run (rw (eq→== (length e) dirent_size len) refl))))),
        wr,
        new-Directory s t ip.dinode dir n first.inside inum small name good wr.bytes,
        dir_at-new s t ip.dinode dir n first.inside inum small name good wr.bytes pos first.free
            absent,
      )
