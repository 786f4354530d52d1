-- ===== src/Dir/Stored.antt =====
-- A directory after a store of one of its entries, for INode::dirlink of src/fs.cxx.
use hitsz_ext.Base.{
  ℕ, zero, suc, ◌+◌, ◌*◌, ◌/◌, ◌^◌, ◌<◌, ◌≡◌, ◌≢◌, refl, true, false, none, some, List, [], ◌∷◌,
  ◌==◌, if◌then◌else◌, length, take, eq→==, ne→==, ==→eq, inl, inr, Bool-cases, arith, ap, ap₂, ◌∙◌,
  sym,
}
use hitsz_ext.Machine.{dirsiz, dirent_size, DiskINode, Sys}
use hitsz_ext.Content.{slice, splice}
use hitsz_ext.Content.Mapped.{file_data}
use hitsz_ext.Content.Read.{slice_cong}
use hitsz_ext.Content.Splice.{splice_out, splice_in, slice_stored}
use hitsz_ext.Dir.{Chars, strcmp, strncpy, zeros, entry, entry_inum, entry_name}
use hitsz_ext.Dir.Lookup.{entry_at}
use hitsz_ext.Dir.Entries.{
  IsName, Directory, says_true, has_name, dir_at, find_from_cong, find_from_here, find_from-none,
}
use hitsz_ext.PathName.{FilePath, name_buffer}
use hitsz_ext.PathName.Names.{same_name, strcmp-stored}

length-zeros : (n : ℕ) → length (zeros n) ≡ n
unfolding zeros
length-zeros zero = refl
length-zeros (suc n) = ap suc (length-zeros n)

length-strncpy : (n : ℕ) (e : Chars) → length (strncpy n e) ≡ n
unfolding strncpy
length-strncpy zero e = refl
length-strncpy (suc n) [] = ap suc (length-zeros n)
length-strncpy (suc n) (c ∷ e) = elim (Bool-cases (c == 0)) [
  | inl end ↦ rw end (ap suc (length-zeros n))
  | inr more ↦ rw more (ap suc (length-strncpy n e))
]

take_all : (n : ℕ) (l : List ℕ) → length l ≡ n → take n l ≡ l
take_all zero [] e = refl
take_all zero (x ∷ l) e = absurd (omega arith)
take_all (suc n) [] e = refl
take_all (suc n) (x ∷ l) e = ap (λ m. x ∷ m) (take_all n l (omega arith))

-- What dirlink stores, read back.
pub length-entry : (inum : ℕ) (name : Chars) → length (entry inum name) ≡ dirent_size
unfolding entry
length-entry inum name = omega (arith, length-strncpy dirsiz name)

pub inum-entry : (inum : ℕ) (name : Chars) → inum < 2 ^ 16 → entry_inum (entry inum name) ≡ inum
unfolding entry
inum-entry inum name small = omega arith

name-entry : (inum : ℕ) (name : Chars) → entry_name (entry inum name) ≡ strncpy dirsiz name
unfolding entry
name-entry inum name = take_all dirsiz (strncpy dirsiz name) (length-strncpy dirsiz name)

same_name-eq : (e f : FilePath) → same_name e f ≡ true → e ≡ f
same_name-eq [] [] h = refl
same_name-eq [] (d ∷ f) h = absurd (no h)
  where
    no : false ≡ true → ⊥
    no q = cc
same_name-eq (c ∷ e) [] h = absurd (no h)
  where
    no : false ≡ true → ⊥
    no q = cc
same_name-eq (c ∷ e) (d ∷ f) h = elim (Bool-cases (c == d)) [
  | inl q ↦ ap₂ ◌∷◌ (==→eq c d q) (same_name-eq e f (rw q at h))
  | inr q ↦ absurd (no (rw q at h))
]
  where
    no : false ≡ true → ⊥
    no q = cc

-- The entries after a store of one, and the map of them.
module _ (s t : Sys) (d : DiskINode) (dir : Directory s d) (n : ℕ)
    (inside : dirent_size * n < d.size) (inum : ℕ) (small : inum < 2 ^ 16) (name : FilePath)
    (good : IsName name)
    (bytes : (j : ℕ)
      → j < d.size
      → file_data t d j
        ≡ splice (file_data s d) (dirent_size * n) (entry inum (name_buffer name)) j) where
  abbrev new : List ℕ
  new = entry inum (name_buffer name)

  entry_new : entry_at t d n ≡ new
  entry_new =
      ap (slice (file_data t d) (dirent_size * n)) (sym (length-entry inum (name_buffer name)))
      ∙ slice_stored (file_data t d) (dirent_size * n) new (λ j lt.
        bytes (dirent_size * n + j) (omega (arith, dir.whole, length-entry inum (name_buffer name)))
        ∙ splice_in (file_data s d) (dirent_size * n) new j lt)

  entry_other : (j : ℕ) → dirent_size * j < d.size → j ≢ n → entry_at t d j ≡ entry_at s d j
  entry_other j lt ne =
      slice_cong (file_data t d) (file_data s d) (dirent_size * j) (dirent_size * j) dirent_size
        (λ k hi.
          bytes (dirent_size * j + k) (omega (arith, dir.whole))
          ∙ splice_out (file_data s d) (dirent_size * n) new (dirent_size * j + k)
              (omega (arith, length-entry inum (name_buffer name))))

  pub new-Directory : Directory t d
  new-Directory = record {
    type = dir.type;
    whole = dir.whole;
    named = λ j lt. elim (Bool-cases (j == n)) [
      | inl same ↦
          let e : j ≡ n = ==→eq j n same in
          (
            name,
            good,
            ap (λ x. entry_name (entry_at t d x)) e
                ∙ ap entry_name entry_new
                ∙ name-entry inum (name_buffer name),
          )
      | inr other ↦
          let (f, good', stored) = dir.named j lt in
          (f, good', ap entry_name (entry_other j lt (ground arith)) ∙ stored)
    ];
  }

  has_name-new :
      0 < inum
      → (other : FilePath) → IsName other
      → has_name other (entry_at t d n) ≡ same_name other name
  has_name-new pos other (clean, short) =
      let in_use : (entry_inum (entry_at t d n) == 0) ≡ false =
        ne→== _ 0
          (omega (arith, ap entry_inum entry_new ∙ inum-entry inum (name_buffer name) small)) in
      rw in_use (
        ap (λ e. says_true (strcmp (name_buffer other) (entry_name e))) entry_new
        ∙ ap (λ e. says_true (strcmp (name_buffer other) e)) (name-entry inum (name_buffer name))
        ∙ ap says_true (strcmp-stored other name clean good.0 short good.1))

  pub dir_at-new :
      0 < inum
      → entry_inum (entry_at s d n) ≡ 0
      → dir_at s d name ≡ none
      → (other : FilePath) → IsName other
      → dir_at t d other ≡ (if same_name other name then some inum else dir_at s d other)
  dir_at-new pos free absent other good' = elim (Bool-cases (same_name other name)) [
    | inl same ↦
        let e : other ≡ name = same_name-eq other name same in
        rw same (
          find_from_here (entry_at t d) other n (d.size / dirent_size) 0 (omega arith)
            (omega (arith, dir.whole))
            (λ j lt.
              ap (has_name other) (entry_other j (omega arith) (omega arith))
              ∙ ap (λ x. has_name x (entry_at s d j)) e
              ∙ find_from-none (entry_at s d) name _ 0 absent j (omega arith)
                  (omega (arith, dir.whole)))
            (has_name-new pos other good' ∙ same)
          ∙ ap some (ap entry_inum entry_new ∙ inum-entry inum (name_buffer name) small))
    | inr differs ↦ rw differs (
        find_from_cong (entry_at t d) (entry_at s d) other (d.size / dirent_size) 0 (λ j lt.
          elim (Bool-cases (j == n)) [
            | inl same ↦
                let e : j ≡ n = ==→eq j n same in
                rw e (inr (has_name-new pos other good' ∙ differs, rw (eq→== _ 0 free) refl))
            | inr elsewhere ↦ inl (entry_other j (omega (arith, dir.whole)) (ground arith))
          ]))
  ]
