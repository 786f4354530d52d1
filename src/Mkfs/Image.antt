-- ===== src/Mkfs/Image.antt =====
-- The image that mkfs/mkfs.c leaves.
use hitsz_ext.Base.{
  ℕ, zero, suc, ◌+◌, ◌*◌, ◌/◌, ◌<◌, ◌≤◌, ◌≡◌, List, [], ◌∷◌, refl, arith, inl, inr, ◌∙◌, ap,
  Bool-cases, Option-cases, ◌==◌, ne→==, ge→ltb, length,
}
use hitsz_ext.Bytes.{Data, zeroes}
use hitsz_ext.Machine.{DiskINode, t_dir, t_file}
use hitsz_ext.INode.Codec.{decode_dinode}
use hitsz_ext.Bytes.RoundTrip.{get_words-lt}
use hitsz_ext.Mkfs.{
  Maker, done, super_block, encode_super, Arg, strip_user, has_slash, clear_loop, write_super,
  make_root, copy_loop, add_file, add_files, round_size, set_globals, nmeta, ioffset, wsect, rinode,
  winode,
}
use hitsz_ext.Mkfs.Table.{Table, max_inode, with_block, get32-zeroes}
use hitsz_ext.Mkfs.Slots.{Yields, Yields-and_then, dinode_of, with_store, wsect_lem, seek_small}
use hitsz_ext.Mkfs.INodes.{IsImage, rinode_lem, winode_lem, loaded, iappend_lem, ialloc_lem}

-- The file as it is opened, and the static variables.
abbrev pub opened : Maker
opened = record {
  file = λ _. zeroes;
  blocks = 0;
  sb = record {
    magic = 0;
    size = 0;
    nblocks = 0;
    ninodes = 0;
    nlog = 0;
    logstart = 0;
    inodestart = 0;
    bmapstart = 0;
  };
  freeinode = 1;
  used_block = 0;
}

clear_loop_lem :
    (k i : ℕ) (s : Maker)
    → s.blocks ≡ i
    → i + k ≤ 1000
    → ((b : ℕ) → s.file b ≡ zeroes)
    → (f : ℕ → Data) × (clear_loop k i s ≡ done tt (record s { file = f; blocks = i + k }))
      × ((b : ℕ) → f b ≡ zeroes)
unfolding clear_loop wsect
clear_loop_lem zero i s e le clear =
    let end : s.blocks ≡ i + 0 = omega arith in
    (s.file, (λ j. done tt (record s { blocks = end j })), clear)
clear_loop_lem (suc k) i s e le clear =
    let t : Maker = record s { file = with_block s.file i zeroes; blocks = i + 1 } in
    let (f, run, all) = clear_loop_lem k (i + 1) t refl (omega arith) (λ b.
      elim (Bool-cases (b == i)) [ inl here ↦ rw here refl | inr there ↦ rw there (clear b) ]) in
    let total : i + 1 + k ≡ i + suc k = omega arith in
    (
      f,
      rw (seek_small i (omega arith)) (
          rw (ge→ltb i s.blocks (omega arith))
            (run ∙ (λ j. done tt (record s { file = f; blocks = total j })))),
      all,
    )

copy_loop_lem :
    (n inum : ℕ) (reads : List (List ℕ)) (s : Maker)
    → inum < max_inode
    → IsImage n s
    → Yields (λ _ t. IsImage n t) (copy_loop inum reads s)
unfolding copy_loop
copy_loop_lem n inum [] s inside img = img
copy_loop_lem n inum ([] ∷ reads) s inside img = img
copy_loop_lem n inum ((c ∷ p) ∷ reads) s inside img =
    Yields-and_then (λ _ t. IsImage n t) _ _ _ (iappend_lem n inum (c ∷ p) s inside img)
      (λ _ t img'. copy_loop_lem n inum reads t inside img')

add_file_lem :
    (n : ℕ) (a : Arg) (s : Maker)
    → n < max_inode
    → IsImage n s
    → Yields (λ _ t. IsImage (n + 1) t) (add_file 1 a s)
unfolding add_file
add_file_lem n a s inside img = elim (Bool-cases (has_slash (strip_user a.name))) [
  | inl slash ↦ rw (slash, Yields) tt
  | inr plain ↦ rw plain (elim (Option-cases a.reads) [
    | inl failed ↦ rw (failed, Yields) tt
    | inr (reads, e) ↦ rw e (
        Yields-and_then (λ i t. (i ≡ n) × IsImage (n + 1) t) _ _ _
          (ialloc_lem n t_file s inside img)
          (λ i t (same, img').
            Yields-and_then (λ _ u. IsImage (n + 1) u) _ _ _
              (iappend_lem (n + 1) 1 _ t (omega arith) img')
              (λ _ u img''. copy_loop_lem (n + 1) i reads u (omega arith) img'')))
  ])
]

-- An image with some number of inodes.
abbrev pub IsSomeImage : Maker → Type 0
IsSomeImage s = (n : ℕ) × IsImage n s

pub add_files_lem :
    (n : ℕ) (args : List Arg) (s : Maker)
    → n + length args ≤ max_inode
    → IsImage n s
    → Yields (λ _ t. IsSomeImage t) (add_files 1 args s)
unfolding add_files
add_files_lem n [] s few img = (n, img)
add_files_lem n (a ∷ args) s few img =
    Yields-and_then (λ _ t. IsImage (n + 1) t) _ _ _ (add_file_lem n a s (omega arith) img)
      (λ _ t img'. add_files_lem (n + 1) args t (omega arith) img')

-- The root inode is read and stored again with another size.
root_stored :
    (n size : ℕ) (s : Maker)
    → IsImage n s
    → Yields (λ _ t. IsImage n t) (winode 1 (record (dinode_of s.file 1) { size = size }) s)
root_stored n size s (d, st, le) =
    let inside : 1 < max_inode = omega arith in
    let din : DiskINode = record (dinode_of s.file 1) { size = size } in
    winode_lem n d 1 inside din s
      (loaded 1 inside din st le (λ k lk. inl (st.stored 1 k inside lk)))

root_read : (n : ℕ) (s : Maker) → IsImage n s → rinode 1 s ≡ done (dinode_of s.file 1) s
root_read n s (d, st, le) = rinode_lem s st 1 (omega arith)

pub make_root_lem : (s : Maker) → IsImage 1 s → Yields (λ r t. (r ≡ 1) × IsImage 2 t) (make_root s)
unfolding make_root
make_root_lem s img =
    let inside : 1 < max_inode = omega arith in
    Yields-and_then (λ r t. (r ≡ 1) × IsImage 2 t) _ _ _ (ialloc_lem 1 t_dir s inside img)
      (λ r t (same, a). rw same (
        Yields-and_then (λ _ u. IsImage 2 u) _ _ _ (iappend_lem 2 1 _ t inside a)
          (λ _ u b.
            Yields-and_then (λ _ v. IsImage 2 v) _ _ _ (iappend_lem 2 1 _ u inside b)
              (λ _ v c. rw (root_read 2 v c) (
                Yields-and_then (λ _ w. IsImage 2 w) _ _ _
                  (root_stored 2 (dinode_of v.file 1).size v c) (λ _ w h. (refl, h)))))))

pub round_size_lem :
    (n : ℕ) (s : Maker) → IsImage n s → Yields (λ _ t. IsImage n t) (round_size 1 s)
unfolding round_size
round_size_lem n s img = rw (root_read n s img) (root_stored n _ s img)

addrs-zeroes : (o k : ℕ) → k < 13 → (decode_dinode zeroes o).addrs k ≡ 0
unfolding decode_dinode
addrs-zeroes o k lt = get_words-lt 13 zeroes (o + 12) _ k lt ∙ get32-zeroes (o + 12 + 4 * k)

abbrev no_table : Table
no_table i k = 0

pub write_super_lem : (t : Maker) × (write_super opened ≡ done tt t) × IsImage 1 t
unfolding write_super set_globals
write_super_lem =
    let s : Maker = record opened { sb = super_block; used_block = nmeta } in
    let (f, run, all) = clear_loop_lem 1000 0 s refl (omega arith) (λ b. refl) in
    let u : Maker = record s { file = f; blocks = 1000 } in
    let e : Data = encode_super super_block zeroes in
    (
      with_store u 1 e,
      rw run (wsect_lem u 1 e refl (omega arith)),
      (
        no_table,
        record {
          blocks = refl;
          sb = refl;
          super = refl;
          head = all 2;
          free = refl;
          stored = λ i k li lk. rw (ne→== (32 + i / 16) 1 (omega arith)) (
              ap (λ x. (decode_dinode x (ioffset i)).addrs k) (all (32 + i / 16))
              ∙ addrs-zeroes (ioffset i) k lk);
          placed = record {
            low = omega arith;
            direct = λ i k li lk. inl refl;
            pointer = λ i li. inl refl;
            entry = λ i j li lj pos. absurd (pos refl);
            fresh = λ b le. rw (ne→== b 1 (omega arith)) (all b);
          };
        },
        omega arith,
      ),
    )
