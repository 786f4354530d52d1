-- ===== src/Tests/Made.antt =====
-- An image with one file.
use hitsz_ext.Base.{
  ℕ, ◌≢◌, Bool, true, false, some, ◌≡◌, refl, [], ◌∷◌, List, inc32, u16, u32, arith,
}
use hitsz_ext.Bytes
use hitsz_ext.Dir
use hitsz_ext.INode.Codec
use hitsz_ext.Content
use hitsz_ext.Mkfs
use hitsz_ext.Mkfs.{Maker, Out, done, stopped, Arg, make}
use hitsz_ext.Mkfs.Image.{opened}
use hitsz_ext.Mkfs.Slots.{Yields}
use hitsz_ext.Mkfs.Made.{layout, IsMade, make_lem}
use hitsz_ext.Mkfs.Mounted.{op_init-make}
use hitsz_ext.Machine.{Sys, disk, ok}
use hitsz_ext.Ops.Mount.{op_init}
use hitsz_ext.Tests.State.{sys0, no_blocks}

abbrev is_done : Out (Unit {0}) → Bool
is_done (done x t) = true
is_done (stopped e) = false

abbrev image_of : Out (Unit {0}) → Maker
image_of (done x t) = t
image_of (stopped e) = opened

done_image : (o : Out (Unit {0})) → is_done o ≡ true → o ≡ done tt (image_of o)
done_image (done x t) e = refl
done_image (stopped s) e = absurd (no e)
  where
    no : false ≡ true → ⊥
    no q = cc

-- `user/_cat`, of three bytes.
abbrev cat : List Arg
cat =
    record {
      name = b'u' ∷ b's' ∷ b'e' ∷ b'r' ∷ b'/' ∷ b'_' ∷ b'c' ∷ b'a' ∷ b't' ∷ [];
      reads = some ((1 ∷ 2 ∷ 3 ∷ []) ∷ []);
    }
    ∷ []

abbrev cat_image : Maker
cat_image = image_of (make cat opened)

cat_runs : is_done (make cat opened) ≡ true
unfolding hitsz_ext.Mkfs.make Mkfs.write_super Mkfs.set_globals Mkfs.clear_loop Mkfs.wsect
    Mkfs.rsect Mkfs.seek Mkfs.make_root Mkfs.ialloc Mkfs.next_inode Mkfs.winode Mkfs.rinode
    Mkfs.iappend Mkfs.append_loop Mkfs.append_part Mkfs.file_block Mkfs.fill_slot Mkfs.fill_entry
    Mkfs.next_block Mkfs.add_files Mkfs.add_file Mkfs.copy_loop Mkfs.has_slash Mkfs.strip_user
    Mkfs.strip_underscore Mkfs.starts_with Mkfs.round_size Mkfs.balloc Mkfs.mark_loop Mkfs.xint
    Mkfs.xshort Mkfs.super_block Mkfs.encode_super Mkfs.super_word inc32 u16 u32 Bytes.get16
    Bytes.get32 Bytes.put8 Bytes.put16 Bytes.put32 Bytes.put_words Bytes.get_words Dir.entry
    Dir.strncpy Dir.zeros Codec.decode_dinode Codec.encode_dinode Content.splice
cat_runs = refl

make_lem_example : Yields (λ _ t. IsMade t) (make cat opened)
make_lem_example = make_lem cat (omega arith)

abbrev sys_cat : Sys
sys_cat = record sys0 { image = cat_image.file; blocks = no_blocks }

op_init-make_example :
    (u : Sys) × (op_init sys_cat ≡ ok tt u)
    × (u.sb ≡ layout)
    × (u.log.start ≡ 2)
    × (u.log.size ≡ 30)
    × (u.log.hdr.n ≡ 0)
    × (u.log.outstanding ≡ 1)
    × ((b : ℕ) → b ≢ 2 → disk u b ≡ cat_image.file b)
op_init-make_example =
    op_init-make cat cat_image (omega arith) (done_image (make cat opened) cat_runs) sys_cat refl
      refl (λ k. refl)
