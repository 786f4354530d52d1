-- ===== src/Tests/Grown.antt =====
-- A file of one full block of the small file system, with an empty log.
use hitsz_ext.Base.{
  ℕ, ◌%◌, ◌<◌, ◌≤◌, ◌≡◌, ◌≢◌, refl, some, [], ◌∷◌, List, u32, arith, inl, inr, subst, sym, ap, ◌∙◌,
  ◌⊎◌, take,
}
use hitsz_ext.Bytes.{Data}
use hitsz_ext.Machine.{key, same_key, put, put_self, INode, LogState, Sys, ok, disk_at}
use hitsz_ext.Bitmap.Bits.{bit_at}
use hitsz_ext.Bitmap.Map.{used, FreeMap}
use hitsz_ext.Content.{read, write}
use hitsz_ext.Content.Owned.{Owned, Owned-inodes, Tx-inodes, FreeMap-inodes}
use hitsz_ext.Content.Grow.{Full, DirectFile}
use hitsz_ext.Content.Grow.Append.{write_grows, read-write_grows}
use hitsz_ext.Content.Grow.Finish.{Lengthened}
use hitsz_ext.INode.{inode_block, trunc}
use hitsz_ext.INode.Codec.Laws.{Fits}
use hitsz_ext.INodeCache.{inode_put}
use hitsz_ext.INodeCache.Release.{last_use, Released, inode_put_lem}
use hitsz_ext.INode.Trunc.{Truncated, trunc_lem}
use hitsz_ext.Transaction.{no_block, Tx, HasRoom, IsHome, content}
use hitsz_ext.Tests.State.{
  map_block, log0, layout0, dir0, inode0, none_cached, no_blocks, sys0, sys0-FreeMap, map_at,
  used_bit,
}

abbrev log2 : LogState
log2 = record log0 { hdr = record { n = 0; block = λ _. 0 } }

abbrev inode2 : INode
inode2 = record inode0 { dinode = record dir0 { size = 1024 } }

abbrev sys2 : Sys
sys2 = record sys0 {
  blocks = no_blocks;
  log = log2;
  inodes = put none_cached (key 1 1) (some inode2);
}

sys2-Tx : Tx no_block sys2
sys2-Tx = record {
  layout = record {
    room = omega arith;
    fits = omega arith;
    area = layout0.area;
    small = λ i lt. absurd (omega arith);
    apart = λ i lt. absurd (omega arith);
    distinct = λ i j p q e. absurd (omega arith);
  };
  opened = omega arith;
  settled = λ b idle. inl (refl, λ i lt q. omega arith);
}

same_content : content sys2 8 ≡ content sys0 8
unfolding content put same_key disk_at
same_content = refl

same_used : (x : ℕ) → x < 12 → used sys2 x ≡ used sys0 x
unfolding used
same_used x lt =
    (λ i. bit_at (content sys2 (map_at x lt i)) (x % 8192))
    ∙ ap (λ d. bit_at d (x % 8192)) same_content
    ∙ sym (λ i. bit_at (content sys0 (map_at x lt i)) (x % 8192))

home2 : (b : ℕ) → IsHome log0 b → IsHome log2 b
home2 b h = record { small = h.small; apart = h.apart }

sys2-FreeMap : FreeMap no_block sys2
sys2-FreeMap = record {
  size = omega arith;
  start = omega arith;
  map_home = λ x lt. home2 _ (sys0-FreeMap.map_home x lt);
  map_idle = λ x lt. refl;
  map_bytes = λ x i lt.
      subst (λ (d : Data). d i < 256)
        (sym
          (ap (content sys2) (map_at x lt) ∙ same_content ∙ sym (ap (content sys0) (map_at x lt))))
        (sys0-FreeMap.map_bytes x i lt);
  free_home = λ x lt free. home2 x (sys0-FreeMap.free_home x lt (sym (same_used x lt) ∙ free));
  free_idle = λ x lt free. refl;
  free_pos = λ x lt free. sys0-FreeMap.free_pos x lt (sym (same_used x lt) ∙ free);
  free_apart = λ x y lt free ly. sys0-FreeMap.free_apart x y lt (sym (same_used x lt) ∙ free) ly;
}

in_use_at :
    (b : ℕ) (lt : b < 12) → bit_at map_block (b % 8192) ≡ 1 → 7 ≤ b → b ≢ 8 → Owned no_block sys2 b
in_use_at b lt bit lo ne = record {
  pos = omega arith;
  inside = lt;
  home = record { small = omega arith; apart = omega arith };
  idle = refl;
  in_use = same_used b lt ∙ used_bit b lt ∙ bit;
  apart = λ y ly e. omega (arith, map_at y ly, e, ne);
}

seven_block : inode_block sys2.sb 1 ≡ 7
unfolding u32
seven_block = refl

inode2-DirectFile : DirectFile no_block sys2 1 inode2.dinode 1
unfolding bit_at
inode2-DirectFile = record {
  direct = omega arith;
  owned = λ m lt.
      let z : m ≡ 0 = omega arith in
      rw z (in_use_at 9 (omega arith) refl (omega arith) (omega arith));
  distinct = λ m p lm lp e. omega arith;
  unset = λ m lo hi. ground arith;
  inode =
      subst (Owned no_block sys2) (sym seven_block)
        (in_use_at 7 (omega arith) refl (omega arith) (omega arith));
  inode_apart = λ m lt e. let z : m ≡ 0 = omega arith in omega (arith, seven_block, rw z at e);
}

inode2_here : sys2.inodes (key 1 1) ≡ some inode2
inode2_here = put_self none_cached (key 1 1) (some inode2)

abbrev some_bytes : List ℕ
some_bytes = 1 ∷ 2 ∷ 3 ∷ []

four_more : HasRoom log2 4
four_more = record { fits = omega arith; room = omega arith }

write_grows_example :
    (tot : ℕ) × (ip' : INode) × (n' : ℕ) × (t : Sys) × (write (key 1 1) 1024 some_bytes sys2
      ≡ ok tot t)
    × ((tot ≡ 3) ⊎ ((tot < 3) × Full t))
    × Lengthened no_block sys2 1 inode2 1 1024 (take tot some_bytes) ip' n' t
write_grows_example =
    write_grows sys2-Tx sys2-FreeMap 1 inode2 inode2_here 1 inode2-DirectFile (omega arith) 1024
      some_bytes (omega arith) (omega arith) 1 four_more (inr (omega arith))

read-write_grows_example :
    (tot : ℕ) × (t : Sys) × (write (key 1 1) 1024 some_bytes sys2 ≡ ok tot t)
    × ((tot ≡ 3) ⊎ ((tot < 3) × Full t))
    × (read (key 1 1) 1024 tot t ≡ ok (take tot some_bytes) t)
read-write_grows_example =
    read-write_grows sys2-Tx sys2-FreeMap 1 inode2 inode2_here 1 inode2-DirectFile (omega arith)
      1024 some_bytes (omega arith) (omega arith) 1 four_more (inr (omega arith))

trunc_lem_example :
    (ip' : INode) × (t : Sys) × (trunc (key 1 1) sys2 ≡ ok tt t)
    × Truncated no_block sys2 1 inode2 1 ip' t
trunc_lem_example =
    trunc_lem 1 inode2 1 inode2-DirectFile sys2-Tx sys2-FreeMap inode2_here refl
      (record { fits = omega arith; room = omega arith })

abbrev sys3 : Sys
sys3 = record sys2 { inodes = put none_cached (key 1 1) (some (last_use inode2.dinode)) }

inode3-DirectFile : DirectFile no_block sys3 1 inode2.dinode 1
inode3-DirectFile =
    let g : DirectFile no_block sys2 1 inode2.dinode 1 = inode2-DirectFile in
    record {
      direct = g.direct;
      owned = λ m lt. Owned-inodes sys2 sys3.inodes (inode2.dinode.addrs m) (g.owned m lt);
      distinct = g.distinct;
      unset = g.unset;
      inode = Owned-inodes sys2 sys3.inodes (inode_block sys2.sb 1) g.inode;
      inode_apart = g.inode_apart;
    }

inode2-Fits : Fits inode2.dinode
inode2-Fits = record {
  type = omega arith;
  major = omega arith;
  minor = omega arith;
  nlink = omega arith;
  size = omega arith;
  addrs = λ i lt. ground arith;
}

inode_put_lem_example :
    (t : Sys) × (inode_put (key 1 1) sys3 ≡ ok tt t) × Released no_block sys3 1 inode2.dinode 1 t
inode_put_lem_example =
    inode_put_lem (Tx-inodes sys2 sys3.inodes sys2-Tx)
      (FreeMap-inodes sys2 sys3.inodes sys2-FreeMap) 1 inode2.dinode
      (put_self none_cached (key 1 1) (some (last_use inode2.dinode))) 1 inode3-DirectFile refl
      inode2-Fits (record { fits = omega arith; room = omega arith })
