-- ===== src/Tests/Inodes.antt =====
-- Inodes on the small file system.
use hitsz_ext.Base.{
  true, false, not, ◌&&◌, ℕ, u32, ◌*◌, ◌^◌, ◌<◌, ◌≤◌, ◌≡◌, ◌≢◌, refl, some, [], ◌∷◌, arith,
}
use hitsz_ext.Bytes.{zeroes}
use hitsz_ext.Machine.{
  key_less, key_less-same_key, key, same_key, put, Sys, ok, fault, unlock_unheld,
}
use hitsz_ext.INode.{inode_block, update}
use hitsz_ext.INode.Codec.{decode_dinode, encode_dinode}
use hitsz_ext.INode.Codec.Laws.{Fits, SameINode, decode-encode, decode-encode_ne}
use hitsz_ext.INode.Update.{disk_inode, update_lem}
use hitsz_ext.INodeCache.{inode_get, inode_put, inode_alloc}
use hitsz_ext.INodeCache.Alloc.{Table, Search, inode_alloc_lem}
use hitsz_ext.INodeCache.Held.{inode_put-inode_get, link_file_unlocks_twice}
use hitsz_ext.Transaction.{Tx, no_block, content}
use hitsz_ext.Ops.Link.{link_file}
use hitsz_ext.Tests.State.{
  sb0, dir0, inode0, inode_locked, sys0, sys0-Tx, one_more0, inode_one, inode_block-IsHome,
}

dir0-Fits : Fits dir0
dir0-Fits = record {
  type = omega arith;
  major = omega arith;
  minor = omega arith;
  nlink = omega arith;
  size = omega arith;
  addrs = λ i lt. ground arith;
}

inode_two : sys0.inodes (key 1 2) ≡ some inode_locked
unfolding put same_key
inode_two = refl

update_lem_example :
    (t : Sys) × (update (key 1 1) sys0 ≡ ok tt t)
    × Tx no_block t
    × SameINode (disk_inode t 1) dir0
    × ((j : ℕ) → j < 2 ^ 32 → j ≢ 1 → disk_inode t j ≡ disk_inode sys0 j)
    × ((c : ℕ) → c ≢ inode_block sb0 1 → content t c ≡ content sys0 c)
    × (t.log.hdr.n ≤ 2)
update_lem_example =
    update_lem sys0-Tx 1 inode0 inode_one dir0-Fits (omega arith) (omega arith) inode_block-IsHome
      refl one_more0

decode-encode_example : SameINode (decode_dinode (encode_dinode dir0 zeroes 64) 64) dir0
decode-encode_example = decode-encode dir0 zeroes 64 dir0-Fits

decode-encode_ne_example :
    decode_dinode (encode_dinode dir0 zeroes (64 * 1)) (64 * 3) ≡ decode_dinode zeroes (64 * 3)
decode-encode_ne_example = decode-encode_ne dir0 zeroes 1 3 (omega arith)

inode_put-inode_get_example :
    (t : Sys) × (inode_get 1 1 sys0 ≡ ok (key 1 1) t) × (inode_put (key 1 1) t ≡ ok tt sys0)
unfolding put same_key
inode_put-inode_get_example = inode_put-inode_get sys0 1 1 (omega arith, omega arith)

link_file_unlocks_twice_example : link_file (b'/' ∷ b'a' ∷ []) (key 1 2) sys0 ≡ fault unlock_unheld
link_file_unlocks_twice_example =
    link_file_unlocks_twice sys0 (key 1 2) inode_locked (b'/' ∷ b'a' ∷ []) inode_two (omega arith)

sys0-Table : Table no_block sys0
unfolding u32
sys0-Table = record {
  start = omega arith;
  few = omega arith;
  home = λ i lt. record { small = omega arith; apart = omega arith };
  idle = λ i lt. refl;
}

inode_alloc_lem_example : Search sys0-Tx sys0-Table one_more0 2 (omega arith) (inode_alloc 1 2 sys0)
inode_alloc_lem_example = inode_alloc_lem sys0-Tx sys0-Table one_more0 2 (omega arith)

key_less-same_key_example :
    (key_less (key 1 2) (key 1 2) ≡ false)
    × (key_less (key 1 2) (key 1 3) ≡ true
        → key_less (key 1 3) (key 2 0) ≡ true
        → key_less (key 1 2) (key 2 0) ≡ true)
    × ((not (key_less (key 1 2) (key 1 3)) && not (key_less (key 1 3) (key 1 2)))
        ≡ same_key (key 1 2) (key 1 3))
key_less-same_key_example = key_less-same_key (key 1 2) (key 1 3) (key 2 0)
