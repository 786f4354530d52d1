-- ===== src/BlockCache/Pair.antt =====
-- The operations on two different blocks that are held at a time, as the loops of the log and the
-- walks through an indirect block hold them.
use hitsz_ext.Base.{◌≡◌, true, false, Option, some, ◌∷◌, dec32, ap, ◌∙◌, sym}
use hitsz_ext.Machine.{
  Key, put, put_self, put_ne, put-put, put_comm, put_same, same_key, Block, Sys, ok, ◌>>◌,
}
use hitsz_ext.BlockCache.{disk_index, load, store, block_write, block_release, block_unpin}
use hitsz_ext.BlockCache.Steps.{
  released, with_block, load_lem, store_lem, block_write_lem, block_release_lem, block_unpin_lem,
}

-- Two slots of the map over a state.
abbrev pub pair : Sys → Key → Option Block → Key → Option Block → Sys
pair s j u k v = with_block (with_block s j u) k v

module _ (s : Sys) (j k : Key) (apart : same_key j k ≡ false) where
  pub at_fst : (u v : Option Block) → (pair s j u k v).blocks j ≡ u
  at_fst u v = rw (put_ne (put s.blocks j u) j k v apart) (put_self s.blocks j u)

  pub at_snd : (u v : Option Block) → (pair s j u k v).blocks k ≡ v
  at_snd u v = put_self (put s.blocks j u) k v

  put_fst : (u v w : Option Block) → with_block (pair s j u k v) j w ≡ pair s j w k v
  put_fst u v w =
      ap (λ m. record s { blocks = m })
        (ap (λ m. put m j w) (put_comm s.blocks j k u v apart)
          ∙ put-put (put s.blocks k v) j u w
          ∙ sym (put_comm s.blocks j k w v apart))

  put_snd : (u v w : Option Block) → with_block (pair s j u k v) k w ≡ pair s j u k w
  put_snd u v w = ap (λ m. record s { blocks = m }) (put-put (put s.blocks j u) k v w)

  module _ (x : Block) (v : Option Block) where
    pub load_fst : load j (pair s j (some x) k v) ≡ ok x (pair s j (some x) k v)
    load_fst = load_lem _ j x (at_fst (some x) v)

    pub store_fst : (z : Block) → store j z (pair s j (some x) k v) ≡ ok tt (pair s j (some z) k v)
    store_fst z = store_lem _ j x z (at_fst (some x) v) ∙ ap (ok tt) (put_fst (some x) v (some z))

    pub write_fst :
        x.locked ≡ true
        → block_write j (pair s j (some x) k v)
          ≡ ok tt
              (pair (record s { writes = (disk_index j.num, x.bytes) ∷ s.writes }) j (some x) k v)
    write_fst l = block_write_lem _ j x (at_fst (some x) v) l

    pub release_fst :
        x.locked ≡ true
        → block_release j (pair s j (some x) k v) ≡ ok tt (pair s j (released x) k v)
    release_fst l =
        block_release_lem _ j x (at_fst (some x) v) l ∙ ap (ok tt) (put_fst (some x) v (released x))

  module _ (u : Option Block) (y : Block) where
    pub load_snd : load k (pair s j u k (some y)) ≡ ok y (pair s j u k (some y))
    load_snd = load_lem _ k y (at_snd u (some y))

    pub store_snd : (z : Block) → store k z (pair s j u k (some y)) ≡ ok tt (pair s j u k (some z))
    store_snd z = store_lem _ k y z (at_snd u (some y)) ∙ ap (ok tt) (put_snd u (some y) (some z))

    pub write_snd :
        y.locked ≡ true
        → block_write k (pair s j u k (some y))
          ≡ ok tt
              (pair (record s { writes = (disk_index k.num, y.bytes) ∷ s.writes }) j u k (some y))
    write_snd l = block_write_lem _ k y (at_snd u (some y)) l

    pub release_snd :
        y.locked ≡ true
        → block_release k (pair s j u k (some y)) ≡ ok tt (pair s j u k (released y))
    release_snd l =
        block_release_lem _ k y (at_snd u (some y)) l ∙ ap (ok tt) (put_snd u (some y) (released y))

    pub unpin_snd :
        block_unpin k (pair s j u k (some y))
        ≡ ok tt (pair s j u k (some (record y { refcnt = dec32 y.refcnt })))
    unpin_snd = block_unpin_lem _ k y (at_snd u (some y)) ∙ ap (ok tt) (put_snd u (some y) _)

  pub release_both :
      (x y : Block)
      → x.locked ≡ true
      → y.locked ≡ true
      → (block_release j >> block_release k) (pair s j (some x) k (some y))
        ≡ ok tt (pair s j (released x) k (released y))
  release_both x y lx ly = rw (release_fst x (some y) lx) (release_snd (released x) y ly)

  pub release_swapped :
      (x y : Block)
      → x.locked ≡ true
      → y.locked ≡ true
      → (block_release k >> block_release j) (pair s j (some x) k (some y))
        ≡ ok tt (pair s j (released x) k (released y))
  release_swapped x y lx ly = rw (release_snd (some x) y ly) (release_fst x (released y) lx)

  -- Both slots as they were.
  pub pair_same : (u v : Option Block) → s.blocks j ≡ u → s.blocks k ≡ v → pair s j u k v ≡ s
  pair_same u v e f =
      ap (λ m. record s { blocks = put m k v }) (put_same s.blocks j u e)
      ∙ ap (λ m. record s { blocks = m }) (put_same s.blocks k v f)
