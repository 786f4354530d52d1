-- ===== src/Log/Copy.antt =====
-- copy_block between two blocks that are held.
use hitsz_ext.Base.{◌≡◌, false, some}
use hitsz_ext.Machine.{Key, same_key, Block, Sys, ok}
use hitsz_ext.BlockCache.Pair.{pair, load_fst, load_snd, store_fst, store_snd}
use hitsz_ext.Log.{copy_block}

module _ (s : Sys) (j k : Key) (apart : same_key j k ≡ false) (x y : Block) where
  pub copy_snd :
      copy_block k j (pair s j (some x) k (some y))
      ≡ ok tt (pair s j (some x) k (some (record y { bytes = x.bytes })))
  unfolding copy_block
  copy_snd =
      rw (load_fst s j k apart x (some y))
        (rw (load_snd s j k apart (some x) y) (store_snd s j k apart (some x) y _))

  pub copy_fst :
      copy_block j k (pair s j (some x) k (some y))
      ≡ ok tt (pair s j (some (record x { bytes = y.bytes })) k (some y))
  unfolding copy_block
  copy_fst =
      rw (load_snd s j k apart (some x) y)
        (rw (load_fst s j k apart x (some y)) (store_fst s j k apart x (some y) _))
