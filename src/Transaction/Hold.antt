-- ===== src/Transaction/Hold.antt =====
-- Reading a block and giving it back unchanged.
use hitsz_ext.Base.{ℕ, ◌<◌, ◌^◌, ◌≡◌, refl, inl, inr, Bool, true, false, none, some, ap, ◌∙◌}
use hitsz_ext.Bytes.{Data}
use hitsz_ext.Machine.{Sys, ok, disk}
use hitsz_ext.BlockCache.{block_read, block_release, load, store}
use hitsz_ext.BlockCache.Steps.{
  pinned, released_last, released-held, block_read_miss, block_read_hit, load_put, store_put,
  release_put, block_same,
}
use hitsz_ext.Log.Layout.{disk_index_small}
use hitsz_ext.Transaction.{at, Tx, content, holding, hold}

module _ {busy : ℕ → Bool} {s : Sys} (tx : Tx busy s) (b : ℕ) (idle : busy b ≡ false) where
  -- A read finds the contents, and holds the block.
  pub tx_read : b < 2 ^ 22 → block_read s.log.dev b s ≡ ok (at s b) (hold s b (content s b))
  unfolding content
  tx_read small = elim (tx.settled b idle) [
    | inl (e, _) ↦ block_read_miss s s.log.dev b e ∙ rw (e, disk_index_small b small)
    | inr (d, e, _) ↦ block_read_hit s s.log.dev b (pinned d) e refl refl ∙ rw e
  ]

  -- A release with the contents unchanged undoes the read.
  pub tx_release : block_release (at s b) (hold s b (content s b)) ≡ ok tt s
  unfolding content
  tx_release = release_put s (at s b) (holding s b (content s b)) refl ∙ elim (tx.settled b idle) [
    | inl (e, _) ↦
        rw e (rw (released_last true true (disk s b)) (ap (ok tt) (block_same s (at s b) none e)))
    | inr (d, e, _) ↦
        rw e (rw (released-held d) (ap (ok tt) (block_same s (at s b) (some (pinned d)) e)))
  ]

module _ (s : Sys) (b : ℕ) (d : Data) where
  pub load-hold : load (at s b) (hold s b d) ≡ ok (holding s b d) (hold s b d)
  load-hold = load_put s (at s b) (holding s b d)

  pub store-hold : (e : Data) → store (at s b) (holding s b e) (hold s b d) ≡ ok tt (hold s b e)
  store-hold e = store_put s (at s b) (holding s b d) (holding s b e)
