-- ===== src/Transaction/Finish.antt =====
-- The end of a change of a block: `log_write(bp); block_release(bp);`.
use hitsz_ext.Base.{
  ℕ, ◌+◌, ◌<◌, ◌≤◌, ◌≡◌, ◌≢◌, refl, ◌⊎◌, inl, inr, Bool, true, false, some, inc32, dec32, arith, ap,
  ◌∙◌, sym, ◌==◌, ltb, Bool-cases, lt→ltb, le→leb, eq→==, ne→==, ==→eq, inc32_small, dec32_pos,
}
use hitsz_ext.Bytes.{Data}
use hitsz_ext.Machine.{Key, Block, Sys, LogHeader, ok, put, put_self, put_ne, same_key_ne, log_size}
use hitsz_ext.BlockCache.Steps.{with_block, pinned, released-held, release_put, pin_put}
use hitsz_ext.Log.{log_write, add_entry, set_at}
use hitsz_ext.Log.Layout.{Layout}
use hitsz_ext.Bitmap.{finish}
use hitsz_ext.Transaction.{
  at, Tx, Settled, Logged, NotLogged, IsHome, HasRoom, content, holding, hold, logged,
}
use hitsz_ext.Transaction.Slot.{find_slot_none, find_slot_some, set_at_same}

add_entry_put :
    (s : Sys) (k : Key) (x : Block)
    → add_entry k (with_block s k (some x))
      ≡ ok tt (
          with_block
            (record s { log = record s.log { hdr = record s.log.hdr { n = inc32 s.log.hdr.n } } })
            k
            (some (record x { refcnt = inc32 x.refcnt })))
unfolding add_entry
add_entry_put s k x = rw (pin_put s k x)

-- The tests of `log_write` pass where there is room.
module _ (s : Sys) (b : ℕ) (e : Data) (w : Layout s.log) (opened : 1 ≤ s.log.outstanding)
    (room : HasRoom s.log 1) where
  n_lt : ltb s.log.hdr.n log_size ≡ true
  n_lt = lt→ltb s.log.hdr.n log_size (omega (arith, room.fits))

  n_lt_size : ltb s.log.hdr.n (dec32 s.log.size) ≡ true
  n_lt_size = lt→ltb s.log.hdr.n (dec32 s.log.size) (
      omega
        (arith, dec32_pos s.log.size (omega (arith, room.room)) (omega (arith, w.area)), room.room))

  -- A block that is not in the log yet gets an entry, and a reference.
  abbrev grown : LogHeader
  grown = record { n = inc32 s.log.hdr.n; block = set_at s.log.hdr.block s.log.hdr.n b }

  log_write_new :
      NotLogged s.log.hdr b
      → log_write (at s b) (hold s b e)
        ≡ ok tt (
            with_block
              (record s { log = record s.log { hdr = grown } })
              (at s b)
              (some (record (holding s b e) { refcnt = inc32 (holding s b e).refcnt })))
  unfolding log_write
  log_write_new fresh =
      rw (n_lt, n_lt_size)
        (rw (le→leb 1 s.log.outstanding opened) (
          rw
            (find_slot_none s.log.hdr.block b s.log.hdr.n 0 (λ j lo hi. fresh j (omega arith))
              ∙ zero_plus)
            (rw (eq→== s.log.hdr.n s.log.hdr.n refl) (
              add_entry_put
                (record s {
                  log = record s.log {
                    hdr = record s.log.hdr { block = set_at s.log.hdr.block s.log.hdr.n b };
                  };
                })
                (at s b) (holding s b e)))))
    where
      zero_plus : 0 + s.log.hdr.n ≡ s.log.hdr.n
      zero_plus = omega arith

  -- One that has an entry keeps it: log absorption.
  log_write_old : Logged s.log.hdr b → log_write (at s b) (hold s b e) ≡ ok tt (hold s b e)
  unfolding log_write
  log_write_old (i, lt, q) =
      rw (n_lt, n_lt_size)
        (rw (le→leb 1 s.log.outstanding opened) (
          rw
            (find_slot_some s.log.hdr.block b s.log.hdr.n 0 i (omega arith) (omega arith) q
              (λ m lo hi r. absurd (omega (arith, w.distinct m i (omega arith) lt (r ∙ sym q)))))
            (rw (ne→== i s.log.hdr.n (omega arith), set_at_same s.log.hdr.block i b q))))

-- A settled block stays settled while another changes.
module _ {busy : ℕ → Bool} {s : Sys} (tx : Tx busy s) (b : ℕ) (home : IsHome s.log b)
    (e : Data) where
  -- The changed block has an entry already.
  module _ (i : ℕ) (lt : i < s.log.hdr.n) (q : s.log.hdr.block i ≡ b) where
    old_settled : (c : ℕ) → busy c ≡ false → Settled (logged s b e s.log.hdr) c
    old_settled c idle = elim (Bool-cases (c == b)) [
      | inl same ↦
          rw (==→eq c b same) (inr (e, put_self s.blocks (at s b) (some (pinned e)), (i, lt, q)))
      | inr other ↦
          let keep : put s.blocks (at s b) (some (pinned e)) (at s c) ≡ s.blocks (at s c) =
            put_ne s.blocks (at s c) (at s b) _ (same_key_ne s.log.dev c b (ground arith)) in
          elim (tx.settled c idle) [
            | inl (p, r) ↦ inl (keep ∙ p, r)
            | inr (d, p, r) ↦ inr (d, keep ∙ p, r)
          ]
    ]

    old_Tx : Tx busy (logged s b e s.log.hdr)
    old_Tx = record { layout = tx.layout; opened = tx.opened; settled = old_settled }

  -- The changed block gets an entry.
  module _ (fresh : NotLogged s.log.hdr b) (room : HasRoom s.log 1) where
    abbrev more : LogHeader
    more = grown s b e tx.layout tx.opened room

    n_more : more.n ≡ s.log.hdr.n + 1
    n_more = inc32_small s.log.hdr.n (omega (arith, room.fits))

    block_more_lt : (i : ℕ) → i < s.log.hdr.n → more.block i ≡ s.log.hdr.block i
    block_more_lt i lt = rw (ne→== i s.log.hdr.n (omega arith))

    block_more_last : more.block s.log.hdr.n ≡ b
    block_more_last = rw (eq→== s.log.hdr.n s.log.hdr.n refl)

    -- An index of the grown header is an old one, or the last.
    more_cases : (i : ℕ) → i < more.n → (i < s.log.hdr.n) ⊎ (i ≡ s.log.hdr.n)
    more_cases i lt = omega (arith, n_more)

    new_Layout : Layout (record s.log { hdr = more })
    new_Layout = record {
      room = omega (arith, n_more, room.room);
      fits = omega (arith, n_more, room.fits);
      area = tx.layout.area;
      small = λ i lt. elim (more_cases i lt) [
        | inl old ↦ rw (block_more_lt i old) (tx.layout.small i old)
        | inr last ↦ rw (last, block_more_last) home.small
      ];
      apart = λ i lt. elim (more_cases i lt) [
        | inl old ↦ rw (block_more_lt i old) (tx.layout.apart i old)
        | inr last ↦ rw (last, block_more_last) home.apart
      ];
      distinct = λ i j p q r. elim (more_cases i p) [
        | inl i_old ↦ elim (more_cases j q) [
          | inl j_old ↦
              tx.layout.distinct i j i_old j_old
                (sym (block_more_lt i i_old) ∙ r ∙ block_more_lt j j_old)
          | inr j_last ↦ absurd (
              fresh i i_old
                (sym (block_more_lt i i_old) ∙ r ∙ ap more.block j_last ∙ block_more_last))
        ]
        | inr i_last ↦ elim (more_cases j q) [
          | inl j_old ↦ absurd (
              fresh j j_old
                (sym (block_more_lt j j_old) ∙ sym r ∙ ap more.block i_last ∙ block_more_last))
          | inr j_last ↦ i_last ∙ sym j_last
        ]
      ];
    }

    new_settled : (c : ℕ) → busy c ≡ false → Settled (logged s b e more) c
    new_settled c idle = elim (Bool-cases (c == b)) [
      | inl same ↦ rw (==→eq c b same) (
          inr (
            e,
            put_self s.blocks (at s b) (some (pinned e)),
            (s.log.hdr.n, omega (arith, n_more), block_more_last),
          ))
      | inr other ↦
          let keep : put s.blocks (at s b) (some (pinned e)) (at s c) ≡ s.blocks (at s c) =
            put_ne s.blocks (at s c) (at s b) _ (same_key_ne s.log.dev c b (ground arith)) in
          elim (tx.settled c idle) [
            | inl (p, r) ↦ inl (
              keep ∙ p,
              λ i lt q. elim (more_cases i lt) [
                | inl old ↦ r i old (sym (block_more_lt i old) ∙ q)
                | inr last ↦ absurd (c_ne_b c other (sym q ∙ ap more.block last ∙ block_more_last))
              ],
            )
            | inr (d, p, (i, lt, q)) ↦
                inr (d, keep ∙ p, (i, omega (arith, n_more), block_more_lt i lt ∙ q))
          ]
    ]
      where
        c_ne_b : (c : ℕ) → (c == b) ≡ false → c ≢ b
        c_ne_b c h q = ground arith

    new_Tx : Tx busy (logged s b e more)
    new_Tx = record { layout = new_Layout; opened = tx.opened; settled = new_settled }

  -- Inside a transaction, for a block of the file system that the code holds with new contents,
  -- with room for one block in the log: log_write and block_release succeed, the block is logged
  -- with its new contents, and the state is that of a transaction again, with one entry more at
  -- most.
  pub tx_finish :
      busy b ≡ false
      → HasRoom s.log 1
      → (h : LogHeader) × (finish (at s b) (hold s b e) ≡ ok tt (logged s b e h))
        × Tx busy (logged s b e h)
        × (s.log.hdr.n ≤ h.n)
        × (h.n ≤ s.log.hdr.n + 1)
  unfolding finish
  tx_finish idle room = elim (tx.settled b idle) [
    | inl (p, fresh) ↦ (
      more fresh room,
      rw (log_write_new s b e tx.layout tx.opened room fresh) (
          rw
            (release_put (record s { log = record s.log { hdr = more fresh room } }) (at s b)
              (record (holding s b e) { refcnt = inc32 (holding s b e).refcnt }) refl)
            (rw p (rw (released-held e)))),
      new_Tx fresh room,
      omega (arith, n_more fresh room),
      omega (arith, n_more fresh room),
    )
    | inr (d, p, (i, lt, q)) ↦ (
      s.log.hdr,
      rw (log_write_old s b e tx.layout tx.opened room (i, lt, q))
          (rw (release_put s (at s b) (holding s b e) refl) (rw p (rw (released-held e)))),
      old_Tx i lt q,
      omega arith,
      omega arith,
    )
  ]

-- What the file system sees after a change.
module _ (s : Sys) (b : ℕ) (e : Data) (h : LogHeader) where
  pub content-logged_self : content (logged s b e h) b ≡ e
  unfolding content
  content-logged_self = rw (put_self s.blocks (at s b) (some (pinned e)))

  pub content-logged_ne : (c : ℕ) → c ≢ b → content (logged s b e h) c ≡ content s c
  unfolding content
  content-logged_ne c ne =
      rw (put_ne s.blocks (at s c) (at s b) (some (pinned e)) (same_key_ne s.log.dev c b ne))
