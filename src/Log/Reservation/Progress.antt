-- ===== src/Log/Reservation/Progress.antt =====
-- An operation that has not used up its share can log a block.
use hitsz_ext.Base.{
  ℕ, suc, ◌+◌, ◌^◌, ◌<◌, ◌≤◌, ◌≡◌, refl, ap, subst, inl, inr, List, ◌∷◌, ◌++◌, length, ◌==◌, inc32,
  dec32, dec32_pos, ◌-◌, Bool-cases, arith, some, lt→ltb, le→leb,
}
use hitsz_ext.BlockCache.{load, store, block_pin}
use hitsz_ext.Machine.{put, Block, log_size, Key, Sys, ok}
use hitsz_ext.Log.{log_write, find_slot, add_entry}
use hitsz_ext.Log.Left.{noted, log_write-LogIs}
use hitsz_ext.Log.Frame.{LogIs}
use hitsz_ext.Log.Reservation.Shares.{total, length-insert, total-insert}
use hitsz_ext.Log.Reservation.{
  System, Step, write, Reach, Idle, Reserved, Reach-Reserved, noted_grows, noted_by_one,
}

log_write-Returned :
    (s : Sys) (k : Key) (b : Block)
    → s.blocks k ≡ some b
    → s.log.hdr.n < log_size
    → s.log.hdr.n < dec32 s.log.size
    → 1 ≤ s.log.outstanding
    → (t : Sys) × (log_write k s ≡ ok tt t)
unfolding log_write add_entry block_pin load store
log_write-Returned s k b e small fits opened =
    elim (Bool-cases (find_slot s.log.hdr.n 0 s.log.hdr.block k.num == s.log.hdr.n)) [
      | inl fresh ↦ (
        record s {
          log = noted s.log k;
          blocks = put s.blocks k (some (record b { refcnt = inc32 b.refcnt }));
        },
        rw (lt→ltb _ _ small, lt→ltb _ _ fits, le→leb _ _ opened, fresh) (rw e (rw e refl)),
      )
      | inr found ↦ (
        record s { log = noted s.log k },
        rw (lt→ltb _ _ small, lt→ltb _ _ fits, le→leb _ _ opened, found) refl,
      )
    ]

-- From a state with no operation in the transaction, no commit running and at most a full header,
-- after any steps of operations that each pay for the entries they add out of a share of
-- MAX_OP_BLOCKS, with a log area of more than LOG_SIZE blocks: log_write of a cached block by an
-- operation that has not used up its share returns: it never runs out of room in the log; and it
-- takes at most one block off the share.
pub log_write-Reach :
    (x y : System)
    → Idle x
    → Reach x y
    → log_size < y.sys.log.size
    → y.sys.log.size < 2 ^ 32
    → (k : Key) (b : Block) → y.sys.blocks k ≡ some b
    → (before after : List ℕ) (share : ℕ) → y.shares ≡ before ++ suc share ∷ after
    → (t : Sys) × (rest : ℕ) × (log_write k y.sys ≡ ok tt t)
      × (share ≤ rest)
      × Step y (record { sys = t; shares = before ++ rest ∷ after })
log_write-Reach x y q p wide small k b e before after share shares_eq =
    let r : Reserved y = Reach-Reserved x y q p in
    let counts : length y.shares ≡ suc (length (before ++ after)) =
      rw shares_eq (length-insert before after (suc share)) in
    let spent : total y.shares ≡ suc share + total (before ++ after) =
      rw shares_eq (total-insert before after (suc share)) in
    let (t, run) =
      log_write-Returned y.sys k b e (omega (arith, r.room))
        (omega (arith, r.room, dec32_pos y.sys.log.size (omega arith) small))
        (omega (arith, r.counted)) in
    let logs : t.log ≡ noted y.sys.log k = subst (LogIs _) run (log_write-LogIs y.sys k) in
    let lo = noted_grows y.sys.log k (omega (arith, r.room)) in
    let hi = noted_by_one y.sys.log k (omega (arith, r.room)) in
    let rest = suc share + y.sys.log.hdr.n - t.log.hdr.n in
    (
      t,
      rest,
      run,
      omega (arith, ap (λ l. l.hdr.n) logs),
      write k before after (suc share) rest run shares_eq refl
          (omega (arith, ap (λ l. l.hdr.n) logs)),
    )
