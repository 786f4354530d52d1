-- ===== src/Log/Sessions.antt =====
-- begin_op and end_op: how operations enter and leave a transaction.
use hitsz_ext.Base.{
  ℕ, ◌+◌, ◌*◌, ◌%◌, ◌^◌, ◌<◌, ◌≤◌, ◌≡◌, refl, true, false, not, ◌&&◌, leb, if◌then◌else◌, u32,
  inc32, dec32, dec32-inc32, inc32_small, le→leb, ne→==, eq→==, arith, ◌∙◌,
}
use hitsz_ext.Bytes.{Data}
use hitsz_ext.Machine.{
  log_size, max_op_blocks, Sys, LogState, ok, fault, blocked, assertion, and_then,
}
use hitsz_ext.Log.{may_begin, begin_op, end_op, end_last}
use hitsz_ext.Log.Commit.{Ready, committed, commit_lem}

-- The blocks that the operations of a transaction may come to write, each with its own share.
abbrev pub reserved : LogState → ℕ
reserved l = l.hdr.n + l.outstanding * max_op_blocks

abbrev pub entered : Sys → Sys
entered s = record s { log = record s.log { outstanding = inc32 s.log.outstanding } }

may_begin-true :
    (l : LogState)
    → l.committing ≡ false
    → reserved l + max_op_blocks ≤ log_size
    → may_begin l ≡ true
unfolding may_begin u32
may_begin-true l c h =
    (λ i. not (c i) && leb ((l.hdr.n + (l.outstanding + 1) * max_op_blocks) % 2 ^ 32) log_size)
    ∙ le→leb _ log_size (omega arith)

-- While no commit runs, other operations are in the transaction and the log has room for one share
-- of blocks more, begin_op lets an operation in, which reserves its share, and end_op then takes
-- the share back and leaves everything as it was.
pub end_op-begin_op :
    (s : Sys)
    → s.log.committing ≡ false
    → reserved s.log + max_op_blocks ≤ log_size
    → 0 < s.log.outstanding
    → (begin_op s ≡ ok tt (entered s))
      × (reserved (entered s).log ≡ reserved s.log + max_op_blocks)
      × (end_op (entered s) ≡ ok tt s)
unfolding begin_op end_op
end_op-begin_op s c room pos = (
  (λ i. if may_begin-true s.log c room i then ok tt (entered s) else fault blocked),
  omega (arith, inc32_small s.log.outstanding (omega arith)),
  rw (dec32-inc32 s.log.outstanding (omega arith)) (λ i.
      and_then (if not (c i) then ok tt s else fault assertion)
        (λ _. if ne→== s.log.outstanding 0 (omega arith) i then end_last else (λ u. ok tt u))),
)

-- The state in which the last operation commits.
abbrev pub committing_state : Sys → Sys
committing_state s = record s {
  log = record s.log { outstanding = dec32 s.log.outstanding; committing = true };
}

committing_Ready : (s : Sys) (g : ℕ → Data) → Ready s g → Ready (committing_state s) g
committing_Ready s g r = record {
  layout = record {
    room = r.layout.room;
    fits = r.layout.fits;
    area = r.layout.area;
    small = r.layout.small;
    apart = r.layout.apart;
    distinct = r.layout.distinct;
  };
  home = r.home;
  slot = r.slot;
  head = r.head;
}

-- What the commit leaves, when the next operation may enter.
abbrev pub settled : Sys → (ℕ → Data) → Sys
settled s g =
    let t : Sys = committed (committing_state s) g in
    record t { log = record t.log { committing = false } }

end_last_lem :
    (s : Sys) (g : ℕ → Data)
    → Ready s g
    → 0 < s.log.hdr.n
    → end_last (record s { log = record s.log { outstanding = dec32 s.log.outstanding } })
      ≡ ok tt (settled s g)
unfolding end_last
end_last_lem s g r pos = rw (commit_lem (committing_state s) g (committing_Ready s g r) pos) refl

-- The end of the only operation in a non-empty log that is ready for a commit, and while none
-- runs, commits and then admits others: the state is the committed one, with no operation in the
-- transaction, and the test of begin_op holds.
pub end_op_commits :
    (s : Sys) (g : ℕ → Data)
    → Ready s g
    → 0 < s.log.hdr.n
    → s.log.committing ≡ false
    → s.log.outstanding ≡ 1
    → (end_op s ≡ ok tt (settled s g))
      × ((settled s g).log.outstanding ≡ 0)
      × (may_begin (settled s g).log ≡ true)
unfolding end_op may_begin u32 dec32
end_op_commits s g r pos c one =
    let last : dec32 s.log.outstanding ≡ 0 = omega arith in
    (
      (λ i.
            and_then
              (if not (c i)
                then ok tt
                    (record s { log = record s.log { outstanding = dec32 s.log.outstanding } })
                else fault assertion)
              (λ _. if eq→== (dec32 s.log.outstanding) 0 last i then end_last else (λ u. ok tt u)))
          ∙ end_last_lem s g r pos,
      last,
      le→leb _ log_size (omega arith),
    )
