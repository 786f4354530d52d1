-- ===== src/Log/Left.antt =====
-- The static members of class Log after commit, end_op and log_write of src/Log.cxx.
use hitsz_ext.Base.{
  ℕ, ◌≡◌, Bool, true, false, if◌then◌else◌, inl, inr, Bool-cases, subst, arith, ltb, leb, ◌&&◌,
  dec32, inc32, ◌==◌,
}
use hitsz_ext.Machine.{log_size, Key, Sys, LogState, ◌>>◌, assert, pure}
use hitsz_ext.Log.{
  write_head, set_at, find_slot, log_write, add_entry, end_op, end_last, clear_log, write_log,
  install_loop, commit_logged, commit, set_hdr,
}
use hitsz_ext.Log.Frame.{
  LogIs, LogIs-and_then, write_head-KeepsLog, write_log_loop-KeepsLog, install_loop-KeepsLog,
  assert-KeepsLog, block_pin-KeepsLog,
}

abbrev pub emptied : LogState → LogState
emptied l = record l { hdr = record l.hdr { n = 0 } }

clear_log-LogIs : (s : Sys) → LogIs (emptied s.log) (clear_log s)
unfolding clear_log
clear_log-LogIs s = write_head-KeepsLog (record s { log = emptied s.log })

emptied_empty : (l : LogState) → l.hdr.n ≡ 0 → l ≡ emptied l
emptied_empty l e = λ i. record l { hdr = record l.hdr { n = e i } }

commit_logged-LogIs : (s : Sys) (n : ℕ) → LogIs (emptied s.log) (commit_logged n s)
unfolding commit_logged write_log
commit_logged-LogIs s n =
    LogIs-and_then s.log (emptied s.log) _ _ (write_log_loop-KeepsLog s.log.hdr.n 0 s) (λ _ t e.
      LogIs-and_then s.log (emptied s.log) _ _
        (subst (λ l. LogIs l (write_head t)) e (write_head-KeepsLog t))
        (λ _ u f.
          LogIs-and_then s.log (emptied s.log) _ _
            (subst (λ l. LogIs l (install_loop n 0 u)) f (install_loop-KeepsLog n 0 u))
            (λ _ v g. subst (λ l. LogIs (emptied l) (clear_log v)) g (clear_log-LogIs v))))

-- A commit that returns leaves the log empty, and the other static members as they were.
commit-LogIs : (s : Sys) → LogIs (emptied s.log) (commit s)
unfolding commit
commit-LogIs s = elim (Bool-cases (ltb 0 s.log.hdr.n)) [
  | inl full ↦ rw (full, LogIs) (commit_logged-LogIs s s.log.hdr.n)
  | inr clear ↦ rw (clear, LogIs) (emptied_empty s.log (ground arith))
]

-- The static members after the last operation has left.
abbrev pub left_last : LogState → LogState
left_last l = record (emptied l) { committing = false }

end_last-LogIs : (s : Sys) → LogIs (left_last s.log) (end_last s)
unfolding end_last
end_last-LogIs s =
    let t : Sys = record s { log = record s.log { committing = true } } in
    LogIs-and_then (emptied t.log) (left_last s.log) (commit t) _ (commit-LogIs t)
      (λ _ u e i. record (e i) { committing = false })

-- The static members after an operation has left, the others if it is not the last.
abbrev pub left : LogState → LogState
left l = record l { outstanding = dec32 l.outstanding }

end_op_tail :
    (last : Bool) (l : LogState) (u : Sys)
    → u.log ≡ l
    → LogIs (if last then left_last l else l) ((if last then end_last else pure tt) u)
end_op_tail true l u e = subst (λ m. LogIs (left_last m) (end_last u)) e (end_last-LogIs u)
end_op_tail false l u e = e

pub end_op-LogIs :
    (s : Sys)
    → LogIs (if dec32 s.log.outstanding == 0 then left_last (left s.log) else left s.log) (end_op s)
unfolding end_op
end_op-LogIs s =
    LogIs-and_then (left s.log) _ _ _ (assert-KeepsLog _ (record s { log = left s.log }))
      (λ _ u e. end_op_tail (dec32 s.log.outstanding == 0) (left s.log) u e)

-- The static members after `log_write`: the block has an entry, a new one if there was none.
abbrev pub noted : LogState → Key → LogState
noted l k =
    let i = find_slot l.hdr.n 0 l.hdr.block k.num in
    record l {
      hdr = record {
        n = if i == l.hdr.n then inc32 l.hdr.n else l.hdr.n;
        block = set_at l.hdr.block i k.num;
      };
    }

add_entry-LogIs :
    (k : Key) (s : Sys)
    → LogIs (record s.log { hdr = record s.log.hdr { n = inc32 s.log.hdr.n } }) (add_entry k s)
unfolding add_entry
add_entry-LogIs k s =
    LogIs-and_then s.log _ _ _ (block_pin-KeepsLog k s)
      (λ _ u e i. record (e i) { hdr = record (e i).hdr { n = inc32 (e i).hdr.n } })

log_write_tail :
    (new : Bool) (b : ℕ → ℕ) (l : LogState) (k : Key) (u : Sys)
    → u.log ≡ l
    → LogIs
        (record l { hdr = record { n = if new then inc32 l.hdr.n else l.hdr.n; block = b } })
        ((do set_hdr (record l.hdr { block = b }); if new then add_entry k else pure tt) u)
log_write_tail true b l k u e =
    subst
      (λ m.
        LogIs (record m { hdr = record { n = inc32 l.hdr.n; block = b } })
          (add_entry k (record u { log = record u.log { hdr = record l.hdr { block = b } } })))
      e (add_entry-LogIs k (record u { log = record u.log { hdr = record l.hdr { block = b } } }))
log_write_tail false b l k u e = λ i. record (e i) { hdr = record l.hdr { block = b } }

pub log_write-LogIs : (s : Sys) (k : Key) → LogIs (noted s.log k) (log_write k s)
unfolding log_write
log_write-LogIs s k =
    let l = s.log in
    let i = find_slot l.hdr.n 0 l.hdr.block k.num in
    LogIs-and_then l (noted l k) (assert (ltb l.hdr.n log_size && ltb l.hdr.n (dec32 l.size)) s) _
      (assert-KeepsLog _ s)
      (λ _ t e.
        LogIs-and_then l (noted l k) (assert (leb 1 l.outstanding) t) _
          (subst (λ m. LogIs m (assert (leb 1 l.outstanding) t)) e (assert-KeepsLog _ t))
          (λ _ u f. log_write_tail (i == l.hdr.n) (set_at l.hdr.block i k.num) l k u f))
