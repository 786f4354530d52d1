-- ===== src/Tests/Reserve.antt =====
-- An operation that enters the log of the small file system, which has room for a whole log.
use hitsz_ext.Base.{ℕ, ◌≤◌, ◌≡◌, refl, [], ◌∷◌, u32, inc32, arith}
use hitsz_ext.Machine.{key, LogState, Sys, ok}
use hitsz_ext.Log.{begin_op, may_begin, log_write}
use hitsz_ext.Log.Reservation.{
  System, Step, enter, Reach, here, later, Idle, Reserved, Reach-Reserved,
}
use hitsz_ext.Log.Reservation.Progress.{log_write-Reach}
use hitsz_ext.BlockCache.Steps.{pinned}
use hitsz_ext.Tests.State.{log0, sys0, dot_entries, cached_nine}

abbrev long_log : LogState
long_log = record log0 { size = 31 }

abbrev before : System
before = record { sys = record sys0 { log = record long_log { outstanding = 0 } }; shares = [] }

abbrev after : System
after = record { sys = record sys0 { log = long_log }; shares = 10 ∷ [] }

before-Idle : Idle before
before-Idle = record { idle = refl; none_open = refl; no_shares = refl; small = omega arith }

entering : Reach before after
unfolding begin_op may_begin u32 inc32
entering = later here (enter refl refl)

Reach-Reserved_example : Reserved after
Reach-Reserved_example = Reach-Reserved before after before-Idle entering

log_write-Reach_example :
    (t : Sys) × (rest : ℕ) × (log_write (key 1 9) (record sys0 { log = long_log }) ≡ ok tt t)
    × (9 ≤ rest)
    × Step after (record { sys = t; shares = rest ∷ [] })
log_write-Reach_example =
    log_write-Reach before after before-Idle entering (omega arith) (omega arith) (key 1 9)
      (pinned dot_entries) cached_nine [] [] 9 refl
