-- ===== src/Log/Reservation.antt =====
-- The reservation of log blocks by begin_op, log_write and end_op of src/Log.cxx: the executions of
-- several operations, in any order, as a step relation.
pub mod Shares
pub mod Progress
use hitsz_ext.Base.{
  ℕ, zero, suc, ◌+◌, ◌*◌, ◌%◌, ◌^◌, ◌<◌, ◌≤◌, ◌≡◌, refl, sym, ap, ◌∙◌, subst, inl, inr, Bool, true,
  false, not, ◌&&◌, leb, ltb, List, [], ◌∷◌, ◌++◌, length, if◌then◌else◌, ◌==◌, u32, inc32, dec32,
  dec32_pos, ◌-◌, Bool-cases, arith, some, lt→ltb, le→leb,
}
use hitsz_ext.BlockCache.{load, store, block_pin}
use hitsz_ext.Machine.{
  put, Block, log_size, max_op_blocks, Key, Sys, LogState, Run, ok, fault, Fault,
}
use hitsz_ext.Log.{may_begin, begin_op, end_op, log_write, find_slot, add_entry}
use hitsz_ext.Log.Reservation.Shares.{
  total, total-insert, length-insert, AreFair, total_bound, AreFair-replace, AreFair-remove,
}
use hitsz_ext.Log.Frame.{LogIs}
use hitsz_ext.Log.Left.{end_op-LogIs, log_write-LogIs, left, left_last, noted}

-- The state of the program, and for each operation in the transaction the number of entries that it
-- may still add to the log.
pub record System : Type 0 where
  pub sys : Sys
  pub shares : List ℕ

-- An operation enters with a full share; it writes a block and pays for the entry that this adds;
-- it leaves; or anything else happens, which leaves the static members of Log.
pub data Step (x : System) (y : System) : Type 0 where
  enter : begin_op x.sys ≡ ok tt y.sys → y.shares ≡ max_op_blocks ∷ x.shares → Step x y
  write :
      (k : Key) (before after : List ℕ) (old new : ℕ)
      → log_write k x.sys ≡ ok tt y.sys
      → x.shares ≡ before ++ old ∷ after
      → y.shares ≡ before ++ new ∷ after
      → old + x.sys.log.hdr.n ≡ new + y.sys.log.hdr.n
      → Step x y
  leave :
      (before after : List ℕ) (share : ℕ)
      → end_op x.sys ≡ ok tt y.sys
      → x.shares ≡ before ++ share ∷ after
      → y.shares ≡ before ++ after
      → Step x y
  other : y.sys.log ≡ x.sys.log → y.shares ≡ x.shares → Step x y

pub data Reach (x : System) : System → Type 0 where
  here : Reach x x
  later : {y z : System} → Reach x y → Step y z → Reach x z

-- No commit runs between two steps; the operations counted are those in the transaction; and the
-- entries of the log and those still reserved fit in the log.
pub record Reserved (x : System) : Type 0 where
  pub idle : x.sys.log.committing ≡ false
  pub counted : x.sys.log.outstanding ≡ length x.shares
  pub few : length x.shares ≤ 3
  pub fair : AreFair x.shares
  pub room : x.sys.log.hdr.n + total x.shares ≤ log_size

-- The static members after `begin_op`, which returns only if the test holds.
abbrev admitted : LogState → LogState
admitted l = record l { outstanding = inc32 l.outstanding }

abbrev Returned : {A : Type 0} → Run A → Type 0
Returned (ok a t) = Unit
Returned (fault e) = ⊥

begin_op-LogIs : (s : Sys) → LogIs (admitted s.log) (begin_op s)
unfolding begin_op
begin_op-LogIs s = elim (Bool-cases (may_begin s.log)) [
  | inl hit ↦ rw (hit, LogIs) refl
  | inr miss ↦ rw (miss, LogIs) tt
]

may_begin-begin_op : (s : Sys) → Returned (begin_op s) → may_begin s.log ≡ true
unfolding begin_op
may_begin-begin_op s r = elim (Bool-cases (may_begin s.log)) [
  | inl hit ↦ hit
  | inr miss ↦ absurd (rw (miss, Returned) at r)
]

-- The test bounds what the log needs once every operation in the transaction has used its share.
may_begin_bound :
    (l : LogState)
    → l.outstanding ≤ 3
    → l.hdr.n ≤ log_size
    → may_begin l ≡ true
    → l.hdr.n + (l.outstanding + 1) * max_op_blocks ≤ log_size
unfolding may_begin u32
may_begin_bound l few small hit = ground arith

-- The entries in a header only grow by `log_write`.
pub noted_grows : (l : LogState) (k : Key) → l.hdr.n ≤ log_size → l.hdr.n ≤ (noted l k).hdr.n
unfolding inc32
noted_grows l k small = ground arith

pub noted_by_one : (l : LogState) (k : Key) → l.hdr.n ≤ log_size → (noted l k).hdr.n ≤ l.hdr.n + 1
unfolding inc32
noted_by_one l k small = ground arith

enter-Reserved :
    (x y : System)
    → begin_op x.sys ≡ ok tt y.sys
    → y.shares ≡ max_op_blocks ∷ x.shares
    → Reserved x
    → Reserved y
unfolding inc32
enter-Reserved x y run e r =
    let logs : y.sys.log ≡ admitted x.sys.log = subst (LogIs _) run (begin_op-LogIs x.sys) in
    let fits =
      may_begin_bound x.sys.log (omega arith) (omega arith)
        (may_begin-begin_op x.sys (subst Returned (sym run) tt)) in
    record {
      idle = rw logs r.idle;
      counted = rw (logs, e) (omega arith);
      few = rw e (omega arith);
      fair = rw e (omega arith, r.fair);
      room = rw (logs, e) (omega (arith, total_bound x.shares r.fair));
    }

write-Reserved :
    (x y : System) (k : Key) (before after : List ℕ) (old new : ℕ)
    → log_write k x.sys ≡ ok tt y.sys
    → x.shares ≡ before ++ old ∷ after
    → y.shares ≡ before ++ new ∷ after
    → old + x.sys.log.hdr.n ≡ new + y.sys.log.hdr.n
    → Reserved x
    → Reserved y
write-Reserved x y k before after old new run old_eq new_eq paid r =
    let logs : y.sys.log ≡ noted x.sys.log k = subst (LogIs _) run (log_write-LogIs x.sys k) in
    let grown : x.sys.log.hdr.n ≤ y.sys.log.hdr.n =
      rw logs (noted_grows x.sys.log k (omega arith)) in
    let counts : length y.shares ≡ length x.shares =
      rw (old_eq, new_eq) (length-insert before after new ∙ sym (length-insert before after old)) in
    record {
      idle = rw logs r.idle;
      counted = rw (logs, counts) r.counted;
      few = rw counts r.few;
      fair =
          rw new_eq
            (AreFair-replace before after old new (omega arith) (subst AreFair old_eq r.fair));
      room =
          rw (ap total new_eq, total-insert before after new)
            (omega (arith, ap total old_eq ∙ total-insert before after old));
    }

leave-Reserved :
    (x y : System) (before after : List ℕ) (share : ℕ)
    → end_op x.sys ≡ ok tt y.sys
    → x.shares ≡ before ++ share ∷ after
    → y.shares ≡ before ++ after
    → Reserved x
    → Reserved y
unfolding dec32
leave-Reserved x y before after share run old_eq new_eq r =
    let fair : AreFair y.shares =
      rw new_eq (AreFair-remove before after share (subst AreFair old_eq r.fair)) in
    let counts : length x.shares ≡ suc (length y.shares) =
      rw (old_eq, new_eq) (length-insert before after share) in
    let spent : total x.shares ≡ share + total y.shares =
      rw (old_eq, new_eq) (total-insert before after share) in
    let logs : y.sys.log ≡ (
        if dec32 x.sys.log.outstanding == 0 then left_last (left x.sys.log) else left x.sys.log) =
      subst (LogIs _) run (end_op-LogIs x.sys) in
    elim (Bool-cases (dec32 x.sys.log.outstanding == 0)) [
      | inl last ↦ record {
        idle = rw (logs, last) refl;
        counted = rw (logs, last) (omega arith);
        few = omega arith;
        fair = fair;
        room = rw (logs, last) (omega (arith, total_bound y.shares fair));
      }
      | inr stays ↦ record {
        idle = rw (logs, stays) r.idle;
        counted = rw (logs, stays) (omega arith);
        few = omega arith;
        fair = fair;
        room = rw (logs, stays) (omega arith);
      }
    ]

Step-Reserved : {x y : System} → Step x y → Reserved x → Reserved y
Step-Reserved {x} {y} (enter run e) r = enter-Reserved x y run e r
Step-Reserved {x} {y} (write k before after old new run old_eq new_eq paid) r =
    write-Reserved x y k before after old new run old_eq new_eq paid r
Step-Reserved {x} {y} (leave before after share run old_eq new_eq) r =
    leave-Reserved x y before after share run old_eq new_eq r
Step-Reserved {x} {y} (other l e) r = record {
  idle = rw l r.idle;
  counted = rw (l, e) r.counted;
  few = rw e r.few;
  fair = rw e r.fair;
  room = rw (l, e) r.room;
}

Reach-keeps : {x y : System} → Reserved x → Reach x y → Reserved y
Reach-keeps r here = r
Reach-keeps r (later p st) = Step-Reserved st (Reach-keeps r p)

-- The state when no operation is in the transaction.
pub record Idle (x : System) : Type 0 where
  pub idle : x.sys.log.committing ≡ false
  pub none_open : x.sys.log.outstanding ≡ 0
  pub no_shares : x.shares ≡ []
  pub small : x.sys.log.hdr.n ≤ log_size

Idle-Reserved : (x : System) → Idle x → Reserved x
Idle-Reserved x q = record {
  idle = q.idle;
  counted = rw q.no_shares q.none_open;
  few = rw q.no_shares (omega arith);
  fair = rw q.no_shares tt;
  room = rw q.no_shares (omega (arith, q.small));
}

-- From a state with no operation in the transaction, no commit running and at most a full header,
-- after any steps of operations that each pay for the entries they add out of a share of
-- MAX_OP_BLOCKS: no commit runs, `outstanding` counts the operations in the transaction, there are
-- at most three, no share exceeds MAX_OP_BLOCKS, and the header's entries and all the shares fit
-- in LOG_SIZE.
pub Reach-Reserved : (x y : System) → Idle x → Reach x y → Reserved y
Reach-Reserved x y q p = Reach-keeps (Idle-Reserved x q) p
