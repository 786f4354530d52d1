-- ===== src/Log/Crash/Atomic.antt =====
-- Whatever store of a commit is the last, the restart finds all of the transaction or none of it.
use hitsz_ext.Base.{ℕ, ◌≡◌, ◌+◌, ◌<◌, ◌≤◌, refl, ◌⊎◌, inl, inr, length, arith, ap, ◌∙◌, sym}
use hitsz_ext.Bytes.{Data}
use hitsz_ext.Machine.{Sys, LogState, LogHeader, disk, disk_at, ok}
use hitsz_ext.Log.{log_slot, init, commit, recover_from_log, encode_hdr, decode_hdr}
use hitsz_ext.Log.Stores.{
  stores, stores_cong, disk_at-stores_again, disk_at_ne, disk_at_self, disk_at-stores_ne,
}
use hitsz_ext.Log.Layout.{
  Layout, Layout-same, log_slot_lem, slot-ne-home, start-ne-home, start-ne-slot,
}
use hitsz_ext.Log.Header.{n-decode-encode, block-decode-encode}
use hitsz_ext.Log.Recover.{recovered, recover_from_log_lem}
use hitsz_ext.Log.Commit.{
  Ready, after_log, after_head, after_install, after_clear, committed, hdr0, logged_slot,
  commit_lem,
}
use hitsz_ext.Log.Crash.Cut.{
  Writes, Extends, Extends-cons, Extends-antisym, Extends-stores, no_header, no_log, restart,
}

-- The blocks that are not the log's own.
abbrev pub Outside : LogState → ℕ → Type 0
Outside l b = (b < l.start) ⊎ (l.start + l.size ≤ b)

-- The log's place is the one that the superblock states, and the header on the disk is empty.
pub record Mounted (s : Sys) : Type 0 where
  pub start : s.sb.logstart ≡ s.log.start
  pub size : s.sb.nlog ≡ s.log.size
  pub empty : (decode_hdr (disk s s.log.start) no_header).n ≡ 0

-- The restarted process, with the log's place set.
abbrev pub opened : Sys → Writes → Sys
opened s c = record (restart s c) {
  log = record no_log { start = s.log.start; size = s.log.size; dev = s.log.dev };
}

abbrev pub found : Sys → Writes → LogHeader
found s c = decode_hdr (disk_at s.image c s.log.start) no_header

-- The restart after a kill at `c` recovers, if the header it finds is sound.
abbrev pub final : Sys → Writes → Sys
final s c = recovered (opened s c) (found s c) (λ i. disk_at s.image c (log_slot s.log i))

restart_recovers :
    (s : Sys) (c : Writes)
    → Mounted s
    → Layout (record s.log { hdr = found s c })
    → init s.log.dev (restart s c) ≡ ok tt (final s c)
unfolding init
restart_recovers s c m w =
    (λ i. recover_from_log (record (restart s c) {
      log = record no_log { start = m.start i; size = m.size i; dev = s.log.dev };
    }))
    ∙ recover_from_log_lem (opened s c)
        (record {
          room = w.room;
          fits = w.fits;
          area = w.area;
          small = w.small;
          apart = w.apart;
          distinct = w.distinct;
        })
        (λ k. refl)

-- A header with no entries: the restart changes nothing outside the log.
module _ (s : Sys) (c : Writes) (m : Mounted s) (w : Layout s.log)
    (none_found : (found s c).n ≡ 0) where
  empty_Layout : Layout (record s.log { hdr = found s c })
  empty_Layout = record {
    room = omega (arith, w.room);
    fits = omega arith;
    area = w.area;
    small = λ i h. absurd (omega arith);
    apart = λ i h. absurd (omega arith);
    distinct = λ i j h. absurd (omega arith);
  }

  restart_empty : init s.log.dev (restart s c) ≡ ok tt (final s c)
  restart_empty = restart_recovers s c m empty_Layout

  disk-restart_empty : (b : ℕ) → Outside s.log b → disk (final s c) b ≡ disk_at s.image c b
  disk-restart_empty b out =
      disk_at_ne s.image _ _ _ _ (omega (arith, w.room))
      ∙ disk_at-stores_ne s.image (found s c).block _ (found s c).n 0 c b
          (λ j lo hi. absurd (omega arith))

-- The outcome of a kill at `c` during the commit, followed by a restart: it recovers, its log is
-- empty, and outside the log the disk is as before the commit, or as after it.
pub record Atomic (s : Sys) (g : ℕ → Data) (c : Writes) : Type 0 where
  pub restarts : init s.log.dev (restart s c) ≡ ok tt (final s c)
  pub same :
      ((b : ℕ) → Outside s.log b → disk (final s c) b ≡ disk s b)
      ⊎ ((b : ℕ) → Outside s.log b → disk (final s c) b ≡ disk (committed s g) b)

module _ (s : Sys) (g : ℕ → Data) (m : Mounted s) (r : Ready s g) where
  -- After stores that leave the header block alone, the restart finds it as it was.
  found_same :
      (ws : Writes) → disk_at s.image ws s.log.start ≡ disk s s.log.start → (found s ws).n ≡ 0
  found_same ws e = ap (λ d. (decode_hdr d no_header).n) e ∙ m.empty

  -- The kill came while the log was being written: nothing has happened.
  early : (j : ℕ) → j ≤ s.log.hdr.n → Atomic s g (stores (log_slot s.log) g j 0 s.writes)
  early j le =
      let c : Writes = stores (log_slot s.log) g j 0 s.writes in
      let e : (found s c).n ≡ 0 = found_same c (
        disk_at-stores_ne s.image (log_slot s.log) g j 0 s.writes s.log.start
          (λ i lo hi e. start-ne-slot r.layout i (omega arith) (sym e))) in
      record {
        restarts = restart_empty s c m r.layout e;
        same = inl (λ b out.
            disk-restart_empty s c m r.layout e b out
            ∙ disk_at-stores_ne s.image (log_slot s.log) g j 0 s.writes b (λ i lo hi q.
              absurd (omega (arith, log_slot_lem r.layout i (omega arith), r.layout.room))));
      }

  -- The kill came after the header was written, in the middle of the installation.
  module _ (j : ℕ) (le : j ≤ s.log.hdr.n) where
    abbrev midway : Writes
    midway = stores s.log.hdr.block g j 0 (after_head s g)

    found-midway :
        found s midway
        ≡ decode_hdr (encode_hdr s.log.hdr (disk_at s.image (after_log s g) s.log.start)) no_header
    found-midway =
        ap (λ d. decode_hdr d no_header)
          (disk_at-stores_ne s.image s.log.hdr.block g j 0 (after_head s g) s.log.start
              (λ i lo hi e. start-ne-home r.layout i (omega arith) (sym e))
            ∙ disk_at_self s.image s.log.start _ (after_log s g))

    n_midway : (found s midway).n ≡ s.log.hdr.n
    n_midway =
        ap (λ h. h.n) found-midway
        ∙ n-decode-encode s.log.hdr no_header _ (omega (arith, r.layout.fits))

    block_midway : (i : ℕ) → i < s.log.hdr.n → (found s midway).block i ≡ s.log.hdr.block i
    block_midway i lt =
        ap (λ h. h.block i) found-midway
        ∙ block-decode-encode s.log.hdr no_header _ i (omega (arith, r.layout.fits)) lt
            (omega (arith, r.layout.small i lt))

    slot_midway : (i : ℕ) → i < s.log.hdr.n → disk_at s.image midway (log_slot s.log i) ≡ g i
    slot_midway i lt =
        disk_at-stores_ne s.image s.log.hdr.block g j 0 (after_head s g) (log_slot s.log i)
          (λ k lo hi e. slot-ne-home r.layout i k lt (omega arith) (sym e))
        ∙ logged_slot s g r i lt

    stores-midway :
        stores
          (found s midway).block
          (λ i. disk_at s.image midway (log_slot s.log i))
          (found s midway).n
          0
          midway
        ≡ stores s.log.hdr.block g s.log.hdr.n 0 midway
    stores-midway =
        ap
          (λ k.
            stores (found s midway).block (λ i. disk_at s.image midway (log_slot s.log i)) k 0
              midway)
          n_midway
        ∙ stores_cong _ _ _ _ s.log.hdr.n 0 midway (λ i lo hi. block_midway i (omega arith))
            (λ i lo hi. slot_midway i (omega arith))

    middle : Atomic s g midway
    middle = record {
      restarts =
          restart_recovers s midway m (Layout-same r.layout (found s midway) n_midway block_midway);
      same = inr (λ b out.
          disk_at_ne s.image _ _ _ _ (omega (arith, r.layout.room))
          ∙ ap (λ ws. disk_at s.image ws b) stores-midway
          ∙ disk_at-stores_again s.image s.log.hdr.block g s.log.hdr.n j (after_head s g) b le
              r.layout.distinct
          ∙ sym (disk_at_ne s.image _ _ _ (after_install s g) (omega (arith, r.layout.room))));
    }

  -- The kill came after the whole commit.
  late : Atomic s g (after_clear s g)
  late =
      let e : (found s (after_clear s g)).n ≡ 0 =
        ap (λ d. (decode_hdr d no_header).n)
          (disk_at_self s.image s.log.start _ (after_install s g))
        ∙ n-decode-encode (hdr0 s) no_header _ (omega arith) in
      record {
        restarts = restart_empty s (after_clear s g) m r.layout e;
        same = inr (disk-restart_empty s (after_clear s g) m r.layout e);
      }

  -- A cut of the stores of a commit lies in one of its four steps.
  cut-Atomic :
      (c : Writes) → Extends c (after_clear s g) → length s.writes ≤ length c → Atomic s g c
  unfolding stores
  cut-Atomic c e long = elim (Extends-cons _ e) [
    | inl last ↦ rw last late
    | inr before ↦ elim (Extends-stores s.log.hdr.block g s.log.hdr.n 0 before) [
      | inl (j, le, q) ↦ rw q (middle j le)
      | inr older ↦ elim (Extends-cons _ older) [
        | inl at_head ↦ rw at_head (middle 0 (omega arith))
        | inr in_log ↦ elim (Extends-stores (log_slot s.log) g s.log.hdr.n 0 in_log) [
          | inl (j, le, q) ↦ rw q (early j le)
          | inr oldest ↦ rw (Extends-antisym oldest long) (early 0 (omega arith))
        ]
      ]
    ]
  ]

-- On a mounted log with an empty header on the disk, ready for a commit and not empty in memory:
-- `commit` returns, and whatever store of it is the last before the process is killed, the next
-- process recovers with the disk, outside the log's own blocks, as it was before the commit or as
-- it is after the whole commit.
pub commit-Atomic :
    (s : Sys) (g : ℕ → Data) (c : Writes)
    → Mounted s
    → Ready s g
    → 0 < s.log.hdr.n
    → Extends c (committed s g).writes
    → length s.writes ≤ length c
    → (commit s ≡ ok tt (committed s g)) × Atomic s g c
commit-Atomic s g c m r pos e long = (commit_lem s g r pos, cut-Atomic s g m r c e long)
