-- ===== src/Tests/Log.antt =====
-- Log.cxx on the small file system.
use hitsz_ext.Base.{
  ℕ, ◌+◌, ◌<◌, ◌≤◌, ◌≡◌, ◌≢◌, refl, true, none, ◌==◌, if◌then◌else◌, arith, ap, ◌∙◌,
}
use hitsz_ext.Bytes.{Data, get32, get_words}
use hitsz_ext.Machine.{key, LogHeader, Sys, disk, disk_at, ok}
use hitsz_ext.Log.{commit, recover_from_log, decode_hdr, begin_op, end_op, may_begin}
use hitsz_ext.Log.Stores.{stores}
use hitsz_ext.Log.Layout.{Layout}
use hitsz_ext.Log.Commit.{committed, after_head}
use hitsz_ext.Log.Crash.Cut.{Extends, here, newer}
use hitsz_ext.Log.Crash.Atomic.{Atomic, Outside, commit-Atomic}
use hitsz_ext.Log.Effect.{commit_installs, named_home, recover_twice}
use hitsz_ext.Log.Sessions.{entered, reserved, settled, end_op-begin_op, end_op_commits}
use hitsz_ext.Transaction.{IsHome, Tx, no_block, hold, logged}
use hitsz_ext.Transaction.Finish.{tx_finish}
use hitsz_ext.Bitmap.{finish}
use hitsz_ext.Tests.State.{
  dot_entries, image0, log0, sys0, sys0-Mounted, sys0-Ready, sys0-Tx, one_more0,
}

abbrev contents0 : ℕ → Data
contents0 i = dot_entries

-- A kill just after the header was written.
cut_in_middle : Extends (after_head sys0 contents0) (committed sys0 contents0).writes
unfolding stores
cut_in_middle = newer (newer here)

commit-Atomic_example :
    (commit sys0 ≡ ok tt (committed sys0 contents0))
    × Atomic sys0 contents0 (after_head sys0 contents0)
commit-Atomic_example =
    commit-Atomic sys0 contents0 (after_head sys0 contents0) sys0-Mounted sys0-Ready (omega arith)
      cut_in_middle (omega arith)

commit_installs_example :
    (t : Sys) × (commit sys0 ≡ ok tt t)
    × ((i : ℕ) → i < 1 → disk t 9 ≡ dot_entries)
    × ((b : ℕ) → Outside log0 b → ((i : ℕ) → i < 1 → 9 ≢ b) → disk t b ≡ disk sys0 b)
    × (t.log.hdr.n ≡ 0)
    × ((i : ℕ) → i < 1 → t.blocks (key 1 9) ≡ none)
commit_installs_example = commit_installs sys0 contents0 sys0-Ready (omega arith)

-- The same file system as a killed process may leave it, with a header that names block 9.
abbrev crashed : Sys
crashed = record sys0 {
  image = λ n. if n == 2 then (λ i. if i == 0 then 1 else if i == 4 then 9 else 0) else image0 n;
  blocks = λ _. none;
}

abbrev crash_header : LogHeader
crash_header = decode_hdr (disk crashed 2) log0.hdr

crash_n : crash_header.n ≡ 1
unfolding decode_hdr disk_at get32
crash_n = refl

crash_nine : crash_header.block 0 ≡ 9
unfolding decode_hdr disk_at get32 get_words
crash_nine = refl

crash_block : (i : ℕ) → i < crash_header.n → crash_header.block i ≡ 9
crash_block i lt =
    let first : i ≡ 0 = omega (arith, crash_n) in ap crash_header.block first ∙ crash_nine

crashed_Layout : Layout (record log0 { hdr = crash_header })
crashed_Layout = record {
  room = omega (arith, crash_n);
  fits = omega (arith, crash_n);
  area = omega arith;
  small = λ i lt. omega (arith, crash_block i lt);
  apart = λ i lt. omega (arith, crash_block i lt);
  distinct = λ i j p q e. omega (arith, crash_n);
}

recover_twice_example :
    (t : Sys) × (u : Sys) × (recover_from_log crashed ≡ ok tt t)
    × (recover_from_log t ≡ ok tt u)
    × ((i : ℕ)
        → i < get32 (disk crashed 2) 0
        → disk t (named_home crashed i) ≡ disk crashed (2 + 1 + i))
    × ((b : ℕ)
        → b ≢ 2
        → ((i : ℕ) → i < get32 (disk crashed 2) 0 → named_home crashed i ≢ b)
        → disk t b ≡ disk crashed b)
    × (t.log.hdr.n ≡ 0)
    × (get32 (disk t 2) 0 ≡ 0)
    × (u.log.hdr.n ≡ 0)
    × (get32 (disk u 2) 0 ≡ 0)
    × ((b : ℕ) → b ≢ 2 → disk u b ≡ disk t b)
recover_twice_example = recover_twice crashed crashed_Layout (λ k. refl)

end_op-begin_op_example :
    (begin_op sys0 ≡ ok tt (entered sys0))
    × (reserved (entered sys0).log ≡ 21)
    × (end_op (entered sys0) ≡ ok tt sys0)
end_op-begin_op_example = end_op-begin_op sys0 refl (omega arith) (omega arith)

end_op_commits_example :
    (end_op sys0 ≡ ok tt (settled sys0 contents0))
    × ((settled sys0 contents0).log.outstanding ≡ 0)
    × (may_begin (settled sys0 contents0).log ≡ true)
end_op_commits_example = end_op_commits sys0 contents0 sys0-Ready (omega arith) refl refl

ten-IsHome : IsHome log0 10
ten-IsHome = record { small = omega arith; apart = omega arith }

tx_finish_example :
    (h : LogHeader) × (finish (key 1 10) (hold sys0 10 dot_entries)
      ≡ ok tt (logged sys0 10 dot_entries h))
    × Tx no_block (logged sys0 10 dot_entries h)
    × (1 ≤ h.n)
    × (h.n ≤ 2)
tx_finish_example = tx_finish sys0-Tx 10 ten-IsHome dot_entries refl one_more0
