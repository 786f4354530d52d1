-- ===== src/Log/Effect.antt =====
-- What a commit leaves on the disk and in the cache, and a recovery that is made twice.
use hitsz_ext.Base.{
  ℕ, zero, suc, ◌==◌, Bool-cases, ==→eq, true, false, ◌+◌, ◌*◌, ◌<◌, ◌≤◌, ◌≡◌, ◌≢◌, refl, ◌⊎◌, inl,
  inr, none, arith, ap, ◌∙◌, sym,
}
use hitsz_ext.Bytes.{Data, get32}
use hitsz_ext.Bytes.RoundTrip.{get_words-lt}
use hitsz_ext.Machine.{
  Key, key, Map, put, put_self, put_ne, same_key, same_key→eq, Block, Sys, LogHeader, disk, ok,
}
use hitsz_ext.Log.{log_slot, commit, recover_from_log, decode_hdr}
use hitsz_ext.Log.Stores.{disk_at_ne, disk_at_self, disk_at-stores, disk_at-stores_ne}
use hitsz_ext.Log.Layout.{Layout, log_slot_lem, start-ne-home}
use hitsz_ext.Log.Header.{n-decode-encode}
use hitsz_ext.Log.Recover.{recovered, recover_from_log_lem}
use hitsz_ext.Log.Commit.{Ready, after_head, committed, commit_lem, evict}
use hitsz_ext.Log.Crash.Atomic.{Outside}

evict-none :
    (dev : ℕ) (a : ℕ → ℕ) (k i : ℕ) (m : Map Block) (x : Key)
    → m x ≡ none
    → evict dev a k i m x ≡ none
unfolding evict
evict-none dev a zero i m x e = e
evict-none dev a (suc k) i m x e =
    evict-none dev a k (i + 1) _ x (gone (Bool-cases (same_key x (key dev (a i)))))
  where
    gone :
        (same_key x (key dev (a i)) ≡ true) ⊎ (same_key x (key dev (a i)) ≡ false)
        → put m (key dev (a i)) none x ≡ none
    gone (inl q) = rw (same_key→eq x (key dev (a i)) q) (put_self m (key dev (a i)) none)
    gone (inr q) = put_ne m x (key dev (a i)) none q ∙ e

evict_at :
    (dev : ℕ) (a : ℕ → ℕ) (k i : ℕ) (m : Map Block) (j : ℕ)
    → i ≤ j
    → j < i + k
    → evict dev a k i m (key dev (a j)) ≡ none
unfolding evict
evict_at dev a zero i m j lo hi = absurd (omega arith)
evict_at dev a (suc k) i m j lo hi = elim (Bool-cases (i == j)) [
  | inl q ↦
      evict-none dev a k (i + 1) _ (key dev (a j))
        (rw (==→eq i j q) (put_self m (key dev (a j)) none))
  | inr q ↦ evict_at dev a k (i + 1) _ j (ground arith) (omega arith)
]

module _ (s : Sys) (g : ℕ → Data) (r : Ready s g) where
  home_after : (i : ℕ) → i < s.log.hdr.n → disk (committed s g) (s.log.hdr.block i) ≡ g i
  home_after i lt =
      disk_at_ne s.image _ _ _ _ (start-ne-home r.layout i lt)
      ∙ disk_at-stores s.image s.log.hdr.block g s.log.hdr.n 0 (after_head s g) i (omega arith)
          (omega arith) (λ p q p1 p2 q1 q2 e. r.layout.distinct p q (omega arith) (omega arith) e)

  -- `commit` of a non-empty log that is ready for it returns; each logged block then holds its
  -- cached contents on the disk, every other block outside the log's own is as before, the log is
  -- empty, and no logged block is cached any more.
  pub commit_installs :
      0 < s.log.hdr.n
      → (t : Sys) × (commit s ≡ ok tt t)
        × ((i : ℕ) → i < s.log.hdr.n → disk t (s.log.hdr.block i) ≡ g i)
        × ((b : ℕ)
            → Outside s.log b
            → ((i : ℕ) → i < s.log.hdr.n → s.log.hdr.block i ≢ b)
            → disk t b ≡ disk s b)
        × (t.log.hdr.n ≡ 0)
        × ((i : ℕ) → i < s.log.hdr.n → t.blocks (key s.log.dev (s.log.hdr.block i)) ≡ none)
  commit_installs pos = (
    committed s g,
    commit_lem s g r pos,
    home_after,
    λ b out not_logged.
        disk_at_ne s.image _ _ _ _ (omega (arith, r.layout.room))
        ∙ disk_at-stores_ne s.image s.log.hdr.block g s.log.hdr.n 0 (after_head s g) b
            (λ j lo hi. not_logged j (omega arith))
        ∙ disk_at_ne s.image _ _ _ _ (omega (arith, r.layout.room))
        ∙ disk_at-stores_ne s.image (log_slot s.log) g s.log.hdr.n 0 s.writes b (λ j lo hi e.
          absurd (omega (arith, log_slot_lem r.layout j (omega arith), r.layout.room))),
    refl,
    λ i lt. evict_at s.log.dev s.log.hdr.block s.log.hdr.n 0 s.blocks i (omega arith) (omega arith),
  )

-- The header on the disk after a recovery.
cleared_header :
    (s : Sys) (h : LogHeader) (g : ℕ → Data)
    → let t = recovered s h g in (decode_hdr (disk t s.log.start) t.log.hdr).n ≡ 0
cleared_header s h g =
    let t : Sys = recovered s h g in
    ap (λ d. (decode_hdr d t.log.hdr).n) (disk_at_self s.image s.log.start _ _)
    ∙ n-decode-encode (record h { n = 0 }) t.log.hdr _ (omega arith)

-- The number that the header on the disk has for its entry `i`, four bytes after its count.
abbrev pub named_home : Sys → ℕ → ℕ
named_home s i = get32 (disk s s.log.start) (4 + 4 * i)

home_named :
    (s : Sys) (i : ℕ)
    → i < get32 (disk s s.log.start) 0
    → (decode_hdr (disk s s.log.start) s.log.hdr).block i ≡ named_home s i
unfolding decode_hdr
home_named s i lt =
    get_words-lt (get32 (disk s s.log.start) 0) (disk s s.log.start) 4 s.log.hdr.block i lt

-- With no block cached and a sound header on the disk, two recoveries in a row, as op_init makes
-- them, both return. After the first, each block that the header names holds what its log block held,
-- every other block but the header's is as before, and the log is empty, in memory and in the header
-- on the disk; the second leaves the log empty in both and changes no block but the header's.
pub recover_twice :
    (s : Sys)
    → let h = decode_hdr (disk s s.log.start) s.log.hdr in
      Layout (record s.log { hdr = h })
      → ((k : Key) → s.blocks k ≡ none)
      → (t : Sys) × (u : Sys) × (recover_from_log s ≡ ok tt t)
        × (recover_from_log t ≡ ok tt u)
        × ((i : ℕ)
            → i < get32 (disk s s.log.start) 0
            → disk t (named_home s i) ≡ disk s (s.log.start + 1 + i))
        × ((b : ℕ)
            → b ≢ s.log.start
            → ((i : ℕ) → i < get32 (disk s s.log.start) 0 → named_home s i ≢ b)
            → disk t b ≡ disk s b)
        × (t.log.hdr.n ≡ 0)
        × (get32 (disk t s.log.start) 0 ≡ 0)
        × (u.log.hdr.n ≡ 0)
        × (get32 (disk u s.log.start) 0 ≡ 0)
        × ((b : ℕ) → b ≢ s.log.start → disk u b ≡ disk t b)
recover_twice s w empty =
    let h : LogHeader = decode_hdr (disk s s.log.start) s.log.hdr in
    let g : ℕ → Data = λ i. disk s (log_slot s.log i) in
    let t : Sys = recovered s h g in
    let h' : LogHeader = decode_hdr (disk t s.log.start) t.log.hdr in
    let u : Sys = recovered t h' (λ i. disk t (log_slot t.log i)) in
    let e : h'.n ≡ 0 = cleared_header s h g in
    (
      t,
      u,
      recover_from_log_lem s w empty,
      recover_from_log_lem t
          (record {
            room = omega (arith, w.room);
            fits = omega arith;
            area = w.area;
            small = λ i lt. absurd (omega arith);
            apart = λ i lt. absurd (omega arith);
            distinct = λ i j lt. absurd (omega arith);
          })
          empty,
      λ i l.
          let lt : i < h.n = unfold decode_hdr in l in
          let next : log_slot s.log i ≡ s.log.start + 1 + i = omega (arith, log_slot_lem w i lt) in
          ap (disk t) (sym (home_named s i l))
          ∙ disk_at_ne s.image _ _ _ _ (start-ne-home w i lt)
          ∙ disk_at-stores s.image h.block g h.n 0 s.writes i (omega arith) (omega arith)
              (λ p q p1 p2 q1 q2 f. w.distinct p q (omega arith) (omega arith) f)
          ∙ ap (disk s) next,
      λ b ne others.
          disk_at_ne s.image _ _ _ _ (λ q. ne (sym q))
          ∙ disk_at-stores_ne s.image h.block g h.n 0 s.writes b (λ j lo hi q.
            let l : j < get32 (disk s s.log.start) 0 = unfold decode_hdr in omega arith in
            others j l (sym (home_named s j l) ∙ q)),
      refl,
      unfold decode_hdr in cleared_header s h g,
      refl,
      unfold decode_hdr in cleared_header t h' (λ i. disk t (log_slot t.log i)),
      λ b ne.
          disk_at_ne s.image _ _ _ _ (λ q. ne (sym q))
          ∙ disk_at-stores_ne s.image h'.block _ h'.n 0 t.writes b
              (λ j lo hi. absurd (omega arith)),
    )
