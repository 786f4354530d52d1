-- ===== src/Content/Grow/Round.antt =====
-- One round of the loop of INode::write on a file of direct blocks, after its block_map.
use hitsz_ext.Base.{
  ℕ, zero, suc, ◌+◌, ◌-◌, ◌*◌, ◌/◌, ◌%◌, ◌<◌, ◌≤◌, ◌≡◌, refl, Bool, some, List, [], ◌∷◌, ◌++◌,
  length, take, drop, inl, inr, ◌⊎◌, ne→==, u32_small, arith, ap, ◌∙◌, sym, subst,
}
use hitsz_ext.Machine.{bsize, ndirect, put_same, INode, Sys, LogHeader, Run, ok}
use hitsz_ext.Bitmap.{finish}
use hitsz_ext.Bitmap.Map.{FreeMap}
use hitsz_ext.Content.{splice, chunk, block_map, write_loop}
use hitsz_ext.Content.Owned.{Owned}
use hitsz_ext.Content.Mapped.{file_data}
use hitsz_ext.Content.Splice.{length-take, length-drop, splice_out}
use hitsz_ext.Content.Grow.{Full, DirectFile, Grown, Grown-trans}
use hitsz_ext.Content.Grow.Block.{Grown-store}
use hitsz_ext.Transaction.{at, Tx, HasRoom, content, hold, logged}
use hitsz_ext.Transaction.Hold.{tx_read, load-hold, store-hold}
use hitsz_ext.Transaction.Finish.{tx_finish}

-- The write stored the first `tot` bytes: all of them, unless the disk is full.
abbrev pub Outcome : (ℕ → Bool) → Sys → ℕ → INode → ℕ → ℕ → List ℕ → ℕ → Run ℕ → Type 0
Outcome busy s i ip n off src k out =
    (tot : ℕ) × (ip' : INode) × (n' : ℕ) × (t : Sys) × (out ≡ ok tot t)
    × (tot ≤ length src)
    × Grown busy s i ip n off (take tot src) k ip' n' t
    × ((tot ≡ length src) ⊎ Full t)

take_nil : (n : ℕ) → take {A = ℕ} n [] ≡ []
take_nil zero = refl
take_nil (suc n) = refl

take_add : (m n : ℕ) (cs : List ℕ) → take m cs ++ take n (drop m cs) ≡ take (m + n) cs
take_add zero n cs = ap (λ k. take k cs) (omega arith)
take_add (suc m) n [] = take_nil n ∙ sym (take_nil (suc m + n))
take_add (suc m) n (c ∷ cs) =
    let total : suc m + n ≡ suc (m + n) = omega arith in
    ap (λ l. c ∷ l) (take_add m n cs) ∙ ap (λ k. take k (c ∷ cs)) (sym total)

pub Grown-nothing :
    {busy : ℕ → Bool} {s : Sys}
    → Tx busy s
    → FreeMap busy s
    → (i : ℕ) (ip : INode) → s.inodes (at s i) ≡ some ip
    → (n : ℕ) → DirectFile busy s i ip.dinode n
    → (off : ℕ) → off ≤ n * bsize
    → (k : ℕ) → Grown busy s i ip n off [] k ip n s
Grown-nothing {busy} {s} tx m i ip here n g off start k = record {
  tx = tx;
  map = m;
  file = g;
  inodes = sym (put_same s.inodes (at s i) (some ip) here);
  log = refl;
  sb = refl;
  kept = refl;
  more = omega arith;
  covered = omega arith;
  bytes = λ j near. sym (splice_out (file_data s ip.dinode) off [] j (omega arith));
  entries = omega arith;
  others = λ c own away. (own, away, refl);
}

Grown-weaken :
    {busy : ℕ → Bool} {s t : Sys} (i : ℕ) (ip ip' : INode) (n n' off : ℕ) (cs : List ℕ) (k k' : ℕ)
    → k ≤ k'
    → Grown busy s i ip n off cs k ip' n' t
    → Grown busy s i ip n off cs k' ip' n' t
Grown-weaken i ip ip' n n' off cs k k' le g = record {
  tx = g.tx;
  map = g.map;
  file = g.file;
  inodes = g.inodes;
  log = g.log;
  sb = g.sb;
  kept = g.kept;
  more = g.more;
  covered = g.covered;
  bytes = g.bytes;
  entries = omega (arith, g.entries);
  others = g.others;
}

-- The rest of a round, after block_map.
stored_round :
    {busy : ℕ → Bool} (s u : Sys) (tx : Tx busy u) (i fuel off : ℕ) (src : List ℕ) (b : ℕ)
    → Owned busy u b
    → block_map (at u i) (off / bsize) s ≡ ok b u
    → (h : LogHeader)
    → let c = chunk off (length src) in
      let e = splice (content u b) (off % bsize) (take c src) in
      finish (at u b) (hold u b e) ≡ ok tt (logged u b e h)
      → 0 < length src
      → off < ndirect * bsize
      → (rest : ℕ) (t : Sys)
      → write_loop (at u i) fuel (off + c) (drop c src) (logged u b e h) ≡ ok rest t
      → write_loop (at u i) (suc fuel) off src s ≡ ok (c + rest) t
unfolding write_loop
stored_round s u tx i fuel off src b o mapped h done some_bytes small rest t later =
    rw (ne→== (length src) 0 (omega arith)) (
      rw (u32_small (off / bsize) (omega arith)) (
        rw mapped (
          rw (ne→== b 0 (omega (arith, o.pos))) (
            rw (tx_read tx b o.idle o.home.small) (
              rw (load-hold u b (content u b)) (
                rw
                  (store-hold u b (content u b)
                    (splice (content u b) (off % bsize) (take (chunk off (length src)) src)))
                  (rw done (rw later refl))))))))

pub nothing_stored :
    {busy : ℕ → Bool} {s : Sys}
    → Tx busy s
    → FreeMap busy s
    → (i : ℕ) (ip : INode) → s.inodes (at s i) ≡ some ip
    → (n : ℕ) → DirectFile busy s i ip.dinode n
    → (off : ℕ) → off ≤ n * bsize
    → (src : List ℕ) (k : ℕ) (out : Run ℕ) → out ≡ ok 0 s
    → (length src ≡ 0) ⊎ Full s
    → Outcome busy s i ip n off src k out
nothing_stored {s = s} tx m i ip here n g off start src k out run why = (
  0,
  ip,
  n,
  s,
  run,
  omega arith,
  Grown-nothing tx m i ip here n g off start k,
  elim why [ inl e ↦ inl (sym e) | inr full ↦ inr full ],
)

-- A round and the rest of the loop.
pub combine :
    {busy : ℕ → Bool} {s u : Sys} (i : ℕ) (ip ip' : INode) (n n' off c : ℕ) (src : List ℕ)
    (k k' l : ℕ) (out later : Run ℕ)
    → k + k' ≤ l
    → c ≤ length src
    → Grown busy s i ip n off (take c src) k ip' n' u
    → Outcome busy u i ip' n' (off + c) (drop c src) k' later
    → ((rest : ℕ) (t : Sys) → later ≡ ok rest t → out ≡ ok (c + rest) t)
    → Outcome busy s i ip n off src l out
combine {busy} {s} i ip ip' n n' off c src k k' l out later le few first
      (tot, ip'', n'', t, ran, le', g, all) runs =
    let stored : length (take c src) ≡ c = omega (arith, length-take c src) in
    let left : length (drop c src) ≡ length src - c = length-drop c src in
    (
      c + tot,
      ip'',
      n'',
      t,
      runs tot t ran,
      omega (arith, left),
      Grown-weaken i ip ip'' n n'' off (take (c + tot) src) (k + k') l le (
          subst (λ cs. Grown busy s i ip n off cs (k + k') ip'' n'' t) (take_add c tot src)
            (Grown-trans i ip ip' ip'' n n' n'' off (off + c) (take c src) (take tot (drop c src)) k
              k' (omega (arith, stored)) first g)),
      elim all [ inl done ↦ inl (omega (arith, done, left)) | inr full ↦ inr full ],
    )

-- The state after a store in the block of the offset.
abbrev pub after_store : Sys → INode → ℕ → List ℕ → LogHeader → Sys
after_store u ip off cs h =
    let b : ℕ = ip.dinode.addrs (off / bsize) in
    logged u b (splice (content u b) (off % bsize) cs) h

-- A round, whether block_map left `u` with a new block or as it was.
pub round :
    {busy : ℕ → Bool} {s u : Sys} (i : ℕ) (ip ip' : INode) (n n' off k : ℕ) (src : List ℕ)
    → Grown busy s i ip n off [] k ip' n' u
    → u.inodes (at u i) ≡ some ip'
    → off / bsize < n'
    → block_map (at u i) (off / bsize) s ≡ ok (ip'.dinode.addrs (off / bsize)) u
    → HasRoom u.log 1
    → 0 < length src
    → let c = chunk off (length src) in
      (h : LogHeader) × (h.n ≤ u.log.hdr.n + 1)
      × Grown busy s i ip n off (take c src) (k + 1) ip' n' (after_store u ip' off (take c src) h)
      × ((fuel rest : ℕ) (t : Sys)
          → write_loop (at u i) fuel (off + c) (drop c src) (after_store u ip' off (take c src) h)
            ≡ ok rest t
          → write_loop (at u i) (suc fuel) off src s ≡ ok (c + rest) t)
round {busy} {s} {u} i ip ip' n n' off k src g here inside mapped room some_bytes =
    let c : ℕ = chunk off (length src) in
    let b : ℕ = ip'.dinode.addrs (off / bsize) in
    let o : Owned busy u b = g.file.owned (off / bsize) inside in
    let len : length (take c src) ≡ c = omega (arith, length-take c src) in
    let (h, done, tx', lo, hi) =
      tx_finish g.tx b o.home (splice (content u b) (off % bsize) (take c src)) o.idle room in
    (
      h,
      hi,
      Grown-trans i ip ip' ip' n n' n' off off [] (take c src) k 1 (omega arith) g (
          Grown-store g.map i ip' here n' g.file off (take c src) inside (omega (arith, len)) h hi
            tx'),
      λ fuel rest t later.
          stored_round s u g.tx i fuel off src b o mapped h done some_bytes
            (omega (arith, g.file.direct)) rest t later,
    )
