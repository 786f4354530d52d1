-- ===== src/Content/Grow/Loop.antt =====
-- The loop of INode::write on a file of direct blocks, with the blocks that it allocates.
use hitsz_ext.Base.{
  ℕ, zero, suc, ◌+◌, ◌-◌, ◌*◌, ◌/◌, ◌<◌, ◌≤◌, ◌≡◌, refl, Bool, some, List, [], ◌==◌, ltb, length,
  take, drop, inl, inr, eq→==, Bool-cases, ==→eq, u32_small, arith, ap, ◌∙◌, sym, subst,
}
use hitsz_ext.Machine.{bsize, ndirect, put_self, INode, Sys, ok}
use hitsz_ext.Bitmap.Map.{FreeMap}
use hitsz_ext.Content.{chunk, block_map, write_loop}
use hitsz_ext.Content.Splice.{length-take, length-drop}
use hitsz_ext.Content.Write.{Enough, Enough-left}
use hitsz_ext.Content.Grow.{DirectFile, Grown, with_addrs}
use hitsz_ext.Content.Grow.Block.{Grown-alloc, block_map_old, block_map_new}
use hitsz_ext.INodeCache.{with_inode}
use hitsz_ext.Log.{set_at}
use hitsz_ext.Transaction.{changed, at, Tx, HasRoom}
use hitsz_ext.Content.Grow.Round.{
  Outcome, Grown-nothing, nothing_stored, combine, after_store, round,
}

-- What the loop does with `fuel` rounds. It has `r` blocks to reach, with at most three entries of the
-- log for each: the free map's, and two for the block itself.
abbrev pub LoopGrows : (ℕ → Bool) → ℕ → ℕ → Type 0
LoopGrows busy i fuel =
    (s : Sys)
    → Tx busy s
    → FreeMap busy s
    → (ip : INode) → s.inodes (at s i) ≡ some ip
    → (n : ℕ) → DirectFile busy s i ip.dinode n
    → (off : ℕ) (src : List ℕ) (r : ℕ) → HasRoom s.log (3 * r)
    → length src ≤ fuel
    → off ≤ n * bsize
    → off + length src ≤ ndirect * bsize
    → Enough off (length src) r
    → Outcome busy s i ip n off src (3 * r) (write_loop (at s i) fuel off src s)

-- A round and what the rest of the loop does.
go_on :
    {busy : ℕ → Bool} {s u : Sys} (i fuel : ℕ) (ip ip' : INode) (n n' off k : ℕ) (src : List ℕ)
    (r : ℕ)
    → LoopGrows busy i fuel
    → k ≤ 2
    → Grown busy s i ip n off [] k ip' n' u
    → u.inodes (at u i) ≡ some ip'
    → off / bsize < n'
    → block_map (at u i) (off / bsize) s ≡ ok (ip'.dinode.addrs (off / bsize)) u
    → u.log.hdr.n ≤ s.log.hdr.n + k
    → s.log.hdr.n + 3 * r ≤ 30
    → s.log.hdr.n + 3 * r < u.log.size
    → 0 < length src
    → length src ≤ suc fuel
    → off + length src ≤ ndirect * bsize
    → Enough off (length src) r
    → Outcome busy s i ip n off src (3 * r) (write_loop (at u i) (suc fuel) off src s)
go_on {busy} {s} {u} i fuel ip ip' n n' off k src r later le g here inside mapped few fits room
      some_bytes enough_fuel end enough =
    let c : ℕ = chunk off (length src) in
    let left : length (drop c src) ≡ length src - c = length-drop c src in
    let (h, hi, first, runs) =
      round i ip ip' n n' off k src g here inside mapped
        (record { fits = omega arith; room = omega arith }) some_bytes in
    combine {u = after_store u ip' off (take c src) h} i ip ip' n n' off c src (k + 1) (3 * (r - 1))
      (3 * r) _ _ (omega arith) (omega arith) first
      (later (after_store u ip' off (take c src) h) first.tx first.map ip' here n' first.file
        (off + c) (drop c src) (r - 1) (record { fits = omega arith; room = omega arith })
        (omega (arith, left)) (omega (arith, first.covered, length-take c src))
        (omega (arith, left))
        (subst (λ q. Enough (off + c) q (r - 1)) (sym left)
          (Enough-left off (length src) r some_bytes enough)))
      (runs fuel)

pub write_loop_grow : (busy : ℕ → Bool) (i fuel : ℕ) → LoopGrows busy i fuel
unfolding write_loop
write_loop_grow busy i zero s tx m ip here n g off src r room few start fits enough =
    nothing_stored tx m i ip here n g off start src (3 * r) _ refl (inl (omega arith))
write_loop_grow busy i (suc fuel) s tx m ip here n g off src r room few start fits enough =
    elim (Bool-cases (length src == 0)) [
      | inl nothing ↦
          nothing_stored tx m i ip here n g off start src (3 * r) _ (rw nothing refl)
            (inl (==→eq (length src) 0 nothing))
      | inr more ↦ elim (Bool-cases (ltb (off / bsize) n)) [
        | inl inside ↦
            go_on i fuel ip ip n n off 0 src r (write_loop_grow busy i fuel) (omega arith)
              (Grown-nothing tx m i ip here n g off start 0) here (ground arith)
              (block_map_old tx i ip here n g (off / bsize) (ground arith)) (omega arith) room.fits
              room.room (ground arith) few fits enough
        | inr last ↦
            let last_block : off / bsize ≡ n = ground arith in
            let free_slot : n < ndirect = ground arith in
            elim (block_map_new tx i ip here n g m free_slot
              (record { fits = ground (arith, room.fits); room = ground (arith, room.room) })) [
                | inl (none_free, full) ↦
                    nothing_stored tx m i ip here n g off start src (3 * r) _
                      (rw more (
                        rw (u32_small (off / bsize) (omega arith))
                          (rw last_block (rw none_free refl))))
                      (inr full)
                | inr (b, k, e, mapped, a) ↦
                    let ip' : INode = with_addrs (set_at ip.dinode.addrs n b) ip in
                    let u : Sys = with_inode (changed s k e) (at s i) (some ip') in
                    let slot : ip'.dinode.addrs (off / bsize) ≡ b =
                      rw (eq→== (off / bsize) n last_block) refl in
                    go_on {u = u} i fuel ip ip' n (n + 1) off 2 src r (write_loop_grow busy i fuel)
                      (omega arith) (Grown-alloc m i ip n g off free_slot start a)
                      (put_self s.inodes (at s i) (some ip')) (omega arith)
                      (ap (λ q. block_map (at s i) q s) last_block
                        ∙ mapped
                        ∙ ap (λ q. ok q u) (sym slot))
                      a.entries room.fits room.room (ground arith) few fits enough
              ]
      ]
    ]
