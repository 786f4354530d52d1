-- ===== src/INodeCache/Held.antt =====
-- The references and the lock of a cached inode.
use hitsz_ext.Base.{
  ℕ, ◌+◌, ◌^◌, ◌<◌, ◌≤◌, ◌≡◌, refl, true, false, ◌&&◌, Option, none, some, ◌==◌, if◌then◌else◌,
  inc32, dec32, dec32-inc32, inc32_small, le→leb, ne→==, u16, arith, ap, ◌∙◌,
}
use hitsz_ext.Machine.{
  Key, key, put, put_self, put-put, put_same, INode, Sys, ok, fault, blocked, unlock_unheld,
}
use hitsz_ext.INode.{load_inode, store_inode, set_dinode, lock, unlock}
use hitsz_ext.INode.Update.{load_inode_lem}
use hitsz_ext.INodeCache.{inode_get, inode_put, drop_inode, with_inode, one_more, fresh_inode}
use hitsz_ext.PathName.{FilePath}
use hitsz_ext.Ops.Link.{link_file}

module _ (s : Sys) (k : Key) where
  load_with : (x : INode) → load_inode k (with_inode s k (some x)) ≡ ok x (with_inode s k (some x))
  load_with x = load_inode_lem (with_inode s k (some x)) k x (put_self s.inodes k (some x))

  store_with :
      (x y : INode) → store_inode k y (with_inode s k (some x)) ≡ ok tt (with_inode s k (some y))
  unfolding store_inode
  store_with x y = ap (λ m. ok tt (record s { inodes = m })) (put-put s.inodes k (some x) (some y))

  with_same : (v : Option INode) → s.inodes k ≡ v → with_inode s k v ≡ s
  with_same v e = ap (λ m. record s { inodes = m }) (put_same s.inodes k v e)

  drop_with :
      (x : INode) (v : Option INode)
      → (if dec32 x.ref == 0 then none else some (record x { ref = dec32 x.ref })) ≡ v
      → s.inodes k ≡ v
      → drop_inode k (with_inode s k (some x)) ≡ ok tt s
  unfolding drop_inode
  drop_with x v e h = rw (load_with x) (
      ap (λ m. ok tt (record s { inodes = m }))
        (put-put s.inodes k (some x) _ ∙ ap (put s.inodes k) e)
      ∙ ap (ok tt) (with_same v h))

  put_with :
      (x : INode) (v : Option INode)
      → (x.ref == 1 && x.valid && x.dinode.nlink == 0) ≡ false
      → (if dec32 x.ref == 0 then none else some (record x { ref = dec32 x.ref })) ≡ v
      → s.inodes k ≡ v
      → inode_put k (with_inode s k (some x)) ≡ ok tt s
  unfolding inode_put
  put_with x v keep e h = rw (load_with x) (rw keep (drop_with x v e h))

-- A cached inode has a reference, and one more can be counted.
abbrev pub Counted : Option INode → Type 0
Counted none = Unit
Counted (some ip) = (1 ≤ ip.ref) × (ip.ref + 1 < 2 ^ 32)

pub put_one_more :
    (s : Sys) (k : Key) (v : Option INode)
    → Counted v
    → s.inodes k ≡ v
    → inode_put k (with_inode s k (some (one_more v))) ≡ ok tt s
unfolding dec32
put_one_more s k none c e = put_with s k fresh_inode none refl refl e
put_one_more s k (some ip) (lo, hi) e =
    put_with s k (one_more (some ip)) (some ip)
      (λ i.
        ne→== (inc32 ip.ref) 1 (omega (arith, inc32_small ip.ref hi)) i
        && ip.valid
        && ip.dinode.nlink == 0)
      (ap (λ r. if r == 0 then none else some (record ip { ref = r }))
          (dec32-inc32 ip.ref (omega arith))
        ∙ (λ i. if ne→== ip.ref 0 (omega arith) i then none else some ip))
      e

-- inode_put after inode_get gives back the state from before, whether the inode was cached, with
-- at least one reference and fewer than 2 ^ 32 - 1, or not.
pub inode_put-inode_get :
    (s : Sys) (dev inum : ℕ)
    → Counted (s.inodes (key dev inum))
    → (t : Sys) × (inode_get dev inum s ≡ ok (key dev inum) t)
      × (inode_put (key dev inum) t ≡ ok tt s)
unfolding inode_get
inode_put-inode_get s dev inum c =
    let k : Key = key dev inum in
    (with_inode s k (some (one_more (s.inodes k))), refl, put_one_more s k (s.inodes k) c refl)

store_put : (s : Sys) (k : Key) (y : INode) → store_inode k y s ≡ ok tt (with_inode s k (some y))
unfolding store_inode
store_put s k y = refl

-- An inode that is not locked.
abbrev pub unlocked : INode → INode
unlocked ip = record ip { locked = false }

abbrev pub held_inode : INode → INode
held_inode ip = record ip { locked = true }

-- A cached inode with a reference, that is valid and not locked, is locked by `lock`, and not a second
-- time; `unlock` then gives back the state from before, and without `lock` its behaviour is undefined.
pub unlock-lock :
    (s : Sys) (k : Key) (ip : INode)
    → s.inodes k ≡ some (unlocked (record ip { valid = true }))
    → 1 ≤ ip.ref
    → (t : Sys) × (lock k s ≡ ok tt t)
      × (lock k t ≡ fault blocked)
      × (unlock k t ≡ ok tt s)
      × (unlock k s ≡ fault unlock_unheld)
unfolding lock unlock
unlock-lock s k ip here counted =
    let x : INode = unlocked (record ip { valid = true }) in
    let y : INode = held_inode x in
    (
      with_inode s k (some y),
      rw (load_inode_lem s k x here) (rw (le→leb 1 ip.ref counted) (rw (store_put s k y) refl)),
      rw (load_with s k y) (rw (le→leb 1 ip.ref counted) refl),
      rw (load_with s k y) (
          rw (le→leb 1 ip.ref counted)
            (rw (store_with s k y x) (ap (ok tt) (with_same s k (some x) here)))),
      rw (load_inode_lem s k x here) (rw (le→leb 1 ip.ref counted) refl),
    )

-- The second half of do_link, from `nlink++` on, at a locked inode with a reference, unlocks it twice,
-- whatever the new name.
pub link_file_unlocks_twice :
    (s : Sys) (k : Key) (ip : INode) (dest : FilePath)
    → s.inodes k ≡ some (held_inode ip)
    → 1 ≤ ip.ref
    → link_file dest k s ≡ fault unlock_unheld
unfolding link_file unlock set_dinode
link_file_unlocks_twice s k ip dest here counted =
    let w : INode = held_inode ip in
    let x : INode = record w { dinode = record ip.dinode { nlink = u16 (ip.dinode.nlink + 1) } } in
    let y : INode = unlocked x in
    rw (load_inode_lem s k w here) (
      rw (load_inode_lem s k w here) (
        rw (store_put s k x) (
          rw (load_with s k x) (
            rw (le→leb 1 ip.ref counted) (
              rw (store_with s k x y)
                (rw (load_with s k y) (rw (le→leb 1 ip.ref counted) refl)))))))
