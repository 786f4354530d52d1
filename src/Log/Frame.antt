-- ===== src/Log/Frame.antt =====
-- The functions of src/BlockCache.cxx, and those of src/Log.cxx that only move blocks, leave the static
-- members of class Log as they were.
use hitsz_ext.Base.{
  ℕ, zero, suc, ◌+◌, ◌≡◌, refl, Bool, true, false, if◌then◌else◌, inl, inr, Option-cases, subst,
  arith,
}
use hitsz_ext.Machine.{
  Key, Block, Sys, LogState, Run, ok, fault, M, and_then, ◌>>=◌, ◌>>◌, assert, pure,
}
use hitsz_ext.BlockCache.{
  load, store, posix_read, posix_write, block_get, block_read, block_write, drop_ref, block_release,
  block_pin, block_unpin,
}
use hitsz_ext.Log.{copy_block, write_head, write_log_one, write_log_loop, install_one, install_loop}

-- If the run returns, it leaves these static members.
abbrev pub LogIs : {A : Type 0} → LogState → Run A → Type 0
LogIs l (ok a t) = t.log ≡ l
LogIs l (fault e) = Unit

abbrev pub KeepsLog : {A : Type 0} → M A → Type 0
KeepsLog m = (s : Sys) → LogIs s.log (m s)

pub LogIs-and_then :
    {A B : Type 0} (l k : LogState) (r : Run A) (f : A → M B)
    → LogIs l r
    → ((a : A) (t : Sys) → t.log ≡ l → LogIs k (f a t))
    → LogIs k (and_then r f)
LogIs-and_then l k (ok a t) f e g = g a t e
LogIs-and_then l k (fault e) f u g = tt

pub KeepsLog-bind :
    {A B : Type 0} (m : M A) (f : A → M B)
    → KeepsLog m
    → ((a : A) → KeepsLog (f a))
    → KeepsLog (m >>= f)
KeepsLog-bind m f h g s =
    LogIs-and_then s.log s.log (m s) f (h s) (λ a t e. subst (λ l. LogIs l (f a t)) e (g a t))

KeepsLog-if :
    {A : Type 0} (b : Bool) (m n : M A) → KeepsLog m → KeepsLog n → KeepsLog (if b then m else n)
KeepsLog-if true m n h g = h
KeepsLog-if false m n h g = g

pure-KeepsLog : {A : Type 0} (a : A) → KeepsLog (pure a)
pure-KeepsLog a s = refl

pub assert-KeepsLog : (b : Bool) → KeepsLog (assert b)
assert-KeepsLog true s = refl
assert-KeepsLog false s = tt

load-KeepsLog : (k : Key) → KeepsLog (load k)
unfolding load
load-KeepsLog k s = elim (Option-cases (s.blocks k)) [
  | inl e ↦ rw (e, LogIs) tt
  | inr (b, e) ↦ rw (e, LogIs) refl
]

store-KeepsLog : (k : Key) (b : Block) → KeepsLog (store k b)
unfolding store
store-KeepsLog k b s = elim (Option-cases (s.blocks k)) [
  | inl e ↦ rw (e, LogIs) tt
  | inr (c, e) ↦ rw (e, LogIs) refl
]

block_get-KeepsLog : (d n : ℕ) → KeepsLog (block_get d n)
unfolding block_get
block_get-KeepsLog d n s = ground arith

posix_read-KeepsLog : (k : Key) → KeepsLog (posix_read k)
unfolding posix_read
posix_read-KeepsLog k = KeepsLog-bind _ _ (load-KeepsLog k) (λ b s. store-KeepsLog k _ s)

posix_write-KeepsLog : (k : Key) → KeepsLog (posix_write k)
unfolding posix_write
posix_write-KeepsLog k = KeepsLog-bind _ _ (load-KeepsLog k) (λ b s. refl)

pub block_read-KeepsLog : (d n : ℕ) → KeepsLog (block_read d n)
unfolding block_read
block_read-KeepsLog d n = KeepsLog-bind _ _ (block_get-KeepsLog d n) (λ k.
    KeepsLog-bind _ _ (load-KeepsLog k) (λ b.
      KeepsLog-bind _ _
        (KeepsLog-if b.valid _ _ (pure-KeepsLog tt) (
          KeepsLog-bind _ _ (posix_read-KeepsLog k)
            (λ _. KeepsLog-bind _ _ (load-KeepsLog k) (λ c. store-KeepsLog k _))))
        (λ _.
          KeepsLog-bind _ _ (load-KeepsLog k)
            (λ c. KeepsLog-bind _ _ (assert-KeepsLog c.locked) (λ _. pure-KeepsLog k)))))

pub block_write-KeepsLog : (k : Key) → KeepsLog (block_write k)
unfolding block_write
block_write-KeepsLog k =
    KeepsLog-bind _ _ (load-KeepsLog k)
      (λ b. KeepsLog-bind _ _ (assert-KeepsLog b.locked) (λ _. posix_write-KeepsLog k))

pub block_release-KeepsLog : (k : Key) → KeepsLog (block_release k)
unfolding block_release drop_ref
block_release-KeepsLog k = KeepsLog-bind _ _ (load-KeepsLog k) (λ b.
    KeepsLog-bind _ _ (assert-KeepsLog b.locked) (λ _.
      KeepsLog-bind _ _ (store-KeepsLog k _)
        (λ _. KeepsLog-bind _ _ (load-KeepsLog k) (λ c s. refl))))

pub block_pin-KeepsLog : (k : Key) → KeepsLog (block_pin k)
unfolding block_pin
block_pin-KeepsLog k = KeepsLog-bind _ _ (load-KeepsLog k) (λ b. store-KeepsLog k _)

block_unpin-KeepsLog : (k : Key) → KeepsLog (block_unpin k)
unfolding block_unpin
block_unpin-KeepsLog k = KeepsLog-bind _ _ (load-KeepsLog k) (λ b. store-KeepsLog k _)

copy_block-KeepsLog : (k j : Key) → KeepsLog (copy_block k j)
unfolding copy_block
copy_block-KeepsLog k j =
    KeepsLog-bind _ _ (load-KeepsLog j)
      (λ a. KeepsLog-bind _ _ (load-KeepsLog k) (λ b. store-KeepsLog k _))

pub write_head-KeepsLog : KeepsLog write_head
unfolding write_head
write_head-KeepsLog s =
    KeepsLog-bind _ _ (block_read-KeepsLog s.log.dev s.log.start)
      (λ k. KeepsLog-bind _ _ (load-KeepsLog k) (λ b.
        KeepsLog-bind _ _ (store-KeepsLog k _)
          (λ _. KeepsLog-bind _ _ (block_write-KeepsLog k) (λ _. block_release-KeepsLog k))))
      s

-- Two blocks of which one is copied and written.
pair_copy-KeepsLog :
    (a b : Key) → KeepsLog (do copy_block a b; block_write a; block_release b; block_release a)
pair_copy-KeepsLog a b = KeepsLog-bind _ _ (copy_block-KeepsLog a b) (λ _.
    KeepsLog-bind _ _ (block_write-KeepsLog a)
      (λ _. KeepsLog-bind _ _ (block_release-KeepsLog b) (λ _. block_release-KeepsLog a)))

write_log_one-KeepsLog : (tail : ℕ) → KeepsLog (write_log_one tail)
unfolding write_log_one
write_log_one-KeepsLog tail s =
    KeepsLog-bind _ _ (block_read-KeepsLog s.log.dev _)
      (λ a. KeepsLog-bind _ _ (block_read-KeepsLog s.log.dev _) (λ b. pair_copy-KeepsLog a b)) s

pub write_log_loop-KeepsLog : (k tail : ℕ) → KeepsLog (write_log_loop k tail)
unfolding write_log_loop
write_log_loop-KeepsLog zero tail = pure-KeepsLog tt
write_log_loop-KeepsLog (suc k) tail =
    KeepsLog-bind _ _ (write_log_one-KeepsLog tail) (λ _. write_log_loop-KeepsLog k (tail + 1))

install_one-KeepsLog : (tail : ℕ) → KeepsLog (install_one tail)
unfolding install_one
install_one-KeepsLog tail s =
    KeepsLog-bind _ _ (block_read-KeepsLog s.log.dev _)
      (λ a. KeepsLog-bind _ _ (block_read-KeepsLog s.log.dev _) (λ b.
        KeepsLog-bind _ _ (copy_block-KeepsLog b a) (λ _.
          KeepsLog-bind _ _ (block_write-KeepsLog b) (λ _.
            KeepsLog-bind _ _ (block_unpin-KeepsLog b) (λ _.
              KeepsLog-bind _ _ (block_release-KeepsLog a) (λ _. block_release-KeepsLog b))))))
      s

pub install_loop-KeepsLog : (k tail : ℕ) → KeepsLog (install_loop k tail)
unfolding install_loop
install_loop-KeepsLog zero tail = pure-KeepsLog tt
install_loop-KeepsLog (suc k) tail =
    KeepsLog-bind _ _ (install_one-KeepsLog tail) (λ _. install_loop-KeepsLog k (tail + 1))
