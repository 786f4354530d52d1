-- ===== src/Base/Ranges.antt =====
-- Facts about the numbers of a short range, by evaluation at each of them.
use Prim.Native.Nat.{ℕ, zero, suc, ◌+◌, ◌≤◌, ◌<◌}
use mathlib.Core.Path.{◌≡◌}
use mathlib.Core.Logic.{inl, inr}
use mathlib.Core.Bool.{Bool, true, false}
use native.Mathlib.Omega.{arith}
use hitsz_ext.Base.Tests.{◌==◌, if◌then◌else◌, Bool-cases, ==→eq}

-- The test holds at the `k` numbers from `i` on.
unfoldable pub holds_from : (ℕ → Bool) → ℕ → ℕ → Bool
holds_from test zero i = true
holds_from test (suc k) i = let later = holds_from test k (i + 1) in if test i then later else false

pub holds_from-at :
    (test : ℕ → Bool) (k i n : ℕ) → holds_from test k i ≡ true → i ≤ n → n < i + k → test n ≡ true
unfolding holds_from
holds_from-at test zero i n all lo hi = absurd (omega arith)
holds_from-at test (suc k) i n all lo hi = elim (Bool-cases (test i)) [
  | inl hit ↦ elim (Bool-cases (n == i)) [
    | inl here ↦ rw (==→eq n i here) hit
    | inr past ↦ holds_from-at test k (i + 1) n (rw hit at all) (ground arith) (omega arith)
  ]
  | inr miss ↦ absurd (refuted (rw miss at all))
]
  where
    refuted : false ≡ true → ⊥
    refuted q = cc
