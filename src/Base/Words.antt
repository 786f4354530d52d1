-- ===== src/Base/Words.antt =====
-- The wrap-around of `uint32_t` counters.
use Prim.Native.Nat.{ℕ, ◌+◌, ◌-◌, ◌%◌, ◌^◌, ◌<◌}
use mathlib.Core.Path.{◌≡◌}
use native.Mathlib.Omega.{arith}

-- A conversion to `uint32_t`, and one to `uint16_t`.
unfoldable pub u32 : ℕ → ℕ
u32 x = x % 2 ^ 32

unfoldable pub u16 : ℕ → ℕ
u16 x = x % 2 ^ 16

-- `x++` and `x--` of a `uint32_t`.
unfoldable pub inc32 : ℕ → ℕ
inc32 x = (x + 1) % 2 ^ 32

unfoldable pub dec32 : ℕ → ℕ
dec32 x = (x + (2 ^ 32 - 1)) % 2 ^ 32

pub u32_small : (x : ℕ) → x < 2 ^ 32 → u32 x ≡ x
unfolding u32
u32_small x h = omega arith

pub dec32-inc32 : (x : ℕ) → x < 2 ^ 32 → dec32 (inc32 x) ≡ x
unfolding dec32 inc32
dec32-inc32 x h = omega arith

pub inc32_small : (x : ℕ) → x + 1 < 2 ^ 32 → inc32 x ≡ x + 1
unfolding inc32
inc32_small x h = omega arith

pub dec32_pos : (x : ℕ) → 0 < x → x < 2 ^ 32 → dec32 x ≡ x - 1
unfolding dec32
dec32_pos x h small = omega arith
