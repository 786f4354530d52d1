-- ===== src/Pipe/Queue.antt =====
-- A pipe as the queue of the bytes between its two counters, which wrap at 2 ^ 32.
use hitsz_ext.Base.{
  ℕ, zero, suc, ◌+◌, ◌-◌, ◌%◌, ◌^◌, ◌<◌, ◌≤◌, ◌≡◌, refl, List, [], ◌∷◌, ◌++◌, ◌==◌, inc32, u32,
  length, eq→==, ne→==, arith, ap, ap₂, ◌∙◌,
}
use hitsz_ext.Machine.{pipesize, Pipe}
use hitsz_ext.Log.{set_at}
use hitsz_ext.Pipe.{is_full, is_empty, put_byte, skip_byte, front_byte}

-- The number of bytes in the pipe, and the bytes, the oldest first.
abbrev pub held_bytes : Pipe → ℕ
held_bytes p = (p.nwrite + (2 ^ 32 - p.nread)) % 2 ^ 32

unfoldable pub window : (ℕ → ℕ) → ℕ → ℕ → List ℕ
window buf h zero = []
window buf h (suc n) = buf (h % pipesize) ∷ window buf (inc32 h) n

unfoldable pub contents : Pipe → List ℕ
contents p = window p.buf p.nread (held_bytes p)

pub record IsValid (p : Pipe) : Type 0 where
  pub nread : p.nread < 2 ^ 32
  pub nwrite : p.nwrite < 2 ^ 32
  pub bounded : held_bytes p ≤ pipesize

length-window : (buf : ℕ → ℕ) (h n : ℕ) → length (window buf h n) ≡ n
unfolding window
length-window buf h zero = refl
length-window buf h (suc n) = ap suc (length-window buf (inc32 h) n)

pub length-contents : (p : Pipe) → length (contents p) ≡ held_bytes p
unfolding contents
length-contents p = length-window p.buf p.nread (held_bytes p)

-- A byte stored just past the window extends it.
window-set_at :
    (buf : ℕ → ℕ) (c n h i : ℕ)
    → h < 2 ^ 32
    → n < pipesize
    → i ≡ (h + n) % 2 ^ 32 % pipesize
    → window (set_at buf i c) h (suc n) ≡ window buf h n ++ c ∷ []
unfolding window inc32
window-set_at buf c zero h i lh ln e = ap (λ x. x ∷ []) (rw (eq→== (h % pipesize) i (omega arith)))
window-set_at buf c (suc n) h i lh ln e =
    ap₂ ◌∷◌ (rw (ne→== (h % pipesize) i (omega arith)))
      (window-set_at buf c n ((h + 1) % 2 ^ 32) i (omega arith) (omega arith) (omega arith))

window_cong : (buf : ℕ → ℕ) (h n m : ℕ) → n ≡ m → window buf h n ≡ window buf h m
window_cong buf h n m e = ap (window buf h) e

module _ (p : Pipe) (v : IsValid p) where
  pub held-put_byte :
      (c : ℕ) → held_bytes p < pipesize → held_bytes (put_byte p c) ≡ held_bytes p + 1
  unfolding put_byte inc32
  held-put_byte c room = omega arith

  pub put_byte-IsValid : (c : ℕ) → held_bytes p < pipesize → IsValid (put_byte p c)
  unfolding put_byte inc32
  put_byte-IsValid c room = omega arith

  pub contents-put_byte :
      (c : ℕ) → held_bytes p < pipesize → contents (put_byte p c) ≡ contents p ++ c ∷ []
  unfolding contents put_byte inc32
  contents-put_byte c room =
      window_cong _ p.nread _ (suc (held_bytes p)) (omega arith)
      ∙ window-set_at p.buf c (held_bytes p) p.nread (p.nwrite % pipesize) v.nread room
          (omega arith)

  pub skip_byte-IsValid : 0 < held_bytes p → IsValid (skip_byte p)
  unfolding skip_byte inc32
  skip_byte-IsValid some_held = omega arith

  pub held-skip_byte : 0 < held_bytes p → held_bytes (skip_byte p) + 1 ≡ held_bytes p
  unfolding skip_byte inc32
  held-skip_byte some_held = omega arith

  pub contents-skip_byte : 0 < held_bytes p → contents p ≡ front_byte p ∷ contents (skip_byte p)
  unfolding contents skip_byte window
  contents-skip_byte some_held =
      window_cong p.buf p.nread (held_bytes p) (suc (held_bytes (skip_byte p)))
        (omega (arith, held-skip_byte some_held))

  -- The tests of the code.
  pub is_full_iff : is_full p ≡ (held_bytes p == pipesize)
  unfolding u32
  is_full_iff = ground arith

  pub is_empty_iff : is_empty p ≡ (held_bytes p == 0)
  is_empty_iff = ground arith
