-- ===== src/Bytes/RoundTrip.antt =====
-- A word that is stored is read back, and leaves the other words alone.
use hitsz_ext.Base.{
  ℕ, zero, suc, ◌+◌, ◌*◌, ◌^◌, ◌<◌, ◌≤◌, ◌≡◌, refl, ◌∙◌, ◌⊎◌, inl, inr, arith, ◌==◌, Bool-cases,
  ne→==, ==→eq,
}
use hitsz_ext.Bytes.{Data, get16, get32, put16, put32, put_words, get_words}

pub get32-put32_self : (d : Data) (o v : ℕ) → v < 2 ^ 32 → get32 (put32 d o v) o ≡ v
unfolding get32 put32
get32-put32_self d o v h = ground arith

pub get16-put16_self : (d : Data) (o v : ℕ) → v < 2 ^ 16 → get16 (put16 d o v) o ≡ v
unfolding get16 put16
get16-put16_self d o v h = ground arith

-- Words at different places do not disturb one another.
pub get32-put32_ne :
    (d : Data) (o p v : ℕ) → (o + 4 ≤ p) ⊎ (p + 4 ≤ o) → get32 (put32 d o v) p ≡ get32 d p
unfolding get32 put32
get32-put32_ne d o p v h = rw (
  ne→== p o (omega arith),
  ne→== p (o + 1) (omega arith),
  ne→== p (o + 2) (omega arith),
  ne→== p (o + 3) (omega arith),
  ne→== (p + 1) o (omega arith),
  ne→== (p + 1) (o + 1) (omega arith),
  ne→== (p + 1) (o + 2) (omega arith),
  ne→== (p + 1) (o + 3) (omega arith),
  ne→== (p + 2) o (omega arith),
  ne→== (p + 2) (o + 1) (omega arith),
  ne→== (p + 2) (o + 2) (omega arith),
  ne→== (p + 2) (o + 3) (omega arith),
  ne→== (p + 3) o (omega arith),
  ne→== (p + 3) (o + 1) (omega arith),
  ne→== (p + 3) (o + 2) (omega arith),
  ne→== (p + 3) (o + 3) (omega arith),
)

pub get32-put_words :
    (n : ℕ) (d : Data) (o : ℕ) (a : ℕ → ℕ) (i : ℕ)
    → i < n
    → a i < 2 ^ 32
    → get32 (put_words n d o a) (o + 4 * i) ≡ a i
unfolding put_words
get32-put_words zero d o a i h small = absurd (omega arith)
get32-put_words (suc n) d o a i h small = elim (Bool-cases (i == n)) [
  | inl e ↦
      rw (==→eq i n e)
        (get32-put32_self (put_words n d o a) (o + 4 * n) (a n) (rw (← ==→eq i n e) small))
  | inr e ↦
      get32-put32_ne (put_words n d o a) (o + 4 * n) (o + 4 * i) (a n) (inr (ground arith))
      ∙ get32-put_words n d o a i (ground arith) small
]

-- The words below `o` are kept.
pub get32-put_words_below :
    (n : ℕ) (d : Data) (o : ℕ) (a : ℕ → ℕ) (p : ℕ)
    → p + 4 ≤ o
    → get32 (put_words n d o a) p ≡ get32 d p
unfolding put_words
get32-put_words_below zero d o a p h = refl
get32-put_words_below (suc n) d o a p h =
    get32-put32_ne (put_words n d o a) (o + 4 * n) p (a n) (inr (omega arith))
    ∙ get32-put_words_below n d o a p h

pub get_words-lt :
    (n : ℕ) (d : Data) (o : ℕ) (a : ℕ → ℕ) (i : ℕ)
    → i < n
    → get_words n d o a i ≡ get32 d (o + 4 * i)
unfolding get_words
get_words-lt zero d o a i h = absurd (omega arith)
get_words-lt (suc n) d o a i h = ground (arith, get_words-lt n d o a i)
