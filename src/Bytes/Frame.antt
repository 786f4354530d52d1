-- ===== src/Bytes/Frame.antt =====
-- The bytes that a store leaves alone, and the words over them.
use hitsz_ext.Base.{
  ℕ, zero, suc, ◌+◌, ◌*◌, ◌<◌, ◌≤◌, ◌≡◌, refl, ◌⊎◌, arith, ◌==◌, if◌then◌else◌, ne→==, ap, ◌∙◌,
  fun_ext,
}
use hitsz_ext.Bytes.{Data, get16, get32, put16, put32, put_words, get_words}

-- The byte `p` is none of the `n` bytes from `o` on.
abbrev pub Clear : ℕ → ℕ → ℕ → Type 0
Clear o n p = (p < o) ⊎ (o + n ≤ p)

pub put16_ne : (d : Data) (o v p : ℕ) → Clear o 2 p → put16 d o v p ≡ d p
unfolding put16
put16_ne d o v p h = rw (ne→== p o (omega arith), ne→== p (o + 1) (omega arith))

pub put32_ne : (d : Data) (o v p : ℕ) → Clear o 4 p → put32 d o v p ≡ d p
unfolding put32
put32_ne d o v p h = rw (
  ne→== p o (omega arith),
  ne→== p (o + 1) (omega arith),
  ne→== p (o + 2) (omega arith),
  ne→== p (o + 3) (omega arith),
)

pub put_words_ne :
    (n : ℕ) (d : Data) (o : ℕ) (a : ℕ → ℕ) (p : ℕ) → Clear o (4 * n) p → put_words n d o a p ≡ d p
unfolding put_words
put_words_ne zero d o a p h = refl
put_words_ne (suc n) d o a p h =
    put32_ne (put_words n d o a) (o + 4 * n) (a n) p (omega arith)
    ∙ put_words_ne n d o a p (omega arith)

-- Equal bytes make equal words.
pub get16_cong :
    (d e : Data) (o : ℕ) → ((p : ℕ) → o ≤ p → p < o + 2 → d p ≡ e p) → get16 d o ≡ get16 e o
unfolding get16
get16_cong d e o h = rw (h o (omega arith) (omega arith), h (o + 1) (omega arith) (omega arith))

pub get32_cong :
    (d e : Data) (o : ℕ) → ((p : ℕ) → o ≤ p → p < o + 4 → d p ≡ e p) → get32 d o ≡ get32 e o
unfolding get32
get32_cong d e o h = rw (
  h o (omega arith) (omega arith),
  h (o + 1) (omega arith) (omega arith),
  h (o + 2) (omega arith) (omega arith),
  h (o + 3) (omega arith) (omega arith),
)

get_words_at :
    (n : ℕ) (d e : Data) (o : ℕ) (a : ℕ → ℕ)
    → ((p : ℕ) → o ≤ p → p < o + 4 * n → d p ≡ e p)
    → (i : ℕ) → get_words n d o a i ≡ get_words n e o a i
unfolding get_words
get_words_at zero d e o a h i = refl
get_words_at (suc n) d e o a h i =
    ap (λ t. if i == n then t else get_words n d o a i)
      (get32_cong d e (o + 4 * n) (λ p lo hi. h p (omega arith) (omega arith)))
    ∙ ap (λ t. if i == n then get32 e (o + 4 * n) else t)
        (get_words_at n d e o a (λ p lo hi. h p (omega arith) (omega arith)) i)

pub get_words_cong :
    (n : ℕ) (d e : Data) (o : ℕ) (a : ℕ → ℕ)
    → ((p : ℕ) → o ≤ p → p < o + 4 * n → d p ≡ e p)
    → get_words n d o a ≡ get_words n e o a
get_words_cong n d e o a h = fun_ext (get_words_at n d e o a h)
