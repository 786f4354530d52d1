-- ===== src/Bytes.antt =====
-- The bytes of a block, and the little-endian words that the casts of `data` to `uint16_t *`,
-- `uint32_t *` and to structures read and write.
pub mod RoundTrip
pub mod Frame
use hitsz_ext.Base.{ℕ, zero, suc, ◌+◌, ◌*◌, ◌/◌, ◌%◌, ◌==◌, ◌&&◌, leb, ltb, if◌then◌else◌, ◌-◌}

-- `uint8_t data[BSIZE]`, by offset. Only offsets below BSIZE are read or written.
abbrev pub Data : Type 0
Data = ℕ → ℕ

abbrev pub zeroes : Data
zeroes i = 0

unfoldable pub get16 : Data → ℕ → ℕ
get16 d o = d o + 256 * d (o + 1)

unfoldable pub get32 : Data → ℕ → ℕ
get32 d o = d o + 256 * d (o + 1) + 65536 * d (o + 2) + 16777216 * d (o + 3)

unfoldable pub put8 : Data → ℕ → ℕ → Data
put8 d o v i = if i == o then v % 256 else d i

unfoldable pub put16 : Data → ℕ → ℕ → Data
put16 d o v i = if i == o then v % 256 else (if i == o + 1 then v / 256 % 256 else d i)

unfoldable pub put32 : Data → ℕ → ℕ → Data
put32 d o v i =
    if i == o
    then v % 256
    else (if i == o + 1
        then v / 256 % 256
        else (if i == o + 2
            then v / 65536 % 256
            else (if i == o + 3 then v / 16777216 % 256 else d i)))

-- `a[0..n)` stored from offset `o` on, and an array with its first `n` words read from there.
unfoldable pub put_words : ℕ → Data → ℕ → (ℕ → ℕ) → Data
put_words zero d o a = d
put_words (suc n) d o a = put32 (put_words n d o a) (o + 4 * n) (a n)

unfoldable pub get_words : ℕ → Data → ℕ → (ℕ → ℕ) → ℕ → ℕ
get_words zero d o a i = a i
get_words (suc n) d o a i = if i == n then get32 d (o + 4 * n) else get_words n d o a i

-- `memset(data + o, 0, n)`.
unfoldable pub clear : Data → ℕ → ℕ → Data
clear d o n i = if leb o i && ltb i (o + n) then 0 else d i
