-- ===== src/Bitmap/Bits.antt =====
-- Single bits of a block: `data[bi / 8] & m`, `|= m` and `&= ~m` for `m = 1 << (bi % 8)`.
use hitsz_ext.Base.{
  holds_from, holds_from-at, ℕ, ◌+◌, ◌-◌, ◌/◌, ◌%◌, ◌^◌, ◌<◌, ◌≡◌, ◌≢◌, refl, ◌⊎◌, inl, inr, Bool,
  true, ◌==◌, if◌then◌else◌, arith, Bool-cases, ==→eq, ne→==, eq→==, ◌∙◌, ap, sym,
}
use hitsz_ext.Bytes.{Data, put8}

unfoldable pub bit_at : Data → ℕ → ℕ
bit_at d bi = d (bi / 8) / 2 ^ (bi % 8) % 2

unfoldable pub set_bit : Data → ℕ → Data
set_bit d bi = if bit_at d bi == 0 then put8 d (bi / 8) (d (bi / 8) + 2 ^ (bi % 8)) else d

unfoldable pub clear_bit : Data → ℕ → Data
clear_bit d bi = if bit_at d bi == 0 then d else put8 d (bi / 8) (d (bi / 8) - 2 ^ (bi % 8))

-- Bits of single bytes, by evaluation.
abbrev bit : ℕ → ℕ → ℕ
bit x k = x / 2 ^ k % 2

abbrev set_ok : ℕ → ℕ → ℕ → Bool
set_ok x k m =
    if bit x k == 0 then bit ((x + 2 ^ k) % 256) m == (if m == k then 1 else bit x m) else true

abbrev clear_ok : ℕ → ℕ → ℕ → Bool
clear_ok x k m =
    if bit x k == 0 then true else bit ((x - 2 ^ k) % 256) m == (if m == k then 0 else bit x m)

abbrev each : (ℕ → ℕ → ℕ → Bool) → Bool
each p = holds_from (λ x. holds_from (λ k. holds_from (p x k) 8 0) 8 0) 256 0

set_table : each set_ok ≡ true
unfolding holds_from
set_table = refl

clear_table : each clear_ok ≡ true
unfolding holds_from
clear_table = refl

each_sound :
    (p : ℕ → ℕ → ℕ → Bool) (x k m : ℕ) → each p ≡ true → x < 256 → k < 8 → m < 8 → p x k m ≡ true
each_sound p x k m h lx lk lm =
    holds_from-at (p x k) 8 0 m
      (holds_from-at (λ k. holds_from (p x k) 8 0) 8 0 k
        (holds_from-at (λ x. holds_from (λ k. holds_from (p x k) 8 0) 8 0) 256 0 x h (omega arith)
          (omega arith))
        (omega arith) (omega arith))
      (omega arith) (omega arith)

put8_self : (d : Data) (o v : ℕ) → put8 d o v o ≡ v % 256
unfolding put8
put8_self d o v = rw (eq→== o o refl)

put8_ne : (d : Data) (o v i : ℕ) → i ≢ o → put8 d o v i ≡ d i
unfolding put8
put8_ne d o v i h = rw (ne→== i o h)

-- A change of a bit in a byte: `change` is checked by a table against `value`.
module _ (change : ℕ → ℕ → ℕ) (d : Data) (bi bj : ℕ) where
  abbrev changed : Data
  changed = put8 d (bi / 8) (change (d (bi / 8)) (2 ^ (bi % 8)))

  changed_apart : bj / 8 ≢ bi / 8 → bit_at changed bj ≡ bit_at d bj
  unfolding bit_at
  changed_apart h = rw (put8_ne d (bi / 8) _ (bj / 8) h)

  changed_within :
      bj / 8 ≡ bi / 8 → bit_at changed bj ≡ bit (change (d (bi / 8)) (2 ^ (bi % 8)) % 256) (bj % 8)
  unfolding bit_at
  changed_within h = rw (h, put8_self)

set_byte :
    (x k m : ℕ)
    → x < 256
    → k < 8
    → m < 8
    → bit x k ≡ 0
    → bit ((x + 2 ^ k) % 256) m ≡ (if m == k then 1 else bit x m)
set_byte x k m lx lk lm free = ==→eq _ _ (rw free at (each_sound set_ok x k m set_table lx lk lm))

clear_byte :
    (x k m : ℕ)
    → x < 256
    → k < 8
    → m < 8
    → bit x k ≡ 1
    → bit ((x - 2 ^ k) % 256) m ≡ (if m == k then 0 else bit x m)
clear_byte x k m lx lk lm used =
    ==→eq _ _ (rw used at (each_sound clear_ok x k m clear_table lx lk lm))

within : (bi bj : ℕ) → bj / 8 ≡ bi / 8 → (bj % 8 == bi % 8) ≡ (bj == bi)
within bi bj q = ground arith

module _ (d : Data) (bi bj : ℕ) (byte : d (bi / 8) < 256) where
  -- In a block of the map whose byte is below 256, setting a bit that is clear sets it and changes
  -- no other bit.
  pub bit_at-set_bit :
      bit_at d bi ≡ 0 → bit_at (set_bit d bi) bj ≡ (if bj == bi then 1 else bit_at d bj)
  unfolding set_bit bit_at
  bit_at-set_bit free = rw free (elim (Bool-cases (bj / 8 == bi / 8)) [
    | inl same ↦
        let q : bj / 8 ≡ bi / 8 = ==→eq (bj / 8) (bi / 8) same in
        changed_within ◌+◌ d bi bj q
        ∙ set_byte (d (bi / 8)) (bi % 8) (bj % 8) byte (omega arith) (omega arith) free
        ∙ ap (λ (t : Bool). if t then 1 else bit (d (bi / 8)) (bj % 8)) (within bi bj q)
        ∙ ap (λ (x : ℕ). if bj == bi then 1 else bit (d x) (bj % 8)) (sym q)
    | inr apart ↦ changed_apart ◌+◌ d bi bj (ground arith) ∙ rw (ne→== bj bi (ground arith))
  ])

  -- In a block of the map whose byte is below 256, clearing a bit that is set clears it and
  -- changes no other bit.
  pub bit_at-clear_bit :
      bit_at d bi ≡ 1 → bit_at (clear_bit d bi) bj ≡ (if bj == bi then 0 else bit_at d bj)
  unfolding clear_bit bit_at
  bit_at-clear_bit used = rw used (elim (Bool-cases (bj / 8 == bi / 8)) [
    | inl same ↦
        let q : bj / 8 ≡ bi / 8 = ==→eq (bj / 8) (bi / 8) same in
        changed_within ◌-◌ d bi bj q
        ∙ clear_byte (d (bi / 8)) (bi % 8) (bj % 8) byte (omega arith) (omega arith) used
        ∙ ap (λ (t : Bool). if t then 0 else bit (d (bi / 8)) (bj % 8)) (within bi bj q)
        ∙ ap (λ (x : ℕ). if bj == bi then 0 else bit (d x) (bj % 8)) (sym q)
    | inr apart ↦ changed_apart ◌-◌ d bi bj (ground arith) ∙ rw (ne→== bj bi (ground arith))
  ])

pub set_bit-IsByte : (d : Data) (bi i : ℕ) → d i < 256 → set_bit d bi i < 256
unfolding set_bit put8
set_bit-IsByte d bi i byte = ground arith

pub clear_bit-IsByte : (d : Data) (bi i : ℕ) → d i < 256 → clear_bit d bi i < 256
unfolding clear_bit put8
clear_bit-IsByte d bi i byte = ground arith

pub bit_at_cases : (d : Data) (bi : ℕ) → (bit_at d bi ≡ 0) ⊎ (bit_at d bi ≡ 1)
unfolding bit_at
bit_at_cases d bi = omega arith
