-- ===== src/PathName/Names.antt =====
-- The comparison of dirlookup between a name from skipelem and a name that dirlink stored.
use hitsz_ext.Base.{
  ℕ, zero, suc, ◌<◌, ◌≤◌, ◌≡◌, refl, inl, inr, Bool, true, false, ◌&&◌, none, some, [], ◌∷◌, ◌++◌,
  ◌==◌, leb, if◌then◌else◌, length, take, le→leb, eq→==, ne→==, Bool-cases, arith, ap, ◌∙◌,
}
use hitsz_ext.Machine.{dirsiz}
use hitsz_ext.Dir.{Chars, strcmp, zeros, strncpy}
use hitsz_ext.PathName.{FilePath, name_buffer}

abbrev pub NoZero : FilePath → Type 0
NoZero [] = Unit
NoZero (c ∷ e) = (0 < c) × NoZero e

-- Equality of two elements of a path.
abbrev pub same_name : FilePath → FilePath → Bool
same_name [] [] = true
same_name [] (d ∷ f) = false
same_name (c ∷ e) [] = false
same_name (c ∷ e) (d ∷ f) = c == d && same_name e f

strcmp_cons :
    (c d : ℕ) (a b : Chars)
    → 0 < c
    → strcmp (c ∷ a) (d ∷ b) ≡ (if c == d then strcmp a b else some false)
unfolding strcmp
strcmp_cons c d a b h = λ i.
    if c == d then (if ne→== c 0 (omega arith) i then some true else strcmp a b) else some false

strncpy_cons : (n c : ℕ) (e : Chars) → 0 < c → strncpy (suc n) (c ∷ e) ≡ c ∷ strncpy n e
unfolding strncpy
strncpy_cons n c e h = λ i. if ne→== c 0 (omega arith) i then 0 ∷ zeros n else c ∷ strncpy n e

compare_stored :
    (n : ℕ) (e f : FilePath)
    → NoZero e
    → NoZero f
    → length f < n
    → strcmp (e ++ 0 ∷ []) (strncpy n (f ++ 0 ∷ [])) ≡ some (same_name e f)
unfolding strncpy strcmp
compare_stored zero e f p q h = absurd (omega arith)
compare_stored (suc n) [] [] p q h = refl
compare_stored (suc n) [] (d ∷ f) p (d_pos, q) h =
    ap (strcmp (0 ∷ [])) (strncpy_cons n d (f ++ 0 ∷ []) d_pos)
    ∙ (λ i. if ne→== 0 d (omega arith) i then some true else some false)
compare_stored (suc n) (c ∷ e) [] (c_pos, p) q h =
    strcmp_cons c 0 (e ++ 0 ∷ []) (zeros n) c_pos
    ∙ (λ i. if ne→== c 0 (omega arith) i then strcmp (e ++ 0 ∷ []) (zeros n) else some false)
compare_stored (suc n) (c ∷ e) (d ∷ f) (c_pos, p) (d_pos, q) h =
    ap (strcmp (c ∷ e ++ 0 ∷ [])) (strncpy_cons n d (f ++ 0 ∷ []) d_pos)
    ∙ strcmp_cons c d (e ++ 0 ∷ []) (strncpy n (f ++ 0 ∷ [])) c_pos
    ∙ ap (λ r. if c == d then r else some false) (compare_stored n e f p q (omega arith))
    ∙ elim (Bool-cases (c == d)) [ inl t ↦ rw t refl | inr t ↦ rw t refl ]

short_buffer : (e : FilePath) → length e < dirsiz → name_buffer e ≡ e ++ 0 ∷ []
unfolding name_buffer
short_buffer e h = λ i. if off i then take dirsiz e else e ++ 0 ∷ []
  where
    off : leb dirsiz (length e) ≡ false
    off = ground arith

-- Of two names shorter than DIRSIZ bytes, without zero bytes, the comparison of the one that skipelem
-- gives with the other as dirlink stores it stays within the arrays and finds whether they are equal.
pub strcmp-stored :
    (e f : FilePath)
    → NoZero e
    → NoZero f
    → length e < dirsiz
    → length f < dirsiz
    → strcmp (name_buffer e) (strncpy dirsiz (name_buffer f)) ≡ some (same_name e f)
strcmp-stored e f p q le lf =
    (λ i. strcmp (short_buffer e le i) (strncpy dirsiz (short_buffer f lf i)))
    ∙ compare_stored dirsiz e f p q lf

runs_off :
    (n : ℕ) (e : FilePath)
    → NoZero e
    → n ≤ length e
    → strcmp (take n e) (strncpy n (take n e)) ≡ none
unfolding strcmp strncpy
runs_off zero e p h = refl
runs_off (suc n) [] p h = absurd (omega arith)
runs_off (suc n) (c ∷ e) (c_pos, p) h =
    ap (strcmp (c ∷ take n e)) (strncpy_cons n c (take n e) c_pos)
    ∙ strcmp_cons c c (take n e) (strncpy n (take n e)) c_pos
    ∙ (λ i. if eq→== c c refl i then runs_off n e p (omega arith) i else some false)

-- A name of DIRSIZ bytes or more, without zero bytes, compared with itself as dirlink stores it, makes
-- the comparison run off the ends of the arrays.
pub strcmp-stored_long :
    (e : FilePath)
    → NoZero e
    → dirsiz ≤ length e
    → strcmp (name_buffer e) (strncpy dirsiz (name_buffer e)) ≡ none
unfolding name_buffer
strcmp-stored_long e p h = (λ i. strcmp (cut i) (strncpy dirsiz (cut i))) ∙ runs_off dirsiz e p h
  where
    cut : (if leb dirsiz (length e) then take dirsiz e else e ++ 0 ∷ []) ≡ take dirsiz e
    cut = λ i. if le→leb dirsiz (length e) h i then take dirsiz e else e ++ 0 ∷ []
