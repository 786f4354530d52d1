-- ===== src/Content/Splice.antt =====
-- Bytes put into a sequence, and what is read there.
use hitsz_ext.Base.{
  ℕ, zero, suc, ◌+◌, ◌-◌, ◌<◌, ◌≤◌, ◌≡◌, ◌⊎◌, refl, List, [], ◌∷◌, ltb, length, take, drop, get_or,
  min, eq→==, ne→==, inl, inr, Bool-cases, arith, ap, ap₂, ◌∙◌, sym,
}
use hitsz_ext.Bytes.{Data}
use hitsz_ext.Content.{slice, splice}

pub length-take : (n : ℕ) (cs : List ℕ) → length (take n cs) ≡ min n (length cs)
length-take zero cs = omega arith
length-take (suc n) [] = omega arith
length-take (suc n) (c ∷ cs) = omega (arith, length-take n cs)

pub length-drop : (n : ℕ) (cs : List ℕ) → length (drop n cs) ≡ length cs - n
length-drop zero cs = omega arith
length-drop (suc n) [] = omega arith
length-drop (suc n) (c ∷ cs) = omega (arith, length-drop n cs)

get_or-take : (cs : List ℕ) (n j : ℕ) → j < n → get_or (take n cs) j 0 ≡ get_or cs j 0
get_or-take cs zero j h = absurd (omega arith)
get_or-take [] (suc n) j h = refl
get_or-take (c ∷ cs) (suc n) zero h = refl
get_or-take (c ∷ cs) (suc n) (suc j) h = get_or-take cs n j (omega arith)

get_or-drop : (cs : List ℕ) (n j : ℕ) → get_or (drop n cs) j 0 ≡ get_or cs (n + j) 0
get_or-drop cs zero j = ap (λ k. get_or cs k 0) (omega arith)
get_or-drop [] (suc n) j = refl
get_or-drop (c ∷ cs) (suc n) j =
    let regroup : suc (n + j) ≡ suc n + j = omega arith in
    get_or-drop cs n j ∙ ap (λ k. get_or (c ∷ cs) k 0) regroup

-- Outside the stored bytes nothing changes.
pub splice_out :
    (d : Data) (o : ℕ) (cs : List ℕ) (i : ℕ) → (i < o) ⊎ (o + length cs ≤ i) → splice d o cs i ≡ d i
unfolding splice
splice_out d o [] i h = refl
splice_out d o (c ∷ cs) i h = rw (ne→== i o (omega arith)) (splice_out d (o + 1) cs i (omega arith))

pub splice_in :
    (d : Data) (o : ℕ) (cs : List ℕ) (j : ℕ) → j < length cs → splice d o cs (o + j) ≡ get_or cs j 0
unfolding splice
splice_in d o [] j h = absurd (omega arith)
splice_in d o (c ∷ cs) zero h = rw (eq→== (o + 0) o (omega arith)) refl
splice_in d o (c ∷ cs) (suc j) h =
    let regroup : o + suc j ≡ o + 1 + j = omega arith in
    rw (ne→== (o + suc j) o (omega arith))
      (ap (splice d (o + 1) cs) regroup ∙ splice_in d (o + 1) cs j (omega arith))

-- Where an index lies with respect to stored bytes.
pub place : (o n i : ℕ) → ((i < o) ⊎ (o + n ≤ i)) ⊎ ((j : ℕ) × (j < n) × (i ≡ o + j))
place o n i = elim (Bool-cases (ltb i o)) [
  | inl h ↦ inl (ground arith)
  | inr h ↦ elim (Bool-cases (ltb i (o + n))) [
    | inl g ↦ inr (i - o, ground arith, ground arith)
    | inr g ↦ inl (ground arith)
  ]
]

-- To store bytes is to store the first of them and then the others.
pub splice_split :
    (d : Data) (o n : ℕ) (cs : List ℕ) (i : ℕ)
    → n ≤ length cs
    → splice d o cs i ≡ splice (splice d o (take n cs)) (o + n) (drop n cs) i
splice_split d o n cs i h = elim (place o (length cs) i) [
  | inl out ↦
      splice_out d o cs i out
      ∙ sym (
          splice_out (splice d o (take n cs)) (o + n) (drop n cs) i
            (omega (arith, out, length-drop n cs))
          ∙ splice_out d o (take n cs) i (omega (arith, out, length-take n cs)))
  | inr (j, lt, e) ↦
      ap (splice d o cs) e
      ∙ splice_in d o cs j lt
      ∙ sym (elim (Bool-cases (ltb j n)) [
        | inl early ↦
            let first : j < n = ground arith in
            splice_out (splice d o (take n cs)) (o + n) (drop n cs) i (omega (arith, e))
            ∙ ap (splice d o (take n cs)) e
            ∙ splice_in d o (take n cs) j (omega (arith, length-take n cs))
            ∙ get_or-take cs n j first
        | inr late ↦
            let past : n ≤ j = ground arith in
            let there : i ≡ o + n + (j - n) = omega arith in
            let back : n + (j - n) ≡ j = omega arith in
            ap (splice (splice d o (take n cs)) (o + n) (drop n cs)) there
            ∙ splice_in (splice d o (take n cs)) (o + n) (drop n cs) (j - n)
                (omega (arith, length-drop n cs))
            ∙ get_or-drop cs n (j - n)
            ∙ ap (λ k. get_or cs k 0) back
      ])
]

-- Bytes are read back where they were stored.
pub slice_stored :
    (f : Data) (o : ℕ) (cs : List ℕ)
    → ((j : ℕ) → j < length cs → f (o + j) ≡ get_or cs j 0)
    → slice f o (length cs) ≡ cs
unfolding slice
slice_stored f o [] h = refl
slice_stored f o (c ∷ cs) h =
    let here : o ≡ o + 0 = omega arith in
    ap₂ ◌∷◌ (ap f here ∙ h 0 (omega arith)) (
      slice_stored f (o + 1) cs (λ j lt.
        let next : o + 1 + j ≡ o + suc j = omega arith in ap f next ∙ h (suc j) (omega arith)))
