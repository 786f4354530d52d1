-- ===== src/PathName/Elements.antt =====
-- skipelem of src/fs.cxx against the path split at its slashes.
use hitsz_ext.Base.{
  ℕ, zero, suc, ◌<◌, ◌≤◌, ◌≡◌, refl, true, false, List, [], ◌∷◌, if◌then◌else◌, length, inl, inr,
  Bool-cases, arith, ap, subst, ◌∙◌, sym,
}
use hitsz_ext.Machine.{case_null}
use hitsz_ext.Dir.{Chars}
use hitsz_ext.PathName.{
  FilePath, is_slash, skip_slashes, head_of, after_head, name_buffer, first_elem, skipelem,
}

-- The parts between the slashes, the empty ones included.
abbrev pub extend_first : ℕ → List FilePath → List FilePath
extend_first c [] = (c ∷ []) ∷ []
extend_first c (e ∷ es) = (c ∷ e) ∷ es

unfoldable pub segments : FilePath → List FilePath
segments [] = [] ∷ []
segments (c ∷ p) = if is_slash c then [] ∷ segments p else extend_first c (segments p)

abbrev pub keep_nonempty : List FilePath → List FilePath
keep_nonempty [] = []
keep_nonempty ([] ∷ es) = keep_nonempty es
keep_nonempty ((c ∷ e) ∷ es) = (c ∷ e) ∷ keep_nonempty es

-- The elements of a path: the parts that are not empty.
abbrev pub elements : FilePath → List FilePath
elements p = keep_nonempty (segments p)

abbrev pub name_buffers : List FilePath → List Chars
name_buffers [] = []
name_buffers (e ∷ es) = name_buffer e ∷ name_buffers es

-- The names that up to `fuel` calls of skipelem give, each on what the one before left.
unfoldable pub names : ℕ → FilePath → List Chars
names zero p = []
names (suc fuel) p = case_null (skipelem p) [] (λ (name, rest). name ∷ names fuel rest)

elements_slash : (c : ℕ) (p : FilePath) → is_slash c ≡ true → elements (c ∷ p) ≡ elements p
unfolding segments
elements_slash c p e = rw e refl

elements-skip_slashes : (p : FilePath) → elements (skip_slashes p) ≡ elements p
unfolding skip_slashes
elements-skip_slashes [] = refl
elements-skip_slashes (c ∷ p) = elim (Bool-cases (is_slash c)) [
  | inl e ↦ rw e (elements-skip_slashes p ∙ sym (elements_slash c p e))
  | inr e ↦ rw e refl
]

segments_head :
    (p : FilePath)
    → (es : List FilePath) × (segments p ≡ head_of p ∷ es)
      × (keep_nonempty es ≡ elements (after_head p))
unfolding segments head_of after_head
segments_head [] = ([], refl, refl)
segments_head (c ∷ p) = elim (Bool-cases (is_slash c)) [
  | inl e ↦ (segments p, rw e refl, rw e (sym (elements_slash c p e)))
  | inr e ↦ let (es, q, r) = segments_head p in (es, rw e (ap (extend_first c) q), rw e r)
]

elements_cons :
    (c : ℕ) (p : FilePath)
    → is_slash c ≡ false
    → elements (c ∷ p) ≡ head_of (c ∷ p) ∷ elements (after_head (c ∷ p))
unfolding head_of
elements_cons c p e =
    let (es, q, r) = segments_head (c ∷ p) in
    ap keep_nonempty q ∙ (rw e (ap (λ l. (c ∷ head_of p) ∷ l) r))

length-skip_slashes : (p : FilePath) → length (skip_slashes p) ≤ length p
unfolding skip_slashes
length-skip_slashes [] = omega arith
length-skip_slashes (c ∷ p) = elim (Bool-cases (is_slash c)) [
  | inl e ↦ rw e (omega (arith, length-skip_slashes p))
  | inr e ↦ rw e (omega arith)
]

length-after_head : (p : FilePath) → length (after_head p) ≤ length p
unfolding after_head
length-after_head [] = omega arith
length-after_head (c ∷ p) = elim (Bool-cases (is_slash c)) [
  | inl e ↦ rw e (omega arith)
  | inr e ↦ rw e (omega (arith, length-after_head p))
]

-- What is left of a path after its leading slashes starts with another byte, or is empty.
starts_apart : (p : FilePath) (c : ℕ) (q : FilePath) → skip_slashes p ≡ c ∷ q → is_slash c ≡ false
unfolding skip_slashes
starts_apart [] c q e = cc
starts_apart (d ∷ p) c q e = elim (Bool-cases (is_slash d)) [
  | inl f ↦ starts_apart p c q (rw f at e)
  | inr f ↦ apart f (rw f at e)
]
  where
    apart : is_slash d ≡ false → d ∷ p ≡ c ∷ q → is_slash c ≡ false
    apart f r = cc

shrinks : (c : ℕ) (q : FilePath) → is_slash c ≡ false → length (after_head (c ∷ q)) < suc (length q)
unfolding after_head
shrinks c q e = rw e (omega (arith, length-after_head q))

names_step :
    (fuel : ℕ) (p : FilePath) (c : ℕ) (q : FilePath)
    → skip_slashes p ≡ c ∷ q
    → names (suc fuel) p
      ≡ name_buffer (head_of (c ∷ q)) ∷ names fuel (skip_slashes (after_head (c ∷ q)))
unfolding names skipelem first_elem
names_step fuel p c q e =
    ap (λ r. case_null (first_elem r) [] (λ (name, rest). name ∷ names fuel rest)) e

names_end : (fuel : ℕ) (p : FilePath) → skip_slashes p ≡ [] → names (suc fuel) p ≡ []
unfolding names skipelem first_elem
names_end fuel p e =
    ap (λ r. case_null (first_elem r) [] (λ (name, rest). name ∷ names fuel rest)) e

by_head :
    (fuel : ℕ) (p : FilePath)
    → length p < suc fuel
    → ((q : FilePath) → length q < fuel → names fuel q ≡ name_buffers (elements q))
    → (r : FilePath) → skip_slashes p ≡ r
    → names (suc fuel) p ≡ name_buffers (elements p)
unfolding segments
by_head fuel p h later [] e =
    names_end fuel p e ∙ ap name_buffers (sym (ap elements e) ∙ elements-skip_slashes p)
by_head fuel p h later (c ∷ q) e =
    let apart : is_slash c ≡ false = starts_apart p c q e in
    let l : length (c ∷ q) ≤ length p =
      subst (λ r. length r ≤ length p) e (length-skip_slashes p) in
    let tail : FilePath = after_head (c ∷ q) in
    let shorter : length (skip_slashes tail) < fuel =
      omega (arith, l, length-skip_slashes tail, shrinks c q apart) in
    names_step fuel p c q e
    ∙ ap (λ k. name_buffer (head_of (c ∷ q)) ∷ k) (later (skip_slashes tail) shorter)
    ∙ ap (λ k. name_buffer (head_of (c ∷ q)) ∷ name_buffers k) (elements-skip_slashes tail)
    ∙ ap name_buffers
        (sym (elements_cons c q apart) ∙ sym (ap elements e) ∙ elements-skip_slashes p)

-- skipelem called again and again, on what each call leaves, gives the non-empty parts of the path
-- between its slashes, in order, each as it is kept in the buffer of DIRSIZ bytes, and then reports the
-- end of the path; more calls than the path has bytes are enough.
pub names-elements :
    (fuel : ℕ) (p : FilePath) → length p < fuel → names fuel p ≡ name_buffers (elements p)
names-elements zero p h = absurd (omega arith)
names-elements (suc fuel) p h = by_head fuel p h (names-elements fuel) (skip_slashes p) refl
