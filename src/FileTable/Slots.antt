-- ===== src/FileTable/Slots.antt =====
-- Which slot `ofile_alloc` gives, and the counting of references.
use hitsz_ext.Base.{
  ℕ, zero, suc, ◌+◌, ◌<◌, ◌≤◌, ◌^◌, ◌≡◌, ◌≢◌, ◌⊎◌, none, sym, refl, inl, inr, true, false, some,
  ◌==◌, if◌then◌else◌, inc32, arith, ap, ◌∙◌, fun_ext, Bool-cases, ==→eq, eq→==, le→leb, lt→ltb,
  dec32-inc32, inc32_small,
}
use hitsz_ext.Machine.{nfile, FdType, fd_none, fd_pipe, fd_inode, fd_device, OFile, Pipe, Sys, ok}
use hitsz_ext.FileTable.{
  is_none, set_file, first_free, load_file, store_file, ofile_alloc, ofile_dup, ofile_close,
  pipe_alloc, open_ends,
}

-- The search looks at the types alone.
first_free_cong :
    (a b : ℕ → OFile) (k i : ℕ)
    → ((g : ℕ) → (a g).type ≡ (b g).type)
    → first_free a k i ≡ first_free b k i
unfolding first_free
first_free_cong a b zero i h = refl
first_free_cong a b (suc k) i h = rw (h i, first_free_cong a b k (i + 1) h)

-- The slot `f` is the first of type FD_NONE among the `k` slots from `i` on.
pub record IsFirst (files : ℕ → OFile) (i k f : ℕ) : Type 0 where
  pub above : i ≤ f
  pub below : f < i + k
  pub free : (files f).type ≡ fd_none
  pub before : (g : ℕ) → i ≤ g → g < f → (files g).type ≢ fd_none

is_none-eq : (t : FdType) → is_none t ≡ true → t ≡ fd_none
is_none-eq fd_none h = refl
is_none-eq fd_pipe h = cc
is_none-eq fd_inode h = cc
is_none-eq fd_device h = cc

is_none-ne : (t : FdType) → is_none t ≡ false → t ≢ fd_none
is_none-ne t h e = no (sym h ∙ ap is_none e)
  where
    no : false ≡ true → ⊥
    no q = cc

eq-is_none : (t : FdType) → t ≡ fd_none → is_none t ≡ true
eq-is_none t e = ap is_none e

ne-is_none : (t : FdType) → t ≢ fd_none → is_none t ≡ false
ne-is_none fd_none ne = absurd (ne refl)
ne-is_none fd_pipe ne = refl
ne-is_none fd_inode ne = refl
ne-is_none fd_device ne = refl

-- The search finds the first slot that is free.
first_free_here :
    (files : ℕ → OFile) (k i f : ℕ) → IsFirst files i k f → first_free files k i ≡ some f
unfolding first_free
first_free_here files zero i f r = absurd (omega (arith, r.above, r.below))
first_free_here files (suc k) i f r = elim (Bool-cases (i == f)) [
  | inl same ↦
      let e : i ≡ f = ==→eq i f same in
      rw (eq-is_none (files i).type (ap (λ g. (files g).type) e ∙ r.free)) (ap some e)
  | inr other ↦
      let ne : i ≢ f = ground arith in
      rw (ne-is_none (files i).type (r.before i (omega arith) (omega (arith, r.above, ne)))) (
        first_free_here files k (i + 1) f (record {
          above = omega (arith, r.above, ne);
          below = omega (arith, r.below);
          free = r.free;
          before = λ g lo hi. r.before g (omega arith) hi;
        }))
]

-- There is a first slot that is free, or none is.
first_cases :
    (files : ℕ → OFile) (k i : ℕ)
    → ((first_free files k i ≡ none) × ((g : ℕ) → i ≤ g → g < i + k → (files g).type ≢ fd_none))
      ⊎ ((f : ℕ) × IsFirst files i k f)
unfolding first_free
first_cases files zero i = inl (refl, λ g lo hi. absurd (omega arith))
first_cases files (suc k) i = elim (Bool-cases (is_none (files i).type)) [
  | inl here ↦ inr (
    i,
    record {
      above = omega arith;
      below = omega arith;
      free = is_none-eq (files i).type here;
      before = λ g lo hi. absurd (omega arith);
    },
  )
  | inr taken ↦
      let used : (g : ℕ) → g ≡ i → (files g).type ≢ fd_none =
        λ g e q. is_none-ne (files i).type taken (ap (λ j. (files j).type) (sym e) ∙ q) in
      elim (first_cases files k (i + 1)) [
        | inl (fails, others) ↦ inl (
          rw taken fails,
          λ g lo hi. elim (Bool-cases (g == i)) [
            | inl same ↦ used g (==→eq g i same)
            | inr other ↦ others g (ground arith) (omega arith)
          ],
        )
        | inr (f, r) ↦ inr (
          f,
          record {
            above = omega (arith, r.above);
            below = omega (arith, r.below);
            free = r.free;
            before = λ g lo hi. elim (Bool-cases (g == i)) [
              | inl same ↦ used g (==→eq g i same)
              | inr other ↦ r.before g (ground arith) hi
            ];
          },
        )
      ]
]

-- The state after the slot `f` is given out.
abbrev pub marked : Sys → ℕ → Sys
marked s f = record s { files = set_file s.files f (record (s.files f) { ref = 1 }) }

module _ (s : Sys) (f : ℕ) (h : first_free s.files nfile 0 ≡ some f) where
  pub ofile_alloc-some : ofile_alloc s ≡ ok (some f) (marked s f)
  unfolding ofile_alloc store_file
  ofile_alloc-some = rw h

  type_marked : (g : ℕ) → ((marked s f).files g).type ≡ (s.files g).type
  type_marked g = elim (Bool-cases (g == f)) [ inl e ↦ rw (e, ==→eq g f e) | inr e ↦ rw e ]

  still_free : first_free (marked s f).files nfile 0 ≡ some f
  still_free = first_free_cong (marked s f).files s.files nfile 0 type_marked ∙ h

  marked_again : marked (marked s f) f ≡ marked s f
  marked_again =
      ap (λ m. record s { files = m })
        (fun_ext λ g. elim (Bool-cases (g == f)) [ inl e ↦ rw (e, eq→== f f refl) | inr e ↦ rw e ])

module _ (s : Sys) (f : ℕ) (h : first_free s.files nfile 0 ≡ some f) where
  second_alloc : ofile_alloc (marked s f) ≡ ok (some f) (marked s f)
  second_alloc =
      ofile_alloc-some (marked s f) f (still_free s f h) ∙ ap (ok (some f)) (marked_again s f h)

-- `ofile_alloc` gives the first of the NFILE slots whose type is FD_NONE, sets its count to 1 and
-- leaves its other fields, its type too, and the other slots as they were; if no slot has this type,
-- it returns a null pointer and changes nothing.
pub ofile_alloc-IsFirst :
    (s : Sys)
    → ((ofile_alloc s ≡ ok none s) × ((g : ℕ) → g < nfile → (s.files g).type ≢ fd_none))
      ⊎ ((f : ℕ) × IsFirst s.files 0 nfile f × (ofile_alloc s ≡ ok (some f) (marked s f)))
unfolding ofile_alloc
ofile_alloc-IsFirst s = elim (first_cases s.files nfile 0) [
  | inl (fails, taken) ↦ inl (rw fails refl, λ g lt. taken g (omega arith) (omega arith))
  | inr (f, r) ↦ inr (f, r, ofile_alloc-some s f (first_free_here s.files nfile 0 f r))
]

module _ (s : Sys) (f : ℕ) (r : IsFirst s.files 0 nfile f) where
  -- The table with the read end written over the write end.
  abbrev pub one_end : ℕ → OFile
  one_end a = record (s.files f) {
    ref = 1;
    type = fd_pipe;
    readable = true;
    writable = false;
    pipe = a;
  }

  -- If one of the NFILE slots of the table has the type FD_NONE, `Pipe::alloc` returns the first of
  -- them for both ends of the pipe, and that slot is then the read end.
  pub pipe_alloc-one_end :
      (a : ℕ) (new : Pipe)
      → (t : Sys) × (pipe_alloc a new s ≡ ok (some (f, f)) t) × (t.files f ≡ one_end a)
  unfolding pipe_alloc open_ends load_file store_file
  pipe_alloc-one_end a new =
      let h : first_free s.files nfile 0 ≡ some f = first_free_here s.files nfile 0 f r in
      let w : OFile = (marked s f).files f in
      let u : Sys = record (marked s f) {
        files =
            set_file (marked s f).files f
              (record w { type = fd_pipe; readable = false; writable = true; pipe = a });
      } in
      let v : Sys = record u {
        files =
            set_file u.files f
              (record (u.files f) { type = fd_pipe; readable = true; writable = false; pipe = a });
        pipes = λ b. if b == a then some new else u.pipes b;
      } in
      (v, rw (ofile_alloc-some s f h) (rw (second_alloc s f h)), rw (eq→== f f refl))

-- For a file with a reference, and fewer than 2 ^ 32 - 1 of them, `ofile_dup` counts one more, and
-- `ofile_close` then leaves everything as it was.
pub close-dup :
    (s : Sys) (f : ℕ)
    → 1 ≤ (s.files f).ref
    → (s.files f).ref + 1 < 2 ^ 32
    → (t : Sys) × (ofile_dup f s ≡ ok f t)
      × ((t.files f).ref ≡ (s.files f).ref + 1)
      × (ofile_close f t ≡ ok tt s)
unfolding ofile_dup ofile_close load_file store_file
close-dup s f lo hi =
    let o : OFile = s.files f in
    let t : Sys = record s { files = set_file s.files f (record o { ref = inc32 o.ref }) } in
    (
      t,
      rw (le→leb 1 o.ref lo),
      rw (eq→== f f refl) (inc32_small o.ref hi),
      rw (eq→== f f refl) (
          rw
            (
              le→leb 1 (inc32 o.ref) (omega (arith, inc32_small o.ref hi)),
              dec32-inc32 o.ref (omega arith),
            )
            (rw (lt→ltb 0 o.ref lo) (
              ap (λ m. ok tt (record s { files = m }))
                (fun_ext λ g. elim (Bool-cases (g == f)) [
                  | inl e ↦ rw (e, ==→eq g f e)
                  | inr e ↦ rw e
                ])))),
    )
