-- ===== src/Mkfs/Table.antt =====
-- Which blocks the inodes of the image refer to, while mkfs gives them out in order.
use hitsz_ext.Base.{
  ℕ, ◌+◌, ◌*◌, ◌^◌, ◌<◌, ◌≤◌, ◌≡◌, ◌≢◌, ◌⊎◌, refl, arith, inl, inr, ◌∙◌, sym, subst, Bool-cases,
  ◌==◌, if◌then◌else◌, ne→==, eq→==, ==→eq,
}
use hitsz_ext.Bytes.{Data, zeroes, get32, put32}
use hitsz_ext.Bytes.RoundTrip.{get32-put32_self, get32-put32_ne}

-- The block addresses of each inode: 12 direct ones, and in slot 12 that of the indirect block.
abbrev pub Table : Type 0
Table = ℕ → ℕ → ℕ

-- Inodes 0 to 207 lie in the blocks 32 to 44.
abbrev pub max_inode : ℕ
max_inode = 208

-- A word that is 0, or refers to a data block that is given out and is no inode's indirect block.
abbrev pub IsSlot : Table → ℕ → ℕ → Type 0
IsSlot a used v = (v ≡ 0) ⊎ ((46 ≤ v) × (v < used) × ((i : ℕ) → i < max_inode → a i 12 ≢ v))

pub record Placed (f : ℕ → Data) (a : Table) (used : ℕ) : Type 0 where
  pub low : 46 ≤ used
  pub direct : (i k : ℕ) → i < max_inode → k < 12 → IsSlot a used (a i k)
  pub pointer : (i : ℕ) → i < max_inode → (a i 12 ≡ 0) ⊎ ((46 ≤ a i 12) × (a i 12 < used))
  pub entry :
      (i j : ℕ) → i < max_inode → j < 256 → a i 12 ≢ 0 → IsSlot a used (get32 (f (a i 12)) (4 * j))
  pub fresh : (b : ℕ) → used ≤ b → f b ≡ zeroes

-- The table in which one inode has other addresses.
abbrev pub row : Table → ℕ → (ℕ → ℕ) → Table
row a inum r i = if i == inum then r else a i

abbrev pub with_word : (ℕ → ℕ) → ℕ → ℕ → ℕ → ℕ
with_word r k v j = if j == k then v else r j

abbrev pub with_block : (ℕ → Data) → ℕ → Data → ℕ → Data
with_block f x d n = if n == x then d else f n

-- A data block that is no indirect block may be written.
pub Placed-with_block :
    {f : ℕ → Data} {a : Table} {used : ℕ}
    → Placed f a used
    → (x : ℕ) (d : Data) → x < used
    → ((i : ℕ) → i < max_inode → a i 12 ≢ x)
    → Placed (with_block f x d) a used
Placed-with_block p x d lt apart = record {
  low = p.low;
  direct = p.direct;
  pointer = p.pointer;
  entry = λ i j li lj pos. rw (ne→== _ x (apart i li)) (p.entry i j li lj pos);
  fresh = λ b le. rw (ne→== b x (omega arith)) (p.fresh b le);
}

-- The indirect blocks of `b` are those of `a`, but for some that are gone and some that are new.
abbrev pub Follows : Table → ℕ → Table → Type 0
Follows a used b = (i : ℕ) → i < max_inode → (b i 12 ≡ a i 12) ⊎ ((b i 12 ≡ 0) ⊎ (b i 12 ≡ used))

pub IsSlot-Follows :
    (a : Table) (used : ℕ) (b : Table) (used' v : ℕ)
    → Follows a used b
    → used ≤ used'
    → IsSlot a used v
    → IsSlot b used' v
IsSlot-Follows a used b used' v h le (inl e) = inl e
IsSlot-Follows a used b used' v h le (inr (lo, hi, apart)) = inr (
  lo,
  omega arith,
  λ i li e. elim (h i li) [
    | inl same ↦ apart i li (sym same ∙ e)
    | inr (inl gone) ↦ omega arith
    | inr (inr new) ↦ omega arith
  ],
)

pub get32-zeroes : (o : ℕ) → get32 zeroes o ≡ 0
unfolding get32
get32-zeroes o = omega arith

-- Another table, with the direct slots in order.
Placed-Follows :
    {f : ℕ → Data} {a : Table} {used : ℕ}
    → Placed f a used
    → (b : Table) (used' : ℕ) → used ≤ used'
    → Follows a used b
    → ((i : ℕ) → i < max_inode → b i 12 ≡ used → used < used')
    → ((i k : ℕ) → i < max_inode → k < 12 → IsSlot b used' (b i k))
    → Placed f b used'
Placed-Follows {f} {a} {used} p b used' le h room direct = record {
  low = omega (arith, p.low);
  direct = direct;
  pointer = λ i li. elim (h i li) [
    | inl same ↦ elim (p.pointer i li) [
      | inl null ↦ inl (same ∙ null)
      | inr (lo, hi) ↦ inr (omega arith, omega arith)
    ]
    | inr (inl gone) ↦ inl gone
    | inr (inr new) ↦ inr (omega (arith, p.low), omega (arith, room i li new))
  ];
  entry = λ i j li lj pos. elim (h i li) [
    | inl same ↦
        rw same
          (IsSlot-Follows a used b used' _ h le (p.entry i j li lj (λ null. pos (same ∙ null))))
    | inr (inl gone) ↦ absurd (pos gone)
    | inr (inr new) ↦ inl (rw (new, p.fresh used (omega arith)) (get32-zeroes (4 * j)))
  ];
  fresh = λ b le'. p.fresh b (omega arith);
}

-- A direct slot takes the next block.
pub Placed-direct :
    {f : ℕ → Data} {a : Table} {used : ℕ}
    → Placed f a used
    → (b : Table) → ((i : ℕ) → i < max_inode → b i 12 ≡ a i 12)
    → ((i k : ℕ) → i < max_inode → k < 12 → (b i k ≡ a i k) ⊎ (b i k ≡ used))
    → Placed f b (used + 1)
Placed-direct {f} {a} {used} p b same given =
    let h : Follows a used b = λ i li. inl (same i li) in
    Placed-Follows p b (used + 1) (omega arith) h (λ i li e. omega arith)
      (λ i k li lk. elim (given i k li lk) [
        | inl old ↦
            rw old (IsSlot-Follows a used b (used + 1) _ h (omega arith) (p.direct i k li lk))
        | inr new ↦ rw new (
            inr (
              p.low,
              omega arith,
              λ j lj e. elim (p.pointer j lj) [
                | inl null ↦ omega (arith, same j lj, p.low)
                | inr (lo, hi) ↦ omega (arith, same j lj)
              ],
            ))
      ])

-- Indirect blocks are new or gone, and the direct slots kept or cleared.
pub Placed-pointer :
    {f : ℕ → Data} {a : Table} {used : ℕ}
    → Placed f a used
    → (b : Table) → Follows a used b
    → ((i k : ℕ) → i < max_inode → k < 12 → (b i k ≡ a i k) ⊎ (b i k ≡ 0))
    → Placed f b (used + 1)
Placed-pointer {f} {a} {used} p b h given =
    Placed-Follows p b (used + 1) (omega arith) h (λ i li e. omega arith)
      (λ i k li lk. elim (given i k li lk) [
        | inl old ↦
            rw old (IsSlot-Follows a used b (used + 1) _ h (omega arith) (p.direct i k li lk))
        | inr null ↦ inl null
      ])

-- An inode is cleared.
pub Placed-clear :
    {f : ℕ → Data} {a : Table} {used : ℕ}
    → Placed f a used
    → (b : Table) → ((i k : ℕ) → i < max_inode → k < 13 → (b i k ≡ a i k) ⊎ (b i k ≡ 0))
    → Placed f b used
Placed-clear {f} {a} {used} p b given =
    let h : Follows a used b = λ i li. elim (given i 12 li (omega arith)) [
      | inl old ↦ inl old
      | inr null ↦ inr (inl null)
    ] in
    Placed-Follows p b used (omega arith) h
      (λ i li e. elim (given i 12 li (omega arith)) [
        | inl old ↦ elim (p.pointer i li) [
          | inl null ↦ omega (arith, p.low)
          | inr (lo, hi) ↦ omega arith
        ]
        | inr null ↦ omega (arith, p.low)
      ])
      (λ i k li lk. elim (given i k li (omega arith)) [
        | inl old ↦ rw old (IsSlot-Follows a used b used _ h (omega arith) (p.direct i k li lk))
        | inr null ↦ inl null
      ])

pub pointer_lt :
    {f : ℕ → Data} {a : Table} {used : ℕ}
    → Placed f a used
    → (i : ℕ) → i < max_inode
    → a i 12 < used
pointer_lt p i li = elim (p.pointer i li) [ inl null ↦ omega (arith, p.low) | inr (lo, hi) ↦ hi ]

-- A word of an indirect block takes the next block.
pub Placed-entry :
    {f : ℕ → Data} {a : Table} {used : ℕ}
    → Placed f a used
    → (n j : ℕ) → n < max_inode
    → j < 256
    → used < 2 ^ 32
    → Placed (with_block f (a n 12) (put32 (f (a n 12)) (4 * j) used)) a (used + 1)
Placed-entry {f} {a} {used} p n j ln lj small =
    let ind : ℕ = a n 12 in
    let h : Follows a used a = λ i li. inl refl in
    let later : (v : ℕ) → IsSlot a used v → IsSlot a (used + 1) v =
      λ v. IsSlot-Follows a used a (used + 1) v h (omega arith) in
    record {
      low = omega (arith, p.low);
      direct = λ i k li lk. later _ (p.direct i k li lk);
      pointer = λ i li. elim (p.pointer i li) [
        | inl null ↦ inl null
        | inr (lo, hi) ↦ inr (lo, omega arith)
      ];
      entry = λ i k li lk pos. elim (Bool-cases (a i 12 == ind)) [
        | inl same ↦ rw same (elim (Bool-cases (k == j)) [
          | inl here ↦
              rw (==→eq k j here, get32-put32_self (f ind) (4 * j) used small)
                (inr (p.low, omega arith, λ m lm e. omega (arith, pointer_lt p m lm)))
          | inr there ↦ rw (get32-put32_ne (f ind) (4 * j) (4 * k) used (ground arith)) (
              later _ (
                subst (λ b. IsSlot a used (get32 (f b) (4 * k))) (==→eq (a i 12) ind same)
                  (p.entry i k li lk pos)))
        ])
        | inr other ↦ rw other (later _ (p.entry i k li lk pos))
      ];
      fresh = λ b le. rw (ne→== b ind (omega (arith, pointer_lt p n ln))) (p.fresh b (omega arith));
    }

pub row_self : (a : Table) (inum : ℕ) (r : ℕ → ℕ) → row a inum r inum ≡ r
row_self a inum r = rw (eq→== inum inum refl) refl

pub row_word_cases :
    (a : Table) (inum : ℕ) (r : ℕ → ℕ) (k v i j : ℕ)
    → (row a inum (with_word r k v) i j ≡ row a inum r i j) ⊎ (row a inum (with_word r k v) i j ≡ v)
row_word_cases a inum r k v i j = elim (Bool-cases (i == inum)) [
  | inl here ↦ elim (Bool-cases (j == k)) [
    | inl hit ↦ inr (rw (here, hit) refl)
    | inr miss ↦ inl (rw (here, miss) refl)
  ]
  | inr there ↦ inl (rw there refl)
]

pub row_word_ne :
    (a : Table) (inum : ℕ) (r : ℕ → ℕ) (k v i j : ℕ)
    → j ≢ k
    → row a inum (with_word r k v) i j ≡ row a inum r i j
row_word_ne a inum r k v i j ne = elim (Bool-cases (i == inum)) [
  | inl here ↦ rw (here, ne→== j k ne) refl
  | inr there ↦ rw there refl
]
