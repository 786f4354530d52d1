-- ===== src/Log/Stores.antt =====
-- A run of stores of blocks, `g i` to the block `a i` for one `i` after the other, and what the
-- disk holds after it.
use hitsz_ext.Base.{
  ℕ, zero, suc, ◌≡◌, ◌≢◌, ◌+◌, ◌<◌, ◌≤◌, refl, List, ◌∷◌, ◌==◌, ◌⊎◌, arith, ◌∙◌, sym, ne→==, eq→==,
  Bool-cases, inl, inr, ==→eq,
}
use hitsz_ext.Bytes.{Data}
use hitsz_ext.Machine.{disk_at}

unfoldable pub stores : (ℕ → ℕ) → (ℕ → Data) → ℕ → ℕ → List (ℕ × Data) → List (ℕ × Data)
stores a g zero i ws = ws
stores a g (suc k) i ws = stores a g k (i + 1) ((a i, g i) ∷ ws)

module _ (image : ℕ → Data) where
  pub disk_at_ne :
      (m b : ℕ) (d : Data) (ws : List (ℕ × Data))
      → m ≢ b
      → disk_at image ((m, d) ∷ ws) b ≡ disk_at image ws b
  unfolding disk_at
  disk_at_ne m b d ws h = rw (ne→== m b h)

  pub disk_at_self : (b : ℕ) (d : Data) (ws : List (ℕ × Data)) → disk_at image ((b, d) ∷ ws) b ≡ d
  unfolding disk_at
  disk_at_self b d ws = rw (eq→== b b refl)

  module _ (a : ℕ → ℕ) (g : ℕ → Data) where
    pub disk_at-stores_ne :
        (k i : ℕ) (ws : List (ℕ × Data)) (b : ℕ)
        → ((j : ℕ) → i ≤ j → j < i + k → a j ≢ b)
        → disk_at image (stores a g k i ws) b ≡ disk_at image ws b
    unfolding stores
    disk_at-stores_ne zero i ws b h = refl
    disk_at-stores_ne (suc k) i ws b h =
        disk_at-stores_ne k (i + 1) ((a i, g i) ∷ ws) b (λ j p q. h j (omega arith) (omega arith))
        ∙ disk_at_ne (a i) b (g i) ws (h i (omega arith) (omega arith))

    -- Each block holds what was stored to it, if no two stores go to one block.
    pub disk_at-stores :
        (k i : ℕ) (ws : List (ℕ × Data)) (j : ℕ)
        → i ≤ j
        → j < i + k
        → ((p q : ℕ) → i ≤ p → p < i + k → i ≤ q → q < i + k → a p ≡ a q → p ≡ q)
        → disk_at image (stores a g k i ws) (a j) ≡ g j
    unfolding stores
    disk_at-stores zero i ws j lo hi inj = absurd (omega arith)
    disk_at-stores (suc k) i ws j lo hi inj = elim (Bool-cases (i == j)) [
      | inl e ↦ rw (← ==→eq i j e) (
          disk_at-stores_ne k (i + 1) ((a i, g i) ∷ ws) (a i) (λ m p q r.
            absurd
              (omega (arith, inj m i (omega arith) (omega arith) (omega arith) (omega arith) r)))
          ∙ disk_at_self (a i) (g i) ws)
      | inr ne ↦
          disk_at-stores k (i + 1) ((a i, g i) ∷ ws) j (ground arith) (omega arith)
            (λ p q p1 p2 q1 q2 e. inj p q (omega arith) (omega arith) (omega arith) (omega arith) e)
    ]

-- Equal contents are stored by equal runs.
pub stores_cong :
    (a b : ℕ → ℕ) (g h : ℕ → Data) (k i : ℕ) (ws : List (ℕ × Data))
    → ((j : ℕ) → i ≤ j → j < i + k → a j ≡ b j)
    → ((j : ℕ) → i ≤ j → j < i + k → g j ≡ h j)
    → stores a g k i ws ≡ stores b h k i ws
unfolding stores
stores_cong a b g h zero i ws e f = refl
stores_cong a b g h (suc k) i ws e f =
    rw (e i (omega arith) (omega arith), f i (omega arith) (omega arith))
      (stores_cong a b g h k (i + 1) _ (λ j p q. e j (omega arith) (omega arith))
        (λ j p q. f j (omega arith) (omega arith)))

-- A block is one of those stored to, or none of them.
is_among : (a : ℕ → ℕ) (k b : ℕ) → ((j : ℕ) → j < k → a j ≢ b) ⊎ ((j : ℕ) × (j < k) × (a j ≡ b))
is_among a zero b = inl (λ j h. absurd (omega arith))
is_among a (suc k) b = elim (is_among a k b) [
  | inr (j, lt, e) ↦ inr (j, omega arith, e)
  | inl no_j ↦ elim (Bool-cases (a k == b)) [
    | inl e ↦ inr (k, omega arith, ==→eq (a k) b e)
    | inr ne ↦ inl (λ j h q. elim (Bool-cases (j == k)) [
      | inl e ↦ ground (arith, ==→eq j k e)
      | inr d ↦ no_j j (ground arith) q
    ])
  ]
]

-- Stores that were cut off and are made again from the first have the effect of one run.
pub disk_at-stores_again :
    (image : ℕ → Data) (a : ℕ → ℕ) (g : ℕ → Data) (k j : ℕ) (ws : List (ℕ × Data)) (b : ℕ)
    → j ≤ k
    → ((p q : ℕ) → p < k → q < k → a p ≡ a q → p ≡ q)
    → disk_at image (stores a g k 0 (stores a g j 0 ws)) b ≡ disk_at image (stores a g k 0 ws) b
disk_at-stores_again image a g k j ws b le inj = elim (is_among a k b) [
  | inl not_b ↦
      disk_at-stores_ne image a g k 0 _ b (λ i lo hi. not_b i (omega arith))
      ∙ disk_at-stores_ne image a g j 0 ws b (λ i lo hi. not_b i (omega arith))
      ∙ sym (disk_at-stores_ne image a g k 0 ws b (λ i lo hi. not_b i (omega arith)))
  | inr (i, lt, e) ↦ rw (← e) (
      disk_at-stores image a g k 0 _ i (omega arith) (omega arith)
        (λ p q p1 p2 q1 q2 f. inj p q (omega arith) (omega arith) f)
      ∙ sym (
          disk_at-stores image a g k 0 ws i (omega arith) (omega arith)
            (λ p q p1 p2 q1 q2 f. inj p q (omega arith) (omega arith) f)))
]
