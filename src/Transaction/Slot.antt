-- ===== src/Transaction/Slot.antt =====
-- The search of `log_write` for an entry.
use hitsz_ext.Base.{
  ℕ, zero, suc, ◌+◌, ◌<◌, ◌≤◌, ◌≡◌, ◌≢◌, inl, inr, Bool-cases, ◌==◌, ne→==, eq→==, ==→eq, arith,
  ◌∙◌, sym, fun_ext,
}
use hitsz_ext.Log.{find_slot, set_at}

module _ (a : ℕ → ℕ) (b : ℕ) where
  pub find_slot_none :
      (k i : ℕ) → ((j : ℕ) → i ≤ j → j < i + k → a j ≢ b) → find_slot k i a b ≡ i + k
  unfolding find_slot
  find_slot_none zero i h = omega arith
  find_slot_none (suc k) i h =
      rw (ne→== (a i) b (h i (omega arith) (omega arith)))
        (find_slot_none k (i + 1) (λ j lo hi. h j (omega arith) (omega arith)) ∙ omega arith)

  -- The only entry for `b` is found.
  pub find_slot_some :
      (k i j : ℕ)
      → i ≤ j
      → j < i + k
      → a j ≡ b
      → ((m : ℕ) → i ≤ m → m < j → a m ≢ b)
      → find_slot k i a b ≡ j
  unfolding find_slot
  find_slot_some zero i j lo hi e first = absurd (omega arith)
  find_slot_some (suc k) i j lo hi e first = elim (Bool-cases (i == j)) [
    | inl q ↦ rw (==→eq i j q, eq→== (a j) b e)
    | inr q ↦ rw (ne→== (a i) b (first i (omega arith) (ground arith))) (
        find_slot_some k (i + 1) j (ground arith) (omega arith) e
          (λ m p r. first m (omega arith) r))
  ]

pub set_at_same : (a : ℕ → ℕ) (i v : ℕ) → a i ≡ v → set_at a i v ≡ a
set_at_same a i v e =
    fun_ext
      λ j. elim (Bool-cases (j == i)) [ inl q ↦ rw q (rw (==→eq j i q) (sym e)) | inr q ↦ rw q ]
