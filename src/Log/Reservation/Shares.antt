-- ===== src/Log/Reservation/Shares.antt =====
-- Lists of shares of the log.
use hitsz_ext.Base.{ℕ, suc, ◌+◌, ◌*◌, ◌≤◌, ◌≡◌, refl, ap, List, [], ◌∷◌, ◌++◌, length, arith}
use hitsz_ext.Machine.{max_op_blocks}

abbrev pub total : List ℕ → ℕ
total [] = 0
total (n ∷ ns) = n + total ns

pub total-insert : (xs ys : List ℕ) (n : ℕ) → total (xs ++ n ∷ ys) ≡ n + total (xs ++ ys)
total-insert [] ys n = refl
total-insert (x ∷ xs) ys n = omega (arith, total-insert xs ys n)

pub length-insert : (xs ys : List ℕ) (n : ℕ) → length (xs ++ n ∷ ys) ≡ suc (length (xs ++ ys))
length-insert [] ys n = refl
length-insert (x ∷ xs) ys n = ap suc (length-insert xs ys n)

abbrev pub AreFair : List ℕ → Type 0
AreFair [] = Unit
AreFair (n ∷ ns) = (n ≤ max_op_blocks) × AreFair ns

pub total_bound : (ns : List ℕ) → AreFair ns → total ns ≤ length ns * max_op_blocks
total_bound [] f = omega arith
total_bound (n ∷ ns) (h, f) = omega (arith, total_bound ns f)

pub AreFair-replace :
    (xs ys : List ℕ) (m n : ℕ) → n ≤ m → AreFair (xs ++ m ∷ ys) → AreFair (xs ++ n ∷ ys)
AreFair-replace [] ys m n le (h, f) = (omega arith, f)
AreFair-replace (x ∷ xs) ys m n le (h, f) = (h, AreFair-replace xs ys m n le f)

pub AreFair-remove : (xs ys : List ℕ) (m : ℕ) → AreFair (xs ++ m ∷ ys) → AreFair (xs ++ ys)
AreFair-remove [] ys m (h, f) = f
AreFair-remove (x ∷ xs) ys m (h, f) = (h, AreFair-remove xs ys m f)
