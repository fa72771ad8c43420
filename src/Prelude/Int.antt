-- ===== src/Prelude/Int.antt =====
-- The integers that a query can give for a page, over the native numbers.
use mathlib.Core.Path.{◌≡◌}
use Prim.Native.Nat.{ℕ, zero, suc, ◌*◌}

-- `negsuc n` is -(n + 1).
pub data ℤ : Type 0 where
  pos : ℕ → ℤ
  negsuc : ℕ → ℤ

-- x - 1
abbrev pub pred_ℤ : ℤ → ℤ
pred_ℤ (pos zero) = negsuc 0
pred_ℤ (pos (suc n)) = pos n
pred_ℤ (negsuc n) = negsuc (suc n)

-- -n, of a number
abbrev pub neg : ℕ → ℤ
neg zero = pos 0
neg (suc n) = negsuc n

infixl 70 ◌*ℤ◌
abbrev pub ◌*ℤ◌ : ℤ → ℤ → ℤ
pos m *ℤ pos n = pos (m * n)
pos m *ℤ negsuc n = neg (m * suc n)
negsuc m *ℤ pos n = neg (suc m * n)
negsuc m *ℤ negsuc n = pos (suc m * suc n)

pub pos-inj : {m n : ℕ} → pos m ≡ pos n → m ≡ n
pos-inj h = cc
