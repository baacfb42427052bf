-- ===== src/Base/Ints.antt =====
-- `int64_t` values, as integers over the native numbers.
use Prim.Native.Nat.{ℕ, zero, suc}

pub data ℤ : Type 0 where
  pos : ℕ → ℤ
  negsuc : ℕ → ℤ

-- The integer `- n`.
abbrev pub neg : ℕ → ℤ
neg zero = pos zero
neg (suc n) = negsuc n

-- What an integer is above 0, and below it.
abbrev pub gain : ℤ → ℕ
gain (pos n) = n
gain (negsuc n) = zero

abbrev pub loss : ℤ → ℕ
loss (pos n) = zero
loss (negsuc n) = suc n
