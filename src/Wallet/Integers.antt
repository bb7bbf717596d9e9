-- ===== src/Wallet/Integers.antt =====
-- Whole numbers of either sign, over the native natural numbers.
use wh_api_unified_service.Prelude.{
  ◌+◌, ◌-◌, Bool, false, if◌then◌else◌, leb, ltb, suc, true, zero, ℕ,
}

pub data ℤ : Type 0 where
  pos negsuc : ℕ → ℤ

infixl 60 ◌+ℤ◌
abbrev pub ◌+ℤ◌ : ℤ → ℤ → ℤ
pos m +ℤ pos n = pos (m + n)
pos m +ℤ negsuc n = if ltb n m then pos (m - suc n) else negsuc (n - m)
negsuc m +ℤ pos n = if ltb m n then pos (n - suc m) else negsuc (m - n)
negsuc m +ℤ negsuc n = negsuc (suc (m + n))

abbrev pub is_negative : ℤ → Bool
is_negative (pos n) = false
is_negative (negsuc n) = true

-- `Math.abs(x)`
abbrev pub magnitude : ℤ → ℕ
magnitude (pos n) = n
magnitude (negsuc n) = suc n

-- `x >= n` for a natural number n.
abbrev pub at_least : ℕ → ℤ → Bool
at_least n (pos m) = leb n m
at_least n (negsuc m) = false

-- `x - n` for a natural number n.
abbrev pub minus : ℤ → ℕ → ℤ
minus x zero = x
minus x (suc n) = x +ℤ negsuc n
