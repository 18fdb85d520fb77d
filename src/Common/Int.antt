-- ===== src/Common/Int.antt =====
-- Signed arguments of the source's `int` parameters.
use Prim.Native.Nat.{ℕ, zero, suc, ◌<◌}
use native.Mathlib.Omega.{arith}

-- `negsuc n` is -(n + 1).
pub data ℤ : Type 0 where
  pos : ℕ → ℤ
  negsuc : ℕ → ℤ

-- `n > 0 ? n : fallback`
abbrev pub positive_or : ℤ → ℕ → ℕ
positive_or (pos zero) fallback = fallback
positive_or (pos (suc n)) fallback = suc n
positive_or (negsuc n) fallback = fallback

pub positive_or-lt : (n : ℤ) (fallback : ℕ) → 0 < fallback → 0 < positive_or n fallback
positive_or-lt (pos zero) fallback h = h
positive_or-lt (pos (suc n)) fallback h = omega arith
positive_or-lt (negsuc n) fallback h = h
