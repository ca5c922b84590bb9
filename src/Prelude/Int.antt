-- ===== src/Prelude/Int.antt =====
-- The integers that the program uses as limits: a count, or -1 for "unlimited".
use Prim.Native.Nat.{ℕ, zero, suc}
use mathlib.Core.Bool.{Bool, true, false}
use grain_guard.Prelude.Tests.{ltb, leb}

-- `negsuc n` is -(n + 1).
pub data ℤ : Type 0 where
  pos : ℕ → ℤ
  negsuc : ℕ → ℤ

-- `limit === -1`
abbrev pub is_minus_one : ℤ → Bool
is_minus_one (pos n) = false
is_minus_one (negsuc zero) = true
is_minus_one (negsuc (suc n)) = false

-- `count >= limit`
abbrev pub reaches : ℕ → ℤ → Bool
reaches count (pos n) = leb n count
reaches count (negsuc n) = true

-- `count > limit`
abbrev pub exceeds : ℕ → ℤ → Bool
exceeds count (pos n) = ltb n count
exceeds count (negsuc n) = true
