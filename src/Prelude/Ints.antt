-- ===== src/Prelude/Ints.antt =====
-- Integers over the native numbers, for differences that may be negative.
use Prim.Native.Nat.{ℕ, ◌-◌}
use vinezombie.Prelude.Tests.{leb, if◌then◌else◌}

pub data ℤ : Type 0 where
  pos negsuc : ℕ → ℤ

-- The difference of two numbers.
abbrev pub difference : ℕ → ℕ → ℤ
difference a b = if leb b a then pos (a - b) else negsuc (b - a - 1)
