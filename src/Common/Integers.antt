-- ===== src/Common/Integers.antt =====
-- Python's integers that may be negative.
use Prim.Native.Nat.{ℕ, ◌-◌}
use package.spectracuda.Common.Tests.{leb, if◌then◌else◌}

pub data ℤ : Type 0 where
  pos negsuc : ℕ → ℤ

-- `a - b`, which may be negative
abbrev pub sub_ℕ : ℕ → ℕ → ℤ
sub_ℕ a b = if leb b a then pos (a - b) else negsuc (b - a - 1)
