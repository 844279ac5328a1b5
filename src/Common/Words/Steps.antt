-- ===== src/Common/Words/Steps.antt =====
-- Python's `|` on numbers, one binary digit at a time.
use Prim.Native.Nat.{ℕ, zero, suc, ◌+◌, ◌*◌, ◌/◌, ◌%◌, ◌≤◌, max, digits, bit_or, bit_or-bitwise}
use mathlib.Core.Path.{◌≡◌, refl, ap, ◌∙◌}
use native.Mathlib.Omega.{arith}

abbrev or_digits : ℕ → ℕ → ℕ → ℕ
or_digits count a b = digits (λ y. y) max count a b

-- Digits beyond those of the first number change nothing.
or_digits-spare :
    (more count a b : ℕ) → count ≤ more → a ≤ count → or_digits more a b ≡ or_digits count a b
or_digits-spare zero zero a b g h = refl
or_digits-spare zero (suc count) a b g h = absurd (omega arith)
or_digits-spare (suc more) zero zero b g h = refl
or_digits-spare (suc more) zero (suc a) b g h = absurd (omega arith)
or_digits-spare (suc more) (suc count) zero b g h = refl
or_digits-spare (suc more) (suc count) (suc a) b g h =
    ap (λ (high : ℕ). high * 2 + max (suc a % 2) (b % 2))
      (or_digits-spare more count (suc a / 2) (b / 2) (omega arith) (omega arith))

pub bit_or_halves : (x y : ℕ) → bit_or x y ≡ max (x % 2) (y % 2) + bit_or (x / 2) (y / 2) * 2
bit_or_halves zero y = simp bit_or-bitwise (omega arith)
bit_or_halves (suc x) y = simp bit_or-bitwise (
    ap (λ (high : ℕ). high * 2 + max (suc x % 2) (y % 2))
      (or_digits-spare x (suc x / 2) (suc x / 2) (y / 2) (omega arith) (omega arith))
    ∙ omega arith)

or_digits-zero : (count a : ℕ) → a ≤ count → or_digits count a 0 ≡ a
or_digits-zero zero zero h = refl
or_digits-zero zero (suc a) h = absurd (omega arith)
or_digits-zero (suc count) zero h = refl
or_digits-zero (suc count) (suc a) h = omega (arith, or_digits-zero count (suc a / 2) (omega arith))

pub bit_or-zero : (a : ℕ) → bit_or a 0 ≡ a
bit_or-zero a = simp bit_or-bitwise (or_digits-zero a a (omega arith))
