-- ===== src/Common/Division.antt =====
-- Python's `divmod` by a number that is not written out.
use Prim.Native.Nat.{ℕ, ◌+◌, ◌*◌, ◌/◌, ◌%◌, ◌<◌}
use mathlib.Core.Path.{◌≡◌, ap, ◌∙◌}
use native.Mathlib.Omega.{arith}
use native.Mathlib.Nat.{
  add-mul-mod_self_left, mod-eq_of_lt, mul-add-div_right, div-eq_of_lt, mul_comm, div-add-mod,
  mod-lt,
}

-- Quotient and remainder are read off a sum.
pub div-of_sum : (p q v : ℕ) → v < p → (q * p + v) / p ≡ q
div-of_sum p q v h = mul-add-div_right (omega arith) q v ∙ omega (arith, div-eq_of_lt h)

pub mod-of_sum : (p q v : ℕ) → v < p → (q * p + v) % p ≡ v
mod-of_sum p q v h =
    ap (λ (t : ℕ). t % p) (omega (arith, mul_comm q p))
    ∙ (add-mul-mod_self_left v p q ∙ mod-eq_of_lt h)

-- A number is the sum of its full blocks and what is left over, which is less than a block.
pub sum-of_divmod : (n p : ℕ) → n ≡ n / p * p + n % p
sum-of_divmod n p = omega (arith, div-add-mod n p, mul_comm p (n / p))

pub mod-below : (n p : ℕ) → 0 < p → n % p < p
mod-below n p h = mod-lt n h
