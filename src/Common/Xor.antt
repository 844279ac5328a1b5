-- ===== src/Common/Xor.antt =====
-- Python's `^` on numbers: an operation that is its own inverse.
use Prim.Native.Nat.{
  ℕ, zero, suc, ◌+◌, ◌*◌, ◌/◌, ◌%◌, ◌^◌, ◌≤◌, ◌<◌, digits, differ, bit_xor, bit_xor-bitwise,
}
use mathlib.Core.Path.{◌≡◌, refl, ap, sym, ◌∙◌}
use native.Mathlib.Omega.{arith}
use native.Mathlib.Nat.{pow-suc}

abbrev xor_digits : ℕ → ℕ → ℕ → ℕ
xor_digits count a b = digits (λ y. y) differ count a b

-- Digits beyond those of the first number change nothing.
xor_digits-spare :
    (more count a b : ℕ) → count ≤ more → a ≤ count → xor_digits more a b ≡ xor_digits count a b
xor_digits-spare zero zero a b g h = refl
xor_digits-spare zero (suc count) a b g h = absurd (omega arith)
xor_digits-spare (suc more) zero zero b g h = refl
xor_digits-spare (suc more) zero (suc a) b g h = absurd (omega arith)
xor_digits-spare (suc more) (suc count) zero b g h = refl
xor_digits-spare (suc more) (suc count) (suc a) b g h =
    ap (λ (high : ℕ). high * 2 + differ (suc a % 2) (b % 2))
      (xor_digits-spare more count (suc a / 2) (b / 2) (omega arith) (omega arith))

differ_digits : (d e : ℕ) → d < 2 → e < 2 → differ d e ≡ (d + e) % 2
differ_digits zero e h k = omega arith
differ_digits (suc zero) zero h k = omega arith
differ_digits (suc zero) (suc zero) h k = omega arith
differ_digits (suc zero) (suc (suc e)) h k = absurd (omega arith)
differ_digits (suc (suc d)) e h k = absurd (omega arith)

pub zero_xor : (y : ℕ) → bit_xor 0 y ≡ y
zero_xor y = simp bit_xor-bitwise refl

pub bit_xor_halves : (x y : ℕ) → bit_xor x y ≡ (x + y) % 2 + bit_xor (x / 2) (y / 2) * 2
bit_xor_halves zero y = omega (arith, zero_xor y, zero_xor (y / 2))
bit_xor_halves (suc x) y = simp bit_xor-bitwise (
    ap (λ (high : ℕ). high * 2 + differ (suc x % 2) (y % 2))
      (xor_digits-spare x (suc x / 2) (suc x / 2) (y / 2) (omega arith) (omega arith))
    ∙ omega (arith, differ_digits (suc x % 2) (y % 2) (omega arith) (omega arith)))

-- By halves, `fuel` bounding the first number.
xor_zero_from : (fuel x : ℕ) → x ≤ fuel → bit_xor x 0 ≡ x
xor_zero_from zero x h = let none : x ≡ 0 = omega arith in rw none (zero_xor 0)
xor_zero_from (suc fuel) zero h = zero_xor 0
xor_zero_from (suc fuel) (suc x) h =
    omega (arith, bit_xor_halves (suc x) 0, xor_zero_from fuel (suc x / 2) (omega arith))

pub xor_zero : (x : ℕ) → bit_xor x 0 ≡ x
xor_zero x = xor_zero_from x x (omega arith)

xor_self_from : (fuel x : ℕ) → x ≤ fuel → bit_xor x x ≡ 0
xor_self_from zero x h = let none : x ≡ 0 = omega arith in rw none (zero_xor 0)
xor_self_from (suc fuel) zero h = zero_xor 0
xor_self_from (suc fuel) (suc x) h =
    omega (arith, bit_xor_halves (suc x) (suc x), xor_self_from fuel (suc x / 2) (omega arith))

pub xor_self : (x : ℕ) → bit_xor x x ≡ 0
xor_self x = xor_self_from x x (omega arith)

xor_comm_from : (fuel x y : ℕ) → x ≤ fuel → bit_xor x y ≡ bit_xor y x
xor_comm_from zero x y h = let none : x ≡ 0 = omega arith in rw none (zero_xor y ∙ sym (xor_zero y))
xor_comm_from (suc fuel) zero y h = zero_xor y ∙ sym (xor_zero y)
xor_comm_from (suc fuel) (suc x) y h = omega (
  arith,
  bit_xor_halves (suc x) y,
  bit_xor_halves y (suc x),
  xor_comm_from fuel (suc x / 2) (y / 2) (omega arith),
)

pub xor_comm : (x y : ℕ) → bit_xor x y ≡ bit_xor y x
xor_comm x y = xor_comm_from x x y (omega arith)

pub half_xor : (x y : ℕ) → bit_xor x y / 2 ≡ bit_xor (x / 2) (y / 2)
half_xor x y = omega (arith, bit_xor_halves x y)

xor_assoc_from : (fuel x y z : ℕ) → x ≤ fuel → bit_xor (bit_xor x y) z ≡ bit_xor x (bit_xor y z)
xor_assoc_from zero x y z h =
    let none : x ≡ 0 = omega arith in rw (none, zero_xor y, zero_xor (bit_xor y z)) refl
xor_assoc_from (suc fuel) zero y z h = rw (zero_xor y, zero_xor (bit_xor y z)) refl
xor_assoc_from (suc fuel) (suc x) y z h = omega (
  arith,
  bit_xor_halves (bit_xor (suc x) y) z,
  bit_xor_halves (suc x) (bit_xor y z),
  bit_xor_halves (suc x) y,
  bit_xor_halves y z,
  ap (λ (t : ℕ). bit_xor t (z / 2)) (half_xor (suc x) y),
  ap (bit_xor (suc x / 2)) (half_xor y z),
  xor_assoc_from fuel (suc x / 2) (y / 2) (z / 2) (omega arith),
)

pub xor_assoc : (x y z : ℕ) → bit_xor (bit_xor x y) z ≡ bit_xor x (bit_xor y z)
xor_assoc x y z = xor_assoc_from x x y z (omega arith)

-- `^` stays within a width.
pub xor-lt : (k x y : ℕ) → x < 2 ^ k → y < 2 ^ k → bit_xor x y < 2 ^ k
xor-lt zero x y h g =
    let a : x ≡ 0 = omega arith in let b : y ≡ 0 = omega arith in rw (a, b) (omega arith)
xor-lt (suc k) x y h g = omega (
  arith,
  bit_xor_halves x y,
  pow-suc 2 k,
  xor-lt k (x / 2) (y / 2) (omega (arith, pow-suc 2 k)) (omega (arith, pow-suc 2 k)),
)

-- The same number on both sides of a sum, or twice in it, falls out.
pub xor_cancel : (x y : ℕ) → bit_xor x (bit_xor x y) ≡ y
xor_cancel x y = sym (xor_assoc x x y) ∙ (ap (λ (t : ℕ). bit_xor t y) (xor_self x) ∙ zero_xor y)

pub xor_middle :
    (a b c d : ℕ) → bit_xor (bit_xor a b) (bit_xor c d) ≡ bit_xor (bit_xor a c) (bit_xor b d)
xor_middle a b c d =
    xor_assoc a b (bit_xor c d)
    ∙ (ap (bit_xor a)
          (sym (xor_assoc b c d) ∙ (ap (λ (t : ℕ). bit_xor t d) (xor_comm b c) ∙ xor_assoc c b d))
        ∙ sym (xor_assoc a c (bit_xor b d)))
