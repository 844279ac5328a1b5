-- ===== src/Common/Masks.antt =====
-- Python's `&` with a mask of low bits: the remainder by a power of two.
use Prim.Native.Nat.{
  ℕ, zero, suc, ◌+◌, ◌-◌, ◌*◌, ◌/◌, ◌%◌, ◌^◌, ◌≤◌, ◌<◌, min, digits, bit_and, bit_and-bitwise,
}
use mathlib.Core.Path.{◌≡◌, refl, ap, ◌∙◌}
use native.Mathlib.Omega.{arith}
use native.Mathlib.Nat.{
  pow-suc, one-le-pow, mod-lt, div-add-mod, add-mul-mod_self_left, mod-eq_of_lt,
}

abbrev and_digits : ℕ → ℕ → ℕ → ℕ
and_digits count a b = digits (λ y. zero) min count a b

-- Beyond the digits of the first number all are 0.
and_digits-spare :
    (more count a b : ℕ) → count ≤ more → a ≤ count → and_digits more a b ≡ and_digits count a b
and_digits-spare zero zero a b g h = refl
and_digits-spare zero (suc count) a b g h = absurd (omega arith)
and_digits-spare (suc more) zero zero b g h = refl
and_digits-spare (suc more) zero (suc a) b g h = absurd (omega arith)
and_digits-spare (suc more) (suc count) zero b g h = refl
and_digits-spare (suc more) (suc count) (suc a) b g h =
    ap (λ (high : ℕ). high * 2 + min (suc a % 2) (b % 2))
      (and_digits-spare more count (suc a / 2) (b / 2) (omega arith) (omega arith))

bit_and_halves : (x y : ℕ) → bit_and x y ≡ min (x % 2) (y % 2) + bit_and (x / 2) (y / 2) * 2
bit_and_halves zero y = simp bit_and-bitwise (omega arith)
bit_and_halves (suc x) y = simp bit_and-bitwise (
    ap (λ (high : ℕ). high * 2 + min (suc x % 2) (y % 2))
      (and_digits-spare x (suc x / 2) (suc x / 2) (y / 2) (omega arith) (omega arith))
    ∙ omega arith)

and_digits-zero : (count a : ℕ) → and_digits count a 0 ≡ 0
and_digits-zero zero a = refl
and_digits-zero (suc count) zero = refl
and_digits-zero (suc count) (suc a) = omega (arith, and_digits-zero count (suc a / 2))

bit_and-zero : (a : ℕ) → bit_and a 0 ≡ 0
bit_and-zero a = simp bit_and-bitwise (and_digits-zero a a)

low_digit : (p x : ℕ) → 0 < p → x % (p * 2) ≡ x % 2 + (x / 2 % p) * 2
low_digit p x h =
    ap (λ (t : ℕ). t % (p * 2)) split
    ∙ (add-mul-mod_self_left low (p * 2) (x / 2 / p)
        ∙ mod-eq_of_lt (omega (arith, mod-lt (x / 2) h)))
  where
    low : ℕ
    low = x % 2 + (x / 2 % p) * 2

    split : x ≡ low + (p * 2) * (x / 2 / p)
    split = omega (arith, ap (λ (t : ℕ). t * 2) (div-add-mod (x / 2) p), div-add-mod x 2)

-- `x & (2 ** k - 1)`
pub bit_and_mask : (k x : ℕ) → bit_and x (2 ^ k - 1) ≡ x % 2 ^ k
bit_and_mask zero x = omega (arith, bit_and-zero x)
bit_and_mask (suc k) x =
    let room : 0 < 2 ^ k = one-le-pow k 2 (omega arith) in
    let shape : 2 ^ suc k ≡ 2 ^ k * 2 = rw (pow-suc 2 k) (omega arith) in
    rw shape (
      omega (
        arith,
        bit_and_halves x (2 ^ k * 2 - 1),
        ap (bit_and (x / 2)) (let half : (2 ^ k * 2 - 1) / 2 ≡ 2 ^ k - 1 = omega arith in half),
        bit_and_mask k (x / 2),
        low_digit (2 ^ k) x room,
      ))
