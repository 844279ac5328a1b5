-- ===== src/Fec/ReedSolomon/Field/Powers.antt =====
-- GF(256): the powers of 2, inverses, and that no product of others is 0.
use spectracuda.Common.{
  ℕ, ◌+◌, ◌<◌, ◌≡◌, ◌↔◌, ◌⊎◌, refl, ap, ap₂, ◌∙◌, Bool, true, ◌&&◌, ◌||◌, not, ◌==◌, if◌then◌else◌,
  ltb, arith, passes, tested, set_at,
}
use spectracuda.Fec.ReedSolomon.{
  powers, extend, exp_table, log_table, fill_logs, gf_exp, gf_log, gf_mul, gf_pow, gf_inv,
}
use spectracuda.Fec.ReedSolomon.Field.{exp_pos, exp-log, mul_pos}

-- The powers of 2, the logarithms and the inverses.
is_exponent : ℕ → Bool
is_exponent n =
    (gf_log (gf_exp n) == n)
    && (gf_pow 2 n == gf_exp n)
    && (gf_pow (gf_exp n) 0 == 1)
    && (gf_pow (gf_exp n) 1 == gf_exp n)

all_exponents : passes is_exponent 0 255 ≡ true
unfolding passes is_exponent gf_pow gf_exp gf_log log_table fill_logs exp_table extend powers set_at
all_exponents = refl

exponent : (n : ℕ) → n < 255 → is_exponent n ≡ true
exponent n h = tested is_exponent 255 0 n (omega arith) (omega arith) all_exponents

log-exp : (n : ℕ) → n < 255 → gf_log (gf_exp n) ≡ n
unfolding is_exponent
log-exp n h = ground (arith, exponent n h)

pub pow-two : (n : ℕ) → n < 255 → gf_pow 2 n ≡ gf_exp n
unfolding is_exponent
pow-two n h = ground (arith, exponent n h)

pub pow-exp : (n : ℕ) → n < 255 → (gf_pow (gf_exp n) 0 ≡ 1) × (gf_pow (gf_exp n) 1 ≡ gf_exp n)
unfolding is_exponent
pow-exp n h = ground (arith, exponent n h)

is_inverse : ℕ → Bool
is_inverse a = (gf_mul a (gf_inv a) == 1) && ltb (gf_inv a) 256

all_inverses : passes is_inverse 1 255 ≡ true
unfolding passes is_inverse gf_mul gf_inv gf_exp gf_log log_table fill_logs exp_table extend powers
    set_at
all_inverses = refl

pub mul-inv : (a : ℕ) → 0 < a → a < 256 → (gf_mul a (gf_inv a) ≡ 1) × (gf_inv a < 256)
unfolding is_inverse
mul-inv a pos h = ground (arith, tested is_inverse 255 1 a (omega arith) (omega arith) all_inverses)

is_unit_exponent : ℕ → Bool
is_unit_exponent n = if gf_exp n == 1 then (n == 0) || (n == 255) else not ((n == 0) || (n == 255))

all_unit_exponents : passes is_unit_exponent 0 510 ≡ true
unfolding passes is_unit_exponent gf_exp exp_table extend powers
all_unit_exponents = refl

-- 2 has the order 255.
pub exp-one : (n : ℕ) → n < 510 → (gf_exp n ≡ 1) ↔ ((n ≡ 0) ⊎ (n ≡ 255))
unfolding is_unit_exponent
exp-one n h =
    let t = tested is_unit_exponent 510 0 n (omega arith) (omega arith) all_unit_exponents in
    (ground (arith, t), ground (arith, t))

pub exp-mul : (a b : ℕ) → a < 255 → b < 255 → gf_mul (gf_exp a) (gf_exp b) ≡ gf_exp (a + b)
exp-mul a b ha hb =
    mul_pos (gf_exp a) (gf_exp b) (exp_pos a (omega arith)) (exp_pos b (omega arith))
    ∙ ap gf_exp (ap₂ ◌+◌ (log-exp a ha) (log-exp b hb))

pub no_divisors : (a b : ℕ) → 0 < a → a < 256 → 0 < b → b < 256 → 0 < gf_mul a b
no_divisors a b pa ha pb hb =
    let of_a = exp-log a pa ha in
    let of_b = exp-log b pb hb in
    rw (mul_pos a b pa pb) (exp_pos (gf_log a + gf_log b) (omega (arith, of_a.1, of_b.1)))
