-- ===== src/Fec/ReedSolomon/Field.antt =====
-- GF(256) by its tables: products are shifts, which keep sums.
pub mod Powers
use spectracuda.Common.{
  ℕ, zero, suc, ◌+◌, ◌<◌, ◌≡◌, refl, sym, ap, ap₂, ◌∙◌, Bool, true, false, ◌&&◌, ◌==◌, ==_iff,
  if◌then◌else◌, ltb, ltb→lt, arith, passes, tested, bit_xor, xor-lt, xor_self, set_at,
}
use spectracuda.Fec.ReedSolomon.{
  powers, extend, exp_table, log_table, fill_logs, gf_exp, gf_log, gf_mul, next_power,
}

-- Facts of the tables, for each entry.
is_power : ℕ → Bool
is_power n =
    if gf_exp (suc n) == next_power (gf_exp n)
    then ltb 0 (gf_exp n) && ltb (gf_exp n) 256
    else false

all_powers : passes is_power 0 511 ≡ true
unfolding passes is_power gf_exp exp_table extend powers
all_powers = refl

is_log : ℕ → Bool
is_log a = gf_exp (gf_log a) == a && ltb (gf_log a) 255

all_logs : passes is_log 1 255 ≡ true
unfolding passes is_log gf_exp gf_log log_table fill_logs exp_table extend powers set_at
all_logs = refl

is_sum : ℕ → ℕ → Bool
is_sum x y = next_power (bit_xor x y) == bit_xor (next_power x) (next_power y)

all_sums_of : ℕ → Bool
all_sums_of x = passes (is_sum x) 0 256

all_sums : passes all_sums_of 0 256 ≡ true
unfolding passes all_sums_of is_sum
all_sums = refl

is_byte : ℕ → Bool
is_byte x = ltb (next_power x) 256

all_bytes : passes is_byte 0 256 ≡ true
unfolding passes is_byte
all_bytes = refl

pub exp-suc : (n : ℕ) → n < 511 → gf_exp (suc n) ≡ next_power (gf_exp n)
unfolding is_power
exp-suc n h = ground (arith, tested is_power 511 0 n (omega arith) (omega arith) all_powers)

pub exp_pos : (n : ℕ) → n < 511 → 0 < gf_exp n
unfolding is_power
exp_pos n h = ground (arith, tested is_power 511 0 n (omega arith) (omega arith) all_powers)

pub exp-lt : (n : ℕ) → n < 511 → gf_exp n < 256
unfolding is_power
exp-lt n h = ground (arith, tested is_power 511 0 n (omega arith) (omega arith) all_powers)

exp-log : (a : ℕ) → 0 < a → a < 256 → (gf_exp (gf_log a) ≡ a) × (gf_log a < 255)
unfolding is_log
exp-log a pos h = ground (arith, tested is_log 255 1 a (omega arith) (omega arith) all_logs)

next_power-xor :
    (x y : ℕ) → x < 256 → y < 256 → next_power (bit_xor x y) ≡ bit_xor (next_power x) (next_power y)
unfolding all_sums_of is_sum
next_power-xor x y hx hy =
    (==_iff (next_power (bit_xor x y)) (bit_xor (next_power x) (next_power y))).0 (
      tested (is_sum x) 256 0 y (omega arith) (omega arith)
        (tested all_sums_of 256 0 x (omega arith) (omega arith) all_sums))

next_power-lt : (x : ℕ) → x < 256 → next_power x < 256
unfolding is_byte
next_power-lt x h =
    ltb→lt (next_power x) 256 (tested is_byte 256 0 x (omega arith) (omega arith) all_bytes)

-- Multiplied by x, n times.
shifted : ℕ → ℕ → ℕ
shifted zero x = x
shifted (suc n) x = next_power (shifted n x)

shifted-lt : (n x : ℕ) → x < 256 → shifted n x < 256
unfolding shifted
shifted-lt zero x h = h
shifted-lt (suc n) x h = next_power-lt (shifted n x) (shifted-lt n x h)

shifted-xor :
    (n x y : ℕ) → x < 256 → y < 256 → shifted n (bit_xor x y) ≡ bit_xor (shifted n x) (shifted n y)
unfolding shifted
shifted-xor zero x y hx hy = refl
shifted-xor (suc n) x y hx hy =
    ap next_power (shifted-xor n x y hx hy)
    ∙ next_power-xor (shifted n x) (shifted n y) (shifted-lt n x hx) (shifted-lt n y hy)

shifted-next_power : (n x : ℕ) → shifted n (next_power x) ≡ next_power (shifted n x)
unfolding shifted
shifted-next_power zero x = refl
shifted-next_power (suc n) x = ap next_power (shifted-next_power n x)

shifted_comm : (m n x : ℕ) → shifted m (shifted n x) ≡ shifted n (shifted m x)
unfolding shifted
shifted_comm zero n x = refl
shifted_comm (suc m) n x =
    ap next_power (shifted_comm m n x) ∙ sym (shifted-next_power n (shifted m x))

shifted_zero : (n : ℕ) → shifted n 0 ≡ 0
unfolding shifted
shifted_zero zero = refl
shifted_zero (suc n) = ap next_power (shifted_zero n)

exp-shifted : (n m : ℕ) → m + n < 511 → gf_exp (m + n) ≡ shifted n (gf_exp m)
unfolding shifted
exp-shifted zero m h = ap gf_exp (omega arith)
exp-shifted (suc n) m h =
    ap gf_exp (let e : m + suc n ≡ suc (m + n) = omega arith in e)
    ∙ (exp-suc (m + n) (omega arith) ∙ ap next_power (exp-shifted n m (omega arith)))

pub mul_comm : (a b : ℕ) → gf_mul a b ≡ gf_mul b a
unfolding gf_mul
mul_comm a b =
    ground (arith, ap gf_exp (let e : gf_log a + gf_log b ≡ gf_log b + gf_log a = omega arith in e))

pub zero-mul : (b : ℕ) → gf_mul 0 b ≡ 0
unfolding gf_mul
zero-mul b = refl

pub mul-zero : (a : ℕ) → gf_mul a 0 ≡ 0
mul-zero a = mul_comm a 0 ∙ zero-mul a

mul_pos : (a c : ℕ) → 0 < a → 0 < c → gf_mul a c ≡ gf_exp (gf_log a + gf_log c)
unfolding gf_mul
mul_pos a c ha hc = ground arith

-- A factor other than 0 shifts by its logarithm.
mul-shifted : (a c : ℕ) → a < 256 → 0 < c → c < 256 → gf_mul a c ≡ shifted (gf_log c) a
mul-shifted zero c ha pos hc = zero-mul c ∙ sym (shifted_zero (gf_log c))
mul-shifted (suc a) c ha pos hc =
    let of_a = exp-log (suc a) (omega arith) ha in
    let of_c = exp-log c pos hc in
    mul_pos (suc a) c (omega arith) pos
    ∙ (exp-shifted (gf_log c) (gf_log (suc a)) (omega (arith, of_a.1, of_c.1))
        ∙ ap (shifted (gf_log c)) of_a.0)

pub mul-lt : (a c : ℕ) → a < 256 → c < 256 → gf_mul a c < 256
mul-lt a zero ha hc = rw (mul-zero a) (omega arith)
mul-lt a (suc c) ha hc =
    rw (mul-shifted a (suc c) ha (omega arith) hc) (shifted-lt (gf_log (suc c)) a ha)

-- A product of a sum is the sum of the products.
pub xor-mul :
    (a b c : ℕ)
    → a < 256
    → b < 256
    → c < 256
    → gf_mul (bit_xor a b) c ≡ bit_xor (gf_mul a c) (gf_mul b c)
xor-mul a b zero ha hb hc = rw (mul-zero (bit_xor a b), mul-zero a, mul-zero b) (sym (xor_self 0))
xor-mul a b (suc c) ha hb hc =
    rw
      (
        mul-shifted (bit_xor a b) (suc c) (xor-lt 8 a b ha hb) (omega arith) hc,
        mul-shifted a (suc c) ha (omega arith) hc,
        mul-shifted b (suc c) hb (omega arith) hc,
      )
      (shifted-xor (gf_log (suc c)) a b ha hb)

pub mul-xor :
    (c a b : ℕ)
    → c < 256
    → a < 256
    → b < 256
    → gf_mul c (bit_xor a b) ≡ bit_xor (gf_mul c a) (gf_mul c b)
mul-xor c a b hc ha hb =
    mul_comm c (bit_xor a b) ∙ (xor-mul a b c ha hb hc ∙ ap₂ bit_xor (mul_comm a c) (mul_comm b c))

pub mul_assoc :
    (f g r : ℕ) → f < 256 → g < 256 → r < 256 → gf_mul (gf_mul f g) r ≡ gf_mul f (gf_mul g r)
mul_assoc zero g r hf hg hr = rw (zero-mul g, zero-mul r, zero-mul (gf_mul g r)) refl
mul_assoc (suc f) g zero hf hg hr =
    rw (mul-zero (gf_mul (suc f) g), mul-zero g, mul-zero (suc f)) refl
mul_assoc (suc f) g (suc r) hf hg hr =
    let n = gf_log (suc f) in
    let m = gf_log (suc r) in
    mul-shifted (gf_mul (suc f) g) (suc r) (mul-lt (suc f) g hf hg) (omega arith) hr
    ∙ (ap (shifted m) (mul_comm (suc f) g ∙ mul-shifted g (suc f) hg (omega arith) hf)
        ∙ (shifted_comm m n g
            ∙ (ap (shifted n) (sym (mul-shifted g (suc r) hg (omega arith) hr))
                ∙ (sym (
                      mul-shifted (gf_mul g (suc r)) (suc f) (mul-lt g (suc r) hg hr) (omega arith)
                        hf)
                    ∙ mul_comm (gf_mul g (suc r)) (suc f)))))
