-- ===== src/Fec/ReedSolomon/OneError.antt =====
-- The search for one wrong symbol: from the syndromes to its place and its value.
use native.Mathlib.Decide.{dec_lt}
use spectracuda.Common.{
  ℕ, zero, suc, ◌+◌, ◌-◌, ◌≤◌, ◌<◌, ◌≡◌, refl, sym, ap, ◌∙◌, List, [], ◌∷◌, false, ◌==◌, arith,
  get_or, take, replicate, bit_xor, xor-lt, xor_comm, xor_cancel, xor_self, zero_xor, xor_zero,
  set_at,
}
use spectracuda.Fec.ReedSolomon.{
  gf_exp, gf_log, gf_mul, gf_inv, exp_table, log_table, extend, fill_logs, powers,
}
use spectracuda.Fec.ReedSolomon.Decoder.{
  Locator, discrepancy, add_shifted, massey_step, massey_from, berlekamp_massey,
}
use spectracuda.Fec.ReedSolomon.Field.{mul_comm, mul-zero, mul-xor, mul_assoc}
use spectracuda.Fec.ReedSolomon.Field.Powers.{mul-inv, no_divisors}
use spectracuda.Fec.ReedSolomon.Parity.{mul-one}

abbrev none_yet : List ℕ
none_yet = 1 ∷ replicate 32 0

-- The polynomial 1 + p x, with room for more.
abbrev linear : ℕ → List ℕ
linear p = 1 ∷ p ∷ replicate 31 0

add_to-linear : (p f : ℕ) → f < 256 → add_shifted (linear p) f 1 none_yet ≡ linear (bit_xor p f)
unfolding add_shifted
add_to-linear p f h = rw (mul-zero f, mul-one f h) refl

not_zero : (a : ℕ) → 0 < a → (a == 0) ≡ false
not_zero a h = ground arith

inv-one : gf_inv 1 ≡ 1
unfolding gf_inv gf_exp gf_log log_table fill_logs exp_table extend powers set_at
inv-one = refl

-- Syndromes that are a geometric progression.
module _ (synd : List ℕ) (s : ℕ → ℕ) (x : ℕ) (of_synd : (n : ℕ) → n < 32 → get_or synd n 0 ≡ s n)
    (x_pos : 0 < x) (x_lt : x < 256) (s_pos : 0 < s 0) (s_lt : s 0 < 256)
    (s_suc : (n : ℕ) → n < 31 → s (suc n) ≡ gf_mul (s n) x) where
  abbrev start : Locator
  start = record { c = none_yet; b_poly = none_yet; l = 0; m = 1; b = 1 }

  -- The state once the polynomial is known.
  abbrev found : List ℕ → ℕ → Locator
  found c m = record { c = c; b_poly = none_yet; l = 1; m = m; b = s 0 }

  first_step : massey_step synd 0 start ≡ found (linear (s 0)) 1
  unfolding massey_step discrepancy
  first_step =
      rw
        (
          of_synd 0 (omega arith),
          not_zero (s 0) s_pos,
          inv-one,
          mul-one (s 0) s_lt,
          add_to-linear 0 (s 0) s_lt,
          zero_xor (s 0),
        )
        refl

  discrepancy-linear :
      (p n : ℕ)
      → n < 31
      → discrepancy (linear p) synd (suc n) 1 1 (get_or synd (suc n) 0)
        ≡ bit_xor (gf_mul (s n) x) (gf_mul p (s n))
  unfolding discrepancy
  discrepancy-linear p n h =
      let before : suc n - 1 ≡ n = omega arith in
      rw (before, of_synd (suc n) (omega arith), of_synd n (omega arith), s_suc n h) refl

  -- The first polynomial fits already, or it is off by what is added.
  fits : bit_xor x (s 0) ≡ 0 → massey_step synd 1 (found (linear (s 0)) 1) ≡ found (linear x) 2
  unfolding massey_step
  fits e =
      let same : x ≡ s 0 = sym (xor_zero x) ∙ (ap (bit_xor x) (sym e) ∙ xor_cancel x (s 0)) in
      rw
        (
          discrepancy-linear (s 0) 0 (omega arith),
          sym (mul-xor (s 0) x (s 0) s_lt x_lt s_lt),
          e,
          mul-zero (s 0),
        )
        (ap (λ (t : ℕ). found (linear t) 2) (sym same))

  abbrev off : ℕ
  off = bit_xor x (s 0)

  off-lt : off < 256
  off-lt = xor-lt 8 x (s 0) x_lt s_lt

  quotient : gf_mul (gf_mul (s 0) off) (gf_inv (s 0)) ≡ off
  quotient =
      let inv = mul-inv (s 0) s_pos s_lt in
      ap (λ (t : ℕ). gf_mul t (gf_inv (s 0))) (mul_comm (s 0) off)
      ∙ (mul_assoc off (s 0) (gf_inv (s 0)) off-lt s_lt inv.1
          ∙ (ap (gf_mul off) inv.0 ∙ mul-one off off-lt))

  is_off : 0 < off → massey_step synd 1 (found (linear (s 0)) 1) ≡ found (linear x) 2
  unfolding massey_step
  is_off pos =
      let back : bit_xor (s 0) off ≡ x =
        ap (bit_xor (s 0)) (xor_comm x (s 0)) ∙ xor_cancel (s 0) x in
      rw
        (
          discrepancy-linear (s 0) 0 (omega arith),
          sym (mul-xor (s 0) x (s 0) s_lt x_lt s_lt),
          not_zero (gf_mul (s 0) off) (no_divisors (s 0) off s_pos s_lt pos off-lt),
          quotient,
          add_to-linear (s 0) off off-lt,
          back,
        )
        refl

  second_step : massey_step synd 1 (found (linear (s 0)) 1) ≡ found (linear x) 2
  second_step = elim (dec_lt 0 (bit_xor x (s 0))) [ yes p ↦ is_off p | no p ↦ fits (omega arith) ]

  later_step :
      (n m : ℕ) → n < 31 → massey_step synd (suc n) (found (linear x) m) ≡ found (linear x) (m + 1)
  unfolding massey_step
  later_step n m h = rw (discrepancy-linear x n h, mul_comm (s n) x, xor_self (gf_mul x (s n))) refl

  later_steps :
      (rounds n m : ℕ)
      → n + rounds ≤ 31
      → massey_from synd rounds (suc n) (found (linear x) m) ≡ found (linear x) (m + rounds)
  unfolding massey_from
  later_steps zero n m h = ap (found (linear x)) (omega arith)
  later_steps (suc rounds) n m h =
      ap (massey_from synd rounds (suc (suc n))) (later_step n m (omega arith))
      ∙ (later_steps rounds (suc n) (m + 1) (omega arith) ∙ ap (found (linear x)) (omega arith))

  steps : massey_from synd 32 0 start ≡ found (linear x) 32
  unfolding massey_from
  steps =
      ap (massey_from synd 31 1) first_step
      ∙ (ap (massey_from synd 30 2) second_step ∙ later_steps 30 1 2 (omega arith))

  -- The error locator is 1 + x z.
  pub berlekamp_massey-linear : berlekamp_massey synd ≡ (1 ∷ x ∷ [], 1)
  unfolding berlekamp_massey
  berlekamp_massey-linear = ap (λ (st : Locator). (take (st.l + 1) st.c, st.l)) steps
