-- ===== src/Fec/ReedSolomon/Place.antt =====
-- The place and the value of one wrong symbol: the root of its locator, and a system of one equation.
use native.Mathlib.Decide.{dec_lt}
use spectracuda.Common.{
  ℕ, zero, suc, ◌+◌, ◌-◌, ◌%◌, ◌≤◌, ◌<◌, ◌≡◌, ◌⊎◌, ◌≢◌, inl, inr, refl, sym, ap, ◌∙◌, List, [], ◌∷◌,
  false, ◌==◌, arith, get_or, bit_xor, xor_cancel, xor_self, zero_xor, xor_zero, ok, set_at,
}
use spectracuda.Fec.ReedSolomon.{gf_exp, gf_mul, gf_inv, gf_pow}
use spectracuda.Fec.ReedSolomon.Decoder.{
  locator_value, chien_search, solve_error_magnitudes, gauss_from, pivot_from, eliminate,
  clear_from,
}
use spectracuda.Fec.ReedSolomon.Field.{mul_assoc, exp-lt, exp_pos}
use spectracuda.Fec.ReedSolomon.Field.Powers.{mul-inv, exp-mul, exp-one, pow-two, pow-exp}
use spectracuda.Fec.ReedSolomon.Parity.{mul-one}

module _ (j : ℕ) (hj : j < 255) where
  abbrev locator : List ℕ
  locator = 1 ∷ gf_exp j ∷ []

  -- What the source computes as `-i % 255`.
  abbrev minus_mod : ℕ → ℕ
  minus_mod i = (255 - i % 255) % 255

  -- The value of the locator at 2 to the power of -i.
  abbrev value_at : ℕ → ℕ
  value_at i = locator_value (gf_pow 2 (minus_mod i)) 0 locator 0

  value-exp :
      (k : ℕ) → k < 255 → locator_value (gf_pow 2 k) 0 locator 0 ≡ bit_xor 1 (gf_exp (j + k))
  unfolding locator_value
  value-exp k h =
      let p = pow-exp k h in
      rw (pow-two k h, p.0, p.1, zero_xor (gf_mul 1 1), mul-one 1 (omega arith), exp-mul j k hj h)
        refl

  xor_one : (v : ℕ) → bit_xor 1 v ≡ 0 → v ≡ 1
  xor_one v h = sym (xor_cancel 1 v) ∙ (ap (bit_xor 1) h ∙ xor_zero 1)

  value-root : value_at j ≡ 0
  value-root =
      value-exp (minus_mod j) (omega arith)
      ∙ (ap (bit_xor 1) ((exp-one (j + minus_mod j) (omega arith)).1 full) ∙ xor_self 1)
    where
      full : (j + minus_mod j ≡ 0) ⊎ (j + minus_mod j ≡ 255)
      full = elim (dec_lt 0 j) [ yes p ↦ inr (omega arith) | no p ↦ inl (omega arith) ]

  value-other : (i : ℕ) → i < 255 → ◌≢◌ i j → (value_at i == 0) ≡ false
  value-other i h apart = elim (dec_lt 0 (value_at i)) [
    | yes p ↦ ground arith
    | no p ↦ absurd (
        let one =
          xor_one (gf_exp (j + minus_mod i))
            (sym (value-exp (minus_mod i) (omega arith)) ∙ omega arith) in
        elim ((exp-one (j + minus_mod i) (omega arith)).0 one) [
          | inl e ↦ apart (omega arith)
          | inr e ↦ apart (omega arith)
        ])
  ]

  abbrev place : ℕ × ℕ
  place = (254 - j, gf_exp j)

  chien_none : (rounds i : ℕ) → j < i → i + rounds ≤ 255 → chien_search locator rounds i ≡ []
  unfolding chien_search
  chien_none zero i lt h = refl
  chien_none (suc rounds) i lt h =
      rw (value-other i (omega arith) (λ e. omega arith))
        (chien_none rounds (suc i) (omega arith) (omega arith))

  chien_one :
      (rounds i : ℕ)
      → i ≤ j
      → j < i + rounds
      → i + rounds ≤ 255
      → chien_search locator rounds i ≡ place ∷ []
  unfolding chien_search
  chien_one zero i le lt h = absurd (omega arith)
  chien_one (suc rounds) i le lt h = elim (dec_lt i j) [
    | yes p ↦
        rw (value-other i (omega arith) (λ e. omega arith))
          (chien_one rounds (suc i) (omega arith) (omega arith) (omega arith))
    | no p ↦
        let here : i ≡ j = omega arith in
        let reduced : j % 255 ≡ j = omega arith in
        rw
          (
            here,
            value-root,
            chien_none rounds (suc j) (omega arith) (omega arith),
            reduced,
            pow-two j hj,
          )
          refl
  ]

  pub chien_search-one : chien_search locator 255 0 ≡ (254 - j, gf_exp j) ∷ []
  chien_search-one = chien_one 255 0 (omega arith) (omega arith) (omega arith)

  pub solve-one :
      (synd : List ℕ) (e : ℕ)
      → e < 256
      → get_or synd 0 0 ≡ gf_mul e (gf_exp j)
      → solve_error_magnitudes synd ((254 - j, gf_exp j) ∷ []) ≡ ok (e ∷ [])
  unfolding solve_error_magnitudes gauss_from pivot_from eliminate clear_from set_at
  solve-one synd e he h =
      let inv = mul-inv (gf_exp j) (exp_pos j (omega arith)) (exp-lt j (omega arith)) in
      let some_power : (gf_exp j == 0) ≡ false = ground (arith, exp_pos j (omega arith)) in
      let value : gf_mul (gf_mul e (gf_exp j)) (gf_inv (gf_exp j)) ≡ e =
        mul_assoc e (gf_exp j) (gf_inv (gf_exp j)) he (exp-lt j (omega arith)) inv.1
        ∙ (ap (gf_mul e) inv.0 ∙ mul-one e he) in
      rw ((pow-exp j hj).1, some_power, h, (pow-exp j hj).1, value) refl
