-- ===== src/Fec/ReedSolomon/Parity.antt =====
-- The parity of a message makes it a multiple of the generator polynomial.
use spectracuda.Common.{
  ℕ, zero, suc, ◌<◌, ◌≡◌, refl, sym, ap, ap₂, ◌∙◌, List, [], ◌∷◌, ◌++◌, Bool, true, ◌&&◌, ◌==◌,
  ==_iff, ltb, arith, length, length-append, length-zip_with, passes, tested, drop, replicate,
  zip_with, All, All-append, bit_xor, xor-lt, xor_self, xor_zero, zero_xor, xor_middle, set_at,
}
use spectracuda.Numpy.Bytes.{IsByte}
use spectracuda.Fec.Codes.{IsBlock}
use spectracuda.Fec.ReedSolomon.{
  powers, extend, exp_table, log_table, fill_logs, gf_exp, gf_log, gf_mul, gf_pow, root, generator,
  generator_from, parity_step, parity_from, encode_one, n_roots,
}
use spectracuda.Fec.ReedSolomon.Decoder.{evaluate}
use spectracuda.Fec.ReedSolomon.Field.{zero-mul, mul-zero, mul-lt, xor-mul, mul-xor, mul_assoc}

-- The generator: 33 coefficients of a byte each, the first is 1, and 0 at each of the roots.
is_root : ℕ → Bool
is_root i = evaluate (root i) 0 generator == 0 && ltb (root i) 256

all_roots : passes is_root 0 32 ≡ true
unfolding passes is_root evaluate root generator generator_from gf_pow gf_mul gf_exp gf_log
    log_table fill_logs exp_table extend powers set_at
all_roots = refl

is_unit : ℕ → Bool
is_unit f = gf_mul f 1 == f

all_units : passes is_unit 0 256 ≡ true
unfolding passes is_unit gf_mul gf_exp gf_log log_table fill_logs exp_table extend powers set_at
all_units = refl

pub root-lt : (i : ℕ) → i < 32 → root i < 256
unfolding is_root
root-lt i h = ground (arith, tested is_root 32 0 i (omega arith) (omega arith) all_roots)

root-root : (i : ℕ) → i < 32 → evaluate (root i) 0 generator ≡ 0
unfolding is_root
root-root i h = ground (arith, tested is_root 32 0 i (omega arith) (omega arith) all_roots)

pub mul-one : (f : ℕ) → f < 256 → gf_mul f 1 ≡ f
unfolding is_unit
mul-one f h =
    (==_iff (gf_mul f 1) f).0 (tested is_unit 256 0 f (omega arith) (omega arith) all_units)

rest_of_generator : List ℕ
rest_of_generator = drop 1 generator

generator-eq : generator ≡ 1 ∷ rest_of_generator
unfolding rest_of_generator generator generator_from root gf_pow gf_mul gf_exp gf_log log_table
    fill_logs exp_table extend powers set_at
generator-eq = refl

rest-size : length rest_of_generator ≡ 32
unfolding rest_of_generator generator generator_from
rest-size = refl

rest-bytes : All IsByte rest_of_generator
unfolding rest_of_generator generator generator_from root gf_pow gf_mul gf_exp gf_log log_table
    fill_logs exp_table extend powers set_at
rest-bytes = omega arith

-- A round keeps the register's length, and its entries bytes.
sums-IsByte :
    (f : ℕ) (ps gs : List ℕ)
    → f < 256
    → All IsByte ps
    → All IsByte gs
    → All IsByte (zip_with (λ (p g : ℕ). bit_xor p (gf_mul f g)) ps gs)
sums-IsByte f [] gs hf hp hg = tt
sums-IsByte f (p ∷ ps) [] hf hp hg = tt
sums-IsByte f (p ∷ ps) (g ∷ gs) hf hp hg =
    (xor-lt 8 p (gf_mul f g) hp.0 (mul-lt f g hf hg.0), sums-IsByte f ps gs hf hp.1 hg.1)

parity_step-IsBlock :
    (parity : List ℕ) (m : ℕ)
    → IsBlock IsByte 32 parity
    → m < 256
    → IsBlock IsByte 32 (parity_step generator parity m)
unfolding parity_step rest_of_generator
parity_step-IsBlock [] m h hm = absurd (omega (arith, h.0))
parity_step-IsBlock (p0 ∷ ps) m h hm =
    let f = bit_xor m p0 in
    let long : length (ps ++ 0 ∷ []) ≡ length rest_of_generator =
      omega (arith, length-append ps (0 ∷ []), h.0, rest-size) in
    (
      length-zip_with (ps ++ 0 ∷ []) rest_of_generator (λ (p g : ℕ). bit_xor p (gf_mul f g)) long
          ∙ (long ∙ rest-size),
      sums-IsByte f (ps ++ 0 ∷ []) rest_of_generator (xor-lt 8 m p0 hm h.1.0)
          (All-append IsByte ps (0 ∷ []) h.1.1 (omega arith)) rest-bytes,
    )

pub parity_from-IsBlock :
    (row parity : List ℕ)
    → All IsByte row
    → IsBlock IsByte 32 parity
    → IsBlock IsByte 32 (parity_from generator parity row)
unfolding parity_from
parity_from-IsBlock [] parity hr h = h
parity_from-IsBlock (m ∷ row) parity hr h =
    parity_from-IsBlock row (parity_step generator parity m) hr.1
      (parity_step-IsBlock parity m h hr.0)

module _ (r : ℕ) (r_byte : r < 256) where
  pub evaluate-append :
      (a : ℕ) (xs ys : List ℕ) → evaluate r a (xs ++ ys) ≡ evaluate r (evaluate r a xs) ys
  unfolding evaluate
  evaluate-append a [] ys = refl
  evaluate-append a (x ∷ xs) ys = evaluate-append (bit_xor (gf_mul a r) x) xs ys

  evaluate-zeros : (n : ℕ) → evaluate r 0 (replicate n 0) ≡ 0
  unfolding evaluate
  evaluate-zeros zero = refl
  evaluate-zeros (suc n) =
      ap (λ (t : ℕ). evaluate r t (replicate n 0)) (xor_zero (gf_mul 0 r) ∙ zero-mul r)
      ∙ evaluate-zeros n

  combined :
      (f a b p g : ℕ)
      → f < 256
      → a < 256
      → b < 256
      → g < 256
      → bit_xor (gf_mul (bit_xor a (gf_mul f b)) r) (bit_xor p (gf_mul f g))
        ≡ bit_xor (bit_xor (gf_mul a r) p) (gf_mul f (bit_xor (gf_mul b r) g))
  combined f a b p g hf ha hb hg =
      rw
        (
          xor-mul a (gf_mul f b) r ha (mul-lt f b hf hb) r_byte,
          mul_assoc f b r hf hb r_byte,
          mul-xor f (gf_mul b r) g hf (mul-lt b r hb r_byte) hg,
        )
        (xor_middle (gf_mul a r) (gf_mul f (gf_mul b r)) p (gf_mul f g))

  -- The value of a sum of two polynomials, one of them multiplied by a constant.
  evaluate-combined :
      (f a b : ℕ) (ps gs : List ℕ)
      → f < 256
      → a < 256
      → b < 256
      → length ps ≡ length gs
      → All IsByte ps
      → All IsByte gs
      → evaluate r (bit_xor a (gf_mul f b)) (zip_with (λ (p g : ℕ). bit_xor p (gf_mul f g)) ps gs)
        ≡ bit_xor (evaluate r a ps) (gf_mul f (evaluate r b gs))
  unfolding evaluate
  evaluate-combined f a b [] [] hf ha hb len hp hg = refl
  evaluate-combined f a b [] (g ∷ gs) hf ha hb len hp hg = absurd (omega arith)
  evaluate-combined f a b (p ∷ ps) [] hf ha hb len hp hg = absurd (omega arith)
  evaluate-combined f a b (p ∷ ps) (g ∷ gs) hf ha hb len hp hg =
      ap (λ (t : ℕ). evaluate r t (zip_with (λ (x y : ℕ). bit_xor x (gf_mul f y)) ps gs))
        (combined f a b p g hf ha hb hg.0)
      ∙ evaluate-combined f (bit_xor (gf_mul a r) p) (bit_xor (gf_mul b r) g) ps gs hf
          (xor-lt 8 (gf_mul a r) p (mul-lt a r ha r_byte) hp.0)
          (xor-lt 8 (gf_mul b r) g (mul-lt b r hb r_byte) hg.0) (omega arith) hp.1 hg.1

  module _ (at_root : evaluate r 0 generator ≡ 0) where
    rest_root : evaluate r 1 rest_of_generator ≡ 0
    unfolding evaluate
    rest_root =
        ap (λ (t : ℕ). evaluate r t rest_of_generator)
          (sym (ap (λ (t : ℕ). bit_xor t 1) (zero-mul r) ∙ zero_xor 1))
        ∙ (rw generator-eq at at_root)

    scaled_zero : (f : ℕ) → bit_xor 0 (gf_mul f 0) ≡ 0
    scaled_zero f = zero_xor (gf_mul f 0) ∙ mul-zero f

    next_value :
        (x m p0 : ℕ)
        → m < 256
        → p0 < 256
        → bit_xor (bit_xor x p0) (gf_mul (bit_xor m p0) 1) ≡ bit_xor x m
    next_value x m p0 hm hp =
        rw (mul-one (bit_xor m p0) (xor-lt 8 m p0 hm hp)) (
          xor_middle x p0 m p0
          ∙ (ap (bit_xor (bit_xor x m)) (xor_self p0) ∙ xor_zero (bit_xor x m)))

    shifted_root : (x : ℕ) (ps : List ℕ) → evaluate r x ps ≡ 0 → evaluate r x (ps ++ 0 ∷ []) ≡ 0
    unfolding evaluate
    shifted_root x ps h =
        evaluate-append x ps (0 ∷ [])
        ∙ (ap (λ (t : ℕ). bit_xor (gf_mul t r) 0) h ∙ (xor_zero (gf_mul 0 r) ∙ zero-mul r))

    -- A round keeps the message so far, with its parity, a multiple.
    step_root :
        (a m p0 : ℕ) (ps : List ℕ)
        → a < 256
        → m < 256
        → All IsByte (p0 ∷ ps)
        → length ps ≡ 31
        → evaluate r a (p0 ∷ ps) ≡ 0
        → evaluate r (bit_xor (gf_mul a r) m) (parity_step generator (p0 ∷ ps) m) ≡ 0
    unfolding parity_step evaluate rest_of_generator
    step_root a m p0 ps ha hm hp len h =
        let f = bit_xor m p0 in
        let x = bit_xor (gf_mul a r) p0 in
        let hf : f < 256 = xor-lt 8 m p0 hm hp.0 in
        let hx : x < 256 = xor-lt 8 (gf_mul a r) p0 (mul-lt a r ha r_byte) hp.0 in
        ap
          (λ (t : ℕ).
            evaluate r t
              (zip_with (λ (p g : ℕ). bit_xor p (gf_mul f g)) (ps ++ 0 ∷ []) rest_of_generator))
          (sym (next_value (gf_mul a r) m p0 hm hp.0))
        ∙ (evaluate-combined f x 1 (ps ++ 0 ∷ []) rest_of_generator hf hx (omega arith)
              (omega (arith, length-append ps (0 ∷ []), len, rest-size))
              (All-append IsByte ps (0 ∷ []) hp.1 (omega arith)) rest-bytes
            ∙ (ap₂ (λ (u v : ℕ). bit_xor u (gf_mul f v)) (shifted_root x ps h) rest_root
                ∙ scaled_zero f))

    parity_from-root :
        (a : ℕ) (row parity : List ℕ)
        → a < 256
        → All IsByte row
        → IsBlock IsByte 32 parity
        → evaluate r a parity ≡ 0
        → evaluate r (evaluate r a row) (parity_from generator parity row) ≡ 0
    unfolding evaluate parity_from
    parity_from-root a [] parity ha hr hp h = h
    parity_from-root a (m ∷ row) [] ha hr hp h = absurd (omega (arith, hp.0))
    parity_from-root a (m ∷ row) (p0 ∷ ps) ha hr hp h =
        parity_from-root (bit_xor (gf_mul a r) m) row (parity_step generator (p0 ∷ ps) m)
          (xor-lt 8 (gf_mul a r) m (mul-lt a r ha r_byte) hr.0) hr.1
          (parity_step-IsBlock (p0 ∷ ps) m hp hr.0)
          (step_root a m p0 ps ha hr.0 hp.1 (omega (arith, hp.0)) h)

-- A message with its parity has the value 0 at every root.
pub encode_one-root :
    (row : List ℕ) (i : ℕ)
    → All IsByte row
    → i < 32
    → evaluate (root i) 0 (row ++ encode_one row) ≡ 0
unfolding encode_one
encode_one-root row i h lt =
    evaluate-append (root i) (root-lt i lt) 0 row (encode_one row)
    ∙ parity_from-root (root i) (root-lt i lt) (root-root i lt) 0 row (replicate n_roots 0)
        (omega arith) h (refl, omega arith) (evaluate-zeros (root i) (root-lt i lt) n_roots)

pub encode_one-IsBlock : (row : List ℕ) → All IsByte row → IsBlock IsByte 32 (encode_one row)
unfolding encode_one
encode_one-IsBlock row h = parity_from-IsBlock row (replicate n_roots 0) h (refl, omega arith)
