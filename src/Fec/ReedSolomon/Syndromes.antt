-- ===== src/Fec/ReedSolomon/Syndromes.antt =====
-- What one wrong symbol makes of the syndromes: a geometric progression.
use spectracuda.Common.{
  ℕ, zero, suc, ◌+◌, ◌<◌, ◌≡◌, refl, sym, ap, ◌∙◌, List, [], ◌∷◌, ◌++◌, Bool, true, ◌==◌, ==_iff,
  arith, length, passes, tested, bit_xor, xor-lt, xor_assoc, xor_comm, xor_cancel, set_at, All,
}
use spectracuda.Numpy.Bytes.{IsByte}
use spectracuda.Fec.ReedSolomon.{
  powers, extend, exp_table, log_table, fill_logs, gf_exp, gf_log, gf_mul, gf_pow, root,
}
use spectracuda.Fec.ReedSolomon.Decoder.{evaluate}
use spectracuda.Fec.ReedSolomon.Field.{mul_comm, mul_assoc, mul-lt, xor-mul, exp-lt}
use spectracuda.Fec.ReedSolomon.Field.Powers.{exp-mul}
use spectracuda.Fec.ReedSolomon.Parity.{mul-one, root-lt}

-- Each root is the next power of 2.
is_next_root : ℕ → Bool
is_next_root i = root i == gf_exp (suc i)

all_next_roots : passes is_next_root 0 32 ≡ true
unfolding passes is_next_root root gf_pow gf_exp gf_log log_table fill_logs exp_table extend powers
    set_at
all_next_roots = refl

root-exp : (i : ℕ) → i < 32 → root i ≡ gf_exp (suc i)
unfolding is_next_root
root-exp i h =
    (==_iff (root i) (gf_exp (suc i))).0
      (tested is_next_root 32 0 i (omega arith) (omega arith) all_next_roots)

-- Multiplied by r, n times.
unfoldable pub raised : ℕ → ℕ → ℕ → ℕ
raised r v zero = v
raised r v (suc n) = raised r (gf_mul v r) n

pub raised-lt : (r v n : ℕ) → r < 256 → v < 256 → raised r v n < 256
unfolding raised
raised-lt r v zero hr hv = hv
raised-lt r v (suc n) hr hv = raised-lt r (gf_mul v r) n hr (mul-lt v r hv hr)

swapped : (v c r : ℕ) → v < 256 → c < 256 → r < 256 → gf_mul (gf_mul v c) r ≡ gf_mul (gf_mul v r) c
swapped v c r hv hc hr =
    mul_assoc v c r hv hc hr ∙ (ap (gf_mul v) (mul_comm c r) ∙ sym (mul_assoc v r c hv hr hc))

raised-mul :
    (r v c n : ℕ) → r < 256 → v < 256 → c < 256 → raised r (gf_mul v c) n ≡ gf_mul (raised r v n) c
unfolding raised
raised-mul r v c zero hr hv hc = refl
raised-mul r v c (suc n) hr hv hc =
    ap (λ (t : ℕ). raised r t n) (swapped v c r hv hc hr)
    ∙ raised-mul r (gf_mul v r) c n hr (mul-lt v r hv hr) hc

powers_of_two : (gf_exp 0 ≡ 1) × (gf_exp 1 ≡ 2)
unfolding gf_exp exp_table extend powers
powers_of_two = (refl, refl)

two-mul : (n : ℕ) → n < 255 → gf_mul 2 (gf_exp n) ≡ gf_exp (suc n)
two-mul n h =
    ap (λ (t : ℕ). gf_mul t (gf_exp n)) (sym powers_of_two.1)
    ∙ (exp-mul 1 n (omega arith) h ∙ ap gf_exp (let e : 1 + n ≡ suc n = omega arith in e))

times_two :
    (y n : ℕ) → y < 256 → n < 255 → gf_mul (gf_mul y 2) (gf_exp n) ≡ gf_mul y (gf_exp (suc n))
times_two y n hy hn =
    mul_assoc y 2 (gf_exp n) hy (omega arith) (exp-lt n (omega arith))
    ∙ ap (gf_mul y) (two-mul n hn)

-- At the next root it is multiplied by the same number once more.
pub raised_next :
    (r v n : ℕ)
    → r < 256
    → v < 256
    → n < 255
    → raised (gf_mul r 2) v n ≡ gf_mul (raised r v n) (gf_exp n)
unfolding raised
raised_next r v zero hr hv hn = sym (ap (gf_mul v) powers_of_two.0 ∙ mul-one v hv)
raised_next r v (suc n) hr hv hn =
    let next = gf_mul v (gf_mul r 2) in
    raised_next r next n hr (mul-lt v (gf_mul r 2) hv (mul-lt r 2 hr (omega arith))) (omega arith)
    ∙ (ap (λ (t : ℕ). gf_mul (raised r t n) (gf_exp n)) (sym (mul_assoc v r 2 hv hr (omega arith)))
        ∙ (ap (λ (t : ℕ). gf_mul t (gf_exp n))
              (raised-mul r (gf_mul v r) 2 n hr (mul-lt v r hv hr) (omega arith))
            ∙ times_two (raised r (gf_mul v r) n) n
                (raised-lt r (gf_mul v r) n hr (mul-lt v r hv hr)) (omega arith)))

-- A sum falls into its parts.
pub evaluate-xor :
    (r : ℕ) (row : List ℕ) (a e : ℕ)
    → r < 256
    → a < 256
    → e < 256
    → All IsByte row
    → evaluate r (bit_xor a e) row ≡ bit_xor (evaluate r a row) (raised r e (length row))
unfolding evaluate raised
evaluate-xor r [] a e hr ha he h = refl
evaluate-xor r (x ∷ row) a e hr ha he h =
    ap (λ (t : ℕ). evaluate r t row)
      (ap (λ (t : ℕ). bit_xor t x) (xor-mul a e r ha he hr)
        ∙ (xor_assoc (gf_mul a r) (gf_mul e r) x
            ∙ (ap (bit_xor (gf_mul a r)) (xor_comm (gf_mul e r) x)
                ∙ sym (xor_assoc (gf_mul a r) x (gf_mul e r)))))
    ∙ evaluate-xor r row (bit_xor (gf_mul a r) x) (gf_mul e r) hr
        (xor-lt 8 (gf_mul a r) x (mul-lt a r ha hr) h.0) (mul-lt e r he hr) h.1

-- The syndromes of a wrong symbol that is `e` off, `j` symbols before the end.
abbrev pub syndrome_of : ℕ → ℕ → ℕ → ℕ
syndrome_of e j i = raised (root i) e j

module _ (e j : ℕ) (he : e < 256) (hj : j < 255) where
  raised_one : (n : ℕ) → raised 1 e n ≡ e
  unfolding raised
  raised_one zero = refl
  raised_one (suc n) = ap (λ (t : ℕ). raised 1 t n) (mul-one e he) ∙ raised_one n

  pub syndrome-zero : syndrome_of e j 0 ≡ gf_mul e (gf_exp j)
  syndrome-zero =
      ap (λ (t : ℕ). raised t e j) (root-exp 0 (omega arith) ∙ (powers_of_two.1 ∙ sym two))
      ∙ (raised_next 1 e j (omega arith) he hj ∙ ap (λ (t : ℕ). gf_mul t (gf_exp j)) (raised_one j))
    where
      two : gf_mul 1 2 ≡ 2
      two = mul_comm 1 2 ∙ mul-one 2 (omega arith)

  pub syndrome-suc :
      (i : ℕ) → i < 31 → syndrome_of e j (suc i) ≡ gf_mul (syndrome_of e j i) (gf_exp j)
  syndrome-suc i hi =
      ap (λ (t : ℕ). raised t e j) next_root
      ∙ raised_next (root i) e j (root-lt i (omega arith)) he hj
    where
      next_root : root (suc i) ≡ gf_mul (root i) 2
      next_root =
          root-exp (suc i) (omega arith)
          ∙ (sym (two-mul (suc i) (omega arith))
              ∙ (ap (gf_mul 2) (sym (root-exp i (omega arith))) ∙ mul_comm 2 (root i)))

  pub syndrome-lt : (i : ℕ) → i < 32 → syndrome_of e j i < 256
  syndrome-lt i hi = raised-lt (root i) e j (root-lt i hi) he

-- A row with another symbol in it.
pub evaluate_wrong :
    (r a : ℕ) (before after : List ℕ) (x y : ℕ)
    → r < 256
    → a < 256
    → All IsByte (before ++ x ∷ after)
    → y < 256
    → evaluate r a (before ++ y ∷ after)
      ≡ bit_xor (evaluate r a (before ++ x ∷ after)) (raised r (bit_xor x y) (length after))
unfolding evaluate
evaluate_wrong r a [] after x y hr ha h hy =
    ap (λ (t : ℕ). evaluate r t after)
      (sym (xor_assoc (gf_mul a r) x (bit_xor x y) ∙ ap (bit_xor (gf_mul a r)) (xor_cancel x y)))
    ∙ evaluate-xor r after (bit_xor (gf_mul a r) x) (bit_xor x y) hr
        (xor-lt 8 (gf_mul a r) x (mul-lt a r ha hr) h.0) (xor-lt 8 x y h.0 hy) h.1
evaluate_wrong r a (b ∷ before) after x y hr ha h hy =
    evaluate_wrong r (bit_xor (gf_mul a r) b) before after x y hr
      (xor-lt 8 (gf_mul a r) b (mul-lt a r ha hr) h.0) h.1 hy
