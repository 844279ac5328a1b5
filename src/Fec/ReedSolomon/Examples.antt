-- ===== src/Fec/ReedSolomon/Examples.antt =====
-- Runs of the Reed-Solomon code at concrete inputs.
use spectracuda.Common.{ℕ, List, ◌≡◌, refl, replicate, none, ok, arith, set_at, [], ◌∷◌}
use spectracuda.Fec.Codes.{batch}
use spectracuda.Fec.ReedSolomon.RoundTrip.{AllSent, encode-IsCodeword}
use spectracuda.Fec.ReedSolomon.Corrects.{decode-corrects_symbol}
use spectracuda.Fec.ReedSolomon.Decoder.{
  evaluate, syndromes_one, all_zero, discrepancy, add_shifted, massey_step, massey_from,
  berlekamp_massey, locator_value, chien_search, pivot_from, clear_from, eliminate, gauss_from,
  solve_error_magnitudes, correct, correct_errors, decode_one, decode,
}
use spectracuda.Fec.ReedSolomon.{
  powers, extend, exp_table, fill_logs, log_table, gf_exp, gf_log, gf_mul, gf_inv, gf_pow, root,
  encode_row, encode,
}

product : gf_mul 2 142 ≡ 1
unfolding gf_mul gf_exp gf_log exp_table log_table extend fill_logs powers set_at
product = refl

-- The symbol at place 3 of the zero codeword arrives wrong.
corrected : decode_one (set_at 3 77 (replicate 255 0)) ≡ ok (replicate 223 0)
unfolding evaluate syndromes_one all_zero discrepancy add_shifted massey_step massey_from
    berlekamp_massey locator_value chien_search pivot_from clear_from eliminate gauss_from
    solve_error_magnitudes correct correct_errors decode_one gf_mul gf_inv gf_pow root gf_exp gf_log
    exp_table log_table extend fill_logs powers set_at
corrected = refl

-- Five symbols in five places are wrong.
corrected_five :
    decode_one
      (set_at 3 77 (set_at 4 1 (set_at 90 255 (set_at 200 5 (set_at 254 9 (replicate 255 0))))))
    ≡ ok (replicate 223 0)
unfolding evaluate syndromes_one all_zero discrepancy add_shifted massey_step massey_from
    berlekamp_massey locator_value chien_search pivot_from clear_from eliminate gauss_from
    solve_error_magnitudes correct correct_errors decode_one gf_mul gf_inv gf_pow root gf_exp gf_log
    exp_table log_table extend fill_logs powers set_at
corrected_five = refl

encode-IsCodeword_example :
    (sent : List (List ℕ)) × (encode none (batch 3 ((1 ∷ 2 ∷ 3 ∷ []) ∷ [])) ≡ ok (batch 35 sent))
    × AllSent 3 ((1 ∷ 2 ∷ 3 ∷ []) ∷ []) sent
    × (decode none (batch 35 sent) ≡ ok (batch 3 ((1 ∷ 2 ∷ 3 ∷ []) ∷ [])))
encode-IsCodeword_example =
    encode-IsCodeword 3 ((1 ∷ 2 ∷ 3 ∷ []) ∷ []) (omega arith) (omega arith) (omega arith)
      ((refl, omega arith), tt)

decode-corrects_symbol_example :
    (encode none (batch 3 ((1 ∷ 2 ∷ 3 ∷ []) ∷ []))
      ≡ ok (batch 35 (encode_row 3 (1 ∷ 2 ∷ 3 ∷ []) ∷ [])))
    × (decode none (batch 35 (set_at 1 200 (encode_row 3 (1 ∷ 2 ∷ 3 ∷ [])) ∷ []))
        ≡ ok (batch 3 ((1 ∷ 2 ∷ 3 ∷ []) ∷ [])))
decode-corrects_symbol_example =
    decode-corrects_symbol 3 ((1 ∷ 2 ∷ 3 ∷ []) ∷ [])
      (set_at 1 200 (encode_row 3 (1 ∷ 2 ∷ 3 ∷ [])) ∷ []) (omega arith) (omega arith) (omega arith)
      ((refl, omega arith), tt) ((1, 200, omega arith, refl), tt)
