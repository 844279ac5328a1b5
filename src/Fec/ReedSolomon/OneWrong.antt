-- ===== src/Fec/ReedSolomon/OneWrong.antt =====
-- `_decode_one` of a codeword with a wrong symbol.
use mathlib.Core.Path.{subst}
use native.Mathlib.Decide.{dec_lt}
use spectracuda.Common.{
  ℕ, ◌+◌, ◌-◌, ◌<◌, ◌≡◌, refl, sym, ap, ap₂, ◌∙◌, List, ◌∷◌, ◌++◌, false, ok, arith, length,
  length-append, get_or, take, set_at, All, get_or_middle, set_at_middle, set_at_beyond, middle,
  get_or-map-count_up, All-middle, bit_xor, xor-lt, xor_cancel, xor_zero, xor_comm, zero_xor,
}
use spectracuda.Numpy.Bytes.{IsByte}
use spectracuda.Fec.Codes.{IsBlock}
use spectracuda.Fec.ReedSolomon.{root, gf_exp}
use spectracuda.Fec.ReedSolomon.Decoder.{
  evaluate, syndromes_one, all_zero, correct, correct_errors, decode_one,
}
use spectracuda.Fec.ReedSolomon.Field.{exp_pos, exp-lt}
use spectracuda.Fec.ReedSolomon.Field.Powers.{no_divisors}
use spectracuda.Fec.ReedSolomon.Parity.{root-lt}
use spectracuda.Fec.ReedSolomon.Syndromes.{
  syndrome_of, syndrome-zero, syndrome-suc, raised-lt, evaluate_wrong,
}
use spectracuda.Fec.ReedSolomon.OneError.{berlekamp_massey-linear}
use spectracuda.Fec.ReedSolomon.Place.{chien_search-one, solve-one}
use spectracuda.Fec.ReedSolomon.RoundTrip.{IsCodeword, syndromes_zero}

undisturbed : (row : List ℕ) → IsCodeword row → decode_one row ≡ ok (take 223 row)
unfolding decode_one
undisturbed row h = rw (syndromes_zero row h) refl

-- A codeword, and the same row with `y` in place of `x`.
module _ (before after : List ℕ) (x y : ℕ) (long : length before + 1 + length after ≡ 255)
    (bytes : All IsByte (before ++ x ∷ after)) (y_lt : y < 256)
    (is_codeword : IsCodeword (before ++ x ∷ after)) where
  abbrev row : List ℕ
  row = before ++ y ∷ after

  abbrev behind : ℕ
  behind = length after

  abbrev error : ℕ
  error = bit_xor x y

  x_lt : x < 256
  x_lt = All-middle IsByte before after x bytes

  e_lt : error < 256
  e_lt = xor-lt 8 x y x_lt y_lt

  syndrome-row : (i : ℕ) → i < 32 → evaluate (root i) 0 row ≡ syndrome_of error behind i
  syndrome-row i h =
      evaluate_wrong (root i) 0 before after x y (root-lt i h) (omega arith) bytes y_lt
      ∙ (ap (λ (t : ℕ). bit_xor t (syndrome_of error behind i)) (is_codeword i h)
          ∙ zero_xor (syndrome_of error behind i))

  get_or-syndromes_one :
      (i : ℕ) → i < 32 → get_or (syndromes_one row) i 0 ≡ syndrome_of error behind i
  unfolding syndromes_one
  get_or-syndromes_one i h =
      get_or-map-count_up (λ (k : ℕ). evaluate (root k) 0 row) 0 32 i h
      ∙ (ap (λ (k : ℕ). evaluate (root k) 0 row) (let s : 0 + i ≡ i = omega arith in s)
          ∙ syndrome-row i h)

  syndrome_pos : 0 < error → 0 < syndrome_of error behind 0
  syndrome_pos h = rw (syndrome-zero error behind e_lt (omega arith)) (
      no_divisors error (gf_exp behind) h e_lt (exp_pos behind (omega arith))
        (exp-lt behind (omega arith)))

  detected : 0 < error → all_zero (syndromes_one row) ≡ false
  unfolding syndromes_one all_zero
  detected h = rw (syndrome-row 0 (omega arith)) (ground (arith, syndrome_pos h))

  fixed :
      ok (take 223 (set_at (254 - behind) (bit_xor (get_or row (254 - behind) 0) error) row))
      ≡ ok (take 223 (before ++ x ∷ after))
  fixed =
      let place : 254 - behind ≡ length before = omega arith in
      let value : bit_xor y error ≡ x = ap (bit_xor y) (xor_comm x y) ∙ xor_cancel y x in
      rw (place, get_or_middle before after y 0, value, set_at_middle before after y x) refl

  corrected :
      0 < error → correct_errors row (syndromes_one row) ≡ ok (take 223 (before ++ x ∷ after))
  unfolding correct_errors correct
  corrected h =
      let locator =
        berlekamp_massey-linear (syndromes_one row) (syndrome_of error behind) (gf_exp behind)
          get_or-syndromes_one (exp_pos behind (omega arith)) (exp-lt behind (omega arith))
          (syndrome_pos h) (raised-lt (root 0) error behind (root-lt 0 (omega arith)) e_lt)
          (λ n lt. syndrome-suc error behind e_lt (omega arith) n lt) in
      rw
        (
          locator,
          chien_search-one behind (omega arith),
          solve-one behind (omega arith) (syndromes_one row) error e_lt (
              get_or-syndromes_one 0 (omega arith) ∙ syndrome-zero error behind e_lt (omega arith)),
        )
        fixed

  pub decode_one-wrong : decode_one row ≡ ok (take 223 (before ++ x ∷ after))
  unfolding decode_one
  decode_one-wrong = elim (dec_lt 0 error) [
    | yes p ↦ rw (detected p) (corrected p)
    | no p ↦
        let equal : x ≡ y = sym (xor_zero x) ∙ (ap (bit_xor x) (omega arith) ∙ xor_cancel x y) in
        ap (λ (t : ℕ). decode_one (before ++ t ∷ after)) (sym equal)
        ∙ undisturbed (before ++ x ∷ after) is_codeword
  ]

in_place :
    (row before after : List ℕ) (a i v : ℕ)
    → row ≡ before ++ a ∷ after
    → length before ≡ i
    → IsBlock IsByte 255 row
    → v < 256
    → IsCodeword row
    → decode_one (set_at i v row) ≡ ok (take 223 row)
in_place row before after a i v e at h lt code =
    let long : length before + 1 + length after ≡ 255 =
      omega (arith, ap length e, length-append before (a ∷ after), h.0) in
    ap decode_one
      (ap₂ (λ (n : ℕ) (t : List ℕ). set_at n v t) (sym at) e ∙ set_at_middle before after a v)
    ∙ (decode_one-wrong before after a v long (subst (All IsByte) e h.1) lt
          (subst IsCodeword e code)
        ∙ ap (λ (t : List ℕ). ok (take 223 t)) (sym e))

-- A codeword with any symbol in any place of it.
pub decode_one-set_at :
    (row : List ℕ) (i v : ℕ)
    → IsBlock IsByte 255 row
    → v < 256
    → IsCodeword row
    → decode_one (set_at i v row) ≡ ok (take 223 row)
decode_one-set_at row i v h lt code = elim (dec_lt i (length row)) [
  | yes p ↦ let m = middle i row p in in_place row m.0 m.2 m.1 i v m.3 m.4 h lt code
  | no p ↦ ap decode_one (set_at_beyond i v row (omega arith)) ∙ undisturbed row code
]
