-- ===== src/Fec/ReedSolomon/Decoder.antt =====
-- fec/reed_solomon.py: `decode`, with the search for the errors and their correction.
use spectracuda.Common.{
  ℕ, zero, suc, ◌+◌, ◌-◌, ◌*◌, ◌%◌, List, [], ◌∷◌, ◌++◌, map, Bool, true, ◌&&◌, not, Option, none,
  some, Outcome, ok, raise, value_error, ◌>>=◌, ◌>>◌, require, if◌then◌else◌, leb, ◌==◌, length,
  get_or, take, drop, replicate, count_up, bit_xor, zip_with, set_at,
}
use spectracuda.Numpy.{Batch}
use spectracuda.Fec.Codes.{batch}
use spectracuda.Fec.ReedSolomon.{
  gf_mul, gf_inv, gf_pow, root, code_len, message_len, n_roots, padded, stack, native_or,
}

-- Horner's method.
unfoldable pub evaluate : ℕ → ℕ → List ℕ → ℕ
evaluate r result [] = result
evaluate r result (c ∷ row) = evaluate r (bit_xor (gf_mul result r) c) row

abbrev syndrome : List ℕ → ℕ → ℕ
syndrome row i = evaluate (root i) 0 row

unfoldable pub syndromes_one : List ℕ → List ℕ
syndromes_one row = map (syndrome row) (count_up 0 n_roots)

-- `not any(synd)`
unfoldable pub all_zero : List ℕ → Bool
all_zero [] = true
all_zero (s ∷ synd) = (s == 0) && all_zero synd

-- The variables of `_berlekamp_massey`.
pub record Locator : Type 0 where
  pub c : List ℕ
  pub b_poly : List ℕ
  pub l : ℕ
  pub m : ℕ
  pub b : ℕ

-- `for i in range(1, L + 1): delta ^= ...`, from `i` on
unfoldable pub discrepancy : List ℕ → List ℕ → ℕ → ℕ → ℕ → ℕ → ℕ
discrepancy c synd n zero i delta = delta
discrepancy c synd n (suc rounds) i delta =
    discrepancy c synd n rounds (suc i)
      (bit_xor delta (gf_mul (get_or c i 0) (get_or synd (n - i) 0)))

-- `C[i + m] ^= coef * B[i]` where `i + m` is within `C`
unfoldable pub add_shifted : List ℕ → ℕ → ℕ → List ℕ → List ℕ
add_shifted c coef m b_poly =
    zip_with bit_xor c
      (replicate m 0 ++ map (λ (x : ℕ). gf_mul coef x) b_poly ++ replicate (length c) 0)

unfoldable pub massey_step : List ℕ → ℕ → Locator → Locator
massey_step synd n s =
    let delta = discrepancy s.c synd n s.l 1 (get_or synd n 0) in
    let corrected = add_shifted s.c (gf_mul delta (gf_inv s.b)) s.m s.b_poly in
    if delta == 0
    then record s { m = s.m + 1 }
    else if leb (2 * s.l) n
    then record { c = corrected; b_poly = s.c; l = n + 1 - s.l; m = 1; b = delta }
    else record s { c = corrected; m = s.m + 1 }

unfoldable pub massey_from : List ℕ → ℕ → ℕ → Locator → Locator
massey_from synd zero n s = s
massey_from synd (suc rounds) n s = massey_from synd rounds (suc n) (massey_step synd n s)

unfoldable pub berlekamp_massey : List ℕ → List ℕ × ℕ
berlekamp_massey synd =
    let one = 1 ∷ replicate n_roots 0 in
    let s = massey_from synd n_roots 0 (record { c = one; b_poly = one; l = 0; m = 1; b = 1 }) in
    (take (s.l + 1) s.c, s.l)

-- `for deg, c in enumerate(lam): val ^= ...`
unfoldable pub locator_value : ℕ → ℕ → List ℕ → ℕ → ℕ
locator_value root_test deg [] val = val
locator_value root_test deg (c ∷ lam) val =
    locator_value root_test (suc deg) lam (bit_xor val (gf_mul c (gf_pow root_test (deg % 255))))

-- `_gf_pow(2, -j)`: Python's `-j % 255` is not negative.
unfoldable pub chien_search : List ℕ → ℕ → ℕ → List (ℕ × ℕ)
chien_search lam zero j = []
chien_search lam (suc rounds) j =
    let later = chien_search lam rounds (suc j) in
    if locator_value (gf_pow 2 ((255 - j % 255) % 255)) 0 lam 0 == 0
    then (code_len - 1 - j, gf_pow 2 (j % 255)) ∷ later
    else later

-- The rows of the linear system, each with its right side.
abbrev pub System : Type 0
System = List (List ℕ × ℕ)

abbrev pub entry : System → ℕ → ℕ → ℕ
entry a r col = get_or (get_or a r ([], 0)).0 col 0

unfoldable pub pivot_from : System → ℕ → ℕ → ℕ → Option ℕ
pivot_from a col zero r = none
pivot_from a col (suc rounds) r =
    let later = pivot_from a col rounds (suc r) in if entry a r col == 0 then later else some r

abbrev pub scale : ℕ → List ℕ × ℕ → List ℕ × ℕ
scale inv (row, v) = (map (λ (x : ℕ). gf_mul x inv) row, gf_mul v inv)

-- `A[r][c] ^ factor * A[col][c]`, and the same of the right side
abbrev pub minus : ℕ → List ℕ × ℕ → List ℕ × ℕ → List ℕ × ℕ
minus factor (pivot_row, pv) (row, v) = (
  zip_with (λ (x y : ℕ). bit_xor x (gf_mul factor y)) row pivot_row,
  bit_xor v (gf_mul factor pv),
)

unfoldable pub clear_from : List ℕ × ℕ → ℕ → ℕ → System → System
clear_from pivot_row col r [] = []
clear_from pivot_row col r (row ∷ a) =
    (if not (r == col) && not (get_or row.0 col 0 == 0)
      then minus (get_or row.0 col 0) pivot_row row
      else row)
    ∷ clear_from pivot_row col (suc r) a

-- The body of the loop over the columns.
unfoldable pub eliminate : System → ℕ → ℕ → System
eliminate a col pivot =
    let top = get_or a pivot ([], 0) in
    let swapped = set_at pivot (get_or a col ([], 0)) (set_at col top a) in
    let scaled = scale (gf_inv (get_or top.0 col 0)) top in
    clear_from scaled col 0 (set_at col scaled swapped)

abbrev pub found_pivot : Option ℕ → Outcome ℕ
found_pivot none = raise value_error
found_pivot (some pivot) = ok pivot

unfoldable pub gauss_from : ℕ → ℕ → System → Outcome System
gauss_from zero col a = ok a
gauss_from (suc rounds) col a = do
  pivot ← found_pivot (pivot_from a col (length a - col) col)
  gauss_from rounds (suc col) (eliminate a col pivot)

abbrev system_row : List ℕ → List (ℕ × ℕ) → ℕ → List ℕ × ℕ
system_row synd found i = (map (λ (p : ℕ × ℕ). gf_pow p.1 ((1 + i) % 255)) found, get_or synd i 0)

unfoldable pub solve_error_magnitudes : List ℕ → List (ℕ × ℕ) → Outcome (List ℕ)
solve_error_magnitudes synd found = do
  a ← gauss_from (length found) 0 (map (system_row synd found) (count_up 0 (length found)))
  ok (map (λ (row : List ℕ × ℕ). row.1) a)

-- `corrected[pos] ^= e`
unfoldable pub correct : List ℕ → List (ℕ × ℕ) → List ℕ → List ℕ
correct row ((pos, x) ∷ found) (e ∷ magnitudes) =
    correct (set_at pos (bit_xor (get_or row pos 0) e) row) found magnitudes
correct row found magnitudes = row

unfoldable pub correct_errors : List ℕ → List ℕ → Outcome (List ℕ)
correct_errors row synd = do
  let (lam, l) = berlekamp_massey synd
  let found = chien_search lam code_len 0
  require (length found == l)
  magnitudes ← solve_error_magnitudes synd found
  ok (take message_len (correct row found magnitudes))

unfoldable pub decode_one : List ℕ → Outcome (List ℕ)
decode_one row =
    let synd = syndromes_one row in
    if all_zero synd then ok (take message_len row) else correct_errors row synd

unfoldable pub decode_all : List (List ℕ) → Outcome (List (List ℕ))
decode_all [] = ok []
decode_all (row ∷ rows) = do decoded ← decode_one row; later ← decode_all rows; ok (decoded ∷ later)

-- The real symbols' message part stands before the parity.
unfoldable pub array_decode : Batch → Outcome Batch
array_decode codeword = do
  let real_k = codeword.width - n_roots
  full ← decode_all (map (padded real_k) codeword.rows)
  decoded ← stack full
  ok (batch real_k (map (drop (message_len - real_k)) decoded))

unfoldable pub decode : Option (Batch → Outcome Batch) → Batch → Outcome Batch
decode native codeword = do
  require (leb (1 + n_roots) codeword.width && leb codeword.width code_len)
  native_or native array_decode codeword
