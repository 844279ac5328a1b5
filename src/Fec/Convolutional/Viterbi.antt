-- ===== src/Fec/Convolutional/Viterbi.antt =====
-- fec/viterbi.py, class ConvolutionalCode: `decode` as array code, which treats each row of a
-- batch by itself. A path metric is a float32 that counts, or infinity; the sum of two such counts
-- is a parameter.
pub mod Optimal
pub mod Nearest
pub mod Corrects
use spectracuda.Common.{
  ℕ, zero, suc, ◌+◌, ◌-◌, ◌*◌, ◌/◌, ◌≤◌, ◌≡◌, List, [], ◌∷◌, map, Bool, true, false, Option, none,
  some, if◌then◌else◌, ltb, ◌==◌, length, get_or, take, replicate, count_up, bit_and,
}
use spectracuda.Fec.Codes.{batch}
use spectracuda.Numpy.{Batch}
use spectracuda.Fec.Convolutional.{tail_bits, out1, out2}

-- A number that is not negative, or infinity.
pub data Metric : Type 0 where
  finite : ℕ → Metric
  infinity : Metric

-- The sum of two counts in float32: numbers up to 2 ** 24 are exact, and rounding keeps the order.
pub record FloatSum : Type 0 where
  pub add : ℕ → ℕ → ℕ
  pub exact : (a b : ℕ) → a + b ≤ 16777216 → add a b ≡ a + b
  pub monotone : (a b c : ℕ) → a ≤ b → add a c ≤ add b c

abbrev pub below : Metric → Metric → Bool
below (finite m) (finite n) = ltb m n
below (finite m) infinity = true
below infinity n = false

-- `_N_STATES`
abbrev pub n_states : ℕ
n_states = 64

abbrev pub pred_a : ℕ → ℕ
pred_a ns = ns / 2

abbrev pub pred_b : ℕ → ℕ
pred_b ns = ns / 2 + 32

-- `_input_bit_for_ns`
abbrev pub input_bit : ℕ → ℕ
input_bit ns = bit_and ns 1

-- `(out != r).astype("float32")`
abbrev pub differs : ℕ → ℕ → ℕ
differs out r = if out == r then 0 else 1

-- The branch metric from state `p` to state `ns`.
unfoldable pub branch_metric : ℕ → ℕ → ℕ × ℕ → ℕ
branch_metric p b (r1, r2) = differs (out1 p b) r1 + differs (out2 p b) r2

-- The received bits of each step; an odd bit at the end is not read.
abbrev pub pairs : List ℕ → List (ℕ × ℕ)
pairs (r1 ∷ r2 ∷ bits) = (r1, r2) ∷ pairs bits
pairs (r1 ∷ []) = []
pairs [] = []

unfoldable pub start_metric : List Metric
start_metric = finite 0 ∷ replicate 63 infinity

-- `decoded_full[:, : n - tail]`, with Python's reading of a negative end
abbrev pub keep : ℕ → ℕ → List ℕ → List ℕ
keep n tail bits = if ltb n tail then take (n - (tail - n)) bits else take (n - tail) bits

module _ (fl : FloatSum) where
  abbrev pub plus : Metric → ℕ → Metric
  plus (finite m) n = finite (fl.add m n)
  plus infinity n = infinity

  -- The candidate for state `ns` by way of its predecessor `p`.
  abbrev pub candidate : List Metric → ℕ × ℕ → ℕ → ℕ → Metric
  candidate path_metric r ns p =
      plus (get_or path_metric p infinity) (branch_metric p (input_bit ns) r)

  abbrev pub choose_b : List Metric → ℕ × ℕ → ℕ → Bool
  choose_b path_metric r ns =
      below (candidate path_metric r ns (pred_b ns)) (candidate path_metric r ns (pred_a ns))

  unfoldable pub best_metric : List Metric → ℕ × ℕ → ℕ → Metric
  best_metric path_metric r ns =
      if choose_b path_metric r ns
      then candidate path_metric r ns (pred_b ns)
      else candidate path_metric r ns (pred_a ns)

  unfoldable pub best_pred : List Metric → ℕ × ℕ → ℕ → ℕ
  best_pred path_metric r ns = if choose_b path_metric r ns then pred_b ns else pred_a ns

  -- `survivor_prev_state`, the loop over the steps
  unfoldable pub survivors : List Metric → List (ℕ × ℕ) → List (List ℕ)
  survivors path_metric [] = []
  survivors path_metric (r ∷ rs) =
      map (best_pred path_metric r) (count_up 0 n_states)
      ∷ survivors (map (best_metric path_metric r) (count_up 0 n_states)) rs

-- The loop back from the last step: the state before the first step, and the bits.
unfoldable pub traceback : List (List ℕ) → ℕ → ℕ × List ℕ
traceback [] state = (state, [])
traceback (prev_state ∷ later) state =
    let (after, bits) = traceback later state in (get_or prev_state after 0, input_bit after ∷ bits)

unfoldable pub decode_row : FloatSum → List ℕ → List ℕ
decode_row fl bits =
    let rs = pairs bits in keep (length rs) tail_bits (traceback (survivors fl start_metric rs) 0).1

unfoldable pub array_decode : FloatSum → Batch → Batch
array_decode fl bits =
    batch
      (if ltb (bits.width / 2) tail_bits
        then bits.width / 2 - (tail_bits - bits.width / 2)
        else bits.width / 2 - tail_bits)
      (map (decode_row fl) bits.rows)

-- The decoder of a native library, if one is loaded.
unfoldable pub decode : FloatSum → Option (Batch → Batch) → Batch → Batch
decode fl (some native) bits = native bits
decode fl none bits = array_decode fl bits
