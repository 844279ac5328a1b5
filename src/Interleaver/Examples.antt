-- ===== src/Interleaver/Examples.antt =====
-- Runs of the interleavers.
use spectracuda.Common.{
  ℕ, zero, suc, ◌%◌, ◌<◌, ◌≡◌, ◌≢◌, refl, [], ◌∷◌, Option, some, ok, arith, count_up, sorted,
  insert_sorted, all_equal,
}
use spectracuda.Numpy.{Batch}
use spectracuda.Numpy.Instance.{sorting, sort_indices, insert_index}
use spectracuda.Fec.Codes.{batch}
use spectracuda.Interleaver.{Interleaver, encode, decode, units_of, build_permutation}
use spectracuda.Interleaver.Schemes.{
  block, convolutional, Sources, interleaver, convolutional_permutation, deal, append_to,
  shifted_from, read_all, read_round,
}
use spectracuda.Interleaver.Valid.{IsAccepted, interleaver-IsAccepted}
use spectracuda.Interleaver.Inverse.{interleaver_round_trip}

-- A square root in place of numpy's, and a generator that reverses.
abbrev root_from : ℕ → ℕ → ℕ
root_from zero n = 0
root_from (suc k) n = 1

-- Stand-ins for numpy that compute.
abbrev pub sources : Sources
sources = record {
  sorting = sorting;
  floor_sqrt = λ n. root_from n n;
  generator_permutation = λ seed n. count_up 0 n;
}

-- Six units of 2 bits over three branches with delays.
abbrev spread : Interleaver
spread = record {
  n_bits = 12;
  perm = 0 ∷ 1 ∷ 8 ∷ 9 ∷ 4 ∷ 5 ∷ 6 ∷ 7 ∷ 2 ∷ 3 ∷ 10 ∷ 11 ∷ [];
  inverse_perm = 0 ∷ 1 ∷ 8 ∷ 9 ∷ 4 ∷ 5 ∷ 6 ∷ 7 ∷ 2 ∷ 3 ∷ 10 ∷ 11 ∷ [];
}

spread_made : interleaver sources (convolutional 3 1 2) 12 ≡ ok spread
unfolding interleaver units_of convolutional_permutation deal append_to shifted_from read_all
    read_round build_permutation sorted insert_sorted all_equal sort_indices insert_index
spread_made = refl

abbrev sample : Batch
sample = batch 12 (count_up 20 12 ∷ [])

interleaver_round_trip_example :
    (sent : Batch) × (encode spread sample ≡ ok sent)
    × (sent.width ≡ 12)
    × (decode spread sent ≡ ok sample)
interleaver_round_trip_example =
    interleaver_round_trip sources (convolutional 3 1 2) 12 spread sample spread_made (refl, tt)
      refl

-- Four rows of pairs, of any whole number of pairs.
pub blocks-IsAccepted : (w : ℕ) → 0 < w → w % 2 ≡ 0 → IsAccepted sources (block (some 4) 2) w
blocks-IsAccepted w h e =
    (record { some_bits = h; some_unit = omega arith; whole_units = e }, λ e. four_rows e)
  where
    four_rows : ◌≢◌ {A = Option ℕ} (some 4) (some 0)
    four_rows e = cc

interleaver-IsAccepted_example :
    (il : Interleaver) × (interleaver sources (block (some 4) 2) 40 ≡ ok il)
interleaver-IsAccepted_example =
    interleaver-IsAccepted sources (block (some 4) 2) 40 (blocks-IsAccepted 40 (omega arith) refl)
