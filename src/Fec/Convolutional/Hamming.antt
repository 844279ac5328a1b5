-- ===== src/Fec/Convolutional/Hamming.antt =====
-- In how many places two rows differ.
use spectracuda.Common.{ℕ, ◌+◌, ◌≤◌, ◌≡◌, refl, List, [], ◌∷◌, arith, length}
use spectracuda.Fec.Convolutional.Viterbi.{differs}

abbrev pub distance : List ℕ → List ℕ → ℕ
distance (x ∷ xs) (y ∷ ys) = differs x y + distance xs ys
distance xs ys = 0

differs_comm : (x y : ℕ) → differs x y ≡ differs y x
differs_comm x y = ground arith

differs-triangle : (x y z : ℕ) → differs x z ≤ differs x y + differs y z
differs-triangle x y z = ground arith

pub distance_self : (xs : List ℕ) → distance xs xs ≡ 0
distance_self [] = refl
distance_self (x ∷ xs) = ground (arith, distance_self xs)

-- By way of a row of the same length it is no nearer.
pub distance-triangle :
    (xs ys zs : List ℕ)
    → length xs ≡ length ys
    → length zs ≡ length ys
    → distance xs zs ≤ distance xs ys + distance zs ys
distance-triangle [] ys zs h k = omega arith
distance-triangle (x ∷ xs) ys [] h k = omega arith
distance-triangle (x ∷ xs) [] (z ∷ zs) h k = absurd (omega arith)
distance-triangle (x ∷ xs) (y ∷ ys) (z ∷ zs) h k = omega (
  arith,
  differs-triangle x y z,
  differs_comm y z,
  distance-triangle xs ys zs (omega arith) (omega arith),
)
