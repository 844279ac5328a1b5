-- ===== src/Interleaver/Valid.antt =====
-- The permutations that pass validation, so that construction returns.
pub mod Deal
pub mod Branches
use mathlib.Core.List.{Perm, filter}
use mathlib.Core.List.Perm
use mathlib.Core.Logic.{if_pos, if_neg}
use native.Mathlib.Decide.{dec_lt}
use native.Mathlib.Nat.{div-add-mod}
use spectracuda.Common.{
  ℕ, zero, suc, ◌+◌, ◌-◌, ◌*◌, ◌/◌, ◌%◌, ◌<◌, ◌≤◌, ◌≡◌, ◌≢◌, refl, sym, ap, ◌∙◌, List, [], ◌∷◌,
  ◌++◌, map, Option, none, some, ok, le→leb, ==_iff, arith, length, count_up, length-count_up,
  flat_map, all_equal_iff, sorted-range, length-sorted, swap_blocks, mod-below,
}
use spectracuda.Numpy.{Sorting}
use spectracuda.Interleaver.{Interleaver, units_of, bit_perm, build_permutation}
use spectracuda.Interleaver.Schemes.{
  Scheme, block, permutation, convolutional, liquid, Sources, interleaver, grid_rows, read_order,
  block_permutation,
}
use Branches.{convolutional_permutation-perm}
use spectracuda.Interleaver.Ranges.{flat_map-count_up}

-- A permutation of the units passes.
build_permutation-returns :
    (np : Sorting) (n_bits unit_bits : ℕ) (unit_perm : List ℕ)
    → Perm unit_perm (count_up 0 (n_bits / unit_bits))
    → (il : Interleaver) × (build_permutation np n_bits unit_bits unit_perm ≡ ok il)
unfolding build_permutation
build_permutation-returns np n_bits unit_bits unit_perm h =
    let in_order = sorted-range (n_bits / unit_bits) h in
    let long : length unit_perm ≡ n_bits / unit_bits =
      sym (length-sorted unit_perm)
      ∙ (ap length in_order ∙ length-count_up 0 (n_bits / unit_bits)) in
    (
      record {
        n_bits = n_bits;
        perm = bit_perm unit_bits unit_perm;
        inverse_perm = np.argsort (bit_perm unit_bits unit_perm);
      },
      rw ((==_iff _ _).1 long, (all_equal_iff _ _).1 in_order) refl,
    )

-- The sizes that a constructor takes.
pub record IsSize (n_bits unit_bits : ℕ) : Type 0 where
  pub some_bits : 1 ≤ n_bits
  pub some_unit : 1 ≤ unit_bits
  pub whole_units : n_bits % unit_bits ≡ 0

units_of-returns :
    (n_bits unit_bits : ℕ)
    → IsSize n_bits unit_bits
    → units_of n_bits unit_bits ≡ ok (n_bits / unit_bits)
unfolding units_of
units_of-returns n_bits unit_bits s =
    rw
      (
        le→leb 1 n_bits s.some_bits,
        le→leb 1 unit_bits s.some_unit,
        (==_iff (n_bits % unit_bits) 0).1 s.whole_units,
      )
      refl

-- Taking the first entry of every column out.
column_out :
    (f : ℕ → ℕ) (g : ℕ → List ℕ) (cs : List ℕ)
    → Perm (flat_map (λ (c : ℕ). f c ∷ g c) cs) (map f cs ++ flat_map g cs)
column_out f g [] = Perm.rfl
column_out f g (c ∷ cs) = Perm.cons (f c) (
    Perm.trans (Perm.append_left (g c) (column_out f g cs))
      (swap_blocks (g c) (map f cs) (flat_map g cs)))

no_entries : (cs : List ℕ) → flat_map {B = ℕ} (λ (c : ℕ). []) cs ≡ []
no_entries [] = refl
no_entries (c ∷ cs) = no_entries cs

-- A grid read by columns holds what it holds read by rows.
transposed :
    (f : ℕ → ℕ → ℕ) (rs cs : List ℕ)
    → Perm
        (flat_map (λ (c : ℕ). map (λ (r : ℕ). f r c) rs) cs)
        (flat_map (λ (r : ℕ). map (f r) cs) rs)
transposed f [] cs = rw (no_entries cs) Perm.rfl
transposed f (r ∷ rs) cs =
    Perm.trans (column_out (f r) (λ (c : ℕ). map (λ (r : ℕ). f r c) rs) cs)
      (Perm.append_left (map (f r) cs) (transposed f rs cs))

read_order-perm : (rows columns : ℕ) → Perm (read_order rows columns) (count_up 0 (rows * columns))
read_order-perm rows columns =
    Perm.trans (transposed (λ (r c : ℕ). r * columns + c) (count_up 0 rows) (count_up 0 columns)) (
      rw (flat_map-count_up columns 0 rows)
        (let start : 0 * columns ≡ 0 = omega arith in rw start Perm.rfl))

filter-above : (i n bound : ℕ) → bound ≤ i → filter (λ (k : ℕ). dec_lt k bound) (count_up i n) ≡ []
filter-above i zero bound h = refl
filter-above i (suc n) bound h =
    rw (if_neg, (let above : ¬ (i < bound) = λ p. absurd (omega arith) in above))
      (filter-above (suc i) n bound (omega arith))

-- What is left of a range below a bound.
filter-count_up :
    (i d n bound : ℕ)
    → i + d ≡ bound
    → d ≤ n
    → filter (λ (k : ℕ). dec_lt k bound) (count_up i n) ≡ count_up i d
filter-count_up i zero n bound e h = filter-above i n bound (omega arith)
filter-count_up i (suc d) zero bound e h = absurd (omega arith)
filter-count_up i (suc d) (suc n) bound e h =
    let inside : i < bound = omega arith in
    rw (if_pos, inside) (ap (◌∷◌ i) (filter-count_up (suc i) d n bound (omega arith) (omega arith)))

-- The cells of the grid are enough for all units.
grid_holds : (m n : ℕ) → 1 ≤ m → n ≤ m * ((n + (m - 1)) / m)
grid_holds m n h = omega (arith, div-add-mod (n + (m - 1)) m, mod-below (n + (m - 1)) m h)

block_permutation-perm :
    (floor_sqrt : ℕ → ℕ) (rows : Option ℕ) (n_units : ℕ)
    → rows ≢ some 0
    → (perm : List ℕ) × (block_permutation floor_sqrt rows n_units ≡ ok perm)
      × Perm perm (count_up 0 n_units)
unfolding block_permutation
block_permutation-perm floor_sqrt rows n_units h =
    let m : ℕ = grid_rows floor_sqrt rows n_units in
    let positive = grid_rows-positive floor_sqrt rows n_units h in
    let n : ℕ = (n_units + (m - 1)) / m in
    (
      filter (λ (k : ℕ). dec_lt k n_units) (read_order m n),
      rw (le→leb 1 m positive) refl,
      Perm.trans (Perm.filter (λ (k : ℕ). dec_lt k n_units) (read_order-perm m n)) (
          rw
            (filter-count_up 0 n_units (m * n) n_units (omega arith)
              (grid_holds m n_units positive))
            Perm.rfl),
    )
  where
    grid_rows-positive :
        (floor_sqrt : ℕ → ℕ) (rows : Option ℕ) (n_units : ℕ)
        → rows ≢ some 0
        → 1 ≤ grid_rows floor_sqrt rows n_units
    grid_rows-positive floor_sqrt none n_units h = omega arith
    grid_rows-positive floor_sqrt (some zero) n_units h = absurd (h refl)
    grid_rows-positive floor_sqrt (some (suc rows)) n_units h = omega arith

-- The sizes and the arguments that a scheme's constructor takes. The generator's permutation is one,
-- as numpy documents.
abbrev pub IsAccepted : Sources → Scheme → ℕ → Type 0
IsAccepted np (block rows unit_bits) n_bits = IsSize n_bits unit_bits × (rows ≢ some 0)
IsAccepted np (permutation seed unit_bits) n_bits =
    IsSize n_bits unit_bits
    × Perm (np.generator_permutation seed (n_bits / unit_bits)) (count_up 0 (n_bits / unit_bits))
IsAccepted np (convolutional branches base_delay unit_bits) n_bits =
    IsSize n_bits unit_bits × (1 ≤ branches)
IsAccepted np (liquid depth) n_bits = ⊥

-- For the schemes "block", "permutation" and "convolutional": the constructor returns for every size
-- that whole units make up, with any number of rows or of branches but 0 and any delay, and with any
-- seed for which the generator permutes.
pub interleaver-IsAccepted :
    (np : Sources) (scheme : Scheme) (n_bits : ℕ)
    → IsAccepted np scheme n_bits
    → (il : Interleaver) × (interleaver np scheme n_bits ≡ ok il)
unfolding interleaver
interleaver-IsAccepted np (block rows unit_bits) n_bits h =
    let perm = block_permutation-perm np.floor_sqrt rows (n_bits / unit_bits) h.1 in
    let made = build_permutation-returns np.sorting n_bits unit_bits perm.0 perm.2 in
    (made.0, rw (units_of-returns n_bits unit_bits h.0, perm.1) made.1)
interleaver-IsAccepted np (permutation seed unit_bits) n_bits h =
    let made = build_permutation-returns np.sorting n_bits unit_bits _ h.1 in
    (made.0, rw (units_of-returns n_bits unit_bits h.0) made.1)
interleaver-IsAccepted np (convolutional branches base_delay unit_bits) n_bits h =
    let perm = convolutional_permutation-perm branches base_delay (n_bits / unit_bits) h.1 in
    let made = build_permutation-returns np.sorting n_bits unit_bits perm.0 perm.2 in
    (made.0, rw (units_of-returns n_bits unit_bits h.0, le→leb 1 branches h.1, perm.1) made.1)
interleaver-IsAccepted np (liquid depth) n_bits h = absurd h
