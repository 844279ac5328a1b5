-- ===== src/Interleaver/Schemes.antt =====
-- interleaver/block.py, permutation.py, convolutional.py and liquid.py: the permutations. What they
-- take from numpy, the floor of a square root and a seeded generator, is a parameter.
pub mod Liquid
use native.Mathlib.Decide.{dec_lt}
use mathlib.Core.List.{filter}
use spectracuda.Common.{
  ℕ, zero, suc, ◌+◌, ◌-◌, ◌*◌, ◌/◌, ◌%◌, List, [], ◌∷◌, ◌++◌, map, Bool, true, false, Option, none,
  some, Outcome, ok, raise, loops, value_error, ◌>>=◌, ◌>>◌, require, ltb, leb, ◌==◌, if◌then◌else◌,
  length, get_or, take, drop, replicate, count_up, flat_map,
}
use spectracuda.Numpy.{Sorting}
use spectracuda.Interleaver.{Interleaver, units_of, build_permutation}
use Liquid.{liquid_permutation}

-- `self.rows`, or `1 + int(np.floor(np.sqrt(n_units)))`
abbrev pub grid_rows : (ℕ → ℕ) → Option ℕ → ℕ → ℕ
grid_rows floor_sqrt none n_units = 1 + floor_sqrt n_units
grid_rows floor_sqrt (some rows) n_units = rows

-- The cells of a grid that is numbered row by row, read column by column.
abbrev pub read_order : ℕ → ℕ → List ℕ
read_order rows columns =
    flat_map (λ (c : ℕ). map (λ (r : ℕ). r * columns + c) (count_up 0 rows)) (count_up 0 columns)

unfoldable pub block_permutation : (ℕ → ℕ) → Option ℕ → ℕ → Outcome (List ℕ)
block_permutation floor_sqrt rows n_units = do
  let m = grid_rows floor_sqrt rows n_units
  require (leb 1 m)
  let n = (n_units + (m - 1)) / m
  ok (filter (λ (k : ℕ). dec_lt k n_units) (read_order m n))

-- `branch_lists[i].append(pos)`
unfoldable pub append_to : ℕ → ℕ → List (List ℕ) → List (List ℕ)
append_to i pos [] = []
append_to zero pos (branch ∷ branches) = (branch ++ (pos ∷ [])) ∷ branches
append_to (suc i) pos (branch ∷ branches) = branch ∷ append_to i pos branches

-- `for pos in range(n_units)`, with `n` of the positions left
unfoldable pub deal : ℕ → ℕ → ℕ → List (List ℕ) → List (List ℕ)
deal zero pos branches lists = lists
deal (suc n) pos branches lists = deal n (pos + 1) branches (append_to (pos % branches) pos lists)

abbrev pub rotate : ℕ → List ℕ → List ℕ
rotate delay lst =
    if length lst == 0 then [] else drop (delay % length lst) lst ++ take (delay % length lst) lst

unfoldable pub shifted_from : ℕ → ℕ → List (List ℕ) → List (List ℕ)
shifted_from i base_delay [] = []
shifted_from i base_delay (lst ∷ lists) =
    rotate (i * base_delay) lst ∷ shifted_from (i + 1) base_delay lists

-- What is read so far, and how far each branch is read.
pub record Readout : Type 0 where
  pub perm : List ℕ
  pub idx : List ℕ
  pub filled : ℕ

-- One round over the branches; `idx` of the result is that of the branches of the round.
unfoldable pub read_round : List (List ℕ) → List ℕ → List ℕ → ℕ → Readout
read_round [] idx perm filled = record { perm = perm; idx = []; filled = filled }
read_round (lst ∷ lists) [] perm filled = record { perm = perm; idx = []; filled = filled }
read_round (lst ∷ lists) (k ∷ idx) perm filled =
    let is_left = ltb k (length lst) in
    let rest =
      read_round lists idx (if is_left then perm ++ (get_or lst k 0 ∷ []) else perm)
        (if is_left then filled + 1 else filled) in
    record rest { idx = (if is_left then k + 1 else k) ∷ rest.idx }

-- `while filled < n_units`
unfoldable pub read_all : ℕ → ℕ → List (List ℕ) → Readout → Outcome (List ℕ)
read_all zero n_units lists state = if ltb state.filled n_units then loops else ok state.perm
read_all (suc fuel) n_units lists state = elim (ltb state.filled n_units) [
  | true ↦ read_all fuel n_units lists (read_round lists state.idx state.perm state.filled)
  | false ↦ ok state.perm
]

-- A round reads at least one position, so there are at most `n_units` of them.
unfoldable pub convolutional_permutation : ℕ → ℕ → ℕ → Outcome (List ℕ)
convolutional_permutation branches base_delay n_units =
    let shifted = shifted_from 0 base_delay (deal n_units 0 branches (replicate branches [])) in
    read_all n_units n_units shifted (record { perm = []; idx = replicate branches 0; filled = 0 })

-- The arguments of an interleaver's constructor, other than `n_bits`.
pub data Scheme : Type 0 where
  block : Option ℕ → ℕ → Scheme
  permutation : ℕ → ℕ → Scheme
  convolutional : ℕ → ℕ → ℕ → Scheme
  liquid : ℕ → Scheme

-- What the schemes take from numpy.
pub record Sources : Type 0 where
  pub sorting : Sorting
  pub floor_sqrt : ℕ → ℕ
  pub generator_permutation : ℕ → ℕ → List ℕ

abbrev pub block_interleaver : Sources → Option ℕ → ℕ → ℕ → Outcome Interleaver
block_interleaver np rows unit_bits n_bits = do
  n_units ← units_of n_bits unit_bits
  perm ← block_permutation np.floor_sqrt rows n_units
  build_permutation np.sorting n_bits unit_bits perm

abbrev pub permutation_interleaver : Sources → ℕ → ℕ → ℕ → Outcome Interleaver
permutation_interleaver np seed unit_bits n_bits = do
  n_units ← units_of n_bits unit_bits
  build_permutation np.sorting n_bits unit_bits (np.generator_permutation seed n_units)

abbrev pub convolutional_interleaver : Sources → ℕ → ℕ → ℕ → ℕ → Outcome Interleaver
convolutional_interleaver np branches base_delay unit_bits n_bits = do
  n_units ← units_of n_bits unit_bits
  require (leb 1 branches)
  perm ← convolutional_permutation branches base_delay n_units
  build_permutation np.sorting n_bits unit_bits perm

abbrev pub liquid_interleaver : Sources → ℕ → ℕ → Outcome Interleaver
liquid_interleaver np depth n_bits = do
  require (n_bits % 8 == 0)
  require (leb depth 4)
  n_units ← units_of n_bits 1
  perm ← liquid_permutation np.floor_sqrt depth n_units
  build_permutation np.sorting n_bits 1 perm

-- `resolve("interleaver", ...)`: the constructor of the scheme's class.
unfoldable pub interleaver : Sources → Scheme → ℕ → Outcome Interleaver
interleaver np (block rows unit_bits) n_bits = block_interleaver np rows unit_bits n_bits
interleaver np (permutation seed unit_bits) n_bits =
    permutation_interleaver np seed unit_bits n_bits
interleaver np (convolutional branches base_delay unit_bits) n_bits =
    convolutional_interleaver np branches base_delay unit_bits n_bits
interleaver np (liquid depth) n_bits = liquid_interleaver np depth n_bits
