-- ===== src/Interleaver.antt =====
-- interleaver/base.py, class _PermutationInterleaverBase: blocks of bits rearranged by a fixed
-- permutation, which is validated when the object is made.
pub mod Ranges
pub mod Inverse
pub mod Valid
pub mod Examples
pub mod Schemes
use spectracuda.Common.{
  ℕ, ◌+◌, ◌*◌, ◌/◌, ◌%◌, ◌<◌, ◌≡◌, List, map, Bool, ◌&&◌, Outcome, ok, raise, value_error, ◌>>=◌,
  ◌>>◌, require, leb, ◌==◌, all_equal, length, get_or, sorted, count_up, flat_map,
}
use spectracuda.Numpy.{Batch, Sorting}

pub record Interleaver : Type 0 where
  pub n_bits : ℕ
  pub perm : List ℕ
  pub inverse_perm : List ℕ

-- The base class's `__init__`: the number of units.
unfoldable pub units_of : ℕ → ℕ → Outcome ℕ
units_of n_bits unit_bits = do
  require (leb 1 n_bits)
  require (leb 1 unit_bits)
  require (n_bits % unit_bits == 0)
  ok (n_bits / unit_bits)

-- `unit_perm[:, None] * unit_bits + np.arange(unit_bits)[None, :]`, as one row
abbrev pub bit_perm : ℕ → List ℕ → List ℕ
bit_perm unit_bits unit_perm =
    flat_map (λ (unit : ℕ). map (λ (k : ℕ). unit * unit_bits + k) (count_up 0 unit_bits)) unit_perm

unfoldable pub build_permutation : Sorting → ℕ → ℕ → List ℕ → Outcome Interleaver
build_permutation np n_bits unit_bits unit_perm = do
  let n_units = n_bits / unit_bits
  require (length unit_perm == n_units && all_equal (sorted unit_perm) (count_up 0 n_units))
  ok (record {
    n_bits = n_bits;
    perm = bit_perm unit_bits unit_perm;
    inverse_perm = np.argsort (bit_perm unit_bits unit_perm);
  })

-- `bits[:, indices]`, with indices below the width of the batch
abbrev pub gather : List ℕ → List ℕ → List ℕ
gather indices row = map (λ (i : ℕ). get_or row i 0) indices

unfoldable pub encode : Interleaver → Batch → Outcome Batch
encode il bits = do
  require (bits.width == il.n_bits)
  ok (record { width = length il.perm; rows = map (gather il.perm) bits.rows })

unfoldable pub decode : Interleaver → Batch → Outcome Batch
decode il bits = do
  require (bits.width == il.n_bits)
  ok (record { width = length il.inverse_perm; rows = map (gather il.inverse_perm) bits.rows })
