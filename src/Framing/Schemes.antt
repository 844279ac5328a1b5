-- ===== src/Framing/Schemes.antt =====
-- framing/header.py: the tables of scheme names and codes.
use Prim.Native.String.{String}
use text.Mathlib.Text.{◌==◌ as str_eq}
use text.Mathlib.TextEquality.{eq_iff}
use spectracuda.Common.{
  ℕ, suc, ◌≤◌, ◌<◌, ◌≡◌, List, [], ◌∷◌, Option, none, some, arith, ◌==◌, if◌then◌else◌,
}

abbrev pub Table : Type 0
Table = List (String × ℕ)

abbrev pub mod_scheme_codes : Table
mod_scheme_codes = ("bpsk", 0) ∷ ("qpsk", 1) ∷ ("qam16", 2) ∷ ("qam64", 3) ∷ ("qam256", 4) ∷ []

abbrev pub crc_scheme_codes : Table
crc_scheme_codes =
    ("none", 1) ∷ ("checksum", 2) ∷ ("crc8", 3) ∷ ("crc16", 4) ∷ ("crc24", 5) ∷ ("crc32", 6) ∷ []

-- The LDPC variants in the order of their names.
abbrev pub fec_scheme_codes : Table
fec_scheme_codes =
    ("none", 0)
    ∷ ("conv_v27", 1)
    ∷ ("rs_m8", 2)
    ∷ ("ldpc_1296_r12", 3)
    ∷ ("ldpc_1296_r23", 4)
    ∷ ("ldpc_1296_r34", 5)
    ∷ ("ldpc_1296_r56", 6)
    ∷ ("ldpc_1944_r12", 7)
    ∷ ("ldpc_1944_r23", 8)
    ∷ ("ldpc_1944_r34", 9)
    ∷ ("ldpc_1944_r56", 10)
    ∷ ("ldpc_648_r12", 11)
    ∷ ("ldpc_648_r23", 12)
    ∷ ("ldpc_648_r34", 13)
    ∷ ("ldpc_648_r56", 14)
    ∷ []

-- `CODES[name]`
unfoldable pub code_of : String → Table → Option ℕ
code_of name [] = none
code_of name ((n, c) ∷ table) = if str_eq name n then some c else code_of name table

-- `NAMES[code]`, of the reversed table
unfoldable pub name_of : ℕ → Table → Option String
name_of code [] = none
name_of code ((n, c) ∷ table) = if code == c then some n else name_of code table

-- The codes ascend from `k` on and stay below `bound`.
abbrev pub Ascends : ℕ → ℕ → Table → Type 0
Ascends k bound [] = Unit
Ascends k bound ((n, c) ∷ table) = (k ≤ c) × (c < bound) × Ascends (suc c) bound table

pub code_of-range :
    (name : String) (k bound : ℕ) (table : Table) (code : ℕ)
    → Ascends k bound table
    → code_of name table ≡ some code
    → (k ≤ code) × (code < bound)
unfolding code_of
code_of-range name k bound [] code h e = cc
code_of-range name k bound ((n, c) ∷ table) code h e =
    ground (arith, code_of-range name (suc c) bound table code h.2)

pub name_of-code_of :
    (name : String) (k bound : ℕ) (table : Table) (code : ℕ)
    → Ascends k bound table
    → code_of name table ≡ some code
    → name_of code table ≡ some name
unfolding code_of name_of
name_of-code_of name k bound [] code h e = cc
name_of-code_of name k bound ((n, c) ∷ table) code h e = ground (
  arith,
  eq_iff name n,
  code_of-range name (suc c) bound table code h.2,
  name_of-code_of name (suc c) bound table code h.2,
)
