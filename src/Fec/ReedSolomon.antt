-- ===== src/Fec/ReedSolomon.antt =====
-- fec/reed_solomon.py: RS(255, 223) over GF(256), "rs_m8". A batch is coded row by row.
pub mod Field
pub mod Decoder
pub mod Parity
pub mod Syndromes
pub mod OneError
pub mod Place
pub mod RoundTrip
pub mod OneWrong
pub mod Corrects
pub mod Examples
use spectracuda.Common.{
  ℕ, zero, suc, ◌+◌, ◌-◌, ◌*◌, ◌/◌, ◌%◌, List, [], ◌∷◌, ◌++◌, map, Bool, true, false, if◌then◌else◌,
  ltb, leb, ◌==◌, length, get_or, take, drop, replicate, set_at, zip_with, Option, none, some,
  Outcome, ok, raise, value_error, ◌>>=◌, ◌>>◌, require, ◌&&◌, bit_and, bit_xor,
}
use spectracuda.Numpy.{Batch}
use spectracuda.Fec.Codes.{batch}

-- `_GF_POLY`
abbrev pub gf_poly : ℕ
gf_poly = 0x11D

-- `_x <<= 1` and the reduction
abbrev pub next_power : ℕ → ℕ
next_power x = if bit_and (x * 2) 0x100 == 0 then x * 2 else bit_xor (x * 2) gf_poly

unfoldable pub powers : ℕ → ℕ → List ℕ
powers zero x = []
powers (suc n) x = x ∷ powers n (next_power x)

-- `for _i in range(255, 512): _EXP[_i] = _EXP[_i - 255]`
unfoldable pub extend : ℕ → ℕ → List ℕ → List ℕ
extend zero i table = table
extend (suc n) i table = extend n (suc i) (table ++ get_or table (i - 255) 0 ∷ [])

unfoldable pub exp_table : List ℕ
exp_table = extend 257 255 (powers 255 1)

-- `_LOG[_x] = _i`
unfoldable pub fill_logs : ℕ → List ℕ → List ℕ → List ℕ
fill_logs i [] table = table
fill_logs i (x ∷ xs) table = fill_logs (suc i) xs (set_at x i table)

unfoldable pub log_table : List ℕ
log_table = fill_logs 0 (powers 255 1) (replicate 256 0)

unfoldable pub gf_exp : ℕ → ℕ
gf_exp n = get_or exp_table n 0

unfoldable pub gf_log : ℕ → ℕ
gf_log a = get_or log_table a 0

unfoldable pub gf_mul : ℕ → ℕ → ℕ
gf_mul a b = if a == 0 then 0 else if b == 0 then 0 else gf_exp (gf_log a + gf_log b)

unfoldable pub gf_inv : ℕ → ℕ
gf_inv a = gf_exp (255 - gf_log a)

-- `_gf_pow` of an exponent that is reduced already, `n % 255`
unfoldable pub gf_pow : ℕ → ℕ → ℕ
gf_pow a n = if a == 0 then 0 else gf_exp (gf_log a * n % 255)

-- `_N`, `_K` and `_NROOTS`
abbrev pub code_len : ℕ
code_len = 255

abbrev pub message_len : ℕ
message_len = 223

abbrev pub n_roots : ℕ
n_roots = 32

-- `_gf_pow(2, _FCR + i * _PRIM)`
unfoldable pub root : ℕ → ℕ
root i = gf_pow 2 ((1 + i) % 255)

-- `new_g`: the coefficients of g times x, and those of g times the root one place further
abbrev pub times_root : List ℕ → ℕ → List ℕ
times_root g r = zip_with bit_xor (g ++ 0 ∷ []) (0 ∷ map (λ (c : ℕ). gf_mul c r) g)

unfoldable pub generator_from : ℕ → ℕ → List ℕ → List ℕ
generator_from zero i g = g
generator_from (suc n) i g = generator_from n (suc i) (times_root g (root i))

-- `_GENERATOR`
unfoldable pub generator : List ℕ
generator = generator_from n_roots 0 (1 ∷ [])

-- One round of the shift register.
unfoldable pub parity_step : List ℕ → List ℕ → ℕ → List ℕ
parity_step gen parity m =
    let feedback = bit_xor m (get_or parity 0 0) in
    zip_with (λ (p g : ℕ). bit_xor p (gf_mul feedback g)) (drop 1 parity ++ 0 ∷ []) (drop 1 gen)

unfoldable pub parity_from : List ℕ → List ℕ → List ℕ → List ℕ
parity_from gen parity [] = parity
parity_from gen parity (m ∷ row) = parity_from gen (parity_step gen parity m) row

unfoldable pub encode_one : List ℕ → List ℕ
encode_one row = parity_from generator (replicate n_roots 0) row

-- The symbols that are taken as sent and never are.
abbrev pub padded : ℕ → List ℕ → List ℕ
padded real_k row = replicate (message_len - real_k) 0 ++ row

abbrev pub encode_row : ℕ → List ℕ → List ℕ
encode_row real_k row = row ++ encode_one (padded real_k row)

-- `np.stack` of no rows raises.
abbrev pub stack : List (List ℕ) → Outcome (List (List ℕ))
stack [] = raise value_error
stack (row ∷ rows) = ok (row ∷ rows)

abbrev pub array_encode : Batch → Outcome Batch
array_encode msg = do
  rows ← stack (map (encode_row msg.width) msg.rows)
  ok (batch (msg.width + n_roots) rows)

abbrev pub native_or {ℓ} : {A : Type ℓ} → Option A → A → A
native_or (some native) call = native
native_or none call = call

-- The first parameter is the encoder of a native library, if one is loaded.
unfoldable pub encode : Option (Batch → Outcome Batch) → Batch → Outcome Batch
encode native msg = do
  require (leb 1 msg.width && leb msg.width message_len)
  native_or native array_encode msg
