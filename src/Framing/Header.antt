-- ===== src/Framing/Header.antt =====
-- framing/header.py, class HeaderCodec: the 112 bits that tell a receiver how to read a frame.
-- The scrambling mask, which numpy's generator makes from a seed, is a parameter.
pub mod RoundTrip
use Prim.Native.String.{String}
use spectracuda.Common.{
  ℕ, ◌*◌, ◌/◌, ◌%◌, ◌^◌, List, [], ◌∷◌, ◌++◌, Option, none, some, Outcome, ok, raise, value_error,
  index_error, ◌>>=◌, ◌>>◌, require, ltb, ◌==◌, length, replicate, bit_or, bit_xor,
}
use spectracuda.Numpy.{Packing}
use spectracuda.Framing.Schemes.{
  Table, mod_scheme_codes, crc_scheme_codes, fec_scheme_codes, code_of, name_of,
}

abbrev pub header_len_bits : ℕ
header_len_bits = 112

abbrev pub protocol_version : ℕ
protocol_version = 1

-- What `decode_bits` returns.
pub record FrameHeader : Type 0 where
  pub version : ℕ
  pub payload_len_bits : ℕ
  pub mod_scheme : String
  pub crc : String
  pub fec0 : String
  pub fec1 : String
  pub user_data : List ℕ

-- `CODES[name]`, with ValueError for a name or a code that a table lacks
abbrev pub known {ℓ} : {A : Type ℓ} → Option A → Outcome A
known none = raise value_error
known (some a) = ok a

-- `bytes(8)` by default, and else exactly 8 bytes
abbrev pub user_bytes : Option (List ℕ) → Outcome (List ℕ)
user_bytes none = ok (replicate 8 0)
user_bytes (some bytes) = do require (length bytes == 8); ok bytes

-- `a ^ b`, for arrays of the same length
abbrev pub xor_bits : List ℕ → List ℕ → List ℕ
xor_bits (a ∷ xs) (b ∷ ys) = bit_xor a b ∷ xor_bits xs ys
xor_bits xs ys = []

abbrev pub read_bytes : List ℕ → Outcome FrameHeader
read_bytes (b0 ∷ b1 ∷ b2 ∷ b3 ∷ b4 ∷ b5 ∷ user_data) = do
  mod_scheme ← known (name_of b3 mod_scheme_codes)
  crc ← known (name_of (b4 / 2 ^ 5 % 8) crc_scheme_codes)
  fec0 ← known (name_of (b4 % 32) fec_scheme_codes)
  fec1 ← known (name_of (b5 % 32) fec_scheme_codes)
  ok (record {
    version = b0;
    payload_len_bits = bit_or (b1 * 2 ^ 8) b2;
    mod_scheme = mod_scheme;
    crc = crc;
    fec0 = fec0;
    fec1 = fec1;
    user_data = user_data;
  })
read_bytes bytes = raise index_error

module _ (np : Packing) (scramble_mask : List ℕ) where
  unfoldable pub encode_bits :
      ℕ → String → String → Option (List ℕ) → String → String → Outcome (List ℕ)
  encode_bits payload_len_bits mod_scheme fec0 user_data crc0 fec1 = do
    require (ltb payload_len_bits (2 ^ 16))
    mod_code ← known (code_of mod_scheme mod_scheme_codes)
    fec0_code ← known (code_of fec0 fec_scheme_codes)
    fec1_code ← known (code_of fec1 fec_scheme_codes)
    crc_code ← known (code_of crc0 crc_scheme_codes)
    user ← user_bytes user_data
    ok (
        xor_bits
          (np.unpackbits (
            protocol_version
            ∷ payload_len_bits / 2 ^ 8 % 256
            ∷ payload_len_bits % 256
            ∷ mod_code
            ∷ bit_or (crc_code % 8 * 2 ^ 5) (fec0_code % 32)
            ∷ fec1_code % 32
            ∷ user))
          scramble_mask)

  unfoldable pub decode_bits : List ℕ → Outcome FrameHeader
  decode_bits bits = do
    require (length bits == length scramble_mask)
    read_bytes (np.packbits (xor_bits bits scramble_mask))
