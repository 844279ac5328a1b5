-- ===== src/Framing/Packetizer.antt =====
-- framing/packetizer.py, class Packetizer: a key for the message, an inner code, an interleaver and
-- an outer code. `_get_interleaver` keeps the interleavers that it made by their size; an
-- interleaver is a function of its size, so that cache is not part of the model.
pub mod Keys
pub mod RoundTrip
pub mod Capacity
pub mod Examples
use Prim.Native.String.{String}
use text.Mathlib.Text.{◌==◌ as str_eq}
use spectracuda.Common.{
  ℕ, ◌+◌, ◌*◌, ◌/◌, ◌%◌, List, map, Bool, not, ◌&&◌, is_some, Option, none, some, Outcome, ok,
  raise, value_error, ◌>>=◌, ◌>>◌, require, ◌==◌, if◌then◌else◌,
}
use spectracuda.Numpy.{Batch, Packing}
use spectracuda.Fec.Crc.{CrcScheme, crc, key_length, append_key, check_key, without_key}
use spectracuda.Fec.Wrapper
use spectracuda.Fec.Wrapper.{Fec}
use spectracuda.Interleaver
use spectracuda.Interleaver.Schemes.{Scheme, Sources, interleaver}

-- What the class takes from other packages: numpy, and whether numba can be imported.
pub record Packages : Type 0 where
  pub packing : Packing
  pub sources : Sources
  pub numba : Bool

-- The codecs, `none` for the scheme "none".
pub record Packetizer : Type 0 where
  pub crc_codec : Option CrcScheme
  pub fec_codec : Option Fec
  pub fec1_codec : Option Fec
  pub scheme : Option Scheme

-- `CRC(crc)`, but for the name "none"
abbrev pub crc_codec_of : String → Outcome (Option CrcScheme)
crc_codec_of name = if str_eq name "none" then ok none else (crc name >>= λ codec. ok (some codec))

-- `Packetizer.__init__`; the FEC codecs come made.
unfoldable pub packetizer : String → Option Fec → Option Fec → Option Scheme → Outcome Packetizer
packetizer crc_name fec fec1 scheme = do
  require (not (is_some scheme && not (is_some fec1)))
  crc_codec ← crc_codec_of crc_name
  ok (record { crc_codec = crc_codec; fec_codec = fec; fec1_codec = fec1; scheme = scheme })

abbrev pub crc_key_length_bytes : Option CrcScheme → ℕ
crc_key_length_bytes none = 0
crc_key_length_bytes (some scheme) = key_length scheme

abbrev pub length_after : Option Fec → ℕ → ℕ
length_after none n = n
length_after (some f) n = Wrapper.encoded_length f n

unfoldable pub encoded_length : Packetizer → ℕ → Outcome ℕ
encoded_length p raw_bit_count = do
  require (not (is_some p.crc_codec && not (raw_bit_count % 8 == 0)))
  let pre_fec_bit_count = raw_bit_count + crc_key_length_bytes p.crc_codec * 8
  let after_fec0 = length_after p.fec_codec pre_fec_bit_count
  ok (length_after p.fec1_codec after_fec0)

abbrev pub bits_to_bytes : Packing → Batch → Batch
bits_to_bytes np bits = record { width = (bits.width + 7) / 8; rows = map np.packbits bits.rows }

abbrev pub bytes_to_bits : Packing → Batch → Batch
bytes_to_bits np bytes = record { width = bytes.width * 8; rows = map np.unpackbits bytes.rows }

abbrev pub with_crc : Packages → Option CrcScheme → Batch → Outcome Batch
with_crc py none bits = ok bits
with_crc py (some scheme) bits = do
  require (bits.width % 8 == 0)
  ok (bytes_to_bits py.packing (append_key py.numba scheme (bits_to_bytes py.packing bits)))

abbrev pub fec_encode : Packages → Option Fec → Batch → Outcome Batch
fec_encode py none bits = ok bits
fec_encode py (some f) bits = Wrapper.encode py.packing f bits

abbrev pub interleave : Packages → Option Scheme → Batch → Outcome Batch
interleave py none bits = ok bits
interleave py (some scheme) bits = do
  il ← interleaver py.sources scheme bits.width
  Interleaver.encode il bits

unfoldable pub encode : Packages → Packetizer → Batch → Outcome Batch
encode py p bits = do
  bits_with_crc ← with_crc py p.crc_codec bits
  after_fec0 ← fec_encode py p.fec_codec bits_with_crc
  interleaved ← interleave py p.scheme after_fec0
  fec_encode py p.fec1_codec interleaved

-- `raise ValueError(...) from exc` keeps the exception's class.
abbrev pub fec_decode : Packages → Option Fec → Batch → Outcome Batch
fec_decode py none bits = ok bits
fec_decode py (some f) bits = Wrapper.decode py.packing f bits

abbrev pub deinterleave : Packages → Option Scheme → Batch → Outcome Batch
deinterleave py none bits = ok bits
deinterleave py (some scheme) bits = do
  il ← interleaver py.sources scheme bits.width
  Interleaver.decode il bits

-- The dict that `decode` returns.
pub record Decoded : Type 0 where
  pub bits : Batch
  pub crc_valid : Option (List Bool)

abbrev pub without_crc : Packages → Option CrcScheme → Batch → Outcome Decoded
without_crc py none bits = ok (record { bits = bits; crc_valid = none })
without_crc py (some scheme) bits = do
  let bytes = bits_to_bytes py.packing bits
  crc_valid ← check_key py.numba scheme bytes
  ok (record {
    bits = bytes_to_bits py.packing (without_key scheme bytes);
    crc_valid = some crc_valid;
  })

unfoldable pub decode : Packages → Packetizer → Batch → Outcome Decoded
decode py p bits = do
  after_fec1 ← fec_decode py p.fec1_codec bits
  deinterleaved ← deinterleave py p.scheme after_fec1
  bits_with_crc ← fec_decode py p.fec_codec deinterleaved
  without_crc py p.crc_codec bits_with_crc
