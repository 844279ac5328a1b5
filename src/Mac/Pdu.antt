-- ===== src/Mac/Pdu.antt =====
-- mac/pdu.py: the 32-bit header of every UM, AM and control PDU, and sequence numbers modulo
-- 1024. Python's integers are natural numbers here, so the guards `0 <= x` always hold.
pub mod RoundTrip
pub mod Sequence
use spectracuda.Common.{
  ℕ, zero, suc, ◌+◌, ◌-◌, ◌*◌, ◌/◌, ◌%◌, ◌^◌, ◌≤◌, ◌<◌, ◌≡◌, refl, List, [], ◌∷◌, ◌++◌, Bool, ◌&&◌,
  arith, Outcome, ok, raise, ◌>>=◌, ◌>>◌, require, ltb, leb, ◌==◌, length, take, drop, bits_of,
  value_from,
}

abbrev pub type_data : ℕ
type_data = 0

abbrev pub type_status : ℕ
type_status = 1

abbrev pub type_bind_request : ℕ
type_bind_request = 2

abbrev pub type_bind_response : ℕ
type_bind_response = 3

abbrev pub type_link_quality : ℕ
type_link_quality = 4

abbrev pub max_type : ℕ
max_type = 7

abbrev pub si_full : ℕ
si_full = 0

abbrev pub si_first : ℕ
si_first = 1

abbrev pub si_middle : ℕ
si_middle = 2

abbrev pub si_last : ℕ
si_last = 3

abbrev pub sn_bits : ℕ
sn_bits = 10

abbrev pub sn_modulus : ℕ
sn_modulus = 2 ^ sn_bits

abbrev pub so_bits : ℕ
so_bits = 16

abbrev pub type_bits : ℕ
type_bits = 3

abbrev pub header_len_bits : ℕ
header_len_bits = type_bits + 2 + sn_bits + so_bits + 1

unfoldable pub sn_add : ℕ → ℕ → ℕ
sn_add sn delta = (sn + delta) % sn_modulus

-- `(b - a) % SN_MODULUS` of Python is not negative: the modulus is added before the subtraction.
unfoldable pub sn_distance : ℕ → ℕ → ℕ
sn_distance a b = (b + (sn_modulus - a % sn_modulus)) % sn_modulus

unfoldable pub sn_precedes : ℕ → ℕ → Bool
unfolding sn_distance
sn_precedes a b = ltb 0 (sn_distance a b) && ltb (sn_distance a b) (sn_modulus / 2)

pub record Header : Type 0 where
  pub pdu_type : ℕ
  pub si : ℕ
  pub sn : ℕ
  pub so : ℕ

unfoldable pub encode_header : Header → Outcome (List ℕ)
encode_header h = do
  require (leb h.pdu_type max_type)
  require (leb h.si 3)
  require (ltb h.sn sn_modulus)
  require (ltb h.so (2 ^ so_bits))
  ok (
      bits_of type_bits h.pdu_type
      ++ (bits_of 2 h.si ++ (bits_of sn_bits h.sn ++ (bits_of so_bits h.so ++ (0 ∷ [])))))

-- `_value(offset, width)`
abbrev pub field : List ℕ → ℕ → ℕ → ℕ
field bits offset width = value_from 0 (take width (drop offset bits))

unfoldable pub decode_header : List ℕ → Outcome Header
decode_header bits = do
  require (length bits == header_len_bits)
  ok (record {
    pdu_type = field bits 0 type_bits;
    si = field bits type_bits 2;
    sn = field bits (type_bits + 2) sn_bits;
    so = field bits (type_bits + 2 + sn_bits) so_bits;
  })
