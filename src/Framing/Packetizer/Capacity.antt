-- ===== src/Framing/Packetizer/Capacity.antt =====
-- What mac/capacity.py finds for a packetizer: the search's own assumptions hold of
-- `Packetizer.encoded_length`.
use native.Mathlib.Decide.{dec_lt}
use native.Mathlib.Nat.{add-mul}
use spectracuda.Common.{
  ℕ, ◌+◌, ◌-◌, ◌*◌, ◌/◌, ◌%◌, ◌≤◌, ◌<◌, ◌≡◌, refl, ap, Bool, true, false, not, ◌&&◌, is_some,
  Option, none, some, ◌>>◌, ok, leb, ◌==◌, ==_iff, arith, sum-of_divmod, mod-below, require,
}
use spectracuda.Fec.Wrapper
use spectracuda.Fec.Wrapper.{
  Fec, BlockCode, StreamCode, symbol_level, block_level, stream_level, grown_length,
}
use spectracuda.Fec.Wrapper.Lengths.{IsFec, last_length, last_length-lt}
use spectracuda.Mac.Capacity.{Codec, Phy, fits, fits_from, whole_block}
use spectracuda.Mac.Capacity.Search.{IsCapacity, compute_max_segment_bits-IsCapacity}
use spectracuda.Framing.Packetizer.{Packetizer, crc_key_length_bytes, length_after, encoded_length}

-- `k_bits` and `accepts_partial_block` of a codec, as its constructor sets them
abbrev pub codec_of : Fec → Codec
codec_of (symbol_level c nroots) = record { k_bits = some (c.k * 8); accepts_partial_block = true }
codec_of (block_level c) = record { k_bits = some c.k; accepts_partial_block = true }
codec_of (stream_level c) = record { k_bits = none; accepts_partial_block = false }

abbrev pub map_codec : Option Fec → Option Codec
map_codec none = none
map_codec (some f) = some (codec_of f)

-- What the search reads of an OFDM object with this packetizer.
abbrev pub phy_of : Packetizer → ℕ → ℕ → Phy
phy_of p max_payload_symbols bits_per_ofdm_symbol = record {
  max_payload_symbols = max_payload_symbols;
  bits_per_ofdm_symbol = bits_per_ofdm_symbol;
  fec_codec = map_codec p.fec_codec;
  crc_key_length_bytes = crc_key_length_bytes p.crc_codec;
  encoded_length = encoded_length p;
}

whole_block-none : (f : Option Fec) → whole_block (map_codec f) ≡ none
whole_block-none none = refl
whole_block-none (some (symbol_level c nroots)) = refl
whole_block-none (some (block_level c)) = refl
whole_block-none (some (stream_level c)) = refl

-- More blocks outweigh whatever is left over.
blocks_lt : (q d to s : ℕ) → s < to → q * to + s ≤ (q + 1 + d) * to
blocks_lt q d to s h = omega (arith, add-mul (q + 1) d to, add-mul q 1 to)

last_length_mono : (extra r s : ℕ) → r ≤ s → last_length extra r ≤ last_length extra s
last_length_mono extra r s h = ground arith

-- A smaller number has no larger quotient.
quotient_le : (from m n : ℕ) → 0 < from → m ≤ n → m / from ≤ n / from
quotient_le from m n h le = elim (dec_lt (n / from) (m / from)) [
  | no p ↦ omega arith
  | yes p ↦
      (let d : ℕ = m / from - n / from - 1 in
        let apart : n / from + 1 + d ≡ m / from = omega arith in
        let outweighs = blocks_lt (n / from) d from (n % from) (mod-below n from h) in
        let room : n / from * from + from ≤ (n / from + 1 + d) * from =
          omega (arith, add-mul (n / from + 1) d from, add-mul (n / from) 1 from) in
        absurd (
          omega (
            arith,
            rw apart at room,
            sum-of_divmod n from,
            sum-of_divmod m from,
            mod-below n from h,
          )))
]

grown_length_mono :
    (from extra m n : ℕ)
    → 0 < from
    → m ≤ n
    → grown_length from (from + extra) extra m ≤ grown_length from (from + extra) extra n
grown_length_mono from extra m n h le = elim (dec_lt (m / from) (n / from)) [
  | yes more ↦
      (let d : ℕ = n / from - m / from - 1 in
        let apart : m / from + 1 + d ≡ n / from = omega arith in
        let fits = last_length-lt from extra (m % from) (mod-below m from h) in
        let outweighs = blocks_lt (m / from) d (from + extra) (last_length extra (m % from)) fits in
        omega (arith, rw apart at outweighs))
  | no same ↦
      (let equal : n / from ≡ m / from = omega (arith, quotient_le from m n h le) in
        let left : m % from ≤ n % from =
          omega
            (arith, ap (λ (t : ℕ). t * from) equal, sum-of_divmod n from, sum-of_divmod m from) in
        rw equal (omega (arith, last_length_mono extra (m % from) (n % from) left)))
]

-- A longer message never takes fewer bits.
fec_length_mono :
    (f : Fec) (m n : ℕ) → IsFec f → m ≤ n → Wrapper.encoded_length f m ≤ Wrapper.encoded_length f n
unfolding Wrapper.encoded_length
fec_length_mono (symbol_level c nroots) m n h le =
    let eight : c.k * 8 + 8 * nroots ≡ c.n * 8 = omega (arith, h.2) in
    let mono = grown_length_mono (c.k * 8) (8 * nroots) m n (omega (arith, h.0)) le in
    rw eight at mono
fec_length_mono (block_level c) m n h le =
    let whole : c.k + (c.n - c.k) ≡ c.n = omega (arith, h.1) in
    let mono = grown_length_mono c.k (c.n - c.k) m n h.0 le in rw whole at mono
fec_length_mono (stream_level c) m n h le = omega arith

-- The lengths of a codec, if there is one, are those of a code whose blocks grow.
abbrev pub HasLengths : Option Fec → Type 0
HasLengths none = Unit
HasLengths (some f) = IsFec f

length_after_mono :
    (f : Option Fec) (m n : ℕ) → HasLengths f → m ≤ n → length_after f m ≤ length_after f n
length_after_mono none m n h le = le
length_after_mono (some f) m n h le = fec_length_mono f m n h le

abbrev pub sent_length : Packetizer → ℕ → ℕ
sent_length p n =
    length_after p.fec1_codec (length_after p.fec_codec (n + crc_key_length_bytes p.crc_codec * 8))

-- The sizes that a frame of `bound` bits holds: with a CRC, of whole bytes.
abbrev pub is_held : Packetizer → ℕ → ℕ → Bool
is_held p bound n = not (is_some p.crc_codec && not (n % 8 == 0)) && leb (sent_length p n) bound

encoded_length-fits :
    (p : Packetizer) (bound n : ℕ) → fits_from (encoded_length p n) bound ≡ ok (is_held p bound n)
unfolding encoded_length
encoded_length-fits p bound n =
    guard_fits (not (is_some p.crc_codec && not (n % 8 == 0))) (sent_length p n)
  where
    guard_fits :
        (test : Bool) (sent : ℕ)
        → fits_from (require test >> ok sent) bound ≡ ok (test && leb sent bound)
    guard_fits true sent = refl
    guard_fits false sent = refl

held :
    (has_crc tm tn : Bool) (sm sn bound : ℕ)
    → tm ≡ true
    → sm ≤ sn
    → (not (has_crc && not tn) && leb sn bound) ≡ true
    → (not (has_crc && not tm) && leb sm bound) ≡ true
held true tm true sm sn bound h le e = ground arith
held true tm false sm sn bound h le e = cc
held false tm tn sm sn bound h le e = ground arith

is_held_mono :
    (p : Packetizer) (bound m n : ℕ)
    → HasLengths p.fec_codec
    → HasLengths p.fec1_codec
    → m % 8 ≡ 0
    → m ≤ n
    → is_held p bound n ≡ true
    → is_held p bound m ≡ true
is_held_mono p bound m n h k whole le e =
    let extra : ℕ = crc_key_length_bytes p.crc_codec * 8 in
    let inner = length_after_mono p.fec_codec (m + extra) (n + extra) h (omega arith) in
    let longer : sent_length p m ≤ sent_length p n = length_after_mono p.fec1_codec _ _ k inner in
    held (is_some p.crc_codec) (m % 8 == 0) (n % 8 == 0) (sent_length p m) (sent_length p n) bound
      ((==_iff (m % 8) 0).1 whole) longer e

-- For every packetizer whose codes have blocks that grow, and every frame, the search over sizes
-- returns. What it finds is the largest size of whole bytes, of 8 bits at least and no more than the
-- frame's bits, whose message the frame holds with its key and coded by both codes, or 8 bits if there
-- is none; it returns that size without a MAC header, and with one 32 bits less, but 8 bits at least.
pub compute_max_segment_bits-is_held :
    (p : Packetizer) (max_payload_symbols bits_per_ofdm_symbol : ℕ) (has_mac_header : Bool)
    → HasLengths p.fec_codec
    → HasLengths p.fec1_codec
    → IsCapacity
        (phy_of p max_payload_symbols bits_per_ofdm_symbol)
        (is_held p (max_payload_symbols * bits_per_ofdm_symbol))
        has_mac_header
unfolding fits
compute_max_segment_bits-is_held p symbols bits has_mac_header h k =
    compute_max_segment_bits-IsCapacity (phy_of p symbols bits) (is_held p (symbols * bits))
      has_mac_header (whole_block-none p.fec_codec)
      (record {
        decides = λ n. encoded_length-fits p (symbols * bits) n;
        monotone = λ m n a b le e. is_held_mono p (symbols * bits) m n h k a le e;
      })
