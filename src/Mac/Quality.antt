-- ===== src/Mac/Quality.antt =====
-- mac/quality.py: the counters of a link, and the report that carries them to the peer. Python's
-- floating-point numbers are a type `F` with the operations that the source uses.
pub mod Counters
pub mod Report
use spectracuda.Common.{
  ℕ, suc, ◌+◌, ◌-◌, ◌*◌, ◌/◌, ◌%◌, ◌^◌, ℤ, pos, negsuc, List, [], ◌∷◌, ◌++◌, Bool, Option, none,
  some, Outcome, ok, raise, index_error, ◌>>=◌, ◌>>◌, require, ltb, leb, ◌==◌, if◌then◌else◌, take,
  drop, min, bit_or,
}
use spectracuda.Numpy.{Packing}
use spectracuda.Mac.Pdu.{
  Header, header_len_bits, si_full, type_link_quality, encode_header, decode_header,
}

-- `sum / count`, `count / count` and `fixed / scale` for numbers that are not 0, and
-- `int(round(x * scale))`, which raises when `x` is no finite number.
pub record Floats (F : Type 0) : Type 0 where
  pub zero_float : F
  pub plus : F → F → F
  pub over : F → ℕ → F
  pub ratio : ℕ → ℕ → F
  pub fixed_point : ℤ → ℕ → F
  pub scaled_round : F → ℕ → Outcome ℤ

pub record LinkQualityTracker (F : Type 0) : Type 0 where
  pub n_attempts : ℕ
  pub n_delivered : ℕ
  pub rssi_sum : F
  pub evm_sum : F
  pub evm_count : ℕ

-- `report_dict()`
pub record Stats (F : Type 0) : Type 0 where
  pub n_attempts : ℕ
  pub n_delivered : ℕ
  pub mean_rssi_db : F
  pub mean_evm : F

-- What `decode_quality_report` returns.
pub record QualityReport (F : Type 0) : Type 0 where
  pub n_attempts : ℕ
  pub n_delivered : ℕ
  pub delivered_ratio : F
  pub mean_rssi_db : F
  pub mean_evm : F

-- `max(-(1 << 15), min((1 << 15) - 1, v))`
abbrev pub clamp_i16 : ℤ → ℤ
clamp_i16 (pos n) = pos (min 32767 n)
clamp_i16 (negsuc n) = negsuc (min 32767 n)

-- `max(0, min(_U16_MAX, v))`
abbrev pub clamp_u16 : ℤ → ℕ
clamp_u16 (pos n) = min 65535 n
clamp_u16 (negsuc n) = 0

module _ {F : Type 0} (floats : Floats F) where
  -- `LinkQualityTracker()`
  abbrev pub link_quality_tracker : LinkQualityTracker F
  link_quality_tracker = record {
    n_attempts = 0;
    n_delivered = 0;
    rssi_sum = floats.zero_float;
    evm_sum = floats.zero_float;
    evm_count = 0;
  }

  observe_evm : Option F → LinkQualityTracker F → LinkQualityTracker F
  observe_evm none t = t
  observe_evm (some evm) t = record t {
    evm_sum = floats.plus t.evm_sum evm;
    evm_count = t.evm_count + 1;
  }

  unfoldable pub observe : F → Option F → Bool → LinkQualityTracker F → LinkQualityTracker F
  unfolding observe_evm
  observe rssi_db evm delivered t = observe_evm evm (record t {
    n_attempts = t.n_attempts + 1;
    n_delivered = t.n_delivered + (if delivered then 1 else 0);
    rssi_sum = floats.plus t.rssi_sum rssi_db;
  })

  unfoldable pub delivered_ratio : ℕ → ℕ → F
  delivered_ratio n_delivered n_attempts =
      if n_attempts == 0 then floats.zero_float else floats.ratio n_delivered n_attempts

  unfoldable pub mean_rssi_db : LinkQualityTracker F → F
  mean_rssi_db t =
      if t.n_attempts == 0 then floats.zero_float else floats.over t.rssi_sum t.n_attempts

  unfoldable pub mean_evm : LinkQualityTracker F → F
  mean_evm t = if t.evm_count == 0 then floats.zero_float else floats.over t.evm_sum t.evm_count

  unfoldable pub report_dict : LinkQualityTracker F → Stats F
  report_dict t = record {
    n_attempts = t.n_attempts;
    n_delivered = t.n_delivered;
    mean_rssi_db = mean_rssi_db t;
    mean_evm = mean_evm t;
  }

-- `packed[0]` and `packed[1]`
abbrev pub two_bytes : List ℕ → Outcome ℕ
two_bytes (b1 ∷ b0 ∷ bytes) = ok (bit_or (b1 * 2 ^ 8) b0)
two_bytes bytes = raise index_error

-- `v & 0xFFFF`
abbrev pub low_16 : ℤ → ℕ
low_16 (pos n) = n % 65536
low_16 (negsuc n) = 65535 - n % 65536

-- `-(1 << 15) <= v <= (1 << 15) - 1`
abbrev pub in_i16 : ℤ → Bool
in_i16 (pos n) = leb n 32767
in_i16 (negsuc n) = leb n 32767

module _ (np : Packing) where
  unfoldable pub u16 : ℕ → Outcome (List ℕ)
  u16 v = do require (leb v 65535); ok (np.unpackbits (v / 2 ^ 8 % 256 ∷ v % 256 ∷ []))

  unfoldable pub i16 : ℤ → Outcome (List ℕ)
  unfolding u16
  i16 v = do require (in_i16 v); u16 (low_16 v)

  unfoldable pub read_u16 : List ℕ → ℕ → Outcome ℕ
  read_u16 bits byte_offset = two_bytes (np.packbits (take 16 (drop (byte_offset * 8) bits)))

  -- `v - (1 << 16) if v >= (1 << 15) else v`
  unfoldable pub read_i16 : List ℕ → ℕ → Outcome ℤ
  unfolding read_u16
  read_i16 bits byte_offset = do
    v ← read_u16 bits byte_offset
    ok (if leb 32768 v then negsuc (65535 - v) else pos v)

  module _ {F : Type 0} (floats : Floats F) where
    unfoldable pub encode_quality_report : Stats F → Outcome (List ℕ)
    encode_quality_report stats = do
      rssi_fixed ← floats.scaled_round stats.mean_rssi_db 100
      evm_fixed ← floats.scaled_round stats.mean_evm 10000
      header ← encode_header (record { pdu_type = type_link_quality; si = si_full; sn = 0; so = 0 })
      attempts ← u16 (min stats.n_attempts 65535)
      delivered ← u16 (min stats.n_delivered 65535)
      rssi ← i16 (clamp_i16 rssi_fixed)
      evm ← u16 (clamp_u16 evm_fixed)
      ok (header ++ (attempts ++ (delivered ++ (rssi ++ evm))))

    unfoldable pub decode_quality_report : List ℕ → Outcome (QualityReport F)
    decode_quality_report pdu_bits = do
      header ← decode_header (take header_len_bits pdu_bits)
      require (header.pdu_type == type_link_quality)
      let payload = drop header_len_bits pdu_bits
      n_attempts ← read_u16 payload 0
      n_delivered ← read_u16 payload 2
      rssi_fixed ← read_i16 payload 4
      evm_fixed ← read_u16 payload 6
      ok (record {
        n_attempts = n_attempts;
        n_delivered = n_delivered;
        delivered_ratio = delivered_ratio floats n_delivered n_attempts;
        mean_rssi_db = floats.fixed_point rssi_fixed 100;
        mean_evm = floats.fixed_point (pos evm_fixed) 10000;
      })
