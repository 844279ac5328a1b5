-- ===== src/Mac/Capacity.antt =====
-- mac/capacity.py: the largest PDU that fits a frame, searched for with the packetizer's own
-- `encoded_length`. What the search reads of the OFDM object is a record.
pub mod Search
pub mod Blocks
use spectracuda.Common.{
  ℕ, zero, suc, ◌+◌, ◌-◌, ◌*◌, ◌/◌, ◌%◌, Bool, true, false, ◌||◌, not, Option, none, some, Outcome,
  ok, raise, loops, value_error, Exception, ◌>>=◌, ltb, leb, ◌==◌, if◌then◌else◌, max,
}
use spectracuda.Mac.Pdu.{header_len_bits}

-- A codec of `fec0`: without `k_bits` it works on single bits.
pub record Codec : Type 0 where
  pub k_bits : Option ℕ
  pub accepts_partial_block : Bool

pub record Phy : Type 0 where
  pub max_payload_symbols : ℕ
  pub bits_per_ofdm_symbol : ℕ
  pub fec_codec : Option Codec
  pub crc_key_length_bytes : ℕ
  pub encoded_length : ℕ → Outcome ℕ

abbrev pub limit : Phy → ℕ
limit phy = phy.max_payload_symbols * phy.bits_per_ofdm_symbol

-- `try: fits = encoded_length(n) <= limit`, `except ValueError: fits = False`
abbrev pub fits_from : Outcome ℕ → ℕ → Outcome Bool
fits_from (ok encoded) bound = ok (leb encoded bound)
fits_from (raise Exception.value_error) bound = ok false
fits_from (raise e) bound = raise e
fits_from loops bound = loops

unfoldable pub fits : Phy → ℕ → Outcome Bool
fits phy n = fits_from (phy.encoded_length n) (limit phy)

-- `while lo <= hi`
unfoldable pub search : ℕ → Phy → ℕ → ℕ → ℕ → Outcome ℕ
search zero phy lo hi best = loops
search (suc fuel) phy lo hi best =
    let mid = (lo + hi) / 2 / 8 * 8 in
    elim (leb lo hi) [
      | false ↦ ok best
      | true ↦ elim (ltb mid 8) [
        | true ↦ ok best
        | false ↦ (do
          is_fit ← fits phy mid
          elim is_fit [
            | true ↦ search fuel phy (mid + 8) hi mid
            | false ↦ search fuel phy lo (mid - 8) best
          ])
      ]
    ]

-- `while True`, over whole blocks
unfoldable pub search_blocks : ℕ → Phy → ℕ → ℕ → ℕ → Outcome ℕ
search_blocks zero phy block_bits n best = loops
search_blocks (suc fuel) phy block_bits n best =
    let raw = n * block_bits - phy.crc_key_length_bytes * 8 in
    elim (ltb raw 8 || not (raw % 8 == 0)) [
      | true ↦ search_blocks fuel phy block_bits (n + 1) best
      | false ↦ (do
        is_fit ← fits phy raw
        elim is_fit [ true ↦ search_blocks fuel phy block_bits (n + 1) raw | false ↦ ok best ])
    ]

-- The block length that the search has to keep to, if any.
abbrev pub whole_block : Option Codec → Option ℕ
whole_block none = none
whole_block (some codec) = if codec.accepts_partial_block then none else codec.k_bits

-- Enough rounds for every block length from 1 bit on.
abbrev pub block_rounds : Phy → ℕ
block_rounds phy = 8 * (limit phy + phy.crc_key_length_bytes * 8 + 2)

abbrev pub best_from : Option ℕ → Phy → Outcome ℕ
best_from none phy = search (suc (suc (limit phy))) phy 8 (limit phy) 8
best_from (some block_bits) phy = search_blocks (block_rounds phy) phy block_bits 1 8

unfoldable pub compute_max_segment_bits : Phy → Bool → Outcome ℕ
compute_max_segment_bits phy has_mac_header = do
  best ← best_from (whole_block phy.fec_codec) phy
  ok (if has_mac_header then max 8 (best - header_len_bits) else best)
