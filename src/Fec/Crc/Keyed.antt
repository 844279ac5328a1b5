-- ===== src/Fec/Crc/Keyed.antt =====
-- Messages with their keys behind them, and the key that is read of its bytes.
use spectracuda.Common.{
  ℕ, zero, suc, ◌+◌, ◌*◌, ◌/◌, ◌%◌, ◌^◌, ◌<◌, ◌≡◌, refl, sym, ap, ap₂, List, [], ◌∷◌, map, true,
  ◌==◌, length, take, drop, replicate, zip_with, bit_and, All, arith, bit_and_mask, bit_or,
  bit_or_fields, ==_refl, take_append, drop_append,
}
use spectracuda.Fec.Crc.{
  CrcScheme, no_crc, checksum, crc8, crc16, crc24, crc32, key_length, key_bytes, with_key,
  received_key,
}
use spectracuda.Fec.Crc.Key.{key_of, key_of-lt}

shift_in_byte : (q b : ℕ) → q < 2 ^ 56 → b < 256 → bit_or (q * 2 ^ 8 % 2 ^ 64) b ≡ q * 2 ^ 8 + b
shift_in_byte q b fits h =
    let room : q * 2 ^ 8 % 2 ^ 64 ≡ q * 2 ^ 8 = omega arith in rw room (bit_or_fields 8 q b h)

pub length-key_bytes : (n key : ℕ) → length (key_bytes n key) ≡ n
length-key_bytes zero key = refl
length-key_bytes (suc n) key = ap suc (length-key_bytes n key)

pub low_byte : (x : ℕ) → bit_and x 0xFF ≡ x % 256
low_byte x = bit_and_mask 8 x

-- One round of the loop that reads the key: what stood above byte `x` is followed by its low byte.
read_byte : (q x : ℕ) → q ≡ x / 256 → x < 2 ^ 32 → bit_or (q * 2 ^ 8 % 2 ^ 64) (bit_and x 0xFF) ≡ x
read_byte q x e h =
    rw (low_byte x) (omega (arith, shift_in_byte q (x % 256) (omega arith) (omega arith)))

-- What the receiver reads of the bytes that were written.
pub received_key-key_bytes :
    (scheme : CrcScheme) (key : ℕ)
    → key < 256 ^ key_length scheme
    → received_key 0 (key_bytes (key_length scheme) key) ≡ key
received_key-key_bytes no_crc key h = omega arith
received_key-key_bytes checksum key h =
    rw (read_byte 0 (key / 2 ^ 0) (omega arith) (omega arith)) (omega arith)
received_key-key_bytes crc8 key h =
    rw (read_byte 0 (key / 2 ^ 0) (omega arith) (omega arith)) (omega arith)
received_key-key_bytes crc16 key h =
    rw
      (
        read_byte 0 (key / 2 ^ 8) (omega arith) (omega arith),
        read_byte (key / 2 ^ 8) (key / 2 ^ 0) (omega arith) (omega arith),
      )
      (omega arith)
received_key-key_bytes crc24 key h =
    rw
      (
        read_byte 0 (key / 2 ^ 16) (omega arith) (omega arith),
        read_byte (key / 2 ^ 16) (key / 2 ^ 8) (omega arith) (omega arith),
        read_byte (key / 2 ^ 8) (key / 2 ^ 0) (omega arith) (omega arith),
      )
      (omega arith)
received_key-key_bytes crc32 key h =
    rw
      (
        read_byte 0 (key / 2 ^ 24) (omega arith) (omega arith),
        read_byte (key / 2 ^ 24) (key / 2 ^ 16) (omega arith) (omega arith),
        read_byte (key / 2 ^ 16) (key / 2 ^ 8) (omega arith) (omega arith),
        read_byte (key / 2 ^ 8) (key / 2 ^ 0) (omega arith) (omega arith),
      )
      (omega arith)

-- Messages with their keys, row by row.
unfoldable pub keyed : CrcScheme → List (List ℕ) → List (List ℕ)
keyed scheme rows = zip_with (with_key scheme) rows (map (key_of scheme) rows)

pub length-keyed :
    (scheme : CrcScheme) (rows : List (List ℕ)) → length (keyed scheme rows) ≡ length rows
unfolding keyed
length-keyed scheme [] = refl
length-keyed scheme (row ∷ rows) = ap suc (length-keyed scheme rows)

-- The messages stand before their keys.
pub take-keyed :
    (scheme : CrcScheme) (width : ℕ) (rows : List (List ℕ))
    → All (λ (row : List ℕ). length row ≡ width) rows
    → map (take width) (keyed scheme rows) ≡ rows
unfolding keyed
take-keyed scheme width [] h = refl
take-keyed scheme width (row ∷ rows) h =
    ap₂ ◌∷◌ (rw (sym h.0) (take_append row _)) (take-keyed scheme width rows h.1)

pub received-keyed :
    (scheme : CrcScheme) (width : ℕ) (rows : List (List ℕ))
    → All (λ (row : List ℕ). length row ≡ width) rows
    → map (λ (row : List ℕ). received_key 0 (drop width row)) (keyed scheme rows)
      ≡ map (key_of scheme) rows
unfolding keyed
received-keyed scheme width [] h = refl
received-keyed scheme width (row ∷ rows) h =
    ap₂ ◌∷◌
      (rw (sym h.0, drop_append row (key_bytes (key_length scheme) (key_of scheme row)))
        (received_key-key_bytes scheme (key_of scheme row) (key_of-lt scheme row)))
      (received-keyed scheme width rows h.1)

pub zip-== : (keys : List ℕ) → zip_with ◌==◌ keys keys ≡ replicate (length keys) true
zip-== [] = refl
zip-== (key ∷ keys) = ap₂ ◌∷◌ (==_refl key) (zip-== keys)
