-- ===== src/Framing/Packetizer/Keys.antt =====
-- The CRC stage of the packetizer: it is taken back, and finds the key right.
use spectracuda.Common.{
  ℕ, ◌+◌, ◌-◌, ◌*◌, ◌/◌, ◌%◌, ◌≡◌, refl, sym, ap, ap₂, ◌∙◌, List, map, ◌>>=◌, Bool, true, Option,
  none, some, ok, arith, length, replicate, All, IsBit, length-map, ==_iff,
}
use spectracuda.Numpy.{Batch}
use spectracuda.Numpy.Bytes.{
  IsByte, Packs, unpackbits-IsBit, packbits-unpackbits, length-unpackbits, unpackbits-packbits,
}
use spectracuda.Fec.Codes.{batch, IsBlock, map-back, All-map, All-imp}
use spectracuda.Fec.Crc.{CrcScheme, key_length, check_key, without_key}
use spectracuda.Fec.Crc.Keyed.{keyed, length-keyed, take-keyed}
use spectracuda.Fec.Crc.Check.{append_key_rows, check_key-append_key, keyed-IsBlock}
use spectracuda.Framing.Packetizer.{
  Packages, crc_key_length_bytes, bits_to_bytes, bytes_to_bits, with_crc, without_crc,
}

abbrev pub IsBitRow : ℕ → List ℕ → Type 0
IsBitRow w = IsBlock IsBit w

-- A batch of bits of one width.
abbrev pub IsBits : ℕ → List (List ℕ) → Type 0
IsBits w rows = All (IsBlock IsBit w) rows

pub lengths_of :
    (P : ℕ → Type 0) (w : ℕ) (rows : List (List ℕ))
    → All (IsBlock P w) rows
    → All (λ (row : List ℕ). length row ≡ w) rows
lengths_of P w rows h = All-imp rows (λ row e. e.0) h

module _ (py : Packages) (scheme : CrcScheme) (w : ℕ) (rows : List (List ℕ)) (whole : w % 8 ≡ 0)
    (h : IsBits w rows) where
  packed : (row : List ℕ) → IsBlock IsBit w row → Packs py.packing (w / 8) row
  packed row e = unpackbits-packbits py.packing (w / 8) row (e.0 ∙ omega arith) e.1

  abbrev bytes : List (List ℕ)
  bytes = map py.packing.packbits rows

  bytes-IsBlock : All (IsBlock IsByte (w / 8)) bytes
  bytes-IsBlock =
      All-map (IsBlock IsByte (w / 8)) py.packing.packbits rows
        (λ row e. let p = packed row e in (p.2, p.1)) h

  abbrev pub keyed_bits : List (List ℕ)
  keyed_bits = map py.packing.unpackbits (keyed scheme bytes)

  keyed_bits-IsBits : IsBits (w + key_length scheme * 8) keyed_bits
  keyed_bits-IsBits =
      All-map (IsBlock IsBit (w + key_length scheme * 8)) py.packing.unpackbits (keyed scheme bytes)
        (λ row e. (
          length-unpackbits py.packing row e.1 ∙ omega (arith, e.0),
          unpackbits-IsBit py.packing row e.1,
        ))
        (keyed-IsBlock scheme (w / 8) bytes bytes-IsBlock)

  with_crc_lem :
      with_crc py (some scheme) (batch w rows) ≡ ok (batch (w + key_length scheme * 8) keyed_bits)
  with_crc_lem =
      let packed_width : (w + 7) / 8 ≡ w / 8 = omega arith in
      let width : (w / 8 + key_length scheme) * 8 ≡ w + key_length scheme * 8 = omega arith in
      rw
        (
          (==_iff (w % 8) 0).1 whole,
          packed_width,
          append_key_rows py.numba scheme (batch (w / 8) bytes)
              (lengths_of IsByte (w / 8) bytes bytes-IsBlock),
        )
        (ap (λ (n : ℕ). ok (batch n keyed_bits)) width)

  received_bytes :
      bits_to_bytes py.packing (batch (w + key_length scheme * 8) keyed_bits)
      ≡ batch (w / 8 + key_length scheme) (keyed scheme bytes)
  received_bytes =
      ap₂ batch
        (let e : (w + key_length scheme * 8 + 7) / 8 ≡ w / 8 + key_length scheme = omega arith in e)
        (map-back py.packing.packbits py.packing.unpackbits (keyed scheme bytes)
          (λ row e. packbits-unpackbits py.packing row e.1)
          (keyed-IsBlock scheme (w / 8) bytes bytes-IsBlock))

  checked :
      check_key py.numba scheme (batch (w / 8 + key_length scheme) (keyed scheme bytes))
      ≡ ok (replicate (length rows) true)
  checked =
      let lengths = lengths_of IsByte (w / 8) bytes bytes-IsBlock in
      ap (check_key py.numba scheme)
        (sym (append_key_rows py.numba scheme (batch (w / 8) bytes) lengths))
      ∙ (check_key-append_key py.numba py.numba scheme (batch (w / 8) bytes) lengths
          ∙ ap (λ (n : ℕ). ok (replicate n true)) (length-map rows py.packing.packbits))

  stripped :
      bytes_to_bits py.packing
        (without_key scheme (batch (w / 8 + key_length scheme) (keyed scheme bytes)))
      ≡ batch w rows
  stripped =
      let back : w / 8 + key_length scheme - key_length scheme ≡ w / 8 = omega arith in
      rw (back, take-keyed scheme (w / 8) bytes (lengths_of IsByte (w / 8) bytes bytes-IsBlock))
        (ap₂ batch (let e : w / 8 * 8 ≡ w = omega arith in e)
          (map-back py.packing.unpackbits py.packing.packbits rows (λ row e. (packed row e).0) h))

  without_crc_lem :
      without_crc py (some scheme) (batch (w + key_length scheme * 8) keyed_bits)
      ≡ ok (record { bits = batch w rows; crc_valid = some (replicate (length rows) true) })
  without_crc_lem =
      ap
        (λ (t : Batch). check_key py.numba scheme t >>= λ valid. ok (record {
          bits = bytes_to_bits py.packing (without_key scheme t);
          crc_valid = some valid;
        }))
        received_bytes
      ∙ rw checked (
          ap
            (λ (t : Batch).
              ok (record { bits = t; crc_valid = some (replicate (length rows) true) }))
            stripped)

-- The bits of a message with its key, if there is a CRC.
abbrev pub crc_rows : Packages → Option CrcScheme → List (List ℕ) → List (List ℕ)
crc_rows py none rows = rows
crc_rows py (some scheme) rows =
    map py.packing.unpackbits (keyed scheme (map py.packing.packbits rows))

-- A CRC takes whole bytes.
abbrev pub TakesCrc : Option CrcScheme → ℕ → Type 0
TakesCrc none w = Unit
TakesCrc (some scheme) w = w % 8 ≡ 0

-- What `decode` says of `n` messages that are intact.
abbrev pub all_valid : Option CrcScheme → ℕ → Option (List Bool)
all_valid none n = none
all_valid (some scheme) n = some (replicate n true)

pub crc_stage :
    (py : Packages) (codec : Option CrcScheme) (w : ℕ) (rows : List (List ℕ))
    → TakesCrc codec w
    → IsBits w rows
    → (with_crc py codec (batch w rows)
        ≡ ok (batch (w + crc_key_length_bytes codec * 8) (crc_rows py codec rows)))
      × (IsBits (w + crc_key_length_bytes codec * 8) (crc_rows py codec rows))
      × (without_crc py codec (batch (w + crc_key_length_bytes codec * 8) (crc_rows py codec rows))
          ≡ ok (record { bits = batch w rows; crc_valid = all_valid codec (length rows) }))
      × (length (crc_rows py codec rows) ≡ length rows)
crc_stage py none w rows whole h =
    let same : w + 0 * 8 ≡ w = omega arith in rw same (refl, h, refl, refl)
crc_stage py (some scheme) w rows whole h = (
  with_crc_lem py scheme w rows whole h,
  keyed_bits-IsBits py scheme w rows whole h,
  without_crc_lem py scheme w rows whole h,
  length-map (keyed scheme (map py.packing.packbits rows)) py.packing.unpackbits
      ∙ (length-keyed scheme (map py.packing.packbits rows) ∙ length-map rows py.packing.packbits),
)
