-- ===== src/Fec/Crc/Check.antt =====
-- `append_key` and `check_key` of fec/crc.py against each other.
use spectracuda.Common.{
  ℕ, zero, suc, ◌+◌, ◌-◌, ◌*◌, ◌/◌, ◌^◌, ◌≤◌, ◌<◌, ◌≡◌, refl, sym, ap, ap₂, ◌∙◌, List, [], ◌∷◌, map,
  Bool, true, false, ok, raise, value_error, leb, ◌==◌, length, take, drop, replicate, zip_with,
  All, arith, le→leb, length-append, All-append, length-take, drop_all, append-nil, length-map,
}
use spectracuda.Numpy.{Batch, IsBatch}
use spectracuda.Numpy.Bytes.{IsByte}
use spectracuda.Fec.Codes.{IsBlock}
use spectracuda.Fec.Crc.{
  CrcScheme, no_crc, checksum, crc8, crc16, crc24, crc32, key_length, key_bytes, received_key,
  append_key, check_key, without_key, received_keys, generate_key,
}
use spectracuda.Fec.Crc.Key.{key_of, generate_key_rows}
use spectracuda.Fec.Crc.Keyed.{
  zip-==, length-key_bytes, low_byte, keyed, take-keyed, received-keyed,
}

-- One message passes: its key is the one at its end.
abbrev pub is_valid : CrcScheme → ℕ → List ℕ → Bool
is_valid scheme width row = key_of scheme (take width row) == received_key 0 (drop width row)

without_key-IsBatch :
    (scheme : CrcScheme) (width : ℕ) (rows : List (List ℕ))
    → All (λ (row : List ℕ). length row ≡ width) rows
    → All
        (λ (row : List ℕ). length row ≡ width - key_length scheme)
        (map (take (width - key_length scheme)) rows)
without_key-IsBatch scheme width [] h = tt
without_key-IsBatch scheme width (row ∷ rows) h = (
  omega (arith, h.0, length-take (width - key_length scheme) row),
  without_key-IsBatch scheme width rows h.1,
)

zip-is_valid :
    (scheme : CrcScheme) (width : ℕ) (rows : List (List ℕ))
    → zip_with ◌==◌
        (map (key_of scheme) (map (take width) rows))
        (map (λ (row : List ℕ). received_key 0 (drop width row)) rows)
      ≡ map (is_valid scheme width) rows
zip-is_valid scheme width [] = refl
zip-is_valid scheme width (row ∷ rows) =
    ap (◌∷◌ (is_valid scheme width row)) (zip-is_valid scheme width rows)

zip-check :
    (numba : Bool) (scheme : CrcScheme) (msg : Batch)
    → IsBatch msg
    → zip_with ◌==◌ (generate_key numba scheme (without_key scheme msg)) (received_keys scheme msg)
      ≡ map (is_valid scheme (msg.width - key_length scheme)) msg.rows
zip-check numba scheme msg h =
    rw
      (generate_key_rows numba scheme (without_key scheme msg)
        (without_key-IsBatch scheme msg.width msg.rows h))
      (zip-is_valid scheme (msg.width - key_length scheme) msg.rows)

no_crc-is_valid :
    (width : ℕ) (rows : List (List ℕ))
    → All (λ (row : List ℕ). length row ≡ width) rows
    → replicate (length rows) true ≡ map (is_valid no_crc width) rows
no_crc-is_valid width [] h = refl
no_crc-is_valid width (row ∷ rows) h =
    ap₂ ◌∷◌ (rw (drop_all width row (omega (arith, h.0))) refl) (no_crc-is_valid width rows h.1)

-- What `check_key` says of each message.
pub check_key_rows :
    (numba : Bool) (scheme : CrcScheme) (msg : Batch)
    → IsBatch msg
    → key_length scheme ≤ msg.width
    → check_key numba scheme msg
      ≡ ok (map (is_valid scheme (msg.width - key_length scheme)) msg.rows)
unfolding check_key
check_key_rows numba no_crc msg h k =
    let whole : msg.width - 0 ≡ msg.width = omega arith in
    rw whole (ap ok (no_crc-is_valid msg.width msg.rows h))
check_key_rows numba checksum msg h k =
    rw (le→leb 1 msg.width k) (ap ok (zip-check numba checksum msg h))
check_key_rows numba crc8 msg h k = rw (le→leb 1 msg.width k) (ap ok (zip-check numba crc8 msg h))
check_key_rows numba crc16 msg h k = rw (le→leb 2 msg.width k) (ap ok (zip-check numba crc16 msg h))
check_key_rows numba crc24 msg h k = rw (le→leb 3 msg.width k) (ap ok (zip-check numba crc24 msg h))
check_key_rows numba crc32 msg h k = rw (le→leb 4 msg.width k) (ap ok (zip-check numba crc32 msg h))

keyed-no_crc : (rows : List (List ℕ)) → keyed no_crc rows ≡ rows
unfolding keyed
keyed-no_crc [] = refl
keyed-no_crc (row ∷ rows) = ap₂ ◌∷◌ (append-nil row) (keyed-no_crc rows)

-- What `append_key` makes of a batch.
pub append_key_rows :
    (numba : Bool) (scheme : CrcScheme) (msg : Batch)
    → IsBatch msg
    → append_key numba scheme msg
      ≡ record { width = msg.width + key_length scheme; rows = keyed scheme msg.rows }
unfolding append_key keyed
append_key_rows numba no_crc msg h = sym (
    ap₂ (λ (w : ℕ) (rows : List (List ℕ)). record { width = w; rows = rows }) (omega arith)
      (keyed-no_crc msg.rows))
append_key_rows numba checksum msg h = rw (generate_key_rows numba checksum msg h) refl
append_key_rows numba crc8 msg h = rw (generate_key_rows numba crc8 msg h) refl
append_key_rows numba crc16 msg h = rw (generate_key_rows numba crc16 msg h) refl
append_key_rows numba crc24 msg h = rw (generate_key_rows numba crc24 msg h) refl
append_key_rows numba crc32 msg h = rw (generate_key_rows numba crc32 msg h) refl

-- Messages with their keys are of one length too.
keyed-IsBatch :
    (scheme : CrcScheme) (width : ℕ) (rows : List (List ℕ))
    → All (λ (row : List ℕ). length row ≡ width) rows
    → All (λ (row : List ℕ). length row ≡ width + key_length scheme) (keyed scheme rows)
unfolding keyed
keyed-IsBatch scheme width [] h = tt
keyed-IsBatch scheme width (row ∷ rows) h = (
  length-append row (key_bytes (key_length scheme) (key_of scheme row))
      ∙ ap₂ ◌+◌ h.0 (length-key_bytes (key_length scheme) (key_of scheme row)),
  keyed-IsBatch scheme width rows h.1,
)

keyed-is_valid :
    (scheme : CrcScheme) (width : ℕ) (rows : List (List ℕ))
    → All (λ (row : List ℕ). length row ≡ width) rows
    → map (is_valid scheme width) (keyed scheme rows) ≡ replicate (length rows) true
keyed-is_valid scheme width rows h =
    sym (zip-is_valid scheme width (keyed scheme rows))
    ∙ (ap₂ (zip_with ◌==◌) (ap (map (key_of scheme)) (take-keyed scheme width rows h))
          (received-keyed scheme width rows h)
        ∙ (zip-== (map (key_of scheme) rows)
            ∙ ap (λ (n : ℕ). replicate n true) (length-map rows (key_of scheme))))

leb_short : (n width : ℕ) → width < n → leb n width ≡ false
leb_short n width h = ground arith

check_key_short :
    (numba : Bool) (scheme : CrcScheme) (msg : Batch)
    → msg.width < key_length scheme
    → check_key numba scheme msg ≡ raise value_error
unfolding check_key
check_key_short numba no_crc msg h = absurd (omega arith)
check_key_short numba checksum msg h = rw (leb_short 1 msg.width h) refl
check_key_short numba crc8 msg h = rw (leb_short 1 msg.width h) refl
check_key_short numba crc16 msg h = rw (leb_short 2 msg.width h) refl
check_key_short numba crc24 msg h = rw (leb_short 3 msg.width h) refl
check_key_short numba crc32 msg h = rw (leb_short 4 msg.width h) refl

-- For every scheme and every batch of messages of one length, with numba or without on either
-- side: `check_key` does not raise on what `append_key` returns, and it reports every message as
-- valid.
pub check_key-append_key :
    (sender receiver : Bool) (scheme : CrcScheme) (msg : Batch)
    → IsBatch msg
    → check_key receiver scheme (append_key sender scheme msg)
      ≡ ok (replicate (length msg.rows) true)
check_key-append_key sender receiver scheme msg h =
    let back : msg.width + key_length scheme - key_length scheme ≡ msg.width = omega arith in
    rw (append_key_rows sender scheme msg h) (
      check_key_rows receiver scheme _ (keyed-IsBatch scheme msg.width msg.rows h) (omega arith)
      ∙ rw back (ap ok (keyed-is_valid scheme msg.width msg.rows h)))

-- `check_key` raises `ValueError` exactly for the batches of messages that are shorter than the
-- key, and else returns one answer for each message: the key computed from all but the last
-- `key_length` bytes equals the number that those bytes spell.
check_key_cases :
    (numba : Bool) (scheme : CrcScheme) (msg : Batch)
    → IsBatch msg
    → (msg.width < key_length scheme → check_key numba scheme msg ≡ raise value_error)
      × (key_length scheme ≤ msg.width
          → check_key numba scheme msg
            ≡ ok (map (is_valid scheme (msg.width - key_length scheme)) msg.rows))
check_key_cases numba scheme msg h =
    (check_key_short numba scheme msg, check_key_rows numba scheme msg h)

key_bytes-IsByte : (n key : ℕ) → All IsByte (key_bytes n key)
key_bytes-IsByte zero key = tt
key_bytes-IsByte (suc n) key =
    (rw (low_byte (key / 2 ^ (n * 8))) (omega arith), key_bytes-IsByte n key)

-- Messages of bytes have keys of bytes.
pub keyed-IsBlock :
    (scheme : CrcScheme) (width : ℕ) (rows : List (List ℕ))
    → All (IsBlock IsByte width) rows
    → All (IsBlock IsByte (width + key_length scheme)) (keyed scheme rows)
unfolding keyed
keyed-IsBlock scheme width [] h = tt
keyed-IsBlock scheme width (row ∷ rows) h =
    let key = key_bytes (key_length scheme) (key_of scheme row) in
    (
      (
        length-append row key
            ∙ ap₂ ◌+◌ h.0.0 (length-key_bytes (key_length scheme) (key_of scheme row)),
        All-append IsByte row key h.0.1 (key_bytes-IsByte (key_length scheme) (key_of scheme row)),
      ),
      keyed-IsBlock scheme width rows h.1,
    )
