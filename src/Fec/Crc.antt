-- ===== src/Fec/Crc.antt =====
-- fec/crc.py and fec/_numba_crc.py: the keys that tell whether a message arrived intact. A batch
-- is a matrix of bytes, one message in a row. Whether numba can be imported is a parameter.
pub mod Key
pub mod Bytewise
pub mod Keyed
pub mod Check
pub mod Detects
use Prim.Native.String.{String}
use text.Mathlib.Text.{◌==◌ as str_eq}
use spectracuda.Common.{
  ℕ, zero, suc, ◌+◌, ◌-◌, ◌*◌, ◌/◌, ◌%◌, ◌^◌, ◌≡◌, List, [], ◌∷◌, ◌++◌, map, Bool, true, false,
  Outcome, ok, raise, value_error, ◌>>=◌, ◌>>◌, require, leb, ◌==◌, if◌then◌else◌, length, get_or,
  take, drop, replicate, zip_with, count_up, bit_and, bit_or, bit_xor,
}
use spectracuda.Numpy.{Batch}

-- The names of `SCHEMES`, in its order.
pub data CrcScheme : Type 0 where
  no_crc checksum crc8 crc16 crc24 crc32 : CrcScheme

-- `CRC.__init__`: the scheme of a name, or ValueError.
unfoldable pub crc : String → Outcome CrcScheme
crc scheme =
    if str_eq scheme "none"
    then ok no_crc
    else if str_eq scheme "checksum"
    then ok checksum
    else if str_eq scheme "crc8"
    then ok crc8
    else if str_eq scheme "crc16"
    then ok crc16
    else if str_eq scheme "crc24"
    then ok crc24
    else if str_eq scheme "crc32"
    then ok crc32
    else raise value_error

abbrev pub reg_mask : ℕ
reg_mask = 2 ^ 32 - 1

abbrev pub key_length : CrcScheme → ℕ
key_length no_crc = 0
key_length checksum = 1
key_length crc8 = 1
key_length crc16 = 2
key_length crc24 = 3
key_length crc32 = 4

abbrev pub width_mask : CrcScheme → ℕ
width_mask no_crc = 0
width_mask checksum = 2 ^ 8 - 1
width_mask crc8 = 2 ^ 8 - 1
width_mask crc16 = 2 ^ 16 - 1
width_mask crc24 = 2 ^ 24 - 1
width_mask crc32 = 2 ^ 32 - 1

-- The source has no polynomial for the two schemes that use no table.
abbrev pub poly_orig : CrcScheme → ℕ
poly_orig crc8 = 0x07
poly_orig crc16 = 0x8005
poly_orig crc24 = 0x5D6DCB
poly_orig crc32 = 0x04C11DB7
poly_orig _ = 0

-- `for i in range(8): r |= ((b >> i) & 1) << (7 - i)`
unfoldable pub reverse_rounds : ℕ → ℕ → ℕ → ℕ → ℕ
reverse_rounds zero i b r = r
reverse_rounds (suc n) i b r =
    reverse_rounds n (i + 1) b (bit_or r (bit_and (b / 2 ^ i) 1 * 2 ^ (7 - i)))

abbrev pub reverse_byte : ℕ → ℕ
reverse_byte b = reverse_rounds 8 0 b 0

-- `for i in range(n_bytes)`, with `n` of the rounds left
unfoldable pub word_rounds : ℕ → ℕ → ℕ → ℕ → ℕ → ℕ
word_rounds zero i x n_bytes out = out
word_rounds (suc n) i x n_bytes out =
    let byte = bit_and (x / 2 ^ (8 * i)) 0xFF in
    word_rounds n (i + 1) x n_bytes (bit_or out (reverse_byte byte * 2 ^ (8 * (n_bytes - 1 - i))))

abbrev pub reverse_word : ℕ → ℕ → ℕ
reverse_word x n_bytes = word_rounds n_bytes 0 x n_bytes 0

unfoldable pub poly : CrcScheme → ℕ
poly scheme =
    if key_length scheme == 1
    then reverse_byte (poly_orig scheme)
    else reverse_word (poly_orig scheme) (key_length scheme)

-- One round of the loop, at one entry of the table.
unfoldable pub table_round : ℕ → ℕ → ℕ
table_round p t =
    let mask = if bit_and t 1 == 0 then 0 else reg_mask in
    bit_and (bit_xor (t / 2) (bit_and p mask)) reg_mask

unfoldable pub table_rounds : ℕ → ℕ → List ℕ → List ℕ
table_rounds zero p table = table
table_rounds (suc n) p table = table_rounds n p (map (table_round p) table)

unfoldable pub build_table : CrcScheme → List ℕ
build_table scheme = table_rounds 8 (poly scheme) (count_up 0 256)

-- The register after one more byte. The index is below 256, the length of the table.
unfoldable pub next_key : List ℕ → ℕ → ℕ → ℕ
next_key table key b =
    let idx = bit_and (bit_xor key b) 0xFF in
    bit_and (bit_xor (key / 2 ^ 8) (get_or table idx 0)) reg_mask

-- `(~key) & reg_mask & width_mask`, on 64 bits
unfoldable pub final_key : ℕ → ℕ → ℕ
final_key mask key = bit_and (bit_and (2 ^ 64 - 1 - key) reg_mask) mask

unfoldable pub row_loop : List ℕ → List ℕ → ℕ → ℕ
row_loop table [] key = key
row_loop table (b ∷ row) key = row_loop table row (next_key table key b)

-- `_crc_row`, the compiled kernel for one message
abbrev pub crc_row : List ℕ → ℕ → List ℕ → ℕ
crc_row table mask row = final_key mask (row_loop table row reg_mask)

abbrev pub numba_generate_key : List ℕ → ℕ → List (List ℕ) → List ℕ
numba_generate_key table mask msg = map (crc_row table mask) msg

-- `msg[:, i]`
abbrev pub column : ℕ → List (List ℕ) → List ℕ
column i msg = map (λ (row : List ℕ). get_or row i 0) msg

-- `for i in range(n)`, over the columns of the batch, with `n` of the rounds left
unfoldable pub column_loop : ℕ → ℕ → List ℕ → List (List ℕ) → List ℕ → List ℕ
column_loop zero i table msg keys = keys
column_loop (suc n) i table msg keys =
    column_loop n (i + 1) table msg (zip_with (next_key table) keys (column i msg))

unfoldable pub table_keys : Bool → List ℕ → ℕ → Batch → List ℕ
table_keys numba table mask msg =
    if numba
    then numba_generate_key table mask msg.rows
    else map (final_key mask)
        (column_loop msg.width 0 table msg.rows (replicate (length msg.rows) reg_mask))

unfoldable pub sum : List ℕ → ℕ
sum [] = 0
sum (b ∷ row) = b + sum row

-- The two's complement of the sum of the bytes, on 64 bits before the mask.
unfoldable pub checksum_key : List ℕ → ℕ
checksum_key row =
    let total = bit_and (sum row % 2 ^ 64) 0xFF in
    bit_and (((2 ^ 64 - 1 - total) + 1) % 2 ^ 64) 0xFF

unfoldable pub generate_key : Bool → CrcScheme → Batch → List ℕ
generate_key numba no_crc msg = replicate (length msg.rows) 0
generate_key numba checksum msg = map checksum_key msg.rows
generate_key numba crc8 msg = table_keys numba (build_table crc8) (width_mask crc8) msg
generate_key numba crc16 msg = table_keys numba (build_table crc16) (width_mask crc16) msg
generate_key numba crc24 msg = table_keys numba (build_table crc24) (width_mask crc24) msg
generate_key numba crc32 msg = table_keys numba (build_table crc32) (width_mask crc32) msg

-- `(key >> shift) & 0xFF`, most significant byte first
abbrev pub key_bytes : ℕ → ℕ → List ℕ
key_bytes zero key = []
key_bytes (suc n) key = bit_and (key / 2 ^ (n * 8)) 0xFF ∷ key_bytes n key

abbrev pub with_key : CrcScheme → List ℕ → ℕ → List ℕ
with_key scheme row key = row ++ key_bytes (key_length scheme) key

unfoldable pub append_key : Bool → CrcScheme → Batch → Batch
append_key numba no_crc msg = msg
append_key numba scheme msg = record {
  width = msg.width + key_length scheme;
  rows = zip_with (with_key scheme) msg.rows (generate_key numba scheme msg);
}

-- `received_key = (received_key << 8) | byte`, on 64 bits
abbrev pub received_key : ℕ → List ℕ → ℕ
received_key key [] = key
received_key key (b ∷ bytes) = received_key (bit_or (key * 2 ^ 8 % 2 ^ 64) b) bytes

-- `msg_with_key[:, : -key_length]`
abbrev pub without_key : CrcScheme → Batch → Batch
without_key scheme msg = record {
  width = msg.width - key_length scheme;
  rows = map (take (msg.width - key_length scheme)) msg.rows;
}

-- The received key of each message, from its trailing bytes.
abbrev pub received_keys : CrcScheme → Batch → List ℕ
received_keys scheme msg =
    map (λ (row : List ℕ). received_key 0 (drop (msg.width - key_length scheme) row)) msg.rows

unfoldable pub check_key : Bool → CrcScheme → Batch → Outcome (List Bool)
check_key numba no_crc msg = ok (replicate (length msg.rows) true)
check_key numba scheme msg = do
  require (leb (key_length scheme) msg.width)
  ok (zip_with ◌==◌ (generate_key numba scheme (without_key scheme msg)) (received_keys scheme msg))
