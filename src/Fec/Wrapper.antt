-- ===== src/Fec/Wrapper.antt =====
-- fec/fec.py, class FEC: any length of message over codes that work on blocks. The codes
-- themselves (viterbi.py, reed_solomon.py, ldpc.py) are records of what the class uses of them.
pub mod Lengths
pub mod Rows
pub mod Parts
pub mod RoundTrip
pub mod Symbols
pub mod Every
use spectracuda.Common.{
  ℕ, zero, suc, ◌+◌, ◌-◌, ◌*◌, ◌/◌, ◌%◌, List, [], ◌∷◌, ◌++◌, map, Bool, true, false, Outcome, ok,
  raise, value_error, ◌>>=◌, ◌>>◌, require, ltb, leb, ◌==◌, if◌then◌else◌, length, take, drop, min,
  zip_with, flat_map, ℤ, sub_ℕ, pos,
}
use spectracuda.Numpy.{Batch, Packing}

-- Blocks of `k` symbols or bits become blocks of `n`.
pub record BlockCode : Type 0 where
  pub k : ℕ
  pub n : ℕ
  pub encode : Batch → Outcome Batch
  pub decode : Batch → Outcome Batch

-- A code for streams of bits at rate 1/2, with a tail.
pub record StreamCode : Type 0 where
  pub tail_bits : ℕ
  pub encode : Batch → Outcome Batch
  pub decode : Batch → Outcome Batch

-- `rs_m8` works on symbols of 8 bits and appends `nroots` of them, `ldpc_*` on bits, `conv_v27`
-- on a stream.
pub data Fec : Type 0 where
  symbol_level : BlockCode → ℕ → Fec
  block_level : BlockCode → Fec
  stream_level : StreamCode → Fec

-- `n_full_blocks * to`, and for a block that is not full its length and `extra`
abbrev pub grown_length : ℕ → ℕ → ℕ → ℕ → ℕ
grown_length from to extra k = k / from * to + (if ltb 0 (k % from) then k % from + extra else 0)

abbrev pub shrunk_length : ℕ → ℕ → ℕ → ℕ → ℤ
shrunk_length from to extra n =
    if ltb 0 (n % from) then sub_ℕ (n / from * to + n % from) extra else pos (n / from * to)

unfoldable pub encoded_length : Fec → ℕ → ℕ
encoded_length (symbol_level c nroots) k = grown_length (c.k * 8) (c.n * 8) (8 * nroots) k
encoded_length (block_level c) k = grown_length c.k c.n (c.n - c.k) k
encoded_length (stream_level c) k = 2 * (k + c.tail_bits)

unfoldable pub decoded_length : Fec → ℕ → Outcome ℤ
decoded_length (symbol_level c nroots) n = ok (shrunk_length (c.n * 8) (c.k * 8) (8 * nroots) n)
decoded_length (block_level c) n = ok (shrunk_length c.n c.k (c.n - c.k) n)
decoded_length (stream_level c) n = do
  require (n % 2 == 0)
  require (leb c.tail_bits (n / 2))
  ok (pos (n / 2 - c.tail_bits))

-- `n` blocks of `size` entries
abbrev pub cut {ℓ} : {A : Type ℓ} → ℕ → ℕ → List A → List (List A)
cut zero size row = []
cut (suc n) size row = take size row ∷ cut n size (drop size row)

-- `bits.reshape(n_batch, ...)` of `n_blocks` blocks for each row
abbrev pub join_blocks {ℓ} : {A : Type ℓ} → ℕ → ℕ → List (List A) → List (List A)
join_blocks zero n_blocks rows = []
join_blocks (suc n) n_blocks rows =
    flat_map (λ (block : List _). block) (take n_blocks rows)
    ∷ join_blocks n n_blocks (drop n_blocks rows)

-- The blocks of all rows go through the code as one batch.
unfoldable pub by_blocks : (Batch → Outcome Batch) → ℕ → Batch → Outcome Batch
by_blocks code size bits = do
  require (bits.width % size == 0)
  let n_blocks = bits.width / size
  made ← code (record { width = size; rows = flat_map (cut n_blocks size) bits.rows })
  ok (record {
    width = n_blocks * made.width;
    rows = join_blocks (length bits.rows) n_blocks made.rows;
  })

-- `bits[:, :n]` and `bits[:, n:]`
abbrev pub columns_before : ℕ → Batch → Batch
columns_before n bits = record { width = min n bits.width; rows = map (take n) bits.rows }

abbrev pub columns_from : ℕ → Batch → Batch
columns_from n bits = record { width = bits.width - n; rows = map (drop n) bits.rows }

-- `parts[0] if len(parts) == 1 else np.concatenate(parts, axis=-1)`, of at most two parts
abbrev pub concatenate : List Batch → Outcome Batch
concatenate [] = raise value_error
concatenate (part ∷ []) = ok part
concatenate (part ∷ last ∷ parts) =
    ok (record { width = part.width + last.width; rows = zip_with ◌++◌ part.rows last.rows })

abbrev pub part_if : Bool → Outcome Batch → Outcome (List Batch)
part_if false part = ok []
part_if true part = do made ← part; ok (made ∷ [])

-- The full blocks as one batch, and what is left over as another.
unfoldable pub by_parts : (Batch → Outcome Batch) → ℕ → Batch → Outcome Batch
by_parts code size bits = do
  let full = bits.width / size * size
  blocks ← part_if (ltb 0 (bits.width / size)) (by_blocks code size (columns_before full bits))
  leftover ← part_if (ltb 0 (bits.width % size)) (code (columns_from full bits))
  concatenate (blocks ++ leftover)

-- A code of symbols, on bits: `packbits`, the code, `unpackbits`.
unfoldable pub on_symbols : Packing → (Batch → Outcome Batch) → Batch → Outcome Batch
on_symbols np code bits = do
  made ← code (record { width = (bits.width + 7) / 8; rows = map np.packbits bits.rows })
  ok (record { width = made.width * 8; rows = map np.unpackbits made.rows })

unfoldable pub encode_block_level : BlockCode → Batch → Outcome Batch
encode_block_level c bits = by_parts c.encode c.k bits

unfoldable pub decode_block_level : BlockCode → Batch → Outcome Batch
decode_block_level c bits = by_parts c.decode c.n bits

unfoldable pub encode_symbol_level : Packing → BlockCode → Batch → Outcome Batch
encode_symbol_level np c bits = do
  require (bits.width % (c.k * 8) % 8 == 0)
  by_parts (on_symbols np c.encode) (c.k * 8) bits

unfoldable pub decode_symbol_level : Packing → BlockCode → Batch → Outcome Batch
decode_symbol_level np c bits = do
  require (bits.width % (c.n * 8) % 8 == 0)
  by_parts (on_symbols np c.decode) (c.n * 8) bits

unfoldable pub encode : Packing → Fec → Batch → Outcome Batch
encode np (symbol_level c nroots) bits = encode_symbol_level np c bits
encode np (block_level c) bits = encode_block_level c bits
encode np (stream_level c) bits = c.encode bits

unfoldable pub decode : Packing → Fec → Batch → Outcome Batch
decode np (symbol_level c nroots) bits = decode_symbol_level np c bits
decode np (block_level c) bits = decode_block_level c bits
decode np (stream_level c) bits = c.decode bits
