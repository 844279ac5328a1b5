-- ===== src/Fec/Wrapper/Every.antt =====
-- Every scheme of fec/fec.py over a lawful code.
use native.Mathlib.Nat.{mul_assoc}
use spectracuda.Common.{
  ℕ, ◌+◌, ◌-◌, ◌*◌, ◌/◌, ◌%◌, ◌≤◌, length, ◌<◌, ◌≡◌, ◌≢◌, refl, sym, ◌∙◌, List, map, false, Outcome,
  ok, raise, value_error, arith, All, IsBit, ◌==◌, sum-of_divmod, ◌⊎◌, inl, inr, div-of_sum,
  mod-of_sum,
}
use spectracuda.Numpy.{Batch, Packing}
use spectracuda.Numpy.Bytes.{IsByte}
use spectracuda.Fec.Codes.{batch, IsBlock, IsCode}
use spectracuda.Fec.Wrapper.{
  BlockCode, Fec, symbol_level, block_level, stream_level, grown_length, encoded_length, by_parts,
  on_symbols, encode, decode, encode_symbol_level, decode_symbol_level, encode_block_level,
  decode_block_level,
}
use spectracuda.Fec.Wrapper.Lengths.{IsFec}
use spectracuda.Fec.Wrapper.RoundTrip.{FitsBlock, FitsMessage, messages}
use spectracuda.Fec.Wrapper.Symbols.{AnyLength, WholeBytes, symbols}

-- The code that a scheme stands on does what its class documents.
abbrev pub IsLawful : Fec → Type 0
IsLawful (symbol_level c nroots) =
    IsCode IsByte (FitsBlock AnyLength c.k) 1 (λ w. w + nroots) c.encode c.decode
IsLawful (block_level c) =
    IsCode IsBit (FitsBlock AnyLength c.k) 0 (λ w. w + (c.n - c.k)) c.encode c.decode
IsLawful (stream_level c) =
    IsCode IsBit (FitsMessage AnyLength) 0 (λ w. 2 * (w + c.tail_bits)) c.encode c.decode

-- `rs_m8` stacks the rows of a batch, so there has to be one.
abbrev pub least_rows : Fec → ℕ
least_rows (symbol_level c nroots) = 1
least_rows (block_level c) = 0
least_rows (stream_level c) = 0

-- `rs_m8` takes whole bytes.
abbrev pub Takes : Fec → ℕ → Type 0
Takes (symbol_level c nroots) = WholeBytes
Takes (block_level c) = AnyLength
Takes (stream_level c) = AnyLength

mod_bytes : (size w : ℕ) → WholeBytes w → WholeBytes (w % (size * 8))
mod_bytes size w h = omega (arith, sum-of_divmod w (size * 8), mul_assoc (w / (size * 8)) size 8)

grown_length-WholeBytes :
    (from to nroots w : ℕ)
    → WholeBytes w
    → WholeBytes (grown_length (from * 8) (to * 8) (8 * nroots) w)
grown_length-WholeBytes from to nroots w h =
    let rest = mod_bytes from w h in
    let whole : w / (from * 8) * (to * 8) ≡ w / (from * 8) * to * 8 =
      sym (mul_assoc (w / (from * 8)) to 8) in
    ground (arith, whole)

-- `rs_m8` on its blocks, without the test for whole bytes.
symbol_messages :
    (np : Packing) (c : BlockCode) (nroots : ℕ)
    → IsFec (symbol_level c nroots)
    → IsLawful (symbol_level c nroots)
    → IsCode IsBit
        (FitsMessage WholeBytes)
        1
        (grown_length (c.k * 8) (c.n * 8) (8 * nroots))
        (by_parts (on_symbols np c.encode) (c.k * 8))
        (by_parts (on_symbols np c.decode) (c.n * 8))
symbol_messages np c nroots h law =
    let eight : c.k * 8 + 8 * nroots ≡ c.n * 8 = omega (arith, h.2) in
    rw eight at (
      messages IsBit WholeBytes 1 (c.k * 8) (8 * nroots) (on_symbols np c.encode)
        (on_symbols np c.decode) (symbols np 1 c.k nroots c.encode c.decode law)
        (omega (arith, h.0)) (omega arith) (mod_bytes c.k))

symbol_encodes :
    (np : Packing) (c : BlockCode) (w : ℕ) (rows : List (List ℕ))
    → WholeBytes w
    → encode_symbol_level np c (batch w rows)
      ≡ by_parts (on_symbols np c.encode) (c.k * 8) (batch w rows)
unfolding encode_symbol_level
symbol_encodes np c w rows h = rw (mod_bytes c.k w h) refl

symbol_decodes :
    (np : Packing) (c : BlockCode) (w : ℕ) (rows : List (List ℕ))
    → WholeBytes w
    → decode_symbol_level np c (batch w rows)
      ≡ by_parts (on_symbols np c.decode) (c.n * 8) (batch w rows)
unfolding decode_symbol_level
symbol_decodes np c w rows h = rw (mod_bytes c.n w h) refl

-- What a lawful code becomes under the wrapper.
pub fec-IsCode :
    (np : Packing) (f : Fec)
    → IsFec f
    → IsLawful f
    → IsCode IsBit
        (FitsMessage (Takes f))
        (least_rows f)
        (encoded_length f)
        (encode np f)
        (decode np f)
unfolding encoded_length encode decode encode_block_level decode_block_level
fec-IsCode np (symbol_level c nroots) h law =
    let made = symbol_messages np c nroots h law in
    record {
      code = made.code;
      plain = made.plain;
      code-IsBlock = made.code-IsBlock;
      plain-code = made.plain-code;
      encodes = λ w rows fits filled e.
          symbol_encodes np c w rows fits.1 ∙ made.encodes w rows fits filled e;
      decodes = λ w rows fits filled e.
          symbol_decodes np c (grown_length (c.k * 8) (c.n * 8) (8 * nroots) w) (map made.code rows)
            (grown_length-WholeBytes c.k c.n nroots w fits.1)
          ∙ made.decodes w rows fits filled e;
    }
fec-IsCode np (block_level c) h law =
    let whole : c.k + (c.n - c.k) ≡ c.n = omega (arith, h.1) in
    rw whole at
      (messages IsBit AnyLength 0 c.k (c.n - c.k) c.encode c.decode law h.0 tt (λ w e. tt))
fec-IsCode np (stream_level c) h law = law

-- Over a lawful code, for a batch of rows of bits of any length but 0 (for `rs_m8` a multiple of
-- 8, and one row at least), full blocks and a block that is not full alike: `encode` returns a batch of the width that
-- `encoded_length` tells, and `decode` of that batch returns the batch that was encoded.
pub fec_round_trip :
    (np : Packing) (f : Fec) (w : ℕ) (rows : List (List ℕ))
    → IsFec f
    → IsLawful f
    → FitsMessage (Takes f) w
    → least_rows f ≤ length rows
    → All (IsBlock IsBit w) rows
    → (sent : Batch) × (encode np f (batch w rows) ≡ ok sent)
      × (sent.width ≡ encoded_length f w)
      × (decode np f sent ≡ ok (batch w rows))
fec_round_trip np f w rows h law fits filled e =
    let made = fec-IsCode np f h law in
    (
      batch (encoded_length f w) (map made.code rows),
      made.encodes w rows fits filled e,
      refl,
      made.decodes w rows fits filled e,
    )

-- Rows without a bit have no blocks, and `np.concatenate` of no parts raises.
empty_parts :
    (code : Batch → Outcome Batch) (size : ℕ) (rows : List (List ℕ))
    → 0 < size
    → by_parts code size (batch 0 rows) ≡ raise value_error
unfolding by_parts
empty_parts code size rows h =
    let none_left : 0 * size + 0 ≡ 0 = omega arith in
    rw (rw none_left at (div-of_sum size 0 0 h), rw none_left at (mod-of_sum size 0 0 h)) refl

-- The lengths that the two block levels refuse.
abbrev pub IsRefused : Fec → ℕ → Type 0
IsRefused (symbol_level c nroots) w = (w ≡ 0) ⊎ (w % 8 ≢ 0)
IsRefused (block_level c) w = w ≡ 0
IsRefused (stream_level c) w = ⊥

unaligned : (size w : ℕ) → w % 8 ≢ 0 → (w % (size * 8) % 8 == 0) ≡ false
unaligned size w h = ground (arith, sum-of_divmod w (size * 8), mul_assoc (w / (size * 8)) size 8)

-- Whatever the code does, `encode` raises `ValueError` for rows without a bit at the symbol level
-- and at the block level, and at the symbol level for every width that is no multiple of 8.
pub fec_refuses :
    (np : Packing) (f : Fec) (w : ℕ) (rows : List (List ℕ))
    → IsFec f
    → IsRefused f w
    → encode np f (batch w rows) ≡ raise value_error
unfolding encode encode_block_level encode_symbol_level
fec_refuses np (symbol_level c nroots) w rows h (inl e) =
    let none : 0 % 8 ≡ 0 = omega arith in
    rw (e, mod_bytes c.k 0 none)
      (empty_parts (on_symbols np c.encode) (c.k * 8) rows (omega (arith, h.0)))
fec_refuses np (symbol_level c nroots) w rows h (inr e) = rw (unaligned c.k w e) refl
fec_refuses np (block_level c) w rows h e = rw e (empty_parts c.encode c.k rows h.0)
fec_refuses np (stream_level c) w rows h e = absurd e
