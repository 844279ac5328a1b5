-- ===== src/Fec/Wrapper/Lengths.antt =====
-- The lengths that `encoded_length` and `decoded_length` tell.
use spectracuda.Common.{
  ℕ, ◌+◌, ◌-◌, ◌*◌, ◌/◌, ◌%◌, ◌<◌, ◌≡◌, ap, ok, ltb, arith, pos, div-of_sum, mod-of_sum,
  sum-of_divmod, mod-below, if◌then◌else◌,
}
use spectracuda.Fec.Wrapper.{
  Fec, symbol_level, block_level, stream_level, grown_length, shrunk_length, encoded_length,
  decoded_length,
}

-- A block code appends something to blocks that are not empty; `rs_m8` appends `nroots` symbols.
abbrev pub IsFec : Fec → Type 0
IsFec (symbol_level c nroots) = (0 < c.k) × (0 < nroots) × (c.n ≡ c.k + nroots)
IsFec (block_level c) = (0 < c.k) × (c.k < c.n)
IsFec (stream_level c) = Unit

-- What a block that is not full comes to.
abbrev pub last_length : ℕ → ℕ → ℕ
last_length extra r = if ltb 0 r then r + extra else 0

pub last_length-lt : (k extra r : ℕ) → r < k → last_length extra r < k + extra
last_length-lt k extra r h = ground arith

shrunk_length-grown_length :
    (from extra k : ℕ)
    → 0 < from
    → shrunk_length (from + extra) from extra (grown_length from (from + extra) extra k) ≡ pos k
shrunk_length-grown_length from extra k h =
    let fits = last_length-lt from extra (k % from) (mod-below k from h) in
    rw
      (
        div-of_sum (from + extra) (k / from) (last_length extra (k % from)) fits,
        mod-of_sum (from + extra) (k / from) (last_length extra (k % from)) fits,
      )
      (ground (arith, sum-of_divmod k from))

-- For every code whose blocks grow, `decoded_length` of the length that `encoded_length` tells for
-- a message is the length of the message, whether or not the last block is full; the empty message
-- included.
decoded_length-encoded_length :
    (f : Fec) (k : ℕ) → IsFec f → decoded_length f (encoded_length f k) ≡ ok (pos k)
unfolding decoded_length encoded_length
decoded_length-encoded_length (symbol_level c nroots) k h =
    let eight : c.n * 8 ≡ c.k * 8 + 8 * nroots = omega (arith, h.2) in
    rw eight (ap ok (shrunk_length-grown_length (c.k * 8) (8 * nroots) k (omega (arith, h.0))))
decoded_length-encoded_length (block_level c) k h =
    let whole : c.k + (c.n - c.k) ≡ c.n = omega (arith, h.1) in
    let same = shrunk_length-grown_length c.k (c.n - c.k) k h.0 in ap ok (rw whole at same)
decoded_length-encoded_length (stream_level c) k h = ground arith
