-- ===== src/Fec/Convolutional/Kernel.antt =====
-- The compiled encoder against the array code.
use spectracuda.Common.{
  passes, tested, ℕ, zero, suc, ◌+◌, ◌*◌, ◌/◌, ◌<◌, ◌≡◌, refl, ap, ap₂, ◌∙◌, List, [], ◌∷◌, ◌++◌,
  Bool, true, false, ◌&&◌, ◌==◌, ==_iff, arith, length, length-append, length-replicate, get_or,
  replicate, All, IsBit, none, bit_and, bit_or, bit_and_mask, shift_in,
}
use native.Mathlib.Nat.{mod-eq_of_lt}
use spectracuda.Numpy.{Batch}
use spectracuda.Fec.Codes.{batch, IsBlock, map-on_rows, All-map}
use spectracuda.Fec.Convolutional.{
  g1, g2, tail_bits, parity, register, next_state, out1, out2, encode_from, encode_row,
  array_encode, count_ones, table_entry, output_table, kernel_tail, kernel_row, numba_encode,
  encode,
}

-- Both halves of an entry of the table, for each value of the register.
is_entry : ℕ → Bool
is_entry reg =
    (bit_and (get_or output_table reg 0) 1 == parity (bit_and reg g1))
    && (get_or output_table reg 0 / 2 == parity (bit_and reg g2))

all_entries : passes is_entry 0 128 ≡ true
unfolding passes is_entry output_table table_entry count_ones parity
all_entries = refl

both : (a b : Bool) → (a && b) ≡ true → (a ≡ true) × (b ≡ true)
both true b h = (refl, h)
both false b h = cc

entry :
    (reg : ℕ)
    → reg < 128
    → (bit_and (get_or output_table reg 0) 1 ≡ parity (bit_and reg g1))
      × (get_or output_table reg 0 / 2 ≡ parity (bit_and reg g2))
unfolding is_entry
entry reg h =
    let o = get_or output_table reg 0 in
    let e =
      both (bit_and o 1 == parity (bit_and reg g1)) (o / 2 == parity (bit_and reg g2))
        (tested is_entry 128 0 reg (omega arith) h all_entries) in
    (
      (==_iff (bit_and o 1) (parity (bit_and reg g1))).0 e.0,
      (==_iff (o / 2) (parity (bit_and reg g2))).0 e.1,
    )

register-lt : (state b : ℕ) → state < 64 → IsBit b → register state b < 128
register-lt state b lt h = rw (shift_in state b h) (omega arith)

kernel_register :
    (state b : ℕ)
    → state < 64
    → IsBit b
    → bit_and (bit_or (state * 2) (bit_and b 1)) 127 ≡ register state b
kernel_register state b lt h =
    ap (λ (low : ℕ). bit_and (bit_or (state * 2) low) 127) (bit_and_mask 1 b ∙ mod-eq_of_lt h)
    ∙ (bit_and_mask 7 (register state b) ∙ mod-eq_of_lt (register-lt state b lt h))

tail_register : (state : ℕ) → state < 64 → bit_and (state * 2) 127 ≡ register state 0
tail_register state lt =
    bit_and_mask 7 (state * 2)
    ∙ (mod-eq_of_lt (omega arith) ∙ (omega (arith, shift_in state 0 (omega arith))))

next_state-lt : (state b : ℕ) → next_state state b < 64
unfolding next_state
next_state-lt state b = rw (bit_and_mask 6 (register state b)) (omega arith)

kernel_tail_lem :
    (n state : ℕ)
    → state < 64
    → kernel_tail output_table n state ≡ encode_from state (replicate n 0)
unfolding kernel_tail encode_from out1 out2 next_state
kernel_tail_lem zero state lt = refl
kernel_tail_lem (suc n) state lt =
    let e = entry (register state 0) (register-lt state 0 lt (omega arith)) in
    rw (tail_register state lt)
      (ap₂ ◌∷◌ e.0 (ap₂ ◌∷◌ e.1 (kernel_tail_lem n (next_state state 0) (next_state-lt state 0))))

kernel_row_lem :
    (bits : List ℕ) (state : ℕ)
    → state < 64
    → All IsBit bits
    → kernel_row output_table state bits ≡ encode_from state (bits ++ replicate tail_bits 0)
unfolding kernel_row encode_from out1 out2 next_state
kernel_row_lem [] state lt h = kernel_tail_lem tail_bits state lt
kernel_row_lem (b ∷ bits) state lt h =
    let e = entry (register state b) (register-lt state b lt h.0) in
    rw (kernel_register state b lt h.0) (
      ap₂ ◌∷◌ e.0
        (ap₂ ◌∷◌ e.1 (kernel_row_lem bits (next_state state b) (next_state-lt state b) h.1)))

pub numba_encode-array_encode :
    (bits : Batch)
    → All (IsBlock IsBit bits.width) bits.rows
    → numba_encode bits ≡ array_encode bits
unfolding numba_encode array_encode
numba_encode-array_encode bits h = ap (batch (2 * (bits.width + tail_bits))) (
    map-on_rows (kernel_row output_table 0) encode_row bits.rows
      (λ row e. kernel_row_lem row 0 (omega arith) e.1) h)

low_IsBit : (y : ℕ) → IsBit (bit_and y 1)
low_IsBit y = rw (bit_and_mask 1 y) (omega arith)

parity-IsBit : (x : ℕ) → IsBit (parity x)
unfolding parity
parity-IsBit x = low_IsBit _

encode_from-IsBlock :
    (bits : List ℕ) (state : ℕ) → IsBlock IsBit (2 * length bits) (encode_from state bits)
unfolding encode_from out1 out2
encode_from-IsBlock [] state = (refl, tt)
encode_from-IsBlock (b ∷ bits) state =
    let rest = encode_from-IsBlock bits (next_state state b) in
    (
      omega (arith, rest.0),
      (
        parity-IsBit (bit_and (register state b) g1),
        (parity-IsBit (bit_and (register state b) g2), rest.1),
      ),
    )

pub encode_row-IsBlock :
    (w : ℕ) (row : List ℕ) → length row ≡ w → IsBlock IsBit (2 * (w + 6)) (encode_row row)
encode_row-IsBlock w row h =
    let padded = encode_from-IsBlock (row ++ replicate tail_bits 0) 0 in
    (
      padded.0
          ∙ ap (λ (n : ℕ). 2 * n)
              (length-append row (replicate tail_bits 0)
                ∙ ap₂ ◌+◌ h (length-replicate {A = ℕ} tail_bits 0)),
      padded.1,
    )

-- On a batch of rows of bits the encoder computes the same with the compiled kernel and its table
-- as with the transition tables, and makes of each row of n bits one of 2 * (n + 6) bits.
pub encode_kernel :
    (bits : Batch)
    → All (IsBlock IsBit bits.width) bits.rows
    → (encode true none bits ≡ encode false none bits)
      × All (IsBlock IsBit (2 * (bits.width + 6))) (encode false none bits).rows
unfolding encode array_encode
encode_kernel bits h = (
  numba_encode-array_encode bits h,
  All-map (IsBlock IsBit (2 * (bits.width + 6))) encode_row bits.rows
      (λ row e. encode_row-IsBlock bits.width row e.0) h,
)
