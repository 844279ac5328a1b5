-- ===== src/Fec/Convolutional.antt =====
-- fec/viterbi.py, class ConvolutionalCode: the encoder of "conv_v27", as array code and as the
-- compiled kernel of fec/_numba_conv_encode.py. Both treat each row of a batch by itself.
pub mod Kernel
pub mod Trellis
pub mod Hamming
pub mod FreeDistance
pub mod Backends
pub mod Examples
pub mod Viterbi
use spectracuda.Common.{
  ℕ, zero, suc, ◌+◌, ◌*◌, ◌/◌, ◌%◌, ◌^◌, List, [], ◌∷◌, ◌++◌, map, get_or, replicate, count_up,
  bit_and, bit_or, bit_xor, Bool, true, false, Option, some, none,
}
use spectracuda.Fec.Codes.{batch}
use spectracuda.Numpy.{Batch}

-- The generator polynomials, 0o171 and 0o133.
abbrev pub g1 : ℕ
g1 = 121

abbrev pub g2 : ℕ
g2 = 91

-- `_K - 1`
abbrev pub tail_bits : ℕ
tail_bits = 6

-- `x ^= x >> k`
abbrev fold : ℕ → ℕ → ℕ
fold k x = bit_xor x (x / 2 ^ k)

-- viterbi.py's `_parity`
unfoldable pub parity : ℕ → ℕ
parity x = bit_and (fold 1 (fold 2 (fold 4 x))) 1

-- The register with the input bit shifted in; bits 1 to 6 are the state.
abbrev pub register : ℕ → ℕ → ℕ
register state b = bit_or (state * 2) b

-- The entries of the transition tables, for a state and an input bit.
unfoldable pub next_state : ℕ → ℕ → ℕ
next_state state b = bit_and (register state b) 63

unfoldable pub out1 : ℕ → ℕ → ℕ
out1 state b = parity (bit_and (register state b) g1)

unfoldable pub out2 : ℕ → ℕ → ℕ
out2 state b = parity (bit_and (register state b) g2)

-- `for t in range(T)`, the two outputs of each step side by side
unfoldable pub encode_from : ℕ → List ℕ → List ℕ
encode_from state [] = []
encode_from state (b ∷ padded) =
    out1 state b ∷ out2 state b ∷ encode_from (next_state state b) padded

abbrev pub encode_row : List ℕ → List ℕ
encode_row bits = encode_from 0 (bits ++ replicate tail_bits 0)

unfoldable pub array_encode : Batch → Batch
array_encode bits = batch (2 * (bits.width + tail_bits)) (map encode_row bits.rows)

-- `bin(x).count("1")`, of a number of at most `n` binary digits
unfoldable pub count_ones : ℕ → ℕ → ℕ
count_ones zero x = 0
count_ones (suc n) x = x % 2 + count_ones n (x / 2)

-- The kernel module's own `_parity`, of a register of 7 bits.
abbrev pub kernel_parity : ℕ → ℕ
kernel_parity x = bit_and (count_ones 7 x) 1

unfoldable pub table_entry : ℕ → ℕ
table_entry reg = bit_or (kernel_parity (bit_and reg g1)) (kernel_parity (bit_and reg g2) * 2)

unfoldable pub output_table : List ℕ
output_table = map table_entry (count_up 0 128)

-- The zero tail, which takes the register back to state 0.
unfoldable pub kernel_tail : List ℕ → ℕ → ℕ → List ℕ
kernel_tail table zero state = []
kernel_tail table (suc n) state =
    let reg = bit_and (state * 2) 127 in
    let o = get_or table reg 0 in bit_and o 1 ∷ o / 2 ∷ kernel_tail table n (bit_and reg 63)

unfoldable pub kernel_row : List ℕ → ℕ → List ℕ → List ℕ
kernel_row table state [] = kernel_tail table tail_bits state
kernel_row table state (b ∷ bits) =
    let reg = bit_and (bit_or (state * 2) (bit_and b 1)) 127 in
    let o = get_or table reg 0 in bit_and o 1 ∷ o / 2 ∷ kernel_row table (bit_and reg 63) bits

unfoldable pub numba_encode : Batch → Batch
numba_encode bits = batch (2 * (bits.width + tail_bits)) (map (kernel_row output_table 0) bits.rows)

-- The encoder of a native library, if one is loaded.
abbrev native_or_array : Option (Batch → Batch) → Batch → Batch
native_or_array (some native) bits = native bits
native_or_array none bits = array_encode bits

-- The first parameter: the kernel can be used, and the array is one of the host's.
unfoldable pub encode : Bool → Option (Batch → Batch) → Batch → Batch
encode true native bits = numba_encode bits
encode false native bits = native_or_array native bits
