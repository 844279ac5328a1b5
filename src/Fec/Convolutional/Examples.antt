-- ===== src/Fec/Convolutional/Examples.antt =====
-- Runs of the convolutional code at concrete inputs.
use spectracuda.Common.{ℕ, ◌+◌, ◌≤◌, ◌≡◌, refl, List, [], ◌∷◌, true, false, none, arith, All, IsBit}
use spectracuda.Fec.Codes.{batch, IsBlock}
use spectracuda.Fec.Convolutional
use spectracuda.Fec.Convolutional.{
  encode_from, encode_row, out1, out2, next_state, parity, register, array_encode,
}
use spectracuda.Fec.Convolutional.Kernel.{encode_kernel}
use spectracuda.Fec.Convolutional.Viterbi.{
  FloatSum, decode_row, decode, traceback, survivors, start_metric, best_metric, best_pred,
  branch_metric,
}
use spectracuda.Fec.Convolutional.Hamming.{distance}
use spectracuda.Fec.Convolutional.Viterbi.Nearest.{decode_row-IsNearest}
use spectracuda.Fec.Convolutional.Viterbi.Corrects.{
  Received, decode-corrects, conv_v27, conv_v27-IsLawful,
}
use spectracuda.Fec.Wrapper.{stream_level}
use spectracuda.Fec.Wrapper.Every.{IsLawful}

-- Sums that are never rounded.
abbrev pub exact_sum : FloatSum
exact_sum = record { add = ◌+◌; exact = λ a b h. refl; monotone = λ a b c h. omega arith }

abbrev message : List ℕ
message = 1 ∷ 0 ∷ 1 ∷ []

abbrev sent : List ℕ
sent = 1 ∷ 1 ∷ 0 ∷ 1 ∷ 1 ∷ 1 ∷ 1 ∷ 0 ∷ 1 ∷ 1 ∷ 0 ∷ 1 ∷ 0 ∷ 0 ∷ 1 ∷ 0 ∷ 1 ∷ 1 ∷ []

-- The first two bits and two later ones are wrong.
abbrev harmed : List ℕ
harmed = 0 ∷ 0 ∷ 0 ∷ 1 ∷ 0 ∷ 1 ∷ 1 ∷ 0 ∷ 1 ∷ 1 ∷ 0 ∷ 1 ∷ 0 ∷ 0 ∷ 1 ∷ 0 ∷ 1 ∷ 0 ∷ []

message_code : encode_row message ≡ sent
unfolding encode_from out1 out2 next_state parity
message_code = refl

harmed-distance : distance (encode_row message) harmed ≤ 4
harmed-distance = rw message_code (omega arith)

decode_harmed : decode_row exact_sum harmed ≡ message
unfolding decode_row traceback survivors start_metric best_metric best_pred branch_metric out1 out2
    parity
decode_harmed = refl

message-IsBlock : IsBlock IsBit 3 message
message-IsBlock = (refl, omega arith)

decode_row-IsNearest_example :
    IsBlock IsBit 3 (decode_row exact_sum harmed)
    × (distance (encode_row (decode_row exact_sum harmed)) harmed
        ≤ distance (encode_row message) harmed)
decode_row-IsNearest_example =
    decode_row-IsNearest exact_sum 3 harmed message refl message-IsBlock
      (omega (arith, harmed-distance))

harmed-Received :
    Received 4 (Convolutional.encode true none (batch 3 (message ∷ []))).rows (harmed ∷ [])
unfolding Convolutional.encode array_encode encode_from
harmed-Received =
    rw (encode_kernel (batch 3 (message ∷ [])) (message-IsBlock, tt)).0 (refl, harmed-distance, tt)

decode-corrects_example : decode exact_sum none (batch 18 (harmed ∷ [])) ≡ batch 3 (message ∷ [])
decode-corrects_example =
    decode-corrects exact_sum true 3 (message ∷ []) (harmed ∷ []) (message-IsBlock, tt)
      harmed-Received

conv_v27-IsLawful_example : IsLawful (stream_level (conv_v27 exact_sum true))
conv_v27-IsLawful_example = conv_v27-IsLawful exact_sum true

encode_kernel_example :
    (Convolutional.encode true none (batch 3 ((1 ∷ 0 ∷ 1 ∷ []) ∷ []))
      ≡ Convolutional.encode false none (batch 3 ((1 ∷ 0 ∷ 1 ∷ []) ∷ [])))
    × All
        (IsBlock IsBit 18)
        (Convolutional.encode false none (batch 3 ((1 ∷ 0 ∷ 1 ∷ []) ∷ []))).rows
encode_kernel_example =
    encode_kernel (batch 3 ((1 ∷ 0 ∷ 1 ∷ []) ∷ []))
      ((refl, (omega arith, (omega arith, (omega arith, tt)))), tt)
