-- ===== src/Framing/Packetizer/Examples.antt =====
-- A run of the packetizer: a key of 16 bits, the Reed-Solomon code, an interleaver and the
-- convolutional code.
use spectracuda.Common.{ℕ, ◌*◌, ◌≡◌, refl, List, [], ◌∷◌, true, some, ok, arith, replicate}
use spectracuda.Numpy.{Batch}
use spectracuda.Numpy.Instance.{packing}
use spectracuda.Fec.Codes.{batch}
use spectracuda.Fec.Crc.{crc16}
use spectracuda.Fec.Convolutional.Examples.{exact_sum}
use spectracuda.Fec.Convolutional.Viterbi.Corrects.{conv_v27, conv_v27-IsLawful}
use spectracuda.Fec.ReedSolomon.{n_roots}
use spectracuda.Fec.ReedSolomon.RoundTrip.{rs_m8, rs_m8-IsLawful}
use spectracuda.Fec.Wrapper.{Fec, symbol_level, stream_level, encoded_length as fec_length}
use spectracuda.Fec.Wrapper.Lengths.{IsFec}
use spectracuda.Interleaver.Schemes.{block}
use spectracuda.Interleaver.Valid.{interleaver-IsAccepted}
use spectracuda.Interleaver.Examples.{sources, blocks-IsAccepted}
use spectracuda.Mac.Capacity.Search.{IsCapacity}
use spectracuda.Framing.Packetizer.{Packages, Packetizer, encoded_length, encode, decode}
use spectracuda.Framing.Packetizer.RoundTrip.{IsSendable, packetizer_round_trip}
use spectracuda.Framing.Packetizer.Capacity.{phy_of, is_held, compute_max_segment_bits-is_held}

abbrev packages : Packages
packages = record { packing = packing; sources = sources; numba = true }

abbrev inner_code : Fec
inner_code = symbol_level rs_m8 n_roots

abbrev outer_code : Fec
outer_code = stream_level (conv_v27 exact_sum true)

inner_code-IsFec : IsFec inner_code
inner_code-IsFec = (omega arith, omega arith, refl)

abbrev four_stages : Packetizer
four_stages = record {
  crc_codec = some crc16;
  fec_codec = some inner_code;
  fec1_codec = some outer_code;
  scheme = some (block (some 4) 2);
}

four_stages-IsSendable : IsSendable packages four_stages 8 1
unfolding fec_length
four_stages-IsSendable = record {
  crc_takes = refl;
  fec_codec = (inner_code-IsFec, rs_m8-IsLawful);
  fec_takes = (omega arith, refl);
  fec_filled = omega arith;
  made =
      interleaver-IsAccepted sources (block (some 4) 2) 280
        (blocks-IsAccepted 280 (omega arith) refl);
  fec1_codec = (tt, conv_v27-IsLawful exact_sum true);
  fec1_takes = (omega arith, tt);
  fec1_filled = omega arith;
}

abbrev one_byte : List ℕ
one_byte = replicate 8 1

packetizer_round_trip_example :
    (sent : Batch) × (encode packages four_stages (batch 8 (one_byte ∷ [])) ≡ ok sent)
    × (encoded_length four_stages 8 ≡ ok sent.width)
    × (decode packages four_stages sent
        ≡ ok (record { bits = batch 8 (one_byte ∷ []); crc_valid = some (true ∷ []) }))
packetizer_round_trip_example =
    packetizer_round_trip packages four_stages 8 (one_byte ∷ []) four_stages-IsSendable
      ((refl, omega arith), tt)

compute_max_segment_bits-is_held_example :
    IsCapacity (phy_of four_stages 10 100) (is_held four_stages (10 * 100)) true
compute_max_segment_bits-is_held_example =
    compute_max_segment_bits-is_held four_stages 10 100 true inner_code-IsFec tt
