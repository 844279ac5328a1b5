-- ===== src/Framing/Examples.antt =====
-- Runs of the header codec.
use spectracuda.Common.{ℕ, ◌≡◌, refl, List, some, ok, arith, replicate}
use spectracuda.Numpy.Instance.{packing}
use spectracuda.Framing.Schemes.{code_of}
use spectracuda.Framing.Header.{FrameHeader, encode_bits, decode_bits}
use spectracuda.Framing.Header.RoundTrip.{IsFrame, decode_bits-encode_bits}

abbrev sample : FrameHeader
sample = record {
  version = 1;
  payload_len_bits = 1784;
  mod_scheme = "qpsk";
  crc = "crc16";
  fec0 = "rs_m8";
  fec1 = "conv_v27";
  user_data = replicate 8 170;
}

sample-IsFrame : IsFrame sample
unfolding code_of
sample-IsFrame = record {
  version = refl;
  length_fits = omega arith;
  mod_code = 1;
  crc_code = 4;
  fec0_code = 2;
  fec1_code = 1;
  mod_known = refl;
  crc_known = refl;
  fec0_known = refl;
  fec1_known = refl;
  user_length = refl;
  user_bytes = omega arith;
}

decode_bits-encode_bits_example :
    (bits : List ℕ) × (encode_bits packing
        (replicate 112 1)
        1784
        "qpsk"
        "rs_m8"
        (some (replicate 8 170))
        "crc16"
        "conv_v27"
      ≡ ok bits)
    × (decode_bits packing (replicate 112 1) bits ≡ ok sample)
decode_bits-encode_bits_example =
    decode_bits-encode_bits packing (replicate 112 1) sample (omega arith) refl sample-IsFrame
