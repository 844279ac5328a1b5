-- ===== src/Mac/Bind/Examples.antt =====
-- Runs of the handshake's messages (mac/bind.py) at a concrete input.
use spectracuda.Common.{refl, arith}
use spectracuda.Numpy.Instance.{packing}
use spectracuda.Mac.Bind.{Request, mode_code}
use spectracuda.Mac.Bind.Handshake.{IsRequest, Handshake, handshake_lem}

abbrev am_request : Request
am_request = record { mode = "am"; max_segment_bits = 4096; window_size = 32; max_retries = 4 }

am_request-IsRequest : IsRequest am_request
unfolding mode_code
am_request-IsRequest = record {
  code = 2;
  known = refl;
  segment_fits = omega arith;
  window_fits = omega arith;
  retries_fit = omega arith;
}

handshake_lem_example : Handshake packing am_request 2048
handshake_lem_example = handshake_lem packing am_request 2048 am_request-IsRequest
