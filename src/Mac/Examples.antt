-- ===== src/Mac/Examples.antt =====
-- Runs of the MAC layer (mac/) at concrete inputs.
use spectracuda.Common.{
  ℕ, ◌<◌, ◌≤◌, ◌≡◌, ◌↔◌, ◌⊎◌, refl, List, [], ◌∷◌, true, arith, ok, length, replicate, bits_of,
  lookup, has_key, All, IsBit,
}
use spectracuda.Mac.Pdu.{Header, encode_header, decode_header, sn_add, sn_precedes}
use spectracuda.Mac.Pdu.Sequence.{sn_precedes-sn_add}
use spectracuda.Mac.Pdu.RoundTrip.{
  IsHeader, decode_header-encode_header, encode_header-decode_header,
}
use spectracuda.Mac.Segmenter.{Piece, Segmenter, segment}
use spectracuda.Mac.Segmenter.Split.{IsSegmenter, IsSplit, segment-IsSplit}
use spectracuda.Mac.Reassembly.{Buffer, ingest, resync}
use spectracuda.Mac.Reassembly.Invariant.{IsBuffer, Returns, InSpace, ingest-IsBuffer}
use spectracuda.Mac.Reassembly.Resync.{resync_earliest, resync_across_wrap}
use spectracuda.Mac.Um.{UmEntity}
use spectracuda.Mac.Um.Delivery.{InStep, Delivers, transmit-Delivers}

abbrev first_header : Header
first_header = record { pdu_type = 0; si = 1; sn = 1023; so = 24 }

decode_header-encode_header_example :
    (bits : List ℕ) × (encode_header first_header ≡ ok bits)
    × (length bits ≡ 32)
    × All IsBit bits
    × (decode_header bits ≡ ok first_header)
decode_header-encode_header_example = decode_header-encode_header first_header (record {
  pdu_type_fits = omega arith;
  si_fits = omega arith;
  sn_fits = omega arith;
  so_fits = omega arith;
})

encode_header-decode_header_example :
    (h : Header) × (decode_header (replicate 32 0) ≡ ok h)
    × IsHeader h
    × (encode_header h ≡ ok (replicate 32 0))
encode_header-decode_header_example =
    encode_header-decode_header (replicate 32 0) refl (omega arith) refl

sn_precedes-sn_add_example : (sn_precedes 1020 (sn_add 1020 8) ≡ true) ↔ ((0 < 8) × (8 < 512))
sn_precedes-sn_add_example = sn_precedes-sn_add 1020 8 (omega arith) (omega arith)

-- A frame holds two bytes of an SDU.
abbrev two_bytes : Segmenter
two_bytes = record { max_segment_bits = 16 }

abbrev five_bytes : List ℕ
five_bytes = bits_of 40 437260123391

two_bytes-IsSegmenter : IsSegmenter two_bytes
two_bytes-IsSegmenter = record { at_least = omega arith; whole_bytes = refl }

segment-IsSplit_example : IsSplit 16 five_bytes (segment two_bytes five_bytes)
segment-IsSplit_example =
    segment-IsSplit two_bytes five_bytes two_bytes-IsSegmenter (omega arith) refl

-- Both ends are about to wrap.
abbrev pub near_wrap : UmEntity
near_wrap = record {
  segmenter = two_bytes;
  reassembly = record { window_size = 4; expected_sn = 1023; pending = []; in_progress = [] };
  next_tx_sn = 1023;
}

near_wrap-InStep : InStep near_wrap near_wrap
near_wrap-InStep = record {
  same_sn = refl;
  in_space = omega arith;
  window_pos = omega arith;
  nothing_pending = refl;
  nothing_in_progress = refl;
}

transmit-Delivers_example : Delivers five_bytes near_wrap near_wrap
transmit-Delivers_example =
    transmit-Delivers five_bytes near_wrap near_wrap two_bytes-IsSegmenter near_wrap-InStep
      (omega arith) refl (omega arith)

abbrev one_bit : Piece
one_bit = record { si = 0; so = 0; bits = 1 ∷ [] }

-- Waiting for 5 with 7 and 9 there.
abbrev waiting : Buffer
waiting = record {
  window_size = 2;
  expected_sn = 5;
  pending = (9, one_bit) ∷ (7, one_bit) ∷ [];
  in_progress = [];
}

waiting-InSpace : InSpace waiting.pending
unfolding lookup
waiting-InSpace k h = ground arith

waiting-IsBuffer : IsBuffer waiting
unfolding lookup
waiting-IsBuffer = record {
  window_pos = omega arith;
  window_fits = omega arith;
  dict = (refl, (refl, tt));
  in_space = waiting-InSpace;
  expected_in_space = omega arith;
  settled = refl;
}

ingest-IsBuffer_example : Returns (ingest 8 one_bit waiting)
ingest-IsBuffer_example = ingest-IsBuffer 8 one_bit waiting (omega arith) waiting-IsBuffer

waiting_ahead : (j : ℕ) → has_key j waiting.pending ≡ true → (5 ≤ j) × (j < 517)
unfolding lookup
waiting_ahead j h = ground arith

waiting_key : has_key 9 waiting.pending ≡ true
unfolding lookup
waiting_key = refl

resync_earliest_example :
    (m : ℕ) × (resync waiting ≡ ok (record waiting { in_progress = []; expected_sn = m }))
    × (has_key m waiting.pending ≡ true)
    × ((j : ℕ) → has_key j waiting.pending ≡ true → (m ≡ j) ⊎ (sn_precedes m j ≡ true))
resync_earliest_example = resync_earliest waiting 9 waiting_key waiting-InSpace waiting_ahead

-- Waiting for 1020 with 2 and 1022 there.
abbrev straddling : Buffer
straddling = record {
  window_size = 1;
  expected_sn = 1020;
  pending = (2, one_bit) ∷ (1022, one_bit) ∷ [];
  in_progress = [];
}

straddling-InSpace : InSpace straddling.pending
unfolding lookup
straddling-InSpace k h = ground arith

straddling_keys : (has_key 2 straddling.pending ≡ true) × (has_key 1022 straddling.pending ≡ true)
unfolding lookup
straddling_keys = (refl, refl)

straddling_precedes : sn_precedes 1022 2 ≡ true
unfolding sn_precedes
straddling_precedes = refl

resync_across_wrap_example :
    (m : ℕ) × (resync straddling ≡ ok (record straddling { in_progress = []; expected_sn = m }))
    × (sn_precedes 1022 m ≡ true)
resync_across_wrap_example =
    resync_across_wrap straddling 2 1022 straddling_keys.0 straddling_keys.1 straddling-InSpace
      (omega arith) straddling_precedes
