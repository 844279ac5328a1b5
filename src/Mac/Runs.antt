-- ===== src/Mac/Runs.antt =====
-- Runs of capacity.py, quality.py, mac.py and session.py over a radio that loses nothing.
use mathlib.Core.Path.{subst}
use spectracuda.Common.{
  ◌%◌, ◌>>◌, require, length, ◌==◌, ==_iff, sym, Option, map, ℕ, ◌+◌, ◌*◌, ◌/◌, ◌≤◌, ◌≡◌, refl,
  List, [], ◌∷◌, true, false, none, some, Outcome, ok, arith, leb, bits_of, pos,
}
use spectracuda.Numpy.Instance.{packing}
use spectracuda.Mac.Tm.{TmEntity}
use spectracuda.Mac.Segmenter.Split.{IsSegmenter}
use spectracuda.Mac.Um
use spectracuda.Mac.Um.{UmEntity}
use spectracuda.Mac.Segmenter.{segment, segment_loop, piece_at}
use spectracuda.Mac.Pdu.{sn_add, encode_header}
use spectracuda.Mac.Um.Delivery.{InStep}
use spectracuda.Mac.Capacity.{Phy, fits, best_from}
use spectracuda.Mac.Capacity.Search.{IsMonotone, IsCapacity, compute_max_segment_bits-IsCapacity}
use spectracuda.Mac.Capacity.Blocks.{IsLimited, IsBest, best_from-IsBest}
use spectracuda.Mac.Quality.{
  Floats, Stats, link_quality_tracker, delivered_ratio, encode_quality_report,
  decode_quality_report,
}
use spectracuda.Mac.Quality.Counters.{
  Observation, observe_all, count_delivered, count_evm, observe_all-counts,
}
use spectracuda.Mac.Quality.Report.{decode_quality_report-encode_quality_report}
use spectracuda.Mac.Bind.{
  mode_code, Request, encode_bind_request, encode_bind_response, evaluate_bind_request,
}
use spectracuda.Mac.Bind.Handshake.{IsRequest, handshake_lem}
use spectracuda.Mac.Radio.{RxResult, Radio, Arrives, ArrivesIfSent, AllArrive}
use spectracuda.Mac.Entity.{in_um}
use spectracuda.Mac.Unit.{MacUnit}
use spectracuda.Mac.Unit.Iq.{rx_process_only}
use spectracuda.Mac.Unit.Control.{own_request}
use spectracuda.Mac.Unit.Handshake.{Bound, bind-Bound}
use spectracuda.Mac.Unit.Batch.{decode_batch}
use spectracuda.Mac.Unit.Batch.Order.{decode_batch-map}
use spectracuda.Mac.Session.{MacLink, bind}
use spectracuda.Mac.Session
use spectracuda.Mac.Session.Lossless.{Sends, bind_succeeds, send-Sends}

abbrev two_bytes : List ℕ
two_bytes = bits_of 16 43690

abbrev small_frame : TmEntity
small_frame = record { max_segment_bits = 16 }

-- Frames of 1000 bits, with a CRC of two bytes.
abbrev phy : Phy
phy = record {
  max_payload_symbols = 10;
  bits_per_ofdm_symbol = 100;
  fec_codec = none;
  crc_key_length_bytes = 2;
  encoded_length = λ n. ok (n + 16);
}

phy-IsMonotone : IsMonotone phy (λ n. leb (n + 16) 1000)
unfolding fits
phy-IsMonotone = record { decides = λ n. refl; monotone = λ m n a b h e. ground arith }

compute_max_segment_bits-IsCapacity_example : IsCapacity phy (λ n. leb (n + 16) 1000) true
compute_max_segment_bits-IsCapacity_example =
    compute_max_segment_bits-IsCapacity phy (λ n. leb (n + 16) 1000) true refl phy-IsMonotone

phy-IsLimited : IsLimited phy (λ n. leb (n + 16) 1000)
unfolding fits
phy-IsLimited = record { decides = λ n. refl; limited = λ n h. ground arith }

best_from-IsBest_example :
    (best : ℕ) × (best_from (some 324) phy ≡ ok best)
    × IsBest phy (λ n. leb (n + 16) 1000) phy-IsLimited 324 (omega arith) best
best_from-IsBest_example =
    best_from-IsBest phy (λ n. leb (n + 16) 1000) 324 (omega arith) phy-IsLimited

-- Whole numbers in place of floating-point ones.
abbrev whole : Floats ℕ
whole = record {
  zero_float = 0;
  plus = λ x y. x + y;
  over = λ x n. x / n;
  ratio = λ x n. x / n;
  fixed_point = λ z n. 0;
  scaled_round = λ x n. ok (pos (x * n));
}

abbrev observations : List (Observation ℕ)
observations =
    record { rssi_db = 3; evm = some 1; delivered = true }
    ∷ record { rssi_db = 2; evm = none; delivered = false }
    ∷ []

observe_all-counts_example :
    let t = observe_all whole observations (link_quality_tracker whole) in
    (t.n_attempts ≡ 2)
    × (t.n_delivered ≡ count_delivered whole observations)
    × (t.evm_count ≡ count_evm whole observations)
    × (t.n_delivered ≤ t.n_attempts)
observe_all-counts_example = observe_all-counts whole observations

abbrev stats : Stats ℕ
stats = record { n_attempts = 70000; n_delivered = 12; mean_rssi_db = 9; mean_evm = 1 }

decode_quality_report-encode_quality_report_example :
    (pdu : List ℕ) × (encode_quality_report packing whole stats ≡ ok pdu)
    × (decode_quality_report packing whole pdu
        ≡ ok (record {
          n_attempts = 65535;
          n_delivered = 12;
          delivered_ratio = delivered_ratio whole 12 65535;
          mean_rssi_db = 0;
          mean_evm = 0;
        }))
decode_quality_report-encode_quality_report_example =
    decode_quality_report-encode_quality_report packing whole stats (pos 900) (pos 10000) refl refl

-- A frame is its bits. As under a CRC, only whole bytes make one.
abbrev wire : Radio ℕ (Unit {0}) (List ℕ) (Unit {0})
wire = record {
  phy = λ s. phy;
  crc_enabled = λ s. true;
  generate_frame = λ s pdu. require (length pdu % 8 == 0) >> ok pdu;
  rx_process = λ s iq. ok (record {
    frame_found = true;
    crc_valid = some true;
    rssi_db = 0;
    evm = none;
    bits = some iq;
  });
  compute_rssi_db = λ iq. 0;
  reconfigure_tx_scheme = λ s scheme. ok s;
}

wire-Arrives : (pdu : List ℕ) → length pdu % 8 ≡ 0 → Arrives wire tt tt pdu
wire-Arrives pdu h = record {
  frame = pdu;
  result = record {
    frame_found = true;
    crc_valid = some true;
    rssi_db = 0;
    evm = none;
    bits = some pdu;
  };
  generated = rw ((==_iff (length pdu % 8) 0).1 h) refl;
  processed = refl;
  delivered = refl;
  same_bits = refl;
}

request_arrives :
    (r : Request) → IsRequest r → ArrivesIfSent wire tt tt (encode_bind_request packing r)
request_arrives r v =
    let h = handshake_lem packing r 0 v in
    subst (ArrivesIfSent wire tt tt) (sym h.request_sent)
      (wire-Arrives h.request_pdu (omega (arith, h.request_length)))

response_arrives :
    (r : Request) (n : ℕ)
    → IsRequest r
    → ArrivesIfSent wire tt tt (encode_bind_response packing (evaluate_bind_request r n))
response_arrives r n v =
    let h = handshake_lem packing r n v in
    subst (ArrivesIfSent wire tt tt) (sym h.response_sent)
      (wire-Arrives h.response_pdu (omega (arith, h.response_length)))

abbrev end_of_link : UmEntity
end_of_link = record {
  segmenter = record { max_segment_bits = 16 };
  reassembly = record { window_size = 4; expected_sn = 1023; pending = []; in_progress = [] };
  next_tx_sn = 1023;
}

abbrev ground_unit : MacUnit ℕ (Unit {0})
ground_unit = record {
  mode = "um";
  ofdm = some tt;
  max_segment_bits = 16;
  impl = in_um end_of_link;
  quality = link_quality_tracker whole;
  bound = false;
  window_size = 4;
  max_retries = 2;
}

abbrev air_unit : MacUnit ℕ (Unit {0})
air_unit = record ground_unit { max_segment_bits = 8 }

ground_unit-IsRequest : IsRequest (own_request whole wire packing ground_unit)
unfolding mode_code
ground_unit-IsRequest = record {
  code = 1;
  known = refl;
  segment_fits = omega arith;
  window_fits = omega arith;
  retries_fit = omega arith;
}

bind-Bound_example : Bound whole wire packing ground_unit air_unit
bind-Bound_example =
    bind-Bound whole wire packing ground_unit air_unit tt tt refl refl ground_unit-IsRequest
      (request_arrives (own_request whole wire packing ground_unit) ground_unit-IsRequest)
      (response_arrives (own_request whole wire packing ground_unit) 8 ground_unit-IsRequest)

abbrev no_channel : Unit {0} → List ℕ → Outcome (List ℕ) × Unit {0}
no_channel world iq = (ok iq, world)

abbrev link : MacLink ℕ (Unit {0}) (Unit {0})
link = record {
  ofdm = tt;
  mode = "um";
  channel = none;
  max_rounds = 4;
  max_segment_bits = 16;
  window_size = 4;
  max_retries = 2;
  tx_mac = in_um end_of_link;
  rx_mac = in_um end_of_link;
  bound = true;
  quality = link_quality_tracker whole;
}

link-IsRequest : IsRequest (Session.own_request whole wire packing no_channel link)
unfolding mode_code
link-IsRequest = record {
  code = 1;
  known = refl;
  segment_fits = omega arith;
  window_fits = omega arith;
  retries_fit = omega arith;
}

bind_succeeds_example :
    (after : MacLink ℕ (Unit {0}) (Unit {0})) × (bind whole wire packing no_channel link
      ≡ (ok true, after))
    × (after.bound ≡ true)
    × (after.tx_mac ≡ in_um end_of_link)
    × (after.rx_mac ≡ in_um end_of_link)
bind_succeeds_example =
    bind_succeeds whole wire packing no_channel link refl link-IsRequest
      (request_arrives (Session.own_request whole wire packing no_channel link) link-IsRequest)
      (response_arrives (Session.own_request whole wire packing no_channel link) 16 link-IsRequest)

end_of_link-IsSegmenter : IsSegmenter end_of_link.segmenter
end_of_link-IsSegmenter = record { at_least = omega arith; whole_bytes = refl }

end_of_link-InStep : InStep end_of_link end_of_link
end_of_link-InStep = record {
  same_sn = refl;
  in_space = omega arith;
  window_pos = omega arith;
  nothing_pending = refl;
  nothing_in_progress = refl;
}

sdu_arrives : AllArrive wire tt tt (Um.transmit (bits_of 40 437260123391) end_of_link).0
unfolding Um.transmit Um.number_pieces segment segment_loop piece_at sn_add encode_header
sdu_arrives = (wire-Arrives _ refl, (wire-Arrives _ refl, (wire-Arrives _ refl, tt)))

send-Sends_example : Sends whole wire packing no_channel (bits_of 40 437260123391) link
send-Sends_example =
    send-Sends whole wire packing no_channel (bits_of 40 437260123391) link end_of_link end_of_link
      refl refl refl refl refl end_of_link-IsSegmenter end_of_link-InStep (omega arith) refl
      (omega arith) sdu_arrives

abbrev heard : List ℕ → Option (RxResult ℕ)
heard iq =
    some (record {
      frame_found = true;
      crc_valid = some true;
      rssi_db = 0;
      evm = none;
      bits = some iq;
    })

wire_decodes : (iq : List ℕ) → rx_process_only whole wire tt iq ≡ ok (heard iq)
unfolding rx_process_only
wire_decodes iq = refl

decode_batch-map_example :
    decode_batch whole wire tt (ok tt) 2 ((1 ∷ []) ∷ (2 ∷ []) ∷ (3 ∷ []) ∷ [])
    ≡ ok (map heard ((1 ∷ []) ∷ (2 ∷ []) ∷ (3 ∷ []) ∷ []))
decode_batch-map_example =
    decode_batch-map whole wire tt tt (ok tt) heard 2 ((1 ∷ []) ∷ (2 ∷ []) ∷ (3 ∷ []) ∷ []) refl
      wire_decodes wire_decodes
