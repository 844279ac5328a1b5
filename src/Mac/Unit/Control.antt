-- ===== src/Mac/Unit/Control.antt =====
-- mac/mac.py: binding, the transmit scheme and quality reports.
use text.Mathlib.Text.{◌==◌ as str_eq}
use spectracuda.Common.{ℕ, List, Bool, false, not, Option, none, some, raise, value_error}
use spectracuda.Common.Stateful.{Method, ◌>>=◌, ◌>>◌, return, lift, read, modify}
use spectracuda.Numpy.{Packing}
use spectracuda.Mac.Capacity.{compute_max_segment_bits}
use spectracuda.Mac.Quality.{
  Floats, QualityReport, report_dict, encode_quality_report, decode_quality_report,
}
use spectracuda.Mac.Bind.{
  Request, encode_bind_request, decode_bind_request, encode_bind_response, decode_bind_response,
  evaluate_bind_request,
}
use spectracuda.Mac.Radio.{Radio}
use spectracuda.Mac.Entity.{set_max_segment_bits}
use spectracuda.Mac.Unit.{MacUnit}
use spectracuda.Mac.Unit.Iq.{require_ofdm, rx_one_frame}

module _ {F State Iq Scheme : Type 0} (floats : Floats F) (radio : Radio F State Iq Scheme)
    (np : Packing) where
  abbrev pub own_request : MacUnit F State → Request
  own_request m = record {
    mode = m.mode;
    max_segment_bits = m.max_segment_bits;
    window_size = m.window_size;
    max_retries = m.max_retries;
  }

  unfoldable pub build_bind_request : Method (MacUnit F State) Iq
  build_bind_request = do
    s ← require_ofdm
    request ← read own_request
    request_pdu ← lift (encode_bind_request np request)
    lift (radio.generate_frame s request_pdu)

  abbrev set_bound : Bool → MacUnit F State → MacUnit F State
  set_bound b m = record m { bound = b }

  abbrev answer : State → Option (List ℕ) → Method (MacUnit F State) (Option Iq)
  answer s none = return none
  answer s (some arrived) = do
    request ← lift (decode_bind_request np arrived)
    n ← read (λ (m : MacUnit F State). m.max_segment_bits)
    let decision = evaluate_bind_request request n
    modify (set_bound decision.accepted)
    response_pdu ← lift (encode_bind_response np decision)
    frame ← lift (radio.generate_frame s response_pdu)
    return (some frame)

  unfoldable pub handle_bind_request_iq : Iq → Method (MacUnit F State) (Option Iq)
  handle_bind_request_iq iq = do
    s ← require_ofdm
    arrived ← rx_one_frame floats radio s iq
    answer s arrived

  abbrev adopt : Option (List ℕ) → Method (MacUnit F State) Bool
  adopt none = do modify (set_bound false); return false
  adopt (some arrived) = do
    response ← lift (decode_bind_response np arrived)
    modify (set_bound response.accepted)
    return response.accepted

  unfoldable pub handle_bind_response_iq : Iq → Method (MacUnit F State) Bool
  handle_bind_response_iq iq = do
    s ← require_ofdm
    arrived ← rx_one_frame floats radio s iq
    adopt arrived

  unfoldable pub set_tx_scheme : Scheme → Method (MacUnit F State) ℕ
  set_tx_scheme scheme = do
    s ← require_ofdm
    s' ← lift (radio.reconfigure_tx_scheme s scheme)
    modify (λ (m : MacUnit F State). record m { ofdm = some s' })
    mode ← read (λ (m : MacUnit F State). m.mode)
    n ← lift (compute_max_segment_bits (radio.phy s') (not (str_eq mode "tm")))
    modify (λ (m : MacUnit F State). record m {
      max_segment_bits = n;
      impl = set_max_segment_bits n m.impl;
    })
    return n

  unfoldable pub build_quality_report : Method (MacUnit F State) Iq
  build_quality_report = do
    s ← require_ofdm
    stats ← read (λ (m : MacUnit F State). report_dict floats m.quality)
    report_pdu ← lift (encode_quality_report np floats stats)
    lift (radio.generate_frame s report_pdu)

  abbrev read_report : Option (List ℕ) → Method (MacUnit F State) (QualityReport F)
  read_report none = lift (raise value_error)
  read_report (some arrived) = lift (decode_quality_report np floats arrived)

  unfoldable pub handle_quality_report_iq : Iq → Method (MacUnit F State) (QualityReport F)
  handle_quality_report_iq iq = do
    s ← require_ofdm
    arrived ← rx_one_frame floats radio s iq
    read_report arrived
