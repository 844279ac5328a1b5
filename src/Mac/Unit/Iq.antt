-- ===== src/Mac/Unit/Iq.antt =====
-- mac/mac.py: frames sent and received.
use spectracuda.Common.{
  ◌≡◌, ap, ℕ, List, [], ◌∷◌, false, Option, none, some, Outcome, ok, raise, loops, value_error,
  index_error, Exception, if◌then◌else◌,
}
use spectracuda.Common.Stateful.{Method, ◌>>=◌, ◌>>◌, lift, read, check}
use spectracuda.Mac.Quality.{Floats, observe}
use spectracuda.Mac.Radio.{Radio, RxResult, is_delivered}
use spectracuda.Mac.Entity
use spectracuda.Mac.Entity.{Entity}
use spectracuda.Mac.Unit.{MacUnit}

-- A call on `self._impl`
abbrev pub on_impl :
    {F State A : Type 0} → (Entity → Outcome A × Entity) → Method (MacUnit F State) A
on_impl call m = let (result, impl) = call m.impl in (result, record m { impl = impl })

-- `_require_ofdm`, and the OFDM object
abbrev pub ofdm_or_raise : {F State : Type 0} → Option State → Method (MacUnit F State) State
ofdm_or_raise none m = (raise value_error, m)
ofdm_or_raise (some s) m = (ok s, m)

abbrev pub require_ofdm : {F State : Type 0} → Method (MacUnit F State) State
require_ofdm m = ofdm_or_raise m.ofdm m

pub require_ofdm-some :
    {F State : Type 0} (m : MacUnit F State) (s : State)
    → m.ofdm ≡ some s
    → require_ofdm m ≡ (ok s, m)
require_ofdm-some m s h = ap (λ o. ofdm_or_raise o m) h

-- `result["bits"][0]`
abbrev pub bits_from : Option (List ℕ) → Outcome (Option (List ℕ))
bits_from none = raise index_error
bits_from (some bits) = ok (some bits)

module _ {F State Iq Scheme : Type 0} (floats : Floats F) (radio : Radio F State Iq Scheme) where
  generate_all : State → List (List ℕ) → Outcome (List Iq)
  generate_all s [] = ok []
  generate_all s (pdu ∷ pdus) =
      let rest = generate_all s pdus in
      elim (radio.generate_frame s pdu) [
        | ok frame ↦ elim rest [
          | ok frames ↦ ok (frame ∷ frames)
          | raise e ↦ raise e
          | loops ↦ loops
        ]
        | raise e ↦ raise e
        | loops ↦ loops
      ]

  unfoldable pub send_iq : List ℕ → Method (MacUnit F State) (List Iq)
  unfolding generate_all
  send_iq sdu_bits = do
    s ← require_ofdm
    bound ← read (λ (m : MacUnit F State). m.bound)
    check bound
    pdus ← on_impl (Entity.transmit sdu_bits)
    lift (generate_all s pdus)

  -- The result of a frame whose payload could not be decoded.
  abbrev pub undecoded : Iq → RxResult F
  undecoded iq = record {
    frame_found = false;
    crc_valid = none;
    rssi_db = radio.compute_rssi_db iq;
    evm = none;
    bits = none;
  }

  abbrev pub caught : Iq → Outcome (RxResult F) → Outcome (Option (RxResult F))
  caught iq (ok r) = ok (some r)
  caught iq (raise Exception.not_implemented) = ok none
  caught iq (raise Exception.value_error) = ok (some (undecoded iq))
  caught iq (raise e) = raise e
  caught iq loops = loops

  unfoldable pub rx_process_only : State → Iq → Outcome (Option (RxResult F))
  rx_process_only s iq = caught iq (radio.rx_process s iq)

  unfoldable pub apply_rx_result : Option (RxResult F) → Method (MacUnit F State) (Option (List ℕ))
  apply_rx_result none m = (ok none, m)
  apply_rx_result (some r) m = (
    (if is_delivered r then bits_from r.bits else ok none),
    record m { quality = observe floats r.rssi_db r.evm (is_delivered r) m.quality },
  )

  unfoldable pub rx_one_frame : State → Iq → Method (MacUnit F State) (Option (List ℕ))
  unfolding rx_process_only apply_rx_result
  rx_one_frame s iq = do result ← lift (rx_process_only s iq); apply_rx_result result

  -- Nothing is an empty list, in TM too.
  unfoldable pub deliver : Option (List ℕ) → Method (MacUnit F State) (List (List ℕ))
  deliver none m = (ok [], m)
  deliver (some pdu_bits) m = on_impl (Entity.receive pdu_bits) m

  unfoldable pub receive_iq : Iq → Method (MacUnit F State) (List (List ℕ))
  unfolding rx_one_frame deliver
  receive_iq iq = do s ← require_ofdm; arrived ← rx_one_frame s iq; deliver arrived
