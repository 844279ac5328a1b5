-- ===== src/Mac/Session.antt =====
-- mac/session.py, class MacLink: two entities joined by one OFDM object and a channel.
pub mod Lossless
pub mod Start
use Prim.Native.String.{String}
use text.Mathlib.Text.{◌==◌ as str_eq}
use spectracuda.Common.{
  ℕ, zero, suc, ◌+◌, List, [], ◌∷◌, ◌++◌, Bool, true, false, not, Option, none, some, Outcome, ok,
  raise, loops, value_error, Exception, if◌then◌else◌,
}
use spectracuda.Common.Stateful.{
  Method, continue_with, ◌>>=◌, ◌>>◌, return, lift, read, modify, check,
}
use spectracuda.Numpy.{Packing}
use spectracuda.Mac.Am
use spectracuda.Mac.Quality.{
  Floats, LinkQualityTracker, QualityReport, observe, report_dict, encode_quality_report,
  decode_quality_report,
}
use spectracuda.Mac.Bind.{
  Request, encode_bind_request, decode_bind_request, encode_bind_response, decode_bind_response,
  evaluate_bind_request,
}
use spectracuda.Mac.Radio.{Radio, RxResult, is_delivered}
use spectracuda.Mac.Entity
use spectracuda.Mac.Entity.{Entity, in_tm, in_um, in_am}
use spectracuda.Mac.Unit.Iq.{bits_from}

-- The state of a link; `channel` is what the channel's next answer depends on.
pub record MacLink (F State World : Type 0) : Type 0 where
  pub ofdm : State
  pub mode : String
  pub channel : Option World
  pub max_rounds : ℕ
  pub max_segment_bits : ℕ
  pub window_size : ℕ
  pub max_retries : ℕ
  pub tx_mac : Entity
  pub rx_mac : Entity
  pub bound : Bool
  pub quality : LinkQualityTracker F

abbrev pub on_tx :
    {F State World A : Type 0} → (Entity → Outcome A × Entity) → Method (MacLink F State World) A
on_tx call l = let (result, e) = call l.tx_mac in (result, record l { tx_mac = e })

abbrev pub on_rx :
    {F State World A : Type 0} → (Entity → Outcome A × Entity) → Method (MacLink F State World) A
on_rx call l = let (result, e) = call l.rx_mac in (result, record l { rx_mac = e })

-- Calls that only an AM entity answers: any other has no such attribute.
abbrev pub build_status : Entity → Outcome (List ℕ)
build_status (in_am a) = Am.build_status a
build_status e = raise Exception.type_error

abbrev pub receive_status : List ℕ → Entity → Outcome (List (List ℕ)) × Entity
receive_status pdu_bits (in_am a) =
    let (again, a') = Am.receive_status pdu_bits a in (again, in_am a')
receive_status pdu_bits e = (raise Exception.type_error, e)

abbrev pub pending_pdus : Entity → Outcome (List (List ℕ))
pending_pdus (in_am a) = ok (Am.pending_pdus a)
pending_pdus e = raise Exception.type_error

-- `channel` is `Channel.process`: an array as it arrives, and the state of the channel afterwards.
module _ {F State Iq Scheme World : Type 0} (floats : Floats F) (radio : Radio F State Iq Scheme)
    (np : Packing) (process : World → Iq → Outcome Iq × World) where
  abbrev carry : Iq → Method (MacLink F State World) Iq
  carry iq l = elim l.channel [
    | none ↦ (ok iq, l)
    | some world ↦
        (let (arrived, world') = process world iq in (arrived, record l { channel = some world' }))
  ]

  abbrev accept : Outcome (RxResult F) → Method (MacLink F State World) (Option (List ℕ))
  accept (ok r) l = (
    (if is_delivered r then bits_from r.bits else ok none),
    record l { quality = observe floats r.rssi_db r.evm (is_delivered r) l.quality },
  )
  accept (raise Exception.value_error) l = (ok none, l)
  accept (raise Exception.not_implemented) l = (ok none, l)
  accept (raise e) l = (raise e, l)
  accept loops l = (loops, l)

  unfoldable pub phy_round : List ℕ → Method (MacLink F State World) (Option (List ℕ))
  phy_round pdu_bits = do
    s ← read (λ (l : MacLink F State World). l.ofdm)
    tx_iq ← lift (radio.generate_frame s pdu_bits)
    arrived ← carry tx_iq
    accept (radio.rx_process s arrived)

  abbrev set_bound : Bool → MacLink F State World → MacLink F State World
  set_bound b l = record l { bound = b }

  abbrev settle_bind : Bool → Method (MacLink F State World) Bool
  settle_bind b = do modify (set_bound b); return b

  abbrev adopt : Option (List ℕ) → Method (MacLink F State World) Bool
  adopt none = settle_bind false
  adopt (some response_arrived) = do
    response ← lift (decode_bind_response np response_arrived)
    settle_bind response.accepted

  abbrev answer : Option (List ℕ) → Method (MacLink F State World) Bool
  answer none = settle_bind false
  answer (some arrived) = do
    request ← lift (decode_bind_request np arrived)
    n ← read (λ (l : MacLink F State World). l.max_segment_bits)
    response_pdu ← lift (encode_bind_response np (evaluate_bind_request request n))
    response_arrived ← phy_round response_pdu
    adopt response_arrived

  abbrev pub own_request : MacLink F State World → Request
  own_request l = record {
    mode = l.mode;
    max_segment_bits = l.max_segment_bits;
    window_size = l.window_size;
    max_retries = l.max_retries;
  }

  unfoldable pub bind : Method (MacLink F State World) Bool
  unfolding phy_round
  bind = do
    request ← read own_request
    request_pdu ← lift (encode_bind_request np request)
    arrived ← phy_round request_pdu
    answer arrived

  abbrev read_report : Option (List ℕ) → Method (MacLink F State World) (QualityReport F)
  read_report none = lift (raise value_error)
  read_report (some arrived) = lift (decode_quality_report np floats arrived)

  unfoldable pub exchange_link_quality : Method (MacLink F State World) (QualityReport F)
  unfolding phy_round
  exchange_link_quality = do
    stats ← read (λ (l : MacLink F State World). report_dict floats l.quality)
    report_pdu ← lift (encode_quality_report np floats stats)
    arrived ← phy_round report_pdu
    read_report arrived

  abbrev hand_over : Option (List ℕ) → Method (MacLink F State World) (List (List ℕ))
  hand_over none = return []
  hand_over (some arrived) = on_rx (Entity.receive arrived)

  -- `for pdu in pending`: a round for each PDU, and what the peer delivers of it.
  unfoldable pub send_pdus : List (List ℕ) → Method (MacLink F State World) (List (List ℕ))
  unfolding phy_round
  send_pdus [] = return []
  send_pdus (pdu ∷ pdus) = do
    arrived ← phy_round pdu
    now ← hand_over arrived
    more ← send_pdus pdus
    return (now ++ more)

  abbrev next_pending : Option (List ℕ) → Method (MacLink F State World) (List (List ℕ))
  next_pending none l = (pending_pdus l.tx_mac, l)
  next_pending (some status_arrived) l = on_tx (receive_status status_arrived) l

  -- `for _ in range(self.max_rounds)`, left when nothing is pending
  unfoldable pub am_rounds : ℕ → List (List ℕ) → Method (MacLink F State World) (List (List ℕ))
  unfolding send_pdus
  am_rounds zero pending = return []
  am_rounds (suc rounds) [] = return []
  am_rounds (suc rounds) (pdu ∷ pdus) = do
    now ← send_pdus (pdu ∷ pdus)
    rx ← read (λ (l : MacLink F State World). l.rx_mac)
    status ← lift (build_status rx)
    status_arrived ← phy_round status
    pending ← next_pending status_arrived
    more ← am_rounds rounds pending
    return (now ++ more)

  unfoldable pub send : List ℕ → Method (MacLink F State World) (List (List ℕ))
  unfolding send_pdus am_rounds
  send sdu_bits = do
    bound ← read (λ (l : MacLink F State World). l.bound)
    check bound
    mode ← read (λ (l : MacLink F State World). l.mode)
    rounds ← read (λ (l : MacLink F State World). l.max_rounds)
    pending ← on_tx (Entity.transmit sdu_bits)
    (if str_eq mode "am" then am_rounds rounds pending else send_pdus pending)
