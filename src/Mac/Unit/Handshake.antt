-- ===== src/Mac/Unit/Handshake.antt =====
-- The handshake between two units, each with a radio of its own.
use mathlib.Core.Path.{subst}
use spectracuda.Common.{ℕ, ◌≡◌, refl, sym, ap, List, Bool, true, some, ok, leb}
use spectracuda.Numpy.{Packing}
use spectracuda.Mac.Quality.{Floats, observe}
use spectracuda.Mac.Bind.{
  Request, Decision, encode_bind_request, decode_bind_request, encode_bind_response,
  decode_bind_response, evaluate_bind_request,
}
use spectracuda.Mac.Bind.Handshake.{IsRequest, Handshake, handshake_lem}
use spectracuda.Mac.Radio.{Radio, RxResult, Arrives, ArrivesIfSent}
use spectracuda.Mac.Unit.{MacUnit}
use spectracuda.Mac.Unit.Iq.{rx_one_frame, require_ofdm-some}
use spectracuda.Mac.Unit.Control.{
  own_request, build_bind_request, handle_bind_request_iq, handle_bind_response_iq,
}

module _ {F State Iq Scheme : Type 0} (floats : Floats F) (radio : Radio F State Iq Scheme)
    (np : Packing) where
  -- A unit that has observed one more frame.
  abbrev observed : RxResult F → MacUnit F State → MacUnit F State
  observed r m = record m { quality = observe floats r.rssi_db r.evm true m.quality }

  rx_one_frame-Arrives :
      (from to : State) (pdu : List ℕ) (a : Arrives radio from to pdu) (m : MacUnit F State)
      → rx_one_frame floats radio to a.frame m ≡ (ok (some pdu), observed a.result m)
  unfolding rx_one_frame
  rx_one_frame-Arrives from to pdu a m = rw (a.processed, a.delivered, a.same_bits) refl

  requested_frame :
      (m : MacUnit F State) (s : State) (pdu : List ℕ) (frame : Iq)
      → m.ofdm ≡ some s
      → encode_bind_request np (own_request floats radio np m) ≡ ok pdu
      → radio.generate_frame s pdu ≡ ok frame
      → build_bind_request floats radio np m ≡ (ok frame, m)
  unfolding build_bind_request
  requested_frame m s pdu frame h e g = rw (require_ofdm-some m s h) (rw (e, g) refl)

  answered_frame :
      (m m' : MacUnit F State) (s : State) (iq : Iq) (pdu : List ℕ) (r : Request)
      (response : List ℕ) (frame : Iq)
      → m.ofdm ≡ some s
      → rx_one_frame floats radio s iq m ≡ (ok (some pdu), m')
      → decode_bind_request np pdu ≡ ok r
      → encode_bind_response np (evaluate_bind_request r m'.max_segment_bits) ≡ ok response
      → radio.generate_frame s response ≡ ok frame
      → handle_bind_request_iq floats radio np iq m ≡ (
        ok (some frame),
        record m' { bound = (evaluate_bind_request r m'.max_segment_bits).accepted },
      )
  unfolding handle_bind_request_iq
  answered_frame m m' s iq pdu r response frame h e d f g =
      rw (require_ofdm-some m s h) (rw e (rw (d, f, g) refl))

  completed_frame :
      (m m' : MacUnit F State) (s : State) (iq : Iq) (pdu : List ℕ) (d : Decision)
      → m.ofdm ≡ some s
      → rx_one_frame floats radio s iq m ≡ (ok (some pdu), m')
      → decode_bind_response np pdu ≡ ok d
      → handle_bind_response_iq floats radio np iq m
        ≡ (ok d.accepted, record m' { bound = d.accepted })
  unfolding handle_bind_response_iq
  completed_frame m m' s iq pdu d h e f = rw (require_ofdm-some m s h) (rw e (rw f refl))

  -- What the handshake of a unit `a` that requests and a unit `b` that accepts or rejects comes to.
  pub record Bound (a b : MacUnit F State) : Type 0 where
    pub request_frame : Iq
    pub requested : build_bind_request floats radio np a ≡ (ok request_frame, a)
    pub response_frame : Iq
    pub b_after : MacUnit F State
    pub answered :
        handle_bind_request_iq floats radio np request_frame b ≡ (ok (some response_frame), b_after)
    pub a_after : MacUnit F State
    pub accepted : Bool
    pub completed :
        handle_bind_response_iq floats radio np response_frame a ≡ (ok accepted, a_after)
    pub decision : accepted ≡ leb a.max_segment_bits b.max_segment_bits
    pub a_bound : a_after.bound ≡ accepted
    pub b_bound : b_after.bound ≡ accepted

  -- When the requester's parameters fit the wire format and the frames of the two PDUs of the
  -- handshake arrive, the request at the acceptor and the response at the requester, the handshake completes without an exception, and both units are bound
  -- afterwards if the requester's segments are at most as large as the acceptor's, and neither is if
  -- not.
  pub bind-Bound :
      (a b : MacUnit F State) (sa sb : State)
      → a.ofdm ≡ some sa
      → b.ofdm ≡ some sb
      → IsRequest (own_request floats radio np a)
      → ArrivesIfSent radio sa sb (encode_bind_request np (own_request floats radio np a))
      → ArrivesIfSent radio sb sa (
          encode_bind_response np
            (evaluate_bind_request (own_request floats radio np a) b.max_segment_bits))
      → Bound a b
  bind-Bound a b sa sb ha hb v forth back =
      let r : Request = own_request floats radio np a in
      let h : Handshake np r b.max_segment_bits = handshake_lem np r b.max_segment_bits v in
      let x : Arrives radio sa sb h.request_pdu =
        subst (ArrivesIfSent radio sa sb) h.request_sent forth in
      let y : Arrives radio sb sa h.response_pdu =
        subst (ArrivesIfSent radio sb sa) h.response_sent back in
      record {
        request_frame = x.frame;
        requested = requested_frame a sa h.request_pdu x.frame ha h.request_sent x.generated;
        response_frame = y.frame;
        b_after = record (observed x.result b) {
          bound = (evaluate_bind_request r b.max_segment_bits).accepted;
        };
        answered =
            answered_frame b (observed x.result b) sb x.frame h.request_pdu r h.response_pdu y.frame
              hb (rx_one_frame-Arrives sa sb h.request_pdu x b) h.request_read h.response_sent
              y.generated;
        a_after = record (observed y.result a) { bound = h.decision.accepted };
        accepted = h.decision.accepted;
        completed =
            completed_frame a (observed y.result a) sa y.frame h.response_pdu h.decision ha
              (rx_one_frame-Arrives sb sa h.response_pdu y a) h.response_read;
        decision = h.accepts;
        a_bound = refl;
        b_bound = ap (λ (d : Decision). d.accepted) (sym h.decided);
      }
