-- ===== src/Mac/Session/Lossless.antt =====
-- A link whose frames all arrive.
use mathlib.Core.Path.{subst}
use text.Mathlib.Text.{◌==◌ as str_eq}
use spectracuda.Common.{
  ℕ, ◌%◌, ◌≤◌, ◌<◌, ◌≡◌, ◌∙◌, refl, ap, List, [], ◌∷◌, ◌++◌, true, false, none, some, Outcome, ok,
  leb, arith, length, All, returned,
}
use spectracuda.Common.Stateful.{continue_with, return}
use spectracuda.Numpy.{Packing}
use spectracuda.Mac.Quality.{Floats, LinkQualityTracker, observe}
use spectracuda.Mac.Bind.{Request, encode_bind_request, encode_bind_response, evaluate_bind_request}
use spectracuda.Mac.Bind.Handshake.{IsRequest, Handshake, handshake_lem}
use spectracuda.Mac.Radio.{Radio, RxResult, Arrives, ArrivesIfSent, AllArrive}
use spectracuda.Mac.Um.{UmEntity, receive_all}
use spectracuda.Mac.Um
use spectracuda.Mac.Um.Delivery.{InStep, Delivers, transmit-Delivers}
use spectracuda.Mac.Segmenter.Split.{IsSegmenter}
use spectracuda.Mac.Entity.{in_um}
use spectracuda.Mac.Session.{MacLink, own_request, phy_round, bind, send_pdus, send}

le_refl_test : (n : ℕ) → leb n n ≡ true
le_refl_test n = ground arith

receive_all-cons :
    (pdu : List ℕ) (pdus done : List (List ℕ)) (rx rx' : UmEntity)
    → receive_all (pdu ∷ pdus) rx ≡ ok (done, rx')
    → (now more : List (List ℕ)) × (mid : UmEntity) × (Um.receive pdu rx ≡ ok (now, mid))
      × (receive_all pdus mid ≡ ok (more, rx'))
      × (now ++ more ≡ done)
unfolding receive_all
receive_all-cons pdu pdus done rx rx' h =
    let (first, received, others) = returned (Um.receive pdu rx) _ h in
    let (second, rest, last) = returned (receive_all pdus first.1) _ others in
    let same : second.1 ≡ rx' = cc in
    (first.0, second.0, first.1, received, rest ∙ ap (λ (u : UmEntity). ok (second.0, u)) same, cc)

module _ {F State Iq Scheme World : Type 0} (floats : Floats F) (radio : Radio F State Iq Scheme)
    (np : Packing) (process : World → Iq → Outcome Iq × World) where
  abbrev observed : RxResult F → MacLink F State World → MacLink F State World
  observed r l = record l { quality = observe floats r.rssi_db r.evm true l.quality }

  phy_round-Arrives :
      (l : MacLink F State World) (pdu : List ℕ) (a : Arrives radio l.ofdm l.ofdm pdu)
      → l.channel ≡ none
      → phy_round floats radio np process pdu l ≡ (ok (some pdu), observed a.result l)
  unfolding phy_round
  phy_round-Arrives l pdu a ideal =
      simp (a.generated, ideal, a.processed, a.delivered, a.same_bits) refl

  -- A link without channel impairments whose parameters fit the wire format, and on which the frames
  -- of the two PDUs of the handshake arrive, is bound after `bind`, with its entities as they were.
  pub bind_succeeds :
      (l : MacLink F State World)
      → l.channel ≡ none
      → IsRequest (own_request floats radio np process l)
      → ArrivesIfSent radio l.ofdm l.ofdm
          (encode_bind_request np (own_request floats radio np process l))
      → ArrivesIfSent radio l.ofdm l.ofdm (
          encode_bind_response np
            (evaluate_bind_request (own_request floats radio np process l) l.max_segment_bits))
      → (after : MacLink F State World) × (bind floats radio np process l ≡ (ok true, after))
        × (after.bound ≡ true)
        × (after.tx_mac ≡ l.tx_mac)
        × (after.rx_mac ≡ l.rx_mac)
  unfolding bind
  bind_succeeds l ideal v forth back =
      let r : Request = own_request floats radio np process l in
      let h : Handshake np r l.max_segment_bits = handshake_lem np r l.max_segment_bits v in
      let x : Arrives radio l.ofdm l.ofdm h.request_pdu =
        subst (ArrivesIfSent radio l.ofdm l.ofdm) h.request_sent forth in
      let y : Arrives radio l.ofdm l.ofdm h.response_pdu =
        subst (ArrivesIfSent radio l.ofdm l.ofdm) h.response_sent back in
      let yes : h.decision.accepted ≡ true = h.accepts ∙ le_refl_test l.max_segment_bits in
      (
        record (observed y.result (observed x.result l)) { bound = true },
        rw (h.request_sent, phy_round-Arrives l h.request_pdu x ideal)
            (rw
              (
                h.request_read,
                h.response_sent,
                phy_round-Arrives (observed x.result l) h.response_pdu y ideal,
              )
              (rw (h.response_read, yes) refl)),
        refl,
        refl,
        refl,
      )

  step_um :
      (l : MacLink F State World) (pdu : List ℕ) (pdus done : List (List ℕ)) (rx rx' : UmEntity)
      → (a : Arrives radio l.ofdm l.ofdm pdu) → l.channel ≡ none
      → l.rx_mac ≡ in_um rx
      → Um.receive pdu rx ≡ ok (done, rx')
      → send_pdus floats radio np process (pdu ∷ pdus) l
        ≡ continue_with
            (send_pdus floats radio np process pdus
              (record (observed a.result l) { rx_mac = in_um rx' }))
            (λ more. return (done ++ more))
  unfolding send_pdus
  step_um l pdu pdus done rx rx' a ideal e h = simp (phy_round-Arrives l pdu a ideal, e, h) refl

  -- The PDUs of a UM link, as the peer's entity receives them one after the other.
  send_pdus-receive_all :
      (pdus : List (List ℕ)) (l : MacLink F State World) (rx : UmEntity) (done : List (List ℕ))
      (rx' : UmEntity)
      → l.channel ≡ none
      → l.rx_mac ≡ in_um rx
      → All (Arrives radio l.ofdm l.ofdm) pdus
      → receive_all pdus rx ≡ ok (done, rx')
      → (q : LinkQualityTracker F) × (send_pdus floats radio np process pdus l
          ≡ (ok done, record l { rx_mac = in_um rx'; quality = q }))
  unfolding send_pdus receive_all
  send_pdus-receive_all [] l rx done rx' ideal e carries h = (l.quality, ground (arith, e, h))
  send_pdus-receive_all (pdu ∷ pdus) l rx done rx' ideal e carries h =
      let (now, more, mid, received, rest, joined) = receive_all-cons pdu pdus done rx rx' h in
      let a : Arrives radio l.ofdm l.ofdm pdu = carries.0 in
      let (q, sent) =
        send_pdus-receive_all pdus (record (observed a.result l) { rx_mac = in_um mid }) mid more
          rx' ideal refl carries.1 rest in
      (
        q,
        step_um l pdu pdus now rx mid a ideal e received
            ∙ (ap (λ r. continue_with r (λ m. return (now ++ m))) sent
                ∙ ap (λ d. (ok d, record l { rx_mac = in_um rx'; quality = q })) joined),
      )

  send_um :
      (l : MacLink F State World) (sdu : List ℕ) (tx tx' : UmEntity) (pdus : List (List ℕ))
      → l.bound ≡ true
      → str_eq l.mode "am" ≡ false
      → l.tx_mac ≡ in_um tx
      → Um.transmit sdu tx ≡ (ok pdus, tx')
      → send floats radio np process sdu l
        ≡ send_pdus floats radio np process pdus (record l { tx_mac = in_um tx' })
  unfolding send
  send_um l sdu tx tx' pdus hb hm e h = simp (hb, hm, e, h) refl

  -- What `send` comes to on a UM link.
  pub record Sends (sdu : List ℕ) (l : MacLink F State World) : Type 0 where
    pub after : MacLink F State World
    pub tx_after : UmEntity
    pub rx_after : UmEntity
    pub returns : send floats radio np process sdu l ≡ (ok (sdu ∷ []), after)
    pub tx_mac : after.tx_mac ≡ in_um tx_after
    pub rx_mac : after.rx_mac ≡ in_um rx_after
    pub in_step : InStep tx_after rx_after
    pub still_bound : after.bound ≡ l.bound

  -- A bound UM link without channel impairments, on which the frames of the PDUs that are sent for an
  -- SDU arrive, and whose entities are in step, delivers the SDU, of whole bytes, not empty and of at
  -- most 65536 bits, once and unchanged, and its entities are in step afterwards.
  pub send-Sends :
      (sdu : List ℕ) (l : MacLink F State World) (tx rx : UmEntity)
      → l.channel ≡ none
      → l.bound ≡ true
      → str_eq l.mode "am" ≡ false
      → l.tx_mac ≡ in_um tx
      → l.rx_mac ≡ in_um rx
      → IsSegmenter tx.segmenter
      → InStep tx rx
      → 0 < length sdu
      → length sdu % 8 ≡ 0
      → length sdu ≤ 65536
      → AllArrive radio l.ofdm l.ofdm (Um.transmit sdu tx).0
      → Sends sdu l
  send-Sends sdu l tx rx ideal bound mode e f v s pos bytes short carries =
      let d : Delivers sdu tx rx = transmit-Delivers sdu tx rx v s pos bytes short in
      let arrive : All (Arrives radio l.ofdm l.ofdm) d.pdus =
        subst (λ (r : Outcome (List (List ℕ)) × UmEntity). AllArrive radio l.ofdm l.ofdm r.0) d.sent
          carries in
      let (q, delivered) =
        send_pdus-receive_all d.pdus (record l { tx_mac = in_um d.tx_after }) rx (sdu ∷ [])
          d.rx_after ideal f arrive d.received in
      record {
        after = record l { tx_mac = in_um d.tx_after; rx_mac = in_um d.rx_after; quality = q };
        tx_after = d.tx_after;
        rx_after = d.rx_after;
        returns = send_um l sdu tx d.tx_after d.pdus bound mode e d.sent ∙ delivered;
        tx_mac = refl;
        rx_mac = refl;
        in_step = d.in_step;
        still_bound = refl;
      }
