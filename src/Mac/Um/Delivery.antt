-- ===== src/Mac/Um/Delivery.antt =====
-- What `transmit` sends, and what the peer delivers when the PDUs arrive in order.
use spectracuda.Common.{
  ℕ, suc, ◌+◌, ◌%◌, ◌≤◌, ◌<◌, ◌≡◌, ◌∙◌, ◌⊎◌, inl, inr, refl, sym, ap, List, [], ◌∷◌, ◌++◌, arith,
  ok, length, All, append_assoc, length-append, append-nil,
}
use spectracuda.Mac.Pdu.{sn_add}
use spectracuda.Mac.Pdu.Sequence.{sn_add-lt}
use spectracuda.Mac.Pdu.RoundTrip.{header_bits, length-header_bits}
use spectracuda.Mac.Segmenter.{Piece, segment}
use spectracuda.Mac.Segmenter.Split.{
  joined, Consecutive, EndsWell, Labelled, FitsFrame, IsSegmenter, IsSplit, segment-IsSplit,
}
use spectracuda.Mac.Reassembly.{Buffer, concatenate}
use spectracuda.Mac.Reassembly.InOrder.{quiet, ingest_completes, ingest_collects}
use spectracuda.Mac.Um.{UmEntity, transmit, receive, receive_all}
use spectracuda.Mac.Um.Wire.{
  Encodes, header_of, pdu_of, pdus_of, next_sn, number_pieces-eq_pdus, receive-pdu_of,
}

abbrev pub with_buffer : UmEntity → Buffer → UmEntity
with_buffer u b = record u { reassembly = b }

concatenate-append :
    (arrays : List (List ℕ)) (xs : List ℕ)
    → concatenate (arrays ++ xs ∷ []) ≡ concatenate arrays ++ xs
concatenate-append [] xs = append-nil xs
concatenate-append (a ∷ arrays) xs =
    ap (λ (t : List ℕ). a ++ t) (concatenate-append arrays xs)
    ∙ sym (append_assoc a (concatenate arrays) xs)

module _ (w : ℕ) (u : UmEntity) (pos : 0 < w) where
  abbrev at : ℕ → List (List ℕ) → UmEntity
  at sn arrived = with_buffer u (quiet w sn arrived)

  receive_completes :
      (p : Piece) (arrived : List (List ℕ)) (sn : ℕ)
      → sn < 1024
      → Encodes p
      → (p.si ≡ 0) ⊎ (p.si ≡ 3)
      → receive (pdu_of p sn) (at sn arrived)
        ≡ ok ((concatenate arrived ++ p.bits) ∷ [], at (sn_add sn 1) [])
  receive_completes p arrived sn h e l = rw (receive-pdu_of p sn (at sn arrived) e h) (
      rw (ingest_completes w sn arrived p pos l)
        (ap (λ (t : List ℕ). ok (t ∷ [], at (sn_add sn 1) [])) (concatenate-append arrived p.bits)))

  receive_collects :
      (p : Piece) (arrived : List (List ℕ)) (sn : ℕ)
      → sn < 1024
      → Encodes p
      → (p.si ≡ 1) ⊎ (p.si ≡ 2)
      → receive (pdu_of p sn) (at sn arrived) ≡ ok ([], at (sn_add sn 1) (arrived ++ p.bits ∷ []))
  receive_collects p arrived sn h e l =
      rw (receive-pdu_of p sn (at sn arrived) e h) (rw (ingest_collects w sn arrived p pos l))

  -- The segments of an SDU behind the first.
  receive_tail :
      (pieces : List Piece) (arrived : List (List ℕ)) (sn : ℕ)
      → sn < 1024
      → All Encodes pieces
      → EndsWell pieces
      → receive_all (pdus_of pieces sn) (at sn arrived)
        ≡ ok ((concatenate arrived ++ joined pieces) ∷ [], at (sn_add sn (length pieces)) [])
  unfolding receive_all
  receive_tail [] arrived sn h e l = absurd l
  receive_tail (p ∷ []) arrived sn h e l =
      rw (receive_completes p arrived sn h e.0 (inr l), append-nil p.bits)
  receive_tail (p ∷ q ∷ pieces) arrived sn h e l =
      rw (receive_collects p arrived sn h e.0 (inr l.0)) (
        rw
          (receive_tail (q ∷ pieces) (arrived ++ p.bits ∷ []) (sn_add sn 1) (sn_add-lt sn 1) e.1
            l.1)
          (rw (concatenate-append arrived p.bits, next_sn sn (suc (length pieces)))
            (ap (λ (t : List ℕ). ok (t ∷ [], at (sn_add sn (suc (suc (length pieces)))) []))
              (append_assoc (concatenate arrived) p.bits (q.bits ++ joined pieces)))))

  receive_labelled :
      (pieces : List Piece) (sn : ℕ)
      → sn < 1024
      → All Encodes pieces
      → Labelled pieces
      → receive_all (pdus_of pieces sn) (at sn [])
        ≡ ok (joined pieces ∷ [], at (sn_add sn (length pieces)) [])
  unfolding receive_all
  receive_labelled [] sn h e l = absurd l
  receive_labelled (p ∷ []) sn h e l =
      rw (receive_completes p [] sn h e.0 (inl l), append-nil p.bits)
  receive_labelled (p ∷ q ∷ pieces) sn h e l = rw (receive_collects p [] sn h e.0 (inl l.0)) (
      rw (receive_tail (q ∷ pieces) (p.bits ∷ []) (sn_add sn 1) (sn_add-lt sn 1) e.1 l.1)
        (rw (next_sn sn (suc (length pieces)), append-nil p.bits)))

EndsWell-fit : (pieces : List Piece) → EndsWell pieces → All (λ (p : Piece). p.si < 4) pieces
EndsWell-fit [] l = tt
EndsWell-fit (p ∷ []) l = (omega arith, tt)
EndsWell-fit (p ∷ q ∷ pieces) l = (omega arith, EndsWell-fit (q ∷ pieces) l.1)

Labelled-fit : (pieces : List Piece) → Labelled pieces → All (λ (p : Piece). p.si < 4) pieces
Labelled-fit [] l = tt
Labelled-fit (p ∷ []) l = (omega arith, tt)
Labelled-fit (p ∷ q ∷ pieces) l = (omega arith, EndsWell-fit (q ∷ pieces) l.1)

-- Offsets stay below the length of the SDU.
pieces-Encodes :
    (m o : ℕ) (pieces : List Piece)
    → Consecutive o pieces
    → All (FitsFrame m) pieces
    → All (λ (p : Piece). p.si < 4) pieces
    → o + length (joined pieces) ≤ 65536
    → All Encodes pieces
pieces-Encodes m o [] c f l b = tt
pieces-Encodes m o (p ∷ pieces) c f l b = (
  (l.0, omega (arith, c.0, f.0.positive, length-append p.bits (joined pieces))),
  pieces-Encodes m (o + length p.bits) pieces c.1 f.1 l.1
      (omega (arith, length-append p.bits (joined pieces))),
)

-- The sender is at the number that the receiver expects, and the receiver holds back nothing.
pub record InStep (tx rx : UmEntity) : Type 0 where
  pub same_sn : rx.reassembly.expected_sn ≡ tx.next_tx_sn
  pub in_space : tx.next_tx_sn < 1024
  pub window_pos : 0 < rx.reassembly.window_size
  pub nothing_pending : rx.reassembly.pending ≡ []
  pub nothing_in_progress : rx.reassembly.in_progress ≡ []

InStep-quiet :
    (tx rx : UmEntity)
    → InStep tx rx
    → rx ≡ with_buffer rx (quiet rx.reassembly.window_size tx.next_tx_sn [])
InStep-quiet tx rx s i = record rx {
  reassembly = record {
    window_size = rx.reassembly.window_size;
    expected_sn = s.same_sn i;
    pending = s.nothing_pending i;
    in_progress = s.nothing_in_progress i;
  };
}

transmit-eq_pdus :
    (sdu : List ℕ) (u : UmEntity) (pieces : List Piece)
    → segment u.segmenter sdu ≡ ok pieces
    → All Encodes pieces
    → u.next_tx_sn < 1024
    → transmit sdu u ≡ (
      ok (pdus_of pieces u.next_tx_sn),
      record u { next_tx_sn = sn_add u.next_tx_sn (length pieces) },
    )
unfolding transmit
transmit-eq_pdus sdu u pieces e h k = rw e (rw (number_pieces-eq_pdus pieces u.next_tx_sn h k))

pdus_of-short :
    (m : ℕ) (pieces : List Piece) (sn : ℕ)
    → All (FitsFrame m) pieces
    → All (λ pdu. length pdu ≤ m + 32) (pdus_of pieces sn)
pdus_of-short m [] sn h = tt
pdus_of-short m (p ∷ pieces) sn h = (
  omega (
    arith,
    length-append (header_bits (header_of p sn)) p.bits,
    length-header_bits (header_of p sn),
    h.0.within,
  ),
  pdus_of-short m pieces (sn_add sn 1) h.1,
)

-- What becomes of an SDU that is sent and whose PDUs arrive in order.
pub record Delivers (sdu : List ℕ) (tx rx : UmEntity) : Type 0 where
  pub pdus : List (List ℕ)
  pub tx_after : UmEntity
  pub rx_after : UmEntity
  pub sent : transmit sdu tx ≡ (ok pdus, tx_after)
  pub short : All (λ pdu. length pdu ≤ tx.segmenter.max_segment_bits + 32) pdus
  pub received : receive_all pdus rx ≡ ok (sdu ∷ [], rx_after)
  pub in_step : InStep tx_after rx_after

-- An SDU of whole bytes, not empty and of at most 65536 bits, is sent as PDUs of a segment and a
-- header each at most, and is delivered once and unchanged by
-- a peer that is in step and gets the PDUs in order, whatever the sequence number at the start;
-- afterwards sender and receiver are in step again.
pub transmit-Delivers :
    (sdu : List ℕ) (tx rx : UmEntity)
    → IsSegmenter tx.segmenter
    → InStep tx rx
    → 0 < length sdu
    → length sdu % 8 ≡ 0
    → length sdu ≤ 65536
    → Delivers sdu tx rx
transmit-Delivers sdu tx rx v s pos bytes short =
    let cut : IsSplit tx.segmenter.max_segment_bits sdu (segment tx.segmenter sdu) =
      segment-IsSplit tx.segmenter sdu v pos bytes in
    let small : length (joined cut.pieces) ≤ 65536 = rw cut.joins short in
    let fit : All Encodes cut.pieces =
      pieces-Encodes tx.segmenter.max_segment_bits 0 cut.pieces cut.consecutive cut.fit
        (Labelled-fit cut.pieces cut.labels) (omega arith) in
    let sn : ℕ = tx.next_tx_sn in
    let w : ℕ = rx.reassembly.window_size in
    record {
      pdus = pdus_of cut.pieces sn;
      tx_after = record tx { next_tx_sn = sn_add sn (length cut.pieces) };
      rx_after = with_buffer rx (quiet w (sn_add sn (length cut.pieces)) []);
      sent = transmit-eq_pdus sdu tx cut.pieces cut.returns fit s.in_space;
      short = pdus_of-short tx.segmenter.max_segment_bits cut.pieces sn cut.fit;
      received =
          ap (receive_all (pdus_of cut.pieces sn)) (InStep-quiet tx rx s)
          ∙ (receive_labelled w rx s.window_pos cut.pieces sn s.in_space fit cut.labels
              ∙ ap
                  (λ (t : List ℕ).
                    ok (t ∷ [], with_buffer rx (quiet w (sn_add sn (length cut.pieces)) [])))
                  cut.joins);
      in_step = record {
        same_sn = refl;
        in_space = sn_add-lt sn (length cut.pieces);
        window_pos = s.window_pos;
        nothing_pending = refl;
        nothing_in_progress = refl;
      };
    }
