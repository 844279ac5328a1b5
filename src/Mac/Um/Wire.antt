-- ===== src/Mac/Um/Wire.antt =====
-- The PDUs that `transmit` makes of segments, and what the peer reads of them.
use spectracuda.Common.{
  ℕ, suc, ◌<◌, ◌≡◌, ◌∙◌, sym, ap, List, [], ◌∷◌, ◌++◌, arith, ok, ◌>>=◌, length, All,
}
use spectracuda.Mac.Pdu.{Header, sn_add}
use spectracuda.Mac.Pdu.Sequence.{sn_add-lt, sn_add_assoc, sn_add_zero}
use spectracuda.Mac.Pdu.RoundTrip.{IsHeader, header_bits, encode_header-eq_ok, decode_header-eq_ok}
use spectracuda.Mac.Segmenter.{Piece}
use spectracuda.Mac.Reassembly.{ingest}
use spectracuda.Mac.Um.{UmEntity, number_pieces, receive}
use spectracuda.Mac.Pdu.RoundTrip.{take-header_bits, drop-header_bits}

-- The fields of the segment's header fit.
abbrev pub Encodes : Piece → Type 0
Encodes p = (p.si < 4) × (p.so < 65536)

abbrev pub header_of : Piece → ℕ → Header
header_of p sn = record { pdu_type = 0; si = p.si; sn = sn; so = p.so }

abbrev pub pdu_of : Piece → ℕ → List ℕ
pdu_of p sn = header_bits (header_of p sn) ++ p.bits

abbrev pub pdus_of : List Piece → ℕ → List (List ℕ)
pdus_of [] sn = []
pdus_of (p ∷ pieces) sn = pdu_of p sn ∷ pdus_of pieces (sn_add sn 1)

header_of-IsHeader : (p : Piece) (sn : ℕ) → Encodes p → sn < 1024 → IsHeader (header_of p sn)
header_of-IsHeader p sn h k = omega arith

pub next_sn : (sn n : ℕ) → sn_add (sn_add sn 1) n ≡ sn_add sn (suc n)
next_sn sn n = sn_add_assoc sn 1 n ∙ ap (sn_add sn) (omega arith)

-- The segments are numbered in order, and the number goes on past the last.
pub number_pieces-eq_pdus :
    (pieces : List Piece) (sn : ℕ)
    → All Encodes pieces
    → sn < 1024
    → number_pieces pieces sn ≡ (ok (pdus_of pieces sn), sn_add sn (length pieces))
unfolding number_pieces
number_pieces-eq_pdus [] sn h k = ap (λ (n : ℕ). (ok [], n)) (sym (sn_add_zero sn k))
number_pieces-eq_pdus (p ∷ pieces) sn h k =
    rw (encode_header-eq_ok (header_of p sn) (header_of-IsHeader p sn h.0 k), number_pieces)
      (rw (number_pieces-eq_pdus pieces (sn_add sn 1) h.1 (sn_add-lt sn 1))
        (ap (λ (n : ℕ). (ok (pdus_of (p ∷ pieces) sn), n)) (next_sn sn (length pieces))))

-- A PDU's header is read back, and what stands behind it is the segment.
pub receive-pdu_of :
    (p : Piece) (sn : ℕ) (u : UmEntity)
    → Encodes p
    → sn < 1024
    → receive (pdu_of p sn) u
      ≡ (do (done, b) ← ingest sn p u.reassembly; ok (done, record u { reassembly = b }))
unfolding receive
receive-pdu_of p sn u h k = rw (
  take-header_bits (header_of p sn) p.bits,
  decode_header-eq_ok (header_of p sn) (header_of-IsHeader p sn h k),
  drop-header_bits (header_of p sn) p.bits,
)
