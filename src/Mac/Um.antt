-- ===== src/Mac/Um.antt =====
-- mac/um.py: numbered segments, reassembled on a best effort.
pub mod Wire
pub mod Delivery
use spectracuda.Common.{ℕ, List, [], ◌∷◌, ◌++◌, Outcome, ok, raise, loops, ◌>>=◌, take, drop}
use spectracuda.Mac.Pdu.{
  Header, header_len_bits, type_data, encode_header, decode_header, sn_add, sn_modulus,
}
use spectracuda.Mac.Segmenter.{Piece, Segmenter, segmenter, segment}
use spectracuda.Mac.Reassembly.{Buffer, buffer, ingest}

pub record UmEntity : Type 0 where
  pub segmenter : Segmenter
  pub reassembly : Buffer
  pub next_tx_sn : ℕ

-- `UmEntity(max_segment_bits, window_size)`
unfoldable pub um_entity : ℕ → ℕ → Outcome UmEntity
um_entity max_segment_bits window_size = do
  s ← segmenter max_segment_bits
  b ← buffer window_size 0
  ok (record { segmenter = s; reassembly = b; next_tx_sn = 0 })

-- The loop of `transmit`: the PDUs so far are lost when a header cannot be encoded, and the
-- numbers that they took stay taken.
unfoldable pub number_pieces : List Piece → ℕ → Outcome (List (List ℕ)) × ℕ
number_pieces [] sn = (ok [], sn)
number_pieces (p ∷ pieces) sn =
    let (rest, last) = number_pieces pieces (sn_add sn 1) in
    elim (encode_header (record { pdu_type = type_data; si = p.si; sn = sn; so = p.so })) [
      | ok header ↦ ((do pdus ← rest; ok ((header ++ p.bits) ∷ pdus)), last)
      | raise e ↦ (raise e, sn)
      | loops ↦ (loops, sn)
    ]

transmit_pieces : Outcome (List Piece) → UmEntity → Outcome (List (List ℕ)) × UmEntity
transmit_pieces (ok pieces) u =
    let (pdus, last) = number_pieces pieces u.next_tx_sn in (pdus, record u { next_tx_sn = last })
transmit_pieces (raise e) u = (raise e, u)
transmit_pieces loops u = (loops, u)

unfoldable pub transmit : List ℕ → UmEntity → Outcome (List (List ℕ)) × UmEntity
unfolding transmit_pieces
transmit sdu_bits u = transmit_pieces (segment u.segmenter sdu_bits) u

unfoldable pub receive : List ℕ → UmEntity → Outcome (List (List ℕ) × UmEntity)
receive pdu_bits u = do
  header ← decode_header (take header_len_bits pdu_bits)
  (done, b) ←
      ingest header.sn
        (record { si = header.si; so = header.so; bits = drop header_len_bits pdu_bits })
        u.reassembly
  ok (done, record u { reassembly = b })

-- Receiving PDUs one after the other.
unfoldable pub receive_all : List (List ℕ) → UmEntity → Outcome (List (List ℕ) × UmEntity)
receive_all [] u = ok ([], u)
receive_all (pdu ∷ pdus) u = do
  (done, u') ← receive pdu u
  (more, u'') ← receive_all pdus u'
  ok (done ++ more, u'')

unfoldable pub expected_sn : UmEntity → ℕ
expected_sn u = u.reassembly.expected_sn

abbrev pub sn_space : ℕ
sn_space = sn_modulus
