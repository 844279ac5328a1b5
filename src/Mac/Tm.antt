-- ===== src/Mac/Tm.antt =====
-- mac/tm.py: transparent mode, a PDU is an SDU.
use native.Mathlib.Decide.{dec_lt}
use spectracuda.Common.{
  ℕ, ◌%◌, ◌<◌, ◌≡◌, ◌≢◌, ◌⊎◌, List, [], ◌∷◌, arith, Outcome, ok, raise, value_error, inl, inr, refl,
  ◌>>◌, require, leb, ◌==◌, length,
}

pub record TmEntity : Type 0 where
  pub max_segment_bits : ℕ

-- `TmEntity(max_segment_bits)`
unfoldable pub tm_entity : ℕ → Outcome TmEntity
tm_entity max_segment_bits = do
  require (leb 1 max_segment_bits)
  ok (record { max_segment_bits = max_segment_bits })

unfoldable pub transmit : List ℕ → TmEntity → Outcome (List (List ℕ))
transmit sdu_bits t = do
  require (length sdu_bits % 8 == 0)
  require (leb (length sdu_bits) t.max_segment_bits)
  ok (sdu_bits ∷ [])

unfoldable pub receive : List ℕ → List ℕ
receive pdu_bits = pdu_bits

-- An SDU is refused exactly when it is not of whole bytes or does not fit the frame; any other is
-- sent as one PDU, which the peer receives as that SDU.
pub transmit-receive :
    (sdu : List ℕ) (t : TmEntity)
    → ((transmit sdu t ≡ raise value_error)
        × ((length sdu % 8 ≢ 0) ⊎ (t.max_segment_bits < length sdu)))
      ⊎ ((pdu : List ℕ) × (transmit sdu t ≡ ok (pdu ∷ [])) × (receive pdu ≡ sdu))
unfolding transmit receive
transmit-receive sdu t = elim (dec_lt 0 (length sdu % 8)) [
  | yes p ↦ inl (ground arith, inl (λ e. omega arith))
  | no p ↦ elim (dec_lt t.max_segment_bits (length sdu)) [
    | yes q ↦ inl (ground arith, inr q)
    | no q ↦ inr (sdu, ground arith, refl)
  ]
]
