-- ===== src/Mac/Segmenter.antt =====
-- mac/reassembly.py, class Segmenter: an SDU is split into segments that fit one PHY frame.
pub mod Split
use spectracuda.Common.{
  ℕ, zero, suc, ◌+◌, ◌-◌, ◌%◌, ◌≤◌, List, [], ◌∷◌, ◌&&◌, Outcome, ok, raise, loops, ◌>>=◌, ◌>>◌,
  require, ltb, leb, ◌==◌, not, if◌then◌else◌, length, take, drop, min,
}
use spectracuda.Mac.Pdu.{si_full, si_first, si_middle, si_last}

-- A segment's label, its offset in the SDU in bits, and its bits.
pub record Piece : Type 0 where
  pub si : ℕ
  pub so : ℕ
  pub bits : List ℕ

pub record Segmenter : Type 0 where
  pub max_segment_bits : ℕ

-- `Segmenter(max_segment_bits)`
unfoldable pub segmenter : ℕ → Outcome Segmenter
segmenter max_segment_bits = do
  require (leb 8 max_segment_bits && max_segment_bits % 8 == 0)
  ok (record { max_segment_bits = max_segment_bits })

-- `a[start:end]`
abbrev pub slice : List ℕ → ℕ → ℕ → List ℕ
slice xs start end = take (end - start) (drop start xs)

unfoldable pub piece_at : List ℕ → ℕ → ℕ → Piece
piece_at sdu_bits offset end = record {
  si = if offset == 0 then si_first else if end == length sdu_bits then si_last else si_middle;
  so = offset;
  bits = slice sdu_bits offset end;
}

-- The loop from `offset` on; a round moves on by at least one bit.
unfoldable pub segment_loop : ℕ → ℕ → List ℕ → ℕ → Outcome (List Piece)
segment_loop zero max_bits sdu_bits offset = loops
segment_loop (suc fuel) max_bits sdu_bits offset =
    let end = min (offset + max_bits) (length sdu_bits) in
    let rest = segment_loop fuel max_bits sdu_bits end in
    if ltb offset (length sdu_bits)
    then (do pieces ← rest; ok (piece_at sdu_bits offset end ∷ pieces))
    else ok []

unfoldable pub segment : Segmenter → List ℕ → Outcome (List Piece)
segment s sdu_bits = do
  require (not (length sdu_bits == 0))
  require (length sdu_bits % 8 == 0)
  (if leb (length sdu_bits) s.max_segment_bits
      then ok (record { si = si_full; so = 0; bits = sdu_bits } ∷ [])
      else segment_loop (suc (length sdu_bits)) s.max_segment_bits sdu_bits 0)
