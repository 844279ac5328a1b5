-- ===== src/Mac/Segmenter/Split.antt =====
-- What the segments of an SDU are.
use spectracuda.Common.{
  ◌≢◌, lt→ltb, ℕ, zero, suc, ◌+◌, ◌-◌, ◌%◌, ◌≤◌, ◌<◌, ◌≡◌, ◌↔◌, ◌⊎◌, inl, inr, ◌∙◌, refl, sym, ap,
  List, [], ◌∷◌, ◌++◌, true, false, arith, Outcome, ok, raise, value_error, ltb, leb, length, take,
  drop, min, length-take, length-drop, drop_all, All, Bool-cases, ◌>>=◌, take-drop-append,
  append-nil,
}
use native.Mathlib.Decide.{dec_lt}
use spectracuda.Mac.Segmenter.{Piece, Segmenter, segmenter, piece_at, segment_loop, segment}

abbrev pub joined : List Piece → List ℕ
joined [] = []
joined (p ∷ pieces) = p.bits ++ joined pieces

-- Each segment's offset is the number of bits of the SDU before it.
abbrev pub Consecutive : ℕ → List Piece → Type 0
Consecutive offset [] = Unit
Consecutive offset (p ∷ pieces) = (p.so ≡ offset) × Consecutive (offset + length p.bits) pieces

-- The labels of the segments behind the first: MIDDLE but for the last, LAST.
abbrev pub EndsWell : List Piece → Type 0
EndsWell [] = ⊥
EndsWell (p ∷ []) = p.si ≡ 3
EndsWell (p ∷ q ∷ pieces) = (p.si ≡ 2) × EndsWell (q ∷ pieces)

-- The labels of all segments: FULL alone, or FIRST and then those of `EndsWell`.
abbrev pub Labelled : List Piece → Type 0
Labelled [] = ⊥
Labelled (p ∷ []) = p.si ≡ 0
Labelled (p ∷ q ∷ pieces) = (p.si ≡ 1) × EndsWell (q ∷ pieces)

-- A segment is of whole bytes, not empty, and fits the frame.
pub record FitsFrame (max_bits : ℕ) (p : Piece) : Type 0 where
  pub positive : 0 < length p.bits
  pub within : length p.bits ≤ max_bits
  pub whole_bytes : length p.bits % 8 ≡ 0

pub record IsSegmenter (s : Segmenter) : Type 0 where
  pub at_least : 8 ≤ s.max_segment_bits
  pub whole_bytes : s.max_segment_bits % 8 ≡ 0

segmenter-IsSegmenter : (n : ℕ) (s : Segmenter) → segmenter n ≡ ok s → IsSegmenter s
unfolding segmenter
segmenter-IsSegmenter n s h = ground arith

length-slice :
    (sdu : List ℕ) (o e : ℕ) → o ≤ e → e ≤ length sdu → length (take (e - o) (drop o sdu)) ≡ e - o
length-slice sdu o e h k = omega (arith, length-take (e - o) (drop o sdu), length-drop o sdu)

EndsWell-cons :
    (p : Piece) (pieces : List Piece) → p.si ≡ 2 → EndsWell pieces → EndsWell (p ∷ pieces)
EndsWell-cons p [] e h = absurd h
EndsWell-cons p (q ∷ pieces) e h = (e, h)

Labelled-cons :
    (p : Piece) (pieces : List Piece) → p.si ≡ 1 → EndsWell pieces → Labelled (p ∷ pieces)
Labelled-cons p [] e h = absurd h
Labelled-cons p (q ∷ pieces) e h = (e, h)

not_below : (a b : ℕ) → ¬ (a < b) → ltb a b ≡ false
not_below a b h = ground arith

-- The loop from an offset on, with the pieces that it appends.
record Rest (max_bits : ℕ) (sdu : List ℕ) (offset : ℕ) (r : Outcome (List Piece)) : Type 0 where
  pieces : List Piece
  returns : r ≡ ok pieces
  joins : joined pieces ≡ drop offset sdu
  consecutive : Consecutive offset pieces
  fit : All (FitsFrame max_bits) pieces
  ended : offset ≡ length sdu → pieces ≡ []
  inner : offset < length sdu → 0 < offset → EndsWell pieces
  first : max_bits < length sdu → offset ≡ 0 → Labelled pieces

module _ (m : ℕ) (sdu : List ℕ) (big : 8 ≤ m) (whole : m % 8 ≡ 0) (bytes : length sdu % 8 ≡ 0) where
  module _ (o : ℕ) (more : o < length sdu) (aligned : o % 8 ≡ 0) where
    e : ℕ
    e = min (o + m) (length sdu)

    end_bounds : (o < e) × (e ≤ length sdu) × (e ≤ o + m) × (e % 8 ≡ 0)
    unfolding e
    end_bounds = omega arith

    length-bits : length (piece_at sdu o e).bits ≡ e - o
    unfolding piece_at
    length-bits = length-slice sdu o e (omega (arith, end_bounds)) (omega (arith, end_bounds))

    piece-FitsFrame : FitsFrame m (piece_at sdu o e)
    piece-FitsFrame = record {
      positive = omega (arith, length-bits, end_bounds);
      within = omega (arith, length-bits, end_bounds);
      whole_bytes = omega (arith, length-bits, end_bounds);
    }

    label_inner : 0 < o → e < length sdu → (piece_at sdu o e).si ≡ 2
    unfolding piece_at
    label_inner h k = ground arith

    label_last : 0 < o → e ≡ length sdu → (piece_at sdu o e).si ≡ 3
    unfolding piece_at
    label_last h k = ground arith

    label_first : o ≡ 0 → (piece_at sdu o e).si ≡ 1
    unfolding piece_at
    label_first h = ground arith

    extend-inner :
        (pieces : List Piece)
        → (e ≡ length sdu → pieces ≡ [])
        → (e < length sdu → EndsWell pieces)
        → 0 < o
        → EndsWell (piece_at sdu o e ∷ pieces)
    extend-inner pieces ended inner h = elim (dec_lt e (length sdu)) [
      | yes k ↦ EndsWell-cons (piece_at sdu o e) pieces (label_inner h k) (inner k)
      | no k ↦
          (let last : e ≡ length sdu = omega (arith, end_bounds) in
            rw (ended last) (label_last h last))
    ]

    extend :
        (r : Outcome (List Piece))
        → Rest m sdu e r
        → Rest m sdu o (do pieces ← r; ok (piece_at sdu o e ∷ pieces))
    extend r rest = record {
      pieces = piece_at sdu o e ∷ rest.pieces;
      returns = rw rest.returns;
      joins = ap (λ (bits : List ℕ). (piece_at sdu o e).bits ++ bits) rest.joins ∙ rejoin;
      consecutive = (so_here, rw e_next rest.consecutive);
      fit = (piece-FitsFrame, rest.fit);
      ended = λ h. absurd (omega arith);
      inner = λ _ h.
          extend-inner rest.pieces rest.ended (λ k. rest.inner k (omega (arith, end_bounds))) h;
      first = λ k h.
          Labelled-cons (piece_at sdu o e) rest.pieces (label_first h)
            (rest.inner (omega (arith, end_bounds, mid k h)) (omega (arith, end_bounds)));
    }
      where
        so_here : (piece_at sdu o e).so ≡ o
        so_here = unfold piece_at in refl

        e_next : o + length (piece_at sdu o e).bits ≡ e
        e_next = omega (arith, length-bits, end_bounds)

        rejoin : (piece_at sdu o e).bits ++ drop e sdu ≡ drop o sdu
        rejoin =
            unfold piece_at in
            ap (λ (k : ℕ). take (e - o) (drop o sdu) ++ drop k sdu)
              (let same : e ≡ o + (e - o) = omega (arith, end_bounds) in same)
            ∙ take-drop-append o (e - o) sdu

        mid : m < length sdu → o ≡ 0 → e ≡ m
        mid k h = unfold e in omega arith

  loop-Rest :
      (fuel offset : ℕ)
      → length sdu < fuel + offset
      → offset ≤ length sdu
      → offset % 8 ≡ 0
      → Rest m sdu offset (segment_loop fuel m sdu offset)
  unfolding segment_loop e
  loop-Rest zero offset f h k = absurd (omega arith)
  loop-Rest (suc fuel) offset f h k = elim (dec_lt offset (length sdu)) [
    | yes more ↦ rw (lt→ltb offset (length sdu) more) (
        extend offset more k (segment_loop fuel m sdu (e offset more k)) (
          loop-Rest fuel (e offset more k) (omega (arith, end_bounds offset more k))
            (omega (arith, end_bounds offset more k)) (omega (arith, end_bounds offset more k))))
    | no over ↦ rw (not_below offset (length sdu) over) (record {
      pieces = [];
      returns = refl;
      joins = sym (drop_all offset sdu (omega arith));
      consecutive = tt;
      fit = tt;
      ended = λ _. refl;
      inner = λ more _. absurd (over more);
      first = λ k z. absurd (omega arith);
    })
  ]

module _ (s : Segmenter) (sdu : List ℕ) (pos : 0 < length sdu) (bytes : length sdu % 8 ≡ 0) where
  segment_whole :
      leb (length sdu) s.max_segment_bits ≡ true
      → segment s sdu ≡ ok (record { si = 0; so = 0; bits = sdu } ∷ [])
  unfolding segment
  segment_whole small = ground arith

  segment_many :
      leb (length sdu) s.max_segment_bits ≡ false
      → segment s sdu ≡ segment_loop (suc (length sdu)) s.max_segment_bits sdu 0
  unfolding segment
  segment_many large = ground arith

-- What `segment` returns for an SDU.
pub record IsSplit (max_bits : ℕ) (sdu : List ℕ) (r : Outcome (List Piece)) : Type 0 where
  pub pieces : List Piece
  pub returns : r ≡ ok pieces
  pub joins : joined pieces ≡ sdu
  pub consecutive : Consecutive 0 pieces
  pub fit : All (FitsFrame max_bits) pieces
  pub labels : Labelled pieces

-- An SDU of whole bytes, not empty, is split into segments of whole bytes, none empty and none
-- longer than `max_segment_bits`, whose bits joined in order are the SDU; each segment has its
-- offset in the SDU, and the labels are FULL alone, or FIRST, MIDDLE any number of times, LAST.
pub segment-IsSplit :
    (s : Segmenter) (sdu : List ℕ)
    → IsSegmenter s
    → 0 < length sdu
    → length sdu % 8 ≡ 0
    → IsSplit s.max_segment_bits sdu (segment s sdu)
segment-IsSplit s sdu v pos bytes = elim (Bool-cases (leb (length sdu) s.max_segment_bits)) [
  | inl small ↦ record {
    pieces = record { si = 0; so = 0; bits = sdu } ∷ [];
    returns = segment_whole s sdu pos bytes small;
    joins = append-nil sdu;
    consecutive = (refl, tt);
    fit = (record { positive = pos; within = ground arith; whole_bytes = bytes }, tt);
    labels = refl;
  }
  | inr large ↦
      (let rest =
          loop-Rest s.max_segment_bits sdu v.at_least v.whole_bytes bytes (suc (length sdu)) 0
            (omega arith) (omega arith) (omega arith) in
        record {
          pieces = rest.pieces;
          returns = segment_many s sdu pos bytes large ∙ rest.returns;
          joins = rest.joins;
          consecutive = rest.consecutive;
          fit = rest.fit;
          labels = rest.first (ground arith) refl;
        })
]

-- An SDU that is empty or not of whole bytes is refused with ValueError, and no other is.
segment_error :
    (s : Segmenter) (sdu : List ℕ)
    → IsSegmenter s
    → (segment s sdu ≡ raise value_error) ↔ ((length sdu ≡ 0) ⊎ (length sdu % 8 ≢ 0))
segment_error s sdu v = (refused, refuses)
  where
    refuses : (length sdu ≡ 0) ⊎ (length sdu % 8 ≢ 0) → segment s sdu ≡ raise value_error
    refuses h = unfold segment in ground arith

    refused : segment s sdu ≡ raise value_error → (length sdu ≡ 0) ⊎ (length sdu % 8 ≢ 0)
    refused h = elim (dec_lt 0 (length sdu)) [
      | no p ↦ inl (omega arith)
      | yes p ↦ inr (λ q. cc (sym h ∙ (segment-IsSplit s sdu v p q).returns))
    ]
