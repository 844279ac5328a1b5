-- ===== src/Fec/Convolutional/Viterbi/Nearest.antt =====
-- What `decode` finds for a received row.
use spectracuda.Common.{
  ℕ, zero, suc, ◌+◌, ◌-◌, ◌*◌, ◌≤◌, ◌<◌, ◌≡◌, ◌⊎◌, inl, inr, refl, sym, ap, ◌∙◌, List, [], ◌∷◌,
  ◌++◌, false, ltb, arith, length, length-take, length-drop, length-append, get_or, take, drop,
  replicate, take-append-drop, All, All-take, All-drop, All-append, IsBit,
}
use native.Mathlib.Decide.{dec_le}
use spectracuda.Fec.Codes.{IsBlock}
use spectracuda.Fec.Convolutional.{next_state, encode_from, encode_row}
use spectracuda.Fec.Convolutional.Viterbi.{
  finite, infinity, FloatSum, survivors, traceback, branch_metric, pairs, start_metric, decode_row,
}
use spectracuda.Fec.Convolutional.Hamming.{distance}
use spectracuda.Fec.Convolutional.Trellis.{end_of, end_of-append, end_of-tail, tail-zeros}
use spectracuda.Fec.Convolutional.Viterbi.Optimal.{
  AtMost, path_metric, IsTraced, traceback-IsTraced,
}

length-pairs : (n : ℕ) (row : List ℕ) → length row ≡ 2 * n → length (pairs row) ≡ n
length-pairs zero [] h = refl
length-pairs (suc n) [] h = absurd (omega arith)
length-pairs n (a ∷ []) h = absurd (omega arith)
length-pairs zero (a ∷ b ∷ row) h = absurd (omega arith)
length-pairs (suc n) (a ∷ b ∷ row) h = ap suc (length-pairs n row (omega arith))

module _ (fl : FloatSum) where
  path_infinity :
      (s : ℕ) (bits : List ℕ) (rs : List (ℕ × ℕ)) → path_metric fl infinity s bits rs ≡ infinity
  unfolding path_metric
  path_infinity s [] rs = refl
  path_infinity s (b ∷ bits) [] = refl
  path_infinity s (b ∷ bits) (r ∷ rs) = path_infinity (next_state s b) bits rs

  -- While the sum stays within what float32 counts exactly, the metric is the distance.
  path_metric-exact :
      (m s : ℕ) (bits row : List ℕ)
      → length row ≡ 2 * length bits
      → m + distance (encode_from s bits) row ≤ 16777216
      → path_metric fl (finite m) s bits (pairs row)
        ≡ finite (m + distance (encode_from s bits) row)
  unfolding path_metric encode_from branch_metric
  path_metric-exact m s [] row len h = ap finite (omega arith)
  path_metric-exact m s (b ∷ bits) [] len h = absurd (omega arith)
  path_metric-exact m s (b ∷ bits) (r ∷ []) len h = absurd (omega arith)
  path_metric-exact m s (b ∷ bits) (r1 ∷ r2 ∷ row) len h =
      let c = branch_metric s b (r1, r2) in
      rw (fl.exact m c (omega arith)) (
        path_metric-exact (m + c) (next_state s b) bits row (omega arith) (omega arith)
        ∙ ap finite (omega arith))

  branch_metric-le : (s b r1 r2 : ℕ) → branch_metric s b (r1, r2) ≤ 2
  unfolding branch_metric
  branch_metric-le s b r1 r2 = ground arith

  step-exact : (m c v : ℕ) → c ≤ 2 → fl.add m c ≤ v → v < 16777214 → fl.add m c ≡ m + c
  step-exact m c v small h k = elim (dec_le m 16777214) [
    | yes low ↦ fl.exact m c (omega arith)
    | no high ↦
        absurd
          (omega (arith, fl.exact 16777214 c (omega arith), fl.monotone 16777214 m c (omega arith)))
  ]

  distance-le :
      (m s v : ℕ) (bits row : List ℕ)
      → length row ≡ 2 * length bits
      → v < 16777214
      → AtMost (path_metric fl (finite m) s bits (pairs row)) (finite v)
      → m + distance (encode_from s bits) row ≤ v
  unfolding path_metric encode_from branch_metric
  distance-le m s v [] row len k h = omega arith
  distance-le m s v (b ∷ bits) [] len k h = absurd (omega arith)
  distance-le m s v (b ∷ bits) (r ∷ []) len k h = absurd (omega arith)
  distance-le m s v (b ∷ bits) (r1 ∷ r2 ∷ row) len k h =
      let c = branch_metric s b (r1, r2) in
      let rest = distance-le (fl.add m c) (next_state s b) v bits row (omega arith) k h in
      omega (arith, rest, step-exact m c v (branch_metric-le s b r1 r2) (omega (arith, rest)) k)

get_or-infinity : (n s : ℕ) → get_or (replicate n infinity) s infinity ≡ infinity
get_or-infinity zero s = refl
get_or-infinity (suc n) zero = refl
get_or-infinity (suc n) (suc s) = get_or-infinity n s

get_or-start : (s : ℕ) → (s ≡ 0) ⊎ (get_or start_metric s infinity ≡ infinity)
unfolding start_metric
get_or-start zero = inl refl
get_or-start (suc s) = inr (get_or-infinity 63 s)

-- A received row of 2 * (k + 6) bits.
module _ (fl : FloatSum) (k : ℕ) (row : List ℕ) (len : length row ≡ 2 * (k + 6)) where
  found : ℕ × List ℕ
  found = traceback (survivors fl start_metric (pairs row)) 0

  steps : length (pairs row) ≡ k + 6
  steps = length-pairs (k + 6) row len

  traced : IsTraced fl start_metric (pairs row) 0 found
  unfolding found
  traced = traceback-IsTraced fl (pairs row) start_metric 0 (omega arith)

  decode_row-take : decode_row fl row ≡ take k found.1
  unfolding decode_row found
  decode_row-take =
      let enough : ltb (k + 6) 6 ≡ false = ground arith in
      let whole : k + 6 - 6 ≡ k = omega arith in rw (steps, enough, whole) refl

  pub decode_row-IsBlock : IsBlock IsBit k (decode_row fl row)
  decode_row-IsBlock = rw decode_row-take (
    omega (arith, length-take k found.1, traced.size, steps),
    All-take IsBit k found.1 traced.all_bits,
  )

  -- The last bits on the path are the zero tail.
  found-tail : found.1 ≡ take k found.1 ++ replicate 6 0
  found-tail =
      sym (take-append-drop k found.1)
      ∙ ap (λ (t : List ℕ). take k found.1 ++ t)
          (tail-zeros (end_of found.0 (take k found.1)) (drop k found.1)
            (omega (arith, length-drop k found.1, traced.size, steps))
            (All-drop IsBit k found.1 traced.all_bits)
            (sym (end_of-append found.0 (take k found.1) (drop k found.1))
              ∙ (ap (end_of found.0) (take-append-drop k found.1) ∙ traced.ends)))

  module _ (x : List ℕ) (h : IsBlock IsBit k x)
      (near : distance (encode_row x) row < 16777214) where
    abbrev padded : List ℕ
    padded = x ++ replicate 6 0

    length-padded : length padded ≡ k + 6
    length-padded = omega (arith, length-append x (replicate 6 0), h.0)

    padded-bits : All IsBit padded
    padded-bits = All-append IsBit x (replicate 6 0) h.1 (omega arith)

    least :
        AtMost
          (path_metric fl (get_or start_metric found.0 infinity) found.0 found.1 (pairs row))
          (finite (distance (encode_row x) row))
    unfolding start_metric
    least =
        let ends : end_of 0 padded ≡ 0 =
          end_of-append 0 x (replicate 6 0) ∙ end_of-tail (end_of 0 x) in
        let same : path_metric fl (finite 0) 0 padded (pairs row)
            ≡ finite (distance (encode_row x) row) =
          path_metric-exact fl 0 0 padded row (omega (arith, len, length-padded))
            (omega (arith, near))
          ∙ ap finite (omega arith) in
        rw same at
          (traced.least 0 padded (omega arith) (length-padded ∙ sym steps) padded-bits ends)

    starts : found.0 ≡ 0
    starts = elim (get_or-start found.0) [
      | inl e ↦ e
      | inr e ↦ absurd (rw (e, path_infinity fl found.0 found.1 (pairs row)) at least)
    ]

    zero_path :
        AtMost
          (path_metric fl (finite 0) 0 found.1 (pairs row))
          (finite (distance (encode_row x) row))
    unfolding start_metric
    zero_path = rw starts at least

    decode_row-nearest : distance (encode_row (decode_row fl row)) row ≤ distance (encode_row x) row
    decode_row-nearest =
        rw (decode_row-take, ← found-tail)
          (omega (
            arith,
            distance-le fl 0 0 (distance (encode_row x) row) found.1 row
                (omega (arith, len, traced.size, steps)) near zero_path,
          ))

-- `decode_row` of a row of 2 * (k + 6) received bits makes k bits, and their code is one of the
-- nearest to the row: of any k bits whose code is within what float32 counts exactly, the code
-- differs from the row in as many places at least.
pub decode_row-IsNearest :
    (fl : FloatSum) (k : ℕ) (row x : List ℕ)
    → length row ≡ 2 * (k + 6)
    → IsBlock IsBit k x
    → distance (encode_row x) row < 16777214
    → IsBlock IsBit k (decode_row fl row)
      × (distance (encode_row (decode_row fl row)) row ≤ distance (encode_row x) row)
decode_row-IsNearest fl k row x len h near =
    (decode_row-IsBlock fl k row len, decode_row-nearest fl k row len x h near)
