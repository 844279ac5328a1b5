-- ===== src/Fec/Convolutional/Viterbi/Corrects.antt =====
-- `encode` and `decode` against each other, over a channel with few errors.
use spectracuda.Common.{
  ℕ, ◌+◌, ◌-◌, ◌*◌, ◌/◌, ◌≤◌, ◌<◌, ◌≡◌, inl, inr, refl, sym, ap, ap₂, ◌∙◌, List, [], ◌∷◌, ◌++◌, map,
  Bool, true, false, none, ok, ltb, arith, length, length-append, take, take_append, replicate, All,
  All-append, IsBit,
}
use spectracuda.Numpy.{Batch}
use spectracuda.Fec.Codes.{batch, IsBlock}
use spectracuda.Fec.Wrapper.{StreamCode, stream_level}
use spectracuda.Fec.Wrapper.Every.{IsLawful}
use spectracuda.Fec.Convolutional.{tail_bits, encode_row, array_encode, encode}
use spectracuda.Fec.Convolutional.Kernel.{encode_kernel, encode_row-IsBlock}
use spectracuda.Fec.Convolutional.Viterbi.{FloatSum, decode_row, array_decode, decode}
use spectracuda.Fec.Convolutional.Hamming.{distance, distance_self, distance-triangle}
use spectracuda.Fec.Convolutional.Trellis.{end_of, end_of-append, end_of-tail}
use spectracuda.Fec.Convolutional.FreeDistance.{codes-apart}
use spectracuda.Fec.Convolutional.Viterbi.Nearest.{decode_row-IsNearest}

-- Messages whose codes differ in fewer than 10 places are the same message.
same_message :
    (k : ℕ) (x y : List ℕ)
    → IsBlock IsBit k x
    → IsBlock IsBit k y
    → distance (encode_row x) (encode_row y) < 10
    → x ≡ y
same_message k x y hx hy h =
    elim (codes-apart (x ++ zeros) (y ++ zeros) 0
      (length-append x zeros
        ∙ (ap (λ (n : ℕ). n + 6) (hx.0 ∙ sym hy.0) ∙ sym (length-append y zeros)))
      (All-append IsBit x zeros hx.1 (omega arith)) (All-append IsBit y zeros hy.1 (omega arith))
      (omega arith) (back x ∙ sym (back y))) [
        | inl e ↦ sym (front x hx.0) ∙ (ap (take k) e ∙ front y hy.0)
        | inr far ↦ absurd (omega (arith, far))
      ]
  where
    zeros : List ℕ
    zeros = replicate 6 0

    back : (z : List ℕ) → end_of 0 (z ++ replicate 6 0) ≡ 0
    back z = end_of-append 0 z (replicate 6 0) ∙ end_of-tail (end_of 0 z)

    front : (z : List ℕ) → length z ≡ k → take k (z ++ replicate 6 0) ≡ z
    front z e = rw (← e) (take_append z (replicate 6 0))

-- Of a row with at most four errors `decode_row` makes the message that was sent.
pub decode_row-corrects :
    (fl : FloatSum) (k : ℕ) (x row : List ℕ)
    → IsBlock IsBit k x
    → length row ≡ 2 * (k + 6)
    → distance (encode_row x) row ≤ 4
    → decode_row fl row ≡ x
decode_row-corrects fl k x row h len few =
    let y = decode_row fl row in
    let (hy, near) = decode_row-IsNearest fl k row x len h (omega (arith, few)) in
    let through =
      distance-triangle (encode_row y) row (encode_row x)
        ((encode_row-IsBlock k y hy.0).0 ∙ sym len) ((encode_row-IsBlock k x h.0).0 ∙ sym len) in
    same_message k y x hy h (omega (arith, through, near, few))

-- Rows as they were sent, but for at most `n` bits of each.
abbrev pub Received : ℕ → List (List ℕ) → List (List ℕ) → Type 0
Received n [] [] = Unit
Received n (s ∷ sent) (r ∷ received) =
    (length r ≡ length s) × (distance s r ≤ n) × Received n sent received
Received n sent received = ⊥

decode_rows :
    (fl : FloatSum) (k : ℕ) (rows received : List (List ℕ))
    → All (IsBlock IsBit k) rows
    → Received 4 (map encode_row rows) received
    → map (decode_row fl) received ≡ rows
decode_rows fl k [] [] h e = refl
decode_rows fl k [] (r ∷ received) h e = absurd e
decode_rows fl k (x ∷ rows) [] h e = absurd e
decode_rows fl k (x ∷ rows) (r ∷ received) h e =
    ap₂ ◌∷◌ (decode_row-corrects fl k x r h.0 (e.0 ∙ (encode_row-IsBlock k x (h.0).0).0) e.1)
      (decode_rows fl k rows received h.1 e.2)

encode-array :
    (use_numba : Bool) (bits : Batch)
    → All (IsBlock IsBit bits.width) bits.rows
    → encode use_numba none bits ≡ array_encode bits
unfolding encode
encode-array true bits h = (encode_kernel bits h).0
encode-array false bits h = refl

decode-Received :
    (fl : FloatSum) (w : ℕ) (rows received : List (List ℕ))
    → All (IsBlock IsBit w) rows
    → Received 4 (map encode_row rows) received
    → decode fl none (batch (2 * (w + 6)) received) ≡ batch w rows
unfolding decode array_decode
decode-Received fl w rows received h e =
    let half : 2 * (w + 6) / 2 ≡ w + 6 = omega arith in
    let enough : ltb (w + 6) 6 ≡ false = ground arith in
    let whole : w + 6 - 6 ≡ w = omega arith in
    rw (half, enough, whole) (ap (batch w) (decode_rows fl w rows received h e))

-- Without a native library at either end: a batch of messages of w bits each is encoded, by the
-- compiled kernel or as array code, and arrives with at most four wrong bits in each row. Then
-- `decode` in array code returns the batch of messages.
pub decode-corrects :
    (fl : FloatSum) (use_numba : Bool) (w : ℕ) (rows received : List (List ℕ))
    → All (IsBlock IsBit w) rows
    → Received 4 (encode use_numba none (batch w rows)).rows received
    → decode fl none (batch (2 * (w + 6)) received) ≡ batch w rows
unfolding array_encode
decode-corrects fl use_numba w rows received h e =
    decode-Received fl w rows received h (rw (encode-array use_numba (batch w rows) h) at e)

-- Nothing is lost on the way.
unharmed : (rows : List (List ℕ)) → Received 4 rows rows
unharmed [] = tt
unharmed (row ∷ rows) = (refl, omega (arith, distance_self row), unharmed rows)

-- What the FEC wrapper makes of the class: a code for streams.
abbrev pub conv_v27 : FloatSum → Bool → StreamCode
conv_v27 fl use_numba = record {
  tail_bits = tail_bits;
  encode = λ bits. ok (encode use_numba none bits);
  decode = λ bits. ok (decode fl none bits);
}

-- The convolutional code, with the compiled kernel or without, does what the FEC wrapper relies on:
-- each row of w bits, for any w but 0, is coded by itself to 2 * (w + 6) bits, and decoding what
-- was encoded gives back the batch.
pub conv_v27-IsLawful :
    (fl : FloatSum) (use_numba : Bool) → IsLawful (stream_level (conv_v27 fl use_numba))
unfolding array_encode
conv_v27-IsLawful fl use_numba = record {
  code = encode_row;
  plain = decode_row fl;
  code-IsBlock = λ w row fits h. encode_row-IsBlock w row h.0;
  plain-code = λ w row fits h.
      decode_row-corrects fl w row (encode_row row) h ((encode_row-IsBlock w row h.0).0)
        (omega (arith, distance_self (encode_row row)));
  encodes = λ w rows fits filled h. ap ok (encode-array use_numba (batch w rows) h);
  decodes = λ w rows fits filled h.
      ap ok (decode-Received fl w rows (map encode_row rows) h (unharmed (map encode_row rows)));
}
