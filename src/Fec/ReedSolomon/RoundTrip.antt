-- ===== src/Fec/ReedSolomon/RoundTrip.antt =====
-- What arrives as it was sent is decoded to what was encoded.
use spectracuda.Common.{
  ℕ, zero, suc, ◌+◌, ◌-◌, ◌≤◌, ◌<◌, ◌≡◌, refl, sym, ap, ap₂, ◌∙◌, List, [], ◌∷◌, ◌++◌, map, true,
  none, ok, le→leb, arith, length, length-append, length-replicate, take, drop, take_append,
  drop_append, append_assoc, length-map, replicate, count_up, count_up-range, All, All-append,
}
use spectracuda.Numpy.Bytes.{IsByte}
use spectracuda.Fec.Codes.{batch, IsBlock, map-on_rows}
use spectracuda.Fec.Wrapper.{BlockCode, symbol_level}
use spectracuda.Fec.Wrapper.Every.{IsLawful}
use spectracuda.Fec.ReedSolomon.{root, encode_one, encode_row, padded, stack, encode, n_roots}
use spectracuda.Fec.ReedSolomon.Decoder.{
  evaluate, syndromes_one, all_zero, decode_one, decode_all, array_decode, decode,
}
use spectracuda.Fec.ReedSolomon.Parity.{encode_one-root, encode_one-IsBlock}

-- What the FEC wrapper makes of the class: a code for blocks of symbols.
abbrev pub rs_m8 : BlockCode
rs_m8 = record { k = 223; n = 255; encode = encode none; decode = decode none }

zeros-IsByte : (n : ℕ) → All IsByte (replicate n 0)
zeros-IsByte zero = tt
zeros-IsByte (suc n) = (omega arith, zeros-IsByte n)

all_zero-map :
    (f : ℕ → ℕ) (xs : List ℕ)
    → ((i : ℕ) → i < 32 → f i ≡ 0)
    → All (λ (i : ℕ). i < 32) xs
    → all_zero (map f xs) ≡ true
unfolding all_zero
all_zero-map f [] e h = refl
all_zero-map f (x ∷ xs) e h = rw (e x h.0) (all_zero-map f xs e h.1)

map-zero :
    (f : ℕ → ℕ) (xs : List ℕ)
    → ((i : ℕ) → i < 32 → f i ≡ 0)
    → All (λ (i : ℕ). i < 32) xs
    → map f xs ≡ map (λ (i : ℕ). 0) xs
map-zero f [] e h = refl
map-zero f (x ∷ xs) e h = ap₂ ◌∷◌ (e x h.0) (map-zero f xs e h.1)

-- A row that is 0 at each of the roots.
abbrev pub IsCodeword : List ℕ → Type 0
IsCodeword row = (i : ℕ) → i < 32 → evaluate (root i) 0 row ≡ 0

pub syndromes_zero : (row : List ℕ) → IsCodeword row → all_zero (syndromes_one row) ≡ true
unfolding syndromes_one
syndromes_zero row h =
    all_zero-map (λ (i : ℕ). evaluate (root i) 0 row) (count_up 0 32) h
      (count_up-range 0 32 32 (omega arith))

-- A full message with its parity.
decode_one-encode_one :
    (row : List ℕ) → IsBlock IsByte 223 row → decode_one (row ++ encode_one row) ≡ ok row
unfolding decode_one
decode_one-encode_one row h =
    rw (syndromes_zero (row ++ encode_one row) (λ i lt. encode_one-root row i h.1 lt)) (
      ap ok (
        ap (λ (n : ℕ). take n (row ++ encode_one row)) (sym h.0)
        ∙ take_append row (encode_one row)))

pub stacked : (rows : List (List ℕ)) → 1 ≤ length rows → stack rows ≡ ok rows
stacked [] h = absurd (omega arith)
stacked (row ∷ rows) h = refl

module _ (k : ℕ) (fits : k ≤ 223) where
  pub padded-IsBlock : (row : List ℕ) → IsBlock IsByte k row → IsBlock IsByte 223 (padded k row)
  padded-IsBlock row h = (
    length-append (replicate (223 - k) 0) row
        ∙ omega (arith, length-replicate {A = ℕ} (223 - k) 0, h.0),
    All-append IsByte (replicate (223 - k) 0) row (zeros-IsByte (223 - k)) h.1,
  )

  pub encode_row-IsBlock :
      (row : List ℕ) → IsBlock IsByte k row → IsBlock IsByte (k + 32) (encode_row k row)
  encode_row-IsBlock row h =
      let parity = encode_one-IsBlock (padded k row) (padded-IsBlock row h).1 in
      (
        length-append row (encode_one (padded k row)) ∙ ap₂ ◌+◌ h.0 parity.0,
        All-append IsByte row (encode_one (padded k row)) h.1 parity.1,
      )

  decode_one-encode_row :
      (row : List ℕ)
      → IsBlock IsByte k row
      → decode_one (padded k (encode_row k row)) ≡ ok (padded k row)
  decode_one-encode_row row h =
      ap decode_one (sym (append_assoc (replicate (223 - k) 0) row (encode_one (padded k row))))
      ∙ decode_one-encode_one (padded k row) (padded-IsBlock row h)

  decode_all-encode_row :
      (rows : List (List ℕ))
      → All (IsBlock IsByte k) rows
      → decode_all (map (padded k) (map (encode_row k) rows)) ≡ ok (map (padded k) rows)
  unfolding decode_all
  decode_all-encode_row [] h = refl
  decode_all-encode_row (row ∷ rows) h =
      rw (decode_one-encode_row row h.0, decode_all-encode_row rows h.1) refl

  unpadded : (row : List ℕ) → drop (223 - k) (padded k row) ≡ row
  unpadded row =
      ap (λ (n : ℕ). drop n (padded k row)) (sym (length-replicate {A = ℕ} (223 - k) 0))
      ∙ drop_append (replicate (223 - k) 0) row

  pub unpadded_rows : (rows : List (List ℕ)) → map (drop (223 - k)) (map (padded k) rows) ≡ rows
  unpadded_rows [] = refl
  unpadded_rows (row ∷ rows) = ap₂ ◌∷◌ (unpadded row) (unpadded_rows rows)

  pub encodes :
      (rows : List (List ℕ))
      → 1 ≤ k
      → 1 ≤ length rows
      → encode none (batch k rows) ≡ ok (batch (k + 32) (map (encode_row k) rows))
  unfolding encode
  encodes rows pos filled =
      rw
        (
          le→leb 1 k pos,
          le→leb k 223 fits,
          stacked (map (encode_row k) rows) (omega (arith, length-map rows (encode_row k))),
        )
        refl

  decodes :
      (rows : List (List ℕ))
      → 1 ≤ k
      → 1 ≤ length rows
      → All (IsBlock IsByte k) rows
      → decode none (batch (k + 32) (map (encode_row k) rows)) ≡ ok (batch k rows)
  unfolding decode array_decode
  decodes rows pos filled h =
      let back : k + 32 - 32 ≡ k = omega arith in
      rw
        (
          le→leb 33 (k + 32) (omega arith),
          le→leb (k + 32) 255 (omega arith),
          back,
          decode_all-encode_row rows h,
          stacked (map (padded k) rows) (omega (arith, length-map rows (padded k))),
        )
        (ap (λ (t : List (List ℕ)). ok (batch k t)) (unpadded_rows rows))

syndromes-zeros : (row : List ℕ) → IsCodeword row → syndromes_one row ≡ replicate 32 0
unfolding syndromes_one
syndromes-zeros row h =
    map-zero (λ (i : ℕ). evaluate (root i) 0 row) (count_up 0 32) h
      (count_up-range 0 32 32 (omega arith))

-- What is sent for a message: the message itself, 32 symbols more, and a word with only syndromes of
-- 0 once it is filled up with zeros in front.
abbrev pub IsSentFor : ℕ → List ℕ → List ℕ → Type 0
IsSentFor k row sent =
    (take k sent ≡ row) × (length sent ≡ k + 32) × (syndromes_one (padded k sent) ≡ replicate 32 0)

abbrev pub AllSent : ℕ → List (List ℕ) → List (List ℕ) → Type 0
AllSent k [] [] = Unit
AllSent k [] (sent ∷ more) = ⊥
AllSent k (row ∷ rows) [] = ⊥
AllSent k (row ∷ rows) (sent ∷ more) = IsSentFor k row sent × AllSent k rows more

module _ (k : ℕ) (fits : k ≤ 223) where
  encode_row-IsSentFor : (row : List ℕ) → IsBlock IsByte k row → IsSentFor k row (encode_row k row)
  encode_row-IsSentFor row h = (
    ap (λ (n : ℕ). take n (encode_row k row)) (sym h.0)
        ∙ take_append row (encode_one (padded k row)),
    (encode_row-IsBlock k fits row h).0,
    ap syndromes_one (sym (append_assoc (replicate (223 - k) 0) row (encode_one (padded k row))))
        ∙ syndromes-zeros (padded k row ++ encode_one (padded k row))
            (λ i lt. encode_one-root (padded k row) i (padded-IsBlock k fits row h).1 lt),
  )

  encode_row-AllSent :
      (rows : List (List ℕ))
      → All (IsBlock IsByte k) rows
      → AllSent k rows (map (encode_row k) rows)
  encode_row-AllSent [] h = tt
  encode_row-AllSent (row ∷ rows) h = (encode_row-IsSentFor row h.0, encode_row-AllSent rows h.1)

-- A batch of one row at least, of messages of 1 to 223 bytes each, is encoded row by row: what is
-- sent begins with the message, is 32 symbols longer, and has only syndromes of 0 once it is filled
-- up with zeros to a full word. Decoding what was encoded gives back the batch.
pub encode-IsCodeword :
    (k : ℕ) (rows : List (List ℕ))
    → 1 ≤ k
    → k ≤ 223
    → 1 ≤ length rows
    → All (IsBlock IsByte k) rows
    → (sent : List (List ℕ)) × (encode none (batch k rows) ≡ ok (batch (k + 32) sent))
      × AllSent k rows sent
      × (decode none (batch (k + 32) sent) ≡ ok (batch k rows))
encode-IsCodeword k rows pos fits filled h = (
  map (encode_row k) rows,
  encodes k fits rows pos filled,
  encode_row-AllSent k fits rows h,
  decodes k fits rows pos filled h,
)

coded_row : List ℕ → List ℕ
coded_row row = encode_row (length row) row

message_of : List ℕ → List ℕ
message_of row = take (length row - 32) row

coded_row-at : (w : ℕ) (row : List ℕ) → IsBlock IsByte w row → coded_row row ≡ encode_row w row
unfolding coded_row
coded_row-at w row h = ap (λ (n : ℕ). encode_row n row) h.0

codes :
    (w : ℕ) (rows : List (List ℕ))
    → All (IsBlock IsByte w) rows
    → map coded_row rows ≡ map (encode_row w) rows
codes w rows h = map-on_rows coded_row (encode_row w) rows (coded_row-at w) h

-- The Reed-Solomon code does what the FEC wrapper relies on: each row of 1 to 223 bytes of a batch
-- of one row at least is coded by itself to 32 bytes more, and decoding what was encoded gives back
-- the batch.
pub rs_m8-IsLawful : IsLawful (symbol_level rs_m8 n_roots)
unfolding message_of coded_row
rs_m8-IsLawful = record {
  code = coded_row;
  plain = message_of;
  code-IsBlock = λ w row fits h. rw (coded_row-at w row h) (encode_row-IsBlock w fits.1 row h);
  plain-code = λ w row fits h.
      let long = encode_row-IsBlock (length row) (omega (arith, fits.1, h.0)) row (refl, h.1) in
      let short : length (encode_row (length row) row) - 32 ≡ length row = omega (arith, long.0) in
      ap (λ (n : ℕ). take n (encode_row (length row) row)) short
      ∙ take_append row (encode_one (padded (length row) row));
  encodes = λ w rows fits filled h.
      encodes w fits.1 rows fits.0 filled
      ∙ ap (λ (t : List (List ℕ)). ok (batch (w + 32) t)) (sym (codes w rows h));
  decodes = λ w rows fits filled h.
      ap (λ (t : List (List ℕ)). decode none (batch (w + 32) t)) (codes w rows h)
      ∙ decodes w fits.1 rows fits.0 filled h;
}
