-- ===== src/Fec/ReedSolomon/Corrects.antt =====
-- A wrong symbol in each row is corrected.
use spectracuda.Common.{
  ℕ, ◌+◌, ◌-◌, ◌≤◌, ◌<◌, ◌≡◌, refl, sym, ap, ap₂, ◌∙◌, List, [], ◌∷◌, ◌++◌, map, none, ok, le→leb,
  arith, length, length-append, length-replicate, take, replicate, set_at, All, length-map,
  set_at_append, All-append, append_assoc, take_append,
}
use spectracuda.Numpy.Bytes.{IsByte}
use spectracuda.Fec.Codes.{batch, IsBlock}
use spectracuda.Fec.ReedSolomon.{encode_one, encode_row, padded, encode}
use spectracuda.Fec.ReedSolomon.Decoder.{decode_one, decode_all, array_decode, decode}
use spectracuda.Fec.ReedSolomon.Parity.{encode_one-root, encode_one-IsBlock}
use spectracuda.Fec.ReedSolomon.RoundTrip.{
  IsCodeword, padded-IsBlock, unpadded_rows, stacked, encodes,
}
use spectracuda.Fec.ReedSolomon.OneWrong.{decode_one-set_at}

-- Rows as they were sent, but for at most one symbol of each.
abbrev pub Received : List (List ℕ) → List (List ℕ) → Type 0
Received [] [] = Unit
Received (s ∷ sent) (r ∷ received) =
    ((i : ℕ) × (v : ℕ) × (v < 256) × (r ≡ set_at i v s)) × Received sent received
Received sent received = ⊥

module _ (k : ℕ) (fits : k ≤ 223) where
  abbrev full : List ℕ → List ℕ
  full row = padded k row ++ encode_one (padded k row)

  full-IsBlock : (row : List ℕ) → IsBlock IsByte k row → IsBlock IsByte 255 (full row)
  full-IsBlock row h =
      let message = padded-IsBlock k fits row h in
      let parity = encode_one-IsBlock (padded k row) message.1 in
      (
        length-append (padded k row) (encode_one (padded k row)) ∙ ap₂ ◌+◌ message.0 parity.0,
        All-append IsByte (padded k row) (encode_one (padded k row)) message.1 parity.1,
      )

  full-IsCodeword : (row : List ℕ) → IsBlock IsByte k row → IsCodeword (full row)
  full-IsCodeword row h i lt = encode_one-root (padded k row) i (padded-IsBlock k fits row h).1 lt

  padded-set_at :
      (row : List ℕ) (i v : ℕ)
      → padded k (set_at i v (encode_row k row)) ≡ set_at (223 - k + i) v (full row)
  padded-set_at row i v =
      sym (set_at_append (replicate (223 - k) 0) (encode_row k row) i v)
      ∙ ap₂ (λ (n : ℕ) (t : List ℕ). set_at (n + i) v t) (length-replicate {A = ℕ} (223 - k) 0)
          (sym (append_assoc (replicate (223 - k) 0) row (encode_one (padded k row))))

  decode_one-Received :
      (row r : List ℕ) (i v : ℕ)
      → IsBlock IsByte k row
      → v < 256
      → r ≡ set_at i v (encode_row k row)
      → decode_one (padded k r) ≡ ok (padded k row)
  decode_one-Received row r i v h lt e =
      ap decode_one (ap (padded k) e ∙ padded-set_at row i v)
      ∙ (decode_one-set_at (full row) (223 - k + i) v (full-IsBlock row h) lt
            (full-IsCodeword row h)
          ∙ ap ok (
              ap (λ (n : ℕ). take n (full row)) (sym (padded-IsBlock k fits row h).0)
              ∙ take_append (padded k row) (encode_one (padded k row))))

  decode_all-Received :
      (rows received : List (List ℕ))
      → All (IsBlock IsByte k) rows
      → Received (map (encode_row k) rows) received
      → decode_all (map (padded k) received) ≡ ok (map (padded k) rows)
  unfolding decode_all
  decode_all-Received [] [] h e = refl
  decode_all-Received [] (r ∷ received) h e = absurd e
  decode_all-Received (row ∷ rows) [] h e = absurd e
  decode_all-Received (row ∷ rows) (r ∷ received) h e =
      rw
        (
          decode_one-Received row r e.0.0 e.0.1 h.0 e.0.2 e.0.3,
          decode_all-Received rows received h.1 e.1,
        )
        refl

-- A batch of one row at least, of messages of 1 to 223 bytes, is encoded to a batch of rows that are
-- 32 bytes longer. It arrives with at most one byte of each row changed: `decode` returns the batch
-- of messages.
pub decode-corrects_symbol :
    (k : ℕ) (rows received : List (List ℕ))
    → 1 ≤ k
    → k ≤ 223
    → 1 ≤ length rows
    → All (IsBlock IsByte k) rows
    → Received (map (encode_row k) rows) received
    → (encode none (batch k rows) ≡ ok (batch (k + 32) (map (encode_row k) rows)))
      × (decode none (batch (k + 32) received) ≡ ok (batch k rows))
unfolding decode array_decode
decode-corrects_symbol k rows received pos fits filled h e =
    let back : k + 32 - 32 ≡ k = omega arith in
    (
      encodes k fits rows pos filled,
      rw
          (
            le→leb 33 (k + 32) (omega arith),
            le→leb (k + 32) 255 (omega arith),
            back,
            decode_all-Received k fits rows received h e,
            stacked (map (padded k) rows) (omega (arith, length-map rows (padded k))),
          )
          (ap (λ (t : List (List ℕ)). ok (batch k t)) (unpadded_rows k fits rows)),
    )
