-- ===== src/Fec/Wrapper/RoundTrip.antt =====
-- A code of blocks makes a code of messages of any length.
use native.Mathlib.Nat.{mul-add}
use spectracuda.Common.{
  ℕ, zero, suc, ◌+◌, ◌*◌, ◌/◌, ◌%◌, ◌≤◌, ◌<◌, ◌≡◌, refl, sym, ap, ap₂, ◌∙◌, List, [], ◌∷◌, ◌++◌,
  map, true, Bool-cases, inl, inr, arith, Outcome, ok, ltb, ltb→lt, lt→ltb, if◌then◌else◌, length,
  length-append, length-take, length-drop, take, drop, take_append, drop_append, take-append-drop,
  All, All-append, All-take, All-drop, map-append, length-map, flat_map, div-of_sum, mod-of_sum,
  sum-of_divmod, mod-below, drop_all,
}
use spectracuda.Numpy.{Batch}
use spectracuda.Fec.Codes.{batch, IsBlock, IsCode, map-on_rows, map-back, All-map, All-imp}
use spectracuda.Fec.Wrapper.{cut, by_parts, grown_length}
use spectracuda.Fec.Wrapper.Lengths.{last_length, last_length-lt}
use spectracuda.Fec.Wrapper.Rows.{
  joined, length-cut, joined-cut, cut-joined, length-joined, cut-IsBlock, All-flat_map, All-joined,
  lengths, entries,
}
use spectracuda.Fec.Wrapper.Parts.{parts_row, by_parts-Maps}

-- Blocks of at most `k` entries.
abbrev pub FitsBlock : (ℕ → Type 0) → ℕ → ℕ → Type 0
FitsBlock Aligned k w = (0 < w) × (w ≤ k) × Aligned w

-- Messages of any length but 0.
abbrev pub FitsMessage : (ℕ → Type 0) → ℕ → Type 0
FitsMessage Aligned w = (0 < w) × Aligned w

-- There are as many blocks as rows at least.
length-blocks :
    (q size : ℕ) (rows : List (List ℕ))
    → 0 < q
    → length rows ≤ length (flat_map (cut q size) (map (take (q * size)) rows))
length-blocks zero size rows h = absurd (omega arith)
length-blocks (suc q) size [] h = omega arith
length-blocks (suc q) size (row ∷ rows) h =
    let first = take (suc q * size) row in
    omega (
      arith,
      length-append (cut q size (drop size first))
          (flat_map (cut (suc q) size) (map (take (suc q * size)) rows)),
      length-blocks (suc q) size rows h,
    )

module _ (IsEntry Aligned : ℕ → Type 0) (least k extra : ℕ) (encode decode : Batch → Outcome Batch)
    (law : IsCode IsEntry (FitsBlock Aligned k) least (λ w. w + extra) encode decode)
    (k_pos : 0 < k) (k_aligned : Aligned k) where
  fits_full : FitsBlock Aligned k k
  fits_full = (k_pos, omega arith, k_aligned)

  -- What the full blocks of a row come to.
  coded_blocks : ℕ → List ℕ → List (List ℕ)
  coded_blocks q row = map law.code (cut q k (take (q * k) row))

  coded_row : ℕ → ℕ → List ℕ → List ℕ
  coded_row q r row = parts_row law.code k q r row

  count : (q : ℕ) (row : List ℕ) → length (coded_blocks q row) ≡ q
  unfolding coded_blocks
  count q row = length-map (cut q k (take (q * k) row)) law.code ∙ length-cut q k (take (q * k) row)

  full_IsBlock :
      (q r : ℕ) (row : List ℕ)
      → IsBlock IsEntry (q * k + r) row
      → All (IsBlock IsEntry k) (cut q k (take (q * k) row))
  full_IsBlock q r row h =
      cut-IsBlock IsEntry q k (take (q * k) row)
        (omega (arith, h.0, length-take (q * k) row), All-take IsEntry (q * k) row h.1)

  left_IsBlock :
      (q r : ℕ) (row : List ℕ)
      → IsBlock IsEntry (q * k + r) row
      → IsBlock IsEntry r (drop (q * k) row)
  left_IsBlock q r row h =
      (omega (arith, h.0, length-drop (q * k) row), All-drop IsEntry (q * k) row h.1)

  coded_blocks-IsBlock :
      (q r : ℕ) (row : List ℕ)
      → IsBlock IsEntry (q * k + r) row
      → All (IsBlock IsEntry (k + extra)) (coded_blocks q row)
  unfolding coded_blocks
  coded_blocks-IsBlock q r row h =
      All-map (IsBlock IsEntry (k + extra)) law.code (cut q k (take (q * k) row))
        (λ block e. law.code-IsBlock k block fits_full e) (full_IsBlock q r row h)

  length-coded_blocks :
      (q r : ℕ) (row : List ℕ)
      → IsBlock IsEntry (q * k + r) row
      → length (joined (coded_blocks q row)) ≡ q * (k + extra)
  length-coded_blocks q r row h =
      length-joined (k + extra) (coded_blocks q row)
        (lengths IsEntry (k + extra) (coded_blocks q row) (coded_blocks-IsBlock q r row h))
      ∙ ap (λ (n : ℕ). n * (k + extra)) (count q row)

  coded_tail : ℕ → ℕ → List ℕ → List ℕ
  coded_tail q r row = if ltb 0 r then law.code (drop (q * k) row) else []

  coded_tail-IsBlock :
      (q r : ℕ) (row : List ℕ)
      → r < k
      → Aligned r
      → IsBlock IsEntry (q * k + r) row
      → IsBlock IsEntry (last_length extra r) (coded_tail q r row)
  unfolding coded_tail
  coded_tail-IsBlock q r row below aligned h = elim (Bool-cases (ltb 0 r)) [
    | inl some ↦ rw some (
        law.code-IsBlock r (drop (q * k) row) (ltb→lt 0 r some, omega arith, aligned)
          (left_IsBlock q r row h))
    | inr none ↦ rw none (refl, tt)
  ]

  take-coded_row :
      (q r : ℕ) (row : List ℕ)
      → IsBlock IsEntry (q * k + r) row
      → take (q * (k + extra)) (coded_row q r row) ≡ joined (coded_blocks q row)
  unfolding coded_row coded_blocks coded_tail
  take-coded_row q r row h =
      rw (sym (length-coded_blocks q r row h))
        (take_append (joined (coded_blocks q row)) (coded_tail q r row))

  drop-coded_row :
      (q r : ℕ) (row : List ℕ)
      → IsBlock IsEntry (q * k + r) row
      → drop (q * (k + extra)) (coded_row q r row) ≡ coded_tail q r row
  unfolding coded_row coded_blocks coded_tail
  drop-coded_row q r row h =
      rw (sym (length-coded_blocks q r row h))
        (drop_append (joined (coded_blocks q row)) (coded_tail q r row))

  cut-coded_row :
      (q r : ℕ) (row : List ℕ)
      → IsBlock IsEntry (q * k + r) row
      → cut q (k + extra) (take (q * (k + extra)) (coded_row q r row)) ≡ coded_blocks q row
  cut-coded_row q r row h =
      ap (cut q (k + extra)) (take-coded_row q r row h)
      ∙ (ap (λ (n : ℕ). cut n (k + extra) (joined (coded_blocks q row))) (sym (count q row))
          ∙ cut-joined (k + extra) (coded_blocks q row)
              (lengths IsEntry (k + extra) (coded_blocks q row) (coded_blocks-IsBlock q r row h)))

  coded_row-IsBlock :
      (q r : ℕ) (row : List ℕ)
      → r < k
      → Aligned r
      → IsBlock IsEntry (q * k + r) row
      → IsBlock IsEntry (q * (k + extra) + last_length extra r) (coded_row q r row)
  unfolding coded_row coded_blocks coded_tail
  coded_row-IsBlock q r row below aligned h =
      let tail = coded_tail-IsBlock q r row below aligned h in
      (
        length-append (joined (coded_blocks q row)) (coded_tail q r row)
            ∙ ap₂ ◌+◌ (length-coded_blocks q r row h) tail.0,
        All-append IsEntry (joined (coded_blocks q row)) (coded_tail q r row)
            (All-joined IsEntry (coded_blocks q row)
              (entries IsEntry (k + extra) (coded_blocks q row) (coded_blocks-IsBlock q r row h)))
            tail.1,
      )

  plain_blocks :
      (blocks : List (List ℕ))
      → All (IsBlock IsEntry k) blocks
      → map law.plain (map law.code blocks) ≡ blocks
  plain_blocks [] h = refl
  plain_blocks (block ∷ blocks) h =
      ap₂ ◌∷◌ (law.plain-code k block fits_full h.0) (plain_blocks blocks h.1)

  plain_tail :
      (q r : ℕ) (row : List ℕ)
      → r < k
      → Aligned r
      → IsBlock IsEntry (q * k + r) row
      → (if ltb 0 (last_length extra r) then law.plain (coded_tail q r row) else [])
        ≡ drop (q * k) row
  unfolding coded_tail
  plain_tail q r row below aligned h = elim (Bool-cases (ltb 0 r)) [
    | inl some ↦
        (let more : ltb 0 (r + extra) ≡ true = ground arith in
          rw (some, more)
            (law.plain-code r (drop (q * k) row) (ltb→lt 0 r some, omega arith, aligned)
              (left_IsBlock q r row h)))
    | inr none ↦
        (let zero_left : length row ≤ q * k = ground (arith, h.0) in
          rw none (sym (drop_all (q * k) row zero_left)))
  ]

  plain_full :
      (q r : ℕ) (row : List ℕ)
      → IsBlock IsEntry (q * k + r) row
      → joined (map law.plain (coded_blocks q row)) ≡ take (q * k) row
  unfolding coded_blocks
  plain_full q r row h =
      ap joined (plain_blocks (cut q k (take (q * k) row)) (full_IsBlock q r row h))
      ∙ joined-cut q k (take (q * k) row) (omega (arith, h.0, length-take (q * k) row))

  -- Every row comes back.
  plain-coded_row :
      (q r : ℕ) (row : List ℕ)
      → r < k
      → Aligned r
      → IsBlock IsEntry (q * k + r) row
      → parts_row law.plain (k + extra) q (last_length extra r) (coded_row q r row) ≡ row
  plain-coded_row q r row below aligned h =
      ap₂ ◌++◌
        (ap (λ (t : List (List ℕ)). joined (map law.plain t)) (cut-coded_row q r row h)
          ∙ plain_full q r row h)
        (ap (λ (t : List ℕ). if ltb 0 (last_length extra r) then law.plain t else [])
            (drop-coded_row q r row h)
          ∙ plain_tail q r row below aligned h)
      ∙ take-append-drop (q * k) row

  sent_blocks :
      (q r : ℕ) (rows : List (List ℕ))
      → All (IsBlock IsEntry (q * k + r)) rows
      → flat_map (cut q (k + extra)) (map (take (q * (k + extra))) (map (coded_row q r) rows))
        ≡ map law.code (flat_map (cut q k) (map (take (q * k)) rows))
  unfolding coded_blocks
  sent_blocks q r [] h = refl
  sent_blocks q r (row ∷ rows) h =
      ap₂ ◌++◌ (cut-coded_row q r row h.0) (sent_blocks q r rows h.1)
      ∙ sym (
          map-append law.code (cut q k (take (q * k) row))
            (flat_map (cut q k) (map (take (q * k)) rows)))

  sent_left :
      (q r : ℕ) (rows : List (List ℕ))
      → 0 < r
      → All (IsBlock IsEntry (q * k + r)) rows
      → map (drop (q * (k + extra))) (map (coded_row q r) rows)
        ≡ map law.code (map (drop (q * k)) rows)
  unfolding coded_tail
  sent_left q r [] e h = refl
  sent_left q r (row ∷ rows) e h =
      ap₂ ◌∷◌ (drop-coded_row q r row h.0 ∙ rw (lt→ltb 0 r e) refl) (sent_left q r rows e h.1)

  module _ (rest : (w : ℕ) → Aligned w → Aligned (w % k)) where
    message_code : List ℕ → List ℕ
    message_code row = coded_row (length row / k) (length row % k) row

    message_plain : List ℕ → List ℕ
    message_plain row =
        parts_row law.plain (k + extra) (length row / (k + extra)) (length row % (k + extra)) row

    coded_length : ℕ → ℕ
    coded_length w = grown_length k (k + extra) extra w

    split-IsBlock :
        (w : ℕ) (row : List ℕ) → IsBlock IsEntry w row → IsBlock IsEntry (w / k * k + w % k) row
    split-IsBlock w row h = (h.0 ∙ sum-of_divmod w k, h.1)

    message_code-at :
        (w : ℕ) (row : List ℕ)
        → IsBlock IsEntry w row
        → message_code row ≡ coded_row (w / k) (w % k) row
    unfolding message_code
    message_code-at w row h = ap (λ (n : ℕ). coded_row (n / k) (n % k) row) h.0

    message_code-IsBlock :
        (w : ℕ) (row : List ℕ)
        → FitsMessage Aligned w
        → IsBlock IsEntry w row
        → IsBlock IsEntry (coded_length w) (message_code row)
    unfolding coded_length
    message_code-IsBlock w row fits h = rw (message_code-at w row h) (
        coded_row-IsBlock (w / k) (w % k) row (mod-below w k k_pos) (rest w fits.1)
          (split-IsBlock w row h))

    message_plain-code :
        (w : ℕ) (row : List ℕ)
        → FitsMessage Aligned w
        → IsBlock IsEntry w row
        → message_plain (message_code row) ≡ row
    unfolding message_plain coded_length
    message_plain-code w row fits h =
        let below = last_length-lt k extra (w % k) (mod-below w k k_pos) in
        ap
          (λ (n : ℕ).
            parts_row law.plain (k + extra) (n / (k + extra)) (n % (k + extra)) (message_code row))
          (message_code-IsBlock w row fits h).0
        ∙ rw
            (
              div-of_sum (k + extra) (w / k) (last_length extra (w % k)) below,
              mod-of_sum (k + extra) (w / k) (last_length extra (w % k)) below,
              message_code-at w row h,
            )
            (plain-coded_row (w / k) (w % k) row (mod-below w k k_pos) (rest w fits.1)
              (split-IsBlock w row h))

    module _ (w : ℕ) (rows : List (List ℕ)) (fits : FitsMessage Aligned w)
        (filled : least ≤ length rows) (h : All (IsBlock IsEntry w) rows) where
      abbrev q : ℕ
      q = w / k

      abbrev r : ℕ
      r = w % k

      r_below : r < k
      r_below = mod-below w k k_pos

      split_rows : All (IsBlock IsEntry (q * k + r)) rows
      split_rows = All-imp rows (split-IsBlock w) h

      abbrev full_blocks : List (List ℕ)
      full_blocks = flat_map (cut q k) (map (take (q * k)) rows)

      full_blocks-IsBlock : All (IsBlock IsEntry k) full_blocks
      full_blocks-IsBlock =
          All-flat_map (IsBlock IsEntry (q * k)) (IsBlock IsEntry k) (cut q k)
            (map (take (q * k)) rows) (λ row e. cut-IsBlock IsEntry q k row e)
            (All-map (IsBlock IsEntry (q * k)) (take (q * k)) rows
              (λ row e.
                (omega (arith, e.0, length-take (q * k) row), All-take IsEntry (q * k) row e.1))
              split_rows)

      left_rows-IsBlock : All (IsBlock IsEntry r) (map (drop (q * k)) rows)
      left_rows-IsBlock =
          All-map (IsBlock IsEntry r) (drop (q * k)) rows (left_IsBlock q r) split_rows

      filled_blocks : 0 < q → least ≤ length full_blocks
      filled_blocks e = omega (arith, filled, length-blocks q k rows e)

      filled_left : least ≤ length (map (drop (q * k)) rows)
      filled_left = omega (arith, filled, length-map rows (drop (q * k)))

      fits_left : 0 < r → FitsBlock Aligned k r
      fits_left e = (e, omega (arith, r_below), rest w fits.1)

      message_encodes :
          by_parts encode k (batch w rows) ≡ ok (batch (coded_length w) (map message_code rows))
      unfolding coded_length coded_row
      message_encodes =
          ap (λ (n : ℕ). by_parts encode k (batch n rows)) (sum-of_divmod w k)
          ∙ (by_parts-Maps encode law.code k q r (k + extra) (r + extra) rows r_below
                (omega (arith, fits.0, sum-of_divmod w k))
                (record {
                  blocks = λ e.
                      law.encodes k full_blocks fits_full (filled_blocks e) full_blocks-IsBlock;
                  leftover = λ e.
                      law.encodes r (map (drop (q * k)) rows) (fits_left e) filled_left
                        left_rows-IsBlock;
                })
              ∙ ap (λ (t : List (List ℕ)). ok (batch (grown_length k (k + extra) extra w) t))
                  (sym (map-on_rows message_code (coded_row q r) rows (message_code-at w) h)))

      abbrev sent_rows : List (List ℕ)
      sent_rows = map (coded_row q r) rows

      left_positive : 0 < last_length extra r → 0 < r
      left_positive e = ground arith

      last_width : 0 < r → last_length extra r ≡ r + extra
      last_width e = ground arith

      last_ge : r ≤ last_length extra r
      last_ge = ground arith

      sent_positive : 0 < q * (k + extra) + last_length extra r
      sent_positive = omega (arith, mul-add q k extra, last_ge, fits.0, sum-of_divmod w k)

      sent_width : q * k + (if ltb 0 (last_length extra r) then r else 0) ≡ w
      sent_width = ground (arith, sum-of_divmod w k)

      decodes_blocks :
          0 < q
          → decode (
              batch
                (k + extra)
                (flat_map (cut q (k + extra)) (map (take (q * (k + extra))) sent_rows)))
            ≡ ok (
                batch k (
                  map law.plain
                    (flat_map (cut q (k + extra)) (map (take (q * (k + extra))) sent_rows))))
      decodes_blocks e = rw (sent_blocks q r rows split_rows) (
          law.decodes k full_blocks fits_full (filled_blocks e) full_blocks-IsBlock
          ∙ ap (λ (t : List (List ℕ)). ok (batch k t))
              (sym (plain_blocks full_blocks full_blocks-IsBlock)))

      decodes_left :
          0 < r
          → decode (batch (last_length extra r) (map (drop (q * (k + extra))) sent_rows))
            ≡ ok (batch r (map law.plain (map (drop (q * (k + extra))) sent_rows)))
      decodes_left e =
          rw (sent_left q r rows e split_rows, last_width e)
            (law.decodes r (map (drop (q * k)) rows) (fits_left e) filled_left left_rows-IsBlock
              ∙ ap (λ (t : List (List ℕ)). ok (batch r t))
                  (sym (
                    map-back law.plain law.code (map (drop (q * k)) rows)
                      (λ row. law.plain-code r row (fits_left e)) left_rows-IsBlock)))

      message_decodes :
          by_parts decode (k + extra) (batch (coded_length w) (map message_code rows))
          ≡ ok (batch w rows)
      unfolding coded_length
      message_decodes =
          ap
            (λ (t : List (List ℕ)).
              by_parts decode (k + extra) (batch (grown_length k (k + extra) extra w) t))
            (map-on_rows message_code (coded_row q r) rows (message_code-at w) h)
          ∙ (by_parts-Maps decode law.plain (k + extra) q (last_length extra r) k r sent_rows
                (last_length-lt k extra r r_below) sent_positive
                (record {
                  blocks = λ e. decodes_blocks e;
                  leftover = λ e. decodes_left (left_positive e);
                })
              ∙ ap₂ (λ (n : ℕ) (t : List (List ℕ)). ok (batch n t)) sent_width
                  (map-back (parts_row law.plain (k + extra) q (last_length extra r))
                    (coded_row q r) rows (λ row. plain-coded_row q r row r_below (rest w fits.1))
                    split_rows))

    -- A code for blocks makes a code for messages of any length but 0.
    pub messages :
        IsCode IsEntry
          (FitsMessage Aligned)
          least
          (grown_length k (k + extra) extra)
          (by_parts encode k)
          (by_parts decode (k + extra))
    unfolding coded_length
    messages = record {
      code = message_code;
      plain = message_plain;
      code-IsBlock = message_code-IsBlock;
      plain-code = message_plain-code;
      encodes = message_encodes;
      decodes = message_decodes;
    }
