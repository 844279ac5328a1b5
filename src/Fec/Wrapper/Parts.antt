-- ===== src/Fec/Wrapper/Parts.antt =====
-- What the wrapper makes of a code that maps each row: the full blocks, then what is left over.
use spectracuda.Common.{
  ℕ, zero, suc, ◌+◌, ◌-◌, ◌*◌, ◌/◌, ◌%◌, ◌<◌, ◌≡◌, refl, sym, ap, ap₂, List, [], ◌∷◌, ◌++◌, map,
  true, false, Bool-cases, inl, inr, arith, Outcome, ok, ltb, ltb→lt, lt→ltb, if◌then◌else◌, min,
  zip_with, take, drop, append-nil, flat_map, div-of_sum, mod-of_sum,
}
use spectracuda.Numpy.{Batch}
use spectracuda.Fec.Codes.{batch}
use spectracuda.Fec.Wrapper.{cut, by_blocks, by_parts}
use spectracuda.Fec.Wrapper.Rows.{joined, join_blocks-cut}

-- The row that comes of a row: `q` full blocks of `size`, and the `r` entries after them.
abbrev pub parts_row : (List ℕ → List ℕ) → ℕ → ℕ → ℕ → List ℕ → List ℕ
parts_row g size q r row =
    joined (map g (cut q size (take (q * size) row)))
    ++ (if ltb 0 r then g (drop (q * size) row) else [])

-- `code` maps the full blocks by `g` to blocks of `block`, and the entries left over to `last`.
pub record Maps (code : Batch → Outcome Batch) (g : List ℕ → List ℕ) (size q r block last : ℕ)
    (rows : List (List ℕ)) : Type 0 where
  pub blocks :
      0 < q
      → code (batch size (flat_map (cut q size) (map (take (q * size)) rows)))
        ≡ ok (batch block (map g (flat_map (cut q size) (map (take (q * size)) rows))))
  pub leftover :
      0 < r
      → code (batch r (map (drop (q * size)) rows))
        ≡ ok (batch last (map g (map (drop (q * size)) rows)))

by_blocks-Maps :
    (code : Batch → Outcome Batch) (g : List ℕ → List ℕ) (size q block : ℕ) (rows : List (List ℕ))
    → 0 < size
    → code (batch size (flat_map (cut q size) rows))
      ≡ ok (batch block (map g (flat_map (cut q size) rows)))
    → by_blocks code size (batch (q * size) rows)
      ≡ ok (batch (q * block) (map (λ (row : List ℕ). joined (map g (cut q size row))) rows))
unfolding by_blocks
by_blocks-Maps code g size q block rows h e =
    let none_left : q * size + 0 ≡ q * size = omega arith in
    let whole : q * size % size ≡ 0 = rw none_left at (mod-of_sum size q 0 h) in
    let count : q * size / size ≡ q = rw none_left at (div-of_sum size q 0 h) in
    rw (whole, count, e)
      (ap (λ (t : List (List ℕ)). ok (batch (q * block) t)) (join_blocks-cut q size g rows))

module _ (g : List ℕ → List ℕ) (size : ℕ) where
  abbrev block_rows : ℕ → List (List ℕ) → List (List ℕ)
  block_rows q rows =
      map (λ (row : List ℕ). joined (map g (cut q size row))) (map (take (q * size)) rows)

  abbrev leftover_rows : ℕ → List (List ℕ) → List (List ℕ)
  leftover_rows q rows = map g (map (drop (q * size)) rows)

  both_parts :
      (q r : ℕ) (rows : List (List ℕ))
      → ltb 0 r ≡ true
      → zip_with ◌++◌ (block_rows q rows) (leftover_rows q rows) ≡ map (parts_row g size q r) rows
  both_parts q r [] h = refl
  both_parts q r (row ∷ rows) h = ap₂ ◌∷◌ (rw h refl) (both_parts q r rows h)

  no_leftover :
      (q r : ℕ) (rows : List (List ℕ))
      → ltb 0 r ≡ false
      → block_rows q rows ≡ map (parts_row g size q r) rows
  no_leftover q r [] h = refl
  no_leftover q r (row ∷ rows) h =
      ap₂ ◌∷◌ (rw h (sym (append-nil (joined (map g (cut q size (take (q * size) row)))))))
        (no_leftover q r rows h)

  no_blocks :
      (q r : ℕ) (rows : List (List ℕ))
      → ltb 0 q ≡ false
      → ltb 0 r ≡ true
      → leftover_rows q rows ≡ map (parts_row g size q r) rows
  no_blocks q r [] h k = refl
  no_blocks zero r (row ∷ rows) h k = ap₂ ◌∷◌ (rw k refl) (no_blocks zero r rows h k)
  no_blocks (suc q) r (row ∷ rows) h k = absurd (ground arith)

-- The parts of a batch of `q * size + r` columns, joined.
pub by_parts-Maps :
    (code : Batch → Outcome Batch) (g : List ℕ → List ℕ) (size q r block last : ℕ)
    (rows : List (List ℕ))
    → r < size
    → 0 < q * size + r
    → Maps code g size q r block last rows
    → by_parts code size (batch (q * size + r) rows)
      ≡ ok (batch (q * block + (if ltb 0 r then last else 0)) (map (parts_row g size q r) rows))
unfolding by_parts
by_parts-Maps code g size q r block last rows h k m =
    rw (div-of_sum size q r h, mod-of_sum size q r h, before, after)
      (elim (Bool-cases (ltb 0 q)) [
        | inl some_blocks ↦ elim (Bool-cases (ltb 0 r)) [
          | inl some_left ↦
              rw (some_blocks, some_left, blocks some_blocks, m.leftover (ltb→lt 0 r some_left))
                (ap (λ (t : List (List ℕ)). ok (batch (q * block + last) t))
                  (both_parts g size q r rows some_left))
          | inr none_left ↦
              rw (some_blocks, none_left, blocks some_blocks)
                (ap₂ (λ (w : ℕ) (t : List (List ℕ)). ok (batch w t))
                  (let e : q * block ≡ q * block + 0 = omega arith in e)
                  (no_leftover g size q r rows none_left))
        ]
        | inr none_full ↦
            (let empty : q ≡ 0 = ground arith in
              let some_left : ltb 0 r ≡ true = lt→ltb 0 r (alone empty) in
              rw (none_full, some_left, m.leftover (ltb→lt 0 r some_left))
                (ap₂ (λ (w : ℕ) (t : List (List ℕ)). ok (batch w t)) (widths empty)
                  (no_blocks g size q r rows none_full some_left)))
      ])
  where
    alone : q ≡ 0 → 0 < r
    alone e = let product : q * size ≡ 0 = rw e (omega arith) in omega arith

    widths : q ≡ 0 → last ≡ q * block + last
    widths e = rw e (omega arith)

    before : min (q * size) (q * size + r) ≡ q * size
    before = omega arith

    after : q * size + r - q * size ≡ r
    after = omega arith

    blocks :
        ltb 0 q ≡ true
        → by_blocks code size (batch (q * size) (map (take (q * size)) rows))
          ≡ ok (batch (q * block) (block_rows g size q rows))
    blocks t =
        by_blocks-Maps code g size q block (map (take (q * size)) rows) (omega arith)
          (m.blocks (ltb→lt 0 q t))
