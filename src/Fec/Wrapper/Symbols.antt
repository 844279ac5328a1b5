-- ===== src/Fec/Wrapper/Symbols.antt =====
-- A code of symbols is a code of bits, eight for each symbol.
use spectracuda.Common.{
  ℕ, ◌+◌, ◌*◌, ◌/◌, ◌%◌, ◌≤◌, length, length-map, ◌≡◌, refl, sym, ap, ap₂, ◌∙◌, List, [], ◌∷◌, map,
  Outcome, ok, arith, All, IsBit,
}
use spectracuda.Numpy.{Batch, Packing}
use spectracuda.Numpy.Bytes.{
  IsByte, Packs, unpackbits-IsBit, packbits-unpackbits, length-unpackbits, unpackbits-packbits,
}
use spectracuda.Fec.Codes.{batch, IsBlock, IsCode, map-on_rows, map-back, All-map}
use spectracuda.Fec.Wrapper.{on_symbols}
use spectracuda.Fec.Wrapper.RoundTrip.{FitsBlock}

-- Codes of symbols take every length, those on bits whole bytes.
abbrev pub AnyLength : ℕ → Type 0
AnyLength w = Unit

abbrev pub WholeBytes : ℕ → Type 0
WholeBytes w = w % 8 ≡ 0

map-map :
    (f g : List ℕ → List ℕ) (rows : List (List ℕ))
    → map f (map g rows) ≡ map (λ (row : List ℕ). f (g row)) rows
map-map f g [] = refl
map-map f g (row ∷ rows) = ap (◌∷◌ (f (g row))) (map-map f g rows)

module _ (np : Packing) (least k nroots : ℕ) (encode decode : Batch → Outcome Batch)
    (law : IsCode IsByte (FitsBlock AnyLength k) least (λ w. w + nroots) encode decode) where
  packed : (w : ℕ) (row : List ℕ) → WholeBytes w → IsBlock IsBit w row → Packs np (w / 8) row
  packed w row a h = unpackbits-packbits np (w / 8) row (h.0 ∙ omega arith) h.1

  packed-IsBlock :
      (w : ℕ) (row : List ℕ)
      → WholeBytes w
      → IsBlock IsBit w row
      → IsBlock IsByte (w / 8) (np.packbits row)
  packed-IsBlock w row a h = let p = packed w row a h in (p.2, p.1)

  fits_symbols : (w : ℕ) → FitsBlock WholeBytes (k * 8) w → FitsBlock AnyLength k (w / 8)
  fits_symbols w fits = (omega (arith, fits.0, fits.2), omega (arith, fits.1), tt)

  symbol_code : List ℕ → List ℕ
  symbol_code row = np.unpackbits (law.code (np.packbits row))

  symbol_plain : List ℕ → List ℕ
  symbol_plain row = np.unpackbits (law.plain (np.packbits row))

  coded_bytes :
      (w : ℕ) (row : List ℕ)
      → FitsBlock WholeBytes (k * 8) w
      → IsBlock IsBit w row
      → IsBlock IsByte (w / 8 + nroots) (law.code (np.packbits row))
  coded_bytes w row fits h =
      law.code-IsBlock (w / 8) (np.packbits row) (fits_symbols w fits)
        (packed-IsBlock w row fits.2 h)

  symbol_code-IsBlock :
      (w : ℕ) (row : List ℕ)
      → FitsBlock WholeBytes (k * 8) w
      → IsBlock IsBit w row
      → IsBlock IsBit (w + 8 * nroots) (symbol_code row)
  unfolding symbol_code
  symbol_code-IsBlock w row fits h =
      let coded = coded_bytes w row fits h in
      (
        length-unpackbits np (law.code (np.packbits row)) coded.1 ∙ omega (arith, coded.0, fits.2),
        unpackbits-IsBit np (law.code (np.packbits row)) coded.1,
      )

  symbol_plain-code :
      (w : ℕ) (row : List ℕ)
      → FitsBlock WholeBytes (k * 8) w
      → IsBlock IsBit w row
      → symbol_plain (symbol_code row) ≡ row
  unfolding symbol_code symbol_plain
  symbol_plain-code w row fits h =
      ap (λ (t : List ℕ). np.unpackbits (law.plain t))
        (packbits-unpackbits np (law.code (np.packbits row)) (coded_bytes w row fits h).1)
      ∙ (ap np.unpackbits (
            law.plain-code (w / 8) (np.packbits row) (fits_symbols w fits)
              (packed-IsBlock w row fits.2 h))
          ∙ (packed w row fits.2 h).0)

  packed_rows-IsBlock :
      (w : ℕ) (rows : List (List ℕ))
      → WholeBytes w
      → All (IsBlock IsBit w) rows
      → All (IsBlock IsByte (w / 8)) (map np.packbits rows)
  packed_rows-IsBlock w rows a h =
      All-map (IsBlock IsByte (w / 8)) np.packbits rows (λ row. packed-IsBlock w row a) h

  filled_symbols :
      (rows : List (List ℕ)) → least ≤ length rows → least ≤ length (map np.packbits rows)
  filled_symbols rows h = omega (arith, length-map rows np.packbits)

  symbol_encodes :
      (w : ℕ) (rows : List (List ℕ))
      → FitsBlock WholeBytes (k * 8) w
      → least ≤ length rows
      → All (IsBlock IsBit w) rows
      → on_symbols np encode (batch w rows) ≡ ok (batch (w + 8 * nroots) (map symbol_code rows))
  unfolding on_symbols symbol_code
  symbol_encodes w rows fits filled h =
      let whole : (w + 7) / 8 ≡ w / 8 = omega (arith, fits.2) in
      rw
        (
          whole,
          law.encodes (w / 8) (map np.packbits rows) (fits_symbols w fits)
              (filled_symbols rows filled) (packed_rows-IsBlock w rows fits.2 h),
        )
        (ap₂ (λ (n : ℕ) (t : List (List ℕ)). ok (batch n t)) (omega (arith, fits.2))
          (map-map np.unpackbits law.code (map np.packbits rows)
            ∙ map-map (λ (t : List ℕ). np.unpackbits (law.code t)) np.packbits rows))

  symbol_decodes :
      (w : ℕ) (rows : List (List ℕ))
      → FitsBlock WholeBytes (k * 8) w
      → least ≤ length rows
      → All (IsBlock IsBit w) rows
      → on_symbols np decode (batch (w + 8 * nroots) (map symbol_code rows)) ≡ ok (batch w rows)
  unfolding on_symbols symbol_code
  symbol_decodes w rows fits filled h =
      let whole : (w + 8 * nroots + 7) / 8 ≡ w / 8 + nroots = omega (arith, fits.2) in
      let bytes : map np.packbits (map symbol_code rows) ≡ map law.code (map np.packbits rows) =
        map-map np.packbits symbol_code rows
        ∙ (map-on_rows (λ (row : List ℕ). np.packbits (symbol_code row))
              (λ (row : List ℕ). law.code (np.packbits row)) rows
              (λ row e.
                packbits-unpackbits np (law.code (np.packbits row)) (coded_bytes w row fits e).1)
              h
            ∙ sym (map-map law.code np.packbits rows)) in
      rw
        (
          whole,
          bytes,
          law.decodes (w / 8) (map np.packbits rows) (fits_symbols w fits)
              (filled_symbols rows filled) (packed_rows-IsBlock w rows fits.2 h),
        )
        (ap₂ (λ (n : ℕ) (t : List (List ℕ)). ok (batch n t)) (omega (arith, fits.2))
          (map-back np.unpackbits np.packbits rows (λ row e. (packed w row fits.2 e).0) h))

  pub symbols :
      IsCode IsBit
        (FitsBlock WholeBytes (k * 8))
        least
        (λ w. w + 8 * nroots)
        (on_symbols np encode)
        (on_symbols np decode)
  symbols = record {
    code = symbol_code;
    plain = symbol_plain;
    code-IsBlock = symbol_code-IsBlock;
    plain-code = symbol_plain-code;
    encodes = symbol_encodes;
    decodes = symbol_decodes;
  }
