-- ===== src/Fec/Examples.antt =====
-- Runs of the keys and of the wrapper, over a code that appends zeros to its blocks.
use spectracuda.Common.{
  ◌≢◌, zip_with, ℕ, zero, suc, ◌+◌, ◌-◌, ◌^◌, ◌≡◌, refl, sym, ap, ◌∙◌, List, [], ◌∷◌, ◌++◌, map,
  true, false, Outcome, ok, raise, value_error, arith, inr, length, length-append, length-replicate,
  take, take_append, replicate, All, All-append,
}
use spectracuda.Numpy.{Batch}
use spectracuda.Numpy.Bytes.{IsByte}
use spectracuda.Numpy.Instance.{packing}
use spectracuda.Fec.Codes.{batch, IsCode, map-back}
use spectracuda.Fec.Crc.Detects.{check_key-detects}
use spectracuda.Fec.Crc.{no_crc, with_key, crc16, crc32, append_key, check_key, generate_key}
use spectracuda.Fec.Crc.Key.{IsBelow, generate_key_numba, generate_key-IsBelow}
use spectracuda.Fec.Crc.Check.{check_key-append_key}
use spectracuda.Fec.Wrapper.{Fec, symbol_level, encoded_length, encode, decode}
use spectracuda.Fec.Wrapper.Lengths.{IsFec}
use spectracuda.Fec.Wrapper.RoundTrip.{FitsBlock}
use spectracuda.Fec.Wrapper.Symbols.{AnyLength}
use spectracuda.Fec.Wrapper.Every.{IsLawful, fec_round_trip, fec_refuses}

abbrev two_messages : Batch
two_messages = batch 3 ((1 ∷ 2 ∷ 3 ∷ []) ∷ (255 ∷ 0 ∷ 254 ∷ []) ∷ [])

check_key-append_key_example :
    check_key false crc16 (append_key true crc16 two_messages) ≡ ok (replicate 2 true)
check_key-append_key_example = check_key-append_key true false crc16 two_messages (refl, (refl, tt))

crc16_appends : crc16 ≢ no_crc
crc16_appends e = cc

-- The second byte of one message and the last byte of the other are wrong.
check_key-detects_example :
    check_key false crc16 (
      batch 5 (
        zip_with
          (with_key crc16)
          ((1 ∷ 9 ∷ 3 ∷ []) ∷ (255 ∷ 0 ∷ 4 ∷ []) ∷ [])
          (generate_key true crc16 two_messages)))
    ≡ ok (false ∷ false ∷ [])
check_key-detects_example =
    check_key-detects true false crc16 3 ((1 ∷ 2 ∷ 3 ∷ []) ∷ (255 ∷ 0 ∷ 254 ∷ []) ∷ [])
      ((1 ∷ 9 ∷ 3 ∷ []) ∷ (255 ∷ 0 ∷ 4 ∷ []) ∷ []) crc16_appends
      ((refl, omega arith), ((refl, omega arith), tt))
      (
        (1 ∷ [], 2, 9, 3 ∷ [], refl, refl, omega arith, (λ e. omega arith)),
        ((255 ∷ 0 ∷ [], 254, 4, [], refl, refl, omega arith, (λ e. omega arith)), tt),
      )

generate_key_numba_example :
    generate_key false crc32 two_messages ≡ generate_key true crc32 two_messages
generate_key_numba_example = generate_key_numba crc32 two_messages (refl, (refl, tt))

generate_key-IsBelow_example :
    All (IsBelow (256 ^ 4)) (generate_key false crc32 two_messages)
    × (length (generate_key false crc32 two_messages) ≡ 2)
generate_key-IsBelow_example = generate_key-IsBelow false crc32 two_messages (refl, (refl, tt))

abbrev padded_row : ℕ → List ℕ → List ℕ
padded_row extra row = row ++ replicate extra 0

abbrev pub pad : ℕ → Batch → Outcome Batch
pad extra b = ok (batch (b.width + extra) (map (padded_row extra) b.rows))

abbrev cut_row : ℕ → List ℕ → List ℕ
cut_row width row = take width row

abbrev pub unpad : ℕ → Batch → Outcome Batch
unpad extra b = ok (batch (b.width - extra) (map (cut_row (b.width - extra)) b.rows))

zeros : (P : ℕ → Type 0) (n : ℕ) → P 0 → All P (replicate n 0)
zeros P zero h = tt
zeros P (suc n) h = (h, zeros P n h)

length-padded_row : (extra : ℕ) (row : List ℕ) → length (padded_row extra row) ≡ length row + extra
length-padded_row extra row =
    length-append row (replicate extra 0)
    ∙ ap (λ (n : ℕ). length row + n) (length-replicate extra 0)

cut-padded : (extra w : ℕ) (row : List ℕ) → length row ≡ w → cut_row w (padded_row extra row) ≡ row
cut-padded extra w row h = rw (sym h) (take_append row (replicate extra 0))

-- The code is lawful for any kind of entry that 0 is.
pad-IsCode :
    (P : ℕ → Type 0) (least k extra : ℕ)
    → P 0
    → IsCode P (FitsBlock AnyLength k) least (λ w. w + extra) (pad extra) (unpad extra)
pad-IsCode P least k extra z = record {
  code = padded_row extra;
  plain = λ row. cut_row (length row - extra) row;
  code-IsBlock = λ w row fits h. (
    length-padded_row extra row ∙ ap (λ (n : ℕ). n + extra) h.0,
    All-append P row (replicate extra 0) h.1 (zeros P extra z),
  );
  plain-code = λ w row fits h.
      cut-padded extra (length (padded_row extra row) - extra) row
        (omega (arith, length-padded_row extra row));
  encodes = λ w rows fits filled h. refl;
  decodes = λ w rows fits filled h.
      let back : w + extra - extra ≡ w = omega arith in
      rw back (
        ap (λ (t : List (List ℕ)). ok (batch w t))
          (map-back (cut_row w) (padded_row extra) rows (λ row e. cut-padded extra w row e.0) h));
}

-- Blocks of 3 symbols and 2 more.
abbrev by_symbols : Fec
by_symbols = symbol_level (record { k = 3; n = 5; encode = pad 2; decode = unpad 2 }) 2

by_symbols-IsFec : IsFec by_symbols
by_symbols-IsFec = (omega arith, omega arith, refl)

by_symbols-IsLawful : IsLawful by_symbols
by_symbols-IsLawful = pad-IsCode IsByte 1 3 2 (omega arith)

abbrev long_row : List ℕ
long_row = replicate 32 1

fec_round_trip_example :
    (sent : Batch) × (encode packing by_symbols (batch 32 (long_row ∷ [])) ≡ ok sent)
    × (sent.width ≡ encoded_length by_symbols 32)
    × (decode packing by_symbols sent ≡ ok (batch 32 (long_row ∷ [])))
fec_round_trip_example =
    fec_round_trip packing by_symbols 32 (long_row ∷ []) by_symbols-IsFec by_symbols-IsLawful
      (omega arith, refl) (omega arith) ((refl, omega arith), tt)

fec_refuses_example :
    encode packing by_symbols (batch 3 ((1 ∷ 0 ∷ 1 ∷ []) ∷ [])) ≡ raise value_error
fec_refuses_example =
    fec_refuses packing by_symbols 3 ((1 ∷ 0 ∷ 1 ∷ []) ∷ []) by_symbols-IsFec (inr (omega arith))
