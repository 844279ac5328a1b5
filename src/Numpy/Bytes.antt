-- ===== src/Numpy/Bytes.antt =====
-- Bytes and bits: `packbits` and `unpackbits` undo each other.
use mathlib.Core.Path.{subst}
use spectracuda.Common.{
  ℕ, zero, suc, ◌*◌, ◌<◌, ◌≡◌, ◌∙◌, refl, sym, ap, List, [], ◌∷◌, ◌++◌, arith, length, take, drop,
  All, All-append, All-take, All-drop, IsBit, bits_of, bits_of-IsBit, value_from, value_from-lt,
  bits_of-value, length-append, length-take, length-drop, take-append-drop, append_assoc,
}
use spectracuda.Numpy.{Packing}

abbrev pub IsByte : ℕ → Type 0
IsByte b = b < 256

module _ (np : Packing) where
  pub unpackbits-IsBit : (bytes : List ℕ) → All IsByte bytes → All IsBit (np.unpackbits bytes)
  unpackbits-IsBit [] h = rw np.unpackbits-nil tt
  unpackbits-IsBit (b ∷ bytes) h = rw (np.unpackbits-cons b bytes h.0) (
      All-append IsBit (bits_of 8 b) (np.unpackbits bytes) (bits_of-IsBit 8 b)
        (unpackbits-IsBit bytes h.1))

  pub packbits-unpackbits :
      (bytes : List ℕ) → All IsByte bytes → np.packbits (np.unpackbits bytes) ≡ bytes
  packbits-unpackbits [] h = ap np.packbits np.unpackbits-nil ∙ np.packbits-nil
  packbits-unpackbits (b ∷ bytes) h =
      ap np.packbits (np.unpackbits-cons b bytes h.0)
      ∙ (np.packbits-append b (np.unpackbits bytes) h.0
          ∙ ap (λ (t : List ℕ). b ∷ t) (packbits-unpackbits bytes h.1))

  pub length-unpackbits :
      (bytes : List ℕ) → All IsByte bytes → length (np.unpackbits bytes) ≡ 8 * length bytes
  length-unpackbits [] h = ap length np.unpackbits-nil
  length-unpackbits (b ∷ bytes) h =
      ap length (np.unpackbits-cons b bytes h.0)
      ∙ omega
          (arith, length-append (bits_of 8 b) (np.unpackbits bytes), length-unpackbits bytes h.1)

  unpackbits-append :
      (xs ys : List ℕ)
      → All IsByte xs
      → np.unpackbits (xs ++ ys) ≡ np.unpackbits xs ++ np.unpackbits ys
  unpackbits-append [] ys h = rw np.unpackbits-nil refl
  unpackbits-append (x ∷ xs) ys h =
      np.unpackbits-cons x (xs ++ ys) h.0
      ∙ (ap (λ (t : List ℕ). bits_of 8 x ++ t) (unpackbits-append xs ys h.1)
          ∙ (sym (append_assoc (bits_of 8 x) (np.unpackbits xs) (np.unpackbits ys))
              ∙ ap (λ (t : List ℕ). t ++ np.unpackbits ys) (sym (np.unpackbits-cons x xs h.0))))

  abbrev pub Packs : ℕ → List ℕ → Type 0
  Packs n bits =
      (np.unpackbits (np.packbits bits) ≡ bits)
      × All IsByte (np.packbits bits)
      × (length (np.packbits bits) ≡ n)

  Packs-byte :
      (n b : ℕ) (bits : List ℕ) → b < 256 → Packs n bits → Packs (suc n) (bits_of 8 b ++ bits)
  Packs-byte n b bits h p = rw (np.packbits-append b bits h) (
    np.unpackbits-cons b (np.packbits bits) h ∙ ap (λ (t : List ℕ). bits_of 8 b ++ t) p.0,
    (h, p.1),
    ap suc p.2,
  )

  -- The first byte of a row of bits.
  first_byte :
      (n : ℕ) (bits : List ℕ)
      → length bits ≡ 8 * suc n
      → All IsBit bits
      → (value_from 0 (take 8 bits) < 256)
        × (bits_of 8 (value_from 0 (take 8 bits)) ++ drop 8 bits ≡ bits)
        × (length (drop 8 bits) ≡ 8 * n)
  first_byte n bits e h =
      let eight : length (take 8 bits) ≡ 8 = omega (arith, length-take 8 bits) in
      let small = value_from-lt (take 8 bits) (All-take IsBit 8 bits h) in
      let same = bits_of-value (take 8 bits) (All-take IsBit 8 bits h) in
      (
        rw eight at small,
        ap (λ (t : List ℕ). t ++ drop 8 bits) (rw eight at same) ∙ take-append-drop 8 bits,
        omega (arith, length-drop 8 bits),
      )

  -- The bits of whole bytes are those of the bytes that they pack to.
  pub unpackbits-packbits :
      (n : ℕ) (bits : List ℕ) → length bits ≡ 8 * n → All IsBit bits → Packs n bits
  unpackbits-packbits zero [] e h = rw np.packbits-nil (np.unpackbits-nil, tt, refl)
  unpackbits-packbits zero (b ∷ bits) e h = absurd (omega arith)
  unpackbits-packbits (suc n) bits e h =
      let first = first_byte n bits e h in
      let rest = unpackbits-packbits n (drop 8 bits) first.2 (All-drop IsBit 8 bits h) in
      subst (Packs (suc n)) first.1
        (Packs-byte n (value_from 0 (take 8 bits)) (drop 8 bits) first.0 rest)
