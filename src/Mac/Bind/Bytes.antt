-- ===== src/Mac/Bind/Bytes.antt =====
-- The byte fields of the handshake: what is written is read back.
use spectracuda.Common.{
  le→leb, ℕ, ◌+◌, ◌-◌, ◌*◌, ◌/◌, ◌%◌, ◌^◌, ◌<◌, ◌≡◌, ◌∙◌, refl, sym, ap, List, [], ◌∷◌, ◌++◌, arith,
  ok, take, drop, bits_of, bit_or, bit_or_fields, append-nil,
}
use spectracuda.Numpy.{Packing}
use spectracuda.Mac.Bind.{first, u8, u32, read_u8, read_u32}

-- The four bytes of a number, most significant first.
abbrev pub bytes_of : ℕ → List ℕ
bytes_of v =
    bits_of 8 (v / 2 ^ 24 % 256)
    ++ (bits_of 8 (v / 2 ^ 16 % 256) ++ (bits_of 8 (v / 2 ^ 8 % 256) ++ bits_of 8 (v % 256)))

top_two :
    (v : ℕ)
    → v < 2 ^ 32
    → bit_or (v / 2 ^ 24 % 256 * 2 ^ 24) (v / 2 ^ 16 % 256 * 2 ^ 16) ≡ v / 2 ^ 16 * 2 ^ 16
top_two v h =
    bit_or_fields 24 (v / 2 ^ 24 % 256) (v / 2 ^ 16 % 256 * 2 ^ 16) (omega arith) ∙ omega arith

top_three : (v : ℕ) → bit_or (v / 2 ^ 16 * 2 ^ 16) (v / 2 ^ 8 % 256 * 2 ^ 8) ≡ v / 2 ^ 8 * 2 ^ 8
top_three v = bit_or_fields 16 (v / 2 ^ 16) (v / 2 ^ 8 % 256 * 2 ^ 8) (omega arith) ∙ omega arith

all_four : (v : ℕ) → bit_or (v / 2 ^ 8 * 2 ^ 8) (v % 256) ≡ v
all_four v = bit_or_fields 8 (v / 2 ^ 8) (v % 256) (omega arith) ∙ omega arith

join_bytes :
    (v : ℕ)
    → v < 2 ^ 32
    → bit_or
        (bit_or
          (bit_or (v / 2 ^ 24 % 256 * 2 ^ 24) (v / 2 ^ 16 % 256 * 2 ^ 16))
          (v / 2 ^ 8 % 256 * 2 ^ 8))
        (v % 256)
      ≡ v
join_bytes v h =
    ap (λ (t : ℕ). bit_or (bit_or t (v / 2 ^ 8 % 256 * 2 ^ 8)) (v % 256)) (top_two v h)
    ∙ (ap (λ (t : ℕ). bit_or t (v % 256)) (top_three v) ∙ all_four v)

module _ (np : Packing) where
  pub u8-eq_ok : (v : ℕ) → v < 256 → u8 np v ≡ ok (bits_of 8 v)
  unfolding u8
  u8-eq_ok v h = rw (le→leb v 255 (omega arith), np.unpackbits-cons v [] h, np.unpackbits-nil) refl

  unpack_four :
      (b3 b2 b1 b0 : ℕ)
      → b3 < 256
      → b2 < 256
      → b1 < 256
      → b0 < 256
      → np.unpackbits (b3 ∷ b2 ∷ b1 ∷ b0 ∷ [])
        ≡ bits_of 8 b3 ++ (bits_of 8 b2 ++ (bits_of 8 b1 ++ bits_of 8 b0))
  unpack_four b3 b2 b1 b0 h3 h2 h1 h0 =
      np.unpackbits-cons b3 (b2 ∷ b1 ∷ b0 ∷ []) h3
      ∙ ap (λ (t : List ℕ). bits_of 8 b3 ++ t)
          (np.unpackbits-cons b2 (b1 ∷ b0 ∷ []) h2
            ∙ ap (λ (t : List ℕ). bits_of 8 b2 ++ t)
                (np.unpackbits-cons b1 (b0 ∷ []) h1
                  ∙ ap (λ (t : List ℕ). bits_of 8 b1 ++ t)
                      (np.unpackbits-cons b0 [] h0
                        ∙ ap (λ (t : List ℕ). bits_of 8 b0 ++ t) np.unpackbits-nil)))

  pub u32-eq_ok : (v : ℕ) → v < 2 ^ 32 → u32 np v ≡ ok (bytes_of v)
  unfolding u32
  u32-eq_ok v h = rw (le→leb v (2 ^ 32 - 1) (omega arith)) (
      ap ok (
        unpack_four (v / 2 ^ 24 % 256) (v / 2 ^ 16 % 256) (v / 2 ^ 8 % 256) (v % 256) (omega arith)
          (omega arith) (omega arith) (omega arith)))

  -- A byte of a row of bits that stands at the offset.
  pub read_u8-at :
      (bits : List ℕ) (offset b : ℕ)
      → b < 256
      → take 8 (drop (offset * 8) bits) ≡ bits_of 8 b
      → read_u8 np bits offset ≡ ok b
  unfolding read_u8
  read_u8-at bits offset b h e =
      ap (λ (t : List ℕ). first (np.packbits t)) (e ∙ sym (append-nil (bits_of 8 b)))
      ∙ ap first (np.packbits-append b [] h)

  pub read_u32-at :
      (bits : List ℕ) (offset v : ℕ)
      → v < 2 ^ 32
      → take 8 (drop (offset * 8) bits) ≡ bits_of 8 (v / 2 ^ 24 % 256)
      → take 8 (drop ((offset + 1) * 8) bits) ≡ bits_of 8 (v / 2 ^ 16 % 256)
      → take 8 (drop ((offset + 2) * 8) bits) ≡ bits_of 8 (v / 2 ^ 8 % 256)
      → take 8 (drop ((offset + 3) * 8) bits) ≡ bits_of 8 (v % 256)
      → read_u32 np bits offset ≡ ok v
  unfolding read_u32
  read_u32-at bits offset v h e3 e2 e1 e0 =
      rw
        (
          read_u8-at bits offset (v / 2 ^ 24 % 256) (omega arith) e3,
          read_u8-at bits (offset + 1) (v / 2 ^ 16 % 256) (omega arith) e2,
          read_u8-at bits (offset + 2) (v / 2 ^ 8 % 256) (omega arith) e1,
          read_u8-at bits (offset + 3) (v % 256) (omega arith) e0,
        )
        (ap ok (join_bytes v h))
