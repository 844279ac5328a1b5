-- ===== src/Mac/Pdu/RoundTrip.antt =====
-- Encoding and decoding a header are inverse to one another.
use spectracuda.Common.{
  ℕ, ◌+◌, ◌^◌, ◌≤◌, ◌<◌, ◌≡◌, ◌↔◌, ◌∙◌, refl, sym, ap, ap₂, List, [], ◌∷◌, ◌++◌, arith, ok, raise,
  value_error, length, take, drop, take_append, drop_append, All, All-take, All-drop, IsBit,
  bits_of, value-bits_of, bits_of-value, value_from-lt, length-take, length-drop, take-drop-append,
}
use native.Mathlib.Decide.{dec_lt}
use spectracuda.Mac.Pdu.{Header, encode_header, decode_header, field}

-- The fields fit the widths that the format gives them.
pub record IsHeader (h : Header) : Type 0 where
  pub pdu_type_fits : h.pdu_type < 8
  pub si_fits : h.si < 4
  pub sn_fits : h.sn < 1024
  pub so_fits : h.so < 65536

-- The bits of a header, in the order in which they are sent.
pub header_bits : Header → List ℕ
header_bits h =
    bits_of 3 h.pdu_type ++ (bits_of 2 h.si ++ (bits_of 10 h.sn ++ (bits_of 16 h.so ++ (0 ∷ []))))

pub length-header_bits : (h : Header) → length (header_bits h) ≡ 32
unfolding header_bits
length-header_bits h = refl

header_bits-IsBit : (h : Header) → All IsBit (header_bits h)
unfolding header_bits
header_bits-IsBit h = omega arith

pub encode_header-eq_ok : (h : Header) → IsHeader h → encode_header h ≡ ok (header_bits h)
unfolding encode_header header_bits
encode_header-eq_ok h v = ground arith

pub decode_header-eq_ok : (h : Header) → IsHeader h → decode_header (header_bits h) ≡ ok h
unfolding decode_header header_bits
decode_header-eq_ok h v = ap ok (λ i. record {
  pdu_type = value-bits_of 3 h.pdu_type v.pdu_type_fits i;
  si = value-bits_of 2 h.si v.si_fits i;
  sn = value-bits_of 10 h.sn v.sn_fits i;
  so = value-bits_of 16 h.so v.so_fits i;
})

-- A header whose fields fit is encoded as 32 bits, each 0 or 1, and decoding them gives it back.
pub decode_header-encode_header :
    (h : Header)
    → IsHeader h
    → (bits : List ℕ) × (encode_header h ≡ ok bits)
      × (length bits ≡ 32)
      × All IsBit bits
      × (decode_header bits ≡ ok h)
decode_header-encode_header h v = (
  header_bits h,
  encode_header-eq_ok h v,
  length-header_bits h,
  header_bits-IsBit h,
  decode_header-eq_ok h v,
)

encode_header-misfit : (h : Header) → ¬ IsHeader h → encode_header h ≡ raise value_error
unfolding encode_header
encode_header-misfit h n = elim (dec_lt h.pdu_type 8) [
  | no p ↦ ground arith
  | yes p ↦ elim (dec_lt h.si 4) [
    | no q ↦ ground arith
    | yes q ↦ elim (dec_lt h.sn 1024) [
      | no r ↦ ground arith
      | yes r ↦ elim (dec_lt h.so 65536) [
        | no t ↦ ground arith
        | yes t ↦ absurd (n (record { pdu_type_fits = p; si_fits = q; sn_fits = r; so_fits = t }))
      ]
    ]
  ]
]

-- Encoding raises ValueError exactly when a field does not fit its width.
pub encode_header_error : (h : Header) → (encode_header h ≡ raise value_error) ↔ (¬ IsHeader h)
encode_header_error h = (λ e v. cc (encode_header-eq_ok h v), encode_header-misfit h)

length_field :
    (bits : List ℕ) (offset width : ℕ)
    → offset + width ≤ length bits
    → length (take width (drop offset bits)) ≡ width
length_field bits offset width fits =
    omega (arith, length-take width (drop offset bits), length-drop offset bits)

field_IsBit :
    (bits : List ℕ) (offset width : ℕ) → All IsBit bits → All IsBit (take width (drop offset bits))
field_IsBit bits offset width h =
    All-take IsBit width (drop offset bits) (All-drop IsBit offset bits h)

field_bits :
    (bits : List ℕ) (offset width : ℕ)
    → All IsBit bits
    → offset + width ≤ length bits
    → bits_of width (field bits offset width) ≡ take width (drop offset bits)
field_bits bits offset width h fits =
    ap (λ (w : ℕ). bits_of w (field bits offset width)) (sym (length_field bits offset width fits))
    ∙ bits_of-value (take width (drop offset bits)) (field_IsBit bits offset width h)

field_lt :
    (bits : List ℕ) (offset width : ℕ)
    → All IsBit bits
    → offset + width ≤ length bits
    → field bits offset width < 2 ^ width
field_lt bits offset width h fits =
    let e : length (take width (drop offset bits)) ≡ width = length_field bits offset width fits in
    rw e at (value_from-lt (take width (drop offset bits)) (field_IsBit bits offset width h))

decoded : List ℕ → Header
decoded bits = record {
  pdu_type = field bits 0 3;
  si = field bits 3 2;
  sn = field bits 5 10;
  so = field bits 15 16;
}

header_bits-decoded :
    (bits : List ℕ)
    → length bits ≡ 32
    → All IsBit bits
    → drop 31 bits ≡ 0 ∷ []
    → header_bits (decoded bits) ≡ bits
unfolding header_bits decoded
header_bits-decoded bits n b reserved =
    ap₂ ◌++◌ (field_bits bits 0 3 b (omega arith)) (
      ap₂ ◌++◌ (field_bits bits 3 2 b (omega arith)) (
        ap₂ ◌++◌ (field_bits bits 5 10 b (omega arith)) (
          ap₂ ◌++◌ (field_bits bits 15 16 b (omega arith)) (sym reserved)
          ∙ take-drop-append 15 16 bits)
        ∙ take-drop-append 5 10 bits)
      ∙ take-drop-append 3 2 bits)
    ∙ take-drop-append 0 3 bits

decoded-IsHeader : (bits : List ℕ) → length bits ≡ 32 → All IsBit bits → IsHeader (decoded bits)
unfolding decoded
decoded-IsHeader bits n b = record {
  pdu_type_fits = field_lt bits 0 3 b (omega arith);
  si_fits = field_lt bits 3 2 b (omega arith);
  sn_fits = field_lt bits 5 10 b (omega arith);
  so_fits = field_lt bits 15 16 b (omega arith);
}

decode_header-decoded : (bits : List ℕ) → length bits ≡ 32 → decode_header bits ≡ ok (decoded bits)
unfolding decode_header decoded
decode_header-decoded bits n = rw n refl

-- Any 32 bits of which the reserved last one is 0 decode to a header whose fields fit, and which
-- is encoded as these bits.
pub encode_header-decode_header :
    (bits : List ℕ)
    → length bits ≡ 32
    → All IsBit bits
    → drop 31 bits ≡ 0 ∷ []
    → (h : Header) × (decode_header bits ≡ ok h) × IsHeader h × (encode_header h ≡ ok bits)
encode_header-decode_header bits n b reserved = (
  decoded bits,
  decode_header-decoded bits n,
  decoded-IsHeader bits n b,
  encode_header-eq_ok (decoded bits) (decoded-IsHeader bits n b)
      ∙ ap ok (header_bits-decoded bits n b reserved),
)

pub take-header_bits :
    (h : Header) (bits : List ℕ) → take 32 (header_bits h ++ bits) ≡ header_bits h
take-header_bits h bits =
    ap (λ (n : ℕ). take n (header_bits h ++ bits)) (sym (length-header_bits h))
    ∙ take_append (header_bits h) bits

pub drop-header_bits : (h : Header) (bits : List ℕ) → drop 32 (header_bits h ++ bits) ≡ bits
drop-header_bits h bits =
    ap (λ (n : ℕ). drop n (header_bits h ++ bits)) (sym (length-header_bits h))
    ∙ drop_append (header_bits h) bits
