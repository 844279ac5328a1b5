-- ===== src/Framing/Header/RoundTrip.antt =====
-- A header is read as it was written.
use Prim.Native.String.{String}
use spectracuda.Common.{
  lt→ltb, ℕ, suc, zero, ◌+◌, ◌*◌, ◌/◌, ◌%◌, ◌^◌, ◌<◌, ◌≡◌, ◌∙◌, refl, sym, ap, ap₂, List, [], ◌∷◌,
  some, ok, arith, length, All, IsBit, bit_or, bit_xor, bit_or_fields, join_two, ==_refl,
}
use spectracuda.Numpy.{Packing}
use spectracuda.Numpy.Bytes.{IsByte, unpackbits-IsBit, packbits-unpackbits, length-unpackbits}
use spectracuda.Framing.Schemes.{
  mod_scheme_codes, crc_scheme_codes, fec_scheme_codes, code_of, name_of, code_of-range,
  name_of-code_of,
}
use spectracuda.Framing.Header.{FrameHeader, xor_bits, read_bytes, encode_bits, decode_bits}

xor_twice : (a b : ℕ) → a < 2 → b < 2 → bit_xor (bit_xor a b) b ≡ a
xor_twice zero zero h k = refl
xor_twice zero (suc zero) h k = refl
xor_twice (suc zero) zero h k = refl
xor_twice (suc zero) (suc zero) h k = refl
xor_twice (suc (suc a)) b h k = absurd (omega arith)
xor_twice a (suc (suc b)) h k = absurd (omega arith)

xor_bits_twice :
    (bits mask : List ℕ)
    → All IsBit bits
    → All IsBit mask
    → length bits ≡ length mask
    → xor_bits (xor_bits bits mask) mask ≡ bits
xor_bits_twice [] [] h k e = refl
xor_bits_twice [] (b ∷ mask) h k e = refl
xor_bits_twice (a ∷ bits) [] h k e = absurd (omega arith)
xor_bits_twice (a ∷ bits) (b ∷ mask) h k e =
    ap₂ ◌∷◌ (xor_twice a b h.0 k.0) (xor_bits_twice bits mask h.1 k.1 (omega arith))

length-xor_bits :
    (bits mask : List ℕ) → length bits ≡ length mask → length (xor_bits bits mask) ≡ length mask
length-xor_bits [] [] e = refl
length-xor_bits [] (b ∷ mask) e = absurd (omega arith)
length-xor_bits (a ∷ bits) [] e = absurd (omega arith)
length-xor_bits (a ∷ bits) (b ∷ mask) e = ap suc (length-xor_bits bits mask (omega arith))

module _ (np : Packing) where
  -- Bytes are read back through the mask.
  unscrambled :
      (mask bytes : List ℕ)
      → All IsByte bytes
      → All IsBit mask
      → length mask ≡ 8 * length bytes
      → decode_bits np mask (xor_bits (np.unpackbits bytes) mask) ≡ read_bytes bytes
  unfolding decode_bits
  unscrambled mask bytes h k e =
      let same : length (np.unpackbits bytes) ≡ length mask =
        length-unpackbits np bytes h ∙ sym e in
      rw
        (
          length-xor_bits (np.unpackbits bytes) mask same,
          ==_refl (length mask),
          xor_bits_twice (np.unpackbits bytes) mask (unpackbits-IsBit np bytes h) k same,
          packbits-unpackbits np bytes h,
        )
        refl

join_codes : (c f : ℕ) → f < 32 → bit_or (c % 8 * 2 ^ 5) (f % 32) ≡ c % 8 * 2 ^ 5 + f % 32
join_codes c f h = bit_or_fields 5 (c % 8) (f % 32) (omega arith)

mod_scheme-range : (name : String) (code : ℕ) → code_of name mod_scheme_codes ≡ some code → code < 5
mod_scheme-range name code e = (code_of-range name 0 5 mod_scheme_codes code (omega arith) e).1

crc_scheme-range : (name : String) (code : ℕ) → code_of name crc_scheme_codes ≡ some code → code < 8
crc_scheme-range name code e = (code_of-range name 0 8 crc_scheme_codes code (omega arith) e).1

fec_scheme-range :
    (name : String) (code : ℕ) → code_of name fec_scheme_codes ≡ some code → code < 32
fec_scheme-range name code e = (code_of-range name 0 32 fec_scheme_codes code (omega arith) e).1

fec_scheme-name :
    (name : String) (code read : ℕ)
    → read ≡ code
    → code_of name fec_scheme_codes ≡ some code
    → name_of read fec_scheme_codes ≡ some name
fec_scheme-name name code read s e =
    ap (λ (c : ℕ). name_of c fec_scheme_codes) s
    ∙ name_of-code_of name 0 32 fec_scheme_codes code (omega arith) e

crc_scheme-name :
    (name : String) (code read : ℕ)
    → read ≡ code
    → code_of name crc_scheme_codes ≡ some code
    → name_of read crc_scheme_codes ≡ some name
crc_scheme-name name code read s e =
    ap (λ (c : ℕ). name_of c crc_scheme_codes) s
    ∙ name_of-code_of name 0 8 crc_scheme_codes code (omega arith) e

-- The fields that can be sent, and their codes.
pub record IsFrame (h : FrameHeader) : Type 0 where
  pub version : h.version ≡ 1
  pub length_fits : h.payload_len_bits < 65536
  pub mod_code : ℕ
  pub crc_code : ℕ
  pub fec0_code : ℕ
  pub fec1_code : ℕ
  pub mod_known : code_of h.mod_scheme mod_scheme_codes ≡ some mod_code
  pub crc_known : code_of h.crc crc_scheme_codes ≡ some crc_code
  pub fec0_known : code_of h.fec0 fec_scheme_codes ≡ some fec0_code
  pub fec1_known : code_of h.fec1 fec_scheme_codes ≡ some fec1_code
  pub user_length : length h.user_data ≡ 8
  pub user_bytes : All IsByte h.user_data

module _ (h : FrameHeader) (v : IsFrame h) where
  bytes_of : List ℕ
  bytes_of =
      1
      ∷ h.payload_len_bits / 2 ^ 8 % 256
      ∷ h.payload_len_bits % 256
      ∷ v.mod_code
      ∷ bit_or (v.crc_code % 8 * 2 ^ 5) (v.fec0_code % 32)
      ∷ v.fec1_code % 32
      ∷ h.user_data

  codes_join : bit_or (v.crc_code % 8 * 2 ^ 5) (v.fec0_code % 32) ≡ v.crc_code * 32 + v.fec0_code
  codes_join =
      join_codes v.crc_code v.fec0_code (fec_scheme-range h.fec0 v.fec0_code v.fec0_known)
      ∙ omega (
        arith,
        crc_scheme-range h.crc v.crc_code v.crc_known,
        fec_scheme-range h.fec0 v.fec0_code v.fec0_known,
      )

  bytes_of-IsByte : All IsByte bytes_of
  unfolding bytes_of
  bytes_of-IsByte = (
    omega arith,
    (
      omega arith,
      (
        omega arith,
        (
          omega (arith, mod_scheme-range h.mod_scheme v.mod_code v.mod_known),
          (
            omega (
              arith,
              codes_join,
              crc_scheme-range h.crc v.crc_code v.crc_known,
              fec_scheme-range h.fec0 v.fec0_code v.fec0_known,
            ),
            (omega arith, v.user_bytes),
          ),
        ),
      ),
    ),
  )

  read_bytes-bytes_of : read_bytes bytes_of ≡ ok h
  unfolding bytes_of
  read_bytes-bytes_of =
      let f0 : v.fec0_code < 32 = fec_scheme-range h.fec0 v.fec0_code v.fec0_known in
      let f1 : v.fec1_code < 32 = fec_scheme-range h.fec1 v.fec1_code v.fec1_known in
      let c : v.crc_code < 8 = crc_scheme-range h.crc v.crc_code v.crc_known in
      rw
        (
          name_of-code_of h.mod_scheme 0 5 mod_scheme_codes v.mod_code (omega arith) v.mod_known,
          crc_scheme-name h.crc v.crc_code
              (bit_or (v.crc_code % 8 * 2 ^ 5) (v.fec0_code % 32) / 2 ^ 5 % 8)
              (omega (arith, codes_join, f0, c)) v.crc_known,
          fec_scheme-name h.fec0 v.fec0_code
              (bit_or (v.crc_code % 8 * 2 ^ 5) (v.fec0_code % 32) % 32)
              (omega (arith, codes_join, f0, c)) v.fec0_known,
          fec_scheme-name h.fec1 v.fec1_code (v.fec1_code % 32 % 32) (omega (arith, f1))
              v.fec1_known,
        )
        (ap ok (λ i. record {
          version = sym v.version i;
          payload_len_bits = join_two h.payload_len_bits v.length_fits i;
          mod_scheme = h.mod_scheme;
          crc = h.crc;
          fec0 = h.fec0;
          fec1 = h.fec1;
          user_data = h.user_data;
        }))

  encode_bits-eq_ok :
      (np : Packing) (mask : List ℕ)
      → encode_bits np mask h.payload_len_bits h.mod_scheme h.fec0 (some h.user_data) h.crc h.fec1
        ≡ ok (xor_bits (np.unpackbits bytes_of) mask)
  unfolding encode_bits bytes_of
  encode_bits-eq_ok np mask =
      rw
        (
          lt→ltb h.payload_len_bits (2 ^ 16) v.length_fits,
          v.mod_known,
          v.fec0_known,
          v.fec1_known,
          v.crc_known,
          v.user_length,
        )
        refl

-- With a mask of 112 bits, a header of known schemes, a length below 65536 and 8 bytes of user data is
-- encoded, and decoding gives its fields back, with the version of the protocol.
pub decode_bits-encode_bits :
    (np : Packing) (mask : List ℕ) (h : FrameHeader)
    → All IsBit mask
    → length mask ≡ 112
    → IsFrame h
    → (bits : List ℕ) × (encode_bits np mask h.payload_len_bits h.mod_scheme h.fec0
          (some h.user_data)
          h.crc
          h.fec1
        ≡ ok bits)
      × (decode_bits np mask bits ≡ ok h)
unfolding bytes_of
decode_bits-encode_bits np mask h k e v = (
  xor_bits (np.unpackbits (bytes_of h v)) mask,
  encode_bits-eq_ok h v np mask,
  unscrambled np mask (bytes_of h v) (bytes_of-IsByte h v) k (omega (arith, e, v.user_length))
      ∙ read_bytes-bytes_of h v,
)
