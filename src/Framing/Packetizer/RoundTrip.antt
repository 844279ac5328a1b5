-- ===== src/Framing/Packetizer/RoundTrip.antt =====
-- What the packetizer sends it reads back.
use mathlib.Core.Path.{subst}
use spectracuda.Common.{
  ℕ, ◌+◌, ◌*◌, ◌%◌, ◌≤◌, ◌≡◌, refl, List, map, ◌>>=◌, require, is_some, not, ◌&&◌, Option, none,
  some, ok, arith, length, IsBit, length-map, ==_iff, ◌==◌,
}
use spectracuda.Numpy.{Batch}
use spectracuda.Fec.Codes.{batch, All-map}
use spectracuda.Fec.Crc.{CrcScheme}
use spectracuda.Fec.Wrapper
use spectracuda.Fec.Wrapper.{Fec}
use spectracuda.Fec.Wrapper.Lengths.{IsFec}
use spectracuda.Fec.Wrapper.RoundTrip.{FitsMessage}
use spectracuda.Fec.Wrapper.Every.{IsLawful, Takes, least_rows, fec-IsCode}
use spectracuda.Interleaver
use spectracuda.Interleaver.{Interleaver}
use spectracuda.Interleaver.Schemes.{Scheme, interleaver}
use spectracuda.Interleaver.Inverse.{
  interleaver-IsInterleaver, restored, interleaved, interleaved-IsBlock, length-perm,
}
use spectracuda.Framing.Packetizer.{
  Packages, Packetizer, crc_key_length_bytes, length_after, encoded_length, fec_encode, interleave,
  encode, fec_decode, deinterleave, decode,
}
use spectracuda.Framing.Packetizer.Keys.{
  IsBitRow, IsBits, lengths_of, crc_rows, TakesCrc, all_valid, crc_stage,
}

-- A codec that is lawful, if there is one, and the widths that it takes.
abbrev pub IsCodec : Option Fec → Type 0
IsCodec none = Unit
IsCodec (some f) = IsFec f × IsLawful f

abbrev pub TakesFec : Option Fec → ℕ → Type 0
TakesFec none w = Unit
TakesFec (some f) w = FitsMessage (Takes f) w

-- The fewest rows that it takes.
abbrev pub fec_rows : Option Fec → ℕ
fec_rows none = 0
fec_rows (some f) = least_rows f

fec_stage :
    (py : Packages) (codec : Option Fec) (w : ℕ) (rows : List (List ℕ))
    → IsCodec codec
    → TakesFec codec w
    → fec_rows codec ≤ length rows
    → IsBits w rows
    → (coded : List (List ℕ)) × (fec_encode py codec (batch w rows)
        ≡ ok (batch (length_after codec w) coded))
      × IsBits (length_after codec w) coded
      × (fec_decode py codec (batch (length_after codec w) coded) ≡ ok (batch w rows))
      × (length coded ≡ length rows)
fec_stage py none w rows law fits filled h = (rows, refl, h, refl, refl)
fec_stage py (some f) w rows law fits filled h =
    let made = fec-IsCode py.packing f law.0 law.1 in
    (
      map made.code rows,
      made.encodes w rows fits filled h,
      All-map (IsBitRow (Wrapper.encoded_length f w)) made.code rows
          (λ row. made.code-IsBlock w row fits) h,
      made.decodes w rows fits filled h,
      length-map rows made.code,
    )

-- The interleaver of the width that it meets can be made, if there is one.
abbrev pub IsMade : Packages → Option Scheme → ℕ → Type 0
IsMade py none w = Unit
IsMade py (some scheme) w = (il : Interleaver) × (interleaver py.sources scheme w ≡ ok il)

interleaver_stage :
    (py : Packages) (scheme : Option Scheme) (w : ℕ) (rows : List (List ℕ))
    → IsMade py scheme w
    → IsBits w rows
    → (moved : List (List ℕ)) × (interleave py scheme (batch w rows) ≡ ok (batch w moved))
      × IsBits w moved
      × (deinterleave py scheme (batch w moved) ≡ ok (batch w rows))
      × (length moved ≡ length rows)
interleaver_stage py none w rows made h = (rows, refl, h, refl, refl)
interleaver_stage py (some scheme) w rows made h =
    let valid = interleaver-IsInterleaver py.sources scheme w made.0 made.1 in
    let both =
      restored py.sources.sorting w made.0 (batch w rows) valid (lengths_of IsBit w rows h) refl in
    let long : length made.0.perm ≡ w = length-perm w made.0.perm valid.bijective in
    let sent = (interleaved made.0 (batch w rows)).rows in
    (
      sent,
      rw (made.1, both.0, long) refl,
      subst (λ (n : ℕ). IsBits n sent) long
          (interleaved-IsBlock IsBit made.0 w rows (omega arith) h),
      rw made.1 (
          subst (λ (n : ℕ). Interleaver.decode made.0 (batch n sent) ≡ ok (batch w rows)) long
            both.1),
      length-map rows (Interleaver.gather made.0.perm),
    )

abbrev pub length_with_crc : Packetizer → ℕ → ℕ
length_with_crc p w = w + crc_key_length_bytes p.crc_codec * 8

abbrev pub length_after_fec0 : Packetizer → ℕ → ℕ
length_after_fec0 p w = length_after p.fec_codec (length_with_crc p w)

-- The codecs are lawful, and each of them takes the width that it meets and a batch of `n` rows.
pub record IsSendable (py : Packages) (p : Packetizer) (w n : ℕ) : Type 0 where
  pub crc_takes : TakesCrc p.crc_codec w
  pub fec_codec : IsCodec p.fec_codec
  pub fec_takes : TakesFec p.fec_codec (length_with_crc p w)
  pub fec_filled : fec_rows p.fec_codec ≤ n
  pub made : IsMade py p.scheme (length_after_fec0 p w)
  pub fec1_codec : IsCodec p.fec1_codec
  pub fec1_takes : TakesFec p.fec1_codec (length_after_fec0 p w)
  pub fec1_filled : fec_rows p.fec1_codec ≤ n

encoded_length_lem :
    (p : Packetizer) (w : ℕ)
    → TakesCrc p.crc_codec w
    → encoded_length p w ≡ ok (length_after p.fec1_codec (length_after_fec0 p w))
unfolding encoded_length
encoded_length_lem p w h =
    elim p.crc_codec
        as (λ (c : Option CrcScheme).
          TakesCrc c w
          → (require (not (is_some c && not (w % 8 == 0))) >>= λ u. ok (
              length_after p.fec1_codec
                (length_after p.fec_codec (w + crc_key_length_bytes c * 8))))
            ≡ ok (
                length_after p.fec1_codec
                  (length_after p.fec_codec (w + crc_key_length_bytes c * 8)))) [
                    | none ↦ λ e. refl
                    | some scheme ↦ λ e. rw ((==_iff (w % 8) 0).1 e) refl
                  ]
      h

-- A packetizer over lawful codes, and a batch of rows of bits that each of its stages takes, by its
-- width and, under `rs_m8`, for having a row:
-- `encode` returns a batch, of the width that `encoded_length` tells; `decode` of that batch returns
-- the batch that was encoded, and with a CRC it reports every row as valid, without one nothing.
pub packetizer_round_trip :
    (py : Packages) (p : Packetizer) (w : ℕ) (rows : List (List ℕ))
    → IsSendable py p w (length rows)
    → IsBits w rows
    → (sent : Batch) × (encode py p (batch w rows) ≡ ok sent)
      × (encoded_length p w ≡ ok sent.width)
      × (decode py p sent
          ≡ ok (record { bits = batch w rows; crc_valid = all_valid p.crc_codec (length rows) }))
unfolding encode decode
packetizer_round_trip py p w rows s h =
    let keyed_part = crc_stage py p.crc_codec w rows s.crc_takes h in
    let inner =
      fec_stage py p.fec_codec (length_with_crc p w) (crc_rows py p.crc_codec rows) s.fec_codec
        s.fec_takes (omega (arith, s.fec_filled, keyed_part.3)) keyed_part.1 in
    let moved = interleaver_stage py p.scheme (length_after_fec0 p w) inner.0 s.made inner.2 in
    let outer =
      fec_stage py p.fec1_codec (length_after_fec0 p w) moved.0 s.fec1_codec s.fec1_takes
        (omega (arith, s.fec1_filled, keyed_part.3, inner.4, moved.4)) moved.2 in
    (
      batch (length_after p.fec1_codec (length_after_fec0 p w)) outer.0,
      rw (keyed_part.0, inner.1, moved.1) outer.1,
      encoded_length_lem p w s.crc_takes,
      rw (outer.3, moved.3, inner.3) keyed_part.2,
    )
