-- ===== src/Mac/Quality/Report.antt =====
-- A report survives the trip.
use spectracuda.Common.{
  le→leb, ℕ, ◌-◌, ◌*◌, ◌/◌, ◌%◌, ◌^◌, ◌<◌, ◌≤◌, ◌≡◌, ◌∙◌, refl, sym, ap, List, [], ◌∷◌, ◌++◌, arith,
  ℤ, pos, negsuc, ok, take, drop, min, bits_of, join_two, append-nil, leb, if◌then◌else◌, true,
}
use spectracuda.Numpy.{Packing}
use spectracuda.Mac.Pdu.{Header}
use spectracuda.Mac.Pdu.RoundTrip.{header_bits, encode_header-eq_ok, decode_header-eq_ok}
use spectracuda.Mac.Pdu.RoundTrip.{take-header_bits, drop-header_bits}
use spectracuda.Mac.Quality.{
  Floats, Stats, clamp_i16, clamp_u16, low_16, in_i16, two_bytes, u16, i16, read_u16, read_i16,
  delivered_ratio, encode_quality_report, decode_quality_report,
}

abbrev bits_16 : ℕ → List ℕ
bits_16 v = bits_of 8 (v / 2 ^ 8 % 256) ++ bits_of 8 (v % 256)

low_16-lt : (z : ℤ) → low_16 z < 65536
low_16-lt (pos n) = omega arith
low_16-lt (negsuc n) = omega arith

in_i16-clamp_i16 : (z : ℤ) → in_i16 (clamp_i16 z) ≡ true
in_i16-clamp_i16 (pos n) = ground arith
in_i16-clamp_i16 (negsuc n) = ground arith

clamp_u16-lt : (z : ℤ) → clamp_u16 z < 65536
clamp_u16-lt (pos n) = omega arith
clamp_u16-lt (negsuc n) = omega arith

abbrev signed : ℕ → ℤ
signed v = if leb 32768 v then negsuc (65535 - v) else pos v

signed_pos : (v : ℕ) → v ≤ 32767 → signed v ≡ pos v
signed_pos v h = ground arith

signed_neg : (v : ℕ) → 32768 ≤ v → signed v ≡ negsuc (65535 - v)
signed_neg v h = ground arith

signed-low_16 : (z : ℤ) → signed (low_16 (clamp_i16 z)) ≡ clamp_i16 z
signed-low_16 (pos n) = signed_pos (min 32767 n % 65536) (omega arith) ∙ ap pos (omega arith)
signed-low_16 (negsuc n) =
    signed_neg (65535 - min 32767 n % 65536) (omega arith) ∙ ap negsuc (omega arith)

abbrev report_header : Header
report_header = record { pdu_type = 4; si = 0; sn = 0; so = 0 }

module _ (np : Packing) where
  u16-eq_ok : (v : ℕ) → v < 65536 → u16 np v ≡ ok (bits_16 v)
  unfolding u16
  u16-eq_ok v h =
      rw
        (
          le→leb v 65535 (omega arith),
          np.unpackbits-cons (v / 2 ^ 8 % 256) (v % 256 ∷ []) (omega arith),
          np.unpackbits-cons (v % 256) [] (omega arith),
          np.unpackbits-nil,
        )
        refl

  i16-eq_ok : (z : ℤ) → in_i16 z ≡ true → i16 np z ≡ ok (bits_16 (low_16 z))
  unfolding i16
  i16-eq_ok z h = rw h (u16-eq_ok (low_16 z) (low_16-lt z))

  read_u16-at :
      (bits : List ℕ) (offset v : ℕ)
      → v < 65536
      → take 16 (drop (offset * 8) bits) ≡ bits_16 v
      → read_u16 np bits offset ≡ ok v
  unfolding read_u16
  read_u16-at bits offset v h e =
      ap (λ (t : List ℕ). two_bytes (np.packbits t)) (e ∙ sym (append-nil (bits_16 v)))
      ∙ (ap two_bytes (
            np.packbits-append (v / 2 ^ 8 % 256) (bits_of 8 (v % 256)) (omega arith)
            ∙ ap (λ (t : List ℕ). v / 2 ^ 8 % 256 ∷ t)
                (ap np.packbits (sym (append-nil (bits_of 8 (v % 256))))
                  ∙ np.packbits-append (v % 256) [] (omega arith)))
          ∙ ap ok (join_two v h))

  read_i16-at :
      (bits : List ℕ) (offset : ℕ) (z : ℤ)
      → take 16 (drop (offset * 8) bits) ≡ bits_16 (low_16 (clamp_i16 z))
      → read_i16 np bits offset ≡ ok (clamp_i16 z)
  unfolding read_i16
  read_i16-at bits offset z e =
      rw (read_u16-at bits offset (low_16 (clamp_i16 z)) (low_16-lt (clamp_i16 z)) e)
        (ap ok (signed-low_16 z))

  -- A report whose means are finite numbers is sent, and the peer reads the counters, clamped to
  -- 65535, the ratio of the two, and the means rounded to the resolution and clamped to the range
  -- of their fields.
  pub decode_quality_report-encode_quality_report :
      {F : Type 0} (floats : Floats F) (stats : Stats F) (rssi evm : ℤ)
      → floats.scaled_round stats.mean_rssi_db 100 ≡ ok rssi
      → floats.scaled_round stats.mean_evm 10000 ≡ ok evm
      → (pdu : List ℕ) × (encode_quality_report np floats stats ≡ ok pdu)
        × (decode_quality_report np floats pdu
            ≡ ok (record {
              n_attempts = min stats.n_attempts 65535;
              n_delivered = min stats.n_delivered 65535;
              delivered_ratio =
                  delivered_ratio floats (min stats.n_delivered 65535) (min stats.n_attempts 65535);
              mean_rssi_db = floats.fixed_point (clamp_i16 rssi) 100;
              mean_evm = floats.fixed_point (pos (clamp_u16 evm)) 10000;
            }))
  unfolding encode_quality_report decode_quality_report
  decode_quality_report-encode_quality_report floats stats rssi evm hr he =
      let a : ℕ = min stats.n_attempts 65535 in
      let d : ℕ = min stats.n_delivered 65535 in
      let payload : List ℕ =
        bits_16 a
        ++ (bits_16 d ++ (bits_16 (low_16 (clamp_i16 rssi)) ++ bits_16 (clamp_u16 evm))) in
      (
        header_bits report_header ++ payload,
        rw
            (
              hr,
              he,
              encode_header-eq_ok report_header (omega arith),
              u16-eq_ok a (omega arith),
              u16-eq_ok d (omega arith),
              i16-eq_ok (clamp_i16 rssi) (in_i16-clamp_i16 rssi),
              u16-eq_ok (clamp_u16 evm) (clamp_u16-lt evm),
            )
            refl,
        rw
            (
              take-header_bits report_header payload,
              decode_header-eq_ok report_header (omega arith),
              drop-header_bits report_header payload,
            )
            (rw
              (
                read_u16-at payload 0 a (omega arith) refl,
                read_u16-at payload 2 d (omega arith) refl,
                read_i16-at payload 4 rssi refl,
                read_u16-at payload 6 (clamp_u16 evm) (clamp_u16-lt evm) refl,
              )
              refl),
      )
