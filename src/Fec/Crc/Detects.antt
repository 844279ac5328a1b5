-- ===== src/Fec/Crc/Detects.antt =====
-- A message in which one byte is wrong does not fit its key.
use mathlib.Core.Path.{subst}
use spectracuda.Common.{
  ℕ, ◌+◌, ◌-◌, ◌%◌, ◌^◌, ◌<◌, ◌≡◌, ◌≢◌, refl, sym, ap, ap₂, ◌∙◌, List, [], ◌∷◌, ◌++◌, map, Bool,
  false, ok, ◌==◌, arith, length, length-append, take, drop, take_append, drop_append, replicate,
  zip_with, All-middle, bit_and, bit_and_mask, All,
}
use spectracuda.Numpy.Bytes.{IsByte}
use spectracuda.Fec.Codes.{batch, IsBlock, All-imp}
use spectracuda.Fec.Crc.{
  CrcScheme, no_crc, checksum, crc8, crc16, crc24, crc32, reg_mask, key_length, key_bytes, with_key,
  build_table, row_loop, final_key, sum, checksum_key, generate_key, check_key, received_key,
}
use spectracuda.Fec.Crc.Key.{key_of, key_of-lt, generate_key_rows}
use spectracuda.Fec.Crc.Keyed.{received_key-key_bytes, length-key_bytes}
use spectracuda.Fec.Crc.Check.{is_valid, check_key_rows}
use spectracuda.Fec.Crc.Bytewise.{
  shr, row_loop_wrong, row_loop-lt, table8, table16, table24, table32,
}

checksum_key-mod : (row : List ℕ) → checksum_key row ≡ (256 - sum row % 256) % 256
unfolding checksum_key
checksum_key-mod row =
    rw
      (
        bit_and_mask 8 (sum row % 2 ^ 64),
        bit_and_mask 8 ((2 ^ 64 - 1 - sum row % 2 ^ 64 % 256 + 1) % 2 ^ 64),
      )
      (omega arith)

sum-append : (xs ys : List ℕ) → sum (xs ++ ys) ≡ sum xs + sum ys
unfolding sum
sum-append [] ys = omega arith
sum-append (x ∷ xs) ys = omega (arith, sum-append xs ys)

final-mod : (w k : ℕ) → final_key (2 ^ w - 1) k ≡ (2 ^ 64 - 1 - k) % 2 ^ 32 % 2 ^ w
unfolding final_key
final-mod w k =
    bit_and_mask w (bit_and (2 ^ 64 - 1 - k) reg_mask)
    ∙ ap (λ (t : ℕ). t % 2 ^ w) (bit_and_mask 32 (2 ^ 64 - 1 - k))

same_final8 :
    (a c : ℕ)
    → a < 2 ^ 32
    → c < 2 ^ 32
    → final_key (2 ^ 8 - 1) a ≡ final_key (2 ^ 8 - 1) c
    → shr 1 a ≡ shr 1 c
    → a ≡ c
same_final8 a c ha hc e high = omega (arith, final-mod 8 a, final-mod 8 c)

same_final16 :
    (a c : ℕ)
    → a < 2 ^ 32
    → c < 2 ^ 32
    → final_key (2 ^ 16 - 1) a ≡ final_key (2 ^ 16 - 1) c
    → shr 2 a ≡ shr 2 c
    → a ≡ c
same_final16 a c ha hc e high = omega (arith, final-mod 16 a, final-mod 16 c)

same_final24 :
    (a c : ℕ)
    → a < 2 ^ 32
    → c < 2 ^ 32
    → final_key (2 ^ 24 - 1) a ≡ final_key (2 ^ 24 - 1) c
    → shr 3 a ≡ shr 3 c
    → a ≡ c
same_final24 a c ha hc e high = omega (arith, final-mod 24 a, final-mod 24 c)

same_final32 :
    (a c : ℕ)
    → a < 2 ^ 32
    → c < 2 ^ 32
    → final_key (2 ^ 32 - 1) a ≡ final_key (2 ^ 32 - 1) c
    → shr 4 a ≡ shr 4 c
    → a ≡ c
same_final32 a c ha hc e high = omega (arith, final-mod 32 a, final-mod 32 c)

-- The keys of two messages that differ in a byte.
key_of-wrong :
    (scheme : CrcScheme) (before after : List ℕ) (x y : ℕ)
    → scheme ≢ no_crc
    → All IsByte (before ++ x ∷ after)
    → y < 256
    → x ≢ y
    → key_of scheme (before ++ x ∷ after) ≢ key_of scheme (before ++ y ∷ after)
unfolding sum
key_of-wrong no_crc before after x y some h hy apart e = absurd (some refl)
key_of-wrong checksum before after x y some h hy apart e = apart (
    omega (
      arith,
      checksum_key-mod (before ++ x ∷ after),
      checksum_key-mod (before ++ y ∷ after),
      sum-append before (x ∷ after),
      sum-append before (y ∷ after),
      All-middle IsByte before after x h,
    ))
key_of-wrong crc8 before after x y some h hy apart e =
    let a =
      row_loop_wrong (build_table crc8) 0 table8 before after x y reg_mask (omega arith) h hy
        apart in
    a.0 (
      same_final8 (row_loop (build_table crc8) (before ++ x ∷ after) reg_mask)
        (row_loop (build_table crc8) (before ++ y ∷ after) reg_mask)
        (row_loop-lt (build_table crc8) 0 table8 (before ++ x ∷ after) reg_mask (omega arith))
        (row_loop-lt (build_table crc8) 0 table8 (before ++ y ∷ after) reg_mask (omega arith)) e
        a.1)
key_of-wrong crc16 before after x y some h hy apart e =
    let a =
      row_loop_wrong (build_table crc16) 1 table16 before after x y reg_mask (omega arith) h hy
        apart in
    a.0 (
      same_final16 (row_loop (build_table crc16) (before ++ x ∷ after) reg_mask)
        (row_loop (build_table crc16) (before ++ y ∷ after) reg_mask)
        (row_loop-lt (build_table crc16) 1 table16 (before ++ x ∷ after) reg_mask (omega arith))
        (row_loop-lt (build_table crc16) 1 table16 (before ++ y ∷ after) reg_mask (omega arith)) e
        a.1)
key_of-wrong crc24 before after x y some h hy apart e =
    let a =
      row_loop_wrong (build_table crc24) 2 table24 before after x y reg_mask (omega arith) h hy
        apart in
    a.0 (
      same_final24 (row_loop (build_table crc24) (before ++ x ∷ after) reg_mask)
        (row_loop (build_table crc24) (before ++ y ∷ after) reg_mask)
        (row_loop-lt (build_table crc24) 2 table24 (before ++ x ∷ after) reg_mask (omega arith))
        (row_loop-lt (build_table crc24) 2 table24 (before ++ y ∷ after) reg_mask (omega arith)) e
        a.1)
key_of-wrong crc32 before after x y some h hy apart e =
    let a =
      row_loop_wrong (build_table crc32) 3 table32 before after x y reg_mask (omega arith) h hy
        apart in
    a.0 (
      same_final32 (row_loop (build_table crc32) (before ++ x ∷ after) reg_mask)
        (row_loop (build_table crc32) (before ++ y ∷ after) reg_mask)
        (row_loop-lt (build_table crc32) 3 table32 (before ++ x ∷ after) reg_mask (omega arith))
        (row_loop-lt (build_table crc32) 3 table32 (before ++ y ∷ after) reg_mask (omega arith)) e
        a.1)

different : (a c : ℕ) → a ≢ c → (a == c) ≡ false
different a c h = ground (arith, h)

-- One byte of a row is another byte.
abbrev pub OneByteOff : List ℕ → List ℕ → Type 0
OneByteOff row wrong =
    (before : List ℕ) × (x : ℕ) × (y : ℕ) × (after : List ℕ) × (row ≡ before ++ x ∷ after)
    × (wrong ≡ before ++ y ∷ after)
    × (y < 256)
    × (x ≢ y)

abbrev pub EachOff : List (List ℕ) → List (List ℕ) → Type 0
EachOff [] [] = Unit
EachOff (row ∷ rows) (wrong ∷ wrongs) = OneByteOff row wrong × EachOff rows wrongs
EachOff rows wrongs = ⊥

module _ (scheme : CrcScheme) (some : scheme ≢ no_crc) (w : ℕ) where
  off_key :
      (row wrong : List ℕ)
      → All IsByte row
      → OneByteOff row wrong
      → key_of scheme row ≢ key_of scheme wrong
  off_key row wrong h o e =
      key_of-wrong scheme o.0 o.3 o.1 o.2 some (subst (All IsByte) o.4 h) o.6 o.7
        (sym (ap (key_of scheme) o.4) ∙ (e ∙ ap (key_of scheme) o.5))

  off_length : (row wrong : List ℕ) → OneByteOff row wrong → length wrong ≡ length row
  off_length row wrong o =
      ap length o.5
      ∙ (length-append o.0 (o.2 ∷ o.3)
          ∙ (sym (length-append o.0 (o.1 ∷ o.3)) ∙ sym (ap length o.4)))

  off-is_valid :
      (row wrong : List ℕ)
      → IsBlock IsByte w row
      → OneByteOff row wrong
      → is_valid scheme w (with_key scheme wrong (key_of scheme row)) ≡ false
  off-is_valid row wrong h o =
      let len : length wrong ≡ w = off_length row wrong o ∙ h.0 in
      let key : ℕ = key_of scheme row in
      let bytes : List ℕ = key_bytes (key_length scheme) key in
      let front : take w (wrong ++ bytes) ≡ wrong =
        ap (λ (n : ℕ). take n (wrong ++ bytes)) (sym len) ∙ take_append wrong bytes in
      let behind : received_key 0 (drop w (wrong ++ bytes)) ≡ key =
        ap (λ (n : ℕ). received_key 0 (drop n (wrong ++ bytes))) (sym len)
        ∙ (ap (received_key 0) (drop_append wrong bytes)
            ∙ received_key-key_bytes scheme key (key_of-lt scheme row)) in
      ap₂ ◌==◌ (ap (key_of scheme) front) behind
      ∙ different (key_of scheme wrong) key (λ e. off_key row wrong h.1 o (sym e))

  off_rows :
      (rows wrongs : List (List ℕ))
      → All (IsBlock IsByte w) rows
      → EachOff rows wrongs
      → (map (is_valid scheme w) (zip_with (with_key scheme) wrongs (map (key_of scheme) rows))
          ≡ replicate (length rows) false)
        × All
            (λ (row : List ℕ). length row ≡ w + key_length scheme)
            (zip_with (with_key scheme) wrongs (map (key_of scheme) rows))
  off_rows [] [] h o = (refl, tt)
  off_rows [] (wrong ∷ wrongs) h o = absurd o
  off_rows (row ∷ rows) [] h o = absurd o
  off_rows (row ∷ rows) (wrong ∷ wrongs) h o =
      let rest = off_rows rows wrongs h.1 o.1 in
      (
        ap₂ ◌∷◌ (off-is_valid row wrong h.0 o.0) rest.0,
        (
          length-append wrong (key_bytes (key_length scheme) (key_of scheme row))
              ∙ ap₂ ◌+◌ (off_length row wrong o.0 ∙ h.0.0)
                  (length-key_bytes (key_length scheme) (key_of scheme row)),
          rest.1,
        ),
      )

-- Under every scheme but none: if one byte of each message arrives wrong and the keys arrive as they
-- were generated, `check_key` says of each message that it is not valid, whether or not either end
-- uses the compiled kernel.
pub check_key-detects :
    (sender receiver : Bool) (scheme : CrcScheme) (w : ℕ) (rows wrongs : List (List ℕ))
    → scheme ≢ no_crc
    → All (IsBlock IsByte w) rows
    → EachOff rows wrongs
    → check_key receiver scheme (
        batch
          (w + key_length scheme)
          (zip_with (with_key scheme) wrongs (generate_key sender scheme (batch w rows))))
      ≡ ok (replicate (length rows) false)
check_key-detects sender receiver scheme w rows wrongs some h o =
    let off = off_rows scheme some w rows wrongs h o in
    let back : w + key_length scheme - key_length scheme ≡ w = omega arith in
    rw (generate_key_rows sender scheme (batch w rows) (All-imp rows (λ row e. e.0) h)) (
      check_key_rows receiver scheme
        (batch (w + key_length scheme)
          (zip_with (with_key scheme) wrongs (map (key_of scheme) rows)))
        off.1 (omega arith)
      ∙ rw back (ap ok off.0))
