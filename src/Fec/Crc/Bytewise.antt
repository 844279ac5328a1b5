-- ===== src/Fec/Crc/Bytewise.antt =====
-- The step of the CRC register, byte by byte: registers that differ stay different.
use spectracuda.Common.{
  ℕ, zero, suc, ◌/◌, ◌%◌, ◌^◌, ◌<◌, ◌≡◌, ◌≢◌, refl, sym, ap, ap₂, ◌∙◌, List, [], ◌∷◌, ◌++◌, map,
  Bool, true, ◌==◌, ◌&&◌, if◌then◌else◌, ltb, arith, get_or, passes, tested, bit_and, bit_and_mask,
  bit_xor, half_xor, xor-lt, xor_cancel, xor_zero, xor_comm, All,
}
use spectracuda.Numpy.Bytes.{IsByte}
use spectracuda.Fec.Crc.{
  crc8, crc16, crc24, crc32, poly, reverse_rounds, word_rounds, table_round, table_rounds,
  build_table, next_key, row_loop,
}

-- Without its `n` low bytes.
abbrev pub shr : ℕ → ℕ → ℕ
shr zero x = x
shr (suc n) x = shr n (x / 256)

shr-last : (n x : ℕ) → shr (suc n) x ≡ shr n x / 256
shr-last zero x = refl
shr-last (suc n) x = shr-last n (x / 256)

halved : ℕ → ℕ → ℕ
halved zero x = x
halved (suc n) x = halved n (x / 2)

halved-xor : (n x y : ℕ) → halved n (bit_xor x y) ≡ bit_xor (halved n x) (halved n y)
unfolding halved
halved-xor zero x y = refl
halved-xor (suc n) x y = ap (halved n) (half_xor x y) ∙ halved-xor n (x / 2) (y / 2)

halved-byte : (x : ℕ) → halved 8 x ≡ x / 256
unfolding halved
halved-byte x = omega arith

byte_xor : (x y : ℕ) → bit_xor x y / 256 ≡ bit_xor (x / 256) (y / 256)
byte_xor x y =
    sym (halved-byte (bit_xor x y))
    ∙ (halved-xor 8 x y ∙ ap₂ bit_xor (halved-byte x) (halved-byte y))

shr-xor : (n x y : ℕ) → shr n (bit_xor x y) ≡ bit_xor (shr n x) (shr n y)
shr-xor zero x y = refl
shr-xor (suc n) x y = ap (shr n) (byte_xor x y) ∙ shr-xor n (x / 256) (y / 256)

xor_injective : (a x y : ℕ) → bit_xor a x ≡ bit_xor a y → x ≡ y
xor_injective a x y h = sym (xor_cancel a x) ∙ (ap (bit_xor a) h ∙ xor_cancel a y)

position : ℕ → List ℕ → ℕ
position v [] = 0
position v (x ∷ xs) = let rest = position v xs in if x == v then 0 else suc rest

mod_small : (x : ℕ) → x < 2 ^ 32 → x % 2 ^ 32 ≡ x
mod_small x h = omega arith

-- `m + 1` bytes: the table's entries have no more, and their first bytes are different.
module _ (table : List ℕ) (m : ℕ) where
  abbrev top : ℕ → ℕ
  top i = shr m (get_or table i 0)

  pub is_distinct : ℕ → Bool
  is_distinct i =
      (position (top i) (map (shr m) table) == i)
      && ((shr (suc m) (get_or table i 0) == 0) && ltb (get_or table i 0) (2 ^ 32))

  abbrev pub IsTable : Type 0
  IsTable = passes is_distinct 0 256 ≡ true

  -- Equal but for their low bytes, and not equal.
  abbrev pub Apart : ℕ → ℕ → Type 0
  Apart k1 k2 = (k1 ≢ k2) × (shr (suc m) k1 ≡ shr (suc m) k2)

  abbrev index : ℕ → ℕ → ℕ
  index k b = bit_and (bit_xor k b) 255

  module _ (is_table : IsTable) where
    entry_facts : (i : ℕ) → i < 256 → is_distinct i ≡ true
    entry_facts i h = tested is_distinct 256 0 i (omega arith) (omega arith) is_table

    entry-lt : (i : ℕ) → i < 256 → get_or table i 0 < 2 ^ 32
    unfolding is_distinct
    entry-lt i h = ground (arith, entry_facts i h)

    entry_short : (i : ℕ) → i < 256 → shr (suc m) (get_or table i 0) ≡ 0
    unfolding is_distinct
    entry_short i h = ground (arith, entry_facts i h)

    entry_place : (i : ℕ) → i < 256 → position (top i) (map (shr m) table) ≡ i
    unfolding is_distinct
    entry_place i h = ground (arith, entry_facts i h)

    same_index : (i j : ℕ) → i < 256 → j < 256 → top i ≡ top j → i ≡ j
    same_index i j hi hj e =
        sym (entry_place i hi)
        ∙ (ap (λ (t : ℕ). position t (map (shr m) table)) e ∙ entry_place j hj)

    index-lt : (k b : ℕ) → index k b < 256
    index-lt k b = rw (bit_and_mask 8 (bit_xor k b)) (omega arith)

    next-eq :
        (k b : ℕ) → k < 2 ^ 32 → next_key table k b ≡ bit_xor (k / 256) (get_or table (index k b) 0)
    unfolding next_key
    next-eq k b h =
        bit_and_mask 32 (bit_xor (k / 256) (get_or table (index k b) 0))
        ∙ mod_small (bit_xor (k / 256) (get_or table (index k b) 0)) (
            xor-lt 32 (k / 256) (get_or table (index k b) 0) (omega arith)
              (entry-lt (index k b) (index-lt k b)))

    pub next-lt : (k b : ℕ) → k < 2 ^ 32 → next_key table k b < 2 ^ 32
    next-lt k b h = rw (next-eq k b h) (
        xor-lt 32 (k / 256) (get_or table (index k b) 0) (omega arith)
          (entry-lt (index k b) (index-lt k b)))

    shr-next :
        (k b : ℕ)
        → k < 2 ^ 32
        → shr m (next_key table k b) ≡ bit_xor (shr m (k / 256)) (top (index k b))
    shr-next k b h = ap (shr m) (next-eq k b h) ∙ shr-xor m (k / 256) (get_or table (index k b) 0)

    shr-suc-next : (k b : ℕ) → k < 2 ^ 32 → shr (suc m) (next_key table k b) ≡ shr (suc m) (k / 256)
    shr-suc-next k b h =
        ap (shr (suc m)) (next-eq k b h)
        ∙ (shr-xor (suc m) (k / 256) (get_or table (index k b) 0)
            ∙ (ap (bit_xor (shr (suc m) (k / 256))) (entry_short (index k b) (index-lt k b))
                ∙ xor_zero (shr (suc m) (k / 256))))

    -- Two steps from registers that agree above their low bytes come to the same register only at one
    -- entry of the table.
    same_next :
        (k1 k2 b1 b2 : ℕ)
        → k1 < 2 ^ 32
        → k2 < 2 ^ 32
        → shr (suc m) k1 ≡ shr (suc m) k2
        → next_key table k1 b1 ≡ next_key table k2 b2
        → (index k1 b1 ≡ index k2 b2) × (k1 / 256 ≡ k2 / 256)
    same_next k1 k2 b1 b2 h1 h2 high e =
        let same = same_index (index k1 b1) (index k2 b2) (index-lt k1 b1) (index-lt k2 b2) (
          xor_injective (shr m (k1 / 256)) (top (index k1 b1)) (top (index k2 b2)) (
            sym (shr-next k1 b1 h1)
            ∙ (ap (shr m) e
                ∙ (shr-next k2 b2 h2
                    ∙ ap (λ (t : ℕ). bit_xor t (top (index k2 b2))) (sym high))))) in
        (
          same,
          xor_injective (get_or table (index k1 b1) 0) (k1 / 256) (k2 / 256) (
              xor_comm (get_or table (index k1 b1) 0) (k1 / 256)
              ∙ (sym (next-eq k1 b1 h1)
                  ∙ (e
                      ∙ (next-eq k2 b2 h2
                          ∙ (ap (λ (i : ℕ). bit_xor (k2 / 256) (get_or table i 0)) (sym same)
                              ∙ xor_comm (k2 / 256) (get_or table (index k1 b1) 0)))))),
        )

    same_sum : (a c : ℕ) → a / 256 ≡ c / 256 → bit_and a 255 ≡ bit_and c 255 → a ≡ c
    same_sum a c h l = omega (arith, h, l, bit_and_mask 8 a, bit_and_mask 8 c)

    above : (k b : ℕ) → b < 256 → bit_xor k b / 256 ≡ k / 256
    above k b h =
        byte_xor k b
        ∙ (ap (bit_xor (k / 256)) (let e : b / 256 ≡ 0 = omega arith in e) ∙ xor_zero (k / 256))

    pub next_Apart :
        (k1 k2 b : ℕ)
        → k1 < 2 ^ 32
        → k2 < 2 ^ 32
        → b < 256
        → Apart k1 k2
        → Apart (next_key table k1 b) (next_key table k2 b)
    next_Apart k1 k2 b h1 h2 hb a = (
      (λ e.
          let s = same_next k1 k2 b b h1 h2 a.1 e in
          a.0 (
            let sums =
              same_sum (bit_xor k1 b) (bit_xor k2 b) (above k1 b hb ∙ (s.1 ∙ sym (above k2 b hb)))
                s.0 in
            xor_injective b k1 k2 (xor_comm b k1 ∙ (sums ∙ xor_comm k2 b)))),
      shr-suc-next k1 b h1
          ∙ ((shr-last (suc m) k1 ∙ (ap (λ (t : ℕ). t / 256) a.1 ∙ sym (shr-last (suc m) k2)))
              ∙ sym (shr-suc-next k2 b h2)),
    )

    pub start_Apart :
        (k x y : ℕ)
        → k < 2 ^ 32
        → x < 256
        → y < 256
        → x ≢ y
        → Apart (next_key table k x) (next_key table k y)
    start_Apart k x y h hx hy apart = (
      (λ e.
          let s = same_next k k x y h h refl e in
          apart (
            xor_injective k x y
              (same_sum (bit_xor k x) (bit_xor k y) (above k x hx ∙ sym (above k y hy)) s.0))),
      shr-suc-next k x h ∙ sym (shr-suc-next k y h),
    )

    pub row_loop-Apart :
        (row : List ℕ) (k1 k2 : ℕ)
        → k1 < 2 ^ 32
        → k2 < 2 ^ 32
        → All IsByte row
        → Apart k1 k2
        → Apart (row_loop table row k1) (row_loop table row k2)
    unfolding row_loop
    row_loop-Apart [] k1 k2 h1 h2 h a = a
    row_loop-Apart (b ∷ row) k1 k2 h1 h2 h a =
        row_loop-Apart row (next_key table k1 b) (next_key table k2 b) (next-lt k1 b h1)
          (next-lt k2 b h2) h.1 (next_Apart k1 k2 b h1 h2 h.0 a)

    pub row_loop_wrong :
        (before after : List ℕ) (x y k : ℕ)
        → k < 2 ^ 32
        → All IsByte (before ++ x ∷ after)
        → y < 256
        → x ≢ y
        → Apart (row_loop table (before ++ x ∷ after) k) (row_loop table (before ++ y ∷ after) k)
    unfolding row_loop
    row_loop_wrong [] after x y k hk h hy apart =
        row_loop-Apart after (next_key table k x) (next_key table k y) (next-lt k x hk)
          (next-lt k y hk) h.1 (start_Apart k x y hk h.0 hy apart)
    row_loop_wrong (b ∷ before) after x y k hk h hy apart =
        row_loop_wrong before after x y (next_key table k b) (next-lt k b hk) h.1 hy apart

    pub row_loop-lt : (row : List ℕ) (k : ℕ) → k < 2 ^ 32 → row_loop table row k < 2 ^ 32
    unfolding row_loop
    row_loop-lt [] k h = h
    row_loop-lt (b ∷ row) k h = row_loop-lt row (next_key table k b) (next-lt k b h)

pub table8 : IsTable (build_table crc8) 0
unfolding passes is_distinct position build_table table_rounds table_round poly reverse_rounds
    word_rounds
table8 = refl

pub table32 : IsTable (build_table crc32) 3
unfolding passes is_distinct position build_table table_rounds table_round poly reverse_rounds
    word_rounds
table32 = refl

pub table16 : IsTable (build_table crc16) 1
unfolding passes is_distinct position build_table table_rounds table_round poly reverse_rounds
    word_rounds
table16 = refl

pub table24 : IsTable (build_table crc24) 2
unfolding passes is_distinct position build_table table_rounds table_round poly reverse_rounds
    word_rounds
table24 = refl
