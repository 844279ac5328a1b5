-- ===== src/Common/Words.antt =====
-- Fields of bits, most significant bit first, as the wire formats write and read them.
mod Steps
use Steps.{bit_or_halves, bit_or-zero}
use Prim.Native.Nat.{ℕ, zero, suc, ◌+◌, ◌-◌, ◌*◌, ◌/◌, ◌%◌, ◌^◌, ◌≤◌, ◌<◌, bit_or, max}
use mathlib.Core.Path.{◌≡◌, refl, ap, ap₂, ◌∙◌, sym}
use mathlib.Core.List.{List, [], ◌∷◌, ◌++◌}
use native.Mathlib.Omega.{arith}
use native.Mathlib.Decide.{dec_lt}
use native.Mathlib.Nat.{
  pow-suc, one-le-pow, add-mul-mod_self_left, mod-eq_of_lt, mod-lt, div-add-mod, mul-add-div_right,
  div-eq_of_lt,
}
use package.spectracuda.Common.Lists.{length, All}

abbrev pub IsBit : ℕ → Type 0
IsBit b = b < 2

-- `[(value >> i) & 1 for i in range(width - 1, -1, -1)]`
abbrev pub bits_of : ℕ → ℕ → List ℕ
bits_of zero value = []
bits_of (suc width) value = ((value / 2 ^ width) % 2) ∷ bits_of width value

-- `for b in bits: v = (v << 1) | int(b)`
abbrev pub value_from : ℕ → List ℕ → ℕ
value_from v [] = v
value_from v (b ∷ bits) = value_from (bit_or (v * 2) b) bits

length-bits_of : (width value : ℕ) → length (bits_of width value) ≡ width
length-bits_of zero value = refl
length-bits_of (suc width) value = ap suc (length-bits_of width value)

pub bits_of-IsBit : (width value : ℕ) → All IsBit (bits_of width value)
bits_of-IsBit zero value = tt
bits_of-IsBit (suc width) value = (omega arith, bits_of-IsBit width value)

-- Shifting in a bit adds it.
pub shift_in : (v b : ℕ) → b < 2 → bit_or (v * 2) b ≡ v * 2 + b
shift_in v zero h = omega (arith, bit_or-zero (v * 2))
shift_in v (suc zero) h = omega (arith, bit_or_halves (v * 2) 1, bit_or-zero (v * 2 / 2))
shift_in v (suc (suc b)) h = absurd (omega arith)

top_bit_lt : (q p r : ℕ) → r < p → q % 2 * p + r < p * 2
top_bit_lt q p r h = elim (dec_lt 0 (q % 2)) [
  | yes k ↦ (let one : q % 2 ≡ 1 = omega arith in rw one (omega arith))
  | no k ↦ (let zero_bit : q % 2 ≡ 0 = omega arith in rw zero_bit (omega arith))
]

top_bit : (p value : ℕ) → 0 < p → value % (p * 2) ≡ ((value / p) % 2) * p + value % p
top_bit p value h =
    ap (λ (t : ℕ). t % (p * 2)) split
    ∙ (add-mul-mod_self_left low (p * 2) (q / 2)
        ∙ mod-eq_of_lt (top_bit_lt q p (value % p) (mod-lt value h)))
  where
    q : ℕ
    q = value / p

    low : ℕ
    low = q % 2 * p + value % p

    split : value ≡ low + (p * 2) * (q / 2)
    split = omega (arith, div-add-mod value p, ap (λ (t : ℕ). t * p) (div-add-mod q 2))

value_from-bits_of :
    (v width value : ℕ) → value_from v (bits_of width value) ≡ v * 2 ^ width + value % 2 ^ width
value_from-bits_of v zero value = omega arith
value_from-bits_of v (suc width) value =
    ap (λ (t : ℕ). value_from t (bits_of width value))
      (shift_in v (value / 2 ^ width % 2) (omega arith))
    ∙ (value_from-bits_of (v * 2 + value / 2 ^ width % 2) width value
        ∙ rw (pow-suc 2 width)
            (omega (arith, top_bit (2 ^ width) value (one-le-pow width 2 (omega arith)))))

-- Reading a field gives back the number that was written, if it fits.
pub value-bits_of :
    (width value : ℕ) → value < 2 ^ width → value_from 0 (bits_of width value) ≡ value
value-bits_of width value h = omega (arith, value_from-bits_of 0 width value, mod-eq_of_lt h)

value_from-add :
    (v : ℕ) (bits : List ℕ)
    → All IsBit bits
    → value_from v bits ≡ v * 2 ^ length bits + value_from 0 bits
value_from-add v [] h = omega arith
value_from-add v (b ∷ bits) h =
    rw (shift_in v b h.0, shift_in 0 b h.0, pow-suc 2 (length bits))
      (omega (arith, value_from-add (v * 2 + b) bits h.1, value_from-add (0 * 2 + b) bits h.1))

value_from-cons :
    (b : ℕ) (bits : List ℕ)
    → All IsBit (b ∷ bits)
    → value_from 0 (b ∷ bits) ≡ b * 2 ^ length bits + value_from 0 bits
value_from-cons b bits h =
    ap (λ (t : ℕ). value_from t bits) (shift_in 0 b h.0)
    ∙ (value_from-add (0 * 2 + b) bits h.1 ∙ omega arith)

field_lt : (b p v : ℕ) → b < 2 → v < p → b * p + v < p * 2
field_lt zero p v h k = omega arith
field_lt (suc zero) p v h k = omega arith
field_lt (suc (suc b)) p v h k = absurd (omega arith)

pub value_from-lt : (bits : List ℕ) → All IsBit bits → value_from 0 bits < 2 ^ length bits
value_from-lt [] h = omega arith
value_from-lt (b ∷ bits) h = rw (pow-suc 2 (length bits)) (
    omega (
      arith,
      value_from-cons b bits h,
      field_lt b (2 ^ length bits) (value_from 0 bits) h.0 (value_from-lt bits h.1),
    ))

-- A field holds the low bits of the number alone.
bits_of-low : (k width value : ℕ) → bits_of width (k * 2 ^ width + value) ≡ bits_of width value
bits_of-low k zero value = refl
bits_of-low k (suc width) value =
    ap₂ ◌∷◌ head
      (ap (λ (t : ℕ). bits_of width (t + value)) double ∙ bits_of-low (k * 2) width value)
  where
    double : k * 2 ^ suc width ≡ k * 2 * 2 ^ width
    double = rw (pow-suc 2 width) (omega arith)

    head : (k * 2 ^ suc width + value) / 2 ^ width % 2 ≡ value / 2 ^ width % 2
    head =
        ap (λ (t : ℕ). (t + value) / 2 ^ width % 2) double
        ∙ omega (arith, mul-add-div_right (one-le-pow width 2 (omega arith)) (k * 2) value)

-- Writing what was read gives back the bits.
pub bits_of-value :
    (bits : List ℕ) → All IsBit bits → bits_of (length bits) (value_from 0 bits) ≡ bits
bits_of-value [] h = refl
bits_of-value (b ∷ bits) h = ap₂ ◌∷◌ head (
    ap (bits_of (length bits)) split
    ∙ (bits_of-low b (length bits) (value_from 0 bits) ∙ bits_of-value bits h.1))
  where
    split : value_from 0 (b ∷ bits) ≡ b * 2 ^ length bits + value_from 0 bits
    split = value_from-cons b bits h

    head : value_from 0 (b ∷ bits) / 2 ^ length bits % 2 ≡ b
    head =
        ap (λ (t : ℕ). t / 2 ^ length bits % 2) split
        ∙ omega (
          arith,
          h.0,
          mul-add-div_right (one-le-pow (length bits) 2 (omega arith)) b (value_from 0 bits),
          div-eq_of_lt (value_from-lt bits h.1),
        )

-- `(q << k) | r` is a sum when `r` fits `k` bits.
pub bit_or_fields : (k q r : ℕ) → r < 2 ^ k → bit_or (q * 2 ^ k) r ≡ q * 2 ^ k + r
bit_or_fields zero q r fits =
    let none_left : r ≡ 0 = omega arith in rw none_left (omega (arith, bit_or-zero (q * 2 ^ 0)))
bit_or_fields (suc k) q r fits =
    let double : q * 2 ^ suc k ≡ q * 2 ^ k * 2 = rw (pow-suc 2 k) (omega arith) in
    let room : r / 2 < 2 ^ k = omega (arith, pow-suc 2 k) in
    rw double (
      omega (
        arith,
        bit_or_halves (q * 2 ^ k * 2) r,
        ap (λ (t : ℕ). bit_or t (r / 2))
            (let half : q * 2 ^ k * 2 / 2 ≡ q * 2 ^ k = omega arith in half),
        bit_or_fields k q (r / 2) room,
      ))

-- Two bytes, high byte first, make up a number of 16 bits.
pub join_two : (v : ℕ) → v < 65536 → bit_or (v / 2 ^ 8 % 256 * 2 ^ 8) (v % 256) ≡ v
join_two v h = bit_or_fields 8 (v / 2 ^ 8 % 256) (v % 256) (omega arith) ∙ omega arith
