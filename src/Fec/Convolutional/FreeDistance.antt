-- ===== src/Fec/Convolutional/FreeDistance.antt =====
-- The distance of the convolutional code.
use spectracuda.Common.{
  passes, tested, ℕ, zero, suc, ◌+◌, ◌/◌, ◌%◌, ◌≤◌, ◌<◌, ◌≡◌, ◌≢◌, ◌⊎◌, inl, inr, refl, sym, ap,
  ap₂, ◌∙◌, List, [], ◌∷◌, Bool, true, false, ◌&&◌, ◌==◌, leb, leb→le, ==_iff, arith, length,
  get_or, All, IsBit, bit_and, bit_xor, shift_in,
}
use native.Mathlib.Decide.{ℕ_discrete}
use spectracuda.Fec.Convolutional.{g1, g2, parity, register, next_state, out1, out2, encode_from}
use spectracuda.Fec.Convolutional.Viterbi.{differs}
use spectracuda.Fec.Convolutional.Hamming.{distance}
use spectracuda.Fec.Convolutional.Trellis.{next_state-eq, next_state-lt, end_of}

-- The least weight of a path from the state back to state 0.
abbrev way_back : List ℕ
way_back =
    0 ∷ 8 ∷ 7 ∷ 7 ∷ 7 ∷ 5 ∷ 6 ∷ 6 ∷ 5 ∷ 7 ∷ 4 ∷ 8 ∷ 4 ∷ 6 ∷ 5 ∷ 7 ∷ 3 ∷ 7 ∷ 6 ∷ 6 ∷ 4 ∷ 4 ∷ 7 ∷ 7
    ∷ 4 ∷ 6 ∷ 5 ∷ 7 ∷ 5 ∷ 7 ∷ 6 ∷ 6 ∷ 2 ∷ 8 ∷ 5 ∷ 7 ∷ 5 ∷ 5 ∷ 4 ∷ 6 ∷ 3 ∷ 7 ∷ 4 ∷ 8 ∷ 6 ∷ 6 ∷ 7 ∷ 7
    ∷ 3 ∷ 5 ∷ 6 ∷ 4 ∷ 4 ∷ 6 ∷ 7 ∷ 7 ∷ 4 ∷ 4 ∷ 5 ∷ 7 ∷ 5 ∷ 5 ∷ 6 ∷ 6 ∷ []

way : ℕ → ℕ
way s = get_or way_back s 0

abbrev apart : ℕ → ℕ → ℕ
apart r q =
    differs (parity (bit_and r g1)) (parity (bit_and q g1))
    + differs (parity (bit_and r g2)) (parity (bit_and q g2))

is_step : ℕ → ℕ → Bool
is_step r q = leb (way (bit_xor (r / 2) (q / 2))) (apart r q + way (bit_xor (r % 64) (q % 64)))

is_row : ℕ → Bool
is_row r = passes (is_step r) 0 128

all_rows : passes is_row 0 128 ≡ true
unfolding passes is_row is_step parity way
all_rows = refl

is_met : ℕ → Bool
is_met s = way (bit_xor s s) == 0

all_met : passes is_met 0 64 ≡ true
unfolding passes is_met way
all_met = refl

-- The first step on which two paths part, and the way back from there.
parts : ℕ → ℕ → Bool
parts r q = leb 10 (apart r q + way (bit_xor (r % 64) (q % 64)))

parts_both : ℕ → Bool
parts_both s = parts (register s 0) (register s 1) && parts (register s 1) (register s 0)

all_parts : passes parts_both 0 64 ≡ true
unfolding passes parts_both parts parity way
all_parts = refl

step-le :
    (r q : ℕ)
    → r < 128
    → q < 128
    → way (bit_xor (r / 2) (q / 2)) ≤ apart r q + way (bit_xor (r % 64) (q % 64))
unfolding is_row is_step
step-le r q hr hq =
    leb→le (way (bit_xor (r / 2) (q / 2))) (apart r q + way (bit_xor (r % 64) (q % 64))) (
      tested (is_step r) 128 0 q (omega arith) hq (tested is_row 128 0 r (omega arith) hr all_rows))

met : (s : ℕ) → s < 64 → way (bit_xor s s) ≡ 0
unfolding is_met
met s h = (==_iff (way (bit_xor s s)) 0).0 (tested is_met 64 0 s (omega arith) h all_met)

register_half : (s b : ℕ) → IsBit b → register s b / 2 ≡ s
register_half s b h = omega (arith, shift_in s b h)

register_low : (s b : ℕ) → IsBit b → register s b % 64 ≡ next_state s b
register_low s b h = omega (arith, shift_in s b h, next_state-eq s b h)

register-lt : (s b : ℕ) → s < 64 → IsBit b → register s b < 128
register-lt s b lt h = omega (arith, shift_in s b h)

abbrev apart_from : (s t b c : ℕ) → ℕ
apart_from s t b c = differs (out1 s b) (out1 t c) + differs (out2 s b) (out2 t c)

-- Two steps, from any two states.
steps-le :
    (s t b c : ℕ)
    → s < 64
    → t < 64
    → IsBit b
    → IsBit c
    → way (bit_xor s t) ≤ apart_from s t b c + way (bit_xor (next_state s b) (next_state t c))
unfolding out1 out2
steps-le s t b c hs ht hb hc =
    let before =
      ap₂ (λ (p q : ℕ). way (bit_xor p q)) (register_half s b hb) (register_half t c hc) in
    let after = ap₂ (λ (p q : ℕ). way (bit_xor p q)) (register_low s b hb) (register_low t c hc) in
    rw (← before, ← after)
      (step-le (register s b) (register t c) (register-lt s b hs hb) (register-lt t c ht hc))

-- Paths of one length that end in one state differ at least by the way back from where they start.
way-le :
    (xs ys : List ℕ) (s t : ℕ)
    → length xs ≡ length ys
    → All IsBit xs
    → All IsBit ys
    → s < 64
    → t < 64
    → end_of s xs ≡ end_of t ys
    → way (bit_xor s t) ≤ distance (encode_from s xs) (encode_from t ys)
unfolding end_of encode_from
way-le [] [] s t len hx hy hs ht e = rw e (omega (arith, met t ht))
way-le [] (y ∷ ys) s t len hx hy hs ht e = absurd (omega arith)
way-le (x ∷ xs) [] s t len hx hy hs ht e = absurd (omega arith)
way-le (x ∷ xs) (y ∷ ys) s t len hx hy hs ht e = omega (
  arith,
  steps-le s t x y hs ht hx.0 hy.0,
  way-le xs ys (next_state s x) (next_state t y) (omega arith) hx.1 hy.1 (next_state-lt s x)
      (next_state-lt t y) e,
)

both : (a b : Bool) → (a && b) ≡ true → (a ≡ true) × (b ≡ true)
both true b h = (refl, h)
both false b h = cc

parting :
    (s b c : ℕ) → s < 64 → IsBit b → IsBit c → b ≢ c → parts (register s b) (register s c) ≡ true
unfolding parts_both
parting s zero zero hs hb hc ne = absurd (ne refl)
parting s zero (suc zero) hs hb hc ne =
    (both (parts (register s 0) (register s 1)) (parts (register s 1) (register s 0))
      (tested parts_both 64 0 s (omega arith) hs all_parts)).0
parting s (suc zero) zero hs hb hc ne =
    (both (parts (register s 0) (register s 1)) (parts (register s 1) (register s 0))
      (tested parts_both 64 0 s (omega arith) hs all_parts)).1
parting s (suc zero) (suc zero) hs hb hc ne = absurd (ne refl)
parting s (suc (suc b)) c hs hb hc ne = absurd (omega arith)
parting s b (suc (suc c)) hs hb hc ne = absurd (omega arith)

-- Paths that part on their first step.
parting-ge :
    (s b c : ℕ)
    → s < 64
    → IsBit b
    → IsBit c
    → b ≢ c
    → 10 ≤ apart_from s s b c + way (bit_xor (next_state s b) (next_state s c))
unfolding out1 out2 parts
parting-ge s b c hs hb hc ne =
    let after = ap₂ (λ (p q : ℕ). way (bit_xor p q)) (register_low s b hb) (register_low s c hc) in
    rw (← after) (
      leb→le 10
        (apart (register s b) (register s c)
          + way (bit_xor (register s b % 64) (register s c % 64)))
        (parting s b c hs hb hc ne))

-- The same first step changes nothing of the distance of what follows.
same_step :
    (s x y : ℕ) (xs ys : List ℕ)
    → x ≡ y
    → (xs ≡ ys)
      ⊎ (10 ≤ distance (encode_from (next_state s x) xs) (encode_from (next_state s x) ys))
    → (x ∷ xs ≡ y ∷ ys) ⊎ (10 ≤ distance (encode_from s (x ∷ xs)) (encode_from s (y ∷ ys)))
unfolding encode_from
same_step s x y xs ys same (inl e) = inl (ap₂ ◌∷◌ same e)
same_step s x y xs ys same (inr far) = inr (rw (← same) (omega (arith, far)))

-- Two rows of one length that lead from a state to the same state are the same row, or their codes
-- differ in 10 places at least.
pub codes-apart :
    (xs ys : List ℕ) (s : ℕ)
    → length xs ≡ length ys
    → All IsBit xs
    → All IsBit ys
    → s < 64
    → end_of s xs ≡ end_of s ys
    → (xs ≡ ys) ⊎ (10 ≤ distance (encode_from s xs) (encode_from s ys))
unfolding end_of encode_from
codes-apart [] [] s len hx hy hs e = inl refl
codes-apart [] (y ∷ ys) s len hx hy hs e = absurd (omega arith)
codes-apart (x ∷ xs) [] s len hx hy hs e = absurd (omega arith)
codes-apart (x ∷ xs) (y ∷ ys) s len hx hy hs e = elim (ℕ_discrete x y) [
  | yes same ↦ same_step s x y xs ys same (
      codes-apart xs ys (next_state s x) (omega arith) hx.1 hy.1 (next_state-lt s x)
        (e ∙ ap (λ (b : ℕ). end_of (next_state s b) ys) (sym same)))
  | no other ↦ inr (
      omega (
        arith,
        parting-ge s x y hs hx.0 hy.0 other,
        way-le xs ys (next_state s x) (next_state s y) (omega arith) hx.1 hy.1 (next_state-lt s x)
            (next_state-lt s y) e,
      ))
]
