-- ===== src/Fec/Convolutional/Trellis.antt =====
-- The states of the convolutional code as numbers, and the paths through them.
use spectracuda.Common.{
  ℕ, zero, suc, ◌+◌, ◌*◌, ◌%◌, ◌<◌, ◌≡◌, ◌⊎◌, refl, ap, ◌∙◌, List, [], ◌∷◌, ◌++◌, arith, length,
  get_or, map, replicate, count_up, All, IsBit, bit_and_mask, shift_in,
}
use spectracuda.Fec.Convolutional.{next_state, register}
use spectracuda.Fec.Convolutional.Viterbi.{pred_a, pred_b, input_bit, n_states}

pub next_state-eq : (s b : ℕ) → IsBit b → next_state s b ≡ (s * 2 + b) % 64
unfolding next_state
next_state-eq s b h = bit_and_mask 6 (register s b) ∙ ap (λ (r : ℕ). r % 64) (shift_in s b h)

pub next_state-lt : (s b : ℕ) → next_state s b < 64
unfolding next_state
next_state-lt s b = omega (arith, bit_and_mask 6 (register s b))

pub input_bit-eq : (ns : ℕ) → input_bit ns ≡ ns % 2
input_bit-eq ns = bit_and_mask 1 ns

pub input_bit-IsBit : (ns : ℕ) → IsBit (input_bit ns)
input_bit-IsBit ns = omega (arith, input_bit-eq ns)

-- Both predecessors lead to a state, by its own input bit.
pub next_state-pred_a : (ns : ℕ) → ns < 64 → next_state (pred_a ns) (input_bit ns) ≡ ns
next_state-pred_a ns h =
    omega (arith, next_state-eq (pred_a ns) (input_bit ns) (input_bit-IsBit ns), input_bit-eq ns)

pub next_state-pred_b : (ns : ℕ) → ns < 64 → next_state (pred_b ns) (input_bit ns) ≡ ns
next_state-pred_b ns h =
    omega (arith, next_state-eq (pred_b ns) (input_bit ns) (input_bit-IsBit ns), input_bit-eq ns)

-- And no other state does.
pub input_bit-next_state : (s b : ℕ) → IsBit b → input_bit (next_state s b) ≡ b
input_bit-next_state s b h = omega (arith, next_state-eq s b h, input_bit-eq (next_state s b))

pub is_pred :
    (s b : ℕ) → s < 64 → IsBit b → (s ≡ pred_a (next_state s b)) ⊎ (s ≡ pred_b (next_state s b))
is_pred s b lt h = ground (arith, next_state-eq s b h)

get_or-map {ℓ} :
    {A : Type ℓ} (f : ℕ → A) (i n k : ℕ) (d : A)
    → k < n
    → get_or (map f (count_up i n)) k d ≡ f (i + k)
get_or-map f i zero k d h = absurd (omega arith)
get_or-map f i (suc n) zero d h = ap f (omega arith)
get_or-map f i (suc n) (suc k) d h = get_or-map f (suc i) n k d (omega arith) ∙ ap f (omega arith)

-- An array with an entry for each state.
pub get_or-states {ℓ} :
    {A : Type ℓ} (f : ℕ → A) (k : ℕ) (d : A)
    → k < 64
    → get_or (map f (count_up 0 n_states)) k d ≡ f k
get_or-states f k d h = get_or-map f 0 n_states k d h ∙ ap f (omega arith)

-- The state after the bits.
unfoldable pub end_of : ℕ → List ℕ → ℕ
end_of s [] = s
end_of s (b ∷ bits) = end_of (next_state s b) bits

pub end_of-append : (s : ℕ) (xs ys : List ℕ) → end_of s (xs ++ ys) ≡ end_of (end_of s xs) ys
unfolding end_of
end_of-append s [] ys = refl
end_of-append s (x ∷ xs) ys = end_of-append (next_state s x) xs ys

pub end_of-lt : (s : ℕ) (bits : List ℕ) → s < 64 → end_of s bits < 64
unfolding end_of
end_of-lt s [] h = h
end_of-lt s (b ∷ bits) h = end_of-lt (next_state s b) bits (next_state-lt s b)

-- The tail of zeros ends in state 0, and only a tail of zeros does.
pub end_of-tail : (s : ℕ) → end_of s (replicate 6 0) ≡ 0
unfolding end_of
end_of-tail s =
    let s1 = next_state s 0 in
    let s2 = next_state s1 0 in
    let s3 = next_state s2 0 in
    let s4 = next_state s3 0 in
    let s5 = next_state s4 0 in
    omega (
      arith,
      next_state-eq s 0 (omega arith),
      next_state-eq s1 0 (omega arith),
      next_state-eq s2 0 (omega arith),
      next_state-eq s3 0 (omega arith),
      next_state-eq s4 0 (omega arith),
      next_state-eq s5 0 (omega arith),
    )

pub tail-zeros :
    (s : ℕ) (bits : List ℕ)
    → length bits ≡ 6
    → All IsBit bits
    → end_of s bits ≡ 0
    → bits ≡ replicate 6 0
unfolding end_of
tail-zeros s (b1 ∷ b2 ∷ b3 ∷ b4 ∷ b5 ∷ b6 ∷ []) len h e =
    let s1 = next_state s b1 in
    let s2 = next_state s1 b2 in
    let s3 = next_state s2 b3 in
    let s4 = next_state s3 b4 in
    let s5 = next_state s4 b5 in
    ground (
      arith,
      next_state-eq s b1,
      next_state-eq s1 b2,
      next_state-eq s2 b3,
      next_state-eq s3 b4,
      next_state-eq s4 b5,
      next_state-eq s5 b6,
    )
tail-zeros s bits len h e = absurd (omega arith)
