-- ===== src/Interleaver/Ranges.antt =====
-- Ranges cut into blocks of equal length.
use spectracuda.Common.{
  ℕ, zero, suc, ◌+◌, ◌*◌, ◌≡◌, refl, ap, ap₂, ◌∙◌, ◌∷◌, ◌++◌, map, arith, count_up, flat_map,
}

-- The numbers `a`, `a + 1` and so on.
map-count_up : (a i n : ℕ) → map (λ (k : ℕ). a + k) (count_up i n) ≡ count_up (a + i) n
map-count_up a i zero = refl
map-count_up a i (suc n) =
    let next : a + suc i ≡ suc (a + i) = omega arith in
    ap (◌∷◌ (a + i)) (map-count_up a (suc i) n ∙ ap (λ (t : ℕ). count_up t n) next)

count_up-append : (a n m : ℕ) → count_up a n ++ count_up (a + n) m ≡ count_up a (n + m)
count_up-append a zero m =
    let same : a + 0 ≡ a = omega arith in let all : 0 + m ≡ m = omega arith in rw (same, all) refl
count_up-append a (suc n) m =
    let next : a + suc n ≡ suc a + n = omega arith in
    let longer : suc n + m ≡ suc (n + m) = omega arith in
    rw (next, longer) (ap (◌∷◌ a) (count_up-append (suc a) n m))

-- One block of `u` numbers for each of `n` numbers.
pub flat_map-count_up :
    (u i n : ℕ)
    → flat_map (λ (b : ℕ). map (λ (k : ℕ). b * u + k) (count_up 0 u)) (count_up i n)
      ≡ count_up (i * u) (n * u)
flat_map-count_up u i zero =
    ap (count_up (i * u)) (let none_left : 0 ≡ 0 * u = omega arith in none_left)
flat_map-count_up u i (suc n) =
    let start : i * u + 0 ≡ i * u = omega arith in
    let next : suc i * u ≡ i * u + u = omega arith in
    let longer : suc n * u ≡ u + n * u = omega arith in
    ap₂ ◌++◌ (map-count_up (i * u) 0 u ∙ ap (λ (t : ℕ). count_up t u) start)
      (flat_map-count_up u (suc i) n)
    ∙ rw (next, longer) (count_up-append (i * u) u (n * u))
