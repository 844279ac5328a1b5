-- ===== src/Mac/Capacity/Blocks.antt =====
-- The search over whole blocks ends.
use native.Mathlib.Decide.{dec_lt}
use mathlib.Core.Path.{subst}
use native.Mathlib.Nat.{mul_assoc, mul-le-mul_left, mul-le-mul_right}
use spectracuda.Common.{
  ℕ, zero, suc, ◌+◌, ◌-◌, ◌*◌, ◌%◌, ◌≤◌, ◌<◌, ◌≡◌, ◌⊎◌, inl, inr, ◌∙◌, refl, sym, ap, Bool, true,
  false, ◌||◌, not, ◌==◌, some, Outcome, ok, ltb, arith, Bool-cases,
}
use spectracuda.Mac.Capacity.{Phy, limit, fits, search_blocks, block_rounds, best_from}

-- Every size either fits or does not, and none above the limit does.
pub record IsLimited (phy : Phy) (fit : ℕ → Bool) : Type 0 where
  pub decides : (n : ℕ) → fits phy n ≡ ok (fit n)
  pub limited : (n : ℕ) → limit phy < n → fit n ≡ false

module _ (phy : Phy) (fit : ℕ → Bool) (v : IsLimited phy fit) (k : ℕ) (pos : 0 < k) where
  abbrev raw : ℕ → ℕ
  raw n = n * k - phy.crc_key_length_bytes * 8

  abbrev last : ℕ
  last = 8 * (limit phy + phy.crc_key_length_bytes * 8 + 1)

  abbrev skips : ℕ → Bool
  skips n = ltb (raw n) 8 || not (raw n % 8 == 0)

  module _ (fuel n best : ℕ) where
    round_skips :
        skips n ≡ true
        → search_blocks (suc fuel) phy k n best ≡ search_blocks fuel phy k (n + 1) best
    unfolding search_blocks
    round_skips h = rw (h, search_blocks) refl

    round_fits :
        skips n ≡ false
        → fit (raw n) ≡ true
        → search_blocks (suc fuel) phy k n best ≡ search_blocks fuel phy k (n + 1) (raw n)
    unfolding search_blocks
    round_fits h f = rw (h, v.decides (raw n), f, search_blocks) refl

    round_ends :
        skips n ≡ false → fit (raw n) ≡ false → search_blocks (suc fuel) phy k n best ≡ ok best
    unfolding search_blocks
    round_ends h f = rw (h, v.decides (raw n), f, search_blocks) refl

  last_block : (skips last ≡ false) × (fit (raw last) ≡ false)
  last_block =
      let l : ℕ = limit phy + phy.crc_key_length_bytes * 8 + 1 in
      let split : last * k ≡ 8 * (l * k) = mul_assoc 8 l k in
      let more : l * 1 ≤ l * k = mul-le-mul_left l pos in
      (ground (arith, split, more), v.limited (raw last) (omega (arith, split, more)))

  -- The rounds below `n` are over: each block count of theirs that makes a size fits, and `best` is
  -- the last of the sizes, or 8 if there is none.
  abbrev Tried : ℕ → ℕ → Type 0
  Tried n best =
      ((i : ℕ) → 1 ≤ i → i < n → skips i ≡ false → (fit (raw i) ≡ true) × (raw i ≤ best))
      × (((best ≡ 8) × ((i : ℕ) → 1 ≤ i → i < n → skips i ≡ true))
          ⊎ ((i : ℕ) × (1 ≤ i) × (i < n) × (skips i ≡ false) × (best ≡ raw i)))

  raw_le : (i n : ℕ) → i ≤ n → raw i ≤ raw n
  raw_le i n h = let m : i * k ≤ n * k = mul-le-mul_right k h in omega (arith, m)

  not_first : (n i : ℕ) → i < n + 1 → (i < n) ⊎ (i ≡ n)
  not_first n i h = ground arith

  Tried-skips : (n best : ℕ) → skips n ≡ true → Tried n best → Tried (n + 1) best
  Tried-skips n best h (all, which) = (
    λ i a b c. elim (not_first n i b) [
      | inl d ↦ all i a d c
      | inr d ↦ cc (sym h ∙ ap skips (sym d) ∙ c)
    ],
    elim which [
      | inl (e, none_yet) ↦
          inl
            (e, λ i a b. elim (not_first n i b) [ inl d ↦ none_yet i a d | inr d ↦ ap skips d ∙ h ])
      | inr (i, a, b, c, e) ↦ inr (i, a, omega arith, c, e)
    ],
  )

  Tried-fits :
      (n best : ℕ)
      → 1 ≤ n
      → skips n ≡ false
      → fit (raw n) ≡ true
      → Tried n best
      → Tried (n + 1) (raw n)
  Tried-fits n best p h f (all, which) = (
    λ i a b c. elim (not_first n i b) [
      | inl d ↦ ((all i a d c).0, raw_le i n (omega arith))
      | inr d ↦ (ap (λ (j : ℕ). fit (raw j)) d ∙ f, raw_le i n (omega arith))
    ],
    inr (n, p, omega arith, h, refl),
  )

  abbrev pub IsBest : ℕ → Type 0
  IsBest best = (n : ℕ) × (skips n ≡ false) × (fit (raw n) ≡ false) × Tried n best

  abbrev Finds : Outcome ℕ → Type 0
  Finds r = (best : ℕ) × (r ≡ ok best) × IsBest best

  search_blocks-Finds :
      (fuel n best : ℕ)
      → 1 ≤ n
      → n ≤ last
      → last < fuel + n
      → Tried n best
      → Finds (search_blocks fuel phy k n best)
  search_blocks-Finds zero n best p1 g h s = absurd (omega arith)
  search_blocks-Finds (suc fuel) n best p1 g h s = elim (dec_lt n last) [
    | no p ↦
        (let e : n ≡ last = omega arith in
          (
            best,
            round_ends fuel n best (rw e last_block.0) (rw e last_block.1),
            (n, rw e last_block.0, rw e last_block.1, s),
          ))
    | yes p ↦ elim (Bool-cases (skips n)) [
      | inl b ↦ subst Finds (sym (round_skips fuel n best b)) (
          search_blocks-Finds fuel (n + 1) best (omega arith) (omega arith) (omega arith)
            (Tried-skips n best b s))
      | inr b ↦ elim (Bool-cases (fit (raw n))) [
        | inr f ↦ (best, round_ends fuel n best b f, (n, b, f, s))
        | inl f ↦ subst Finds (sym (round_fits fuel n best b f)) (
            search_blocks-Finds fuel (n + 1) (raw n) (omega arith) (omega arith) (omega arith)
              (Tried-fits n best p1 b f s))
      ]
    ]
  ]

-- Where whole blocks of at least one bit are asked for, each size either fits or does not, and no
-- size above the limit fits, the loop ends, at a number of blocks whose size, less the CRC, is of
-- whole bytes and does not fit. The size that it finds is the largest of whole bytes that fewer
-- blocks make, all of which fit, or 8 bits if fewer blocks make none.
pub best_from-IsBest :
    (phy : Phy) (fit : ℕ → Bool) (block_bits : ℕ)
    → (pos : 0 < block_bits) → (v : IsLimited phy fit)
    → (best : ℕ) × (best_from (some block_bits) phy ≡ ok best)
      × IsBest phy fit v block_bits pos best
best_from-IsBest phy fit k pos v =
    search_blocks-Finds phy fit v k pos (block_rounds phy) 1 8 (omega arith) (omega arith)
      (omega arith) (λ i a b c. absurd (omega arith), inl (refl, λ i a b. absurd (omega arith)))
