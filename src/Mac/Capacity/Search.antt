-- ===== src/Mac/Capacity/Search.antt =====
-- The bisection returns, and finds the largest size that fits.
use spectracuda.Common.{
  ℕ, zero, suc, ◌+◌, ◌-◌, ◌*◌, ◌/◌, ◌%◌, ◌≤◌, ◌<◌, ◌≡◌, ◌⊎◌, inl, inr, refl, sym, Bool, true, false,
  none, Outcome, ok, leb, ltb, max, arith, Bool-cases, if◌then◌else◌,
}
use mathlib.Core.Path.{subst}
use spectracuda.Mac.Capacity.{Phy, limit, fits, search, whole_block, compute_max_segment_bits}

-- Every size either fits or does not, and of the sizes of whole bytes, what is smaller than one that
-- fits, fits as well.
pub record IsMonotone (phy : Phy) (fit : ℕ → Bool) : Type 0 where
  pub decides : (n : ℕ) → fits phy n ≡ ok (fit n)
  pub monotone : (m n : ℕ) → m % 8 ≡ 0 → n % 8 ≡ 0 → m ≤ n → fit n ≡ true → fit m ≡ true

-- The largest size of whole bytes from 8 bits up to `bound` that fits, or 8 bits if none does.
pub record IsLargest (bound : ℕ) (fit : ℕ → Bool) (best : ℕ) : Type 0 where
  pub at_least : 8 ≤ best
  pub whole_bytes : best % 8 ≡ 0
  pub fits_or_least : ((fit best ≡ true) × (best ≤ bound)) ⊎ (best ≡ 8)
  pub largest : (n : ℕ) → n % 8 ≡ 0 → 8 ≤ n → n ≤ bound → fit n ≡ true → n ≤ best

-- A round of the loop is entered with this.
record IsRound (bound : ℕ) (fit : ℕ → Bool) (lo hi best : ℕ) : Type 0 where
  from : 8 ≤ lo
  aligned : lo % 8 ≡ 0
  at_least : 8 ≤ best
  below : best ≤ lo
  whole_bytes : best % 8 ≡ 0
  fits_or_least : ((fit best ≡ true) × (best ≤ bound)) ⊎ (best ≡ 8)
  high : hi ≤ bound
  inside :
      (n : ℕ) → n % 8 ≡ 0 → 8 ≤ n → n ≤ bound → fit n ≡ true → (n ≤ best) ⊎ ((lo ≤ n) × (n ≤ hi))

module _ (phy : Phy) (fit : ℕ → Bool) (v : IsMonotone phy fit) (bound : ℕ) where
  over :
      (lo hi best : ℕ) → leb lo hi ≡ false → IsRound bound fit lo hi best → IsLargest bound fit best
  over lo hi best h r = record {
    at_least = r.at_least;
    whole_bytes = r.whole_bytes;
    fits_or_least = r.fits_or_least;
    largest = λ n a b c d. ground (arith, r.inside n a b c d);
  }

  module _ (lo hi best mid : ℕ) (e : mid ≡ (lo + hi) / 2 / 8 * 8) (h : leb lo hi ≡ true)
      (r : IsRound bound fit lo hi best) where
    mid_bounds : (lo ≤ mid) × (mid ≤ hi) × (mid % 8 ≡ 0) × (ltb mid 8 ≡ false)
    mid_bounds = ground (arith, r.from, r.aligned)

    up : fit mid ≡ true → IsRound bound fit (mid + 8) hi mid
    up f = record {
      from = omega arith;
      aligned = omega (arith, mid_bounds);
      at_least = omega (arith, mid_bounds, r.from);
      below = omega arith;
      whole_bytes = omega (arith, mid_bounds);
      fits_or_least = inl (f, omega (arith, mid_bounds, r.high));
      high = r.high;
      inside = λ n a b c d. ground (arith, mid_bounds, r.inside n a b c d, r.below);
    }

    down : fit mid ≡ false → IsRound bound fit lo (mid - 8) best
    down f = record {
      from = r.from;
      aligned = r.aligned;
      at_least = r.at_least;
      below = r.below;
      whole_bytes = r.whole_bytes;
      fits_or_least = r.fits_or_least;
      high = omega (arith, mid_bounds, r.high);
      inside =
          λ n a b c d. ground (arith, mid_bounds, r.inside n a b c d, v.monotone mid n, r.from);
    }

  module _ (fuel lo hi best : ℕ) where
    search_over : leb lo hi ≡ false → search (suc fuel) phy lo hi best ≡ ok best
    unfolding search
    search_over h = rw (h, search) refl

    search_up :
        leb lo hi ≡ true
        → ltb ((lo + hi) / 2 / 8 * 8) 8 ≡ false
        → fit ((lo + hi) / 2 / 8 * 8) ≡ true
        → search (suc fuel) phy lo hi best
          ≡ search fuel phy ((lo + hi) / 2 / 8 * 8 + 8) hi ((lo + hi) / 2 / 8 * 8)
    unfolding search
    search_up h k f = rw (h, k, v.decides ((lo + hi) / 2 / 8 * 8), f, search) refl

    search_down :
        leb lo hi ≡ true
        → ltb ((lo + hi) / 2 / 8 * 8) 8 ≡ false
        → fit ((lo + hi) / 2 / 8 * 8) ≡ false
        → search (suc fuel) phy lo hi best ≡ search fuel phy lo ((lo + hi) / 2 / 8 * 8 - 8) best
    unfolding search
    search_down h k f = rw (h, k, v.decides ((lo + hi) / 2 / 8 * 8), f, search) refl

  abbrev Finds : Outcome ℕ → Type 0
  Finds r = (found : ℕ) × (r ≡ ok found) × IsLargest bound fit found

  search-IsLargest :
      (fuel lo hi best : ℕ)
      → hi + 8 < fuel + lo
      → lo ≤ hi + 8
      → IsRound bound fit lo hi best
      → Finds (search fuel phy lo hi best)
  search-IsLargest zero lo hi best f g r = absurd (omega arith)
  search-IsLargest (suc fuel) lo hi best f g r = elim (Bool-cases (leb lo hi)) [
    | inr h ↦ (best, search_over fuel lo hi best h, over lo hi best h r)
    | inl h ↦
        (let mid : ℕ = (lo + hi) / 2 / 8 * 8 in
          let m : (lo ≤ mid) × (mid ≤ hi) × (mid % 8 ≡ 0) × (ltb mid 8 ≡ false) =
            mid_bounds lo hi best mid refl h r in
          elim (Bool-cases (fit mid)) [
            | inl k ↦ subst Finds (sym (search_up fuel lo hi best h m.3 k)) (
                search-IsLargest fuel (mid + 8) hi mid (omega (arith, m)) (omega (arith, m))
                  (up lo hi best mid refl h r k))
            | inr k ↦ subst Finds (sym (search_down fuel lo hi best h m.3 k)) (
                search-IsLargest fuel lo (mid - 8) best (omega (arith, m, r.from))
                  (omega (arith, m, r.from)) (down lo hi best mid refl h r k))
          ])
  ]

-- What `compute_max_segment_bits` returns when no whole blocks are asked for.
pub record IsCapacity (phy : Phy) (fit : ℕ → Bool) (has_mac_header : Bool) : Type 0 where
  pub size : ℕ
  pub returns : compute_max_segment_bits phy has_mac_header ≡ ok size
  pub best : ℕ
  pub largest : IsLargest (limit phy) fit best
  pub exact : size ≡ (if has_mac_header then max 8 (best - 32) else best)

-- Where no whole blocks are asked for, each size either fits or does not, and of the sizes of whole
-- bytes one that is smaller than one that fits, fits as well, the search always returns. What it
-- finds is the largest size of whole bytes, of 8 bits at least and within the limit, that fits, or 8
-- bits if none does; it returns that size without a MAC header, and with one 32 bits less, but 8 bits
-- at least.
pub compute_max_segment_bits-IsCapacity :
    (phy : Phy) (fit : ℕ → Bool) (has_mac_header : Bool)
    → whole_block phy.fec_codec ≡ none
    → IsMonotone phy fit
    → IsCapacity phy fit has_mac_header
unfolding compute_max_segment_bits
compute_max_segment_bits-IsCapacity phy fit has_mac_header e v =
    let (best, found, largest) =
      search-IsLargest phy fit v (limit phy) (suc (suc (limit phy))) 8 (limit phy) 8 (omega arith)
        (omega arith)
        (record {
          from = omega arith;
          aligned = refl;
          at_least = omega arith;
          below = omega arith;
          whole_bytes = refl;
          fits_or_least = inr refl;
          high = omega arith;
          inside = λ n a b c d. inr (b, c);
        }) in
    record {
      size = if has_mac_header then max 8 (best - 32) else best;
      returns = rw (e, found) refl;
      best = best;
      largest = largest;
      exact = refl;
    }
