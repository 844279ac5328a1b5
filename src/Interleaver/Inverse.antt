-- ===== src/Interleaver/Inverse.antt =====
-- What one end interleaves the other end restores.
use mathlib.Core.List.Perm
use mathlib.Core.Path.{subst}
use native.Mathlib.Nat.{div-add-mod, mul_comm}
use spectracuda.Common.{
  ℕ, zero, suc, ◌*◌, ◌/◌, ◌%◌, ◌<◌, ◌≡◌, ◌≢◌, ◌↔◌, refl, sym, ap, ap₂, ◌∙◌, List, [], ◌∷◌, map,
  Bool, true, false, ◌&&◌, ok, raise, value_error, ◌>>◌, returned, require, leb, ◌==◌, ==_iff,
  arith, length, get_or, All, length-map, count_up, length-count_up, all_equal, all_equal_iff,
  sorted, length-sorted, sorted-range, sorted-range_perm, perm-flat_map, map-get_or,
}
use spectracuda.Numpy.{Batch, IsBatch, Sorting}
use spectracuda.Fec.Codes.{IsBlock}
use spectracuda.Interleaver.{
  Interleaver, units_of, bit_perm, build_permutation, gather, encode, decode,
}
use spectracuda.Interleaver.Schemes.{
  Scheme, block, permutation, convolutional, liquid, Sources, block_permutation,
  convolutional_permutation, interleaver,
}
use spectracuda.Interleaver.Schemes.Liquid.{liquid_permutation}
use spectracuda.Interleaver.Ranges.{flat_map-count_up}

-- What construction has made sure of.
pub record IsInterleaver (np : Sorting) (n_bits : ℕ) (il : Interleaver) : Type 0 where
  pub size : il.n_bits ≡ n_bits
  pub bijective : sorted il.perm ≡ count_up 0 n_bits
  pub inverse : il.inverse_perm ≡ np.argsort il.perm

and_right : (a b : Bool) → (a && b) ≡ true → b ≡ true
and_right true b h = h
and_right false b h = cc

-- A guarded result: the guard held, and the result is the one made.
guarded {ℓ} :
    {A : Type ℓ} (test : Bool) (made : A) {result : A}
    → (require test >> ok made) ≡ ok result
    → (test ≡ true) × (made ≡ result)
guarded true made h = (refl, cc)
guarded false made h = cc

units_of-factors :
    (n_bits unit_bits n_units : ℕ)
    → units_of n_bits unit_bits ≡ ok n_units
    → (n_bits ≡ n_units * unit_bits) × (n_units ≡ n_bits / unit_bits)
unfolding units_of
units_of-factors n_bits unit_bits n_units h =
    ground (arith, div-add-mod n_bits unit_bits, mul_comm unit_bits (n_bits / unit_bits))

bit_perm-range :
    (unit_bits n_units : ℕ) (unit_perm : List ℕ)
    → sorted unit_perm ≡ count_up 0 n_units
    → sorted (bit_perm unit_bits unit_perm) ≡ count_up 0 (n_units * unit_bits)
bit_perm-range unit_bits n_units unit_perm h = sorted-range (n_units * unit_bits) (
    Perm.trans (perm-flat_map _ (sorted-range_perm n_units h)) (
      rw (flat_map-count_up unit_bits 0 n_units)
        (let start : 0 * unit_bits ≡ 0 = omega arith in rw start Perm.rfl)))

build_permutation-IsInterleaver :
    (np : Sorting) (n_bits unit_bits n_units : ℕ) (unit_perm : List ℕ) (il : Interleaver)
    → units_of n_bits unit_bits ≡ ok n_units
    → build_permutation np n_bits unit_bits unit_perm ≡ ok il
    → IsInterleaver np n_bits il
unfolding build_permutation
build_permutation-IsInterleaver np n_bits unit_bits n_units unit_perm il h k =
    let factors = units_of-factors n_bits unit_bits n_units h in
    let checked =
      guarded
        (length unit_perm == n_bits / unit_bits
          && all_equal (sorted unit_perm) (count_up 0 (n_bits / unit_bits)))
        _ k in
    let in_order =
      (all_equal_iff (sorted unit_perm) (count_up 0 (n_bits / unit_bits))).0
        (and_right _ _ checked.0) in
    let whole = bit_perm-range unit_bits n_units unit_perm (rw factors.1 in_order) in
    subst (IsInterleaver np n_bits) checked.1
      (record { size = refl; bijective = rw factors.0 whole; inverse = refl })

-- Whatever the scheme, its constructor validates the permutation.
pub interleaver-IsInterleaver :
    (np : Sources) (scheme : Scheme) (n_bits : ℕ) (il : Interleaver)
    → interleaver np scheme n_bits ≡ ok il
    → IsInterleaver np.sorting n_bits il
unfolding interleaver
interleaver-IsInterleaver np (block rows unit_bits) n_bits il h =
    let units = returned (units_of n_bits unit_bits) _ h in
    let perm = returned (block_permutation np.floor_sqrt rows units.0) _ units.2 in
    build_permutation-IsInterleaver np.sorting n_bits unit_bits units.0 perm.0 il units.1 perm.2
interleaver-IsInterleaver np (permutation seed unit_bits) n_bits il h =
    let units = returned (units_of n_bits unit_bits) _ h in
    build_permutation-IsInterleaver np.sorting n_bits unit_bits units.0 _ il units.1 units.2
interleaver-IsInterleaver np (convolutional branches base_delay unit_bits) n_bits il h =
    let units = returned (units_of n_bits unit_bits) _ h in
    let guard = returned (require (leb 1 branches)) _ units.2 in
    let perm = returned (convolutional_permutation branches base_delay units.0) _ guard.2 in
    build_permutation-IsInterleaver np.sorting n_bits unit_bits units.0 perm.0 il units.1 perm.2
interleaver-IsInterleaver np (liquid depth) n_bits il h =
    let bytes = returned (require (n_bits % 8 == 0)) _ h in
    let range = returned (require (leb depth 4)) _ bytes.2 in
    let units = returned (units_of n_bits 1) _ range.2 in
    let perm = returned (liquid_permutation np.floor_sqrt depth units.0) _ units.2 in
    build_permutation-IsInterleaver np.sorting n_bits 1 units.0 perm.0 il units.1 perm.2

gather-gather :
    (perm inverse row : List ℕ)
    → All (λ (i : ℕ). i < length perm) inverse
    → gather inverse (gather perm row) ≡ gather (gather inverse perm) row
gather-gather perm [] row h = refl
gather-gather perm (i ∷ inverse) row h =
    ap₂ ◌∷◌ (get_or-map perm i h.0) (gather-gather perm inverse row h.1)
  where
    get_or-map :
        (perm : List ℕ) (i : ℕ)
        → i < length perm
        → get_or (gather perm row) i 0 ≡ get_or row (get_or perm i 0) 0
    get_or-map [] i k = absurd (omega arith)
    get_or-map (p ∷ perm) zero k = refl
    get_or-map (p ∷ perm) (suc i) k = get_or-map perm i (omega arith)

-- A row comes back from the inverse of a permutation.
gather_inverse :
    (np : Sorting) (n : ℕ) (perm row : List ℕ)
    → sorted perm ≡ count_up 0 n
    → length row ≡ n
    → gather (np.argsort perm) (gather perm row) ≡ row
gather_inverse np n perm row h e =
    gather-gather perm (np.argsort perm) row (np.argsort-range perm)
    ∙ (ap (λ (t : List ℕ). gather t row) (np.argsort-sorted perm ∙ (h ∙ ap (count_up 0) (sym e)))
        ∙ map-get_or row 0)

gather_inverse_rows :
    (np : Sorting) (n : ℕ) (perm : List ℕ) (rows : List (List ℕ))
    → sorted perm ≡ count_up 0 n
    → All (λ (row : List ℕ). length row ≡ n) rows
    → map (gather (np.argsort perm)) (map (gather perm) rows) ≡ rows
gather_inverse_rows np n perm [] h k = refl
gather_inverse_rows np n perm (row ∷ rows) h k =
    ap₂ ◌∷◌ (gather_inverse np n perm row h k.0) (gather_inverse_rows np n perm rows h k.1)

-- A list that sorts to a range is as long as the range.
pub length-perm : (n : ℕ) (perm : List ℕ) → sorted perm ≡ count_up 0 n → length perm ≡ n
length-perm n perm h = sym (length-sorted perm) ∙ (ap length h ∙ length-count_up 0 n)

length-argsort :
    (np : Sorting) (n : ℕ) (perm : List ℕ)
    → sorted perm ≡ count_up 0 n
    → length (np.argsort perm) ≡ n
length-argsort np n perm h =
    sym (length-map (np.argsort perm) (λ (i : ℕ). get_or perm i 0))
    ∙ (ap length (np.argsort-sorted perm) ∙ (length-sorted perm ∙ length-perm n perm h))

-- The array that `encode` returns.
abbrev pub interleaved : Interleaver → Batch → Batch
interleaved il bits = record { width = length il.perm; rows = map (gather il.perm) bits.rows }

-- What `encode` returns, `decode` restores.
pub restored :
    (np : Sorting) (n : ℕ) (il : Interleaver) (bits : Batch)
    → IsInterleaver np n il
    → IsBatch bits
    → bits.width ≡ n
    → (encode il bits ≡ ok (interleaved il bits)) × (decode il (interleaved il bits) ≡ ok bits)
unfolding encode decode
restored np n il bits h k e =
    let same_size : (bits.width == il.n_bits) ≡ true = (==_iff _ _).1 (e ∙ sym h.size) in
    let long : length il.perm ≡ il.n_bits = length-perm n il.perm h.bijective ∙ sym h.size in
    let back : length il.inverse_perm ≡ bits.width =
      ap length h.inverse ∙ (length-argsort np n il.perm h.bijective ∙ sym e) in
    let rows : map (gather il.inverse_perm) (map (gather il.perm) bits.rows) ≡ bits.rows =
      ap (λ (t : List ℕ). map (gather t) (map (gather il.perm) bits.rows)) h.inverse
      ∙ gather_inverse_rows np n il.perm bits.rows h.bijective
          (subst (λ (w : ℕ). All (λ (row : List ℕ). length row ≡ w) bits.rows) e k) in
    (
      rw same_size refl,
      rw ((==_iff _ _).1 long)
          (ap₂ (λ (w : ℕ) (r : List (List ℕ)). ok (record { width = w; rows = r })) back rows),
    )

gather-entries :
    (P : ℕ → Type 0) (indices row : List ℕ) → P 0 → All P row → All P (gather indices row)
gather-entries P [] row z h = tt
gather-entries P (i ∷ indices) row z h = (entry row i h, gather-entries P indices row z h)
  where
    entry : (row : List ℕ) (i : ℕ) → All P row → P (get_or row i 0)
    entry [] i k = z
    entry (x ∷ row) zero k = k.0
    entry (x ∷ row) (suc i) k = entry row i k.1

-- Interleaving moves entries, and nothing else.
pub interleaved-IsBlock :
    (P : ℕ → Type 0) (il : Interleaver) (w : ℕ) (rows : List (List ℕ))
    → P 0
    → All (IsBlock P w) rows
    → All (IsBlock P (length il.perm)) (map (gather il.perm) rows)
interleaved-IsBlock P il w [] z h = tt
interleaved-IsBlock P il w (row ∷ rows) z h = (
  (length-map il.perm (λ (i : ℕ). get_or row i 0), gather-entries P il.perm row z h.0.1),
  interleaved-IsBlock P il w rows z h.1,
)

-- For an interleaver that its constructor returned, of any of the four schemes, and a batch of
-- rows of its size: `encode` returns a batch of the same size, and `decode` of that batch returns
-- the batch that was encoded.
pub interleaver_round_trip :
    (np : Sources) (scheme : Scheme) (n_bits : ℕ) (il : Interleaver) (bits : Batch)
    → interleaver np scheme n_bits ≡ ok il
    → IsBatch bits
    → bits.width ≡ n_bits
    → (sent : Batch) × (encode il bits ≡ ok sent)
      × (sent.width ≡ n_bits)
      × (decode il sent ≡ ok bits)
interleaver_round_trip np scheme n_bits il bits h k e =
    let made = interleaver-IsInterleaver np scheme n_bits il h in
    let both = restored np.sorting n_bits il bits made k e in
    (interleaved il bits, both.0, length-perm n_bits il.perm made.bijective, both.1)

-- An interleaver that its constructor returned refuses, in both directions, exactly the batches
-- whose rows are of another size, with `ValueError`.
interleaver_refuses :
    (np : Sources) (scheme : Scheme) (n_bits : ℕ) (il : Interleaver) (bits : Batch)
    → interleaver np scheme n_bits ≡ ok il
    → ((encode il bits ≡ raise value_error) ↔ (bits.width ≢ n_bits))
      × ((decode il bits ≡ raise value_error) ↔ (bits.width ≢ n_bits))
unfolding encode decode
interleaver_refuses np scheme n_bits il bits h =
    let size = (interleaver-IsInterleaver np scheme n_bits il h).size in ground (arith, size)
