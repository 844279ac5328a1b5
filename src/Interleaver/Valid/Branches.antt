-- ===== src/Interleaver/Valid/Branches.antt =====
-- The convolutional interleaver's permutation: the branches read in turn, until all are read.
use mathlib.Core.List.{Perm}
use mathlib.Core.List.Perm
use mathlib.Core.Path.{subst}
use spectracuda.Common.{
  ℕ, zero, suc, ◌+◌, ◌<◌, ◌≤◌, ◌≡◌, refl, sym, ap, ◌∙◌, List, [], ◌∷◌, ◌++◌, Bool, true, false,
  Bool-cases, inl, inr, Outcome, ok, arith, ltb, ltb→lt, if◌then◌else◌, length, length-append,
  length-replicate, get_or, drop, replicate, drop-get_or, drop_all, count_up, length-count_up,
  append_assoc, append-nil, swap_blocks,
}
use spectracuda.Interleaver.Schemes.{
  deal, shifted_from, Readout, read_round, read_all, convolutional_permutation,
}
use spectracuda.Interleaver.Valid.Deal.{
  joined, length_perm, length-deal, deal-perm, length-shifted_from, shifted_from-perm,
}

-- What is still to be read.
rest_of : List (List ℕ) → List ℕ → List ℕ
rest_of (lst ∷ lists) (k ∷ idx) = drop k lst ++ rest_of lists idx
rest_of lists idx = []

-- One branch is read by one, or is done.
read_one :
    (lst perm rest : List ℕ) (k : ℕ) (is_left : Bool)
    → ltb k (length lst) ≡ is_left
    → (if is_left then perm ++ (get_or lst k 0 ∷ []) else perm)
        ++ (drop (if is_left then k + 1 else k) lst ++ rest)
      ≡ perm ++ (drop k lst ++ rest)
read_one lst perm rest k true h =
    let next : k + 1 ≡ suc k = omega arith in
    rw (next, drop-get_or k lst 0 (ltb→lt k (length lst) h))
      (append_assoc perm (get_or lst k 0 ∷ []) _)
read_one lst perm rest k false h = refl

read_round-perm :
    (lists : List (List ℕ)) (idx perm : List ℕ) (filled : ℕ)
    → length idx ≡ length lists
    → Perm
        ((read_round lists idx perm filled).perm
          ++ rest_of lists (read_round lists idx perm filled).idx)
        (perm ++ rest_of lists idx)
unfolding read_round rest_of
read_round-perm [] idx perm filled h = Perm.rfl
read_round-perm (lst ∷ lists) [] perm filled h = absurd (omega arith)
read_round-perm (lst ∷ lists) (k ∷ idx) perm filled h =
    let is_left = ltb k (length lst) in
    let read = if is_left then perm ++ (get_or lst k 0 ∷ []) else perm in
    let count = if is_left then filled + 1 else filled in
    let left = drop (if is_left then k + 1 else k) lst in
    let rest = read_round lists idx read count in
    Perm.trans (swap_blocks rest.perm left (rest_of lists rest.idx)) (
      Perm.trans (Perm.append_left left (read_round-perm lists idx read count (omega arith))) (
        Perm.trans (swap_blocks left read (rest_of lists idx))
          (rw (read_one lst perm (rest_of lists idx) k (ltb k (length lst)) refl) Perm.rfl)))

-- How far the branches are read is told for each of them, and what is read is counted.
length-read_round :
    (lists : List (List ℕ)) (idx perm : List ℕ) (filled : ℕ)
    → length idx ≡ length lists
    → length (read_round lists idx perm filled).idx ≡ length lists
unfolding read_round
length-read_round [] idx perm filled h = refl
length-read_round (lst ∷ lists) [] perm filled h = absurd (omega arith)
length-read_round (lst ∷ lists) (k ∷ idx) perm filled h =
    ap suc (length-read_round lists idx _ _ (omega arith))

count_one :
    (is_left : Bool) (lst perm : List ℕ) (k filled : ℕ)
    → (if is_left then filled + 1 else filled) + length perm
      ≡ filled + length (if is_left then perm ++ (get_or lst k 0 ∷ []) else perm)
count_one true lst perm k filled = omega (arith, length-append perm (get_or lst k 0 ∷ []))
count_one false lst perm k filled = refl

read_round-count :
    (lists : List (List ℕ)) (idx perm : List ℕ) (filled : ℕ)
    → (read_round lists idx perm filled).filled + length perm
      ≡ filled + length (read_round lists idx perm filled).perm
unfolding read_round
read_round-count [] idx perm filled = refl
read_round-count (lst ∷ lists) [] perm filled = refl
read_round-count (lst ∷ lists) (k ∷ idx) perm filled =
    let is_left = ltb k (length lst) in
    omega (
      arith,
      count_one is_left lst perm k filled,
      read_round-count lists idx (if is_left then perm ++ (get_or lst k 0 ∷ []) else perm)
          (if is_left then filled + 1 else filled),
    )

-- While anything is left, a round reads some of it.
read_round-progress :
    (lists : List (List ℕ)) (idx perm : List ℕ) (filled : ℕ)
    → length idx ≡ length lists
    → (filled ≤ (read_round lists idx perm filled).filled)
      × ((0 < length (rest_of lists idx)) → filled < (read_round lists idx perm filled).filled)
unfolding read_round rest_of
read_round-progress [] idx perm filled h = (omega arith, λ e. absurd (omega arith))
read_round-progress (lst ∷ lists) [] perm filled h = absurd (omega arith)
read_round-progress (lst ∷ lists) (k ∷ idx) perm filled h = elim (Bool-cases (ltb k (length lst))) [
  | inl left ↦
      (let later =
          read_round-progress lists idx (perm ++ (get_or lst k 0 ∷ [])) (filled + 1)
            (omega arith) in
        rw left (omega (arith, later.0), λ e. omega (arith, later.0)))
  | inr done ↦
      (let later = read_round-progress lists idx perm filled (omega arith) in
        let none_left : drop k lst ≡ [] = drop_all k lst (ground arith) in
        rw (done, none_left) (later.0, later.1))
]

abbrev IsRead : ℕ → Outcome (List ℕ) → Type 0
IsRead n r = (perm : List ℕ) × (r ≡ ok perm) × Perm perm (count_up 0 n)

empty_of_length : (xs : List ℕ) → length xs ≡ 0 → xs ≡ []
empty_of_length [] h = refl
empty_of_length (x ∷ xs) h = absurd (omega arith)

module _ (n : ℕ) (lists : List (List ℕ)) (state : Readout)
    (counted : state.filled ≡ length state.perm)
    (holds : Perm (state.perm ++ rest_of lists state.idx) (count_up 0 n)) where
  total : length state.perm + length (rest_of lists state.idx) ≡ n
  total =
      sym (length-append state.perm (rest_of lists state.idx))
      ∙ (length_perm holds ∙ length-count_up 0 n)

  -- All positions are read when as many are.
  all_read : ltb state.filled n ≡ false → Perm state.perm (count_up 0 n)
  all_read e =
      let full : n ≤ state.filled = ground arith in
      let none_left = empty_of_length (rest_of lists state.idx) (omega (arith, total, counted)) in
      rw (append-nil state.perm) at (rw none_left at holds)

read_all_more :
    (fuel n : ℕ) (lists : List (List ℕ)) (state : Readout)
    → ltb state.filled n ≡ true
    → read_all (suc fuel) n lists state
      ≡ read_all fuel n lists (read_round lists state.idx state.perm state.filled)
unfolding read_all
read_all_more fuel n lists state more = rw (more, read_all) refl

read_all-IsRead :
    (fuel n : ℕ) (lists : List (List ℕ)) (state : Readout)
    → length state.idx ≡ length lists
    → state.filled ≡ length state.perm
    → Perm (state.perm ++ rest_of lists state.idx) (count_up 0 n)
    → n ≤ state.filled + fuel
    → IsRead n (read_all fuel n lists state)
unfolding read_all
read_all-IsRead zero n lists state h e p g =
    let done : ltb state.filled n ≡ false = ground arith in
    (state.perm, rw done refl, all_read n lists state e p done)
read_all-IsRead (suc fuel) n lists state h e p g = elim (Bool-cases (ltb state.filled n)) [
  | inr done ↦ (state.perm, rw (done, read_all) refl, all_read n lists state e p done)
  | inl more ↦
      (let next = read_round lists state.idx state.perm state.filled in
        let progress = read_round-progress lists state.idx state.perm state.filled h in
        let below : state.filled < n = ltb→lt state.filled n more in
        let left : 0 < length (rest_of lists state.idx) = omega (arith, total n lists state e p) in
        let further = progress.1 left in
        let counted : next.filled ≡ length next.perm =
          omega (arith, read_round-count lists state.idx state.perm state.filled) in
        let rest =
          read_all-IsRead fuel n lists next
            (length-read_round lists state.idx state.perm state.filled h) counted
            (Perm.trans (read_round-perm lists state.idx state.perm state.filled h) p)
            (omega arith) in
        subst (IsRead n) (sym (read_all_more fuel n lists state more)) rest)
]

rest_of-zeros : (lists : List (List ℕ)) → rest_of lists (replicate (length lists) 0) ≡ joined lists
unfolding rest_of
rest_of-zeros [] = refl
rest_of-zeros (lst ∷ lists) = ap (λ (t : List ℕ). lst ++ t) (rest_of-zeros lists)

joined-replicate : (n : ℕ) → joined (replicate n []) ≡ []
joined-replicate zero = refl
joined-replicate (suc n) = joined-replicate n

-- The read-out ends within its rounds, and reads a permutation of the positions.
pub convolutional_permutation-perm :
    (branches base_delay n_units : ℕ)
    → 0 < branches
    → (perm : List ℕ) × (convolutional_permutation branches base_delay n_units ≡ ok perm)
      × Perm perm (count_up 0 n_units)
unfolding convolutional_permutation
convolutional_permutation-perm branches base_delay n_units h =
    let empty = replicate branches [] in
    let lists = deal n_units 0 branches empty in
    let shifted = shifted_from 0 base_delay lists in
    let wide : length shifted ≡ branches =
      length-shifted_from 0 base_delay lists
      ∙ (length-deal n_units 0 branches empty ∙ length-replicate branches []) in
    let start : rest_of shifted (replicate branches 0) ≡ joined shifted =
      ap (λ (n : ℕ). rest_of shifted (replicate n 0)) (sym wide) ∙ rest_of-zeros shifted in
    let dealt : Perm (joined lists) (count_up 0 n_units) =
      rw (joined-replicate branches, append-nil (count_up 0 n_units)) at
        (deal-perm n_units 0 branches empty h (length-replicate branches [])) in
    read_all-IsRead n_units n_units shifted
      (record { perm = []; idx = replicate branches 0; filled = 0 })
      (length-replicate branches 0 ∙ sym wide) refl
      (rw start (Perm.trans (shifted_from-perm 0 base_delay lists) dealt)) (omega arith)
