-- ===== src/Interleaver/Valid/Deal.antt =====
-- Positions dealt to branches and rotated there, which keeps each of them.
use mathlib.Core.List.{Perm, perm_middle}
use mathlib.Core.List.Perm
use mathlib.Core.Path.{subst}
use spectracuda.Common.{
  ℕ, zero, suc, ◌+◌, ◌*◌, ◌%◌, ◌<◌, ◌≡◌, refl, sym, ap, ◌∙◌, List, [], ◌∷◌, ◌++◌, false, arith,
  ◌==◌, length, take, drop, take-append-drop, count_up, flat_map, append_assoc, append-nil,
  sorted-eq_of_perm, length-sorted, swap_blocks, mod-below,
}
use spectracuda.Interleaver.Schemes.{append_to, deal, rotate, shifted_from}

abbrev pub joined : List (List ℕ) → List ℕ
joined lists = flat_map (λ (lst : List ℕ). lst) lists

pub length_perm : {xs ys : List ℕ} → Perm xs ys → length xs ≡ length ys
length_perm {xs} {ys} p =
    sym (length-sorted xs) ∙ (ap length (sorted-eq_of_perm p) ∙ length-sorted ys)

length-append_to :
    (i pos : ℕ) (lists : List (List ℕ)) → length (append_to i pos lists) ≡ length lists
unfolding append_to
length-append_to i pos [] = refl
length-append_to zero pos (lst ∷ lists) = refl
length-append_to (suc i) pos (lst ∷ lists) = ap suc (length-append_to i pos lists)

append_to-perm :
    (i pos : ℕ) (lists : List (List ℕ))
    → i < length lists
    → Perm (joined (append_to i pos lists)) (pos ∷ joined lists)
unfolding append_to
append_to-perm i pos [] h = absurd (omega arith)
append_to-perm zero pos (lst ∷ lists) h =
    rw (append_assoc lst (pos ∷ []) (joined lists)) (perm_middle lst (joined lists))
append_to-perm (suc i) pos (lst ∷ lists) h =
    Perm.trans (Perm.append_left lst (append_to-perm i pos lists (omega arith)))
      (perm_middle lst (joined lists))

pub length-deal :
    (n pos branches : ℕ) (lists : List (List ℕ)) → length (deal n pos branches lists) ≡ length lists
unfolding deal
length-deal zero pos branches lists = refl
length-deal (suc n) pos branches lists =
    length-deal n (pos + 1) branches (append_to (pos % branches) pos lists)
    ∙ length-append_to (pos % branches) pos lists

pub deal-perm :
    (n pos branches : ℕ) (lists : List (List ℕ))
    → 0 < branches
    → length lists ≡ branches
    → Perm (joined (deal n pos branches lists)) (count_up pos n ++ joined lists)
unfolding deal
deal-perm zero pos branches lists h e = Perm.rfl
deal-perm (suc n) pos branches lists h e =
    let dealt = append_to (pos % branches) pos lists in
    let next : pos + 1 ≡ suc pos = omega arith in
    let there : pos % branches < length lists = omega (arith, mod-below pos branches h) in
    let rest =
      deal-perm n (pos + 1) branches dealt h (length-append_to (pos % branches) pos lists ∙ e) in
    Perm.trans rest (
      rw next (
        Perm.trans
          (Perm.append_left (count_up (suc pos) n)
            (append_to-perm (pos % branches) pos lists there))
          (perm_middle (count_up (suc pos) n) (joined lists))))

turn : (xs ys : List ℕ) → Perm (ys ++ xs) (xs ++ ys)
turn xs ys = rw (append-nil xs, append-nil ys) at (swap_blocks ys xs [])

rotate-perm : (delay : ℕ) (lst : List ℕ) → Perm (rotate delay lst) lst
rotate-perm delay [] = Perm.rfl
rotate-perm delay (x ∷ lst) =
    let some : (suc (length lst) == 0) ≡ false = ground arith in
    let k = delay % suc (length lst) in
    rw some (
      subst (λ (t : List ℕ). Perm (drop k (x ∷ lst) ++ take k (x ∷ lst)) t)
        (take-append-drop k (x ∷ lst)) (turn (take k (x ∷ lst)) (drop k (x ∷ lst))))

pub length-shifted_from :
    (i base_delay : ℕ) (lists : List (List ℕ))
    → length (shifted_from i base_delay lists) ≡ length lists
unfolding shifted_from
length-shifted_from i base_delay [] = refl
length-shifted_from i base_delay (lst ∷ lists) =
    ap suc (length-shifted_from (i + 1) base_delay lists)

pub shifted_from-perm :
    (i base_delay : ℕ) (lists : List (List ℕ))
    → Perm (joined (shifted_from i base_delay lists)) (joined lists)
unfolding shifted_from
shifted_from-perm i base_delay [] = Perm.rfl
shifted_from-perm i base_delay (lst ∷ lists) =
    Perm.append (rotate-perm (i * base_delay) lst) (shifted_from-perm (i + 1) base_delay lists)
