-- ===== src/Common/Sorted.antt =====
-- Python's `sorted` on numbers, and permutations of a range.
use Prim.Native.Nat.{ℕ, zero, suc}
use mathlib.Core.Path.{◌≡◌, refl, sym, ap, ◌∙◌}
use mathlib.Core.Bool.{Bool, true, false}
use mathlib.Core.Logic.{∥∥₁_elim, ∥∥₁_prop}
use mathlib.Core.List.{List, [], ◌∷◌, ◌++◌, Perm, foldr, perm_middle}
use mathlib.Core.List.Perm
use mathlib.Core.List.{Permᴰ, is_set}
use native.Mathlib.Nat.{ℕ_set}
use native.Mathlib.Omega.{arith}
use package.spectracuda.Common.Tests.{leb, le→leb, if◌then◌else◌}
use package.spectracuda.Common.Lists.{length, count_up, flat_map}

unfoldable pub insert_sorted : ℕ → List ℕ → List ℕ
insert_sorted x [] = x ∷ []
insert_sorted x (y ∷ ys) = if leb x y then x ∷ y ∷ ys else y ∷ insert_sorted x ys

unfoldable pub sorted : List ℕ → List ℕ
sorted = foldr insert_sorted []

insert_sorted-perm : (x : ℕ) (xs : List ℕ) → Perm (insert_sorted x xs) (x ∷ xs)
unfolding insert_sorted
insert_sorted-perm x [] = Perm.rfl
insert_sorted-perm x (y ∷ ys) =
    elim (leb x y)
      as (λ (b : Bool). Perm (if b then x ∷ y ∷ ys else y ∷ insert_sorted x ys) (x ∷ y ∷ ys)) [
        | true ↦ Perm.rfl
        | false ↦ Perm.trans (Perm.cons y (insert_sorted-perm x ys)) (Perm.swap x y ys)
      ]

-- `sorted` rearranges its argument.
sorted-perm : (xs : List ℕ) → Perm (sorted xs) xs
unfolding sorted
sorted-perm [] = Perm.rfl
sorted-perm (x ∷ xs) = Perm.trans (insert_sorted-perm x (sorted xs)) (Perm.cons x (sorted-perm xs))

insert_sorted_comm :
    (x y : ℕ) (xs : List ℕ)
    → insert_sorted x (insert_sorted y xs) ≡ insert_sorted y (insert_sorted x xs)
unfolding insert_sorted
insert_sorted_comm x y [] = ground arith
insert_sorted_comm x y (z ∷ zs) = ground (arith, insert_sorted_comm x y zs)

-- Lists with the same entries have the same `sorted` list.
pub sorted-eq_of_perm : {xs ys : List ℕ} → Perm xs ys → sorted xs ≡ sorted ys
unfolding sorted
sorted-eq_of_perm p = Perm.foldr-eq (is_set ℕ_set) insert_sorted insert_sorted_comm p []

insert_sorted-count_up : (i n : ℕ) → insert_sorted i (count_up (suc i) n) ≡ i ∷ count_up (suc i) n
unfolding insert_sorted
insert_sorted-count_up i zero = refl
insert_sorted-count_up i (suc n) = rw (le→leb i (suc i) (omega arith)) refl

sorted-count_up : (i n : ℕ) → sorted (count_up i n) ≡ count_up i n
unfolding sorted
sorted-count_up i zero = refl
sorted-count_up i (suc n) =
    ap (insert_sorted i) (sorted-count_up (suc i) n) ∙ insert_sorted-count_up i n

-- The permutations of a range are the lists that `sorted` makes that range.
pub sorted-range : {xs : List ℕ} (n : ℕ) → Perm xs (count_up 0 n) → sorted xs ≡ count_up 0 n
sorted-range n p = sorted-eq_of_perm p ∙ sorted-count_up 0 n

pub sorted-range_perm : {xs : List ℕ} (n : ℕ) → sorted xs ≡ count_up 0 n → Perm xs (count_up 0 n)
sorted-range_perm {xs} n e = rw (sym e) (Perm.symm (sorted-perm xs))

-- Blocks of a list change places.
pub swap_blocks : (xs ys zs : List ℕ) → Perm (xs ++ (ys ++ zs)) (ys ++ (xs ++ zs))
swap_blocks [] ys zs = Perm.rfl
swap_blocks (x ∷ xs) ys zs =
    Perm.trans (Perm.cons x (swap_blocks xs ys zs)) (Perm.symm (perm_middle ys (xs ++ zs)))

Permᴰ-expand :
    (expand : ℕ → List ℕ) {xs ys : List ℕ}
    → Permᴰ xs ys
    → Perm (flat_map expand xs) (flat_map expand ys)
Permᴰ-expand expand Permᴰ.nil = Perm.rfl
Permᴰ-expand expand (Permᴰ.cons {a = a} {b = b} {l₁ = l} {l₂ = r} e p) =
    rw e (Perm.append_left (expand b) (Permᴰ-expand expand p))
Permᴰ-expand expand (Permᴰ.swap {a = a} {b = b} {a' = c} {b' = d} {l = l} e f) =
    rw (e, f) (swap_blocks (expand d) (expand c) (flat_map expand l))
Permᴰ-expand expand (Permᴰ.trans p q) = Perm.trans (Permᴰ-expand expand p) (Permᴰ-expand expand q)

pub perm-flat_map :
    (expand : ℕ → List ℕ) {xs ys : List ℕ}
    → Perm xs ys
    → Perm (flat_map expand xs) (flat_map expand ys)
perm-flat_map expand p = ∥∥₁_elim p ∥∥₁_prop (Permᴰ-expand expand)

length-insert_sorted : (x : ℕ) (xs : List ℕ) → length (insert_sorted x xs) ≡ suc (length xs)
unfolding insert_sorted
length-insert_sorted x [] = refl
length-insert_sorted x (y ∷ ys) = ground (arith, length-insert_sorted x ys)

pub length-sorted : (xs : List ℕ) → length (sorted xs) ≡ length xs
unfolding sorted
length-sorted [] = refl
length-sorted (x ∷ xs) = length-insert_sorted x (sorted xs) ∙ ap suc (length-sorted xs)
