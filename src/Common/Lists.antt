-- ===== src/Common/Lists.antt =====
-- Lists measured and indexed by native numbers, under the library's names. A one-dimensional
-- numpy array is the list of its entries.
use Prim.Native.Nat.{ℕ, zero, suc, ◌+◌, ◌-◌, ◌≤◌, ◌<◌, min}
use mathlib.Core.Path.{◌≡◌, refl, ap, sym, ◌∙◌}
use mathlib.Core.List.{List, [], ◌∷◌, ◌++◌, map}
use mathlib.Core.Option.{Option, none, some}
use mathlib.Core.Bool.{Bool, true, false, ◌&&◌}
use mathlib.Core.Logic.{◌↔◌}
use native.Mathlib.Omega.{arith}
use package.spectracuda.Common.Tests.{◌==◌}

module _ {ℓ} {A : Type ℓ} where
  abbrev pub length : List A → ℕ
  length [] = 0
  length (x ∷ xs) = suc (length xs)

  abbrev pub get_elem? : List A → ℕ → Option A
  get_elem? [] i = none
  get_elem? (x ∷ xs) zero = some x
  get_elem? (x ∷ xs) (suc i) = get_elem? xs i

  abbrev pub get_or : List A → ℕ → A → A
  get_or [] i d = d
  get_or (x ∷ xs) zero d = x
  get_or (x ∷ xs) (suc i) d = get_or xs i d

  abbrev pub take : ℕ → List A → List A
  take zero xs = []
  take (suc n) [] = []
  take (suc n) (x ∷ xs) = x ∷ take n xs

  abbrev pub drop : ℕ → List A → List A
  drop zero xs = xs
  drop (suc n) [] = []
  drop (suc n) (x ∷ xs) = drop n xs

  abbrev pub replicate : ℕ → A → List A
  replicate zero a = []
  replicate (suc n) a = a ∷ replicate n a

  pub length-append : (xs ys : List A) → length (xs ++ ys) ≡ length xs + length ys
  length-append [] ys = omega arith
  length-append (x ∷ xs) ys = omega (arith, length-append xs ys)

  pub take-append-drop : (n : ℕ) (xs : List A) → take n xs ++ drop n xs ≡ xs
  take-append-drop zero xs = refl
  take-append-drop (suc n) [] = refl
  take-append-drop (suc n) (x ∷ xs) = rw (take-append-drop n xs)

  pub length-take : (n : ℕ) (xs : List A) → length (take n xs) ≡ min n (length xs)
  length-take zero xs = omega arith
  length-take (suc n) [] = omega arith
  length-take (suc n) (x ∷ xs) = omega (arith, length-take n xs)

  pub length-drop : (n : ℕ) (xs : List A) → length (drop n xs) ≡ length xs - n
  length-drop zero xs = omega arith
  length-drop (suc n) [] = omega arith
  length-drop (suc n) (x ∷ xs) = omega (arith, length-drop n xs)

  pub length-replicate : (n : ℕ) (a : A) → length (replicate n a) ≡ n
  length-replicate zero a = refl
  length-replicate (suc n) a = ap suc (length-replicate n a)

  pub take_append : (xs ys : List A) → take (length xs) (xs ++ ys) ≡ xs
  take_append [] ys = refl
  take_append (x ∷ xs) ys = rw (take_append xs ys)

  pub drop_append : (xs ys : List A) → drop (length xs) (xs ++ ys) ≡ ys
  drop_append [] ys = refl
  drop_append (x ∷ xs) ys = drop_append xs ys

  pub take_all : (n : ℕ) (xs : List A) → length xs ≤ n → take n xs ≡ xs
  take_all zero [] h = refl
  take_all zero (x ∷ xs) h = absurd (omega arith)
  take_all (suc n) [] h = refl
  take_all (suc n) (x ∷ xs) h = rw (take_all n xs (omega arith))

  pub drop_all : (n : ℕ) (xs : List A) → length xs ≤ n → drop n xs ≡ []
  drop_all zero [] h = refl
  drop_all zero (x ∷ xs) h = absurd (omega arith)
  drop_all (suc n) [] h = refl
  drop_all (suc n) (x ∷ xs) h = drop_all n xs (omega arith)

module _ {ℓ κ} {A : Type ℓ} {B : Type κ} where
  pub length-map : (xs : List A) (f : A → B) → length (map f xs) ≡ length xs
  length-map [] f = refl
  length-map (x ∷ xs) f = ap suc (length-map xs f)

-- The entries' lists, one after the other.
abbrev pub flat_map {ℓ κ} : {A : Type ℓ} {B : Type κ} → (A → List B) → List A → List B
flat_map f [] = []
flat_map f (x ∷ xs) = f x ++ flat_map f xs

-- A predicate on every entry; it computes to a tuple, which the tactics read and build.
abbrev pub All {ℓ κ} : {A : Type ℓ} → (A → Type κ) → List A → Type κ
All P [] = Unit
All P (x ∷ xs) = P x × All P xs

module _ {ℓ κ} {A : Type ℓ} (P : A → Type κ) where
  pub All-append : (xs ys : List A) → All P xs → All P ys → All P (xs ++ ys)
  All-append [] ys hx hy = hy
  All-append (x ∷ xs) ys hx hy = (hx.0, All-append xs ys hx.1 hy)

  pub All-take : (n : ℕ) (xs : List A) → All P xs → All P (take n xs)
  All-take zero xs h = tt
  All-take (suc n) [] h = tt
  All-take (suc n) (x ∷ xs) h = (h.0, All-take n xs h.1)

  pub All-drop : (n : ℕ) (xs : List A) → All P xs → All P (drop n xs)
  All-drop zero xs h = h
  All-drop (suc n) [] h = tt
  All-drop (suc n) (x ∷ xs) h = All-drop n xs h.1

module _ {ℓ} {A : Type ℓ} where
  drop-nil : (n : ℕ) → drop {A = A} n [] ≡ []
  drop-nil zero = refl
  drop-nil (suc n) = refl

  drop-drop : (m n : ℕ) (xs : List A) → drop n (drop m xs) ≡ drop (m + n) xs
  drop-drop zero n xs = ap (λ (k : ℕ). drop k xs) (omega arith)
  drop-drop (suc m) n [] = drop-nil n ∙ sym (drop-nil (suc m + n))
  drop-drop (suc m) n (x ∷ xs) =
      drop-drop m n xs
      ∙ ap (λ (k : ℕ). drop k (x ∷ xs)) (let e : suc (m + n) ≡ suc m + n = omega arith in e)

  -- The two parts of what stands from `m` on.
  pub take-drop-append : (m n : ℕ) (xs : List A) → take n (drop m xs) ++ drop (m + n) xs ≡ drop m xs
  take-drop-append m n xs =
      ap (λ (ys : List A). take n (drop m xs) ++ ys) (sym (drop-drop m n xs))
      ∙ take-append-drop n (drop m xs)

module _ {ℓ κ μ} {A : Type ℓ} {B : Type κ} {C : Type μ} where
  -- An operation on two arrays of the same length, entry by entry.
  abbrev pub zip_with : (A → B → C) → List A → List B → List C
  zip_with f (x ∷ xs) (y ∷ ys) = f x y ∷ zip_with f xs ys
  zip_with f _ _ = []

  pub length-zip_with :
      (xs : List A) (ys : List B) (f : A → B → C)
      → length xs ≡ length ys
      → length (zip_with f xs ys) ≡ length xs
  length-zip_with [] ys f h = refl
  length-zip_with (x ∷ xs) [] f h = absurd (omega arith)
  length-zip_with (x ∷ xs) (y ∷ ys) f h = ap suc (length-zip_with xs ys f (omega arith))

-- `range(i, i + n)`
abbrev pub count_up : ℕ → ℕ → List ℕ
count_up i zero = []
count_up i (suc n) = i ∷ count_up (suc i) n

pub length-count_up : (i n : ℕ) → length (count_up i n) ≡ n
length-count_up i zero = refl
length-count_up i (suc n) = ap suc (length-count_up (suc i) n)

module _ {ℓ} {A : Type ℓ} where
  -- What stands from place `i` on starts with the entry there.
  pub drop-get_or :
      (i : ℕ) (xs : List A) (d : A) → i < length xs → drop i xs ≡ get_or xs i d ∷ drop (suc i) xs
  drop-get_or i [] d h = absurd (omega arith)
  drop-get_or zero (x ∷ xs) d h = refl
  drop-get_or (suc i) (x ∷ xs) d h = drop-get_or i xs d (omega arith)

-- Whether two arrays of numbers are the same.
unfoldable pub all_equal : List ℕ → List ℕ → Bool
all_equal [] [] = true
all_equal (x ∷ xs) (y ∷ ys) = (x == y) && all_equal xs ys
all_equal xs ys = false

pub all_equal_iff : (xs ys : List ℕ) → (all_equal xs ys ≡ true) ↔ (xs ≡ ys)
unfolding all_equal
all_equal_iff [] [] = (λ h. refl, λ h. refl)
all_equal_iff [] (y ∷ ys) = (λ h. cc, λ h. cc)
all_equal_iff (x ∷ xs) [] = (λ h. cc, λ h. cc)
all_equal_iff (x ∷ xs) (y ∷ ys) = ground (arith, all_equal_iff xs ys)

-- A range stays below its end.
pub count_up-range : (i n bound : ℕ) → i + n ≤ bound → All (λ (k : ℕ). k < bound) (count_up i n)
count_up-range i zero bound h = tt
count_up-range i (suc n) bound h = (omega arith, count_up-range (suc i) n bound (omega arith))

count_up-suc {ℓ} :
    {B : Type ℓ} (i n : ℕ) (f : ℕ → B)
    → map f (count_up (suc i) n) ≡ map (λ (k : ℕ). f (suc k)) (count_up i n)
count_up-suc i zero f = refl
count_up-suc i (suc n) f = ap (◌∷◌ (f (suc i))) (count_up-suc (suc i) n f)

-- All entries in turn make up the list.
pub map-get_or {ℓ} :
    {A : Type ℓ} (xs : List A) (d : A)
    → map (λ (i : ℕ). get_or xs i d) (count_up 0 (length xs)) ≡ xs
map-get_or [] d = refl
map-get_or (x ∷ xs) d =
    ap (◌∷◌ x) (count_up-suc 0 (length xs) (λ (i : ℕ). get_or (x ∷ xs) i d) ∙ map-get_or xs d)

-- A write; beyond the end nothing is written.
unfoldable pub set_at {ℓ} : {A : Type ℓ} → ℕ → A → List A → List A
set_at i a [] = []
set_at zero a (x ∷ xs) = a ∷ xs
set_at (suc i) a (x ∷ xs) = x ∷ set_at i a xs

-- What stands between two lists.
pub get_or_middle {ℓ} :
    {A : Type ℓ} (before after : List A) (a d : A)
    → get_or (before ++ a ∷ after) (length before) d ≡ a
get_or_middle [] after a d = refl
get_or_middle (b ∷ before) after a d = get_or_middle before after a d

pub set_at_middle {ℓ} :
    {A : Type ℓ} (before after : List A) (a b : A)
    → set_at (length before) b (before ++ a ∷ after) ≡ before ++ b ∷ after
unfolding set_at
set_at_middle [] after a b = refl
set_at_middle (c ∷ before) after a b = ap (◌∷◌ c) (set_at_middle before after a b)

-- A place in a list has a list before it and one behind it.
pub middle {ℓ} :
    {A : Type ℓ} (i : ℕ) (xs : List A)
    → i < length xs
    → (before : List A) × (a : A) × (after : List A) × (xs ≡ before ++ a ∷ after)
      × (length before ≡ i)
middle i [] h = absurd (omega arith)
middle zero (x ∷ xs) h = ([], x, xs, refl, refl)
middle (suc i) (x ∷ xs) h =
    let m = middle i xs (omega arith) in (x ∷ m.0, m.1, m.2, ap (◌∷◌ x) m.3, ap suc m.4)

pub set_at_beyond {ℓ} :
    {A : Type ℓ} (i : ℕ) (a : A) (xs : List A) → length xs ≤ i → set_at i a xs ≡ xs
unfolding set_at
set_at_beyond i a [] h = refl
set_at_beyond zero a (x ∷ xs) h = absurd (omega arith)
set_at_beyond (suc i) a (x ∷ xs) h = ap (◌∷◌ x) (set_at_beyond i a xs (omega arith))

pub get_or-map-count_up :
    (f : ℕ → ℕ) (first count n : ℕ)
    → n < count
    → get_or (map f (count_up first count)) n 0 ≡ f (first + n)
get_or-map-count_up f first zero n h = absurd (omega arith)
get_or-map-count_up f first (suc count) zero h = ap f (omega arith)
get_or-map-count_up f first (suc count) (suc n) h =
    get_or-map-count_up f (suc first) count n (omega arith) ∙ ap f (omega arith)

pub set_at_append {ℓ} :
    {A : Type ℓ} (before xs : List A) (i : ℕ) (a : A)
    → set_at (length before + i) a (before ++ xs) ≡ before ++ set_at i a xs
unfolding set_at
set_at_append [] xs i a = ap (λ (n : ℕ). set_at n a xs) (omega arith)
set_at_append (b ∷ before) xs i a =
    ap (λ (n : ℕ). set_at n a (b ∷ before ++ xs))
      (let e : suc (length before) + i ≡ suc (length before + i) = omega arith in e)
    ∙ ap (◌∷◌ b) (set_at_append before xs i a)

pub All-middle {ℓ κ} :
    {A : Type ℓ} (P : A → Type κ) (before after : List A) (a : A)
    → All P (before ++ a ∷ after)
    → P a
All-middle P [] after a h = h.0
All-middle P (b ∷ before) after a h = All-middle P before after a h.1
