-- ===== src/Numpy/Instance.antt =====
-- Functions with the behaviour of numpy's, to run the code on.
use spectracuda.Common.{
  ℕ, refl, ap, List, [], ◌∷◌, ◌++◌, bits_of, value_from, value-bits_of, ◌<◌, ◌≡◌, ◌∙◌, arith, map,
  Bool, true, false, leb, if◌then◌else◌, length, get_or, All, sorted, insert_sorted, count_up,
  count_up-range, map-get_or,
}
use spectracuda.Numpy.{Packing, Sorting}

abbrev unpack : List ℕ → List ℕ
unpack [] = []
unpack (b ∷ bytes) = bits_of 8 b ++ unpack bytes

abbrev pack : List ℕ → List ℕ
pack (b7 ∷ b6 ∷ b5 ∷ b4 ∷ b3 ∷ b2 ∷ b1 ∷ b0 ∷ bits) =
    value_from 0 (b7 ∷ b6 ∷ b5 ∷ b4 ∷ b3 ∷ b2 ∷ b1 ∷ b0 ∷ []) ∷ pack bits
pack bits = []

-- A `Packing` that computes.
abbrev pub packing : Packing
packing = record {
  unpackbits = unpack;
  packbits = pack;
  unpackbits-nil = refl;
  unpackbits-cons = λ b bytes h. refl;
  packbits-nil = refl;
  packbits-append = λ b bits h. ap (λ (v : ℕ). v ∷ pack bits) (value-bits_of 8 b h);
}

-- The index goes before the first one whose entry is not smaller.
unfoldable pub insert_index : List ℕ → ℕ → List ℕ → List ℕ
insert_index a i [] = i ∷ []
insert_index a i (j ∷ js) =
    if leb (get_or a i 0) (get_or a j 0) then i ∷ j ∷ js else j ∷ insert_index a i js

unfoldable pub sort_indices : List ℕ → List ℕ → List ℕ
sort_indices a [] = []
sort_indices a (i ∷ is) = insert_index a i (sort_indices a is)

abbrev pub entries : List ℕ → List ℕ → List ℕ
entries a indices = map (λ (i : ℕ). get_or a i 0) indices

abbrev pub IsIndex : List ℕ → ℕ → Type 0
IsIndex a i = i < length a

insert_index-range :
    (a : List ℕ) (i : ℕ) (js : List ℕ)
    → IsIndex a i
    → All (IsIndex a) js
    → All (IsIndex a) (insert_index a i js)
unfolding insert_index
insert_index-range a i [] h k = (h, tt)
insert_index-range a i (j ∷ js) h k =
    elim (leb (get_or a i 0) (get_or a j 0))
      as (λ (b : Bool). All (IsIndex a) (if b then i ∷ j ∷ js else j ∷ insert_index a i js)) [
        | true ↦ (h, k)
        | false ↦ (k.0, insert_index-range a i js h k.1)
      ]

sort_indices-range : (a is : List ℕ) → All (IsIndex a) is → All (IsIndex a) (sort_indices a is)
unfolding sort_indices
sort_indices-range a [] h = tt
sort_indices-range a (i ∷ is) h =
    insert_index-range a i (sort_indices a is) h.0 (sort_indices-range a is h.1)

insert_index-sorted :
    (a : List ℕ) (i : ℕ) (js : List ℕ)
    → entries a (insert_index a i js) ≡ insert_sorted (get_or a i 0) (entries a js)
unfolding insert_index insert_sorted
insert_index-sorted a i [] = refl
insert_index-sorted a i (j ∷ js) = ground (arith, insert_index-sorted a i js)

sort_indices-sorted : (a is : List ℕ) → entries a (sort_indices a is) ≡ sorted (entries a is)
unfolding sort_indices sorted
sort_indices-sorted a [] = refl
sort_indices-sorted a (i ∷ is) =
    insert_index-sorted a i (sort_indices a is)
    ∙ ap (insert_sorted (get_or a i 0)) (sort_indices-sorted a is)

pub argsort-range : (a : List ℕ) → All (IsIndex a) (sort_indices a (count_up 0 (length a)))
argsort-range a =
    sort_indices-range a (count_up 0 (length a))
      (count_up-range 0 (length a) (length a) (omega arith))

pub argsort-sorted : (a : List ℕ) → entries a (sort_indices a (count_up 0 (length a))) ≡ sorted a
argsort-sorted a = sort_indices-sorted a (count_up 0 (length a)) ∙ ap sorted (map-get_or a 0)

-- A `Sorting` that computes.
abbrev pub sorting : Sorting
sorting = record {
  argsort = λ a. sort_indices a (count_up 0 (length a));
  argsort-range = argsort-range;
  argsort-sorted = argsort-sorted;
}
