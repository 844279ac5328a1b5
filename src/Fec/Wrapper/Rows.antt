-- ===== src/Fec/Wrapper/Rows.antt =====
-- One row of a batch, cut into blocks and joined again.
use spectracuda.Common.{
  length-take, All-take, All-drop, All-append, ℕ, zero, suc, ◌*◌, ◌≡◌, refl, sym, ap, ap₂, ◌∙◌,
  List, [], ◌∷◌, ◌++◌, map, arith, length, length-append, take, drop, take_append, drop_append,
  length-drop, take-append-drop, map-append, All, flat_map, length-map,
}
use spectracuda.Fec.Codes.{IsBlock}
use spectracuda.Fec.Wrapper.{cut, join_blocks}

module _ {ℓ} {A : Type ℓ} where
  -- The blocks of a list of blocks of lists, joined.
  abbrev pub joined : List (List A) → List A
  joined blocks = flat_map (λ (block : List A). block) blocks

  pub length-cut : (n size : ℕ) (row : List A) → length (cut n size row) ≡ n
  length-cut zero size row = refl
  length-cut (suc n) size row = ap suc (length-cut n size (drop size row))

  pub joined-cut :
      (n size : ℕ) (row : List A) → length row ≡ n * size → joined (cut n size row) ≡ row
  joined-cut zero size [] h = refl
  joined-cut zero size (x ∷ row) h = absurd (omega arith)
  joined-cut (suc n) size row h =
      ap (λ (t : List A). take size row ++ t)
        (joined-cut n size (drop size row) (omega (arith, length-drop size row)))
      ∙ take-append-drop size row

  pub cut-joined :
      (size : ℕ) (blocks : List (List A))
      → All (λ (block : List A). length block ≡ size) blocks
      → cut (length blocks) size (joined blocks) ≡ blocks
  cut-joined size [] h = refl
  cut-joined size (block ∷ blocks) h = ap₂ ◌∷◌ (rw (sym h.0) (take_append block (joined blocks))) (
      ap (cut (length blocks) size) (rw (sym h.0) (drop_append block (joined blocks)))
      ∙ cut-joined size blocks h.1)

  pub length-joined :
      (size : ℕ) (blocks : List (List A))
      → All (λ (block : List A). length block ≡ size) blocks
      → length (joined blocks) ≡ length blocks * size
  length-joined size [] h = omega arith
  length-joined size (block ∷ blocks) h =
      omega (arith, h.0, length-append block (joined blocks), length-joined size blocks h.1)

  join_blocks-flat_map :
      (n_blocks : ℕ) (f : List A → List (List A)) (rows : List (List A))
      → ((row : List A) → length (f row) ≡ n_blocks)
      → join_blocks (length rows) n_blocks (flat_map f rows)
        ≡ map (λ (row : List A). joined (f row)) rows
  join_blocks-flat_map n_blocks f [] h = refl
  join_blocks-flat_map n_blocks f (row ∷ rows) h =
      let first : take n_blocks (f row ++ flat_map f rows) ≡ f row =
        rw (sym (h row)) (take_append (f row) (flat_map f rows)) in
      let rest : drop n_blocks (f row ++ flat_map f rows) ≡ flat_map f rows =
        rw (sym (h row)) (drop_append (f row) (flat_map f rows)) in
      ap₂ ◌∷◌ (ap joined first)
        (ap (join_blocks (length rows) n_blocks) rest ∙ join_blocks-flat_map n_blocks f rows h)

map-flat_map {ℓ} :
    {A B C : Type ℓ} (g : B → C) (f : A → List B) (xs : List A)
    → map g (flat_map f xs) ≡ flat_map (λ (x : A). map g (f x)) xs
map-flat_map g f [] = refl
map-flat_map g f (x ∷ xs) =
    map-append g (f x) (flat_map f xs) ∙ ap (λ (t : List _). map g (f x) ++ t) (map-flat_map g f xs)

-- The blocks of all rows go through `g`, and come back row by row.
pub join_blocks-cut {ℓ} :
    {A : Type ℓ} (n_blocks size : ℕ) (g : List A → List A) (rows : List (List A))
    → join_blocks (length rows) n_blocks (map g (flat_map (cut n_blocks size) rows))
      ≡ map (λ (row : List A). joined (map g (cut n_blocks size row))) rows
join_blocks-cut n_blocks size g rows =
    ap (join_blocks (length rows) n_blocks) (map-flat_map g (cut n_blocks size) rows)
    ∙ join_blocks-flat_map n_blocks (λ (row : List _). map g (cut n_blocks size row)) rows
        (λ row. length-map (cut n_blocks size row) g ∙ length-cut n_blocks size row)

pub cut-IsBlock :
    (IsEntry : ℕ → Type 0) (q size : ℕ) (row : List ℕ)
    → IsBlock IsEntry (q * size) row
    → All (IsBlock IsEntry size) (cut q size row)
cut-IsBlock IsEntry zero size row h = tt
cut-IsBlock IsEntry (suc q) size row h = (
  (omega (arith, h.0, length-take size row), All-take IsEntry size row h.1),
  cut-IsBlock IsEntry q size (drop size row)
      (omega (arith, h.0, length-drop size row), All-drop IsEntry size row h.1),
)

pub All-flat_map :
    (P : List ℕ → Type 0) (Q : List ℕ → Type 0) (f : List ℕ → List (List ℕ)) (rows : List (List ℕ))
    → ((row : List ℕ) → P row → All Q (f row))
    → All P rows
    → All Q (flat_map f rows)
All-flat_map P Q f [] e h = tt
All-flat_map P Q f (row ∷ rows) e h =
    All-append Q (f row) (flat_map f rows) (e row h.0) (All-flat_map P Q f rows e h.1)

pub All-joined :
    (P : ℕ → Type 0) (blocks : List (List ℕ)) → All (All P) blocks → All P (joined blocks)
All-joined P [] h = tt
All-joined P (block ∷ blocks) h = All-append P block (joined blocks) h.0 (All-joined P blocks h.1)

pub lengths :
    (IsEntry : ℕ → Type 0) (size : ℕ) (blocks : List (List ℕ))
    → All (IsBlock IsEntry size) blocks
    → All (λ (block : List ℕ). length block ≡ size) blocks
lengths IsEntry size [] h = tt
lengths IsEntry size (block ∷ blocks) h = (h.0.0, lengths IsEntry size blocks h.1)

pub entries :
    (IsEntry : ℕ → Type 0) (size : ℕ) (blocks : List (List ℕ))
    → All (IsBlock IsEntry size) blocks
    → All (All IsEntry) blocks
entries IsEntry size [] h = tt
entries IsEntry size (block ∷ blocks) h = (h.0.1, entries IsEntry size blocks h.1)
