-- ===== src/Fec/Codes.antt =====
-- What the callers of a code rely on: every row of a batch is coded by itself, and decoding a batch
-- that arrives as it was sent gives back what was encoded.
use spectracuda.Common.{ℕ, ◌≤◌, ◌≡◌, refl, ap₂, List, [], ◌∷◌, map, Outcome, ok, length, All}
use spectracuda.Numpy.{Batch}

abbrev pub batch : ℕ → List (List ℕ) → Batch
batch width rows = record { width = width; rows = rows }

abbrev pub IsBlock : (ℕ → Type 0) → ℕ → List ℕ → Type 0
IsBlock IsEntry width row = (length row ≡ width) × All IsEntry row

-- `Fits` are the widths that are coded, and `grown` the widths that come of them; a batch has `least`
-- rows at least.
pub record IsCode (IsEntry Fits : ℕ → Type 0) (least : ℕ) (grown : ℕ → ℕ)
    (encode decode : Batch → Outcome Batch) : Type 0 where
  pub code : List ℕ → List ℕ
  pub plain : List ℕ → List ℕ
  pub code-IsBlock :
      (w : ℕ) (row : List ℕ) → Fits w → IsBlock IsEntry w row → IsBlock IsEntry (grown w) (code row)
  pub plain-code : (w : ℕ) (row : List ℕ) → Fits w → IsBlock IsEntry w row → plain (code row) ≡ row
  pub encodes :
      (w : ℕ) (rows : List (List ℕ))
      → Fits w
      → least ≤ length rows
      → All (IsBlock IsEntry w) rows
      → encode (batch w rows) ≡ ok (batch (grown w) (map code rows))
  pub decodes :
      (w : ℕ) (rows : List (List ℕ))
      → Fits w
      → least ≤ length rows
      → All (IsBlock IsEntry w) rows
      → decode (batch (grown w) (map code rows)) ≡ ok (batch w rows)

-- Functions that agree on the rows make the same batch of them.
pub map-on_rows {ℓ} :
    {P : List ℕ → Type ℓ} (f g : List ℕ → List ℕ) (rows : List (List ℕ))
    → ((row : List ℕ) → P row → f row ≡ g row)
    → All P rows
    → map f rows ≡ map g rows
map-on_rows f g [] e h = refl
map-on_rows f g (row ∷ rows) e h = ap₂ ◌∷◌ (e row h.0) (map-on_rows f g rows e h.1)

-- What holds of each row's image holds of all of them.
pub All-map {ℓ κ} :
    {P : List ℕ → Type ℓ} (Q : List ℕ → Type κ) (f : List ℕ → List ℕ) (rows : List (List ℕ))
    → ((row : List ℕ) → P row → Q (f row))
    → All P rows
    → All Q (map f rows)
All-map Q f [] e h = tt
All-map Q f (row ∷ rows) e h = (e row h.0, All-map Q f rows e h.1)

pub All-imp {ℓ κ} :
    {P : List ℕ → Type ℓ} {Q : List ℕ → Type κ} (rows : List (List ℕ))
    → ((row : List ℕ) → P row → Q row)
    → All P rows
    → All Q rows
All-imp [] e h = tt
All-imp (row ∷ rows) e h = (e row h.0, All-imp rows e h.1)

-- Functions that undo each other on the rows give the batch back.
pub map-back {ℓ} :
    {P : List ℕ → Type ℓ} (f g : List ℕ → List ℕ) (rows : List (List ℕ))
    → ((row : List ℕ) → P row → f (g row) ≡ row)
    → All P rows
    → map f (map g rows) ≡ rows
map-back f g [] e h = refl
map-back f g (row ∷ rows) e h = ap₂ ◌∷◌ (e row h.0) (map-back f g rows e h.1)
