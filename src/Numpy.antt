-- ===== src/Numpy.antt =====
-- What the source uses of numpy: two-dimensional arrays, the behaviour that numpy documents for
-- `packbits` and `unpackbits` on arrays of bytes, most significant bit first, and for `argsort`.
pub mod Instance
pub mod Bytes
use spectracuda.Common.{ℕ, ◌<◌, ◌≡◌, List, [], ◌∷◌, ◌++◌, map, bits_of, length, get_or, sorted, All}

-- An array of rows, all of `width` entries.
pub record Batch : Type 0 where
  pub width : ℕ
  pub rows : List (List ℕ)

abbrev pub IsBatch : Batch → Type 0
IsBatch batch = All (λ (row : List ℕ). length row ≡ batch.width) batch.rows

pub record Packing : Type 0 where
  pub unpackbits : List ℕ → List ℕ
  pub packbits : List ℕ → List ℕ
  pub unpackbits-nil : unpackbits [] ≡ []
  pub unpackbits-cons :
      (b : ℕ) (bytes : List ℕ) → b < 256 → unpackbits (b ∷ bytes) ≡ bits_of 8 b ++ unpackbits bytes
  pub packbits-nil : packbits [] ≡ []
  pub packbits-append :
      (b : ℕ) (bits : List ℕ) → b < 256 → packbits (bits_of 8 b ++ bits) ≡ b ∷ packbits bits

-- `argsort` returns the indices that sort its argument.
pub record Sorting : Type 0 where
  pub argsort : List ℕ → List ℕ
  pub argsort-range : (a : List ℕ) → All (λ (i : ℕ). i < length a) (argsort a)
  pub argsort-sorted : (a : List ℕ) → map (λ (i : ℕ). get_or a i 0) (argsort a) ≡ sorted a
