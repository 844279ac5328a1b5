-- ===== src/Interleaver/Schemes/Liquid.antt =====
-- interleaver/liquid.py: passes of swaps along a walk over a grid of bytes. The labels are the
-- bits' places in groups of 8.
use spectracuda.Common.{
  set_at, ℕ, zero, suc, ◌+◌, ◌-◌, ◌*◌, ◌/◌, ◌%◌, ◌^◌, List, [], ◌∷◌, map, Bool, true, false,
  Outcome, ok, loops, ◌>>=◌, ltb, leb, ◌==◌, if◌then◌else◌, get_or, count_up, flat_map,
}

-- `while n_bytes >= M * N: N += 1`
unfoldable pub widen : ℕ → ℕ → ℕ → ℕ → Outcome ℕ
widen zero n_bytes m n = if leb (m * n) n_bytes then loops else ok n
widen (suc fuel) n_bytes m n = elim (leb (m * n) n_bytes) [
  | true ↦ widen fuel n_bytes m (n + 1)
  | false ↦ ok n
]

-- The rows and the columns of the grid.
unfoldable pub grid_dims : (ℕ → ℕ) → ℕ → Outcome (ℕ × ℕ)
grid_dims floor_sqrt n_bytes = do
  let m = 1 + floor_sqrt n_bytes
  n ← widen (n_bytes + 1) n_bytes m (n_bytes / m)
  ok (m, n)

-- Where the walk stands on the grid: a row and a column.
abbrev pub Place : Type 0
Place = ℕ × ℕ

-- `m += 1`, and at the end of a column on to the next
abbrev pub next_place : ℕ → ℕ → Place → Place
next_place rows columns (m, n) = if m + 1 == rows then (0, (n + 1) % columns) else (m + 1, n)

-- `while True`, up to a number below `half`
unfoldable pub next_index : ℕ → ℕ → ℕ → ℕ → Place → Outcome (ℕ × Place)
next_index zero rows columns half place = loops
next_index (suc fuel) rows columns half place =
    let j = place.0 * columns + place.1 in
    elim (ltb j half) [
      | true ↦ ok (j, next_place rows columns place)
      | false ↦ next_index fuel rows columns half (next_place rows columns place)
    ]

-- `for i in range(n2)`, with `n` of the rounds left. The walk comes back to its start after all
-- cells, so two times round the grid are enough for one number.
unfoldable pub walk_from : ℕ → ℕ → ℕ → ℕ → ℕ → Place → Outcome (List (ℕ × ℕ))
walk_from zero i rows columns half place = ok []
walk_from (suc n) i rows columns half place = do
  found ← next_index (2 * (rows * (columns + 1) + half)) rows columns half place
  rest ← walk_from n (i + 1) rows columns half found.1
  ok ((i, found.0) ∷ rest)

abbrev pub index_walk : ℕ → ℕ → ℕ → Outcome (List (ℕ × ℕ))
index_walk n_bytes rows columns =
    walk_from (n_bytes / 2) 0 rows columns (n_bytes / 2) (0, n_bytes / 3)

-- `labels[a], labels[b] = labels[b], labels[a]`
unfoldable pub swap_groups : ℕ → ℕ → List (List ℕ) → List (List ℕ)
swap_groups a b labels = set_at b (get_or labels a []) (set_at a (get_or labels b []) labels)

-- `labels[a][k], labels[b][k] = labels[b][k], labels[a][k]`
unfoldable pub swap_bits : ℕ → ℕ → ℕ → List (List ℕ) → List (List ℕ)
swap_bits k a b labels =
    let first = get_or labels a [] in
    let second = get_or labels b [] in
    set_at b (set_at k (get_or first k 0) second)
      (set_at a (set_at k (get_or second k 0) first) labels)

unfoldable pub wholebyte_pass : List (ℕ × ℕ) → List (List ℕ) → List (List ℕ)
wholebyte_pass [] labels = labels
wholebyte_pass ((i, j) ∷ walk) labels = wholebyte_pass walk (swap_groups (2 * j + 1) (2 * i) labels)

-- `[k for k in range(8) if (mask >> (7 - k)) & 1]`
unfoldable pub bits_from : List ℕ → ℕ → List ℕ
bits_from [] mask = []
bits_from (k ∷ ks) mask =
    let rest = bits_from ks mask in if mask / 2 ^ (7 - k) % 2 == 1 then k ∷ rest else rest

unfoldable pub swap_all : List ℕ → ℕ → ℕ → List (List ℕ) → List (List ℕ)
swap_all [] a b labels = labels
swap_all (k ∷ ks) a b labels = swap_all ks a b (swap_bits k a b labels)

unfoldable pub mask_pass : List ℕ → List (ℕ × ℕ) → List (List ℕ) → List (List ℕ)
mask_pass positions [] labels = labels
mask_pass positions ((i, j) ∷ walk) labels =
    mask_pass positions walk (swap_all positions (2 * i) (2 * j + 1) labels)

-- `_permute_labels_wholebyte`
unfoldable pub permute_labels_wholebyte : List (List ℕ) → ℕ → ℕ → ℕ → Outcome (List (List ℕ))
permute_labels_wholebyte labels n_bytes rows columns = do
  walk ← index_walk n_bytes rows columns
  ok (wholebyte_pass walk labels)

-- `_permute_labels_mask`
unfoldable pub permute_labels_mask : List (List ℕ) → ℕ → ℕ → ℕ → ℕ → Outcome (List (List ℕ))
permute_labels_mask labels n_bytes rows columns mask = do
  walk ← index_walk n_bytes rows columns
  ok (mask_pass (bits_from (count_up 0 8) mask) walk labels)

-- `if depth > k`, one pass more
abbrev pub pass_if : Bool → Outcome (List (List ℕ)) → List (List ℕ) → Outcome (List (List ℕ))
pass_if test pass labels = if test then pass else ok labels

unfoldable pub liquid_permutation : (ℕ → ℕ) → ℕ → ℕ → Outcome (List ℕ)
liquid_permutation floor_sqrt depth n_bits = do
  let n_bytes = n_bits / 8
  dims ← grid_dims floor_sqrt n_bytes
  let m = dims.0
  let n = dims.1
  let labels =
      map (λ (byte : ℕ). map (λ (bit : ℕ). 8 * byte + bit) (count_up 0 8)) (count_up 0 n_bytes)
  first ← pass_if (ltb 0 depth) (permute_labels_wholebyte labels n_bytes m n) labels
  second ← pass_if (ltb 1 depth) (permute_labels_mask first n_bytes m (n + 2) 0x0F) first
  third ← pass_if (ltb 2 depth) (permute_labels_mask second n_bytes m (n + 4) 0x55) second
  fourth ← pass_if (ltb 3 depth) (permute_labels_mask third n_bytes m (n + 8) 0x33) third
  ok (flat_map (λ (group : List ℕ). group) fourth)
