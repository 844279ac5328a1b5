-- ===== src/Fec/Crc/Key.antt =====
-- The keys of fec/crc.py: their range, and the two loops that compute them.
use spectracuda.Common.{
  ℕ, zero, suc, ◌+◌, ◌-◌, ◌%◌, ◌^◌, ◌<◌, ◌≡◌, refl, sym, ap, ap₂, ◌∙◌, List, [], ◌∷◌, map, Bool,
  true, false, length, get_or, drop, drop-get_or, drop_all, length-map, length-zip_with,
  length-replicate, replicate, zip_with, bit_and, All, arith, bit_and_mask,
}
use native.Mathlib.Nat.{one-le-pow, mod-lt}
use spectracuda.Numpy.{Batch, IsBatch}
use spectracuda.Fec.Crc.{
  CrcScheme, no_crc, checksum, crc8, crc16, crc24, crc32, reg_mask, key_length, width_mask,
  next_key, final_key, row_loop, crc_row, column, column_loop, table_keys, sum, checksum_key,
  build_table, generate_key,
}

abbrev pub IsBelow : ℕ → ℕ → Type 0
IsBelow bound key = key < bound

-- Every register goes its own way through the rows.
row_loops : List ℕ → List ℕ → List (List ℕ) → List ℕ
row_loops table keys rows = zip_with (λ (key : ℕ) (row : List ℕ). row_loop table row key) keys rows

row_loop-drop :
    (table row : List ℕ) (i key : ℕ)
    → i < length row
    → row_loop table (drop (suc i) row) (next_key table key (get_or row i 0))
      ≡ row_loop table (drop i row) key
unfolding row_loop
row_loop-drop table row i key h = rw (drop-get_or i row 0 h) refl

row_loops-column :
    (table : List ℕ) (i width : ℕ) (msg : List (List ℕ)) (keys : List ℕ)
    → i < width
    → All (λ (row : List ℕ). length row ≡ width) msg
    → row_loops table (zip_with (next_key table) keys (column i msg)) (map (drop (suc i)) msg)
      ≡ row_loops table keys (map (drop i) msg)
unfolding row_loops
row_loops-column table i width [] [] below h = refl
row_loops-column table i width [] (key ∷ keys) below h = refl
row_loops-column table i width (row ∷ msg) [] below h = refl
row_loops-column table i width (row ∷ msg) (key ∷ keys) below h =
    let inside : i < length row = omega (arith, h.0) in
    ap₂ ◌∷◌ (row_loop-drop table row i key inside)
      (row_loops-column table i width msg keys below h.1)

row_loops-done :
    (table : List ℕ) (i : ℕ) (msg : List (List ℕ)) (keys : List ℕ)
    → length keys ≡ length msg
    → All (λ (row : List ℕ). length row ≡ i) msg
    → row_loops table keys (map (drop i) msg) ≡ keys
unfolding row_loops row_loop
row_loops-done table i [] [] e h = refl
row_loops-done table i [] (key ∷ keys) e h = absurd (omega arith)
row_loops-done table i (row ∷ msg) [] e h = absurd (omega arith)
row_loops-done table i (row ∷ msg) (key ∷ keys) e h =
    rw (drop_all i row (omega (arith, h.0)))
      (ap (◌∷◌ key) (row_loops-done table i msg keys (omega arith) h.1))

column_loop-row_loops :
    (n i width : ℕ) (table : List ℕ) (msg : List (List ℕ)) (keys : List ℕ)
    → i + n ≡ width
    → length keys ≡ length msg
    → All (λ (row : List ℕ). length row ≡ width) msg
    → column_loop n i table msg keys ≡ row_loops table keys (map (drop i) msg)
unfolding column_loop
column_loop-row_loops zero i width table msg keys e k h =
    let here : width ≡ i = omega arith in
    let level : All (λ (row : List ℕ). length row ≡ i) msg = rw (sym here) h in
    sym (row_loops-done table i msg keys k level)
column_loop-row_loops (suc n) i width table msg keys e k h =
    let next : i + 1 ≡ suc i = omega arith in
    let wide : length keys ≡ length (column i msg) = k ∙ sym (length-map msg _) in
    rw next (
      column_loop-row_loops n (suc i) width table msg
        (zip_with (next_key table) keys (column i msg)) (omega arith)
        (length-zip_with keys (column i msg) (next_key table) wide ∙ k) h
      ∙ row_loops-column table i width msg keys (omega arith) h)

row_loops-replicate :
    (table : List ℕ) (mask key : ℕ) (msg : List (List ℕ))
    → map (final_key mask) (row_loops table (replicate (length msg) key) (map (drop 0) msg))
      ≡ map (λ (row : List ℕ). final_key mask (row_loop table row key)) msg
unfolding row_loops
row_loops-replicate table mask key [] = refl
row_loops-replicate table mask key (row ∷ msg) =
    ap (◌∷◌ (final_key mask (row_loop table row key))) (row_loops-replicate table mask key msg)

-- The loop over columns computes what the compiled kernel computes row by row.
table_keys_numba :
    (table : List ℕ) (mask : ℕ) (msg : Batch)
    → IsBatch msg
    → table_keys false table mask msg ≡ table_keys true table mask msg
unfolding table_keys
table_keys_numba table mask msg h =
    ap (map (final_key mask)) (
      column_loop-row_loops msg.width 0 msg.width table msg.rows
        (replicate (length msg.rows) reg_mask) (omega arith)
        (length-replicate (length msg.rows) reg_mask) h)
    ∙ row_loops-replicate table mask reg_mask msg.rows

-- With numba or without it, `generate_key` computes the same keys for every batch of messages of
-- one length, under every scheme.
pub generate_key_numba :
    (scheme : CrcScheme) (msg : Batch)
    → IsBatch msg
    → generate_key false scheme msg ≡ generate_key true scheme msg
unfolding generate_key
generate_key_numba no_crc msg h = refl
generate_key_numba checksum msg h = refl
generate_key_numba crc8 msg h = table_keys_numba (build_table crc8) _ msg h
generate_key_numba crc16 msg h = table_keys_numba (build_table crc16) _ msg h
generate_key_numba crc24 msg h = table_keys_numba (build_table crc24) _ msg h
generate_key_numba crc32 msg h = table_keys_numba (build_table crc32) _ msg h

-- A key is a function of its message alone.
abbrev pub key_of : CrcScheme → List ℕ → ℕ
key_of no_crc row = 0
key_of checksum row = checksum_key row
key_of scheme row = crc_row (build_table scheme) (width_mask scheme) row

map-replicate :
    (msg : List (List ℕ)) → replicate {A = ℕ} (length msg) 0 ≡ map (λ (row : List ℕ). 0) msg
map-replicate [] = refl
map-replicate (row ∷ msg) = ap (◌∷◌ 0) (map-replicate msg)

generate_key-by_numba :
    (scheme : CrcScheme) (msg : Batch) → generate_key true scheme msg ≡ map (key_of scheme) msg.rows
unfolding generate_key table_keys
generate_key-by_numba no_crc msg = map-replicate msg.rows
generate_key-by_numba checksum msg = refl
generate_key-by_numba crc8 msg = refl
generate_key-by_numba crc16 msg = refl
generate_key-by_numba crc24 msg = refl
generate_key-by_numba crc32 msg = refl

pub generate_key_rows :
    (numba : Bool) (scheme : CrcScheme) (msg : Batch)
    → IsBatch msg
    → generate_key numba scheme msg ≡ map (key_of scheme) msg.rows
generate_key_rows true scheme msg h = generate_key-by_numba scheme msg
generate_key_rows false scheme msg h =
    generate_key_numba scheme msg h ∙ generate_key-by_numba scheme msg

final_key-lt : (k key : ℕ) → final_key (2 ^ k - 1) key < 2 ^ k
unfolding final_key
final_key-lt k key =
    rw (bit_and_mask k (bit_and (2 ^ 64 - 1 - key) reg_mask))
      (mod-lt _ (one-le-pow k 2 (omega arith)))

checksum_key-lt : (row : List ℕ) → checksum_key row < 256
unfolding checksum_key
checksum_key-lt row =
    rw (bit_and_mask 8 ((2 ^ 64 - 1 - bit_and (sum row % 2 ^ 64) 255 + 1) % 2 ^ 64)) (omega arith)

pub key_of-lt : (scheme : CrcScheme) (row : List ℕ) → key_of scheme row < 256 ^ key_length scheme
key_of-lt no_crc row = omega arith
key_of-lt checksum row = checksum_key-lt row
key_of-lt crc8 row = final_key-lt 8 _
key_of-lt crc16 row = final_key-lt 16 _
key_of-lt crc24 row = final_key-lt 24 _
key_of-lt crc32 row = final_key-lt 32 _

All-map :
    (scheme : CrcScheme) (rows : List (List ℕ))
    → All (IsBelow (256 ^ key_length scheme)) (map (key_of scheme) rows)
All-map scheme [] = tt
All-map scheme (row ∷ rows) = (key_of-lt scheme row, All-map scheme rows)

-- For a batch of messages of one length, every key that `generate_key` computes is a number of
-- `key_length` bytes, and there is one key for each message.
pub generate_key-IsBelow :
    (numba : Bool) (scheme : CrcScheme) (msg : Batch)
    → IsBatch msg
    → All (IsBelow (256 ^ key_length scheme)) (generate_key numba scheme msg)
      × (length (generate_key numba scheme msg) ≡ length msg.rows)
generate_key-IsBelow numba scheme msg h =
    rw (generate_key_rows numba scheme msg h)
      (All-map scheme msg.rows, length-map msg.rows (key_of scheme))
