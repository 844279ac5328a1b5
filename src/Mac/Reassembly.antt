-- ===== src/Mac/Reassembly.antt =====
-- mac/reassembly.py, class ReassemblyBuffer: segments that arrive by sequence number become SDUs.
pub mod Drain
pub mod Invariant
pub mod Resync
pub mod InOrder
use spectracuda.Common.{
  ℕ, zero, suc, ◌+◌, List, [], ◌∷◌, ◌++◌, Bool, true, false, ◌&&◌, ◌||◌, not, Outcome, ok, raise,
  loops, value_error, ◌>>=◌, ◌>>◌, require, ltb, leb, ◌==◌, if◌then◌else◌, length, Option, none,
  some, Dict, lookup, insert, remove, has_key, keys,
}
use spectracuda.Mac.Pdu.{si_full, si_last, sn_add, sn_precedes}
use spectracuda.Mac.Segmenter.{Piece}

pub record Buffer : Type 0 where
  pub window_size : ℕ
  pub expected_sn : ℕ
  pub pending : Dict Piece
  pub in_progress : List (List ℕ)

-- `ReassemblyBuffer(window_size, initial_expected_sn)`
unfoldable pub buffer : ℕ → ℕ → Outcome Buffer
buffer window_size initial_expected_sn = do
  require (leb 1 window_size)
  ok (record {
    window_size = window_size;
    expected_sn = initial_expected_sn;
    pending = [];
    in_progress = [];
  })

-- `np.concatenate(arrays)`
abbrev pub concatenate : List (List ℕ) → List ℕ
concatenate [] = []
concatenate (xs ∷ arrays) = xs ++ concatenate arrays

-- `min(keys)`, which raises on an empty dict
unfoldable pub min_from : ℕ → List ℕ → ℕ
min_from k [] = k
min_from k (j ∷ ks) = min_from (if ltb j k then j else k) ks

unfoldable pub min_key : List ℕ → Outcome ℕ
min_key [] = raise value_error
min_key (k ∷ ks) = ok (min_from k ks)

-- One round of the delivery loop: the SDUs that it completes, and the buffer after it.
unfoldable pub deliver : Piece → Buffer → List (List ℕ) × Buffer
deliver p b =
    let arrived = b.in_progress ++ p.bits ∷ [] in
    let popped = remove b.expected_sn b.pending in
    let next = sn_add b.expected_sn 1 in
    if p.si == si_full || p.si == si_last
    then (
      concatenate arrived ∷ [],
      record b { pending = popped; in_progress = []; expected_sn = next },
    )
    else ([], record b { pending = popped; in_progress = arrived; expected_sn = next })

abbrev pub prepend {ℓ} :
    {S : Type ℓ} → List (List ℕ) → Outcome (List (List ℕ) × S) → Outcome (List (List ℕ) × S)
prepend done (ok (more, s)) = ok (done ++ more, s)
prepend done (raise e) = raise e
prepend done loops = loops

-- `while self._expected_sn in self._pending`
unfoldable pub drain : ℕ → Buffer → Outcome (List (List ℕ) × Buffer)
drain zero b = loops
drain (suc fuel) b = elim (lookup b.expected_sn b.pending) [
  | none ↦ ok ([], b)
  | some p ↦ prepend (deliver p b).0 (drain fuel (deliver p b).1)
]

-- The window has filled up without the expected segment: go on with the smallest pending number.
unfoldable pub resync : Buffer → Outcome Buffer
resync b = do
  first ← min_key (keys b.pending)
  ok (record b { in_progress = []; expected_sn = first })

unfoldable pub give_up : Buffer → Outcome Buffer
unfolding resync
give_up b =
    if ltb b.window_size (length b.pending) && not (has_key b.expected_sn b.pending)
    then resync b
    else ok b

unfoldable pub ingest : ℕ → Piece → Buffer → Outcome (List (List ℕ) × Buffer)
ingest sn p b = if sn_precedes sn b.expected_sn then ok ([], b) else do
  b' ← give_up (record b { pending = insert sn p b.pending })
  drain (suc (length b'.pending)) b'
