-- ===== src/Mac/Unit/Batch.antt =====
-- mac/mac.py: a batch of frames, decoded by several workers and then handled in order. A replica is
-- an OFDM object in the state `fresh` that its constructor leaves; the pool only keeps replicas.
pub mod Order
use spectracuda.Common.{
  ℕ, zero, suc, ◌+◌, ◌-◌, ◌%◌, ◌≤◌, ◌<◌, ◌≡◌, ◌∙◌, refl, sym, ap, List, [], ◌∷◌, ◌++◌, Bool, true,
  false, Option, none, some, Outcome, ok, raise, loops, Dict, lookup, ltb, ◌==◌, if◌then◌else◌,
  length, min, max, arith, map, ap₂, append_assoc, length-append, Bool-cases, inl, inr,
}
use native.Mathlib.Decide.{dec_lt}
use spectracuda.Common.Stateful.{Method, continue_with, ◌>>=◌, ◌>>◌, return, lift}
use spectracuda.Mac.Quality.{Floats}
use spectracuda.Mac.Radio.{Radio, RxResult}
use spectracuda.Mac.Unit.{MacUnit}
use spectracuda.Mac.Unit.Iq.{
  require_ofdm, rx_process_only, apply_rx_result, rx_one_frame, deliver, receive_iq,
}

-- `results[i]`, which is `None` until a worker stores it
abbrev pub result_at : {A : Type 0} → Option (Option A) → Option A
result_at none = none
result_at (some r) = r

abbrev pub store : {A : Type 0} → ℕ → Outcome A → Outcome (Dict A) → Outcome (Dict A)
store i (ok r) (ok rest) = ok ((i, r) ∷ rest)
store i (ok r) (raise e) = raise e
store i (ok r) loops = loops
store i (raise e) rest = raise e
store i loops rest = loops

abbrev pub join_results : {A : Type 0} → Outcome (Dict A) → Outcome (Dict A) → Outcome (Dict A)
join_results (ok d) (ok rest) = ok (d ++ rest)
join_results (ok d) (raise e) = raise e
join_results (ok d) loops = loops
join_results (raise e) rest = raise e
join_results loops rest = loops

abbrev pub next_result : {A : Type 0} → Outcome A → Outcome (List A) → Outcome (List A)
next_result (ok r) (ok rest) = ok (r ∷ rest)
next_result (ok r) (raise e) = raise e
next_result (ok r) loops = loops
next_result (raise e) rest = raise e
next_result loops rest = loops

module _ {F State Iq Scheme : Type 0} (floats : Floats F) (radio : Radio F State Iq Scheme) where
  -- `_worker(worker_idx)`: the frames whose place `i` leaves the remainder `worker_idx`
  unfoldable pub worker : State → ℕ → ℕ → ℕ → List Iq → Outcome (Dict (Option (RxResult F)))
  worker s n_workers worker_idx i [] = ok []
  worker s n_workers worker_idx i (iq ∷ iqs) =
      let rest = worker s n_workers worker_idx (i + 1) iqs in
      if i % n_workers == worker_idx then store i (rx_process_only floats radio s iq) rest else rest

  -- The workers from `worker_idx` on, `count` of them.
  unfoldable pub workers : State → ℕ → ℕ → ℕ → List Iq → Outcome (Dict (Option (RxResult F)))
  unfolding worker
  workers s n_workers worker_idx zero iqs = ok []
  workers s n_workers worker_idx (suc count) iqs =
      let rest = workers s n_workers (worker_idx + 1) count iqs in
      join_results (worker s n_workers worker_idx 0 iqs) rest

  -- `results`, from a place on
  unfoldable pub results_from :
      Dict (Option (RxResult F)) → ℕ → List Iq → List (Option (RxResult F))
  results_from d i [] = []
  results_from d i (iq ∷ iqs) = result_at (lookup i d) ∷ results_from d (i + 1) iqs

  abbrev collected :
      List Iq → Outcome (Dict (Option (RxResult F))) → Outcome (List (Option (RxResult F)))
  collected iqs (ok d) = ok (results_from d 0 iqs)
  collected iqs (raise e) = raise e
  collected iqs loops = loops

  unfoldable pub decode_in_turn : State → List Iq → Outcome (List (Option (RxResult F)))
  decode_in_turn s [] = ok []
  decode_in_turn s (iq ∷ iqs) =
      let rest = decode_in_turn s iqs in next_result (rx_process_only floats radio s iq) rest

  abbrev by_workers : Outcome State → ℕ → List Iq → Outcome (List (Option (RxResult F)))
  by_workers (ok replica) n iqs = collected iqs (workers replica n 0 n iqs)
  by_workers (raise e) n iqs = raise e
  by_workers loops n iqs = loops

  unfoldable pub decode_batch :
      State → Outcome State → ℕ → List Iq → Outcome (List (Option (RxResult F)))
  unfolding workers results_from decode_in_turn
  decode_batch s fresh n_workers iqs =
      let n = max 1 (min n_workers (length iqs)) in
      if n == 1 then decode_in_turn s iqs else by_workers fresh n iqs

  -- The stateful half, in the order of the frames.
  unfoldable pub handle_all :
      List (Option (RxResult F)) → Method (MacUnit F State) (List (List (List ℕ)))
  handle_all [] = return []
  handle_all (result ∷ results) = do
    arrived ← apply_rx_result floats radio result
    now ← deliver floats radio arrived
    more ← handle_all results
    return (now ∷ more)

  unfoldable pub receive_iq_batch :
      Outcome State → List Iq → ℕ → Method (MacUnit F State) (List (List (List ℕ)))
  unfolding decode_batch handle_all
  receive_iq_batch fresh iqs n_workers = do
    s ← require_ofdm
    results ← lift (decode_batch s fresh n_workers iqs)
    handle_all results
