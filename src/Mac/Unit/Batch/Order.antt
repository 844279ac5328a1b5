-- ===== src/Mac/Unit/Batch/Order.antt =====
-- A batch comes to the results of its frames, in their order.
use spectracuda.Common.{
  ℕ, zero, suc, ◌+◌, ◌%◌, ◌≤◌, ◌<◌, ◌≡◌, ◌∙◌, refl, sym, ap, List, [], ◌∷◌, ◌++◌, Option, none,
  some, Outcome, ok, Dict, lookup, ◌==◌, if◌then◌else◌, length, min, max, arith, map, ap₂,
  append_assoc, length-append, Bool-cases, inl, inr,
}
use native.Mathlib.Decide.{dec_lt}
use spectracuda.Mac.Quality.{Floats}
use spectracuda.Mac.Radio.{Radio, RxResult}
use spectracuda.Mac.Unit.Iq.{rx_process_only}
use spectracuda.Mac.Unit.Batch.{
  result_at, worker, workers, results_from, decode_in_turn, decode_batch,
}

module _ {F State Iq Scheme : Type 0} (floats : Floats F) (radio : Radio F State Iq Scheme) where
  module _ (s : State) (f : Iq → Option (RxResult F))
      (h : (iq : Iq) → rx_process_only floats radio s iq ≡ ok (f iq)) (n : ℕ) where
    stored : ℕ → ℕ → List Iq → Dict (Option (RxResult F))
    stored w i [] = []
    stored w i (iq ∷ iqs) =
        let rest = stored w (i + 1) iqs in if i % n == w then (i, f iq) ∷ rest else rest

    worker-stored :
        (w i : ℕ) (iqs : List Iq) → worker floats radio s n w i iqs ≡ ok (stored w i iqs)
    unfolding worker stored
    worker-stored w i [] = refl
    worker-stored w i (iq ∷ iqs) = ground (arith, h iq, worker-stored w (i + 1) iqs)

    lookup-stored_before : (w i j : ℕ) (iqs : List Iq) → j < i → lookup j (stored w i iqs) ≡ none
    unfolding stored lookup
    lookup-stored_before w i j [] k = refl
    lookup-stored_before w i j (iq ∷ iqs) k = ground (arith, lookup-stored_before w (i + 1) j iqs)

    lookup-stored :
        (w i : ℕ) (pre : List Iq) (iq : Iq) (post : List Iq)
        → lookup (i + length pre) (stored w i (pre ++ iq ∷ post))
          ≡ (if (i + length pre) % n == w then some (f iq) else none)
    unfolding stored lookup
    lookup-stored w i [] iq post = ground (arith, lookup-stored_before w (i + 1) i post)
    lookup-stored w i (p ∷ pre) iq post =
        ap (λ (j : ℕ). lookup j (stored w i (p ∷ pre ++ iq ∷ post))) next
        ∙ (skip
            ∙ (lookup-stored w (i + 1) pre iq post
                ∙ ap (λ (j : ℕ). if j % n == w then some (f iq) else none) (sym next)))
      where
        next : i + suc (length pre) ≡ i + 1 + length pre
        next = omega arith

        skip :
            lookup (i + 1 + length pre) (stored w i (p ∷ pre ++ iq ∷ post))
            ≡ lookup (i + 1 + length pre) (stored w (i + 1) (pre ++ iq ∷ post))
        skip = unfold stored in unfold lookup in ground arith

    all_stored : ℕ → ℕ → List Iq → Dict (Option (RxResult F))
    all_stored w zero iqs = []
    all_stored w (suc count) iqs = stored w 0 iqs ++ all_stored (w + 1) count iqs

    workers-stored :
        (w count : ℕ) (iqs : List Iq)
        → workers floats radio s n w count iqs ≡ ok (all_stored w count iqs)
    unfolding workers all_stored
    workers-stored w zero iqs = refl
    workers-stored w (suc count) iqs =
        rw (worker-stored w 0 iqs, workers-stored (w + 1) count iqs) refl

    lookup-append_none :
        (j : ℕ) (d e : Dict (Option (RxResult F)))
        → lookup j d ≡ none
        → lookup j (d ++ e) ≡ lookup j e
    unfolding lookup
    lookup-append_none j [] e k = refl
    lookup-append_none j ((i, r) ∷ d) e k = ground (arith, lookup-append_none j d e)

    lookup-append_some :
        (j : ℕ) (d e : Dict (Option (RxResult F))) (r : Option (RxResult F))
        → lookup j d ≡ some r
        → lookup j (d ++ e) ≡ some r
    unfolding lookup
    lookup-append_some j [] e r k = cc
    lookup-append_some j ((i, q) ∷ d) e r k = ground (arith, lookup-append_some j d e r)

    lookup-all_stored :
        (count w : ℕ) (pre : List Iq) (iq : Iq) (post : List Iq)
        → w ≤ length pre % n
        → length pre % n < w + count
        → lookup (length pre) (all_stored w count (pre ++ iq ∷ post)) ≡ some (f iq)
    unfolding all_stored
    lookup-all_stored zero w pre iq post a b = absurd (omega arith)
    lookup-all_stored (suc count) w pre iq post a b = elim (dec_lt w (length pre % n)) [
      | yes later ↦
          lookup-append_none (length pre) (stored w 0 (pre ++ iq ∷ post)) _ (here ∙ ground arith)
          ∙ lookup-all_stored count (w + 1) pre iq post (omega arith) (omega arith)
      | no now ↦
          lookup-append_some (length pre) (stored w 0 (pre ++ iq ∷ post)) _ (f iq)
            (here ∙ ground arith)
    ]
      where
        here :
            lookup (length pre) (stored w 0 (pre ++ iq ∷ post))
            ≡ (if length pre % n == w then some (f iq) else none)
        here =
            ap (λ (j : ℕ). lookup j (stored w 0 (pre ++ iq ∷ post)))
              (let z : length pre ≡ 0 + length pre = omega arith in z)
            ∙ (lookup-stored w 0 pre iq post
                ∙ ap (λ (j : ℕ). if j % n == w then some (f iq) else none)
                    (let z : 0 + length pre ≡ length pre = omega arith in z))

    results_from-map :
        (pre post : List Iq)
        → 0 < n
        → results_from floats radio (all_stored 0 n (pre ++ post)) (length pre) post ≡ map f post
    unfolding results_from
    results_from-map pre [] pos = refl
    results_from-map pre (iq ∷ post) pos =
        ap₂ ◌∷◌ (ap result_at (lookup-all_stored n 0 pre iq post (omega arith) (omega arith))) (
          ap₂ (λ (l : List Iq) (j : ℕ). results_from floats radio (all_stored 0 n l) j post)
            (sym (append_assoc pre (iq ∷ []) post)) (omega (arith, length-append pre (iq ∷ [])))
          ∙ results_from-map (pre ++ iq ∷ []) post pos)

    decode_in_turn-map : (iqs : List Iq) → decode_in_turn floats radio s iqs ≡ ok (map f iqs)
    unfolding decode_in_turn
    decode_in_turn-map [] = refl
    decode_in_turn-map (iq ∷ iqs) = rw (h iq, decode_in_turn-map iqs) refl

  -- If the OFDM object and the replicas decode each frame alike, to `f`, without an exception, then a
  -- batch of frames comes to the results of the frames in their order, however many workers there are.
  pub decode_batch-map :
      (s s' : State) (fresh : Outcome State) (f : Iq → Option (RxResult F)) (n_workers : ℕ)
      (iqs : List Iq)
      → fresh ≡ ok s'
      → ((iq : Iq) → rx_process_only floats radio s iq ≡ ok (f iq))
      → ((iq : Iq) → rx_process_only floats radio s' iq ≡ ok (f iq))
      → decode_batch floats radio s fresh n_workers iqs ≡ ok (map f iqs)
  unfolding decode_batch
  decode_batch-map s s' fresh f n_workers iqs e h k =
      let n : ℕ = max 1 (min n_workers (length iqs)) in
      elim (Bool-cases (n == 1)) [
        | inl one ↦ rw one (decode_in_turn-map s f h 1 iqs)
        | inr many ↦
            rw (many, e, workers-stored s' f k n 0 n iqs)
              (ap ok (results_from-map s' f k n [] iqs (omega arith)))
      ]
