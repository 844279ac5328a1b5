-- ===== src/Mac/Am/Resends.antt =====
-- What reports that keep finding a PDU missing return to be sent again.
use spectracuda.Common.{
  ◌⊎◌, ℕ, ◌≤◌, ◌≡◌, ◌∙◌, refl, sym, ap, List, [], ◌∷◌, ◌++◌, true, false, arith, Outcome, ok,
  length, none, some, inl, inr, lookup, IsDict, contains, keys, ltb, ◌==◌, ==_iff, append_assoc,
  if◌then◌else◌, Bool-cases, is_some,
}
use mathlib.Core.Path.{subst}
use native.Mathlib.Decide.{dec_lt}
use spectracuda.Mac.Am.{AmEntity, Sent, receive_status}
use spectracuda.Mac.Am.Step.{judge, resent, all_resent, Distinct}
use spectracuda.Mac.Am.Report.{
  report, Settles, receive_status-Settles, has_key-contains, keys-Distinct,
}
use spectracuda.Mac.Am.Retries.{
  SaysMissing, AllMissing, Ends, advanced, after_reports, after_report, after_reports-Ends,
}

-- The numbers but `sn`.
abbrev pub others : ℕ → List ℕ → List ℕ
others sn [] = []
others sn (k ∷ ks) = if sn == k then others sn ks else k ∷ others sn ks

others_all : (sn : ℕ) (ks : List ℕ) → contains sn ks ≡ false → others sn ks ≡ ks
unfolding contains
others_all sn [] h = refl
others_all sn (k ∷ ks) h = ground (arith, others_all sn ks)

module _ (base_sn : ℕ) (bitmap : List ℕ) (a : AmEntity) where
  -- The PDUs returned are those of the other numbers, in the order of the buffer, with `mine` at one
  -- place among them.
  abbrev Among : ℕ → List ℕ → List (List ℕ) → List (List ℕ) → Type 0
  Among sn ks mine out =
      (before : List ℕ) × (behind : List ℕ) × (before ++ behind ≡ others sn ks)
      × (out
          ≡ all_resent base_sn bitmap a before a.retx_buffer
            ++ (mine ++ all_resent base_sn bitmap a behind a.retx_buffer))

  split_at :
      (sn : ℕ) (ks : List ℕ)
      → Distinct ks
      → contains sn ks ≡ true
      → Among sn ks
          (resent base_sn bitmap a sn (lookup sn a.retx_buffer))
          (all_resent base_sn bitmap a ks a.retx_buffer)
  unfolding contains
  split_at sn [] d h = cc
  split_at sn (k ∷ ks) d h = elim (Bool-cases (sn == k)) [
    | inl e ↦
        (let same : sn ≡ k = (==_iff sn k).0 e in
          (
            [],
            ks,
            rw e (sym (others_all sn ks (ap (λ (j : ℕ). contains j ks) same ∙ d.0))),
            ap
                (λ (j : ℕ).
                  resent base_sn bitmap a j (lookup j a.retx_buffer)
                  ++ all_resent base_sn bitmap a ks a.retx_buffer)
                (sym same),
          ))
    | inr e ↦
        (let (before, behind, these, out) = split_at sn ks d.1 (ground (arith, e, h)) in
          (
            k ∷ before,
            behind,
            rw e (ap (λ (l : List ℕ). k ∷ l) these),
            ap (λ (l : List (List ℕ)). resent base_sn bitmap a k (lookup k a.retx_buffer) ++ l) out
                ∙ sym (append_assoc (resent base_sn bitmap a k (lookup k a.retx_buffer)) _ _),
          ))
  ]

  abbrev pub Answer : ℕ → List (List ℕ) → Type 0
  Answer sn mine =
      (out : List (List ℕ)) × ((receive_status (report base_sn bitmap) a).0 ≡ ok out)
      × Among sn (keys a.retx_buffer) mine out

  module _ (sn : ℕ) (full : SaysMissing a.window_size sn base_sn bitmap)
      (d : IsDict a.retx_buffer) where
    settles : Settles base_sn bitmap a (receive_status (report base_sn bitmap) a)
    settles = receive_status-Settles a base_sn bitmap full.in_space full.full d

    resent_missing :
        (e : Sent)
        → resent base_sn bitmap a sn (some e)
          ≡ (if ltb e.retry_count a.max_retries then e.pdu_bits ∷ [] else [])
    unfolding judge
    resent_missing e = ground (arith, full.not_before, full.in_window, full.unmarked)

    answer_buffered :
        (e : Sent)
        → lookup sn a.retx_buffer ≡ some e
        → Answer sn (if ltb e.retry_count a.max_retries then e.pdu_bits ∷ [] else [])
    answer_buffered e here = (
      _,
      ap (λ (p : Outcome (List (List ℕ)) × AmEntity). p.0) settles.returns,
      subst
          (λ (mine : List (List ℕ)).
            Among sn (keys a.retx_buffer) mine
              (all_resent base_sn bitmap a (keys a.retx_buffer) a.retx_buffer))
          (ap (resent base_sn bitmap a sn) here ∙ resent_missing e)
          (split_at sn (keys a.retx_buffer) (keys-Distinct a.retx_buffer d)
            (has_key-contains sn a.retx_buffer ∙ ap is_some here)),
    )

    answer_gone : lookup sn a.retx_buffer ≡ none → Answer sn []
    answer_gone gone = (
      _,
      ap (λ (p : Outcome (List (List ℕ)) × AmEntity). p.0) settles.returns,
      (
        [],
        keys a.retx_buffer,
        sym (
            others_all sn (keys a.retx_buffer)
              (has_key-contains sn a.retx_buffer ∙ ap is_some gone)),
        refl,
      ),
    )

-- Each report in its turn is answered with the PDU while it has a retry left, and without it after
-- that.
abbrev pub Answers : ℕ → Sent → List (ℕ × List ℕ) → AmEntity → Type 0
Answers sn e [] a = Unit
Answers sn e ((base_sn, bitmap) ∷ reports) a =
    Answer base_sn bitmap a sn (if ltb e.retry_count a.max_retries then e.pdu_bits ∷ [] else [])
    × Answers sn (advanced e 1) reports (receive_status (report base_sn bitmap) a).1

-- The PDU is buffered with the retries of `e`, or it was given up.
abbrev Stands : ℕ → Sent → AmEntity → Type 0
Stands sn e a =
    (lookup sn a.retx_buffer ≡ some e)
    ⊎ ((lookup sn a.retx_buffer ≡ none) × (a.max_retries ≤ e.retry_count))

none_left : (n m : ℕ) (mine : List (List ℕ)) → m ≤ n → (if ltb n m then mine else []) ≡ []
none_left n m mine h = ground arith

answer :
    (base_sn : ℕ) (bitmap : List ℕ) (a : AmEntity) (sn : ℕ) (e : Sent)
    → SaysMissing a.window_size sn base_sn bitmap
    → IsDict a.retx_buffer
    → Stands sn e a
    → Answer base_sn bitmap a sn (if ltb e.retry_count a.max_retries then e.pdu_bits ∷ [] else [])
answer base_sn bitmap a sn e m d (inl here) = answer_buffered base_sn bitmap a sn m d e here
answer base_sn bitmap a sn e m d (inr (gone, over)) =
    subst (Answer base_sn bitmap a sn)
      (sym (none_left e.retry_count a.max_retries (e.pdu_bits ∷ []) over))
      (answer_gone base_sn bitmap a sn m d gone)

Stands-Settles :
    (base_sn : ℕ) (bitmap : List ℕ) (a : AmEntity) (sn : ℕ) (e : Sent)
    → SaysMissing a.window_size sn base_sn bitmap
    → (s : Settles base_sn bitmap a (receive_status (report base_sn bitmap) a)) → Stands sn e a
    → Stands sn (advanced e 1) s.after
unfolding judge
Stands-Settles base_sn bitmap a sn e m s (inl here) = elim (dec_lt e.retry_count a.max_retries) [
  | yes more ↦ inl (ground (arith, s.buffer sn, here, m.not_before, m.in_window, m.unmarked))
  | no last ↦ inr (
    ground (arith, s.buffer sn, here, m.not_before, m.in_window, m.unmarked),
    omega (arith, s.same_retries),
  )
]
Stands-Settles base_sn bitmap a sn e m s (inr (gone, over)) =
    inr (ground (arith, s.buffer sn, gone), omega (arith, s.same_retries))

all_answered :
    (reports : List (ℕ × List ℕ)) (a : AmEntity) (sn : ℕ) (e : Sent)
    → AllMissing a.window_size sn reports
    → IsDict a.retx_buffer
    → Stands sn e a
    → Answers sn e reports a
all_answered [] a sn e m d h = tt
all_answered ((base_sn, bitmap) ∷ reports) a sn e m d h =
    let s : Settles base_sn bitmap a (receive_status (report base_sn bitmap) a) =
      receive_status-Settles a base_sn bitmap m.0.in_space m.0.full d in
    (
      answer base_sn bitmap a sn e m.0 d h,
      subst (Answers sn (advanced e 1) reports) (sym (after_report a base_sn bitmap _ s)) (
          all_answered reports s.after sn (advanced e 1) (rw s.same_window m.1) s.dict
            (Stands-Settles base_sn bitmap a sn e m.0 s h)),
    )

-- While reports with a bitmap as wide as the window keep finding a buffered PDU missing, which has
-- used up no more retries than it has, and no number is buffered twice: each is answered without fail, with the PDUs
-- of the other numbers that are due, in the order of the buffer, and among them this PDU exactly as
-- long as it has a retry left. So it is sent again once for each of the `max_retries` retries that
-- it has left; the report after the last retry gives it up, and from then on it is recorded as
-- failed, is buffered no more and is not sent again.
pub after_reports-missing :
    (reports : List (ℕ × List ℕ)) (a : AmEntity) (sn : ℕ) (e : Sent)
    → AllMissing a.window_size sn reports
    → IsDict a.retx_buffer
    → lookup sn a.retx_buffer ≡ some e
    → e.retry_count ≤ a.max_retries
    → Answers sn e reports a × Ends a.max_retries sn e (length reports) (after_reports reports a)
after_reports-missing reports a sn e m d h b =
    (all_answered reports a sn e m d (inl h), after_reports-Ends reports a sn e m d h b)
