-- ===== src/Mac/Am/Retries.antt =====
-- Retransmission is bounded: a PDU is sent again at most `max_retries` times.
use native.Mathlib.Decide.{dec_lt}
use mathlib.Core.Path.{subst}
use spectracuda.Common.{
  ◌⊎◌, ℕ, suc, ◌+◌, ◌≤◌, ◌<◌, ◌≡◌, ◌∙◌, sym, ap, List, [], ◌∷◌, true, false, arith, Outcome, length,
  get_elem?, none, some, inl, inr, lookup, IsDict, contains,
}
use spectracuda.Mac.Pdu.{sn_distance, sn_precedes}
use spectracuda.Mac.Am.{AmEntity, Sent, receive_status}
use spectracuda.Mac.Am.Step.{judge}
use spectracuda.Mac.Am.Report.{report, Settles, receive_status-Settles}

-- A report that says of the number `sn` that it is missing.
pub record SaysMissing (window_size sn : ℕ) (base_sn : ℕ) (bitmap : List ℕ) : Type 0 where
  pub in_space : base_sn < 1024
  pub full : length bitmap ≡ window_size
  pub not_before : sn_precedes sn base_sn ≡ false
  pub in_window : sn_distance base_sn sn < window_size
  pub unmarked : get_elem? bitmap (sn_distance base_sn sn) ≡ some 0

-- Reports received one after the other.
abbrev pub after_reports : List (ℕ × List ℕ) → AmEntity → AmEntity
after_reports [] a = a
after_reports ((base_sn, bitmap) ∷ reports) a =
    after_reports reports (receive_status (report base_sn bitmap) a).1

abbrev pub AllMissing : ℕ → ℕ → List (ℕ × List ℕ) → Type 0
AllMissing w sn [] = Unit
AllMissing w sn ((base_sn, bitmap) ∷ reports) =
    SaysMissing w sn base_sn bitmap × AllMissing w sn reports

module _ (a : AmEntity) (sn base_sn : ℕ) (bitmap : List ℕ)
    (m : SaysMissing a.window_size sn base_sn bitmap) (d : IsDict a.retx_buffer) (e : Sent)
    (here : lookup sn a.retx_buffer ≡ some e) where
  s : Settles base_sn bitmap a (receive_status (report base_sn bitmap) a)
  s = receive_status-Settles a base_sn bitmap m.in_space m.full d

  missing_again :
      e.retry_count < a.max_retries
      → lookup sn s.after.retx_buffer ≡ some (record e { retry_count = e.retry_count + 1 })
  unfolding judge
  missing_again h = ground (arith, s.buffer sn, here, m.not_before, m.in_window, m.unmarked)

  missing_last :
      a.max_retries ≤ e.retry_count
      → (lookup sn s.after.retx_buffer ≡ none) × (contains sn s.after.failed_sns ≡ true)
  unfolding judge
  missing_last h = (
    ground (arith, s.buffer sn, here, m.not_before, m.in_window, m.unmarked),
    ground (arith, s.failed sn, here, m.not_before, m.in_window, m.unmarked),
  )

pub after_report :
    (a : AmEntity) (base_sn : ℕ) (bitmap : List ℕ) (r : Outcome (List (List ℕ)) × AmEntity)
    → (s : Settles base_sn bitmap a r) → r.1 ≡ s.after
after_report a base_sn bitmap r s = ap (λ (p : Outcome (List (List ℕ)) × AmEntity). p.1) s.returns

abbrev pub IsGone : ℕ → AmEntity → Type 0
IsGone sn a = (lookup sn a.retx_buffer ≡ none) × (contains sn a.failed_sns ≡ true)

abbrev pub advanced : Sent → ℕ → Sent
advanced e n = record e { retry_count = e.retry_count + n }

-- A PDU `n` reports later: sent again `n` times more, or given up for want of retries.
abbrev pub Ends : ℕ → ℕ → Sent → ℕ → AmEntity → Type 0
Ends max_retries sn e n a =
    ((e.retry_count + n ≤ max_retries) × (lookup sn a.retx_buffer ≡ some (advanced e n)))
    ⊎ ((max_retries < e.retry_count + n) × IsGone sn a)

Ends-suc :
    (m sn : ℕ) (e : Sent) (n : ℕ) (a : AmEntity)
    → Ends m sn (advanced e 1) n a
    → Ends m sn e (suc n) a
Ends-suc m sn e n a (inl (h, k)) =
    inl (omega arith, k ∙ ap (λ (t : ℕ). some (record e { retry_count = t })) (omega arith))
Ends-suc m sn e n a (inr (h, k)) = inr (omega arith, k)

-- A PDU that was given up is not buffered again by any report.
IsGone-after_reports :
    (reports : List (ℕ × List ℕ)) (a : AmEntity) (sn : ℕ)
    → AllMissing a.window_size sn reports
    → IsDict a.retx_buffer
    → lookup sn a.retx_buffer ≡ none
    → contains sn a.failed_sns ≡ true
    → IsGone sn (after_reports reports a)
IsGone-after_reports [] a sn m d h f = (h, f)
IsGone-after_reports ((base_sn, bitmap) ∷ reports) a sn m d h f =
    let s : Settles base_sn bitmap a (receive_status (report base_sn bitmap) a) =
      receive_status-Settles a base_sn bitmap m.0.in_space m.0.full d in
    subst (λ (b : AmEntity). IsGone sn (after_reports reports b))
      (sym (after_report a base_sn bitmap _ s))
      (IsGone-after_reports reports s.after sn (rw s.same_window m.1) s.dict
        (ground (arith, s.buffer sn, h)) (ground (arith, s.failed sn, h, f)))

-- While reports keep finding a PDU missing, each takes one of its `max_retries` retries, and the
-- report after the last retry gives it up: it is recorded as failed, and is buffered no more.
pub after_reports-Ends :
    (reports : List (ℕ × List ℕ)) (a : AmEntity) (sn : ℕ) (e : Sent)
    → AllMissing a.window_size sn reports
    → IsDict a.retx_buffer
    → lookup sn a.retx_buffer ≡ some e
    → e.retry_count ≤ a.max_retries
    → Ends a.max_retries sn e (length reports) (after_reports reports a)
after_reports-Ends [] a sn e m d h b =
    inl (omega arith, h ∙ ap (λ (n : ℕ). some (record e { retry_count = n })) (omega arith))
after_reports-Ends ((base_sn, bitmap) ∷ reports) a sn e m d h b =
    subst
      (λ (b : AmEntity). Ends a.max_retries sn e (suc (length reports)) (after_reports reports b))
      (sym (after_report a base_sn bitmap _ one))
      (elim (dec_lt e.retry_count a.max_retries) [
        | yes more ↦
            Ends-suc a.max_retries sn e (length reports) (after_reports reports one.after) (
              subst
                (λ (k : ℕ).
                  Ends k sn (advanced e 1) (length reports) (after_reports reports one.after))
                one.same_retries
                (after_reports-Ends reports one.after sn (advanced e 1) (rw one.same_window m.1)
                  one.dict (missing_again a sn base_sn bitmap m.0 d e h more)
                  (omega (arith, one.same_retries))))
        | no last ↦
            (let gone : (lookup sn one.after.retx_buffer ≡ none)
                  × (contains sn one.after.failed_sns ≡ true) =
                missing_last a sn base_sn bitmap m.0 d e h (omega arith) in
              inr (
                omega arith,
                IsGone-after_reports reports one.after sn (rw one.same_window m.1) one.dict gone.0
                    gone.1,
              ))
      ])
  where
    one : Settles base_sn bitmap a (receive_status (report base_sn bitmap) a)
    one = s a sn base_sn bitmap m.0 d e h
