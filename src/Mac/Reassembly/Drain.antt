-- ===== src/Mac/Reassembly/Drain.antt =====
-- The delivery loop ends, and leaves no segment that it could deliver.
use spectracuda.Common.{
  none, inl, inr, is_some, ℕ, zero, suc, ◌≤◌, ◌<◌, ◌≡◌, ◌∙◌, refl, sym, ap, List, [], ◌++◌, true,
  false, arith, Outcome, ok, length, some, Option-cases, lookup, remove, has_key, IsDict,
  remove-IsDict, length-remove, lookup-remove,
}
use spectracuda.Mac.Pdu.{sn_add}
use spectracuda.Mac.Pdu.Sequence.{sn_add-lt}
use spectracuda.Mac.Segmenter.{Piece}
use spectracuda.Mac.Reassembly.{Buffer, deliver, drain, prepend}

-- What the loop keeps of the buffer, and what holds at its end.
pub record Drained (b : Buffer) (r : Outcome (List (List ℕ) × Buffer)) : Type 0 where
  pub done : List (List ℕ)
  pub after : Buffer
  pub returns : r ≡ ok (done, after)
  pub settled : has_key after.expected_sn after.pending ≡ false
  pub dict : IsDict after.pending
  pub same_window : after.window_size ≡ b.window_size
  pub in_space : after.expected_sn < 1024
  pub shrinks : length after.pending ≤ length b.pending
  pub advances : has_key b.expected_sn b.pending ≡ true → length after.pending < length b.pending
  pub fewer : (k : ℕ) → has_key k b.pending ≡ false → has_key k after.pending ≡ false

module _ (p : Piece) (b : Buffer) where
  pending-deliver : (deliver p b).1.pending ≡ remove b.expected_sn b.pending
  unfolding deliver
  pending-deliver = ground arith

  expected-deliver : (deliver p b).1.expected_sn ≡ sn_add b.expected_sn 1
  unfolding deliver
  expected-deliver = ground arith

  window-deliver : (deliver p b).1.window_size ≡ b.window_size
  unfolding deliver
  window-deliver = ground arith

extend :
    (p : Piece) (b : Buffer) (r : Outcome (List (List ℕ) × Buffer))
    → lookup b.expected_sn b.pending ≡ some p
    → IsDict b.pending
    → Drained (deliver p b).1 r
    → Drained b (prepend (deliver p b).0 r)
extend p b r here d rest = record {
  done = (deliver p b).0 ++ rest.done;
  after = rest.after;
  returns = rw rest.returns;
  settled = rest.settled;
  dict = rest.dict;
  same_window = rest.same_window ∙ window-deliver p b;
  in_space = rest.in_space;
  shrinks = omega (arith, rest.shrinks, smaller);
  advances = λ _. omega (arith, rest.shrinks, smaller);
  fewer = λ k h.
      rest.fewer k (rw pending-deliver (ground (arith, lookup-remove b.expected_sn k b.pending)));
}
  where
    smaller : length (deliver p b).1.pending < length b.pending
    smaller =
        rw pending-deliver
          (omega (arith, length-remove b.expected_sn b.pending d (ap is_some here)))

drain-absent :
    (fuel : ℕ) (b : Buffer)
    → lookup b.expected_sn b.pending ≡ none
    → drain (suc fuel) b ≡ ok ([], b)
unfolding drain
drain-absent fuel b absent = rw (absent, drain)

drain-present :
    (fuel : ℕ) (b : Buffer) (p : Piece)
    → lookup b.expected_sn b.pending ≡ some p
    → drain (suc fuel) b ≡ prepend (deliver p b).0 (drain fuel (deliver p b).1)
unfolding drain
drain-present fuel b p here = rw (here, drain)

-- With more fuel than there are pending segments the loop ends by its test.
pub drain-Drained :
    (fuel : ℕ) (b : Buffer)
    → length b.pending < fuel
    → IsDict b.pending
    → b.expected_sn < 1024
    → Drained b (drain fuel b)
drain-Drained zero b f d e = absurd (omega arith)
drain-Drained (suc fuel) b f d e = elim (Option-cases (lookup b.expected_sn b.pending)) [
  | inl absent ↦ rw (drain-absent fuel b absent) (record {
    done = [];
    after = b;
    returns = refl;
    settled = ap is_some absent;
    dict = d;
    same_window = refl;
    in_space = e;
    shrinks = omega arith;
    advances = λ h. cc (sym h ∙ ap is_some absent);
    fewer = λ k h. h;
  })
  | inr (p, here) ↦ rw (drain-present fuel b p here) (
      extend p b (drain fuel (deliver p b).1) here d (
        drain-Drained fuel (deliver p b).1
          (rw pending-deliver
            (omega (arith, f, length-remove b.expected_sn b.pending d (ap is_some here))))
          (rw pending-deliver (remove-IsDict b.expected_sn b.pending d))
          (rw expected-deliver (sn_add-lt b.expected_sn 1))))
]
