-- ===== src/Mac/Am/Invariant.antt =====
-- What every status PDU, well formed or not, leaves true of the retransmission buffer.
use spectracuda.Common.{
  ℕ, ◌+◌, ◌≤◌, ◌≡◌, List, [], ◌∷◌, arith, Outcome, ok, raise, loops, leb, ltb, ◌==◌, get_elem?,
  Option, none, some, inl, inr, Bool-cases, lookup, insert, remove, keys, IsDict, insert-IsDict,
  remove-IsDict, lookup-insert, lookup-remove, take, drop, add,
}
use spectracuda.Mac.Pdu.{Header, header_len_bits, type_status, sn_distance, sn_precedes}
use spectracuda.Mac.Am.{
  AmEntity, Sent, missing, reported, status_round, and_then, status_loop, status_from,
  checked_header, receive_status,
}

-- No number is buffered twice, and no PDU has used up more retries than it has.
pub record IsAm (a : AmEntity) : Type 0 where
  pub dict : IsDict a.retx_buffer
  pub bounded : (k : ℕ) (e : Sent) → lookup k a.retx_buffer ≡ some e → e.retry_count ≤ a.max_retries

removed-IsAm :
    (sn : ℕ) (failed : List ℕ) (a : AmEntity)
    → IsAm a
    → IsAm (record a { retx_buffer = remove sn a.retx_buffer; failed_sns = failed })
removed-IsAm sn failed a v = record {
  dict = remove-IsDict sn a.retx_buffer v.dict;
  bounded = λ k e l. ground (arith, lookup-remove sn k a.retx_buffer, l, v.bounded k e);
}

again-IsAm :
    (sn : ℕ) (entry : Sent) (a : AmEntity)
    → entry.retry_count ≤ a.max_retries
    → IsAm a
    → IsAm (record a { retx_buffer = insert sn entry a.retx_buffer })
again-IsAm sn entry a h v = record {
  dict = insert-IsDict sn entry a.retx_buffer v.dict;
  bounded = λ k e l. ground (arith, lookup-insert sn k entry a.retx_buffer, l, v.bounded k e, h);
}

missing-IsAm : (sn : ℕ) (o : Option Sent) (a : AmEntity) → IsAm a → IsAm (missing sn o a).1
unfolding missing
missing-IsAm sn none a v = v
missing-IsAm sn (some entry) a v = elim (Bool-cases (ltb a.max_retries (entry.retry_count + 1))) [
  | inl h ↦ rw h (removed-IsAm sn (add sn a.failed_sns) a v)
  | inr h ↦
      rw h (again-IsAm sn (record entry { retry_count = entry.retry_count + 1 }) a (ground arith) v)
]

reported-IsAm : (sn : ℕ) (o : Option ℕ) (a : AmEntity) → IsAm a → IsAm (reported sn o a).1
unfolding reported
reported-IsAm sn none a v = v
reported-IsAm sn (some bit) a v = elim (Bool-cases (bit == 0)) [
  | inl h ↦ rw h (missing-IsAm sn (lookup sn a.retx_buffer) a v)
  | inr h ↦ rw h (removed-IsAm sn a.failed_sns a v)
]

status_round-IsAm :
    (base_sn : ℕ) (bitmap : List ℕ) (sn : ℕ) (a : AmEntity)
    → IsAm a
    → IsAm (status_round base_sn bitmap sn a).1
unfolding status_round
status_round-IsAm base_sn bitmap sn a v = elim (Bool-cases (sn_precedes sn base_sn)) [
  | inl h ↦ rw h (removed-IsAm sn a.failed_sns a v)
  | inr h ↦ elim (Bool-cases (leb a.window_size (sn_distance base_sn sn))) [
    | inl far ↦ rw (h, far) v
    | inr near ↦ rw (h, near) (reported-IsAm sn (get_elem? bitmap (sn_distance base_sn sn)) a v)
  ]
]

and_then-IsAm :
    (r : Outcome (List (List ℕ)) × AmEntity) (k : AmEntity → Outcome (List (List ℕ)) × AmEntity)
    → IsAm r.1
    → ((a : AmEntity) → IsAm a → IsAm (k a).1)
    → IsAm (and_then r k).1
and_then-IsAm (ok now, a) k v keeps = keeps a v
and_then-IsAm (raise e, a) k v keeps = v
and_then-IsAm (loops, a) k v keeps = v

status_loop-IsAm :
    (base_sn : ℕ) (bitmap : List ℕ) (sns : List ℕ) (a : AmEntity)
    → IsAm a
    → IsAm (status_loop base_sn bitmap sns a).1
unfolding status_loop
status_loop-IsAm base_sn bitmap [] a v = v
status_loop-IsAm base_sn bitmap (sn ∷ sns) a v =
    and_then-IsAm (status_round base_sn bitmap sn a) (status_loop base_sn bitmap sns)
      (status_round-IsAm base_sn bitmap sn a v) (status_loop-IsAm base_sn bitmap sns)

status_from-IsAm :
    (o : Outcome Header) (status_pdu_bits : List ℕ) (a : AmEntity)
    → IsAm a
    → IsAm (status_from o status_pdu_bits a).1
unfolding status_from
status_from-IsAm (ok header) bits a v =
    status_loop-IsAm header.sn (take a.window_size (drop header_len_bits bits)) (keys a.retx_buffer)
      a v
status_from-IsAm (raise e) bits a v = v
status_from-IsAm loops bits a v = v

-- Whatever bits are given to it as a status PDU, also too few of them, another type of PDU, or such
-- as it raises an exception on half-way, `receive_status` leaves no number buffered twice, and no
-- buffered PDU with more retries used up than it has, if it was so before.
pub receive_status-IsAm :
    (status_pdu_bits : List ℕ) (a : AmEntity) → IsAm a → IsAm (receive_status status_pdu_bits a).1
unfolding receive_status
receive_status-IsAm bits a v = status_from-IsAm (checked_header type_status bits) bits a v
