-- ===== src/Mac/Am/Report.antt =====
-- `receive_status` as a whole: what a report does to the retransmission buffer.
use spectracuda.Common.{
  ℕ, ◌<◌, ◌≡◌, ◌∙◌, refl, sym, ap, List, [], ◌∷◌, ◌++◌, true, ◌||◌, arith, Outcome, ok, length,
  take, take_all, All, Dict, lookup, IsDict, has_key, keys, contains,
}
use spectracuda.Mac.Pdu.{Header}
use spectracuda.Mac.Pdu.RoundTrip.{header_bits, decode_header-eq_ok}
use spectracuda.Mac.Pdu.RoundTrip.{take-header_bits, drop-header_bits}
use spectracuda.Mac.Am.{AmEntity, Sent, checked_header, status_loop, receive_status}
use spectracuda.Mac.Am.Step.{settled, fails, all_resent, Distinct, Rounds, loop-Rounds}

-- The bits of a report with the given base and bitmap.
abbrev pub report : ℕ → List ℕ → List ℕ
report base_sn bitmap =
    header_bits (record { pdu_type = 1; si = 0; sn = base_sn; so = 0 }) ++ bitmap

pub has_key-contains : (k : ℕ) (d : Dict Sent) → contains k (keys d) ≡ has_key k d
unfolding lookup contains
has_key-contains k [] = refl
has_key-contains k ((j, e) ∷ d) = ground (arith, has_key-contains k d)

pub keys-Distinct : (d : Dict Sent) → IsDict d → Distinct (keys d)
keys-Distinct [] h = tt
keys-Distinct ((k, e) ∷ d) h = (has_key-contains k d ∙ h.0, keys-Distinct d h.1)

All-has_key :
    (d : Dict Sent) (ks : List ℕ)
    → ((k : ℕ) → contains k ks ≡ true → has_key k d ≡ true)
    → All (λ k. has_key k d ≡ true) ks
unfolding contains
All-has_key d [] h = tt
All-has_key d (k ∷ ks) h = (h k (ground arith), All-has_key d ks (λ j e. h j (ground arith)))

-- What a report does: to each buffered PDU what `judge` says of it, and to nothing else.
pub record Settles (base_sn : ℕ) (bitmap : List ℕ) (a : AmEntity)
    (r : Outcome (List (List ℕ)) × AmEntity) : Type 0 where
  pub after : AmEntity
  pub returns : r ≡ (ok (all_resent base_sn bitmap a (keys a.retx_buffer) a.retx_buffer), after)
  pub buffer :
      (j : ℕ) → lookup j after.retx_buffer ≡ settled base_sn bitmap a j (lookup j a.retx_buffer)
  pub failed :
      (j : ℕ)
      → contains j after.failed_sns
        ≡ fails base_sn bitmap a j (lookup j a.retx_buffer) || contains j a.failed_sns
  pub dict : IsDict after.retx_buffer
  pub same_um : after.um ≡ a.um
  pub same_window : after.window_size ≡ a.window_size
  pub same_retries : after.max_retries ≡ a.max_retries
  pub same_received : after.received_sns ≡ a.received_sns

receive_status-loop :
    (a : AmEntity) (base_sn : ℕ) (bitmap : List ℕ)
    → base_sn < 1024
    → length bitmap ≡ a.window_size
    → receive_status (report base_sn bitmap) a ≡ status_loop base_sn bitmap (keys a.retx_buffer) a
unfolding receive_status checked_header
receive_status-loop a base_sn bitmap h full =
    rw (take-header_bits header bitmap, decode_header-eq_ok header (omega arith))
      (ap (λ (bits : List ℕ). status_loop base_sn bits (keys a.retx_buffer) a)
        (ap (take a.window_size) (drop-header_bits header bitmap)
          ∙ take_all a.window_size bitmap (omega arith)))
  where
    header : Header
    header = record { pdu_type = 1; si = 0; sn = base_sn; so = 0 }

status_loop-Rounds :
    (a : AmEntity) (base_sn : ℕ) (bitmap : List ℕ)
    → length bitmap ≡ a.window_size
    → IsDict a.retx_buffer
    → Rounds base_sn bitmap
        (keys a.retx_buffer)
        a
        (status_loop base_sn bitmap (keys a.retx_buffer) a)
status_loop-Rounds a base_sn bitmap full d =
    loop-Rounds base_sn bitmap (keys a.retx_buffer) a full (keys-Distinct a.retx_buffer d) (
      All-has_key a.retx_buffer (keys a.retx_buffer)
        (λ k e. sym (has_key-contains k a.retx_buffer) ∙ e))

rounds-Settles :
    (a : AmEntity) (base_sn : ℕ) (bitmap : List ℕ) (r : Outcome (List (List ℕ)) × AmEntity)
    → IsDict a.retx_buffer
    → Rounds base_sn bitmap (keys a.retx_buffer) a r
    → Settles base_sn bitmap a r
rounds-Settles a base_sn bitmap r d all = record {
  after = all.after;
  returns = all.returns;
  buffer = λ j. ground (arith, all.buffer j, has_key-contains j a.retx_buffer);
  failed = λ j. ground (arith, all.failed j, has_key-contains j a.retx_buffer);
  dict = all.dict d;
  same_um = all.same_um;
  same_window = all.same_window;
  same_retries = all.same_retries;
  same_received = all.same_received;
}

-- A report of the peer, with a bitmap as wide as the window, is carried out in full: every PDU
-- that is buffered is dropped, kept, sent again or given up as `judge` says, PDUs sent again are
-- returned in the order of the buffer, and nothing else changes.
pub receive_status-Settles :
    (a : AmEntity) (base_sn : ℕ) (bitmap : List ℕ)
    → base_sn < 1024
    → length bitmap ≡ a.window_size
    → IsDict a.retx_buffer
    → Settles base_sn bitmap a (receive_status (report base_sn bitmap) a)
receive_status-Settles a base_sn bitmap h full d =
    rw (receive_status-loop a base_sn bitmap h full)
      (rounds-Settles a base_sn bitmap _ d (status_loop-Rounds a base_sn bitmap full d))
