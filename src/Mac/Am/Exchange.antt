-- ===== src/Mac/Am/Exchange.antt =====
-- A report that the peer has built, received by the sender.
use spectracuda.Common.{
  add, ◌||◌, contains-add, raise, loops, ℕ, zero, suc, ◌+◌, ◌<◌, ◌≡◌, refl, ap, Dict, List, [], ◌∷◌,
  ◌++◌, Bool, true, false, arith, Outcome, ok, leb, if◌then◌else◌, length, Option, none, some,
  lookup, contains,
}
use spectracuda.Mac.Pdu.{Header, sn_distance, sn_precedes}
use spectracuda.Mac.Pdu.RoundTrip.{encode_header-eq_ok}
use spectracuda.Mac.Um.{UmEntity, expected_sn, receive}
use spectracuda.Mac.Am.{
  AmEntity, Sent, bitmap_from, build_status, receive_status, receive_data, data_from, keep_received,
  checked_header,
}
use spectracuda.Mac.Am.Report.{report}

pub length-bitmap_from :
    (n o base : ℕ) (received : List ℕ) → length (bitmap_from n o base received) ≡ n
unfolding bitmap_from
length-bitmap_from zero o base received = refl
length-bitmap_from (suc n) o base received = ap suc (length-bitmap_from n (o + 1) base received)

abbrev pub bitmap_of : AmEntity → List ℕ
bitmap_of a = bitmap_from a.window_size 0 (expected_sn a.um) a.received_sns

pub build_status-eq_report :
    (a : AmEntity)
    → expected_sn a.um < 1024
    → build_status a ≡ ok (report (expected_sn a.um) (bitmap_of a))
unfolding build_status
build_status-eq_report a h = rw (
    encode_header-eq_ok (record { pdu_type = 1; si = 0; sn = expected_sn a.um; so = 0 })
      (omega arith))

-- What the peer has of a number, as its report shows it: it has delivered it, it has received it, or
-- the number is missing; of what lies beyond the window the report says nothing.
pub data Standing : Type 0 where
  delivered received beyond lacking : Standing

pub standing : AmEntity → ℕ → Standing
standing rx sn =
    if sn_precedes sn (expected_sn rx.um)
    then delivered
    else if leb rx.window_size (sn_distance (expected_sn rx.um) sn)
    then beyond
    else if contains sn rx.received_sns
    then received
    else lacking

-- What that means for a PDU that the sender has buffered, and whether it is given up.
pub outcome_for : ℕ → Standing → Option Sent → Option Sent × Bool
outcome_for max_retries delivered o = (none, false)
outcome_for max_retries received o = (none, false)
outcome_for max_retries beyond o = (o, false)
outcome_for max_retries lacking none = (none, false)
outcome_for max_retries lacking (some e) =
    if leb (suc e.retry_count) max_retries
    then (some (record e { retry_count = e.retry_count + 1 }), false)
    else (none, true)

-- What is sent again of it: the PDU, if the peer lacks it and has a retry left.
pub sent_for : ℕ → Standing → Sent → List (List ℕ)
sent_for max_retries lacking e = if leb (suc e.retry_count) max_retries then e.pdu_bits ∷ [] else []
sent_for max_retries _ e = []

pub sent_again : AmEntity → AmEntity → Dict Sent → List (List ℕ)
sent_again tx rx [] = []
sent_again tx rx ((sn, e) ∷ d) = sent_for tx.max_retries (standing rx sn) e ++ sent_again tx rx d

-- Every entry of the first is what the second has under its number.
abbrev Reads : Dict Sent → Dict Sent → Type 0
Reads [] all = Unit
Reads ((sn, e) ∷ d) all = (lookup sn all ≡ some e) × Reads d all

-- The report that `rx` builds, received by `tx`.
pub record Exchanged (tx rx : AmEntity) : Type 0 where
  pub status : List ℕ
  pub built : build_status rx ≡ ok status
  pub after : AmEntity
  pub returns : receive_status status tx ≡ (ok (sent_again tx rx tx.retx_buffer), after)
  pub buffer :
      (sn : ℕ)
      → sn < 1024
      → lookup sn after.retx_buffer
        ≡ (outcome_for tx.max_retries (standing rx sn) (lookup sn tx.retx_buffer)).0
  pub failed :
      (sn : ℕ)
      → sn < 1024
      → contains sn after.failed_sns
        ≡ (outcome_for tx.max_retries (standing rx sn) (lookup sn tx.retx_buffer)).1
          || contains sn tx.failed_sns

contains-keep_received :
    (r : Outcome (List (List ℕ) × UmEntity)) (a : AmEntity) (sn : ℕ)
    → contains sn a.received_sns ≡ true
    → contains sn (keep_received r a).1.received_sns ≡ true
unfolding keep_received
contains-keep_received (ok (done, u)) a sn h = h
contains-keep_received (raise e) a sn h = h
contains-keep_received loops a sn h = h

contains-data_from :
    (o : Outcome Header) (pdu : List ℕ) (a : AmEntity) (sn : ℕ)
    → contains sn a.received_sns ≡ true
    → contains sn (data_from o pdu a).1.received_sns ≡ true
unfolding data_from
contains-data_from (ok header) pdu a sn h =
    contains-keep_received (receive pdu a.um)
      (record a { received_sns = add header.sn a.received_sns }) sn
      (ground (arith, contains-add header.sn sn a.received_sns))
contains-data_from (raise e) pdu a sn h = h
contains-data_from loops pdu a sn h = h

-- What the peer has once received it reports as received for good: `receive_data` never takes a
-- number out again.
pub contains-receive_data :
    (pdu : List ℕ) (a : AmEntity) (sn : ℕ)
    → contains sn a.received_sns ≡ true
    → contains sn (receive_data pdu a).1.received_sns ≡ true
unfolding receive_data
contains-receive_data pdu a sn h = contains-data_from (checked_header 0 pdu) pdu a sn h
