-- ===== src/Mac/Am.antt =====
-- mac/am.py: acknowledged mode. Each end keeps what it sent and has not seen acknowledged, and
-- what it has received.
pub mod Step
pub mod Report
pub mod Invariant
pub mod Retries
pub mod Resends
pub mod Exchange
pub mod Examples
use spectracuda.Common.{
  ℕ, zero, suc, ◌+◌, List, [], ◌∷◌, ◌++◌, Bool, not, Option, none, some, Outcome, ok, raise, loops,
  value_error, key_error, index_error, ◌>>=◌, ◌>>◌, require, ltb, leb, ◌==◌, if◌then◌else◌, take,
  drop, get_elem?, Dict, lookup, insert, remove, keys, contains, add,
}
use spectracuda.Mac.Pdu.{
  Header, header_len_bits, type_data, type_status, encode_header, decode_header, sn_add,
  sn_distance, sn_precedes,
}
use spectracuda.Mac.Um
use spectracuda.Mac.Um.{UmEntity, um_entity}

-- A PDU that was sent and is not yet acknowledged, with the reports that found it missing.
pub record Sent : Type 0 where
  pub pdu_bits : List ℕ
  pub retry_count : ℕ

pub record AmEntity : Type 0 where
  pub um : UmEntity
  pub window_size : ℕ
  pub max_retries : ℕ
  pub retx_buffer : Dict Sent
  pub received_sns : List ℕ
  pub failed_sns : List ℕ

-- `AmEntity(max_segment_bits, window_size, max_retries)`
unfoldable pub am_entity : ℕ → ℕ → ℕ → Outcome AmEntity
am_entity max_segment_bits window_size max_retries = do
  u ← um_entity max_segment_bits window_size
  ok (record {
    um = u;
    window_size = window_size;
    max_retries = max_retries;
    retx_buffer = [];
    received_sns = [];
    failed_sns = [];
  })

-- `for pdu_bits in pdus: self._retx_buffer[header["sn"]] = [pdu_bits, 0]`
unfoldable pub remember : List (List ℕ) → Dict Sent → Outcome (Unit {0}) × Dict Sent
remember [] d = (ok tt, d)
remember (pdu_bits ∷ pdus) d = elim (decode_header (take header_len_bits pdu_bits)) [
  | ok header ↦ remember pdus (insert header.sn (record { pdu_bits = pdu_bits; retry_count = 0 }) d)
  | raise e ↦ (raise e, d)
  | loops ↦ (loops, d)
]

transmit_pdus : Outcome (List (List ℕ)) → AmEntity → Outcome (List (List ℕ)) × AmEntity
transmit_pdus (ok pdus) a =
    let (stored, d) = remember pdus a.retx_buffer in
    ((stored >> ok pdus), record a { retx_buffer = d })
transmit_pdus (raise e) a = (raise e, a)
transmit_pdus loops a = (loops, a)

unfoldable pub transmit : List ℕ → AmEntity → Outcome (List (List ℕ)) × AmEntity
unfolding transmit_pdus
transmit sdu_bits a =
    let (sent, u) = Um.transmit sdu_bits a.um in transmit_pdus sent (record a { um = u })

-- A buffered PDU that the report finds missing.
unfoldable pub missing : ℕ → Option Sent → AmEntity → Outcome (List (List ℕ)) × AmEntity
missing sn none a = (raise key_error, a)
missing sn (some entry) a =
    if ltb a.max_retries (entry.retry_count + 1)
    then (
      ok [],
      record a { retx_buffer = remove sn a.retx_buffer; failed_sns = add sn a.failed_sns },
    )
    else (
      ok (entry.pdu_bits ∷ []),
      record a {
        retx_buffer =
            insert sn (record entry { retry_count = entry.retry_count + 1 }) a.retx_buffer;
      },
    )

-- `if bitmap[offset]`
unfoldable pub reported : ℕ → Option ℕ → AmEntity → Outcome (List (List ℕ)) × AmEntity
unfolding missing
reported sn none a = (raise index_error, a)
reported sn (some bit) a =
    if bit == 0
    then missing sn (lookup sn a.retx_buffer) a
    else (ok [], record a { retx_buffer = remove sn a.retx_buffer })

-- One round of the loop over the buffered numbers.
unfoldable pub status_round : ℕ → List ℕ → ℕ → AmEntity → Outcome (List (List ℕ)) × AmEntity
unfolding reported
status_round base_sn bitmap sn a =
    if sn_precedes sn base_sn
    then (ok [], record a { retx_buffer = remove sn a.retx_buffer })
    else if leb a.window_size (sn_distance base_sn sn)
    then (ok [], a)
    else reported sn (get_elem? bitmap (sn_distance base_sn sn)) a

-- A round and then the rest of the loop; an exception ends the loop in the state that it is raised in.
abbrev pub and_then {ℓ} :
    {S : Type ℓ}
    → Outcome (List (List ℕ)) × S
    → (S → Outcome (List (List ℕ)) × S)
    → Outcome (List (List ℕ)) × S
and_then (ok now, s) k = ((do more ← (k s).0; ok (now ++ more)), (k s).1)
and_then (raise e, s) k = (raise e, s)
and_then (loops, s) k = (loops, s)

unfoldable pub status_loop : ℕ → List ℕ → List ℕ → AmEntity → Outcome (List (List ℕ)) × AmEntity
status_loop base_sn bitmap [] a = (ok [], a)
status_loop base_sn bitmap (sn ∷ sns) a =
    and_then (status_round base_sn bitmap sn a) (status_loop base_sn bitmap sns)

-- The header of a PDU that has to be of the given type.
unfoldable pub checked_header : ℕ → List ℕ → Outcome Header
checked_header pdu_type pdu_bits = do
  header ← decode_header (take header_len_bits pdu_bits)
  require (header.pdu_type == pdu_type)
  ok header

status_from : Outcome Header → List ℕ → AmEntity → Outcome (List (List ℕ)) × AmEntity
status_from (ok header) status_pdu_bits a =
    status_loop header.sn (take a.window_size (drop header_len_bits status_pdu_bits))
      (keys a.retx_buffer) a
status_from (raise e) status_pdu_bits a = (raise e, a)
status_from loops status_pdu_bits a = (loops, a)

unfoldable pub receive_status : List ℕ → AmEntity → Outcome (List (List ℕ)) × AmEntity
unfolding status_from
receive_status status_pdu_bits a =
    status_from (checked_header type_status status_pdu_bits) status_pdu_bits a

unfoldable pub pending_from : Dict Sent → List (List ℕ)
pending_from [] = []
pending_from ((sn, entry) ∷ d) = entry.pdu_bits ∷ pending_from d

unfoldable pub pending_pdus : AmEntity → List (List ℕ)
pending_pdus a = pending_from a.retx_buffer

keep_received : Outcome (List (List ℕ) × UmEntity) → AmEntity → Outcome (List (List ℕ)) × AmEntity
keep_received (ok (done, u)) a = (ok done, record a { um = u })
keep_received (raise e) a = (raise e, a)
keep_received loops a = (loops, a)

data_from : Outcome Header → List ℕ → AmEntity → Outcome (List (List ℕ)) × AmEntity
unfolding keep_received
data_from (ok header) pdu_bits a =
    keep_received (Um.receive pdu_bits a.um)
      (record a { received_sns = add header.sn a.received_sns })
data_from (raise e) pdu_bits a = (raise e, a)
data_from loops pdu_bits a = (loops, a)

unfoldable pub receive_data : List ℕ → AmEntity → Outcome (List (List ℕ)) × AmEntity
unfolding data_from
receive_data pdu_bits a = data_from (checked_header type_data pdu_bits) pdu_bits a

-- The bitmap of a report, from an offset on.
unfoldable pub bitmap_from : ℕ → ℕ → ℕ → List ℕ → List ℕ
bitmap_from zero offset base_sn received = []
bitmap_from (suc n) offset base_sn received =
    (if contains (sn_add base_sn offset) received then 1 else 0)
    ∷ bitmap_from n (offset + 1) base_sn received

unfoldable pub build_status : AmEntity → Outcome (List ℕ)
build_status a = do
  header ←
      encode_header (record { pdu_type = type_status; si = 0; sn = Um.expected_sn a.um; so = 0 })
  ok (header ++ bitmap_from a.window_size 0 (Um.expected_sn a.um) a.received_sns)
