-- ===== src/Mac/Am/Examples.antt =====
-- Runs of the acknowledged mode (mac/am.py) at concrete inputs.
use spectracuda.Common.{◌≡◌, refl, [], ◌∷◌, arith, some, lookup}
use spectracuda.Mac.Pdu.{sn_precedes}
use spectracuda.Mac.Um
use spectracuda.Mac.Um.{UmEntity}
use spectracuda.Mac.Examples.{near_wrap}
use spectracuda.Mac.Am.{AmEntity, Sent, receive_status}
use spectracuda.Mac.Am.Report.{report, Settles, receive_status-Settles}
use spectracuda.Mac.Am.Invariant.{IsAm, receive_status-IsAm}
use spectracuda.Mac.Am.Retries.{SaysMissing, Ends, after_reports}
use spectracuda.Mac.Am.Resends.{Answers, after_reports-missing}

-- A sender with 1 and 2 not acknowledged, the first sent again once.
abbrev sender : AmEntity
sender = record {
  um = near_wrap;
  window_size = 2;
  max_retries = 1;
  retx_buffer =
      (1, record { pdu_bits = 1 ∷ []; retry_count = 1 })
      ∷ (2, record { pdu_bits = 0 ∷ []; retry_count = 0 })
      ∷ [];
  received_sns = [];
  failed_sns = [];
}

-- A receiver that expects 1 and received 2 in the cycle before.
abbrev receiver : AmEntity
receiver = record {
  um = record near_wrap {
    reassembly = record { window_size = 2; expected_sn = 1; pending = []; in_progress = [] };
  };
  window_size = 2;
  max_retries = 1;
  retx_buffer = [];
  received_sns = 2 ∷ [];
  failed_sns = [];
}

sender-IsAm : IsAm sender
unfolding lookup
sender-IsAm = record { dict = (refl, (refl, tt)); bounded = λ k e h. ground arith }

receive_status-Settles_example :
    Settles 1 (0 ∷ 1 ∷ []) sender (receive_status (report 1 (0 ∷ 1 ∷ [])) sender)
receive_status-Settles_example =
    receive_status-Settles sender 1 (0 ∷ 1 ∷ []) (omega arith) refl sender-IsAm.dict

-- A report that is cut off within its bitmap: the loop raises at the number 2.
receive_status-IsAm_example : IsAm (receive_status (report 1 (0 ∷ [])) sender).1
receive_status-IsAm_example = receive_status-IsAm (report 1 (0 ∷ [])) sender sender-IsAm

abbrev buffered : Sent
buffered = record { pdu_bits = 0 ∷ []; retry_count = 0 }

sender_has : lookup 2 sender.retx_buffer ≡ some buffered
unfolding lookup
sender_has = refl

missing_2 : SaysMissing 2 2 1 (0 ∷ 0 ∷ [])
unfolding sn_precedes
missing_2 = record {
  in_space = omega arith;
  full = refl;
  not_before = refl;
  in_window = omega arith;
  unmarked = refl;
}

after_reports-missing_example :
    Answers 2 buffered ((1, 0 ∷ 0 ∷ []) ∷ (1, 0 ∷ 0 ∷ []) ∷ []) sender
    × Ends 1 2 buffered 2 (after_reports ((1, 0 ∷ 0 ∷ []) ∷ (1, 0 ∷ 0 ∷ []) ∷ []) sender)
after_reports-missing_example =
    after_reports-missing ((1, 0 ∷ 0 ∷ []) ∷ (1, 0 ∷ 0 ∷ []) ∷ []) sender 2 buffered
      (missing_2, (missing_2, tt)) sender-IsAm.dict sender_has (omega arith)
