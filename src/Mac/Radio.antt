-- ===== src/Mac/Radio.antt =====
-- What mac/mac.py and mac/session.py use of the OFDM object (pipeline/ofdm.py): frames are made
-- from bits and processed to results, and the object tells its capacity.
use spectracuda.Common.{
  ℕ, List, Bool, true, Option, none, some, Outcome, ok, raise, loops, ◌&&◌, ◌≡◌, All,
}
use spectracuda.Mac.Capacity.{Phy}

-- The entries that are read of the dict that `rx_process` returns, for one frame.
pub record RxResult (F : Type 0) : Type 0 where
  pub frame_found : Bool
  pub crc_valid : Option Bool
  pub rssi_db : F
  pub evm : Option F
  pub bits : Option (List ℕ)

-- An OFDM object in a state; `Scheme` is the arguments of `reconfigure_tx_scheme`.
pub record Radio (F State Iq Scheme : Type 0) : Type 0 where
  pub phy : State → Phy
  pub crc_enabled : State → Bool
  pub generate_frame : State → List ℕ → Outcome Iq
  pub rx_process : State → Iq → Outcome (RxResult F)
  pub compute_rssi_db : Iq → F
  pub reconfigure_tx_scheme : State → Scheme → Outcome State

-- `bool(result["frame_found"]) and (crc_valid is None or bool(crc_valid[0]))`
abbrev pub crc_passes : Option Bool → Bool
crc_passes none = true
crc_passes (some valid) = valid

abbrev pub is_delivered : {F : Type 0} → RxResult F → Bool
is_delivered r = r.frame_found && crc_passes r.crc_valid

-- What a PDU that is sent by a radio in the state `from` comes to at a radio in the state `to`: a
-- frame that is found and whose CRC is right, with the same bits.
pub record Arrives {F State Iq Scheme : Type 0} (radio : Radio F State Iq Scheme) (from to : State)
    (pdu : List ℕ) : Type 0 where
  pub frame : Iq
  pub result : RxResult F
  pub generated : radio.generate_frame from pdu ≡ ok frame
  pub processed : radio.rx_process to frame ≡ ok result
  pub delivered : is_delivered result ≡ true
  pub same_bits : result.bits ≡ some pdu

-- A PDU, if there is one to send, arrives.
abbrev pub ArrivesIfSent :
    {F State Iq Scheme : Type 0}
    → Radio F State Iq Scheme
    → State
    → State
    → Outcome (List ℕ)
    → Type 0
ArrivesIfSent radio from to (ok pdu) = Arrives radio from to pdu
ArrivesIfSent radio from to (raise e) = Unit
ArrivesIfSent radio from to loops = Unit

-- PDUs, if there are any to send, arrive.
abbrev pub AllArrive :
    {F State Iq Scheme : Type 0}
    → Radio F State Iq Scheme
    → State
    → State
    → Outcome (List (List ℕ))
    → Type 0
AllArrive radio from to (ok pdus) = All (Arrives radio from to) pdus
AllArrive radio from to (raise e) = Unit
AllArrive radio from to loops = Unit
