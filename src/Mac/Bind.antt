-- ===== src/Mac/Bind.antt =====
-- mac/bind.py: the binding handshake.
pub mod Bytes
pub mod Handshake
pub mod Examples
use Prim.Native.String.{String}
use text.Mathlib.Text.{◌==◌ as str_eq}
use spectracuda.Common.{
  ℕ, ◌+◌, ◌*◌, ◌-◌, ◌/◌, ◌%◌, ◌^◌, List, [], ◌∷◌, ◌++◌, Bool, true, false, not, Option, none, some,
  Outcome, ok, raise, value_error, index_error, ◌>>=◌, ◌>>◌, require, ltb, leb, ◌==◌, if◌then◌else◌,
  take, drop, bit_or, is_some,
}
use spectracuda.Numpy.{Packing}
use spectracuda.Mac.Pdu.{
  Header, header_len_bits, si_full, type_bind_request, type_bind_response, encode_header,
  decode_header,
}

-- `_MODE_CODES`
unfoldable pub mode_code : String → Option ℕ
mode_code mode =
    if str_eq mode "tm"
    then some 0
    else if str_eq mode "um"
    then some 1
    else if str_eq mode "am"
    then some 2
    else none

-- `_MODE_NAMES`
unfoldable pub mode_name : ℕ → Option String
mode_name code =
    if code == 0
    then some "tm"
    else if code == 1
    then some "um"
    else if code == 2
    then some "am"
    else none

-- The values of `_REASON_NAMES`; a reason that is not among its keys cannot be written.
pub data Reason : Type 0 where
  no_reason unknown_mode segment_too_large : Reason

unfoldable pub reason_code : Reason → ℕ
reason_code no_reason = 0
reason_code unknown_mode = 1
reason_code segment_too_large = 2

unfoldable pub reason_name : ℕ → Option Reason
reason_name code =
    if code == 0
    then some no_reason
    else if code == 1
    then some unknown_mode
    else if code == 2
    then some segment_too_large
    else none

pub record Request : Type 0 where
  pub mode : String
  pub max_segment_bits : ℕ
  pub window_size : ℕ
  pub max_retries : ℕ

pub record Decision : Type 0 where
  pub accepted : Bool
  pub reason : Reason
  pub request : Request

-- A key that a table lacks: the source raises ValueError.
abbrev pub or_value_error {ℓ} : {A : Type ℓ} → Option A → Outcome A
or_value_error none = raise value_error
or_value_error (some a) = ok a

-- `d.get(key, 0)`
abbrev pub get_or_zero : Option ℕ → ℕ
get_or_zero none = 0
get_or_zero (some n) = n

-- `a[0]`
abbrev pub first : List ℕ → Outcome ℕ
first [] = raise index_error
first (b ∷ bytes) = ok b

module _ (np : Packing) where
  unfoldable pub u8 : ℕ → Outcome (List ℕ)
  u8 v = do require (leb v 255); ok (np.unpackbits (v ∷ []))

  unfoldable pub u32 : ℕ → Outcome (List ℕ)
  u32 v = do
    require (leb v (2 ^ 32 - 1))
    ok (np.unpackbits (v / 2 ^ 24 % 256 ∷ v / 2 ^ 16 % 256 ∷ v / 2 ^ 8 % 256 ∷ v % 256 ∷ []))

  unfoldable pub read_u8 : List ℕ → ℕ → Outcome ℕ
  read_u8 bits byte_offset = first (np.packbits (take 8 (drop (byte_offset * 8) bits)))

  unfoldable pub read_u32 : List ℕ → ℕ → Outcome ℕ
  read_u32 bits byte_offset = do
    b0 ← read_u8 bits byte_offset
    b1 ← read_u8 bits (byte_offset + 1)
    b2 ← read_u8 bits (byte_offset + 2)
    b3 ← read_u8 bits (byte_offset + 3)
    ok (bit_or (bit_or (bit_or (b0 * 2 ^ 24) (b1 * 2 ^ 16)) (b2 * 2 ^ 8)) b3)

  unfoldable pub encode_bind_request : Request → Outcome (List ℕ)
  encode_bind_request r = do
    code ← or_value_error (mode_code r.mode)
    header ← encode_header (record { pdu_type = type_bind_request; si = si_full; sn = 0; so = 0 })
    mode ← u8 code
    segment ← u32 r.max_segment_bits
    window ← u8 r.window_size
    retries ← u8 r.max_retries
    ok (header ++ (mode ++ (segment ++ (window ++ retries))))

  unfoldable pub decode_bind_request : List ℕ → Outcome Request
  decode_bind_request pdu_bits = do
    header ← decode_header (take header_len_bits pdu_bits)
    require (header.pdu_type == type_bind_request)
    let payload = drop header_len_bits pdu_bits
    code ← read_u8 payload 0
    mode ← or_value_error (mode_name code)
    segment ← read_u32 payload 1
    window ← read_u8 payload 5
    retries ← read_u8 payload 6
    ok (record {
      mode = mode;
      max_segment_bits = segment;
      window_size = window;
      max_retries = retries;
    })

  unfoldable pub encode_bind_response : Decision → Outcome (List ℕ)
  encode_bind_response d = do
    header ← encode_header (record { pdu_type = type_bind_response; si = si_full; sn = 0; so = 0 })
    accepted ← u8 (if d.accepted then 1 else 0)
    reason ← u8 (reason_code d.reason)
    mode ← u8 (get_or_zero (mode_code d.request.mode))
    segment ← u32 d.request.max_segment_bits
    window ← u8 d.request.window_size
    retries ← u8 d.request.max_retries
    ok (header ++ (accepted ++ (reason ++ (mode ++ (segment ++ (window ++ retries))))))

  unfoldable pub decode_bind_response : List ℕ → Outcome Decision
  decode_bind_response pdu_bits = do
    header ← decode_header (take header_len_bits pdu_bits)
    require (header.pdu_type == type_bind_response)
    let payload = drop header_len_bits pdu_bits
    accepted ← read_u8 payload 0
    code ← read_u8 payload 1
    reason ← or_value_error (reason_name code)
    mode_number ← read_u8 payload 2
    mode ← or_value_error (mode_name mode_number)
    segment ← read_u32 payload 3
    window ← read_u8 payload 7
    retries ← read_u8 payload 8
    ok (record {
      accepted = not (accepted == 0);
      reason = reason;
      request = record {
        mode = mode;
        max_segment_bits = segment;
        window_size = window;
        max_retries = retries;
      };
    })

unfoldable pub evaluate_bind_request : Request → ℕ → Decision
evaluate_bind_request request local_max_segment_bits =
    if not (is_some (mode_code request.mode))
    then record { accepted = false; reason = unknown_mode; request = request }
    else if ltb local_max_segment_bits request.max_segment_bits
    then record { accepted = false; reason = segment_too_large; request = request }
    else record { accepted = true; reason = no_reason; request = request }
