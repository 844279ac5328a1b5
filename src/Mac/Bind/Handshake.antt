-- ===== src/Mac/Bind/Handshake.antt =====
-- The handshake: requests and responses survive the trip, and the acceptor decides.
use Prim.Native.String.{String}
use text.Mathlib.TextEquality.{eq_iff}
use mathlib.Core.Path.{subst}
use native.Mathlib.Decide.{dec_lt}
use spectracuda.Common.{
  length, length-append, ◌+◌, Option-cases, inl, inr, if◌then◌else◌, ◌==◌, ℕ, ◌^◌, ◌≤◌, ◌<◌, ◌≡◌,
  ◌∙◌, ◌⊎◌, ◌↔◌, refl, sym, List, ◌++◌, Bool, true, false, arith, ok, raise, value_error, leb, not,
  none, some, bits_of,
}
use spectracuda.Numpy.{Packing}
use spectracuda.Mac.Pdu.{Header}
use spectracuda.Mac.Pdu.RoundTrip.{
  header_bits, length-header_bits, encode_header-eq_ok, decode_header-eq_ok,
}
use spectracuda.Mac.Pdu.RoundTrip.{take-header_bits, drop-header_bits}
use spectracuda.Mac.Bind.{
  mode_code, mode_name, reason_code, reason_name, Reason, Request, Decision, encode_bind_request,
  decode_bind_request, encode_bind_response, decode_bind_response, evaluate_bind_request, no_reason,
  unknown_mode, segment_too_large, u8, u32,
}
use spectracuda.Mac.Bind.Bytes.{bytes_of, u8-eq_ok, u32-eq_ok, read_u8-at, read_u32-at}

mode_code-lt : (mode : String) (c : ℕ) → mode_code mode ≡ some c → c < 3
unfolding mode_code
mode_code-lt mode c h = ground arith

mode_name-mode_code : (mode : String) (c : ℕ) → mode_code mode ≡ some c → mode_name c ≡ some mode
unfolding mode_code mode_name
mode_name-mode_code mode c h = ground (arith, eq_iff mode "tm", eq_iff mode "um", eq_iff mode "am")

reason_code-lt : (r : Reason) → reason_code r < 256
unfolding reason_code
reason_code-lt no_reason = omega arith
reason_code-lt unknown_mode = omega arith
reason_code-lt segment_too_large = omega arith

reason_name-reason_code : (r : Reason) → reason_name (reason_code r) ≡ some r
unfolding reason_code reason_name
reason_name-reason_code no_reason = refl
reason_name-reason_code unknown_mode = refl
reason_name-reason_code segment_too_large = refl

flag-lt : (b : Bool) → (if b then 1 else 0) < 256
flag-lt true = omega arith
flag-lt false = omega arith

flag_read : (b : Bool) → not ((if b then 1 else 0) == 0) ≡ b
flag_read true = refl
flag_read false = refl

-- The parameters that fit the fields of the wire format.
pub record IsRequest (r : Request) : Type 0 where
  pub code : ℕ
  pub known : mode_code r.mode ≡ some code
  pub segment_fits : r.max_segment_bits < 2 ^ 32
  pub window_fits : r.window_size < 256
  pub retries_fit : r.max_retries < 256

abbrev request_header : Header
request_header = record { pdu_type = 2; si = 0; sn = 0; so = 0 }

abbrev response_header : Header
response_header = record { pdu_type = 3; si = 0; sn = 0; so = 0 }

abbrev request_payload : ℕ → Request → List ℕ
request_payload code r =
    bits_of 8 code
    ++ (bytes_of r.max_segment_bits ++ (bits_of 8 r.window_size ++ bits_of 8 r.max_retries))

module _ (np : Packing) where
  encode_bind_request-eq_ok :
      (r : Request) (v : IsRequest r)
      → encode_bind_request np r ≡ ok (header_bits request_header ++ request_payload v.code r)
  unfolding encode_bind_request
  encode_bind_request-eq_ok r v =
      rw
        (
          v.known,
          encode_header-eq_ok request_header (omega arith),
          u8-eq_ok np v.code (omega (arith, mode_code-lt r.mode v.code v.known)),
          u32-eq_ok np r.max_segment_bits v.segment_fits,
          u8-eq_ok np r.window_size v.window_fits,
          u8-eq_ok np r.max_retries v.retries_fit,
        )
        refl

  decode_bind_request-eq_ok :
      (r : Request) (v : IsRequest r)
      → decode_bind_request np (header_bits request_header ++ request_payload v.code r) ≡ ok r
  unfolding decode_bind_request
  decode_bind_request-eq_ok r v =
      rw
        (
          take-header_bits request_header (request_payload v.code r),
          decode_header-eq_ok request_header (omega arith),
          drop-header_bits request_header (request_payload v.code r),
        )
        (rw
          (
            read_u8-at np (request_payload v.code r) 0 v.code
                (omega (arith, mode_code-lt r.mode v.code v.known)) refl,
            mode_name-mode_code r.mode v.code v.known,
            read_u32-at np (request_payload v.code r) 1 r.max_segment_bits v.segment_fits refl refl
                refl refl,
            read_u8-at np (request_payload v.code r) 5 r.window_size v.window_fits refl,
            read_u8-at np (request_payload v.code r) 6 r.max_retries v.retries_fit refl,
          )
          refl)

  abbrev response_payload : ℕ → Decision → List ℕ
  response_payload code d =
      bits_of 8 (if d.accepted then 1 else 0)
      ++ (bits_of 8 (reason_code d.reason) ++ request_payload code d.request)

  encode_bind_response-eq_ok :
      (d : Decision) (v : IsRequest d.request)
      → encode_bind_response np d ≡ ok (header_bits response_header ++ response_payload v.code d)
  unfolding encode_bind_response
  encode_bind_response-eq_ok d v =
      rw
        (
          encode_header-eq_ok response_header (omega arith),
          u8-eq_ok np (if d.accepted then 1 else 0) (flag-lt d.accepted),
          u8-eq_ok np (reason_code d.reason) (reason_code-lt d.reason),
          v.known,
          u8-eq_ok np v.code (omega (arith, mode_code-lt d.request.mode v.code v.known)),
          u32-eq_ok np d.request.max_segment_bits v.segment_fits,
          u8-eq_ok np d.request.window_size v.window_fits,
          u8-eq_ok np d.request.max_retries v.retries_fit,
        )
        refl

  decode_bind_response-eq_ok :
      (d : Decision) (v : IsRequest d.request)
      → decode_bind_response np (header_bits response_header ++ response_payload v.code d) ≡ ok d
  unfolding decode_bind_response
  decode_bind_response-eq_ok d v =
      let r = d.request in
      let payload = response_payload v.code d in
      rw
        (
          take-header_bits response_header payload,
          decode_header-eq_ok response_header (omega arith),
          drop-header_bits response_header payload,
        )
        (rw
          (
            read_u8-at np payload 0 (if d.accepted then 1 else 0) (flag-lt d.accepted) refl,
            read_u8-at np payload 1 (reason_code d.reason) (reason_code-lt d.reason) refl,
            reason_name-reason_code d.reason,
            read_u8-at np payload 2 v.code (omega (arith, mode_code-lt r.mode v.code v.known)) refl,
            mode_name-mode_code r.mode v.code v.known,
            read_u32-at np payload 3 r.max_segment_bits v.segment_fits refl refl refl refl,
            read_u8-at np payload 7 r.window_size v.window_fits refl,
            read_u8-at np payload 8 r.max_retries v.retries_fit refl,
            flag_read d.accepted,
          )
          refl)

length-append_header :
    (h : Header) (payload : List ℕ) → length (header_bits h ++ payload) ≡ 32 + length payload
length-append_header h payload =
    omega (arith, length-append (header_bits h) payload, length-header_bits h)

-- What a handshake over a channel without loss comes to.
pub record Handshake (np : Packing) (r : Request) (local_max_segment_bits : ℕ) : Type 0 where
  pub request_pdu : List ℕ
  pub request_sent : encode_bind_request np r ≡ ok request_pdu
  pub request_length : length request_pdu ≡ 88
  pub request_read : decode_bind_request np request_pdu ≡ ok r
  pub response_pdu : List ℕ
  pub response_sent :
      encode_bind_response np (evaluate_bind_request r local_max_segment_bits) ≡ ok response_pdu
  pub response_length : length response_pdu ≡ 104
  pub decision : Decision
  pub response_read : decode_bind_response np response_pdu ≡ ok decision
  pub echoed : decision.request ≡ r
  pub accepts : decision.accepted ≡ leb r.max_segment_bits local_max_segment_bits
  pub decided : decision ≡ evaluate_bind_request r local_max_segment_bits

evaluated :
    (r : Request) (n : ℕ)
    → IsRequest r
    → ((evaluate_bind_request r n).request ≡ r)
      × ((evaluate_bind_request r n).accepted ≡ leb r.max_segment_bits n)
unfolding evaluate_bind_request
evaluated r n v = ground (arith, v.known)

-- A request of a known mode whose parameters fit the wire format is sent as 88 bits and arrives as
-- it was sent; the response is sent as 104 bits and arrives as the acceptor decided, with the same
-- parameters; and it accepts exactly when the requested segment size is at most the acceptor's own.
pub handshake_lem :
    (np : Packing) (r : Request) (local_max_segment_bits : ℕ)
    → IsRequest r
    → Handshake np r local_max_segment_bits
handshake_lem np r n v =
    let d : Decision = evaluate_bind_request r n in
    let w : IsRequest d.request = subst IsRequest (sym (evaluated r n v).0) v in
    record {
      request_pdu = header_bits request_header ++ request_payload v.code r;
      request_sent = encode_bind_request-eq_ok np r v;
      request_length = length-append_header request_header (request_payload v.code r);
      request_read = decode_bind_request-eq_ok np r v;
      response_pdu = header_bits response_header ++ response_payload np w.code d;
      response_sent = encode_bind_response-eq_ok np d w;
      response_length = length-append_header response_header (response_payload np w.code d);
      decision = d;
      response_read = decode_bind_response-eq_ok np d w;
      echoed = (evaluated r n v).0;
      accepts = (evaluated r n v).1;
      decided = refl;
    }

abbrev Misfit : Request → Type 0
Misfit r =
    (mode_code r.mode ≡ none)
    ⊎ (2 ^ 32 ≤ r.max_segment_bits)
    ⊎ (256 ≤ r.window_size)
    ⊎ (256 ≤ r.max_retries)

fits_or_not : (r : Request) → IsRequest r ⊎ Misfit r
fits_or_not r = elim (Option-cases (mode_code r.mode)) [
  | inl e ↦ inr (inl e)
  | inr (c, e) ↦ elim (dec_lt r.max_segment_bits (2 ^ 32)) [
    | no p ↦ inr (inr (inl (omega arith)))
    | yes p ↦ elim (dec_lt r.window_size 256) [
      | no q ↦ inr (inr (inr (inl (omega arith))))
      | yes q ↦ elim (dec_lt r.max_retries 256) [
        | no t ↦ inr (inr (inr (inr (omega arith))))
        | yes t ↦
            inl (record { code = c; known = e; segment_fits = p; window_fits = q; retries_fit = t })
      ]
    ]
  ]
]

module _ (np : Packing) (r : Request) where
  refused : encode_bind_request np r ≡ raise value_error → Misfit r
  refused h = elim (fits_or_not r) [
    | inl v ↦ cc (sym h ∙ encode_bind_request-eq_ok np r v)
    | inr m ↦ m
  ]

  refuses : Misfit r → encode_bind_request np r ≡ raise value_error
  unfolding encode_bind_request u8 u32
  refuses m = ground (arith, encode_header-eq_ok request_header (omega arith), mode_code-lt r.mode)

-- A request that cannot be sent is refused with ValueError: the mode is unknown, or a parameter
-- does not fit its field.
pub encode_bind_request_error :
    (np : Packing) (r : Request)
    → (encode_bind_request np r ≡ raise value_error) ↔ (
        (mode_code r.mode ≡ none)
        ⊎ (2 ^ 32 ≤ r.max_segment_bits)
        ⊎ (256 ≤ r.window_size)
        ⊎ (256 ≤ r.max_retries))
encode_bind_request_error np r = (refused np r, refuses np r)
