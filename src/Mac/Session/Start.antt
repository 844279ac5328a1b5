-- ===== src/Mac/Session/Start.antt =====
-- mac/session.py: the constructor of a link.
use Prim.Native.String.{String}
use text.Mathlib.Text.{◌==◌ as str_eq}
use spectracuda.Common.{ℕ, ◌+◌, false, not, Option, none, some, Outcome, ok, ◌>>=◌, ◌>>◌, require}
use spectracuda.Mac.Capacity.{compute_max_segment_bits}
use spectracuda.Mac.Quality.{Floats, link_quality_tracker}
use spectracuda.Mac.Radio.{Radio}
use spectracuda.Mac.Unit.{mac_unit}
use spectracuda.Mac.Session.{MacLink}

-- `max_rounds if max_rounds is not None else max_retries + 2`
abbrev rounds_or_default : Option ℕ → ℕ → ℕ
rounds_or_default none max_retries = max_retries + 2
rounds_or_default (some rounds) max_retries = rounds

module _ {F State Iq Scheme World : Type 0} (floats : Floats F)
    (radio : Radio F State Iq Scheme) where
  -- `MacLink(ofdm, mode, channel=..., max_rounds=..., window_size=..., max_retries=...)`
  unfoldable pub mac_link :
      State → String → Option World → Option ℕ → ℕ → ℕ → Outcome (MacLink F State World)
  mac_link ofdm mode channel max_rounds window_size max_retries = do
    require (radio.crc_enabled ofdm)
    n ← compute_max_segment_bits (radio.phy ofdm) (not (str_eq mode "tm"))
    tx ← mac_unit floats radio mode (some n) none window_size max_retries
    rx ← mac_unit floats radio mode (some n) none window_size max_retries
    ok (record {
      ofdm = ofdm;
      mode = mode;
      channel = channel;
      max_rounds = rounds_or_default max_rounds max_retries;
      max_segment_bits = n;
      window_size = window_size;
      max_retries = max_retries;
      tx_mac = tx.impl;
      rx_mac = rx.impl;
      bound = false;
      quality = link_quality_tracker floats;
    })
