-- ===== src/Mac/Unit.antt =====
-- mac/mac.py, class Mac: an entity with an OFDM object of its own.
pub mod Iq
pub mod Control
pub mod Batch
pub mod Handshake
use Prim.Native.String.{String}
use text.Mathlib.Text.{◌==◌ as str_eq}
use spectracuda.Common.{
  ℕ, Bool, true, false, not, Option, none, some, Outcome, ok, raise, value_error, ◌>>=◌, ◌>>◌,
  require, is_some,
}
use spectracuda.Mac.Capacity.{compute_max_segment_bits}
use spectracuda.Mac.Quality.{Floats, LinkQualityTracker, link_quality_tracker}
use spectracuda.Mac.Bind.{mode_code}
use spectracuda.Mac.Radio.{Radio}
use spectracuda.Mac.Entity.{Entity, entity}

-- A Mac whose radio is in a `State`; without `ofdm_kwargs` it has none.
pub record MacUnit (F State : Type 0) : Type 0 where
  pub mode : String
  pub ofdm : Option State
  pub max_segment_bits : ℕ
  pub impl : Entity
  pub quality : LinkQualityTracker F
  pub bound : Bool
  pub window_size : ℕ
  pub max_retries : ℕ

module _ {F State Iq Scheme : Type 0} (floats : Floats F) (radio : Radio F State Iq Scheme) where
  -- The bound on segments: derived from the OFDM object, which must have a CRC, or given.
  abbrev segment_bound : String → Option ℕ → Option State → Outcome ℕ
  segment_bound mode given (some s) = do
    require (radio.crc_enabled s)
    derived ← compute_max_segment_bits (radio.phy s) (not (str_eq mode "tm"))
    require (not (is_some given))
    ok derived
  segment_bound mode (some n) none = ok n
  segment_bound mode none none = raise value_error

  -- `Mac(mode, max_segment_bits, ofdm_kwargs=..., window_size=..., max_retries=...)`, with the
  -- OFDM object that the arguments build
  unfoldable pub mac_unit : String → Option ℕ → Option State → ℕ → ℕ → Outcome (MacUnit F State)
  mac_unit mode max_segment_bits ofdm window_size max_retries = do
    require (is_some (mode_code mode))
    n ← segment_bound mode max_segment_bits ofdm
    impl ← entity mode n window_size max_retries
    ok (record {
      mode = mode;
      ofdm = ofdm;
      max_segment_bits = n;
      impl = impl;
      quality = link_quality_tracker floats;
      bound = false;
      window_size = window_size;
      max_retries = max_retries;
    })
