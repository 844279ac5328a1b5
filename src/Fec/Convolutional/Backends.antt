-- ===== src/Fec/Convolutional/Backends.antt =====
-- fec/viterbi.py, class ConvolutionalCode: the choice of a native library at construction. Which
-- libraries are available, the machine and the environment's variable are parameters.
use Prim.Native.String.{String}
use text.Mathlib.Text.{◌==◌ as str_eq}
use text.Mathlib.TextEquality.{eq_iff}
use spectracuda.Common.{
  ◌≡◌, ◌≢◌, Bool, true, ◌&&◌, ◌||◌, not, Option, none, some, Outcome, ok, raise, ◌>>=◌, value_error,
  runtime_error, if◌then◌else◌, arith,
}

pub data Backend : Type 0 where
  hexagon fast sse neon portable : Backend

-- The keys of `table`.
unfoldable pub backend_named : String → Option Backend
backend_named name =
    if str_eq name "hexagon"
    then some hexagon
    else if str_eq name "fast"
    then some fast
    else if str_eq name "sse"
    then some sse
    else if str_eq name "neon"
    then some neon
    else if str_eq name "portable"
    then some portable
    else none

is_measured : String → Bool
is_measured machine =
    str_eq machine "x86_64"
    || str_eq machine "AMD64"
    || str_eq machine "aarch64"
    || str_eq machine "arm64"

module _ (available : Backend → Bool) where
  require_backend : Option Backend → Outcome (Option Backend)
  require_backend none = raise value_error
  require_backend (some b) = if available b then ok (some b) else raise runtime_error

  preferred : String → Option Backend
  preferred machine =
      if available hexagon
      then some hexagon
      else if available fast && is_measured machine
      then some fast
      else if available sse
      then some sse
      else if available neon
      then some neon
      else if available portable
      then some portable
      else none

  unfoldable pub select_native_backend : String → String → Outcome (Option Backend)
  unfolding require_backend preferred is_measured
  select_native_backend machine forced =
      if str_eq forced ""
      then ok (preferred machine)
      else if str_eq forced "python"
      then ok none
      else require_backend (backend_named forced)

  preferred-available :
      (machine : String) {b : Backend} → preferred machine ≡ some b → available b ≡ true
  unfolding preferred
  preferred-available machine h = ground arith

  -- A library that is chosen is available, and if one was forced it is that one: there is no other
  -- in its place, and a forced one that is not there raises.
  pub select_native_backend-available :
      (machine forced : String) {b : Backend}
      → select_native_backend machine forced ≡ ok (some b)
      → (available b ≡ true) × (forced ≢ "" → backend_named forced ≡ some b)
  unfolding select_native_backend
  select_native_backend-available machine forced h =
      ground (arith, eq_iff forced "", preferred-available machine)

-- What construction keeps: the native library, and whether the compiled encoder is used.
pub record Choice : Type 0 where
  pub native : Option Backend
  pub use_numba_encode : Bool

unfoldable pub convolutional_code :
    Bool → Bool → (Backend → Bool) → String → String → Outcome Choice
convolutional_code is_numpy numba_available available machine forced = do
  native ← if is_numpy then select_native_backend available machine forced else ok none
  ok (record {
    native = native;
    use_numba_encode = is_numpy && not (str_eq forced "python") && numba_available;
  })
