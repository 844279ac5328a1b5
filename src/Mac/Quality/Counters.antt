-- ===== src/Mac/Quality/Counters.antt =====
-- The counters of a link agree with the observations.
use spectracuda.Common.{
  ℕ, ◌+◌, ◌≤◌, ◌≡◌, List, [], ◌∷◌, Bool, Option, arith, if◌then◌else◌, length, is_some,
}
use spectracuda.Mac.Quality.{Floats, LinkQualityTracker, observe, link_quality_tracker}

-- The frames of a link: signal strength, error vector if there is one, and whether it arrived.
pub record Observation (F : Type 0) : Type 0 where
  pub rssi_db : F
  pub evm : Option F
  pub delivered : Bool

module _ {F : Type 0} (floats : Floats F) where
  unfoldable pub observe_all : List (Observation F) → LinkQualityTracker F → LinkQualityTracker F
  observe_all [] t = t
  observe_all (o ∷ observations) t =
      observe_all observations (observe floats o.rssi_db o.evm o.delivered t)

  unfoldable pub count_delivered : List (Observation F) → ℕ
  count_delivered [] = 0
  count_delivered (o ∷ observations) = (if o.delivered then 1 else 0) + count_delivered observations

  unfoldable pub count_evm : List (Observation F) → ℕ
  count_evm [] = 0
  count_evm (o ∷ observations) = (if is_some o.evm then 1 else 0) + count_evm observations

  counted :
      (observations : List (Observation F)) (t : LinkQualityTracker F)
      → ((observe_all observations t).n_attempts ≡ t.n_attempts + length observations)
        × ((observe_all observations t).n_delivered ≡ t.n_delivered + count_delivered observations)
        × ((observe_all observations t).evm_count ≡ t.evm_count + count_evm observations)
  unfolding observe_all count_delivered count_evm observe
  counted [] t = omega arith
  counted (o ∷ observations) t =
      ground (arith, counted observations (observe floats o.rssi_db o.evm o.delivered t))

  count_delivered-le :
      (observations : List (Observation F)) → count_delivered observations ≤ length observations
  unfolding count_delivered
  count_delivered-le [] = omega arith
  count_delivered-le (o ∷ observations) = ground (arith, count_delivered-le observations)

-- However a new tracker is used, it counts every frame as an attempt, the frames that arrived as
-- delivered, and the error vectors that there were; so no more is delivered than attempted.
pub observe_all-counts :
    {F : Type 0} (floats : Floats F) (observations : List (Observation F))
    → let t = observe_all floats observations (link_quality_tracker floats) in
      (t.n_attempts ≡ length observations)
      × (t.n_delivered ≡ count_delivered floats observations)
      × (t.evm_count ≡ count_evm floats observations)
      × (t.n_delivered ≤ t.n_attempts)
observe_all-counts floats observations = omega (
  arith,
  counted floats observations (link_quality_tracker floats),
  count_delivered-le floats observations,
)
