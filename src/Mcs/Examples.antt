-- ===== src/Mcs/Examples.antt =====
-- Runs of the controller.
use spectracuda.Common.{
  ◌<◌, [], ◌∷◌, some, ℕ, ◌*◌, ◌≡◌, refl, ℤ, pos, negsuc, Bool, true, false, ok, ltb, leb,
}
use spectracuda.Mcs.{step_up, step_down, Settings, McsController, mcs_controller, on_quality_report}
use spectracuda.Mcs.Steps.{
  IsStep, run, history, last_report, interval_between, on_quality_report-IsStep,
}

-- `delivered / attempts < 0.85`
abbrev below_85 : ℤ → ℕ → Bool
below_85 (pos delivered) attempts = ltb (delivered * 100) (attempts * 85)
below_85 (negsuc delivered) attempts = true

-- `delivered / attempts >= 0.98`
abbrev from_98 : ℤ → ℕ → Bool
from_98 (pos delivered) attempts = leb (attempts * 98) (delivered * 100)
from_98 (negsuc delivered) attempts = false

abbrev drone : Settings
drone = record { table_length = 4; up_streak_needed = 3; is_bad = below_85; is_good = from_98 }

abbrev at_qpsk : McsController
at_qpsk = record { index = 1; good_streak = 0; last_n_attempts = 0; last_n_delivered = 0 }

new_controller : mcs_controller drone 1 ≡ ok at_qpsk
unfolding mcs_controller
new_controller = refl

-- After two good intervals a third one: the controller goes up.
on_quality_report-IsStep_example :
    IsStep drone
      (run drone at_qpsk ((10, 10) ∷ (20, 20) ∷ []))
      (interval_between (last_report (0, 0) ((10, 10) ∷ (20, 20) ∷ [])) (30, 30))
      (history (0, 0) [] ((10, 10) ∷ (20, 20) ∷ []))
      (on_quality_report drone 30 30 (run drone at_qpsk ((10, 10) ∷ (20, 20) ∷ [])))
    × ((on_quality_report drone 30 30 (run drone at_qpsk ((10, 10) ∷ (20, 20) ∷ []))).1.index < 4)
on_quality_report-IsStep_example =
    on_quality_report-IsStep drone 1 at_qpsk ((10, 10) ∷ (20, 20) ∷ []) 30 30 new_controller

goes_up : (on_quality_report drone 30 30 (run drone at_qpsk ((10, 10) ∷ (20, 20) ∷ []))).0 ≡ some 2
unfolding on_quality_report step_up step_down
goes_up = refl
