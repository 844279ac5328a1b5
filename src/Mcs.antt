-- ===== src/Mcs.antt =====
-- examples/drone_tui/adaptive_mcs.py, class McsController: the modulation of a link follows the
-- peer's quality reports. A modem is its place in the table.
pub mod Steps
pub mod Examples
use spectracuda.Common.{
  ℕ, zero, suc, ◌+◌, ◌-◌, ℤ, pos, negsuc, Bool, true, false, ◌&&◌, Option, none, some, Outcome, ok,
  ◌>>◌, require, ltb, leb, ◌==◌, if◌then◌else◌,
}

-- The settings: the length of the table, and the tests `ratio < down_ratio` and `ratio >= up_ratio`
-- of the ratio of two counts, which the source computes in floating point.
pub record Settings : Type 0 where
  pub table_length : ℕ
  pub up_streak_needed : ℕ
  pub is_bad : ℤ → ℕ → Bool
  pub is_good : ℤ → ℕ → Bool

pub record McsController : Type 0 where
  pub index : ℕ
  pub good_streak : ℕ
  pub last_n_attempts : ℕ
  pub last_n_delivered : ℕ

-- `McsController(table, start_index, ...)`
unfoldable pub mcs_controller : Settings → ℕ → Outcome McsController
mcs_controller s start_index =
    require (ltb start_index s.table_length)
    >> ok
        (record { index = start_index; good_streak = 0; last_n_attempts = 0; last_n_delivered = 0 })

-- `a - b`
abbrev pub minus : ℕ → ℕ → ℤ
minus a b = if leb b a then pos (a - b) else negsuc (b - a - 1)

-- A bad interval: down at once, unless the controller is at the floor.
unfoldable pub step_down : McsController → Option ℕ × McsController
step_down c =
    if c.index == 0
    then (none, record c { good_streak = 0 })
    else (some (c.index - 1), record c { good_streak = 0; index = c.index - 1 })

-- A good interval: up once enough of them have come in a row.
unfoldable pub step_up : Settings → McsController → Option ℕ × McsController
step_up s c =
    if leb s.up_streak_needed (c.good_streak + 1) && ltb (c.index + 1) s.table_length
    then (some (c.index + 1), record c { good_streak = 0; index = c.index + 1 })
    else (none, record c { good_streak = c.good_streak + 1 })

abbrev pub decide : Settings → ℤ → ℕ → McsController → Option ℕ × McsController
decide s delivered attempts c =
    if s.is_bad delivered attempts
    then step_down c
    else if s.is_good delivered attempts
    then step_up s c
    else (none, record c { good_streak = 0 })

unfoldable pub on_quality_report : Settings → ℕ → ℕ → McsController → Option ℕ × McsController
unfolding step_down step_up
on_quality_report s n_attempts n_delivered c =
    let counted = record c { last_n_attempts = n_attempts; last_n_delivered = n_delivered } in
    if leb n_attempts c.last_n_attempts
    then (none, counted)
    else decide s (minus n_delivered c.last_n_delivered) (n_attempts - c.last_n_attempts) counted
