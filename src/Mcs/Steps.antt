-- ===== src/Mcs/Steps.antt =====
-- What the reports to a controller do to it.
use spectracuda.Common.{
  ok, ℤ, ℕ, zero, suc, ◌+◌, ◌-◌, ◌≤◌, ◌<◌, ◌≡◌, ◌⊎◌, inl, inr, refl, true, false, List, [], ◌∷◌,
  ◌∙◌, sym, ◌&&◌, ◌==◌, Option, none, some, leb, ltb, arith, pos, Bool-cases, if◌then◌else◌,
}
use mathlib.Core.Path.{subst}
use spectracuda.Mcs.{
  mcs_controller, Settings, McsController, minus, decide, step_down, step_up, on_quality_report,
}

-- A report: how many PDUs the peer has attempted and delivered so far. An interval: how many of them
-- since the report before, where any were attempted.
abbrev pub Report : Type 0
Report = ℕ × ℕ

abbrev pub Interval : Type 0
Interval = ℤ × ℕ

abbrev pub interval_between : Report → Report → Option Interval
interval_between (n0, d0) (n, d) = if leb n n0 then none else some (minus d d0, n - n0)

abbrev pub joined : Option Interval → List Interval → List Interval
joined none h = h
joined (some i) h = i ∷ h

-- The intervals between reports, the newest first, after those in the list and from the given report
-- on.
abbrev pub history : Report → List Interval → List Report → List Interval
history last h [] = h
history last h (r ∷ reports) = history r (joined (interval_between last r) h) reports

abbrev pub last_report : Report → List Report → Report
last_report last [] = last
last_report last (r ∷ reports) = last_report r reports

abbrev pub run : Settings → McsController → List Report → McsController
run s c [] = c
run s c ((n, d) ∷ reports) = run s (on_quality_report s n d c).1 reports

abbrev pub IsBad : Settings → Interval → Type 0
IsBad s (delivered, attempts) = s.is_bad delivered attempts ≡ true

abbrev pub IsGood : Settings → Interval → Type 0
IsGood s (delivered, attempts) =
    (s.is_bad delivered attempts ≡ false) × (s.is_good delivered attempts ≡ true)

-- The first `k` of the intervals are good.
abbrev pub IsGoodRun : Settings → ℕ → List Interval → Type 0
IsGoodRun s zero h = Unit
IsGoodRun s (suc k) [] = ⊥
IsGoodRun s (suc k) (i ∷ h) = IsGood s i × IsGoodRun s k h

-- What a report does that ends the given interval, after those in the list. With no interval nothing
-- changes. A call that returns a modem has gone one step down on a bad interval, or one step up on a
-- good one that makes the run of them long enough. A call that returns none on a bad interval was at
-- the floor; on a good one it has counted it, and is at the top or has not counted enough.
abbrev pub IsStep :
    Settings → McsController → Option Interval → List Interval → Option ℕ × McsController → Type 0
IsStep s c none h (modem, after) =
    (modem ≡ none) × (after.index ≡ c.index) × (after.good_streak ≡ c.good_streak)
IsStep s c (some i) h (some modem, after) =
    (modem ≡ after.index)
    × (after.good_streak ≡ 0)
    × (((after.index + 1 ≡ c.index) × IsBad s i)
        ⊎ ((after.index ≡ c.index + 1) × IsGood s i × IsGoodRun s s.up_streak_needed (i ∷ h)))
IsStep s c (some i) h (none, after) =
    (after.index ≡ c.index)
    × (IsBad s i → (c.index ≡ 0) × (after.good_streak ≡ 0))
    × (IsGood s i
        → (after.good_streak ≡ c.good_streak + 1)
          × ((c.index + 1 ≡ s.table_length) ⊎ (after.good_streak < s.up_streak_needed)))

-- The index is in the table, the counts are those of the last report, and the streak counts good
-- intervals.
record IsController (s : Settings) (last : Report) (h : List Interval) (c : McsController)
    : Type 0 where
  in_table : c.index < s.table_length
  attempts : c.last_n_attempts ≡ last.0
  delivered : c.last_n_delivered ≡ last.1
  good_run : IsGoodRun s c.good_streak h

module _ (s : Settings) where
  IsGoodRun-shorter : (j k : ℕ) (h : List Interval) → j ≤ k → IsGoodRun s k h → IsGoodRun s j h
  IsGoodRun-shorter zero k h le g = tt
  IsGoodRun-shorter (suc j) zero h le g = absurd (omega arith)
  IsGoodRun-shorter (suc j) (suc k) [] le g = g
  IsGoodRun-shorter (suc j) (suc k) (i ∷ h) le g = (g.0, IsGoodRun-shorter j k h (omega arith) g.1)

  module _ (last : Report) (h : List Interval) (i : Interval) where
    abbrev Steps : McsController → Option ℕ × McsController → Type 0
    Steps c r = IsStep s c (some i) h r × IsController s last (i ∷ h) r.1

    down-Steps :
        (c : McsController)
        → c.index < s.table_length
        → c.last_n_attempts ≡ last.0
        → c.last_n_delivered ≡ last.1
        → IsBad s i
        → Steps c (step_down c)
    unfolding step_down
    down-Steps c t a d bad = elim (Bool-cases (c.index == 0)) [
      | inl floor ↦ rw floor (
        (refl, λ b. (ground (arith, floor), refl), λ g. cc (sym bad ∙ g.0)),
        record { in_table = t; attempts = a; delivered = d; good_run = tt },
      )
      | inr above ↦ rw above (
        (refl, refl, inl (ground (arith, above), bad)),
        record { in_table = omega arith; attempts = a; delivered = d; good_run = tt },
      )
    ]

    up-Steps :
        (c : McsController)
        → c.index < s.table_length
        → c.last_n_attempts ≡ last.0
        → c.last_n_delivered ≡ last.1
        → IsGoodRun s c.good_streak h
        → IsGood s i
        → Steps c (step_up s c)
    unfolding step_up
    up-Steps c t a d g good =
        elim (Bool-cases
          (leb s.up_streak_needed (c.good_streak + 1) && ltb (c.index + 1) s.table_length)) [
            | inl enough ↦ rw enough (
              (
                refl,
                refl,
                inr (
                  refl,
                  good,
                  IsGoodRun-shorter s.up_streak_needed (suc c.good_streak) (i ∷ h)
                      (ground (arith, enough)) (good, g),
                ),
              ),
              record {
                in_table = ground (arith, enough);
                attempts = a;
                delivered = d;
                good_run = tt;
              },
            )
            | inr stays ↦ rw stays (
              (refl, λ b. cc (sym b ∙ good.0), λ g'. (refl, ground (arith, stays))),
              record {
                in_table = t;
                attempts = a;
                delivered = d;
                good_run =
                    subst (λ (k : ℕ). IsGoodRun s k (i ∷ h)) {x = suc c.good_streak} (omega arith)
                      (good, g);
              },
            )
          ]

    decide-Steps :
        (c : McsController)
        → c.index < s.table_length
        → c.last_n_attempts ≡ last.0
        → c.last_n_delivered ≡ last.1
        → IsGoodRun s c.good_streak h
        → Steps c (decide s i.0 i.1 c)
    decide-Steps c t a d g = elim (Bool-cases (s.is_bad i.0 i.1)) [
      | inl bad ↦ rw bad (down-Steps c t a d bad)
      | inr fine ↦ elim (Bool-cases (s.is_good i.0 i.1)) [
        | inl good ↦ rw (fine, good) (up-Steps c t a d g (fine, good))
        | inr so_so ↦
            rw (fine, so_so)
              (
                (refl, λ b. cc (sym b ∙ fine), λ g'. cc (sym g'.1 ∙ so_so)),
                record { in_table = t; attempts = a; delivered = d; good_run = tt },
              )
      ]
    ]

  abbrev Follows :
      Report → List Interval → McsController → Report → Option ℕ × McsController → Type 0
  Follows last h c r out =
      IsStep s c (interval_between last r) h out
      × IsController s r (joined (interval_between last r) h) out.1

  report-Follows :
      (last : Report) (h : List Interval) (c : McsController) (n d : ℕ)
      → IsController s last h c
      → Follows last h c (n, d) (on_quality_report s n d c)
  unfolding on_quality_report
  report-Follows last h c n d v = elim (Bool-cases (leb n last.0)) [
    | inl old ↦
        rw (v.attempts, old)
          (
            (refl, refl, refl),
            record {
              in_table = v.in_table;
              attempts = refl;
              delivered = refl;
              good_run = v.good_run;
            },
          )
    | inr new ↦
        rw (v.attempts, v.delivered, new)
          (decide-Steps (n, d) h (minus d last.1, n - last.0)
            (record c { last_n_attempts = n; last_n_delivered = d }) v.in_table refl refl
            v.good_run)
  ]

  run-IsController :
      (reports : List Report) (last : Report) (h : List Interval) (c : McsController)
      → IsController s last h c
      → IsController s (last_report last reports) (history last h reports) (run s c reports)
  run-IsController [] last h c v = v
  run-IsController ((n, d) ∷ reports) last h c v =
      run-IsController reports (n, d) (joined (interval_between last (n, d)) h)
        (on_quality_report s n d c).1 (report-Follows last h c n d v).1

new-IsController :
    (s : Settings) (start : ℕ) (c : McsController)
    → mcs_controller s start ≡ ok c
    → IsController s (0, 0) [] c
unfolding mcs_controller
new-IsController s start c e = record {
  in_table = ground arith;
  attempts = ground arith;
  delivered = ground arith;
  good_run = subst (λ (k : ℕ). IsGoodRun s k []) (sym no_streak) tt;
}
  where
    no_streak : c.good_streak ≡ 0
    no_streak = ground arith

-- A new controller that has received any reports receives one more. If no PDU was attempted since the
-- report before, index and streak stay and no modem is returned. If the interval is bad, it goes one
-- step down, unless it is at the floor. It goes one step up only on a good interval, and only if the
-- last `up_streak_needed` intervals were good; on a good interval it stays only at the top of the
-- table or while it has counted fewer. The modem is returned exactly when it changes, and the index
-- is in the table.
pub on_quality_report-IsStep :
    (s : Settings) (start : ℕ) (new : McsController) (reports : List Report) (n d : ℕ)
    → mcs_controller s start ≡ ok new
    → IsStep s
        (run s new reports)
        (interval_between (last_report (0, 0) reports) (n, d))
        (history (0, 0) [] reports)
        (on_quality_report s n d (run s new reports))
      × ((on_quality_report s n d (run s new reports)).1.index < s.table_length)
on_quality_report-IsStep s start new reports n d e =
    let v =
      report-Follows s (last_report (0, 0) reports) (history (0, 0) [] reports) (run s new reports)
        n d (run-IsController s reports (0, 0) [] new (new-IsController s start new e)) in
    (v.0, v.1.in_table)

-- The first report to a new controller is no mere baseline: if it counts attempts and their ratio is
-- bad, a controller that starts above the floor goes down by it.
first_report_acts :
    (s : Settings) (start_index n_attempts n_delivered : ℕ) (c : McsController)
    → mcs_controller s start_index ≡ ok c
    → 0 < start_index
    → 0 < n_attempts
    → s.is_bad (pos n_delivered) n_attempts ≡ true
    → (on_quality_report s n_attempts n_delivered c).0 ≡ some (start_index - 1)
unfolding mcs_controller on_quality_report step_down
first_report_acts s start_index n d c e above counts bad = ground arith
