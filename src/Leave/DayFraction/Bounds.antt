-- ===== src/Leave/DayFraction/Bounds.antt =====
-- How many days of leave a request can count.
use native.Mathlib.Nat.{div-lt_iff_lt-mul}
use workforce_app_backend.Common.{
  ℕ, zero, suc, ◌+◌, ◌-◌, ◌*◌, ◌/◌, ◌≤◌, ◌<◌, ◌≡◌, arith, some, List, [], ◌∷◌, ◌==◌, ltb, inl, inr,
  Bool-cases, Option-cases, get_or,
}
use workforce_app_backend.Calendar.{Date, day_number, next_day}
use workforce_app_backend.Leave.DayFraction.{
  TimeRange, ScheduleForFraction, LeaveDaySession, LeaveDayPlan, scheduled_minutes, Rules, rule_get,
  day_rules, longest, full_day_minutes, fraction_of, leave_fraction_for_weekday, weekday_of,
  plan_days, working_leave_days, session_for, session_fraction, apply_leave_sessions,
  sum_leave_day_fractions,
}

rule_get-longest :
    (weekday : ℕ) (rules : Rules) (range : TimeRange)
    → rule_get weekday rules ≡ some range
    → scheduled_minutes range ≤ longest rules
unfolding rule_get longest
rule_get-longest weekday [] range h = absurd (ground arith)
rule_get-longest weekday ((w, r) ∷ rules) range h = elim (Bool-cases (w == weekday)) [
  | inl same ↦ let e : r ≡ range = ground (arith, same, h) in rw e (omega arith)
  | inr other ↦ omega (arith, rule_get-longest weekday rules range (ground (arith, other, h)))
]

fraction_of-le : (mins most : ℕ) → 0 < most → mins ≤ most → fraction_of mins most ≤ 100
fraction_of-le mins most p h =
    let below : (200 * mins + most) / (2 * most) < 101 =
      (div-lt_iff_lt-mul (omega arith)).1 (omega arith) in
    omega arith

full_day_minutes-pos : (schedule : ScheduleForFraction) → 0 < full_day_minutes schedule
unfolding full_day_minutes
full_day_minutes-pos schedule = ground arith

longest-le :
    (schedule : ScheduleForFraction) → longest (day_rules schedule) ≤ full_day_minutes schedule
unfolding full_day_minutes
longest-le schedule = ground arith

-- A weekday counts for one day of leave at most.
leave_fraction_for_weekday-le :
    (schedule : ScheduleForFraction) (weekday : ℕ)
    → leave_fraction_for_weekday schedule weekday ≤ 100
unfolding leave_fraction_for_weekday
leave_fraction_for_weekday-le schedule weekday =
    elim (Option-cases (rule_get weekday (day_rules schedule))) [
      | inl off ↦ rw off (omega arith)
      | inr (range, found) ↦
          let fits = rule_get-longest weekday (day_rules schedule) range found in
          let at_most =
            fraction_of-le (scheduled_minutes range) (full_day_minutes schedule)
              (full_day_minutes-pos schedule) (omega (arith, fits, longest-le schedule)) in
          rw found (ground (arith, at_most))
    ]

plan_days-le :
    (schedule : ScheduleForFraction) (left : ℕ) (cur : Date)
    → sum_leave_day_fractions (plan_days schedule left cur) ≤ 100 * left
unfolding sum_leave_day_fractions plan_days
plan_days-le schedule zero cur = omega arith
plan_days-le schedule (suc left) cur =
    let day = leave_fraction_for_weekday-le schedule (weekday_of cur) in
    let rest = plan_days-le schedule left (next_day cur) in ground (arith, day, rest)

session_fraction-le :
    (session : LeaveDaySession) (fraction : ℕ) → session_fraction session fraction ≤ fraction
unfolding session_fraction
session_fraction-le LeaveDaySession.full f = omega arith
session_fraction-le LeaveDaySession.morning f = ground arith
session_fraction-le LeaveDaySession.afternoon f = ground arith

apply_leave_sessions-le :
    (sessions : List (Date × LeaveDaySession)) (days : List LeaveDayPlan)
    → sum_leave_day_fractions (apply_leave_sessions sessions days) ≤ sum_leave_day_fractions days
unfolding sum_leave_day_fractions apply_leave_sessions
apply_leave_sessions-le sessions [] = omega arith
apply_leave_sessions-le sessions (d ∷ days) =
    let one =
      session_fraction-le (get_or (session_for d.date sessions) LeaveDaySession.full)
        d.day_fraction in
    omega (arith, one, apply_leave_sessions-le sessions days)

-- The days of a request from `start` to `stop` are at most the calendar days of that range, whatever
-- the schedule says and whatever sessions are chosen: choosing half days never makes them more.
pub leave_days_bounds :
    (start stop : Date) (schedule : ScheduleForFraction) (sessions : List (Date × LeaveDaySession))
    → let days = working_leave_days start stop schedule in
      let chosen = apply_leave_sessions sessions days in
      (sum_leave_day_fractions chosen ≤ sum_leave_day_fractions days)
      × (sum_leave_day_fractions days ≤ 100 * (day_number stop + 1 - day_number start))
unfolding working_leave_days sum_leave_day_fractions
leave_days_bounds start stop schedule sessions = (
  apply_leave_sessions-le sessions (working_leave_days start stop schedule),
  elim (Bool-cases (ltb (day_number stop) (day_number start))) [
    | inl empty ↦ rw empty (omega arith)
    | inr some_days ↦
        let most = plan_days-le schedule (day_number stop - day_number start + 1) start in
        rw some_days (ground (arith, some_days, most))
  ],
)
