-- ===== src/Leave/DayFraction.antt =====
-- The days of a leave request by the work schedule: src/shared/schedule-day-fraction.ts. Fractions
-- are in hundredths of a day. A time of the day is its hours and minutes, or none where the text is
-- not one; a day is a calendar date, since luxon is asked for whole days of the zone only.
pub mod Bounds
mod Tests
use workforce_app_backend.Common.{
  ℕ, zero, suc, ◌+◌, ◌-◌, ◌*◌, ◌/◌, ◌%◌, max, Bool, true, false, not, ◌&&◌, ◌||◌, Option, none,
  some, List, [], ◌∷◌, ◌==◌, ltb, leb, if◌then◌else◌, map, sum_by, get_or,
}
use workforce_app_backend.Calendar.{Date, date_eq, day_number, next_day}

abbrev pub Time : Type 0
Time = Option (ℕ × ℕ)

pub record TimeRange : Type 0 where
  pub check_in_time : Time
  pub check_out_time : Time

pub record ScheduleDayTimes : Type 0 where
  pub weekday : ℕ
  pub range : TimeRange

pub record ScheduleForFraction : Type 0 where
  pub working_days : List ℕ
  pub check_in_time : Option Time
  pub check_out_time : Option Time
  pub days : List ScheduleDayTimes

pub data LeaveDaySession : Type 0 where
  full morning afternoon : LeaveDaySession

pub record LeaveDayPlan : Type 0 where
  pub date : Date
  pub session : LeaveDaySession
  pub day_fraction : ℕ

unfoldable pub scheduled_minutes : TimeRange → ℕ
scheduled_minutes range = minutes range.check_in_time range.check_out_time
  where
    minutes : Time → Time → ℕ
    minutes (some (ih, im)) (some (oh, om)) = (oh * 60 + om) - (ih * 60 + im)
    minutes _ _ = 0

abbrev pub Rules : Type 0
Rules = List (ℕ × TimeRange)

-- `map.set(weekday, …)` and `map.get(weekday)`
unfoldable pub rule_set : ℕ → TimeRange → Rules → Rules
rule_set weekday range [] = (weekday, range) ∷ []
rule_set weekday range ((w, old) ∷ rules) =
    if w == weekday then (w, range) ∷ rules else (w, old) ∷ rule_set weekday range rules

unfoldable pub rule_get : ℕ → Rules → Option TimeRange
rule_get weekday [] = none
rule_get weekday ((w, range) ∷ rules) = if w == weekday then some range else rule_get weekday rules

unfoldable pub rules_of_days : List ScheduleDayTimes → Rules → Rules
rules_of_days [] rules = rules
rules_of_days (d ∷ days) rules = rules_of_days days (rule_set d.weekday d.range rules)

unfoldable pub rules_of_weekdays : TimeRange → List ℕ → Rules → Rules
rules_of_weekdays range [] rules = rules
rules_of_weekdays range (w ∷ weekdays) rules =
    rules_of_weekdays range weekdays (rule_set w range rules)

abbrev pub default_range : ScheduleForFraction → TimeRange
default_range schedule = record {
  check_in_time = get_or schedule.check_in_time (some (8, 30));
  check_out_time = get_or schedule.check_out_time (some (17, 30));
}

unfoldable pub day_rules : ScheduleForFraction → Rules
day_rules schedule = elim schedule.days [
  | [] ↦ rules_of_weekdays (default_range schedule) schedule.working_days []
  | d ∷ days ↦ rules_of_days (d ∷ days) []
]

unfoldable pub longest : Rules → ℕ
longest [] = 0
longest ((w, range) ∷ rules) = max (scheduled_minutes range) (longest rules)

unfoldable pub full_day_minutes : ScheduleForFraction → ℕ
full_day_minutes schedule =
    let most = longest (day_rules schedule) in if ltb 0 most then most else 8 * 60

-- `Math.round((mins / full) * 100) / 100`, in hundredths
abbrev pub fraction_of : (mins longest_day : ℕ) → ℕ
fraction_of mins longest_day = (200 * mins + longest_day) / (2 * longest_day)

abbrev pub fraction_of_rule : ℕ → Option TimeRange → ℕ
fraction_of_rule longest_day none = 0
fraction_of_rule longest_day (some range) =
    let mins = scheduled_minutes range in if leb mins 0 then 0 else fraction_of mins longest_day

unfoldable pub leave_fraction_for_weekday : ScheduleForFraction → ℕ → ℕ
leave_fraction_for_weekday schedule weekday =
    fraction_of_rule (full_day_minutes schedule) (rule_get weekday (day_rules schedule))

-- The ISO weekday, from 1 for Monday; the day 0 of the count is a Saturday.
unfoldable pub weekday_of : Date → ℕ
weekday_of d = (day_number d + 5) % 7 + 1

abbrev pub plan_day : Date → ℕ → List LeaveDayPlan → List LeaveDayPlan
plan_day cur fraction rest =
    if ltb 0 fraction
    then record { date = cur; session = full; day_fraction = fraction } ∷ rest
    else rest

-- The loop over the days, by the number of days that are left.
unfoldable pub plan_days : ScheduleForFraction → ℕ → Date → List LeaveDayPlan
plan_days schedule zero cur = []
plan_days schedule (suc left) cur =
    plan_day cur (leave_fraction_for_weekday schedule (weekday_of cur))
      (plan_days schedule left (next_day cur))

unfoldable pub working_leave_days : Date → Date → ScheduleForFraction → List LeaveDayPlan
working_leave_days start stop schedule =
    if ltb (day_number stop) (day_number start)
    then []
    else plan_days schedule (day_number stop - day_number start + 1) start

-- A chosen session for a date; the last one for a date counts.
unfoldable pub session_for : Date → List (Date × LeaveDaySession) → Option LeaveDaySession
session_for day [] = none
session_for day ((d, session) ∷ sessions) = elim (session_for day sessions) [
  | some later ↦ some later
  | none ↦ if date_eq d day then some session else none
]

-- `Math.round(fraction * 0.5 * 100)`, in hundredths of a day of at most 1. The half of an odd number of
-- hundredths is rounded up, but the floating product is under the half for 0.29 and for 0.57.
abbrev pub half_fraction : ℕ → ℕ
half_fraction fraction =
    if fraction == 29 || fraction == 57 then fraction / 2 else (fraction + 1) / 2

-- `Math.round(fraction * sessionMultiplier(session) * 100) / 100`, in hundredths
unfoldable pub session_fraction : LeaveDaySession → ℕ → ℕ
session_fraction full fraction = fraction
session_fraction morning fraction = half_fraction fraction
session_fraction afternoon fraction = half_fraction fraction

unfoldable pub apply_leave_sessions :
    List (Date × LeaveDaySession) → List LeaveDayPlan → List LeaveDayPlan
apply_leave_sessions sessions [] = []
apply_leave_sessions sessions (day ∷ days) =
    let session = get_or (session_for day.date sessions) full in
    record day { session = session; day_fraction = session_fraction session day.day_fraction }
    ∷ apply_leave_sessions sessions days

unfoldable pub sum_leave_day_fractions : List LeaveDayPlan → ℕ
sum_leave_day_fractions days = sum_by (λ (d : LeaveDayPlan). d.day_fraction) days

unfoldable pub leave_days_between : Date → Date → ScheduleForFraction → ℕ
leave_days_between start stop schedule =
    sum_leave_day_fractions (working_leave_days start stop schedule)

unfoldable pub leave_sessions_conflict : LeaveDaySession → LeaveDaySession → Bool
leave_sessions_conflict full b = true
leave_sessions_conflict a full = true
leave_sessions_conflict morning morning = true
leave_sessions_conflict afternoon afternoon = true
leave_sessions_conflict _ _ = false
