-- ===== src/Leave/Requests/Apart/Planned.antt =====
-- The planned days of a request (`workingLeaveDays` of src/shared/schedule-day-fraction.ts), in order
-- and within its range.
use workforce_app_backend.Common.{
  ℕ, zero, suc, ◌+◌, ◌-◌, ◌≤◌, ◌<◌, ◌≡◌, true, List, [], ◌∷◌, All, All-weaken, All-both, arith, inl,
  inr, Bool-cases, ltb,
}
use workforce_app_backend.Calendar.{Date, day_number, next_day, IsDate}
use workforce_app_backend.Calendar.Steps.{day_number-next_day, next_day-IsDate}
use workforce_app_backend.Leave.DayFraction.{
  ScheduleForFraction, LeaveDaySession, LeaveDayPlan, plan_days, working_leave_days,
  apply_leave_sessions, leave_fraction_for_weekday, weekday_of,
}
use workforce_app_backend.Leave.Requests.{between, last_of}

abbrev IsFrom : ℕ → LeaveDayPlan → Type 0
IsFrom n d = n ≤ day_number d.date

abbrev IsUpTo : ℕ → LeaveDayPlan → Type 0
IsUpTo n d = day_number d.date ≤ n

abbrev pub IsAscending : List LeaveDayPlan → Type 0
IsAscending [] = Unit
IsAscending (d ∷ days) = All (IsFrom (day_number d.date)) days × IsAscending days

-- The days from one on, fewer than `left` days after it, in order.
abbrev IsRun : ℕ → ℕ → List LeaveDayPlan → Type 0
IsRun from left days =
    All (IsFrom from) days
    × All (λ (d : LeaveDayPlan). day_number d.date < from + left) days
    × IsAscending days

plan_days-IsRun :
    (schedule : ScheduleForFraction) (left : ℕ) (cur : Date)
    → IsDate cur
    → IsRun (day_number cur) left (plan_days schedule left cur)
unfolding plan_days
plan_days-IsRun schedule zero cur valid = (tt, tt, tt)
plan_days-IsRun schedule (suc left) cur valid =
    let next = day_number-next_day cur valid in
    let (from, upto, ascending) =
      plan_days-IsRun schedule left (next_day cur) (next_day-IsDate cur valid) in
    let rest = plan_days schedule left (next_day cur) in
    let from_here = All-weaken (λ (d : LeaveDayPlan) h. omega arith) rest from in
    let upto_here = All-weaken (λ (d : LeaveDayPlan) h. omega arith) rest upto in
    elim (Bool-cases (ltb 0 (leave_fraction_for_weekday schedule (weekday_of cur)))) [
      | inl e ↦ rw e ((omega arith, from_here), (omega arith, upto_here), (from_here, ascending))
      | inr e ↦ rw e (from_here, upto_here, ascending)
    ]

sessions-All :
    (P : Date → Type 0) (sessions : List (Date × LeaveDaySession)) (days : List LeaveDayPlan)
    → All (λ (d : LeaveDayPlan). P d.date) days
    → All (λ (d : LeaveDayPlan). P d.date) (apply_leave_sessions sessions days)
unfolding apply_leave_sessions
sessions-All P sessions [] h = tt
sessions-All P sessions (d ∷ days) h = (h.0, sessions-All P sessions days h.1)

sessions-IsAscending :
    (sessions : List (Date × LeaveDaySession)) (days : List LeaveDayPlan)
    → IsAscending days
    → IsAscending (apply_leave_sessions sessions days)
unfolding apply_leave_sessions
sessions-IsAscending sessions [] h = tt
sessions-IsAscending sessions (d ∷ days) h = (
  sessions-All (λ day. day_number d.date ≤ day_number day) sessions days h.0,
  sessions-IsAscending sessions days h.1,
)

last_of-IsUpTo :
    (first : LeaveDayPlan) (days : List LeaveDayPlan)
    → IsAscending (first ∷ days)
    → All (IsUpTo (day_number (last_of first days).date)) (first ∷ days)
last_of-IsUpTo first [] h = (omega arith, tt)
last_of-IsUpTo first (d ∷ days) h =
    let rest = last_of-IsUpTo d days h.1 in (omega (arith, h.0.0, rest.0), rest)

-- Ordered days lie between the first and the last of them.
pub first_to_last :
    (first : LeaveDayPlan) (days : List LeaveDayPlan)
    → IsAscending (first ∷ days)
    → All
        (λ (d : LeaveDayPlan). between first.date (last_of first days).date d.date ≡ true)
        (first ∷ days)
first_to_last first days h =
    All-weaken (λ (d : LeaveDayPlan) p. ground (arith, p.0, p.1)) (first ∷ days)
      (All-both _ _ (first ∷ days) (omega arith, h.0) (last_of-IsUpTo first days h))

module _ (start stop : Date) (schedule : ScheduleForFraction)
    (sessions : List (Date × LeaveDaySession)) (valid : IsDate start) where
  abbrev planned : List LeaveDayPlan
  planned = apply_leave_sessions sessions (working_leave_days start stop schedule)

  pub planned-IsAscending : IsAscending planned
  unfolding working_leave_days apply_leave_sessions
  planned-IsAscending = elim (Bool-cases (ltb (day_number stop) (day_number start))) [
    | inl e ↦ rw e tt
    | inr e ↦
        let run = plan_days-IsRun schedule (day_number stop - day_number start + 1) start valid in
        rw e (sessions-IsAscending sessions _ run.2)
  ]

  pub planned-between : All (λ (d : LeaveDayPlan). between start stop d.date ≡ true) planned
  unfolding working_leave_days apply_leave_sessions
  planned-between = elim (Bool-cases (ltb (day_number stop) (day_number start))) [
    | inl e ↦ rw e tt
    | inr e ↦
        let left = day_number stop - day_number start + 1 in
        let (from, upto, _) = plan_days-IsRun schedule left start valid in
        rw e (
          sessions-All (λ day. between start stop day ≡ true) sessions
            (plan_days schedule left start)
            (All-weaken (λ (d : LeaveDayPlan) p. ground (arith, p.0, p.1, e))
              (plan_days schedule left start)
              (All-both _ _ (plan_days schedule left start) from upto)))
  ]
