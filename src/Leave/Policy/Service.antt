-- ===== src/Leave/Policy/Service.antt =====
-- Years of service and leave years (src/modules/leave/annual-leave.policy.ts).
use workforce_app_backend.Common.{
  ℕ, zero, suc, true, false, refl, ◌+◌, ◌-◌, ◌≤◌, ◌<◌, min, ◌≡◌, arith, inl, inr, Bool-cases,
  if◌then◌else◌,
}
use native.Mathlib.Decide.{dec_le, ℕ_discrete}
use workforce_app_backend.Calendar.{before, Date, IsDate, month_length, day_number, next_day}
use workforce_app_backend.Calendar.Numbers.{day_number-lt_of_year}
use workforce_app_backend.Calendar.Steps.{month_length_bounds, next_day-previous_day}
use workforce_app_backend.Leave.Policy.{
  add_calendar_years, completed_years_of_service, leave_year_period,
}

pub add_calendar_years-IsDate : (d : Date) (n : ℕ) → IsDate d → IsDate (add_calendar_years d n)
unfolding add_calendar_years
add_calendar_years-IsDate d n v = ground (arith, month_length_bounds (d.year + n) d.month)

pub add_calendar_years-year : (d : Date) (n : ℕ) → (add_calendar_years d n).year ≡ d.year + n
unfolding add_calendar_years
add_calendar_years-year d n = omega arith

pub add_calendar_years_mono :
    (d : Date) (m n : ℕ)
    → IsDate d
    → m < n
    → day_number (add_calendar_years d m) < day_number (add_calendar_years d n)
add_calendar_years_mono d m n v h =
    day_number-lt_of_year (add_calendar_years d m) (add_calendar_years d n)
      (add_calendar_years-IsDate d m v) (add_calendar_years-IsDate d n v)
      (omega (arith, add_calendar_years-year d m, add_calendar_years-year d n))

add_calendar_years-0 : (d : Date) → IsDate d → day_number (add_calendar_years d 0) ≡ day_number d
unfolding add_calendar_years
add_calendar_years-0 d v =
    let e : d.year + 0 ≡ d.year = omega arith in
    let m : min d.day (month_length d.year d.month) ≡ d.day = omega (arith, v.day_ok) in rw (e, m)

year-le :
    (hire as_of : Date)
    → IsDate hire
    → IsDate as_of
    → day_number hire ≤ day_number as_of
    → hire.year ≤ as_of.year
year-le hire as_of vh va h = elim (dec_le hire.year as_of.year) [
  | yes p ↦ p
  | no p ↦ absurd (omega (arith, day_number-lt_of_year as_of hire va vh (omega arith)))
]

module _ (hire as_of : Date) (vh : IsDate hire) (va : IsDate as_of)
    (h : day_number hire ≤ day_number as_of) where
  -- The anniversary of the year before the day's lies before the day.
  anniversary_before :
      (n : ℕ)
      → hire.year + n < as_of.year
      → day_number (add_calendar_years hire n) < day_number as_of
  anniversary_before n lt =
      day_number-lt_of_year (add_calendar_years hire n) as_of (add_calendar_years-IsDate hire n vh)
        va (omega (arith, add_calendar_years-year hire n))

  anniversary_after :
      (n : ℕ)
      → as_of.year < hire.year + n
      → day_number as_of < day_number (add_calendar_years hire n)
  anniversary_after n lt =
      day_number-lt_of_year as_of (add_calendar_years hire n) va
        (add_calendar_years-IsDate hire n vh) (omega (arith, add_calendar_years-year hire n))

  positive : (n : ℕ) → before as_of (add_calendar_years hire n) ≡ true → 1 ≤ n
  positive zero e = absurd (ground (arith, add_calendar_years-0 hire vh))
  positive (suc n) e = omega arith

  years_passed :
      (n k : ℕ)
      → n ≡ as_of.year - hire.year
      → k ≡ (if before as_of (add_calendar_years hire n) then n - 1 else n)
      → (day_number (add_calendar_years hire k) ≤ day_number as_of)
        × (day_number as_of < day_number (add_calendar_years hire (k + 1)))
  years_passed n k e f =
      let le = year-le hire as_of vh va h in
      elim (Bool-cases (before as_of (add_calendar_years hire n))) [
        | inl early ↦
            let k_eq : k ≡ n - 1 = ground (arith, early) in
            let pos : 1 ≤ n = positive n early in
            let same : n - 1 + 1 ≡ n = omega arith in
            rw (k_eq, same)
              (omega (arith, anniversary_before (n - 1) (omega arith)), ground (arith, early))
        | inr late ↦
            let k_eq : k ≡ n = ground (arith, late) in
            rw k_eq (ground (arith, late), anniversary_after (n + 1) (omega arith))
      ]

-- For dates of the calendar, from the hire date on, the completed years are exactly the
-- anniversaries that have passed: the last one is not after the day, and the next one is after it.
pub completed_years_of_service_bounds :
    (hire as_of : Date)
    → IsDate hire
    → IsDate as_of
    → day_number hire ≤ day_number as_of
    → (day_number (add_calendar_years hire (completed_years_of_service hire as_of))
        ≤ day_number as_of)
      × (day_number as_of
          < day_number (add_calendar_years hire (completed_years_of_service hire as_of + 1)))
unfolding completed_years_of_service
completed_years_of_service_bounds hire as_of vh va h =
    let not_yet : before as_of hire ≡ false = ground arith in
    years_passed hire as_of vh va h (as_of.year - hire.year) (completed_years_of_service hire as_of)
      refl (rw (not_yet, completed_years_of_service))

add_calendar_years_mono_le :
    (d : Date) (m n : ℕ)
    → IsDate d
    → m ≤ n
    → day_number (add_calendar_years d m) ≤ day_number (add_calendar_years d n)
add_calendar_years_mono_le d m n v h = elim (ℕ_discrete m n) [
  | yes e ↦ rw e (omega arith)
  | no ne ↦ omega (arith, add_calendar_years_mono d m n v (omega arith))
]

completed_years_of_service_early :
    (hire a : Date) → day_number a < day_number hire → completed_years_of_service hire a ≡ 0
unfolding completed_years_of_service
completed_years_of_service_early hire a h = ground arith

-- For dates of the calendar, years of service never fall as the day moves on.
pub completed_years_of_service_mono :
    (hire a b : Date)
    → IsDate hire
    → IsDate a
    → IsDate b
    → day_number a ≤ day_number b
    → completed_years_of_service hire a ≤ completed_years_of_service hire b
completed_years_of_service_mono hire a b vh va vb h =
    elim (dec_le (day_number hire) (day_number a)) [
      | no early ↦ rw (completed_years_of_service_early hire a (omega arith)) (omega arith)
      | yes late ↦
          let fewer = completed_years_of_service_bounds hire a vh va late in
          let more = completed_years_of_service_bounds hire b vh vb (omega arith) in
          elim (dec_le (completed_years_of_service hire a) (completed_years_of_service hire b)) [
            | yes p ↦ p
            | no p ↦ absurd (
                omega (
                  arith,
                  add_calendar_years_mono_le hire (completed_years_of_service hire b + 1)
                      (completed_years_of_service hire a) vh (omega arith),
                ))
          ]
    ]

-- For a hire date of the calendar after the year 0, the leave years follow one another without a
-- gap: the day after the last day of one is the first day of the next.
pub leave_year_period_consecutive :
    (hire : Date) (n : ℕ)
    → IsDate hire
    → 0 < hire.year
    → next_day (leave_year_period hire n).stop ≡ (leave_year_period hire (n + 1)).start
unfolding leave_year_period
leave_year_period_consecutive hire n v h =
    next_day-previous_day (add_calendar_years hire (n + 1))
      (add_calendar_years-IsDate hire (n + 1) v)
      (omega (arith, add_calendar_years-year hire (n + 1)))
