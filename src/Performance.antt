-- ===== src/Performance.antt =====
-- The automatic rating of reliability and attendance, and the bands of a total score
-- (src/modules/performance/attendance-rating.ts). The texts of the deductions are left out.
pub mod Evaluation
pub mod Supervisors
mod Tests
use workforce_app_backend.Common.{
  ℕ, zero, suc, ◌+◌, ◌-◌, ◌*◌, ◌/◌, ◌≤◌, ◌<◌, ◌≡◌, refl, min, max, arith, Bool, true, false, not,
  ◌&&◌, Option, none, some, List, [], ◌∷◌, ◌++◌, ltb, leb, if◌then◌else◌, sum_by, get_or, inl, inr,
  Bool-cases,
}
use workforce_app_backend.Common.Int.{ℤ, pos, pos_part}

-- Days are counted, and late minutes too; the days of approved leave, which may be halves, are in
-- hundredths, and differences of them are exact.
pub record AttendanceRatingInput : Type 0 where
  pub expected_days : ℤ
  pub attendance_days : ℤ
  pub late_days : ℤ
  pub late_minutes : ℤ
  pub missing_checkout_days : ℤ
  pub approved_leave_days : ℤ
  pub holiday_days : Option ℤ

pub data DeductionReason : Type 0 where
  unexcused_absence lateness missing_checkout : DeductionReason

pub record AttendanceDeduction : Type 0 where
  pub reason : DeductionReason
  pub amount : ℕ

-- `late_rate` in thousandths; the days of approved leave and of unexcused absence and the amounts of
-- the deductions in hundredths.
pub record AttendanceRatingResult : Type 0 where
  pub score : ℕ
  pub expected_days : ℕ
  pub attendance_days : ℕ
  pub late_days : ℕ
  pub late_minutes : ℕ
  pub missing_checkout_days : ℕ
  pub approved_leave_days : ℕ
  pub holiday_days : ℕ
  pub unexcused_absent_days : ℕ
  pub late_rate : ℕ
  pub deductions : List AttendanceDeduction

-- `clampScore(n)`, with n in hundredths; `Math.round` takes a half upwards. A negative n, as 0, is 1.
unfoldable pub clamp_score : ℕ → ℕ
clamp_score n = max 1 (min 5 ((n + 50) / 100))

abbrev pub deduction : DeductionReason → ℕ → List AttendanceDeduction
deduction reason amount = record { reason = reason; amount = amount } ∷ []

-- `lateRate >= percent / 100`, where there are days to be late on.
abbrev pub late_rate_at_least : (percent late_days attendance_days : ℕ) → Bool
late_rate_at_least percent late_days attendance_days =
    ltb 0 attendance_days && leb (percent * attendance_days) (100 * late_days)

unfoldable pub absence_deductions : ℕ → List AttendanceDeduction
absence_deductions unexcused =
    if ltb 0 unexcused then deduction unexcused_absence (min 300 unexcused) else []

unfoldable pub late_deductions : (late_days attendance_days : ℕ) → List AttendanceDeduction
late_deductions late_days attendance_days =
    if late_rate_at_least 30 late_days attendance_days
    then deduction lateness 300
    else if late_rate_at_least 15 late_days attendance_days
    then deduction lateness 200
    else if late_rate_at_least 5 late_days attendance_days
    then deduction lateness 100
    else []

unfoldable pub checkout_deductions : ℕ → List AttendanceDeduction
checkout_deductions missing = if leb 3 missing then deduction missing_checkout 100 else []

abbrev pub penalty : List AttendanceDeduction → ℕ
penalty deductions = sum_by (λ (d : AttendanceDeduction). d.amount) deductions

abbrev pub holidays : Option ℤ → ℕ
holidays none = 0
holidays (some days) = pos_part days

unfoldable pub rate_reliability_attendance : AttendanceRatingInput → AttendanceRatingResult
rate_reliability_attendance input =
    let expected = pos_part input.expected_days in
    let attended = pos_part input.attendance_days in
    let late = pos_part input.late_days in
    let missing = pos_part input.missing_checkout_days in
    let leave = pos_part input.approved_leave_days in
    let holiday = holidays input.holiday_days in
    let unexcused = 100 * expected - 100 * attended - leave - 100 * holiday in
    let deductions =
      absence_deductions unexcused
      ++ (late_deductions late attended ++ checkout_deductions missing) in
    record {
      score = clamp_score (500 - penalty deductions);
      expected_days = expected;
      attendance_days = attended;
      late_days = late;
      late_minutes = pos_part input.late_minutes;
      missing_checkout_days = missing;
      approved_leave_days = leave;
      holiday_days = holiday;
      unexcused_absent_days = unexcused;
      late_rate = if ltb 0 attended then (2000 * late + attended) / (2 * attended) else 0;
      deductions = deductions;
    }

pub data Band : Type 0 where
  outstanding exceeds_expectations meets_expectations needs_improvement unsatisfactory : Band

-- The total is given in hundredths, where there is a finite one.
unfoldable pub performance_band : Option ℕ → Option Band
performance_band none = none
performance_band (some total) =
    if leb 4500 total
    then some outstanding
    else if leb 3800 total
    then some exceeds_expectations
    else if leb 3000 total
    then some meets_expectations
    else if leb 2000 total
    then some needs_improvement
    else some unsatisfactory

-- More approved leave, by so many hundredths of a day, and everything else the same.
abbrev pub with_more_leave : ℕ → AttendanceRatingInput → AttendanceRatingInput
with_more_leave n input = record input {
  approved_leave_days = pos (pos_part input.approved_leave_days + n);
}

penalty-append : (xs ys : List AttendanceDeduction) → penalty (xs ++ ys) ≡ penalty xs + penalty ys
penalty-append [] ys = omega arith
penalty-append (x ∷ xs) ys = omega (arith, penalty-append xs ys)

absence_mono : (m n : ℕ) → m ≤ n → penalty (absence_deductions m) ≤ penalty (absence_deductions n)
unfolding absence_deductions
absence_mono m n h = ground arith

-- The score is from 1 to 5, and it is 5 less the sum of the deductions, rounded to the nearest whole
-- number, a half upwards, and 1 where that is less. Further approved leave, halves of days
-- included, never lowers it.
pub rate_reliability_attendance_bounds :
    (input : AttendanceRatingInput) (n : ℕ)
    → let r = rate_reliability_attendance input in
      (1 ≤ r.score)
      × (r.score ≤ 5)
      × (100 * r.score ≤ max 100 (550 - penalty r.deductions))
      × (550 - penalty r.deductions < 100 * r.score + 100)
      × (r.score ≤ (rate_reliability_attendance (with_more_leave n input)).score)
unfolding rate_reliability_attendance clamp_score
rate_reliability_attendance_bounds input n =
    let expected = pos_part input.expected_days in
    let attended = pos_part input.attendance_days in
    let leave = pos_part input.approved_leave_days in
    let holiday = holidays input.holiday_days in
    let rest =
      late_deductions (pos_part input.late_days) attended
      ++ checkout_deductions (pos_part input.missing_checkout_days) in
    let before = 100 * expected - 100 * attended - leave - 100 * holiday in
    let after = 100 * expected - 100 * attended - (leave + n) - 100 * holiday in
    let fewer = absence_mono after before (omega arith) in
    let p = penalty-append (absence_deductions before) rest in
    let q = penalty-append (absence_deductions after) rest in
    (ground arith, ground arith, ground arith, ground arith, ground (arith, p, q, fewer))
