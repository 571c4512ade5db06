-- ===== src/Attendance/Metrics.antt =====
-- src/modules/attendance/auto-checkout.logic.ts and flexible-day.logic.ts: the figures of a checkout,
-- the instant that the system records, and which closed days may be opened again.
use workforce_app_backend.Common.{
  ℕ, ◌+◌, ◌-◌, ◌/◌, ◌≤◌, ◌<◌, ◌≡◌, ◌⊎◌, refl, inl, inr, Bool, true, false, ◌&&◌, Option, some,
  arith, ltb, leb, if◌then◌else◌, Bool-cases,
}
use workforce_app_backend.Attendance.{
  CheckOutSource, by_employee, by_system, by_admin, Timesheet, Platform,
}

-- `Math.max(0, Math.floor((later - earlier) / 60000))`
abbrev pub minutes_between : (earlier later : ℕ) → ℕ
minutes_between earlier later = (later - earlier) / 60000

pub record Metrics : Type 0 where
  pub worked_minutes : ℕ
  pub early_checkout_minutes : ℕ
  pub overtime_minutes : ℕ
  pub is_early_checkout : Bool
  pub is_missing_checkout : Bool

-- `checkout_date` is the local date of the checkout in the timezone of the timesheet.
unfoldable pub checkout_metrics : (check_in scheduled_out work_date checkout_date now : ℕ) → Metrics
checkout_metrics check_in scheduled_out work_date checkout_date now =
    if ltb work_date checkout_date
    then record {
      worked_minutes = minutes_between check_in scheduled_out;
      early_checkout_minutes = 0;
      overtime_minutes = 0;
      is_early_checkout = false;
      is_missing_checkout = true;
    }
    else if ltb scheduled_out now
    then record {
      worked_minutes = minutes_between check_in now;
      early_checkout_minutes = 0;
      overtime_minutes = minutes_between scheduled_out now;
      is_early_checkout = false;
      is_missing_checkout = false;
    }
    else record {
      worked_minutes = minutes_between check_in now;
      early_checkout_minutes = minutes_between now scheduled_out;
      overtime_minutes = 0;
      is_early_checkout = ltb 0 (minutes_between now scheduled_out);
      is_missing_checkout = false;
    }

unfoldable pub compute_checkout_metrics : Platform → Timesheet → ℕ → Metrics
compute_checkout_metrics platform t now =
    checkout_metrics t.actual_check_in t.scheduled_check_out t.work_date
      (platform.local_time now t.timezone).work_date now

unfoldable pub resolve_system_checkout_at : (scheduled_check_out auto_checkout_at : ℕ) → ℕ
resolve_system_checkout_at scheduled_check_out auto_checkout_at =
    if ltb 0 scheduled_check_out && leb scheduled_check_out auto_checkout_at
    then scheduled_check_out
    else auto_checkout_at

unfoldable pub is_eligible_for_auto_checkout : (actual_check_in auto_checkout_at now : ℕ) → Bool
is_eligible_for_auto_checkout actual_check_in auto_checkout_at now =
    leb auto_checkout_at now && ltb actual_check_in auto_checkout_at

unfoldable pub can_re_check_in : Bool → Option CheckOutSource → Bool
can_re_check_in false (some by_employee) = true
can_re_check_in _ _ = false

unfoldable pub is_day_permanently_closed : Bool → Option CheckOutSource → Bool
is_day_permanently_closed false (some by_system) = true
is_day_permanently_closed false (some by_admin) = true
is_day_permanently_closed _ _ = false

minutes_between-add :
    (a b c : ℕ)
    → a ≤ b
    → b ≤ c
    → (minutes_between a b + minutes_between b c ≤ minutes_between a c)
      × (minutes_between a c ≤ minutes_between a b + minutes_between b c + 1)
minutes_between-add a b c h k = omega arith

-- For a check-in that is after neither the scheduled end nor the checkout: a checkout on a later day
-- counts the scheduled time and is marked as missing. On the work date it is
-- not, overtime and early leave never come together, and the worked time is the scheduled time with
-- the overtime added or the early leave taken off, up to the rounding to whole minutes.
pub checkout_metrics_lem :
    (check_in scheduled_out work_date checkout_date now : ℕ)
    → check_in ≤ scheduled_out
    → check_in ≤ now
    → let m = checkout_metrics check_in scheduled_out work_date checkout_date now in
      let planned = (scheduled_out - check_in) / 60000 in
      ((work_date < checkout_date) × (m.is_missing_checkout ≡ true) × (m.worked_minutes ≡ planned))
      ⊎ ((checkout_date ≤ work_date)
          × (m.is_missing_checkout ≡ false)
          × ((m.overtime_minutes ≡ 0) ⊎ (m.early_checkout_minutes ≡ 0))
          × (planned + m.overtime_minutes ≤ m.worked_minutes + m.early_checkout_minutes + 1)
          × (m.worked_minutes + m.early_checkout_minutes ≤ planned + m.overtime_minutes + 1))
unfolding checkout_metrics
checkout_metrics_lem check_in scheduled_out work_date checkout_date now h k =
    elim (Bool-cases (ltb work_date checkout_date)) [
      | inl later ↦ inl (ground (arith, later), rw later refl, rw later refl)
      | inr same ↦ inr (elim (Bool-cases (ltb scheduled_out now)) [
        | inl after ↦
            let parts = minutes_between-add check_in scheduled_out now h (ground (arith, after)) in
            rw (same, after) (ground (arith, same), refl, inr refl, omega arith, omega arith)
        | inr before ↦
            let parts = minutes_between-add check_in now scheduled_out k (ground (arith, before)) in
            rw (same, before) (ground (arith, same), refl, inl refl, omega arith, omega arith)
      ])
    ]
