-- ===== src/Leave/Policy/Entitlement.antt =====
-- The entitlement of a leave year from one day to another (src/modules/leave/annual-leave.policy.ts).
use workforce_app_backend.Common.{ℕ, ◌*◌, ◌≤◌, arith}
use workforce_app_backend.Calendar.{Date, IsDate, day_number}
use workforce_app_backend.Leave.Policy.{
  service_months, pro_rata_leave, annual_entitlement, base_annual_days,
}
use workforce_app_backend.Leave.Policy.Service.{completed_years_of_service_mono}

pub pro_rata_leave-le : (hire as_of : Date) → pro_rata_leave hire as_of ≤ 100 * base_annual_days
unfolding pro_rata_leave
pro_rata_leave-le hire as_of = omega arith

service_months_mono :
    (hire a b : Date) → day_number a ≤ day_number b → service_months hire a ≤ service_months hire b
unfolding service_months
service_months_mono hire a b h = ground arith

pro_rata_leave_mono :
    (hire a b : Date) → day_number a ≤ day_number b → pro_rata_leave hire a ≤ pro_rata_leave hire b
unfolding pro_rata_leave
pro_rata_leave_mono hire a b h = omega (arith, service_months_mono hire a b)

-- For dates of the calendar, from one day to a later one the entitlement of a leave year never
-- shrinks, so that accrual only ever adds to a grant. In the first leave year it is at most 16
-- days.
pub annual_entitlement_mono :
    (n : ℕ) (hire a b stop : Date)
    → IsDate hire
    → IsDate a
    → IsDate b
    → day_number a ≤ day_number b
    → (annual_entitlement n hire a stop ≤ annual_entitlement n hire b stop)
      × (annual_entitlement 0 hire a stop ≤ 100 * base_annual_days)
unfolding annual_entitlement
annual_entitlement_mono n hire a b stop vh va vb h =
    let years = completed_years_of_service_mono hire a b vh va vb h in
    let rata = pro_rata_leave_mono hire a b h in
    (
      ground (arith, years, rata, pro_rata_leave-le hire a),
      ground (arith, pro_rata_leave-le hire a),
    )
