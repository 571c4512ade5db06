-- ===== src/Attendance/Presence.antt =====
-- Who may use attendance and from where: `employeeContext`, `attendanceClock`, `resolvePresence` and
-- `locationCreate` of src/modules/attendance/attendance.service.ts.
use workforce_app_backend.Common.{
  ℕ, ◌+◌, ◌*◌, Bool, true, false, not, ◌&&◌, ◌||◌, Option, none, some, List, ◌==◌, ltb, leb,
  if◌then◌else◌, any, find, includes,
}
use workforce_app_backend.Common.Int.{ℤ}
use workforce_app_backend.Common.Result.{
  Result, ok, err, app_error, throw_if, or_throw, ◌>>=◌, ◌>>◌,
}
use workforce_app_backend.Attendance.{
  ApprovedLeave, AttendanceLocation, LocationType, gps, desktop, GpsFix, Geo, Platform,
}
use workforce_app_backend.Attendance.Metrics.{minutes_between}
use workforce_app_backend.Attendance.Close.{trimmed}

pub record Office : Type 0 where
  pub id : ℕ
  pub is_active : Bool
  pub timezone : ℕ
  pub latitude : ℤ
  pub longitude : ℤ
  pub allowed_radius_meters : ℕ
  pub maximum_accuracy_meters : ℕ

pub record DayRule : Type 0 where
  pub check_in_time : ℕ
  pub check_out_time : ℕ

pub record ScheduleDay : Type 0 where
  pub weekday : ℕ
  pub rule : DayRule

pub record Schedule : Type 0 where
  pub id : ℕ
  pub is_active : Bool
  pub timezone : ℕ
  pub rule : DayRule
  pub working_days : List ℕ
  pub late_grace_minutes : ℕ
  pub days : List ScheduleDay

-- `is_active` says that the employee and the user are both active.
pub record Employee : Type 0 where
  pub id : ℕ
  pub user_id : ℕ
  pub organization_id : ℕ
  pub is_active : Bool
  pub office : Option Office
  pub schedule : Option Schedule

pub record Context : Type 0 where
  pub employee : Employee
  pub office : Office
  pub schedule : Schedule

unfoldable pub active_employee : List Employee → ℕ → Result Employee
active_employee employees user_id = do
  e ←
      or_throw (find (λ (e : Employee). e.user_id == user_id) employees)
        (app_error 403 "EMPLOYEE_INACTIVE")
  throw_if (not e.is_active) (app_error 403 "EMPLOYEE_INACTIVE")
  ok e

unfoldable pub employee_context : List Employee → ℕ → Result Context
employee_context employees user_id = do
  e ← active_employee employees user_id
  o ← or_throw e.office (app_error 400 "OFFICE_NOT_ASSIGNED")
  throw_if (not o.is_active) (app_error 400 "OFFICE_NOT_ASSIGNED")
  s ← or_throw e.schedule (app_error 400 "SCHEDULE_NOT_ASSIGNED")
  throw_if (not s.is_active) (app_error 400 "SCHEDULE_NOT_ASSIGNED")
  ok (record { employee = e; office = o; schedule = s })

unfoldable pub day_rule_for_weekday : Schedule → ℕ → Option DayRule
day_rule_for_weekday schedule weekday =
    elim (find (λ (d : ScheduleDay). d.weekday == weekday) schedule.days) [
      | some d ↦ some d.rule
      | none ↦ if includes schedule.working_days weekday then some schedule.rule else none
    ]

pub record Clock : Type 0 where
  pub zone : ℕ
  pub work_date : ℕ
  pub scheduled_in : ℕ
  pub scheduled_out : ℕ
  pub late_minutes : ℕ
  pub is_late : Bool
  pub rule : DayRule

-- A shift that ends before it starts ends on the next day.
unfoldable pub clock_at :
    Platform → Schedule → (now zone work_date scheduled_in scheduled_out : ℕ) → DayRule → Clock
clock_at platform schedule now zone work_date scheduled_in scheduled_out rule =
    let late = minutes_between (scheduled_in + 60000 * schedule.late_grace_minutes) now in
    record {
      zone = zone;
      work_date = work_date;
      scheduled_in = scheduled_in;
      scheduled_out =
          if leb scheduled_out scheduled_in
          then platform.plus_day scheduled_out zone
          else scheduled_out;
      late_minutes = late;
      is_late = ltb 0 late;
      rule = rule;
    }

unfoldable pub attendance_clock : Platform → Context → ℕ → Result Clock
attendance_clock platform ctx now =
    let zone = (if ctx.office.timezone == 0 then ctx.schedule.timezone else ctx.office.timezone) in
    let local = platform.local_time now zone in
    or_throw (day_rule_for_weekday ctx.schedule local.weekday) (app_error 409 "NOT_A_WORKING_DAY")
    >>= λ rule.
        (or_throw (platform.scheduled_instant local.work_date rule.check_in_time zone)
            (app_error 500 "INVALID_SCHEDULE_TIME")
          >>= λ scheduled_in.
              (or_throw (platform.scheduled_instant local.work_date rule.check_out_time zone)
                  (app_error 500 "INVALID_SCHEDULE_TIME")
                >>= λ scheduled_out. ok (
                    clock_at platform ctx.schedule now zone local.work_date scheduled_in
                      scheduled_out rule)))

unfoldable pub assert_not_on_approved_leave :
    List ApprovedLeave → (employee_id work_date : ℕ) → Result (Unit {0})
assert_not_on_approved_leave leave employee_id work_date =
    throw_if
      (any
        (λ l.
          (l.employee_id == employee_id) && leb l.start_date work_date && leb work_date l.end_date)
        leave)
      (app_error 409 "ON_APPROVED_LEAVE")

unfoldable pub assert_not_on_public_holiday :
    Platform → (employee_id work_date : ℕ) → Result (Unit {0})
assert_not_on_public_holiday platform employee_id work_date =
    throw_if (platform.is_holiday employee_id work_date) (app_error 409 "ON_PUBLIC_HOLIDAY")

pub data ClientChannel : Type 0 where
  on_mobile on_desktop : ClientChannel

pub record ActionInput : Type 0 where
  pub client_channel : ClientChannel
  pub latitude : Option ℤ
  pub longitude : Option ℤ
  pub accuracy_meters : Option ℕ
  pub captured_at : Option ℕ

pub data Presence : Type 0 where
  from_gps : GpsFix → Geo → Presence
  from_desktop : Presence

unfoldable pub inside_radius : Presence → Bool
inside_radius (from_gps fix geo) = geo.inside_radius
inside_radius from_desktop = true

-- At most five minutes old, at most two minutes ahead.
unfoldable pub validate_captured_at : (captured_at server_time : ℕ) → Result (Unit {0})
validate_captured_at captured_at server_time =
    throw_if (ltb (captured_at + 300000) server_time || ltb (server_time + 120000) captured_at)
      (app_error 422 "STALE_LOCATION")

-- No fix where one of the values is missing.
abbrev pub fix_of : Option ℤ → Option ℤ → Option ℕ → Option ℕ → Option GpsFix
fix_of (some latitude) (some longitude) (some accuracy) (some captured) = some (record {
  latitude = latitude;
  longitude = longitude;
  accuracy_meters = accuracy;
  captured_at = captured;
})
fix_of _ _ _ _ = none

unfoldable pub gps_fix_from : ActionInput → Option GpsFix
gps_fix_from input = fix_of input.latitude input.longitude input.accuracy_meters input.captured_at

abbrev pub is_mobile : ClientChannel → Bool
is_mobile on_mobile = true
is_mobile on_desktop = false

unfoldable pub location_is_required : ClientChannel → Bool → Bool
location_is_required channel skip_enabled = is_mobile channel || not skip_enabled

unfoldable pub geofence :
    Platform → GpsFix → (latitude longitude : ℤ) → (radius accuracy : ℕ) → Result Geo
geofence platform fix latitude longitude radius accuracy =
    throw_if (ltb accuracy fix.accuracy_meters) (app_error 422 "LOCATION_ACCURACY_TOO_LOW")
    >> or_throw (platform.measure fix latitude longitude radius) (app_error 500 "GEOFENCE_FAILED")

unfoldable pub resolve_presence :
    Platform
    → ActionInput
    → (latitude longitude : ℤ) → (radius accuracy organization_id now : ℕ) → Result Presence
resolve_presence platform input latitude longitude radius accuracy organization_id now =
    if location_is_required input.client_channel (platform.is_desktop_skip_enabled organization_id)
    then (or_throw (gps_fix_from input) (app_error 422 "LOCATION_REQUIRED") >>= λ fix.
        (validate_captured_at fix.captured_at now
          >> (geofence platform fix latitude longitude radius accuracy >>= λ geo.
              ok (from_gps fix geo))))
    else ok from_desktop

unfoldable pub location_create :
    ℕ → Presence → LocationType → (radius now : ℕ) → Option ℕ → AttendanceLocation
location_create timesheet from_desktop type radius now photo_url = record {
  timesheet_id = timesheet;
  type = type;
  source = desktop;
  latitude = none;
  longitude = none;
  accuracy_meters = none;
  distance_from_office_meters = none;
  allowed_radius_meters = radius;
  is_inside_radius = true;
  captured_at = none;
  server_received_at = now;
  photo_url = photo_url;
}
location_create timesheet (from_gps fix geo) type radius now photo_url = record {
  timesheet_id = timesheet;
  type = type;
  source = gps;
  latitude = some fix.latitude;
  longitude = some fix.longitude;
  accuracy_meters = some fix.accuracy_meters;
  distance_from_office_meters = some geo.distance_meters;
  allowed_radius_meters = radius;
  is_inside_radius = true;
  captured_at = some fix.captured_at;
  server_received_at = now;
  photo_url = photo_url;
}

-- `validatePhotoUrl` of src/modules/attendance/attendance-photo.service.ts; where photos are hosted
-- is asked of src/lib/cloudinary.ts.
unfoldable pub validate_photo_url : Platform → (organization_id : ℕ) → Option ℕ → Result (Unit {0})
validate_photo_url platform organization_id photo_url =
    if not (platform.is_photo_required organization_id)
    then ok tt
    else if trimmed platform photo_url == 0
    then err (app_error 422 "PHOTO_REQUIRED")
    else throw_if (not (platform.is_hosted_photo (trimmed platform photo_url)))
        (app_error 422 "INVALID_PHOTO_URL")
