-- ===== src/Attendance.antt =====
-- Attendance: the tables behind src/modules/attendance (prisma/schema.prisma: Timesheet,
-- AttendanceLocation, Worksheet, LateReason, Notification) and what the code asks of the platform.
-- Instants are milliseconds, work dates day numbers, coordinates ten-millionths of a degree; texts
-- and identifiers are numbers, since this code only compares them, and 0 is the empty text.
pub mod Metrics
pub mod Close
pub mod Presence
pub mod CheckIn
pub mod CheckOut
pub mod Corrections
mod Tests
use workforce_app_backend.Common.{ℕ, ◌+◌, Bool, true, false, Option, List, not, ◌==◌}
use workforce_app_backend.Common.Int.{ℤ}

pub data CheckOutSource : Type 0 where
  by_employee by_system by_admin : CheckOutSource

pub data AttendanceStatus : Type 0 where
  present_on_time present_late completed_on_time completed_late missing_checkout : AttendanceStatus

pub record Timesheet : Type 0 where
  pub id : ℕ
  pub employee_id : ℕ
  pub office_id : ℕ
  pub schedule_id : ℕ
  pub work_date : ℕ
  pub scheduled_check_in : ℕ
  pub scheduled_check_out : ℕ
  pub actual_check_in : ℕ
  pub actual_check_out : Option ℕ
  pub late_minutes : ℕ
  pub early_checkout_minutes : ℕ
  pub worked_minutes : ℕ
  pub overtime_minutes : ℕ
  pub status : AttendanceStatus
  pub is_open : Bool
  pub is_late : Bool
  pub is_early_checkout : Bool
  pub is_missing_checkout : Bool
  pub check_out_source : Option CheckOutSource
  pub check_in_idempotency_key : ℕ
  pub check_out_idempotency_key : Option ℕ
  pub schedule_check_in_time : ℕ
  pub schedule_check_out_time : ℕ
  pub schedule_late_grace_minutes : ℕ
  pub office_latitude : ℤ
  pub office_longitude : ℤ
  pub office_allowed_radius_meters : ℕ
  pub office_maximum_accuracy_meters : ℕ
  pub timezone : ℕ

pub data LocationType : Type 0 where
  checking_in checking_out : LocationType

pub data LocationSource : Type 0 where
  gps desktop : LocationSource

pub record AttendanceLocation : Type 0 where
  pub timesheet_id : ℕ
  pub type : LocationType
  pub source : LocationSource
  pub latitude : Option ℤ
  pub longitude : Option ℤ
  pub accuracy_meters : Option ℕ
  pub distance_from_office_meters : Option ℕ
  pub allowed_radius_meters : ℕ
  pub is_inside_radius : Bool
  pub captured_at : Option ℕ
  pub server_received_at : ℕ
  pub photo_url : Option ℕ

pub record Worksheet : Type 0 where
  pub id : ℕ
  pub timesheet_id : ℕ
  pub employee_id : ℕ
  pub work_date : ℕ
  pub work_description : ℕ
  pub submitted_at : ℕ

pub record LateReason : Type 0 where
  pub timesheet_id : ℕ
  pub employee_id : ℕ
  pub reason_type : ℕ
  pub reason_description : Option ℕ
  pub submitted_at : ℕ

pub data NotificationType : Type 0 where
  check_in_success check_in_late check_out_success check_out_auto : NotificationType

pub record Notification : Type 0 where
  pub user_id : ℕ
  pub type : NotificationType
  pub related_entity_id : ℕ

-- An approved leave request.
pub record ApprovedLeave : Type 0 where
  pub employee_id : ℕ
  pub start_date : ℕ
  pub end_date : ℕ

-- `next_id` is the next identifier that the database generates.
pub record Store : Type 0 where
  pub timesheets : List Timesheet
  pub locations : List AttendanceLocation
  pub worksheets : List Worksheet
  pub late_reasons : List LateReason
  pub notifications : List Notification
  pub approved_leave : List ApprovedLeave
  pub next_id : ℕ

abbrev pub timesheet_id : Timesheet → ℕ
timesheet_id t = t.id

pub record GpsFix : Type 0 where
  pub latitude : ℤ
  pub longitude : ℤ
  pub accuracy_meters : ℕ
  pub captured_at : ℕ

pub record Geo : Type 0 where
  pub distance_meters : ℕ
  pub inside_radius : Bool

pub record LocalTime : Type 0 where
  pub work_date : ℕ
  pub weekday : ℕ

-- What is not this repository's code: luxon's local dates and instants, the geographic query of the
-- database, the holiday lookup, the settings of an organisation, where photos are hosted, and the
-- string methods.
pub record Platform : Type 0 where
  pub local_time : (instant zone : ℕ) → LocalTime
  pub scheduled_instant : (work_date time zone : ℕ) → Option ℕ
  pub plus_day : (instant zone : ℕ) → ℕ
  pub measure : GpsFix → (latitude longitude : ℤ) → (radius : ℕ) → Option Geo
  pub is_holiday : (employee_id work_date : ℕ) → Bool
  pub is_photo_required : (organization_id : ℕ) → Bool
  pub is_hosted_photo : (url : ℕ) → Bool
  pub is_desktop_skip_enabled : (organization_id : ℕ) → Bool
  pub trim : ℕ → ℕ
  pub collapse_space : ℕ → ℕ
  pub to_lower_case : ℕ → ℕ
