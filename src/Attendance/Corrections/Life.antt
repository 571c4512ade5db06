-- ===== src/Attendance/Corrections/Life.antt =====
-- The requests to correct attendance of
-- src/modules/attendance-correctness/attendance-correctness.service.ts, one after another.
pub mod Asked
pub mod Reviewed
pub mod Invariant
use workforce_app_backend.Common.{ℕ, ◌<◌, ◌≡◌, Bool, true, false, ◌&&◌, Option, List, All, ◌==◌}
use workforce_app_backend.Common.Pairwise.{Pairwise}
use workforce_app_backend.Common.Result.{Result, ok, err}
use workforce_app_backend.Common.Table.{HasDistinctKeys}
use workforce_app_backend.Shared.OfficeScope.{OfficeScope}
use workforce_app_backend.Leave.DayFraction.{leave_sessions_conflict}
use workforce_app_backend.Attendance.{Platform}
use workforce_app_backend.Attendance.Corrections.{
  CorrectnessRequest, Tables, DayInput, correctness_id, is_live,
}
use workforce_app_backend.Attendance.Corrections.Ask.{create_requests}
use workforce_app_backend.Attendance.Corrections.Review.{approve, reject}
use workforce_app_backend.Attendance.Corrections.Review.Submission.{
  approve_submission, reject_submission,
}

pub data Action : Type 0 where
  ask : (user : ℕ) → (dates : List ℕ) → (days : List DayInput) → (remark : Option ℕ) → Action
  accept decline :
      (organization_id id actor : ℕ)
      → OfficeScope
      → (remark : Option ℕ) → (should_notify : Bool) → Action
  accept_all decline_all :
      (organization_id key actor : ℕ) → OfficeScope → (remark : Option ℕ) → Action

abbrev pub or_keep : Tables → Result Tables → Tables
or_keep db (ok after) = after
or_keep db (err thrown) = db

-- The tables after an action, also where it fails.
unfoldable pub handle : Platform → (weekday : ℕ → ℕ) → (now : ℕ) → Action → Tables → Tables
unfolding create_requests approve reject approve_submission reject_submission
handle platform weekday now (ask user dates days remark) db =
    (create_requests platform weekday now user dates days remark db).0
handle platform weekday now (accept organization_id id actor scope remark should_notify) db =
    or_keep db (approve platform weekday now organization_id id actor scope remark should_notify db)
handle platform weekday now (decline organization_id id actor scope remark should_notify) db =
    or_keep db (reject platform weekday now organization_id id actor scope remark should_notify db)
handle platform weekday now (accept_all organization_id key actor scope remark) db =
    (approve_submission platform weekday now organization_id key actor scope remark db).0
handle platform weekday now (decline_all organization_id key actor scope remark) db =
    (reject_submission platform weekday now organization_id key actor scope remark db).0

-- The tables that actions lead to, at any times and under any answers of the platform.
pub data Reach (first : Tables) : Tables → Type 0 where
  start : Reach first first
  later :
      {db : Tables} (platform : Platform) (weekday : ℕ → ℕ) (now : ℕ) (action : Action)
      → Reach first db
      → Reach first (handle platform weekday now action db)

-- Two live requests of an employee for one day whose sessions conflict.
abbrev pub clash : CorrectnessRequest → CorrectnessRequest → Bool
clash a b =
    a.employee_id == b.employee_id
    && a.work_date == b.work_date
    && is_live a.status
    && is_live b.status
    && leave_sessions_conflict a.session b.session

abbrev pub IsApart : CorrectnessRequest → CorrectnessRequest → Type 0
IsApart a b = clash a b ≡ false

pub record HasLiveApart (db : Tables) : Type 0 where
  pub distinct : HasDistinctKeys correctness_id db.requests
  pub old_ids : All (λ (r : CorrectnessRequest). r.id < db.attendance.next_id) db.requests
  pub apart : Pairwise IsApart db.requests
