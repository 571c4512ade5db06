-- ===== src/Attendance/Corrections/Review/Submission.antt =====
-- `approveSubmission` and `rejectSubmission` of
-- src/modules/attendance-correctness/attendance-correctness.service.ts. They run in no transaction:
-- when they fail, the rows that were reviewed before stay reviewed.
use workforce_app_backend.Common.{
  ℕ, ◌+◌, ◌*◌, Bool, true, false, ◌&&◌, Option, none, some, List, [], ◌∷◌, ◌==◌, find, filter,
  if◌then◌else◌, is_empty,
}
use workforce_app_backend.Common.Result.{Result, ok, err, app_error}
use workforce_app_backend.Common.Table.{order_by}
use workforce_app_backend.Shared.OfficeScope.{OfficeScope}
use workforce_app_backend.Attendance.{Platform}
use workforce_app_backend.Attendance.Presence.{Employee}
use workforce_app_backend.Attendance.Corrections.{
  CorrectnessRequest, NoticeType, was_approved, was_rejected, Tables, is_pending, session_rank,
}
use workforce_app_backend.Attendance.Corrections.Review.{notify, approve, reject}

module _ (platform : Platform) (weekday : ℕ → ℕ) where
  abbrev pub is_of_submission : ℕ → CorrectnessRequest → Bool
  is_of_submission key r = elim r.submission_id [
    | some submission ↦ submission == key
    | none ↦ r.id == key
  ]

  unfoldable pub requests_for_submission : ℕ → ℕ → Tables → List CorrectnessRequest
  requests_for_submission organization_id key db =
      order_by (λ r. 3 * r.work_date + session_rank r.session)
        (filter (λ r. r.organization_id == organization_id && is_of_submission key r) db.requests)

  -- The loop over the pending rows of a submission, with the review of one row.
  unfoldable pub review_all :
      (ℕ → Tables → Result Tables) → List CorrectnessRequest → Tables → Tables × Result (Unit {0})
  review_all review [] db = (db, ok tt)
  review_all review (r ∷ rows) db = elim (review r.id db) [
    | err thrown ↦ (db, err thrown)
    | ok reviewed ↦ review_all review rows reviewed
  ]

  abbrev pub notify_owner :
      NoticeType → ℕ → ℕ → Tables × Result (Unit {0}) → Tables × Result (Unit {0})
  notify_owner type key employee_id (db, err thrown) = (db, err thrown)
  notify_owner type key employee_id (db, ok done) =
      elim (find (λ (e : Employee). e.id == employee_id) db.employees) [
        | none ↦ (db, ok done)
        | some e ↦ (notify platform weekday true type e.user_id key db, ok done)
      ]

  unfoldable pub review_submission :
      (ℕ → Tables → Result Tables)
      → NoticeType
      → (organization_id key : ℕ) → Tables
      → Tables × Result (Unit {0})
  unfolding requests_for_submission review_all
  review_submission review type organization_id key db =
      elim (requests_for_submission organization_id key db) [
        | [] ↦ (db, err (app_error 404 "REQUEST_NOT_FOUND"))
        | r ∷ rows ↦
            let waiting = filter (λ r. is_pending r.status) (r ∷ rows) in
            if is_empty waiting
            then (db, err (app_error 409 "REQUEST_NOT_PENDING"))
            else notify_owner type key r.employee_id (review_all review waiting db)
      ]

  unfoldable pub approve_submission :
      (now organization_id key actor : ℕ)
      → OfficeScope
      → (remark : Option ℕ) → Tables
      → Tables × Result (Unit {0})
  unfolding approve review_submission
  approve_submission now organization_id key actor scope remark db =
      review_submission
        (λ id db. approve platform weekday now organization_id id actor scope remark false db)
        was_approved organization_id key db

  unfoldable pub reject_submission :
      (now organization_id key actor : ℕ)
      → OfficeScope
      → (remark : Option ℕ) → Tables
      → Tables × Result (Unit {0})
  unfolding reject review_submission
  reject_submission now organization_id key actor scope remark db =
      review_submission
        (λ id db. reject platform weekday now organization_id id actor scope remark false db)
        was_rejected organization_id key db
