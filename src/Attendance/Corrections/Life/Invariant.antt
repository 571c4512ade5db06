-- ===== src/Attendance/Corrections/Life/Invariant.antt =====
-- What all actions on src/modules/attendance-correctness/attendance-correctness.service.ts keep of the
-- requests.
use workforce_app_backend.Common.{
  ℕ, ◌≡◌, refl, true, false, List, [], ◌∷◌, ◌==◌, filter, inl, inr, Bool-cases, Option-cases,
  is_empty, find, List-cases,
}
use workforce_app_backend.Common.Result.{Result, ok, err, Result-cases}
use workforce_app_backend.Attendance.{Platform}
use workforce_app_backend.Attendance.Presence.{Employee}
use workforce_app_backend.Attendance.Corrections.{
  CorrectnessRequest, Tables, NoticeType, was_approved, was_rejected, is_pending,
}
use workforce_app_backend.Attendance.Corrections.Review.{approve, reject}
use workforce_app_backend.Attendance.Corrections.Review.Submission.{
  review_all, notify_owner, requests_for_submission, review_submission, approve_submission,
  reject_submission,
}
use workforce_app_backend.Attendance.Corrections.Life.{Action, handle, Reach, HasLiveApart, or_keep}
use workforce_app_backend.Attendance.Corrections.Life.Asked.{create_requests-HasLiveApart}
use workforce_app_backend.Attendance.Corrections.Life.Reviewed.{
  approve-HasLiveApart, reject-HasLiveApart, notify-HasLiveApart,
}

module _ (platform : Platform) (weekday : ℕ → ℕ) where
  or_keep-HasLiveApart :
      (db : Tables) (result : Result Tables)
      → HasLiveApart db
      → ((after : Tables) → result ≡ ok after → HasLiveApart after)
      → HasLiveApart (or_keep db result)
  or_keep-HasLiveApart db (ok after) sound returned = returned after refl
  or_keep-HasLiveApart db (err thrown) sound returned = sound

  module _ (review : ℕ → Tables → Result Tables)
      (kept : (id : ℕ) (db after : Tables)
        → HasLiveApart db
        → review id db ≡ ok after
        → HasLiveApart after) where
    review_all-HasLiveApart :
        (rows : List CorrectnessRequest) (db : Tables)
        → HasLiveApart db
        → HasLiveApart (review_all platform weekday review rows db).0
    unfolding review_all
    review_all-HasLiveApart [] db sound = sound
    review_all-HasLiveApart (r ∷ rows) db sound = elim (Result-cases (review r.id db)) [
      | inl (thrown, e) ↦ rw (e, review_all) sound
      | inr (after, e) ↦
          rw (e, review_all) (review_all-HasLiveApart rows after (kept r.id db after sound e))
    ]

    notify_owner-HasLiveApart :
        (type : NoticeType) (key employee_id : ℕ) (db : Tables) (result : Result (Unit {0}))
        → HasLiveApart db
        → HasLiveApart (notify_owner platform weekday type key employee_id (db, result)).0
    notify_owner-HasLiveApart type key employee_id db (err thrown) sound = sound
    notify_owner-HasLiveApart type key employee_id db (ok done) sound =
        elim (Option-cases (find (λ (e : Employee). e.id == employee_id) db.employees)) [
          | inl e ↦ rw (e, notify_owner) sound
          | inr (owner, e) ↦
              rw (e, notify_owner)
                (notify-HasLiveApart platform weekday true type owner.user_id key db sound)
        ]

    review_submission-HasLiveApart :
        (type : NoticeType) (organization_id key : ℕ) (db : Tables)
        → HasLiveApart db
        → HasLiveApart (review_submission platform weekday review type organization_id key db).0
    unfolding review_submission
    review_submission-HasLiveApart type organization_id key db sound =
        elim (List-cases (requests_for_submission platform weekday organization_id key db)) [
          | inl e ↦ rw (e, review_submission) sound
          | inr (r, rows, e) ↦
              let waiting = filter (λ (r : CorrectnessRequest). is_pending r.status) (r ∷ rows) in
              rw (e, review_submission)
                (elim (Bool-cases (is_empty waiting)) [
                  | inl over ↦ rw over sound
                  | inr some_left ↦ rw some_left (
                      notify_owner-HasLiveApart type key r.employee_id _ _
                        (review_all-HasLiveApart waiting db sound))
                ])
        ]

  handle-HasLiveApart :
      (now : ℕ) (action : Action) (db : Tables)
      → HasLiveApart db
      → HasLiveApart (handle platform weekday now action db)
  unfolding handle approve_submission reject_submission
  handle-HasLiveApart now (Action.ask user dates days remark) db sound =
      create_requests-HasLiveApart platform weekday now user dates days remark db sound
  handle-HasLiveApart now (Action.accept organization_id id actor scope remark on) db sound =
      or_keep-HasLiveApart db _ sound (λ after e.
        approve-HasLiveApart platform weekday now organization_id id actor scope remark on db sound
          e)
  handle-HasLiveApart now (Action.decline organization_id id actor scope remark on) db sound =
      or_keep-HasLiveApart db _ sound (λ after e.
        reject-HasLiveApart platform weekday now organization_id id actor scope remark on db sound
          e)
  handle-HasLiveApart now (Action.accept_all organization_id key actor scope remark) db sound =
      review_submission-HasLiveApart
        (λ id db. approve platform weekday now organization_id id actor scope remark false db)
        (λ id db after s e.
          approve-HasLiveApart platform weekday now organization_id id actor scope remark false db s
            e)
        was_approved organization_id key db sound
  handle-HasLiveApart now (Action.decline_all organization_id key actor scope remark) db sound =
      review_submission-HasLiveApart
        (λ id db. reject platform weekday now organization_id id actor scope remark false db)
        (λ id db after s e.
          reject-HasLiveApart platform weekday now organization_id id actor scope remark false db s
            e)
        was_rejected organization_id key db sound

-- From tables whose requests have distinct identifiers that are below the next one, and where no two
-- live requests of an employee for one day conflict, all tables that actions lead to, the actions
-- that fail included, are such.
pub Reach-HasLiveApart : {first db : Tables} → HasLiveApart first → Reach first db → HasLiveApart db
Reach-HasLiveApart sound Reach.start = sound
Reach-HasLiveApart sound (Reach.later {db} platform weekday now action earlier) =
    handle-HasLiveApart platform weekday now action db (Reach-HasLiveApart sound earlier)
