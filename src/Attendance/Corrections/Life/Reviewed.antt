-- ===== src/Attendance/Corrections/Life/Reviewed.antt =====
-- The review of one request (`approve` and `reject` of
-- src/modules/attendance-correctness/attendance-correctness.service.ts).
use workforce_app_backend.Common.{
  ℕ, ◌≤◌, ◌<◌, ◌≡◌, refl, ap, ◌∙◌, Bool, true, false, not, Option, some, ◌==◌, All-weaken, arith,
  inl, inr, Option-cases, find,
}
use workforce_app_backend.Common.Pairwise.{Pairwise-update_by}
use workforce_app_backend.Common.Result.{
  ok, app_error, throw_if, or_throw, ◌>>◌, ◌>>=◌, first_step-eq-ok, after_check-eq-ok, check-eq-ok,
  throw_if-eq-ok, or_throw-eq-ok,
}
use workforce_app_backend.Common.Table.{find_by}
use workforce_app_backend.Common.Table.Keys.{HasDistinctKeys-update_by, All-update_by, All-same_key}
use workforce_app_backend.Shared.OfficeScope.{OfficeScope, assert_office_in_scope}
use workforce_app_backend.Leave.DayFraction.{LeaveDaySession}
use workforce_app_backend.Attendance.{Platform, timesheet_id}
use workforce_app_backend.Attendance.Presence.{Employee, Schedule, Office}
use workforce_app_backend.Attendance.Corrections.{
  CorrectnessStatus, approved, rejected, CorrectnessRequest, Tables, NoticeType, was_approved,
  was_rejected, correctness_id, is_pending, schedule_bounds, zone_of, Bounds,
}
use workforce_app_backend.Attendance.Corrections.Review.{
  apply_scheduled_correctness, timesheet_of, create_timesheet, correct_or_create,
  create_by_schedule, create_scheduled_timesheet, check_review, load_request, correct, review_row,
  set_review, notify, approve, reject, office_id_of,
}
use workforce_app_backend.Attendance.Corrections.Life.{IsApart, HasLiveApart}

module _ (platform : Platform) (weekday : ℕ → ℕ) where
  -- What correcting a timesheet keeps.
  pub record Keeps (db after : Tables) : Type 0 where
    pub requests : after.requests ≡ db.requests
    pub next : db.attendance.next_id ≤ after.attendance.next_id

  apply_scheduled_correctness-Keeps :
      (id : ℕ) (session : LeaveDaySession) (actor : ℕ) (db : Tables) {after : Tables} {t : ℕ}
      → apply_scheduled_correctness id session actor db ≡ ok (after, t)
      → Keeps db after
  unfolding apply_scheduled_correctness
  apply_scheduled_correctness-Keeps id session actor db {after} {t} e =
      let (current, found, e1) =
        first_step-eq-ok
          (or_throw (find_by timesheet_id id db.attendance.timesheets)
            (app_error 404 "TIMESHEET_NOT_FOUND"))
          _ {value = (after, t)} e in
      record { requests = ground arith; next = ground arith }

  correct_or_create-Keeps :
      (e : Employee) (office : Office) (schedule : Schedule) (day : ℕ) (session : LeaveDaySession)
      (actor : ℕ) (db : Tables) (bounds : Bounds) {after : Tables} {t : ℕ}
      → correct_or_create platform weekday e office schedule day session actor db bounds
        ≡ ok (after, t)
      → Keeps db after
  unfolding correct_or_create create_timesheet
  correct_or_create-Keeps e office schedule day session actor db bounds {after} {t} done =
      elim (Option-cases (timesheet_of platform weekday e.id day db.attendance)) [
        | inr (existing, there) ↦
            apply_scheduled_correctness-Keeps existing.id session actor db {t = t}
              (ground (arith, there))
        | inl absent ↦ record { requests = ground (arith, absent); next = ground (arith, absent) }
      ]

  pub correct-Keeps :
      (actor : ℕ) (r : CorrectnessRequest) (e : Employee) (db : Tables) {after : Tables} {t : ℕ}
      → correct platform weekday actor r e db ≡ ok (after, t)
      → Keeps db after
  unfolding correct create_scheduled_timesheet create_by_schedule
  correct-Keeps actor r employee db {after} {t} done = elim (Option-cases r.timesheet_id) [
    | inr (id, given) ↦
        apply_scheduled_correctness-Keeps id r.session actor db {t = t} (ground (arith, given))
    | inl absent ↦
        let e0 : create_scheduled_timesheet platform weekday employee r.work_date r.session actor db
            ≡ ok (after, t) =
          ground (arith, absent) in
        let (office, _, e1) =
          first_step-eq-ok (or_throw employee.office (app_error 500 "INTERNAL_ERROR")) _
            {value = (after, t)} e0 in
        let (schedule, _, e2) =
          first_step-eq-ok (or_throw employee.schedule (app_error 500 "INTERNAL_ERROR"))
            (create_by_schedule platform weekday employee r.work_date r.session actor db office)
            {value = (after, t)} e1 in
        let (bounds, _, e3) =
          first_step-eq-ok
            (schedule_bounds platform weekday schedule (zone_of office schedule) r.work_date)
            (correct_or_create platform weekday employee office schedule r.work_date r.session actor
              db)
            {value = (after, t)} e2 in
        correct_or_create-Keeps employee office schedule r.work_date r.session actor db bounds
          {t = t} e3
  ]

  review-HasLiveApart :
      (id : ℕ) (status : CorrectnessStatus) (remark : Option ℕ) (actor now : ℕ)
      (timesheet : Option ℕ) (db after : Tables) {r : CorrectnessRequest}
      → HasLiveApart db
      → Keeps db after
      → find_by correctness_id id db.requests ≡ some r
      → is_pending r.status ≡ true
      → HasLiveApart (set_review platform weekday id status remark actor now timesheet after)
  review-HasLiveApart id status remark actor now timesheet db after {r} sound kept found waiting =
      let f = review_row platform weekday status remark actor now timesheet in
      record {
        distinct =
            rw kept.requests (
              HasDistinctKeys-update_by correctness_id id f db.requests (λ r. refl) sound.distinct);
        old_ids = rw kept.requests (
            All-update_by (λ r. r.id < after.attendance.next_id) correctness_id id f db.requests
              (λ r old. old)
              (All-weaken (λ r old. omega (arith, kept.next)) db.requests sound.old_ids));
        apart = rw kept.requests (
            Pairwise-update_by IsApart correctness_id id f (λ b. is_pending b.status ≡ true)
              (λ a b m h. ground (arith, m, h)) (λ a b m h. ground (arith, m, h)) db.requests
              (All-weaken (λ b same here. rw (same here) waiting) db.requests
                (All-same_key correctness_id id db.requests {current = r} sound.distinct found))
              sound.apart);
      }

  pub load_request-found :
      (organization_id : ℕ) (scope : OfficeScope) (id : ℕ) (db : Tables) {r : CorrectnessRequest}
      {e : Employee}
      → load_request platform weekday organization_id scope id db ≡ ok (r, e)
      → (find_by correctness_id id db.requests ≡ some r) × (is_pending r.status ≡ true)
  unfolding load_request check_review
  load_request-found organization_id scope id db {r} {e} done =
      let (row, found, e1) =
        first_step-eq-ok
          (or_throw (find_by correctness_id id db.requests) (app_error 404 "REQUEST_NOT_FOUND")) _
          {value = (r, e)} done in
      let own =
        throw_if (not (row.organization_id == organization_id))
          (app_error 404 "REQUEST_NOT_FOUND") in
      let owner =
        or_throw (find (λ (e : Employee). e.id == row.employee_id) db.employees)
          (app_error 500 "INTERNAL_ERROR") in
      let e2 =
        after_check-eq-ok own
          (owner >>= λ e. check_review platform weekday scope row e >> ok (row, e)) {value = (r, e)}
          e1 in
      let (worker, _, e3) =
        first_step-eq-ok owner (λ e. check_review platform weekday scope row e >> ok (row, e))
          {value = (r, e)} e2 in
      let same =
        after_check-eq-ok (check_review platform weekday scope row worker) (ok (row, worker))
          {value = (r, e)} e3 in
      let passed =
        check-eq-ok (check_review platform weekday scope row worker) (ok (row, worker))
          {value = (r, e)} e3 in
      let waiting =
        after_check-eq-ok (assert_office_in_scope scope (office_id_of platform weekday worker))
          (throw_if (not (is_pending row.status)) (app_error 409 "REQUEST_NOT_PENDING")) passed in
      let same_row : row ≡ r = ground arith in
      (
        or_throw-eq-ok _ (app_error 404 "REQUEST_NOT_FOUND") found ∙ ap some same_row,
        rw (← same_row)
            (ground (arith, throw_if-eq-ok _ (app_error 409 "REQUEST_NOT_PENDING") waiting)),
      )

  pub notify-HasLiveApart :
      (on : Bool) (type : NoticeType) (user related : ℕ) (db : Tables)
      → HasLiveApart db
      → HasLiveApart (notify platform weekday on type user related db)
  notify-HasLiveApart false type user related db sound = sound
  notify-HasLiveApart true type user related db sound = record {
    distinct = sound.distinct;
    old_ids = sound.old_ids;
    apart = sound.apart;
  }

  pub approve-HasLiveApart :
      (now organization_id id actor : ℕ) (scope : OfficeScope) (remark : Option ℕ) (on : Bool)
      (db : Tables) {after : Tables}
      → HasLiveApart db
      → approve platform weekday now organization_id id actor scope remark on db ≡ ok after
      → HasLiveApart after
  unfolding approve
  approve-HasLiveApart now organization_id id actor scope remark on db {after} sound done =
      let ((r, e), loaded, e1) =
        first_step-eq-ok (load_request platform weekday organization_id scope id db) _
          {value = after} done in
      let ((corrected, timesheet), applied, e2) =
        first_step-eq-ok (correct platform weekday actor r e db) _ {value = after} e1 in
      let (found, waiting) = load_request-found organization_id scope id db loaded in
      let same : notify platform weekday on was_approved e.user_id id
            (set_review platform weekday id approved remark actor now (some timesheet) corrected)
          ≡ after =
        ground arith in
      rw (← same) (
        notify-HasLiveApart on was_approved e.user_id id _ (
          review-HasLiveApart id approved remark actor now (some timesheet) db corrected {r = r}
            sound (correct-Keeps actor r e db applied) found waiting))

  pub reject-HasLiveApart :
      (now organization_id id actor : ℕ) (scope : OfficeScope) (remark : Option ℕ) (on : Bool)
      (db : Tables) {after : Tables}
      → HasLiveApart db
      → reject platform weekday now organization_id id actor scope remark on db ≡ ok after
      → HasLiveApart after
  unfolding reject
  reject-HasLiveApart now organization_id id actor scope remark on db {after} sound done =
      let ((r, e), loaded, e1) =
        first_step-eq-ok (load_request platform weekday organization_id scope id db) _
          {value = after} done in
      let (found, waiting) = load_request-found organization_id scope id db loaded in
      let same : notify platform weekday on was_rejected e.user_id id
            (set_review platform weekday id rejected remark actor now r.timesheet_id db)
          ≡ after =
        ground arith in
      rw (← same) (
        notify-HasLiveApart on was_rejected e.user_id id _ (
          review-HasLiveApart id rejected remark actor now r.timesheet_id db db {r = r} sound
            (record { requests = refl; next = omega arith }) found waiting))
