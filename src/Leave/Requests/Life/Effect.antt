-- ===== src/Leave/Requests/Life/Effect.antt =====
-- What an action of src/modules/leave/leave.service.ts does to the rows of the requests, by cases.
use Prim.Native.String.{String}
use workforce_app_backend.Common.{
  ℕ, ◌+◌, ◌≤◌, ◌<◌, ◌≡◌, refl, ap, ◌∙◌, true, false, not, Option, none, some, [], ◌∷◌, ◌++◌, arith,
  inl, inr, Bool-cases, ◌==◌, ltb,
}
use workforce_app_backend.Common.Result.{
  Result, ok, app_error, throw_if, or_throw, ◌>>◌, first_step-eq-ok, after_check-eq-ok, check-eq-ok,
  throw_if-eq-ok, or_throw-eq-ok,
}
use workforce_app_backend.Common.Table.{find_by, update_by, HasDistinctKeys}
use workforce_app_backend.Common.Table.Keys.{find_by-find_both, find_by-key}
use workforce_app_backend.Calendar.{Date, IsDate, before}
use workforce_app_backend.Shared.OfficeScope.{OfficeScope}
use workforce_app_backend.Leave.DayFraction.{ScheduleForFraction, sum_leave_day_fractions}
use workforce_app_backend.Leave.Annual.{
  LeaveRequest, RequestStatus, cancelled, Store, request_id_of,
}
use workforce_app_backend.Leave.Annual.Service.{reserve, release, from_pending}
use workforce_app_backend.Leave.Annual.Balance.{balance_for_employee}
use workforce_app_backend.Leave.Annual.Kept.{
  Keeps, Keeps-refl, Keeps-trans, reserve-Keeps, release-Keeps, consume_reserved-Keeps,
  balance_for_employee-Keeps,
}
use workforce_app_backend.Leave.Requests.{
  Tables, Profile, LeaveType, Verdict, approve, reject, employee_context, add_notifications,
  has_overlap, assert_no_attendance_in_range, assert_no_leave_session_overlap,
}
use workforce_app_backend.Leave.Requests.Service.{
  LeaveInput, Admission, plan, admission, check_plan, admit_planned, admit_typed, admit,
  new_request, with_request, set_status, update_status, my_get, is_pending, release_tracked, cancel,
  reserve_days, reserve_tracked, submit, create, load_leave_type, profile_of, admin_get,
  check_scope, accrue_for, view_row, status_of, settle_days, lacks_reason, check_attendance,
  record_decision, settle_tracked, check_decision, settle_decision, decide_viewed, decide,
}
use workforce_app_backend.Leave.Requests.Life.{Action, ask, withdraw, view, settle, viewed, handle}

pub data Effect (db after : Tables) : Type 0 where
  kept :
      after.annual.requests ≡ db.annual.requests
      → db.annual.next_id ≤ after.annual.next_id
      → Effect db after
  asked :
      (now : ℕ) (schedule : ScheduleForFraction) (input : LeaveInput) (a : Admission)
      → IsDate input.start_date
      → a.planned ≡ plan schedule input
      → (a.start_date ≡ input.start_date) × (a.end_date ≡ input.end_date)
      → 0 < sum_leave_day_fractions a.planned
      → has_overlap a.employee_id db.annual.requests a.planned ≡ false
      → after.annual.requests ≡ db.annual.requests ++ new_request db.annual.next_id now a ∷ []
      → db.annual.next_id + 1 ≤ after.annual.next_id
      → Effect db after
  ended :
      (id : ℕ) (status : RequestStatus) (current : LeaveRequest)
      → find_by request_id_of id db.annual.requests ≡ some current
      → is_pending current.status ≡ true
      → is_pending status ≡ false
      → after.annual.requests ≡ update_by request_id_of id (set_status status) db.annual.requests
      → db.annual.next_id ≤ after.annual.next_id
      → Effect db after

-- What the checks of a new request say.
pub planned_checked :
    (db : Tables) (input : LeaveInput) (p : Profile) (schedule : ScheduleForFraction)
    (type : LeaveType) {a : Admission}
    → admit_planned db input (p, schedule) type ≡ ok a
    → (admission db p type input (plan schedule input) ≡ a)
      × (0 < sum_leave_day_fractions (plan schedule input))
      × (has_overlap p.employee_id db.annual.requests (plan schedule input) ≡ false)
unfolding admit_planned check_plan assert_no_attendance_in_range assert_no_leave_session_overlap
planned_checked db input p schedule type {a} e =
    let planned = plan schedule input in
    let returned : Result Admission = ok (admission db p type input planned) in
    let check = check_plan db p input planned in
    let same = after_check-eq-ok check returned e in
    let passed = check-eq-ok check returned e in
    let range =
      throw_if (before input.end_date input.start_date) (app_error 422 "INVALID_LEAVE_RANGE") in
    let working =
      throw_if (not (ltb 0 (sum_leave_day_fractions planned))) (app_error 422 "NO_WORKING_DAYS") in
    let attendance =
      assert_no_attendance_in_range db p.employee_id input.start_date input.end_date in
    let overlap = has_overlap p.employee_id db.annual.requests planned in
    let last = throw_if overlap (app_error 409 "OVERLAPPING_LEAVE") in
    let early = check-eq-ok (range >> working >> attendance) last passed in
    let some_day =
      after_check-eq-ok range working (check-eq-ok (range >> working) attendance early) in
    (
      ground arith,
      ground (arith, throw_if-eq-ok _ (app_error 422 "NO_WORKING_DAYS") some_day),
      throw_if-eq-ok overlap (app_error 409 "OVERLAPPING_LEAVE")
          (after_check-eq-ok (range >> working >> attendance) last passed),
    )

-- A row that is found by a further condition too.
my_get-found :
    (user id : ℕ) (db : Tables) {r : LeaveRequest}
    → HasDistinctKeys request_id_of db.annual.requests
    → my_get user id db ≡ ok r
    → find_by request_id_of id db.annual.requests ≡ some r
unfolding my_get
my_get-found user id db {r} d e =
    let ((p, schedule), _, e1) = first_step-eq-ok (employee_context db user) _ {value = r} e in
    find_by-find_both request_id_of id (λ (r : LeaveRequest). r.employee_id == p.employee_id)
      db.annual.requests {r = r} d (or_throw-eq-ok _ (app_error 404 "LEAVE_NOT_FOUND") e1)

release_tracked-Keeps :
    (r : LeaveRequest) (annual : Store) → Keeps annual (release_tracked r annual)
release_tracked-Keeps r annual = elim (Bool-cases r.tracks_balance) [
  | inl e ↦ rw e (release-Keeps annual r.id from_pending)
  | inr e ↦ rw e (Keeps-refl annual)
]

cancel-Effect :
    (user id : ℕ) (db : Tables) {after : Tables}
    → HasDistinctKeys request_id_of db.annual.requests
    → cancel user id db ≡ ok after
    → Effect db after
unfolding cancel
cancel-Effect user id db {after} d e =
    let (current, got, e1) = first_step-eq-ok (my_get user id db) _ {value = after} e in
    let live = throw_if (not (is_pending current.status)) (app_error 409 "LEAVE_NOT_CANCELLABLE") in
    let changed : Tables = record db {
      annual = update_status id cancelled (release_tracked current db.annual);
    } in
    let same = after_check-eq-ok live (ok changed) {value = after} e1 in
    let passed = check-eq-ok live (ok changed) {value = after} e1 in
    let same_after : changed ≡ after = ground arith in
    let k = release_tracked-Keeps current db.annual in
    Effect.ended id cancelled current (my_get-found user id db d got)
      (ground (arith, throw_if-eq-ok _ (app_error 409 "LEAVE_NOT_CANCELLABLE") passed)) refl
      (rw (← same_after) (ap (update_by request_id_of id (set_status cancelled)) k.requests))
      (rw (← same_after) k.next)

module _ (today : String → Date) where
  reserve_tracked-Keeps :
      (a : Admission) (id : ℕ) (annual : Store) {after : Store}
      → reserve_tracked today a id annual ≡ ok after
      → Keeps annual after
  unfolding reserve_tracked reserve_days
  reserve_tracked-Keeps a id annual {after} e = elim (Bool-cases a.type.tracks_balance) [
    | inr untracked ↦
        let same : annual ≡ after = ground (arith, untracked) in rw (← same) (Keeps-refl annual)
    | inl tracked ↦
        let e0 : reserve_days today a id annual ≡ ok after = ground (arith, tracked) in
        let ((reserved, allocations), granted, returned) =
          first_step-eq-ok
            (reserve today annual a.employee_id id (sum_leave_day_fractions a.planned)) _
            {value = after} e0 in
        let same : reserved ≡ after = ground arith in
        rw (← same)
          (reserve-Keeps today annual a.employee_id id (sum_leave_day_fractions a.planned) granted)
  ]

  create-Effect :
      (now user : ℕ) (input : LeaveInput) (db : Tables) {after : Tables}
      → IsDate input.start_date
      → create today now user input db ≡ ok after
      → Effect db after
  unfolding create admit admit_typed submit add_notifications
  create-Effect now user input db {after} valid e =
      let (a, admitted, e1) =
        first_step-eq-ok (admit user input db) (λ a. submit today now a db) {value = after} e in
      let ((p, schedule), _, e2) =
        first_step-eq-ok (employee_context db user) (admit_typed db input) {value = a} admitted in
      let (type, _, e3) =
        first_step-eq-ok (load_leave_type db p input.leave_type_id)
          (admit_planned db input (p, schedule)) {value = a} e2 in
      let (same, working, apart) = planned_checked db input p schedule type e3 in
      let (annual, reserved, e4) =
        first_step-eq-ok (reserve_tracked today a db.annual.next_id (with_request now a db.annual))
          _ {value = after} e1 in
      let k = reserve_tracked-Keeps a db.annual.next_id (with_request now a db.annual) reserved in
      let rows : after.annual.requests ≡ annual.requests = ground arith in
      let next : after.annual.next_id ≡ annual.next_id = ground arith in
      Effect.asked now schedule input a valid (rw (← same) refl) (rw (← same) (refl, refl))
        (rw (← same) working) (rw (← same) apart) (rows ∙ k.requests) (omega (arith, next, k.next))

  view-found :
      (organization_id id : ℕ) (scope : OfficeScope) (db : Tables) {after : Tables}
      {r : LeaveRequest} {p : Profile}
      → admin_get today organization_id id scope db ≡ ok (after, r, p)
      → (find_by request_id_of id db.annual.requests ≡ some r) × Keeps db.annual after.annual
  unfolding admin_get view_row accrue_for
  view-found organization_id id scope db {after} {r} {p} e =
      let value : Tables × LeaveRequest × Profile = (after, r, p) in
      let (row, found, e1) =
        first_step-eq-ok
          (or_throw (find_by request_id_of id db.annual.requests) (app_error 404 "LEAVE_NOT_FOUND"))
          _ {value = value} e in
      let (owner, _, e2) = first_step-eq-ok (profile_of today db row) _ {value = value} e1 in
      let e3 =
        after_check-eq-ok (check_scope today organization_id scope owner)
          (accrue_for today db row owner) {value = value} e2 in
      let ((annual, shown), balance, e4) =
        first_step-eq-ok (balance_for_employee today db.annual row.employee_id none) _
          {value = value} e3 in
      let same_row : row ≡ r = ground arith in
      let same_annual : after.annual ≡ annual = ground arith in
      (
        or_throw-eq-ok _ (app_error 404 "LEAVE_NOT_FOUND") found ∙ ap some same_row,
        rw same_annual (balance_for_employee-Keeps today db.annual row.employee_id none balance),
      )

  view-Effect :
      (organization_id id : ℕ) (scope : OfficeScope) (db : Tables) {after : Tables}
      → viewed (admin_get today organization_id id scope db) ≡ ok after
      → Effect db after
  unfolding viewed
  view-Effect organization_id id scope db {after} e =
      let ((shown, r, p), got, e1) =
        first_step-eq-ok (admin_get today organization_id id scope db) _ {value = after} e in
      let same : shown ≡ after = ground arith in
      let k = rw same at (view-found organization_id id scope db got).1 in
      Effect.kept k.requests k.next

  settle_tracked-Keeps :
      (verdict : Verdict) (r : LeaveRequest) (annual : Store) {after : Store}
      → settle_tracked today verdict r annual ≡ ok after
      → Keeps annual after
  unfolding settle_tracked
  settle_tracked-Keeps verdict r annual {after} e = elim (Bool-cases r.tracks_balance) [
    | inr untracked ↦
        let same : annual ≡ after = ground (arith, untracked) in rw (← same) (Keeps-refl annual)
    | inl tracked ↦ settled verdict (ground (arith, tracked))
  ]
    where
      settled : (v : Verdict) → settle_days today v r annual ≡ ok after → Keeps annual after
      settled approve e = consume_reserved-Keeps today annual r.id e
      settled reject e =
          let same : release annual r.id from_pending ≡ after = ground arith in
          rw (← same) (release-Keeps annual r.id from_pending)

  ends : (verdict : Verdict) → is_pending (status_of today verdict) ≡ false
  ends approve = refl
  ends reject = refl

  pending_checked :
      (verdict : Verdict) (reason : Option ℕ) (r : LeaveRequest) (db : Tables)
      → check_decision today verdict reason r db ≡ ok tt
      → is_pending r.status ≡ true
  unfolding check_decision
  pending_checked verdict reason r db passed =
      let live = throw_if (not (is_pending r.status)) (app_error 409 "LEAVE_ALREADY_DECIDED") in
      let reasoned =
        throw_if (lacks_reason today verdict reason) (app_error 422 "REJECTION_REASON_REQUIRED") in
      let first_two = check-eq-ok (live >> reasoned) (check_attendance today verdict r db) passed in
      let first_one = check-eq-ok live reasoned first_two in
      ground (arith, throw_if-eq-ok _ (app_error 409 "LEAVE_ALREADY_DECIDED") first_one)

  decide-Effect :
      (organization_id id : ℕ) (verdict : Verdict) (reason : Option ℕ) (admin : ℕ)
      (scope : OfficeScope) (db : Tables) {after : Tables}
      → decide today organization_id id verdict reason admin scope db ≡ ok after
      → Effect db after
  unfolding decide decide_viewed check_decision settle_decision add_notifications
  decide-Effect organization_id id verdict reason admin scope db {after} e =
      let ((shown, r, p), got, e1) =
        first_step-eq-ok (admin_get today organization_id id scope db)
          (decide_viewed today admin verdict reason) {value = after} e in
      let (found, k) = view-found organization_id id scope db got in
      let check = check_decision today verdict reason r shown in
      let transaction = settle_decision today admin verdict reason r p shown in
      let passed = check-eq-ok check transaction {value = after} e1 in
      let e2 = after_check-eq-ok check transaction {value = after} e1 in
      let (annual, settled, e3) =
        first_step-eq-ok (settle_tracked today verdict r shown.annual) _ {value = after} e2 in
      let k' = Keeps-trans k (settle_tracked-Keeps verdict r shown.annual settled) in
      let same : r.id ≡ id = find_by-key request_id_of id db.annual.requests found in
      let recorded : record_decision today admin verdict reason r p shown annual ≡ after =
        ground arith in
      let rows : after.annual.requests
          ≡ update_by request_id_of id (set_status (status_of today verdict)) annual.requests =
        rw (← recorded, same) refl in
      Effect.ended id (status_of today verdict) r found
        (pending_checked verdict reason r shown passed) (ends verdict)
        (rows ∙ ap (update_by request_id_of id (set_status (status_of today verdict))) k'.requests)
        (rw (← recorded) k'.next)

  pub handle-Effect :
      (now : ℕ) (action : Action) (db : Tables) {after : Tables}
      → HasDistinctKeys request_id_of db.annual.requests
      → handle today now action db ≡ ok after
      → Effect db after
  unfolding handle
  handle-Effect now (ask user input valid) db d e = create-Effect now user input db valid e
  handle-Effect now (withdraw user id) db d e = cancel-Effect user id db d e
  handle-Effect now (view organization_id id scope) db d e =
      view-Effect organization_id id scope db e
  handle-Effect now (settle organization_id id verdict reason admin scope) db d e =
      decide-Effect organization_id id verdict reason admin scope db e
