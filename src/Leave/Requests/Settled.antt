-- ===== src/Leave/Requests/Settled.antt =====
-- A request for leave and its withdrawal (src/modules/leave/leave.service.ts), with the leave years
-- that it is charged to (src/modules/leave/annual-leave.service.ts).
use Prim.Native.String.{String}
use workforce_app_backend.Common.{
  ℕ, ◌≡◌, refl, ap, ◌∙◌, Bool, true, false, ◌&&◌, some, none, List, [], ◌∷◌, ◌++◌, All-weaken,
  arith, find, ◌==◌,
}
use workforce_app_backend.Common.Result.{ok, first_step-eq-ok}
use workforce_app_backend.Common.Table.{find_by, has_key}
use workforce_app_backend.Common.Table.Keys.{has_key-next}
use workforce_app_backend.Calendar.{Date}
use workforce_app_backend.Leave.Fifo.{FifoAllocation}
use workforce_app_backend.Leave.DayFraction.{ScheduleForFraction, sum_leave_day_fractions}
use workforce_app_backend.Leave.Annual.{LeaveRequest, Store, bucket_id_of, request_id_of, cancelled}
use workforce_app_backend.Leave.Annual.Accrual.{Accrued, ensure_accrual}
use workforce_app_backend.Leave.Annual.Accrual.Sound.{IsSound}
use workforce_app_backend.Leave.Annual.Apply.Rows.{IsUnallocated}
use workforce_app_backend.Leave.Annual.Service.{reserve}
use workforce_app_backend.Leave.Annual.Service.Settle.{release-reserve}
use workforce_app_backend.Leave.Annual.Kept.{reserve-Keeps}
use workforce_app_backend.Leave.Requests.{Tables, Profile, employee_context, add_notifications}
use workforce_app_backend.Leave.Requests.Service.{
  LeaveInput, Admission, admit, admit_typed, admit_planned, load_leave_type, new_request,
  with_request, reserve_days, reserve_tracked, submit, my_get, cancel, release_tracked,
  update_status,
}
use workforce_app_backend.Leave.Requests.Life
use workforce_app_backend.Leave.Requests.Life.Effect.{planned_checked}

find_new :
    (next : ℕ) (p : LeaveRequest → Bool) (rows : List LeaveRequest) (new : LeaveRequest)
    → has_key request_id_of next rows ≡ false
    → new.id ≡ next
    → p new ≡ true
    → find (λ r. (r.id == next) && p r) (rows ++ new ∷ []) ≡ some new
find_new next p [] new absent same passes = ground arith
find_new next p (r ∷ rows) new absent same passes =
    ground (arith, find_new next p rows new (ground arith) same passes)

same_context :
    (user : ℕ) (db db' : Tables)
    → db'.profiles ≡ db.profiles
    → employee_context db' user ≡ employee_context db user
unfolding employee_context
same_context user db db' same = rw same refl

-- The employee of the request that is admitted.
admitted_as :
    (user : ℕ) (input : LeaveInput) (db : Tables) {a : Admission}
    → admit user input db ≡ ok a
    → (p : Profile) × (schedule : ScheduleForFraction) × (employee_context db user
        ≡ ok (p, schedule))
      × (a.employee_id ≡ p.employee_id)
unfolding admit admit_typed
admitted_as user input db {a} e =
    let ((p, schedule), context, e1) =
      first_step-eq-ok (employee_context db user) (admit_typed db input) {value = a} e in
    let (type, _, e2) =
      first_step-eq-ok (load_leave_type db p input.leave_type_id)
        (admit_planned db input (p, schedule)) {value = a} e1 in
    let (same, _, _) = planned_checked db input p schedule type e2 in
    (p, schedule, context, rw (← same) refl)

module _ (today : String → Date) (now user : ℕ) (input : LeaveInput) (db : Tables) {a : Admission}
    {made : Tables} (rows : Life.HasSoundRequests db) (years : IsSound db.annual)
    (free : IsUnallocated db.annual.next_id db.annual.allocations)
    (admitted : admit user input db ≡ ok a) (tracked : a.type.tracks_balance ≡ true)
    (submitted : submit today now a db ≡ ok made) where
  abbrev asked : Store
  asked = with_request now a db.annual

  abbrev id : ℕ
  id = db.annual.next_id

  abbrev days : ℕ
  days = sum_leave_day_fractions a.planned

  abbrev new : LeaveRequest
  new = new_request id now a

  asked-IsSound : IsSound asked
  asked-IsSound = record {
    distinct = years.distinct;
    below = All-weaken (λ b old. omega arith) db.annual.buckets years.below;
  }

  reserved :
      (annual : Store) × (allocations : List FifoAllocation) × (reserve today asked a.employee_id id
          days
        ≡ ok (annual, allocations))
      × (made.annual ≡ annual)
      × (made.profiles ≡ db.profiles)
  unfolding submit reserve_tracked reserve_days add_notifications
  reserved =
      let (annual, kept, e1) =
        first_step-eq-ok (reserve_tracked today a id asked) _ {value = made} submitted in
      let e2 : reserve_days today a id asked ≡ ok annual = ground (arith, tracked) in
      let ((store, allocations), granted, e3) =
        first_step-eq-ok (reserve today asked a.employee_id id days) _ {value = annual} e2 in
      let same : store ≡ annual = ground arith in
      (store, allocations, granted, ground arith, ground arith)

  accrued :
      (annual1 : Store) × (years1 : Accrued) × (ensure_accrual today asked a.employee_id none
        ≡ ok (annual1, years1))
  unfolding reserve
  accrued =
      let (annual, allocations, granted, _, _) = reserved in
      let ((annual1, years1), accrual, _) =
        first_step-eq-ok (ensure_accrual today asked a.employee_id none) _
          {value = (annual, allocations)} granted in
      (annual1, years1, accrual)

  found_again : my_get user id made ≡ ok new
  unfolding my_get
  found_again =
      let (annual, allocations, granted, same, same_profiles) = reserved in
      let (p, schedule, context, employee) = admitted_as user input db admitted in
      let again = same_context user db made same_profiles ∙ context in
      let kept = reserve-Keeps today asked a.employee_id id days granted in
      let requests : made.annual.requests ≡ db.annual.requests ++ new ∷ [] =
        ap (λ (s : Store). s.requests) same ∙ kept.requests in
      let absent = has_key-next request_id_of id db.annual.requests rows.old_ids in
      let found =
        find_new id (λ r. r.employee_id == p.employee_id) db.annual.requests new absent refl
          (ground arith) in
      rw (again, requests, found) refl

  -- A request for leave that counts against the balance, by an employee, on well-formed tables where
  -- the request to come has no allocations: its withdrawal by the same employee succeeds, and leaves
  -- every leave year as accrual left it before the days were reserved, and the allocations as they
  -- were before the request.
  pub cancel-submit :
      (after : Tables) × (annual1 : Store) × (years1 : Accrued) × (cancel user id made ≡ ok after)
      × (ensure_accrual today asked a.employee_id none ≡ ok (annual1, years1))
      × ((j : ℕ)
          → find_by bucket_id_of j after.annual.buckets ≡ find_by bucket_id_of j annual1.buckets)
      × (after.annual.allocations ≡ db.annual.allocations)
  unfolding cancel
  cancel-submit =
      let (annual, allocations, granted, same, _) = reserved in
      let (annual1, years1, accrual) = accrued in
      let undone =
        release-reserve today asked a.employee_id id days asked-IsSound free accrual granted in
      (
        record made { annual = update_status id cancelled (release_tracked new made.annual) },
        annual1,
        years1,
        rw found_again refl,
        accrual,
        λ j. rw (tracked, same) ((undone j).0),
        rw (tracked, same) ((undone 0).1),
      )
