-- ===== src/Leave/Requests/Life/Invariant.antt =====
-- What actions of src/modules/leave/leave.service.ts keep of the requests: no two live ones of an
-- employee conflict, and one that is decided or withdrawn stays so.
use workforce_app_backend.Common.{
  ℕ, ◌<◌, ◌≡◌, refl, true, false, some, List, [], ◌∷◌, All, All-append, All-weaken, arith, inl, inr,
  Bool-cases, List-cases, ◌==◌, ◌&&◌,
}
use workforce_app_backend.Common.Table.{find_by, HasDistinctKeys, find_by-update_by}
use workforce_app_backend.Common.Table.Keys.{
  HasDistinctKeys-update_by, HasDistinctKeys-append, has_key-next, All-update_by, All-find_by_self,
  find_by-append,
}
use workforce_app_backend.Calendar.{Date}
use workforce_app_backend.Leave.DayFraction.{LeaveDayPlan, sum_leave_day_fractions}
use workforce_app_backend.Leave.Annual.{LeaveRequest, RequestStatus, request_id_of}
use workforce_app_backend.Leave.Annual.Service.{is_active}
use workforce_app_backend.Leave.Requests.{Tables, has_overlap, last_of, sessions_on, day_sessions}
use workforce_app_backend.Leave.Requests.Service.{Admission, new_request, set_status, is_pending}
use workforce_app_backend.Leave.Requests.Apart.{
  any_pair, IsInRange, NeverRevives, any_conflict-each, HasNoConflict-append, HasNoConflict-update,
}
use workforce_app_backend.Leave.Requests.Apart.Planned.{
  IsAscending, first_to_last, planned-IsAscending, planned-between,
}
use workforce_app_backend.Leave.Requests.Life.{Reach, HasSoundRequests}
use workforce_app_backend.Leave.Requests.Life.Effect.{Effect, handle-Effect}

-- The sessions of a new request are those of its plan, which has a day.
new_sessions :
    (id now : ℕ) (a : Admission) (day : Date) (first : LeaveDayPlan) (rest : List LeaveDayPlan)
    → a.planned ≡ first ∷ rest
    → sessions_on day (new_request id now a) ≡ day_sessions day (first ∷ rest)
unfolding sessions_on
new_sessions id now a day first rest e = rw e refl

new_is_apart :
    (id now : ℕ) (a : Admission) (requests : List LeaveRequest)
    → All IsInRange requests
    → IsAscending a.planned
    → 0 < sum_leave_day_fractions a.planned
    → has_overlap a.employee_id requests a.planned ≡ false
    → (day : Date)
    → All
        (λ r.
          (r.employee_id == a.employee_id && is_active r.status) ≡ true
          → any_pair (sessions_on day r) (sessions_on day (new_request id now a)) ≡ false)
        requests
unfolding has_overlap sum_leave_day_fractions
new_is_apart id now a requests in_range ascending working apart day = elim (List-cases a.planned) [
  | inl e ↦ absurd (ground (arith, working, e))
  | inr (first, rest, e) ↦
      let free =
        any_conflict-each a.employee_id first.date (last_of first rest).date requests in_range
          (first ∷ rest) (first_to_last first rest (rw e at ascending))
          (rw (e, has_overlap) at apart) day in
      rw (new_sessions id now a day first rest e) free
]

-- A pending row is the only one of its identifier.
never_revives :
    (id : ℕ) (status : RequestStatus) (requests : List LeaveRequest) {current : LeaveRequest}
    → HasDistinctKeys request_id_of requests
    → find_by request_id_of id requests ≡ some current
    → is_pending current.status ≡ true
    → All (NeverRevives id status) requests
never_revives id status requests {current} d found pending =
    All-weaken
      (λ r self same _.
        let here : r ≡ current = ground (arith, self, same, found) in
        rw here (ground (arith, pending)))
      requests (All-find_by_self request_id_of requests d)

Effect-HasSoundRequests :
    {db after : Tables} → HasSoundRequests db → Effect db after → HasSoundRequests after
Effect-HasSoundRequests {db} {after} sound (Effect.kept same next) = record {
  distinct = rw same sound.distinct;
  old_ids = rw same (All-weaken (λ r old. omega arith) db.annual.requests sound.old_ids);
  in_range = rw same sound.in_range;
  no_conflict = rw same sound.no_conflict;
}
Effect-HasSoundRequests {db} {after} sound
      (Effect.asked now schedule input a valid planned dates working apart same next) =
    let rows = db.annual.requests in
    let new = new_request db.annual.next_id now a in
    let between = planned-between input.start_date input.end_date schedule input.days valid in
    let ascending = planned-IsAscending input.start_date input.end_date schedule input.days valid in
    record {
      distinct = rw same (
          HasDistinctKeys-append request_id_of rows new
            (has_key-next request_id_of db.annual.next_id rows sound.old_ids) sound.distinct);
      old_ids = rw same (
          All-append (λ r. r.id < after.annual.next_id) rows (new ∷ [])
            (All-weaken (λ r old. omega arith) rows sound.old_ids) (omega arith, tt));
      in_range = rw same (
          All-append IsInRange rows (new ∷ []) sound.in_range
            (rw (planned, dates.0, dates.1) between, tt));
      no_conflict = rw same (
          HasNoConflict-append rows new
            (new_is_apart db.annual.next_id now a rows sound.in_range (rw planned ascending) working
              apart)
            sound.no_conflict);
    }
Effect-HasSoundRequests {db} {after} sound
      (Effect.ended id status current found pending ends same next) =
    let rows = db.annual.requests in
    record {
      distinct = rw same (
          HasDistinctKeys-update_by request_id_of id (set_status status) rows (λ r. refl)
            sound.distinct);
      old_ids = rw same (
          All-update_by (λ r. r.id < after.annual.next_id) request_id_of id (set_status status) rows
            (λ r old. old) (All-weaken (λ r old. omega arith) rows sound.old_ids));
      in_range = rw same (
          All-update_by IsInRange request_id_of id (set_status status) rows (λ r h. h)
            sound.in_range);
      no_conflict = rw same (
          HasNoConflict-update id status rows
            (never_revives id status rows sound.distinct found pending) sound.no_conflict);
    }

-- From tables whose requests have distinct identifiers that are below the next one and rows in their
-- range, and where no two live requests of an employee hold sessions that conflict, every tables
-- that actions lead to, each run to its end before the next, are such.
pub Reach-HasSoundRequests :
    {first db : Tables} → HasSoundRequests first → Reach first db → HasSoundRequests db
Reach-HasSoundRequests sound Reach.start = sound
Reach-HasSoundRequests sound (Reach.later {db} today now action earlier returned) =
    let before = Reach-HasSoundRequests sound earlier in
    Effect-HasSoundRequests before (handle-Effect today now action db before.distinct returned)

-- A decided or withdrawn request after one action.
Effect-keeps_ended :
    {db after : Tables} (id : ℕ) {r : LeaveRequest}
    → Effect db after
    → find_by request_id_of id db.annual.requests ≡ some r
    → is_pending r.status ≡ false
    → find_by request_id_of id after.annual.requests ≡ some r
Effect-keeps_ended id (Effect.kept same next) found ended = rw same found
Effect-keeps_ended {db} id {r}
      (Effect.asked now schedule input a valid planned dates working apart same next) found ended =
    rw same (
      find_by-append request_id_of id db.annual.requests (new_request db.annual.next_id now a ∷ [])
        {r = r} found)
Effect-keeps_ended {db} id {r} (Effect.ended other status current there pending ends same next)
      found ended =
    let updated =
      find_by-update_by request_id_of id other (set_status status) db.annual.requests (λ r. refl) in
    elim (Bool-cases (other == id)) [
      | inl e ↦ absurd (ground (arith, e, there, found))
      | inr e ↦ rw same (ground (arith, updated, e))
    ]

-- From well-formed tables, a request that is approved, rejected or withdrawn is the same row in every
-- tables that actions lead to.
pub Reach-keeps_ended :
    {first db : Tables} (id : ℕ) {r : LeaveRequest}
    → HasSoundRequests first
    → Reach first db
    → find_by request_id_of id first.annual.requests ≡ some r
    → is_pending r.status ≡ false
    → find_by request_id_of id db.annual.requests ≡ some r
Reach-keeps_ended id sound Reach.start found ended = found
Reach-keeps_ended id {r} sound (Reach.later {db} today now action earlier returned) found ended =
    let before = Reach-HasSoundRequests sound earlier in
    Effect-keeps_ended id {r = r} (handle-Effect today now action db before.distinct returned)
      (Reach-keeps_ended id {r = r} sound earlier found ended) ended
