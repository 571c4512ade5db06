-- ===== src/Leave/Requests/Apart.antt =====
-- The days of the requests of an employee (`assertNoLeaveSessionOverlap` of
-- src/modules/leave/leave.service.ts).
pub mod Planned
use workforce_app_backend.Common.{
  ℕ, ◌+◌, ◌≤◌, ◌<◌, ◌≡◌, refl, sym, ap, ◌∙◌, Bool, true, false, not, ◌&&◌, ◌||◌, List, [], ◌∷◌,
  ◌++◌, ◌==◌, leb, any, All, All-append, All-weaken, All-both, any-append, filter, arith, inl, inr,
  Bool-cases, List-cases,
}
use workforce_app_backend.Common.Table.{update_by}
use workforce_app_backend.Calendar.{Date, day_number, date_eq}
use workforce_app_backend.Leave.DayFraction.{
  LeaveDaySession, LeaveDayPlan, leave_sessions_conflict, full,
}
use workforce_app_backend.Leave.Annual.{LeaveRequest, RequestStatus, request_id_of}
use workforce_app_backend.Leave.Annual.Service.{is_active}
use workforce_app_backend.Leave.Requests.{
  between, day_sessions, sessions_on, occupied, is_existing, conflicts, any_conflict,
}
use workforce_app_backend.Leave.Requests.Service.{set_status}

-- Some session of the one list conflicts with some session of the other.
abbrev pub any_pair : List LeaveDaySession → List LeaveDaySession → Bool
any_pair xs ys = any (conflicts xs) ys

-- Two live requests of an employee hold sessions of the day that conflict.
abbrev pub clash_on : Date → LeaveRequest → LeaveRequest → Bool
clash_on day a b =
    a.employee_id == b.employee_id
    && is_active a.status
    && is_active b.status
    && any_pair (sessions_on day a) (sessions_on day b)

abbrev pub IsApart : LeaveRequest → LeaveRequest → Type 0
IsApart a b = (day : Date) → clash_on day a b ≡ false

abbrev pub HasNoConflict : List LeaveRequest → Type 0
HasNoConflict [] = Unit
HasNoConflict (r ∷ requests) = All (IsApart r) requests × HasNoConflict requests

-- The rows of a request lie in its range.
abbrev pub IsInRange : LeaveRequest → Type 0
IsInRange r = All (λ (d : LeaveDayPlan). between r.start_date r.end_date d.date ≡ true) r.days

date_eq-day_number : (a b : Date) → date_eq a b ≡ true → day_number a ≡ day_number b
date_eq-day_number a b h = let same : a ≡ b = ground arith in ap day_number same

day_sessions-outside :
    (start stop day : Date) (days : List LeaveDayPlan)
    → All (λ (d : LeaveDayPlan). between start stop d.date ≡ true) days
    → between start stop day ≡ false
    → day_sessions day days ≡ []
day_sessions-outside start stop day [] h out = refl
day_sessions-outside start stop day (d ∷ days) h out = elim (Bool-cases (date_eq d.date day)) [
  | inl e ↦ absurd (ground (arith, date_eq-day_number d.date day e, h.0))
  | inr e ↦ rw e (day_sessions-outside start stop day days h.1 out)
]

sessions_on-outside :
    (day : Date) (r : LeaveRequest)
    → IsInRange r
    → between r.start_date r.end_date day ≡ false
    → sessions_on day r ≡ []
unfolding sessions_on
sessions_on-outside day r h out = elim (List-cases r.days) [
  | inl e ↦ rw (e, sessions_on) (rw out refl)
  | inr (d, days, e) ↦
      rw (e, sessions_on)
        (day_sessions-outside r.start_date r.end_date day (d ∷ days) (rw e at h) out)
]

-- What the check says of one of the requests that it looks at.
occupied-each :
    (p : LeaveRequest → Bool) (requests : List LeaveRequest) (day : Date)
    (session : LeaveDaySession)
    → conflicts (occupied (filter p requests) day) session ≡ false
    → All (λ r. p r ≡ true → conflicts (sessions_on day r) session ≡ false) requests
unfolding occupied
occupied-each p [] day session h = tt
occupied-each p (r ∷ requests) day session h = elim (Bool-cases (p r)) [
  | inr e ↦ (
    λ looked. ground (arith, looked, e),
    occupied-each p requests day session (ground (arith, e)),
  )
  | inl e ↦
      let split =
        any-append (λ s. leave_sessions_conflict s session) (sessions_on day r)
          (occupied (filter p requests) day) in
      let apart : conflicts (sessions_on day r ++ occupied (filter p requests) day) session
          ≡ false =
        ground (arith, e) in
      (λ _. ground arith, occupied-each p requests day session (ground arith))
]

-- A day in the range of the plan, and a request that is not looked at for its range.
existing_or_outside :
    (employee_id : ℕ) (first last day : Date) (session : LeaveDaySession) (r : LeaveRequest)
    → IsInRange r
    → between first last day ≡ true
    → (r.employee_id == employee_id && is_active r.status) ≡ true
    → (is_existing employee_id first last r ≡ true → conflicts (sessions_on day r) session ≡ false)
    → conflicts (sessions_on day r) session ≡ false
existing_or_outside employee_id first last day session r in_range inside live looked =
    elim (Bool-cases (between r.start_date r.end_date day)) [
      | inl held ↦ looked (ground arith)
      | inr free ↦ rw (sessions_on-outside day r in_range free) refl
    ]

module _ (employee_id : ℕ) (first last : Date) (requests : List LeaveRequest)
    (in_range : All IsInRange requests) where
  -- The requests of the employee have no session on the day that conflicts with one of the plan.
  pub any_conflict-each :
      (planned : List LeaveDayPlan)
      → All (λ (d : LeaveDayPlan). between first last d.date ≡ true) planned
      → any_conflict (filter (is_existing employee_id first last) requests) planned ≡ false
      → (day : Date)
      → All
          (λ r.
            (r.employee_id == employee_id && is_active r.status) ≡ true
            → any_pair (sessions_on day r) (day_sessions day planned) ≡ false)
          requests
  unfolding any_conflict
  any_conflict-each [] inside free day = All-weaken (λ r _ _. refl) requests in_range
  any_conflict-each (d ∷ planned) inside free day =
      let looked_at = filter (is_existing employee_id first last) requests in
      let here : conflicts (occupied looked_at d.date) d.session ≡ false = ground arith in
      let later : any_conflict looked_at planned ≡ false = ground arith in
      let rest = any_conflict-each planned inside.1 later day in
      elim (Bool-cases (date_eq d.date day)) [
        | inr other ↦ rw other rest
        | inl e ↦
            let same : d.date ≡ day = ground arith in
            let each =
              occupied-each (is_existing employee_id first last) requests d.date d.session here in
            rw e (
              All-weaken
                (λ r h live.
                  let free_here =
                    existing_or_outside employee_id first last d.date d.session r h.0.0 inside.0
                      live h.0.1 in
                  ground (arith, rw same at free_here, h.1 live))
                requests (All-both _ _ requests (All-both _ _ requests in_range each) rest))
      ]

-- A request that the check lets through is apart from every other.
pub HasNoConflict-append :
    (requests : List LeaveRequest) (new : LeaveRequest)
    → ((day : Date)
        → All
            (λ r.
              (r.employee_id == new.employee_id && is_active r.status) ≡ true
              → any_pair (sessions_on day r) (sessions_on day new) ≡ false)
            requests)
    → HasNoConflict requests
    → HasNoConflict (requests ++ new ∷ [])
HasNoConflict-append [] new free h = (tt, tt)
HasNoConflict-append (r ∷ requests) new free h = (
  All-append (IsApart r) requests (new ∷ []) h.0 (λ day. ground (arith, (free day).0), tt),
  HasNoConflict-append requests new (λ day. (free day).1) h.1,
)

-- A change of the status that makes no request live.
abbrev pub NeverRevives : ℕ → RequestStatus → LeaveRequest → Type 0
NeverRevives id status r = (r.id == id) ≡ true → is_active status ≡ true → is_active r.status ≡ true

module _ (id : ℕ) (status : RequestStatus) where
  set_status-IsApart :
      (a b : LeaveRequest)
      → (is_active status ≡ true → is_active b.status ≡ true)
      → IsApart a b
      → IsApart a (set_status status b)
  unfolding sessions_on
  set_status-IsApart a b revive h day = ground (arith, h day)

  set_status-IsApart_first :
      (a b : LeaveRequest)
      → (is_active status ≡ true → is_active a.status ≡ true)
      → IsApart a b
      → IsApart (set_status status a) b
  unfolding sessions_on
  set_status-IsApart_first a b revive h day = ground (arith, h day)

  update-All :
      (a : LeaveRequest) (requests : List LeaveRequest)
      → All (NeverRevives id status) requests
      → All (IsApart a) requests
      → All (IsApart a) (update_by request_id_of id (set_status status) requests)
  update-All a [] k h = tt
  update-All a (b ∷ requests) k h = elim (Bool-cases (b.id == id)) [
    | inl e ↦ rw e (set_status-IsApart a b (k.0 e) h.0, update-All a requests k.1 h.1)
    | inr e ↦ rw e (h.0, update-All a requests k.1 h.1)
  ]

  pub HasNoConflict-update :
      (requests : List LeaveRequest)
      → All (NeverRevives id status) requests
      → HasNoConflict requests
      → HasNoConflict (update_by request_id_of id (set_status status) requests)
  HasNoConflict-update [] k h = tt
  HasNoConflict-update (b ∷ requests) k h =
      let rest = HasNoConflict-update requests k.1 h.1 in
      elim (Bool-cases (b.id == id)) [
        | inr e ↦ rw e (update-All b requests k.1 h.0, rest)
        | inl e ↦ rw e (
          All-weaken (λ c apart. set_status-IsApart_first b c (k.0 e) apart)
              (update_by request_id_of id (set_status status) requests)
              (update-All b requests k.1 h.0),
          rest,
        )
      ]
