-- ===== src/Leave/Requests/Life.antt =====
-- The life of the requests of src/modules/leave/leave.service.ts: requests for leave, cancellations and
-- decisions, each run to its end, and views of a request, which accrue leave.
pub mod Effect
pub mod Invariant
use Prim.Native.String.{String}
use workforce_app_backend.Common.{ℕ, ◌+◌, ◌<◌, ◌≡◌, Option, List, All}
use workforce_app_backend.Common.Result.{Result, ok, ◌>>=◌}
use workforce_app_backend.Common.Table.{HasDistinctKeys}
use workforce_app_backend.Calendar.{Date, IsDate}
use workforce_app_backend.Shared.OfficeScope.{OfficeScope}
use workforce_app_backend.Leave.Annual.{LeaveRequest, request_id_of}
use workforce_app_backend.Leave.Requests.{Tables, Verdict, Profile}
use workforce_app_backend.Leave.Requests.Service.{LeaveInput, create, cancel, admin_get, decide}
use workforce_app_backend.Leave.Requests.Apart.{HasNoConflict, IsInRange}

-- The first day of a request is a day of the calendar, as the dates of JavaScript are.
pub data Action : Type 0 where
  ask : (user : ℕ) (input : LeaveInput) → IsDate input.start_date → Action
  withdraw : (user id : ℕ) → Action
  view : (organization_id id : ℕ) → OfficeScope → Action
  settle :
      (organization_id id : ℕ) → Verdict → (reason : Option ℕ) → (admin : ℕ) → OfficeScope → Action

unfoldable pub viewed : Result (Tables × LeaveRequest × Profile) → Result Tables
viewed shown = do (db, _, _) ← shown; ok db

unfoldable pub handle : (today_in_zone : String → Date) → ℕ → Action → Tables → Result Tables
unfolding create cancel admin_get decide viewed
handle today now (ask user input valid) db = create today now user input db
handle today now (withdraw user id) db = cancel user id db
handle today now (view organization_id id scope) db =
    viewed (admin_get today organization_id id scope db)
handle today now (settle organization_id id verdict reason admin scope) db =
    decide today organization_id id verdict reason admin scope db

-- The tables that actions lead to; the day that it is may be another for each.
pub data Reach (first : Tables) : Tables → Type 0 where
  start : Reach first first
  later :
      {db after : Tables} (today : String → Date) (now : ℕ) (action : Action)
      → Reach first db
      → handle today now action db ≡ ok after
      → Reach first after

-- Well-formed tables of requests.
pub record HasSoundRequests (db : Tables) : Type 0 where
  pub distinct : HasDistinctKeys request_id_of db.annual.requests
  pub old_ids : All (λ (r : LeaveRequest). r.id < db.annual.next_id) db.annual.requests
  pub in_range : All IsInRange db.annual.requests
  pub no_conflict : HasNoConflict db.annual.requests
