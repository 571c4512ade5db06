-- ===== src/Meetings.antt =====
-- Meeting rooms and their bookings: src/modules/meetings/meeting.service.ts. The tables, who may book
-- where, and the checks of a booking. Instants are milliseconds; the text of notifications is left out.
pub mod Rooms
pub mod Bookings
pub mod Busy
pub mod Sound
pub mod Requests
pub mod Race
mod Tests
use Prim.Native.String.{String}
use workforce_app_backend.Common.{
  ℕ, ◌+◌, ◌-◌, ◌*◌, Bool, true, false, not, ◌&&◌, Option, none, some, List, [], ◌∷◌, ◌++◌, ◌==◌,
  ltb, leb, any, find, filter, map, includes, is_empty, get_or, if◌then◌else◌, nonempty_text,
}
use workforce_app_backend.Common.Result.{
  Result, ok, err, app_error, or_throw, throw_if, ◌>>=◌, ◌>>◌,
}
use workforce_app_backend.Shared.Tenancy.{AuthContext, is_org_admin, is_office_admin}

pub record Room : Type 0 where
  pub id : ℕ
  pub organization_id : ℕ
  pub office_id : ℕ
  pub name : ℕ
  pub location : Option ℕ
  pub capacity : ℕ
  pub amenities : List ℕ
  pub is_active : Bool

pub data BookingStatus : Type 0 where
  booked cancelled : BookingStatus

pub record Booking : Type 0 where
  pub id : ℕ
  pub organization_id : ℕ
  pub office_id : ℕ
  pub room_id : ℕ
  pub booked_by : ℕ
  pub organizer : Option ℕ
  pub title : ℕ
  pub notes : Option ℕ
  pub starts_at : ℕ
  pub ends_at : ℕ
  pub status : BookingStatus
  pub cancelled_at : Option ℕ
  pub cancelled_by : Option ℕ
  pub rescheduled_at : Option ℕ

pub data Action : Type 0 where
  meeting_booked meeting_cancelled meeting_rescheduled room_created room_updated : Action

pub record AuditRow : Type 0 where
  pub actor : ℕ
  pub action : Action
  pub entity_id : ℕ

pub record Notification : Type 0 where
  pub user_id : ℕ
  pub type : Action
  pub related_id : ℕ

pub record Office : Type 0 where
  pub id : ℕ
  pub organization_id : ℕ

pub record Employee : Type 0 where
  pub id : ℕ
  pub user_id : ℕ
  pub office_id : Option ℕ

-- `org_admins` has the active administrators of an organisation, by organisation and user.
pub record Store : Type 0 where
  pub offices : List Office
  pub employees : List Employee
  pub org_admins : List (ℕ × ℕ)
  pub rooms : List Room
  pub bookings : List Booking
  pub audit : List AuditRow
  pub notifications : List Notification
  pub next_id : ℕ

abbrev pub booking_id_of : Booking → ℕ
booking_id_of b = b.id

abbrev pub room_id_of : Room → ℕ
room_id_of r = r.id

abbrev pub is_booked : BookingStatus → Bool
is_booked booked = true
is_booked cancelled = false

unfoldable pub write_audit : Store → ℕ → Action → ℕ → Store
write_audit db actor action entity = record db {
  audit = db.audit ++ record { actor = actor; action = action; entity_id = entity } ∷ [];
}

unfoldable pub add_notifications : Store → Action → ℕ → List ℕ → Store
add_notifications db type related users = record db {
  notifications =
      db.notifications
      ++ map (λ user. record { user_id = user; type = type; related_id = related }) users;
}

unfoldable pub org_admin_user_ids : Store → ℕ → List ℕ
org_admin_user_ids db organization_id =
    map (λ (a : ℕ × ℕ). a.1) (filter (λ (a : ℕ × ℕ). a.0 == organization_id) db.org_admins)

-- `allowed` is null for an administrator of the organisation.
pub record Actor : Type 0 where
  pub user_id : ℕ
  pub organization_id : ℕ
  pub employee : Option Employee
  pub allowed : Option (List ℕ)

abbrev office_of : Option Employee → List ℕ
office_of none = []
office_of (some e) = elim (nonempty_text e.office_id) [ none ↦ [] | some office ↦ office ∷ [] ]

unfoldable pub allowed_office_ids : AuthContext → Option Employee → Option (List ℕ)
unfolding is_org_admin is_office_admin
allowed_office_ids auth employee =
    if is_org_admin (some auth)
    then none
    else if is_office_admin (some auth)
    then some (get_or auth.office_ids [])
    else some (office_of employee)

-- `allowed && !allowed.length`
abbrev pub has_no_office : Option (List ℕ) → Bool
has_no_office none = false
has_no_office (some offices) = is_empty offices

unfoldable pub booking_actor : Store → AuthContext → (require_office : Bool) → Result Actor
unfolding allowed_office_ids
booking_actor db auth require_office = do
  organization_id ←
      or_throw (nonempty_text auth.organization_id) (app_error 403 "ORG_CONTEXT_REQUIRED")
  let employee = find (λ (e : Employee). e.user_id == auth.user_id) db.employees in
      let allowed = allowed_office_ids auth employee in
      throw_if (require_office && has_no_office allowed) (app_error 403 "NO_OFFICE_ASSIGNMENT")
      >> ok (record {
        user_id = auth.user_id;
        organization_id = organization_id;
        employee = employee;
        allowed = allowed;
      })

abbrev is_outside : Option (List ℕ) → ℕ → Bool
is_outside none office = false
is_outside (some offices) office = not (includes offices office)

unfoldable pub assert_can_book_office : Option (List ℕ) → ℕ → Result (Unit {0})
assert_can_book_office allowed office =
    throw_if (is_outside allowed office) (app_error 403 "OFFICE_FORBIDDEN")

abbrev pub min_minutes : ℕ
min_minutes = 15

abbrev pub max_minutes : ℕ
max_minutes = 8 * 60

abbrev check_window : ℕ → ℕ → Result (Unit {0})
check_window start stop =
    throw_if (leb stop start) (app_error 400 "INVALID_TIME")
    >> throw_if (ltb (stop - start) (min_minutes * 60000)) (app_error 400 "INVALID_DURATION")
    >> throw_if (ltb (max_minutes * 60000) (stop - start)) (app_error 400 "INVALID_DURATION")

-- An invalid date is none; the dates that are valid are passed on.
unfoldable pub assert_valid_window : Option ℕ → Option ℕ → Result (ℕ × ℕ)
assert_valid_window (some start) (some stop) = check_window start stop >> ok (start, stop)
assert_valid_window _ _ = err (app_error 400 "INVALID_TIME")

-- `where: { roomId, status: "BOOKED", id: { not: excludeId }, startsAt: { lt }, endsAt: { gt } }`
abbrev pub clashes : ℕ → ℕ → ℕ → Option ℕ → Booking → Bool
clashes room start stop exclude b =
    b.room_id == room
    && is_booked b.status
    && not (is_excluded exclude b.id)
    && ltb b.starts_at stop
    && ltb start b.ends_at
  where
    is_excluded : Option ℕ → ℕ → Bool
    is_excluded none id = false
    is_excluded (some excluded) id = id == excluded

unfoldable pub assert_no_overlap : Store → ℕ → ℕ → ℕ → Option ℕ → Result (Unit {0})
assert_no_overlap db room start stop exclude =
    throw_if (any (clashes room start stop exclude) db.bookings) (app_error 409 "ROOM_UNAVAILABLE")

unfoldable pub load_room : Store → (organization_id room : ℕ) → Result Room
load_room db organization_id room =
    or_throw
      (find (λ (r : Room). (r.id == room) && (r.organization_id == organization_id)) db.rooms)
      (app_error 404 "ROOM_NOT_FOUND")

-- `findFirst({ where: { id, organizationId } })`
unfoldable pub load_booking : Store → (organization_id id : ℕ) → Result Booking
load_booking db organization_id id =
    or_throw
      (find (λ (b : Booking). (b.id == id) && (b.organization_id == organization_id)) db.bookings)
      (app_error 404 "BOOKING_NOT_FOUND")
