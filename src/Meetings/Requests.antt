-- ===== src/Meetings/Requests.antt =====
-- The requests of src/modules/meetings/meeting.service.ts that change a table, run one after another,
-- and the calendar of the rooms that they implement.
pub mod Effect
pub mod Invariant
pub mod Refinement
use workforce_app_backend.Common.{
  ℕ, ◌+◌, ◌≤◌, ◌<◌, ◌≡◌, Bool, true, false, not, ◌&&◌, ◌||◌, none, List, ◌==◌, ltb, leb,
}
use workforce_app_backend.Common.Result.{Result, ok}
use workforce_app_backend.Shared.Tenancy.{AuthContext}
use workforce_app_backend.Meetings.{Store}
use workforce_app_backend.Meetings.Bookings.{
  BookingInput, RescheduleInput, create_booking, cancel_own, admin_cancel, reschedule,
}
use workforce_app_backend.Meetings.Rooms.{RoomInput, RoomChange, create_room, update_room}

pub data Request : Type 0 where
  create : AuthContext → BookingInput → Request
  cancel : AuthContext → (id : ℕ) → Request
  cancel_as_admin : (organization_id user id actor : ℕ) → Request
  move : (organization_id actor id : ℕ) → RescheduleInput → Request
  add_room : (organization_id user : ℕ) → RoomInput → Request
  change_room : (organization_id user id : ℕ) → RoomChange → Request

unfoldable pub handle : ℕ → Request → Store → Result Store
unfolding create_booking cancel_own admin_cancel reschedule create_room update_room
handle now (create auth input) db = create_booking now auth input db
handle now (cancel auth id) db = cancel_own now auth id db
handle now (cancel_as_admin organization_id user id actor) db =
    admin_cancel now organization_id user id actor db
handle now (move organization_id actor id input) db =
    reschedule now organization_id actor id input db
handle now (add_room organization_id user input) db = create_room organization_id user input db
handle now (change_room organization_id user id input) db =
    update_room organization_id user id input db

-- The stores that requests lead to, in any order, at any times, each run to its end.
pub data Reach (first : Store) : Store → Type 0 where
  start : Reach first first
  later :
      {db after : Store} (now : ℕ) (request : Request)
      → Reach first db
      → handle now request db ≡ ok after
      → Reach first after

-- The abstract calendar: whether a room is taken at an instant.
abbrev pub Calendar : Type 0
Calendar = ℕ → ℕ → Bool

abbrev pub within : (place from to room t : ℕ) → Bool
within place from to room t = (room == place) && leb from t && ltb t to

-- What a request may do to the calendar: nothing, take a window that is free, free one that is
-- taken, or both, where the window that is freed counts as free.
pub data CalendarStep (before after : Calendar) : Type 0 where
  kept : ((room t : ℕ) → after room t ≡ before room t) → CalendarStep before after
  taken :
      (place from to : ℕ)
      → from < to
      → ((t : ℕ) → from ≤ t → t < to → before place t ≡ false)
      → ((room t : ℕ) → after room t ≡ (before room t || within place from to room t))
      → CalendarStep before after
  freed :
      (place from to : ℕ)
      → ((t : ℕ) → from ≤ t → t < to → before place t ≡ true)
      → ((room t : ℕ) → after room t ≡ (before room t && not (within place from to room t)))
      → CalendarStep before after
  moved :
      (old_place old_from old_to place from to : ℕ)
      → from < to
      → ((t : ℕ) → old_from ≤ t → t < old_to → before old_place t ≡ true)
      → ((t : ℕ)
          → from ≤ t
          → t < to
          → (before place t && not (within old_place old_from old_to place t)) ≡ false)
      → ((room t : ℕ)
          → after room t ≡ (
              (before room t && not (within old_place old_from old_to room t))
              || within place from to room t))
      → CalendarStep before after
