-- ===== src/Meetings/Bookings.antt =====
-- `createBooking`, `cancelOwn`, `reschedule`, `adminCancel` and `availability` of
-- src/modules/meetings/meeting.service.ts. A booking request is split into its checks (`admit`) and
-- its transaction (`book`), since the overlap is looked for before the transaction.
use workforce_app_backend.Common.{
  ℕ, ◌+◌, Bool, true, not, Option, none, some, List, [], ◌∷◌, ◌++◌, ◌==◌, ltb, filter, map, get_or,
  if◌then◌else◌, nonempty_text,
}
use workforce_app_backend.Common.Result.{Result, ok, app_error, or_throw, throw_if, ◌>>=◌, ◌>>◌}
use workforce_app_backend.Common.Table.{update_by, order_by}
use workforce_app_backend.Shared.Tenancy.{AuthContext}
use workforce_app_backend.Meetings.{
  Room, booked, cancelled, Booking, meeting_booked, meeting_cancelled, meeting_rescheduled,
  Employee, Store, Actor, booking_id_of, is_booked, write_audit, add_notifications,
  org_admin_user_ids, booking_actor, assert_can_book_office, assert_valid_window, clashes,
  assert_no_overlap, load_room, load_booking,
}

pub record BookingInput : Type 0 where
  pub room_id : ℕ
  pub title : ℕ
  pub notes : Option ℕ
  pub starts_at : Option ℕ
  pub ends_at : Option ℕ

-- What the checks of `createBooking` pass on to its transaction.
pub record Admission : Type 0 where
  pub actor : Actor
  pub room : Room
  pub window : ℕ × ℕ

unfoldable pub admit_room : Store → Actor → ℕ × ℕ → Room → Result Admission
unfolding assert_no_overlap
admit_room db actor window room =
    throw_if (not room.is_active) (app_error 400 "ROOM_INACTIVE")
    >> assert_can_book_office actor.allowed room.office_id
    >> assert_no_overlap db room.id window.0 window.1 none
    >> ok (record { actor = actor; room = room; window = window })

unfoldable pub load_open_slot : ℕ → Store → Actor → BookingInput → ℕ × ℕ → Result Room
load_open_slot now db actor input window =
    throw_if (ltb (window.0 + 60000) now) (app_error 400 "PAST_SLOT")
    >> load_room db actor.organization_id input.room_id

unfoldable pub admit_window : ℕ → Store → BookingInput → Actor → ℕ × ℕ → Result Admission
admit_window now db input actor window = do
  room ← load_open_slot now db actor input window
  admit_room db actor window room

unfoldable pub admit : ℕ → Store → AuthContext → BookingInput → Result Admission
unfolding admit_window
admit now db auth input = do
  actor ← booking_actor db auth true
  window ← assert_valid_window input.starts_at input.ends_at
  admit_window now db input actor window

abbrev employee_id : Option Employee → Option ℕ
employee_id none = none
employee_id (some e) = some e.id

abbrev pub new_booking : ℕ → BookingInput → Admission → Booking
new_booking id input a = record {
  id = id;
  organization_id = a.actor.organization_id;
  office_id = a.room.office_id;
  room_id = a.room.id;
  booked_by = a.actor.user_id;
  organizer = employee_id a.actor.employee;
  title = input.title;
  notes = input.notes;
  starts_at = a.window.0;
  ends_at = a.window.1;
  status = booked;
  cancelled_at = none;
  cancelled_by = none;
  rescheduled_at = none;
}

unfoldable pub book : BookingInput → Admission → Store → Store
unfolding write_audit add_notifications
book input a db =
    let id = db.next_id in
    let created = record db {
      bookings = db.bookings ++ new_booking id input a ∷ [];
      next_id = id + 1;
    } in
    let audited = write_audit created a.actor.user_id meeting_booked id in
    add_notifications audited meeting_booked id (
      filter (λ user. not (user == a.actor.user_id))
        (org_admin_user_ids audited a.actor.organization_id))

unfoldable pub create_booking : ℕ → AuthContext → BookingInput → Store → Result Store
unfolding admit
create_booking now auth input db = do a ← admit now db auth input; ok (book input a db)

abbrev pub cancel_row : ℕ → ℕ → Booking → Booking
cancel_row now user b = record b {
  status = cancelled;
  cancelled_at = some now;
  cancelled_by = some user;
}

abbrev pub update_booking : Store → ℕ → (Booking → Booking) → Store
update_booking db id f = record db { bookings = update_by booking_id_of id f db.bookings }

abbrev cancel_booked : (now user id actor : ℕ) → Store → Store
cancel_booked now user id actor db =
    write_audit (update_booking db id (cancel_row now user)) actor meeting_cancelled id

unfoldable pub cancel_own : ℕ → AuthContext → ℕ → Store → Result Store
unfolding write_audit
cancel_own now auth id db = do
  actor ← booking_actor db auth true
  current ← load_booking db actor.organization_id id
  throw_if (not (current.booked_by == actor.user_id)) (app_error 403 "FORBIDDEN")
      >> ok (
          if is_booked current.status
          then cancel_booked now actor.user_id id actor.user_id db
          else db)

-- `actor` is `audit.actorUserId`.
unfoldable pub admin_cancel : ℕ → (organization_id user id actor : ℕ) → Store → Result Store
unfolding write_audit add_notifications
admin_cancel now organization_id user id actor db = do
  current ← load_booking db organization_id id
  ok (
      if is_booked current.status
      then add_notifications (cancel_booked now user id actor db) meeting_cancelled id
          (current.booked_by ∷ [])
      else db)

pub record RescheduleInput : Type 0 where
  pub starts_at : Option (Option ℕ)
  pub ends_at : Option (Option ℕ)
  pub room_id : Option ℕ
  pub title : Option ℕ

-- The room and the office of the booking after the request.
unfoldable pub chosen_room : Store → ℕ → Booking → Option ℕ → Result (ℕ × ℕ)
chosen_room db organization_id current requested = elim (nonempty_text requested) [
  | none ↦ ok (current.room_id, current.office_id)
  | some room ↦ if room == current.room_id then ok (current.room_id, current.office_id) else do
    loaded ← load_room db organization_id room
    throw_if (not loaded.is_active) (app_error 400 "ROOM_INACTIVE")
        >> ok (loaded.id, loaded.office_id)
]

abbrev pub move_row : ℕ → RescheduleInput → (window place : ℕ × ℕ) → Booking → Booking
move_row now input window place b = record b {
  starts_at = window.0;
  ends_at = window.1;
  room_id = place.0;
  office_id = place.1;
  title = get_or input.title b.title;
  rescheduled_at = some now;
}

-- The booking, and its window, room and office to be.
abbrev pub Move : Type 0
Move = Booking × (ℕ × ℕ) × (ℕ × ℕ)

abbrev pub move_free : Store → ℕ → Booking → (window place : ℕ × ℕ) → Result Move
move_free db id current window place =
    assert_no_overlap db place.0 window.0 window.1 (some id) >> ok (current, window, place)

abbrev pub new_window : RescheduleInput → Booking → Result (ℕ × ℕ)
new_window input current =
    throw_if (not (is_booked current.status)) (app_error 409 "BOOKING_CANCELLED")
    >> assert_valid_window (get_or input.starts_at (some current.starts_at))
        (get_or input.ends_at (some current.ends_at))

abbrev pub move_to :
    Store → (organization_id id : ℕ) → RescheduleInput → Booking → ℕ × ℕ → Result Move
move_to db organization_id id input current window = do
  place ← chosen_room db organization_id current input.room_id
  move_free db id current window place

-- The checks of `reschedule`.
unfoldable pub admit_move : Store → (organization_id id : ℕ) → RescheduleInput → Result Move
unfolding assert_no_overlap chosen_room
admit_move db organization_id id input = do
  current ← load_booking db organization_id id
  window ← new_window input current
  move_to db organization_id id input current window

unfoldable pub reschedule :
    ℕ → (organization_id actor id : ℕ) → RescheduleInput → Store → Result Store
unfolding admit_move write_audit add_notifications
reschedule now organization_id actor id input db = do
  (current, window, place) ← admit_move db organization_id id input
  ok (
      add_notifications
        (write_audit (update_booking db id (move_row now input window place)) actor
          meeting_rescheduled id)
        meeting_rescheduled id (current.booked_by ∷ []))

-- A busy time as a user sees it; the title is none where the code writes "Booked".
pub record BusyTime : Type 0 where
  pub id : ℕ
  pub title : Option ℕ
  pub starts_at : ℕ
  pub ends_at : ℕ
  pub mine : Bool

abbrev pub busy_time : ℕ → Booking → BusyTime
busy_time user b = record {
  id = b.id;
  title = if b.booked_by == user then some b.title else none;
  starts_at = b.starts_at;
  ends_at = b.ends_at;
  mine = b.booked_by == user;
}

-- The instants at which the day begins and ends in the room's timezone are luxon's.
unfoldable pub availability :
    (day_of : Room → Option (ℕ × ℕ)) → AuthContext → ℕ → Store → Result (List BusyTime)
availability day_of auth id db = do
  actor ← booking_actor db auth true
  room ← load_room db actor.organization_id id
  day ←
      assert_can_book_office actor.allowed room.office_id
      >> or_throw (day_of room) (app_error 400 "INVALID_DATE")
  ok (
      map (busy_time actor.user_id)
        (order_by (λ b. b.starts_at) (filter (clashes id day.0 day.1 none) db.bookings)))
