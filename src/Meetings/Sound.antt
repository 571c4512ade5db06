-- ===== src/Meetings/Sound.antt =====
-- The well-formed stores of src/modules/meetings/meeting.service.ts, and what the checks of a request
-- say of its booking.
use workforce_app_backend.Common.{
  ℕ, ◌+◌, ◌*◌, ◌≤◌, ◌<◌, ◌≡◌, refl, true, false, not, Option, none, some, All, arith, any, ◌==◌,
  get_or, ◌↔◌,
}
use workforce_app_backend.Common.Result.{
  Result, ok, first_step-eq-ok, after_check-eq-ok, check-eq-ok, throw_if-eq-ok, or_throw-eq-ok,
  app_error, throw_if, ◌>>◌,
}
use workforce_app_backend.Common.Table.{find_by, HasDistinctKeys}
use workforce_app_backend.Common.Table.Keys.{find_by-find_both}
use workforce_app_backend.Shared.Tenancy.{AuthContext}
use workforce_app_backend.Meetings.{
  Booking, Room, Actor, Store, booking_id_of, is_booked, clashes, assert_valid_window,
  booking_actor, assert_no_overlap, load_booking, assert_can_book_office,
}
use workforce_app_backend.Meetings.Busy.{HasNoClash, HasWindow, busy, free_window}
use workforce_app_backend.Meetings.Bookings.{
  BookingInput, RescheduleInput, Admission, admit, admit_room, admit_window, load_open_slot,
  admit_move, chosen_room, Move, move_to, move_free, new_window,
}

pub record IsSound (db : Store) : Type 0 where
  pub distinct : HasDistinctKeys booking_id_of db.bookings
  pub old_ids : All (λ b. b.id < db.next_id) db.bookings
  pub windows : All HasWindow db.bookings
  pub no_clash : HasNoClash db.bookings

abbrev pub HasBounds : ℕ × ℕ → Type 0
HasBounds w = (w.0 + 15 * 60000 ≤ w.1) × (w.1 ≤ w.0 + 480 * 60000)

-- A window that is accepted is at least a quarter of an hour long and at most eight hours.
pub window_bounds :
    (from to : Option ℕ) {w : ℕ × ℕ} → assert_valid_window from to ≡ ok w → HasBounds w
unfolding assert_valid_window
window_bounds (some a) (some b) e = ground arith
window_bounds (some a) none e = ground arith
window_bounds none to e = ground arith

pub load_booking-found :
    (db : Store) (organization_id id : ℕ) {b : Booking}
    → HasDistinctKeys booking_id_of db.bookings
    → load_booking db organization_id id ≡ ok b
    → find_by booking_id_of id db.bookings ≡ some b
unfolding load_booking
load_booking-found db organization_id id {b} d e =
    find_by-find_both booking_id_of id (λ b. b.organization_id == organization_id) db.bookings
      {r = b} d (or_throw-eq-ok _ (app_error 404 "BOOKING_NOT_FOUND") e)

room_checked :
    (db : Store) (actor : Actor) (window : ℕ × ℕ) (room : Room) {a : Admission}
    → admit_room db actor window room ≡ ok a
    → (a ≡ record { actor = actor; room = room; window = window })
      × (any (clashes room.id window.0 window.1 none) db.bookings ≡ false)
unfolding admit_room assert_no_overlap
room_checked db actor window room {a} e =
    let early =
      throw_if (not room.is_active) (app_error 400 "ROOM_INACTIVE")
      >> assert_can_book_office actor.allowed room.office_id in
    let clash = any (clashes room.id window.0 window.1 none) db.bookings in
    let last = throw_if clash (app_error 409 "ROOM_UNAVAILABLE") in
    let returned : Result Admission = ok (record { actor = actor; room = room; window = window }) in
    let returned_a = after_check-eq-ok (early >> last) returned e in
    let passed = check-eq-ok (early >> last) returned e in
    (
      ground arith,
      throw_if-eq-ok clash (app_error 409 "ROOM_UNAVAILABLE") (after_check-eq-ok early last passed),
    )

-- What was checked of a booking before its transaction.
pub admit-checked :
    (now : ℕ) (db : Store) (auth : AuthContext) (input : BookingInput) {a : Admission}
    → admit now db auth input ≡ ok a
    → HasBounds a.window × (any (clashes a.room.id a.window.0 a.window.1 none) db.bookings ≡ false)
unfolding admit admit_window
admit-checked now db auth input {a} e =
    let (actor, actor_ok, e1) = first_step-eq-ok (booking_actor db auth true) _ {value = a} e in
    let (window, window_ok, e2) =
      first_step-eq-ok (assert_valid_window input.starts_at input.ends_at)
        (admit_window now db input actor) {value = a} e1 in
    let (room, room_ok, e3) =
      first_step-eq-ok (load_open_slot now db actor input window) (admit_room db actor window)
        {value = a} e2 in
    let (same, free) = room_checked db actor window room e3 in
    rw same (window_bounds input.starts_at input.ends_at window_ok, free)

window_checked :
    (input : RescheduleInput) (current : Booking) {window : ℕ × ℕ}
    → new_window input current ≡ ok window
    → (is_booked current.status ≡ true) × HasBounds window
window_checked input current {window} e =
    let live = throw_if (not (is_booked current.status)) (app_error 409 "BOOKING_CANCELLED") in
    let from = get_or input.starts_at (some current.starts_at) in
    let to = get_or input.ends_at (some current.ends_at) in
    let passed = check-eq-ok live (assert_valid_window from to) {value = window} e in
    let opened = after_check-eq-ok live (assert_valid_window from to) {value = window} e in
    (
      ground (arith, throw_if-eq-ok _ (app_error 409 "BOOKING_CANCELLED") passed),
      window_bounds from to opened,
    )

move_checked :
    (db : Store) (id : ℕ) (row current : Booking) (span window there place : ℕ × ℕ)
    → move_free db id row span there ≡ ok (current, window, place)
    → (row ≡ current)
      × (span ≡ window)
      × (there ≡ place)
      × (any (clashes there.0 span.0 span.1 (some id)) db.bookings ≡ false)
unfolding assert_no_overlap
move_checked db id row current span window there place e =
    let free = assert_no_overlap db there.0 span.0 span.1 (some id) in
    let returned : Result Move = ok (row, span, there) in
    let same = after_check-eq-ok free returned e in
    (
      ground arith,
      ground arith,
      ground arith,
      throw_if-eq-ok _ (app_error 409 "ROOM_UNAVAILABLE") (check-eq-ok free returned e),
    )

-- What was checked of a booking before it moves.
pub admit_move-checked :
    (db : Store) (organization_id id : ℕ) (input : RescheduleInput) {current : Booking}
    {window place : ℕ × ℕ}
    → HasDistinctKeys booking_id_of db.bookings
    → admit_move db organization_id id input ≡ ok (current, window, place)
    → (find_by booking_id_of id db.bookings ≡ some current)
      × (is_booked current.status ≡ true)
      × HasBounds window
      × (any (clashes place.0 window.0 window.1 (some id)) db.bookings ≡ false)
unfolding admit_move
admit_move-checked db organization_id id input {current} {window} {place} d e =
    let value : Move = (current, window, place) in
    let (row, row_ok, e1) =
      first_step-eq-ok (load_booking db organization_id id) _ {value = value} e in
    let (span, span_ok, e2) =
      first_step-eq-ok (new_window input row) (move_to db organization_id id input row)
        {value = value} e1 in
    let (there, there_ok, e3) =
      first_step-eq-ok (chosen_room db organization_id row input.room_id) (move_free db id row span)
        {value = value} e2 in
    let (same, same_span, same_place, free) =
      move_checked db id row current span window there place e3 in
    let (live, bounds) = window_checked input row span_ok in
    let found = load_booking-found db organization_id id d row_ok in
    (rw same at found, rw same at live, rw same_span at bounds, rw (same_span, same_place) at free)

-- Where the bookings have windows, a window is accepted for a room exactly if the room is free at
-- all of its instants.
pub assert_no_overlap_iff :
    (db : Store) (room start stop : ℕ)
    → start < stop
    → All HasWindow db.bookings
    → (assert_no_overlap db room start stop none ≡ ok tt)
      ↔ ((t : ℕ) → start ≤ t → t < stop → busy db.bookings room t ≡ false)
unfolding assert_no_overlap
assert_no_overlap_iff db room start stop positive windows =
    let (to_free, of_free) = free_window db.bookings room start stop positive windows in
    (
      λ passed. to_free (throw_if-eq-ok _ (app_error 409 "ROOM_UNAVAILABLE") passed),
      λ free. rw (of_free free) refl,
    )
