-- ===== src/Meetings/Requests/Effect.antt =====
-- What a request of src/modules/meetings/meeting.service.ts does to the bookings, by cases.
use workforce_app_backend.Common.{
  ℕ, ◌+◌, ◌≤◌, ◌≡◌, refl, true, false, not, none, some, [], ◌∷◌, ◌++◌, any, arith, inl, inr,
  Bool-cases, ◌==◌,
}
use workforce_app_backend.Common.Result.{
  ok, app_error, throw_if, first_step-eq-ok, after_check-eq-ok,
}
use workforce_app_backend.Common.Table.{find_by, update_by}
use workforce_app_backend.Shared.Tenancy.{AuthContext}
use workforce_app_backend.Meetings.{
  Booking, Store, booking_id_of, is_booked, clashes, write_audit, add_notifications, booking_actor,
  load_booking, load_room,
}
use workforce_app_backend.Meetings.Busy.{HasWindow}
use workforce_app_backend.Meetings.Bookings.{
  BookingInput, RescheduleInput, admit, admit_move, book, new_booking, create_booking, cancel_own,
  admin_cancel, reschedule, cancel_row, move_row,
}
use workforce_app_backend.Meetings.Rooms.{
  check_new_room, add_new_room, create_room, check_name, change_old_room, update_room,
}
use workforce_app_backend.Meetings.Sound.{
  IsSound, HasBounds, admit-checked, admit_move-checked, load_booking-found,
}
use workforce_app_backend.Meetings.Requests.{
  Request, create, cancel, cancel_as_admin, move, add_room, change_room, handle,
}

pub data Effect (db after : Store) : Type 0 where
  unchanged : after.bookings ≡ db.bookings → db.next_id ≤ after.next_id → Effect db after
  added :
      (b : Booking)
      → after.bookings ≡ db.bookings ++ b ∷ []
      → after.next_id ≡ db.next_id + 1
      → b.id ≡ db.next_id
      → is_booked b.status ≡ true
      → HasWindow b
      → any (clashes b.room_id b.starts_at b.ends_at none) db.bookings ≡ false
      → Effect db after
  dropped :
      (now user id : ℕ) (current : Booking)
      → after.bookings ≡ update_by booking_id_of id (cancel_row now user) db.bookings
      → after.next_id ≡ db.next_id
      → find_by booking_id_of id db.bookings ≡ some current
      → is_booked current.status ≡ true
      → Effect db after
  shifted :
      (now id : ℕ) (input : RescheduleInput) (window place : ℕ × ℕ) (current : Booking)
      → after.bookings ≡ update_by booking_id_of id (move_row now input window place) db.bookings
      → after.next_id ≡ db.next_id
      → find_by booking_id_of id db.bookings ≡ some current
      → is_booked current.status ≡ true
      → HasBounds window
      → any (clashes place.0 window.0 window.1 (some id)) db.bookings ≡ false
      → Effect db after

create-Effect :
    (now : ℕ) (auth : AuthContext) (input : BookingInput) (db : Store) {after : Store}
    → create_booking now auth input db ≡ ok after
    → Effect db after
unfolding create_booking book write_audit add_notifications
create-Effect now auth input db {after} e =
    let (a, admitted, returned) = first_step-eq-ok (admit now db auth input) _ {value = after} e in
    let (bounds, free) = admit-checked now db auth input admitted in
    Effect.added (new_booking db.next_id input a) (ground arith) (ground arith) refl refl bounds
      free

cancel_own-Effect :
    (now : ℕ) (auth : AuthContext) (id : ℕ) (db : Store) {after : Store}
    → IsSound db
    → cancel_own now auth id db ≡ ok after
    → Effect db after
unfolding cancel_own write_audit
cancel_own-Effect now auth id db {after} sound e =
    let (actor, _, e1) = first_step-eq-ok (booking_actor db auth true) _ {value = after} e in
    let (current, loaded, e2) =
      first_step-eq-ok (load_booking db actor.organization_id id) _ {value = after} e1 in
    let e3 =
      after_check-eq-ok
        (throw_if (not (current.booked_by == actor.user_id)) (app_error 403 "FORBIDDEN")) _
        {value = after} e2 in
    let found = load_booking-found db actor.organization_id id sound.distinct loaded in
    elim (Bool-cases (is_booked current.status)) [
      | inl live ↦
          Effect.dropped now actor.user_id id current (ground (arith, live)) (ground (arith, live))
            found live
      | inr over ↦ Effect.unchanged (ground (arith, over)) (ground (arith, over))
    ]

admin_cancel-Effect :
    (now organization_id user id actor : ℕ) (db : Store) {after : Store}
    → IsSound db
    → admin_cancel now organization_id user id actor db ≡ ok after
    → Effect db after
unfolding admin_cancel write_audit add_notifications
admin_cancel-Effect now organization_id user id actor db {after} sound e =
    let (current, loaded, e1) =
      first_step-eq-ok (load_booking db organization_id id) _ {value = after} e in
    let found = load_booking-found db organization_id id sound.distinct loaded in
    elim (Bool-cases (is_booked current.status)) [
      | inl live ↦
          Effect.dropped now user id current (ground (arith, live)) (ground (arith, live)) found
            live
      | inr over ↦ Effect.unchanged (ground (arith, over)) (ground (arith, over))
    ]

reschedule-Effect :
    (now organization_id actor id : ℕ) (input : RescheduleInput) (db : Store) {after : Store}
    → IsSound db
    → reschedule now organization_id actor id input db ≡ ok after
    → Effect db after
unfolding reschedule write_audit add_notifications
reschedule-Effect now organization_id actor id input db {after} sound e =
    let (checked, moved, e1) =
      first_step-eq-ok (admit_move db organization_id id input) _ {value = after} e in
    let (current, window, place) = checked in
    let (found, live, bounds, free) =
      admit_move-checked db organization_id id input {current = current} {window = window}
        {place = place} sound.distinct moved in
    Effect.shifted now id input window place current (ground arith) (ground arith) found live bounds
      free

pub handle-Effect :
    (now : ℕ) (request : Request) (db : Store) {after : Store}
    → IsSound db
    → handle now request db ≡ ok after
    → Effect db after
unfolding handle create_room update_room add_new_room change_old_room write_audit
handle-Effect now (create auth input) db sound e = create-Effect now auth input db e
handle-Effect now (cancel auth id) db sound e = cancel_own-Effect now auth id db sound e
handle-Effect now (cancel_as_admin organization_id user id actor) db sound e =
    admin_cancel-Effect now organization_id user id actor db sound e
handle-Effect now (move organization_id actor id input) db sound e =
    reschedule-Effect now organization_id actor id input db sound e
handle-Effect now (add_room organization_id user input) db {after} sound e =
    let added_room = add_new_room organization_id user input db in
    let same : ok added_room ≡ ok after =
      after_check-eq-ok (check_new_room organization_id input db) (ok added_room) e in
    Effect.unchanged (ground arith) (ground arith)
handle-Effect now (change_room organization_id user id input) db {after} sound e =
    let changed_room = change_old_room user id input db in
    let (room, _, e1) = first_step-eq-ok (load_room db organization_id id) _ {value = after} e in
    let same : ok changed_room ≡ ok after =
      after_check-eq-ok (check_name db room input) (ok changed_room) e1 in
    Effect.unchanged (ground arith) (ground arith)
