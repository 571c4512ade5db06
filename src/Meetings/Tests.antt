-- ===== src/Meetings/Tests.antt =====
-- Bookings of one room, and inputs at which the theorems on bookings apply.
use workforce_app_backend.Common.{
  ℕ, ◌+◌, ◌++◌, ◌≤◌, ◌<◌, ◌≡◌, ◌↔◌, refl, true, false, none, some, [], ◌∷◌, arith,
}
use workforce_app_backend.Common.Result.{ok, err, app_error, Result}
use workforce_app_backend.Shared.Tenancy.{AuthContext, org_admin}
use workforce_app_backend.Meetings.{
  Action, Room, Store, booking_actor, allowed_office_ids, assert_can_book_office,
  assert_valid_window, assert_no_overlap, load_room, load_booking, write_audit, add_notifications,
  org_admin_user_ids,
}
use workforce_app_backend.Meetings.Busy.{busy, HasNoClash, overlaps}
use workforce_app_backend.Meetings.Bookings.{
  BookingInput, Admission, admit, admit_window, admit_room, load_open_slot, book, create_booking,
  reschedule, admit_move, chosen_room, new_booking,
}
use workforce_app_backend.Meetings.Sound.{IsSound, assert_no_overlap_iff}
use workforce_app_backend.Meetings.Requests.{Request, handle, Reach, CalendarStep}
use workforce_app_backend.Meetings.Requests.Invariant.{Reach-IsSound}
use workforce_app_backend.Meetings.Requests.Refinement.{handle-CalendarStep}
use workforce_app_backend.Meetings.Race.{book-book-clash}
use workforce_app_backend.Shared.Tenancy.{is_org_admin, is_office_admin}

abbrev boss : AuthContext
boss = record {
  user_id = 7;
  roles = org_admin ∷ [];
  permissions = [];
  restricted = false;
  organization_id = some 1;
  office_ids = none;
}

abbrev room : Room
room = record {
  id = 3;
  organization_id = 1;
  office_id = 2;
  name = 30;
  location = none;
  capacity = 8;
  amenities = [];
  is_active = true;
}

abbrev empty_store : Store
empty_store = record {
  offices = [];
  employees = [];
  org_admins = (1, 7) ∷ (1, 8) ∷ [];
  rooms = room ∷ [];
  bookings = [];
  audit = [];
  notifications = [];
  next_id = 10;
}

abbrev empty_store-IsSound : IsSound empty_store
empty_store-IsSound = record { distinct = tt; old_ids = tt; windows = tt; no_clash = tt }

-- A minute is 60,000 milliseconds.
abbrev from_to : ℕ → ℕ → BookingInput
from_to start stop = record {
  room_id = 3;
  title = 5;
  notes = none;
  starts_at = some start;
  ends_at = some stop;
}

abbrev admission : ℕ → ℕ → Admission
admission start stop = record {
  actor = record { user_id = 7; organization_id = 1; employee = none; allowed = none };
  room = room;
  window = (start, stop);
}

-- The store after one booking, of half an hour.
abbrev one_booking : Store
one_booking = book (from_to 1800000 3600000) (admission 1800000 3600000) empty_store

module _ where
  abbrev make : Request
  make = Request.create boss (from_to 1800000 3600000)

  abbrev move_later : Request
  move_later = Request.move 1 7 10 (record {
    starts_at = some (some 2700000);
    ends_at = some (some 4500000);
    room_id = none;
    title = none;
  })

made : handle 0 make empty_store ≡ ok one_booking
unfolding handle create_booking admit admit_window admit_room load_open_slot booking_actor
    allowed_office_ids is_org_admin is_office_admin assert_can_book_office assert_valid_window
    assert_no_overlap load_room book write_audit add_notifications org_admin_user_ids
made = refl

refused :
    handle 0 (Request.create boss (from_to 2700000 4500000)) one_booking
    ≡ err (app_error 409 "ROOM_UNAVAILABLE")
unfolding handle create_booking admit admit_window admit_room load_open_slot booking_actor
    allowed_office_ids is_org_admin is_office_admin assert_can_book_office assert_valid_window
    assert_no_overlap load_room book write_audit add_notifications org_admin_user_ids
refused = refl

-- The other administrator is notified.
notified :
    one_booking.notifications
    ≡ record { user_id = 8; type = Action.meeting_booked; related_id = 10 } ∷ []
unfolding book write_audit add_notifications org_admin_user_ids
notified = refl

abbrev moved_store : Store
moved_store = ok_or (handle 1 move_later one_booking)
  where
    ok_or : Result Store → Store
    ok_or (ok db) = db
    ok_or (err _) = one_booking

later_moved : handle 1 move_later one_booking ≡ ok moved_store
unfolding handle reschedule admit_move chosen_room load_booking assert_valid_window
    assert_no_overlap book write_audit add_notifications org_admin_user_ids
later_moved = refl

still_busy :
    (busy moved_store.bookings 3 2000000 ≡ false) × (busy moved_store.bookings 3 4000000 ≡ true)
unfolding handle reschedule admit_move chosen_room load_booking assert_valid_window
    assert_no_overlap book write_audit add_notifications org_admin_user_ids
still_busy = (refl, refl)

abbrev reached : Reach empty_store moved_store
reached = Reach.later 1 move_later (Reach.later 0 make Reach.start made) later_moved

abbrev one_booking-IsSound : IsSound one_booking
one_booking-IsSound = Reach-IsSound empty_store-IsSound (Reach.later 0 make Reach.start made)

Reach-IsSound_example : IsSound moved_store
Reach-IsSound_example = Reach-IsSound empty_store-IsSound reached

handle-CalendarStep_example : CalendarStep (busy one_booking.bookings) (busy moved_store.bookings)
handle-CalendarStep_example =
    handle-CalendarStep 1 move_later one_booking one_booking-IsSound later_moved

assert_no_overlap_iff_example :
    (assert_no_overlap one_booking 3 2700000 4500000 none ≡ ok tt)
    ↔ ((t : ℕ) → 2700000 ≤ t → t < 4500000 → busy one_booking.bookings 3 t ≡ false)
assert_no_overlap_iff_example =
    assert_no_overlap_iff one_booking 3 2700000 4500000 (omega arith) one_booking-IsSound.windows

both_pass :
    (admit 0 empty_store boss (from_to 1800000 3600000) ≡ ok (admission 1800000 3600000))
    × (admit 0 empty_store boss (from_to 2700000 4500000) ≡ ok (admission 2700000 4500000))
unfolding admit admit_window admit_room load_open_slot booking_actor allowed_office_ids is_org_admin
    is_office_admin assert_can_book_office assert_valid_window assert_no_overlap load_room
both_pass = (refl, refl)

abbrev early_half : BookingInput
early_half = from_to 1800000 3600000

abbrev late_half : BookingInput
late_half = from_to 2700000 4500000

abbrev first_pass : Admission
first_pass = admission 1800000 3600000

abbrev second_pass : Admission
second_pass = admission 2700000 4500000

book-book-clash_example :
    let first = new_booking empty_store.next_id early_half first_pass in
    let second = new_booking (empty_store.next_id + 1) late_half second_pass in
    HasNoClash (book early_half first_pass empty_store).bookings
    × HasNoClash (book late_half second_pass empty_store).bookings
    × ((book late_half second_pass (book early_half first_pass empty_store)).bookings
        ≡ empty_store.bookings ++ first ∷ second ∷ [])
    × (overlaps first second ≡ true)
book-book-clash_example =
    book-book-clash 0 0 empty_store boss boss early_half late_half {a = first_pass}
      {b = second_pass} empty_store-IsSound both_pass.0 both_pass.1 refl (omega arith) (omega arith)
