-- ===== src/Meetings/Race.antt =====
-- Two booking requests of src/modules/meetings/meeting.service.ts at the same time: the overlap is
-- looked for before the transaction, so that both checks may come before both transactions.
use workforce_app_backend.Common.{ℕ, ◌+◌, ◌<◌, ◌≡◌, refl, ap, true, List, [], ◌∷◌, ◌++◌, arith}
use workforce_app_backend.Common.Result.{ok}
use workforce_app_backend.Shared.Tenancy.{AuthContext}
use workforce_app_backend.Meetings.{Booking, Store, write_audit, add_notifications}
use workforce_app_backend.Meetings.Busy.{HasNoClash, overlaps, HasNoClash-append}
use workforce_app_backend.Meetings.Sound.{IsSound, admit-checked}
use workforce_app_backend.Meetings.Bookings.{BookingInput, Admission, admit, book, new_booking}

append-twice :
    (bookings : List Booking) (a b : Booking)
    → (bookings ++ a ∷ []) ++ b ∷ [] ≡ bookings ++ a ∷ b ∷ []
append-twice [] a b = refl
append-twice (c ∷ bookings) a b = ap (λ rest. c ∷ rest) (append-twice bookings a b)

-- On a well-formed store, two requests for one room with windows that overlap, whose checks both pass:
-- the transaction of either one alone leaves no clash in the table, but the two, one after the other,
-- add two bookings, both live and in that room, that overlap.
pub book-book-clash :
    (now later : ℕ) (db : Store) (one_user other_user : AuthContext) (one other : BookingInput)
    {a b : Admission}
    → IsSound db
    → admit now db one_user one ≡ ok a
    → admit later db other_user other ≡ ok b
    → a.room.id ≡ b.room.id
    → a.window.0 < b.window.1
    → b.window.0 < a.window.1
    → let first = new_booking db.next_id one a in
      let second = new_booking (db.next_id + 1) other b in
      HasNoClash (book one a db).bookings
      × HasNoClash (book other b db).bookings
      × ((book other b (book one a db)).bookings ≡ db.bookings ++ first ∷ second ∷ [])
      × (overlaps first second ≡ true)
unfolding book write_audit add_notifications
book-book-clash now later db one_user other_user one other {a} {b} sound passed passed_too same
      before after =
    let free = (admit-checked now db one_user one passed).1 in
    let free_too = (admit-checked later db other_user other passed_too).1 in
    (
      HasNoClash-append db.bookings (new_booking db.next_id one a) free sound.no_clash,
      HasNoClash-append db.bookings (new_booking db.next_id other b) free_too sound.no_clash,
      append-twice db.bookings (new_booking db.next_id one a)
          (new_booking (db.next_id + 1) other b),
      ground arith,
    )
