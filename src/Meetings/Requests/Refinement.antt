-- ===== src/Meetings/Requests/Refinement.antt =====
-- The requests of src/modules/meetings/meeting.service.ts as steps of a calendar.
use workforce_app_backend.Common.{
  ℕ, ◌≤◌, ◌<◌, ◌≡◌, refl, true, false, not, ◌&&◌, none, some, List, [], ◌∷◌, arith, any, any-append,
  ◌==◌, inl, inr, Bool-cases,
}
use workforce_app_backend.Common.Result.{ok}
use workforce_app_backend.Common.Table.{find_by, update_by}
use workforce_app_backend.Common.Table.Keys.{All-update_by}
use workforce_app_backend.Meetings.{Booking, Store, booking_id_of, clashes, is_booked}
use workforce_app_backend.Meetings.Busy.{HasWindow, covers, busy, busy-update, free_window}
use workforce_app_backend.Meetings.Bookings.{cancel_row, move_row}
use workforce_app_backend.Meetings.Sound.{IsSound}
use workforce_app_backend.Meetings.Requests.{Request, handle, CalendarStep, within}
use workforce_app_backend.Meetings.Requests.Effect.{Effect, handle-Effect}

-- The instants of a live booking are those of its window.
covers-within :
    (b : Booking) (room t : ℕ)
    → is_booked b.status ≡ true
    → covers room t b ≡ within b.room_id b.starts_at b.ends_at room t
covers-within b room t live = ground arith

busy_where_covers :
    (bookings : List Booking) (id room t : ℕ) {b : Booking}
    → find_by booking_id_of id bookings ≡ some b
    → covers room t b ≡ true
    → busy bookings room t ≡ true
busy_where_covers [] id room t found c = absurd (ground arith)
busy_where_covers (a ∷ bookings) id room t {b} found c = elim (Bool-cases (a.id == id)) [
  | inl same ↦ let here : a ≡ b = ground (arith, same) in rw here (ground (arith, c))
  | inr other ↦
      ground (arith, busy_where_covers bookings id room t {b = b} (ground (arith, other)) c)
]

-- A booking that is left out of the table leaves the window of the others.
clashes-exclude :
    (bookings : List Booking) (now user id room from to : ℕ)
    → any (clashes room from to (some id)) bookings ≡ false
    → any (clashes room from to none) (update_by booking_id_of id (cancel_row now user) bookings)
      ≡ false
clashes-exclude [] now user id room from to h = refl
clashes-exclude (b ∷ bookings) now user id room from to h =
    ground (arith, clashes-exclude bookings now user id room from to)

-- A window that clashes with no other booking is free but for the booking that moves.
free_but_for :
    (db : Store) (now user id room from to : ℕ) {current : Booking}
    → IsSound db
    → find_by booking_id_of id db.bookings ≡ some current
    → from < to
    → any (clashes room from to (some id)) db.bookings ≡ false
    → (t : ℕ) → from ≤ t
    → t < to
    → (busy db.bookings room t && not (covers room t current)) ≡ false
free_but_for db now user id room from to {current} sound found positive free t after before =
    let without = update_by booking_id_of id (cancel_row now user) db.bookings in
    let windows =
      All-update_by HasWindow booking_id_of id (cancel_row now user) db.bookings (λ b w. w)
        sound.windows in
    let unused =
      (free_window without room from to positive windows).0
        (clashes-exclude db.bookings now user id room from to free) t after before in
    let changed =
      busy-update id (cancel_row now user) db.bookings room t {current = current} sound.distinct
        sound.no_clash found in
    ground arith

Effect-CalendarStep :
    {db after : Store}
    → IsSound db
    → Effect db after
    → CalendarStep (busy db.bookings) (busy after.bookings)
Effect-CalendarStep {db} {after} sound (Effect.unchanged same next) =
    CalendarStep.kept (λ room t. rw same refl)
Effect-CalendarStep {db} {after} sound (Effect.added b same next id live bounds free) =
    let positive : b.starts_at < b.ends_at = omega arith in
    CalendarStep.taken b.room_id b.starts_at b.ends_at positive
      ((free_window db.bookings b.room_id b.starts_at b.ends_at positive sound.windows).0 free)
      (λ room t. rw same (
        ground
          (arith, any-append (covers room t) db.bookings (b ∷ []), covers-within b room t live)))
Effect-CalendarStep {db} {after} sound (Effect.dropped now user id current same next found live) =
    CalendarStep.freed current.room_id current.starts_at current.ends_at
      (λ t from to.
        busy_where_covers db.bookings id current.room_id t {b = current} found
          (ground (arith, live)))
      (λ room t.
        let changed =
          busy-update id (cancel_row now user) db.bookings room t {current = current} sound.distinct
            sound.no_clash found in
        rw same (ground (arith, changed, covers-within current room t live)))
Effect-CalendarStep {db} {after} sound
      (Effect.shifted now id input window place current same next found live bounds free) =
    let positive : window.0 < window.1 = omega arith in
    CalendarStep.moved current.room_id current.starts_at current.ends_at place.0 window.0 window.1
      positive
      (λ t from to.
        busy_where_covers db.bookings id current.room_id t {b = current} found
          (ground (arith, live)))
      (λ t from to. ground (
        arith,
        free_but_for db now id id place.0 window.0 window.1 {current = current} sound found positive
            free t from to,
        covers-within current place.0 t live,
      ))
      (λ room t.
        let changed =
          busy-update id (move_row now input window place) db.bookings room t {current = current}
            sound.distinct sound.no_clash found in
        rw same (ground (arith, changed, live, covers-within current room t live)))

-- On a store that is well formed, a request that succeeds is a step of the calendar of the rooms:
-- it changes nothing, takes a window that is free at all of its instants, frees a window that is
-- taken, or moves one to a window that is free but for the one that it leaves.
pub handle-CalendarStep :
    (now : ℕ) (request : Request) (db : Store) {after : Store}
    → IsSound db
    → handle now request db ≡ ok after
    → CalendarStep (busy db.bookings) (busy after.bookings)
handle-CalendarStep now request db sound returned =
    Effect-CalendarStep sound (handle-Effect now request db sound returned)
