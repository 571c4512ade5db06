-- ===== src/Meetings/Requests/Invariant.antt =====
-- The bookings that a row of requests leaves (src/modules/meetings/meeting.service.ts).
use workforce_app_backend.Common.{
  ℕ, ◌<◌, ◌≡◌, refl, false, some, List, [], ◌∷◌, All, All-append, All-weaken, arith, any,
}
use workforce_app_backend.Common.Table.Keys.{
  HasDistinctKeys-update_by, HasDistinctKeys-append, has_key-next, All-update_by,
}
use workforce_app_backend.Meetings.{Booking, Store, booking_id_of, clashes}
use workforce_app_backend.Meetings.Busy.{
  HasWindow, IsApartFrom, HasNoClash-append, HasNoClash-update,
}
use workforce_app_backend.Meetings.Bookings.{cancel_row, move_row, RescheduleInput}
use workforce_app_backend.Meetings.Sound.{IsSound}
use workforce_app_backend.Meetings.Requests.{Reach}
use workforce_app_backend.Meetings.Requests.Effect.{Effect, handle-Effect}

cancelled_apart :
    (now user id : ℕ) (bookings : List Booking) (a : Booking)
    → All (IsApartFrom id (cancel_row now user a)) bookings
cancelled_apart now user id [] a = tt
cancelled_apart now user id (b ∷ bookings) a =
    (λ _. ground arith, cancelled_apart now user id bookings a)

moved_apart :
    (now id : ℕ) (input : RescheduleInput) (window place : ℕ × ℕ) (bookings : List Booking)
    → any (clashes place.0 window.0 window.1 (some id)) bookings ≡ false
    → (a : Booking) → All (IsApartFrom id (move_row now input window place a)) bookings
moved_apart now id input window place [] free a = tt
moved_apart now id input window place (b ∷ bookings) free a = (
  λ other. ground (arith, other),
  moved_apart now id input window place bookings (ground arith) a,
)

Effect-IsSound : {db after : Store} → IsSound db → Effect db after → IsSound after
Effect-IsSound {db} {after} sound (Effect.unchanged same next) = record {
  distinct = rw same sound.distinct;
  old_ids = rw same (All-weaken (λ b old. omega arith) db.bookings sound.old_ids);
  windows = rw same sound.windows;
  no_clash = rw same sound.no_clash;
}
Effect-IsSound {db} {after} sound (Effect.added b same next id live bounds free) = record {
  distinct = rw same (
      HasDistinctKeys-append booking_id_of db.bookings b
        (rw id (has_key-next booking_id_of db.next_id db.bookings sound.old_ids)) sound.distinct);
  old_ids = rw same (
      All-append (λ c. c.id < after.next_id) db.bookings (b ∷ [])
        (All-weaken (λ c old. omega arith) db.bookings sound.old_ids) (omega arith, tt));
  windows = rw same (All-append HasWindow db.bookings (b ∷ []) sound.windows (bounds, tt));
  no_clash = rw same (HasNoClash-append db.bookings b free sound.no_clash);
}
Effect-IsSound {db} {after} sound (Effect.dropped now user id current same next found live) =
    record {
      distinct = rw same (
          HasDistinctKeys-update_by booking_id_of id (cancel_row now user) db.bookings (λ b. refl)
            sound.distinct);
      old_ids =
          rw (same, next)
            (All-update_by (λ b. b.id < db.next_id) booking_id_of id (cancel_row now user)
              db.bookings (λ b old. old) sound.old_ids);
      windows = rw same (
          All-update_by HasWindow booking_id_of id (cancel_row now user) db.bookings (λ b w. w)
            sound.windows);
      no_clash = rw same (
          HasNoClash-update id (cancel_row now user) db.bookings sound.distinct
            (cancelled_apart now user id db.bookings) sound.no_clash);
    }
Effect-IsSound {db} {after} sound
      (Effect.shifted now id input window place current same next found live bounds free) =
    record {
      distinct = rw same (
          HasDistinctKeys-update_by booking_id_of id (move_row now input window place) db.bookings
            (λ b. refl) sound.distinct);
      old_ids =
          rw (same, next)
            (All-update_by (λ b. b.id < db.next_id) booking_id_of id
              (move_row now input window place) db.bookings (λ b old. old) sound.old_ids);
      windows = rw same (
          All-update_by HasWindow booking_id_of id (move_row now input window place) db.bookings
            (λ b w. bounds) sound.windows);
      no_clash = rw same (
          HasNoClash-update id (move_row now input window place) db.bookings sound.distinct
            (moved_apart now id input window place db.bookings free) sound.no_clash);
    }

-- From a store whose bookings have distinct identifiers that are below the next one, windows from a
-- quarter of an hour to eight hours, and no two live ones in a room at an instant, every store that
-- requests lead to, each run to its end before the next, is such a store.
pub Reach-IsSound : {first db : Store} → IsSound first → Reach first db → IsSound db
Reach-IsSound sound Reach.start = sound
Reach-IsSound sound (Reach.later {db} now request earlier returned) =
    let before = Reach-IsSound sound earlier in
    Effect-IsSound before (handle-Effect now request db before returned)
