-- ===== src/Meetings/Busy.antt =====
-- When a room is taken, by the bookings of src/modules/meetings/meeting.service.ts: the abstract view
-- of the table as a calendar, which forgets who booked what.
use workforce_app_backend.Common.{
  ℕ, ◌+◌, ◌*◌, ◌≤◌, ◌<◌, ◌≡◌, refl, Bool, true, false, not, ◌&&◌, ◌||◌, none, some, List, [], ◌∷◌,
  ◌++◌, ◌==◌, ltb, leb, any, All, All-append, sym, arith, inl, inr, Bool-cases, ◌↔◌,
}
use workforce_app_backend.Common.Table.{find_by, has_key, update_by, HasDistinctKeys}
use workforce_app_backend.Common.Table.Keys.{All-find, update_by-absent}
use workforce_app_backend.Meetings.{Booking, booking_id_of, is_booked, clashes}

abbrev pub covers : ℕ → ℕ → Booking → Bool
covers room t b = (b.room_id == room) && is_booked b.status && leb b.starts_at t && ltb t b.ends_at

-- The room is taken at the instant.
abbrev pub busy : List Booking → ℕ → ℕ → Bool
busy bookings room t = any (covers room t) bookings

abbrev pub overlaps : Booking → Booking → Bool
overlaps a b =
    a.room_id == b.room_id
    && is_booked a.status
    && is_booked b.status
    && ltb a.starts_at b.ends_at
    && ltb b.starts_at a.ends_at

-- Two bookings that are not cancelled do not share a room and an instant.
abbrev pub IsApart : Booking → Booking → Type 0
IsApart a b = overlaps a b ≡ false

abbrev pub HasNoClash : List Booking → Type 0
HasNoClash [] = Unit
HasNoClash (b ∷ bookings) = All (IsApart b) bookings × HasNoClash bookings

-- From a quarter of an hour to eight hours.
abbrev pub HasWindow : Booking → Type 0
HasWindow b = (b.starts_at + 15 * 60000 ≤ b.ends_at) × (b.ends_at ≤ b.starts_at + 480 * 60000)

IsApart-sym : (a b : Booking) → IsApart a b → IsApart b a
IsApart-sym a b h = ground arith

-- A booking leaves the others of a table without clash out of its window.
apart_busy :
    (b : Booking) (bookings : List Booking) (room t : ℕ)
    → All (IsApart b) bookings
    → covers room t b ≡ true
    → busy bookings room t ≡ false
apart_busy b [] room t h c = refl
apart_busy b (a ∷ bookings) room t h c = ground (arith, h.0, apart_busy b bookings room t h.1 c)

pub HasNoClash-append :
    (bookings : List Booking) (b : Booking)
    → any (clashes b.room_id b.starts_at b.ends_at none) bookings ≡ false
    → HasNoClash bookings
    → HasNoClash (bookings ++ b ∷ [])
HasNoClash-append [] b free h = (tt, tt)
HasNoClash-append (a ∷ bookings) b free h = (
  All-append (IsApart a) bookings (b ∷ []) h.0 (ground arith, tt),
  HasNoClash-append bookings b (ground arith) h.1,
)

-- The new row of the key is apart from the rows of the other keys.
abbrev pub IsApartFrom : ℕ → Booking → Booking → Type 0
IsApartFrom id new b = (b.id == id) ≡ false → IsApart new b

module _ (id : ℕ) (f : Booking → Booking) where
  tail-IsApart :
      (b a : Booking) (bookings : List Booking)
      → (b.id == id) ≡ true
      → has_key booking_id_of b.id bookings ≡ false
      → All (IsApartFrom id a) bookings
      → All (IsApart a) bookings
  tail-IsApart b a [] e h k = tt
  tail-IsApart b a (c ∷ bookings) e h k =
      (k.0 (ground arith), tail-IsApart b a bookings e (ground arith) k.1)

  IsApart-update :
      (b : Booking) (bookings : List Booking)
      → (b.id == id) ≡ false
      → ((a : Booking) → IsApartFrom id (f a) b)
      → All (IsApart b) bookings
      → All (IsApart b) (update_by booking_id_of id f bookings)
  IsApart-update b [] e k h = tt
  IsApart-update b (c ∷ bookings) e k h = elim (Bool-cases (c.id == id)) [
    | inl same ↦ rw same (IsApart-sym (f c) b (k c e), IsApart-update b bookings e k h.1)
    | inr other ↦ rw other (h.0, IsApart-update b bookings e k h.1)
  ]

  pub HasNoClash-update :
      (bookings : List Booking)
      → HasDistinctKeys booking_id_of bookings
      → ((a : Booking) → All (IsApartFrom id (f a)) bookings)
      → HasNoClash bookings
      → HasNoClash (update_by booking_id_of id f bookings)
  HasNoClash-update [] d k h = tt
  HasNoClash-update (b ∷ bookings) d k h = elim (Bool-cases (b.id == id)) [
    | inl same ↦
        let absent = update_by-absent booking_id_of id f bookings (ground (arith, d.0)) in
        rw (same, absent) (tail-IsApart b (f b) bookings same d.0 ((k b).1), h.1)
    | inr other ↦ rw other (
      IsApart-update b bookings other (λ a. (k a).0) h.0,
      HasNoClash-update bookings d.1 (λ a. (k a).1) h.1,
    )
  ]

  -- What the calendar of a table without clash is after the change of a row.
  pub busy-update :
      (bookings : List Booking) (room t : ℕ) {current : Booking}
      → HasDistinctKeys booking_id_of bookings
      → HasNoClash bookings
      → find_by booking_id_of id bookings ≡ some current
      → busy (update_by booking_id_of id f bookings) room t
        ≡ ((busy bookings room t && not (covers room t current)) || covers room t (f current))
  busy-update [] room t d h e = absurd (ground arith)
  busy-update (b ∷ bookings) room t {current} d h e = elim (Bool-cases (b.id == id)) [
    | inl same ↦
        let absent = update_by-absent booking_id_of id f bookings (ground (arith, d.0)) in
        let found : b ≡ current = ground (arith, same) in
        rw (same, absent, sym found) (ground (arith, apart_busy b bookings room t h.0))
    | inr other ↦
        let found : find_by booking_id_of id bookings ≡ some current = ground (arith, other) in
        let apart = All-find (IsApart b) (λ a. a.id == id) bookings {x = current} h.0 found in
        rw other
          (ground (arith, apart, busy-update bookings room t {current = current} d.1 h.1 found))
  ]

-- A window clashes with no booking exactly if the room is free at all of its instants.
pub free_window :
    (bookings : List Booking) (room start stop : ℕ)
    → start < stop
    → All HasWindow bookings
    → (any (clashes room start stop none) bookings ≡ false)
      ↔ ((t : ℕ) → start ≤ t → t < stop → busy bookings room t ≡ false)
free_window [] room start stop h w = (λ _ t _ _. refl, λ _. refl)
free_window (b ∷ bookings) room start stop h w =
    let rest = free_window bookings room start stop h w.1 in
    (
      λ free t from to. ground (arith, rest.0 (ground arith) t from to),
      λ free.
          let tail = rest.1 (λ t from to. ground (arith, free t from to)) in
          ground (arith, tail, free start, free b.starts_at, w.0),
    )
