-- ===== src/Meetings/Rooms.antt =====
-- `createRoom` and `updateRoom` of src/modules/meetings/meeting.service.ts.
use workforce_app_backend.Common.{
  ℕ, ◌+◌, Bool, not, ◌&&◌, Option, none, some, List, [], ◌∷◌, ◌++◌, ◌==◌, any, get_or, true, false,
  nonempty_text,
}
use workforce_app_backend.Common.Result.{Result, ok, app_error, throw_if, ◌>>=◌, ◌>>◌}
use workforce_app_backend.Common.Table.{update_by}
use workforce_app_backend.Meetings.{
  Room, Office, Store, room_id_of, room_created, room_updated, write_audit, load_room,
}

pub record RoomInput : Type 0 where
  pub office_id : ℕ
  pub name : ℕ
  pub location : Option ℕ
  pub capacity : ℕ
  pub amenities : Option (List ℕ)

abbrev is_named : ℕ → ℕ → Room → Bool
is_named office name r = (r.office_id == office) && (r.name == name)

abbrev new_room : ℕ → ℕ → RoomInput → Room
new_room id organization_id input = record {
  id = id;
  organization_id = organization_id;
  office_id = input.office_id;
  name = input.name;
  location = input.location;
  capacity = input.capacity;
  amenities = get_or input.amenities [];
  is_active = true;
}

unfoldable pub check_new_room : (organization_id : ℕ) → RoomInput → Store → Result (Unit {0})
check_new_room organization_id input db =
    throw_if
      (not (
        any (λ (o : Office). (o.id == input.office_id) && (o.organization_id == organization_id))
          db.offices))
      (app_error 400 "INVALID_OFFICE")
    >> throw_if (any (is_named input.office_id input.name) db.rooms) (app_error 409 "ROOM_EXISTS")

unfoldable pub add_new_room : (organization_id user : ℕ) → RoomInput → Store → Store
unfolding write_audit
add_new_room organization_id user input db =
    write_audit
      (record db {
        rooms = db.rooms ++ new_room db.next_id organization_id input ∷ [];
        next_id = db.next_id + 1;
      })
      user room_created db.next_id

unfoldable pub create_room : (organization_id user : ℕ) → RoomInput → Store → Result Store
unfolding check_new_room add_new_room
create_room organization_id user input db =
    check_new_room organization_id input db >> ok (add_new_room organization_id user input db)

-- An absent field is none; `location` may be set to null.
pub record RoomChange : Type 0 where
  pub name : Option ℕ
  pub location : Option (Option ℕ)
  pub capacity : Option ℕ
  pub amenities : Option (List ℕ)
  pub is_active : Option Bool

abbrev change_row : RoomChange → Room → Room
change_row input r = record r {
  name = get_or input.name r.name;
  location = get_or input.location r.location;
  capacity = get_or input.capacity r.capacity;
  amenities = get_or input.amenities r.amenities;
  is_active = get_or input.is_active r.is_active;
}

abbrev name_is_taken : Store → Room → Option ℕ → Bool
name_is_taken db current none = false
name_is_taken db current (some name) =
    not (name == current.name)
    && any (λ r. is_named current.office_id name r && not (r.id == current.id)) db.rooms

unfoldable pub check_name : Store → Room → RoomChange → Result (Unit {0})
check_name db current input =
    throw_if (name_is_taken db current (nonempty_text input.name)) (app_error 409 "ROOM_EXISTS")

unfoldable pub change_old_room : (user id : ℕ) → RoomChange → Store → Store
unfolding write_audit
change_old_room user id input db =
    write_audit (record db { rooms = update_by room_id_of id (change_row input) db.rooms }) user
      room_updated id

unfoldable pub update_room : (organization_id user id : ℕ) → RoomChange → Store → Result Store
unfolding check_name change_old_room
update_room organization_id user id input db = do
  current ← load_room db organization_id id
  check_name db current input >> ok (change_old_room user id input db)
