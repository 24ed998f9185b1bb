-- ===== src/Rooms/Steps.antt =====
-- Every operation on rooms keeps them valid; a direct message to oneself is the exception.
use aimebu.Prelude.{
  is_some, lookup, contains, Text, bytes, text_eq, if◌then◌else◌, ◌==◌, nat_eq, Bool-cases, ℕ, ◌≡◌,
  inl, inr, true, false, [], ◌++◌, arith,
}
use aimebu.Types.{Room, room_update, Store, send, after_pair}
use aimebu.Prefs.{clear_hidden_for_room}
use aimebu.Rooms.{
  new_room, put_room, announce_room, create_room, room_or_new, with_member, add_member,
  joined_store, join_room,
}
use aimebu.Rooms.Valid.{
  GoodRoom, RoomsValid, put_room-RoomsValid, emit_simple-RoomsValid, announce-RoomsValid,
  empty-GoodRoom, with_member-GoodRoom, room_or_new-GoodRoom,
}

pub add_member-RoomsValid :
    (id agent : Text) (r : Room) (s : Store)
    → GoodRoom s.agents r
    → contains agent r.members ≡ false
    → is_some (lookup agent s.agents) ≡ true
    → RoomsValid s
    → RoomsValid (add_member id agent r s)
unfolding add_member clear_hidden_for_room
add_member-RoomsValid id agent r s g new known v =
    put_room-RoomsValid id (with_member agent r) s
      (with_member-GoodRoom s.agents agent r g new known) v

create_room_cases :
    (P : Store → Type 0) (given creator fresh : Text) (now : ℕ) (s : Store)
    → P s
    → ((id : Text)
        → P (
            announce_room id
              (bytes " created")
              now
              (send room_update (put_room id (new_room id [] creator now) s))))
    → P (after_pair s (create_room given creator fresh now s))
unfolding create_room
create_room_cases P given creator fresh now s stays made =
    ground (arith, stays, made (if given == [] then fresh else given))

pub create_room-RoomsValid :
    (given creator fresh : Text) (now : ℕ) (s : Store)
    → RoomsValid s
    → RoomsValid (after_pair s (create_room given creator fresh now s))
create_room-RoomsValid given creator fresh now s v =
    create_room_cases RoomsValid given creator fresh now s v λ id.
      announce-RoomsValid id (bytes " created") now _ (
        put_room-RoomsValid id (new_room id [] creator now) s
          (empty-GoodRoom s.agents id creator now) v)

pub joined_store-RoomsValid :
    (id agent : Text) (now : ℕ) (r : Room) (s : Store)
    → RoomsValid (add_member id agent r s)
    → RoomsValid (joined_store id agent now r s)
unfolding joined_store
joined_store-RoomsValid id agent now r s v = elim (Bool-cases (is_some (lookup id s.rooms))) [
  | inl old ↦ rw old (emit_simple-RoomsValid id (agent ++ bytes " joined") now _ v)
  | inr new ↦ rw new (
      emit_simple-RoomsValid id (agent ++ bytes " joined") now _
        (announce-RoomsValid id (bytes " created") now _ v))
]

pub join_room_cases :
    (P : Store → Type 0) (id agent : Text) (now : ℕ) (s : Store)
    → P s
    → (is_some (lookup agent s.agents) ≡ true
        → contains agent (room_or_new id agent now s).members ≡ false
        → P (joined_store id agent now (room_or_new id agent now s) s))
    → P (after_pair s (join_room id agent now s))
unfolding join_room
join_room_cases P id agent now s stays joins = ground (arith, stays, joins)

pub join_room-RoomsValid :
    (id agent : Text) (now : ℕ) (s : Store)
    → RoomsValid s
    → RoomsValid (after_pair s (join_room id agent now s))
join_room-RoomsValid id agent now s v = join_room_cases RoomsValid id agent now s v λ known new.
    joined_store-RoomsValid id agent now _ s
      (add_member-RoomsValid id agent _ s (room_or_new-GoodRoom id agent now s v) new known v)
