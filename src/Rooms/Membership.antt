-- ===== src/Rooms/Membership.antt =====
-- Who is in which room after a join, a leave and a kick of all agents.
use aimebu.Prelude.{
  is_some, lookup, lookup-insert, contains, contains-snoc, Text, bytes, same_iff, text_eq,
  if◌then◌else◌, ◌==◌, nat_eq, ℕ, ◌≡◌, ◌∙◌, true, false, ◌&&◌, ◌||◌, none, some, ◌++◌, arith,
}
use aimebu.Types.{Room, room_update, Store, ok, send}
use aimebu.Prefs.{clear_hidden_for_room}
use aimebu.Rooms.{
  put_room, announce_room, is_member, room_or_new, with_member, add_member, joined_store, join_room,
}
use aimebu.Rooms.Valid.{emit_simple-rooms, announce-rooms}

pub is_member-of_eq :
    (rid a : Text) (s t : Store) → t.rooms ≡ s.rooms → is_member rid a t ≡ is_member rid a s
unfolding is_member
is_member-of_eq rid a s t e = rw e

pub is_member-of_lookup :
    (id a : Text) (s : Store) (r : Room)
    → lookup id s.rooms ≡ some r
    → is_member id a s ≡ contains a r.members
unfolding is_member
is_member-of_lookup id a s r e = ground arith

pub no_room :
    (id rid m : Text) (s : Store)
    → lookup id s.rooms ≡ none
    → (id == rid) ≡ true
    → is_member rid m s ≡ false
unfolding is_member
no_room id rid m s e h = ground (arith, same_iff id rid)

pub is_member-put_room :
    (id rid a : Text) (r : Room) (s : Store)
    → is_member rid a (put_room id r s)
      ≡ (if id == rid then contains a r.members else is_member rid a s)
unfolding is_member put_room
is_member-put_room id rid a r s = ground (arith, lookup-insert id rid r s.rooms)

-- The room that a join finds has the members that the store has for it.
pub contains-room_or_new :
    (id agent a : Text) (now : ℕ) (s : Store)
    → contains a (room_or_new id agent now s).members ≡ is_member id a s
unfolding is_member room_or_new contains
contains-room_or_new id agent a now s = ground arith

is_member-joined_store :
    (id agent rid a : Text) (now : ℕ) (r : Room) (s : Store)
    → is_member rid a (joined_store id agent now r s)
      ≡ (if id == rid then (contains a r.members || agent == a) else is_member rid a s)
unfolding joined_store add_member clear_hidden_for_room with_member
is_member-joined_store id agent rid a now r s = is_member-of_eq rid a _ _ (emitted ∙ told) ∙ put
  where
    stored : Store
    stored = put_room id (with_member agent r) s

    after_join : Store
    after_join = send room_update (add_member id agent r s)

    announced : Store
    announced =
        if is_some (lookup id s.rooms)
        then after_join
        else announce_room id (bytes " created") now after_join

    emitted : (joined_store id agent now r s).rooms ≡ announced.rooms
    emitted = (emit_simple-rooms id (agent ++ bytes " joined") now announced).0

    told : announced.rooms ≡ stored.rooms
    told = ground (arith, announce-rooms id (bytes " created") now after_join)

    put :
        is_member rid a stored
        ≡ (if id == rid then (contains a r.members || agent == a) else is_member rid a s)
    put =
        is_member-put_room id rid a (with_member agent r) s
        ∙ ground (arith, contains-snoc a agent r.members)

-- A join that succeeds puts the agent in the room, and changes no other membership anywhere.
pub is_member-join_room :
    (id agent rid a : Text) (now : ℕ) (s t : Store) (r : Room)
    → join_room id agent now s ≡ ok (t, r)
    → is_member rid a t ≡ (is_member rid a s || (id == rid && agent == a))
unfolding join_room
is_member-join_room id agent rid a now s t r h = ground (
  arith,
  is_member-joined_store id agent rid a now (room_or_new id agent now s) s,
  contains-room_or_new id agent a now s,
  contains-room_or_new id agent agent now s,
  same_iff id rid,
  same_iff agent a,
)
