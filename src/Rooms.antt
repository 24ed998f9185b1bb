-- ===== src/Rooms.antt =====
-- internal/server/store_rooms.go: rooms, their members and direct messages.
pub mod Calls
pub mod Direct
pub mod Leaving
pub mod Membership
pub mod Roles
pub mod Steps
pub mod Valid
use aimebu.Prelude.{
  select, is_some, or_zero, lookup, insert, delete, contains, remove_first, Text, bytes, text_eq,
  has_prefix, if◌then◌else◌, ◌==◌, nat_eq, ℕ, Bool, true, false, not, ◌&&◌, Option, none, some,
  List, [], ◌∷◌, ◌++◌,
}
use aimebu.Types.{
  stamp, is_ai, Room, room_update, Store, reserved, not_registered, room_not_found, not_in_room,
  Result, ok, err, send,
}
use aimebu.Prefs.{clear_hidden_for_room}
use aimebu.Posting.{system_name, is_dm, emit_system_message, cleanup_reactions_for_live_messages}

unfoldable pub new_room : Text → List Text → Text → ℕ → Room
new_room id members creator now = record {
  id = id;
  members = members;
  created_at = stamp now;
  created_by = creator;
  roles = [];
  memory_enabled = none;
}

unfoldable pub put_room : Text → Room → Store → Store
put_room id room s = record s { rooms = insert id room s.rooms }

abbrev pub is_reserved : Text → Bool
is_reserved id = has_prefix id (bytes "_")

-- The system room hears of every room but the reserved and the direct ones.
unfoldable pub announce_room : Text → Text → ℕ → Store → Store
unfolding emit_system_message
announce_room id what now s =
    if not (is_reserved id) && not (is_dm id)
    then emit_system_message system_name (bytes "room " ++ (id ++ what)) now s
    else s

-- `fresh` is the random ID that an empty one is replaced by.
unfoldable pub create_room : Text → Text → Text → ℕ → Store → Result (Store × Room)
unfolding put_room new_room announce_room
create_room given creator fresh now s =
    let id = if given == [] then fresh else given in
    let room = new_room id [] creator now in
    if is_reserved id then err reserved else elim (lookup id s.rooms) [
      | some r ↦ ok (s, r)
      | none ↦
          ok (announce_room id (bytes " created") now (send room_update (put_room id room s)), room)
    ]

unfoldable pub delete_room : Text → ℕ → Store → Store × Bool
unfolding announce_room cleanup_reactions_for_live_messages
delete_room id now s =
    let s' = record s { rooms = delete id s.rooms; messages = delete id s.messages } in
    elim (lookup id s.rooms) [
      | none ↦ (s, false)
      | some r ↦ (
        announce_room id (bytes " deleted") now
            (send room_update (cleanup_reactions_for_live_messages s')),
        true,
      )
    ]

unfoldable pub set_room_memory_override : Text → Option Bool → Store → Result (Store × Room)
unfolding put_room
set_room_memory_override id enabled s = elim (lookup id s.rooms) [
  | none ↦ err room_not_found
  | some r ↦
      let r' = record r { memory_enabled = enabled } in ok (send room_update (put_room id r' s), r')
]

unfoldable pub is_member : Text → Text → Store → Bool
is_member room agent s = elim (lookup room s.rooms) [
  | none ↦ false
  | some r ↦ contains agent r.members
]

-- The room to join, made if it is not there.
unfoldable pub room_or_new : Text → Text → ℕ → Store → Room
unfolding new_room
room_or_new id agent now s = or_zero (lookup id s.rooms) (new_room id [] agent now)

unfoldable pub with_member : Text → Room → Room
with_member agent room = record room { members = room.members ++ agent ∷ [] }

unfoldable pub add_member : Text → Text → Room → Store → Store
unfolding put_room clear_hidden_for_room with_member
add_member id agent room s = clear_hidden_for_room id (put_room id (with_member agent room) s)

-- joinRoomInternalLocked
unfoldable pub join_room_internal_locked : Text → Text → ℕ → Store → Store × Bool
unfolding room_or_new add_member put_room
join_room_internal_locked id agent now s =
    let room = room_or_new id agent now s in
    if is_some (lookup agent s.agents)
    then (if contains agent room.members then (s, false) else (add_member id agent room s, true))
    else (s, false)

unfoldable pub join_room_internal : Text → Text → ℕ → Store → Store
unfolding join_room_internal_locked
join_room_internal id agent now s =
    let (s', changed) = join_room_internal_locked id agent now s in
    if changed then send room_update s' else s'

-- The store once `agent` is in `room`, with the announcements of a new room and of the join.
unfoldable pub joined_store : Text → Text → ℕ → Room → Store → Store
unfolding add_member announce_room emit_system_message
joined_store id agent now room s =
    let joined = send room_update (add_member id agent room s) in
    let told =
      if is_some (lookup id s.rooms)
      then joined
      else announce_room id (bytes " created") now joined in
    emit_system_message id (agent ++ bytes " joined") now told

unfoldable pub join_room : Text → Text → ℕ → Store → Result (Store × Room)
unfolding room_or_new joined_store with_member
join_room id agent now s =
    let room = room_or_new id agent now s in
    if is_reserved id
    then err reserved
    else if is_some (lookup agent s.agents)
    then (if contains agent room.members
        then ok (s, room)
        else ok (joined_store id agent now room s, with_member agent room))
    else err not_registered

unfoldable pub without_member : Text → Room → Room
without_member agent r = record r {
  members = remove_first agent r.members;
  roles = delete agent r.roles;
}

unfoldable pub left_store : Text → Text → Bool → ℕ → Room → Store → Store
unfolding put_room emit_system_message without_member
left_store id agent kicked now r s =
    let what = if kicked then bytes " was kicked" else bytes " left" in
    emit_system_message id (agent ++ what) now
      (send room_update (put_room id (without_member agent r) s))

unfoldable pub leave_room_with_event : Text → Text → Bool → ℕ → Store → Result Store
unfolding left_store
leave_room_with_event id agent kicked now s = elim (lookup id s.rooms) [
  | none ↦ err room_not_found
  | some r ↦
      if contains agent r.members then ok (left_store id agent kicked now r s) else err not_in_room
]

-- leaveRoom
abbrev pub leave_room : Text → Text → ℕ → Store → Result Store
leave_room id agent now s = leave_room_with_event id agent false now s

unfoldable pub kickable_member : Store → Text → Bool
kickable_member s id = elim (lookup id s.agents) [ none ↦ false | some a ↦ is_ai a.kind ]

-- The loop of kickAgents: a kick that fails is passed over.
kick_each : Text → ℕ → List Text → Store → Store × List Text
unfolding leave_room_with_event
kick_each id now [] s = (s, [])
kick_each id now (a ∷ rest) s = elim (leave_room_with_event id a true now s) [
  | ok s' ↦ let (s'', kicked) = kick_each id now rest s' in (s'', a ∷ kicked)
  | err e ↦ kick_each id now rest s
]

kickable_in : Text → Store → List Text
unfolding kickable_member
kickable_in id s = elim (lookup id s.rooms) [
  | none ↦ []
  | some r ↦ select (kickable_member s) r.members
]

-- The store, the agents kicked, and those left to kick.
unfoldable pub kick_agents : Text → ℕ → Store → Result (Store × List Text × List Text)
unfolding kick_each kickable_in
kick_agents id now s = elim (lookup id s.rooms) [
  | none ↦ err room_not_found
  | some r ↦
      let (s', kicked) = kick_each id now (kickable_in id s) s in ok (s', kicked, kickable_in id s')
]

unfoldable pub ensure_system_room : ℕ → Store → Store
unfolding put_room new_room
ensure_system_room now s = elim (lookup system_name s.rooms) [
  | some r ↦ s
  | none ↦ put_room system_name (new_room system_name [] system_name now) s
]
