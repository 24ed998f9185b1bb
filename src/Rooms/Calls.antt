-- ===== src/Rooms/Calls.antt =====
-- The calls that change rooms, one after another, in any order: no history breaks a room.
use aimebu.Prelude.{
  All, lookup, delete_inv, contains, Text, bytes, text_eq, nat_eq, Bool-cases, Option-cases, ℕ, ◌≡◌,
  ◌≢◌, inl, inr, Bool, true, false, Option, none, List, [], ◌∷◌, arith,
}
use aimebu.Types.{Store, ok, err, after, after_pair}
use aimebu.Posting.{system_name, cleanup_reactions_for_live_messages}
use aimebu.Rooms.{
  room_not_found, new_room, create_room, delete_room, set_room_memory_override,
  join_room_internal_locked, join_room_internal, join_room, leave_room_with_event, leave_room,
  kick_agents, ensure_system_room,
}
use aimebu.Rooms.Direct.{find_or_create_dm}
use aimebu.Rooms.Direct.Repair.{join_locked-RoomsValid}
use aimebu.Rooms.Direct.Pair.{find_or_create_dm-RoomsValid}
use aimebu.Rooms.Roles.{assign_role}
use aimebu.Rooms.Roles.Rules.{assign_role-RoomsValid}
use aimebu.Rooms.Valid.{RoomsValid, put_room-RoomsValid, announce-RoomsValid, empty-GoodRoom}
use aimebu.Rooms.Steps.{create_room-RoomsValid, join_room-RoomsValid}
use aimebu.Rooms.Leaving.{left_store-RoomsValid, kick_agents_lem}

pub data RoomCall : Type 0 where
  creates : Text → Text → Text → RoomCall
  deletes : Text → RoomCall
  overrides : Text → Option Bool → RoomCall
  joins auto_joins leaves kicks : Text → Text → RoomCall
  kicks_all : Text → RoomCall
  opens_dm : Text → Text → RoomCall
  assigns : Text → Text → Text → RoomCall
  starts : RoomCall

pub room_step : Store → ℕ × RoomCall → Store
room_step s (now, creates id by fresh) = after_pair s (create_room id by fresh now s)
room_step s (now, deletes id) = (delete_room id now s).0
room_step s (now, overrides id b) = after_pair s (set_room_memory_override id b s)
room_step s (now, joins id a) = after_pair s (join_room id a now s)
room_step s (now, auto_joins id a) = join_room_internal id a now s
room_step s (now, leaves id a) = after s (leave_room id a now s)
room_step s (now, kicks id a) = after s (leave_room_with_event id a true now s)
room_step s (now, kicks_all id) = elim (kick_agents id now s) [ ok r ↦ r.0 | err e ↦ s ]
room_step s (now, opens_dm a b) = after_pair s (find_or_create_dm a b now s)
room_step s (now, assigns id a key) = after s (assign_role id a key now s)
room_step s (now, starts) = ensure_system_room now s

pub run_rooms : Store → List (ℕ × RoomCall) → Store
unfolding room_step
run_rooms s [] = s
run_rooms s (c ∷ cs) = run_rooms (room_step s c) cs

-- A direct message to oneself is left out.
abbrev pub Apart : RoomCall → Type 0
Apart (opens_dm a b) = a ≢ b
Apart _ = Unit {0}

delete_room-RoomsValid :
    (id : Text) (now : ℕ) (s : Store) → RoomsValid s → RoomsValid (delete_room id now s).0
unfolding delete_room cleanup_reactions_for_live_messages
delete_room-RoomsValid id now s v = elim (Option-cases (lookup id s.rooms)) [
  | inl e ↦ rw (e, delete_room) v
  | inr (r, e) ↦
      rw (e, delete_room)
        (announce-RoomsValid id (bytes " deleted") now _
          λ j q e'. v j q (delete_inv id j q s.rooms e'))
]

override-RoomsValid :
    (id : Text) (b : Option Bool) (s : Store)
    → RoomsValid s
    → RoomsValid (after_pair s (set_room_memory_override id b s))
unfolding set_room_memory_override
override-RoomsValid id b s v = elim (Option-cases (lookup id s.rooms)) [
  | inl e ↦ rw (e, set_room_memory_override) v
  | inr (r, e) ↦
      let g = v id r e in
      rw (e, set_room_memory_override)
        (put_room-RoomsValid id (record r { memory_enabled = b }) s
          (record { distinct = g.distinct; known = g.known; held = g.held }) v)
]

pub join_room_internal-RoomsValid :
    (id agent : Text) (now : ℕ) (s : Store)
    → RoomsValid s
    → RoomsValid (join_room_internal id agent now s)
unfolding join_room_internal
join_room_internal-RoomsValid id agent now s v =
    elim (Bool-cases (join_room_internal_locked id agent now s).1) [
      | inl c ↦ rw c (join_locked-RoomsValid id agent now s v)
      | inr c ↦ rw c (join_locked-RoomsValid id agent now s v)
    ]

pub leave-RoomsValid :
    (id agent : Text) (kicked : Bool) (now : ℕ) (s : Store)
    → RoomsValid s
    → RoomsValid (after s (leave_room_with_event id agent kicked now s))
unfolding leave_room_with_event
leave-RoomsValid id agent kicked now s v = elim (Option-cases (lookup id s.rooms)) [
  | inl e ↦ rw (e, leave_room_with_event) v
  | inr (r, e) ↦ elim (Bool-cases (contains agent r.members)) [
    | inl m ↦
        rw (e, leave_room_with_event) (rw m (left_store-RoomsValid id agent kicked now r s e v))
    | inr m ↦ rw (e, leave_room_with_event) (rw m v)
  ]
]

ensure-RoomsValid : (now : ℕ) (s : Store) → RoomsValid s → RoomsValid (ensure_system_room now s)
unfolding ensure_system_room
ensure-RoomsValid now s v = elim (Option-cases (lookup system_name s.rooms)) [
  | inr (r, e) ↦ rw (e, ensure_system_room) v
  | inl e ↦
      rw (e, ensure_system_room)
        (put_room-RoomsValid system_name (new_room system_name [] system_name now) s
          (empty-GoodRoom s.agents system_name system_name now) v)
]

kick_agents-none :
    (id : Text) (now : ℕ) (s : Store)
    → lookup id s.rooms ≡ none
    → kick_agents id now s ≡ err room_not_found
unfolding kick_agents
kick_agents-none id now s e = ground arith

kick_agents-RoomsValid :
    (id : Text) (now : ℕ) (s : Store) → RoomsValid s → RoomsValid (room_step s (now, kicks_all id))
unfolding room_step
kick_agents-RoomsValid id now s v = elim (Option-cases (lookup id s.rooms)) [
  | inl e ↦ rw (kick_agents-none id now s e, room_step) v
  | inr (r, e) ↦
      let (t, done, valid, _, _, _, _, _) = kick_agents_lem id id id now s r v e in
      rw (done, room_step) valid
]

-- One call, failed or not, keeps every room valid.
pub room_step-RoomsValid :
    (s : Store) (now : ℕ) (c : RoomCall)
    → Apart c
    → RoomsValid s
    → RoomsValid (room_step s (now, c))
unfolding room_step
room_step-RoomsValid s now (creates id by fresh) h v = create_room-RoomsValid id by fresh now s v
room_step-RoomsValid s now (deletes id) h v = delete_room-RoomsValid id now s v
room_step-RoomsValid s now (overrides id b) h v = override-RoomsValid id b s v
room_step-RoomsValid s now (joins id a) h v = join_room-RoomsValid id a now s v
room_step-RoomsValid s now (auto_joins id a) h v = join_room_internal-RoomsValid id a now s v
room_step-RoomsValid s now (leaves id a) h v = leave-RoomsValid id a false now s v
room_step-RoomsValid s now (kicks id a) h v = leave-RoomsValid id a true now s v
room_step-RoomsValid s now (kicks_all id) h v = kick_agents-RoomsValid id now s v
room_step-RoomsValid s now (opens_dm a b) h v = find_or_create_dm-RoomsValid a b now s h v
room_step-RoomsValid s now (assigns id a key) h v = assign_role-RoomsValid id a key now s v
room_step-RoomsValid s now starts h v = ensure-RoomsValid now s v

-- Whatever calls are made on rooms in whatever order, direct messages to oneself aside: no agent
-- is a member of a room twice, every member is registered, and every role is held by a member.
pub run_rooms-RoomsValid :
    (s : Store) (calls : List (ℕ × RoomCall))
    → All (λ c. Apart c.1) calls
    → RoomsValid s
    → RoomsValid (run_rooms s calls)
unfolding run_rooms
run_rooms-RoomsValid s [] h v = v
run_rooms-RoomsValid s ((now, c) ∷ cs) h v =
    run_rooms-RoomsValid (room_step s (now, c)) cs h.1 (room_step-RoomsValid s now c h.0 v)
