-- ===== src/Examples/Rooms.antt =====
-- Tests of the rooms, and each room theorem at sample stores.
use aimebu.Posting.Frame.{Quiet}
use aimebu.Prelude.{
  select, All, is_some, lookup, contains, bytes, same, same_iff, text_eq, has_prefix, text_ltb,
  is_space, trim_space, lower_byte, to_lower, if◌then◌else◌, ◌==◌, nat_eq, ℕ, ◌≡◌, refl, true,
  false, not, ◌&&◌, ◌||◌, none, some, List, [], ◌∷◌, arith,
}
use aimebu.Types.{after_pair, Room, room_update, Store, ok, send, after}
use aimebu.Prefs.{room_pref}
use aimebu.Rooms.{
  leave_room_with_event, new_room, put_room, is_member, room_or_new, with_member, joined_store,
  join_room, kickable_member, kick_agents,
}
use aimebu.Rooms.Valid.{RoomsValid}
use aimebu.Rooms.Calls.{RoomCall, deletes, joins, kicks_all, opens_dm, Apart}
use aimebu.Rooms.Leaving.{role_of, kick_agents_lem}
use aimebu.Rooms.Direct.{dm_id, find_or_create_dm}
use aimebu.Rooms.Direct.Pair.{self_dm_survives_kick, find_or_create_dm_both, new_dm_stays_hidden}
use aimebu.Rooms.Roles.{get_role_cardinality, held_by_other, assign_role, assign_to, normalized}
use aimebu.Rooms.Roles.Rules.{assign_role_singleton}
use aimebu.Examples.{alice, bob, carol, hall, hall_room, hall_store, hall_store-RoomsValid}

abbrev busy : List (ℕ × RoomCall)
busy =
    (1, joins hall carol) ∷ (2, opens_dm alice bob) ∷ (3, kicks_all hall) ∷ (4, deletes hall) ∷ []

busy-Apart : All (λ c. Apart c.1) busy
unfolding same
busy-Apart = (tt, (ground (arith, same_iff alice bob), (tt, (tt, tt))))

bob_in_hall : is_member hall bob hall_store ≡ true
unfolding is_member lookup contains same
bob_in_hall = refl

hall_found : lookup hall hall_store.rooms ≡ some hall_room
unfolding lookup same
hall_found = refl

kick_agents_example :
    (t : Store) × (kick_agents hall 9 hall_store
      ≡ ok (t, select (kickable_member hall_store) hall_room.members, []))
    × RoomsValid t
    × (is_member hall bob t
        ≡ (is_member hall bob hall_store && not (hall == hall && kickable_member hall_store bob)))
    × (role_of hall bob t ≡ (
        if hall == hall && (is_member hall bob hall_store && kickable_member hall_store bob)
        then none
        else role_of hall bob hall_store))
    × (lookup hall t.rooms
        ≡ (if hall == hall then lookup hall t.rooms else lookup hall hall_store.rooms))
    × (t.agents ≡ hall_store.agents)
    × Quiet hall_store t
kick_agents_example =
    kick_agents_lem hall hall bob 9 hall_store hall_room hall_store-RoomsValid hall_found

abbrev joined : Store
joined = joined_store hall carol 9 hall_room hall_store

join_of_carol : join_room hall carol 9 hall_store ≡ ok (joined, with_member carol hall_room)
unfolding join_room room_or_new lookup same contains has_prefix
join_of_carol = refl

alice_known : is_some (lookup alice hall_store.agents) ≡ true
unfolding lookup same
alice_known = refl

bob_known : is_some (lookup bob hall_store.agents) ≡ true
unfolding lookup same
bob_known = refl

find_or_create_dm_both_example :
    (t : Store) × (find_or_create_dm bob alice 9 hall_store ≡ ok (t, dm_id bob alice))
    × (is_member (dm_id bob alice) alice t ≡ (
        is_member (dm_id bob alice) alice hall_store
        || (dm_id bob alice == dm_id bob alice && (bob == alice || alice == alice))))
find_or_create_dm_both_example =
    find_or_create_dm_both bob alice (dm_id bob alice) alice 9 hall_store bob_known alice_known

-- bob hid the room of a direct message, which was then deleted.
abbrev hiding : Store
hiding = record hall_store {
  room_prefs = (bob, (dm_id alice bob, record { hidden = true; pinned = false }) ∷ []) ∷ [];
}

abbrev dm_made : Store
dm_made =
    send room_update
      (put_room (dm_id alice bob) (new_room (dm_id alice bob) (alice ∷ bob ∷ []) alice 9) hiding)

no_dm : lookup (dm_id alice bob) hiding.rooms ≡ none
unfolding lookup dm_id text_ltb same
no_dm = refl

dm_opened : find_or_create_dm alice bob 9 hiding ≡ ok (dm_made, dm_id alice bob)
unfolding find_or_create_dm lookup dm_id text_ltb same
dm_opened = refl

still_hidden : room_pref bob (dm_id alice bob) hiding ≡ record { hidden = true; pinned = false }
unfolding room_pref lookup dm_id text_ltb same
still_hidden = refl

new_dm_stays_hidden_example :
    room_pref bob (dm_id alice bob) dm_made ≡ room_pref bob (dm_id alice bob) hiding
new_dm_stays_hidden_example =
    new_dm_stays_hidden alice bob bob 9 hiding dm_made (dm_id alice bob) no_dm dm_opened

no_self_dm : lookup (dm_id bob bob) hall_store.rooms ≡ none
unfolding lookup dm_id text_ltb same
no_self_dm = refl

self_dm_survives_kick_example :
    is_member (dm_id bob bob) bob (
      after (after_pair hall_store (find_or_create_dm bob bob 9 hall_store)) (
        leave_room_with_event
          (dm_id bob bob)
          bob
          true
          10
          (after_pair hall_store (find_or_create_dm bob bob 9 hall_store))))
    ≡ true
self_dm_survives_kick_example = self_dm_survives_kick bob true 9 10 hall_store bob_known no_self_dm

lead_singleton : get_role_cardinality (bytes "lead") hall_store ≡ bytes "singleton"
unfolding get_role_cardinality normalized lookup same trim_space to_lower is_space lower_byte
lead_singleton = refl

lead_done :
    assign_role hall bob (bytes "lead") 9 hall_store
    ≡ ok (after hall_store (assign_role hall bob (bytes "lead") 9 hall_store))
unfolding assign_role assign_to get_role_cardinality normalized lookup same contains held_by_other
    trim_space to_lower
lead_done = refl

assign_role_singleton_example :
    (r : Room) × (lookup hall
        (after hall_store (assign_role hall bob (bytes "lead") 9 hall_store)).rooms
      ≡ some r)
    × (lookup bob r.roles ≡ some (bytes "lead"))
    × (held_by_other bob (bytes "lead") r.roles ≡ false)
assign_role_singleton_example =
    assign_role_singleton hall bob (bytes "lead") 9 hall_store
      (after hall_store (assign_role hall bob (bytes "lead") 9 hall_store)) (λ p. cc) (λ p. cc)
      lead_singleton lead_done
