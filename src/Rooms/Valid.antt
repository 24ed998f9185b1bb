-- ===== src/Rooms/Valid.antt =====
-- What holds of every room between two operations: no agent is a member twice, every member is
-- registered, and a role is held by a member.
use aimebu.Prelude.{
  contains-remove_first, lookup-delete, remove_first-Distinct, contains-remove_first-le, same_iff,
  [], contains-snoc, snoc-Distinct, remove_first, insert_inv, Option-cases, Map, is_some, lookup,
  contains, Distinct, Text, bytes, text_eq, nat_eq, Bool-cases, ℕ, ◌≡◌, subst, inl, inr, Bool, true,
  false, Option, none, some, List, ◌++◌, arith,
}
use aimebu.Types.{Room, Agent, Store}
use aimebu.Posting.{system_name, emit_system_message_full, emit_system_message}
use aimebu.Rooms.{without_member, new_room, put_room, announce_room, room_or_new, with_member}

pub record GoodRoom (agents : Map Text Agent) (r : Room) : Type 0 where
  pub distinct : Distinct r.members
  pub known : (m : Text) → contains m r.members ≡ true → is_some (lookup m agents) ≡ true
  pub held : (m : Text) → is_some (lookup m r.roles) ≡ true → contains m r.members ≡ true

abbrev pub AllGood : Map Text Room → Map Text Agent → Type 0
AllGood rooms agents = (id : Text) (r : Room) → lookup id rooms ≡ some r → GoodRoom agents r

abbrev pub RoomsValid : Store → Type 0
RoomsValid s = AllGood s.rooms s.agents

-- Messages and their announcements touch no room and no agent.
pub emit-rooms :
    (room body : Text) (targets : Option (List Text)) (attention : Bool) (now : ℕ) (s : Store)
    → ((emit_system_message_full room body targets attention now s).rooms ≡ s.rooms)
      × ((emit_system_message_full room body targets attention now s).agents ≡ s.agents)
unfolding emit_system_message_full
emit-rooms room body targets attention now s = ground arith

pub emit_simple-rooms :
    (room body : Text) (now : ℕ) (s : Store)
    → ((emit_system_message room body now s).rooms ≡ s.rooms)
      × ((emit_system_message room body now s).agents ≡ s.agents)
unfolding emit_system_message
emit_simple-rooms room body now s = emit-rooms room body none false now s

pub announce-rooms :
    (id what : Text) (now : ℕ) (s : Store)
    → ((announce_room id what now s).rooms ≡ s.rooms)
      × ((announce_room id what now s).agents ≡ s.agents)
unfolding announce_room
announce-rooms id what now s =
    ground (arith, emit_simple-rooms system_name (bytes "room " ++ (id ++ what)) now s)

-- Validity reads the rooms and the agents only.
pub AllGood-of_eq :
    {rooms rooms' : Map Text Room} {agents agents' : Map Text Agent}
    → (rooms' ≡ rooms) × (agents' ≡ agents)
    → AllGood rooms agents
    → AllGood rooms' agents'
AllGood-of_eq (p, q) v id r e = rw q (v id r (rw (← p) e))

pub put_room-RoomsValid :
    (id : Text) (r : Room) (s : Store)
    → GoodRoom s.agents r
    → RoomsValid s
    → RoomsValid (put_room id r s)
unfolding put_room
put_room-RoomsValid id r s g v j q e = elim (insert_inv id j r q s.rooms e) [
  | inl hit ↦ subst (GoodRoom s.agents) hit g
  | inr old ↦ v j q old
]

pub emit-RoomsValid :
    (room body : Text) (targets : Option (List Text)) (attention : Bool) (now : ℕ) (s : Store)
    → RoomsValid s
    → RoomsValid (emit_system_message_full room body targets attention now s)
emit-RoomsValid room body targets attention now s v =
    AllGood-of_eq (emit-rooms room body targets attention now s) v

pub emit_simple-RoomsValid :
    (room body : Text) (now : ℕ) (s : Store)
    → RoomsValid s
    → RoomsValid (emit_system_message room body now s)
emit_simple-RoomsValid room body now s v = AllGood-of_eq (emit_simple-rooms room body now s) v

pub announce-RoomsValid :
    (id what : Text) (now : ℕ) (s : Store) → RoomsValid s → RoomsValid (announce_room id what now s)
announce-RoomsValid id what now s v = AllGood-of_eq (announce-rooms id what now s) v

-- A room of no one.
pub empty-GoodRoom :
    (agents : Map Text Agent) (id creator : Text) (now : ℕ)
    → GoodRoom agents (new_room id [] creator now)
unfolding new_room contains lookup
empty-GoodRoom agents id creator now = record { distinct = tt; known = λ m h. cc; held = λ m h. cc }

pub with_member-GoodRoom :
    (agents : Map Text Agent) (agent : Text) (r : Room)
    → GoodRoom agents r
    → contains agent r.members ≡ false
    → is_some (lookup agent agents) ≡ true
    → GoodRoom agents (with_member agent r)
unfolding with_member
with_member-GoodRoom agents agent r g new known = record {
  distinct = snoc-Distinct agent r.members g.distinct new;
  known =
      λ m h. ground (arith, contains-snoc m agent r.members, same_iff agent m, g.known m, known);
  held = λ m h. ground (arith, contains-snoc m agent r.members, g.held m);
}

pub without_member-GoodRoom :
    (agents : Map Text Agent) (agent : Text) (r : Room)
    → GoodRoom agents r
    → GoodRoom agents (without_member agent r)
unfolding without_member
without_member-GoodRoom agents agent r g = record {
  distinct = remove_first-Distinct agent r.members g.distinct;
  known = λ m h. g.known m (kept m h);
  held = λ m h. ground (
    arith,
    lookup-delete agent m r.roles,
    same_iff agent m,
    contains-remove_first agent m r.members,
    g.held m,
  );
}
  where
    kept :
        (m : Text) → contains m (remove_first agent r.members) ≡ true → contains m r.members ≡ true
    kept m h = elim (Bool-cases (contains m r.members)) [
      | inl there ↦ there
      | inr gone ↦ cc (contains-remove_first-le agent m r.members gone)
    ]

pub room_or_new-GoodRoom :
    (id agent : Text) (now : ℕ) (s : Store)
    → RoomsValid s
    → GoodRoom s.agents (room_or_new id agent now s)
unfolding room_or_new
room_or_new-GoodRoom id agent now s v = elim (Option-cases (lookup id s.rooms)) [
  | inl e ↦ rw e (empty-GoodRoom s.agents id agent now)
  | inr (r, e) ↦ rw e (v id r e)
]
