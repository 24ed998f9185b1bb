-- ===== src/Rooms/Leaving.antt =====
-- What a leave, a kick and a kick of all agents do to the memberships.
use aimebu.Posting.Frame.{Quiet, Quiet-trans, Quiet-changed, emit_system_message-Quiet}
use aimebu.Prelude.{
  select, Map, lookup, lookup-insert, lookup-delete, contains, remove_first, Distinct,
  contains-select, select-Distinct, contains-remove_first_lem, select-nil, Text, bytes, same,
  same_iff, text_eq, if◌then◌else◌, ◌==◌, Bool-cases, Option-cases, nat_eq, ℕ, ◌≡◌, refl, sym, ap,
  ◌∙◌, inl, inr, Bool, true, false, not, ◌&&◌, Option, none, some, List, [], ◌∷◌, ◌++◌, arith,
}
use aimebu.Types.{send, room_update, Room, Store, ok}
use aimebu.Rooms.{
  kickable_member, kick_agents, kickable_in, kick_each, put_room, is_member, without_member,
  left_store, leave_room_with_event,
}
use aimebu.Rooms.Valid.{
  RoomsValid, emit_simple-rooms, put_room-RoomsValid, emit_simple-RoomsValid,
  without_member-GoodRoom,
}
use aimebu.Rooms.Membership.{is_member-of_lookup, is_member-of_eq, is_member-put_room}

pub left_store-RoomsValid :
    (id agent : Text) (kicked : Bool) (now : ℕ) (r : Room) (s : Store)
    → lookup id s.rooms ≡ some r
    → RoomsValid s
    → RoomsValid (left_store id agent kicked now r s)
unfolding left_store
left_store-RoomsValid id agent kicked now r s e v = emit_simple-RoomsValid id _ now _ (
    put_room-RoomsValid id (without_member agent r) s
      (without_member-GoodRoom s.agents agent r (v id r e)) v)

left_store-agents :
    (id agent : Text) (kicked : Bool) (now : ℕ) (r : Room) (s : Store)
    → (left_store id agent kicked now r s).agents ≡ s.agents
unfolding left_store put_room
left_store-agents id agent kicked now r s = (emit_simple-rooms id _ now _).1

is_member-left_store :
    (id agent rid a : Text) (kicked : Bool) (now : ℕ) (r : Room) (s : Store)
    → lookup id s.rooms ≡ some r
    → RoomsValid s
    → is_member rid a (left_store id agent kicked now r s)
      ≡ (is_member rid a s && not (id == rid && agent == a))
unfolding left_store without_member
is_member-left_store id agent rid a kicked now r s e v =
    is_member-of_eq rid a _ _ (emit_simple-rooms id _ now _).0
    ∙ is_member-put_room id rid a (without_member agent r) s
    ∙ read
  where
    read :
        (if id == rid then contains a (remove_first agent r.members) else is_member rid a s)
        ≡ (is_member rid a s && not (id == rid && agent == a))
    read = ground (
      arith,
      is_member-of_lookup id a s r e,
      contains-remove_first_lem agent a r.members (v id r e).distinct,
      same_iff id rid,
    )

leave-of_member :
    (id agent : Text) (kicked : Bool) (now : ℕ) (s : Store)
    → is_member id agent s ≡ true
    → (r : Room) × (lookup id s.rooms ≡ some r)
      × (leave_room_with_event id agent kicked now s ≡ ok (left_store id agent kicked now r s))
unfolding is_member leave_room_with_event
leave-of_member id agent kicked now s m = elim (Option-cases (lookup id s.rooms)) [
  | inl e ↦ absurd (ground arith)
  | inr (r, e) ↦ (r, e, ground arith)
]

-- A member can leave a valid store's room, or be kicked: it is then out of that room, no other
-- membership anywhere changes, and the store is valid still.
pub is_member-leave_room :
    (id agent rid a : Text) (kicked : Bool) (now : ℕ) (s : Store)
    → RoomsValid s
    → is_member id agent s ≡ true
    → (t : Store) × (leave_room_with_event id agent kicked now s ≡ ok t)
      × RoomsValid t
      × (is_member rid a t ≡ (is_member rid a s && not (id == rid && agent == a)))
is_member-leave_room id agent rid a kicked now s v m =
    let (r, e, left) = leave-of_member id agent kicked now s m in
    (
      left_store id agent kicked now r s,
      left,
      left_store-RoomsValid id agent kicked now r s e v,
      is_member-left_store id agent rid a kicked now r s e v,
    )

-- The role that a member of a room has.
abbrev role_in : Text → Option Room → Option Text
role_in agent none = none
role_in agent (some r) = lookup agent r.roles

abbrev pub role_of : Text → Text → Store → Option Text
role_of room agent s = role_in agent (lookup room s.rooms)

lookup-left_store :
    (id agent rid : Text) (kicked : Bool) (now : ℕ) (r : Room) (s : Store)
    → lookup rid (left_store id agent kicked now r s).rooms
      ≡ (if id == rid then some (without_member agent r) else lookup rid s.rooms)
unfolding left_store put_room
lookup-left_store id agent rid kicked now r s =
    ap (λ (m : Map Text Room). lookup rid m) (emit_simple-rooms id _ now _).0
    ∙ lookup-insert id rid (without_member agent r) s.rooms

role_of-left_store :
    (id agent rid a : Text) (kicked : Bool) (now : ℕ) (r : Room) (s : Store)
    → lookup id s.rooms ≡ some r
    → role_of rid a (left_store id agent kicked now r s)
      ≡ (if id == rid && agent == a then none else role_of rid a s)
unfolding without_member
role_of-left_store id agent rid a kicked now r s e =
    ap (role_in a) (lookup-left_store id agent rid kicked now r s) ∙ elim (Bool-cases (id == rid)) [
      | inl hit ↦
          let here : some r ≡ lookup rid s.rooms =
            sym e ∙ ap (λ q. lookup q s.rooms) ((same_iff id rid).0 hit) in
          rw hit (
            lookup-delete agent a r.roles
            ∙ ap (λ o. if agent == a then none else o) (ap (role_in a) here))
      | inr miss ↦ rw miss refl
    ]

left_store-Quiet :
    (id agent : Text) (kicked : Bool) (now : ℕ) (r : Room) (s : Store)
    → Quiet s (left_store id agent kicked now r s)
unfolding left_store put_room
left_store-Quiet id agent kicked now r s =
    let gone = send room_update (put_room id (without_member agent r) s) in
    Quiet-trans s gone _ (Quiet-changed s gone.rooms gone.agents gone.next_id gone.events) (
      emit_system_message-Quiet id
        (agent ++ (if kicked then bytes " was kicked" else bytes " left")) now gone)

abbrev Kicked : Text → List Text → Store → Store × List Text → Type 0
Kicked id agents s (t, kicked) =
    (kicked ≡ agents)
    × (t.agents ≡ s.agents)
    × RoomsValid t
    × ((rid a : Text)
        → is_member rid a t ≡ (is_member rid a s && not (id == rid && contains a agents)))
    × ((rid a : Text)
        → role_of rid a t ≡ (if id == rid && contains a agents then none else role_of rid a s))
    × ((rid : Text) → (id == rid) ≡ false → lookup rid t.rooms ≡ lookup rid s.rooms)
    × Quiet s t

head_member : (x : Text) (xs : List Text) → contains x (x ∷ xs) ≡ true
unfolding contains
head_member x xs = ground (arith, same_iff x x)

still_member :
    (id x a : Text) (xs : List Text) (s s' : Store)
    → (contains a (x ∷ xs) ≡ true → is_member id a s ≡ true)
    → is_member id a s' ≡ (is_member id a s && not (id == id && x == a))
    → Distinct (x ∷ xs)
    → contains a xs ≡ true
    → is_member id a s' ≡ true
unfolding contains
still_member id x a xs s s' before moved d m = ground (arith, same_iff x a, same_iff id id)

kick_each-Kicked :
    (id : Text) (now : ℕ) (agents : List Text) (s : Store)
    → RoomsValid s
    → ((a : Text) → contains a agents ≡ true → is_member id a s ≡ true)
    → Distinct agents
    → Kicked id agents s (kick_each id now agents s)
unfolding kick_each contains
kick_each-Kicked id now [] s v members d = (
  refl,
  refl,
  v,
  (λ rid a. ground arith),
  (λ rid a. ground arith),
  (λ rid apart. refl),
  Quiet-changed s s.rooms s.agents s.next_id s.events,
)
kick_each-Kicked id now (x ∷ xs) s v members d =
    let here = members x (head_member x xs) in
    let (r, e, left) = leave-of_member id x true now s here in
    let s' = left_store id x true now r s in
    let moved = λ (rid a : Text). is_member-left_store id x rid a true now r s e v in
    let (same_list, same_agents, v', rest, roles, apart, quiet) =
      kick_each-Kicked id now xs s' (left_store-RoomsValid id x true now r s e v)
        (λ a m. still_member id x a xs s s' (members a) (moved id a) d m) d.1 in
    rw (left, kick_each)
      (
        ap (◌∷◌ x) same_list,
        same_agents ∙ left_store-agents id x true now r s,
        v',
        (λ rid a. ground (arith, rest rid a, moved rid a)),
        (λ rid a. ground (arith, roles rid a, role_of-left_store id x rid a true now r s e)),
        (λ rid other. apart rid other ∙ (lookup-left_store id x rid true now r s ∙ rw other refl)),
        Quiet-trans s s' (kick_each id now xs s').0 (left_store-Quiet id x true now r s) quiet,
      )

kickable_in-room :
    (id : Text) (s : Store) (r : Room)
    → lookup id s.rooms ≡ some r
    → kickable_in id s ≡ select (kickable_member s) r.members
unfolding kickable_in
kickable_in-room id s r e = rw (e, kickable_in)

none_kickable :
    (id : Text) (s t : Store) (r : Room)
    → t.agents ≡ s.agents
    → lookup id s.rooms ≡ some r
    → ((a : Text)
        → is_member id a t ≡ (
            is_member id a s
            && not (id == id && contains a (select (kickable_member s) r.members))))
    → kickable_in id t ≡ []
unfolding kickable_in kickable_member
none_kickable id s t r same e moved = elim (Option-cases (lookup id t.rooms)) [
  | inl gone ↦ rw (gone, kickable_in)
  | inr (r', e') ↦
      rw (e', kickable_in)
        (select-nil (kickable_member t) r'.members λ a m. ground (
          arith,
          moved a,
          same,
          is_member-of_lookup id a t r' e',
          is_member-of_lookup id a s r e,
          contains-select (kickable_member s) a r.members,
          same_iff id id,
        ))
]

-- kickAgents takes every AI agent of a valid store out of a room that is there and leaves none
-- behind. Every other membership and role stays, every other room as it was, and every agent
-- registered; the store stays valid. All else that the store keeps stays, reactions, preferences
-- and sessions among it, and a history may only grow, by messages of the system at its end.
pub kick_agents_lem :
    (id rid a : Text) (now : ℕ) (s : Store) (r : Room)
    → RoomsValid s
    → lookup id s.rooms ≡ some r
    → (t : Store) × (kick_agents id now s ≡ ok (t, select (kickable_member s) r.members, []))
      × RoomsValid t
      × (is_member rid a t ≡ (is_member rid a s && not (id == rid && kickable_member s a)))
      × (role_of rid a t ≡ (
          if id == rid && (is_member id a s && kickable_member s a) then none else role_of rid a s))
      × (lookup rid t.rooms ≡ (if id == rid then lookup id t.rooms else lookup rid s.rooms))
      × (t.agents ≡ s.agents)
      × Quiet s t
unfolding kick_agents
kick_agents_lem id rid a now s r v e =
    let agents = select (kickable_member s) r.members in
    let run = kick_each id now agents s in
    let (all, same, v', moved, roles, apart, quiet) =
      kick_each-Kicked id now agents s v
        (λ b m.
          ground (
            arith,
            is_member-of_lookup id b s r e,
            contains-select (kickable_member s) b r.members,
          ))
        (select-Distinct (kickable_member s) r.members (v id r e).distinct) in
    (
      run.0,
      rw (e, kick_agents, kickable_in-room id s r e)
          (λ i. ok (run.0, all i, none_kickable id s run.0 r same e (moved id) i)),
      v',
      ground (
        arith,
        moved rid a,
        contains-select (kickable_member s) a r.members,
        is_member-of_lookup id a s r e,
        same_iff id rid,
      ),
      ground (
        arith,
        roles rid a,
        contains-select (kickable_member s) a r.members,
        is_member-of_lookup id a s r e,
      ),
      elim (Bool-cases (id == rid)) [
        | inl hit ↦ rw hit (ap (λ q. lookup q run.0.rooms) (sym ((same_iff id rid).0 hit)))
        | inr miss ↦ rw miss (apart rid miss)
      ],
      same,
      quiet,
    )
