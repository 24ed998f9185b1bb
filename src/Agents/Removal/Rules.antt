-- ===== src/Agents/Removal/Rules.antt =====
-- What is left of an agent that went.
use aimebu.Posting.Frame.{Quiet, Quiet-trans, Quiet-changed, emit_system_message-Quiet}
use aimebu.Prelude.{
  select, Map, is_some, lookup, delete, map_values, lookup-delete, lookup-map_values,
  contains-select, select-Distinct, Text, bytes, same_iff, text_eq, if◌then◌else◌, ◌==◌,
  Option-cases, nat_eq, ℕ, ◌≡◌, refl, ap, subst, ◌∙◌, inl, inr, true, not, ◌&&◌, none, some, List,
  [], ◌∷◌, ◌++◌, arith,
}
use aimebu.Types.{Room, Agent, Store}
use aimebu.Posting.{emit_system_message}
use aimebu.Rooms.{is_member}
use aimebu.Rooms.Valid.{AllGood-of_eq, RoomsValid, GoodRoom, AllGood, emit_simple-rooms}
use aimebu.Rooms.Membership.{is_member-of_eq}
use aimebu.Agents.Removal.{
  agent_update, room_update, vacated, send, system_name, deregister_agent, removed_agent, quoted,
  List, announce_vacated, without_agent,
}

announce_vacated-rooms :
    (id : Text) (now : ℕ) (vs : List (Text × Text)) (s : Store)
    → ((announce_vacated id now vs s).rooms ≡ s.rooms)
      × ((announce_vacated id now vs s).agents ≡ s.agents)
unfolding announce_vacated
announce_vacated-rooms id now [] s = (refl, refl)
announce_vacated-rooms id now ((room, key) ∷ rest) s =
    let t =
      emit_system_message room
        (bytes "role " ++ (quoted key ++ (bytes " vacated: " ++ (id ++ bytes " deregistered")))) now
        s in
    ground (
      arith,
      announce_vacated-rooms id now rest t,
      emit_simple-rooms room
          (bytes "role " ++ (quoted key ++ (bytes " vacated: " ++ (id ++ bytes " deregistered"))))
          now s,
    )

without_agent-GoodRoom :
    (agents : Map Text Agent) (id : Text) (r : Room)
    → GoodRoom agents r
    → GoodRoom (delete id agents) (without_agent id r)
unfolding without_agent
without_agent-GoodRoom agents id r g = record {
  distinct = select-Distinct (λ m. not (m == id)) r.members g.distinct;
  known = λ m h. ground (
    arith,
    contains-select (λ x. not (x == id)) m r.members,
    lookup-delete id m agents,
    g.known m,
    same_iff m id,
    same_iff id m,
  );
  held = λ m h. ground (
    arith,
    contains-select (λ x. not (x == id)) m r.members,
    lookup-delete id m r.roles,
    g.held m,
    same_iff m id,
    same_iff id m,
  );
}

pub map_rooms-AllGood :
    (f : Room → Room) (rooms : Map Text Room) (before later : Map Text Agent)
    → ((r : Room) → GoodRoom before r → GoodRoom later (f r))
    → AllGood rooms before
    → AllGood (map_values (λ _ r. f r) rooms) later
map_rooms-AllGood f rooms before later h v id r e = elim (Option-cases (lookup id rooms)) [
  | inl none_there ↦ absurd (ground (arith, lookup-map_values (λ _ x. f x) id rooms))
  | inr (q, there) ↦
      subst (GoodRoom later) (ground (arith, lookup-map_values (λ _ x. f x) id rooms))
        (h q (v id q there))
]

lookup-removed_agent :
    (id rid : Text) (s : Store)
    → lookup rid (removed_agent id s).rooms
      ≡ elim (lookup rid s.rooms) [ none ↦ none | some r ↦ some (without_agent id r) ]
unfolding removed_agent
lookup-removed_agent id rid s = lookup-map_values (λ _ r. without_agent id r) rid s.rooms

is_member-removed_agent :
    (id rid a : Text) (s : Store)
    → is_member rid a (removed_agent id s) ≡ (is_member rid a s && not (id == a))
unfolding is_member without_agent
is_member-removed_agent id rid a s = elim (Option-cases (lookup rid s.rooms)) [
  | inl e ↦ ground (arith, lookup-removed_agent id rid s)
  | inr (r, e) ↦ ground (
    arith,
    lookup-removed_agent id rid s,
    contains-select (λ x. not (x == id)) a r.members,
    same_iff a id,
    same_iff id a,
  )
]

-- The store after the removal and its messages.
deregistered : Text → ℕ → Store → Store
deregistered id now s = emit_system_message system_name (id ++ bytes " deregistered") now (
    announce_vacated id now (vacated id s.rooms)
      (send room_update (send agent_update (removed_agent id s))))

deregister_agent-known :
    (id : Text) (now : ℕ) (s : Store)
    → is_some (lookup id s.agents) ≡ true
    → deregister_agent id now s ≡ (deregistered id now s, true)
unfolding deregister_agent deregistered
deregister_agent-known id now s h = ground arith

deregistered-rooms :
    (id : Text) (now : ℕ) (s : Store)
    → ((deregistered id now s).rooms ≡ (removed_agent id s).rooms)
      × ((deregistered id now s).agents ≡ (removed_agent id s).agents)
unfolding deregistered
deregistered-rooms id now s =
    let quiet = send room_update (send agent_update (removed_agent id s)) in
    let told = announce_vacated id now (vacated id s.rooms) quiet in
    ground (
      arith,
      announce_vacated-rooms id now (vacated id s.rooms) quiet,
      emit_simple-rooms system_name (id ++ bytes " deregistered") now told,
    )

removed_agent-RoomsValid : (id : Text) (s : Store) → RoomsValid s → RoomsValid (removed_agent id s)
unfolding removed_agent
removed_agent-RoomsValid id s v =
    map_rooms-AllGood (without_agent id) s.rooms s.agents (delete id s.agents)
      (λ r g. without_agent-GoodRoom s.agents id r g) v

announce_vacated-Quiet :
    (id : Text) (now : ℕ) (vs : List (Text × Text)) (s : Store)
    → Quiet s (announce_vacated id now vs s)
unfolding announce_vacated
announce_vacated-Quiet id now [] s = Quiet-changed s s.rooms s.agents s.next_id s.events
announce_vacated-Quiet id now ((room, key) ∷ rest) s =
    let what =
      bytes "role " ++ (quoted key ++ (bytes " vacated: " ++ (id ++ bytes " deregistered"))) in
    let t = emit_system_message room what now s in
    Quiet-trans s t (announce_vacated id now rest t) (emit_system_message-Quiet room what now s)
      (announce_vacated-Quiet id now rest t)

deregistered-Quiet : (id : Text) (now : ℕ) (s : Store) → Quiet s (deregistered id now s)
unfolding deregistered removed_agent
deregistered-Quiet id now s =
    let gone = send room_update (send agent_update (removed_agent id s)) in
    let told = announce_vacated id now (vacated id s.rooms) gone in
    Quiet-trans s told _
      (Quiet-trans s gone told (Quiet-changed s gone.rooms gone.agents gone.next_id gone.events)
        (announce_vacated-Quiet id now (vacated id s.rooms) gone))
      (emit_system_message-Quiet system_name (id ++ bytes " deregistered") now told)

-- Deregistering a registered agent of a valid store takes its registration and no other, takes it
-- and its role, and nothing else, from every room, and keeps the store valid. All else that the
-- store keeps stays, reactions, preferences and sessions among it, and a history may only grow, by
-- messages of the system at its end.
pub deregister_agent_lem :
    (id rid a : Text) (now : ℕ) (s : Store)
    → RoomsValid s
    → is_some (lookup id s.agents) ≡ true
    → (t : Store) × (deregister_agent id now s ≡ (t, true))
      × RoomsValid t
      × (lookup a t.agents ≡ (if id == a then none else lookup a s.agents))
      × (is_member rid a t ≡ (is_member rid a s && not (id == a)))
      × (lookup rid t.rooms ≡ elim (lookup rid s.rooms) [
        | none ↦ none
        | some r ↦ some (record r {
          members = select (λ m. not (m == id)) r.members;
          roles = delete id r.roles;
        })
      ])
      × Quiet s t
unfolding removed_agent without_agent
deregister_agent_lem id rid a now s v h =
    let (rooms, agents) = deregistered-rooms id now s in
    (
      deregistered id now s,
      deregister_agent-known id now s h,
      AllGood-of_eq (deregistered-rooms id now s) (removed_agent-RoomsValid id s v),
      ap (λ (m : Map Text Agent). lookup a m) agents ∙ lookup-delete id a s.agents,
      is_member-of_eq rid a _ _ rooms ∙ is_member-removed_agent id rid a s,
      ap (λ (m : Map Text Room). lookup rid m) rooms ∙ lookup-removed_agent id rid s,
      deregistered-Quiet id now s,
    )
