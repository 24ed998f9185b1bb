-- ===== src/Agents/Removal/Pruning.antt =====
-- What cleanupStaleAgents and a plain prune take away.
use aimebu.Prelude.{
  Map, is_some, lookup, delete, map_values, lookup-delete, lookup-map_values, NoKey, contains,
  contains-remove_first_lem, Text, bytes, same_iff, text_eq, ◌==◌, Bool-cases, Option-cases, nat_eq,
  ℕ, ◌≡◌, refl, subst, ◌∙◌, inl, inr, Bool, false, not, ◌&&◌, none, some, List, [], ◌∷◌, ◌++◌,
  arith,
}
use aimebu.Types.{Room, Agent, room_update, agent_update, Store, send, Keyed}
use aimebu.Posting.{system_name, emit_system_message}
use aimebu.Rooms.{is_member, without_member}
use aimebu.Rooms.Valid.{
  GoodRoom, RoomsValid, emit_simple-rooms, AllGood-of_eq, without_member-GoodRoom,
}
use aimebu.Rooms.Membership.{is_member-of_eq}
use aimebu.Agents.Removal.{
  agent_update, room_update, send, prune_all, rooms_with, announce_in, announce_pruned, is_stale,
  stale_ids, prune_agents, cleanup_stale_agents,
}
use aimebu.Agents.Removal.Rules.{map_rooms-AllGood}

-- One turn of the loop over the stale agents.
abbrev pruned : Text → Store → Store
pruned id s = record s {
  agents = delete id s.agents;
  rooms = map_values (λ _ r. without_member id r) s.rooms;
}

pruned-GoodRoom :
    (agents : Map Text Agent) (id : Text) (r : Room)
    → GoodRoom agents r
    → GoodRoom (delete id agents) (without_member id r)
unfolding without_member
pruned-GoodRoom agents id r g =
    let w = without_member-GoodRoom agents id r g in
    record {
      distinct = w.distinct;
      known = λ m h. ground (
        arith,
        lookup-delete id m agents,
        w.known m h,
        contains-remove_first_lem id m r.members g.distinct,
      );
      held = w.held;
    }

pruned-RoomsValid : (id : Text) (s : Store) → RoomsValid s → RoomsValid (pruned id s)
pruned-RoomsValid id s v =
    map_rooms-AllGood (without_member id) s.rooms s.agents (delete id s.agents)
      (λ r g. pruned-GoodRoom s.agents id r g) v

is_member-pruned :
    (id rid a : Text) (s : Store)
    → RoomsValid s
    → is_member rid a (pruned id s) ≡ (is_member rid a s && not (id == a))
unfolding is_member without_member
is_member-pruned id rid a s v = elim (Option-cases (lookup rid s.rooms)) [
  | inl e ↦ ground (arith, lookup-map_values (λ _ r. without_member id r) rid s.rooms)
  | inr (r, e) ↦ ground (
    arith,
    lookup-map_values (λ _ r. without_member id r) rid s.rooms,
    contains-remove_first_lem id a r.members (v rid r e).distinct,
  )
]

abbrev Pruned : List Text → Store → Store → Type 0
Pruned ids s t =
    RoomsValid t
    × ((a : Text)
        → is_some (lookup a t.agents) ≡ (is_some (lookup a s.agents) && not (contains a ids)))
    × ((rid a : Text) → is_member rid a t ≡ (is_member rid a s && not (contains a ids)))

prune_agents-Pruned :
    (ids : List Text) (s : Store) → RoomsValid s → Pruned ids s (prune_agents ids s)
unfolding prune_agents contains
prune_agents-Pruned [] s v = (v, λ a. ground arith, λ rid a. ground arith)
prune_agents-Pruned (id ∷ ids) s v =
    let (v', agents, members) = prune_agents-Pruned ids (pruned id s) (pruned-RoomsValid id s v) in
    (
      v',
      λ a. ground (arith, agents a, lookup-delete id a s.agents),
      λ rid a. ground (arith, members rid a, is_member-pruned id rid a s v),
    )

announce_in-rooms :
    (id : Text) (now : ℕ) (rooms : List Text) (s : Store)
    → ((announce_in id now rooms s).rooms ≡ s.rooms)
      × ((announce_in id now rooms s).agents ≡ s.agents)
unfolding announce_in
announce_in-rooms id now [] s = (refl, refl)
announce_in-rooms id now (room ∷ rooms) s =
    let what = id ++ bytes " pruned after stale timeout" in
    ground (
      arith,
      announce_in-rooms id now rooms (emit_system_message room what now s),
      emit_simple-rooms room what now s,
    )

announce_pruned-rooms :
    (before : Map Text Room) (now : ℕ) (ids : List Text) (s : Store)
    → ((announce_pruned before now ids s).rooms ≡ s.rooms)
      × ((announce_pruned before now ids s).agents ≡ s.agents)
unfolding announce_pruned
announce_pruned-rooms before now [] s = (refl, refl)
announce_pruned-rooms before now (id ∷ ids) s =
    let told = announce_in id now (rooms_with id before) s in
    let what = id ++ bytes " pruned (stale)" in
    ground (
      arith,
      announce_pruned-rooms before now ids (emit_system_message system_name what now told),
      emit_simple-rooms system_name what now told,
      announce_in-rooms id now (rooms_with id before) s,
    )

-- Whether the agent registered under an ID has been silent for longer than the window.
abbrev pub stale_under : ℕ → ℕ → Map Text Agent → Text → Bool
stale_under window now agents a = elim (lookup a agents) [
  | none ↦ false
  | some x ↦ is_stale window now x
]

stale_ids-none :
    (window now : ℕ) (a : Text) (agents : Map Text Agent)
    → NoKey a agents
    → contains a (stale_ids window now agents) ≡ false
unfolding stale_ids contains
stale_ids-none window now a [] n = refl
stale_ids-none window now a ((j, x) ∷ rest) n = ground (arith, stale_ids-none window now a rest n.1)

contains-stale_ids :
    (window now : ℕ) (a : Text) (agents : Map Text Agent)
    → Keyed agents
    → contains a (stale_ids window now agents) ≡ stale_under window now agents a
unfolding stale_ids contains lookup
contains-stale_ids window now a [] k = refl
contains-stale_ids window now a ((j, x) ∷ rest) k = elim (Bool-cases (j == a)) [
  | inl here ↦ ground (
    arith,
    stale_ids-none window now a rest (subst (λ y. NoKey y rest) ((same_iff j a).0 here) k.1),
  )
  | inr there ↦ ground (arith, contains-stale_ids window now a rest k.2)
]

prune_all-rooms :
    (now : ℕ) (ids : List Text) (s : Store)
    → ((prune_all now ids s).rooms ≡ (prune_agents ids s).rooms)
      × ((prune_all now ids s).agents ≡ (prune_agents ids s).agents)
unfolding prune_all prune_agents
prune_all-rooms now [] s = (refl, refl)
prune_all-rooms now (id ∷ ids) s =
    announce_pruned-rooms s.rooms now (id ∷ ids)
      (send room_update (send agent_update (prune_agents (id ∷ ids) s)))

pub cleanup-RoomsValid :
    (window now : ℕ) (s : Store) → RoomsValid s → RoomsValid (cleanup_stale_agents window now s)
unfolding cleanup_stale_agents
cleanup-RoomsValid window now s v =
    let ids = stale_ids window now s.agents in
    AllGood-of_eq (prune_all-rooms now ids s) (prune_agents-Pruned ids s v).0

-- Cleaning up removes exactly the agents silent for longer than the window, from the registry and
-- from every room, keeps every other agent and membership, and leaves a valid store valid.
pub cleanup_stale_agents_lem :
    (window now : ℕ) (rid a : Text) (s : Store)
    → RoomsValid s
    → Keyed s.agents
    → let t = cleanup_stale_agents window now s in
      let gone = stale_under window now s.agents a in
      RoomsValid t
      × (is_some (lookup a t.agents) ≡ (is_some (lookup a s.agents) && not gone))
      × (is_member rid a t ≡ (is_member rid a s && not gone))
unfolding cleanup_stale_agents
cleanup_stale_agents_lem window now rid a s v k =
    let ids = stale_ids window now s.agents in
    let (v', agents, members) = prune_agents-Pruned ids s v in
    let fields = prune_all-rooms now ids s in
    (
      AllGood-of_eq fields v',
      ground (arith, fields, agents a, contains-stale_ids window now a s.agents k),
      is_member-of_eq rid a (prune_agents ids s) (prune_all now ids s) fields.0
          ∙ ground (arith, members rid a, contains-stale_ids window now a s.agents k),
    )
