-- ===== src/Agents/Removal.antt =====
-- Agents that go: deregisterAgent of internal/server/store_agents.go, cleanupStaleAgents and
-- clearAll of store.go.
pub mod Rules
pub mod Pruning
pub mod Clearing
use aimebu.Rooms.{without_member}
use aimebu.Prelude.{
  select, Map, is_some, lookup, delete, map_values, contains, Text, bytes, text_eq, ltb,
  if◌then◌else◌, ◌==◌, nat_eq, ℕ, ◌+◌, Bool, true, false, not, none, some, List, [], ◌∷◌, ◌++◌,
}
use aimebu.Types.{Room, stale, Agent, room_update, agent_update, Store, send, after}
use aimebu.Posting.{system_name, emit_system_message}

-- `for _, room := range s.rooms { ... }` with the members and roles changed in place.
unfoldable pub without_agent : Text → Room → Room
without_agent id r = record r {
  members = select (λ m. not (m == id)) r.members;
  roles = delete id r.roles;
}

-- The rooms where the agent held a role, and which.
vacated : Text → Map Text Room → List (Text × Text)
vacated id [] = []
vacated id ((room, r) ∷ rest) =
    let later = vacated id rest in
    elim (lookup id r.roles) [ none ↦ later | some key ↦ (room, key) ∷ later ]

-- fmt's %q of a key without quotes or escapes: the key between two quotes, byte 34.
abbrev quoted : Text → Text
quoted t = 34 ∷ (t ++ 34 ∷ [])

announce_vacated : Text → ℕ → List (Text × Text) → Store → Store
unfolding emit_system_message
announce_vacated id now [] s = s
announce_vacated id now ((room, key) ∷ rest) s = announce_vacated id now rest (
    emit_system_message room
      (bytes "role " ++ (quoted key ++ (bytes " vacated: " ++ (id ++ bytes " deregistered")))) now
      s)

-- The agents and rooms once `id` went.
unfoldable pub removed_agent : Text → Store → Store
unfolding without_agent
removed_agent id s = record s {
  agents = delete id s.agents;
  rooms = map_values (λ _ r. without_agent id r) s.rooms;
}

unfoldable pub deregister_agent : Text → ℕ → Store → Store × Bool
unfolding removed_agent vacated announce_vacated emit_system_message
deregister_agent id now s = elim (lookup id s.agents) [
  | none ↦ (s, false)
  | some a ↦
      let told =
        announce_vacated id now (vacated id s.rooms)
          (send room_update (send agent_update (removed_agent id s))) in
      (emit_system_message system_name (id ++ bytes " deregistered") now told, true)
]

-- `lastSeen.Before(now - window)`; a stamp that does not parse keeps its agent.
abbrev pub is_stale : ℕ → ℕ → Agent → Bool
is_stale window now a = elim a.last_seen [ none ↦ false | some t ↦ ltb (t + window) now ]

unfoldable pub stale_ids : ℕ → ℕ → Map Text Agent → List Text
stale_ids window now [] = []
stale_ids window now ((id, a) ∷ rest) =
    let later = stale_ids window now rest in if is_stale window now a then id ∷ later else later

rooms_with : Text → Map Text Room → List Text
rooms_with id [] = []
rooms_with id ((_, r) ∷ rest) =
    let later = rooms_with id rest in if contains id r.members then r.id ∷ later else later

-- The first entry of the agent goes from each room, and its role.
unfoldable pub prune_agents : List Text → Store → Store
unfolding without_member
prune_agents [] s = s
prune_agents (id ∷ ids) s = prune_agents ids (record s {
  agents = delete id s.agents;
  rooms = map_values (λ _ r. without_member id r) s.rooms;
})

announce_in : Text → ℕ → List Text → Store → Store
unfolding emit_system_message
announce_in id now [] s = s
announce_in id now (room ∷ rooms) s =
    announce_in id now rooms
      (emit_system_message room (id ++ bytes " pruned after stale timeout") now s)

-- `before` are the rooms as they were, where the memberships are read.
announce_pruned : Map Text Room → ℕ → List Text → Store → Store
unfolding announce_in rooms_with
announce_pruned before now [] s = s
announce_pruned before now (id ∷ ids) s = announce_pruned before now ids (
    emit_system_message system_name (id ++ bytes " pruned (stale)") now
      (announce_in id now (rooms_with id before) s))

-- Without stale agents nothing is stored or told.
prune_all : ℕ → List Text → Store → Store
unfolding prune_agents announce_pruned
prune_all now [] s = s
prune_all now (id ∷ ids) s =
    announce_pruned s.rooms now (id ∷ ids)
      (send room_update (send agent_update (prune_agents (id ∷ ids) s)))

unfoldable pub cleanup_stale_agents : ℕ → ℕ → Store → Store
unfolding stale_ids prune_all
cleanup_stale_agents window now s = prune_all now (stale_ids window now s.agents) s

-- The roles that a plain prune leaves: those of members that go are deleted.
drop_roles : Map Text Agent → List Text → Map Text Text → Map Text Text
drop_roles agents [] roles = roles
drop_roles agents (m ∷ ms) roles =
    drop_roles agents ms (if is_some (lookup m agents) then delete m roles else roles)

unfoldable pub cleared_room : Map Text Agent → Room → Room
unfolding drop_roles
cleared_room agents r = record r {
  members = select (λ m. not (is_some (lookup m agents))) r.members;
  roles = drop_roles agents r.members r.roles;
}

-- A plain prune drops the agents and their sessions; a full one the rooms and all else, too.
unfoldable pub clear_all : Bool → Store → Store
unfolding cleared_room
clear_all false s = send room_update (
    send agent_update (record s {
      agents = [];
      agent_sessions = [];
      rooms = map_values (λ _ r. cleared_room s.agents r) s.rooms;
    }))
clear_all true s = send agent_update (
    send room_update (record s {
      rooms = [];
      messages = [];
      agents = [];
      agent_sessions = [];
      room_prefs = [];
      attachments = [];
      reactions = [];
      roles_overrides = [];
      roles_custom = [];
      memory = [];
      memory_enabled = none;
    }))
