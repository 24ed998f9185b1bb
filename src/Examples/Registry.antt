-- ===== src/Examples/Registry.antt =====
-- Tests of registration and removal, and each of their theorems at sample stores.
use aimebu.Posting.Frame.{Quiet}
use aimebu.Prelude.{
  select, is_some, lookup, delete, Text, bytes, same, text_eq, if◌then◌else◌, ◌==◌, nat_eq, ℕ, ◌≡◌,
  refl, ◌⊎◌, Bool, true, false, not, ◌&&◌, none, some, List, [], ◌∷◌, arith,
}
use aimebu.Types.{ai, Room, Agent, Store, after_triple, Keyed}
use aimebu.Rooms.{is_member}
use aimebu.Rooms.Valid.{RoomsValid}
use aimebu.Rooms.Calls.{joins}
use aimebu.Agents.Names.{pick_random_name}
use aimebu.Agents.Register.{register_ai}
use aimebu.Agents.Register.Rules.{}
use aimebu.Agents.Register.Identity.{
  Request, Claimed, register_ai-Keeps, Picked, pick_random_name-Picked,
}
use aimebu.Agents.Removal.{deregister_agent, cleanup_stale_agents, clear_all}
use aimebu.Agents.Removal.Rules.{deregister_agent_lem}
use aimebu.Agents.Removal.Pruning.{stale_under, cleanup_stale_agents_lem}
use aimebu.Agents.Removal.Clearing.{clear_all-empty}
use aimebu.Agents.Calls.{
  BusCall, on_rooms, registers_human, registers_ai, deregisters, cleans, clears, run_bus,
  run_bus-RoomsValid,
}
use aimebu.Examples.{
  alice, bob, carol, hall, agent_of, hall_room, hall_store, hall_store-RoomsValid,
}

-- A slug function that keeps the model as it is.
abbrev keep_model : Text → Text → Text
keep_model model harness = model

abbrev day : List (ℕ × BusCall)
day =
    (1, registers_human (bytes "dora") [] [])
    ∷ (2, registers_ai 3 (bytes "m") (bytes "h") (bytes "x") [] [] none)
    ∷ (3, on_rooms (joins hall carol))
    ∷ (4, deregisters bob)
    ∷ (5, cleans 10)
    ∷ (6, clears false)
    ∷ []

run_bus-RoomsValid_example : RoomsValid (run_bus keep_model hall_store day)
run_bus-RoomsValid_example =
    run_bus-RoomsValid keep_model hall_store day (tt, (tt, (tt, (tt, (tt, (tt, tt))))))
      hall_store-RoomsValid

bob_registered : is_some (lookup bob hall_store.agents) ≡ true
unfolding lookup same
bob_registered = refl

deregister_agent_example :
    (t : Store) × (deregister_agent bob 9 hall_store ≡ (t, true))
    × RoomsValid t
    × (lookup alice t.agents ≡ (if bob == alice then none else lookup alice hall_store.agents))
    × (is_member hall alice t ≡ (is_member hall alice hall_store && not (bob == alice)))
    × (lookup hall t.rooms ≡ elim (lookup hall hall_store.rooms) [
      | none ↦ none
      | some r ↦ some (record r {
        members = select (λ m. not (m == bob)) r.members;
        roles = delete bob r.roles;
      })
    ])
    × Quiet hall_store t
deregister_agent_example =
    deregister_agent_lem bob hall alice 9 hall_store hall_store-RoomsValid bob_registered

hall_agents-Keyed : Keyed hall_store.agents
unfolding same
hall_agents-Keyed = ground arith

cleanup_stale_agents_example :
    let t = cleanup_stale_agents 10 100 hall_store in
    let gone = stale_under 10 100 hall_store.agents bob in
    RoomsValid t
    × (is_some (lookup bob t.agents) ≡ (is_some (lookup bob hall_store.agents) && not gone))
    × (is_member hall bob t ≡ (is_member hall bob hall_store && not gone))
cleanup_stale_agents_example =
    cleanup_stale_agents_lem 10 100 hall bob hall_store hall_store-RoomsValid hall_agents-Keyed

hall_there : lookup hall hall_store.rooms ≡ some hall_room
unfolding lookup same
hall_there = refl

clear_all-empty_example :
    ((clear_all false hall_store).agents ≡ [])
    × ((clear_all false hall_store).agent_sessions ≡ [])
    × ((q : Room) × (lookup hall (clear_all false hall_store).rooms ≡ some q)
        × (q.members ≡ [])
        × (is_some (lookup bob q.roles) ≡ false))
clear_all-empty_example =
    clear_all-empty hall bob hall_room hall_store hall_store-RoomsValid hall_there

bob_stored : lookup bob hall_store.agents ≡ some (agent_of bob ai)
unfolding lookup same
bob_stored = refl

abbrev as_bob : Request
as_bob = record {
  model = bytes "m";
  harness = bytes "h";
  project = bytes "x";
  meta = [];
  name = bytes "bob";
}

-- A registered bob, of that model, harness and project.
abbrev own_bob : Agent
own_bob = record (agent_of bob ai) { model = bytes "m"; harness = bytes "h"; project = bytes "x" }

abbrev bob_store : Store
bob_store = record hall_store { agents = (bob, own_bob) ∷ [] }

bob_there : lookup bob bob_store.agents ≡ some own_bob
unfolding lookup same
bob_there = refl

register_ai-Keeps_example :
    let t = after_triple bob_store (
      register_ai keep_model 3
        (bytes "m")
        (bytes "h")
        (bytes "x")
        []
        (bytes "bob")
        none
        9
        bob_store) in
    (y : Agent) × (lookup bob t.agents ≡ some y)
    × ((y ≡ own_bob) ⊎ Claimed keep_model as_bob bob own_bob y)
register_ai-Keeps_example =
    register_ai-Keeps keep_model as_bob 9 3 none bob_store bob own_bob (refl, tt, tt) bob_there

abbrev is_alice : Text → Bool
is_alice n = n == alice

pick_random_name-Picked_example :
    Picked is_alice (alice ∷ bob ∷ []) (pick_random_name 0 is_alice (alice ∷ bob ∷ []))
pick_random_name-Picked_example = pick_random_name-Picked 0 is_alice (alice ∷ bob ∷ [])
