-- ===== src/Agents/Calls.antt =====
-- The calls that change rooms or agents, one after another, in any order.
use aimebu.Prelude.{
  All, Map, is_some, lookup, Text, text_eq, Bool-cases, nat_eq, ℕ, ◌≡◌, sym, subst, inl, inr, Bool,
  true, false, Option, List, [], ◌∷◌, arith,
}
use aimebu.Types.{AgentSession, Store, after_pair, after_triple}
use aimebu.Rooms.Valid.{RoomsValid}
use aimebu.Rooms.Calls.{RoomCall, room_step, Apart, room_step-RoomsValid}
use aimebu.Agents.{}
use aimebu.Agents.Register.{register_human, register_ai}
use aimebu.Agents.Register.Rules.{register_human-RoomsValid, register_ai-RoomsValid}
use aimebu.Agents.Removal.{deregister_agent, cleanup_stale_agents, cleared_room, clear_all}
use aimebu.Agents.Removal.Rules.{map_rooms-AllGood, deregister_agent_lem}
use aimebu.Agents.Removal.Pruning.{cleanup-RoomsValid}
use aimebu.Agents.Removal.Clearing.{cleared-GoodRoom}

pub data BusCall : Type 0 where
  on_rooms : RoomCall → BusCall
  registers_human : Text → Text → Map Text Text → BusCall
  registers_ai : ℕ → Text → Text → Text → Map Text Text → Text → Option AgentSession → BusCall
  deregisters : Text → BusCall
  cleans : ℕ → BusCall
  clears : Bool → BusCall

-- A direct message to oneself is left out.
abbrev pub Allowed : BusCall → Type 0
Allowed (on_rooms c) = Apart c
Allowed _ = Unit {0}

not_there :
    (id : Text) (now : ℕ) (s : Store)
    → is_some (lookup id s.agents) ≡ false
    → deregister_agent id now s ≡ (s, false)
unfolding deregister_agent
not_there id now s h = ground arith

deregister-RoomsValid :
    (id : Text) (now : ℕ) (s : Store) → RoomsValid s → RoomsValid (deregister_agent id now s).0
deregister-RoomsValid id now s v = elim (Bool-cases (is_some (lookup id s.agents))) [
  | inl known ↦
      let (t, done, valid, _, _, _, _) = deregister_agent_lem id id id now s v known in
      subst (λ (o : Store × Bool). RoomsValid o.0) (sym done) valid
  | inr unknown ↦ subst (λ (o : Store × Bool). RoomsValid o.0) (sym (not_there id now s unknown)) v
]

clear_all-RoomsValid : (all : Bool) (s : Store) → RoomsValid s → RoomsValid (clear_all all s)
unfolding clear_all cleared_room lookup
clear_all-RoomsValid true s v = λ id r e. absurd (ground arith)
clear_all-RoomsValid false s v =
    map_rooms-AllGood (cleared_room s.agents) s.rooms s.agents []
      (λ r g. cleared-GoodRoom s.agents r g) v

module _ (slug : Text → Text → Text) where
  unfoldable pub bus_step : Store → ℕ × BusCall → Store
  bus_step s (now, on_rooms c) = room_step s (now, c)
  bus_step s (now, registers_human name project meta) =
      after_pair s (register_human name project meta now s)
  bus_step s (now, registers_ai start model harness project meta force hint) =
      after_triple s (register_ai slug start model harness project meta force hint now s)
  bus_step s (now, deregisters id) = (deregister_agent id now s).0
  bus_step s (now, cleans window) = cleanup_stale_agents window now s
  bus_step s (now, clears all) = clear_all all s

  unfoldable pub run_bus : Store → List (ℕ × BusCall) → Store
  unfolding bus_step
  run_bus s [] = s
  run_bus s (c ∷ cs) = run_bus (bus_step s c) cs

  bus_step-RoomsValid :
      (s : Store) (now : ℕ) (c : BusCall)
      → Allowed c
      → RoomsValid s
      → RoomsValid (bus_step s (now, c))
  unfolding bus_step
  bus_step-RoomsValid s now (on_rooms c) h v = room_step-RoomsValid s now c h v
  bus_step-RoomsValid s now (registers_human name project meta) h v =
      register_human-RoomsValid name project meta now s v
  bus_step-RoomsValid s now (registers_ai start model harness project meta force hint) h v =
      register_ai-RoomsValid slug start model harness project meta force hint now s v
  bus_step-RoomsValid s now (deregisters id) h v = deregister-RoomsValid id now s v
  bus_step-RoomsValid s now (cleans window) h v = cleanup-RoomsValid window now s v
  bus_step-RoomsValid s now (clears all) h v = clear_all-RoomsValid all s v

  -- Whatever calls are made on rooms and agents in whatever order, registrations, removals, stale
  -- cleanups and prunes among them, direct messages to oneself aside: no agent is a member of a
  -- room twice, every member is registered, and every role is held by a member of its room.
  pub run_bus-RoomsValid :
      (s : Store) (calls : List (ℕ × BusCall))
      → All (λ c. Allowed c.1) calls
      → RoomsValid s
      → RoomsValid (run_bus s calls)
  unfolding run_bus
  run_bus-RoomsValid s [] h v = v
  run_bus-RoomsValid s ((now, c) ∷ cs) h v =
      run_bus-RoomsValid (bus_step s (now, c)) cs h.1 (bus_step-RoomsValid s now c h.0 v)
