-- ===== src/Agents/Liveness/Rounds.antt =====
-- One round of the liveness sweep over the store, and the messages it sends: sweepAgentLiveness,
-- livenessRoomsLocked, emitLivenessEvents, deriveAgentStates.
pub mod Silent
use aimebu.Prelude.{
  any, Map, is_some, or_zero, lookup, contains, Text, bytes, text_eq, text_ltb, trim_space, ltb,
  nat_beq, if◌then◌else◌, ◌==◌, nat_eq, ℕ, zero, suc, ◌+◌, ◌*◌, ◌/◌, ◌%◌, Bool, not, ◌||◌, none,
  some, List, [], ◌∷◌, ◌++◌, map,
}
use aimebu.Types.{
  second, is_ai, is_human, Room, no_state, same_state, Agent, agent_update, Store, send,
}
use aimebu.Posting.{emit_system_message_full, emit_system_message}
use aimebu.Agents.Liveness.{
  LivenessKind, went_offline, reconnected, Windows, next_state, sweep_agent,
}
use aimebu.Agents.Waits.{is_filled, is_active}

pub record LivenessRoom : Type 0 where
  pub room_id : Text
  pub role_key : Text
  pub humans : List Text

pub record LivenessEvent : Type 0 where
  pub agent_id : Text
  pub kind : LivenessKind
  pub rooms : List LivenessRoom

humans_of : Store → List Text → List Text
humans_of s [] = []
humans_of s (m ∷ ms) = elim (lookup m s.agents) [
  | none ↦ humans_of s ms
  | some a ↦ if is_human a.kind then a.id ∷ humans_of s ms else humans_of s ms
]

insert_room : LivenessRoom → List LivenessRoom → List LivenessRoom
unfolding text_ltb
insert_room r [] = r ∷ []
insert_room r (q ∷ qs) =
    let rest = insert_room r qs in if text_ltb q.room_id r.room_id then q ∷ rest else r ∷ (q ∷ qs)

rooms_of : Text → Store → Map Text Room → List LivenessRoom
unfolding insert_room humans_of
rooms_of agent s [] = []
rooms_of agent s ((id, r) ∷ rest) =
    let others = rooms_of agent s rest in
    let here : LivenessRoom = record {
      room_id = id;
      role_key = or_zero (lookup agent r.roles) [];
      humans = humans_of s r.members;
    } in
    if contains agent r.members then insert_room here others else others

-- Sorted by the rooms' IDs.
pub liveness_rooms : Text → Store → List LivenessRoom
unfolding rooms_of
liveness_rooms agent s = rooms_of agent s s.rooms

pub liveness_event : Text → LivenessKind → Store → LivenessEvent
unfolding liveness_rooms
liveness_event agent kind s = record {
  agent_id = agent;
  kind = kind;
  rooms = liveness_rooms agent s;
}

unfoldable pub sweep_agents :
    Windows → ℕ → Store → Map Text Agent → Map Text Agent × List LivenessEvent
unfolding sweep_agent liveness_event
sweep_agents w now s [] = ([], [])
sweep_agents w now s ((id, a) ∷ rest) =
    let (a', kinds) = sweep_agent w now (is_active a.id s) a in
    let (rest', events) = sweep_agents w now s rest in
    ((id, a') ∷ rest', map (λ k. liveness_event a.id k s) kinds ++ events)

-- Whether the loop's turn changes the agent.
pub changes : Windows → ℕ → Bool → Agent → Bool
unfolding next_state
changes w now active a =
    if is_ai a.kind
    then not (same_state a.state (next_state w now active a))
    else not (same_state a.state no_state) || is_some a.state_at

unfoldable pub sweep_agent_liveness : Windows → ℕ → Store → Store × List LivenessEvent
unfolding sweep_agents changes
sweep_agent_liveness w now s =
    let (agents', events) = sweep_agents w now s s.agents in
    let s' : Store = record s { agents = agents' } in
    let changed = any (λ e. changes w now (is_active e.1.id s) e.1) s.agents in
    (if changed then send agent_update s' else s', events)

-- fmt's %d.
decimal_up : ℕ → ℕ → Text
decimal_up zero n = []
decimal_up (suc fuel) n =
    let before = decimal_up fuel (n / 10) in
    let digit = b'0' + n % 10 in if ltb n 10 then digit ∷ [] else before ++ digit ∷ []

decimal : ℕ → Text
unfolding decimal_up
decimal n = decimal_up (suc n) n

liveness_subject : Text → Text → Text
unfolding trim_space
liveness_subject role agent = if trim_space role == [] then agent else role ++ (bytes " " ++ agent)

format_duration_for_humans : ℕ → Text
unfolding decimal
format_duration_for_humans d =
    if nat_beq (d % (60 * second)) 0
    then decimal (d / (60 * second)) ++ bytes "m"
    else decimal (d / second) ++ bytes "s"

pub liveness_message : Windows → ℕ → LivenessKind → Text → LivenessRoom → Store → Store
unfolding liveness_subject format_duration_for_humans emit_system_message_full emit_system_message
liveness_message w now went_offline agent r s =
    emit_system_message_full r.room_id
      (liveness_subject r.role_key agent
        ++ (bytes " looks offline (no activity for "
            ++ (format_duration_for_humans w.offline_after ++ bytes ")")))
      (if is_filled r.humans then some r.humans else none) (is_filled r.humans) now s
liveness_message w now reconnected agent r s =
    emit_system_message r.room_id (agent ++ bytes " reconnected") now s

pub message_rooms : Windows → ℕ → LivenessEvent → List LivenessRoom → Store → Store
unfolding liveness_message
message_rooms w now e [] s = s
message_rooms w now e (r ∷ rs) s =
    message_rooms w now e rs (liveness_message w now e.kind e.agent_id r s)

unfoldable pub emit_liveness_events : Windows → ℕ → List LivenessEvent → Store → Store
unfolding message_rooms
emit_liveness_events w now [] s = s
emit_liveness_events w now (e ∷ es) s =
    emit_liveness_events w now es (message_rooms w now e e.rooms s)

unfoldable pub derive_agent_states : Windows → ℕ → Store → Store
unfolding sweep_agent_liveness emit_liveness_events
derive_agent_states w now s =
    let (s', events) = sweep_agent_liveness w now s in emit_liveness_events w now events s'
