-- ===== src/Agents/Liveness.antt =====
-- Liveness of internal/server/store_agents.go: setAgentState, sweepAgentLiveness,
-- livenessRoomsLocked, emitLivenessEvents, and POST /agents/{id}/state of server.go.
pub mod Edges
pub mod Rounds
use aimebu.Prelude.{
  lookup, Text, text_eq, ltb, if◌then◌else◌, nat_eq, ℕ, ◌+◌, Bool, true, false, not, ◌&&◌, ◌||◌,
  none, some, List, [], ◌∷◌, ◌++◌,
}
use aimebu.Types.{
  Stamp, is_ai, AgentState, no_state, idle, thinking, tool_call, error, stopped, stale, offline,
  same_state, Agent, agent_update, Store, not_registered, type_required, Result, ok, err, send,
}
use aimebu.Agents.{put_agent, touch_agent}

-- isValidAgentState: the states that may be pushed.
abbrev pub is_valid_agent_state : AgentState → Bool
is_valid_agent_state no_state = false
is_valid_agent_state _ = true

abbrev pub is_activity : AgentState → Bool
is_activity thinking = true
is_activity tool_call = true
is_activity _ = false

-- What a pushed state makes of an AI agent; the flag says whether clients are told.
unfoldable pub push_state : AgentState → ℕ → Agent → Agent × Bool
push_state state now a =
    if same_state a.state offline
    then (
      if is_activity state || not (same_state a.pending_state no_state)
          then record a { pending_state = state }
          else a,
      false,
    )
    else (record a { state = state; state_at = some now }, not (same_state a.state state))

unfoldable pub set_agent_state : Text → AgentState → ℕ → Store → Store × Bool
unfolding push_state put_agent touch_agent
set_agent_state id state now s = elim (lookup id s.agents) [
  | none ↦ (s, false)
  | some a ↦
      let (a', updated) = push_state state now a in
      let stored = put_agent id a' s in
      let told = if updated then send agent_update stored else stored in
      if is_ai a.kind
      then (if is_activity state then touch_agent id now told else told, true)
      else (s, true)
]

-- POST /agents/{id}/state
pub push_agent_state : Text → AgentState → ℕ → Store → Result Store
unfolding set_agent_state
push_agent_state id state now s =
    let (s', found) = set_agent_state id state now s in
    if is_valid_agent_state state
    then (if found then ok s' else err not_registered)
    else err type_required

pub data LivenessKind : Type 0 where
  went_offline reconnected : LivenessKind

-- The times after which an agent that gives no sign is stale, and offline.
pub record Windows : Type 0 where
  pub stale_after : ℕ
  pub offline_after : ℕ

abbrev is_away : AgentState → Bool
is_away stale = true
is_away offline = true
is_away _ = false

-- The states that silence does not change.
abbrev pub is_final : AgentState → Bool
is_final stopped = true
is_final error = true
is_final _ = false

-- The state for an age; a stamp that does not parse changes nothing.
unfoldable pub by_age : Windows → ℕ → Stamp → AgentState → AgentState
by_age w now none prev = prev
by_age w now (some seen) prev =
    if ltb (seen + w.offline_after) now
    then offline
    else if ltb (seen + w.stale_after) now
    then stale
    else if is_away prev
    then idle
    else prev

unfoldable pub next_state : Windows → ℕ → Bool → Agent → AgentState
unfolding by_age
next_state w now active a =
    if active
    then (if is_away a.state then idle else a.state)
    else if is_final a.state
    then a.state
    else by_age w now a.last_seen a.state

-- The state that was pushed while the agent was offline takes the place of idle.
abbrev resumed : AgentState → AgentState → AgentState → AgentState
resumed prev next pending =
    if same_state prev offline && same_state next idle && not (same_state pending no_state)
    then pending
    else next

abbrev if_kind : Bool → LivenessKind → List LivenessKind
if_kind true k = k ∷ []
if_kind false k = []

-- One turn of the sweep's loop, for an AI agent.
unfoldable pub sweep_ai : Windows → ℕ → Bool → Agent → Agent × List LivenessKind
unfolding next_state
sweep_ai w now active a =
    let next = next_state w now active a in
    let back = if_kind (same_state a.state offline && same_state next idle) reconnected in
    let final = resumed a.state next a.pending_state in
    let pending = if same_state a.state offline then no_state else a.pending_state in
    if same_state a.state next then (a, back) else (
      record a { state = final; state_at = some now; pending_state = pending },
      back ++ if_kind (same_state final offline) went_offline,
    )

-- Humans have no state.
unfoldable pub sweep_agent : Windows → ℕ → Bool → Agent → Agent × List LivenessKind
unfolding sweep_ai
sweep_agent w now active a =
    if is_ai a.kind
    then sweep_ai w now active a
    else (record a { state = no_state; state_at = none }, [])
