-- ===== src/Agents.antt =====
-- internal/server/store_agents.go: the agents' records and their keepalives.
pub mod Waits
pub mod Liveness
pub mod Removal
pub mod Names
pub mod Register
pub mod Calls
use aimebu.Prelude.{
  lookup, insert, Text, text_eq, ltb, if◌then◌else◌, ◌==◌, nat_eq, ℕ, ◌+◌, ◌*◌, Bool, true, false,
  not, ◌&&◌, none, some, [],
}
use aimebu.Types.{Stamp, second, stamp, is_ai, Agent, agent_update, Store, send}

unfoldable pub put_agent : Text → Agent → Store → Store
put_agent id a s = record s { agents = insert id a s.agents }

-- `time.Since(prev) > 30*time.Second`; a stamp that does not parse is the zero time.
abbrev pub long_ago : Stamp → ℕ → Bool
long_ago none now = true
long_ago (some t) now = ltb (t + 30 * second) now

unfoldable pub seen_at : ℕ → Agent → Agent
seen_at now a = record a { last_seen = stamp now }

unfoldable pub touch_agent : Text → ℕ → Store → Store
unfolding put_agent seen_at
touch_agent id now s = elim (lookup id s.agents) [
  | none ↦ s
  | some a ↦
      let s' = put_agent id (seen_at now a) s in
      if long_ago a.last_seen now then send agent_update s' else s'
]

-- touchAgentSessionLocked
unfoldable pub touch_agent_session : Text → ℕ → Store → Store
touch_agent_session id now s = elim (lookup id s.agent_sessions) [
  | none ↦ s
  | some x ↦ record s { agent_sessions = insert id (record x { last_seen = now }) s.agent_sessions }
]

unfoldable pub heartbeat_agent : Text → ℕ → Store → Store × Bool
unfolding put_agent seen_at touch_agent_session
heartbeat_agent id now s = elim (lookup id s.agents) [
  | none ↦ (s, false)
  | some a ↦
      let s' = touch_agent_session id now (put_agent id (seen_at now a) s) in
      (if long_ago a.last_seen now then send agent_update s' else s', true)
]

unfoldable pub agent_is_ai : Text → Store → Bool
agent_is_ai id s =
    not (id == []) && elim (lookup id s.agents) [ none ↦ false | some a ↦ is_ai a.kind ]
