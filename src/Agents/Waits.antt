-- ===== src/Agents/Waits.antt =====
-- Open waits and sockets of internal/server/store_agents.go: enterWait, leaveWait, enterWS, leaveWS,
-- activeAgentIDs, roomPresence. A scope is a room, or "" for a wait on all of the agent's rooms.
pub mod Counts
pub mod Calls
use aimebu.Prelude.{
  Map, or_zero, lookup, insert, delete, Text, text_eq, ltb, if◌then◌else◌, ◌==◌, nat_eq, ℕ, ◌+◌,
  ◌-◌, Bool, true, false, not, ◌||◌, Option, none, some, List, [], ◌∷◌, map,
}
use aimebu.Types.{agent_update, presence, Store, send}
use aimebu.Cursors.{cursor_in, cursor_for}

abbrev pub scopes_of : Text → Store → Map Text ℕ
scopes_of agent s = or_zero (lookup agent s.open_waits) []

abbrev pub sockets : Text → Store → ℕ
sockets agent s = or_zero (lookup agent s.open_ws) 0

-- `len(m) > 0`
abbrev pub is_filled {ℓ} : {A : Type ℓ} → List A → Bool
is_filled [] = false
is_filled (x ∷ xs) = true

-- The cursor that a presence event carries: none for a wait on all rooms.
abbrev pub presence_cursor : Text → Text → Store → Option ℕ
presence_cursor agent room s = if room == [] then none else some (cursor_for agent room s)

unfoldable pub enter_wait : Text → Text → Store → Store
unfolding cursor_for
enter_wait agent room s =
    let scopes = scopes_of agent s in
    let scopes' = insert room (or_zero (lookup room scopes) 0 + 1) scopes in
    let s' : Store = record s { open_waits = insert agent scopes' s.open_waits } in
    let told = send (presence agent room (presence_cursor agent room s') true) s' in
    if agent == [] then s else if is_filled scopes then told else send agent_update told

-- The scopes after one wait on `room` ended.
abbrev pub scopes_left : Text → Map Text ℕ → Map Text ℕ
scopes_left room scopes =
    let left = or_zero (lookup room scopes) 0 - 1 in
    if left == 0 then delete room scopes else insert room left scopes

-- The last wait takes the agent's entry along.
unfoldable pub drop_wait : Text → Text → Store → Store
drop_wait agent room s =
    let scopes = scopes_left room (scopes_of agent s) in
    record s {
      open_waits =
          if is_filled scopes then insert agent scopes s.open_waits else delete agent s.open_waits;
    }

unfoldable pub leave_wait : Text → Text → Store → Store
unfolding drop_wait cursor_for
leave_wait agent room s =
    let count = or_zero (lookup room (scopes_of agent s)) 0 in
    let s' = drop_wait agent room s in
    let told = send (presence agent room (presence_cursor agent room s') false) s' in
    if agent == []
    then s
    else if not (ltb 0 count)
    then s
    else if ltb 1 count
    then s'
    else if is_filled (scopes_of agent s')
    then told
    else send agent_update told

abbrev pub is_active : Text → Store → Bool
is_active agent s = is_filled (scopes_of agent s) || ltb 0 (sockets agent s)

unfoldable pub enter_ws : Text → Store → Store
enter_ws agent s =
    let s' : Store = record s { open_ws = insert agent (sockets agent s + 1) s.open_ws } in
    if agent == [] then s else if is_active agent s then s' else send agent_update s'

unfoldable pub leave_ws : Text → Store → Store
leave_ws agent s =
    let left = sockets agent s - 1 in
    let ws = if left == 0 then delete agent s.open_ws else insert agent left s.open_ws in
    let s' : Store = if ltb 0 (sockets agent s) then record s { open_ws = ws } else s in
    if agent == [] then s else if is_active agent s' then s' else send agent_update s'

pub record MemberPresence : Type 0 where
  pub agent : Text
  pub cursor : ℕ
  pub waiting : Bool

-- A wait on the room or on all rooms.
unfoldable pub is_waiting : Text → Text → Store → Bool
is_waiting agent room s =
    let scopes = scopes_of agent s in
    ltb 0 (or_zero (lookup room scopes) 0) || ltb 0 (or_zero (lookup [] scopes) 0)

unfoldable pub member_presence : Text → Store → Text → MemberPresence
unfolding is_waiting
member_presence room s m = record {
  agent = m;
  cursor = elim (lookup m s.agents) [ none ↦ 0 | some a ↦ cursor_in room a ];
  waiting = is_waiting m room s;
}

unfoldable pub room_presence : Text → Store → List MemberPresence
unfolding member_presence
room_presence room s = elim (lookup room s.rooms) [
  | none ↦ []
  | some r ↦ map (member_presence room s) r.members
]
