-- ===== src/Cursors.antt =====
-- Read cursors: ensureRoomCursor, advanceCursor, agentUnreadSinceCursor of
-- internal/server/store_messages.go, cursorFor of store_agents.go, agentRoomViews of store_rooms.go,
-- and POST /agents/{id}/read of server.go.
pub mod Reading
use aimebu.Prelude.{
  ℤ, pos, negsuc, pos_part, length, select, Map, is_some, or_zero, lookup, insert, contains, Text,
  text_eq, ltb, leb, if◌then◌else◌, ◌==◌, nat_eq, ℕ, zero, suc, ◌-◌, Bool, true, false, not, ◌&&◌,
  none, some, List, [], ◌∷◌, ◌++◌,
}
use aimebu.Types.{
  Room, Message, Agent, presence, read_update, Store, room_not_found, Result, ok, err, send,
}
use aimebu.Posting.{room_messages_of}
use aimebu.Messages.{sort_by_id, room_head}
use aimebu.Agents.{put_agent}
use aimebu.Prefs.{room_pref}

abbrev pub cursor_in : Text → Agent → ℕ
cursor_in room a = or_zero (lookup room a.read_cursors) 0

unfoldable pub cursor_for : Text → Text → Store → ℕ
cursor_for agent room s =
    let found : ℕ = elim (lookup agent s.agents) [ none ↦ 0 | some a ↦ cursor_in room a ] in
    if agent == [] then 0 else found

unfoldable pub set_cursor : Text → ℕ → Agent → Agent
set_cursor room n a = record a { read_cursors = insert room n a.read_cursors }

-- A fresh joiner starts five messages back; `-` stops at 0, as the code's test makes it.
unfoldable pub ensure_room_cursor : Text → Text → Store → Store × ℕ
unfolding set_cursor put_agent room_head
ensure_room_cursor agent room s = elim (lookup agent s.agents) [
  | none ↦ (s, 0)
  | some a ↦ elim (lookup room a.read_cursors) [
    | some n ↦ (s, n)
    | none ↦
        let start = room_head room s - 5 in (put_agent agent (set_cursor room start a) s, start)
  ]
]

unfoldable pub advance_cursor : Text → Text → ℤ → Store → Store × Bool
unfolding set_cursor put_agent
advance_cursor agent room (negsuc n) s = (s, false)
advance_cursor agent room (pos n) s = elim (lookup agent s.agents) [
  | none ↦ (s, false)
  | some a ↦
      if leb n (cursor_in room a)
      then (s, false)
      else (put_agent agent (set_cursor room n a) s, true)
]

-- Message 0 stands for the room's head.
unfoldable pub mark_target : Text → ℤ → Store → ℤ
unfolding room_head
mark_target room (pos zero) s = pos (room_head room s)
mark_target room (pos (suc n)) s = pos (suc n)
mark_target room (negsuc n) s = negsuc n

-- broadcastReadUpdate: the cursor, and whether the agent waits on this room.
unfoldable pub broadcast_read_update : Text → Text → ℕ → Store → Store
broadcast_read_update agent room cursor s =
    let waits = or_zero (lookup room (or_zero (lookup agent s.open_waits) [])) 0 in
    send (presence agent room (some cursor) (ltb 0 waits)) (send (read_update agent room cursor) s)

unfoldable pub mark_read : Text → Text → ℤ → Store → Result (Store × ℤ)
unfolding advance_cursor mark_target broadcast_read_update
mark_read agent room message s =
    let target = mark_target room message s in
    let (s', moved) = advance_cursor agent room target s in
    if room == []
    then err room_not_found
    else ok ((if moved then broadcast_read_update agent room (pos_part target) s' else s'), target)

-- The variables of agentUnreadSinceCursor's loop.
pub record Unread : Type 0 where
  pub read_cursors : Map Text ℕ
  pub cursors : Map Text ℕ
  pub out : List Message

visit_room : Text → Store → Room → Unread → Unread
unfolding room_head
visit_room agent s r u =
    let known = lookup r.id u.read_cursors in
    let cur = or_zero known (room_head r.id s - 5) in
    if contains agent r.members
    then record {
      read_cursors = if is_some known then u.read_cursors else insert r.id cur u.read_cursors;
      cursors = insert r.id cur u.cursors;
      out = u.out ++ select (λ m. ltb cur m.id) (room_messages_of r.id s);
    }
    else u

visit_rooms : Text → Store → Map Text Room → Unread → Unread
unfolding visit_room
visit_rooms agent s [] u = u
visit_rooms agent s ((id, r) ∷ rest) u = visit_rooms agent s rest (visit_room agent s r u)

unfoldable pub agent_unread_since_cursor : Text → Store → Store × List Message × Map Text ℕ
unfolding visit_rooms sort_by_id put_agent
agent_unread_since_cursor agent s = elim (lookup agent s.agents) [
  | none ↦ (s, [], [])
  | some a ↦
      let u =
        visit_rooms agent s s.rooms
          (record { read_cursors = a.read_cursors; cursors = []; out = [] }) in
      (put_agent agent (record a { read_cursors = u.read_cursors }) s, sort_by_id u.out, u.cursors)
]

pub record AgentRoomView : Type 0 where
  pub room : Room
  pub unread_count : ℕ
  pub attention_unread_count : ℕ
  pub last_id : ℕ
  pub read_cursor : ℕ
  pub hidden : Bool
  pub pinned : Bool

unfoldable pub room_view : Text → Store → Room → AgentRoomView
unfolding room_head room_pref
room_view agent s r =
    let cursor : ℕ = elim (lookup agent s.agents) [ none ↦ 0 | some a ↦ cursor_in r.id a ] in
    let unread = select (λ m. ltb cursor m.id) (room_messages_of r.id s) in
    let pref = room_pref agent r.id s in
    record {
      room = r;
      unread_count = length unread;
      attention_unread_count =
          length (select (λ m. m.needs_human_attention && not (m.from == agent)) unread);
      last_id = room_head r.id s;
      read_cursor = cursor;
      hidden = pref.hidden;
      pinned = pref.pinned;
    }

views_of : Text → Store → Map Text Room → List AgentRoomView
unfolding room_view
views_of agent s [] = []
views_of agent s ((id, r) ∷ rest) =
    let others = views_of agent s rest in
    if contains agent r.members then room_view agent s r ∷ others else others

unfoldable pub agent_room_views : Text → Store → List AgentRoomView
unfolding views_of
agent_room_views agent s = views_of agent s s.rooms
