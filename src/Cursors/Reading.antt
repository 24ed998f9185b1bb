-- ===== src/Cursors/Reading.antt =====
-- Marking as read: cursors only go forward, and marking a room's head leaves nothing unread.
use aimebu.Prelude.{
  pos, select, All, is_some, lookup, lookup-insert, Text, same_iff, text_eq, ltb, leb,
  if◌then◌else◌, ◌==◌, nat_eq, Option-cases, ℕ, ◌≤◌, ◌≡◌, refl, ◌≢◌, inl, inr, true, ◌&&◌, none,
  some, List, [], ◌∷◌, arith,
}
use aimebu.Types.{Room, Message, Store, ok}
use aimebu.Posting.{room_messages_of}
use aimebu.Agents.{put_agent}
use aimebu.Messages.{room_head}
use aimebu.Messages.Order.{room_head_max, IdsValid}
use aimebu.Cursors.{
  broadcast_read_update, cursor_in, cursor_for, set_cursor, advance_cursor, mark_target, mark_read,
  room_view,
}

-- Advancing a registered agent's cursor takes it to the larger of its place and the target, says
-- whether it moved, and leaves every other cursor of every agent where it was.
pub cursor_for-advance_cursor :
    (agent room a r : Text) (n : ℕ) (s : Store)
    → agent ≢ []
    → is_some (lookup agent s.agents) ≡ true
    → let (t, moved) = advance_cursor agent room (pos n) s in
      let old = cursor_for agent room s in
      (cursor_for a r t
        ≡ (if agent == a && room == r then (if leb n old then old else n) else cursor_for a r s))
      × (moved ≡ ltb old n)
unfolding cursor_for advance_cursor set_cursor put_agent
cursor_for-advance_cursor agent room a r n s h known = elim (Option-cases (lookup agent s.agents)) [
  | inl e ↦ absurd (ground arith)
  | inr (x, e) ↦
      let x' = set_cursor room n x in
      ground (
        arith,
        e,
        same_iff agent [],
        same_iff agent a,
        same_iff room r,
        lookup-insert agent a x' s.agents,
        lookup-insert room r n x.read_cursors,
      )
]

none_above-le :
    (n k : ℕ) (ms : List Message)
    → n ≤ k
    → All (λ m. m.id ≤ n) ms
    → select (λ m. ltb k m.id) ms ≡ []
none_above-le n k [] l h = refl
none_above-le n k (m ∷ ms) l h = ground (arith, none_above-le n k ms l h.1)

advance_cursor-rest :
    (agent room : Text) (n : ℕ) (s : Store)
    → (advance_cursor agent room (pos n) s).0.messages ≡ s.messages
unfolding advance_cursor put_agent
advance_cursor-rest agent room n s = ground arith

-- The store that marking a room's head leaves.
marked : Text → Text → Store → Store
unfolding broadcast_read_update
marked agent room s =
    let head = room_head room s in
    let (s', moved) = advance_cursor agent room (pos head) s in
    if moved then broadcast_read_update agent room head s' else s'

mark_read-marked :
    (agent room : Text) (s : Store)
    → room ≢ []
    → mark_read agent room (pos 0) s ≡ ok (marked agent room s, pos (room_head room s))
unfolding mark_read mark_target marked
mark_read-marked agent room s h = ground (arith, same_iff room [])

marked-fields :
    (agent room : Text) (s : Store)
    → let t = (advance_cursor agent room (pos (room_head room s)) s).0 in
      ((marked agent room s).agents ≡ t.agents) × ((marked agent room s).messages ≡ t.messages)
unfolding marked broadcast_read_update
marked-fields agent room s = ground arith

cursor_for-view :
    (agent room : Text) (s : Store)
    → agent ≢ []
    → cursor_for agent room s
      ≡ elim (lookup agent s.agents) [ none ↦ 0 | some a ↦ cursor_in room a ]
unfolding cursor_for
cursor_for-view agent room s h = ground (arith, same_iff agent [])

cursor_for-of_eq :
    (agent room : Text) (s t : Store)
    → t.agents ≡ s.agents
    → cursor_for agent room t ≡ cursor_for agent room s
unfolding cursor_for
cursor_for-of_eq agent room s t e = rw e

-- Marking a room as read at message 0, its head, leaves a registered agent with no unread message
-- in it, however far its cursor was, and answers with the head.
pub mark_read-clears :
    (agent : Text) (r : Room) (s : Store)
    → agent ≢ []
    → r.id ≢ []
    → is_some (lookup agent s.agents) ≡ true
    → IdsValid s
    → (t : Store) × (mark_read agent r.id (pos 0) s ≡ ok (t, pos (room_head r.id s)))
      × ((room_view agent t r).unread_count ≡ 0)
unfolding room_view
mark_read-clears agent r s h hr known v =
    let head = room_head r.id s in
    let t = marked agent r.id s in
    let (same_agents, same_messages) = marked-fields agent r.id s in
    let moved = (advance_cursor agent r.id (pos head) s).0 in
    let ms = room_messages_of r.id s in
    (
      t,
      mark_read-marked agent r.id s hr,
      rw
          (
            ← cursor_for-view agent r.id t h,
            cursor_for-of_eq agent r.id moved t same_agents,
            same_messages,
            advance_cursor-rest agent r.id head s,
          )
          (rw
            (none_above-le head (cursor_for agent r.id moved) ms
              (ground (
                arith,
                (cursor_for-advance_cursor agent r.id agent r.id head s h known).0,
                same_iff agent agent,
                same_iff r.id r.id,
              ))
              ((room_head_max r.id s v).0))
            refl),
    )
