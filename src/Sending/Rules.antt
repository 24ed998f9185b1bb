-- ===== src/Sending/Rules.antt =====
-- What a message that is sent does to the histories and the rooms.
use aimebu.Prelude.{
  above, lookup, lookup-insert, Text, same_iff, text_eq, if◌then◌else◌, Bool-cases, Option-cases,
  nat_eq, ℕ, ◌+◌, ◌≤◌, ◌<◌, ◌≡◌, refl, sym, subst, ◌∙◌, inl, inr, Bool, true, false, List, [], ◌∷◌,
  ◌++◌, arith,
}
use aimebu.Types.{Result-cases, Message, Store, ok}
use aimebu.Posting.{room_messages_of, append_message, announce}
use aimebu.Messages.{last_id, room_head}
use aimebu.Messages.Order.{IdsValid, append-Rising}
use aimebu.Rooms.Valid.{RoomsValid}
use aimebu.Agents.{put_agent, long_ago, seen_at, touch_agent}
use aimebu.Agents.Register.Rules.{put_agent-RoomsValid}
use aimebu.Sending.{Draft, alert, Ready, message_from, post, prepare, room_send}
use aimebu.Sending.Alerts.{Later, IdsValid-of_eq, Later-of_eq, alert-Later}

touch_agent-fields :
    (from : Text) (now : ℕ) (s : Store)
    → ((touch_agent from now s).messages ≡ s.messages)
      × ((touch_agent from now s).next_id ≡ s.next_id)
unfolding touch_agent put_agent
touch_agent-fields from now s = ground arith

touch_agent-RoomsValid :
    (from : Text) (now : ℕ) (s : Store) → RoomsValid s → RoomsValid (touch_agent from now s)
unfolding touch_agent
touch_agent-RoomsValid from now s v = elim (Option-cases (lookup from s.agents)) [
  | inl e ↦ rw (e, touch_agent) v
  | inr (a, e) ↦ elim (Bool-cases (long_ago a.last_seen now)) [
    | inl tells ↦ rw (e, touch_agent, tells) (put_agent-RoomsValid from (seen_at now a) s v)
    | inr quiet ↦ rw (e, touch_agent, quiet) (put_agent-RoomsValid from (seen_at now a) s v)
  ]
]

announce-fields :
    (m : Message) (attention : Bool) (s : Store)
    → let t = announce m attention s in
      (t.messages ≡ s.messages)
      × (t.next_id ≡ s.next_id)
      × (t.rooms ≡ s.rooms)
      × (t.agents ≡ s.agents)
unfolding announce
announce-fields m true s = (refl, refl, refl, refl)
announce-fields m false s = (refl, refl, refl, refl)

last_id-snoc : (ms : List Message) (m : Message) → last_id (ms ++ m ∷ []) ≡ m.id
unfolding last_id
last_id-snoc [] m = refl
last_id-snoc (x ∷ []) m = refl
last_id-snoc (x ∷ y ∷ ms) m = last_id-snoc (y ∷ ms) m

room_head-of_eq :
    (room : Text) (s t : Store) → t.messages ≡ s.messages → room_head room t ≡ room_head room s
unfolding room_head
room_head-of_eq room s t e = rw e

room_head-append :
    (room : Text) (m : Message) (s : Store) → room_head room (append_message room m s) ≡ m.id
unfolding room_head append_message
room_head-append room m s = ground (
  arith,
  lookup-insert room room (room_messages_of room s ++ m ∷ []) s.messages,
  last_id-snoc (room_messages_of room s) m,
  same_iff room room,
)

-- The store that a message leaves.
post-Later :
    (room from : Text) (d : Draft) (r : Ready) (now : ℕ) (s : Store)
    → Later s.next_id s
    → let (t, id) = post room from d r now s in
      Later (s.next_id + 1) t × (id ≡ t.next_id) × (id ≡ s.next_id + 1) × (room_head room t ≡ id)
unfolding post message_from
post-Later room from d r now s l =
    let m = message_from room from d r now s in
    let stored = append_message room m (record s { next_id = s.next_id + 1 }) in
    let touched = touch_agent from now stored in
    let told = announce m d.needs_attention touched in
    let kept = touch_agent-fields from now stored in
    let stored_ids : IdsValid stored = λ q. append-Rising room q m s refl l.ids in
    let stored_rooms : RoomsValid stored = l.rooms in
    (
      Later-of_eq (s.next_id + 1) touched told (announce-fields m d.needs_attention touched)
          (record {
            ids = IdsValid-of_eq stored touched kept.0 kept.1 stored_ids;
            rooms = touch_agent-RoomsValid from now stored stored_rooms;
            above = ground (arith, kept.1);
          }),
      sym ((announce-fields m d.needs_attention touched).1 ∙ kept.1),
      refl,
      room_head-of_eq room touched told (announce-fields m d.needs_attention touched).0
          ∙ (room_head-of_eq room stored touched kept.0
              ∙ room_head-append room m (record s { next_id = s.next_id + 1 })),
    )

-- The store that a message finds, once those who must see it are in the room.
abbrev found_by : Text → Draft → Ready → ℕ → Store → Store
found_by room d r now s = if d.needs_attention then alert room r.targets now s else s

found_by-Later :
    (room : Text) (d : Draft) (r : Ready) (now : ℕ) (s : Store)
    → Later s.next_id s
    → Later s.next_id (found_by room d r now s)
found_by-Later room d r now s l = elim (Bool-cases d.needs_attention) [
  | inl alerts ↦ rw alerts (alert-Later s.next_id room r.targets now s l)
  | inr quiet ↦ rw quiet l
]

posted_facts :
    (room from : Text) (d : Draft) (r : Ready) (now : ℕ) (s base : Store)
    → s.next_id ≤ base.next_id
    → (let (t, id) = post room from d r now base in
        Later (base.next_id + 1) t
        × (id ≡ t.next_id)
        × (id ≡ base.next_id + 1)
        × (room_head room t ≡ id))
    → let (t, id) = post room from d r now base in
      IdsValid t × RoomsValid t × (s.next_id < id) × (id ≡ t.next_id) × (room_head room t ≡ id)
posted_facts room from d r now s base above (l, next, new, head) =
    (l.ids, l.rooms, omega arith, next, head)

module _ (valid_json : Text → Bool) (mentions : Text → List Text) where
  room_send-ok :
      (room from : Text) (d : Draft) (now : ℕ) (s : Store) (o : Store × ℕ)
      → room_send valid_json mentions room from d now s ≡ ok o
      → (r : Ready) × (post room from d r now (found_by room d r now s) ≡ o)
  unfolding room_send
  room_send-ok room from d now s o h =
      elim (Result-cases (prepare valid_json mentions room from d now s)) [
        | inl (r, e) ↦ (r, ground arith)
        | inr (x, e) ↦ absurd (ground arith)
      ]

  -- A message that is sent is stored last in its room, under a new ID that is larger than every ID
  -- drawn before and that the answer names; every history stays in the order of its IDs, and the
  -- rooms stay valid, those included that an alert joins humans to.
  pub room_send_lem :
      (room from : Text) (d : Draft) (now : ℕ) (s t : Store) (id : ℕ)
      → IdsValid s
      → RoomsValid s
      → room_send valid_json mentions room from d now s ≡ ok (t, id)
      → IdsValid t × RoomsValid t × (s.next_id < id) × (id ≡ t.next_id) × (room_head room t ≡ id)
  room_send_lem room from d now s t id v w h =
      let (r, done) = room_send-ok room from d now s (t, id) h in
      let base = found_by room d r now s in
      let start : Later s.next_id s = record { ids = v; rooms = w; above = omega arith } in
      let l = found_by-Later room d r now s start in
      let here : Later base.next_id base = record {
        ids = l.ids;
        rooms = l.rooms;
        above = omega arith;
      } in
      subst
        (λ (o : Store × ℕ).
          IdsValid o.0
          × RoomsValid o.0
          × (s.next_id < o.1)
          × (o.1 ≡ o.0.next_id)
          × (room_head room o.0 ≡ o.1))
        done
        (posted_facts room from d r now s base l.above (post-Later room from d r now base here))
