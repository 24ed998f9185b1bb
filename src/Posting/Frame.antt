-- ===== src/Posting/Frame.antt =====
-- What a system message leaves alone: emitSystemMessage of internal/server/store_rooms.go adds to
-- the end of one history, and changes nothing else that is kept.
use aimebu.Prelude.{
  All, Map, or_zero, lookup, lookup-insert, Text, same_iff, text_eq, ◌==◌, Bool-cases, Option-cases,
  nat_eq, ℕ, ◌+◌, ◌≡◌, refl, sym, ap, ◌∙◌, inl, inr, Bool, true, false, Option, none, List, [], ◌∷◌,
  ◌++◌, append-nil, append_assoc,
}
use aimebu.Types.{system, Room, Message, Agent, Event, Store}
use aimebu.Posting.{
  room_messages_of, system_message, append_message, announce, emit_system_message_full,
  emit_system_message,
}

-- The history `ns` is `ms` with messages of the system at its end.
abbrev pub Extended : List Message → List Message → Type 0
Extended ms ns = (more : List Message) × (ns ≡ ms ++ more) × All (λ m. m.from_kind ≡ system) more

-- From `s` to `t` only rooms, agents, the counter of IDs and events may differ, and histories only
-- by messages of the system at their ends.
pub record Quiet (s t : Store) : Type 0 where
  pub histories : (room : Text) → Extended (room_messages_of room s) (room_messages_of room t)
  pub same_reactions : t.reactions ≡ s.reactions
  pub same_attachments : t.attachments ≡ s.attachments
  pub same_room_prefs : t.room_prefs ≡ s.room_prefs
  pub same_sessions : t.agent_sessions ≡ s.agent_sessions
  pub same_waits : t.open_waits ≡ s.open_waits
  pub same_ws : t.open_ws ≡ s.open_ws
  pub same_memory : t.memory ≡ s.memory
  pub same_memory_enabled : t.memory_enabled ≡ s.memory_enabled
  pub same_overrides : t.roles_overrides ≡ s.roles_overrides
  pub same_custom : t.roles_custom ≡ s.roles_custom
  pub same_catalog : t.role_catalog ≡ s.role_catalog

All-join : (P : Message → Type 0) (ms ns : List Message) → All P ms → All P ns → All P (ms ++ ns)
All-join P [] ns h k = k
All-join P (m ∷ ms) ns h k = (h.0, All-join P ms ns h.1 k)

Extended-trans : (ms ns ks : List Message) → Extended ms ns → Extended ns ks → Extended ms ks
Extended-trans ms ns ks (xs, p, f) (ys, q, g) =
    (xs ++ ys, q ∙ (ap (λ zs. zs ++ ys) p ∙ append_assoc ms xs ys), All-join _ xs ys f g)

Extended-refl : (ms : List Message) → Extended ms ms
Extended-refl ms = ([], sym (append-nil ms), tt)

pub Quiet-trans : (s t u : Store) → Quiet s t → Quiet t u → Quiet s u
Quiet-trans s t u p q = record {
  histories = λ room. Extended-trans _ _ _ (p.histories room) (q.histories room);
  same_reactions = q.same_reactions ∙ p.same_reactions;
  same_attachments = q.same_attachments ∙ p.same_attachments;
  same_room_prefs = q.same_room_prefs ∙ p.same_room_prefs;
  same_sessions = q.same_sessions ∙ p.same_sessions;
  same_waits = q.same_waits ∙ p.same_waits;
  same_ws = q.same_ws ∙ p.same_ws;
  same_memory = q.same_memory ∙ p.same_memory;
  same_memory_enabled = q.same_memory_enabled ∙ p.same_memory_enabled;
  same_overrides = q.same_overrides ∙ p.same_overrides;
  same_custom = q.same_custom ∙ p.same_custom;
  same_catalog = q.same_catalog ∙ p.same_catalog;
}

-- A change of rooms, agents, the counter and events alone.
pub Quiet-changed :
    (s : Store) (rooms : Map Text Room) (agents : Map Text Agent) (n : ℕ) (es : List Event)
    → Quiet s (record s { rooms = rooms; agents = agents; next_id = n; events = es })
Quiet-changed s rooms agents n es = record {
  histories = λ room. Extended-refl (room_messages_of room s);
  same_reactions = refl;
  same_attachments = refl;
  same_room_prefs = refl;
  same_sessions = refl;
  same_waits = refl;
  same_ws = refl;
  same_memory = refl;
  same_memory_enabled = refl;
  same_overrides = refl;
  same_custom = refl;
  same_catalog = refl;
}

append_message-Extended :
    (room at : Text) (m : Message) (s : Store)
    → m.from_kind ≡ system
    → Extended (room_messages_of at s) (room_messages_of at (append_message room m s))
unfolding append_message
append_message-Extended room at m s h = elim (Bool-cases (room == at)) [
  | inl hit ↦
      let own = (same_iff room at).0 hit in
      (
        m ∷ [],
        ap (λ ms. or_zero ms [])
              (lookup-insert room at (room_messages_of room s ++ m ∷ []) s.messages)
            ∙ rw hit (ap (λ r. room_messages_of r s ++ m ∷ []) own),
        (h, tt),
      )
  | inr miss ↦ (
    [],
    ap (λ ms. or_zero ms []) (lookup-insert room at (room_messages_of room s ++ m ∷ []) s.messages)
        ∙ rw miss (sym (append-nil (room_messages_of at s))),
    tt,
  )
]

announce-Quiet : (m : Message) (attention : Bool) (s : Store) → Quiet s (announce m attention s)
unfolding announce
announce-Quiet m true s = Quiet-changed s s.rooms s.agents s.next_id _
announce-Quiet m false s = Quiet-changed s s.rooms s.agents s.next_id _

append_message-Quiet :
    (room : Text) (m : Message) (s : Store)
    → m.from_kind ≡ system
    → Quiet s (append_message room m s)
unfolding append_message
append_message-Quiet room m s h = record {
  histories = λ at. append_message-Extended room at m s h;
  same_reactions = refl;
  same_attachments = refl;
  same_room_prefs = refl;
  same_sessions = refl;
  same_waits = refl;
  same_ws = refl;
  same_memory = refl;
  same_memory_enabled = refl;
  same_overrides = refl;
  same_custom = refl;
  same_catalog = refl;
}

pub emit_system_message_full-Quiet :
    (room body : Text) (targets : Option (List Text)) (attention : Bool) (now : ℕ) (s : Store)
    → Quiet s (emit_system_message_full room body targets attention now s)
unfolding emit_system_message_full system_message
emit_system_message_full-Quiet room body targets attention now s =
    let m = system_message (s.next_id + 1) room body targets attention now in
    let drawn = record s { next_id = s.next_id + 1 } in
    let counted : Quiet s drawn = Quiet-changed s s.rooms s.agents (s.next_id + 1) s.events in
    elim (Option-cases (lookup room s.rooms)) [
      | inl none_there ↦ rw (none_there, emit_system_message_full) counted
      | inr (r, there) ↦
          let stored = append_message room m drawn in
          rw (there, emit_system_message_full)
            (Quiet-trans s drawn _ counted (
              Quiet-trans drawn stored _ (append_message-Quiet room m drawn refl)
                (announce-Quiet m attention stored)))
    ]

pub emit_system_message-Quiet :
    (room body : Text) (now : ℕ) (s : Store) → Quiet s (emit_system_message room body now s)
unfolding emit_system_message
emit_system_message-Quiet room body now s =
    emit_system_message_full-Quiet room body none false now s
