-- ===== src/Examples.antt =====
-- Sample stores that the tests and the examples of the other files of this folder run on.
use aimebu.Prelude.{
  lookup, contains, Text, bytes, same, same_iff, text_eq, ◌==◌, nat_eq, Bool-cases, ℕ, ◌≡◌, subst,
  inl, inr, false, none, some, [], ◌∷◌, arith,
}
use aimebu.Types.{Kind, ai, human, Room, Message, no_state, Agent, Store}
use aimebu.Rooms.Valid.{GoodRoom, RoomsValid}
use aimebu.Messages.Order.{IdsValid}
pub mod Rooms
pub mod Messages
pub mod Agents
pub mod Reading
pub mod Registry
pub mod Memory
pub mod Mentions
pub mod Sending
pub mod Usages
pub mod Refresher
pub mod Schedule

abbrev pub alice : Text
alice = bytes "alice"

abbrev pub bob : Text
bob = bytes "bob@x"

abbrev pub carol : Text
carol = bytes "carol@x"

abbrev pub hall : Text
hall = bytes "hall"

abbrev pub agent_of : Text → Kind → Agent
agent_of id kind = record {
  id = id;
  name = id;
  kind = kind;
  model = [];
  harness = [];
  project = [];
  meta = [];
  state = no_state;
  state_at = none;
  pending_state = no_state;
  registered_at = some 0;
  last_seen = some 0;
  read_cursors = [];
}

abbrev pub empty_store : Store
empty_store = record {
  next_id = 0;
  rooms = [];
  messages = [];
  agents = (alice, agent_of alice human) ∷ (bob, agent_of bob ai) ∷ (carol, agent_of carol ai) ∷ [];
  agent_sessions = [];
  open_waits = [];
  open_ws = [];
  attachments = [];
  reactions = [];
  room_prefs = [];
  memory = [];
  memory_enabled = none;
  roles_overrides = [];
  roles_custom = [];
  role_catalog = (bytes "lead", bytes "singleton") ∷ [];
  events = [];
}

abbrev pub hall_room : Room
hall_room = record {
  id = hall;
  members = alice ∷ bob ∷ [];
  created_at = some 0;
  created_by = alice;
  roles = [];
  memory_enabled = none;
}

abbrev pub hall_store : Store
hall_store = record empty_store { rooms = (hall, hall_room) ∷ [] }

abbrev pub message_of : ℕ → ℕ → Message
message_of id at = record {
  id = id;
  room_id = hall;
  from = alice;
  from_kind = human;
  from_harness = [];
  from_model = [];
  body = bytes "hello";
  created_at = some at;
  reply_to = 0;
  targets = none;
  needs_human_attention = false;
  proposed_answers = [];
  open_questions = [];
  visual_plan = [];
  appendix_pages = [];
  attachments = [];
}

abbrev pub talk_store : Store
talk_store = record hall_store {
  next_id = 3;
  messages = (hall, message_of 1 100 ∷ message_of 2 500 ∷ message_of 3 900 ∷ []) ∷ [];
}

pub empty_store-RoomsValid : RoomsValid empty_store
unfolding lookup
empty_store-RoomsValid id r e = cc

pub hall_room-GoodRoom : GoodRoom empty_store.agents hall_room
unfolding contains lookup same
hall_room-GoodRoom = record {
  distinct = ground arith;
  known = λ m h. ground (arith, same_iff alice m, same_iff bob m);
  held = λ m h. cc;
}

pub hall_store-RoomsValid : RoomsValid hall_store
unfolding lookup
hall_store-RoomsValid id r e = subst (GoodRoom empty_store.agents) stored hall_room-GoodRoom
  where
    stored : hall_room ≡ r
    stored = elim (Bool-cases (hall == id)) [
      | inl hit ↦ ground arith
      | inr miss ↦ absurd (ground arith)
    ]

pub talk_store-IdsValid : IdsValid talk_store
unfolding lookup
talk_store-IdsValid room = elim (Bool-cases (hall == room)) [
  | inl hit ↦ rw hit (ground arith)
  | inr miss ↦ rw miss (ground arith)
]
