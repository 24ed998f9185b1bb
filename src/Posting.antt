-- ===== src/Posting.antt =====
-- Messages in the store: system messages (emitSystemMessage and its variants of
-- internal/server/store_rooms.go), and lookups of internal/server/store_messages.go.
pub mod Frame
use aimebu.Prelude.{
  select, Map, is_some, or_zero, lookup, insert, Text, bytes, text_eq, has_prefix, if◌then◌else◌,
  ◌==◌, nat_eq, ℕ, ◌+◌, Bool, false, Option, none, some, List, [], ◌∷◌, ◌++◌,
}
use aimebu.Types.{stamp, Kind, Reaction, Message, posted, attention_event, Store, send}

abbrev pub system_name : Text
system_name = bytes "_system"

-- isDM
abbrev pub is_dm : Text → Bool
is_dm room = has_prefix room (bytes "dm:")

abbrev pub room_messages_of : Text → Store → List Message
room_messages_of room s = or_zero (lookup room s.messages) []

unfoldable pub system_message : ℕ → Text → Text → Option (List Text) → Bool → ℕ → Message
system_message id room body targets attention now = record {
  id = id;
  room_id = room;
  from = system_name;
  from_kind = Kind.system;
  from_harness = [];
  from_model = [];
  body = body;
  created_at = stamp now;
  reply_to = 0;
  targets = targets;
  needs_human_attention = attention;
  proposed_answers = [];
  open_questions = [];
  visual_plan = [];
  appendix_pages = [];
  attachments = [];
}

-- `s.messages[roomID] = append(s.messages[roomID], msg)`
unfoldable pub append_message : Text → Message → Store → Store
append_message room m s = record s {
  messages = insert room (room_messages_of room s ++ m ∷ []) s.messages;
}

-- Room and global subscribers get the message, every client an alert if it asks for attention.
unfoldable pub announce : Message → Bool → Store → Store
announce m attention s =
    if attention then send (attention_event m) (send (posted m) s) else send (posted m) s

-- The ID is drawn before the room is looked up, so a message to no room still uses one.
unfoldable pub emit_system_message_full :
    Text → Text → Option (List Text) → Bool → ℕ → Store → Store
unfolding system_message append_message announce
emit_system_message_full room body targets attention now s =
    let id = s.next_id + 1 in
    let m = system_message id room body targets attention now in
    let s' = record s { next_id = id } in
    elim (lookup room s.rooms) [
      | none ↦ s'
      | some r ↦ announce m attention (append_message room m s')
    ]

unfoldable pub emit_system_message : Text → Text → ℕ → Store → Store
unfolding emit_system_message_full
emit_system_message room body now s = emit_system_message_full room body none false now s

unfoldable pub find_message : ℕ → List Message → Option Message
find_message id [] = none
find_message id (m ∷ ms) = if m.id == id then some m else find_message id ms

unfoldable pub message_by_id_in_room : Text → ℕ → Store → Option Message
unfolding find_message
message_by_id_in_room room id s = find_message id (room_messages_of room s)

unfoldable pub find_room : ℕ → Map Text (List Message) → Option Text
unfolding find_message
find_room id [] = none
find_room id ((room, ms) ∷ rest) =
    if is_some (find_message id ms) then some room else find_room id rest

-- messageRoomLocked
unfoldable pub message_room : ℕ → Store → Option Text
unfolding find_room
message_room id s = find_room id s.messages

-- cleanupReactionsForLiveMessages: only reactions to stored messages stay.
keep_live : Store → Map ℕ (List Reaction) → Map ℕ (List Reaction)
unfolding message_room
keep_live s = select (λ row. is_some (message_room row.0 s))

unfoldable pub cleanup_reactions_for_live_messages : Store → Store
unfolding keep_live
cleanup_reactions_for_live_messages s = record s { reactions = keep_live s s.reactions }
