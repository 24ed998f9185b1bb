-- ===== src/Messages.antt =====
-- Reads of a room's history: roomMessages, roomMessagesWithExpiryAt, messagesSince, messageByID,
-- allMessages of internal/server/store_messages.go.
pub mod Expiry
pub mod Order
use aimebu.Prelude.{
  ℤ, above, take, length, drop, select, Map, or_zero, Text, text_eq, ltb, leb, nat_beq,
  if◌then◌else◌, nat_eq, ℕ, ◌+◌, ◌-◌, Bool, false, ◌&&◌, ◌||◌, Option, none, some, List, [], ◌∷◌,
  ◌++◌, reverse,
}
use aimebu.Types.{Stamp, stamp, Message, Store}
use aimebu.Posting.{room_messages_of, find_message, message_by_id_in_room}

-- `if limit > 0 && limit < n { xs = xs[n-limit:] }`
unfoldable pub newest {ℓ} : {A : Type ℓ} → ℕ → List A → List A
newest limit xs = if ltb 0 limit && ltb limit (length xs) then drop (length xs - limit) xs else xs

-- A limit that is not positive is none; so 0 stands for the negative ones.
unfoldable pub room_messages : Text → ℕ → ℤ → Store → List Message
unfolding newest
room_messages room limit since s =
    reverse (newest limit (select (λ m. above since m.id) (room_messages_of room s)))

unfoldable pub messages_since : Text → ℤ → Store → List Message
messages_since room since s = select (λ m. above since m.id) (room_messages_of room s)

pub record ExpiredMarker : Type 0 where
  pub hidden_count : ℕ
  pub oldest_id : ℕ
  pub newest_expired_id : ℕ
  pub expired_before : Stamp

-- The variables of the loop.
pub record Scan : Type 0 where
  pub live : List Message
  pub expired_count : ℕ
  pub oldest_expired : ℕ
  pub newest_expired : ℕ

-- Paging back wants IDs below `before`, catching up IDs above `since`.
abbrev pub candidate : ℤ → ℕ → Message → Bool
candidate since before m = if ltb 0 before then ltb m.id before else above since m.id

-- `!createdAt.After(now - window)`; a stamp that does not parse never expires.
abbrev pub expired : ℕ → ℕ → Message → Bool
expired window now m =
    ltb 0 window && elim m.created_at [ none ↦ false | some t ↦ leb (t + window) now ]

-- An expired message is counted, and its ID widens the range.
unfoldable pub hide : Message → Scan → Scan
hide m c = record c {
  expired_count = c.expired_count + 1;
  oldest_expired =
      if nat_beq c.oldest_expired 0 || ltb m.id c.oldest_expired then m.id else c.oldest_expired;
  newest_expired = if ltb c.newest_expired m.id then m.id else c.newest_expired;
}

unfoldable pub scan_step : ℤ → ℕ → ℕ → ℕ → Message → Scan → Scan
unfolding hide
scan_step since before window now m c =
    if candidate since before m
    then (if expired window now m then hide m c else record c { live = c.live ++ m ∷ [] })
    else c

unfoldable pub scan : ℤ → ℕ → ℕ → ℕ → List Message → Scan → Scan
scan since before window now [] c = c
scan since before window now (m ∷ ms) c =
    scan since before window now ms (scan_step since before window now m c)

abbrev no_scan : Scan
no_scan = record { live = []; expired_count = 0; oldest_expired = 0; newest_expired = 0 }

-- A negative `before` pages no more than 0 does. The cutoff of a window longer than the clock's
-- time since the epoch is the epoch.
unfoldable pub room_messages_with_expiry :
    Text → ℕ → ℤ → ℕ → ℕ → ℕ → Store → List Message × Option ExpiredMarker
unfolding scan scan_step newest
room_messages_with_expiry room limit since before window now s =
    let c = scan since before window now (room_messages_of room s) no_scan in
    (
      reverse (newest limit c.live),
      if ltb 0 window && ltb 0 c.expired_count
          then some (record {
            hidden_count = c.expired_count;
            oldest_id = c.oldest_expired;
            newest_expired_id = c.newest_expired;
            expired_before = stamp (now - window);
          })
          else none,
    )

find_any : ℕ → Map Text (List Message) → Option Message
unfolding find_message
find_any id [] = none
find_any id ((room, ms) ∷ rest) =
    let later = find_any id rest in elim (find_message id ms) [ some m ↦ some m | none ↦ later ]

unfoldable pub message_by_id : ℕ → Store → Option Message
unfolding find_any
message_by_id id s = find_any id s.messages

unfoldable pub addressed_to_for_echo : Text → ℕ → Store → List Text
unfolding message_by_id_in_room
addressed_to_for_echo room id s = elim (message_by_id_in_room room id s) [
  | none ↦ []
  | some m ↦ or_zero m.targets []
]

-- sort.Slice by ascending ID.
unfoldable pub insert_by_id : Message → List Message → List Message
insert_by_id m [] = m ∷ []
insert_by_id m (x ∷ xs) =
    let rest = insert_by_id m xs in if leb m.id x.id then m ∷ (x ∷ xs) else x ∷ rest

unfoldable pub sort_by_id : List Message → List Message
unfolding insert_by_id
sort_by_id [] = []
sort_by_id (m ∷ ms) = insert_by_id m (sort_by_id ms)

unfoldable pub all_in : Map Text (List Message) → List Message
all_in [] = []
all_in ((room, ms) ∷ rest) = ms ++ all_in rest

-- The newest first, at most `limit` of them.
unfoldable pub all_messages : ℕ → Store → List Message
unfolding sort_by_id all_in
all_messages limit s = take limit (reverse (sort_by_id (all_in s.messages)))

-- roomHeadLocked: the last stored ID.
unfoldable pub last_id : List Message → ℕ
last_id [] = 0
last_id (m ∷ []) = m.id
last_id (m ∷ n ∷ ms) = last_id (n ∷ ms)

unfoldable pub room_head : Text → Store → ℕ
unfolding last_id
room_head room s = last_id (room_messages_of room s)
