-- ===== src/Examples/Messages.antt =====
-- Tests of the messages, and each message theorem at sample stores.
use aimebu.Prelude.{
  pos, length, select, All, lookup, same, text_eq, ltb, if◌then◌else◌, nat_eq, ℕ, ◌-◌, ◌*◌, ◌/◌,
  ◌≤◌, ◌<◌, ◌≡◌, refl, none, some, [], ◌∷◌, arith,
}
use aimebu.Types.{Stamp, second, stamp}
use aimebu.Posting.{room_messages_of}
use aimebu.Messages.{newest, ExpiredMarker, hide, scan_step, scan, room_messages_with_expiry}
use aimebu.Messages.Expiry.{
  IsPage, InRange, shown, hidden, room_messages_with_expiry_lem, room_messages_with_expiry_range,
}
use aimebu.Messages.Order.{Falling, room_messages_with_expiry_order}
use aimebu.Examples.{hall, message_of, talk_store, talk_store-IdsValid}
use mathlib.Core.Option

-- Of the messages at 100, 500 and 900, those older than 600 at time 1000 are hidden: the first.
expiry_test : room_messages_with_expiry hall 5 (pos 0) 0 600 1000 talk_store ≡ (
  message_of 3 900 ∷ message_of 2 500 ∷ [],
  some (record {
    hidden_count = 1;
    oldest_id = 1;
    newest_expired_id = 1;
    expired_before = stamp 400;
  }),
)
unfolding room_messages_with_expiry scan scan_step hide newest lookup same
expiry_test = refl

room_messages_with_expiry_example :
    IsPage 5
      (select (shown (pos 0) 0 600 1000) (room_messages_of hall talk_store))
      (room_messages_with_expiry hall 5 (pos 0) 0 600 1000 talk_store).0
    × (Option.map {B = ℕ × Stamp}
          (λ (k : ExpiredMarker). (k.hidden_count, k.expired_before))
          (room_messages_with_expiry hall 5 (pos 0) 0 600 1000 talk_store).1
        ≡ (if ltb 0 (length (select (hidden (pos 0) 0 600 1000) (room_messages_of hall talk_store)))
            then some (
              length (select (hidden (pos 0) 0 600 1000) (room_messages_of hall talk_store)),
              some ((1000 - 600) / second * second),
            )
            else none))
room_messages_with_expiry_example =
    room_messages_with_expiry_lem (pos 0) 0 600 1000 hall 5 talk_store

talk_ids : All (λ m. 0 < m.id) (room_messages_of hall talk_store)
unfolding lookup same
talk_ids = ground arith

abbrev marker : ExpiredMarker
marker = record {
  hidden_count = 1;
  oldest_id = 1;
  newest_expired_id = 1;
  expired_before = stamp 400;
}

marked : (room_messages_with_expiry hall 5 (pos 0) 0 600 1000 talk_store).1 ≡ some marker
unfolding room_messages_with_expiry scan scan_step hide newest lookup same
marked = refl

room_messages_with_expiry_range_example :
    InRange 1 1 (select (hidden (pos 0) 0 600 1000) (room_messages_of hall talk_store))
room_messages_with_expiry_range_example =
    room_messages_with_expiry_range (pos 0) 0 600 1000 hall 5 talk_store marker talk_ids marked

room_messages_with_expiry_order_example :
    Falling 4 (room_messages_with_expiry hall 5 (pos 0) 0 600 1000 talk_store).0 0
    × (length (room_messages_with_expiry hall 5 (pos 0) 0 600 1000 talk_store).0 ≤ 5)
room_messages_with_expiry_order_example =
    room_messages_with_expiry_order hall 5 (pos 0) 0 600 1000 talk_store talk_store-IdsValid
      (omega arith)
