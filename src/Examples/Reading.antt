-- ===== src/Examples/Reading.antt =====
-- Tests of the cursors and the reactions, and each of their theorems at sample stores.
use aimebu.Prelude.{
  pos, is_some, lookup, contains, Text, bytes, same, text_eq, ◌==◌, nat_eq, ℕ, ◌≡◌, refl, ◌≢◌, Bool,
  true, not, ◌&&◌, ◌||◌, some, List, [], ◌∷◌, arith,
}
use aimebu.Types.{Store, ok}
use aimebu.Posting.{find_message, find_room, message_room}
use aimebu.Messages.{room_head}
use aimebu.Cursors.{mark_read, room_view}
use aimebu.Cursors.Reading.{mark_read-clears}
use aimebu.Reactions.{
  ReactionSummary, summarize_reactions, rows_of, reaction_room, added, add_reaction, removed,
  remove_reaction,
}
use aimebu.Reactions.Rows.{reacted, NoRepeat, ReactionsValid, reacted-add_reaction}
use aimebu.Rooms.{is_member}
use aimebu.Examples.{bob, hall, hall_room, talk_store, talk_store-IdsValid}

bob_known : is_some (lookup bob talk_store.agents) ≡ true
unfolding lookup same
bob_known = refl

bob_named : bob ≢ []
bob_named p = cc

hall_named : hall ≢ []
hall_named p = cc

mark_read-clears_example :
    (t : Store) × (mark_read bob hall (pos 0) talk_store ≡ ok (t, pos (room_head hall talk_store)))
    × ((room_view bob t hall_room).unread_count ≡ 0)
mark_read-clears_example =
    mark_read-clears bob hall_room talk_store bob_named hall_named bob_known talk_store-IdsValid

abbrev the_message : ℕ
the_message = 2

abbrev thumb : Text
thumb = bytes "+1"

no_rows-ReactionsValid : ReactionsValid talk_store
unfolding lookup
no_rows-ReactionsValid id = tt

abbrev reacting : Store × List ReactionSummary × Bool
reacting = added 2 bob thumb 9 talk_store

bob_reacts : add_reaction 2 bob thumb 9 talk_store ≡ ok (reacting.0, hall, reacting.1, reacting.2)
unfolding add_reaction reaction_room message_room find_room find_message is_member lookup contains
    same
bob_reacts = refl

reacted-add_reaction_example :
    (reacted bob thumb 2 reacting.0 ≡ (
      reacted bob thumb 2 talk_store
      || (the_message == the_message && (bob == bob && thumb == thumb))))
    × (reacting.2 ≡ not (reacted bob thumb 2 talk_store))
    × (reacting.1 ≡ summarize_reactions (rows_of 2 reacting.0) bob)
    × NoRepeat (rows_of 2 reacting.0)
reacted-add_reaction_example =
    reacted-add_reaction 2 2 bob thumb bob thumb 9 talk_store reacting.0 hall reacting.1 reacting.2
      no_rows-ReactionsValid bob_reacts

abbrev reacted_store : Store
reacted_store = record talk_store {
  reactions = (2, record { agent_id = bob; emoji = thumb; created_at = some 0 } ∷ []) ∷ [];
}

reacted_store-ReactionsValid : ReactionsValid reacted_store
unfolding lookup
reacted_store-ReactionsValid id = ground arith

abbrev unreacting : Store × List ReactionSummary × Bool
unreacting = removed 2 bob thumb 9 reacted_store

bob_takes_back :
    remove_reaction 2 bob thumb 9 reacted_store
    ≡ ok (unreacting.0, hall, unreacting.1, unreacting.2)
unfolding remove_reaction reaction_room message_room find_room find_message is_member lookup
    contains same
bob_takes_back = refl
