-- ===== src/Examples/Sending.antt =====
-- Tests of sending, and each theorem on it and on what messages carry at a sample draft.
use aimebu.Prelude.{
  pos, length, All, or_zero, lookup, contains, Text, bytes, same, text_eq, is_space, trim_space,
  equal_fold, ◌==◌, nat_eq, ℕ, ◌≤◌, ◌<◌, ◌≡◌, refl, Bool, true, false, some, List, [], ◌∷◌,
}
use aimebu.Types.{OpenQuestion, AppendixPage, Store, ok}
use aimebu.Messages.{room_head}
use aimebu.Messages.Order.{IdsValid}
use aimebu.Rooms.Valid.{RoomsValid}
use aimebu.Submission.{answers_up_to, clean_proposed_answers, normalize_appendix_pages, has_fold}
use aimebu.Submission.Bounds.{body_bytes, GoodPage, normalize_appendix_pages-fit}
use aimebu.Sending.{Draft, Ready, post, prepare, room_send}
use aimebu.Sending.Replies.{reply_reaches_sender}
use aimebu.Posting.{system_name, message_by_id_in_room}
use aimebu.Sending.Rules.{room_send_lem}
use aimebu.Examples.{
  message_of, alice, hall, talk_store, hall_store-RoomsValid, talk_store-IdsValid,
}

abbrev any_json : Text → Bool
any_json t = true

-- Every message mentions bob.
abbrev mention_bob : Text → List Text
mention_bob body = bytes "bob@x" ∷ []

abbrev draft : Draft
draft = record {
  body = bytes "hello";
  needs_attention = false;
  proposed_answers = bytes "yes" ∷ bytes " " ∷ bytes " no " ∷ [];
  open_questions = [];
  visual_plan = [];
  appendix_pages = [];
  attachments = [];
  reply_to = pos 0;
}

abbrev ready : Ready
ready = record {
  targets = some (bytes "bob@x" ∷ []);
  attachments = [];
  visual_plan = [];
  appendix_pages = [];
}

abbrev sent : Store × ℕ
sent = post hall alice draft ready 9 talk_store

talk_store-RoomsValid : RoomsValid talk_store
talk_store-RoomsValid = hall_store-RoomsValid

alice_sends : room_send any_json mention_bob hall alice draft 9 talk_store ≡ ok (sent.0, sent.1)
unfolding room_send lookup contains
alice_sends = refl

room_send_example :
    IdsValid sent.0
    × RoomsValid sent.0
    × (3 < sent.1)
    × (sent.1 ≡ sent.0.next_id)
    × (room_head hall sent.0 ≡ sent.1)
room_send_example =
    room_send_lem any_json mention_bob hall alice draft 9 talk_store sent.0 sent.1
      talk_store-IdsValid talk_store-RoomsValid alice_sends

abbrev answers : List Text
answers = bytes "yes" ∷ bytes " " ∷ bytes " no " ∷ []

abbrev question : OpenQuestion
question = record { question = bytes "go?"; description = []; options = answers }

answers_test : clean_proposed_answers answers ≡ bytes "yes" ∷ bytes "no" ∷ []
unfolding clean_proposed_answers answers_up_to trim_space is_space same
answers_test = refl

abbrev page : AppendixPage
page = record { title = bytes "log"; body = bytes "lines" }

page_taken : normalize_appendix_pages (page ∷ []) ≡ ok (page ∷ [])
unfolding normalize_appendix_pages same
page_taken = refl

normalize_appendix_pages-fit_example :
    (length (page ∷ []) ≤ 10) × (body_bytes (page ∷ []) ≤ 128000) × All GoodPage (page ∷ [])
normalize_appendix_pages-fit_example =
    normalize_appendix_pages-fit (page ∷ []) (page ∷ []) page_taken

abbrev bob : Text
bob = bytes "bob@x"

abbrev no_mentions : Text → List Text
no_mentions body = []

-- Bob answers the last message in the hall, which alice sent.
abbrev reply : Draft
reply = record draft { reply_to = pos 3 }

abbrev ready_reply : Ready
ready_reply = record {
  targets = some (alice ∷ []);
  attachments = [];
  visual_plan = [];
  appendix_pages = [];
}

reply_ready : prepare any_json no_mentions hall bob reply 9 talk_store ≡ ok ready_reply
unfolding prepare lookup contains same
reply_ready = refl

answered : message_by_id_in_room hall 3 talk_store ≡ some (message_of 3 900)
unfolding message_by_id_in_room lookup same
answered = refl

not_own : equal_fold alice bob ≡ false
unfolding equal_fold same
not_own = refl

not_system : (alice == system_name) ≡ false
unfolding same
not_system = refl

reply_reaches_sender_example : has_fold alice (or_zero ready_reply.targets []) ≡ true
unfolding same
reply_reaches_sender_example =
    reply_reaches_sender any_json no_mentions hall bob reply 9 talk_store ready_reply 2
      (message_of 3 900) refl answered not_own refl not_system refl reply_ready
