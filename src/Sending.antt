-- ===== src/Sending.antt =====
-- roomSendWithVisualPlan of internal/server/store_messages.go: an agent sends a message to a room.
-- `mentions` stands for parseAddressedTo of addressing.go, whose masking of code is not modelled:
-- what is shown holds of every function in its place.
pub mod Alerts
pub mod Replies
pub mod Rules
use aimebu.Prelude.{
  ℤ, pos, negsuc, pos_part, Map, or_zero, lookup, Text, text_eq, equal_fold, if◌then◌else◌, ◌==◌,
  nat_eq, ℕ, zero, suc, ◌+◌, Bool, not, ◌&&◌, Option, none, some, List, [], ◌∷◌,
}
use aimebu.Types.{
  stamp, unset, is_human, is_system, OpenQuestion, AppendixPage, PlanBlock, Attachment, Message,
  Agent, Store, not_member, bad_reply, reply_not_found, body_required, Result, ok, err, ◌>>=◌,
  after_pair,
}
use aimebu.Posting.{system_name, append_message, announce, message_by_id_in_room}
use aimebu.Prefs.{unhide_room_for_addressed}
use aimebu.Rooms.{is_member, join_room}
use aimebu.Agents.{touch_agent}
use aimebu.Agents.Waits.{is_filled}
use aimebu.Addressing.{addressing_context, resolve_addressed_tokens, addressed_matches_agent}
use aimebu.Submission.{
  clean_proposed_answers, clean_open_questions, normalize_appendix_pages,
  normalize_visual_plan_blocks, append_target_dedup, resolve_attachments,
}

-- What the caller passes; blocks come with the random IDs for those that have none.
pub record Draft : Type 0 where
  pub body : Text
  pub needs_attention : Bool
  pub proposed_answers : List Text
  pub open_questions : List OpenQuestion
  pub visual_plan : List (PlanBlock × Text)
  pub appendix_pages : List AppendixPage
  pub attachments : List Text
  pub reply_to : ℤ

-- The message replied to, if one is named.
find_parent : Text → ℤ → Store → Result (Option Message)
unfolding message_by_id_in_room
find_parent room (negsuc n) s = err bad_reply
find_parent room (pos zero) s = ok none
find_parent room (pos (suc n)) s = elim (message_by_id_in_room room (suc n) s) [
  | none ↦ err reply_not_found
  | some m ↦ ok (some m)
]

-- A reply is addressed to the parent's sender, unless that is the sender or the system.
add_parent : Text → Option Message → Option (List Text) → Option (List Text)
unfolding equal_fold append_target_dedup
add_parent from none targets = targets
add_parent from (some m) targets =
    if not (equal_fold m.from from) && not (is_system m.from_kind) && not (m.from == system_name)
    then append_target_dedup targets m.from
    else targets

-- Targets that were mentioned but resolve to nobody are empty, not nil.
targets_of : List Text → List Text → Option (List Text)
targets_of [] [] = none
targets_of (t ∷ raw) [] = some []
targets_of raw (n ∷ names) = some (n ∷ names)

-- Every human that is not in the room joins it; a join that fails is passed over.
join_humans : Text → ℕ → Map Text Agent → Store → Store
unfolding is_member join_room
join_humans room now [] s = s
join_humans room now ((id, a) ∷ rest) s = join_humans room now rest (
    if is_human a.kind && not (is_member room a.id s)
    then after_pair s (join_room room a.id now s)
    else s)

unfoldable pub alert : Text → Option (List Text) → ℕ → Store → Store
unfolding join_humans unhide_room_for_addressed addressed_matches_agent
alert room targets now s =
    let joined = join_humans room now s.agents s in
    if is_filled (or_zero targets [])
    then unhide_room_for_addressed addressed_matches_agent room (or_zero targets []) joined
    else joined

-- What was checked and resolved of a draft.
pub record Ready : Type 0 where
  pub targets : Option (List Text)
  pub attachments : List Attachment
  pub visual_plan : List PlanBlock
  pub appendix_pages : List AppendixPage

unfoldable pub message_from : Text → Text → Draft → Ready → ℕ → Store → Message
unfolding clean_proposed_answers clean_open_questions
message_from room from d r now s =
    let sender = lookup from s.agents in
    record {
      id = s.next_id + 1;
      room_id = room;
      from = from;
      from_kind = elim sender [ none ↦ unset | some a ↦ a.kind ];
      from_harness = elim sender [ none ↦ [] | some a ↦ a.harness ];
      from_model = elim sender [ none ↦ [] | some a ↦ a.model ];
      body = d.body;
      created_at = stamp now;
      reply_to = pos_part d.reply_to;
      targets = r.targets;
      needs_human_attention = d.needs_attention;
      proposed_answers = clean_proposed_answers d.proposed_answers;
      open_questions = clean_open_questions d.open_questions;
      visual_plan = r.visual_plan;
      appendix_pages = r.appendix_pages;
      attachments = r.attachments;
    }

-- The message is stored and told.
unfoldable pub post : Text → Text → Draft → Ready → ℕ → Store → Store × ℕ
unfolding message_from append_message touch_agent announce
post room from d r now s =
    let m = message_from room from d r now s in
    (
      announce m d.needs_attention
          (touch_agent from now (append_message room m (record s { next_id = s.next_id + 1 }))),
      s.next_id + 1,
    )

module _ (valid_json : Text → Bool) (mentions : Text → List Text) where
  -- The checks of a draft, in the code's order.
  unfoldable pub prepare : Text → Text → Draft → ℕ → Store → Result Ready
  unfolding find_parent resolve_attachments normalize_visual_plan_blocks normalize_appendix_pages
      resolve_addressed_tokens addressing_context add_parent targets_of
  prepare room from d now s = do
    parent ← find_parent room d.reply_to s
    attachments ← resolve_attachments d.attachments s
    plan ← normalize_visual_plan_blocks valid_json d.visual_plan
    pages ← normalize_appendix_pages d.appendix_pages
    let raw = mentions d.body
    let names = resolve_addressed_tokens raw (addressing_context room from now s)
    let ready : Ready = record {
      targets = add_parent from parent (targets_of raw names);
      attachments = attachments;
      visual_plan = plan;
      appendix_pages = pages;
    }
    if d.body == [] && not (is_filled attachments) && not (is_filled plan) && not (is_filled pages)
        then err body_required
        else ok ready

  unfoldable pub room_send : Text → Text → Draft → ℕ → Store → Result (Store × ℕ)
  unfolding is_member prepare alert post
  room_send room from d now s =
      if is_member room from s
      then (prepare room from d now s >>= λ r.
          ok (post room from d r now (if d.needs_attention then alert room r.targets now s else s)))
      else err not_member
