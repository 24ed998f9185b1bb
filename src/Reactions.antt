-- ===== src/Reactions.antt =====
-- Reactions of internal/server/store_messages.go: addReaction, removeReaction, summarizeReactions.
pub mod Rows
use aimebu.Prelude.{
  select, any, Map, is_some, or_zero, lookup, insert, delete, contains, Text, text_eq, text_ltb,
  if◌then◌else◌, ◌==◌, nat_eq, ℕ, ◌+◌, Bool, true, false, not, ◌&&◌, ◌||◌, none, some, List, [],
  ◌∷◌, ◌++◌, map,
}
use aimebu.Types.{
  stamp, Reaction, Store, not_registered, not_member, message_not_found, Result, ok, err, ◌>>=◌,
}
use aimebu.Posting.{message_room}
use aimebu.Rooms.{is_member}
use aimebu.Agents.{touch_agent}

abbrev pub is_reaction : Text → Text → Reaction → Bool
is_reaction agent emoji r = r.agent_id == agent && r.emoji == emoji

pub record Tally : Type 0 where
  pub count : ℕ
  pub agents : List Text
  pub me : Bool

abbrev no_tally : Tally
no_tally = record { count = 0; agents = []; me = false }

add_once : Text → List Text → List Text
add_once a xs = if contains a xs then xs else xs ++ a ∷ []

tally_row : Text → Reaction → Map Text Tally → Map Text Tally
unfolding add_once
tally_row viewer r m =
    let a = or_zero (lookup r.emoji m) no_tally in
    let a' : Tally = record {
      count = a.count + 1;
      agents = add_once r.agent_id a.agents;
      me = a.me || (not (viewer == []) && r.agent_id == viewer);
    } in
    if r.emoji == [] || r.agent_id == [] then m else insert r.emoji a' m

tally : Text → List Reaction → Map Text Tally → Map Text Tally
unfolding tally_row
tally viewer [] m = m
tally viewer (r ∷ rs) m = tally viewer rs (tally_row viewer r m)

pub record ReactionSummary : Type 0 where
  pub emoji : Text
  pub count : ℕ
  pub agents : List Text
  pub me : Bool

insert_text : Text → List Text → List Text
insert_text a [] = a ∷ []
insert_text a (x ∷ xs) =
    let rest = insert_text a xs in if text_ltb x a then x ∷ rest else a ∷ (x ∷ xs)

-- sort.Strings
sort_texts : List Text → List Text
unfolding insert_text
sort_texts [] = []
sort_texts (x ∷ xs) = insert_text x (sort_texts xs)

abbrev keys {ℓ} : {V : Type ℓ} → Map Text V → List Text
keys [] = []
keys ((k, v) ∷ m) = k ∷ keys m

summary_of : Map Text Tally → Text → ReactionSummary
unfolding sort_texts
summary_of m e =
    let a = or_zero (lookup e m) no_tally in
    record { emoji = e; count = a.count; agents = sort_texts a.agents; me = a.me }

-- One entry for each emoji, in the emojis' order.
unfoldable pub summarize_reactions : List Reaction → Text → List ReactionSummary
unfolding tally summary_of sort_texts
summarize_reactions rows viewer =
    let m = tally viewer rows [] in map (summary_of m) (sort_texts (keys m))

abbrev pub rows_of : ℕ → Store → List Reaction
rows_of id s = or_zero (lookup id s.reactions) []

-- The checks that adding and removing share: the message's room, or an error.
unfoldable pub reaction_room : ℕ → Text → Store → Result Text
unfolding message_room is_member
reaction_room id agent s = elim (message_room id s) [
  | none ↦ err message_not_found
  | some room ↦
      if is_some (lookup agent s.agents)
      then (if is_member room agent s then ok room else err not_member)
      else err not_registered
]

put_rows : ℕ → List Reaction → Store → Store
put_rows id rows s = record s { reactions = insert id rows s.reactions }

-- An agent's second reaction with an emoji changes nothing.
unfoldable pub added : ℕ → Text → Text → ℕ → Store → Store × List ReactionSummary × Bool
unfolding put_rows summarize_reactions touch_agent
added id agent emoji now s =
    let rows = rows_of id s in
    let rows' = rows ++ record { agent_id = agent; emoji = emoji; created_at = stamp now } ∷ [] in
    if any (is_reaction agent emoji) rows
    then (s, summarize_reactions rows agent, false)
    else (touch_agent agent now (put_rows id rows' s), summarize_reactions rows' agent, true)

unfoldable pub add_reaction :
    ℕ → Text → Text → ℕ → Store → Result (Store × Text × List ReactionSummary × Bool)
unfolding reaction_room added
add_reaction id agent emoji now s = do
  room ← reaction_room id agent s
  let (s', summary, new) = added id agent emoji now s
  ok (s', room, summary, new)

-- A message whose last reaction went has no row.
store_rows : ℕ → List Reaction → Store → Store
unfolding put_rows
store_rows id [] s = record s { reactions = delete id s.reactions }
store_rows id (r ∷ rs) s = put_rows id (r ∷ rs) s

unfoldable pub removed : ℕ → Text → Text → ℕ → Store → Store × List ReactionSummary × Bool
unfolding store_rows summarize_reactions touch_agent
removed id agent emoji now s =
    let rows = rows_of id s in
    let filtered = select (λ r. not (is_reaction agent emoji r)) rows in
    let gone = any (is_reaction agent emoji) rows in
    (
      touch_agent agent now (if gone then store_rows id filtered s else s),
      summarize_reactions filtered agent,
      gone,
    )

unfoldable pub remove_reaction :
    ℕ → Text → Text → ℕ → Store → Result (Store × Text × List ReactionSummary × Bool)
unfolding reaction_room removed
remove_reaction id agent emoji now s = do
  room ← reaction_room id agent s
  let (s', summary, gone) = removed id agent emoji now s
  ok (s', room, summary, gone)
