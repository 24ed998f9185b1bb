-- ===== src/Memory/Recall.antt =====
-- recallMessages of memory.go: the messages that match a query best, from the agent's rooms. Letters
-- and digits are those of ASCII; a byte of any other rune counts as part of a word.
pub mod Found
use aimebu.Prelude.{
  take, Map, is_some, or_zero, contains, Text, bytes, text_eq, has_prefix, trim_space, to_lower,
  ltb, leb, if◌then◌else◌, ◌==◌, nat_eq, ℕ, zero, suc, ◌+◌, ◌-◌, min, Bool, true, false, not, ◌&&◌,
  ◌||◌, Option, none, some, List, [], ◌∷◌, ◌++◌,
}
use aimebu.Types.{
  ◌>>=◌, Stamp, is_system, Room, Message, Store, memory_disabled, query_required, Result, ok, err,
}
use aimebu.Posting.{room_messages_of}
use aimebu.Submission.{rune_count, take_runes, is_continuation}
use aimebu.Memory.{memory_agent, memory_globally_enabled}
use aimebu.Memory.Snapshot.{has_infix}

pub record RecallResult : Type 0 where
  pub message_id : ℕ
  pub room_id : Text
  pub from : Text
  pub created_at : Stamp
  pub snippet : Text
  pub score : ℕ

-- Of a text in lower case.
is_word : ℕ → Bool
is_word c = leb 128 c || ((leb b'0' c && leb c b'9') || (leb b'a' c && leb c b'z'))

-- The words of a text, `word` being the bytes read of one, each once.
add_term : Text → List Text → List Text
add_term word terms = if word == [] || contains word terms then terms else terms ++ word ∷ []

terms_from : Text → List Text → Text → List Text
unfolding is_word add_term
terms_from word terms [] = add_term word terms
terms_from word terms (c ∷ s) =
    let inside = terms_from (word ++ c ∷ []) terms s in
    let ended = terms_from [] (add_term word terms) s in if is_word c then inside else ended

unfoldable pub tokenize_recall : Text → List Text
unfolding terms_from to_lower
tokenize_recall query = terms_from [] [] (to_lower query)

-- strings.Index
index_of : Text → Text → Option ℕ
unfolding has_prefix
index_of [] p = if has_prefix [] p then some 0 else none
index_of (c ∷ s) p = elim (has_prefix (c ∷ s) p) [
  | true ↦ some 0
  | false ↦ elim (index_of s p) [ none ↦ none | some i ↦ some (i + 1) ]
]

first_index : Text → List Text → Option ℕ
unfolding index_of
first_index s [] = none
first_index s (t ∷ ts) =
    let later = first_index s ts in if is_some (index_of s t) then index_of s t else later

-- `runes[n:]`
drop_runes : ℕ → Text → Text
drop_runes n [] = []
drop_runes zero (c ∷ s) = let rest = drop_runes zero s in if is_continuation c then rest else c ∷ s
drop_runes (suc n) (c ∷ s) =
    let inside = drop_runes (suc n) s in
    let next = drop_runes n s in if is_continuation c then inside else next

-- At most 220 runes of the body, from 60 before the first match.
recall_snippet : Text → List Text → Text → Text
unfolding trim_space rune_count to_lower first_index drop_runes take_runes
recall_snippet text terms query =
    let body = trim_space text in
    let total = rune_count body in
    let index = or_zero (first_index (to_lower body) (query ∷ terms)) 0 in
    let wanted = rune_count (take index body) - 60 in
    let start = if ltb total (wanted + 220) then total - 220 else wanted in
    let stop = min total (wanted + 220) in
    let snippet = take_runes (stop - start) (drop_runes start body) in
    if leb total 220
    then body
    else (if ltb 0 start then bytes "..." else [])
      ++ (snippet ++ (if ltb stop total then bytes "..." else []))

term_score : Text → List Text → ℕ
unfolding has_infix
term_score body [] = 0
term_score body (t ∷ ts) = (if has_infix body t then 2 else 0) + term_score body ts

unfoldable pub recall_score : Text → List Text → Text → ℕ
unfolding to_lower has_infix term_score
recall_score text terms query =
    (if has_infix (to_lower text) query then 10 else 0) + term_score (to_lower text) terms

unfoldable pub result_of : Text → List Text → Message → RecallResult
unfolding recall_snippet recall_score
result_of query terms m = record {
  message_id = m.id;
  room_id = m.room_id;
  from = m.from;
  created_at = m.created_at;
  snippet = recall_snippet m.body terms query;
  score = recall_score m.body terms query;
}

-- The matches of one room, and those of all rooms that the agent may recall from.
unfoldable pub matches : Text → List Text → Message → Bool
unfolding recall_score
matches query terms m = not (is_system m.from_kind) && ltb 0 (recall_score m.body terms query)

room_results : Text → List Text → List Message → List RecallResult
unfolding matches result_of
room_results query terms [] = []
room_results query terms (m ∷ ms) =
    let rest = room_results query terms ms in
    if matches query terms m then result_of query terms m ∷ rest else rest

unfoldable pub may_recall : Text → Room → Bool
may_recall agent r = contains agent r.members && or_zero r.memory_enabled true

results_in : Text → Text → List Text → Store → Map Text Room → List RecallResult
unfolding may_recall room_results
results_in agent query terms s [] = []
results_in agent query terms s ((id, r) ∷ rooms) =
    let rest = results_in agent query terms s rooms in
    if may_recall agent r then room_results query terms (room_messages_of r.id s) ++ rest else rest

-- The higher score first, of equal ones the newer message.
unfoldable pub ranks_before : RecallResult → RecallResult → Bool
ranks_before a b =
    if not (a.score == b.score) then ltb b.score a.score else ltb b.message_id a.message_id

insert_result : RecallResult → List RecallResult → List RecallResult
unfolding ranks_before
insert_result r [] = r ∷ []
insert_result r (x ∷ xs) =
    let rest = insert_result r xs in if ranks_before x r then x ∷ rest else r ∷ x ∷ xs

sort_results : List RecallResult → List RecallResult
unfolding insert_result
sort_results [] = []
sort_results (r ∷ rs) = insert_result r (sort_results rs)

unfoldable pub recall_messages : Text → Text → ℕ → Store → Result (List RecallResult)
unfolding memory_agent memory_globally_enabled trim_space to_lower tokenize_recall results_in
    sort_results
recall_messages agent text limit s = do
  a ← memory_agent agent s
  let query = trim_space text
  let kept = if limit == 0 || ltb 10 limit then 10 else limit
  let found = results_in agent (to_lower query) (tokenize_recall query) s s.rooms
  if not (memory_globally_enabled s)
      then err memory_disabled
      else if query == []
      then err query_required
      else ok (take kept (sort_results found))
