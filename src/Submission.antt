-- ===== src/Submission.antt =====
-- What a message may carry: internal/server/store_helpers.go, and resolveAttachments of
-- store_attachments.go. Texts are UTF-8, so a rune starts at every byte that continues none.
-- json.Valid and the random IDs of blocks are arguments.
pub mod Bounds
use aimebu.Prelude.{
  length, Map, or_zero, lookup, contains, Text, bytes, text_eq, trim_space, equal_fold, ltb, leb,
  if◌then◌else◌, ◌==◌, nat_eq, ℕ, zero, suc, ◌+◌, max, Bool, true, false, not, ◌&&◌, ◌||◌, Option,
  none, some, List, [], ◌∷◌, ◌++◌,
}
use aimebu.Types.{
  Store, OpenQuestion, AppendixPage, PlanBlock, Attachment, too_many, bad_attachment,
  attachment_not_found, type_required, too_long, bad_json, body_required, Result, ok, err, ◌>>=◌,
}

-- The answers that are not blank, until `room` of them are out.
unfoldable pub answers_up_to : ℕ → List Text → List Text
unfolding trim_space
answers_up_to zero answers = []
answers_up_to (suc room) [] = []
answers_up_to (suc room) (a ∷ answers) =
    let skipped = answers_up_to (suc room) answers in
    let kept = answers_up_to room answers in
    if trim_space a == [] then skipped else trim_space a ∷ kept

unfoldable pub clean_proposed_answers : List Text → List Text
unfolding answers_up_to
clean_proposed_answers = answers_up_to 4

-- A byte that continues a rune.
abbrev pub is_continuation : ℕ → Bool
is_continuation c = leb 128 c && ltb c 192

-- utf8.RuneCountInString, and len([]rune(s)).
unfoldable pub rune_count : Text → ℕ
rune_count [] = 0
rune_count (c ∷ s) = if is_continuation c then rune_count s else suc (rune_count s)

-- `string(r[:max])`
unfoldable pub take_runes : ℕ → Text → Text
take_runes max [] = []
take_runes zero (c ∷ s) = if is_continuation c then c ∷ take_runes zero s else []
take_runes (suc max) (c ∷ s) =
    let inside = take_runes (suc max) s in
    let next = take_runes max s in if is_continuation c then c ∷ inside else c ∷ next

unfoldable pub truncate_runes : Text → ℕ → Text
unfolding rune_count take_runes
truncate_runes s max = if leb (rune_count s) max then s else take_runes max s

options_up_to : ℕ → List Text → List Text
unfolding trim_space truncate_runes
options_up_to zero options = []
options_up_to (suc room) [] = []
options_up_to (suc room) (o ∷ options) =
    let option = truncate_runes (trim_space o) 500 in
    let skipped = options_up_to (suc room) options in
    let kept = options_up_to room options in if option == [] then skipped else option ∷ kept

-- One question with its options cleaned.
unfoldable pub clean_question : OpenQuestion → OpenQuestion
unfolding trim_space truncate_runes options_up_to
clean_question q = record {
  question = truncate_runes (trim_space q.question) 500;
  description = truncate_runes (trim_space q.description) 1000;
  options = options_up_to 8 q.options;
}

abbrev pub is_usable : OpenQuestion → Bool
is_usable q = not (q.question == []) && leb 2 (length q.options)

questions_up_to : ℕ → List OpenQuestion → List OpenQuestion
unfolding clean_question
questions_up_to zero qs = []
questions_up_to (suc room) [] = []
questions_up_to (suc room) (q ∷ qs) =
    let skipped = questions_up_to (suc room) qs in
    let kept = questions_up_to room qs in
    if is_usable (clean_question q) then clean_question q ∷ kept else skipped

unfoldable pub clean_open_questions : List OpenQuestion → List OpenQuestion
unfolding questions_up_to
clean_open_questions = questions_up_to 10

-- The pages that are not blank; `total` counts the bytes of the bodies before.
unfoldable pub pages_from : ℕ → List AppendixPage → Result (List AppendixPage)
unfolding trim_space rune_count
pages_from total [] = ok []
pages_from total (p ∷ ps) =
    let title = trim_space p.title in
    let body = trim_space p.body in
    let skipped = pages_from total ps in
    let rest = pages_from (total + length body) ps in
    let page : AppendixPage = record { title = title; body = body } in
    if title == [] && body == []
    then skipped
    else if body == []
    then err body_required
    else if ltb 160 (rune_count title)
    then err too_long
    else if ltb 32000 (length body)
    then err too_long
    else if ltb 128000 (total + length body)
    then err too_long
    else (rest >>= λ pages. ok (page ∷ pages))

unfoldable pub normalize_appendix_pages : List AppendixPage → Result (List AppendixPage)
unfolding pages_from
normalize_appendix_pages pages = if ltb 10 (length pages) then err too_many else pages_from 0 pages

module _ (valid_json : Text → Bool) where
  -- `order` is the block's place; an ID that is empty is replaced by a random one.
  blocks_from : ℕ → List (PlanBlock × Text) → Result (List PlanBlock)
  unfolding trim_space rune_count
  blocks_from order [] = ok []
  blocks_from order ((b, fresh) ∷ bs) =
      let payload = if b.payload == [] then bytes "{}" else b.payload in
      let block : PlanBlock = record {
        id = if b.id == [] then fresh else b.id;
        type = trim_space b.type;
        title = trim_space b.title;
        payload = payload;
        order = order;
      } in
      let rest = blocks_from (suc order) bs in
      if trim_space b.type == []
      then err type_required
      else if ltb 160 (rune_count (trim_space b.title))
      then err too_long
      else if ltb 64000 (length payload)
      then err too_long
      else if not (valid_json payload)
      then err bad_json
      else (rest >>= λ blocks. ok (block ∷ blocks))

  unfoldable pub normalize_visual_plan_blocks : List (PlanBlock × Text) → Result (List PlanBlock)
  unfolding blocks_from
  normalize_visual_plan_blocks blocks =
      if ltb 80 (length blocks) then err too_many else blocks_from 0 blocks

unfoldable pub has_fold : Text → List Text → Bool
unfolding equal_fold
has_fold t [] = false
has_fold t (x ∷ xs) = equal_fold x t || has_fold t xs

-- Targets that are nil and those that are empty differ.
unfoldable pub append_target_dedup : Option (List Text) → Text → Option (List Text)
unfolding has_fold
append_target_dedup targets target =
    let ts = or_zero targets [] in
    if target == [] || has_fold target ts then targets else some (ts ++ target ∷ [])

all_hex : Text → Bool
all_hex [] = true
all_hex (c ∷ s) = ((leb b'0' c && leb c b'9') || (leb b'a' c && leb c b'f')) && all_hex s

-- 32 hexadecimal digits.
unfoldable pub valid_uuid : Text → Bool
unfolding all_hex
valid_uuid id = length id == 32 && all_hex id

-- `seen` are the IDs resolved before.
resolve_refs : Map Text Attachment → List Text → List Text → Result (List Attachment)
unfolding valid_uuid trim_space
resolve_refs stored seen [] = ok []
resolve_refs stored seen (r ∷ refs) =
    let id = trim_space r in
    let again = resolve_refs stored seen refs in
    let rest = resolve_refs stored (id ∷ seen) refs in
    if not (valid_uuid id)
    then err bad_attachment
    else if contains id seen
    then again
    else elim (lookup id stored) [
      | none ↦ err attachment_not_found
      | some a ↦ rest >>= λ found. ok (a ∷ found)
    ]

unfoldable pub resolve_attachments : List Text → Store → Result (List Attachment)
unfolding resolve_refs
resolve_attachments refs s =
    if ltb 4 (length refs) then err too_many else resolve_refs s.attachments [] refs
