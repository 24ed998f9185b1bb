-- ===== src/Memory.antt =====
-- internal/server/memory.go: curated records under a quota for each scope and key, their versions,
-- and who may write and manage them. The drawn ID of a new record is an argument. Stored stamps are
-- RFC 3339 texts of one length, which sort as their times do.
pub mod Quota
pub mod Replacing
pub mod Recall
pub mod Snapshot
pub mod Usage
pub mod Versions
use aimebu.Prelude.{
  ℤ, pos, negsuc, length, select, Map, or_zero, lookup, insert, delete, Text, bytes, text_eq,
  text_ltb, trim_space, ltb, if◌then◌else◌, ◌==◌, nat_eq, ℕ, zero, suc, ◌+◌, Bool, true, false, not,
  ◌&&◌, ◌||◌, none, some, List, [], ◌∷◌, ◌++◌,
}
use aimebu.Types.{
  stamp, is_human, Agent, MemoryRecord, Store, not_registered, too_long, body_required,
  memory_disabled, source_not_found, unknown_scope, no_project, other_project, no_scope_key,
  other_profile, memory_full, id_required, memory_not_found, scope_mismatch, version_required,
  stale_version, not_human, Result, ok, err, ◌>>=◌,
}
use aimebu.Posting.{message_room}
use aimebu.Submission.{rune_count}

abbrev pub project_facts : Text
project_facts = bytes "project_facts"

abbrev pub user_profile : Text
user_profile = bytes "user_profile"

abbrev pub agent_shared_notes : Text
agent_shared_notes = bytes "agent_shared_notes"

-- agentSharedNotesMemoryKey
abbrev pub global_key : Text
global_key = bytes "global"

-- A scope and its key.
abbrev pub ScopeRef : Type 0
ScopeRef = Text × Text

unfoldable pub memory_globally_enabled : Store → Bool
memory_globally_enabled s = or_zero s.memory_enabled false

unfoldable pub memory_agent : Text → Store → Result Agent
memory_agent id s = elim (lookup id s.agents) [ none ↦ err not_registered | some a ↦ ok a ]

-- Who may list, change and remove records: everybody, or with memory off the humans.
unfoldable pub memory_management_allowed : Text → Store → Result (Unit {0})
unfolding memory_globally_enabled memory_agent
memory_management_allowed agent s =
    if memory_globally_enabled s
    then ok tt
    else (memory_agent agent s >>= λ a. if is_human a.kind then ok tt else err memory_disabled)

unfoldable pub room_memory_content_enabled : Text → Store → Bool
unfolding memory_globally_enabled
room_memory_content_enabled room s =
    memory_globally_enabled s
    && elim (lookup room s.rooms) [ none ↦ false | some r ↦ or_zero r.memory_enabled true ]

source_allowed : ℤ → Store → Result (Unit {0})
unfolding message_room room_memory_content_enabled
source_allowed (pos zero) s = ok tt
source_allowed (negsuc n) s = err source_not_found
source_allowed (pos (suc n)) s = elim (message_room (suc n) s) [
  | none ↦ err source_not_found
  | some room ↦ if room_memory_content_enabled room s then ok tt else err memory_disabled
]

-- A record may be added where memory is on, and on in the room of the message it comes from.
unfoldable pub memory_write_allowed : Text → ℤ → Store → Result (Unit {0})
unfolding memory_agent memory_globally_enabled source_allowed
memory_write_allowed agent source s = do
  a ← memory_agent agent s
  if memory_globally_enabled s then source_allowed source s else err memory_disabled

unfoldable pub valid_memory_scope : Text → Bool
valid_memory_scope scope =
    scope == project_facts || (scope == user_profile || scope == agent_shared_notes)

unfoldable pub memory_cap : Text → ℕ
memory_cap scope =
    if scope == project_facts
    then 4096
    else if scope == user_profile
    then 2048
    else if scope == agent_shared_notes
    then 4096
    else 0

unfoldable pub in_scope : Text → Text → MemoryRecord → Bool
in_scope scope key r = r.scope == scope && r.scope_key == key

-- The bytes of the bodies under a scope and key.
unfoldable pub used_bytes : Text → Text → List MemoryRecord → ℕ
unfolding in_scope
used_bytes scope key [] = 0
used_bytes scope key (r ∷ rs) =
    let rest = used_bytes scope key rs in
    if in_scope scope key r then length r.body + rest else rest

unfoldable pub memory_allowed_refs : Agent → List ScopeRef
memory_allowed_refs a =
    (agent_shared_notes, global_key)
    ∷ ((if not (a.project == []) then (project_facts, a.project) ∷ [] else [])
        ++ (if is_human a.kind then (user_profile, a.id) ∷ [] else []))

-- The key that an agent's request means in a scope, or why it may not ask for it.
project_key : Agent → Text → Result Text
project_key a requested =
    if is_human a.kind && not (requested == [])
    then ok requested
    else if a.project == []
    then err no_project
    else if not (requested == []) && not (requested == a.project)
    then err other_project
    else ok a.project

profile_key : Agent → Text → Bool → Result Text
profile_key a requested for_write =
    let key = if requested == [] && is_human a.kind then a.id else requested in
    if key == []
    then err no_scope_key
    else if for_write && (is_human a.kind && not (key == a.id))
    then err other_profile
    else ok key

unfoldable pub memory_scope_key : Agent → Text → Text → Bool → Result Text
unfolding project_key profile_key
memory_scope_key a scope requested for_write =
    if scope == project_facts
    then project_key a requested
    else if scope == agent_shared_notes
    then ok global_key
    else if scope == user_profile
    then profile_key a requested for_write
    else err unknown_scope

-- sortMemoryRecords: by scope, key, time of the last change, ID.
unfoldable pub comes_before : MemoryRecord → MemoryRecord → Bool
comes_before a b =
    if not (a.scope == b.scope)
    then text_ltb a.scope b.scope
    else if not (a.scope_key == b.scope_key)
    then text_ltb a.scope_key b.scope_key
    else if not (or_zero a.updated_at 0 == or_zero b.updated_at 0)
    then ltb (or_zero a.updated_at 0) (or_zero b.updated_at 0)
    else text_ltb a.id b.id

insert_record : MemoryRecord → List MemoryRecord → List MemoryRecord
unfolding comes_before
insert_record r [] = r ∷ []
insert_record r (x ∷ xs) =
    let rest = insert_record r xs in if comes_before r x then r ∷ x ∷ xs else x ∷ rest

unfoldable pub sort_memory_records : List MemoryRecord → List MemoryRecord
unfolding insert_record
sort_memory_records [] = []
sort_memory_records (r ∷ rs) = insert_record r (sort_memory_records rs)

-- The values of a map.
abbrev pub values : Map Text MemoryRecord → List MemoryRecord
values [] = []
values ((id, r) ∷ rest) = r ∷ values rest

unfoldable pub records_for_scope : Text → Text → Store → List MemoryRecord
unfolding sort_memory_records in_scope
records_for_scope scope key s = sort_memory_records (select (in_scope scope key) (values s.memory))

-- A body as it is stored, if there is one and it is short enough.
checked_body : Text → Result Text
unfolding trim_space rune_count
checked_body body =
    let trimmed = trim_space body in
    if trimmed == []
    then err body_required
    else if ltb 2000 (rune_count trimmed)
    then err too_long
    else ok trimmed

-- The record and the store with it, unless the scope would hold more bytes than its cap.
keep_within_cap : MemoryRecord → List MemoryRecord → Store → Result (Store × MemoryRecord)
unfolding used_bytes memory_cap
keep_within_cap r records s =
    if ltb (memory_cap r.scope) (used_bytes r.scope r.scope_key records)
    then err memory_full
    else ok (record s { memory = insert r.id r s.memory }, r)

unfoldable pub new_record : Text → Text → Text → Text → Text → ℤ → ℕ → MemoryRecord
new_record id agent scope key body source now = record {
  id = id;
  scope = scope;
  scope_key = key;
  body = body;
  version = 1;
  author = agent;
  source_message_id = source;
  created_at = stamp now;
  updated_at = stamp now;
}

unfoldable pub add_memory :
    Text → Text → Text → Text → Text → ℤ → ℕ → Store → Result (Store × MemoryRecord)
unfolding memory_write_allowed memory_agent memory_scope_key checked_body new_record
    records_for_scope keep_within_cap
add_memory id agent scope requested body source now s = do
  allowed ← memory_write_allowed agent source s
  a ← memory_agent agent s
  key ← memory_scope_key a scope requested true
  text ← checked_body body
  let r = new_record id agent scope key text source now
  keep_within_cap r (records_for_scope scope key s ++ r ∷ []) s

-- The record, if the version that the caller has seen is its current one.
unfoldable pub if_current : ℤ → MemoryRecord → Result MemoryRecord
if_current (negsuc n) r = err version_required
if_current (pos v) r =
    if v == 0
    then err version_required
    else if not (v == r.version)
    then err stale_version
    else ok r

-- The stored record, if the agent may write its scope and names its current version.
unfoldable pub found_record : Agent → Text → ℤ → Store → Result MemoryRecord
unfolding memory_scope_key if_current
found_record a id version s = elim (lookup id s.memory) [
  | none ↦ err memory_not_found
  | some r ↦ memory_scope_key a r.scope r.scope_key true >>= λ key.
      if not (key == r.scope_key) then err scope_mismatch else if_current version r
]

pub replace_record : Text → MemoryRecord → List MemoryRecord → List MemoryRecord
replace_record id next [] = []
replace_record id next (r ∷ rs) =
    let rest = replace_record id next rs in if r.id == id then next ∷ rs else r ∷ rest

unfoldable pub next_version : Text → ℕ → MemoryRecord → MemoryRecord
next_version body now r = record r { body = body; version = r.version + 1; updated_at = stamp now }

unfoldable pub update_memory : Text → Text → ℤ → Text → ℕ → Store → Result (Store × MemoryRecord)
unfolding memory_management_allowed memory_agent checked_body found_record next_version
    replace_record records_for_scope used_bytes memory_cap
update_memory agent id version body now s = do
  allowed ← memory_management_allowed agent s
  a ← memory_agent agent s
  text ← (if id == [] then err body_required else checked_body body)
  r ← found_record a id version s
  let next = next_version text now r
  let records = replace_record id next (records_for_scope r.scope r.scope_key s)
  if ltb (memory_cap r.scope) (used_bytes r.scope r.scope_key records)
      then err memory_full
      else ok (record s { memory = insert id next s.memory }, next)

unfoldable pub remove_memory : Text → Text → ℤ → Store → Result (Store × MemoryRecord)
unfolding memory_management_allowed memory_agent found_record
remove_memory agent id version s = do
  allowed ← memory_management_allowed agent s
  a ← memory_agent agent s
  r ← (if id == [] then err id_required else found_record a id version s)
  ok (record s { memory = delete id s.memory }, r)

-- A human clears a scope and key, or with no scope everything.
cleared : Text → Text → Text × MemoryRecord → Bool
unfolding in_scope
cleared scope key row = scope == [] || in_scope scope key row.1

unfoldable pub clean_memory : Text → Text → Text → Store → Result (Store × List MemoryRecord)
unfolding memory_agent memory_scope_key cleared sort_memory_records
clean_memory agent scope requested s = do
  a ← memory_agent agent s
  key ←
      (if not (is_human a.kind)
        then err not_human
        else if scope == []
        then ok []
        else memory_scope_key a scope requested false)
  ok (
    record s { memory = select (λ row. not (cleared scope key row)) s.memory },
    sort_memory_records (values (select (cleared scope key) s.memory)),
  )
