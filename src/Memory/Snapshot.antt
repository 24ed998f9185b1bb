-- ===== src/Memory/Snapshot.antt =====
-- What an agent is shown of the memory: the snapshots of memory.go and their rendering. The key of
-- a scope and key in the code's sets joins them by a NUL, which no scope contains.
pub mod Seen
pub mod Trimmed
use aimebu.Prelude.{
  take, length, select, any, is_some, or_zero, Text, bytes, text_eq, has_prefix, text_ltb,
  trim_space, to_lower, ltb, leb, nat_beq, if◌then◌else◌, ◌==◌, nat_eq, ℕ, zero, suc, ◌-◌, ◌*◌, ◌/◌,
  max, Bool, true, false, not, ◌&&◌, ◌||◌, Option, none, some, List, [], ◌∷◌, ◌++◌, map,
}
use aimebu.Types.{is_ai, is_human, Agent, MemoryRecord, Store, Result, ok, ◌>>=◌}
use aimebu.Memory.{
  user_profile, used_bytes, ScopeRef, memory_globally_enabled, memory_agent,
  memory_management_allowed, valid_memory_scope, memory_cap, in_scope, memory_allowed_refs,
  memory_scope_key, sort_memory_records, values,
}

pub record MemoryUsage : Type 0 where
  pub scope : Text
  pub key : Text
  pub used : ℕ
  pub cap : ℕ
  pub percent : ℕ

unfoldable pub memory_usage : Text → Text → List MemoryRecord → MemoryUsage
unfolding used_bytes memory_cap
memory_usage scope key records =
    let used = used_bytes scope key records in
    let cap = memory_cap scope in
    record {
      scope = scope;
      key = key;
      used = used;
      cap = cap;
      percent = if ltb 0 cap then used * 100 / cap else 0;
    }

pub record MemorySnapshot : Type 0 where
  pub records : List MemoryRecord
  pub usage : List MemoryUsage
  pub rendered : Text

-- `strings.ReplaceAll(body, "\n", " ")`
one_line : Text → Text
one_line [] = []
one_line (c ∷ s) = (if nat_beq c 10 then 32 else c) ∷ one_line s

rendered_record : MemoryRecord → Text
unfolding one_line
rendered_record r =
    bytes "- ["
    ++ (r.id
        ++ (bytes "] "
            ++ (one_line r.body
                ++ ((if not (r.author == [])
                      then bytes " (author: " ++ (r.author ++ bytes ")")
                      else [])
                    ++ (10 ∷ [])))))

-- The loop of renderMemory: `built` is what the builder holds, `current` the last header.
render_from : Text → Text → List MemoryRecord → Text
unfolding rendered_record
render_from built current [] = built
render_from built current (r ∷ rs) =
    let header = r.scope ++ (bytes "/" ++ r.scope_key) in
    let opened =
      if not (header == current)
      then built ++ ((if built == [] then [] else 10 ∷ []) ++ (bytes "## " ++ (header ++ 10 ∷ [])))
      else built in
    render_from (opened ++ rendered_record r) header rs

unfoldable pub render_memory : List MemoryRecord → Text
unfolding render_from trim_space
render_memory records = trim_space (render_from [] [] records)

-- Inserts in order, and nothing twice.
insert_key : Text → List Text → List Text
insert_key k [] = k ∷ []
insert_key k (x ∷ xs) =
    let rest = insert_key k xs in
    if k == x then x ∷ xs else if text_ltb k x then k ∷ x ∷ xs else x ∷ rest

profile_keys : List MemoryRecord → List Text
unfolding insert_key
profile_keys [] = []
profile_keys (r ∷ rs) =
    let rest = profile_keys rs in
    if r.scope == user_profile then insert_key r.scope_key rest else rest

unfoldable pub user_profile_refs : Store → List ScopeRef
unfolding profile_keys
user_profile_refs s = map (λ key. (user_profile, key)) (profile_keys (values s.memory))

abbrev pub is_ref : ScopeRef → Bool
is_ref ref = valid_memory_scope ref.0 && not (ref.1 == [])

unfoldable pub is_allowed : List ScopeRef → MemoryRecord → Bool
unfolding in_scope valid_memory_scope
is_allowed refs r = any (λ ref. is_ref ref && in_scope ref.0 ref.1 r) refs

unfoldable pub memory_snapshot : List ScopeRef → Store → MemorySnapshot
unfolding is_allowed sort_memory_records memory_usage render_memory valid_memory_scope
memory_snapshot refs s =
    let records = sort_memory_records (select (is_allowed refs) (values s.memory)) in
    record {
      records = records;
      usage = map (λ ref. memory_usage ref.0 ref.1 records) (select is_ref refs);
      rendered = render_memory records;
    }

insert_ref : ScopeRef → List ScopeRef → List ScopeRef
insert_ref k [] = k ∷ []
insert_ref k (x ∷ xs) =
    let rest = insert_ref k xs in
    if k.0 == x.0 && k.1 == x.1
    then x ∷ xs
    else if (if not (k.0 == x.0) then text_ltb k.0 x.0 else text_ltb k.1 x.1)
    then k ∷ x ∷ xs
    else x ∷ rest

seen_refs : List MemoryRecord → List ScopeRef
unfolding insert_ref valid_memory_scope
seen_refs [] = []
seen_refs (r ∷ rs) =
    let rest = seen_refs rs in
    if is_ref (r.scope, r.scope_key) then insert_ref (r.scope, r.scope_key) rest else rest

unfoldable pub all_memory_snapshot : Store → MemorySnapshot
unfolding sort_memory_records seen_refs memory_usage render_memory
all_memory_snapshot s =
    let records = sort_memory_records (values s.memory) in
    record {
      records = records;
      usage = map (λ ref. memory_usage ref.0 ref.1 records) (seen_refs (values s.memory));
      rendered = render_memory records;
    }

-- What an agent sees unasked; an AI agent every user's profile, too.
unfoldable pub refs_of : Agent → Store → List ScopeRef
unfolding memory_allowed_refs user_profile_refs
refs_of a s = memory_allowed_refs a ++ (if is_ai a.kind then user_profile_refs s else [])

unfoldable pub list_memory : Text → Text → Text → Store → Result MemorySnapshot
unfolding memory_management_allowed memory_agent memory_scope_key memory_snapshot
    all_memory_snapshot refs_of
list_memory agent scope requested s = do
  allowed ← memory_management_allowed agent s
  a ← memory_agent agent s
  if not (scope == [])
      then (memory_scope_key a scope requested false >>= λ key.
          ok (memory_snapshot ((scope, key) ∷ []) s))
      else ok (if is_human a.kind then all_memory_snapshot s else memory_snapshot (refs_of a s) s)

-- utf8.ValidString: the ranges of the bytes that a rune still needs.
cont : ℕ × ℕ
cont = (128, 191)

ranges_after : ℕ → Option (List (ℕ × ℕ))
unfolding cont
ranges_after c =
    if ltb c 128
    then some []
    else if leb 194 c && leb c 223
    then some (cont ∷ [])
    else if nat_beq c 224
    then some ((160, 191) ∷ cont ∷ [])
    else if nat_beq c 237
    then some ((128, 159) ∷ cont ∷ [])
    else if leb 225 c && leb c 239
    then some (cont ∷ cont ∷ [])
    else if nat_beq c 240
    then some ((144, 191) ∷ cont ∷ cont ∷ [])
    else if leb 241 c && leb c 243
    then some (cont ∷ cont ∷ cont ∷ [])
    else if nat_beq c 244
    then some ((128, 143) ∷ cont ∷ cont ∷ [])
    else none

valid_from : List (ℕ × ℕ) → Text → Bool
unfolding ranges_after
valid_from [] [] = true
valid_from (r ∷ rs) [] = false
valid_from (r ∷ rs) (c ∷ s) = leb r.0 c && leb c r.1 && valid_from rs s
valid_from [] (c ∷ s) = valid_from (or_zero (ranges_after c) []) s && is_some (ranges_after c)

unfoldable pub valid_string : Text → Bool
unfolding valid_from
valid_string = valid_from []

-- `for limit > 0 && !utf8.ValidString(s[:limit]) { limit-- }`, and then s[:limit].
cut_valid : ℕ → Text → Text
unfolding valid_string
cut_valid zero s = []
cut_valid (suc limit) s =
    let shorter = cut_valid limit s in
    if valid_string (take (suc limit) s) then take (suc limit) s else shorter

abbrev pub truncated_suffix : Text
truncated_suffix = bytes "... [truncated for pi bootstrap]"

unfoldable pub truncate_memory_string_bytes : Text → ℕ → Text × Bool
unfolding cut_valid trim_space
truncate_memory_string_bytes s max =
    if max == 0
    then ([], not (s == []))
    else if leb (length s) max
    then (s, false)
    else if leb max (length truncated_suffix)
    then (take max truncated_suffix, true)
    else (trim_space (cut_valid (max - length truncated_suffix) s) ++ truncated_suffix, true)

-- The loop of trimMemorySnapshotForSlowHarness; what is left never falls below 0.
trim_records : ℕ → List MemoryRecord → List MemoryRecord
unfolding truncate_memory_string_bytes
trim_records left [] = []
trim_records left (r ∷ rs) =
    let cut = truncate_memory_string_bytes r.body left in
    let rest = trim_records (left - length cut.0) rs in
    if left == 0 then [] else record r { body = cut.0 } ∷ (if cut.1 then [] else rest)

unfoldable pub trim_memory_snapshot : MemorySnapshot → MemorySnapshot
unfolding trim_records render_memory truncate_memory_string_bytes
trim_memory_snapshot snap =
    let records = trim_records 2048 snap.records in
    if leb (length snap.records) 0 then snap else record snap {
      records = records;
      rendered = (truncate_memory_string_bytes (render_memory records) 2048).0;
    }

-- strings.Contains
unfoldable pub has_infix : Text → Text → Bool
unfolding has_prefix
has_infix [] p = has_prefix [] p
has_infix (c ∷ s) p = has_prefix (c ∷ s) p || has_infix s p

unfoldable pub should_trim : Agent → Bool
unfolding to_lower has_infix
should_trim a =
    is_ai a.kind && (a.harness == bytes "pi" && has_infix (to_lower a.model) (bytes "gemma"))

unfoldable pub memory_snapshot_for_agent : Agent → Store → Option MemorySnapshot
unfolding memory_globally_enabled refs_of memory_snapshot should_trim trim_memory_snapshot
memory_snapshot_for_agent a s =
    let snap = memory_snapshot (refs_of a s) s in
    if not (memory_globally_enabled s)
    then none
    else some (if should_trim a then trim_memory_snapshot snap else snap)
