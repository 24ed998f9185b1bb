-- ===== src/Examples/Memory.antt =====
-- Tests of memory, and each theorem on it at a sample store.
use aimebu.Prelude.{
  pos, take, length, select, All, lookup, insert, contains, Text, bytes, same, text_eq, trim_space,
  to_lower, if◌then◌else◌, ◌==◌, nat_eq, ℕ, zero, suc, ◌+◌, ◌-◌, ◌*◌, ◌≤◌, ◌≡◌, refl, ◌≢◌, true,
  false, some, List, [], ◌∷◌, ◌++◌, arith,
}
use aimebu.Types.{ai, Agent, MemoryRecord, Store, ok}
use aimebu.Memory.{
  used_bytes, project_facts, agent_shared_notes, global_key, valid_memory_scope, memory_cap,
  in_scope, sort_memory_records, values, update_memory, remove_memory,
}
use aimebu.Memory.Quota.{
  MemoryValid, MemoryCall, add, update, remove, clean, run_memory, run_memory-MemoryValid,
}
use aimebu.Memory.Versions.{update_memory-no_lost_change}
use aimebu.Memory.Snapshot.{
  list_memory, MemorySnapshot, memory_snapshot, refs_of, trim_memory_snapshot, should_trim,
  memory_snapshot_for_agent,
}
use aimebu.Memory.Snapshot.Trimmed.{body_total, memory_snapshot_for_agent-fits}
use aimebu.Memory.Snapshot.Seen.{may_see, list_memory-may_see}
use aimebu.Memory.Recall.{RecallResult, tokenize_recall, recall_messages}
use aimebu.Memory.Recall.Found.{Ranked, may_show, recall_messages_lem}
use aimebu.Examples.{alice, bob, hall, agent_of, talk_store}

abbrev note_of : Text → Text → Text → MemoryRecord
note_of id scope key = record {
  id = id;
  scope = scope;
  scope_key = key;
  body = bytes "tabs";
  version = 1;
  author = bob;
  source_message_id = pos 0;
  created_at = some 0;
  updated_at = some 0;
}

abbrev note : MemoryRecord
note = note_of (bytes "n1") agent_shared_notes global_key

-- Memory is on, and holds one shared note.
abbrev noted_store : Store
noted_store = record talk_store { memory = (bytes "n1", note) ∷ []; memory_enabled = some true }

cap_known : (scope : Text) → valid_memory_scope scope ≡ true → 2048 ≤ memory_cap scope
unfolding valid_memory_scope memory_cap
cap_known scope known = ground arith

noted_store-MemoryValid : MemoryValid noted_store.memory
unfolding used_bytes in_scope
noted_store-MemoryValid = record {
  keyed = (refl, tt, tt);
  within = λ scope key known. bounded scope key known;
}
  where
    bounded :
        (scope key : Text)
        → valid_memory_scope scope ≡ true
        → used_bytes scope key (values noted_store.memory) ≤ memory_cap scope
    bounded scope key known = ground (arith, cap_known scope known)

abbrev some_calls : List MemoryCall
some_calls =
    add (bytes "n2") bob project_facts [] (bytes "x") (pos 0) 9
    ∷ update bob (bytes "n1") (pos 1) (bytes "spaces ") 9
    ∷ remove alice (bytes "n1") (pos 2)
    ∷ clean alice [] []
    ∷ []

run_memory-MemoryValid_example : MemoryValid (run_memory some_calls noted_store).memory
run_memory-MemoryValid_example =
    run_memory-MemoryValid some_calls noted_store noted_store-MemoryValid

run_memory_test :
    (run_memory (take 2 some_calls) noted_store).memory
    ≡ (bytes "n1", record note { body = bytes "spaces"; version = 2; updated_at = some 0 }) ∷ []
unfolding run_memory lookup same insert
run_memory_test = refl

abbrev newer : MemoryRecord
newer = record note { body = bytes "spaces"; version = 2; updated_at = some 0 }

abbrev newer_store : Store
newer_store = record noted_store { memory = (bytes "n1", newer) ∷ [] }

changed :
    update_memory bob (bytes "n1") (pos 1) (bytes "spaces ") 9 noted_store ≡ ok (newer_store, newer)
unfolding update_memory lookup same insert
changed = refl

update_memory-no_lost_change_example :
    (lookup (bytes "n1") newer_store.memory ≡ some newer)
    × (pos 1 ≡ pos (newer.version - 1))
    × (newer.body ≡ trim_space (bytes "spaces "))
    × ((j : Text)
        → (bytes "n1" == j) ≡ false
        → lookup j newer_store.memory ≡ lookup j noted_store.memory)
    × ((o : Store × MemoryRecord)
        → update_memory alice (bytes "n1") (pos 1) (bytes "none") 20 newer_store ≢ ok o)
    × ((o : Store × MemoryRecord) → remove_memory alice (bytes "n1") (pos 1) newer_store ≢ ok o)
update_memory-no_lost_change_example =
    update_memory-no_lost_change bob alice (bytes "n1") (pos 1) (bytes "spaces ") (bytes "none") 9
      20 noted_store newer_store newer changed

abbrev slow_bob : Agent
slow_bob = record (agent_of bob ai) { harness = bytes "pi"; model = bytes "Gemma-3" }

bob_is_slow : should_trim slow_bob ≡ true
unfolding should_trim same
bob_is_slow = refl

abbrev shown : MemorySnapshot
shown = trim_memory_snapshot (memory_snapshot (refs_of slow_bob noted_store) noted_store)

bob_shown : memory_snapshot_for_agent slow_bob noted_store ≡ some shown
unfolding memory_snapshot_for_agent same
bob_shown = refl

memory_snapshot_for_agent-fits_example :
    (body_total shown.records ≤ 2048) × (length shown.rendered ≤ 2048)
memory_snapshot_for_agent-fits_example =
    memory_snapshot_for_agent-fits slow_bob noted_store shown bob_is_slow bob_shown

rendered_test :
    (memory_snapshot (refs_of slow_bob noted_store) noted_store).rendered
    ≡ bytes "## agent_shared_notes/global" ++ (10 ∷ bytes "- [n1] tabs (author: bob@x)")
unfolding memory_snapshot refs_of same
rendered_test = refl

abbrev bobs_list : MemorySnapshot
bobs_list = memory_snapshot (refs_of (agent_of bob ai) noted_store) noted_store

bob_known : lookup bob noted_store.agents ≡ some (agent_of bob ai)
unfolding lookup same
bob_known = refl

bob_lists : list_memory bob [] [] noted_store ≡ ok bobs_list
unfolding list_memory lookup same
bob_lists = refl

bob_unasked : memory_snapshot_for_agent (agent_of bob ai) noted_store ≡ some bobs_list
unfolding memory_snapshot_for_agent same
bob_unasked = refl

list_memory-may_see_example :
    (bobs_list.records
      ≡ sort_memory_records (select (may_see (agent_of bob ai)) (values noted_store.memory)))
    × (bobs_list
        ≡ (if should_trim (agent_of bob ai) then trim_memory_snapshot bobs_list else bobs_list))
list_memory-may_see_example =
    list_memory-may_see bob [] (agent_of bob ai) noted_store bobs_list bobs_list bob_known refl
      bob_lists bob_unasked

abbrev hit : ℕ → RecallResult
hit id = record {
  message_id = id;
  room_id = hall;
  from = alice;
  created_at = some (elim id [ zero ↦ 0 | suc n ↦ 100 + 400 * n ]);
  snippet = bytes "hello";
  score = 12;
}

recalled : recall_messages bob (bytes " Hello") 2 noted_store ≡ ok (hit 3 ∷ hit 2 ∷ [])
unfolding recall_messages lookup same contains
recalled = refl

recall_messages_example :
    (length (hit 3 ∷ hit 2 ∷ []) ≤ 10)
    × Ranked (hit 3 ∷ hit 2 ∷ [])
    × All
        (λ h.
          may_show bob
            (to_lower (trim_space (bytes " Hello")))
            (tokenize_recall (trim_space (bytes " Hello")))
            noted_store
            noted_store.rooms
            h
          ≡ true)
        (hit 3 ∷ hit 2 ∷ [])
recall_messages_example =
    recall_messages_lem bob (bytes " Hello") 2 noted_store (hit 3 ∷ hit 2 ∷ []) recalled
