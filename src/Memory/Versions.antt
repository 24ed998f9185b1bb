-- ===== src/Memory/Versions.antt =====
-- Optimistic concurrency: a change names the version that its caller has seen.
use aimebu.Prelude.{
  ℤ, pos, lookup, insert, delete, lookup-insert, Text, same_iff, text_eq, trim_space, ltb,
  if◌then◌else◌, ◌==◌, Bool-cases, nat_eq, ℕ, ◌+◌, ◌-◌, ◌≡◌, refl, subst, ◌∙◌, ◌≢◌, inl, inr, false,
  some, [], arith,
}
use aimebu.Types.{MemoryRecord, Store, body_required, id_required, ok, err, bind-ok}
use aimebu.Memory.{
  update_memory, remove_memory, found_record, next_version, memory_agent, memory_management_allowed,
  checked_body, records_for_scope, used_bytes, memory_cap, replace_record,
}
use aimebu.Memory.Quota.{found_record-lookup}

-- What a change that succeeds says of the record that it is about.
update_memory-ok :
    (agent id : Text) (version : ℤ) (body : Text) (now : ℕ) (s : Store) (o : Store × MemoryRecord)
    → update_memory agent id version body now s ≡ ok o
    → (r : MemoryRecord) × (lookup id s.memory ≡ some r)
      × (version ≡ pos r.version)
      × (o.1 ≡ next_version (trim_space body) now r)
      × (o.0 ≡ record s { memory = insert id o.1 s.memory })
unfolding update_memory checked_body
update_memory-ok agent id version body now s o h =
    let (allowed, e0, h0) = bind-ok (memory_management_allowed agent s) _ o h in
    let (a, e1, h1) = bind-ok (memory_agent agent s) _ o h0 in
    let (text, e2, h2) =
      bind-ok (if id == [] then err body_required else checked_body body) _ o h1 in
    let (r, e3, h3) = bind-ok (found_record a id version s) _ o h2 in
    let found = found_record-lookup a id version s r e3 in
    let trimmed : text ≡ trim_space body = ground arith in
    elim (Bool-cases (
      ltb (memory_cap r.scope) (
        used_bytes r.scope r.scope_key (
          replace_record id (next_version text now r)
            (records_for_scope r.scope r.scope_key s))))) [
              | inl full ↦ absurd (ground arith)
              | inr fits ↦ (r, found.0, found.1, ground arith, ground arith)
            ]

remove_memory-ok :
    (agent id : Text) (version : ℤ) (s : Store) (o : Store × MemoryRecord)
    → remove_memory agent id version s ≡ ok o
    → (lookup id s.memory ≡ some o.1)
      × (version ≡ pos (o.1).version)
      × (o.0 ≡ record s { memory = delete id s.memory })
unfolding remove_memory
remove_memory-ok agent id version s o h =
    let (allowed, e0, h0) = bind-ok (memory_management_allowed agent s) _ o h in
    let (a, e1, h1) = bind-ok (memory_agent agent s) _ o h0 in
    let (r, e2, h2) =
      bind-ok (if id == [] then err id_required else found_record a id version s) _ o h1 in
    let reached : found_record a id version s ≡ ok r = ground arith in
    let found = found_record-lookup a id version s r reached in
    let done : (record s { memory = delete id s.memory }, r) ≡ o = ground arith in
    subst
      (λ (q : Store × MemoryRecord).
        (lookup id s.memory ≡ some q.1)
        × (version ≡ pos (q.1).version)
        × (q.0 ≡ record s { memory = delete id s.memory }))
      done (found.0, found.1, refl)

-- A record that changes gets the next version and the trimmed body, every other record stays, and a
-- second change or removal that names the version which the first one has replaced does not
-- succeed, whoever asks for it: no change is lost.
pub update_memory-no_lost_change :
    (agent other id : Text) (version : ℤ) (body text : Text) (now later : ℕ) (s t : Store)
    (r : MemoryRecord)
    → update_memory agent id version body now s ≡ ok (t, r)
    → (lookup id t.memory ≡ some r)
      × (version ≡ pos (r.version - 1))
      × (r.body ≡ trim_space body)
      × ((j : Text) → (id == j) ≡ false → lookup j t.memory ≡ lookup j s.memory)
      × ((o : Store × MemoryRecord) → update_memory other id version text later t ≢ ok o)
      × ((o : Store × MemoryRecord) → remove_memory other id version t ≢ ok o)
unfolding next_version
update_memory-no_lost_change agent other id version body text now later s t r h =
    let (x, found, seen, changed, stored) = update_memory-ok agent id version body now s (t, r) h in
    let there : lookup id t.memory ≡ some r =
      rw stored (lookup-insert id id r s.memory ∙ ground (arith, (same_iff id id).1 refl)) in
    let before : version ≡ pos (r.version - 1) = rw changed (seen ∙ ground arith) in
    let moved : r.version ≡ x.version + 1 = ground arith in
    (
      there,
      before,
      ground arith,
      (λ j apart. rw stored (lookup-insert id j r s.memory ∙ ground arith)),
      (λ o again.
          let (y, held, current, _, _) = update_memory-ok other id version text later t o again in
          let own : y ≡ r = ground arith in ground arith),
      (λ o again.
          let (held, current, _) = remove_memory-ok other id version t o again in
          let own : o.1 ≡ r = ground arith in ground arith),
    )
