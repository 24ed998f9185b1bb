-- ===== src/Memory/Quota.antt =====
-- The quotas hold after every sequence of memory calls.
use aimebu.Prelude.{
  ℤ, pos, negsuc, length, select, Map, lookup, insert, delete, Text, same_iff, text_eq, ltb,
  if◌then◌else◌, ◌==◌, Bool-cases, Option-cases, nat_eq, ℕ, ◌≤◌, ◌≡◌, refl, subst, inl, inr, true,
  false, not, some, List, [], ◌∷◌, ◌++◌, arith,
}
use aimebu.Types.{
  bind-ok, ok, err, ◌>>=◌, Result, body_required, scope_mismatch, Agent, MemoryRecord, Store,
  after_pair, Result-cases, id_required, not_human, is_human,
}
use aimebu.Memory.{
  cleared, if_current, memory_management_allowed, replace_record, next_version, found_record,
  checked_body, memory_scope_key, memory_agent, memory_write_allowed, sort_memory_records,
  new_record, keep_within_cap, records_for_scope, used_bytes, valid_memory_scope, memory_cap,
  in_scope, values, add_memory, update_memory, remove_memory, clean_memory,
}
use aimebu.Memory.Replacing.{used_bytes-replaced}
use aimebu.Memory.Usage.{
  delete-Keyed, select-Keyed, used_bytes-delete, used_bytes-select, held, used_bytes-select_scope,
  used_bytes-sort, used_bytes-append, used_bytes-insert, Keyed, insert-Keyed,
}

-- Records stand under their IDs, once each, and no scope and key holds more than its cap.
pub record MemoryValid (m : Map Text MemoryRecord) : Type 0 where
  pub keyed : Keyed m
  pub within :
      (scope key : Text)
      → valid_memory_scope scope ≡ true
      → used_bytes scope key (values m) ≤ memory_cap scope

-- The calls on memory, whoever makes them.
pub data MemoryCall : Type 0 where
  add : Text → Text → Text → Text → Text → ℤ → ℕ → MemoryCall
  update : Text → Text → ℤ → Text → ℕ → MemoryCall
  remove : Text → Text → ℤ → MemoryCall
  clean : Text → Text → Text → MemoryCall

unfoldable pub memory_step : MemoryCall → Store → Store
unfolding add_memory update_memory remove_memory clean_memory
memory_step (add id agent scope key body source now) s =
    after_pair s (add_memory id agent scope key body source now s)
memory_step (update agent id version body now) s =
    after_pair s (update_memory agent id version body now s)
memory_step (remove agent id version) s = after_pair s (remove_memory agent id version s)
memory_step (clean agent scope key) s = after_pair s (clean_memory agent scope key s)

unfoldable pub run_memory : List MemoryCall → Store → Store
unfolding memory_step
run_memory [] s = s
run_memory (c ∷ cs) s = run_memory cs (memory_step c s)

lookup-Keyed :
    (id : Text) (r : MemoryRecord) (m : Map Text MemoryRecord)
    → Keyed m
    → lookup id m ≡ some r
    → r.id ≡ id
unfolding lookup
lookup-Keyed id r [] k e = cc
lookup-Keyed id r ((j, x) ∷ m) k e = ground (arith, k.0, same_iff j id, lookup-Keyed id r m k.2)

in_scope_fields :
    (scope key : Text) (r : MemoryRecord)
    → in_scope scope key r ≡ true
    → (r.scope ≡ scope) × (r.scope_key ≡ key)
unfolding in_scope
in_scope_fields scope key r h = ground (arith, same_iff r.scope scope, same_iff r.scope_key key)

in_scope_self : (r : MemoryRecord) → in_scope r.scope r.scope_key r ≡ true
unfolding in_scope
in_scope_self r =
    ground (arith, (same_iff r.scope r.scope).1 refl, (same_iff r.scope_key r.scope_key).1 refl)

insert-MemoryValid :
    (id : Text) (r : MemoryRecord) (m : Map Text MemoryRecord)
    → MemoryValid m
    → r.id ≡ id
    → used_bytes r.scope r.scope_key (values (insert id r m)) ≤ memory_cap r.scope
    → MemoryValid (insert id r m)
unfolding in_scope
insert-MemoryValid id r m v own fits = record {
  keyed = insert-Keyed id r m own v.keyed;
  within = λ scope key known. elim (Bool-cases (in_scope scope key r)) [
    | inl here ↦ moved scope key here
    | inr there ↦ unchanged scope key known there
  ];
}
  where
    moved :
        (scope key : Text)
        → in_scope scope key r ≡ true
        → used_bytes scope key (values (insert id r m)) ≤ memory_cap scope
    moved scope key here =
        let at : (r.scope ≡ scope) × (r.scope_key ≡ key) = in_scope_fields scope key r here in
        subst (λ q. used_bytes scope q (values (insert id r m)) ≤ memory_cap scope) at.1
          (subst (λ q. used_bytes q r.scope_key (values (insert id r m)) ≤ memory_cap q) at.0 fits)

    unchanged :
        (scope key : Text)
        → valid_memory_scope scope ≡ true
        → in_scope scope key r ≡ false
        → used_bytes scope key (values (insert id r m)) ≤ memory_cap scope
    unchanged scope key known there =
        ground (arith, used_bytes-insert scope key id r m, v.within scope key known)

-- What the check of an addition measures bounds what the scope then holds.
added :
    (scope key : Text) (r : MemoryRecord) (s : Store)
    → r.scope ≡ scope
    → r.scope_key ≡ key
    → ltb (memory_cap scope) (used_bytes scope key (records_for_scope scope key s ++ r ∷ []))
      ≡ false
    → used_bytes scope key (values (insert r.id r s.memory)) ≤ memory_cap scope
unfolding records_for_scope used_bytes in_scope
added scope key r s e f fits =
    let rows = select (in_scope scope key) (values s.memory) in
    ground (
      arith,
      used_bytes-append scope key (sort_memory_records rows) (r ∷ []),
      used_bytes-sort scope key rows,
      used_bytes-select_scope scope key (values s.memory),
      used_bytes-insert scope key r.id r s.memory,
      same_iff r.scope scope,
      same_iff r.scope_key key,
    )

add-MemoryValid :
    (id agent scope key body : Text) (source : ℤ) (now : ℕ) (s : Store) (o : Store × MemoryRecord)
    → MemoryValid s.memory
    → add_memory id agent scope key body source now s ≡ ok o
    → MemoryValid (o.0).memory
unfolding add_memory keep_within_cap new_record in_scope
add-MemoryValid id agent scope key body source now s o v h =
    let (allowed, e0, h0) = bind-ok (memory_write_allowed agent source s) _ o h in
    let (a, e1, h1) = bind-ok (memory_agent agent s) _ o h0 in
    let (k, e2, h2) = bind-ok (memory_scope_key a scope key true) _ o h1 in
    let (text, e3, h3) = bind-ok (checked_body body) _ o h2 in
    let r = new_record id agent scope k text source now in
    elim (Bool-cases
      (ltb (memory_cap scope) (used_bytes scope k (records_for_scope scope k s ++ r ∷ [])))) [
        | inl full ↦ absurd (ground arith)
        | inr fits ↦
            let done : (record s { memory = insert id r s.memory }, r) ≡ o = ground arith in
            subst (λ (q : Store × MemoryRecord). MemoryValid (q.0).memory) done
              (insert-MemoryValid id r s.memory v refl (added scope k r s refl refl fits))
      ]

if_current-ok :
    (version : ℤ) (x r : MemoryRecord)
    → if_current version x ≡ ok r
    → (x ≡ r) × (version ≡ pos r.version)
unfolding if_current
if_current-ok (negsuc n) x r h = absurd (ground arith)
if_current-ok (pos v) x r h = ground arith

pub found_record-lookup :
    (a : Agent) (id : Text) (version : ℤ) (s : Store) (r : MemoryRecord)
    → found_record a id version s ≡ ok r
    → (lookup id s.memory ≡ some r) × (version ≡ pos r.version)
unfolding found_record
found_record-lookup a id version s r h = elim (Option-cases (lookup id s.memory)) [
  | inl absent ↦ absurd (ground arith)
  | inr (x, there) ↦
      let (key, e, h1) =
        bind-ok (memory_scope_key a x.scope x.scope_key true) _ r (reached x there) in
      elim (Bool-cases (not (key == x.scope_key))) [
        | inl other ↦ absurd (ground arith)
        | inr own ↦ ground (arith, if_current-ok version x r)
      ]
]
  where
    reached :
        (x : MemoryRecord)
        → lookup id s.memory ≡ some x
        → (memory_scope_key a x.scope x.scope_key true >>= λ key.
            if not (key == x.scope_key) then err scope_mismatch else if_current version x)
          ≡ ok r
    reached x there = ground arith

-- What the check of an update measures is what the scope then holds.
updated :
    (id : Text) (r next : MemoryRecord) (s : Store)
    → Keyed s.memory
    → lookup id s.memory ≡ some r
    → next.scope ≡ r.scope
    → next.scope_key ≡ r.scope_key
    → ltb (memory_cap r.scope) (
        used_bytes r.scope r.scope_key
          (replace_record id next (records_for_scope r.scope r.scope_key s)))
      ≡ false
    → used_bytes r.scope r.scope_key (values (insert id next s.memory)) ≤ memory_cap r.scope
unfolding records_for_scope in_scope
updated id r next s k found e f fits =
    let kept = in_scope_self r in
    let before : held r.scope r.scope_key (lookup id s.memory) ≡ length r.body =
      rw found (ground (arith, kept)) in
    ground (
      arith,
      used_bytes-replaced id r next s.memory k found,
      used_bytes-insert r.scope r.scope_key id next s.memory,
    )

update-MemoryValid :
    (agent id : Text) (version : ℤ) (body : Text) (now : ℕ) (s : Store) (o : Store × MemoryRecord)
    → MemoryValid s.memory
    → update_memory agent id version body now s ≡ ok o
    → MemoryValid (o.0).memory
unfolding update_memory next_version in_scope
update-MemoryValid agent id version body now s o v h =
    let (allowed, e0, h0) = bind-ok (memory_management_allowed agent s) _ o h in
    let (a, e1, h1) = bind-ok (memory_agent agent s) _ o h0 in
    let (text, e2, h2) =
      bind-ok (if id == [] then err body_required else checked_body body) _ o h1 in
    let (r, e3, h3) = bind-ok (found_record a id version s) _ o h2 in
    let next = next_version text now r in
    let found = (found_record-lookup a id version s r e3).0 in
    elim (Bool-cases (
      ltb (memory_cap r.scope) (
        used_bytes r.scope r.scope_key
          (replace_record id next (records_for_scope r.scope r.scope_key s))))) [
            | inl full ↦ absurd (ground arith)
            | inr fits ↦
                let done : (record s { memory = insert id next s.memory }, next) ≡ o =
                  ground arith in
                subst (λ (q : Store × MemoryRecord). MemoryValid (q.0).memory) done
                  (insert-MemoryValid id next s.memory v (lookup-Keyed id r s.memory v.keyed found)
                    (updated id r next s v.keyed found refl refl fits))
          ]

remove-MemoryValid :
    (agent id : Text) (version : ℤ) (s : Store) (o : Store × MemoryRecord)
    → MemoryValid s.memory
    → remove_memory agent id version s ≡ ok o
    → MemoryValid (o.0).memory
unfolding remove_memory
remove-MemoryValid agent id version s o v h =
    let (allowed, e0, h0) = bind-ok (memory_management_allowed agent s) _ o h in
    let (a, e1, h1) = bind-ok (memory_agent agent s) _ o h0 in
    let (r, e2, h2) =
      bind-ok (if id == [] then err id_required else found_record a id version s) _ o h1 in
    let done : (record s { memory = delete id s.memory }, r) ≡ o = ground arith in
    subst (λ (q : Store × MemoryRecord). MemoryValid (q.0).memory) done
      (record {
        keyed = delete-Keyed id s.memory v.keyed;
        within = λ scope key known.
            omega (arith, used_bytes-delete scope key id s.memory, v.within scope key known);
      })

clean-MemoryValid :
    (agent scope requested : Text) (s : Store) (o : Store × List MemoryRecord)
    → MemoryValid s.memory
    → clean_memory agent scope requested s ≡ ok o
    → MemoryValid (o.0).memory
unfolding clean_memory
clean-MemoryValid agent scope requested s o v h =
    let (a, e1, h1) = bind-ok (memory_agent agent s) _ o h in
    let (key, e2, h2) =
      bind-ok
        (if not (is_human a.kind)
          then err not_human
          else if scope == []
          then ok []
          else memory_scope_key a scope requested false)
        _ o h1 in
    let kept = select (λ (row : Text × MemoryRecord). not (cleared scope key row)) s.memory in
    let done : (
      record s { memory = kept },
      sort_memory_records (values (select (cleared scope key) s.memory)),
    )
        ≡ o =
      ground arith in
    subst (λ (q : Store × List MemoryRecord). MemoryValid (q.0).memory) done
      (record {
        keyed = select-Keyed (λ row. not (cleared scope key row)) s.memory v.keyed;
        within = λ sc k known. omega (
          arith,
          used_bytes-select sc k (λ row. not (cleared scope key row)) s.memory,
          v.within sc k known,
        );
      })

module _ {ℓ} {A : Type ℓ} (s : Store) (r : Result (Store × A)) (v : MemoryValid s.memory) where
  -- A call that fails changes nothing.
  after_pair-MemoryValid :
      ((o : Store × A) → r ≡ ok o → MemoryValid (o.0).memory) → MemoryValid (after_pair s r).memory
  after_pair-MemoryValid keep = elim (Result-cases r) [
    | inl (o, e) ↦ rw e (keep o e)
    | inr (x, e) ↦ rw e v
  ]

memory_step-MemoryValid :
    (c : MemoryCall) (s : Store) → MemoryValid s.memory → MemoryValid (memory_step c s).memory
unfolding memory_step
memory_step-MemoryValid (add id agent scope key body source now) s v =
    after_pair-MemoryValid s (add_memory id agent scope key body source now s) v
      (λ o h. add-MemoryValid id agent scope key body source now s o v h)
memory_step-MemoryValid (update agent id version body now) s v =
    after_pair-MemoryValid s (update_memory agent id version body now s) v
      (λ o h. update-MemoryValid agent id version body now s o v h)
memory_step-MemoryValid (remove agent id version) s v =
    after_pair-MemoryValid s (remove_memory agent id version s) v
      (λ o h. remove-MemoryValid agent id version s o v h)
memory_step-MemoryValid (clean agent scope key) s v =
    after_pair-MemoryValid s (clean_memory agent scope key s) v
      (λ o h. clean-MemoryValid agent scope key s o v h)

-- However records are added, changed, removed and cleared, and whichever IDs are drawn for new
-- ones, no scope and key ever holds more bytes than the scope's cap, and every record stands once,
-- under its own ID.
pub run_memory-MemoryValid :
    (calls : List MemoryCall) (s : Store)
    → MemoryValid s.memory
    → MemoryValid (run_memory calls s).memory
unfolding run_memory
run_memory-MemoryValid [] s v = v
run_memory-MemoryValid (c ∷ cs) s v =
    run_memory-MemoryValid cs (memory_step c s) (memory_step-MemoryValid c s v)
