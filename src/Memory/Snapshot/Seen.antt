-- ===== src/Memory/Snapshot/Seen.antt =====
-- Whose records a snapshot shows.
use aimebu.Types.{Result, err, not_registered, bind-ok, ok}
use aimebu.Memory.{memory_globally_enabled, memory_agent, memory_management_allowed}
use mathlib.Core.Option.{some-injective}
use aimebu.Prelude.{
  select, any, All, lookup, contains, Text, bytes, same, same_iff, text_eq, if◌then◌else◌, ◌==◌,
  Bool-cases, nat_eq, ◌≡◌, refl, sym, ap, subst, ◌∙◌, inl, inr, Bool, true, false, not, ◌&&◌, ◌||◌,
  Option, none, some, List, [], ◌∷◌, ◌++◌, map, arith,
}
use aimebu.Types.{Kind, ai, human, system, unset, Agent, MemoryRecord, Store, is_ai, is_human}
use aimebu.Memory.{
  ScopeRef, values, sort_memory_records, memory_allowed_refs, user_profile, project_facts,
  agent_shared_notes, global_key, valid_memory_scope, in_scope,
}
use aimebu.Memory.Snapshot.{
  list_memory, all_memory_snapshot, MemorySnapshot, memory_snapshot_for_agent, should_trim,
  trim_memory_snapshot, user_profile_refs, refs_of, is_allowed, memory_snapshot, is_ref,
  profile_keys, insert_key,
}

-- The shared notes, the facts of an agent's own project, and every human's profile.
abbrev pub may_see : Agent → MemoryRecord → Bool
may_see a r =
    (r.scope == bytes "agent_shared_notes" && r.scope_key == bytes "global")
    || ((not (a.project == []) && (r.scope == bytes "project_facts" && r.scope_key == a.project))
        || (r.scope == bytes "user_profile" && not (r.scope_key == [])))

contains-insert_key :
    (k j : Text) (xs : List Text) → contains j (insert_key k xs) ≡ (k == j || contains j xs)
unfolding insert_key contains
contains-insert_key k j [] = refl
contains-insert_key k j (x ∷ xs) =
    ground (arith, same_iff k x, same_iff x j, same_iff k j, contains-insert_key k j xs)

valid_user_profile : valid_memory_scope user_profile ≡ true
unfolding valid_memory_scope same
valid_user_profile = refl

-- The profiles that the code collects are those that some record is in.
any_profile :
    (keys : List Text) (r : MemoryRecord)
    → any
        (λ ref. is_ref ref && in_scope ref.0 ref.1 r)
        (map (λ (key : Text). (user_profile, key)) keys)
      ≡ (r.scope == user_profile && (not (r.scope_key == []) && contains r.scope_key keys))
unfolding in_scope contains
any_profile [] r = ground arith
any_profile (k ∷ ks) r = ground (
  arith,
  valid_user_profile,
  same_iff k r.scope_key,
  same_iff r.scope_key k,
  same_iff k [],
  same_iff r.scope_key [],
  any_profile ks r,
)

abbrev Collected : List Text → MemoryRecord → Type 0
Collected keys r = r.scope == user_profile ≡ true → contains r.scope_key keys ≡ true

own :
    (r : MemoryRecord) (rs : List MemoryRecord)
    → contains r.scope_key (insert_key r.scope_key (profile_keys rs)) ≡ true
own r rs = ground (
  arith,
  contains-insert_key r.scope_key r.scope_key (profile_keys rs),
  (same_iff r.scope_key r.scope_key).1 refl,
)

others :
    (j : Text) (r : MemoryRecord) (rs : List MemoryRecord)
    → contains j (profile_keys rs) ≡ true
    → contains j (insert_key r.scope_key (profile_keys rs)) ≡ true
others j r rs there = ground (arith, contains-insert_key r.scope_key j (profile_keys rs))

-- The key of every profile record is collected.
profile_keys-Collected :
    (keys : List Text) (rs : List MemoryRecord)
    → ((j : Text) → contains j (profile_keys rs) ≡ true → contains j keys ≡ true)
    → All (Collected keys) rs
unfolding profile_keys
profile_keys-Collected keys [] h = tt
profile_keys-Collected keys (r ∷ rs) h = elim (Bool-cases (r.scope == user_profile)) [
  | inl profile ↦ (
    (λ _. h r.scope_key (rw profile (own r rs))),
    profile_keys-Collected keys rs (λ j there. h j (rw profile (others j r rs there))),
  )
  | inr other ↦ ((λ profile. cc), profile_keys-Collected keys rs (λ j there. h j (rw other there)))
]

any-append :
    {A : Type 0} (p : A → Bool) (xs ys : List A) → any p (xs ++ ys) ≡ (any p xs || any p ys)
any-append p [] ys = refl
any-append p (x ∷ xs) ys = ground (arith, any-append p xs ys)

not_human : (a : Agent) → is_ai a.kind ≡ true → is_human a.kind ≡ false
not_human a h = by_kind a.kind h
  where
    by_kind : (k : Kind) → is_ai k ≡ true → is_human k ≡ false
    by_kind ai e = refl
    by_kind human e = cc
    by_kind system e = cc
    by_kind unset e = cc

known_refs :
    (valid_memory_scope agent_shared_notes ≡ true)
    × (valid_memory_scope project_facts ≡ true)
    × ((global_key == []) ≡ false)
unfolding valid_memory_scope same
known_refs = (refl, refl, refl)

allowed_first :
    (a : Agent) (r : MemoryRecord)
    → is_ai a.kind ≡ true
    → any (λ ref. is_ref ref && in_scope ref.0 ref.1 r) (memory_allowed_refs a) ≡ (
        in_scope agent_shared_notes global_key r
        || (not (a.project == []) && in_scope project_facts a.project r))
unfolding memory_allowed_refs
allowed_first a r h = elim (Bool-cases (a.project == [])) [
  | inl without ↦ rw (not_human a h) (rw without (ground (arith, known_refs)))
  | inr within ↦ rw (not_human a h) (rw within (ground (arith, known_refs)))
]

allowed_one :
    (a : Agent) (keys : List Text) (r : MemoryRecord)
    → is_ai a.kind ≡ true
    → Collected keys r
    → is_allowed (memory_allowed_refs a ++ map (λ (key : Text). (user_profile, key)) keys) r
      ≡ may_see a r
unfolding is_allowed in_scope
allowed_one a keys r h c =
    let first = memory_allowed_refs a in
    let later : List ScopeRef = map (λ (key : Text). (user_profile, key)) keys in
    ground (
      arith,
      any-append (λ (ref : ScopeRef). is_ref ref && in_scope ref.0 ref.1 r) first later,
      allowed_first a r h,
      any_profile keys r,
    )

allowed-may_see :
    (a : Agent) (keys : List Text) (rs : List MemoryRecord)
    → is_ai a.kind ≡ true
    → All (Collected keys) rs
    → select
        (is_allowed (memory_allowed_refs a ++ map (λ (key : Text). (user_profile, key)) keys))
        rs
      ≡ select (may_see a) rs
allowed-may_see a keys [] h c = refl
allowed-may_see a keys (r ∷ rs) h c =
    rw (allowed_one a keys r h c.0)
      (ap (λ rest. if may_see a r then r ∷ rest else rest) (allowed-may_see a keys rs h c.1))

memory_snapshot-may_see :
    (a : Agent) (s : Store)
    → is_ai a.kind ≡ true
    → (memory_snapshot (refs_of a s) s).records
      ≡ sort_memory_records (select (may_see a) (values s.memory))
unfolding memory_snapshot refs_of user_profile_refs
memory_snapshot-may_see a s h =
    let keys = profile_keys (values s.memory) in
    rw h (
      ap sort_memory_records (
        allowed-may_see a keys (values s.memory) h
          (profile_keys-Collected keys (values s.memory) (λ j there. there))))

unguarded : (b : Bool) (x y : MemorySnapshot) → (if not b then none else some x) ≡ some y → y ≡ x
unguarded true x y h = sym (some-injective x y h)
unguarded false x y h = cc

listed :
    (agent requested : Text) (a : Agent) (s : Store) (snap : MemorySnapshot)
    → lookup agent s.agents ≡ some a
    → is_ai a.kind ≡ true
    → list_memory agent [] requested s ≡ ok snap
    → memory_snapshot (refs_of a s) s ≡ snap
unfolding list_memory memory_agent same
listed agent requested a s snap known kind h =
    let (allowed, _, h') = bind-ok (memory_management_allowed agent s) _ snap h in
    let (b, read, h'') = bind-ok (memory_agent agent s) _ snap h' in
    let got : ok a ≡ ok b =
      ap (λ (o : Option Agent). elim o [ none ↦ err not_registered | some x ↦ ok x ]) (sym known)
      ∙ read in
    let own : a ≡ b = ap (λ (r : Result Agent). elim r [ ok x ↦ x | err e ↦ a ]) got in
    let chosen : (if is_human b.kind
          then all_memory_snapshot s
          else memory_snapshot (refs_of b s) s)
        ≡ snap =
      ap (λ (r : Result MemorySnapshot). elim r [ ok x ↦ x | err e ↦ snap ]) h'' in
    subst (λ x. memory_snapshot (refs_of x s) s ≡ snap) (sym own)
      (subst (λ k. (if k then all_memory_snapshot s else memory_snapshot (refs_of b s) s) ≡ snap)
        (ap (λ (x : Agent). is_human x.kind) (sym own) ∙ not_human a kind) chosen)

-- When an AI agent lists the memory without naming a scope, it is shown, in the order of scope, key
-- and time, exactly the shared notes, the facts of its own project and the profiles of the users:
-- no facts of another project, and all that it may see. What it gets unasked is the same, or for an
-- agent of a slow harness that, trimmed.
pub list_memory-may_see :
    (agent requested : Text) (a : Agent) (s : Store) (snap shown : MemorySnapshot)
    → lookup agent s.agents ≡ some a
    → is_ai a.kind ≡ true
    → list_memory agent [] requested s ≡ ok snap
    → memory_snapshot_for_agent a s ≡ some shown
    → (snap.records ≡ sort_memory_records (select (may_see a) (values s.memory)))
      × (shown ≡ (if should_trim a then trim_memory_snapshot snap else snap))
unfolding memory_snapshot_for_agent
list_memory-may_see agent requested a s snap shown known kind h unasked =
    let whole = listed agent requested a s snap known kind h in
    (
      ap (λ (x : MemorySnapshot). x.records) (sym whole) ∙ memory_snapshot-may_see a s kind,
      subst (λ x. shown ≡ (if should_trim a then trim_memory_snapshot x else x)) whole
          (unguarded (memory_globally_enabled s) _ shown unasked),
    )
