-- ===== src/Agents/Register/Rules.antt =====
-- What registration keeps: the rooms stay valid, and nobody's identity is taken.
use mathlib.Core.Option.{some-injective}
use aimebu.Prelude.{
  Map, is_some, or_zero, lookup, lookup-insert, NoKey, Text, bytes, same_iff, text_eq, ◌==◌,
  Bool-cases, Option-cases, nat_eq, ℕ, ◌≡◌, refl, sym, subst, ◌∙◌, inl, inr, true, false, ◌&&◌,
  Option, none, some, [], ◌∷◌, ◌++◌, arith,
}
use aimebu.Types.{
  ai, human, is_ai, Agent, AgentSession, agent_update, Store, send, after_pair, after_triple, Keyed,
}
use aimebu.Posting.{system_name}
use aimebu.Agents.{put_agent, touch_agent_session}
use aimebu.Rooms.Valid.{AllGood-of_eq, emit_simple-RoomsValid, RoomsValid}
use aimebu.Rooms.Calls.{join_room_internal-RoomsValid}
use aimebu.Types.{is_ai}
use aimebu.Agents.Register.{
  same_tuple, name_pool, is_taken, again, find_by_spawn_tag, pick_random_name, human, spawn_tag,
  or_unknown, register_picked, ai, register_unnamed, new_agent, assemble_id, register_forced,
  emit_system_message, enroll, register_ai, recalled, settle, register_human, upsert_agent_session,
  reclaim,
}

-- A new entry for an agent keeps every agent known.
pub put_agent-RoomsValid :
    (id : Text) (a : Agent) (s : Store) → RoomsValid s → RoomsValid (put_agent id a s)
unfolding put_agent
put_agent-RoomsValid id a s v rid r e =
    let g = v rid r e in
    record {
      distinct = g.distinct;
      known = λ m h. ground (arith, g.known m h, lookup-insert id m a s.agents);
      held = g.held;
    }

settle-RoomsValid : (id : Text) (now : ℕ) (s : Store) → RoomsValid s → RoomsValid (settle id now s)
unfolding settle
settle-RoomsValid id now s v =
    join_room_internal-RoomsValid system_name id now (send agent_update s) v

upsert-rooms :
    (a : Agent) (origin : Text) (hint : AgentSession) (now : ℕ) (s : Store)
    → ((upsert_agent_session a origin hint now s).rooms ≡ s.rooms)
      × ((upsert_agent_session a origin hint now s).agents ≡ s.agents)
unfolding upsert_agent_session
upsert-rooms a origin hint now s = ground arith

touch_session-rooms :
    (id : Text) (now : ℕ) (s : Store)
    → ((touch_agent_session id now s).rooms ≡ s.rooms)
      × ((touch_agent_session id now s).agents ≡ s.agents)
unfolding touch_agent_session
touch_session-rooms id now s = ground arith

pub enroll_kept-rooms :
    (hint : Option AgentSession) (a : Agent) (now : ℕ) (s : Store)
    → let kept : Store = elim hint [
      | some h ↦ upsert_agent_session a (bytes "mcp") h now s
      | none ↦ s
    ] in
      (kept.rooms ≡ s.rooms) × (kept.agents ≡ s.agents)
enroll_kept-rooms none a now s = (refl, refl)
enroll_kept-rooms (some h) a now s = upsert-rooms a (bytes "mcp") h now s

pub reclaim_kept-rooms :
    (hint : Option AgentSession) (id : Text) (a : Agent) (now : ℕ) (s : Store)
    → let kept : Store = elim hint [
      | some h ↦ upsert_agent_session a (bytes "mcp") h now s
      | none ↦ touch_agent_session id now s
    ] in
      (kept.rooms ≡ s.rooms) × (kept.agents ≡ s.agents)
reclaim_kept-rooms none id a now s = touch_session-rooms id now s
reclaim_kept-rooms (some h) id a now s = upsert-rooms a (bytes "mcp") h now s

register_human_cases :
    (P : Store → Type 0) (name project : Text) (meta : Map Text Text) (now : ℕ) (s : Store)
    → P s
    → ((a b : Agent) → lookup name s.agents ≡ some a → P (settle name now (put_agent name b s)))
    → ((b : Agent) (what : Text)
        → P (emit_system_message system_name what now (settle name now (put_agent name b s))))
    → P (after_pair s (register_human name project meta now s))
unfolding register_human
register_human_cases P name project meta now s stays back fresh =
    elim (Option-cases (lookup name s.agents)) [
      | inl e ↦ ground (
        arith,
        fresh (new_agent name name human [] [] project meta now)
            (name ++ bytes " registered (human)"),
      )
      | inr (a, e) ↦ ground (arith, back a (again project meta now a) e)
    ]

-- A human that registers, again or not, leaves a valid store valid.
pub register_human-RoomsValid :
    (name project : Text) (meta : Map Text Text) (now : ℕ) (s : Store)
    → RoomsValid s
    → RoomsValid (after_pair s (register_human name project meta now s))
register_human-RoomsValid name project meta now s v =
    register_human_cases RoomsValid name project meta now s v
      (λ a b e. settle-RoomsValid name now _ (put_agent-RoomsValid name b s v))
      (λ b what.
        emit_simple-RoomsValid system_name what now _
          (settle-RoomsValid name now _ (put_agent-RoomsValid name b s v)))

module _ (slug : Text → Text → Text) where
  reclaim-RoomsValid :
      (key model : Text) (meta : Map Text Text) (hint : Option AgentSession) (now : ℕ) (a : Agent)
      (s : Store)
      → RoomsValid s
      → RoomsValid (reclaim slug key model meta hint now a s).0
  unfolding reclaim
  reclaim-RoomsValid key model meta hint now a s v =
      let a' = recalled slug model meta now a in
      let s' = put_agent key a' s in
      settle-RoomsValid a.id now _
        (AllGood-of_eq (reclaim_kept-rooms hint a.id a' now s') (put_agent-RoomsValid key a' s v))

  pub enroll_cases :
      (P : Store → Type 0) (name model harness project : Text) (meta : Map Text Text)
      (hint : Option AgentSession) (now : ℕ) (s : Store)
      → P s
      → (is_some (lookup (assemble_id name project) s.agents) ≡ false
          → let id = assemble_id name project in
            let a = new_agent id name ai model harness project meta now in
            let s' = put_agent id a s in
            let kept : Store = elim hint [
              | some h ↦ upsert_agent_session a (bytes "mcp") h now s'
              | none ↦ s'
            ] in
            (what : Text) → P (emit_system_message system_name what now (settle id now kept)))
      → P (after_triple s (enroll slug name model harness project meta hint now s))
  unfolding enroll
  enroll_cases P name model harness project meta hint now s stays fresh =
      let id = assemble_id name project in
      let what =
        id ++ (bytes " registered (" ++ (model ++ (bytes "/" ++ (harness ++ bytes ")")))) in
      elim (Bool-cases (is_some (lookup id s.agents))) [
        | inl held ↦ ground (arith, stays)
        | inr free ↦ ground (arith, fresh free what)
      ]

  enroll-RoomsValid :
      (name model harness project : Text) (meta : Map Text Text) (hint : Option AgentSession)
      (now : ℕ) (s : Store)
      → RoomsValid s
      → RoomsValid (after_triple s (enroll slug name model harness project meta hint now s))
  enroll-RoomsValid name model harness project meta hint now s v =
      let id = assemble_id name project in
      let a = new_agent id name ai model harness project meta now in
      let s' = put_agent id a s in
      enroll_cases RoomsValid name model harness project meta hint now s v (λ _ what.
        emit_simple-RoomsValid system_name what now _ (
          settle-RoomsValid id now _
            (AllGood-of_eq (enroll_kept-rooms hint a now s') (put_agent-RoomsValid id a s v))))

  none_under :
      (tag model harness project id : Text) (agents : Map Text Agent) (found : Text × Agent)
      → NoKey id agents
      → find_by_spawn_tag slug tag model harness project agents ≡ some found
      → id == found.0 ≡ false
  unfolding find_by_spawn_tag
  none_under tag model harness project id [] found n h = absurd (ground arith)
  none_under tag model harness project id ((j, a) ∷ rest) found n h =
      ground (
        arith,
        none_under tag model harness project id rest found n.1,
        same_iff j id,
        same_iff id j,
      )

  lookup-find :
      (tag model harness project : Text) (agents : Map Text Agent) (found : Text × Agent)
      → Keyed agents
      → find_by_spawn_tag slug tag model harness project agents ≡ some found
      → lookup found.0 agents ≡ some found.1
  unfolding find_by_spawn_tag lookup
  lookup-find tag model harness project [] found k h = absurd (ground arith)
  lookup-find tag model harness project ((j, a) ∷ rest) found k h = ground (
    arith,
    lookup-find tag model harness project rest found k.2,
    none_under tag model harness project j rest found k.1,
    same_iff j j,
  )

  -- An agent that is found by its tag has the tag, and is of the model, harness and project.
  tagged :
      (tag model harness project : Text) (agents : Map Text Agent) (found : Text × Agent)
      → find_by_spawn_tag slug tag model harness project agents ≡ some found
      → (is_ai found.1.kind
          && or_zero (lookup spawn_tag found.1.meta) [] == tag
          && same_tuple slug model harness project found.1)
        ≡ true
  unfolding find_by_spawn_tag
  tagged tag model harness project [] found h = absurd (ground arith)
  tagged tag model harness project ((j, a) ∷ rest) found h =
      elim (Bool-cases (
        is_ai a.kind
        && or_zero (lookup spawn_tag a.meta) [] == tag
        && same_tuple slug model harness project a)) [
          | inl hit ↦
              let own : some (j, a) ≡ some found = sym (rw hit refl) ∙ h in
              subst
                (λ (o : Text × Agent).
                  (is_ai o.1.kind
                    && or_zero (lookup spawn_tag o.1.meta) [] == tag
                    && same_tuple slug model harness project o.1)
                  ≡ true)
                (some-injective (j, a) found own) hit
          | inr miss ↦ tagged tag model harness project rest found (sym (rw miss refl) ∙ h)
        ]

  -- Where a run of registerAI can end, of the given predicate on the store.
  module _ (P : Store → Type 0) (project : Text) (meta : Map Text Text) (hint : Option AgentSession)
      (now : ℕ) (s : Store) (stays : P s)
      (fresh : (name model harness : Text)
        → P (after_triple s (enroll slug name model harness project meta hint now s))) where
    forced_cases :
        (name model harness : Text)
        → ((a : Agent)
            → lookup (assemble_id name project) s.agents ≡ some a
            → same_tuple slug model harness project a ≡ true
            → P (reclaim slug (assemble_id name project) model meta hint now a s).0)
        → P (after_triple s (register_forced slug name model harness project meta hint now s))
    unfolding register_forced
    forced_cases name model harness back =
        let id = assemble_id name project in
        elim (Option-cases (lookup id s.agents)) [
          | inl e ↦ ground (arith, stays, fresh name model harness)
          | inr (a, e) ↦ elim (Bool-cases (same_tuple slug model harness project a)) [
            | inl own ↦ ground (arith, stays, back a e own)
            | inr other ↦ ground (arith, stays)
          ]
        ]

    picked_cases :
        (start : ℕ) (model harness : Text)
        → P (after_triple s (register_picked slug start model harness project meta hint now s))
    unfolding register_picked
    picked_cases start model harness =
        elim (Option-cases (pick_random_name start (is_taken slug project s) name_pool)) [
          | inl e ↦ ground (arith, stays)
          | inr (name, e) ↦ ground (arith, fresh name model harness)
        ]

    unnamed_cases :
        (start : ℕ) (model harness : Text)
        → ((key : Text) (a : Agent)
            → (Keyed s.agents → lookup key s.agents ≡ some a)
            → (or_zero (lookup spawn_tag meta) [] == []) ≡ false
            → (is_ai a.kind
                && or_zero (lookup spawn_tag a.meta) [] == or_zero (lookup spawn_tag meta) []
                && same_tuple slug model harness project a)
              ≡ true
            → P (reclaim slug key model meta hint now a s).0)
        → P (after_triple s (register_unnamed slug start model harness project meta hint now s))
    unfolding register_unnamed
    unnamed_cases start model harness back =
        let tag = or_zero (lookup spawn_tag meta) [] in
        elim (Bool-cases (tag == [])) [
          | inl untagged ↦ rw untagged (picked_cases start model harness)
          | inr given ↦
              rw given
                (elim (Option-cases (find_by_spawn_tag slug tag model harness project s.agents)) [
                  | inl e ↦ rw e (picked_cases start model harness)
                  | inr (found, e) ↦ rw e (
                      back found.0 found.1
                        (λ k. lookup-find tag model harness project s.agents found k e) given
                        (tagged tag model harness project s.agents found e))
                ])
        ]

    pub register_ai_cases :
        (start : ℕ) (model harness force : Text)
        → ((a : Agent)
            → (force == []) ≡ false
            → lookup (assemble_id force project) s.agents ≡ some a
            → same_tuple slug
                (slug (or_unknown model) (or_unknown harness))
                (or_unknown harness)
                project
                a
              ≡ true
            → P
                (reclaim slug
                  (assemble_id force project)
                  (slug (or_unknown model) (or_unknown harness))
                  meta
                  hint
                  now
                  a
                  s).0)
        → ((key : Text) (a : Agent)
            → (force == []) ≡ true
            → (Keyed s.agents → lookup key s.agents ≡ some a)
            → (or_zero (lookup spawn_tag meta) [] == []) ≡ false
            → (is_ai a.kind
                && or_zero (lookup spawn_tag a.meta) [] == or_zero (lookup spawn_tag meta) []
                && same_tuple slug
                    (slug (or_unknown model) (or_unknown harness))
                    (or_unknown harness)
                    project
                    a)
              ≡ true
            → P
                (reclaim slug key
                  (slug (or_unknown model) (or_unknown harness))
                  meta
                  hint
                  now
                  a
                  s).0)
        → P (after_triple s (register_ai slug start model harness project meta force hint now s))
    unfolding register_ai
    register_ai_cases start model harness force named by_tag =
        let harness' = or_unknown harness in
        let model' = slug (or_unknown model) harness' in
        elim (Bool-cases (force == [])) [
          | inl unnamed ↦
              rw unnamed (unnamed_cases start model' harness' (λ key a. by_tag key a unnamed))
          | inr asked ↦ rw asked (forced_cases force model' harness' (λ a. named a asked))
        ]

  -- An AI agent that registers, under a name of its choice, one from the pool, or its own of
  -- before, leaves a valid store valid.
  pub register_ai-RoomsValid :
      (start : ℕ) (model harness project : Text) (meta : Map Text Text) (force : Text)
      (hint : Option AgentSession) (now : ℕ) (s : Store)
      → RoomsValid s
      → RoomsValid
          (after_triple s (register_ai slug start model harness project meta force hint now s))
  register_ai-RoomsValid start model harness project meta force hint now s v =
      register_ai_cases RoomsValid project meta hint now s v
        (λ name m h. enroll-RoomsValid name m h project meta hint now s v) start model harness force
        (λ a _ _ _. reclaim-RoomsValid _ _ meta hint now a s v)
        (λ key a _ _ _ _. reclaim-RoomsValid key _ meta hint now a s v)
