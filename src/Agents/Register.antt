-- ===== src/Agents/Register.antt =====
-- Registration of internal/server/store_agents.go: registerHuman, registerAIWithSession; and
-- upsertAgentSessionLocked of store_agent_sessions.go. canonicalModelSlug of model_slug.go is the
-- argument `slug`: what is shown holds of every function in its place.
pub mod Rules
pub mod Identity
use aimebu.Prelude.{
  any, Map, is_some, or_zero, lookup, insert, Text, bytes, text_eq, if◌then◌else◌, ◌==◌, nat_eq, ℕ,
  ◌/◌, Bool, true, false, not, ◌&&◌, ◌||◌, Option, none, some, [], ◌∷◌, ◌++◌,
}
use aimebu.Types.{
  pool_exhausted, id_exists, collides_with_role, ai, name_held, stamp, Kind, human, is_ai, is_human,
  no_state, Agent, AgentSession, agent_update, Store, name_required, name_in_use, bad_name, Result,
  ok, err, send,
}
use aimebu.Posting.{system_name, emit_system_message}
use aimebu.Agents.{touch_agent_session, put_agent}
use aimebu.Agents.Names.{name_pool, is_slug, pick_random_name, assemble_id, is_reserved_agent_name}
use aimebu.Rooms.{join_room_internal}
use aimebu.Rooms.Roles.{role_exists}

-- `for k, v := range meta { a.Meta[k] = v }`
merge_meta : Map Text Text → Map Text Text → Map Text Text
merge_meta [] old = old
merge_meta ((k, v) ∷ meta) old = merge_meta meta (insert k v old)

any_name : Text → Map Text Agent → Bool
any_name name [] = false
any_name name ((id, a) ∷ rest) = a.name == name || any_name name rest

abbrev new_agent : Text → Text → Kind → Text → Text → Text → Map Text Text → ℕ → Agent
new_agent id name kind model harness project meta now = record {
  id = id;
  name = name;
  kind = kind;
  model = model;
  harness = harness;
  project = project;
  meta = meta;
  state = no_state;
  state_at = none;
  pending_state = no_state;
  registered_at = stamp now;
  last_seen = stamp now;
  read_cursors = [];
}

-- The clients are told and the agent joins the system room.
unfoldable pub settle : Text → ℕ → Store → Store
unfolding join_room_internal
settle id now s = join_room_internal system_name id now (send agent_update s)

again : Text → Map Text Text → ℕ → Agent → Agent
unfolding merge_meta
again project meta now a = record a {
  last_seen = stamp now;
  project = if project == [] then a.project else project;
  meta = merge_meta meta a.meta;
}

unfoldable pub register_human : Text → Text → Map Text Text → ℕ → Store → Result (Store × Agent)
unfolding is_reserved_agent_name again settle put_agent any_name emit_system_message
register_human name project meta now s =
    let fresh = new_agent name name human [] [] project meta now in
    if name == []
    then err name_required
    else if is_reserved_agent_name name
    then err bad_name
    else elim (lookup name s.agents) [
      | some a ↦
          if is_human a.kind
          then ok (
            settle name now (put_agent name (again project meta now a) s),
            again project meta now a,
          )
          else err name_in_use
      | none ↦
          if any_name name s.agents
          then err name_in_use
          else ok (
            emit_system_message system_name (name ++ bytes " registered (human)") now
                (settle name now (put_agent name fresh s)),
            fresh,
          )
    ]

-- The zero time is 0; a failed write to the database is left out.
unfoldable pub upsert_agent_session : Agent → Text → AgentSession → ℕ → Store → Store
upsert_agent_session a origin hint now s =
    let kept : ℕ = elim (lookup a.id s.agent_sessions) [
      | none ↦ now
      | some x ↦ if x.registered_at == 0 then now else x.registered_at
    ] in
    let session : AgentSession = record {
      full_id = a.id;
      origin = origin;
      harness = a.harness;
      model = a.model;
      project = a.project;
      cwd = if hint.cwd == [] then or_zero (lookup (bytes "cwd") a.meta) [] else hint.cwd;
      harness_session_id = hint.harness_session_id;
      resume_command = hint.resume_command;
      registered_at = kept;
      last_seen = now;
    } in
    if a.id == [] then s else record s { agent_sessions = insert a.id session s.agent_sessions }

abbrev spawn_tag : Text
spawn_tag = bytes "spawn_tag"

abbrev or_unknown : Text → Text
or_unknown t = if t == [] then bytes "unknown" else t

module _ (slug : Text → Text → Text) where
  -- Whether an agent is of this model, harness and project.
  abbrev same_tuple : Text → Text → Text → Agent → Bool
  same_tuple model harness project a =
      slug a.model a.harness == model && a.harness == harness && a.project == project

  unfoldable pub find_by_spawn_tag :
      Text → Text → Text → Text → Map Text Agent → Option (Text × Agent)
  find_by_spawn_tag tag model harness project [] = none
  find_by_spawn_tag tag model harness project ((id, a) ∷ rest) =
      if is_ai a.kind
        && or_zero (lookup spawn_tag a.meta) [] == tag
        && same_tuple model harness project a
      then some (id, a)
      else find_by_spawn_tag tag model harness project rest

  recalled : Text → Map Text Text → ℕ → Agent → Agent
  unfolding merge_meta
  recalled model meta now a = record a {
    model = model;
    last_seen = stamp now;
    meta = merge_meta meta a.meta;
  }

  -- A known agent comes back under its identity.
  unfoldable pub reclaim :
      Text → Text → Map Text Text → Option AgentSession → ℕ → Agent → Store → Store × Agent
  unfolding recalled settle put_agent upsert_agent_session touch_agent_session
  reclaim key model meta hint now a s =
      let a' = recalled model meta now a in
      let s' = put_agent key a' s in
      let kept : Store = elim hint [
        | some h ↦ upsert_agent_session a' (bytes "mcp") h now s'
        | none ↦ touch_agent_session a.id now s'
      ] in
      (settle a.id now kept, a')

  -- The names that a random one must not be: AI agents' of the project, and role keys.
  unfoldable pub is_taken : Text → Store → Text → Bool
  unfolding role_exists
  is_taken project s name =
      any (λ e. is_ai e.1.kind && e.1.project == project && e.1.name == name) s.agents
      || role_exists name s

  -- The new agent's ID is not in use.
  unfoldable pub enroll :
      Text
      → Text
      → Text
      → Text
      → Map Text Text
      → Option AgentSession
      → ℕ
      → Store
      → Result (Store × Agent × Bool)
  unfolding assemble_id put_agent upsert_agent_session settle emit_system_message
  enroll name model harness project meta hint now s =
      let id = assemble_id name project in
      let a = new_agent id name ai model harness project meta now in
      let s' = put_agent id a s in
      let kept : Store = elim hint [
        | some h ↦ upsert_agent_session a (bytes "mcp") h now s'
        | none ↦ s'
      ] in
      let what =
        id ++ (bytes " registered (" ++ (model ++ (bytes "/" ++ (harness ++ bytes ")")))) in
      if is_some (lookup id s.agents)
      then err id_exists
      else ok (emit_system_message system_name what now (settle id now kept), a, false)

  -- A name asked for by the caller.
  unfoldable pub register_forced :
      Text
      → Text
      → Text
      → Text
      → Map Text Text
      → Option AgentSession
      → ℕ
      → Store
      → Result (Store × Agent × Bool)
  unfolding is_slug is_reserved_agent_name assemble_id reclaim enroll role_exists
  register_forced name model harness project meta hint now s =
      let id = assemble_id name project in
      if not (is_slug name)
      then err bad_name
      else if is_reserved_agent_name name
      then err bad_name
      else elim (lookup id s.agents) [
        | some a ↦
            let (s', a') = reclaim id model meta hint now a s in
            if same_tuple model harness project a then ok (s', a', false) else err name_held
        | none ↦
            if role_exists name s
            then err collides_with_role
            else enroll name model harness project meta hint now s
      ]

  -- A name from the pool; `start` is the random offset.
  unfoldable pub register_picked :
      ℕ
      → Text
      → Text
      → Text
      → Map Text Text
      → Option AgentSession
      → ℕ
      → Store
      → Result (Store × Agent × Bool)
  unfolding pick_random_name is_taken enroll
  register_picked start model harness project meta hint now s =
      elim (pick_random_name start (is_taken project s) name_pool) [
        | none ↦ err pool_exhausted
        | some name ↦ enroll name model harness project meta hint now s
      ]

  unfoldable pub register_unnamed :
      ℕ
      → Text
      → Text
      → Text
      → Map Text Text
      → Option AgentSession
      → ℕ
      → Store
      → Result (Store × Agent × Bool)
  unfolding find_by_spawn_tag reclaim register_picked
  register_unnamed start model harness project meta hint now s =
      let tag = or_zero (lookup spawn_tag meta) [] in
      let fresh = register_picked start model harness project meta hint now s in
      if tag == [] then fresh else elim (find_by_spawn_tag tag model harness project s.agents) [
        | none ↦ fresh
        | some found ↦
            let (s', a') = reclaim found.0 model meta hint now found.1 s in ok (s', a', true)
      ]

  unfoldable pub register_ai :
      ℕ
      → Text
      → Text
      → Text
      → Map Text Text
      → Text
      → Option AgentSession
      → ℕ
      → Store
      → Result (Store × Agent × Bool)
  unfolding register_forced register_unnamed
  register_ai start model harness project meta force hint now s =
      let harness' = or_unknown harness in
      let model' = slug (or_unknown model) harness' in
      if force == []
      then register_unnamed start model' harness' project meta hint now s
      else register_forced force model' harness' project meta hint now s
