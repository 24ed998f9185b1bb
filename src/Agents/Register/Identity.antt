-- ===== src/Agents/Register/Identity.antt =====
-- Registration takes nobody's identity, and a picked name is a free one.
use aimebu.Prelude.{
  take, drop, Map, is_some, or_zero, lookup, lookup-insert, contains, contains-append, Text, bytes,
  same_iff, text_eq, ◌==◌, Bool-cases, nat_eq, ℕ, zero, suc, ◌≡◌, refl, sym, ap, subst, ◌∙◌, ◌⊎◌,
  inl, inr, Bool, true, false, Option, none, some, List, [], ◌∷◌, ◌++◌, arith,
}
use mathlib.Core.Option.{some-injective}
use aimebu.Types.{ai, is_ai, Agent, AgentSession, Store, after_triple, Keyed}
use aimebu.Posting.{}
use aimebu.Agents.{put_agent}
use aimebu.Agents.Names.{assemble_id, first_free, pick_random_name}
use aimebu.Rooms.{put_room, add_member, join_room_internal_locked, join_room_internal}
use aimebu.Rooms.Valid.{emit_simple-rooms}
use aimebu.Agents.Register.{
  same_tuple, or_unknown, emit_system_message, upsert_agent_session, system_name, ai, new_agent,
  recalled, settle, reclaim, enroll, register_ai,
}
use aimebu.Agents.Register.Rules.{
  enroll_kept-rooms, enroll_cases, reclaim_kept-rooms, register_ai_cases,
}
use aimebu.Prefs.{clear_hidden_for_room}

-- The registration of an AI agent as a caller asks for it.
pub record Request : Type 0 where
  pub model : Text
  pub harness : Text
  pub project : Text
  pub meta : Map Text Text
  pub name : Text

abbrev pub tag_of : Map Text Text → Text
tag_of meta = or_zero (lookup (bytes "spawn_tag") meta) []

-- A caller may take the agent `x` under `id` over: it is of the model, harness and project of the
-- request, which asks for its name, or without a name brings its tag. It comes back as `y`.
pub record Claimed (slug : Text → Text → Text) (q : Request) (id : Text) (x y : Agent)
    : Type 0 where
  pub of_model : slug x.model x.harness ≡ slug (or_unknown q.model) (or_unknown q.harness)
  pub of_harness : x.harness ≡ or_unknown q.harness
  pub of_project : x.project ≡ q.project
  pub entitled :
      (((q.name == []) ≡ false) × (id ≡ assemble_id q.name q.project))
      ⊎ (((q.name == []) ≡ true)
          × ((tag_of q.meta == []) ≡ false)
          × (tag_of x.meta ≡ tag_of q.meta)
          × (is_ai x.kind ≡ true))
  pub new_model : y.model ≡ slug (or_unknown q.model) (or_unknown q.harness)
  pub same_id : y.id ≡ x.id
  pub same_name : y.name ≡ x.name
  pub same_kind : y.kind ≡ x.kind
  pub same_harness : y.harness ≡ x.harness
  pub same_project : y.project ≡ x.project
  pub same_state : y.state ≡ x.state
  pub same_registered_at : y.registered_at ≡ x.registered_at
  pub same_cursors : y.read_cursors ≡ x.read_cursors

-- Every agent that is registered in `agents` still is, untouched or taken over.
abbrev Keeps : (Text → Text → Text) → Request → Map Text Agent → Store → Type 0
Keeps slug q agents t =
    (id : Text) (x : Agent)
    → lookup id agents ≡ some x
    → (y : Agent) × (lookup id t.agents ≡ some y) × ((y ≡ x) ⊎ Claimed slug q id x y)

settle-agents : (id : Text) (now : ℕ) (s : Store) → (settle id now s).agents ≡ s.agents
unfolding settle join_room_internal join_room_internal_locked add_member put_room
    clear_hidden_for_room
settle-agents id now s = ground arith

found : (a x : Agent) → some a ≡ some x → a ≡ x
found a x e = some-injective a x e

module _ (slug : Text → Text → Text) (q : Request) (now : ℕ) where
  Keeps-of_eq :
      (agents : Map Text Agent) (s t : Store)
      → t.agents ≡ s.agents
      → Keeps slug q agents s
      → Keeps slug q agents t
  Keeps-of_eq agents s t e k id x h = let (y, there, kept) = k id x h in (y, rw e there, kept)

  put_agent-Keeps :
      (key : Text) (a b : Agent) (s : Store)
      → lookup key s.agents ≡ some a
      → Claimed slug q key a b
      → Keeps slug q s.agents (put_agent key b s)
  unfolding put_agent
  put_agent-Keeps key a b s here claim id x h = elim (Bool-cases (key == id)) [
    | inl hit ↦
        let same_key = (same_iff key id).0 hit in
        let own = found a x (sym here ∙ (ap (λ (k : Text). lookup k s.agents) same_key ∙ h)) in
        (
          b,
          ground (arith, lookup-insert key id b s.agents),
          inr (
              subst (λ z. Claimed slug q id z b) own
                (subst (λ k. Claimed slug q k a b) same_key claim)),
        )
    | inr miss ↦ (x, ground (arith, lookup-insert key id b s.agents), inl refl)
  ]

  add_agent-Keeps :
      (key : Text) (b : Agent) (s : Store)
      → is_some (lookup key s.agents) ≡ false
      → Keeps slug q s.agents (put_agent key b s)
  unfolding put_agent
  add_agent-Keeps key b s free id x h =
      (x, ground (arith, lookup-insert key id b s.agents, same_iff key id), inl refl)

  back_as : Agent → Agent
  back_as = recalled slug (slug (or_unknown q.model) (or_unknown q.harness)) q.meta now

  back_as-Claimed :
      (key : Text) (a : Agent)
      → same_tuple slug
          (slug (or_unknown q.model) (or_unknown q.harness))
          (or_unknown q.harness)
          q.project
          a
        ≡ true
      → (((q.name == []) ≡ false) × (key ≡ assemble_id q.name q.project))
        ⊎ (((q.name == []) ≡ true)
            × ((tag_of q.meta == []) ≡ false)
            × (tag_of a.meta ≡ tag_of q.meta)
            × (is_ai a.kind ≡ true))
      → Claimed slug q key a (back_as a)
  unfolding back_as recalled
  back_as-Claimed key a tuple entitled = record {
    of_model = (same_iff _ _).0 (ground arith);
    of_harness = (same_iff _ _).0 (ground arith);
    of_project = (same_iff _ _).0 (ground arith);
    entitled = entitled;
    new_model = refl;
    same_id = refl;
    same_name = refl;
    same_kind = refl;
    same_harness = refl;
    same_project = refl;
    same_state = refl;
    same_registered_at = refl;
    same_cursors = refl;
  }

  reclaim-Keeps :
      (hint : Option AgentSession) (s : Store) (key : Text) (a : Agent)
      → lookup key s.agents ≡ some a
      → Claimed slug q key a (back_as a)
      → Keeps slug q s.agents
          (reclaim slug key
            (slug (or_unknown q.model) (or_unknown q.harness))
            q.meta
            hint
            now
            a
            s).0
  unfolding reclaim back_as
  reclaim-Keeps hint s key a there claim =
      let m = slug (or_unknown q.model) (or_unknown q.harness) in
      let s' = put_agent key (back_as a) s in
      Keeps-of_eq s.agents s' (reclaim slug key m q.meta hint now a s).0
        (settle-agents a.id now _ ∙ (reclaim_kept-rooms hint a.id (back_as a) now s').1)
        (put_agent-Keeps key a (back_as a) s there claim)

  enroll-Keeps :
      (hint : Option AgentSession) (s : Store) (name m har : Text)
      → Keeps slug q s.agents (after_triple s (enroll slug name m har q.project q.meta hint now s))
  enroll-Keeps hint s name m har =
      let i = assemble_id name q.project in
      let a = new_agent i name ai m har q.project q.meta now in
      let s' = put_agent i a s in
      let kept : Store = elim hint [
        | some h ↦ upsert_agent_session a (bytes "mcp") h now s'
        | none ↦ s'
      ] in
      enroll_cases slug (Keeps slug q s.agents) name m har q.project q.meta hint now s
        (λ j z e. (z, e, inl refl))
        (λ free what.
          Keeps-of_eq s.agents s' (emit_system_message system_name what now (settle i now kept))
            ((emit_simple-rooms system_name what now (settle i now kept)).1
              ∙ (settle-agents i now kept ∙ (enroll_kept-rooms hint a now s').1))
            (add_agent-Keeps i a s free))

  -- A registration of an AI agent, whether it succeeds or not, leaves every agent registered under
  -- its ID and as it was, but for one that the caller takes over: that agent is of the model, the
  -- harness and the project that the caller names, and either has the ID of the name and project
  -- asked for or, where no name is asked for, is an AI agent with the caller's spawn tag. It keeps
  -- its ID, name, kind, harness, project, state, time of registration and cursors.
  pub register_ai-Keeps :
      (start : ℕ) (hint : Option AgentSession) (s : Store) (id : Text) (x : Agent)
      → Keyed s.agents
      → lookup id s.agents ≡ some x
      → let t =
          after_triple s
            (register_ai slug start q.model q.harness q.project q.meta q.name hint now s) in
        (y : Agent) × (lookup id t.agents ≡ some y) × ((y ≡ x) ⊎ Claimed slug q id x y)
  register_ai-Keeps start hint s id x k h =
      register_ai_cases slug (Keeps slug q s.agents) q.project q.meta hint now s
        (λ i z e. (z, e, inl refl)) (λ name m har. enroll-Keeps hint s name m har) start q.model
        q.harness q.name
        (λ a asked there tuple.
          reclaim-Keeps hint s _ a there (back_as-Claimed _ a tuple (inl (asked, refl))))
        (λ key a unnamed there given matches. reclaim-Keeps hint s key a (there k) (
          back_as-Claimed key a (ground arith)
            (inr (unnamed, given, (same_iff _ _).0 (ground arith), ground arith))))
        id x h

-- What a pick from a pool must be.
abbrev pub Picked : (Text → Bool) → List Text → Option Text → Type 0
Picked taken pool none = (n : Text) → contains n pool ≡ true → taken n ≡ true
Picked taken pool (some n) = (contains n pool ≡ true) × (taken n ≡ false)

first_free-Picked :
    (taken : Text → Bool) (pool : List Text) → Picked taken pool (first_free taken pool)
unfolding first_free contains
first_free-Picked taken [] = λ n h. absurd (ground arith)
first_free-Picked taken (n ∷ ns) = elim (Bool-cases (taken n)) [
  | inl hit ↦ rw hit (weaken (first_free taken ns) hit (first_free-Picked taken ns))
  | inr miss ↦ rw miss (ground (arith, same_iff n n), miss)
]
  where
    weaken : (o : Option Text) → taken n ≡ true → Picked taken ns o → Picked taken (n ∷ ns) o
    weaken none hit p = λ m h. ground (arith, p m, same_iff n m)
    weaken (some m) hit p = (ground arith, p.1)

contains-rotated :
    (k : ℕ) (n : Text) (xs : List Text) → contains n (drop k xs ++ take k xs) ≡ contains n xs
unfolding contains
contains-rotated zero n xs = ground (arith, contains-append n xs [])
contains-rotated (suc k) n [] = refl
contains-rotated (suc k) n (x ∷ xs) = ground (
  arith,
  contains-rotated k n xs,
  contains-append n (drop k xs) (x ∷ take k xs),
  contains-append n (drop k xs) (take k xs),
)

-- The name that is picked from the pool is one of the pool's and not taken; none is picked only if
-- every name of the pool is taken.
pub pick_random_name-Picked :
    (start : ℕ) (taken : Text → Bool) (pool : List Text)
    → Picked taken pool (pick_random_name start taken pool)
unfolding pick_random_name
pick_random_name-Picked start taken pool =
    same_names (first_free taken rotated) (first_free-Picked taken rotated)
  where
    rotated : List Text
    rotated = drop start pool ++ take start pool

    same_names : (o : Option Text) → Picked taken rotated o → Picked taken pool o
    same_names none p = λ n h. p n (contains-rotated start n pool ∙ h)
    same_names (some n) p = (sym (contains-rotated start n pool) ∙ p.0, p.1)
