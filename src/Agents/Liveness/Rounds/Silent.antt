-- ===== src/Agents/Liveness/Rounds/Silent.antt =====
-- What the liveness loop makes of silent agents.
use aimebu.Prelude.{
  any, Map, lookup, Text, bytes, same_iff, text_eq, ltb, nat_beq, if◌then◌else◌, ◌==◌, Bool-cases,
  nat_eq, ℕ, ◌+◌, ◌<◌, ◌≡◌, refl, sym, ap, ◌∙◌, inl, inr, Bool, true, false, Option, some, List, [],
  ◌∷◌, ◌++◌, arith,
}
use aimebu.Types.{
  is_ai, AgentState, no_state, bootstrapping, idle, thinking, tool_call, respawning, error, stopped,
  stale, offline, state_code, same_state, Agent, agent_update, Store, send, Keyed,
}
use aimebu.Posting.Frame.{
  Quiet, Quiet-trans, Quiet-changed, emit_system_message_full-Quiet, emit_system_message-Quiet,
}
use aimebu.Rooms.Valid.{emit-rooms, emit_simple-rooms}
use aimebu.Agents.Liveness.{
  LivenessKind, went_offline, reconnected, Windows, is_final, by_age, next_state, sweep_ai,
  sweep_agent,
}
use aimebu.Agents.Liveness.Rounds.{
  emit_system_message_full, LivenessRoom, LivenessEvent, sweep_agents, changes,
  sweep_agent_liveness, liveness_message, message_rooms, emit_liveness_events, derive_agent_states,
}
use aimebu.Agents.Waits.{is_active}

lookup-sweep_agents :
    (w : Windows) (now : ℕ) (s : Store) (id : Text) (a : Agent) (agents : Map Text Agent)
    → Keyed agents
    → lookup id agents ≡ some a
    → lookup id (sweep_agents w now s agents).0 ≡ some (sweep_agent w now (is_active id s) a).0
unfolding sweep_agents lookup
lookup-sweep_agents w now s id a [] k h = absurd cc
lookup-sweep_agents w now s id a ((j, b) ∷ rest) k h = elim (Bool-cases (j == id)) [
  | inl here ↦
      let own = (same_iff j id).0 here in
      let same_agent : b ≡ a = ground arith in
      let named : b.id ≡ id = k.0 ∙ own in
      rw here (
        ap (λ c. some (sweep_agent w now (is_active c s) b).0) named
        ∙ ap (λ (c : Agent). some (sweep_agent w now (is_active id s) c).0) same_agent)
  | inr there ↦
      let later : lookup id rest ≡ some a = ground arith in
      rw there (lookup-sweep_agents w now s id a rest k.2 later)
]

-- The two stores have the same rooms and agents, and the second all else of the first.
Told : Store → Store → Type 0
Told s t = (t.rooms ≡ s.rooms) × (t.agents ≡ s.agents) × Quiet s t

Told-trans : (s t u : Store) → Told s t → Told t u → Told s u
unfolding Told
Told-trans s t u p q = (q.0 ∙ p.0, q.1 ∙ p.1, Quiet-trans s t u p.2 q.2)

Told-refl : (s : Store) → Told s s
unfolding Told
Told-refl s = (refl, refl, Quiet-changed s s.rooms s.agents s.next_id s.events)

emit-Told :
    (room body : Text) (targets : Option (List Text)) (attention : Bool) (now : ℕ) (s : Store)
    → Told s (emit_system_message_full room body targets attention now s)
unfolding Told
emit-Told room body targets attention now s =
    let (rooms, agents) = emit-rooms room body targets attention now s in
    (rooms, agents, emit_system_message_full-Quiet room body targets attention now s)

liveness_message-Told :
    (w : Windows) (now : ℕ) (kind : LivenessKind) (agent : Text) (r : LivenessRoom) (s : Store)
    → Told s (liveness_message w now kind agent r s)
unfolding liveness_message Told
liveness_message-Told w now went_offline agent r s = emit-Told r.room_id _ _ _ now s
liveness_message-Told w now reconnected agent r s =
    let (rooms, agents) = emit_simple-rooms r.room_id (agent ++ bytes " reconnected") now s in
    (rooms, agents, emit_system_message-Quiet r.room_id (agent ++ bytes " reconnected") now s)

message_rooms-Told :
    (w : Windows) (now : ℕ) (e : LivenessEvent) (rs : List LivenessRoom) (s : Store)
    → Told s (message_rooms w now e rs s)
unfolding message_rooms
message_rooms-Told w now e [] s = Told-refl s
message_rooms-Told w now e (r ∷ rs) s =
    Told-trans s _ _ (liveness_message-Told w now e.kind e.agent_id r s)
      (message_rooms-Told w now e rs _)

emit_liveness_events-Told :
    (w : Windows) (now : ℕ) (es : List LivenessEvent) (s : Store)
    → Told s (emit_liveness_events w now es s)
unfolding emit_liveness_events
emit_liveness_events-Told w now [] s = Told-refl s
emit_liveness_events-Told w now (e ∷ es) s =
    Told-trans s _ _ (message_rooms-Told w now e e.rooms s) (emit_liveness_events-Told w now es _)

state_of : ℕ → AgentState
state_of n =
    if nat_beq n 0
    then no_state
    else if nat_beq n 1
    then bootstrapping
    else if nat_beq n 2
    then idle
    else if nat_beq n 3
    then thinking
    else if nat_beq n 4
    then tool_call
    else if nat_beq n 5
    then respawning
    else if nat_beq n 6
    then error
    else if nat_beq n 7
    then stopped
    else if nat_beq n 8
    then stale
    else offline

state_of-code : (a : AgentState) → state_of (state_code a) ≡ a
unfolding state_of
state_of-code no_state = refl
state_of-code bootstrapping = refl
state_of-code idle = refl
state_of-code thinking = refl
state_of-code tool_call = refl
state_of-code respawning = refl
state_of-code error = refl
state_of-code stopped = refl
state_of-code stale = refl
state_of-code offline = refl

same_state-eq : (a b : AgentState) → same_state a b ≡ true → a ≡ b
same_state-eq a b h =
    let codes : state_code a ≡ state_code b = ground arith in
    sym (state_of-code a) ∙ (ap state_of codes ∙ state_of-code b)

-- A turn that leads to another state than idle.
sweep_ai-to :
    (w : Windows) (now : ℕ) (active : Bool) (a : Agent) (x : AgentState)
    → next_state w now active a ≡ x
    → same_state x idle ≡ false
    → (b : Agent) × ((sweep_ai w now active a).0 ≡ b)
      × (b.state ≡ x)
      × (b ≡ record a { state = b.state; state_at = b.state_at; pending_state = b.pending_state })
unfolding sweep_ai
sweep_ai-to w now active a x next busy = elim (Bool-cases (same_state a.state x)) [
  | inl stays ↦ (a, rw (next, stays) refl, same_state-eq a.state x stays, refl)
  | inr moves ↦ (
    record a {
      state = x;
      state_at = some now;
      pending_state = if same_state a.state offline then no_state else a.pending_state;
    },
    elim (Bool-cases (same_state a.state offline)) [
      | inl back ↦ rw (next, moves, busy, back) refl
      | inr on ↦ rw (next, moves, busy, on) refl
    ],
    refl,
    refl,
  )
]

-- An AI agent whose silence is longer than the windows of the sweep.
module _ (w : Windows) (now t : ℕ) (a : Agent) (kind : is_ai a.kind ≡ true)
    (lives : is_final a.state ≡ false) (seen : a.last_seen ≡ some t)
    (silent : t + w.stale_after < now) where
  expected : AgentState
  expected = if ltb (t + w.offline_after) now then offline else stale

  next_state-silent : next_state w now false a ≡ expected
  unfolding next_state by_age expected
  next_state-silent = rw (lives, seen) (ground arith)

  not_idle : same_state expected idle ≡ false
  unfolding expected
  not_idle = elim (Bool-cases (ltb (t + w.offline_after) now)) [
    | inl gone ↦ rw gone refl
    | inr quiet ↦ rw quiet refl
  ]

  sweep_agent-silent :
      (b : Agent) × ((sweep_agent w now false a).0 ≡ b)
      × (b.state ≡ expected)
      × (b ≡ record a { state = b.state; state_at = b.state_at; pending_state = b.pending_state })
  unfolding sweep_agent
  sweep_agent-silent = rw kind (sweep_ai-to w now false a expected next_state-silent not_idle)

maybe_sent-Told : (changed : Bool) (s : Store) → Told s (if changed then send agent_update s else s)
unfolding Told
maybe_sent-Told true s = (refl, refl, Quiet-changed s s.rooms s.agents s.next_id _)
maybe_sent-Told false s = Told-refl s

-- The store of the swept agents, before the clients and the rooms are told.
swept_store : Windows → ℕ → Store → Store
swept_store w now s = record s { agents = (sweep_agents w now s s.agents).0 }

derive_agent_states-Told :
    (w : Windows) (now : ℕ) (s : Store) → Told (swept_store w now s) (derive_agent_states w now s)
unfolding derive_agent_states sweep_agent_liveness swept_store
derive_agent_states-Told w now s =
    let changed = any (λ e. changes w now (is_active e.1.id s) e.1) s.agents in
    Told-trans (swept_store w now s) _ _ (maybe_sent-Told changed (swept_store w now s))
      (emit_liveness_events-Told w now (sweep_agents w now s s.agents).1 _)

-- A round of the liveness loop shows every AI agent that has been silent for longer than the windows:
-- one that neither waits nor is connected, whose state is neither stopped nor error, and that was
-- last seen before more than `stale_after` is offline after the round if that is also more than
-- `offline_after` ago, and stale otherwise, whatever its state was. Of the agent only its state, its
-- time and the pending state change. Rooms stay as they were, and all else but agents: reactions,
-- preferences, sessions and memory; a history may only grow, by messages of the system at its end.
pub derive_agent_states-silent :
    (w : Windows) (now t : ℕ) (s : Store) (id : Text) (a : Agent)
    → Keyed s.agents
    → lookup id s.agents ≡ some a
    → is_ai a.kind ≡ true
    → is_active id s ≡ false
    → is_final a.state ≡ false
    → a.last_seen ≡ some t
    → t + w.stale_after < now
    → let after = derive_agent_states w now s in
      (b : Agent) × (lookup id after.agents ≡ some b)
      × (b.state ≡ (if ltb (t + w.offline_after) now then offline else stale))
      × (b ≡ record a { state = b.state; state_at = b.state_at; pending_state = b.pending_state })
      × (after.rooms ≡ s.rooms)
      × Quiet s after
unfolding Told swept_store expected
derive_agent_states-silent w now t s id a keyed there kind unwatched lives seen silent =
    let (b, turn, state, frame) = sweep_agent-silent w now t a kind lives seen silent in
    let (rooms, agents, quiet) = derive_agent_states-Told w now s in
    let found : lookup id (sweep_agents w now s s.agents).0 ≡ some b =
      lookup-sweep_agents w now s id a s.agents keyed there
      ∙ (ap (λ c. some (sweep_agent w now c a).0) unwatched ∙ ap some turn) in
    (
      b,
      ap (λ m. lookup id m) agents ∙ found,
      state,
      frame,
      rooms,
      Quiet-trans s (swept_store w now s) _
          (Quiet-changed s s.rooms (sweep_agents w now s s.agents).0 s.next_id s.events) quiet,
    )
