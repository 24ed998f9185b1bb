-- ===== src/Agents/Liveness/Edges.antt =====
-- The offline and reconnect events of one agent over any calls.
use aimebu.Prelude.{
  All, text_eq, if◌then◌else◌, nat_eq, ℕ, ◌+◌, ◌≤◌, ◌<◌, ◌≡◌, Bool, true, false, some, List, [],
  ◌∷◌, ◌++◌, arith,
}
use aimebu.Types.{stamp, AgentState, offline, same_state, Agent}
use aimebu.Agents.Liveness.{
  idle, no_state, by_age, next_state, is_activity, push_state, LivenessKind, went_offline,
  reconnected, Windows, sweep_ai,
}

pub data LiveCall : Type 0 where
  sweeps : Windows → Bool → LiveCall
  pushes : AgentState → LiveCall
  keeps : LiveCall

-- An AI agent's record under the sweep, a pushed state, and a keepalive.
unfoldable pub live_step : Agent → ℕ × LiveCall → Agent × List LivenessKind
live_step a (now, sweeps w active) = sweep_ai w now active a
live_step a (now, pushes pushed) =
    let a' = (push_state pushed now a).0 in
    (if is_activity pushed then record a' { last_seen = stamp now } else a', [])
live_step a (now, keeps) = (record a { last_seen = stamp now }, [])

unfoldable pub run_live : Agent → List (ℕ × LiveCall) → Agent × List LivenessKind
unfolding live_step
run_live a [] = (a, [])
run_live a (c ∷ cs) =
    let (a', here) = live_step a c in let (a'', rest) = run_live a' cs in (a'', here ++ rest)

-- Every reconnect follows an offline event of its own; `off` tells whether one is open.
abbrev pub Matched : Bool → List LivenessKind → Type 0
Matched off [] = Unit {0}
Matched off (went_offline ∷ ks) = Matched true ks
Matched off (reconnected ∷ ks) = (off ≡ true) × Matched false ks

-- A wrapper may push every state but offline.
abbrev pub Plain : LiveCall → Type 0
Plain (pushes state) = same_state state offline ≡ false
Plain _ = Unit {0}

-- Whether an offline event is open after the events.
abbrev open_after : Bool → List LivenessKind → Bool
open_after off [] = off
open_after off (went_offline ∷ ks) = open_after true ks
open_after off (reconnected ∷ ks) = open_after false ks

-- What a call's events, from an agent that is offline only with an event open, leave behind.
abbrev Kept : Bool → Agent × List LivenessKind → Type 0
Kept off (a, ks) = Matched off ks × (same_state a.state offline ≡ true → open_after off ks ≡ true)

sweep_ai-Kept :
    (w : Windows) (now : ℕ) (active : Bool) (a : Agent) (off : Bool)
    → (same_state a.state offline ≡ true → off ≡ true)
    → Kept off (sweep_ai w now active a)
unfolding sweep_ai
sweep_ai-Kept w now active a off h = ground arith

live_step-Kept :
    (a : Agent) (off : Bool) (now : ℕ) (c : LiveCall)
    → Plain c
    → (same_state a.state offline ≡ true → off ≡ true)
    → Kept off (live_step a (now, c))
unfolding live_step push_state
live_step-Kept a off now (sweeps w active) p h = sweep_ai-Kept w now active a off h
live_step-Kept a off now (pushes pushed) p h = ground arith
live_step-Kept a off now keeps p h = ground arith

Matched-append :
    (off : Bool) (ks js : List LivenessKind)
    → Matched off ks
    → Matched (open_after off ks) js
    → Matched off (ks ++ js)
Matched-append off [] js h k = k
Matched-append off (went_offline ∷ ks) js h k = Matched-append true ks js h k
Matched-append off (reconnected ∷ ks) js h k = (h.0, Matched-append false ks js h.1 k)

run_live-from :
    (calls : List (ℕ × LiveCall)) (a : Agent) (off : Bool)
    → All (λ c. Plain c.1) calls
    → (same_state a.state offline ≡ true → off ≡ true)
    → Matched off (run_live a calls).1
unfolding run_live
run_live-from [] a off p h = tt
run_live-from ((now, c) ∷ cs) a off p h =
    let a' = (live_step a (now, c)).0 in
    let here = (live_step a (now, c)).1 in
    let (matched, kept) = live_step-Kept a off now c p.0 h in
    Matched-append off here (run_live a' cs).1 matched
      (run_live-from cs a' (open_after off here) p.1 kept)

-- Over any sweeps, keepalives and pushed states other than offline, however the windows of the
-- sweeps change: a reconnect event of an agent is only ever sent after an offline event that no
-- other reconnect has answered, the agent's first one being open if it starts offline.
pub run_live-Matched :
    (a : Agent) (calls : List (ℕ × LiveCall))
    → All (λ c. Plain c.1) calls
    → Matched (same_state a.state offline) (run_live a calls).1
run_live-Matched a calls p = run_live-from calls a (same_state a.state offline) p (λ h. h)

-- An agent that is not offline and for which offline is pushed is offline with no event sent; the
-- next sweep that sees it active sends a reconnect alone, if no state was pushed meanwhile.
pub pushed_offline_reconnects :
    (w : Windows) (before later : ℕ) (a : Agent)
    → same_state a.state offline ≡ false
    → a.pending_state ≡ no_state
    → (run_live a ((before, pushes offline) ∷ (later, sweeps w true) ∷ [])).1 ≡ reconnected ∷ []
unfolding run_live live_step push_state sweep_ai next_state
pushed_offline_reconnects w before later a h p = ground arith

-- An offline agent that a sweep finds older than the stale window, but not than the offline one,
-- turns stale with no event, and goes back to idle with none: its reconnect is never sent.
pub stale_drops_reconnect :
    (w : Windows) (seen before later : ℕ) (a : Agent)
    → same_state a.state offline ≡ true
    → a.last_seen ≡ some seen
    → seen + w.stale_after < before
    → before ≤ seen + w.offline_after
    → let run = run_live a ((before, sweeps w false) ∷ (later, sweeps w true) ∷ []) in
      (run.1 ≡ []) × (run.0.state ≡ idle)
unfolding run_live live_step sweep_ai next_state by_age
stale_drops_reconnect w seen before later a h l x y = ground arith
