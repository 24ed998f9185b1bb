-- ===== src/Examples/Agents.antt =====
-- Tests of the agents' waits and liveness, and each of their theorems at sample stores.
use aimebu.Prelude.{
  lookup, insert, same, text_eq, nat_eq, ℕ, ◌+◌, ◌<◌, ◌≡◌, refl, ◌≢◌, true, false, some, List, [],
  ◌∷◌, arith,
}
use aimebu.Types.{ai, idle, thinking, offline, Agent, Keyed}
use aimebu.Agents.Waits.{enter_wait, is_active}
use aimebu.Agents.Waits.Counts.{wait_count, WaitsValid}
use aimebu.Agents.Waits.Calls.{
  WaitCall, enters, leaves, wait_step, run_waits, begun, ended, Disciplined, run_waits-count,
}
use aimebu.Agents.Liveness.{
  push_state, went_offline, reconnected, Windows, by_age, next_state, sweep_ai,
}
use aimebu.Agents.Liveness.Edges.{
  LiveCall, sweeps, pushes, live_step, run_live, Matched, run_live-Matched,
  pushed_offline_reconnects, stale_drops_reconnect,
}
use aimebu.Posting.Frame.{Quiet}
use aimebu.Agents.Liveness.Rounds.{derive_agent_states}
use aimebu.Agents.Liveness.Rounds.Silent.{derive_agent_states-silent}
use aimebu.Examples.{bob, hall, agent_of, hall_store}

-- bob waits twice in the hall and on all rooms, then ends one wait in the hall.
abbrev waits : List WaitCall
waits = enters bob hall ∷ enters bob [] ∷ enters bob hall ∷ leaves bob hall ∷ []

bob_named : bob ≢ []
bob_named p = cc

no_waits-WaitsValid : WaitsValid hall_store
unfolding lookup
no_waits-WaitsValid a scopes h = cc

waiting :
    0
    < wait_count bob hall
        (run_waits hall_store (enters bob hall ∷ enters bob [] ∷ enters bob hall ∷ []))
unfolding run_waits wait_step enter_wait lookup insert same
waiting = ground arith

waits-Disciplined : Disciplined hall_store waits
unfolding run_waits
waits-Disciplined = (bob_named, (bob_named, (bob_named, ((bob_named, waiting), tt))))

run_waits-count_example :
    wait_count bob hall (run_waits hall_store waits) + ended bob hall waits
    ≡ wait_count bob hall hall_store + begun bob hall waits
run_waits-count_example = run_waits-count bob hall waits hall_store waits-Disciplined

abbrev windows : Windows
windows = record { stale_after = 100; offline_after = 1000 }

abbrev robot : Agent
robot = record (agent_of bob ai) { state = idle }

-- Silent until 2000, back at 2100, silent again until 5000.
abbrev silence : List (ℕ × LiveCall)
silence =
    (2000, sweeps windows false)
    ∷ (2050, pushes thinking)
    ∷ (2100, sweeps windows true)
    ∷ (5000000000, sweeps windows false)
    ∷ []

silence_test : (run_live robot silence).1 ≡ went_offline ∷ reconnected ∷ went_offline ∷ []
unfolding run_live live_step sweep_ai next_state by_age push_state
silence_test = refl

run_live-Matched_example : Matched false (run_live robot silence).1
run_live-Matched_example = run_live-Matched robot silence (tt, (refl, (tt, (tt, tt))))

pushed_offline_reconnects_example :
    (run_live robot ((10, pushes offline) ∷ (20, sweeps windows true) ∷ [])).1 ≡ reconnected ∷ []
pushed_offline_reconnects_example = pushed_offline_reconnects windows 10 20 robot refl refl

stale_drops_reconnect_example :
    let run =
      run_live
        (record robot { state = offline })
        ((500, sweeps windows false) ∷ (600, sweeps windows true) ∷ []) in
    (run.1 ≡ []) × (run.0.state ≡ idle)
stale_drops_reconnect_example =
    stale_drops_reconnect windows 0 500 600 (record robot { state = offline }) refl refl
      (ground arith) (ground arith)

hall_agents-Keyed : Keyed hall_store.agents
unfolding same
hall_agents-Keyed = ground arith

bob_there : lookup bob hall_store.agents ≡ some (agent_of bob ai)
unfolding lookup same
bob_there = refl

bob_unwatched : is_active bob hall_store ≡ false
unfolding lookup
bob_unwatched = refl

derive_agent_states-silent_example :
    let after = derive_agent_states windows 2000 hall_store in
    (b : Agent) × (lookup bob after.agents ≡ some b)
    × (b.state ≡ offline)
    × (b ≡ record (agent_of bob ai) {
      state = b.state;
      state_at = b.state_at;
      pending_state = b.pending_state;
    })
    × (after.rooms ≡ hall_store.rooms)
    × Quiet hall_store after
derive_agent_states-silent_example =
    derive_agent_states-silent windows 2000 0 hall_store bob (agent_of bob ai) hall_agents-Keyed
      bob_there refl bob_unwatched refl refl (omega arith)
