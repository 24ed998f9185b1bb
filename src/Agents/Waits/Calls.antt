-- ===== src/Agents/Waits/Calls.antt =====
-- The calls on open waits and sockets in any order, each leave after its enter.
use aimebu.Prelude.{
  Map, or_zero, lookup, Text, same_iff, text_eq, if◌then◌else◌, ◌==◌, nat_eq, ℕ, ◌+◌, ◌<◌, ◌≡◌,
  refl, ◌≢◌, ◌↔◌, false, ◌&&◌, List, [], ◌∷◌, arith,
}
use aimebu.Types.{Store}
use aimebu.Agents.Waits.{
  is_filled, scopes_of, sockets, enter_wait, leave_wait, is_active, enter_ws, leave_ws,
}
use aimebu.Agents.Waits.Counts.{
  Positive, wait_count, WaitsValid, wait_count-enter_wait, not_filled, wait_count-leave_wait,
  scopes_of-Positive, WaitsGood-of_eq, enter_wait-WaitsValid, leave_wait-WaitsValid,
}

pub data WaitCall : Type 0 where
  enters leaves : Text → Text → WaitCall
  opens closes : Text → WaitCall

unfoldable pub wait_step : Store → WaitCall → Store
wait_step s (enters a r) = enter_wait a r s
wait_step s (leaves a r) = leave_wait a r s
wait_step s (opens a) = enter_ws a s
wait_step s (closes a) = leave_ws a s

unfoldable pub run_waits : Store → List WaitCall → Store
unfolding wait_step
run_waits s [] = s
run_waits s (c ∷ cs) = run_waits (wait_step s c) cs

-- How often a call begins or ends a wait of `a` in scope `r`.
abbrev begins : Text → Text → WaitCall → ℕ
begins a r (enters b q) = if b == a && q == r then 1 else 0
begins a r _ = 0

abbrev ends : Text → Text → WaitCall → ℕ
ends a r (leaves b q) = if b == a && q == r then 1 else 0
ends a r _ = 0

abbrev pub begun : Text → Text → List WaitCall → ℕ
begun a r [] = 0
begun a r (c ∷ cs) = begins a r c + begun a r cs

abbrev pub ended : Text → Text → List WaitCall → ℕ
ended a r [] = 0
ended a r (c ∷ cs) = ends a r c + ended a r cs

-- The handlers' discipline: an agent is named, and a leave is deferred to an enter.
abbrev pub Allowed : Store → WaitCall → Type 0
Allowed s (enters a r) = a ≢ []
Allowed s (leaves a r) = (a ≢ []) × (0 < wait_count a r s)
Allowed s _ = Unit {0}

abbrev pub Disciplined : Store → List WaitCall → Type 0
Disciplined s [] = Unit {0}
Disciplined s (c ∷ cs) = Allowed s c × Disciplined (wait_step s c) cs

ws-open_waits :
    (agent : Text) (s : Store)
    → ((enter_ws agent s).open_waits ≡ s.open_waits)
      × ((leave_ws agent s).open_waits ≡ s.open_waits)
unfolding enter_ws leave_ws
ws-open_waits agent s = ground arith

wait_step-count :
    (a r : Text) (s : Store) (c : WaitCall)
    → Allowed s c
    → wait_count a r (wait_step s c) + ends a r c ≡ wait_count a r s + begins a r c
unfolding wait_step
wait_step-count a r s (enters b q) h = ground (arith, wait_count-enter_wait b q a r s h)
wait_step-count a r s (leaves b q) h =
    ground (arith, wait_count-leave_wait b q a r s h.0, same_iff b a, same_iff q r)
wait_step-count a r s (opens b) h = ground (arith, ws-open_waits b s)
wait_step-count a r s (closes b) h = ground (arith, ws-open_waits b s)

-- After any calls in the handlers' discipline, the waits of an agent in a scope are those open
-- before and those begun, less those ended, whatever other agents and scopes did in between.
pub run_waits-count :
    (a r : Text) (calls : List WaitCall) (s : Store)
    → Disciplined s calls
    → wait_count a r (run_waits s calls) + ended a r calls ≡ wait_count a r s + begun a r calls
unfolding run_waits
run_waits-count a r [] s h = omega arith
run_waits-count a r (c ∷ cs) s h =
    omega (arith, wait_step-count a r s c h.0, run_waits-count a r cs (wait_step s c) h.1)

wait_step-WaitsValid : (s : Store) (c : WaitCall) → WaitsValid s → WaitsValid (wait_step s c)
unfolding wait_step
wait_step-WaitsValid s (enters a r) v = enter_wait-WaitsValid a r s v
wait_step-WaitsValid s (leaves a r) v = leave_wait-WaitsValid a r s v
wait_step-WaitsValid s (opens a) v = WaitsGood-of_eq ((ws-open_waits a s).0) v
wait_step-WaitsValid s (closes a) v = WaitsGood-of_eq ((ws-open_waits a s).1) v

-- Whatever calls are made in whatever order, no counter of open waits is kept at 0 and no agent
-- is kept with no scope.
pub run_waits-WaitsValid :
    (calls : List WaitCall) (s : Store) → WaitsValid s → WaitsValid (run_waits s calls)
unfolding run_waits
run_waits-WaitsValid [] s v = v
run_waits-WaitsValid (c ∷ cs) s v =
    run_waits-WaitsValid cs (wait_step s c) (wait_step-WaitsValid s c v)

empty-of_zero :
    (scopes : Map Text ℕ)
    → Positive scopes
    → ((r : Text) → or_zero (lookup r scopes) 0 ≡ 0)
    → is_filled scopes ≡ false
unfolding lookup
empty-of_zero [] p h = refl
empty-of_zero ((r, n) ∷ rest) p h = absurd (ground (arith, p r n, h r, same_iff r r))

-- An agent is seen as inactive exactly if it has no socket and no wait in any scope.
pub is_active_iff :
    (agent : Text) (s : Store)
    → WaitsValid s
    → (is_active agent s ≡ false)
      ↔ ((sockets agent s ≡ 0) × ((r : Text) → wait_count agent r s ≡ 0))
unfolding lookup
is_active_iff agent s v = (
  λ h. (ground arith, λ r. ground (arith, not_filled (scopes_of agent s))),
  λ h. ground (arith, empty-of_zero (scopes_of agent s) (scopes_of-Positive agent s v) h.1),
)
