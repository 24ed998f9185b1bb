-- ===== src/Usages/Retry.antt =====
-- internal/usages/retry.go. A duration is an int64 of nanoseconds; the replies of the client, and
-- whether the context is done at each point that looks, are arguments by attempt. What strconv and
-- net/http read off a Retry-After header is given. Retries are fewer than the largest int, and the
-- maximal delay is below 2^62, so that its doubling does not wrap.
pub mod Bounds
use aimebu.Prelude.{
  ℤ, pos, negsuc, length, any, Text, bytes, text_eq, equal_fold, ltb, leb, if◌then◌else◌, ◌==◌,
  nat_eq, ℕ, zero, suc, ◌+◌, ◌-◌, ◌*◌, ◌%◌, ◌^◌, min, max, Bool, not, ◌&&◌, ◌||◌, Option, none,
  some, List, [], ◌∷◌,
}

abbrev pub second : ℕ
second = 1_000_000_000

pub data RetryAfter : Type 0 where
  absent : RetryAfter
  seconds : ℤ → RetryAfter
  -- The time from now until a date.
  until : ℤ → RetryAfter

pub data Reply : Type 0 where
  -- Whether the transport error is a transient one.
  failed : Bool → Reply
  response : ℕ → RetryAfter → Reply
  -- The request could not be copied, so it was not sent.
  not_cloned : Reply

-- Where the loop looks at its context: before a request, after one that failed, in a wait.
pub data Look : Type 0 where
  before failing waiting : Look

pub record RetryPolicy : Type 0 where
  pub max_retries : ℤ
  pub retryable_status_codes : List ℕ
  pub retryable_methods : List Text
  pub base_delay : ℤ
  pub max_delay : ℤ

pub record Request : Type 0 where
  pub method : Text
  -- retryCanReplayBody
  pub can_replay : Bool

default_delay : ℤ → ℕ → ℕ
default_delay (pos zero) n = n
default_delay (pos (suc d)) n = suc d
default_delay (negsuc d) n = n

-- withDefaults, for each of the three numbers.
unfoldable pub retries_of : RetryPolicy → ℕ
retries_of p = elim p.max_retries [ pos n ↦ if n == 0 then 1 else n | negsuc n ↦ 0 ]

unfoldable pub base_of : RetryPolicy → ℕ
unfolding default_delay
base_of p = default_delay p.base_delay second

unfoldable pub max_of : RetryPolicy → ℕ
unfolding default_delay
max_of p = default_delay p.max_delay (10 * second)

-- strings.ToUpper on both sides compares as EqualFold does, for ASCII.
unfoldable pub retryable_method : RetryPolicy → Text → Bool
unfolding equal_fold
retryable_method p method =
    if leb (length p.retryable_methods) 0
    then any (equal_fold method) (bytes "GET" ∷ bytes "HEAD" ∷ bytes "OPTIONS" ∷ [])
    else any (equal_fold method) p.retryable_methods

unfoldable pub retryable_status : RetryPolicy → ℕ → Bool
retryable_status p code =
    if leb (length p.retryable_status_codes) 0
    then any (λ c. code == c) (408 ∷ 429 ∷ 500 ∷ 502 ∷ 503 ∷ 504 ∷ [])
    else any (λ c. code == c) p.retryable_status_codes

unfoldable pub may_retry : RetryPolicy → Request → ℕ → Bool
unfolding retryable_method retries_of
may_retry p req attempt =
    retryable_method p req.method && (ltb attempt (retries_of p) && req.can_replay)

-- An int64 of the bits of a product.
unfoldable pub wrap64 : ℕ → ℤ
wrap64 n =
    let bits = n % 2 ^ 64 in if ltb bits (2 ^ 63) then pos bits else negsuc (2 ^ 64 - bits - 1)

-- retryAfterDelay
unfoldable pub retry_after_delay : RetryAfter → Option ℤ
unfolding wrap64
retry_after_delay absent = none
retry_after_delay (seconds (pos n)) = some (wrap64 (n * second))
retry_after_delay (seconds (negsuc n)) = some (pos 0)
retry_after_delay (until (pos n)) = some (pos n)
retry_after_delay (until (negsuc n)) = some (pos 0)

unfoldable pub cap_duration : ℤ → ℕ → ℤ
cap_duration (pos n) max = if ltb max n then pos max else pos n
cap_duration (negsuc n) max = negsuc n

-- The loop of `delay`: doubled once for each attempt, until it reaches the maximum.
doubled : ℕ → ℕ → ℕ → ℕ
doubled zero delay max = min delay max
doubled (suc attempt) delay max =
    let rest = doubled attempt (2 * delay) max in if leb max (2 * delay) then max else rest

unfoldable pub delay_of : RetryPolicy → ℕ → RetryAfter → ℤ
unfolding retry_after_delay cap_duration max_of base_of doubled
delay_of p attempt header = elim (retry_after_delay header) [
  | some d ↦ cap_duration d (max_of p)
  | none ↦ pos (doubled attempt (base_of p) (max_of p))
]

pub data Outcome : Type 0 where
  answered : ℕ → Outcome
  transport_error clone_error cancelled : Outcome
  -- The return after the loop, with the last error if there was one.
  after_loop : Outcome

-- What was sent and waited for, and how it ended.
pub record Trace : Type 0 where
  pub requests : ℕ
  pub delays : List ℤ
  pub outcome : Outcome

ended : ℕ → Outcome → Trace
ended n o = record { requests = n; delays = []; outcome = o }

waited : ℤ → Trace → Trace
waited d t = record t { requests = t.requests + 1; delays = d ∷ t.delays }

module _ (p : RetryPolicy) (req : Request) (reply : ℕ → Reply) (done : ℕ → Look → Bool) where
  -- The code's last attempt is number `retries_of p`, `left` counts those after this one.
  after_reply : (left attempt : ℕ) → Trace → Reply → Trace
  unfolding ended waited may_retry retryable_status delay_of
  after_reply left attempt rest (failed transient) =
      if done attempt failing
      then ended 1 cancelled
      else if left == 0 || not (may_retry p req attempt && transient)
      then ended 1 transport_error
      else if done attempt waiting
      then waited (delay_of p attempt absent) (ended 0 cancelled)
      else waited (delay_of p attempt absent) rest
  after_reply left attempt rest (response code header) =
      if left == 0 || not (may_retry p req attempt && retryable_status p code)
      then ended 1 (answered code)
      else if done attempt waiting
      then waited (delay_of p attempt header) (ended 0 cancelled)
      else waited (delay_of p attempt header) rest
  after_reply left attempt rest not_cloned = ended 0 clone_error

  attempts_from : ℕ → ℕ → Trace
  unfolding after_reply ended
  attempts_from zero attempt = ended 0 after_loop
  attempts_from (suc left) attempt =
      let rest = attempts_from left (attempt + 1) in
      if done attempt before
      then ended 0 cancelled
      else after_reply left attempt rest (reply attempt)

  unfoldable pub do_with_retry : Trace
  unfolding attempts_from retries_of
  do_with_retry = attempts_from (retries_of p + 1) 0
