-- ===== src/Usages/Retry/Bounds.antt =====
-- How often a request is sent and how long is waited between.
use aimebu.Prelude.{
  ℤ, pos, negsuc, pos_part, All, text_eq, if◌then◌else◌, ◌==◌, Bool-cases, Option-cases, nat_eq, ℕ,
  zero, suc, ◌+◌, ◌*◌, ◌≤◌, ◌<◌, max, ◌≡◌, refl, inl, inr, Bool, true, false, not, ◌&&◌, ◌||◌,
  arith,
}
use aimebu.Usages.Retry.{
  not_cloned, clone_error, RetryAfter, absent, Reply, failed, response, Look, before, failing,
  waiting, RetryPolicy, Request, retries_of, base_of, max_of, retryable_method, retryable_status,
  may_retry, retry_after_delay, cap_duration, delay_of, Outcome, answered, transport_error,
  cancelled, after_loop, Trace, do_with_retry, ended, waited, doubled, after_reply, attempts_from,
}

abbrev pub AtMost : ℕ → ℤ → Type 0
AtMost max d = pos_part d ≤ max

doubled-le : (attempt delay max : ℕ) → doubled attempt delay max ≤ max
unfolding doubled
doubled-le zero delay max = omega arith
doubled-le (suc attempt) delay max = ground (arith, doubled-le attempt (2 * delay) max)

cap_duration-AtMost : (d : ℤ) (max : ℕ) → AtMost max (cap_duration d max)
unfolding cap_duration
cap_duration-AtMost (pos n) max = ground arith
cap_duration-AtMost (negsuc n) max = omega arith

delay_of-AtMost :
    (p : RetryPolicy) (attempt : ℕ) (header : RetryAfter)
    → AtMost (max_of p) (delay_of p attempt header)
unfolding delay_of
delay_of-AtMost p attempt header = elim (Option-cases (retry_after_delay header)) [
  | inl without ↦ rw (without, delay_of) (doubled-le attempt (base_of p) (max_of p))
  | inr (d, given) ↦ rw (given, delay_of) (cap_duration-AtMost d (max_of p))
]

abbrev pub is_after_loop : Outcome → Bool
is_after_loop after_loop = true
is_after_loop _ = false

-- At most `n` requests, no delay above the maximum, and an end within the loop.
abbrev pub Bounded : RetryPolicy → ℕ → Trace → Type 0
Bounded p n t =
    (t.requests ≤ n) × All (AtMost (max_of p)) t.delays × (is_after_loop t.outcome ≡ false)

module _ (p : RetryPolicy) (req : Request) (reply : ℕ → Reply) (done : ℕ → Look → Bool) where
  ended-Bounded :
      (n left : ℕ) (o : Outcome)
      → n ≤ 1
      → is_after_loop o ≡ false
      → Bounded p (left + 1) (ended n o)
  unfolding ended
  ended-Bounded n left o h k = (omega arith, tt, k)

  waited-Bounded :
      (left attempt : ℕ) (header : RetryAfter) (t : Trace)
      → Bounded p left t
      → Bounded p (left + 1) (waited (delay_of p attempt header) t)
  unfolding waited
  waited-Bounded left attempt header t h =
      (omega (arith, h.0), (delay_of-AtMost p attempt header, h.1), h.2)

  -- An attempt that goes on has others left.
  next-Bounded :
      (left attempt : ℕ) (header : RetryAfter) (rest : Trace) (retry stop : Bool)
      → (left == 0 || not retry) ≡ false
      → (0 < left → Bounded p left rest)
      → Bounded p (left + 1) (
          if stop
          then waited (delay_of p attempt header) (ended 0 cancelled)
          else waited (delay_of p attempt header) rest)
  unfolding ended
  next-Bounded zero attempt header rest retry stop go h = absurd (ground arith)
  next-Bounded (suc left) attempt header rest retry true go h =
      waited-Bounded (suc left) attempt header (ended 0 cancelled) (omega arith, tt, refl)
  next-Bounded (suc left) attempt header rest retry false go h =
      waited-Bounded (suc left) attempt header rest (h (omega arith))

  after_reply-Bounded :
      (left attempt : ℕ) (rest : Trace) (r : Reply)
      → (0 < left → Bounded p left rest)
      → Bounded p (left + 1) (after_reply p req reply done left attempt rest r)
  unfolding after_reply
  after_reply-Bounded left attempt rest (failed transient) h =
      elim (Bool-cases (done attempt failing)) [
        | inl stop ↦ rw stop (ended-Bounded 1 left cancelled (omega arith) refl)
        | inr on ↦ elim (Bool-cases (left == 0 || not (may_retry p req attempt && transient))) [
          | inl last ↦ rw on (rw last (ended-Bounded 1 left transport_error (omega arith) refl))
          | inr more ↦
              rw on
                (rw more (next-Bounded left attempt absent rest _ (done attempt waiting) more h))
        ]
      ]
  after_reply-Bounded left attempt rest (response code header) h =
      elim (Bool-cases (left == 0 || not (may_retry p req attempt && retryable_status p code))) [
        | inl last ↦ rw last (ended-Bounded 1 left (answered code) (omega arith) refl)
        | inr more ↦ rw more (next-Bounded left attempt header rest _ (done attempt waiting) more h)
      ]
  after_reply-Bounded left attempt rest not_cloned h =
      ended-Bounded 0 left clone_error (omega arith) refl

  at_suc : (left : ℕ) (t : Trace) → Bounded p (left + 1) t → Bounded p (suc left) t
  at_suc left t h = (omega (arith, h.0), h.1, h.2)

  attempts_from-Bounded :
      (left attempt : ℕ) → 0 < left → Bounded p left (attempts_from p req reply done left attempt)
  unfolding attempts_from
  attempts_from-Bounded zero attempt h = absurd (omega arith)
  attempts_from-Bounded (suc left) attempt h = elim (Bool-cases (done attempt before)) [
    | inl stop ↦
        rw stop
          (at_suc left (ended 0 cancelled) (ended-Bounded 0 left cancelled (omega arith) refl))
    | inr on ↦
        let rest = attempts_from p req reply done left (attempt + 1) in
        let reached = attempts_from-Bounded left (attempt + 1) in
        rw on (
          at_suc left (after_reply p req reply done left attempt rest (reply attempt))
            (after_reply-Bounded left attempt rest (reply attempt) reached))
  ]

  -- Whatever the client answers and whenever the context ends, the loop ends by one of its own
  -- returns, after at most one request more than the policy's retries, with the defaults put in, and
  -- no wait is longer than the policy's maximum.
  pub do_with_retry_bounds : Bounded p (retries_of p + 1) (do_with_retry p req reply done)
  unfolding do_with_retry
  do_with_retry_bounds = attempts_from-Bounded (retries_of p + 1) 0 (omega arith)

module _ (p : RetryPolicy) (req : Request) (reply : ℕ → Reply) (done : ℕ → Look → Bool) where
  after_reply-once :
      (left attempt : ℕ) (rest : Trace) (r : Reply)
      → may_retry p req attempt ≡ false
      → (after_reply p req reply done left attempt rest r).requests ≤ 1
  unfolding after_reply ended
  after_reply-once left attempt rest (failed transient) h = ground arith
  after_reply-once left attempt rest (response code header) h = ground arith
  after_reply-once left attempt rest not_cloned h = omega arith

  attempts_from-once :
      (left attempt : ℕ)
      → may_retry p req attempt ≡ false
      → (attempts_from p req reply done left attempt).requests ≤ 1
  unfolding attempts_from ended
  attempts_from-once zero attempt h = omega arith
  attempts_from-once (suc left) attempt h = ground (
    arith,
    after_reply-once left attempt (attempts_from p req reply done left (attempt + 1))
        (reply attempt) h,
  )

  refused : (retryable_method p req.method && req.can_replay) ≡ false → may_retry p req 0 ≡ false
  unfolding may_retry
  refused h = ground arith

  -- A request whose method is not to be retried, or whose body cannot be sent again, is sent at most
  -- once.
  pub do_with_retry_once :
      (retryable_method p req.method && req.can_replay) ≡ false
      → (do_with_retry p req reply done).requests ≤ 1
  unfolding do_with_retry
  do_with_retry_once h = attempts_from-once (retries_of p + 1) 0 (refused h)
