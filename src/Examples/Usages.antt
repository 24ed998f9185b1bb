-- ===== src/Examples/Usages.antt =====
-- Tests and examples for internal/usages.
use aimebu.Prelude.{
  pos, negsuc, bytes, same, text_eq, nat_eq, ℕ, zero, suc, ◌+◌, ◌-◌, ◌*◌, ◌^◌, ◌≤◌, ◌≡◌, refl, Bool,
  true, false, ◌&&◌, List, [], ◌∷◌, arith,
}
use aimebu.Usages.Retry.{
  second, absent, seconds, Reply, failed, response, Look, RetryPolicy, Request, retries_of,
  retryable_method, delay_of, answered, do_with_retry,
}
use aimebu.Usages.Retry.Bounds.{Bounded, do_with_retry_bounds, do_with_retry_once}
use aimebu.Usages.StateStore.{
  claude, started, JournalEntry, reauth_required, AccountEntry, Change, set_journal, clear_journal,
  set_account, apply, apply_all, StateStore, view, mutate,
}
use aimebu.Usages.StateStore.Saving.{mutate_all, changes, mutate_all-view}

abbrev policy : RetryPolicy
policy = record {
  max_retries = pos 2;
  retryable_status_codes = [];
  retryable_methods = [];
  base_delay = pos 0;
  max_delay = pos 0;
}

abbrev get : Request
get = record { method = bytes "get"; can_replay = true }

abbrev post : Request
post = record { method = bytes "POST"; can_replay = true }

-- Busy twice, then fine.
abbrev busy : ℕ → Reply
busy zero = response 503 (seconds (pos 60))
busy (suc zero) = failed true
busy _ = response 200 absent

abbrev calm : ℕ → Look → Bool
calm attempt look = false

retried : do_with_retry policy get busy calm ≡ record {
  requests = 3;
  delays = pos (10 * second) ∷ pos (2 * second) ∷ [];
  outcome = answered 200;
}
unfolding do_with_retry same
retried = refl

not_retried :
    do_with_retry policy post busy calm
    ≡ record { requests = 1; delays = []; outcome = answered 503 }
unfolding do_with_retry same
not_retried = refl

do_with_retry_bounds_example :
    Bounded policy (retries_of policy + 1) (do_with_retry policy get busy calm)
do_with_retry_bounds_example = do_with_retry_bounds policy get busy calm

post_refused : (retryable_method policy post.method && post.can_replay) ≡ false
unfolding retryable_method same
post_refused = refl

do_with_retry_once_example : (do_with_retry policy post busy calm).requests ≤ 1
do_with_retry_once_example = do_with_retry_once policy post busy calm post_refused

-- The longest Retry-After that is read, and one that wraps to a negative delay.
long_wait : delay_of policy 0 (seconds (pos 9_000_000_000)) ≡ pos (10 * second)
unfolding delay_of
long_wait = refl

wrapped_wait :
    delay_of policy 0 (seconds (pos 10_000_000_000)) ≡ negsuc (2 ^ 64 - 10_000_000_000 * second - 1)
unfolding delay_of
wrapped_wait = refl

abbrev entry : JournalEntry
entry = record {
  tool = claude;
  name = bytes "work";
  phase = started;
  spent_hash = bytes "h";
  rescue = [];
  temp_dir = bytes "/tmp/a";
  started_at = 5;
}

abbrev verdict : AccountEntry
verdict = record {
  tool = claude;
  name = bytes "work";
  state = reauth_required;
  spent_hash = bytes "h";
  since = 6;
}

abbrev fresh_store : StateStore
fresh_store = record { disk = record { journal = []; accounts = [] }; unsaved = [] }

abbrev calls : List (Bool × Change)
calls = (false, set_journal entry) ∷ (false, set_account verdict) ∷ []

mutate_all-view_example :
    (view (mutate_all calls fresh_store) ≡ apply_all (changes calls) (view fresh_store))
    × ((mutate true (clear_journal claude (bytes "work")) (mutate_all calls fresh_store)).disk
        ≡ apply
            (clear_journal claude (bytes "work"))
            (apply_all (changes calls) (view fresh_store)))
mutate_all-view_example =
    mutate_all-view calls (clear_journal claude (bytes "work")) fresh_store
      (omega arith, (omega arith, tt))
