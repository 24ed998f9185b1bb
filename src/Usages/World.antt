-- ===== src/Usages/World.antt =====
-- What the token refresher of internal/usages works on (target_refresher.go, target_refresh_run.go):
-- the profiles, its own state, the outcome of a run; failures, files and crashes.
use aimebu.Prelude.{
  Map, or_zero, lookup, insert, delete, Text, text_eq, if◌then◌else◌, ◌==◌, nat_eq, ℕ, ◌+◌, Bool,
  true, false, not, ◌&&◌, ◌||◌, Option, none, some, List, [],
}
use aimebu.Usages.StateStore.{
  Tool, claude, same_tool, Phase, spending, Change, clear_journal, StateStore, mutate, restart,
  journal_entry,
}
use aimebu.Usages.Rotation.{LastRotation, target_backoff}

-- The refresh token's hash, the access token, whether a login is newer than another, whether it is
-- complete, and when it expires.
pub record Format : Type 0 where
  pub token_hash : Tool → Text → Option Text
  pub access_token : Tool → Text → Text
  pub advanced : Tool → Text → Text → Bool
  pub valid_rotated : Tool → Text → Bool
  pub expires : Tool → Text → Option ℕ

-- `linked`: the stored file is a link to the live one. `file`: what it holds, if it can be read.
pub record Profile : Type 0 where
  pub tool : Tool
  pub name : Text
  pub active : Bool
  pub has_credentials : Bool
  pub linked : Bool
  pub file : Option Text
  pub switched_away_at : Option ℕ

pub record Attempt : Type 0 where
  pub failures : ℕ
  pub noops : ℕ
  pub next_try : ℕ

-- `launched` are the accounts with whose token the CLI was launched, the latest first, and `spent`
-- those whose token the provider has consumed; `respent` says whether the CLI was ever launched with
-- a token that was consumed before. The code knows none of the three.
pub record World : Type 0 where
  pub profiles : List Profile
  pub store : StateStore
  pub attempts : Map Text Attempt
  pub pending : Map Text Text
  pub files : Map Text Text
  pub last : Map Text LastRotation
  pub fanned_out : List (Text × Text)
  pub launched : List Text
  pub spent : List Text
  pub respent : Bool

pub record Settings : Type 0 where
  pub tool_on : Tool → Bool
  pub pending_login : Tool → Bool
  pub migrated_at : Tool → Option ℕ
  pub lead : Tool → ℕ

-- What the CLI did, and what its output says.
pub record CliResult : Type 0 where
  -- The client process exists, and the CLI in it ran.
  pub client_started : Bool
  pub started : Bool
  pub failed : Bool
  pub emptied : Bool
  pub says_rejected : Bool
  pub says_unsent : Bool
  -- The credential file that the run leaves behind.
  pub left : Text
  -- Whether the provider has consumed the token.
  pub consumed : Bool

pub data CrashPoint : Type 0 where
  never before_launch after_launch after_start before_commit : CrashPoint

abbrev pub at_point : CrashPoint → ℕ
at_point never = 0
at_point before_launch = 1
at_point after_launch = 2
at_point after_start = 3
at_point before_commit = 4

-- Which of the saves of the state file succeed.
pub record Saves : Type 0 where
  pub on_spend : Bool
  pub on_start : Bool
  pub on_rotate : Bool
  pub on_verdict : Bool
  pub on_clear : Bool

pub record Run : Type 0 where
  pub now : ℕ
  pub lock_free : Bool
  pub available : Bool
  pub reachable : Bool
  -- The directory of the throwaway copy, and the rescue file, if they can be written.
  pub temp_dir : Option Text
  pub rescue : Option Text
  pub cli : CliResult
  pub saves : Saves
  -- Whether the commit to the profile of a name succeeds.
  pub commits : Text → Bool
  pub crash : CrashPoint

pub data Outcome : Type 0 where
  refreshed unknown invalid_grant : Outcome
  not_sent : Bool → Outcome

-- classifyRefreshRun; the start token is not empty, since a run spends one.
unfoldable pub classify_refresh_run : Tool → CliResult → Bool → Outcome
classify_refresh_run tool run advanced =
    if advanced && not (run.left == [])
    then refreshed
    else if not run.started
    then not_sent false
    else if (same_tool tool claude && run.emptied) || run.says_rejected
    then invalid_grant
    else if not run.failed
    then not_sent true
    else if run.says_unsent
    then not_sent false
    else unknown

abbrev pub zero_attempt : Attempt
zero_attempt = record { failures = 0; noops = 0; next_try = 0 }

unfoldable pub attempt_of : Text → World → Attempt
attempt_of account w = or_zero (lookup account w.attempts) zero_attempt

-- noteFailure, and the same without the count of no-ops.
unfoldable pub note_failure : Text → Bool → ℕ → World → World
unfolding attempt_of target_backoff
note_failure account noop now w =
    let a = attempt_of account w in
    record w {
      attempts =
          insert account
            (record {
              failures = a.failures + 1;
              noops = if noop then a.noops + 1 else 0;
              next_try = now + target_backoff (a.failures + 1);
            })
            w.attempts;
    }

unfoldable pub back_off : Text → ℕ → World → World
unfolding attempt_of target_backoff
back_off account now w =
    let a = attempt_of account w in
    record w {
      attempts =
          insert account
            (record a {
              failures = a.failures + 1;
              next_try = now + target_backoff (a.failures + 1);
            })
            w.attempts;
    }

abbrev pub change : Bool → Change → World → World
change saved c w = record w { store = mutate saved c w.store }

-- A path that is not empty is removed.
unfoldable pub drop_file : Text → World → World
drop_file path w = if path == [] then w else record w { files = delete path w.files }

-- clearJournal ends an entry, and with it the throwaway copy that it names.
unfoldable pub end_journal : Bool → Tool → Text → World → World
unfolding drop_file journal_entry
end_journal saved tool name w =
    let ended = change saved (clear_journal tool name) w in
    elim (journal_entry tool name w.store) [ none ↦ ended | some e ↦ drop_file e.temp_dir ended ]

-- The process dies: what was in memory is gone.
unfoldable pub crashed : World → World
unfolding restart
crashed w = record w { store = restart w.store; attempts = []; pending = [] }

abbrev pub is_spending : Phase → Bool
is_spending spending = true
is_spending _ = false
