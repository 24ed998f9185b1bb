-- ===== src/Usages/StateStore.antt =====
-- internal/usages/target_refresh_state.go: what the token refresher remembers across restarts, the
-- runs in flight and the accounts that need a human. The file is `disk`; a change whose save failed
-- is kept and applied again on whatever is read next. Whether the lock and the write succeed is an
-- argument; a file that cannot be read is not modelled. One process runs at a time.
pub mod Saving
use aimebu.Prelude.{
  length, drop, Map, lookup, insert, delete, Text, bytes, text_eq, ltb, if◌then◌else◌, nat_eq, ℕ,
  ◌-◌, ◌/◌, Bool, true, false, Option, List, [], ◌∷◌, ◌++◌,
}

pub data Tool : Type 0 where
  claude codex : Tool

abbrev pub tool_text : Tool → Text
tool_text claude = bytes "claude"
tool_text codex = bytes "codex"

abbrev pub same_tool : Tool → Tool → Bool
same_tool claude claude = true
same_tool codex codex = true
same_tool _ _ = false

-- How far a run got: about to launch the CLI, the CLI was launched, its new credentials are stored.
pub data Phase : Type 0 where
  spending started rotated : Phase

pub record JournalEntry : Type 0 where
  pub tool : Tool
  pub name : Text
  pub phase : Phase
  pub spent_hash : Text
  pub rescue : Text
  pub temp_dir : Text
  pub started_at : ℕ

pub data AccountState : Type 0 where
  reauth_required needs_relogin_soon : AccountState

pub record AccountEntry : Type 0 where
  pub tool : Tool
  pub name : Text
  pub state : AccountState
  pub spent_hash : Text
  pub since : ℕ

pub record StateData : Type 0 where
  pub journal : Map Text JournalEntry
  pub accounts : Map Text AccountEntry

-- journalKey and accountKey
abbrev pub key_of : Tool → Text → Text
key_of tool name = tool_text tool ++ (bytes "/" ++ name)

-- The changes that the store is asked for.
pub data Change : Type 0 where
  set_journal : JournalEntry → Change
  clear_journal : Tool → Text → Change
  set_account : AccountEntry → Change

unfoldable pub apply : Change → StateData → StateData
apply (set_journal e) d = record d { journal = insert (key_of e.tool e.name) e d.journal }
apply (clear_journal tool name) d = record d { journal = delete (key_of tool name) d.journal }
apply (set_account e) d = record d { accounts = insert (key_of e.tool e.spent_hash) e d.accounts }

unfoldable pub apply_all : List Change → StateData → StateData
unfolding apply
apply_all [] d = d
apply_all (c ∷ cs) d = apply_all cs (apply c d)

pub record StateStore : Type 0 where
  pub disk : StateData
  pub unsaved : List Change

-- viewLocked
unfoldable pub view : StateStore → StateData
unfolding apply_all
view s = apply_all s.unsaved s.disk

-- noteSaveFailure keeps the newest 256.
keep_newest : List Change → List Change
keep_newest cs = if ltb 256 (length cs) then drop (length cs - 256) cs else cs

-- One read, change and write; `saved` says whether the lock and the write succeed.
unfoldable pub mutate : Bool → Change → StateStore → StateStore
unfolding view keep_newest apply
mutate true c s = record { disk = apply c (view s); unsaved = [] }
mutate false c s = record s { unsaved = keep_newest (s.unsaved ++ c ∷ []) }

-- The process dies and starts again.
unfoldable pub restart : StateStore → StateStore
restart s = record s { unsaved = [] }

unfoldable pub journal_entry : Tool → Text → StateStore → Option JournalEntry
unfolding view
journal_entry tool name s = lookup (key_of tool name) (view s).journal

unfoldable pub account_entry : Tool → Text → StateStore → Option AccountEntry
unfolding view
account_entry tool hash s = lookup (key_of tool hash) (view s).accounts
