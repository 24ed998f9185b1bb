-- ===== src/Usages/Refresher.antt =====
-- The token refresher of internal/usages (target_refresher.go, target_refresh_run.go): one refresh
-- of one profile by the spend-once protocol, and the recovery after a crash. What the credential
-- files hold is read by functions that stand for the parsers of claude.go and codex.go. Everything
-- outside the process (the CLI, the disk, docker, locks) is an argument of the call, and so is the
-- point at which the process dies, if it does. Alerts and logs are not modelled.
pub mod Commit
pub mod Follows
pub mod Parts
pub mod Spending
pub mod Settled
pub mod Runs
pub mod Launched
pub mod Spent
pub mod Recovered
pub mod Gate
pub mod Gap
pub mod Once
use aimebu.Prelude.{
  select, Map, is_some, or_zero, lookup, insert, delete, contains, Text, text_eq, ltb,
  if◌then◌else◌, ◌==◌, nat_eq, ◌+◌, ◌*◌, Bool, true, false, not, ◌&&◌, ◌||◌, Option, none, some,
  List, [], ◌∷◌,
}
use aimebu.Usages.StateStore.{
  Tool, codex, same_tool, Phase, spending, started, JournalEntry, AccountState, reauth_required,
  needs_relogin_soon, key_of, set_journal, set_account, journal_entry, account_entry,
}
use aimebu.Usages.Rotation.{minute, target_profile_due, effective_lead}
use aimebu.Usages.World.{
  Format, Profile, World, Settings, at_point, Run, Outcome, refreshed, unknown, invalid_grant,
  not_sent, classify_refresh_run, attempt_of, note_failure, back_off, change, drop_file,
  end_journal, crashed, is_spending,
}
use aimebu.Usages.Commits.{holds, committed, reached, unfinished, noted, commit_rotated}

module _ (f : Format) where
  pub entry_at : Phase → Profile → Text → Run → JournalEntry
  entry_at phase p hash run = record {
    tool = p.tool;
    name = p.name;
    phase = phase;
    spent_hash = hash;
    rescue = [];
    temp_dir = or_zero run.temp_dir [];
    started_at = run.now;
  }

  -- A verdict ends the journal entry only if it could be saved.
  pub settle : AccountState → Tool → Text → Text → Text → Run → World → World
  unfolding end_journal
  settle verdict tool name hash entry run w =
      let told =
        change run.saves.on_verdict
          (set_account (record {
            tool = tool;
            name = name;
            state = verdict;
            spent_hash = hash;
            since = run.now;
          }))
          w in
      if run.saves.on_verdict then end_journal run.saves.on_clear tool entry told else told

  pub settle_run : Outcome → Profile → Text → Run → World → World
  unfolding commit_rotated settle note_failure end_journal drop_file
  settle_run refreshed p hash run w = commit_rotated f p hash run w
  settle_run (not_sent noop) p hash run w = drop_file (or_zero run.temp_dir []) (
      note_failure (key_of p.tool hash) noop run.now
        (end_journal run.saves.on_clear p.tool p.name w))
  settle_run invalid_grant p hash run w =
      drop_file (or_zero run.temp_dir []) (settle reauth_required p.tool p.name hash p.name run w)
  settle_run unknown p hash run w =
      drop_file (or_zero run.temp_dir [])
        (settle needs_relogin_soon p.tool p.name hash p.name run w)

  unfoldable pub outcome_of : Profile → Text → Run → Outcome
  unfolding classify_refresh_run
  outcome_of p start run =
      classify_refresh_run p.tool run.cli (f.advanced p.tool start run.cli.left)

  -- The CLI is launched: from here the token may be spent. The throwaway copy enters `files` with what
  -- the CLI leaves in it; before, it holds the login that was copied, which is not newer than itself.
  pub launch : Tool → Text → Run → World → World
  launch tool hash run w =
      let account = key_of tool hash in
      record w {
        launched = account ∷ w.launched;
        respent = w.respent || contains account w.spent;
        spent = if run.cli.consumed then account ∷ w.spent else w.spent;
        files = elim run.temp_dir [ none ↦ w.files | some dir ↦ insert dir run.cli.left w.files ];
      }

  unfoldable pub spend : Profile → Text → Text → Run → World → World
  unfolding entry_at launch outcome_of settle_run note_failure
  spend p start hash run w =
      let account = key_of p.tool hash in
      let journaled = change run.saves.on_spend (set_journal (entry_at spending p hash run)) w in
      let running =
        if run.cli.client_started then launch p.tool hash run journaled else journaled in
      let marked =
        if run.cli.client_started
        then change run.saves.on_start (set_journal (entry_at started p hash run)) running
        else running in
      if not (is_some run.temp_dir)
      then note_failure account false run.now w
      else if not run.saves.on_spend
      then note_failure account false run.now journaled
      else if at_point run.crash == 1
      then crashed journaled
      else if at_point run.crash == 2
      then crashed running
      else if at_point run.crash == 3
      then crashed marked
      else settle_run (outcome_of p start run) p hash run marked

  -- recoverRotated: the new credentials of an interrupted run, from the rescue file, from memory, or
  -- from the throwaway copy.
  valid_at : Tool → Map Text Text → Text → Option Text
  valid_at tool files path = elim (lookup path files) [
    | none ↦ none
    | some text ↦ if f.valid_rotated tool text then some text else none
  ]

  first_of : Option Text → Option Text → Option Text
  first_of (some a) b = some a
  first_of none b = b

  pub recover_rotated : JournalEntry → Text → World → Option Text
  unfolding valid_at first_of
  recover_rotated e spent w =
      let rescued = if e.rescue == [] then none else valid_at e.tool w.files e.rescue in
      let held = valid_at e.tool w.pending (key_of e.tool e.spent_hash) in
      let copied = if e.temp_dir == [] then none else elim (valid_at e.tool w.files e.temp_dir) [
        | none ↦ none
        | some text ↦ if f.advanced e.tool spent text then some text else none
      ] in
      first_of rescued (first_of held copied)

  -- What is done with the new credentials that were found: a commit that stays unfinished is an error.
  pub recover_commit : JournalEntry → Text → Run → World → World × Bool
  unfolding committed reached unfinished noted end_journal drop_file
  recover_commit e text run w =
      let account = key_of e.tool e.spent_hash in
      let done = record w {
        profiles = committed f e.tool e.spent_hash text run.commits w.profiles;
      } in
      if unfinished f e.tool e.spent_hash text done.profiles
      then (record done { pending = insert account text done.pending }, true)
      else (
        noted f e.tool text run.now (reached f e.tool e.spent_hash text run.commits w.profiles) (
            end_journal run.saves.on_clear e.tool e.name
              (drop_file e.rescue (record done { pending = delete account done.pending }))),
        false,
      )

  -- recoverEntry, and whether the entry must stay, from the holders on.
  recover_held : List Profile → JournalEntry → Run → World → World × Bool
  unfolding recover_rotated settle recover_commit end_journal
  recover_held [] e run w = (
    end_journal run.saves.on_clear e.tool e.name
        (record w { pending = delete (key_of e.tool e.spent_hash) w.pending }),
    false,
  )
  recover_held (h ∷ hs) e run w = elim (recover_rotated e (or_zero h.file []) w) [
    | some text ↦ recover_commit e text run w
    | none ↦ (
      if is_spending e.phase
          then end_journal run.saves.on_clear e.tool e.name w
          else settle needs_relogin_soon e.tool h.name e.spent_hash e.name run w,
      false,
    )
  ]

  unfoldable pub recover_entry : JournalEntry → Run → World → World × Bool
  unfolding holds recover_held
  recover_entry e run w = recover_held (select (holds f e.tool e.spent_hash) w.profiles) e run w

  -- journalFor: the entry of that profile, if it belongs to that token.
  pub journal_for : Tool → Text → Text → World → Option JournalEntry
  unfolding journal_entry
  journal_for tool name hash w = elim (journal_entry tool name w.store) [
    | none ↦ none
    | some e ↦
        if same_tool e.tool tool && (e.name == name && e.spent_hash == hash) then some e else none
  ]

  -- settleLeftover: an entry that must stay backs the account off.
  pub settle_leftover : JournalEntry → Run → World → World
  unfolding recover_entry back_off
  settle_leftover e run w =
      let (after, stays) = recover_entry e run w in
      if stays then back_off (key_of e.tool e.spent_hash) run.now after else after

  -- The gates before the token is read.
  pub is_due : Settings → Profile → Text → Text → Run → World → Bool
  unfolding effective_lead target_profile_due
  is_due set p text hash run w =
      let (lead, too_soon) =
        effective_lead (set.lead p.tool) (lookup (key_of p.tool p.name) w.last) hash run.now in
      p.has_credentials
      && (set.tool_on p.tool
          && (not (p.active && set.pending_login p.tool)
              && (not p.linked
                  && (not too_soon && target_profile_due (f.expires p.tool text) run.now lead))))

  -- A profile that was just switched away from, and codex just after its migration, are left alone.
  pub is_settling : Settings → Bool → Profile → Run → Bool
  is_settling set holds_lock p run =
      not holds_lock
      && (elim p.switched_away_at [ none ↦ false | some at ↦ ltb run.now (at + 2 * minute) ]
          || (same_tool p.tool codex && elim (set.migrated_at p.tool) [
            | none ↦ false
            | some at ↦ ltb run.now (at + 10 * minute)
          ]))

  -- refreshProfile, from the point at which the stored credential has been read; no one else writes
  -- it before the run, so that reading it again under the lock finds the same.
  pub refresh_account : Settings → Bool → Profile → Text → Text → Run → World → World
  unfolding is_due is_settling journal_for settle_leftover note_failure account_entry spend
      attempt_of
  refresh_account set holds_lock p text hash run w =
      let account = key_of p.tool hash in
      if is_settling set holds_lock p run || not (is_due set p text hash run w)
      then w
      else if is_some (account_entry p.tool hash w.store)
      then w
      else if ltb run.now (attempt_of account w).next_try
      then w
      else if not holds_lock && not run.lock_free
      then w
      else elim (journal_for p.tool p.name hash w) [
        | some e ↦ settle_leftover e run w
        | none ↦
            if not run.available || not run.reachable
            then note_failure account false run.now w
            else spend p text hash run w
      ]

  unfoldable pub refresh_profile : Settings → Bool → Profile → Run → World → World
  unfolding refresh_account
  refresh_profile set holds_lock p run w = elim p.file [
    | none ↦ w
    | some text ↦ elim (f.token_hash p.tool text) [
      | none ↦ w
      | some hash ↦ refresh_account set holds_lock p text hash run w
    ]
  ]
