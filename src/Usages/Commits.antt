-- ===== src/Usages/Commits.antt =====
-- The commit of rotated credentials: holders to finishCommit and commitRotated of target_refresher.go,
-- and noteRotation of target_refresh_last.go.
use aimebu.Prelude.{
  length, any, is_some, or_zero, lookup, insert, delete, Text, text_eq, leb, if◌then◌else◌, ◌==◌,
  nat_eq, ℕ, Bool, false, not, ◌&&◌, ◌||◌, none, some, List, [], ◌∷◌,
}
use aimebu.Usages.StateStore.{Tool, same_tool, rotated, JournalEntry, key_of, set_journal}
use aimebu.Usages.Rotation.{}
use aimebu.Usages.World.{
  Format, Profile, World, at_point, Run, zero_attempt, back_off, change, drop_file, end_journal,
  crashed,
}

module _ (f : Format) where
  -- A profile whose own stored file holds the refresh token of that hash.
  unfoldable pub holds : Tool → Text → Profile → Bool
  holds tool hash p =
      same_tool p.tool tool
      && (not p.linked && elim p.file [
        | none ↦ false
        | some text ↦ elim (f.token_hash tool text) [ none ↦ false | some h ↦ h == hash ]
      ])

  -- A holder that does not carry the rotated login yet.
  unfoldable pub is_pending : Tool → Text → Text → Profile → Bool
  unfolding holds
  is_pending tool hash fresh p =
      holds tool hash p
      && not (
          not (f.access_token tool fresh == [])
          && f.access_token tool (or_zero p.file []) == f.access_token tool fresh)

  -- The profiles after the commit, and the names that it reached.
  unfoldable pub committed : Tool → Text → Text → (Text → Bool) → List Profile → List Profile
  unfolding is_pending
  committed tool hash fresh commits [] = []
  committed tool hash fresh commits (p ∷ ps) =
      (if is_pending tool hash fresh p && commits p.name then record p { file = some fresh } else p)
      ∷ committed tool hash fresh commits ps

  unfoldable pub reached : Tool → Text → Text → (Text → Bool) → List Profile → List Text
  unfolding is_pending
  reached tool hash fresh commits [] = []
  reached tool hash fresh commits (p ∷ ps) =
      let rest = reached tool hash fresh commits ps in
      if is_pending tool hash fresh p && commits p.name then p.name ∷ rest else rest

  -- Whether some profile still has the spent token after the commit.
  unfoldable pub unfinished : Tool → Text → Text → List Profile → Bool
  unfolding is_pending
  unfinished tool hash fresh ps = any (is_pending tool hash fresh) ps

  -- noteRotation and the fan-out, for each profile that the commit reached.
  unfoldable pub noted : Tool → Text → ℕ → List Text → World → World
  noted tool fresh now [] w = w
  noted tool fresh now (name ∷ names) w = noted tool fresh now names (record w {
    last = elim (f.expires tool fresh) [
      | none ↦ w.last
      | some e ↦ elim (f.token_hash tool fresh) [
        | none ↦ w.last
        | some h ↦
            insert (key_of tool name) (record { at = now; expires_at = e; token_hash = h }) w.last
      ]
    ];
    fanned_out = (key_of tool name, fresh) ∷ w.fanned_out;
  })

  -- The end of a commit that left no holder behind; the rescue stays if it reached nobody.
  unfoldable pub end_commit : Tool → Text → Text → Text → Text → Run → List Text → World → World
  unfolding noted end_journal drop_file
  end_commit tool name hash rescue fresh run names w =
      let account = key_of tool hash in
      let settled =
        end_journal run.saves.on_clear tool name
          (record w { pending = delete account w.pending }) in
      if leb (length names) 0
      then settled
      else noted tool fresh run.now names (
          drop_file rescue
            (record settled { attempts = insert account zero_attempt settled.attempts }))

  -- The commit of rotated credentials to every holder, the journal entry being `name`'s.
  unfoldable pub finish_commit : Tool → Text → Text → Text → Text → Run → World → World
  unfolding committed reached unfinished back_off end_commit
  finish_commit tool name hash rescue fresh run w =
      let done = record w { profiles = committed tool hash fresh run.commits w.profiles } in
      if unfinished tool hash fresh done.profiles
      then back_off (key_of tool hash) run.now done
      else end_commit tool name hash rescue fresh run
          (reached tool hash fresh run.commits w.profiles) done

  -- commitRotated: the new credentials are stored first, then journaled, then committed.
  unfoldable pub commit_rotated : Profile → Text → Run → World → World
  unfolding finish_commit drop_file
  commit_rotated p hash run w =
      let tool = p.tool in
      let held = record w {
        files = elim run.rescue [ none ↦ w.files | some path ↦ insert path run.cli.left w.files ];
        pending = insert (key_of tool hash) run.cli.left w.pending;
      } in
      let entry : JournalEntry = record {
        tool = tool;
        name = p.name;
        phase = rotated;
        spent_hash = hash;
        rescue = or_zero run.rescue [];
        temp_dir = if is_some run.rescue then [] else or_zero run.temp_dir [];
        started_at = run.now;
      } in
      let journaled = change run.saves.on_rotate (set_journal entry) held in
      let after =
        finish_commit tool p.name hash (or_zero run.rescue []) run.cli.left run journaled in
      let kept_copy =
        (not (is_some run.rescue) || not run.saves.on_rotate)
        && is_some (lookup (key_of tool hash) after.pending) in
      if at_point run.crash == 4
      then crashed journaled
      else if kept_copy
      then after
      else drop_file (or_zero run.temp_dir []) after
